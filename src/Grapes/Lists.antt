-- ===== src/Grapes/Lists.antt =====
-- Sets of chunk ids as lists, and a buffer of chunks as a list: what the interfaces ask for can be had.
use streamers.Common.{
  ℕ, suc, ◌≤◌, ◌≡◌, refl, Bool, false, Bool-cases, inl, inr, Option, none, some, List, [], ◌∷◌,
  ◌++◌, arith, if◌then◌else◌, ◌==◌, ◌||◌, length, get_or, min, any, ap, true,
}
use mathlib.Core.Path.{subst}
use streamers.Chunk.{Chunk}
use streamers.Grapes.{ChunkIdSets, ChunkBuffers, added, AddResult}

abbrev has : List ℕ → ℕ → Bool
has [] c = false
has (d ∷ s) c = (c == d) || has s c

pub has-append : (s t : List ℕ) (c : ℕ) → has (s ++ t) c ≡ (has s c || has t c)
has-append [] t c = refl
has-append (d ∷ s) t c = ground (arith, has-append s t c)

abbrev earliest : List ℕ → ℕ
earliest [] = 0
earliest (d ∷ []) = d
earliest (d ∷ e ∷ s) = min d (earliest (e ∷ s))

pub size-cons : (s : List ℕ) (c : ℕ) → length (c ∷ s) ≤ suc (length s)
size-cons s c = omega arith

abbrev pub list_sets : ChunkIdSets
list_sets = record {
  ChunkIdSet = List ℕ;
  init = [];
  add_chunk = λ s c. c ∷ s;
  check = has;
  size = length;
  get_chunk = λ s i. get_or s i 0;
  get_earliest = earliest;
  clear = λ s. [];
  union = λ s t. s ++ t;
  check-init = λ c. refl;
  check-add_chunk = λ s c d. refl;
  check-clear = λ s c. refl;
  check-union = has-append;
  size-init = refl;
  size-add_chunk = size-cons;
}

abbrev find_id : List Chunk → ℕ → Option Chunk
find_id [] id = none
find_id (c ∷ cb) id = if c.id == id then some c else find_id cb id

pub find_id_lem : (cb : List Chunk) (id : ℕ) {c : Chunk} → find_id cb id ≡ some c → c.id ≡ id
find_id_lem [] id h = cc
find_id_lem (d ∷ cb) id {c} h = ground (arith, find_id_lem cb id {c = c})

pub find_id_held :
    (cb : List Chunk) (id : ℕ)
    → any (λ (d : Chunk). d.id == id) cb ≡ true
    → (c : Chunk) × (find_id cb id ≡ some c)
find_id_held [] id h = absurd cc
find_id_held (d ∷ cb) id h = elim (Bool-cases (d.id == id)) [
  | inl e ↦ (d, rw (e) refl)
  | inr n ↦ let (c, f) = find_id_held cb id (rw (n) at h) in (c, rw (n) f)
]

last_held : (cb : List Chunk) (c : Chunk) → any (λ (d : Chunk). d.id == c.id) (cb ++ c ∷ []) ≡ true
last_held [] c = ground arith
last_held (d ∷ cb) c = ground (arith, last_held cb c)

pub appended :
    (cb : List Chunk) (c : Chunk) {cb' : List Chunk}
    → ◌≡◌ {A = AddResult × List Chunk} (added, cb ++ c ∷ []) (added, cb')
    → any (λ (d : Chunk). d.id == c.id) cb' ≡ true
appended cb c {cb'} h =
    let e : cb ++ c ∷ [] ≡ cb' = ap (λ (r : AddResult × List Chunk). r.1) h in
    subst (λ (l : List Chunk). any (λ (d : Chunk). d.id == c.id) l ≡ true) e (last_held cb c)

abbrev pub list_buffers : ChunkBuffers
list_buffers = record {
  add_chunk = λ cb c. (added, cb ++ c ∷ []);
  get_chunk = find_id;
  add_chunk-added = appended;
  get_chunk-held = find_id_held;
  get_chunk-id = find_id_lem;
}
