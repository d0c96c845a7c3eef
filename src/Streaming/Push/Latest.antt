-- ===== src/Streaming/Push/Latest.antt =====
-- The latest chunk of a buffer, and lists in which a place is written.
use mathlib.Core.Path.{subst}
use streamers.Common.{
  ℕ, zero, suc, ◌≡◌, refl, ◌⊎◌, inl, inr, true, some, List, [], ◌∷◌, ◌++◌, arith, ◌==◌, get_elem?,
  set, take, any, All, Bool-cases, some_inj, if◌then◌else◌,
}
use streamers.Chunk.{Chunk}
use streamers.Streaming.Attributes.{chunk_attributes_update_sending, update_chunk, sending-id}
use streamers.Streaming.Push.{latest_first}

module _ {ℓ} {A : Type ℓ} where
  pub All-set : (P : A → Type 0) (xs : List A) (i : ℕ) (v : A) → P v → All P xs → All P (set xs i v)
  All-set P [] i v p h = tt
  All-set P (x ∷ xs) zero v p h = (p, h.1)
  All-set P (x ∷ xs) (suc i) v p h = (h.0, All-set P xs i v p h.1)

  pub All-get :
      (P : A → Type 0) (xs : List A) (i : ℕ) (a : A) → get_elem? xs i ≡ some a → All P xs → P a
  All-get P [] i a e h = absurd cc
  All-get P (x ∷ xs) zero a e h = subst P (some_inj e) h.0
  All-get P (x ∷ xs) (suc i) a e h = All-get P xs i a e h.1

-- The latest chunk, if there is one, is held.
pub any-append_one :
    (xs : List ℕ) (x c : ℕ)
    → any (λ d. d == c) (xs ++ x ∷ []) ≡ true
    → (any (λ d. d == c) xs ≡ true) ⊎ ((x == c) ≡ true)
any-append_one [] x c h = ground arith
any-append_one (y ∷ xs) x c h = ground (arith, any-append_one xs x c)

pub any-latest_first :
    (cb : List Chunk) (c : ℕ)
    → any (λ d. d == c) (latest_first cb) ≡ true
    → any (λ (d : Chunk). d.id == c) cb ≡ true
any-latest_first [] c h = h
any-latest_first (d ∷ cb) c h =
    ground (arith, any-append_one (latest_first cb) d.id c h, any-latest_first cb c)

pub any-take :
    (n c : ℕ) (xs : List ℕ) → any (λ d. d == c) (take n xs) ≡ true → any (λ d. d == c) xs ≡ true
any-take zero c xs h = absurd cc
any-take (suc n) c [] h = h
any-take (suc n) c (x ∷ xs) h = ground (arith, any-take n c xs)

pub latest_first-update_chunk :
    (id : ℕ) (cb : List Chunk)
    → latest_first (update_chunk chunk_attributes_update_sending id cb) ≡ latest_first cb
unfolding update_chunk
latest_first-update_chunk id [] = refl
latest_first-update_chunk id (c ∷ cs) =
    let tail = latest_first-update_chunk id cs in
    let head : (if c.id == id then chunk_attributes_update_sending c else c).id ≡ c.id =
      elim (Bool-cases (c.id == id)) [ inl e ↦ rw (e) (sending-id c) | inr e ↦ rw (e) refl ] in
    cc
