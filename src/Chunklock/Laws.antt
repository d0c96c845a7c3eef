-- ===== src/Chunklock/Laws.antt =====
-- What the lock table of chunklock.c promises: which locks hold, and that it never writes past its
-- array.
use streamers.Common.{
  ℕ, zero, suc, ◌+◌, ◌≤◌, ◌<◌, ◌≡◌, refl, ap, ◌∙◌, ◌↔◌, Bool, true, false, not, Option, none, some,
  List, [], ◌∷◌, ◌++◌, arith, if◌then◌else◌, ◌==◌, ◌&&◌, length, length-append, get_elem?, take,
  drop, keep, any, Bool-cases, ◌⊎◌, inl, inr,
}
use mathlib.Core.List.{append_assoc, append-nil}
use streamers.Timer.{Timeval, IsNormal, tv2int, timeradd, timeradd_lem, timer_lt_iff}
use streamers.Chunklock.{
  Lock, Locks, toutdiff, locks_init, chunk_lock_timed_out, remove_at, timed_out_at, cleanup_loop,
  chunk_locks_cleanup, chunk_lock, find_chunk, chunk_unlock, chunk_islocked,
}

abbrev pub fresh : Timeval → Lock → Bool
fresh now l = not (chunk_lock_timed_out now l)

take-remove_at : (i : ℕ) (ls : List Lock) → take i (remove_at i ls) ≡ take i ls
unfolding remove_at
take-remove_at zero ls = refl
take-remove_at (suc i) [] = refl
take-remove_at (suc i) (l ∷ ls) = ap (λ xs. l ∷ xs) (take-remove_at i ls)

drop-remove_at : (i : ℕ) (ls : List Lock) → drop i (remove_at i ls) ≡ drop (suc i) ls
unfolding remove_at
drop-remove_at zero [] = refl
drop-remove_at zero (l ∷ ls) = refl
drop-remove_at (suc i) [] = refl
drop-remove_at (suc i) (l ∷ ls) = drop-remove_at i ls

keep-append : (p : Lock → Bool) (xs ys : List Lock) → keep p (xs ++ ys) ≡ keep p xs ++ keep p ys
keep-append p [] ys = refl
keep-append p (x ∷ xs) ys = elim (Bool-cases (p x)) [
  | inl e ↦ rw (e, keep-append p xs ys)
  | inr e ↦ rw (e, keep-append p xs ys)
]

-- The entry at an index, between the entries before it and those behind it.
record Split (i : ℕ) (ls : List Lock) : Type 0 where
  at : Lock
  found : get_elem? ls i ≡ some at
  before : take (suc i) ls ≡ take i ls ++ at ∷ []
  behind : drop i ls ≡ at ∷ drop (suc i) ls

split : (i : ℕ) (ls : List Lock) → i < length ls → Split i ls
split i [] h = elim h [ ]
split zero (l ∷ ls) h = record { at = l; found = refl; before = refl; behind = refl }
split (suc i) (l ∷ ls) h =
    let r = split i ls (omega arith) in
    record { at = r.at; found = r.found; before = ap (λ xs. l ∷ xs) r.before; behind = r.behind }

take_all : (ls : List Lock) → take (length ls) ls ≡ ls
take_all [] = refl
take_all (l ∷ ls) = ap (λ xs. l ∷ xs) (take_all ls)

drop_all : (ls : List Lock) → drop (length ls) ls ≡ []
drop_all [] = refl
drop_all (l ∷ ls) = drop_all ls

length-remove_at :
    (i : ℕ) (ls : List Lock) → i < length ls → suc (length (remove_at i ls)) ≡ length ls
unfolding remove_at
length-remove_at i [] h = elim h [ ]
length-remove_at zero (l ∷ ls) h = refl
length-remove_at (suc i) (l ∷ ls) h = ap suc (length-remove_at i ls (omega arith))

keep-before :
    (now : Timeval) (i : ℕ) (ls : List Lock) (s : Split i ls)
    → keep (fresh now) (take (suc i) ls)
      ≡ keep (fresh now) (take i ls) ++ (if fresh now s.at then s.at ∷ [] else [])
keep-before now i ls s =
    ap (keep (fresh now)) s.before ∙ keep-append (fresh now) (take i ls) (s.at ∷ [])

timed_out_at-Split :
    (now : Timeval) (i : ℕ) (ls : List Lock) (s : Split i ls)
    → timed_out_at now ls i ≡ chunk_lock_timed_out now s.at
unfolding timed_out_at
timed_out_at-Split now i ls s = rw (s.found, timed_out_at)

-- The loop has looked at the entries behind the first `n`, and goes on with those.
cleanup_loop-keep :
    (now : Timeval) (n : ℕ) (ls : List Lock)
    → n ≤ length ls
    → cleanup_loop now n ls ≡ keep (fresh now) (take n ls) ++ drop n ls
unfolding cleanup_loop
cleanup_loop-keep now zero ls h = refl
cleanup_loop-keep now (suc i) ls h =
    let s = split i ls h in
    elim (Bool-cases (chunk_lock_timed_out now s.at)) [
      | inl old ↦
          let before : keep (fresh now) (take (suc i) ls) ≡ keep (fresh now) (take i ls) =
            keep-before now i ls s ∙ (rw (old, append-nil)) in
          rw (timed_out_at-Split now i ls s, old, before)
            (cleanup_loop-keep now i (remove_at i ls) (omega (arith, length-remove_at i ls h))
              ∙ rw (take-remove_at, drop-remove_at))
      | inr new ↦
          let before : keep (fresh now) (take (suc i) ls)
              ≡ keep (fresh now) (take i ls) ++ s.at ∷ [] =
            keep-before now i ls s ∙ (rw new) in
          rw (timed_out_at-Split now i ls s, new, before, append_assoc)
            (cleanup_loop-keep now i ls (omega arith) ∙ rw (s.behind))
    ]

-- `chunk_locks_cleanup` drops exactly the locks that have run out, and keeps the order of the rest.
pub chunk_locks_cleanup-keep :
    (now : Timeval) (s : Locks)
    → chunk_locks_cleanup now s ≡ record s { locks = keep (fresh now) s.locks }
unfolding chunk_locks_cleanup
chunk_locks_cleanup-keep now s =
    let e : cleanup_loop now (length s.locks) s.locks ≡ keep (fresh now) s.locks =
      cleanup_loop-keep now (length s.locks) s.locks (omega arith)
      ∙ (rw (take_all, drop_all, append-nil)) in
    ap (λ ls. record s { locks = ls }) e

abbrev pub is_some : Option ℕ → Bool
is_some none = false
is_some (some i) = true

abbrev pub holds : ℕ → Lock → Bool
holds chunkid l = l.chunkid == chunkid

find_chunk-any :
    (chunkid i : ℕ) (ls : List Lock) → is_some (find_chunk chunkid i ls) ≡ any (holds chunkid) ls
unfolding find_chunk
find_chunk-any chunkid i [] = refl
find_chunk-any chunkid i (l ∷ ls) = ground (arith, find_chunk-any chunkid (suc i) ls)

any-keep : (p q : Lock → Bool) (ls : List Lock) → any p (keep q ls) ≡ any (λ l. q l && p l) ls
any-keep p q [] = refl
any-keep p q (l ∷ ls) = ground (arith, any-keep p q ls)

found_lem : (o : Option ℕ) → elim o [ none ↦ false | some i ↦ true ] ≡ is_some o
found_lem none = refl
found_lem (some i) = refl

-- `chunk_islocked` says yes exactly if the table has a lock of that chunk which has not run out.
pub chunk_islocked-any :
    (now : Timeval) (chunkid : ℕ) (s : Locks)
    → (chunk_islocked now chunkid s).0 ≡ any (λ l. fresh now l && holds chunkid l) s.locks
unfolding chunk_islocked
chunk_islocked-any now chunkid s =
    rw (chunk_islocked, chunk_locks_cleanup-keep now s)
      (found_lem (find_chunk chunkid 0 (keep (fresh now) s.locks))
        ∙ find_chunk-any chunkid 0 (keep (fresh now) s.locks)
        ∙ any-keep (holds chunkid) (fresh now) s.locks)

two_seconds : tv2int toutdiff ≡ 2000000
unfolding tv2int
two_seconds = refl

pub chunk_islocked_locks :
    (now : Timeval) (chunkid : ℕ) (s : Locks)
    → (chunk_islocked now chunkid s).1 ≡ record s { locks = keep (fresh now) s.locks }
unfolding chunk_islocked
chunk_islocked_locks now chunkid s = chunk_locks_cleanup-keep now s

-- A lock stands for two seconds, to the microsecond, and no longer.
pub fresh_iff :
    (now : Timeval) (l : Lock)
    → IsNormal now
    → IsNormal l.timestamp
    → (fresh now l ≡ true) ↔ (tv2int now ≤ tv2int l.timestamp + 2000000)
unfolding chunk_lock_timed_out
fresh_iff now l hn hl =
    let a = timeradd_lem l.timestamp toutdiff hl (omega arith) in
    ground (arith, a, timer_lt_iff (timeradd l.timestamp toutdiff) now a.0 hn, two_seconds)

-- The number of locks is at most the size of the array.
abbrev pub Fits : Locks → Type 0
Fits s = length s.locks ≤ s.lsize

nil_of_length : (ls : List Lock) → length ls ≡ 0 → ls ≡ []
nil_of_length [] h = refl
nil_of_length (l ∷ ls) h = absurd (omega arith)

-- Making room leaves the locks and makes place for one more.
locks_init_room :
    (s : Locks)
    → Fits s
    → ((locks_init s).locks ≡ s.locks) × (length s.locks < (locks_init s).lsize)
unfolding locks_init
locks_init_room s f = ground (arith, nil_of_length s.locks)

-- `chunk_lock` writes inside the array: the index `lcount`, where it puts the new lock, is less than
-- the size, which is what was there or has grown. The locks that were there stay.
pub chunk_lock-Fits :
    (now : Timeval) (chunkid : ℕ) (from : Option ℕ) (s : Locks)
    → Fits s
    → let s' = chunk_lock now chunkid from s in
      (length s.locks < s'.lsize)
      × Fits s'
      × (s'.locks ≡ s.locks ++ record { chunkid = chunkid; peer = from; timestamp = now } ∷ [])
unfolding chunk_lock
chunk_lock-Fits now chunkid from s f =
    let r = locks_init_room s f in
    let l : Lock = record { chunkid = chunkid; peer = from; timestamp = now } in
    let e : (locks_init s).locks ++ l ∷ [] ≡ s.locks ++ l ∷ [] = ap (λ ls. ls ++ l ∷ []) r.0 in
    (r.1, omega (arith, r.1, ap length e, length-append s.locks (l ∷ [])), e)

-- The locks less the first one of the chunk.
abbrev pub drop_first : ℕ → List Lock → List Lock
drop_first chunkid [] = []
drop_first chunkid (l ∷ ls) = if l.chunkid == chunkid then ls else l ∷ drop_first chunkid ls

find_chunk-drop_first :
    (chunkid i : ℕ) (ls : List Lock)
    → ((find_chunk chunkid i ls ≡ none) × (drop_first chunkid ls ≡ ls))
      ⊎ ((k : ℕ) × (find_chunk chunkid i ls ≡ some (k + i))
          × (remove_at k ls ≡ drop_first chunkid ls))
unfolding find_chunk remove_at
find_chunk-drop_first chunkid i [] = inl (refl, refl)
find_chunk-drop_first chunkid i (l ∷ ls) = elim (Bool-cases (l.chunkid == chunkid)) [
  | inl hit ↦ rw hit (inr (0, ground arith, refl))
  | inr miss ↦ rw miss (elim (find_chunk-drop_first chunkid (suc i) ls) [
    | inl (e, same) ↦ inl (e, ap (λ xs. l ∷ xs) same)
    | inr (k, e, rest) ↦ inr (suc k, ground arith, ap (λ xs. l ∷ xs) rest)
  ])
]

-- `chunk_unlock` drops the oldest lock of the chunk, if it has one, and no other.
pub chunk_unlock-drop_first :
    (chunkid : ℕ) (s : Locks)
    → chunk_unlock chunkid s ≡ record s { locks = drop_first chunkid s.locks }
unfolding chunk_unlock
chunk_unlock-drop_first chunkid s = elim (find_chunk-drop_first chunkid 0 s.locks) [
  | inl (e, same) ↦ rw (e, chunk_unlock, same)
  | inr (k, e, rest) ↦
      let e' : find_chunk chunkid 0 s.locks ≡ some k = ground arith in rw (e', chunk_unlock, rest)
]

drop_first-append :
    (l : Lock) (ls : List Lock)
    → any (holds l.chunkid) ls ≡ false
    → drop_first l.chunkid (ls ++ l ∷ []) ≡ ls
drop_first-append l [] h = ground arith
drop_first-append l (x ∷ ls) h = ground (arith, drop_first-append l ls)

-- A chunk that is locked while it has no lock, and unlocked, leaves the locks as they were.
pub chunk_unlock-chunk_lock :
    (now : Timeval) (chunkid : ℕ) (from : Option ℕ) (s : Locks)
    → Fits s
    → any (holds chunkid) s.locks ≡ false
    → (chunk_unlock chunkid (chunk_lock now chunkid from s)).locks ≡ s.locks
chunk_unlock-chunk_lock now chunkid from s f h =
    let l : Lock = record { chunkid = chunkid; peer = from; timestamp = now } in
    ap (λ (t : Locks). t.locks) (chunk_unlock-drop_first chunkid (chunk_lock now chunkid from s))
    ∙ ap (drop_first chunkid) ((chunk_lock-Fits now chunkid from s f).2)
    ∙ drop_first-append l s.locks h
