-- ===== src/NodeidSet/Shuffle.antt =====
-- `shuffle` of nodeid_set.c moves the entries about, inside the array, and loses none.
use streamers.Common.{
  ℕ, zero, suc, ◌+◌, ◌-◌, ◌*◌, ◌/◌, ◌≤◌, ◌<◌, ◌≡◌, refl, ◌∙◌, Option, some, List, [], ◌∷◌, arith,
  length, length-set, get_elem?, set,
}
use mathlib.Core.List.{Perm}
use mathlib.Core.List.Perm
use native.Mathlib.Nat.{div-lt_iff_lt-mul}
use streamers.NodeidSet.{exchange, shuffle_loop, shuffle}

-- The position drawn is at most `i`.
draw_le : (r rand_max i : ℕ) → r ≤ rand_max → r * (i + 1) / (rand_max + 1) < i + 1
draw_le r rand_max i h = (div-lt_iff_lt-mul (omega arith)).1 (grind arith)

module _ {ℓ} {A : Type ℓ} where
  exchange_head :
      (x y : A) (xs : List A) (k : ℕ) → get_elem? xs k ≡ some y → Perm (x ∷ xs) (y ∷ set xs k x)
  exchange_head x y [] k e = absurd (cc)
  exchange_head x y (z ∷ xs) zero e = let same : z ≡ y = cc in rw same (Perm.swap y x xs)
  exchange_head x y (z ∷ xs) (suc k) e =
      Perm.trans (Perm.swap z x xs)
        (Perm.trans (Perm.cons z (exchange_head x y xs k e)) (Perm.swap y z _))

  exchange_perm :
      (p q : ℕ) (xs : List A) (t x : A)
      → get_elem? xs p ≡ some t
      → get_elem? xs q ≡ some x
      → Perm xs (set (set xs p x) q t)
  exchange_perm p q [] t x ep eq = absurd (cc)
  exchange_perm zero zero (y ∷ xs) t x ep eq = let same : y ≡ t = cc in rw same (Perm.refl _)
  exchange_perm zero (suc q) (y ∷ xs) t x ep eq =
      let same : y ≡ t = cc in rw same (exchange_head t x xs q eq)
  exchange_perm (suc p) zero (y ∷ xs) t x ep eq =
      let same : y ≡ x = cc in rw same (exchange_head x t xs p ep)
  exchange_perm (suc p) (suc q) (y ∷ xs) t x ep eq = Perm.cons y (exchange_perm p q xs t x ep eq)

  get_elem?-of_lt : (xs : List A) (i : ℕ) → i < length xs → (a : A) × (get_elem? xs i ≡ some a)
  get_elem?-of_lt [] i h = elim h [ ]
  get_elem?-of_lt (x ∷ xs) zero h = (x, refl)
  get_elem?-of_lt (x ∷ xs) (suc i) h = get_elem?-of_lt xs i (omega arith)

  Shuffled : List A → Option (List A) → Type ℓ
  Shuffled b r = (b' : List A) × (r ≡ some b') × Perm b b'

  exchange_lem :
      (p q : ℕ) (b : List A)
      → p < length b
      → q < length b
      → (b' : List A) × (exchange p q b ≡ some b') × Perm b b' × (length b' ≡ length b)
  unfolding exchange
  exchange_lem p q b hp hq =
      let (t, ep) = get_elem?-of_lt b p hp in
      let (x, eq) = get_elem?-of_lt b q hq in
      (
        set (set b p x) q t,
        (rw (ep, exchange, eq)),
        exchange_perm p q b t x ep eq,
        length-set (set b p x) q t ∙ length-set b p x,
      )

  module _ (rand_max : ℕ) (rand : ℕ → ℕ) (drawn : (k : ℕ) → rand k ≤ rand_max) where
    shuffle_loop-Shuffled :
        (k i : ℕ) (b : List A) → i < length b → Shuffled b (shuffle_loop rand_max rand k i b)
    unfolding shuffle_loop Shuffled
    shuffle_loop-Shuffled k zero b h = (b, refl, Perm.refl b)
    shuffle_loop-Shuffled k (suc i) b h =
        let p = rand k * (suc i + 1) / (rand_max + 1) in
        let (b1, e1, p1, l1) =
          exchange_lem p (suc i) b (omega (arith, draw_le (rand k) rand_max (suc i) (drawn k))) h in
        let (b2, e2, p2) = shuffle_loop-Shuffled (suc k) i b1 (omega arith) in
        (b2, rw (e1, shuffle_loop) e2, Perm.trans p1 p2)

    -- Whatever numbers are drawn, `shuffle` touches no place outside the array, and leaves a
    -- permutation of what it was given.
    pub shuffle-perm :
        (b : List A) → (b' : List A) × (shuffle rand_max rand b ≡ some b') × Perm b b'
    unfolding shuffle shuffle_loop Shuffled
    shuffle-perm [] = ([], refl, Perm.refl [])
    shuffle-perm (x ∷ b) = shuffle_loop-Shuffled 0 (length (x ∷ b) - 1) (x ∷ b) (omega arith)
