-- ===== src/Output/Window.antt =====
-- Where the output buffer of output-grapes.c may hold a chunk, and how many slots it has in use.
use streamers.Common.{
  ℕ, zero, suc, ◌+◌, ◌%◌, ◌≤◌, ◌<◌, ◌≡◌, refl, ◌≢◌, inl, inr, Option, none, some, List, [], ◌∷◌,
  arith, length, set, get_or-set_self, get_or-set_ne, get_or-set_default, mod_window, sym, ap, ◌∙◌,
}
use native.Mathlib.Decide.{ℕ_discrete}
use native.Mathlib.Nat.{mod-lt}
use streamers.Chunk.{Chunk}
use streamers.Output.{slot}

-- Slot `i` holds only a chunk of the `n` ids from `next` on, and the one that belongs there.
abbrev pub Window : ℕ → ℕ → List (Option Chunk) → Type 0
Window n next buff =
    (i : ℕ) (c : Chunk) → slot buff i ≡ some c → (c.id % n ≡ i) × (next ≤ c.id) × (c.id < next + n)

module _ (n next : ℕ) (buff : List (Option Chunk)) (w : Window n next buff) where
  -- The slot of the next id holds the next chunk, if it holds any.
  pub Window-next : (c : Chunk) → slot buff (next % n) ≡ some c → c.id ≡ next
  Window-next c e = omega (arith, mod_window n next c.id, w (next % n) c e)

  Window-past :
      (i : ℕ) (c : Chunk)
      → slot buff i ≡ some c
      → i ≢ next % n
      → (c.id % n ≡ i) × (suc next ≤ c.id) × (c.id < suc next + n)
  Window-past i c e ne =
      let later : c.id ≢ next = λ same. ne (sym (w i c e).0 ∙ ap (λ k. k % n) same) in
      omega (arith, w i c e)

  -- Emptying the slot of the next id moves the window by one.
  pub Window-free : 0 < n → n ≡ length buff → Window n (suc next) (set buff (next % n) none)
  Window-free pos size i c e = elim (get_or-set_default buff (next % n) i none) [
    | inl gone ↦ absurd (cc)
    | inr kept ↦ Window-past i c (sym kept ∙ e) λ same.
        cc (get_or-set_self buff (next % n) none none (omega (arith, mod-lt next pos)), same)
  ]

  pub Window-lose : slot buff (next % n) ≡ none → Window n (suc next) buff
  Window-lose gap i c e = Window-past i c e λ same. cc (same)

  -- A chunk of the window may be put in its slot.
  pub Window-store :
      (c : Chunk)
      → 0 < n
      → n ≡ length buff
      → next ≤ c.id
      → c.id < next + n
      → Window n next (set buff (c.id % n) (some c))
  Window-store c pos size lo hi i d e = elim (ℕ_discrete (c.id % n) i) [
    | yes same ↦
        let found : slot (set buff (c.id % n) (some c)) i ≡ some c =
          rw (← same)
            (get_or-set_self buff (c.id % n) (some c) none (omega (arith, mod-lt c.id pos))) in
        let here : c ≡ d = cc in
        let ids : c.id ≡ d.id = ap (λ (x : Chunk). x.id) here in rw (← ids) (same, lo, hi)
    | no other ↦ w i d (sym (get_or-set_ne buff (c.id % n) i (some c) none other) ∙ e)
  ]

-- The slots in use.
abbrev pub occupied : List (Option Chunk) → ℕ
occupied [] = 0
occupied (none ∷ xs) = occupied xs
occupied (some c ∷ xs) = suc (occupied xs)

pub occupied-le-length : (xs : List (Option Chunk)) → occupied xs ≤ length xs
occupied-le-length [] = omega arith
occupied-le-length (none ∷ xs) = omega (arith, occupied-le-length xs)
occupied-le-length (some c ∷ xs) = omega (arith, occupied-le-length xs)

pub occupied-free :
    (xs : List (Option Chunk)) (i : ℕ) (c : Chunk)
    → slot xs i ≡ some c
    → occupied xs ≡ suc (occupied (set xs i none))
occupied-free [] i c e = absurd (cc)
occupied-free (none ∷ xs) zero c e = absurd (cc)
occupied-free (some d ∷ xs) zero c e = refl
occupied-free (none ∷ xs) (suc i) c e = occupied-free xs i c e
occupied-free (some d ∷ xs) (suc i) c e = omega (arith, occupied-free xs i c e)

pub slot_of_none : (xs : List (Option Chunk)) (i : ℕ) → occupied xs ≡ 0 → slot xs i ≡ none
slot_of_none [] i e = refl
slot_of_none (none ∷ xs) zero e = refl
slot_of_none (some c ∷ xs) zero e = absurd (omega arith)
slot_of_none (none ∷ xs) (suc i) e = slot_of_none xs i e
slot_of_none (some c ∷ xs) (suc i) e = absurd (omega arith)

-- Every chunk that waits has an id under the bound.
abbrev pub Under : ℕ → List (Option Chunk) → Type 0
Under high buff = (i : ℕ) (c : Chunk) → slot buff i ≡ some c → c.id < high

pub Under-free :
    (high : ℕ) (buff : List (Option Chunk)) (i : ℕ) → Under high buff → Under high (set buff i none)
Under-free high buff i u j c e = elim (get_or-set_default buff i j none) [
  | inl gone ↦ absurd (cc)
  | inr kept ↦ u j c (sym kept ∙ e)
]
