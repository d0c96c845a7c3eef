-- ===== src/NodeidSet.antt =====
-- nodeid_set.c: sets of node ids in arrays. An array with its size is a list; a destination is what
-- is written into it, with the room it has as an argument, and the return code 0 or -1 is `ok`.
-- `nodeid_equal` is GRAPES's, a parameter.
pub mod Shuffle
pub mod Laws
mod Tests
use streamers.Common.{
  ℕ, zero, suc, ◌+◌, ◌-◌, ◌*◌, ◌/◌, min, Bool, true, false, Option, none, some, List, [], ◌∷◌, ◌++◌,
  if◌then◌else◌, ltb, length, get_elem?, set, take,
}

-- What a function wrote, and whether it returned 0.
pub record Written {ℓ} (A : Type ℓ) : Type ℓ where
  pub dst : List A
  pub ok : Bool

module _ {ℓ} {A : Type ℓ} where
  -- The loop of `nidset_filter`, with what it has written.
  pub filter_loop : (A → Bool) → ℕ → List A → List A → Written A
  filter_loop f max_size dst [] = record { dst = dst; ok = true }
  filter_loop f max_size dst (x ∷ src) = elim (f x) [
    | true ↦ elim (ltb (length dst) max_size) [
      | true ↦ filter_loop f max_size (dst ++ x ∷ []) src
      | false ↦ record { dst = dst; ok = false }
    ]
    | false ↦ filter_loop f max_size dst src
  ]

  pub nidset_filter : (A → Bool) → ℕ → List A → Written A
  nidset_filter f max_size src = filter_loop f max_size [] src

  -- `memcpy(t, b + newpos, size); memmove(b + newpos, b + i, size); memcpy(b + i, t, size)`;
  -- `none` is an access past the array.
  pub exchange : ℕ → ℕ → List A → Option (List A)
  exchange newpos i b = elim (get_elem? b newpos) [
    | none ↦ none
    | some t ↦ elim (get_elem? b i) [ none ↦ none | some x ↦ some (set (set b newpos x) i t) ]
  ]

  -- The loop of `shuffle` from `i` down to 1. `rand k` is what the `k`-th call of `rand()` returns,
  -- at most `rand_max`; `(rand() / (RAND_MAX + 1.0)) * (i + 1)` is cut to a whole number.
  pub shuffle_loop : ℕ → (ℕ → ℕ) → ℕ → ℕ → List A → Option (List A)
  shuffle_loop rand_max rand k zero b = some b
  shuffle_loop rand_max rand k (suc i) b =
      elim (exchange (rand k * (suc i + 1) / (rand_max + 1)) (suc i) b) [
        | none ↦ none
        | some b' ↦ shuffle_loop rand_max rand (suc k) i b'
      ]

  -- `shuffle`, and `nidset_shuffle`, which calls it on an array of pointers.
  pub shuffle : ℕ → (ℕ → ℕ) → List A → Option (List A)
  shuffle rand_max rand b = shuffle_loop rand_max rand 0 (length b - 1) b

  module _ (nodeid_equal : A → A → Bool) where
    -- The inner loop of `nidset_complement`: whether it ends by its `break`.
    unfoldable pub found_in : A → List A → Bool
    found_in b [] = false
    found_in b (a ∷ as') = if nodeid_equal b a then true else found_in b as'

    pub complement_loop : ℕ → List A → List A → List A → Written A
    complement_loop max_size as' dst [] = record { dst = dst; ok = true }
    complement_loop max_size as' dst (b ∷ bs) = elim (found_in b as') [
      | true ↦ complement_loop max_size as' dst bs
      | false ↦ elim (ltb (length dst) max_size) [
        | true ↦ complement_loop max_size as' (dst ++ b ∷ []) bs
        | false ↦ record { dst = dst; ok = false }
      ]
    ]

    -- B \ A
    pub nidset_complement : ℕ → List A → List A → Written A
    nidset_complement max_size bs as' = complement_loop max_size as' [] bs

    -- The index where the loop of `nidset_find` stops, from `i` on, and what it returns.
    pub nidset_find : ℕ → List A → A → Bool × ℕ
    nidset_find i [] id = (false, i)
    nidset_find i (x ∷ ids) id = if nodeid_equal x id then (true, i) else nidset_find (suc i) ids id

    pub nidset_add : ℕ → List A → List A → Written A
    nidset_add max_size as' bs =
        let i = min (length as') max_size in
        let r = nidset_complement (max_size - i) bs as' in
        if ltb i (length as')
        then record { dst = take i as'; ok = false }
        else record { dst = take i as' ++ r.dst; ok = r.ok }

    pub nidset_add_i : List A → ℕ → List A → Written A
    nidset_add_i dst max_size as' =
        let r = nidset_complement (max_size - length dst) as' dst in
        record { dst = dst ++ r.dst; ok = r.ok }
