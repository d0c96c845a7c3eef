-- ===== src/NodeidSet/Tests.antt =====
-- Runs of the set functions of nodeid_set.c, over numbers for node ids.
use streamers.Common.{ℕ, ◌≡◌, refl, Bool, true, false, some, List, [], ◌∷◌, arith, ltb, ◌==◌}
use mathlib.Core.List.{Perm}
use streamers.NodeidSet.{
  exchange, shuffle_loop, shuffle, found_in, complement_loop, nidset_complement, nidset_add,
}
use streamers.NodeidSet.Shuffle.{shuffle-perm}

abbrev same_id : ℕ → ℕ → Bool
same_id a b = a == b

abbrev old_ids : List ℕ
old_ids = 3 ∷ 5 ∷ 8 ∷ []

abbrev new_ids : List ℕ
new_ids = 5 ∷ 2 ∷ 9 ∷ []

add_run : nidset_add same_id 6 old_ids new_ids ≡ record { dst = 3 ∷ 5 ∷ 8 ∷ 2 ∷ 9 ∷ []; ok = true }
unfolding nidset_add nidset_complement complement_loop found_in
add_run = refl

-- No room for the last one.
add_short_run :
    nidset_add same_id 4 old_ids new_ids ≡ record { dst = 3 ∷ 5 ∷ 8 ∷ 2 ∷ []; ok = false }
unfolding nidset_add nidset_complement complement_loop found_in
add_short_run = refl

-- Draws of 2 out of 7.
abbrev draws : ℕ → ℕ
draws k = 2

shuffle_run : shuffle {A = ℕ} 7 draws (1 ∷ 2 ∷ 3 ∷ 4 ∷ []) ≡ some (4 ∷ 3 ∷ 1 ∷ 2 ∷ [])
unfolding shuffle shuffle_loop exchange
shuffle_run = refl

shuffle-perm_example :
    (b' : List ℕ) × (shuffle 7 draws (1 ∷ 2 ∷ 3 ∷ 4 ∷ []) ≡ some b') × Perm (1 ∷ 2 ∷ 3 ∷ 4 ∷ []) b'
shuffle-perm_example = shuffle-perm 7 draws (λ k. omega arith) (1 ∷ 2 ∷ 3 ∷ 4 ∷ [])

abbrev small : ℕ → Bool
small x = ltb x 6
