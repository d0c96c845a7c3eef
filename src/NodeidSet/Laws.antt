-- ===== src/NodeidSet/Laws.antt =====
-- The set functions of nodeid_set.c against lists: what they write is the front of the exact
-- result, as much of it as there is room for, and they return 0 exactly if all of it fits.
use streamers.Common.{
  ℕ, zero, suc, ◌+◌, ◌-◌, ◌≤◌, ◌≡◌, refl, ap, ◌∙◌, ◌⊎◌, inl, inr, min, Bool, true, false, not, List,
  [], ◌∷◌, ◌++◌, arith, ltb, leb, length, length-append, take, keep, any, Bool-cases,
}
use mathlib.Core.List.{append_assoc, append-nil}
use native.Mathlib.Decide.{dec_le}
use streamers.NodeidSet.{
  Written, filter_loop, nidset_filter, found_in, complement_loop, nidset_complement, nidset_find,
  nidset_add, nidset_add_i,
}

leb-suc : (a b : ℕ) → leb (suc a) (suc b) ≡ leb a b
leb-suc a b = ground arith

leb_zero : (n : ℕ) → leb 0 n ≡ true
leb_zero n = ground arith

leb-suc-zero : (a : ℕ) → leb (suc a) 0 ≡ false
leb-suc-zero a = ground arith

module _ {ℓ} {A : Type ℓ} where
  -- Writing `xs` into a place with room for `max_size` entries.
  abbrev pub fill : ℕ → List A → Written A
  fill max_size xs = record { dst = take max_size xs; ok = leb (length xs) max_size }

  abbrev behind : List A → Written A → Written A
  behind dst r = record { dst = dst ++ r.dst; ok = r.ok }

  fill_one :
      (x : A) (room : ℕ) (dst xs : List A)
      → behind (dst ++ x ∷ []) (fill room xs) ≡ behind dst (fill (suc room) (x ∷ xs))
  fill_one x room dst xs = rw (append_assoc, leb-suc)

  grow :
      (x : A) (dst : List A) (room max_size : ℕ)
      → length dst + suc room ≡ max_size
      → length (dst ++ x ∷ []) + room ≡ max_size
  grow x dst room max_size e = omega (arith, length-append dst (x ∷ []))

  -- The loop, with room for `room` entries left.
  filter_loop-fill :
      (f : A → Bool) (max_size room : ℕ) (dst src : List A)
      → length dst + room ≡ max_size
      → filter_loop f max_size dst src ≡ behind dst (fill room (keep f src))
  unfolding filter_loop
  filter_loop-fill f max_size zero dst [] e = rw append-nil
  filter_loop-fill f max_size (suc room) dst [] e = rw (append-nil, leb_zero)
  filter_loop-fill f max_size zero dst (x ∷ src) e = elim (Bool-cases (f x)) [
    | inl yea ↦
        let full : ltb (length dst) max_size ≡ false = ground arith in
        rw (yea, filter_loop, full, append-nil, leb-suc-zero)
    | inr nay ↦ rw (nay, filter_loop) (filter_loop-fill f max_size zero dst src e)
  ]
  filter_loop-fill f max_size (suc room) dst (x ∷ src) e = elim (Bool-cases (f x)) [
    | inl yea ↦
        let space : ltb (length dst) max_size ≡ true = ground arith in
        rw (yea, filter_loop, space)
          (filter_loop-fill f max_size room (dst ++ x ∷ []) src (grow x dst room max_size e)
            ∙ fill_one x room dst (keep f src))
    | inr nay ↦ rw (nay, filter_loop) (filter_loop-fill f max_size (suc room) dst src e)
  ]

  -- `nidset_filter` writes the ids that pass the test, in their order, as many as there is room for,
  -- and returns 0 exactly if all of them fit.
  pub nidset_filter-fill :
      (f : A → Bool) (max_size : ℕ) (src : List A)
      → nidset_filter f max_size src ≡ fill max_size (keep f src)
  unfolding nidset_filter
  nidset_filter-fill f max_size src = filter_loop-fill f max_size max_size [] src (omega arith)

  take-append_room :
      (m room : ℕ) (xs ys : List A) → length xs + room ≡ m → take m (xs ++ ys) ≡ xs ++ take room ys
  take-append_room m room [] ys e = let same : room ≡ m = omega arith in rw same
  take-append_room zero room (x ∷ xs) ys e = absurd (omega arith)
  take-append_room (suc m) room (x ∷ xs) ys e =
      ap (λ zs. x ∷ zs) (take-append_room m room xs ys (omega arith))

  take-append_front : (m : ℕ) (xs ys : List A) → m ≤ length xs → take m (xs ++ ys) ≡ take m xs
  take-append_front zero xs ys h = refl
  take-append_front (suc m) [] ys h = elim h [ ]
  take-append_front (suc m) (x ∷ xs) ys h =
      ap (λ zs. x ∷ zs) (take-append_front m xs ys (omega arith))

  take_all : (xs : List A) → take (length xs) xs ≡ xs
  take_all [] = refl
  take_all (x ∷ xs) = ap (λ zs. x ∷ zs) (take_all xs)

  module _ (nodeid_equal : A → A → Bool) where
    -- The ids of `bs` that are not in `as'`.
    abbrev pub without : List A → List A → List A
    without bs as' = keep (λ b. not (found_in nodeid_equal b as')) bs

    complement_loop-filter_loop :
        (max_size : ℕ) (as' dst bs : List A)
        → complement_loop nodeid_equal max_size as' dst bs
          ≡ filter_loop (λ b. not (found_in nodeid_equal b as')) max_size dst bs
    unfolding complement_loop filter_loop
    complement_loop-filter_loop max_size as' dst [] = refl
    complement_loop-filter_loop max_size as' dst (b ∷ bs) = ground (
      arith,
      complement_loop-filter_loop max_size as' dst bs,
      complement_loop-filter_loop max_size as' (dst ++ b ∷ []) bs,
    )

    -- `nidset_complement` writes the ids of B that are not in A, in their order, as many as there is
    -- room for, and returns 0 exactly if all of them fit.
    pub nidset_complement-fill :
        (max_size : ℕ) (bs as' : List A)
        → nidset_complement nodeid_equal max_size bs as' ≡ fill max_size (without bs as')
    unfolding nidset_complement
    nidset_complement-fill max_size bs as' =
        complement_loop-filter_loop max_size as' [] bs
        ∙ filter_loop-fill _ max_size max_size [] bs (omega arith)

    -- `nidset_add` writes A, and behind it what B has beyond A; of that list as much as there is room
    -- for, and it returns 0 exactly if all of it fits.
    pub nidset_add-fill :
        (max_size : ℕ) (as' bs : List A)
        → nidset_add nodeid_equal max_size as' bs ≡ fill max_size (as' ++ without bs as')
    unfolding nidset_add
    nidset_add-fill max_size as' bs = elim (dec_le (length as') max_size) [
      | yes fits ↦
          let room : ℕ = max_size - length as' in
          let i : min (length as') max_size ≡ length as' = omega arith in
          let whole : ltb (length as') (length as') ≡ false = ground arith in
          let count : leb (length (as' ++ without bs as')) max_size
              ≡ leb (length (without bs as')) room =
            ground (arith, length-append as' (without bs as')) in
          rw (
            i,
            nidset_add,
            whole,
            take_all,
            nidset_complement-fill,
            count,
            take-append_room max_size room as' (without bs as') (omega arith),
          )
      | no over ↦
          let i : min (length as') max_size ≡ max_size = omega arith in
          let cut : ltb max_size (length as') ≡ true = ground arith in
          let count : leb (length (as' ++ without bs as')) max_size ≡ false =
            ground (arith, length-append as' (without bs as')) in
          rw (
            i,
            nidset_add,
            cut,
            count,
            take-append_front max_size as' (without bs as') (omega arith),
          )
    ]

    -- `nidset_add_i` keeps what is in the destination and puts behind it what is new in A, as much as
    -- there is room for, and returns 0 exactly if all of it fits.
    pub nidset_add_i-fill :
        (dst : List A) (max_size : ℕ) (as' : List A)
        → nidset_add_i nodeid_equal dst max_size as' ≡ record {
          dst = dst ++ take (max_size - length dst) (without as' dst);
          ok = leb (length (without as' dst)) (max_size - length dst);
        }
    unfolding nidset_add_i
    nidset_add_i-fill dst max_size as' =
        ap (λ r. record { dst = dst ++ r.dst; ok = r.ok })
          (nidset_complement-fill (max_size - length dst) as' dst)

    find_from :
        (i : ℕ) (ids : List A) (id : A)
        → let same : A → Bool = λ x. nodeid_equal x id in
          (k : ℕ) × (nidset_find nodeid_equal i ids id ≡ (any same ids, i + k))
          × (any same (take k ids) ≡ false)
          × (any same (take (suc k) ids) ≡ any same ids)
          × ((k ≡ length ids) ⊎ (any same ids ≡ true))
    unfolding nidset_find
    find_from i [] id = (0, ground arith, refl, refl, inl refl)
    find_from i (x ∷ ids) id = elim (Bool-cases (nodeid_equal x id)) [
      | inl hit ↦ rw hit (0, ground arith, refl, refl, inr refl)
      | inr miss ↦
          let (k, e, none_before, last, stop) = find_from (suc i) ids id in
          let counted : Path (Bool × ℕ) (any (λ y. nodeid_equal y id) ids, suc i + k)
              (any (λ y. nodeid_equal y id) ids, i + suc k) =
            ap (λ (n : ℕ). (any (λ y. nodeid_equal y id) ids, n)) (omega arith) in
          (
            suc k,
            rw miss (e ∙ counted),
            rw miss none_before,
            rw miss last,
            rw miss (ground (arith, stop)),
          )
    ]

    -- `nidset_find` returns whether an id of the array is equal to `id`, and leaves the index of the
    -- first one that is, or the size of the array if none is: no id before that index is equal.
    pub nidset_find-first :
        (ids : List A) (id : A)
        → let same : A → Bool = λ x. nodeid_equal x id in
          let r = nidset_find nodeid_equal 0 ids id in
          (r.0 ≡ any same ids)
          × (any same (take r.1 ids) ≡ false)
          × (any same (take (suc r.1) ids) ≡ any same ids)
          × ((r.1 ≡ length ids) ⊎ (any same ids ≡ true))
    nidset_find-first ids id =
        let (k, e, none_before, last, stop) = find_from 0 ids id in
        let at : (nidset_find nodeid_equal 0 ids id).1 ≡ k =
          omega (arith, ap (λ (r : Bool × ℕ). r.1) e) in
        (ap (λ (r : Bool × ℕ). r.0) e, rw at none_before, rw at last, rw at stop)
