-- ===== src/Topology/Selection.antt =====
-- What the choice of neighbours in topology.c adds, and how many it chooses.
use streamers.Common.{
  ℕ, zero, suc, ◌+◌, ◌-◌, ◌≤◌, ◌<◌, ◌≡◌, refl, sym, ◌∙◌, inl, inr, Bool, true, false, not, List, [],
  ◌∷◌, ◌++◌, arith, min, max, length, take, keep, any, if◌then◌else◌, ◌==◌, ◌||◌, All, Bool-cases,
  length-append, length-take, length-keep-le,
}
use streamers.NodeidSet.{
  nidset_filter, nidset_complement, nidset_find, nidset_add, nidset_add_i, found_in,
}
use streamers.NodeidSet.Laws.{
  without, nidset_filter-fill, nidset_complement-fill, nidset_add-fill, nidset_add_i-fill,
  nidset_find-first,
}
use streamers.Topology.{
  TopologyConfig, Change, add_peer, remove_peer, missing_metadata, kept, candidates, add_desired,
  add_random, select, add_loop, remove_loop, choose_peers,
}

abbrev pub has : ℕ → List ℕ → Bool
has id xs = any (λ x. x == id) xs

-- Whatever is in the first list is in the second.
abbrev pub Within : List ℕ → List ℕ → Type 0
Within xs ys = (id : ℕ) → has id xs ≡ true → has id ys ≡ true

take-Within : (n : ℕ) (xs : List ℕ) → Within (take n xs) xs
take-Within zero xs id h = ground arith
take-Within (suc n) [] id h = ground arith
take-Within (suc n) (x ∷ xs) id h = ground (arith, take-Within n xs id)

keep-Within : (p : ℕ → Bool) (xs : List ℕ) → Within (keep p xs) xs
keep-Within p [] id h = h
keep-Within p (x ∷ xs) id h = elim (Bool-cases (p x)) [
  | inl stays ↦ ground (arith, keep-Within p xs id)
  | inr goes ↦ ground (arith, keep-Within p xs id)
]

pub has-append : (xs ys : List ℕ) (id : ℕ) → has id (xs ++ ys) ≡ (has id xs || has id ys)
has-append [] ys id = refl
has-append (x ∷ xs) ys id = ground (arith, has-append xs ys id)

pub found_in-has : (b : ℕ) (xs : List ℕ) → found_in ◌==◌ b xs ≡ has b xs
unfolding found_in
found_in-has b [] = refl
found_in-has b (x ∷ xs) = ground (arith, found_in-has b xs)

without_absent : (bs xs : List ℕ) (id : ℕ) → has id (without ◌==◌ bs xs) ≡ true → has id xs ≡ false
without_absent [] xs id h = ground arith
without_absent (b ∷ bs) xs id h = elim (Bool-cases (found_in ◌==◌ b xs)) [
  | inl there ↦ ground (arith, without_absent bs xs id, found_in-has b xs)
  | inr apart ↦ ground (arith, without_absent bs xs id, found_in-has b xs)
]

complement-Within : (n : ℕ) (bs xs : List ℕ) → Within (nidset_complement ◌==◌ n bs xs).dst bs
complement-Within n bs xs id h =
    let e = nidset_complement-fill ◌==◌ n bs xs in
    let h' : has id (take n (without ◌==◌ bs xs)) ≡ true = rw e at h in
    keep-Within _ bs id (take-Within n (without ◌==◌ bs xs) id h')

complement_absent :
    (n : ℕ) (bs xs : List ℕ) (id : ℕ)
    → has id (nidset_complement ◌==◌ n bs xs).dst ≡ true
    → has id xs ≡ false
complement_absent n bs xs id h =
    let e = nidset_complement-fill ◌==◌ n bs xs in
    let h' : has id (take n (without ◌==◌ bs xs)) ≡ true = rw e at h in
    without_absent bs xs id (take-Within n (without ◌==◌ bs xs) id h')

add-Within : (n : ℕ) (xs bs : List ℕ) → Within (nidset_add ◌==◌ n xs bs).dst (xs ++ bs)
add-Within n xs bs id h =
    let e = nidset_add-fill ◌==◌ n xs bs in
    let h' : has id (take n (xs ++ without ◌==◌ bs xs)) ≡ true = rw e at h in
    let whole = take-Within n (xs ++ without ◌==◌ bs xs) id h' in
    ground (
      arith,
      has-append xs (without ◌==◌ bs xs) id,
      has-append xs bs id,
      keep-Within (λ b. not (found_in ◌==◌ b xs)) bs id,
    )

add_i-Within :
    (dst : List ℕ) (n : ℕ) (xs : List ℕ) → Within (nidset_add_i ◌==◌ dst n xs).dst (dst ++ xs)
add_i-Within dst n xs id h =
    let e = nidset_add_i-fill ◌==◌ dst n xs in
    let h' : has id (dst ++ take (n - length dst) (without ◌==◌ xs dst)) ≡ true = rw e at h in
    let some_of = take-Within (n - length dst) (without ◌==◌ xs dst) id in
    ground (
      arith,
      has-append dst (take (n - length dst) (without ◌==◌ xs dst)) id,
      has-append dst xs id,
      some_of,
      keep-Within (λ b. not (found_in ◌==◌ b dst)) xs id,
    )

pub add_i-length :
    (dst : List ℕ) (n : ℕ) (xs : List ℕ)
    → length (nidset_add_i ◌==◌ dst n xs).dst ≤ length dst + length xs
add_i-length dst n xs =
    let l = length-append dst (take (n - length dst) (without ◌==◌ xs dst)) in
    let t = length-take (n - length dst) (without ◌==◌ xs dst) in
    let k = length-keep-le (λ b. not (found_in ◌==◌ b dst)) xs in
    rw (nidset_add_i-fill ◌==◌ dst n xs) (omega arith)

All-append {ℓ} :
    {A : Type 0} (P : A → Type ℓ) (xs ys : List A) → All P xs → All P ys → All P (xs ++ ys)
All-append P [] ys h k = k
All-append P (x ∷ xs) ys h k = (h.0, All-append P xs ys h.1 k)

-- A change that makes sense: a new id with metadata is added that was no neighbour and is chosen, or a
-- neighbour is removed that is not chosen; and no metadata is missing.
abbrev pub Sound : (oldids newids selecteds : List ℕ) → Change → Type 0
Sound oldids newids selecteds (add_peer id j local remote) =
    (has id newids ≡ true) × (has id oldids ≡ false) × (has id selecteds ≡ true)
Sound oldids newids selecteds (remove_peer id local remote) =
    (has id oldids ≡ true) × (has id selecteds ≡ false)
Sound oldids newids selecteds (missing_metadata id) = ⊥

has-first : (id : ℕ) (xs : List ℕ) → has id (id ∷ xs) ≡ true
has-first id xs = ground arith

has-rest : (x : ℕ) (xs : List ℕ) (id : ℕ) → has id xs ≡ true → has id (x ∷ xs) ≡ true
has-rest x xs id h = ground arith

module _ (cfg : TopologyConfig) where
  open cfg use {
    order_old, order_desired, order_others, keep_size, desired_part, target_size, is_desired,
    topo_in, topo_out,
  }

  -- The orders bring in no ids, and that of the old ids leaves none out: the source permutes them in place.
  pub record Orders : Type 0 where
    pub old : (xs : List ℕ) (id : ℕ) → has id (order_old xs) ≡ has id xs
    pub desired : (xs : List ℕ) → Within (order_desired xs) xs
    pub others : (xs : List ℕ) → Within (order_others xs) xs

  candidates-Within : (n : ℕ) (old new : List ℕ) → Within (candidates cfg n old new) (old ++ new)
  unfolding candidates
  candidates-Within n old new id h =
      add-Within n old new id
        (complement-Within n (nidset_add ◌==◌ n old new).dst (kept cfg old) id h)

  filter-Within : (n : ℕ) (xs : List ℕ) → Within (nidset_filter is_desired n xs).dst xs
  filter-Within n xs id h =
      let e = nidset_filter-fill is_desired n xs in
      let h' : has id (take n (keep is_desired xs)) ≡ true = rw e at h in
      keep-Within is_desired xs id (take-Within n (keep is_desired xs) id h')

  desired-Within :
      Orders → (n : ℕ) (sel cands : List ℕ) → Within (add_desired cfg n sel cands) (sel ++ cands)
  unfolding add_desired
  desired-Within o n sel cands id h =
      let desireds = order_desired (nidset_filter is_desired n cands).dst in
      let part = min (length desireds) (desired_part (length sel)) in
      let joined = add_i-Within sel n (take part desireds) id h in
      let from = λ (t : has id (take part desireds) ≡ true).
        filter-Within n cands id (o.desired _ id (take-Within part desireds id t)) in
      ground (arith, has-append sel (take part desireds) id, has-append sel cands id, from, joined)

  random-Within :
      Orders → (n : ℕ) (sel cands : List ℕ) → Within (add_random cfg n sel cands) (sel ++ cands)
  unfolding add_random
  random-Within o n sel cands id h =
      let others = order_others (nidset_complement ◌==◌ n cands sel).dst in
      let size =
        if target_size == 0
        then length others
        else min (length others) (target_size - length sel) in
      let joined = add_i-Within sel n (take size others) id h in
      let from = λ (t : has id (take size others) ≡ true).
        complement-Within n cands sel id (o.others _ id (take-Within size others id t)) in
      ground (arith, has-append sel (take size others) id, has-append sel cands id, from, joined)

  pub select-Within :
      Orders → (n : ℕ) (old new : List ℕ) → Within (select cfg n old new) (old ++ new)
  unfolding select kept
  select-Within o n old new id h =
      let sel = take (keep_size (length old)) old in
      let cands = candidates cfg n old new in
      let r = random-Within o n (add_desired cfg n sel cands) cands id h in
      let d = desired-Within o n sel cands id in
      ground (
        arith,
        r,
        d,
        has-append (add_desired cfg n sel cands) cands id,
        has-append sel cands id,
        has-append old new id,
        candidates-Within n old new id,
        take-Within (keep_size (length old)) old id,
      )

  add_loop-Sound :
      (old new sel toadds : List ℕ)
      → ((id : ℕ)
          → has id toadds ≡ true
          → (has id new ≡ true) × (has id old ≡ false) × (has id sel ≡ true))
      → All (Sound old new sel) (add_loop cfg new toadds)
  unfolding add_loop
  add_loop-Sound old new sel [] f = tt
  add_loop-Sound old new sel (id ∷ toadds) f =
      let this = f id (has-first id toadds) in
      let found : (nidset_find ◌==◌ 0 new id).0 ≡ true =
        (nidset_find-first ◌==◌ new id).0 ∙ this.0 in
      let rest = add_loop-Sound old new sel toadds (λ x h. f x (has-rest id toadds x h)) in
      rw (found, add_loop) (this, rest)

  remove_loop-Sound :
      (old new sel toremoves : List ℕ)
      → ((id : ℕ) → has id toremoves ≡ true → (has id old ≡ true) × (has id sel ≡ false))
      → All (Sound old new sel) (remove_loop cfg toremoves)
  unfolding remove_loop
  remove_loop-Sound old new sel [] f = tt
  remove_loop-Sound old new sel (id ∷ toremoves) f = (
    f id (has-first id toremoves),
    remove_loop-Sound old new sel toremoves (λ x h. f x (has-rest id toremoves x h)),
  )

  -- If the orders bring in no ids, and that of the old ones leaves none out, every change is sound: the error message
  -- for missing metadata is never reached, what is added is known, was no neighbour and is chosen, and what is
  -- removed was a neighbour and is not chosen.
  pub choose_peers-Sound :
      (o : Orders) (max_ids : ℕ) (old new : List ℕ)
      → All
          (Sound old new (select cfg max_ids (order_old old) new))
          (choose_peers cfg max_ids old new)
  unfolding choose_peers
  choose_peers-Sound o n old0 new =
      let old = order_old old0 in
      let sel = select cfg n old new in
      let toadds = (nidset_complement ◌==◌ n sel old).dst in
      let toremoves = (nidset_complement ◌==◌ n old sel).dst in
      let adds : (id : ℕ)
          → has id toadds ≡ true
          → (has id new ≡ true) × (has id old0 ≡ false) × (has id sel ≡ true) =
        λ id h.
          let s = complement-Within n sel old id h in
          let absent = complement_absent n sel old id h in
          let known = select-Within o n old new id s in
          let e = has-append old new id in
          (ground (arith, known, absent, e), sym (o.old old0 id) ∙ absent, s) in
      All-append (Sound old0 new sel) (add_loop cfg new toadds) (remove_loop cfg toremoves)
        (add_loop-Sound old0 new sel toadds adds)
        (remove_loop-Sound old0 new sel toremoves λ id h. (
          sym (o.old old0 id) ∙ complement-Within n old sel id h,
          complement_absent n old sel id h,
        ))

  -- If a target is set, the orders do not lengthen a list, and the desired part is within what the target
  -- leaves, then no more is chosen than the target, or than what is kept if that is more.
  pub select_bounded :
      (max_ids : ℕ) (old new : List ℕ)
      → 0 < target_size
      → ((xs : List ℕ) → length (order_desired xs) ≤ length xs)
      → ((xs : List ℕ) → length (order_others xs) ≤ length xs)
      → ((n : ℕ) → desired_part n ≤ target_size - n)
      → length (select cfg max_ids old new) ≤ max (keep_size (length old)) target_size
  unfolding select kept add_desired add_random
  select_bounded n old new pos d r part =
      let sel = take (keep_size (length old)) old in
      let cands = candidates cfg n old new in
      let desireds = order_desired (nidset_filter is_desired n cands).dst in
      let p = min (length desireds) (desired_part (length sel)) in
      let sel1 = (nidset_add_i ◌==◌ sel n (take p desireds)).dst in
      let others = order_others (nidset_complement ◌==◌ n cands sel1).dst in
      let on : (target_size == 0) ≡ false = ground arith in
      let q = min (length others) (target_size - length sel1) in
      let a = add_i-length sel n (take p desireds) in
      let b = add_i-length sel1 n (take q others) in
      let c = length-take p desireds in
      let e = length-take q others in
      let k = length-take (keep_size (length old)) old in
      let part' = part (length sel) in rw (on, select, add_random) (omega arith)
