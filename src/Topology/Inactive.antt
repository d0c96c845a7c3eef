-- ===== src/Topology/Inactive.antt =====
-- The peers that `update_peers` of topology.c drops: those not heard of for too long. The array of peers is
-- a list; `peerset_remove_peer` is GRAPES's.
use streamers.Common.{
  ℕ, zero, suc, ◌≡◌, refl, sym, ap, ◌∙◌, inl, inr, Bool, true, false, not, none, some, List, [],
  ◌∷◌, ◌++◌, arith, ◌==◌, ◌&&◌, ◌||◌, length, get_elem?, keep, All, Bool-cases,
}
use mathlib.Core.Path.{subst}
use streamers.Timer.{Timeval, timersub, timer_lt, timerisset}

-- `struct peer`, as far as the times go.
pub record Member : Type 0 where
  pub id : ℕ
  pub bmap_timestamp : Timeval
  pub creation_timestamp : Timeval

-- `peerset_remove_peer` takes the peer of the id out, and moves up those behind it.
pub record PeerSets : Type 0 where
  pub remove_peer : List Member → ℕ → List Member
  pub remove-keep :
      (ps : List Member) (id : ℕ) → remove_peer ps id ≡ keep (λ (p : Member). not (p.id == id)) ps

-- Nothing was heard of the peer since `told`.
unfoldable pub inactive : Timeval → Member → Bool
inactive told p =
    (not (timerisset p.bmap_timestamp) && timer_lt p.creation_timestamp told)
    || (timerisset p.bmap_timestamp && timer_lt p.bmap_timestamp told)

-- What is left, and the ids of the peers that were dropped, which also go to the blacklist and are told.
pub record Dropping : Type 0 where
  pub peers : List Member
  pub dropped : List ℕ

module _ (sets : PeerSets) where
  -- The loop at index `i`, by the rounds left; `i--` keeps the index where a peer is dropped.
  unfoldable pub drop_loop : Timeval → ℕ → ℕ → Dropping → Dropping
  unfolding inactive
  drop_loop told zero i s = s
  drop_loop told (suc rounds) i s = elim (get_elem? s.peers i) [
    | none ↦ s
    | some p ↦ elim (inactive told p) [
      | false ↦ drop_loop told rounds (suc i) s
      | true ↦
          drop_loop told rounds i
            (record { peers = sets.remove_peer s.peers p.id; dropped = p.id ∷ s.dropped })
    ]
  ]

  -- `tout_bmap` is set; a round drops a peer or passes one over.
  unfoldable pub drop_inactive : (now tout_bmap : Timeval) → List Member → Dropping
  unfolding drop_loop
  drop_inactive now tout_bmap ps =
      drop_loop (timersub now tout_bmap) (length ps) 0 (record { peers = ps; dropped = [] })

  -- No two peers of the list have the same id.
  abbrev pub Distinct : List Member → Type 0
  Distinct [] = Unit
  Distinct (p ∷ ps) = All (λ (q : Member). (q.id == p.id) ≡ false) ps × Distinct ps

  abbrev active : Timeval → Member → Bool
  active told p = not (inactive told p)

  keep_all :
      (id : ℕ) (ps : List Member)
      → All (λ (q : Member). (q.id == id) ≡ false) ps
      → keep (λ (q : Member). not (q.id == id)) ps ≡ ps
  keep_all id [] h = refl
  keep_all id (q ∷ ps) (ne, h) = rw (ne, keep_all id ps h) refl

  get_elem?-append :
      (xs : List Member) (p : Member) (ys : List Member)
      → get_elem? (xs ++ p ∷ ys) (length xs) ≡ some p
  get_elem?-append [] p ys = refl
  get_elem?-append (x ∷ xs) p ys = get_elem?-append xs p ys

  keep-append :
      (f : Member → Bool) (xs ys : List Member) → keep f (xs ++ ys) ≡ keep f xs ++ keep f ys
  keep-append f [] ys = refl
  keep-append f (x ∷ xs) ys = elim (Bool-cases (f x)) [
    | inl e ↦ rw (e, keep-append f xs ys) refl
    | inr e ↦ rw (e, keep-append f xs ys) refl
  ]

  All-middle {ℓ} :
      (P : Member → Type ℓ) (xs : List Member) (p : Member) (ys : List Member)
      → All P (xs ++ p ∷ ys)
      → P p × All P (xs ++ ys)
  All-middle P [] p ys h = h
  All-middle P (x ∷ xs) p ys (hx, h) = let (hp, rest) = All-middle P xs p ys h in (hp, (hx, rest))

  Distinct-middle :
      (xs : List Member) (p : Member) (ys : List Member)
      → Distinct (xs ++ p ∷ ys)
      → All (λ (q : Member). (q.id == p.id) ≡ false) (xs ++ ys) × Distinct (xs ++ ys)
  Distinct-middle [] p ys d = d
  Distinct-middle (x ∷ xs) p ys (far, d) =
      let (apart, rest) = Distinct-middle xs p ys d in
      let (ne, far') = All-middle (λ (q : Member). (q.id == x.id) ≡ false) xs p ys far in
      let ne' : (x.id == p.id) ≡ false = ground arith in ((ne', apart), (far', rest))

  remove_lem :
      (xs : List Member) (p : Member) (ys : List Member)
      → Distinct (xs ++ p ∷ ys)
      → sets.remove_peer (xs ++ p ∷ ys) p.id ≡ xs ++ ys
  remove_lem xs p ys d =
      let f : Member → Bool = λ q. not (q.id == p.id) in
      let (apart, rest) = Distinct-middle xs p ys d in
      let gone : keep f (p ∷ ys) ≡ keep f ys = let e : f p ≡ false = ground arith in rw e refl in
      sets.remove-keep (xs ++ p ∷ ys) p.id
      ∙ keep-append f xs (p ∷ ys)
      ∙ ap (λ (l : List Member). keep f xs ++ l) gone
      ∙ sym (keep-append f xs ys)
      ∙ keep_all p.id (xs ++ ys) apart

  shift : (xs : List Member) (p : Member) (ys : List Member) → (xs ++ p ∷ []) ++ ys ≡ xs ++ p ∷ ys
  shift [] p ys = refl
  shift (x ∷ xs) p ys = ap (λ (l : List Member). x ∷ l) (shift xs p ys)

  length-shift : (xs : List Member) (p : Member) → length (xs ++ p ∷ []) ≡ suc (length xs)
  length-shift [] p = refl
  length-shift (x ∷ xs) p = ap suc (length-shift xs p)

  loop_lem :
      (told : Timeval) (ys xs : List Member) (dropped : List ℕ)
      → Distinct (xs ++ ys)
      → (drop_loop told
          (length ys)
          (length xs)
          (record { peers = xs ++ ys; dropped = dropped })).peers
        ≡ xs ++ keep (active told) ys
  unfolding drop_loop
  loop_lem told [] xs dropped d = refl
  loop_lem told (p ∷ ys) xs dropped d = elim (Bool-cases (inactive told p)) [
    | inl out ↦
        rw (get_elem?-append xs p ys, drop_loop, out, remove_lem xs p ys d)
          (loop_lem told ys xs (p.id ∷ dropped) (Distinct-middle xs p ys d).1)
    | inr stays ↦
        let d' = subst Distinct (sym (shift xs p ys)) d in
        let rest = loop_lem told ys (xs ++ p ∷ []) dropped d' in
        rw (get_elem?-append xs p ys, drop_loop, stays)
          (rw (shift xs p ys, length-shift xs p, shift xs p (keep (active told) ys)) at rest)
  ]

  -- If no two peers have the same id, the peers that are left are those that are not inactive, in order.
  pub drop_inactive-keep :
      (now tout_bmap : Timeval) (ps : List Member)
      → Distinct ps
      → (drop_inactive now tout_bmap ps).peers
        ≡ keep (λ (p : Member). not (inactive (timersub now tout_bmap) p)) ps
  unfolding drop_inactive
  drop_inactive-keep now tout_bmap ps d = loop_lem (timersub now tout_bmap) ps [] [] d
