-- ===== src/Topology/Update/Chosen.antt =====
-- What gossip makes of the peer set in topology.c: the neighbours are the peers that were chosen.
use streamers.Common.{
  ℕ, zero, suc, ◌+◌, ◌-◌, ◌≤◌, ◌≡◌, refl, sym, ap, ◌∙◌, Bool, true, false, not, ◌||◌, ◌&&◌, List,
  [], ◌∷◌, ◌++◌, arith, ◌==◌, ==_iff, any, keep, map, take, length, Bool-cases, inl, inr,
  if◌then◌else◌, length-append, length-take, length-keep-le,
}
use streamers.Timer.{Timeval, timersub, timerisset}
use streamers.NodeidSet.{nidset_complement, nidset_find, nidset_add_i, found_in}
use streamers.NodeidSet.Laws.{without, nidset_complement-fill, nidset_add_i-fill, nidset_find-first}
use streamers.Topology.{
  TopologyConfig, Change, kept, add_desired, add_random, select, add_loop, remove_loop,
  choose_peers,
}
use streamers.Topology.Selection.{Orders, found_in-has, has-append, select-Within}
use streamers.Topology.Inactive.{Member, PeerSets, inactive}
use streamers.Topology.Update.{
  Neighbours, Neighbourhood, gossip, TopoMessage, add_peer, remove_peer, drop_old, register_size,
  apply_change, apply_changes, reselect, update_peers, update_all,
}
use streamers.Topology.Update.Invariant.{HasOnce, drop_old-keep, update_all-HasOnce}
use streamers.Topology.Update.Requests.{has, has-keep}

abbrev pub is_in : ℕ → List ℕ → Bool
is_in id xs = any (λ x. x == id) xs

is_in-ids : (d : ℕ) (ps : List Member) → is_in d (map (λ (p : Member). p.id) ps) ≡ has d ps
is_in-ids d [] = refl
is_in-ids d (p ∷ ps) = ground (arith, is_in-ids d ps)

take_whole : (n : ℕ) (xs : List ℕ) → length xs ≤ n → take n xs ≡ xs
take_whole zero [] h = refl
take_whole zero (x ∷ xs) h = absurd (omega arith)
take_whole (suc n) [] h = refl
take_whole (suc n) (x ∷ xs) h = ap (λ ys. x ∷ ys) (take_whole n xs (omega arith))

is_in-without :
    (bs xs : List ℕ) (d : ℕ) → is_in d (without ◌==◌ bs xs) ≡ (is_in d bs && not (is_in d xs))
is_in-without [] xs d = refl
is_in-without (b ∷ bs) xs d =
    let ih = is_in-without bs xs d in
    let f = found_in-has b xs in
    elim (Bool-cases (b == d)) [
      | inl same ↦
          let e : b ≡ d = (==_iff b d).0 same in
          let g : is_in d xs ≡ found_in ◌==◌ b xs = ap (λ i. is_in i xs) (sym e) ∙ sym f in
          elim (Bool-cases (found_in ◌==◌ b xs)) [
            | inl there ↦ rw (there) (ground arith)
            | inr apart ↦ rw (apart, same) (ground arith)
          ]
      | inr other ↦ elim (Bool-cases (found_in ◌==◌ b xs)) [
        | inl there ↦ rw (there, other) ih
        | inr apart ↦ rw (apart, other) ih
      ]
    ]

is_in-complement :
    (n : ℕ) (bs xs : List ℕ) (d : ℕ)
    → length bs ≤ n
    → is_in d (nidset_complement ◌==◌ n bs xs).dst ≡ (is_in d bs && not (is_in d xs))
is_in-complement n bs xs d room =
    let short = length-keep-le (λ b. not (found_in ◌==◌ b xs)) bs in
    ap (λ w. is_in d w)
      (ap (λ w. w.dst) (nidset_complement-fill ◌==◌ n bs xs)
        ∙ take_whole n (without ◌==◌ bs xs) (omega arith))
    ∙ is_in-without bs xs d

add_i-room :
    (dst : List ℕ) (n : ℕ) (xs : List ℕ)
    → length dst ≤ n
    → length (nidset_add_i ◌==◌ dst n xs).dst ≤ n
add_i-room dst n xs room =
    let l = length-append dst (take (n - length dst) (without ◌==◌ xs dst)) in
    let t = length-take (n - length dst) (without ◌==◌ xs dst) in
    rw (nidset_add_i-fill ◌==◌ dst n xs) (omega arith)

select-room :
    (cfg : TopologyConfig) (n : ℕ) (old new : List ℕ)
    → length old ≤ n
    → length (select cfg n old new) ≤ n
unfolding select kept add_desired add_random
select-room cfg n old new room =
    let t = length-take (cfg.keep_size (length old)) old in
    add_i-room _ n _ (add_i-room _ n _ (omega arith))

module _ (ns : Neighbours) (cfg : TopologyConfig) where
  add_peer-peers :
      (now : Timeval) (id j : ℕ) (local remote : Bool) (s : Neighbourhood)
      → local ≡ true
      → (apply_change ns now (Change.add_peer id j local remote) s).peers
        ≡ ns.add_peer now s.peers id
  unfolding apply_change add_peer
  add_peer-peers now id j true true s on = refl
  add_peer-peers now id j true false s on = refl
  add_peer-peers now id j false remote s on = absurd cc

  remove_peer-peers :
      (now : Timeval) (id : ℕ) (local remote : Bool) (s : Neighbourhood)
      → local ≡ true
      → (apply_change ns now (Change.remove_peer id local remote) s).peers
        ≡ PeerSets.remove_peer ns.sets s.peers id
  unfolding apply_change remove_peer
  remove_peer-peers now id true true s on = refl
  remove_peer-peers now id true false s on = refl
  remove_peer-peers now id false remote s on = absurd cc

  apply_changes-append :
      (now : Timeval) (cs ds : List Change) (s : Neighbourhood)
      → apply_changes ns now (cs ++ ds) s ≡ apply_changes ns now ds (apply_changes ns now cs s)
  unfolding apply_changes
  apply_changes-append now [] ds s = refl
  apply_changes-append now (c ∷ cs) ds s = apply_changes-append now cs ds _

  has-add_loop :
      (now : Timeval) (new toadds : List ℕ) (s : Neighbourhood) (d : ℕ)
      → cfg.topo_out ≡ true
      → ((id : ℕ) → is_in id toadds ≡ true → is_in id new ≡ true)
      → has d (apply_changes ns now (add_loop cfg new toadds) s).peers
        ≡ (is_in d toadds || has d s.peers)
  unfolding apply_changes add_loop
  has-add_loop now new [] s d on known = refl
  has-add_loop now new (id ∷ toadds) s d on known =
      let found : (nidset_find ◌==◌ 0 new id).0 ≡ true =
        (nidset_find-first ◌==◌ new id).0 ∙ known id (ground arith) in
      let j = (nidset_find ◌==◌ 0 new id).1 in
      let s' = apply_change ns now (Change.add_peer id j cfg.topo_out cfg.topo_in) s in
      let ih = has-add_loop now new toadds s' d on (λ x h. known x (ground arith)) in
      let this : has d s'.peers ≡ ((d == id) || has d s.peers) =
        ap (has d) (add_peer-peers now id j cfg.topo_out cfg.topo_in s on)
        ∙ ns.any-add_peer now s.peers id d in
      rw (found, add_loop) (ih ∙ ap (λ b. is_in d toadds || b) this ∙ ground arith)

  has-remove_loop :
      (now : Timeval) (toremoves : List ℕ) (s : Neighbourhood) (d : ℕ)
      → cfg.topo_out ≡ true
      → has d (apply_changes ns now (remove_loop cfg toremoves) s).peers
        ≡ (not (is_in d toremoves) && has d s.peers)
  unfolding apply_changes remove_loop
  has-remove_loop now [] s d on = refl
  has-remove_loop now (id ∷ toremoves) s d on =
      let s' = apply_change ns now (Change.remove_peer id cfg.topo_out cfg.topo_in) s in
      let this : has d s'.peers ≡ (not (d == id) && has d s.peers) =
        ap (has d) (
          remove_peer-peers now id cfg.topo_out cfg.topo_in s on
          ∙ PeerSets.remove-keep ns.sets s.peers id)
        ∙ has-keep id d s.peers in
      has-remove_loop now toremoves s' d on
      ∙ ap (λ b. not (is_in d toremoves) && b) this
      ∙ ground arith

  has-choose_peers :
      (now : Timeval) (n : ℕ) (new : List ℕ) (s : Neighbourhood) (d : ℕ)
      → Orders cfg
      → cfg.topo_out ≡ true
      → let ids = map (λ (p : Member). p.id) s.peers in
        length (cfg.order_old ids) ≤ n
        → has d (apply_changes ns now (choose_peers cfg n ids new) s).peers
          ≡ is_in d (select cfg n (cfg.order_old ids) new)
  unfolding choose_peers
  has-choose_peers now n new s d o on room =
      let ids = map (λ (p : Member). p.id) s.peers in
      let old = cfg.order_old ids in
      let sel = select cfg n old new in
      let toadds = (nidset_complement ◌==◌ n sel old).dst in
      let toremoves = (nidset_complement ◌==◌ n old sel).dst in
      let added = λ (id : ℕ). is_in-complement n sel old id (select-room cfg n old new room) in
      let removed = is_in-complement n old sel d room in
      let known : (id : ℕ) → is_in id toadds ≡ true → is_in id new ≡ true = λ id h.
        let chosen = select-Within cfg o n old new id in
        ground (arith, added id, chosen, has-append old new id) in
      let before : is_in d old ≡ has d s.peers = o.old ids d ∙ is_in-ids d s.peers in
      let a = has-add_loop now new toadds s d on known in
      let s' = apply_changes ns now (add_loop cfg new toadds) s in
      let r = has-remove_loop now toremoves s' d on in
      ap (λ (t : Neighbourhood). has d t.peers)
        (apply_changes-append now (add_loop cfg new toadds) (remove_loop cfg toremoves) s)
      ∙ r
      ∙ ground (arith, a, added d, removed, before)

  length-ids : (ps : List Member) → length (map (λ (p : Member). p.id) ps) ≡ length ps
  length-ids [] = refl
  length-ids (p ∷ ps) = ap suc (length-ids ps)

  -- The choice, by the peers and the number of saved ids that are there.
  chosen : (newids : List ℕ) (ps : List Member) (saved : ℕ) → List ℕ
  chosen newids ps saved =
      select cfg (length ps + saved + length newids) (cfg.order_old (map (λ (p : Member). p.id) ps))
        newids

  has-reselect :
      (now : Timeval) (newids : List ℕ) (s : Neighbourhood) (d : ℕ)
      → Orders cfg
      → ((xs : List ℕ) → length (cfg.order_old xs) ≤ length xs)
      → cfg.topo_out ≡ true
      → has d (reselect ns cfg now newids s).peers
        ≡ is_in d (chosen newids s.peers (length s.savedids))
  unfolding reselect chosen
  has-reselect now newids s d o short on =
      let n = length s.peers + length s.savedids + length newids in
      let ids = map (λ (p : Member). p.id) s.peers in
      ap
        (λ (b : Bool).
          let old = if b then ids else s.savedids in
          let s' = apply_changes ns now (choose_peers cfg n old newids) s in has d s'.peers)
        on
      ∙ has-choose_peers now n newids s d o on (omega (arith, short ids, length-ids s.peers))

  saved_lem :
      (now tout_bmap : Timeval) (s : Neighbourhood)
      → (drop_old ns now tout_bmap s).savedids ≡ s.savedids
  unfolding drop_old
  saved_lem now tout_bmap s = elim (Bool-cases (timerisset tout_bmap)) [
    | inl on ↦ rw (on) refl
    | inr off ↦ rw (off) refl
  ]

  -- One call, with gossip.
  update_peers-chosen :
      (now tout_bmap : Timeval) (newids : List ℕ) (s : Neighbourhood) (d : ℕ)
      → Orders cfg
      → ((xs : List ℕ) → length (cfg.order_old xs) ≤ length xs)
      → cfg.topo_out ≡ true
      → timerisset tout_bmap ≡ true
      → HasOnce ns s
      → let heard = keep (λ (p : Member). not (inactive (timersub now tout_bmap) p)) s.peers in
        let max_ids = length heard + length s.savedids + length newids in
        has d (update_peers ns cfg now tout_bmap newids gossip s).peers
        ≡ is_in d (select cfg max_ids (cfg.order_old (map (λ (p : Member). p.id) heard)) newids)
  unfolding update_peers register_size chosen
  update_peers-chosen now tout_bmap newids s d o short on set once =
      let s1 = drop_old ns now tout_bmap s in
      let s' : Neighbourhood = record s1 { cnt = s1.cnt + 1 } in
      let heard = keep (λ (p : Member). not (inactive (timersub now tout_bmap) p)) s.peers in
      has-reselect now newids s' d o short on
      ∙ ap (λ ps. is_in d (chosen newids ps (length s1.savedids)))
          (drop_old-keep ns now tout_bmap s set once)
      ∙ ap (λ xs. is_in d (chosen newids heard (length xs))) (saved_lem now tout_bmap s)

  -- If this peer chooses its out-neighbours (topo_out), a time-out is set and at the start no two peers have the same
  -- id, and if the orders bring in no ids, and that of the old ones leaves none out and is not longer: whatever
  -- messages came before, behind a message of gossip the neighbours are exactly the ids that were selected, from those
  -- of the peers that are not inactive and the new ones.
  pub update_all-chosen :
      (tout_bmap : Timeval) (calls : List (Timeval × (List ℕ × TopoMessage))) (s0 : Neighbourhood)
      (now : Timeval) (newids : List ℕ) (d : ℕ)
      → Orders cfg
      → ((xs : List ℕ) → length (cfg.order_old xs) ≤ length xs)
      → cfg.topo_out ≡ true
      → timerisset tout_bmap ≡ true
      → HasOnce ns s0
      → let s = update_all ns cfg tout_bmap calls s0 in
        let heard = keep (λ (p : Member). not (inactive (timersub now tout_bmap) p)) s.peers in
        let max_ids = length heard + length s.savedids + length newids in
        has d (update_peers ns cfg now tout_bmap newids gossip s).peers
        ≡ is_in d (select cfg max_ids (cfg.order_old (map (λ (p : Member). p.id) heard)) newids)
  update_all-chosen tout_bmap calls s0 now newids d o short on set once =
      update_peers-chosen now tout_bmap newids (update_all ns cfg tout_bmap calls s0) d o short on
        set (update_all-HasOnce ns cfg tout_bmap calls s0 once)
