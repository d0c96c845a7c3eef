-- ===== src/Topology/Update/Requests.antt =====
-- What an explicit message of a peer makes of the peer set in topology.c.
use streamers.Common.{
  ℕ, ◌+◌, ◌≡◌, refl, ap, ◌∙◌, Bool, true, not, ◌||◌, ◌&&◌, none, some, List, [], ◌∷◌, arith, ◌==◌,
  ==_iff, any, keep, Bool-cases, Option-cases, inl, inr, if◌then◌else◌,
}
use streamers.Timer.{Timeval, timersub, timerisset}
use streamers.Topology.{TopologyConfig}
use streamers.Topology.Inactive.{Member, PeerSets, inactive}
use streamers.Topology.Update.{
  Neighbours, Neighbourhood, request, drop_old, handle_request, update_peers, register_size,
  reselect,
}
use streamers.Topology.Update.Invariant.{HasOnce, drop_old-keep, handle_request-peers}

abbrev pub has : ℕ → List Member → Bool
has d ps = any (λ (p : Member). p.id == d) ps

pub has-keep :
    (from d : ℕ) (ps : List Member)
    → has d (keep (λ (p : Member). not (p.id == from)) ps) ≡ (not (d == from) && has d ps)
has-keep from d [] = ground arith
has-keep from d (p ∷ ps) = ground (arith, has-keep from d ps)

-- Who is a neighbour behind a message of two bytes, or of another length, given who was one.
abbrev pub answered : (from len byte d : ℕ) → Bool → Bool
answered from len byte d before =
    if len == 2
    then if byte == 0
      then (d == from) || before
      else if byte == 1
      then not (d == from) && before
      else before
    else before

module _ (ns : Neighbours) where
  added_lem :
      (now : Timeval) (from d : ℕ) (ps : List Member)
      → has d (elim (ns.get_peer ps from) [ none ↦ ns.add_peer now ps from | some p ↦ ps ])
        ≡ ((d == from) || has d ps)
  added_lem now from d ps = elim (Option-cases (ns.get_peer ps from)) [
    | inl unknown ↦ rw (unknown) (ns.any-add_peer now ps from d)
    | inr (p, known) ↦
        let there : has from ps ≡ true = ns.get_peer-some ps from known in
        rw (known) (elim (Bool-cases (d == from)) [
          | inl same ↦
              let e : d ≡ from = (==_iff d from).0 same in rw (same) (ap (λ i. has i ps) e ∙ there)
          | inr other ↦ rw (other) refl
        ])
  ]

  handled_lem :
      (now : Timeval) (from len byte d : ℕ) (s : Neighbourhood)
      → has d (handle_request ns now from len byte s).peers
        ≡ answered from len byte d (has d s.peers)
  handled_lem now from len byte d s =
      ap (has d) (handle_request-peers ns now from len byte s) ∙ elim (Bool-cases (len == 2)) [
        | inr bad ↦ rw (bad) refl
        | inl fine ↦ elim (Bool-cases (byte == 0)) [
          | inl add ↦ rw (fine, add) (added_lem now from d s.peers)
          | inr other ↦ elim (Bool-cases (byte == 1)) [
            | inl remove ↦
                rw (fine, other, remove)
                  (ap (has d) (PeerSets.remove-keep ns.sets s.peers from) ∙ has-keep from d s.peers)
            | inr unknown ↦ rw (fine, other, unknown) refl
          ]
        ]
      ]

  -- If peers are heard (topo_in), a time-out is set and no two peers have the same id: behind an explicit message, the
  -- neighbours are those that are not inactive; and with them the sender, if the message has two bytes and asks for
  -- that, or without him, if it has two bytes and asks for that; a message of another length or with another request
  -- changes nothing else.
  pub update_peers-answered :
      (cfg : TopologyConfig) (now tout_bmap : Timeval) (newids : List ℕ) (from len byte d : ℕ)
      → (s : Neighbourhood) → cfg.topo_in ≡ true
      → timerisset tout_bmap ≡ true
      → HasOnce ns s
      → has d (update_peers ns cfg now tout_bmap newids (request from len byte) s).peers
        ≡ answered from len byte d
            (has d (keep (λ (p : Member). not (inactive (timersub now tout_bmap) p)) s.peers))
  unfolding update_peers
  update_peers-answered cfg now tout_bmap newids from len byte d s on set once =
      let s1 = drop_old ns now tout_bmap s in
      let s' : Neighbourhood = record s1 { cnt = s1.cnt + 1 } in
      let r = handle_request ns now from len byte s' in
      ap
        (λ (b : Bool).
          has d (if b then r else register_size ns (reselect ns cfg now newids s')).peers)
        on
      ∙ handled_lem now from len byte d s'
      ∙ ap (λ ps. answered from len byte d (has d ps)) (drop_old-keep ns now tout_bmap s set once)
