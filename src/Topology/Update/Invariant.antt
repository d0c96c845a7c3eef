-- ===== src/Topology/Update/Invariant.antt =====
-- That `update_peers` of topology.c never has a peer twice.
use mathlib.Core.Path.{subst⁻¹}
use streamers.Common.{
  ℕ, ◌+◌, ◌≡◌, refl, Bool, true, false, not, Option, none, some, List, [], ◌∷◌, ◌==◌, keep, All,
  Bool-cases, Option-cases, inl, inr, length, map, if◌then◌else◌,
}
use streamers.Timer.{Timeval, timersub, timerisset}
use streamers.Topology.{TopologyConfig, Change, choose_peers}
use streamers.Topology.Inactive.{Member, PeerSets, Distinct, inactive, drop_inactive-keep}
use streamers.Topology.Update.{
  Neighbours, Neighbourhood, TopoMessage, own, request, gossip, add_peer, remove_peer, drop_old,
  register_size, handle_request, apply_change, apply_changes, reselect, update_peers, update_all,
}

All-keep :
    (P : Member → Type 0) (f : Member → Bool) (ps : List Member) → All P ps → All P (keep f ps)
All-keep P f [] h = tt
All-keep P f (p ∷ ps) (h, hs) = elim (Bool-cases (f p)) [
  | inl stays ↦ rw (stays) (h, All-keep P f ps hs)
  | inr goes ↦ rw (goes) (All-keep P f ps hs)
]

module _ (sets : PeerSets) where
  keep-Distinct :
      (f : Member → Bool) (ps : List Member) → Distinct sets ps → Distinct sets (keep f ps)
  keep-Distinct f [] d = tt
  keep-Distinct f (p ∷ ps) (h, d) = elim (Bool-cases (f p)) [
    | inl stays ↦ rw (stays) (All-keep _ f ps h, keep-Distinct f ps d)
    | inr goes ↦ rw (goes) (keep-Distinct f ps d)
  ]

module _ (ns : Neighbours) where
  unfoldable pub HasOnce : Neighbourhood → Type 0
  HasOnce s = Distinct ns.sets s.peers

  add_peer-HasOnce :
      (now : Timeval) (id : ℕ) (m : Option ℕ) (local remote : Bool) (s : Neighbourhood)
      → HasOnce s
      → HasOnce (add_peer ns now id m local remote s)
  unfolding add_peer HasOnce
  add_peer-HasOnce now id m true true s d = ns.add_peer-Distinct now s.peers id d
  add_peer-HasOnce now id m true false s d = ns.add_peer-Distinct now s.peers id d
  add_peer-HasOnce now id m false true s d = d
  add_peer-HasOnce now id m false false s d = d

  remove_peer-HasOnce :
      (id : ℕ) (local remote : Bool) (s : Neighbourhood)
      → HasOnce s
      → HasOnce (remove_peer ns id local remote s)
  unfolding remove_peer HasOnce
  remove_peer-HasOnce id true true s d =
      rw (PeerSets.remove-keep ns.sets s.peers id) (keep-Distinct ns.sets _ s.peers d)
  remove_peer-HasOnce id true false s d =
      rw (PeerSets.remove-keep ns.sets s.peers id) (keep-Distinct ns.sets _ s.peers d)
  remove_peer-HasOnce id false true s d = d
  remove_peer-HasOnce id false false s d = d

  -- What is left by `drop_old`.
  pub drop_old-keep :
      (now tout_bmap : Timeval) (s : Neighbourhood)
      → timerisset tout_bmap ≡ true
      → HasOnce s
      → (drop_old ns now tout_bmap s).peers
        ≡ keep (λ (p : Member). not (inactive (timersub now tout_bmap) p)) s.peers
  unfolding drop_old HasOnce
  drop_old-keep now tout_bmap s on d = rw (on) (drop_inactive-keep ns.sets now tout_bmap s.peers d)

  pub drop_old-HasOnce :
      (now tout_bmap : Timeval) (s : Neighbourhood)
      → HasOnce s
      → HasOnce (drop_old ns now tout_bmap s)
  unfolding drop_old HasOnce
  drop_old-HasOnce now tout_bmap s d = elim (Bool-cases (timerisset tout_bmap)) [
    | inl on ↦
        rw (on, drop_inactive-keep ns.sets now tout_bmap s.peers d)
          (keep-Distinct ns.sets (λ (p : Member). not (inactive (timersub now tout_bmap) p)) s.peers
            d)
    | inr off ↦ rw (off) d
  ]

  apply_changes-HasOnce :
      (now : Timeval) (cs : List Change) (s : Neighbourhood)
      → HasOnce s
      → HasOnce (apply_changes ns now cs s)
  unfolding apply_changes apply_change HasOnce
  apply_changes-HasOnce now [] s d = d
  apply_changes-HasOnce now (Change.add_peer id j local remote ∷ cs) s d =
      apply_changes-HasOnce now cs _ (add_peer-HasOnce now id (some j) local remote s d)
  apply_changes-HasOnce now (Change.remove_peer id local remote ∷ cs) s d =
      apply_changes-HasOnce now cs _ (remove_peer-HasOnce id local remote s d)
  apply_changes-HasOnce now (Change.missing_metadata id ∷ cs) s d = apply_changes-HasOnce now cs _ d

  -- The peers behind an explicit message.
  pub handle_request-peers :
      (now : Timeval) (from len byte : ℕ) (s : Neighbourhood)
      → (handle_request ns now from len byte s).peers ≡ (
          if len == 2
          then if byte == 0
            then elim (ns.get_peer s.peers from) [
              | none ↦ ns.add_peer now s.peers from
              | some p ↦ s.peers
            ]
            else if byte == 1
            then PeerSets.remove_peer ns.sets s.peers from
            else s.peers
          else s.peers)
  unfolding handle_request register_size add_peer remove_peer
  handle_request-peers now from len byte s = elim (Bool-cases (len == 2)) [
    | inr bad ↦ rw (bad) refl
    | inl fine ↦ elim (Bool-cases (byte == 0)) [
      | inl add ↦ elim (Option-cases (ns.get_peer s.peers from)) [
        | inl unknown ↦ rw (fine, add) (rw (unknown) refl)
        | inr (p, known) ↦ rw (fine, add) (rw (known) refl)
      ]
      | inr other ↦ elim (Bool-cases (byte == 1)) [
        | inl remove ↦ rw (fine, other, remove) refl
        | inr unknown ↦ rw (fine, other, unknown) refl
      ]
    ]
  ]

  -- Of two lists without repetition either is one.
  choose :
      (b : Bool) (ps qs : List Member)
      → Distinct ns.sets ps
      → Distinct ns.sets qs
      → Distinct ns.sets (if b then ps else qs)
  choose true ps qs d e = d
  choose false ps qs d e = e

  choose_state :
      (b : Bool) (s t : Neighbourhood) → HasOnce s → HasOnce t → HasOnce (if b then s else t)
  choose_state true s t d e = d
  choose_state false s t d e = e

  handle_request-HasOnce :
      (now : Timeval) (from len byte : ℕ) (s : Neighbourhood)
      → HasOnce s
      → HasOnce (handle_request ns now from len byte s)
  unfolding HasOnce
  handle_request-HasOnce now from len byte s d =
      let removed : Distinct ns.sets (PeerSets.remove_peer ns.sets s.peers from) =
        rw (PeerSets.remove-keep ns.sets s.peers from)
          (keep-Distinct ns.sets (λ p. not (p.id == from)) s.peers d) in
      let added : Distinct ns.sets (elim (ns.get_peer s.peers from) [
        | none ↦ ns.add_peer now s.peers from
        | some p ↦ s.peers
      ]) =
        elim (Option-cases (ns.get_peer s.peers from)) [
          | inl unknown ↦ rw (unknown) (ns.add_peer-Distinct now s.peers from d)
          | inr (p, known) ↦ rw (known) d
        ] in
      subst⁻¹ (Distinct ns.sets) (handle_request-peers now from len byte s)
        (choose (len == 2) _ _ (choose (byte == 0) _ _ added (choose (byte == 1) _ _ removed d)) d)

  reselect-HasOnce :
      (cfg : TopologyConfig) (now : Timeval) (newids : List ℕ) (s : Neighbourhood)
      → HasOnce s
      → HasOnce (reselect ns cfg now newids s)
  unfolding reselect HasOnce
  reselect-HasOnce cfg now newids s d =
      let max_ids = length s.peers + length s.savedids + length newids in
      let old = if cfg.topo_out then map (λ (p : Member). p.id) s.peers else s.savedids in
      apply_changes-HasOnce now (choose_peers cfg max_ids old newids) s d

  update_peers-HasOnce :
      (cfg : TopologyConfig) (now tout_bmap : Timeval) (newids : List ℕ) (message : TopoMessage)
      → (s : Neighbourhood) → HasOnce s
      → HasOnce (update_peers ns cfg now tout_bmap newids message s)
  unfolding update_peers register_size HasOnce
  update_peers-HasOnce cfg now tout_bmap newids own s d = drop_old-HasOnce now tout_bmap s d
  update_peers-HasOnce cfg now tout_bmap newids gossip s d =
      reselect-HasOnce cfg now newids _ (drop_old-HasOnce now tout_bmap s d)
  update_peers-HasOnce cfg now tout_bmap newids (request from len byte) s d =
      let s1 = drop_old ns now tout_bmap s in
      let s' : Neighbourhood = record s1 { cnt = s1.cnt + 1 } in
      let d' = drop_old-HasOnce now tout_bmap s d in
      choose_state cfg.topo_in (handle_request ns now from len byte s')
        (register_size ns (reselect ns cfg now newids s'))
        (handle_request-HasOnce now from len byte s' d') (reselect-HasOnce cfg now newids s' d')

  -- Whatever messages come, at whatever times, and however the neighbours are chosen, no two peers of the peer set have
  -- the same id, if that was so before.
  pub update_all-HasOnce :
      (cfg : TopologyConfig) (tout_bmap : Timeval) (calls : List (Timeval × (List ℕ × TopoMessage)))
      → (s : Neighbourhood) → HasOnce s
      → HasOnce (update_all ns cfg tout_bmap calls s)
  unfolding update_all
  update_all-HasOnce cfg tout_bmap [] s d = d
  update_all-HasOnce cfg tout_bmap ((now, (newids, message)) ∷ calls) s d =
      update_all-HasOnce cfg tout_bmap calls _
        (update_peers-HasOnce cfg now tout_bmap newids message s d)
