-- ===== src/Topology/Update.antt =====
-- `update_peers` of topology.c as a whole, with `add_peer`, `remove_peer` and `nodeid_to_peer`. The peer set is
-- GRAPES's; what its topology module says of the neighbourhood is an argument. `counter`, which nothing counts up, is
-- 0, so TMAN is never used.
pub mod Invariant
pub mod Requests
pub mod Chosen
mod Tests
use streamers.Common.{
  ℕ, ◌+◌, ◌≡◌, Bool, true, false, not, ◌||◌, ◌&&◌, Option, none, some, List, [], ◌∷◌, ◌++◌, map,
  any, length, if◌then◌else◌, ◌==◌,
}
use streamers.Timer.{Timeval, timerisset}
use streamers.Topology.{TopologyConfig, Change, select, choose_peers}
use streamers.Topology.Inactive.{Member, PeerSets, Distinct, Dropping, drop_inactive}

-- peerset.h of GRAPES: `peerset_get_peer` finds a peer by its id; `peerset_add_peer` adds a peer of an id that is not
-- there, behind or before the others, and leaves the set as it is if the id is there.
pub record Neighbours : Type 0 where
  pub sets : PeerSets
  pub add_peer : (now : Timeval) → List Member → ℕ → List Member
  pub get_peer : List Member → ℕ → Option Member
  pub get_peer-any :
      (ps : List Member) (id : ℕ)
      → get_peer ps id ≡ none
      → any (λ (p : Member). p.id == id) ps ≡ false
  pub get_peer-some :
      (ps : List Member) (id : ℕ) {p : Member}
      → get_peer ps id ≡ some p
      → any (λ (q : Member). q.id == id) ps ≡ true
  pub any-add_peer :
      (now : Timeval) (ps : List Member) (id d : ℕ)
      → any (λ (p : Member). p.id == d) (add_peer now ps id)
        ≡ ((d == id) || any (λ (p : Member). p.id == d) ps)
  pub add_peer-Distinct :
      (now : Timeval) (ps : List Member) (id : ℕ)
      → Distinct sets ps
      → Distinct sets (add_peer now ps id)

-- The explicit messages and the buffer maps that go out, with their receivers, and the other calls: the blacklist, the
-- metadata that a new peer gets, by its place in the array, and `reg_neigh_size`.
pub data Note : Type 0 where
  topo_add topo_remove : ℕ → Note
  bmap_sent blacklisted : ℕ → Note
  metadata : (id j : ℕ) → Note
  neigh_size : ℕ → Note
  error_message : Note

-- The static variables: the peer set, `savedids`, `cnt`; and what was done, newest first.
pub record Neighbourhood : Type 0 where
  pub peers : List Member
  pub savedids : List ℕ
  pub cnt : ℕ
  pub notes : List Note

-- What `update_peers` is called with: nothing, a message of the type MSG_TYPE_STREAMER_TOPOLOGY from a peer, with its
-- length and its second byte, or another message.
pub data TopoMessage : Type 0 where
  own : TopoMessage
  request : (from len byte : ℕ) → TopoMessage
  gossip : TopoMessage

module _ (ns : Neighbours) where
  -- The metadata is `none` for NULL, or the place in the array.
  pub add_peer :
      (now : Timeval) (id : ℕ) (m : Option ℕ) (local remote : Bool) → Neighbourhood → Neighbourhood
  add_peer now id m local remote s =
      let given : List Note = elim m [ none ↦ s.notes | some j ↦ metadata id j ∷ s.notes ] in
      let s' : Neighbourhood =
        if local
        then record s { peers = ns.add_peer now s.peers id; notes = bmap_sent id ∷ given }
        else s in
      if remote then record s' { notes = topo_add id ∷ s'.notes } else s'

  pub remove_peer : (id : ℕ) (local remote : Bool) → Neighbourhood → Neighbourhood
  remove_peer id local remote s =
      let s' : Neighbourhood =
        if local then record s { peers = (ns.sets).remove_peer s.peers id } else s in
      if remote then record s' { notes = topo_remove id ∷ s'.notes } else s'

  -- What `drop_inactive` drops is also blacklisted, and told so.
  dropped_notes : List ℕ → List Note → List Note
  dropped_notes [] notes = notes
  dropped_notes (id ∷ ids) notes = topo_remove id ∷ blacklisted id ∷ dropped_notes ids notes

  pub drop_old : (now tout_bmap : Timeval) → Neighbourhood → Neighbourhood
  unfolding dropped_notes
  drop_old now tout_bmap s =
      let d = drop_inactive ns.sets now tout_bmap s.peers in
      if timerisset tout_bmap
      then record s { peers = d.peers; notes = dropped_notes d.dropped s.notes }
      else s

  pub register_size : Neighbourhood → Neighbourhood
  register_size s = record s { notes = neigh_size (length s.peers) ∷ s.notes }

  -- The explicit messages; the types are 0 and 1.
  pub handle_request : (now : Timeval) (from len byte : ℕ) → Neighbourhood → Neighbourhood
  unfolding add_peer remove_peer register_size
  handle_request now from len byte s =
      if len == 2
      then if byte == 0
        then register_size (elim (ns.get_peer s.peers from) [
          | none ↦ add_peer now from none true false s
          | some p ↦ s
        ])
        else if byte == 1
        then register_size (remove_peer from true false s)
        else register_size (record s { notes = error_message ∷ s.notes })
      else record s { notes = error_message ∷ s.notes }

  -- A change that `choose_peers` asks for.
  pub apply_change : Timeval → Change → Neighbourhood → Neighbourhood
  unfolding add_peer remove_peer
  apply_change now (Change.add_peer id j local remote) s = add_peer now id (some j) local remote s
  apply_change now (Change.remove_peer id local remote) s = remove_peer id local remote s
  apply_change now (Change.missing_metadata id) s = record s { notes = error_message ∷ s.notes }

  pub apply_changes : Timeval → List Change → Neighbourhood → Neighbourhood
  unfolding apply_change
  apply_changes now [] s = s
  apply_changes now (c ∷ cs) s = apply_changes now cs (apply_change now c s)

  -- The choice of the neighbours: from the ids of the peers, or, if this peer does not choose its out-neighbours, from
  -- the saved ones, which are replaced by what was selected.
  pub reselect : TopologyConfig → Timeval → (newids : List ℕ) → Neighbourhood → Neighbourhood
  unfolding apply_changes
  reselect cfg now newids s =
      let max_ids = length s.peers + length s.savedids + length newids in
      let old = if cfg.topo_out then map (λ (p : Member). p.id) s.peers else s.savedids in
      let s' = apply_changes now (choose_peers cfg max_ids old newids) s in
      record s' {
        savedids =
            if cfg.topo_out then s.savedids else select cfg max_ids (cfg.order_old old) newids;
      }

  pub update_peers :
      TopologyConfig
      → (now tout_bmap : Timeval) (newids : List ℕ) → TopoMessage
      → Neighbourhood
      → Neighbourhood
  unfolding drop_old handle_request reselect register_size
  update_peers cfg now tout_bmap newids message s0 =
      let s1 = drop_old now tout_bmap s0 in
      let s : Neighbourhood = record s1 { cnt = s1.cnt + 1 } in
      elim message [
        | own ↦ register_size s
        | gossip ↦ register_size (reselect cfg now newids s)
        | request from len byte ↦
            if cfg.topo_in
            then handle_request now from len byte s
            else register_size (reselect cfg now newids s)
      ]

  -- `reg` is whether an unknown peer is added.
  pub nodeid_to_peer :
      (topo_out reg : Bool) (now : Timeval) (id : ℕ) → Neighbourhood → Option Member × Neighbourhood
  unfolding add_peer
  nodeid_to_peer topo_out reg now id s = elim (ns.get_peer s.peers id) [
    | some p ↦ (some p, s)
    | none ↦
        if reg
        then (let s' = add_peer now id none topo_out false s in (ns.get_peer s'.peers id, s'))
        else (none, s)
  ]

  -- The calls of `update_peers`, each with the time, the new ids and the message.
  pub update_all :
      TopologyConfig
      → (tout_bmap : Timeval) → List (Timeval × (List ℕ × TopoMessage))
      → Neighbourhood
      → Neighbourhood
  unfolding update_peers
  update_all cfg tout_bmap [] s = s
  update_all cfg tout_bmap ((now, (newids, message)) ∷ calls) s =
      update_all cfg tout_bmap calls (update_peers cfg now tout_bmap newids message s)
