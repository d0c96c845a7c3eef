-- ===== src/Topology/Update/Tests.antt =====
-- A peer set that is a list, and runs of `update_peers` on it.
use streamers.Common.{
  ℕ, ◌≡◌, refl, true, false, not, ◌||◌, Option, none, some, List, [], ◌∷◌, arith, keep, All,
  Bool-cases, inl, inr, ap, ◌∙◌, if◌then◌else◌, ◌==◌, ==_iff, min, ltb, ◌-◌,
}
use streamers.Timer.{Timeval, timersub, timer_lt, timerisset}
use streamers.Topology.{TopologyConfig, select}
use streamers.Topology.Selection.{Orders}
use streamers.Topology.Inactive.{Member, PeerSets, Distinct, inactive, drop_loop, drop_inactive}
use streamers.Topology.Update.{
  Neighbours, Neighbourhood, request, gossip, add_peer, register_size, drop_old, handle_request,
  update_peers, update_all,
}
use streamers.Topology.Update.Invariant.{HasOnce}
use streamers.Topology.Update.Requests.{has, update_peers-answered}
use streamers.Topology.Update.Chosen.{is_in, update_all-chosen}

abbrev removing : PeerSets
removing = record {
  remove_peer = λ ps id. keep (λ (p : Member). not (p.id == id)) ps;
  remove-keep = λ ps id. refl;
}

abbrev find : List Member → ℕ → Option Member
find [] id = none
find (p ∷ ps) id = if p.id == id then some p else find ps id

abbrev at : ℕ → Timeval
at t = record { tv_sec = t; tv_usec = 0 }

abbrev add : Timeval → List Member → ℕ → List Member
add now ps id =
    if has id ps
    then ps
    else record { id = id; bmap_timestamp = at 0; creation_timestamp = now } ∷ ps

find_missing : (ps : List Member) (id : ℕ) → find ps id ≡ none → has id ps ≡ false
find_missing [] id e = refl
find_missing (p ∷ ps) id e = ground (arith, find_missing ps id)

find_present : (ps : List Member) (id : ℕ) (p : Member) → find ps id ≡ some p → has id ps ≡ true
find_present [] id q e = absurd cc
find_present (p ∷ ps) id q e = ground (arith, find_present ps id q)

apart :
    (ps : List Member) (id : ℕ) → has id ps ≡ false → All (λ (q : Member). (q.id == id) ≡ false) ps
apart [] id h = tt
apart (p ∷ ps) id h = (ground arith, apart ps id (ground arith))

has-add :
    (now : Timeval) (ps : List Member) (id d : ℕ) → has d (add now ps id) ≡ ((d == id) || has d ps)
has-add now ps id d = elim (Bool-cases (has id ps)) [
  | inr out ↦ rw (out) (ground arith)
  | inl there ↦ rw (there) (elim (Bool-cases (d == id)) [
    | inl same ↦ let e : d ≡ id = (==_iff d id).0 same in rw (same) (ap (λ i. has i ps) e ∙ there)
    | inr other ↦ rw (other) refl
  ])
]

add-Distinct :
    (now : Timeval) (ps : List Member) (id : ℕ)
    → Distinct removing ps
    → Distinct removing (add now ps id)
add-Distinct now ps id d = elim (Bool-cases (has id ps)) [
  | inl there ↦ rw (there) d
  | inr out ↦ rw (out) (apart ps id out, d)
]

abbrev lists : Neighbours
lists = record {
  sets = removing;
  add_peer = add;
  get_peer = find;
  get_peer-any = find_missing;
  get_peer-some = λ ps id {p} e. find_present ps id p e;
  any-add_peer = has-add;
  add_peer-Distinct = add-Distinct;
}

abbrev config : TopologyConfig
config = record {
  target_size = 3;
  topo_in = true;
  topo_out = true;
  keep_size = λ n. min n 1;
  desired_part = λ n. min (3 - n) 1;
  is_desired = λ id. ltb id 10;
  order_old = λ xs. xs;
  order_desired = λ xs. xs;
  order_others = λ xs. xs;
}

-- Peer 1 was heard of lately, peer 2 was not.
abbrev begin : Neighbourhood
begin = record {
  peers =
      record { id = 1; bmap_timestamp = at 90; creation_timestamp = at 10 }
      ∷ record { id = 2; bmap_timestamp = at 70; creation_timestamp = at 10 }
      ∷ [];
  savedids = [];
  cnt = 0;
  notes = [];
}

-- Peer 7 asks to be added.
update_peers-answered_example :
    has 7 (update_peers lists config (at 100) (at 20) [] (request 7 2 0) begin).peers ≡ true
unfolding HasOnce timerisset timersub timer_lt inactive
update_peers-answered_example =
    update_peers-answered lists config (at 100) (at 20) [] 7 2 0 7 begin refl refl
      ((refl, tt), (tt, tt))

same_orders : Orders config
same_orders = record { old = λ xs id. refl; desired = λ xs id h. h; others = λ xs id h. h }

-- Gossip tells of the peers 7, 12 and 13.
abbrev known : List ℕ
known = 7 ∷ 12 ∷ 13 ∷ []

-- Peer 5 has asked to be added when the gossip comes.
abbrev asked : Neighbourhood
asked = update_all lists config (at 20) ((at 80, ([], request 5 2 0)) ∷ []) begin

update_all-chosen_example :
    has 7 (update_peers lists config (at 100) (at 20) known gossip asked).peers
    ≡ is_in 7 (select config 5 (5 ∷ 1 ∷ []) known)
unfolding HasOnce update_all update_peers drop_old handle_request drop_inactive drop_loop add_peer
    register_size timerisset timersub timer_lt inactive
update_all-chosen_example =
    update_all-chosen lists config (at 20) ((at 80, ([], request 5 2 0)) ∷ []) begin (at 100) known
      7 same_orders (λ xs. omega arith) refl refl ((refl, tt), (tt, tt))
