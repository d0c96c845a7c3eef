-- ===== src/Topology/Tests.antt =====
-- A choice of neighbours as topology.c makes it.
use streamers.Common.{◌≡◌, refl, ℕ, ◌-◌, true, List, [], ◌∷◌, min, All, ltb, keep, ◌==◌, not}
use streamers.Topology.{TopologyConfig, select, choose_peers}
use streamers.Timer.{Timeval, timersub, timer_lt, timerisset}
use streamers.Topology.Inactive.{
  PeerSets, Member, drop_inactive, drop_loop, inactive, drop_inactive-keep,
}
use streamers.Topology.Selection.{Sound, Orders, choose_peers-Sound}

-- One old peer is kept, and one desired peer at most is taken for the three that are wanted.
abbrev config : TopologyConfig
config = record {
  target_size = 3;
  topo_in = true;
  topo_out = true;
  keep_size = λ n. min n 1;
  desired_part = λ n. min (3 - n) 1;
  is_desired = λ id. ltb id 10;
  order_old = λ xs. xs;
  order_desired = λ xs. xs;
  order_others = λ xs. xs;
}

abbrev old : List ℕ
old = 4 ∷ 12 ∷ []

abbrev new : List ℕ
new = 11 ∷ 7 ∷ 4 ∷ []

same_orders : Orders config
same_orders = record { old = λ xs id. refl; desired = λ xs id h. h; others = λ xs id h. h }

choose_peers-Sound_example :
    All (Sound old new (select config 5 old new)) (choose_peers config 5 old new)
choose_peers-Sound_example = choose_peers-Sound config same_orders 5 old new

abbrev at : ℕ → Timeval
at t = record { tv_sec = t; tv_usec = 0 }

abbrev removing : PeerSets
removing = record {
  remove_peer = λ ps id. keep (λ (p : Member). not (p.id == id)) ps;
  remove-keep = λ ps id. refl;
}

-- Peer 1 was heard of lately, peer 2 was not, and peer 3 is new.
abbrev members : List Member
members =
    record { id = 1; bmap_timestamp = at 90; creation_timestamp = at 10 }
    ∷ record { id = 2; bmap_timestamp = at 70; creation_timestamp = at 10 }
    ∷ record { id = 3; bmap_timestamp = at 0; creation_timestamp = at 85 }
    ∷ []

dropped_run : (drop_inactive removing (at 100) (at 20) members).dropped ≡ 2 ∷ []
unfolding drop_inactive drop_loop inactive timersub timer_lt timerisset
dropped_run = refl

drop_inactive-keep_example :
    (drop_inactive removing (at 100) (at 20) members).peers
    ≡ keep (λ (p : Member). not (inactive (timersub (at 100) (at 20)) p)) members
drop_inactive-keep_example =
    drop_inactive-keep removing (at 100) (at 20) members
      ((refl, (refl, tt)), ((refl, tt), (tt, tt)))
