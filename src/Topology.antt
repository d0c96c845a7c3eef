-- ===== src/Topology.antt =====
-- The part of `update_peers` of topology.c that chooses the neighbours, from the known ids to the peers
-- that are added and removed.
--
-- Node ids are numbers, `nodeid_equal` is their equality. `topGetNeighbourhood` and its metadata are
-- arguments; what is computed in floating point (the size that `topo_mem` keeps, the part that
-- `alpha_target` leaves to desired peers, `is_desired`) and the three orders, by `qsort` or
-- `nidset_shuffle`, are functions in `TopologyConfig`.
pub mod Selection
pub mod Inactive
pub mod Rtt
pub mod Update
mod Tests
use streamers.Common.{
  ℕ, ◌+◌, ◌-◌, Bool, true, false, List, [], ◌∷◌, ◌++◌, min, length, take, if◌then◌else◌, ◌==◌,
}
use streamers.NodeidSet.{
  Written, nidset_filter, nidset_complement, nidset_find, nidset_add, nidset_add_i,
}

pub record TopologyConfig : Type 0 where
  pub target_size : ℕ
  pub topo_in : Bool
  pub topo_out : Bool
  pub keep_size : ℕ → ℕ
  pub desired_part : ℕ → ℕ
  pub is_desired : ℕ → Bool
  pub order_old : List ℕ → List ℕ
  pub order_desired : List ℕ → List ℕ
  pub order_others : List ℕ → List ℕ

-- A call of `add_peer` with the index of its metadata, or of `remove_peer`, with the flags `local` and
-- `remote`; or the error message for an id without metadata.
pub data Change : Type 0 where
  add_peer : (id j : ℕ) (local remote : Bool) → Change
  remove_peer : (id : ℕ) (local remote : Bool) → Change
  missing_metadata : ℕ → Change

module _ (cfg : TopologyConfig) where
  open cfg use {
    target_size, topo_in, topo_out, keep_size, desired_part, is_desired, order_old, order_desired,
    order_others,
  }

  -- `selecteds` with what is kept of the old ids.
  pub kept : List ℕ → List ℕ
  kept oldids = take (keep_size (length oldids)) oldids

  -- The candidates: what is known and not kept.
  pub candidates : (max_ids : ℕ) (oldids newids : List ℕ) → List ℕ
  unfolding kept
  candidates max_ids oldids newids =
      let nodeids = (nidset_add ◌==◌ max_ids oldids newids).dst in
      (nidset_complement ◌==◌ max_ids nodeids (kept oldids)).dst

  -- The desired part is added to `selecteds`.
  pub add_desired : (max_ids : ℕ) (selecteds candidates : List ℕ) → List ℕ
  add_desired max_ids selecteds cands =
      let desireds = order_desired (nidset_filter is_desired max_ids cands).dst in
      let part = min (length desireds) (desired_part (length selecteds)) in
      (nidset_add_i ◌==◌ selecteds max_ids (take part desireds)).dst

  -- And others, until the target is reached.
  pub add_random : (max_ids : ℕ) (selecteds candidates : List ℕ) → List ℕ
  add_random max_ids selecteds cands =
      let others = order_others (nidset_complement ◌==◌ max_ids cands selecteds).dst in
      let random_size =
        if target_size == 0
        then length others
        else min (length others) (target_size - length selecteds) in
      (nidset_add_i ◌==◌ selecteds max_ids (take random_size others)).dst

  pub select : (max_ids : ℕ) (oldids newids : List ℕ) → List ℕ
  unfolding kept candidates add_desired add_random
  select max_ids oldids newids =
      let cands = candidates max_ids oldids newids in
      add_random max_ids (add_desired max_ids (kept oldids) cands) cands

  -- The loop over `toadds`.
  pub add_loop : (newids toadds : List ℕ) → List Change
  add_loop newids [] = []
  add_loop newids (id ∷ toadds) =
      let (found, j) = nidset_find ◌==◌ 0 newids id in
      (if found then add_peer id j topo_out topo_in else missing_metadata id)
      ∷ add_loop newids toadds

  -- The loop over `toremoves`.
  pub remove_loop : List ℕ → List Change
  remove_loop [] = []
  remove_loop (id ∷ toremoves) = remove_peer id topo_out topo_in ∷ remove_loop toremoves

  -- The block from the order of the old ids on; `old` are the ids of the peers or the saved ones.
  pub choose_peers : (max_ids : ℕ) (old newids : List ℕ) → List Change
  unfolding select add_loop remove_loop
  choose_peers max_ids old newids =
      let oldids = order_old old in
      let selecteds = select max_ids oldids newids in
      let toadds = (nidset_complement ◌==◌ max_ids selecteds oldids).dst in
      let toremoves = (nidset_complement ◌==◌ max_ids oldids selecteds).dst in
      add_loop newids toadds ++ remove_loop toremoves
