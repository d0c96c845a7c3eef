-- ===== src/Transaction/Tests.antt =====
-- Runs of the transaction list of transaction.c.
use streamers.Common.{ℕ, ◌≡◌, refl, true, false, none, some, [], ◌∷◌, arith}
use streamers.Transaction.Heap.{
  Ptr, null, ServiceTime, Store, write, Run, done, fault, spent, load, modify, free, get_stl,
  set_stl,
}
use streamers.Transaction.Chain.{Cells, has, element, IsList}
use streamers.Transaction.Laws.{checked, check_neighbor_status_list-checked}
use streamers.Transaction.Remove.{erase, transaction_remove-erase}
use streamers.Transaction.Create.{
  new_service, transaction_create-cons, transaction_remove-reg_accept,
}
use streamers.Transaction.{
  is_over, set_backward, set_forward, unlink, drop_element, check_loop, check_neighbor_status_list,
  next_trans_id, transaction_create, transaction_reg_accept, transaction_remove, not_found, found,
}

abbrev service : ℕ → ℕ → ServiceTime
service t sent = new_service t sent 0

-- Transaction 2 was offered at second 5, transaction 3 at second 6.
abbrev two : Store
two = record {
  heap =
      write (write (λ q. none) 1 (some (element (service 2 5000000) 2 null))) 2
        (some (element (service 3 6000000) null 1));
  stl = 2;
  trans_id = 3;
}

abbrev two_cells : Cells
two_cells = (2, service 3 6000000) ∷ (1, service 2 5000000) ∷ []

two-IsList : IsList two two_cells
unfolding write
two-IsList = record {
  starts = refl;
  chain = (omega arith, refl, refl, (omega arith, refl, refl, tt));
}

abbrev stl_of : Run (Unit {0}) → Ptr
stl_of (done a s) = s.stl
stl_of fault = null
stl_of spent = null

-- At second 60 both are over their lifetime; the older one is left.
stale_run : stl_of (check_neighbor_status_list 60000000 3 two) ≡ 1
unfolding check_neighbor_status_list check_loop is_over drop_element unlink set_backward set_forward
    load modify free get_stl set_stl write
stale_run = refl

check_neighbor_status_list-checked_example :
    (s' : Store) × (check_neighbor_status_list 60000000 3 two ≡ done tt s')
    × IsList s' (checked 60000000 two_cells)
    × (s'.trans_id ≡ 3)
    × ((q : Ptr) → has q two_cells ≡ false → s'.heap q ≡ two.heap q)
    × ((q : Ptr)
        → has q two_cells ≡ true
        → has q (checked 60000000 two_cells) ≡ false
        → s'.heap q ≡ none)
check_neighbor_status_list-checked_example =
    check_neighbor_status_list-checked 60000000 3 two two_cells two-IsList (omega arith)

transaction_create-cons_example :
    (s' : Store) × (transaction_create 7000000 7000001 3 9 0 two ≡ done (next_trans_id 3) s')
    × IsList s' ((9, new_service (next_trans_id 3) 7000001 0) ∷ checked 7000000 two_cells)
    × (s'.trans_id ≡ next_trans_id 3)
unfolding is_over
transaction_create-cons_example =
    transaction_create-cons 7000000 7000001 3 9 0 two two_cells two-IsList (omega arith)
      (omega arith) refl

transaction_remove-erase_example :
    (s' : Store) × (transaction_remove 3 7 two ≡ done not_found s')
    × IsList s' (erase 7 two_cells)
    × (s'.trans_id ≡ 3)
    × ((q : Ptr) → has q two_cells ≡ false → s'.heap q ≡ two.heap q)
    × ((q : Ptr) → has q two_cells ≡ true → has q (erase 7 two_cells) ≡ false → s'.heap q ≡ none)
transaction_remove-erase_example =
    transaction_remove-erase 7 3 two two_cells two-IsList (omega arith)

transaction_remove-reg_accept_example :
    (s1 s2 : Store) × (transaction_reg_accept 8000000 3 2 two ≡ done true s1)
    × (transaction_remove 3 2 s1 ≡ done (found (some 8000000)) s2)
    × IsList s2 (erase 2 two_cells)
transaction_remove-reg_accept_example =
    transaction_remove-reg_accept 8000000 3 2 two two_cells (service 2 5000000) two-IsList
      (omega arith) refl
