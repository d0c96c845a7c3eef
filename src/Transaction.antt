-- ===== src/Transaction.antt =====
-- transaction.c: the doubly linked list of the offers under way, newest first, on an explicit heap.
--
-- `stl` and the counter `trans_id` are the static variables. Times, doubles in seconds, are whole
-- microseconds; an `accept_received_time` of -1.0 is `none`. The clock is an argument, one for each
-- `gettimeofday`, and so is the address that `malloc` returns. A read or write through NULL or of a
-- freed element is `fault`; a loop that runs out of rounds is `spent`.
pub mod Heap
pub mod Chain
pub mod Unlink
pub mod Laws
pub mod Remove
pub mod Create
mod Tests
use streamers.Common.{
  ℕ, zero, suc, ◌+◌, ◌%◌, ◌^◌, Bool, true, false, Option, none, some, if◌then◌else◌, ltb, ◌==◌,
}
use streamers.Transaction.Heap.{
  Ptr, null, ServiceTime, Element, Store, Run, done, spent, Cmd, pure, ◌>>=◌, ◌>>◌, load, modify,
  alloc, free, get_stl, set_stl,
}

-- `TRANS_ID_MAX_LIFETIME`
abbrev pub trans_id_max_lifetime : ℕ
trans_id_max_lifetime = 10000000

pub is_over : ℕ → ServiceTime → Bool
is_over now st = ltb (st.offer_sent_time + trans_id_max_lifetime) now

-- `stl_iterator->backward = p` and the like.
pub set_backward : Ptr → Ptr → Cmd (Unit {0})
set_backward p q = modify p λ e. record e { backward = q }

pub set_forward : Ptr → Ptr → Cmd (Unit {0})
set_forward p q = modify p λ e. record e { forward = q }

-- Taking `p` out of the list, as `check_neighbor_status_list` and `transaction_remove` do it.
pub unlink : Ptr → Cmd (Unit {0})
unfolding set_backward set_forward
unlink p = do
  e ← load p
  elim (e.backward == null) [
    | true ↦ do
      set_stl e.forward
      (if e.forward == null then pure tt else set_backward e.forward null)
      set_forward p null
    | false ↦ elim (e.forward == null) [
      | true ↦ set_forward e.backward null
      | false ↦ do set_forward e.backward e.forward; set_backward e.forward e.backward
    ]
  ]

-- Taking `p` out and freeing it; the result is the `forward` that is left in it, `stl_aux`.
pub drop_element : Ptr → Cmd Ptr
unfolding unlink
drop_element p = do unlink p; e ← load p; free p; pure e.forward

check_loop : ℕ → ℕ → Ptr → Cmd (Unit {0})
unfolding is_over drop_element
check_loop now zero p = λ s. spent
check_loop now (suc fuel) p = if p == null then pure tt else do
  e ← load p
  elim (is_over now e.st) [
    | true ↦ do aux ← drop_element p; check_loop now fuel aux
    | false ↦ check_loop now fuel e.forward
  ]

pub check_neighbor_status_list : ℕ → ℕ → Cmd (Unit {0})
unfolding check_loop
check_neighbor_status_list now fuel = do p ← get_stl; check_loop now fuel p

-- `trans_id++`, and once more at 0.
pub next_trans_id : ℕ → ℕ
next_trans_id t = let t' = (t + 1) % 2 ^ 16 in if t' == 0 then 1 else t'

-- `trans_id = …`
set_trans_id : ℕ → Cmd (Unit {0})
set_trans_id t s = done tt (record s { trans_id = t })

get_trans_id : Cmd ℕ
get_trans_id s = done s.trans_id s

-- `now` is read by `check_neighbor_status_list`, `sent` by `transaction_create` itself; `malloc`
-- returns `fresh`.
pub transaction_create : (now sent fuel : ℕ) (fresh : Ptr) (id : ℕ) → Cmd ℕ
unfolding next_trans_id set_trans_id get_trans_id set_backward
transaction_create now sent fuel fresh id = do
  check_neighbor_status_list now fuel
  old ← get_trans_id
  let t = next_trans_id old
  set_trans_id t
  let st : ServiceTime = record {
    trans_id = t;
    offer_sent_time = sent;
    accept_received_time = none;
    id = id;
  }
  p ← get_stl
  elim (p == null) [
    | false ↦ do
      alloc fresh (record { st = st; backward = null; forward = p })
      set_backward p fresh
    | true ↦ alloc fresh (record { st = st; backward = null; forward = null })
  ]
  set_stl fresh
  pure t

-- The walk from `p` to the first element with the id, or to NULL.
pub find_loop : ℕ → ℕ → Ptr → Cmd Ptr
find_loop t zero p = λ s. spent
find_loop t (suc fuel) p = if p == null then pure null else do
  e ← load p
  elim (e.st.trans_id == t) [ true ↦ pure p | false ↦ find_loop t fuel e.forward ]

pub transaction_reg_accept : (now fuel trans_id : ℕ) → Cmd Bool
unfolding find_loop
transaction_reg_accept now fuel trans_id = do
  first ← get_stl
  p ← find_loop trans_id fuel first
  elim (p == null) [
    | true ↦ pure false
    | false ↦ do
      modify p λ e. record e { st = record e.st { accept_received_time = some now } }
      pure true
  ]

-- The result of `transaction_remove`: -2.0, or the element's `accept_received_time`.
pub data RemoveResult : Type 0 where
  not_found : RemoveResult
  found : Option ℕ → RemoveResult

pub transaction_remove : (fuel trans_id : ℕ) → Cmd RemoveResult
unfolding find_loop drop_element
transaction_remove fuel trans_id = do
  first ← get_stl
  p ← find_loop trans_id fuel first
  elim (p == null) [
    | true ↦ pure not_found
    | false ↦ do e ← load p; drop_element p; pure (found e.st.accept_received_time)
  ]
