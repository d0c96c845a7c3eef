-- ===== src/Transaction/Laws.antt =====
-- `check_neighbor_status_list` of transaction.c on the list: what stays, what is freed.
use streamers.Common.{
  ℕ, zero, suc, ◌<◌, ◌≡◌, refl, ap, ◌∙◌, ◌≢◌, inl, inr, true, false, none, some, [], ◌∷◌, arith,
  if◌then◌else◌, ◌==◌, length, Bool-cases,
}
use streamers.Transaction.Heap.{Ptr, null, ServiceTime, Element, Store, done, load, get_stl}
use streamers.Transaction.Chain.{Cells, has, front, element, Chain, IsList}
use streamers.Transaction.Unlink.{
  middle_heap, drop_middle, middle_heap-Dropped, head_heap, drop_head, head_heap-Beheaded,
}
use streamers.Transaction.{is_over, drop_element, check_loop, check_neighbor_status_list}

-- The elements that are not over their lifetime.
abbrev pub pending : ℕ → Cells → Cells
pending now [] = []
pending now ((p, st) ∷ xs) = if is_over now st then pending now xs else (p, st) ∷ pending now xs

not-has-pending :
    (now : ℕ) (q : Ptr) (xs : Cells) → has q xs ≡ false → has q (pending now xs) ≡ false
not-has-pending now q [] h = refl
not-has-pending now q ((p, st) ∷ xs) h = ground (arith, not-has-pending now q xs)

-- What the loop leaves behind the element at `b`, when `xs` stood there.
record Checked (now : ℕ) (s : Store) (b : Ptr) (sb : ServiceTime) (pb : Ptr) (xs : Cells)
    (s' : Store) : Type 0 where
  stl : s'.stl ≡ s.stl
  trans_id : s'.trans_id ≡ s.trans_id
  before : s'.heap b ≡ some (element sb pb (front (pending now xs)))
  chain : Chain s'.heap b (pending now xs)
  same : (q : Ptr) → (q == b) ≡ false → has q xs ≡ false → s'.heap q ≡ s.heap q
  freed : (q : Ptr) → has q xs ≡ true → has q (pending now xs) ≡ false → s'.heap q ≡ none

step_over :
    (now fuel p : ℕ) (s : Store) (e : Element)
    → p ≢ null
    → s.heap p ≡ some e
    → is_over now e.st ≡ true
    → (aux : Ptr) (s1 : Store) → drop_element p s ≡ done aux s1
    → check_loop now (suc fuel) p s ≡ check_loop now fuel aux s1
unfolding check_loop load
step_over now fuel p s e ne h o aux s1 d = ground arith

step_on :
    (now fuel p : ℕ) (s : Store) (e : Element)
    → p ≢ null
    → s.heap p ≡ some e
    → is_over now e.st ≡ false
    → check_loop now (suc fuel) p s ≡ check_loop now fuel e.forward s
unfolding check_loop load
step_on now fuel p s e ne h o = ground arith

check_end : (now fuel : ℕ) (s : Store) → check_loop now (suc fuel) null s ≡ done tt s
unfolding check_loop
check_end now fuel s = refl

loop_middle :
    (now fuel : ℕ) (s : Store) (b : Ptr) (sb : ServiceTime) (pb : Ptr) (xs : Cells)
    → b ≢ null
    → s.heap b ≡ some (element sb pb (front xs))
    → has b xs ≡ false
    → Chain s.heap b xs
    → length xs < fuel
    → (s' : Store) × (check_loop now fuel (front xs) s ≡ done tt s') × Checked now s b sb pb xs s'
loop_middle now zero s b sb pb xs nb eb ob c f = absurd (omega arith)
loop_middle now (suc fuel) s b sb pb [] nb eb ob c f = (
  s,
  check_end now fuel s,
  record {
    stl = refl;
    trans_id = refl;
    before = eb;
    chain = tt;
    same = λ q i j. refl;
    freed = λ q i. absurd (cc);
  },
)
loop_middle now (suc fuel) s b sb pb ((p, st) ∷ xs) nb eb ob c f =
    elim (Bool-cases (is_over now st)) [
      | inl over ↦
          let s1 : Store = record s { heap = middle_heap s.heap b p sb pb xs } in
          let d = middle_heap-Dropped s.heap b p sb st pb xs ob c in
          let (s2, run, r) =
            loop_middle now fuel s1 b sb pb xs nb d.before (ground arith) d.chain (omega arith) in
          (
            s2,
            step_over now fuel p s (element st b (front xs)) c.0 c.1 over (front xs) s1
                  (drop_middle s b p sb st pb xs nb eb ob c)
                ∙ run,
            record {
              stl = r.stl;
              trans_id = r.trans_id;
              before = rw over r.before;
              chain = rw over r.chain;
              same = λ q i j. ground (arith, r.same q, d.same q);
              freed = λ q i j. ground (arith, r.freed q, r.same p, d.freed);
            },
          )
      | inr on ↦
          let (s2, run, r) = loop_middle now fuel s p st b xs c.0 c.1 c.2 c.3 (omega arith) in
          (
            s2,
            step_on now fuel p s (element st b (front xs)) c.0 c.1 on ∙ run,
            record {
              stl = r.stl;
              trans_id = r.trans_id;
              before = rw on (r.same b (ground arith) (ground arith) ∙ eb);
              chain = rw on (c.0, r.before, not-has-pending now p xs c.2, r.chain);
              same = λ q i j. ground (arith, r.same q);
              freed = λ q i j. ground (arith, r.freed q);
            },
          )
    ]

-- What `check_neighbor_status_list` leaves of a list, newest first. If the newest element is over
-- its lifetime, it alone is dropped: its `forward` is set to NULL and then read for the next one.
abbrev pub checked : ℕ → Cells → Cells
checked now [] = []
checked now ((p, st) ∷ xs) = if is_over now st then xs else (p, st) ∷ pending now xs

check_from :
    (now fuel : ℕ) (s : Store) (p : Ptr)
    → s.stl ≡ p
    → check_neighbor_status_list now fuel s ≡ check_loop now fuel p s
unfolding check_neighbor_status_list get_stl
check_from now fuel s p e = ap (λ q. check_loop now fuel q s) e

-- With a round for each element and one more, `check_neighbor_status_list` ends, without a fault.
-- It leaves the elements of `checked`, in their order, in a well-formed list, and frees the others;
-- every other address holds what it held.
pub check_neighbor_status_list-checked :
    (now fuel : ℕ) (s : Store) (xs : Cells)
    → IsList s xs
    → length xs < fuel
    → (s' : Store) × (check_neighbor_status_list now fuel s ≡ done tt s')
      × IsList s' (checked now xs)
      × (s'.trans_id ≡ s.trans_id)
      × ((q : Ptr) → has q xs ≡ false → s'.heap q ≡ s.heap q)
      × ((q : Ptr) → has q xs ≡ true → has q (checked now xs) ≡ false → s'.heap q ≡ none)
check_neighbor_status_list-checked now zero s xs is f = absurd (omega arith)
check_neighbor_status_list-checked now (suc fuel) s [] is f = (
  s,
  check_from now (suc fuel) s null is.starts ∙ check_end now fuel s,
  is,
  refl,
  λ q i. refl,
  λ q i. absurd (cc),
)
check_neighbor_status_list-checked now (suc zero) s ((p, st) ∷ xs) is f = absurd (omega arith)
check_neighbor_status_list-checked now (suc (suc fuel)) s ((p, st) ∷ xs) is f =
    elim (Bool-cases (is_over now st)) [
      | inl over ↦
          let s1 : Store = record s { heap = head_heap s.heap p st xs; stl = front xs } in
          let b = head_heap-Beheaded s.heap p st xs is.chain in
          (
            s1,
            check_from now (suc (suc fuel)) s p is.starts
                ∙ step_over now (suc fuel) p s (element st null (front xs)) is.chain.0 is.chain.1
                    over null s1 (drop_head s p st xs is.starts is.chain)
                ∙ check_end now fuel s1,
            rw over (record { starts = refl; chain = b.chain }),
            refl,
            b.same,
            λ q i j. ground (arith, b.freed),
          )
      | inr on ↦
          let (s2, run, r) =
            loop_middle now (suc fuel) s p st null xs is.chain.0 is.chain.1 is.chain.2 is.chain.3
              (omega arith) in
          (
            s2,
            check_from now (suc (suc fuel)) s p is.starts
                ∙ step_on now (suc fuel) p s (element st null (front xs)) is.chain.0 is.chain.1 on
                ∙ run,
            rw on (record {
              starts = r.stl ∙ is.starts;
              chain = (is.chain.0, r.before, not-has-pending now p xs is.chain.2, r.chain);
            }),
            r.trans_id,
            λ q i. ground (arith, r.same q),
            λ q i j. ground (arith, r.freed q),
          )
    ]
