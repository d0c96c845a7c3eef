-- ===== src/Transaction/Remove.antt =====
-- `transaction_remove` of transaction.c: the first element with the id is taken out and freed.
use streamers.Common.{
  ℕ, zero, suc, ◌<◌, ◌≡◌, refl, ap, ◌∙◌, ◌≢◌, inl, inr, true, false, Option, none, some, [], ◌∷◌,
  arith, if◌then◌else◌, ◌==◌, length, Bool-cases, Option-cases,
}
use streamers.Transaction.Heap.{Ptr, null, ServiceTime, Element, Heap, Store, done, load, get_stl}
use streamers.Transaction.Chain.{Cells, has, front, element, Chain, IsList}
use streamers.Transaction.Unlink.{
  middle_heap, drop_middle, middle_heap-Dropped, head_heap, drop_head, head_heap-Beheaded,
}
use streamers.Transaction.{
  drop_element, find_loop, transaction_remove, RemoveResult, not_found, found,
}

-- The address of the first element with the id, or NULL.
abbrev pub find : ℕ → Cells → Ptr
find t [] = null
find t ((p, st) ∷ xs) = if st.trans_id == t then p else find t xs

abbrev pub lookup : ℕ → Cells → Option ServiceTime
lookup t [] = none
lookup t ((p, st) ∷ xs) = if st.trans_id == t then some st else lookup t xs

abbrev pub erase : ℕ → Cells → Cells
erase t [] = []
erase t ((p, st) ∷ xs) = if st.trans_id == t then xs else (p, st) ∷ erase t xs

find_next :
    (t fuel p : ℕ) (s : Store) (e : Element)
    → p ≢ null
    → s.heap p ≡ some e
    → find_loop t (suc fuel) p s
      ≡ (if e.st.trans_id == t then done p s else find_loop t fuel e.forward s)
unfolding find_loop load
find_next t fuel p s e ne h = ground arith

find_end : (t fuel : ℕ) (s : Store) → find_loop t (suc fuel) null s ≡ done null s
unfolding find_loop
find_end t fuel s = refl

pub find_loop-find :
    (t fuel : ℕ) (s : Store) (b : Ptr) (xs : Cells)
    → Chain s.heap b xs
    → length xs < fuel
    → find_loop t fuel (front xs) s ≡ done (find t xs) s
find_loop-find t zero s b xs c f = absurd (omega arith)
find_loop-find t (suc fuel) s b [] c f = find_end t fuel s
find_loop-find t (suc fuel) s b ((p, st) ∷ xs) c f = ground (
  arith,
  find_next t fuel p s (element st b (front xs)) c.0 c.1,
  find_loop-find t fuel s p xs c.3,
)

not-has-erase : (t : ℕ) (q : Ptr) (xs : Cells) → has q xs ≡ false → has q (erase t xs) ≡ false
not-has-erase t q [] h = refl
not-has-erase t q ((p, st) ∷ xs) h = ground (arith, not-has-erase t q xs)

-- What is left behind the element at `b`.
record Removed (t : ℕ) (s : Store) (b : Ptr) (sb : ServiceTime) (pb : Ptr) (xs : Cells) (s' : Store)
    : Type 0 where
  stl : s'.stl ≡ s.stl
  trans_id : s'.trans_id ≡ s.trans_id
  before : s'.heap b ≡ some (element sb pb (front (erase t xs)))
  chain : Chain s'.heap b (erase t xs)
  same : (q : Ptr) → (q == b) ≡ false → has q xs ≡ false → s'.heap q ≡ s.heap q
  freed : s'.heap (find t xs) ≡ none

remove_middle :
    (t : ℕ) (s : Store) (b : Ptr) (sb : ServiceTime) (pb : Ptr) (xs : Cells) (st : ServiceTime)
    → b ≢ null
    → s.heap b ≡ some (element sb pb (front xs))
    → has b xs ≡ false
    → Chain s.heap b xs
    → lookup t xs ≡ some st
    → (aux : Ptr) × (s' : Store) × (drop_element (find t xs) s ≡ done aux s')
      × Removed t s b sb pb xs s'
remove_middle t s b sb pb [] st nb eb ob c l = absurd (cc)
remove_middle t s b sb pb ((p, sp) ∷ xs) st nb eb ob c l = elim (Bool-cases (sp.trans_id == t)) [
  | inl hit ↦
      let g = middle_heap s.heap b p sb pb xs in
      let d = middle_heap-Dropped s.heap b p sb sp pb xs ob c in
      rw hit (
        front xs,
        record s { heap = g },
        drop_middle s b p sb sp pb xs nb eb ob c,
        record {
          stl = refl;
          trans_id = refl;
          before = rw hit d.before;
          chain = rw hit d.chain;
          same = d.same;
          freed = rw hit d.freed;
        },
      )
  | inr miss ↦
      let (aux, s', run, r) = remove_middle t s p sp b xs st c.0 c.1 c.2 c.3 (ground arith) in
      rw miss (
        aux,
        s',
        run,
        record {
          stl = r.stl;
          trans_id = r.trans_id;
          before = rw miss (r.same b (ground arith) (ground arith) ∙ eb);
          chain = rw miss (c.0, r.before, not-has-erase t p xs c.2, r.chain);
          same = λ q i j. ground (arith, r.same q);
          freed = rw miss r.freed;
        },
      )
]

gone-find :
    (t : ℕ) (q : Ptr) (xs : Cells) → has q xs ≡ true → has q (erase t xs) ≡ false → q ≡ find t xs
gone-find t q [] i j = absurd (cc)
gone-find t q ((p, st) ∷ xs) i j = ground (arith, gone-find t q xs)

erase_missing : (t : ℕ) (xs : Cells) → lookup t xs ≡ none → erase t xs ≡ xs
erase_missing t [] l = refl
erase_missing t ((p, st) ∷ xs) l = ground (arith, erase_missing t xs)

pub find_missing : (t : ℕ) (xs : Cells) → lookup t xs ≡ none → find t xs ≡ null
find_missing t [] l = refl
find_missing t ((p, st) ∷ xs) l = ground (arith, find_missing t xs)

-- The element found is in the heap.
pub found_holds :
    (t : ℕ) (h : Heap) (b : Ptr) (xs : Cells) (st : ServiceTime)
    → Chain h b xs
    → lookup t xs ≡ some st
    → (e : Element) × (h (find t xs) ≡ some e) × (e.st ≡ st) × (find t xs ≢ null)
found_holds t h b [] st c l = absurd (cc)
found_holds t h b ((p, sp) ∷ xs) st c l = elim (Bool-cases (sp.trans_id == t)) [
  | inl hit ↦ rw hit (element sp b (front xs), c.1, ground arith, c.0)
  | inr miss ↦ rw miss (found_holds t h p xs st c.3 (ground arith))
]

-- The outcome of dropping the element found, wherever it stands.
record Erased (t : ℕ) (s : Store) (xs : Cells) (s' : Store) : Type 0 where
  list : IsList s' (erase t xs)
  trans_id : s'.trans_id ≡ s.trans_id
  same : (q : Ptr) → has q xs ≡ false → s'.heap q ≡ s.heap q
  freed : s'.heap (find t xs) ≡ none

drop_found :
    (t : ℕ) (s : Store) (xs : Cells) (st : ServiceTime)
    → IsList s xs
    → lookup t xs ≡ some st
    → (aux : Ptr) × (s' : Store) × (drop_element (find t xs) s ≡ done aux s') × Erased t s xs s'
drop_found t s [] st is l = absurd (cc)
drop_found t s ((p, sp) ∷ xs) st is l = elim (Bool-cases (sp.trans_id == t)) [
  | inl hit ↦
      let b = head_heap-Beheaded s.heap p sp xs is.chain in
      rw hit (
        null,
        record s { heap = head_heap s.heap p sp xs; stl = front xs },
        drop_head s p sp xs is.starts is.chain,
        record {
          list = rw hit (record { starts = refl; chain = b.chain });
          trans_id = refl;
          same = b.same;
          freed = rw hit b.freed;
        },
      )
  | inr miss ↦
      let (aux, s', run, r) =
        remove_middle t s p sp null xs st is.chain.0 is.chain.1 is.chain.2 is.chain.3
          (ground arith) in
      rw miss (
        aux,
        s',
        run,
        record {
          list = rw miss (record {
            starts = r.stl ∙ is.starts;
            chain = (is.chain.0, r.before, not-has-erase t p xs is.chain.2, r.chain);
          });
          trans_id = r.trans_id;
          same = λ q i. ground (arith, r.same q);
          freed = rw miss r.freed;
        },
      )
]

remove_found :
    (t fuel : ℕ) (s s' : Store) (p aux : Ptr) (e : Element)
    → find_loop t fuel s.stl s ≡ done p s
    → p ≢ null
    → s.heap p ≡ some e
    → drop_element p s ≡ done aux s'
    → transaction_remove fuel t s ≡ done (found e.st.accept_received_time) s'
unfolding transaction_remove get_stl load
remove_found t fuel s s' p aux e f ne h d = ground arith

remove_missing :
    (t fuel : ℕ) (s : Store)
    → find_loop t fuel s.stl s ≡ done null s
    → transaction_remove fuel t s ≡ done not_found s
unfolding transaction_remove get_stl
remove_missing t fuel s f = ground arith

abbrev pub outcome : Option ServiceTime → RemoveResult
outcome none = not_found
outcome (some st) = found st.accept_received_time

-- With a round for each element and one more, `transaction_remove` ends, without a fault. It takes
-- the first element with the id out of the list, frees it, and returns its `accept_received_time`;
-- if there is none it returns -2.0 and the list stays. Every address that is not in the list holds
-- what it held.
pub transaction_remove-erase :
    (t fuel : ℕ) (s : Store) (xs : Cells)
    → IsList s xs
    → length xs < fuel
    → (s' : Store) × (transaction_remove fuel t s ≡ done (outcome (lookup t xs)) s')
      × IsList s' (erase t xs)
      × (s'.trans_id ≡ s.trans_id)
      × ((q : Ptr) → has q xs ≡ false → s'.heap q ≡ s.heap q)
      × ((q : Ptr) → has q xs ≡ true → has q (erase t xs) ≡ false → s'.heap q ≡ none)
transaction_remove-erase t fuel s xs is f =
    let walk : find_loop t fuel s.stl s ≡ done (find t xs) s =
      ap (λ q. find_loop t fuel q s) is.starts ∙ find_loop-find t fuel s null xs is.chain f in
    elim (Option-cases (lookup t xs)) [
      | inl l ↦
          let all = erase_missing t xs l in
          (
            s,
            rw l (remove_missing t fuel s (walk ∙ ap (λ q. done q s) (find_missing t xs l))),
            rw all is,
            refl,
            λ q i. refl,
            λ q i j. ground (arith, all),
          )
      | inr (st, l) ↦
          let (e, h, same_st, ne) = found_holds t s.heap null xs st is.chain l in
          let (aux, s', run, r) = drop_found t s xs st is l in
          (
            s',
            rw (l, ← same_st) (remove_found t fuel s s' (find t xs) aux e walk ne h run),
            r.list,
            r.trans_id,
            r.same,
            λ q i j. ap s'.heap (gone-find t q xs i j) ∙ r.freed,
          )
    ]
