-- ===== src/Transaction/Create.antt =====
-- `transaction_create` and `transaction_reg_accept` of transaction.c: a new transaction comes first,
-- an accepted one is marked where it stands.
use streamers.Common.{
  ℕ, ◌^◌, ◌<◌, ◌≡◌, refl, sym, ap, ◌∙◌, ◌≢◌, inl, inr, Bool, true, false, Option, none, some, [],
  ◌∷◌, arith, if◌then◌else◌, ◌==◌, length, Bool-cases, Option-cases,
}
use streamers.Transaction.Heap.{
  Ptr, null, ServiceTime, Element, Heap, Store, write, done, load, modify, alloc, get_stl, set_stl,
}
use streamers.Transaction.Chain.{Cells, has, front, element, Chain, IsList, Chain-frame}
use streamers.Transaction.Laws.{checked, check_neighbor_status_list-checked}
use streamers.Transaction.Remove.{
  find, lookup, erase, find_loop-find, found_holds, find_missing, transaction_remove-erase,
}
use streamers.Transaction.{
  set_backward, check_neighbor_status_list, next_trans_id, set_trans_id, get_trans_id, find_loop,
  transaction_create, transaction_reg_accept, transaction_remove, found,
}

-- Transaction ids are 16 bits wide, and never 0.
pub next_trans_id_bounds : (t : ℕ) → (0 < next_trans_id t) × (next_trans_id t < 2 ^ 16)
unfolding next_trans_id
next_trans_id_bounds t = ground arith

abbrev pub new_service : ℕ → ℕ → ℕ → ServiceTime
new_service t sent id = record {
  trans_id = t;
  offer_sent_time = sent;
  accept_received_time = none;
  id = id;
}

abbrev pushed_heap : Heap → Ptr → ServiceTime → Cells → Heap
pushed_heap h fresh st [] = write h fresh (some (element st null null))
pushed_heap h fresh st ((p, sp) ∷ ys) =
    write (write h fresh (some (element st null p))) p (some (element sp fresh (front ys)))

create_run :
    (now sent fuel fresh id : ℕ) (s s1 : Store) (ys : Cells)
    → check_neighbor_status_list now fuel s ≡ done tt s1
    → IsList s1 ys
    → fresh ≢ null
    → has fresh ys ≡ false
    → let t = next_trans_id s1.trans_id in
      transaction_create now sent fuel fresh id s
      ≡ done t (record {
        heap = pushed_heap s1.heap fresh (new_service t sent id) ys;
        stl = fresh;
        trans_id = t;
      })
unfolding transaction_create set_trans_id get_trans_id get_stl set_stl alloc set_backward modify
    load write
create_run now sent fuel fresh id s s1 [] run is ne out = ground arith
create_run now sent fuel fresh id s s1 ((p, sp) ∷ ys) run is ne out = ground arith

pushed_heap-Chain :
    (h : Heap) (fresh : Ptr) (st : ServiceTime) (ys : Cells)
    → fresh ≢ null
    → has fresh ys ≡ false
    → Chain h null ys
    → Chain (pushed_heap h fresh st ys) null ((fresh, st) ∷ ys)
unfolding write
pushed_heap-Chain h fresh st [] ne out c = (ne, ground arith, refl, tt)
pushed_heap-Chain h fresh st ((p, sp) ∷ ys) ne out c = (
  ne,
  ground arith,
  out,
  (
    c.0,
    ground arith,
    c.2,
    Chain-frame h (pushed_heap h fresh st ((p, sp) ∷ ys)) p ys (λ q i. ground arith) c.3,
  ),
)

pushed_heap-same :
    (h : Heap) (fresh q : Ptr) (st : ServiceTime) (ys : Cells)
    → (q == fresh) ≡ false
    → has q ys ≡ false
    → pushed_heap h fresh st ys q ≡ h q
unfolding write
pushed_heap-same h fresh q st [] i j = ground arith
pushed_heap-same h fresh q st ((p, sp) ∷ ys) i j = ground arith

-- With a round for each element and one more, and an address from `malloc` that the list does not
-- use, `transaction_create` ends, without a fault. The list is what `check_neighbor_status_list`
-- leaves, with the new transaction before it, under the id that is returned, which is the next one
-- of the counter.
pub transaction_create-cons :
    (now sent fuel fresh id : ℕ) (s : Store) (xs : Cells)
    → IsList s xs
    → length xs < fuel
    → fresh ≢ null
    → has fresh (checked now xs) ≡ false
    → let t = next_trans_id s.trans_id in
      (s' : Store) × (transaction_create now sent fuel fresh id s ≡ done t s')
      × IsList s' ((fresh, new_service t sent id) ∷ checked now xs)
      × (s'.trans_id ≡ t)
transaction_create-cons now sent fuel fresh id s xs is f ne out =
    let (s1, run, is1, counter, same, freed) =
      check_neighbor_status_list-checked now fuel s xs is f in
    let made = create_run now sent fuel fresh id s s1 (checked now xs) run is1 ne out in
    let t = next_trans_id s.trans_id in
    (
      record {
        heap = pushed_heap s1.heap fresh (new_service t sent id) (checked now xs);
        stl = fresh;
        trans_id = t;
      },
      rw counter at made,
      record {
        starts = refl;
        chain =
            pushed_heap-Chain s1.heap fresh (new_service t sent id) (checked now xs) ne out
              is1.chain;
      },
      refl,
    )

-- The cells with the first one of the id marked as accepted.
abbrev pub mark : ℕ → ℕ → Cells → Cells
mark t now [] = []
mark t now ((p, st) ∷ xs) =
    if st.trans_id == t
    then (p, record st { accept_received_time = some now }) ∷ xs
    else (p, st) ∷ mark t now xs

abbrev is_some : Option ServiceTime → Bool
is_some none = false
is_some (some st) = true

abbrev accepted : ℕ → Element → Element
accepted now e = record e { st = record e.st { accept_received_time = some now } }

front-mark : (t now : ℕ) (xs : Cells) → front (mark t now xs) ≡ front xs
front-mark t now [] = refl
front-mark t now ((p, st) ∷ xs) = ground arith

has-mark : (t now : ℕ) (q : Ptr) (xs : Cells) → has q (mark t now xs) ≡ has q xs
has-mark t now q [] = refl
has-mark t now q ((p, st) ∷ xs) = ground (arith, has-mark t now q xs)

find-has :
    (t : ℕ) (xs : Cells) (st : ServiceTime) → lookup t xs ≡ some st → has (find t xs) xs ≡ true
find-has t [] st l = absurd (cc)
find-has t ((p, sp) ∷ xs) st l = ground (arith, find-has t xs st)

has_apart : (p q : Ptr) (xs : Cells) → has p xs ≡ false → has q xs ≡ true → (p == q) ≡ false
has_apart p q [] i j = absurd (cc)
has_apart p q ((r, st) ∷ xs) i j = ground (arith, has_apart p q xs)

write_apart : (h : Heap) (p q : Ptr) (c : Option Element) → (p == q) ≡ false → write h q c p ≡ h p
unfolding write
write_apart h p q c ne = rw ne

mark-Chain :
    (t now : ℕ) (h : Heap) (b q : Ptr) (xs : Cells) (e : Element) (st : ServiceTime)
    → Chain h b xs
    → lookup t xs ≡ some st
    → find t xs ≡ q
    → h q ≡ some e
    → Chain (write h q (some (accepted now e))) b (mark t now xs)
unfolding write
mark-Chain t now h b q [] e st c l fq he = tt
mark-Chain t now h b q ((p, sp) ∷ xs) e st c l fq he = elim (Bool-cases (sp.trans_id == t)) [
  | inl hit ↦ rw hit (
    c.0,
    ground arith,
    c.2,
    Chain-frame h (write h q (some (accepted now e))) p xs (λ r i. ground arith) c.3,
  )
  | inr miss ↦
      let l' : lookup t xs ≡ some st = rw miss at l in
      let fq' : find t xs ≡ q = rw miss at fq in
      let in_xs : has q xs ≡ true = rw (← fq') (find-has t xs st l') in
      rw miss (
        c.0,
        write_apart h p q (some (accepted now e)) (has_apart p q xs c.2 in_xs)
            ∙ c.1
            ∙ ap (λ r. some (element sp b r)) (sym (front-mark t now xs)),
        has-mark t now p xs ∙ c.2,
        mark-Chain t now h p q xs e st c.3 l' fq' he,
      )
]

reg_accept_found :
    (now fuel t : ℕ) (s : Store) (q : Ptr) (e : Element)
    → find_loop t fuel s.stl s ≡ done q s
    → q ≢ null
    → s.heap q ≡ some e
    → transaction_reg_accept now fuel t s
      ≡ done true (record s { heap = write s.heap q (some (accepted now e)) })
unfolding transaction_reg_accept get_stl modify load
reg_accept_found now fuel t s q e f ne h = ground arith

reg_accept_missing :
    (now fuel t : ℕ) (s : Store)
    → find_loop t fuel s.stl s ≡ done null s
    → transaction_reg_accept now fuel t s ≡ done false s
unfolding transaction_reg_accept get_stl
reg_accept_missing now fuel t s f = ground arith

mark_missing : (t now : ℕ) (xs : Cells) → lookup t xs ≡ none → mark t now xs ≡ xs
mark_missing t now [] l = refl
mark_missing t now ((p, st) ∷ xs) l = ground (arith, mark_missing t now xs)

-- With a round for each element and one more, `transaction_reg_accept` ends, without a fault. It says
-- whether the list has an element with the id, and sets the time of the first such; the others stay.
pub transaction_reg_accept-mark :
    (now fuel t : ℕ) (s : Store) (xs : Cells)
    → IsList s xs
    → length xs < fuel
    → (s' : Store) × (transaction_reg_accept now fuel t s ≡ done (is_some (lookup t xs)) s')
      × IsList s' (mark t now xs)
      × (s'.trans_id ≡ s.trans_id)
transaction_reg_accept-mark now fuel t s xs is f =
    let walk : find_loop t fuel s.stl s ≡ done (find t xs) s =
      ap (λ q. find_loop t fuel q s) is.starts ∙ find_loop-find t fuel s null xs is.chain f in
    elim (Option-cases (lookup t xs)) [
      | inl l ↦ (
        s,
        rw l (reg_accept_missing now fuel t s (walk ∙ ap (λ q. done q s) (find_missing t xs l))),
        rw (mark_missing t now xs l) is,
        refl,
      )
      | inr (st, l) ↦
          let (e, h, same_st, ne) = found_holds t s.heap null xs st is.chain l in
          (
            record s { heap = write s.heap (find t xs) (some (accepted now e)) },
            rw l (reg_accept_found now fuel t s (find t xs) e walk ne h),
            record {
              starts = is.starts ∙ sym (front-mark t now xs);
              chain = mark-Chain t now s.heap null (find t xs) xs e st is.chain l refl h;
            },
            refl,
          )
    ]

-- A transaction that is accepted and then removed gives the time of the acceptance, if the list has
-- it; and what is removed is gone from the list that was there before.
lookup-mark :
    (t now : ℕ) (xs : Cells) (st : ServiceTime)
    → lookup t xs ≡ some st
    → lookup t (mark t now xs) ≡ some (record st { accept_received_time = some now })
lookup-mark t now [] st l = absurd (cc)
lookup-mark t now ((p, sp) ∷ xs) st l = ground (arith, lookup-mark t now xs st)

erase-mark : (t now : ℕ) (xs : Cells) → erase t (mark t now xs) ≡ erase t xs
erase-mark t now [] = refl
erase-mark t now ((p, st) ∷ xs) = ground (arith, erase-mark t now xs)

length-mark : (t now : ℕ) (xs : Cells) → length (mark t now xs) ≡ length xs
length-mark t now [] = refl
length-mark t now ((p, st) ∷ xs) = ground (arith, length-mark t now xs)

-- Accepting a transaction that the list has, and removing it, ends without a fault, returns the time
-- of the acceptance, and leaves the list without the first element of the id.
pub transaction_remove-reg_accept :
    (now fuel t : ℕ) (s : Store) (xs : Cells) (st : ServiceTime)
    → IsList s xs
    → length xs < fuel
    → lookup t xs ≡ some st
    → (s1 s2 : Store) × (transaction_reg_accept now fuel t s ≡ done true s1)
      × (transaction_remove fuel t s1 ≡ done (found (some now)) s2)
      × IsList s2 (erase t xs)
transaction_remove-reg_accept now fuel t s xs st is f l =
    let (s1, e1, is1, c1) = transaction_reg_accept-mark now fuel t s xs is f in
    let (s2, e2, is2, c2, same, freed) =
      transaction_remove-erase t fuel s1 (mark t now xs) is1
        (omega (arith, length-mark t now xs)) in
    (s1, s2, rw l at e1, rw (lookup-mark t now xs st l) at e2, rw (erase-mark t now xs) at is2)
