-- ===== src/Transaction/Chain.antt =====
-- When a heap holds a doubly linked list: the addresses and contents of its elements, in order.
use streamers.Common.{◌≡◌, ◌≢◌, Bool, true, false, some, List, [], ◌∷◌, arith, ◌==◌, ◌||◌}
use streamers.Transaction.Heap.{Ptr, null, ServiceTime, Element, Heap, Store}

abbrev pub Cells : Type 0
Cells = List (Ptr × ServiceTime)

abbrev pub has : Ptr → Cells → Bool
has q [] = false
has q ((p, st) ∷ xs) = (q == p) || has q xs

abbrev pub front : Cells → Ptr
front [] = null
front ((p, st) ∷ xs) = p

abbrev pub element : ServiceTime → Ptr → Ptr → Element
element st b f = record { st = st; backward = b; forward = f }

-- Behind the element at `b`, or from the start if `b` is NULL, the list goes on with `xs`.
abbrev pub Chain : Heap → Ptr → Cells → Type 0
Chain h b [] = Unit {0}
Chain h b ((p, st) ∷ xs) =
    (p ≢ null) × (h p ≡ some (element st b (front xs))) × (has p xs ≡ false) × Chain h p xs

-- The list of the store.
pub record IsList (s : Store) (xs : Cells) : Type 0 where
  pub starts : s.stl ≡ front xs
  pub chain : Chain s.heap null xs

-- A list does not notice what happens at other addresses.
pub Chain-frame :
    (h g : Heap) (b : Ptr) (xs : Cells)
    → ((q : Ptr) → has q xs ≡ true → g q ≡ h q)
    → Chain h b xs
    → Chain g b xs
Chain-frame h g b [] same c = tt
Chain-frame h g b ((p, st) ∷ xs) same (ne, e, out, rest) =
    (ne, ground (arith, same p), out, Chain-frame h g p xs (λ q i. same q (ground arith)) rest)

-- `g` is `h` but at the elements of `xs`.
abbrev pub SameOutside : Cells → Heap → Heap → Type 0
SameOutside xs h g = (q : Ptr) → has q xs ≡ false → g q ≡ h q
