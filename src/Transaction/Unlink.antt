-- ===== src/Transaction/Unlink.antt =====
-- Taking an element out of the list of transaction.c, and freeing it.
use streamers.Common.{◌≡◌, ◌≢◌, false, none, some, [], ◌∷◌, arith, ◌==◌}
use streamers.Transaction.Heap.{
  Ptr, null, ServiceTime, Heap, Store, write, done, load, modify, free, set_stl,
}
use streamers.Transaction.Chain.{Cells, has, front, element, Chain, Chain-frame}
use streamers.Transaction.{set_backward, set_forward, unlink, drop_element}

-- The heap after: the element at `b`, if any, points over `p` to the next one, which points back.
abbrev behind_heap : Heap → Ptr → Cells → Heap
behind_heap h b [] = h
behind_heap h b ((r, st) ∷ ys) = write h r (some (element st b (front ys)))

abbrev pub middle_heap : Heap → Ptr → Ptr → ServiceTime → Ptr → Cells → Heap
middle_heap h b p sb pb xs =
    write (behind_heap (write h b (some (element sb pb (front xs)))) b xs) p none

pub drop_middle :
    (s : Store) (b p : Ptr) (sb st : ServiceTime) (pb : Ptr) (xs : Cells)
    → b ≢ null
    → s.heap b ≡ some (element sb pb p)
    → has b ((p, st) ∷ xs) ≡ false
    → Chain s.heap b ((p, st) ∷ xs)
    → drop_element p s ≡ done (front xs) (record s { heap = middle_heap s.heap b p sb pb xs })
unfolding drop_element unlink set_backward set_forward load modify free write
drop_middle s b p sb st pb [] nb eb ob c = ground arith
drop_middle s b p sb st pb ((r, sr) ∷ ys) nb eb ob c = ground arith

-- What the heap `g` holds after: `b` is followed by `xs`, `p` is free, the rest is as it was in `h`.
pub record Dropped (h g : Heap) (b p : Ptr) (sb st : ServiceTime) (pb : Ptr) (xs : Cells)
    : Type 0 where
  pub before : g b ≡ some (element sb pb (front xs))
  pub chain : Chain g b xs
  pub freed : g p ≡ none
  pub same : (q : Ptr) → (q == b) ≡ false → has q ((p, st) ∷ xs) ≡ false → g q ≡ h q

pub middle_heap-Dropped :
    (h : Heap) (b p : Ptr) (sb st : ServiceTime) (pb : Ptr) (xs : Cells)
    → has b ((p, st) ∷ xs) ≡ false
    → Chain h b ((p, st) ∷ xs)
    → Dropped h (middle_heap h b p sb pb xs) b p sb st pb xs
unfolding write
middle_heap-Dropped h b p sb st pb [] ob c = record {
  before = ground arith;
  chain = tt;
  freed = ground arith;
  same = λ q i j. ground arith;
}
middle_heap-Dropped h b p sb st pb ((r, sr) ∷ ys) ob c = record {
  before = ground arith;
  chain = (
    ground arith,
    ground arith,
    ground arith,
    Chain-frame h (middle_heap h b p sb pb ((r, sr) ∷ ys)) r ys (λ q i. ground arith) c.3.3,
  );
  freed = ground arith;
  same = λ q i j. ground arith;
}

-- At the start of the list, where `forward` is set to NULL before it is read.
abbrev pub head_heap : Heap → Ptr → ServiceTime → Cells → Heap
head_heap h p st xs = write (write (behind_heap h null xs) p (some (element st null null))) p none

pub drop_head :
    (s : Store) (p : Ptr) (st : ServiceTime) (xs : Cells)
    → s.stl ≡ p
    → Chain s.heap null ((p, st) ∷ xs)
    → drop_element p s ≡ done null (record s { heap = head_heap s.heap p st xs; stl = front xs })
unfolding drop_element unlink set_backward set_forward load modify free set_stl write
drop_head s p st [] e c = ground arith
drop_head s p st ((r, sr) ∷ ys) e c = ground arith

pub record Beheaded (h g : Heap) (p : Ptr) (st : ServiceTime) (xs : Cells) : Type 0 where
  pub chain : Chain g null xs
  pub freed : g p ≡ none
  pub same : (q : Ptr) → has q ((p, st) ∷ xs) ≡ false → g q ≡ h q

pub head_heap-Beheaded :
    (h : Heap) (p : Ptr) (st : ServiceTime) (xs : Cells)
    → Chain h null ((p, st) ∷ xs)
    → Beheaded h (head_heap h p st xs) p st xs
unfolding write
head_heap-Beheaded h p st [] c = record {
  chain = tt;
  freed = ground arith;
  same = λ q i. ground arith;
}
head_heap-Beheaded h p st ((r, sr) ∷ ys) c = record {
  chain = (
    ground arith,
    ground arith,
    ground arith,
    Chain-frame h (head_heap h p st ((r, sr) ∷ ys)) r ys (λ q i. ground arith) c.3.3,
  );
  freed = ground arith;
  same = λ q i. ground arith;
}
