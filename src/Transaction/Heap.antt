-- ===== src/Transaction/Heap.antt =====
-- The store of transaction.c: list elements at addresses, the static variables, and the commands on
-- them.
use streamers.Common.{ℕ, Option, none, some, if◌then◌else◌, ◌==◌}

abbrev pub Ptr : Type 0
Ptr = ℕ

abbrev pub null : Ptr
null = 0

-- `service_time`
pub record ServiceTime : Type 0 where
  pub trans_id : ℕ
  pub offer_sent_time : ℕ
  pub accept_received_time : Option ℕ
  pub id : ℕ

-- `struct service_times_element`
pub record Element : Type 0 where
  pub st : ServiceTime
  pub backward : Ptr
  pub forward : Ptr

abbrev pub Heap : Type 0
Heap = Ptr → Option Element

pub record Store : Type 0 where
  pub heap : Heap
  pub stl : Ptr
  pub trans_id : ℕ

unfoldable pub write : Heap → Ptr → Option Element → Heap
write h p c q = if q == p then c else h q

pub data Run (A : Type 0) : Type 0 where
  done : A → Store → Run A
  fault : Run A
  spent : Run A

abbrev pub Cmd : Type 0 → Type 0
Cmd A = Store → Run A

abbrev pub pure : {A : Type 0} → A → Cmd A
pure a s = done a s

module _ {A B : Type 0} where
  abbrev pub continue : Run A → (A → Cmd B) → Run B
  continue (done a s) k = k a s
  continue fault k = fault
  continue spent k = spent

  infixl 5 ◌>>=◌ ◌>>◌
  abbrev pub ◌>>=◌ : Cmd A → (A → Cmd B) → Cmd B
  m >>= k = λ s. continue (m s) k

  abbrev pub ◌>>◌ : Cmd A → Cmd B → Cmd B
  m >> n = m >>= λ _. n

unfoldable pub load : Ptr → Cmd Element
load p s = if p == null then fault else elim (s.heap p) [ none ↦ fault | some e ↦ done e s ]

-- A write to a field of the element at `p`.
unfoldable pub modify : Ptr → (Element → Element) → Cmd (Unit {0})
unfolding load
modify p f = do e ← load p; λ s. done tt (record s { heap = write s.heap p (some (f e)) })

-- `malloc` returns `p`.
unfoldable pub alloc : Ptr → Element → Cmd (Unit {0})
alloc p e s = done tt (record s { heap = write s.heap p (some e) })

unfoldable pub free : Ptr → Cmd (Unit {0})
unfolding load
free p = do load p; λ s. done tt (record s { heap = write s.heap p none })

unfoldable pub get_stl : Cmd Ptr
get_stl s = done s.stl s

unfoldable pub set_stl : Ptr → Cmd (Unit {0})
set_stl p s = done tt (record s { stl = p })

-- Total correctness: the run is done, and its result is as stated.
pub data Returns {A : Type 0} (P : A → Store → Type 0) : Run A → Type 0 where
  returns : {a : A} {s : Store} → P a s → Returns P (done a s)
