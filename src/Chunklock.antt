-- ===== src/Chunklock.antt =====
-- chunklock.c: the chunks that were asked for and have not come yet. A lock runs out after two
-- seconds. The clock is an argument, `now`; `malloc` and `realloc` succeed (the code exits where
-- they do not). `locks` holds the first `lcount` entries of the array, so `lcount` is its length,
-- and `lsize` is the number of entries allocated, 0 while `locks` is NULL.
pub mod Laws
mod Tests
use streamers.Common.{
  ℕ, zero, suc, ◌+◌, Bool, true, false, Option, List, [], ◌∷◌, ◌++◌, if◌then◌else◌, ◌==◌, length,
  get_elem?, none, some,
}
use streamers.Timer.{Timeval, timeradd, timer_lt}

pub record Lock : Type 0 where
  pub chunkid : ℕ
  pub peer : Option ℕ
  pub timestamp : Timeval

pub record Locks : Type 0 where
  pub lsize : ℕ
  pub locks : List Lock

-- `LSIZE_INCREMENT`
abbrev pub lsize_increment : ℕ
lsize_increment = 10

abbrev pub toutdiff : Timeval
toutdiff = record { tv_sec = 2; tv_usec = 0 }

-- Before the first call: the static variables are zero.
abbrev pub no_locks : Locks
no_locks = record { lsize = 0; locks = [] }

unfoldable pub locks_init : Locks → Locks
locks_init s =
    let s' : Locks = if s.lsize == 0 then record s { lsize = lsize_increment; locks = [] } else s in
    if length s'.locks == s'.lsize then record s' { lsize = s'.lsize + lsize_increment } else s'

-- `timercmp(&tnow, &tout, >)`
unfoldable pub chunk_lock_timed_out : Timeval → Lock → Bool
chunk_lock_timed_out now l = timer_lt (timeradd l.timestamp toutdiff) now

-- `chunk_lock_remove(locks + i)`: the entries behind it move up.
pub remove_at : ℕ → List Lock → List Lock
remove_at i [] = []
remove_at zero (l ∷ ls) = ls
remove_at (suc i) (l ∷ ls) = l ∷ remove_at i ls

timed_out_at : Timeval → List Lock → ℕ → Bool
timed_out_at now ls i = elim (get_elem? ls i) [ none ↦ false | some l ↦ chunk_lock_timed_out now l ]

-- `for (i = lcount - 1; i >= 0; i--)`, by the entries left to look at.
unfoldable pub cleanup_loop : Timeval → ℕ → List Lock → List Lock
unfolding timed_out_at
cleanup_loop now zero ls = ls
cleanup_loop now (suc i) ls =
    cleanup_loop now i (if timed_out_at now ls i then remove_at i ls else ls)

unfoldable pub chunk_locks_cleanup : Timeval → Locks → Locks
chunk_locks_cleanup now s = record s { locks = cleanup_loop now (length s.locks) s.locks }

-- `locks[lcount]` is written, and `lcount` counted up.
unfoldable pub chunk_lock : Timeval → ℕ → Option ℕ → Locks → Locks
chunk_lock now chunkid from s =
    let s' = locks_init s in
    let l : Lock = record { chunkid = chunkid; peer = from; timestamp = now } in
    record s' { locks = s'.locks ++ l ∷ [] }

-- The loop of `chunk_unlock` and of `chunk_islocked`: the first entry of the chunk from `i` on.
unfoldable pub find_chunk : ℕ → ℕ → List Lock → Option ℕ
find_chunk chunkid i [] = none
find_chunk chunkid i (l ∷ ls) =
    if l.chunkid == chunkid then some i else find_chunk chunkid (suc i) ls

pub chunk_unlock : ℕ → Locks → Locks
chunk_unlock chunkid s = elim (find_chunk chunkid 0 s.locks) [
  | none ↦ s
  | some i ↦ record s { locks = remove_at i s.locks }
]

unfoldable pub chunk_islocked : Timeval → ℕ → Locks → Bool × Locks
chunk_islocked now chunkid s =
    let s' = chunk_locks_cleanup now s in
    (elim (find_chunk chunkid 0 s'.locks) [ none ↦ false | some i ↦ true ], s')
