-- ===== src/Chunklock/Tests.antt =====
-- Runs of the lock table of chunklock.c.
use streamers.Common.{ℕ, ◌≡◌, refl, false, none, some, [], ◌∷◌, arith, ◌&&◌, keep, any}
use streamers.Timer.{Timeval, timeradd, timer_lt}
use streamers.Chunklock.{
  Locks, no_locks, locks_init, chunk_lock_timed_out, remove_at, cleanup_loop, chunk_locks_cleanup,
  chunk_lock, find_chunk, chunk_unlock, chunk_islocked,
}
use streamers.Chunklock.Laws.{
  fresh, holds, chunk_locks_cleanup-keep, chunk_islocked-any, chunk_unlock-chunk_lock,
}

abbrev at : ℕ → Timeval
at s = record { tv_sec = s; tv_usec = 500000 }

-- Chunks 7 and 9, locked at seconds 10 and 11.
abbrev two : Locks
two = record {
  lsize = 10;
  locks =
      record { chunkid = 7; peer = some 1; timestamp = at 10 }
      ∷ record { chunkid = 9; peer = none; timestamp = at 11 }
      ∷ [];
}

locked_run : chunk_lock (at 11) 9 none (chunk_lock (at 10) 7 (some 1) no_locks) ≡ two
unfolding chunk_lock locks_init
locked_run = refl

-- At second 13 only the lock of chunk 9 is left.
timed_out_run : (chunk_islocked (at 13) 7 two).0 ≡ false
unfolding chunk_islocked chunk_locks_cleanup cleanup_loop chunk_lock_timed_out timer_lt timeradd
    remove_at find_chunk
timed_out_run = refl

chunk_locks_cleanup-keep_example :
    chunk_locks_cleanup (at 13) two ≡ record two { locks = keep (fresh (at 13)) two.locks }
chunk_locks_cleanup-keep_example = chunk_locks_cleanup-keep (at 13) two

chunk_islocked-any_example :
    (chunk_islocked (at 13) 9 two).0 ≡ any (λ l. fresh (at 13) l && holds 9 l) two.locks
chunk_islocked-any_example = chunk_islocked-any (at 13) 9 two

chunk_unlock-chunk_lock_example : (chunk_unlock 4 (chunk_lock (at 12) 4 none two)).locks ≡ two.locks
chunk_unlock-chunk_lock_example = chunk_unlock-chunk_lock (at 12) 4 none two (omega arith) refl
