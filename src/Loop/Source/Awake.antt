-- ===== src/Loop/Source/Awake.antt =====
-- When `source_loop` of loop.c wakes up, and what it has called then.
use streamers.Common.{◌≤◌}
use streamers.Timer.{IsNormal, tv2int}
use streamers.Loop.Source.{
  SourceWakeup, message, acknowledged, receive_error, input, input_error, Source,
}

-- The source sleeps until the next offer at most.
pub record IsAwake (s : Source) : Type 0 where
  pub normal : IsNormal s.tnext
  pub awake : tv2int s.tnext ≤ tv2int s.tnextp

-- The input does not fail, and the clock gives normalised times.
abbrev pub IsFine : SourceWakeup → Type 0
IsFine (message type) = Unit
IsFine (acknowledged p) = Unit
IsFine receive_error = Unit
IsFine (input has_chunk delta tnow) = IsNormal tnow
IsFine input_error = ⊥
