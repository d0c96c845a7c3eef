-- ===== src/Common/Arith.antt =====
-- Arithmetic that `omega` does not find by itself: remainders by a variable.
use Prim.Native.Nat.{ℕ, suc, ◌+◌, ◌%◌, ◌≤◌, ◌<◌}
use mathlib.Core.Path.{◌≡◌, sym}
use native.Mathlib.Nat.{mod-add-mod}
use native.Mathlib.Numerals.{add-one}
use native.Mathlib.Decide.{dec_le}
use native.Mathlib.Omega.{arith}

-- Two numbers less than `n` apart with the same remainder are the same.
pub mod_window : (n a b : ℕ) → a % n ≡ b % n → a ≤ b → b < a + n → a ≡ b
mod_window n a b e h k = grind arith

pub suc-mod : (n a : ℕ) → suc (a % n) % n ≡ suc a % n
suc-mod n a = rw (← add-one (a % n), ← add-one a) (mod-add-mod a n 1)

-- So are two numbers of one window of `n`.
pub mod_windowed :
    (n low a b : ℕ) → a % n ≡ b % n → low ≤ a → a < low + n → low ≤ b → b < low + n → a ≡ b
mod_windowed n low a b e la ha lb hb = elim (dec_le a b) [
  | yes h ↦ mod_window n a b e h (omega arith)
  | no h ↦ omega (arith, mod_window n b a (sym e))
]
