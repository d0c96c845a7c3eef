-- ===== src/Common/Texts.antt =====
-- Texts as lists of character codes, and decimal numbers in them.
use Prim.Native.Char.{code}
use Prim.Native.String.{String}
use Prim.Native.Nat.{ℕ, zero, suc, ◌+◌, ◌-◌, ◌*◌, ◌/◌, ◌%◌}
use mathlib.Core.Bool.{Bool, ◌&&◌, ◌||◌}
use mathlib.Core.List.{List, [], ◌∷◌}
use streamers.Common.Tests.{ltb, leb, ◌==◌, if◌then◌else◌}
use streamers.Common.Ints.{ℤ, pos, negsuc}

abbrev pub Text : Type 0
Text = List ℕ

abbrev pub codes : String → Text
codes String.[] = []
codes (String.◌∷◌ c s) = code c ∷ codes s

-- `isspace`: the blank, and the codes from tab to carriage return.
abbrev pub is_space : ℕ → Bool
is_space c = (c == 32) || (leb 9 c && leb c 13)

abbrev pub skip_spaces : Text → Text
skip_spaces [] = []
skip_spaces (c ∷ cs) = let rest = skip_spaces cs in if is_space c then rest else c ∷ cs

abbrev pub is_digit : ℕ → Bool
is_digit c = leb 48 c && leb c 57

-- The number that the leading digits continue.
abbrev pub read_digits : ℕ → Text → ℕ
read_digits n [] = n
read_digits n (c ∷ cs) =
    let rest = read_digits (n * 10 + (c - 48)) cs in if is_digit c then rest else n

abbrev pub minus : ℕ → ℤ
minus zero = pos 0
minus (suc n) = negsuc n

abbrev pub read_signed : Text → ℤ
read_signed [] = pos 0
read_signed (c ∷ cs) =
    if c == 45
    then minus (read_digits 0 cs)
    else if c == 43
    then pos (read_digits 0 cs)
    else pos (read_digits 0 (c ∷ cs))

-- `atoi`, of numbers that an int can hold
abbrev pub atoi : Text → ℤ
atoi cs = read_signed (skip_spaces cs)

-- The digits of a number before a text, by rounds, of which one more than the number is enough.
abbrev pub put_digits : ℕ → ℕ → Text → Text
put_digits zero n cs = cs
put_digits (suc rounds) n cs =
    let rest = put_digits rounds (n / 10) ((48 + n % 10) ∷ cs) in
    if ltb n 10 then (48 + n) ∷ cs else rest

-- What `%d` prints.
abbrev pub show_int : ℤ → Text
show_int (pos n) = put_digits (suc n) n []
show_int (negsuc n) = 45 ∷ put_digits (suc (suc n)) (suc n) []
