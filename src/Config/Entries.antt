-- ===== src/Config/Entries.antt =====
-- Lines and numbers, as config.c prints and reads them.
use mathlib.Core.Path.{subst⁻¹}
use streamers.Common.{
  ℕ, zero, suc, ◌+◌, ◌-◌, ◌*◌, ◌/◌, ◌%◌, ◌≤◌, ◌<◌, ◌≡◌, refl, ap, ◌∙◌, true, false, some, [], ◌∷◌,
  ◌++◌, arith, ◌==◌, ltb, length, any, All, Bool-cases, inl, inr, ℤ, pos, negsuc, Text, is_space,
  skip_spaces, is_digit, read_signed, read_digits, minus, atoi, put_digits, show_int,
}
use streamers.Config.{behind, fgets, chop}

-- No newline in the text.
abbrev pub IsLine : Text → Type 0
IsLine l = All (λ c. (c == 10) ≡ false) l

pub fgets-line :
    (n : ℕ) (l rest : Text)
    → IsLine l
    → length l < n
    → fgets n (l ++ (10 ∷ rest)) ≡ (l ++ (10 ∷ []), rest)
fgets-line zero l rest h k = absurd (omega arith)
fgets-line (suc n) [] rest h k = refl
fgets-line (suc n) (c ∷ l) rest (ne, h) k = rw (ne, fgets-line n l rest h (omega arith)) refl

pub chop-line : (l : Text) → chop (l ++ (10 ∷ [])) ≡ l
chop-line [] = refl
chop-line (c ∷ []) = refl
chop-line (c ∷ d ∷ l) = ap (λ t. c ∷ t) (chop-line (d ∷ l))

pub behind-append : (name v : Text) → behind name (name ++ v) ≡ some v
behind-append [] v = refl
behind-append (c ∷ name) v =
    let same : (c == c) ≡ true = ground arith in rw (same, behind-append name v) refl

-- The test that there is no newline.
pub IsLine-of_any : (l : Text) → any (λ c. c == 10) l ≡ false → IsLine l
IsLine-of_any [] h = tt
IsLine-of_any (c ∷ l) h = (ground arith, IsLine-of_any l (ground arith))

pub IsLine-append : (a b : Text) → IsLine a → IsLine b → IsLine (a ++ b)
IsLine-append [] b h k = k
IsLine-append (c ∷ a) b (h, hs) k = (h, IsLine-append a b hs k)

pub IsLine-put_digits : (r n : ℕ) (cs : Text) → IsLine cs → IsLine (put_digits r n cs)
IsLine-put_digits zero n cs h = h
IsLine-put_digits (suc r) n cs h = elim (Bool-cases (ltb n 10)) [
  | inl small ↦ rw (small) (ground arith, h)
  | inr large ↦ rw (large) (IsLine-put_digits r (n / 10) _ (ground arith, h))
]

-- A text that begins with a digit, or something behind the digits.
Begins : Text → Type 0
Begins t = (d : ℕ) × (cs : Text) × (t ≡ d ∷ cs) × (48 ≤ d)

put_digits-Begins : (r n d : ℕ) (cs : Text) → 48 ≤ d → Begins (put_digits r n (d ∷ cs))
unfolding Begins
put_digits-Begins zero n d cs h = (d, cs, refl, h)
put_digits-Begins (suc r) n d cs h = elim (Bool-cases (ltb n 10)) [
  | inl small ↦ rw (small) (48 + n, d ∷ cs, refl, omega arith)
  | inr large ↦ rw (large) (put_digits-Begins r (n / 10) (48 + n % 10) (d ∷ cs) (omega arith))
]

put_all_digits-Begins : (r n : ℕ) → Begins (put_digits (suc r) n [])
unfolding Begins
put_all_digits-Begins r n = elim (Bool-cases (ltb n 10)) [
  | inl small ↦ rw (small) (48 + n, [], refl, omega arith)
  | inr large ↦ rw (large) (put_digits-Begins r (n / 10) (48 + n % 10) [] (omega arith))
]

skip-Begins : (t : Text) → Begins t → skip_spaces t ≡ t
unfolding Begins
skip-Begins t (d, cs, e, h) = let ink : is_space d ≡ false = ground arith in rw (e) (rw (ink) refl)

read_signed-Begins : (t : Text) → Begins t → read_signed t ≡ pos (read_digits 0 t)
unfolding Begins
read_signed-Begins t (d, cs, e, h) =
    let no_minus : (d == 45) ≡ false = ground arith in
    let no_plus : (d == 43) ≡ false = ground arith in
    subst⁻¹ (λ t. read_signed t ≡ pos (read_digits 0 t)) e
      (rw (no_minus, no_plus, read_signed) refl)

read_digits-put_digits :
    (r n : ℕ) (cs : Text) → n < r → read_digits 0 (put_digits r n cs) ≡ read_digits n cs
read_digits-put_digits zero n cs h = absurd (omega arith)
read_digits-put_digits (suc r) n cs h = elim (Bool-cases (ltb n 10)) [
  | inl small ↦
      let digit : is_digit (48 + n) ≡ true = ground arith in
      let value : 0 * 10 + (48 + n - 48) ≡ n = omega arith in rw (small) (rw (digit, value) refl)
  | inr large ↦
      let digit : is_digit (48 + n % 10) ≡ true = ground arith in
      let value : n / 10 * 10 + (48 + n % 10 - 48) ≡ n = omega arith in
      let less : n / 10 < r = ground arith in
      rw (large)
        (read_digits-put_digits r (n / 10) ((48 + n % 10) ∷ cs) less ∙ rw (digit, value) refl)
]

pub skip-show_int : (z : ℤ) → skip_spaces (show_int z) ≡ show_int z
skip-show_int (pos n) = skip-Begins _ (put_all_digits-Begins n n)
skip-show_int (negsuc n) = refl

pub IsLine-show_int : (z : ℤ) → IsLine (show_int z)
IsLine-show_int (pos n) = IsLine-put_digits (suc n) n [] tt
IsLine-show_int (negsuc n) = (refl, IsLine-put_digits (suc (suc n)) (suc n) [] tt)

-- What is printed of a whole number is read as that number.
pub atoi-show_int : (z : ℤ) → atoi (show_int z) ≡ z
atoi-show_int (pos n) =
    ap read_signed (skip-show_int (pos n))
    ∙ read_signed-Begins _ (put_all_digits-Begins n n)
    ∙ ap pos (read_digits-put_digits (suc n) n [] (omega arith))
atoi-show_int (negsuc n) = ap minus (read_digits-put_digits (suc (suc n)) (suc n) [] (omega arith))
