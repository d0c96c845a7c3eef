-- ===== src/Config/Lost.antt =====
-- What `config_load` of config.c makes of a line that no entry is for.
use streamers.Common.{
  ℕ, zero, suc, ◌<◌, ◌≡◌, refl, ap, ◌∙◌, true, false, none, some, List, [], ◌∷◌, ◌++◌,
  if◌then◌else◌, ◌==◌, length, All, Text, is_space, skip_spaces, Bool-cases, inl, inr,
}
use streamers.Config.{
  Floats, Entry, config_entries, behind, fgets, chop, Config, match_line, take_line, load_lines,
  config_load,
}
use streamers.Config.Entries.{IsLine, fgets-line}
use streamers.Config.Dump.{take_line_lem, load_lines-cons, match_next}

module _ (floats : Floats) where
  match_none :
      (es : List Entry) (p : Text) (d : Config floats)
      → All (λ e. behind e.string p ≡ none) es
      → match_line floats p es d ≡ ([], d)
  unfolding match_line
  match_none [] p d h = refl
  match_none (e ∷ es) p d (h, hs) = match_next floats e es p d h ∙ match_none es p d hs

  -- Without entries no line has an effect.
  no_entry :
      (q : Text) (d : Config floats)
      → ◌≡◌ {A = List Entry × Config floats}
          (elim q [
            | [] ↦ ([], d)
            | p ∷ ps ↦ if p == 35 then ([], d) else match_line floats (chop (p ∷ ps)) [] d
          ])
          ([], d)
  unfolding match_line
  no_entry [] d = refl
  no_entry (p ∷ ps) d = elim (Bool-cases (p == 35)) [ inl c ↦ rw (c) refl | inr n ↦ rw (n) refl ]

  take_lost : (line : Text) (d : Config floats) → take_line floats line ([], d) ≡ ([], d)
  unfolding take_line
  take_lost line d = no_entry (skip_spaces line) d

  load_lost : (r : ℕ) (text : Text) (d : Config floats) → load_lines floats r text ([], d) ≡ ([], d)
  unfolding load_lines
  load_lost zero text d = refl
  load_lost (suc r) [] d = refl
  load_lost (suc r) (b ∷ bs) d =
      let lr = fgets 511 (b ∷ bs) in
      load_lines-cons floats r b bs ([], d) lr refl
      ∙ ap (load_lines floats r lr.1) (take_lost lr.0 d)
      ∙ load_lost r lr.1 d

  -- If the first line of the file, which fits the buffer and begins with neither a blank nor `#`, begins with the name of
  -- no entry, then the configuration stays as it was, whatever lines follow.
  pub config_load-unknown :
      (f : ℕ) (x rest : Text) (d : Config floats)
      → is_space f ≡ false
      → (f == 35) ≡ false
      → IsLine (f ∷ x)
      → length (f ∷ x) < 511
      → All (λ e. behind e.string (f ∷ x) ≡ none) config_entries
      → config_load floats (some (f ∷ (x ++ (10 ∷ rest)))) d ≡ (true, d)
  unfolding config_load
  config_load-unknown f x rest d ink no_comment line short unknown =
      let r = length (x ++ (10 ∷ rest)) in
      ap (λ (s : List Entry × Config floats). (true, s.1))
        (load_lines-cons floats r f (x ++ (10 ∷ rest)) (config_entries, d) _
            (fgets-line 511 (f ∷ x) rest line short)
          ∙ ap (load_lines floats r rest) (
              take_line_lem floats f x config_entries d ink no_comment
              ∙ match_none config_entries (f ∷ x) d unknown)
          ∙ load_lost r rest d)
