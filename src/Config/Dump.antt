-- ===== src/Config/Dump.antt =====
-- That `config_load` of config.c reads what `config_dump` prints.
use mathlib.Core.Path.{subst, subst⁻¹}
use streamers.Common.{
  ℕ, zero, suc, ◌≤◌, ◌<◌, ◌≡◌, refl, ap, ◌∙◌, true, false, none, some, List, [], ◌∷◌, ◌++◌, arith,
  ◌==◌, length, any, All, Text, is_space, skip_spaces, length-append,
}
use streamers.Config.{
  Floats, Entry, config_entries, behind, fgets, Config, store, parse_value, show_value,
  config_parse_entry, match_line, take_line, load_lines, config_load, dump_line, config_dump,
}
use streamers.Config.Entries.{
  IsLine, fgets-line, chop-line, behind-append, IsLine-append, IsLine-of_any, IsLine-show_int,
  skip-show_int, atoi-show_int,
}

module _ (floats : Floats) where
  -- The line of an entry: the name begins with no blank and no `#`, there is no newline in it, it is short enough for
  -- the buffer, and the value does not begin with a blank.
  pub record IsGood (c : Config floats) (e : Entry) : Type 0 where
    pub first : ℕ
    pub others : Text
    pub named : e.string ≡ first ∷ others
    pub ink : is_space first ≡ false
    pub no_comment : (first == 35) ≡ false
    pub line : IsLine (dump_line floats e c)
    pub short : length (dump_line floats e c) < 511
    pub start : skip_spaces (show_value floats e.field c) ≡ show_value floats e.field c

  -- What the line of an entry writes.
  abbrev written : Entry → (c d : Config floats) → Config floats
  written e c d =
      store floats e.field (parse_value floats e.type_of (show_value floats e.field c)) d

  match_own :
      (e : Entry) (es : List Entry) (c d : Config floats)
      → IsGood c e
      → match_line floats (dump_line floats e c) (e ∷ es) d ≡ (e ∷ es, written e c d)
  unfolding match_line config_parse_entry
  match_own e es c d g =
      rw (behind-append e.string (32 ∷ show_value floats e.field c), match_line) (rw (g.start) refl)

  pub match_next :
      (e : Entry) (es : List Entry) (p : Text) (d : Config floats)
      → behind e.string p ≡ none
      → match_line floats p (e ∷ es) d ≡ match_line floats p es d
  unfolding match_line config_parse_entry
  match_next e es p d n = rw (n, match_line) refl

  pub take_line_lem :
      (f : ℕ) (x : Text) (es : List Entry) (d : Config floats)
      → is_space f ≡ false
      → (f == 35) ≡ false
      → take_line floats (f ∷ (x ++ (10 ∷ []))) (es, d) ≡ match_line floats (f ∷ x) es d
  unfolding take_line
  take_line_lem f x es d ink no_comment =
      rw (ink, no_comment, take_line) (ap (λ p. match_line floats p es d) (chop-line (f ∷ x)))

  pub load_lines-cons :
      (r b : ℕ) (bs : Text) (s : List Entry × Config floats) (lr : Text × Text)
      → fgets 511 (b ∷ bs) ≡ lr
      → load_lines floats (suc r) (b ∷ bs) s ≡ load_lines floats r lr.1 (take_line floats lr.0 s)
  unfolding load_lines
  load_lines-cons r b bs s lr e =
      ap (λ (q : Text × Text). load_lines floats r q.1 (take_line floats q.0 s)) e

  load_step :
      (r : ℕ) (e : Entry) (es : List Entry) (c d : Config floats) (rest : Text)
      → IsGood c e
      → load_lines floats (suc r) (dump_line floats e c ++ (10 ∷ rest)) (es, d)
        ≡ load_lines floats r rest (match_line floats (dump_line floats e c) es d)
  load_step r e es c d rest g =
      let v = show_value floats e.field c in
      let x : Text = g.others ++ (32 ∷ v) in
      let same : dump_line floats e c ≡ g.first ∷ x = ap (λ n. n ++ (32 ∷ v)) g.named in
      let read =
        subst (λ t. fgets 511 (t ++ (10 ∷ rest)) ≡ (t ++ (10 ∷ []), rest)) same
          (fgets-line 511 (dump_line floats e c) rest g.line g.short) in
      subst⁻¹
        (λ t.
          load_lines floats (suc r) (t ++ (10 ∷ rest)) (es, d)
          ≡ load_lines floats r rest (match_line floats t es d))
        same
        (load_lines-cons r g.first (x ++ (10 ∷ rest)) (es, d) (g.first ∷ (x ++ (10 ∷ [])), rest)
            read
          ∙ ap (load_lines floats r rest) (take_line_lem g.first x es d g.ink g.no_comment))

  pub load_nil : (r : ℕ) (s : List Entry × Config floats) → load_lines floats r [] s ≡ s
  unfolding load_lines
  load_nil zero s = refl
  load_nil (suc r) s = refl

  -- Each entry's name is not how the line of the next one begins.
  abbrev InOrder : Config floats → Entry → List Entry → Type 0
  InOrder c e [] = Unit
  InOrder c e (e' ∷ es) = (behind e.string (dump_line floats e' c) ≡ none) × InOrder c e' es

  abbrev fill : List Entry → Config floats → Config floats → Config floats
  fill [] c d = d
  fill (e ∷ es) c d = fill es c (written e c d)

  load_rest :
      (r : ℕ) (e : Entry) (es : List Entry) (c d : Config floats)
      → length es ≤ r
      → InOrder c e es
      → All (IsGood c) es
      → (load_lines floats r (config_dump floats es c) (e ∷ es, d)).1 ≡ fill es c d
  unfolding config_dump
  load_rest r e [] c d k o g = ap (λ (s : List Entry × Config floats). s.1) (load_nil r (e ∷ [], d))
  load_rest zero e (e' ∷ es) c d k o g = absurd (omega arith)
  load_rest (suc r) e (e' ∷ es) c d k (o, os) (g, gs) =
      ap (λ (s : List Entry × Config floats). s.1)
        (load_step r e' (e ∷ e' ∷ es) c d (config_dump floats es c) g
          ∙ ap (load_lines floats r (config_dump floats es c))
              (match_next e (e' ∷ es) (dump_line floats e' c) d o ∙ match_own e' es c d g))
      ∙ load_rest r e' es c (written e' c d) (omega arith) os gs

  load_dump :
      (r : ℕ) (e : Entry) (es : List Entry) (c d : Config floats)
      → length es < r
      → InOrder c e es
      → All (IsGood c) (e ∷ es)
      → (load_lines floats r (config_dump floats (e ∷ es) c) (e ∷ es, d)).1 ≡ fill (e ∷ es) c d
  unfolding config_dump
  load_dump zero e es c d k o g = absurd (omega arith)
  load_dump (suc r) e es c d k o (g, gs) =
      ap (λ (s : List Entry × Config floats). s.1)
        (load_step r e (e ∷ es) c d (config_dump floats es c) g
          ∙ ap (load_lines floats r (config_dump floats es c)) (match_own e es c d g))
      ∙ load_rest r e es c (written e c d) (omega arith) o gs

  length-config_dump :
      (es : List Entry) (c : Config floats) → length es ≤ length (config_dump floats es c)
  unfolding config_dump
  length-config_dump [] c = omega arith
  length-config_dump (e ∷ es) c = omega (
    arith,
    length-append (dump_line floats e c) (10 ∷ config_dump floats es c),
    length-config_dump es c,
  )

  -- What is needed of the texts of the server and of the factor: no newline, no blank in front, the factor is read as it
  -- is printed, and no line is longer than the buffer.
  pub record IsPrintable (c : Config floats) : Type 0 where
    pub server_line : IsLine c.alto_server
    pub server_start : skip_spaces c.alto_server ≡ c.alto_server
    pub factor_line : IsLine (floats.show c.alto_factor)
    pub factor_start : skip_spaces (floats.show c.alto_factor) ≡ floats.show c.alto_factor
    pub factor_back : floats.atof (floats.show c.alto_factor) ≡ c.alto_factor
    pub short : All (λ e. length (dump_line floats e c) < 511) config_entries

  good :
      (c : Config floats) (e : Entry) (f : ℕ) (x : Text)
      → e.string ≡ f ∷ x
      → is_space f ≡ false
      → (f == 35) ≡ false
      → any (λ b. b == 10) e.string ≡ false
      → IsLine (show_value floats e.field c)
      → skip_spaces (show_value floats e.field c) ≡ show_value floats e.field c
      → length (dump_line floats e c) < 511
      → IsGood c e
  good c e f x named ink no_comment name_line value_line start short = record {
    first = f;
    others = x;
    named = named;
    ink = ink;
    no_comment = no_comment;
    line =
        IsLine-append e.string (32 ∷ show_value floats e.field c) (IsLine-of_any e.string name_line)
          (refl, value_line);
    short = short;
    start = start;
  }

  entries-IsGood : (c : Config floats) → IsPrintable c → All (IsGood c) config_entries
  entries-IsGood c w =
      let (s1, (s2, (s3, (s4, (s5, (s6, end)))))) = w.short in
      let n = c.neighborhood_target_size in
      let p = c.alto_pri_criterion in
      let q = c.alto_sec_criterion in
      let u = c.update_interval in
      (
        good c _ _ _ refl refl refl refl (IsLine-show_int n) (skip-show_int n) s1,
        (
          good c _ _ _ refl refl refl refl w.server_line w.server_start s2,
          (
            good c _ _ _ refl refl refl refl w.factor_line w.factor_start s3,
            (
              good c _ _ _ refl refl refl refl (IsLine-show_int p) (skip-show_int p) s4,
              (
                good c _ _ _ refl refl refl refl (IsLine-show_int q) (skip-show_int q) s5,
                (good c _ _ _ refl refl refl refl (IsLine-show_int u) (skip-show_int u) s6, tt),
              ),
            ),
          ),
        ),
      )

  fill_lem : (c d : Config floats) → IsPrintable c → fill config_entries c d ≡ c
  fill_lem c d w =
      rw
        (
          atoi-show_int c.neighborhood_target_size,
          atoi-show_int c.alto_pri_criterion,
          atoi-show_int c.alto_sec_criterion,
          atoi-show_int c.update_interval,
          w.factor_back,
        )
        refl

  -- A configuration that is printed by config_dump and loaded again, over whatever there was, is what it was, if its
  -- texts are printable.
  pub config_load-config_dump :
      (c d : Config floats)
      → IsPrintable c
      → config_load floats (some (config_dump floats config_entries c)) d ≡ (true, c)
  unfolding config_load
  config_load-config_dump c d w =
      let text = config_dump floats config_entries c in
      ap (λ (r : Config floats). (true, r))
        (load_dump (length text) _ _ c d (omega (arith, length-config_dump config_entries c))
            (refl, (refl, (refl, (refl, (refl, tt))))) (entries-IsGood c w)
          ∙ fill_lem c d w)
