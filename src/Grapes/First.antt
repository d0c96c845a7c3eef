-- ===== src/Grapes/First.antt =====
-- A scheduler that selects the first peer that passes the filter, with the first chunk that it passes for:
-- what `Schedulers` asks for can be had.
use mathlib.Core.Path.{subst}
use streamers.Common.{
  ℕ, zero, suc, ◌≤◌, ◌≡◌, refl, sym, ap, Bool, true, Option, none, some, List, [], ◌∷◌, arith,
  if◌then◌else◌, ◌==◌, ==_iff, length, get_elem?, any, All, All-mono, map, Bool-cases, Option-cases,
  inl, inr,
}
use streamers.Grapes.{Schedulers}

abbrev first_chunk : (ℕ → Bool) → List ℕ → Option ℕ
first_chunk f [] = none
first_chunk f (c ∷ cs) = if f c then some c else first_chunk f cs

module _ {P : Type 0} (f : P → ℕ → Bool) where
  abbrev pub first : List P → List ℕ → Option (ℕ × ℕ)
  first [] cs = none
  first (p ∷ ps) cs = elim (first_chunk (f p) cs) [
    | some c ↦ some (0, c)
    | none ↦ elim (first ps cs) [ none ↦ none | some (i, c) ↦ some (suc i, c) ]
  ]

abbrev pub at_most : {A : Type 0} → ℕ → Option A → List A
at_most zero o = []
at_most (suc n) none = []
at_most (suc n) (some a) = a ∷ []

pub length-at_most : {A : Type 0} (n : ℕ) (o : Option A) → length (at_most n o) ≤ n
length-at_most zero o = omega arith
length-at_most (suc n) none = omega arith
length-at_most (suc n) (some a) = omega arith

pub any-first_chunk :
    (f : ℕ → Bool) (cs : List ℕ) (c : ℕ)
    → first_chunk f cs ≡ some c
    → (f c ≡ true) × (any (λ d. d == c) cs ≡ true) × (any f cs ≡ true)
any-first_chunk f [] c e = absurd cc
any-first_chunk f (d ∷ cs) c e = elim (Bool-cases (f d)) [
  | inl h ↦
      let same : some d ≡ some c = rw (h) at e in
      let dc : d ≡ c = cc in rw (← dc, h) (refl, rw ((==_iff d d).1 refl) refl, refl)
  | inr h ↦
      let later : first_chunk f cs ≡ some c = rw (h) at e in
      let (a, b, g) = any-first_chunk f cs c later in (a, ground (arith, b), rw (h) g)
]

module _ {P : Type 0} (f : P → ℕ → Bool) where
  abbrev pub Selected : List P → List ℕ → ℕ × ℕ → Type 0
  Selected ps cs r =
      (p : P) × (get_elem? ps r.0 ≡ some p)
      × (f p r.1 ≡ true)
      × (any (λ c. c == r.1) cs ≡ true)
      × (any (f p) cs ≡ true)

  pub first-Selected :
      (ps : List P) (cs : List ℕ) (r : ℕ × ℕ) → first f ps cs ≡ some r → Selected ps cs r
  first-Selected [] cs r e = absurd cc
  first-Selected (p ∷ ps) cs r e = elim (Option-cases (first_chunk (f p) cs)) [
    | inr (c, h) ↦
        let same : some (0, c) ≡ some r = rw (h, first) at e in
        let here : (0, c) ≡ r = cc in
        let (a, b, g) = any-first_chunk (f p) cs c h in
        subst (Selected (p ∷ ps) cs) here (p, refl, a, b, g)
    | inl h ↦ elim (Option-cases (first f ps cs)) [
      | inl g ↦ let never : none ≡ some r = rw (h, g, first) at e in absurd cc
      | inr ((i, c), g) ↦
          let same : some (suc i, c) ≡ some r = rw (h, g, first) at e in
          let there : (suc i, c) ≡ r = cc in
          let (q, a, b, k, l) = first-Selected ps cs (i, c) g in
          subst (Selected (p ∷ ps) cs) there (q, a, b, k, l)
    ]
  ]

  pub All-at_most :
      (n : ℕ) (ps : List P) (cs : List ℕ) (o : Option (ℕ × ℕ))
      → first f ps cs ≡ o
      → All (Selected ps cs) (at_most n o)
  All-at_most zero ps cs o e = tt
  All-at_most (suc n) ps cs none e = tt
  All-at_most (suc n) ps cs (some r) e = (first-Selected ps cs r e, tt)

abbrev pub first_peer : ℕ × ℕ → ℕ
first_peer r = r.0

pub length-map_first : (xs : List (ℕ × ℕ)) → length (map first_peer xs) ≡ length xs
length-map_first [] = refl
length-map_first (x ∷ xs) = ap suc (length-map_first xs)

pub All-map :
    (P : ℕ → Type 0) (xs : List (ℕ × ℕ))
    → All (λ r. P (first_peer r)) xs
    → All P (map first_peer xs)
All-map P [] h = tt
All-map P (x ∷ xs) (h, hs) = (h, All-map P xs hs)

abbrev pub first_scheduler : {P : Type 0} → Schedulers P
first_scheduler = record {
  select_pairs = λ ps cs n f. at_most n (first f ps cs);
  select_peers = λ ps cs n f. map first_peer (at_most n (first f ps cs));
  pairs_sound = λ ps cs n f.
      All-mono (at_most n (first f ps cs)) (λ r s. let (p, a, b, c, d) = s in (p, a, b, c))
        (All-at_most f n ps cs (first f ps cs) refl);
  pairs_bounded = λ ps cs n f. length-at_most n (first f ps cs);
  peers_sound = λ ps cs n f.
      All-map (λ i. (p : _) × (get_elem? ps i ≡ some p) × (any (f p) cs ≡ true))
        (at_most n (first f ps cs))
        (All-mono (at_most n (first f ps cs)) (λ r s. let (p, a, b, c, d) = s in (p, a, d))
          (All-at_most f n ps cs (first f ps cs) refl));
  peers_bounded = λ ps cs n f.
      subst (λ m. m ≤ n) (sym (length-map_first (at_most n (first f ps cs))))
        (length-at_most n (first f ps cs));
}
