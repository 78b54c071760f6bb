-- ===== src/Llm/Sentences/Units.antt =====
-- What a unit of llm/sentence_gate.py is: text up to the first end of a sentence, with the marks that
-- close it and the space behind it; and that the gate's boundaries cut the text into units.
use lune_voice_companion.Prelude.{
  ℕ, zero, suc, ◌+◌, ◌<◌, ◌≡◌, sym, ap, ◌∙◌, ◌⊎◌, inl, inr, Bool, true, false, not, ◌&&◌, Option,
  none, some, List, [], ◌∷◌, ◌++◌, arith, ◌==◌, Bool-cases, Option-cases, take, drop, All,
  take-join,
}
use mathlib.Core.Path.{subst}
use lune_voice_companion.Llm.Sentences.{
  leading, unit_end, boundary_from, is_terminal, closers, is_one_of, full_stop, is_empty,
  digit_first, digit_before,
}
use lune_voice_companion.Llm.Sentences.Boundary.{boundary_from_bounds}

leading-All : (test : ℕ → Bool) (cs : List ℕ) → All (λ c. test c ≡ true) (take (leading test cs) cs)
leading-All test [] = tt
leading-All test (c ∷ cs) = elim (Bool-cases (test c)) [
  | inl e ↦ rw e (e, leading-All test cs)
  | inr e ↦ rw e tt
]

take-plus : (m n : ℕ) (cs : List ℕ) → take (m + n) cs ≡ take m cs ++ take n (drop m cs)
take-plus m n cs = sym (take-join m n (m + n) cs (omega arith))

module _ (is_space is_digit : ℕ → Bool) where
  -- A sentence ends at a terminal that is not the point of a number.
  abbrev pub ends_sentence : Option ℕ → ℕ → List ℕ → Bool
  ends_sentence before c after =
      is_terminal c
      && not (
          c == full_stop
          && (digit_before is_space is_digit before && digit_first is_space is_digit after))

  -- More terminals, then closing marks, then space.
  pub record IsTail (cs : List ℕ) : Type 0 where
    pub stops : List ℕ
    pub marks : List ℕ
    pub blanks : List ℕ
    pub whole : cs ≡ stops ++ (marks ++ blanks)
    pub are_stops : All (λ c. is_terminal c ≡ true) stops
    pub are_marks : All (λ c. is_one_of c closers ≡ true) marks
    pub are_blanks : All (λ c. is_space c ≡ true) blanks

  -- One sentence: no end inside, then an end with its tail. What stands before decides of a point.
  abbrev pub IsUnit : Option ℕ → List ℕ → Type 0
  IsUnit before [] = ⊥
  IsUnit before (c ∷ cs) =
      ((ends_sentence before c cs ≡ true) × IsTail cs)
      ⊎ ((ends_sentence before c cs ≡ false) × IsUnit (some c) cs)

  -- Text in which no sentence ends.
  abbrev pub IsOpen : Option ℕ → List ℕ → Type 0
  IsOpen before [] = Unit
  IsOpen before (c ∷ cs) = (ends_sentence before c cs ≡ false) × IsOpen (some c) cs

  -- A terminal stays an end where the text behind it is cut.
  ends_sentence-take :
      (before : Option ℕ) (c : ℕ) (cs : List ℕ) (n : ℕ)
      → ends_sentence before c cs ≡ true
      → ends_sentence before c (take n cs) ≡ true
  ends_sentence-take before c cs zero e = ground (arith, e)
  ends_sentence-take before c [] (suc n) e = e
  ends_sentence-take before c (d ∷ cs) (suc n) e = e

  ends_sentence-take-false :
      (before : Option ℕ) (c : ℕ) (cs : List ℕ) (n : ℕ)
      → 0 < n
      → ends_sentence before c cs ≡ false
      → ends_sentence before c (take n cs) ≡ false
  ends_sentence-take-false before c cs zero h e = absurd (omega arith)
  ends_sentence-take-false before c [] (suc n) h e = e
  ends_sentence-take-false before c (d ∷ cs) (suc n) h e = e

  unit_end-IsTail :
      (final : Bool) (rest : List ℕ) (n : ℕ)
      → unit_end is_space is_digit final rest ≡ some (suc n)
      → IsTail (take n rest)
  unit_end-IsTail final rest n e =
      let stops = leading is_terminal rest in
      let is_mark : ℕ → Bool = λ c. is_one_of c closers in
      let marks = leading is_mark (drop stops rest) in
      let after = drop marks (drop stops rest) in
      let blanks = leading is_space after in
      elim (Bool-cases (is_empty after && not final)) [
        | inl h ↦ absurd (grind (arith, e, h))
        | inr h ↦
            let sum : stops + (marks + blanks) ≡ n = grind (arith, e, h) in
            subst (λ k. IsTail (take k rest)) sum
              (record {
                stops = take stops rest;
                marks = take marks (drop stops rest);
                blanks = take blanks after;
                whole =
                    take-plus stops (marks + blanks) rest
                    ∙ ap (λ t. take stops rest ++ t) (take-plus marks blanks (drop stops rest));
                are_stops = leading-All is_terminal rest;
                are_marks = leading-All is_mark (drop stops rest);
                are_blanks = leading-All is_space after;
              })
      ]

  pub boundary_from-IsUnit :
      (final : Bool) (before : Option ℕ) (cs : List ℕ) (n : ℕ)
      → boundary_from is_space is_digit final before cs ≡ some n
      → IsUnit before (take n cs)
  boundary_from-IsUnit final before [] n e = absurd (cc e)
  boundary_from-IsUnit final before (c ∷ cs) zero e =
      absurd (ground (arith, (boundary_from_bounds is_space is_digit final before (c ∷ cs) 0 e).0))
  boundary_from-IsUnit final before (c ∷ cs) (suc n) e =
      elim (Bool-cases (ends_sentence before c cs)) [
        | inl h ↦
            inl
              (ends_sentence-take before c cs n h, unit_end-IsTail final cs n (grind (arith, e, h)))
        | inr h ↦ elim (Option-cases (boundary_from is_space is_digit final (some c) cs)) [
          | inl k ↦ absurd (grind (arith, e, h, k))
          | inr (m, k) ↦
              let same : m ≡ n = grind (arith, e, h, k) in
              let found : boundary_from is_space is_digit final (some c) cs ≡ some n =
                subst (λ k. boundary_from is_space is_digit final (some c) cs ≡ some k) same k in
              inr (
                ends_sentence-take-false before c cs n
                    (boundary_from_bounds is_space is_digit final (some c) cs n found).0 h,
                boundary_from-IsUnit final (some c) cs n found,
              )
        ]
      ]

  unit_end-final : (rest : List ℕ) → unit_end is_space is_digit true rest ≡ none → ⊥
  unit_end-final rest e =
      let stops = leading is_terminal rest in
      let marks = leading (λ c. is_one_of c closers) (drop stops rest) in
      elim (Bool-cases (is_empty (drop marks (drop stops rest)))) [
        | inl h ↦ cc (h, e)
        | inr h ↦ cc (h, e)
      ]

  -- Where no boundary is found at the text's end, no sentence ends in it.
  pub boundary_from-IsOpen :
      (before : Option ℕ) (cs : List ℕ)
      → boundary_from is_space is_digit true before cs ≡ none
      → IsOpen before cs
  boundary_from-IsOpen before [] e = tt
  boundary_from-IsOpen before (c ∷ cs) e = elim (Bool-cases (ends_sentence before c cs)) [
    | inl h ↦
        let none_there : unit_end is_space is_digit true cs ≡ none = grind (arith, e, h) in
        absurd (unit_end-final cs none_there)
    | inr h ↦ elim (Option-cases (boundary_from is_space is_digit true (some c) cs)) [
      | inl k ↦ (h, boundary_from-IsOpen (some c) cs k)
      | inr (m, k) ↦ absurd (grind (arith, e, h, k))
    ]
  ]
