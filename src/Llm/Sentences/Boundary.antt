-- ===== src/Llm/Sentences/Boundary.antt =====
-- `_next_boundary` of llm/sentence_gate.py finds an end inside the text.
use lune_voice_companion.Prelude.{
  ℕ, suc, ◌≤◌, ◌<◌, ◌≡◌, inl, inr, Bool, not, ◌&&◌, Option, some, List, [], ◌∷◌, arith, ◌==◌,
  Bool-cases, Option-cases, length, drop, length-drop,
}
use lune_voice_companion.Llm.Sentences.{
  leading, unit_end, boundary_from, is_terminal, closers, is_one_of, full_stop, is_empty,
  digit_first, digit_before,
}

pub leading_le : (test : ℕ → Bool) (cs : List ℕ) → leading test cs ≤ length cs
leading_le test [] = omega arith
leading_le test (c ∷ cs) = ground (arith, leading_le test cs)

module _ (is_space is_digit : ℕ → Bool) where
  unit_end_bounds :
      (final : Bool) (rest : List ℕ) (n : ℕ)
      → unit_end is_space is_digit final rest ≡ some n
      → (0 < n) × (n ≤ suc (length rest))
  unit_end_bounds final rest n e =
      let stops = leading is_terminal rest in
      let marks = leading (λ c. is_one_of c closers) (drop stops rest) in
      let after = drop marks (drop stops rest) in
      elim (Bool-cases (is_empty after && not final)) [
        | inl h ↦ grind (arith, e, h)
        | inr h ↦ grind (
          arith,
          e,
          h,
          leading_le is_terminal rest,
          leading_le (λ c. is_one_of c closers) (drop stops rest),
          leading_le is_space after,
          length-drop stops rest,
          length-drop marks (drop stops rest),
        )
      ]

  -- An end that is found lies past the start of the text and not past its end.
  pub boundary_from_bounds :
      (final : Bool) (before : Option ℕ) (cs : List ℕ) (n : ℕ)
      → boundary_from is_space is_digit final before cs ≡ some n
      → (0 < n) × (n ≤ length cs)
  boundary_from_bounds final before [] n e = grind (arith, e)
  boundary_from_bounds final before (c ∷ cs) n e =
      elim (Bool-cases (
        is_terminal c
        && not (
            c == full_stop
            && (digit_before is_space is_digit before && digit_first is_space is_digit cs)))) [
              | inl h ↦ unit_end_bounds final cs n (grind (arith, e, h))
              | inr h ↦ elim (Option-cases (boundary_from is_space is_digit final (some c) cs)) [
                | inl k ↦ grind (arith, e, h, k)
                | inr (m, k) ↦ grind (arith, e, h, k, boundary_from_bounds final (some c) cs m k)
              ]
            ]
