-- ===== src/Llm/Streaming/Entries.antt =====
-- A reservation of llm/budget.py, as llm/streaming.py relies on it: it is active until it is settled.
use lune_voice_companion.Prelude.{
  ℕ, ◌+◌, ◌≡◌, refl, inl, inr, Bool, true, ◌&&◌, some, List, [], ◌∷◌, arith, ltb, leb, ◌==◌,
  Bool-cases, ℤ,
}
use lune_voice_companion.Result.{
  Result, Result-cases, natural, positive, >>=-ok, bad_token_bounds, budget_locked, err, ok,
}
use lune_voice_companion.Llm.Budget.{
  ModelName, terra, AttemptReservation, Ledger, reservation_cost, total, put, pop, reserve_model,
  reserve_conversation,
}

pop-put :
    (r : AttemptReservation) (xs : List AttemptReservation)
    → (rest : List AttemptReservation) × (pop r.attempt_id (put r xs) ≡ some (r, rest))
pop-put r [] = ([], ground arith)
pop-put r (x ∷ xs) = elim (Bool-cases (x.attempt_id == r.attempt_id)) [
  | inl same ↦ (xs, rw same (ground arith))
  | inr other ↦ let (rest, found) = pop-put r xs in (x ∷ rest, simp (other, found))
]

module _ {Time : Type 0} (is_aware : Time → Bool) (month : Time → ℕ) (at : Time) (i o : ℤ) where
  -- The time and the token bounds of a call that does not raise for them.
  pub record IsUsable : Type 0 where
    pub aware : is_aware at ≡ true
    pub input : (n : ℕ) × (natural i bad_token_bounds ≡ ok n)
    pub output : (n : ℕ) × (positive o bad_token_bounds ≡ ok n)

  -- A reservation that is granted is active and settles nothing; one that is refused, with a time
  -- and bounds that can be used, is refused for the lock.
  unfoldable pub Enters : Ledger → Result (AttemptReservation × Ledger) → Type 0
  Enters l (ok (r, l')) =
      ((rest : List AttemptReservation) × (pop r.attempt_id l'.active ≡ some (r, rest)))
      × (l'.settled ≡ l.settled)
      × IsUsable
  Enters l (err e) = IsUsable → e ≡ budget_locked

  bounds_usable :
      (l : Ledger) (model : ModelName) {cost : ℕ}
      → reservation_cost l model i o ≡ ok cost
      → ((n : ℕ) × (natural i bad_token_bounds ≡ ok n))
        × ((n : ℕ) × (positive o bad_token_bounds ≡ ok n))
  unfolding reservation_cost
  bounds_usable l model e =
      let (n, ins, rest) = >>=-ok (natural i bad_token_bounds) _ e in
      let (m, outs, _) = >>=-ok (positive o bad_token_bounds) _ rest in ((n, ins), (m, outs))

  usable_cost :
      (l : Ledger) (model : ModelName)
      → IsUsable
      → (cost : ℕ) × (reservation_cost l model i o ≡ ok cost)
  unfolding reservation_cost
  usable_cost l model u = elim (Result-cases (reservation_cost l model i o)) [
    | inl granted ↦ granted
    | inr (e, refused) ↦ cc (refused, u.input.1, u.output.1)
  ]

  pub reserve_model-Enters :
      (l : Ledger) (id : ℕ) (model : ModelName)
      → Enters l (reserve_model is_aware month l id at model i o)
  unfolding reserve_model Enters
  reserve_model-Enters l id model = elim (Result-cases (reservation_cost l model i o)) [
    | inr (e, refused) ↦ rw refused (λ u. cc ((usable_cost l model u).1, refused))
    | inl (cost, costs) ↦ elim (Bool-cases (is_aware at)) [
      | inr naive ↦ rw (costs, naive) (λ u. cc (u.aware, naive))
      | inl aware ↦ elim (Bool-cases (ltb 0 cost && leb l.lock (total l (month at) + cost))) [
        | inl locked ↦ rw (costs, aware, locked) (λ u. refl)
        | inr unlocked ↦
            let bounds = bounds_usable l model costs in
            rw (costs, aware, unlocked)
              (
                pop-put _ l.active,
                refl,
                record { aware = aware; input = bounds.0; output = bounds.1 },
              )
      ]
    ]
  ]

  pub reserve_conversation-Enters :
      (l : Ledger) (id : ℕ) → Enters l (reserve_conversation is_aware month l id at i o)
  unfolding reserve_conversation Enters
  reserve_conversation-Enters l id = elim (Bool-cases (is_aware at)) [
    | inr naive ↦ rw naive (λ u. cc (u.aware, naive))
    | inl aware ↦ elim (Result-cases (reservation_cost l terra i o)) [
      | inr (e, refused) ↦ rw (aware, refused) (λ u. cc ((usable_cost l terra u).1, refused))
      | inl (cost, costs) ↦ rw (aware, costs) (reserve_model-Enters l id _)
    ]
  ]
