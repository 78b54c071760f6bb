-- ===== src/Llm/Streaming/Generate.antt =====
-- `generate` of llm/streaming.py: the attempts of one answer. Its `while True` is on fuel, of which
-- two rounds are enough.
use lune_voice_companion.Prelude.{
  ℕ, zero, suc, ◌+◌, Bool, true, false, ◌&&◌, Option, none, some, List, [], ◌∷◌, ◌++◌, ◌==◌,
  if◌then◌else◌, ℤ,
}
use lune_voice_companion.Result.{Error, Result, budget_locked, err, ok}
use lune_voice_companion.Llm.Budget.{
  ModelName, terra, luna, local_qwen, AttemptReservation, SettledAttempt, Ledger, reserve_model,
  reserve_conversation,
}
use lune_voice_companion.Llm.Contracts.{ProviderErrorCode, ProviderFrame}
use lune_voice_companion.Llm.Streaming.{
  GenerationStatus, GenerationErrorCode, GenerationResult, Outcome, run_attempt, locked_answer,
  provider_code, locked_code,
}

abbrev pub is_terra : ModelName → Bool
is_terra terra = true
is_terra luna = false
is_terra local_qwen = false

abbrev pub is_budget_locked : Error → Bool
is_budget_locked budget_locked = true
is_budget_locked _ = false

-- The provider's part in an attempt: the identifier that the reservation gets, the frames of the
-- stream and those that `cancel_and_drain` would return, and the generation when it has ended.
pub record Script : Type 0 where
  pub fresh_id : ℕ
  pub stream : ModelName → List (ℕ × ProviderFrame)
  pub drained : ModelName → List ProviderFrame
  pub current_after : ℕ

abbrev pub generation_result :
    GenerationStatus → List ModelName → ℕ → Option GenerationErrorCode → GenerationResult
generation_result status models_attempted sentences_emitted error_code = record {
  status = status;
  models_attempted = models_attempted;
  sentences_emitted = sentences_emitted;
  error_code = error_code;
}

abbrev pub locked_result : List ModelName → ℕ → GenerationResult
locked_result models sentences = generation_result locked_answer models sentences (some locked_code)

abbrev pub generation_code : Option ProviderErrorCode → Option GenerationErrorCode
generation_code none = none
generation_code (some code) = some (provider_code code)

-- `except BudgetLocked`
abbrev pub catch_locked : List ModelName → ℕ → Error → Result GenerationResult
catch_locked models sentences e =
    if is_budget_locked e then ok (locked_result models sentences) else err e

module _ (is_space is_digit : ℕ → Bool) (local_error_text : List ℕ)
    (sink_raises : SettledAttempt → Bool) {Time : Type 0} (is_aware : Time → Bool)
    (month : Time → ℕ) (at : Time) (max_input_tokens max_output_tokens : ℤ) (generation : ℕ) where
  -- `while True` of `generate`, on fuel: the attempts to come are the scripts from `index` on.
  unfoldable pub attempts :
      ℕ
      → ℕ
      → (ℕ → Script)
      → List ProviderFrame
      → List ModelName
      → ℕ
      → AttemptReservation
      → Ledger
      → Option (Outcome GenerationResult)
  attempts zero index scripts emitted models sentences reservation l = none
  attempts (suc fuel) index scripts emitted models sentences reservation l =
      let script = scripts index in
      let model = reservation.model in
      let attempted = models ++ model ∷ [] in
      let r =
        run_attempt is_space is_digit local_error_text l sink_raises generation
          reservation.attempt_id (script.stream model) (script.drained model) in
      let out = emitted ++ r.emitted in
      elim r.result [
        | err e ↦ some (record { result = err e; emitted = out; ledger = r.ledger })
        | ok attempt ↦
            let total = sentences + attempt.sentences_emitted in
            let ended : Outcome GenerationResult = record {
              result = ok (
                  generation_result attempt.status attempted total
                    (generation_code attempt.error_code));
              emitted = out;
              ledger = r.ledger;
            } in
            if attempt.retry_luna && is_terra model && script.current_after == generation
            then elim (reserve_model is_aware month r.ledger (scripts (suc index)).fresh_id at luna
                max_input_tokens max_output_tokens) [
                  | err e ↦ some (record {
                    result = catch_locked attempted total e;
                    emitted = out;
                    ledger = r.ledger;
                  })
                  | ok reserved ↦
                      attempts fuel (suc index) scripts out attempted total reserved.0 reserved.1
                ]
            else some ended
      ]

  abbrev pub first_reservation :
      Option ModelName → Ledger → ℕ → Result (AttemptReservation × Ledger)
  first_reservation none l fresh_id =
      reserve_conversation is_aware month l fresh_id at max_input_tokens max_output_tokens
  first_reservation (some model) l fresh_id =
      reserve_model is_aware month l fresh_id at model max_input_tokens max_output_tokens

  unfoldable pub generate :
      ℕ → Option ModelName → (ℕ → Script) → Ledger → Option (Outcome GenerationResult)
  unfolding attempts
  generate fuel primary_model scripts l =
      elim (first_reservation primary_model l (scripts 0).fresh_id) [
        | err e ↦ some (record { result = catch_locked [] 0 e; emitted = []; ledger = l })
        | ok reserved ↦ attempts fuel 0 scripts [] [] 0 reserved.0 reserved.1
      ]
