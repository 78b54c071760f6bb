-- ===== src/Llm/Streaming/Rounds.antt =====
-- `generate` of llm/streaming.py: its loop ends within two rounds, and what it then has done.
use lune_voice_companion.Prelude.{
  ℕ, suc, ◌+◌, ◌≡◌, refl, sym, ap, ◌∙◌, inl, inr, Bool, true, false, ◌&&◌, Option, none, some, List,
  [], ◌∷◌, ◌++◌, arith, ◌==◌, Bool-cases, length, ℤ,
}
use lune_voice_companion.Result.{Result, err, ok}
use lune_voice_companion.Llm.Budget.{
  ModelName, terra, luna, AttemptReservation, SettledAttempt, Ledger, pop,
}
use lune_voice_companion.Llm.Budget.Months.{reserve_model-IsGranted}
use lune_voice_companion.Llm.Contracts.{ProviderFrame}
use lune_voice_companion.Llm.Streaming.{AttemptResult, GenerationResult, Outcome, run_attempt}
use lune_voice_companion.Llm.Streaming.Generate.{
  Script, is_terra, attempts, generate, locked_result, catch_locked,
}
use lune_voice_companion.Llm.Streaming.Attempts.{sentences}
use lune_voice_companion.Llm.Streaming.Answers.{Runs, run_attempt-Runs}
use lune_voice_companion.Llm.Streaming.Entries.{
  IsUsable, Enters, reserve_model-Enters, reserve_conversation-Enters,
}
use lune_voice_companion.Llm.Streaming.Outcomes.{
  IsChoice, nobody, one, terra_then_luna, Answers, is_terra-terra, Settles-length, ended,
  ended-Answers,
}

module _ (is_space is_digit : ℕ → Bool) (local_error_text : List ℕ)
    (sink_raises : SettledAttempt → Bool) {Time : Type 0} (is_aware : Time → Bool)
    (month : Time → ℕ) (at : Time) (max_input_tokens max_output_tokens : ℤ) (generation : ℕ)
    (silent : (x : SettledAttempt) → sink_raises x ≡ false)
    (usable : IsUsable is_aware month at max_input_tokens max_output_tokens) where
  -- The attempt of a round.
  abbrev run : Script → AttemptReservation → Ledger → Outcome AttemptResult
  run script reservation l =
      run_attempt is_space is_digit local_error_text l sink_raises generation reservation.attempt_id
        (script.stream reservation.model) (script.drained reservation.model)

  -- The rounds from one on end with an outcome as it should be.
  abbrev Ends :
      ℕ
      → ℕ
      → (ℕ → Script)
      → List ProviderFrame
      → List ModelName
      → ℕ
      → AttemptReservation
      → Ledger
      → Ledger
      → List ModelName
      → Type 0
  Ends fuel index scripts emitted models total reservation l start before =
      (o : Outcome GenerationResult) × (attempts is_space is_digit local_error_text sink_raises
          is_aware month at max_input_tokens max_output_tokens generation fuel index scripts emitted
          models total reservation l
        ≡ some o)
      × Answers start before o

  -- A round ends the loop where no retry follows.
  ends :
      (fuel index : ℕ) (scripts : ℕ → Script) (emitted : List ProviderFrame)
      (models : List ModelName) (total : ℕ) (reservation : AttemptReservation) (l : Ledger)
      (rest : List AttemptReservation)
      (runs : Runs l reservation rest generation reservation.attempt_id
        (run (scripts index) reservation l))
      → sentences emitted ≡ 0
      → total ≡ 0
      → IsChoice (models ++ reservation.model ∷ [])
      → (runs.value.retry_luna
          && is_terra reservation.model
          && (scripts index).current_after == generation)
        ≡ false
      → Ends (suc fuel) index scripts emitted models total reservation l l models
  unfolding attempts
  ends fuel index scripts emitted models total reservation l rest runs quiet nothing choice stays =
      (
        ended emitted (models ++ reservation.model ∷ []) total (run (scripts index) reservation l)
            runs.value,
        simp (attempts, runs.returns, stays),
        ended-Answers l reservation rest generation _ emitted models total runs quiet nothing
            choice,
      )

  not_again : (a b c : Bool) → b ≡ false → (a && b && c) ≡ false
  not_again true b c e = simp e
  not_again false b c e = refl

  -- Luna's round is the last.
  luna_round :
      (fuel index : ℕ) (scripts : ℕ → Script) (emitted : List ProviderFrame) (first : ModelName)
      (total : ℕ) (reservation : AttemptReservation) (l : Ledger) (rest : List AttemptReservation)
      → pop reservation.attempt_id l.active ≡ some (reservation, rest)
      → first ≡ terra
      → reservation.model ≡ luna
      → sentences emitted ≡ 0
      → total ≡ 0
      → Ends (suc fuel) index scripts emitted (first ∷ []) total reservation l l (first ∷ [])
  luna_round fuel index scripts emitted first total reservation l rest active was_terra is_luna
        quiet nothing =
      let runs =
        run_attempt-Runs l sink_raises reservation.attempt_id reservation rest silent active
          is_space is_digit local_error_text generation ((scripts index).stream reservation.model)
          ((scripts index).drained reservation.model) in
      ends fuel index scripts emitted (first ∷ []) total reservation l rest runs quiet nothing
        (rw (was_terra, is_luna) terra_then_luna)
        (not_again runs.value.retry_luna _ _ (ap is_terra is_luna))

  -- What follows a retry: the reservation for Luna, and its round.
  retried :
      (fuel index : ℕ) (scripts : ℕ → Script) (emitted : List ProviderFrame) (first : ModelName)
      (total : ℕ) (l start : Ledger) (x : Result (AttemptReservation × Ledger))
      → Enters is_aware month at max_input_tokens max_output_tokens l x
      → ((r : AttemptReservation) (l' : Ledger) → x ≡ ok (r, l') → r.model ≡ luna)
      → first ≡ terra
      → sentences emitted ≡ 0
      → total ≡ 0
      → length l.settled ≡ suc (length start.settled)
      → (o : Outcome GenerationResult) × (elim x as (λ _. Option (Outcome GenerationResult)) [
        | err e ↦
            some
              (record { result = catch_locked (first ∷ []) total e; emitted = emitted; ledger = l })
        | ok reserved ↦
            attempts is_space is_digit local_error_text sink_raises is_aware month at
              max_input_tokens max_output_tokens generation
              (suc fuel)
              index
              scripts
              emitted
              (first ∷ [])
              total
              reserved.0
              reserved.1
      ]
          ≡ some o)
        × Answers start [] o
  unfolding Enters
  retried fuel index scripts emitted first total l start (err e) enters m was_terra quiet nothing
        longer =
      (
        record { result = ok (locked_result (first ∷ []) total); emitted = emitted; ledger = l },
        simp (enters usable),
        record {
          value = locked_result (first ∷ []) total;
          returns = refl;
          counted = quiet ∙ sym nothing;
          few = omega (arith, nothing);
          choice = one first;
          settled = omega (arith, longer);
        },
      )
  retried fuel index scripts emitted first total l start (ok (r, l')) enters m was_terra quiet
        nothing longer =
      let (rest, active) = enters.0 in
      let (o, ran, a) =
        luna_round fuel index scripts emitted first total r l' rest active was_terra (m r l' refl)
          quiet nothing in
      (
        o,
        ran,
        record {
          value = a.value;
          returns = a.returns;
          counted = a.counted;
          few = a.few;
          choice = a.choice;
          settled = omega (arith, a.settled, longer, ap length enters.1);
        },
      )

  first_round :
      (fuel : ℕ) (scripts : ℕ → Script) (reservation : AttemptReservation) (l : Ledger)
      (rest : List AttemptReservation)
      → pop reservation.attempt_id l.active ≡ some (reservation, rest)
      → Ends (suc (suc fuel)) 0 scripts [] [] 0 reservation l l []
  unfolding attempts
  first_round fuel scripts reservation l rest active =
      let script = scripts 0 in
      let runs =
        run_attempt-Runs l sink_raises reservation.attempt_id reservation rest silent active
          is_space is_digit local_error_text generation (script.stream reservation.model)
          (script.drained reservation.model) in
      elim (Bool-cases (
        runs.value.retry_luna
        && is_terra reservation.model
        && script.current_after == generation)) [
          | inr stays ↦
              ends (suc fuel) 0 scripts [] [] 0 reservation l rest runs refl refl
                (one reservation.model) stays
          | inl again ↦
              let left = (run script reservation l).ledger in
              let none_heard = runs.retries (grind (arith, again)) in
              rw (attempts, runs.returns, again)
                (retried fuel 1 scripts _ reservation.model _ left l _
                  (reserve_model-Enters is_aware month at max_input_tokens max_output_tokens left
                    (scripts 1).fresh_id luna)
                  (λ r l' e.
                    (reserve_model-IsGranted is_aware month left (scripts 1).fresh_id at luna
                      max_input_tokens max_output_tokens r l' e).its_model)
                  (is_terra-terra reservation.model (grind (arith, again)))
                  (omega (arith, runs.counted, none_heard.0)) (omega (arith, none_heard.0))
                  (Settles-length runs.settles))
        ]

  opened :
      (fuel : ℕ) (scripts : ℕ → Script) (l : Ledger) (x : Result (AttemptReservation × Ledger))
      → Enters is_aware month at max_input_tokens max_output_tokens l x
      → (o : Outcome GenerationResult) × (elim x as (λ _. Option (Outcome GenerationResult)) [
        | err e ↦ some (record { result = catch_locked [] 0 e; emitted = []; ledger = l })
        | ok reserved ↦
            attempts is_space is_digit local_error_text sink_raises is_aware month at
              max_input_tokens max_output_tokens generation
              (suc (suc fuel))
              0
              scripts
              []
              []
              0
              reserved.0
              reserved.1
      ]
          ≡ some o)
        × Answers l [] o
  unfolding Enters
  opened fuel scripts l (err e) enters = (
    record { result = ok (locked_result [] 0); emitted = []; ledger = l },
    simp (enters usable),
    record {
      value = locked_result [] 0;
      returns = refl;
      counted = refl;
      few = omega arith;
      choice = nobody;
      settled = refl;
    },
  )
  opened fuel scripts l (ok (r, l')) enters =
      let (rest, active) = enters.0 in
      let (o, ran, a) = first_round fuel scripts r l' rest active in
      (
        o,
        ran,
        record {
          value = a.value;
          returns = a.returns;
          counted = a.counted;
          few = a.few;
          choice = a.choice;
          settled = a.settled ∙ ap (λ n. n + length a.value.models_attempted) (ap length enters.1);
        },
      )

  -- `generate` for a time that is aware and token bounds that are in range, when the settlement's
  -- callback does not raise: two rounds are enough whatever the providers' streams are. It returns,
  -- having tried no model where the budget is locked at once, else one, or Terra and then Luna;
  -- each attempt was settled once in the ledger; and as many sentences as the result says were
  -- emitted, three at most over both attempts.
  pub generate-Answers :
      (fuel : ℕ) (primary_model : Option ModelName) (scripts : ℕ → Script) (l : Ledger)
      → (o : Outcome GenerationResult) × (generate is_space is_digit local_error_text sink_raises
            is_aware month at max_input_tokens max_output_tokens generation
            (suc (suc fuel))
            primary_model
            scripts
            l
          ≡ some o)
        × Answers l [] o
  unfolding generate
  generate-Answers fuel none scripts l = opened fuel scripts l _ (
      reserve_conversation-Enters is_aware month at max_input_tokens max_output_tokens l
        (scripts 0).fresh_id)
  generate-Answers fuel (some model) scripts l = opened fuel scripts l _ (
      reserve_model-Enters is_aware month at max_input_tokens max_output_tokens l
        (scripts 0).fresh_id model)
