-- ===== src/Llm/Streaming/Outcomes.antt =====
-- What `generate` of llm/streaming.py has done when it ends.
use lune_voice_companion.Prelude.{
  ℕ, suc, ◌+◌, ◌≤◌, ◌≡◌, refl, ap, ◌∙◌, true, List, [], ◌∷◌, ◌++◌, arith, length, length-append,
}
use lune_voice_companion.Result.{ok}
use lune_voice_companion.Llm.Budget.{ModelName, terra, luna, local_qwen, AttemptReservation, Ledger}
use lune_voice_companion.Llm.Contracts.{ProviderFrame}
use lune_voice_companion.Llm.Streaming.{AttemptResult, GenerationResult, Outcome}
use lune_voice_companion.Llm.Streaming.Generate.{is_terra, generation_result, generation_code}
use lune_voice_companion.Llm.Streaming.Attempts.{sentences, sentences-append}
use lune_voice_companion.Llm.Streaming.Answers.{Settles, Runs}

-- The models of an answer: none where the budget is locked at once, else one, or Terra and then Luna.
pub data IsChoice : List ModelName → Type 0 where
  nobody : IsChoice []
  one : (m : ModelName) → IsChoice (m ∷ [])
  terra_then_luna : IsChoice (terra ∷ luna ∷ [])

-- A round's outcome, where the rounds before it tried `models` and emitted nothing to be heard.
pub record Answers (l : Ledger) (models : List ModelName) (o : Outcome GenerationResult)
    : Type 0 where
  pub value : GenerationResult
  pub returns : o.result ≡ ok value
  pub counted : sentences o.emitted ≡ value.sentences_emitted
  pub few : value.sentences_emitted ≤ 3
  pub choice : IsChoice value.models_attempted
  pub settled :
      length o.ledger.settled + length models ≡ length l.settled + length value.models_attempted

pub is_terra-terra : (m : ModelName) → is_terra m ≡ true → m ≡ terra
is_terra-terra terra e = refl
is_terra-terra luna e = cc
is_terra-terra local_qwen e = cc

pub Settles-length :
    {l l' : Ledger} {reservation : AttemptReservation} {others : List AttemptReservation}
    → Settles l reservation others l'
    → length l'.settled ≡ suc (length l.settled)
Settles-length {l = l} s =
    let (x, appended, _) = s.settled in
    ap length appended ∙ length-append l.settled (x ∷ []) ∙ omega arith

-- A round's outcome where no other follows.
abbrev pub ended :
    List ProviderFrame
    → List ModelName
    → ℕ
    → Outcome AttemptResult
    → AttemptResult
    → Outcome GenerationResult
ended emitted attempted total r value = record {
  result = ok (
      generation_result value.status attempted (total + value.sentences_emitted)
        (generation_code value.error_code));
  emitted = emitted ++ r.emitted;
  ledger = r.ledger;
}

pub ended-Answers :
    (l : Ledger) (reservation : AttemptReservation) (rest : List AttemptReservation)
    (generation : ℕ) (r : Outcome AttemptResult) (emitted : List ProviderFrame)
    (models : List ModelName) (total : ℕ)
    (runs : Runs l reservation rest generation reservation.attempt_id r)
    → sentences emitted ≡ 0
    → total ≡ 0
    → IsChoice (models ++ reservation.model ∷ [])
    → Answers l models (ended emitted (models ++ reservation.model ∷ []) total r runs.value)
ended-Answers l reservation rest generation r emitted models total runs quiet nothing choice =
    record {
      value =
          generation_result runs.value.status (models ++ reservation.model ∷ [])
            (total + runs.value.sentences_emitted) (generation_code runs.value.error_code);
      returns = refl;
      counted = omega (arith, quiet, nothing, runs.counted, sentences-append emitted r.emitted);
      few = omega (arith, nothing, runs.few);
      choice = choice;
      settled =
          omega (arith, length-append models (reservation.model ∷ []), Settles-length runs.settles);
    }
