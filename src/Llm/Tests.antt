-- ===== src/Llm/Tests.antt =====
-- The theorems on src/lune/llm at concrete inputs.
use lune_voice_companion.Prelude.{
  ℕ, zero, suc, ◌+◌, ◌≤◌, ◌<◌, ◌≡◌, refl, ◌⊎◌, Bool, true, false, ◌&&◌, Option, none, some, List,
  [], ◌∷◌, ◌++◌, arith, leb, ◌==◌, length, All, pos,
}
use lune_voice_companion.Result.{err, ok}
use lune_voice_companion.Llm.Budget.{
  ModelName, terra, luna, AttemptReservation, settle_found, AttemptUsage, Ledger, new_ledger,
  reservation_cost, actual_cost, settle, reserve_model, reserve_conversation,
}
use lune_voice_companion.Llm.Budget.Amounts.{IsUsage, actual_cost-le}
use lune_voice_companion.Llm.Budget.Settling.{Moves, settle-Moves}
use lune_voice_companion.Llm.Budget.Months.{
  IsGranted, Chooses, reserve_model-IsGranted, reserve_conversation-Chooses,
}
use lune_voice_companion.Llm.Sentences.{
  Gate, TextFrame, check_correlation, feed, finish, new_gate, feed_loop, finish_loop, discard,
  final_boundary,
}
use lune_voice_companion.Llm.Contracts.{
  TerminalStatus, completed, failed, ProviderFrame, text_frame, usage_frame, terminal_frame,
}
use lune_voice_companion.Llm.Streaming.{
  Outcome, GenerationResult, run_attempt, consume, receive, take_frame, feed_text, leave, conclude,
  complete, drain_usage,
}
use lune_voice_companion.Llm.Streaming.Generate.{Script, generate, attempts}
use lune_voice_companion.Llm.Streaming.Answers.{Runs, run_attempt-Runs}
use lune_voice_companion.Llm.Streaming.Outcomes.{Answers}
use lune_voice_companion.Llm.Streaming.Rounds.{generate-Answers}
use lune_voice_companion.Llm.Sentences.Units.{IsUnit, IsOpen}
use lune_voice_companion.Llm.Sentences.Release.{IsGate, texts, finish_lem}

-- 33 TWD for a dollar, and thresholds of 700 and 900 TWD.
abbrev ledger : Ledger
ledger = new_ledger 3300 7000000000000 9000000000000 (λ _. 0)

abbrev reservation : AttemptReservation
reservation = record {
  attempt_id = 1;
  period = 24319;
  model = terra;
  reserved_twd = 4804470000;
  twd_per_usd = 3300;
}

abbrev usage : AttemptUsage
usage = record {
  attempt_id = 1;
  input_tokens = 1000;
  cached_input_tokens = 200;
  cache_write_input_tokens = 300;
  output_tokens = 100;
}

usage-IsUsage : IsUsage usage 4902 192
usage-IsUsage = record {
  details = omega arith;
  input_bound = omega arith;
  output_bound = omega arith;
}

actual_cost-le_example : actual_cost reservation usage ≤ 4804470000
unfolding reservation_cost
actual_cost-le_example =
    actual_cost-le ledger reservation usage 4902 192 4804470000 usage-IsUsage refl refl

abbrev month : ℕ → ℕ
month t = 24319

abbrev reserving : Ledger
reserving = record ledger { active = reservation ∷ [] }

settle-Moves_example : Moves reserving 1 (some usage) (settle reserving (λ _. false) 1 (some usage))
settle-Moves_example = settle-Moves reserving (λ _. false) 1 (some usage) (refl, tt)

reserve_conversation-Chooses_example :
    Chooses
      (λ _. true)
      month
      ledger
      5
      (pos 100)
      (pos 192)
      (reserve_conversation (λ _. true) month ledger 1 5 (pos 100) (pos 192))
reserve_conversation-Chooses_example =
    reserve_conversation-Chooses (λ _. true) month ledger 1 5 (pos 100) (pos 192)

abbrev small_reservation : AttemptReservation
small_reservation = record {
  attempt_id = 1;
  period = 24319;
  model = luna;
  reserved_twd = 84282000;
  twd_per_usd = 3300;
}

reserve_model-IsGranted_example :
    IsGranted
      (λ _. true)
      month
      ledger
      5
      luna
      (pos 100)
      (pos 192)
      small_reservation
      (record ledger { active = small_reservation ∷ [] })
unfolding reserve_model reservation_cost
reserve_model-IsGranted_example =
    reserve_model-IsGranted (λ _. true) month ledger 1 5 luna (pos 100) (pos 192) small_reservation
      (record ledger { active = small_reservation ∷ [] }) refl

abbrev gate : Gate
gate = record {
  max_sentences = 3;
  buffer = 72 ∷ 105 ∷ [];
  released = 1;
  correlation = some (1, 7);
  limited = false;
}

gate-IsGate : IsGate gate
gate-IsGate = record { room = λ _. omega arith; shut = λ x. cc x }

-- "! Yo"
abbrev piece : TextFrame
piece = record { text = 33 ∷ 32 ∷ 89 ∷ 111 ∷ []; generation_id = 1; attempt_id = 7 }

abbrev is_space : ℕ → Bool
is_space c = c == 32

abbrev is_digit : ℕ → Bool
is_digit c = leb 48 c && leb c 57

finish_lem_example :
    (frames : List TextFrame) × (g' : Gate) × (rest : List ℕ) × (finish is_space is_digit gate
      ≡ (ok (frames, false), g'))
    × (texts frames ++ rest ≡ gate.buffer)
    × (1 + length frames ≤ 3)
    × (1 + length frames < 3 → texts frames ≡ gate.buffer)
    × (g'.buffer ≡ [])
    × All
        (λ (f : TextFrame).
          IsUnit is_space is_digit none f.text ⊎ IsOpen is_space is_digit none f.text)
        frames
finish_lem_example = finish_lem is_space is_digit gate (1, 7) gate-IsGate refl refl refl

-- Characters as Python tells them, for the ASCII of the example.
abbrev is_blank : ℕ → Bool
is_blank c = c == 32

abbrev no_digit : ℕ → Bool
no_digit c = false

abbrev says : ℕ → List ℕ → ProviderFrame
says attempt text = text_frame (record { text = text; generation_id = 5; attempt_id = attempt })

abbrev ends_with : ℕ → TerminalStatus → Bool → ProviderFrame
ends_with attempt status transient = terminal_frame (record {
  generation_id = 5;
  attempt_id = attempt;
  status = status;
  transient = transient;
  error_code = none;
})

-- Two sentences, one with its successor's start behind it, and a failure; the generation is 5.
abbrev stream : List (ℕ × ProviderFrame)
stream =
    (5, says 1 (72 ∷ 105 ∷ 46 ∷ 32 ∷ 79 ∷ []))
    ∷ (5, usage_frame (record { generation_id = 5; usage = usage }))
    ∷ (5, ends_with 1 failed true)
    ∷ []

run_attempt-Runs_example :
    Runs reserving reservation [] 5 1
      (run_attempt is_blank no_digit (63 ∷ []) reserving (λ _. false) 5 1 stream [])
run_attempt-Runs_example =
    run_attempt-Runs reserving (λ _. false) 1 reservation [] (λ x. refl) refl is_blank no_digit
      (63 ∷ []) 5 stream []

-- Terra fails at once, and Luna answers.
abbrev scripts : ℕ → Script
scripts zero = record {
  fresh_id = 1;
  stream = λ _. (5, ends_with 1 failed true) ∷ [];
  drained = λ _. [];
  current_after = 5;
}
scripts (suc n) = record {
  fresh_id = 2;
  stream = λ _. (5, says 2 (72 ∷ 105 ∷ 46 ∷ [])) ∷ (5, ends_with 2 completed false) ∷ [];
  drained = λ _. [];
  current_after = 5;
}

generate-Answers_example :
    (o : Outcome GenerationResult) × (generate is_blank no_digit
        (63 ∷ [])
        (λ _. false)
        {Time = ℕ}
        (λ _. true)
        month
        0
        (pos 4902)
        (pos 192)
        5
        2
        none
        scripts
        ledger
      ≡ some o)
    × Answers ledger [] o
generate-Answers_example =
    generate-Answers is_blank no_digit (63 ∷ []) (λ _. false) {Time = ℕ} (λ _. true) month 0
      (pos 4902) (pos 192) 5 (λ x. refl)
      (record { aware = refl; input = (4902, refl); output = (192, refl) }) 0 none scripts ledger

abbrev attempted : Option (Outcome GenerationResult) → List ModelName
attempted none = []
attempted (some o) = elim o.result [ err e ↦ [] | ok r ↦ r.models_attempted ]

both_models :
    attempted (
      generate is_blank no_digit
        (63 ∷ [])
        (λ _. false)
        {Time = ℕ}
        (λ _. true)
        month
        0
        (pos 4902)
        (pos 192)
        5
        2
        none
        scripts
        ledger)
    ≡ terra ∷ luna ∷ []
unfolding generate attempts run_attempt consume receive take_frame feed_text leave conclude complete
    drain_usage settle settle_found reserve_conversation reserve_model reservation_cost new_gate
    feed finish feed_loop finish_loop discard check_correlation final_boundary
both_models = refl
