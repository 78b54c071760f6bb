-- ===== src/Llm/Streaming.antt =====
-- llm/streaming.py: one answer, in one attempt or in two. The stream of an attempt is the list of
-- its frames, each with what `current_generation()` returns when it arrives; what `emit` is
-- called with is a list.
pub mod Attempts
pub mod Generate
pub mod Answers
pub mod Entries
pub mod Outcomes
pub mod Rounds
use lune_voice_companion.Prelude.{
  ℕ, suc, ◌+◌, Bool, true, false, not, ◌&&◌, ◌||◌, Option, none, some, List, [], ◌∷◌, ◌++◌, ◌==◌,
  if◌then◌else◌, pos,
}
use lune_voice_companion.Result.{Error, Result, ◌>>=◌, ◌>>◌, err, ok}
use lune_voice_companion.Llm.Budget.{
  ModelName, terra, luna, local_qwen, AttemptReservation, AttemptUsage, SettledAttempt, Ledger,
  settle, reserve_model, reserve_conversation,
}
use lune_voice_companion.Llm.Sentences.{Gate, TextFrame, new_gate, feed, finish, discard}
use lune_voice_companion.Llm.Contracts.{
  TerminalStatus, incomplete, ProviderErrorCode, stream_incomplete, FunctionCall, UsageFrame,
  TerminalFrame, ProviderFrame, text_frame, call_frame, usage_frame, terminal_frame, is_completed,
}

pub data GenerationStatus : Type 0 where
  completed_answer cancelled_answer error_answer locked_answer : GenerationStatus

-- `ProviderErrorCode | Literal["budget_locked"]`
pub data GenerationErrorCode : Type 0 where
  provider_code : ProviderErrorCode → GenerationErrorCode
  locked_code : GenerationErrorCode

pub record AttemptResult : Type 0 where
  pub status : GenerationStatus
  pub sentences_emitted : ℕ
  pub error_code : Option ProviderErrorCode
  pub retry_luna : Bool

pub record GenerationResult : Type 0 where
  pub status : GenerationStatus
  pub models_attempted : List ModelName
  pub sentences_emitted : ℕ
  pub error_code : Option GenerationErrorCode

-- What a call did: what it returned or raised, what it emitted, and the ledger that it left.
pub record Outcome (Value : Type 0) : Type 0 where
  pub result : Result Value
  pub emitted : List ProviderFrame
  pub ledger : Ledger

-- The variables of the loop in `_run_attempt`, with what was emitted.
pub record Attempt : Type 0 where
  pub gate : Gate
  pub usage : Option AttemptUsage
  pub terminal : Option TerminalFrame
  pub playback_started : Bool
  pub emitted : List ProviderFrame

-- Why the loop is left before the stream ends.
pub data Stop : Type 0 where
  superseded limit_reached : Stop

abbrev pub belongs_to : ProviderFrame → ℕ → ℕ → Bool
belongs_to (text_frame f) generation attempt =
    f.generation_id == generation && f.attempt_id == attempt
belongs_to (call_frame f) generation attempt =
    f.generation_id == generation && f.attempt_id == attempt
belongs_to (usage_frame f) generation attempt =
    f.generation_id == generation && f.usage.attempt_id == attempt
belongs_to (terminal_frame f) generation attempt =
    f.generation_id == generation && f.attempt_id == attempt

-- `_cancel_drain_usage`, over the frames that `cancel_and_drain` returns.
unfoldable pub drain_usage : List ProviderFrame → ℕ → ℕ → Option AttemptUsage → Option AttemptUsage
drain_usage [] generation attempt current = current
drain_usage (text_frame f ∷ fs) generation attempt current =
    drain_usage fs generation attempt current
drain_usage (call_frame f ∷ fs) generation attempt current =
    drain_usage fs generation attempt current
drain_usage (terminal_frame f ∷ fs) generation attempt current =
    drain_usage fs generation attempt current
drain_usage (usage_frame f ∷ fs) generation attempt current =
    drain_usage fs generation attempt
      (if belongs_to (usage_frame f) generation attempt then some f.usage else current)

abbrev pub is_some_frame {ℓ} : {A : Type ℓ} → List A → Bool
is_some_frame [] = false
is_some_frame (f ∷ fs) = true

abbrev pub text_frames : List TextFrame → List ProviderFrame
text_frames [] = []
text_frames (f ∷ fs) = text_frame f ∷ text_frames fs

-- `for released in …: await self._emit(released); playback_started = True`
abbrev pub emit_all : List TextFrame → Attempt → Attempt
emit_all frames s = record s {
  emitted = s.emitted ++ text_frames frames;
  playback_started = s.playback_started || is_some_frame frames;
}

-- `if terminal is not None: continue`
abbrev pub unless_ended :
    Option TerminalFrame → Attempt → Result (Option Stop × Attempt) → Result (Option Stop × Attempt)
unless_ended none s taken = taken
unless_ended (some t) s taken = ok (none, s)

abbrev pub attempt_result : GenerationStatus → ℕ → AttemptResult
attempt_result status sentences_emitted = record {
  status = status;
  sentences_emitted = sentences_emitted;
  error_code = none;
  retry_luna = false;
}

abbrev pub cut_short : ℕ → ℕ → TerminalFrame
cut_short generation attempt = record {
  generation_id = generation;
  attempt_id = attempt;
  status = incomplete;
  transient = true;
  error_code = some stream_incomplete;
}

-- `if terminal is None`
abbrev pub terminal_of : ℕ → ℕ → Option TerminalFrame → TerminalFrame
terminal_of generation attempt none = cut_short generation attempt
terminal_of generation attempt (some terminal) = terminal

-- The ledger's part of a return: the usage is settled, then the result is returned.
abbrev pub settled_with :
    Ledger
    → (SettledAttempt → Bool)
    → ℕ
    → Option AttemptUsage
    → List ProviderFrame
    → AttemptResult
    → Outcome AttemptResult
settled_with l sink_raises attempt usage emitted value =
    let r = settle l sink_raises attempt usage in
    record { result = (do settled ← r.0; ok value); emitted = emitted; ledger = r.1 }

module _ (is_space is_digit : ℕ → Bool) where
  -- A text frame that arrives before the terminal one.
  unfoldable pub feed_text : Attempt → TextFrame → Result (Option Stop × Attempt)
  feed_text s f =
      let r = feed is_space is_digit s.gate f in
      do
        (frames, reached_limit) ← r.0
        let emitted = emit_all frames (record s { gate = r.1 })
        ok (if reached_limit then some limit_reached else none, emitted)

  -- The loop's body after the two fences.
  unfoldable pub take_frame : Attempt → ProviderFrame → Result (Option Stop × Attempt)
  take_frame s (usage_frame f) = ok (none, record s { usage = some f.usage })
  take_frame s (text_frame f) = unless_ended s.terminal s (feed_text s f)
  take_frame s (call_frame f) =
      unless_ended s.terminal s (ok (none, record s { emitted = s.emitted ++ call_frame f ∷ [] }))
  take_frame s (terminal_frame f) =
      unless_ended s.terminal s (ok (none, record s { terminal = some f }))

  -- The loop's body.
  unfoldable pub receive : ℕ → ℕ → Attempt → ℕ → ProviderFrame → Result (Option Stop × Attempt)
  receive generation attempt s current f =
      if not (belongs_to f generation attempt)
      then ok (none, s)
      else if not (current == generation)
      then ok (some superseded, s)
      else take_frame s f

  unfoldable pub consume :
      ℕ → ℕ → Attempt → List (ℕ × ProviderFrame) → Result (Option Stop × Attempt)
  consume generation attempt s [] = ok (none, s)
  consume generation attempt s ((current, f) ∷ fs) = do
    (stop, next) ← receive generation attempt s current f
    elim stop [ some why ↦ ok (some why, next) | none ↦ consume generation attempt next fs ]

  module _ (local_error_text : List ℕ) (l : Ledger) (sink_raises : SettledAttempt → Bool) where
    -- `if terminal.status == "completed"`, on what `gate.finish()` does.
    unfoldable pub complete :
        ℕ → Attempt → Result (List TextFrame × Bool) × Gate → Outcome AttemptResult
    complete attempt s (err e, gate) = record { result = err e; emitted = s.emitted; ledger = l }
    complete attempt s (ok flushed, gate) =
        settled_with l sink_raises attempt s.usage (emit_all flushed.0 s).emitted
          (attempt_result completed_answer gate.released)

    -- The local error text follows the sentences that were played.
    abbrev pub apologise : ℕ → ℕ → Bool → Outcome AttemptResult → Outcome AttemptResult
    apologise generation attempt false outcome = outcome
    apologise generation attempt true outcome =
        let apology : TextFrame = record {
          text = local_error_text;
          generation_id = generation;
          attempt_id = attempt;
        } in
        elim outcome.result [
          | err e ↦ outcome
          | ok value ↦ record outcome { emitted = outcome.emitted ++ text_frame apology ∷ [] }
        ]

    abbrev pub failed_result : Attempt → TerminalFrame → AttemptResult
    failed_result s terminal =
        let released = (discard s.gate).released in
        record {
          status = error_answer;
          sentences_emitted = if s.playback_started then suc released else released;
          error_code = terminal.error_code;
          retry_luna = terminal.transient && not s.playback_started;
        }

    -- The end of `_run_attempt`, when the terminal frame is known.
    unfoldable pub conclude : ℕ → ℕ → Attempt → TerminalFrame → Outcome AttemptResult
    unfolding complete
    conclude generation attempt s terminal =
        if is_completed terminal.status
        then complete attempt s (finish is_space is_digit s.gate)
        else apologise generation attempt s.playback_started
            (settled_with l sink_raises attempt s.usage s.emitted (failed_result s terminal))

    -- What follows the loop, over what `cancel_and_drain` would return.
    unfoldable pub leave :
        ℕ → ℕ → List ProviderFrame → Option Stop → Attempt → Outcome AttemptResult
    unfolding drain_usage
    leave generation attempt drained (some superseded) s =
        settled_with l sink_raises attempt (drain_usage drained generation attempt s.usage)
          s.emitted (attempt_result cancelled_answer s.gate.released)
    leave generation attempt drained (some limit_reached) s =
        settled_with l sink_raises attempt (drain_usage drained generation attempt s.usage)
          s.emitted (attempt_result completed_answer s.gate.released)
    leave generation attempt drained none s =
        conclude generation attempt s (terminal_of generation attempt s.terminal)

    abbrev pub new_attempt : Gate → Attempt
    new_attempt gate = record {
      gate = gate;
      usage = none;
      terminal = none;
      playback_started = false;
      emitted = [];
    }

    -- An exception in the loop leaves the ledger as it is; it is not told here what was emitted.
    unfoldable pub run_attempt :
        ℕ → ℕ → List (ℕ × ProviderFrame) → List ProviderFrame → Outcome AttemptResult
    run_attempt generation attempt stream drained =
        let failed : Error → Outcome AttemptResult =
          λ e. record { result = err e; emitted = []; ledger = l } in
        elim (new_gate (pos 3)) [
          | err e ↦ failed e
          | ok gate ↦ elim (consume generation attempt (new_attempt gate) stream) [
            | err e ↦ failed e
            | ok left ↦ leave generation attempt drained left.0 left.1
          ]
        ]
