-- ===== src/Llm/Streaming/Answers.antt =====
-- What one attempt of llm/streaming.py returns, emits and leaves in the ledger.
use lune_voice_companion.Prelude.{
  ℕ, ◌≤◌, ◌≡◌, refl, sym, ◌∙◌, inl, inr, Bool, true, false, Option, none, some, List, [], ◌∷◌, ◌++◌,
  arith, Bool-cases, All,
}
use lune_voice_companion.Result.{ok}
use lune_voice_companion.Llm.Budget.{
  AttemptReservation, AttemptUsage, SettledAttempt, Ledger, settle, settle_found, pop,
  belongs_elsewhere, charge_of, charge_confirmed,
}
use lune_voice_companion.Llm.Sentences.{Gate, TextFrame, new_gate, finish, discard}
use lune_voice_companion.Llm.Sentences.Flushing.{finish-Finishes, Finishes}
use lune_voice_companion.Llm.Contracts.{TerminalFrame, ProviderFrame, text_frame, is_completed}
use lune_voice_companion.Llm.Streaming.{
  completed_answer, cancelled_answer, error_answer, AttemptResult, Outcome, Attempt, Stop,
  superseded, limit_reached, text_frames, attempt_result, terminal_of, settled_with, conclude,
  complete, apologise, failed_result, leave, run_attempt, new_attempt,
}
use lune_voice_companion.Llm.Streaming.Attempts.{
  sentences, sentences-append, sentences-text_frames, Fenced, All-append, IsOf-Fenced, IsAttempt,
  drain_usage-own, Continues, consume-Continues,
}

-- The ledger after a settlement: the reservation is not active any more, and was settled once.
pub record Settles (l : Ledger) (reservation : AttemptReservation)
    (others : List AttemptReservation) (l' : Ledger) : Type 0 where
  pub released : l'.active ≡ others
  pub settled :
      (x : SettledAttempt) × (l'.settled ≡ l.settled ++ x ∷ []) × (x.reservation ≡ reservation)

-- An attempt as it should be: it returns, its reservation is settled, it emitted the sentences that
-- it says, at most three, all of its own generation and attempt, and asks for a retry only when
-- no sentence was emitted.
pub record Runs (l : Ledger) (reservation : AttemptReservation) (others : List AttemptReservation)
    (generation attempt : ℕ) (o : Outcome AttemptResult) : Type 0 where
  pub value : AttemptResult
  pub returns : o.result ≡ ok value
  pub settles : Settles l reservation others o.ledger
  pub counted : sentences o.emitted ≡ value.sentences_emitted
  pub few : value.sentences_emitted ≤ 3
  pub fenced : All (Fenced generation attempt) o.emitted
  pub retries :
      value.retry_luna ≡ true → (value.sentences_emitted ≡ 0) × (value.status ≡ error_answer)

released_le :
    (generation attempt : ℕ) (s : Attempt) → IsAttempt generation attempt s → s.gate.released ≤ 3
released_le generation attempt s v = elim (Bool-cases s.gate.limited) [
  | inl e ↦ omega (arith, (v.is_gate.shut e).0, v.maximum)
  | inr e ↦ omega (arith, v.is_gate.room e, v.maximum)
]

module _ (l : Ledger) (sink_raises : SettledAttempt → Bool) (attempt : ℕ)
    (reservation : AttemptReservation) (others : List AttemptReservation)
    (silent : (x : SettledAttempt) → sink_raises x ≡ false)
    (active : pop attempt l.active ≡ some (reservation, others)) where
  settle-Settles :
      (usage : Option AttemptUsage)
      → belongs_elsewhere attempt usage ≡ false
      → (x : SettledAttempt) × (l' : Ledger) × (settle l sink_raises attempt usage ≡ (ok x, l'))
        × Settles l reservation others l'
  unfolding settle settle_found
  settle-Settles usage own =
      let charge = charge_of reservation usage in
      let x : SettledAttempt = record {
        reservation = reservation;
        charged_twd = charge.0;
        estimated = charge.1;
        usage = usage;
      } in
      let left : Ledger = record l {
        active = others;
        confirmed = charge_confirmed l.confirmed reservation.period charge.0;
        settled = l.settled ++ x ∷ [];
      } in
      (x, left, simp (active, own, silent), record { released = refl; settled = (x, refl, refl) })

  settled_with-Runs :
      (generation : ℕ) (usage : Option AttemptUsage) (emitted : List ProviderFrame)
      (value : AttemptResult)
      → belongs_elsewhere attempt usage ≡ false
      → sentences emitted ≡ value.sentences_emitted
      → value.sentences_emitted ≤ 3
      → All (Fenced generation attempt) emitted
      → (value.retry_luna ≡ true → (value.sentences_emitted ≡ 0) × (value.status ≡ error_answer))
      → Runs l reservation others generation attempt
          (settled_with l sink_raises attempt usage emitted value)
  settled_with-Runs generation usage emitted value own counted few fenced retries =
      let (x, l', done, s) = settle-Settles usage own in
      record {
        value = value;
        returns = simp done;
        settles = simp done s;
        counted = counted;
        few = few;
        fenced = fenced;
        retries = retries;
      }

  complete-Runs :
      (is_space is_digit : ℕ → Bool) (local_error_text : List ℕ) (generation : ℕ) (s : Attempt)
      → IsAttempt generation attempt s
      → s.gate.limited ≡ false
      → Runs l reservation others generation attempt (
          complete is_space is_digit local_error_text l sink_raises attempt s
            (finish is_space is_digit s.gate))
  unfolding complete Finishes
  complete-Runs is_space is_digit local_error_text generation s v o =
      let (frames, g', flushed, counted, few, fenced) =
        finish-Finishes is_space is_digit s.gate (generation, attempt) v.is_gate o v.correlation in
      rw flushed (
        settled_with-Runs generation s.usage (s.emitted ++ text_frames frames)
          (attempt_result completed_answer g'.released) v.own_usage
          (omega (
            arith,
            counted,
            v.counted,
            sentences-append s.emitted (text_frames frames),
            sentences-text_frames frames,
          ))
          (omega (arith, few, v.maximum))
          (All-append (Fenced generation attempt) s.emitted (text_frames frames) v.fenced
            (IsOf-Fenced generation attempt frames fenced))
          (λ e. cc))

  apologise-Runs :
      (is_space is_digit : ℕ → Bool) (local_error_text : List ℕ) (generation : ℕ) (s : Attempt)
      (terminal : TerminalFrame) (started : Bool)
      → s.playback_started ≡ started
      → IsAttempt generation attempt s
      → s.gate.limited ≡ false
      → Runs l reservation others generation attempt (
          apologise is_space is_digit local_error_text l sink_raises generation attempt started (
            settled_with l sink_raises attempt s.usage s.emitted
              (failed_result is_space is_digit local_error_text l sink_raises s terminal)))
  unfolding discard
  apologise-Runs is_space is_digit local_error_text generation s terminal false e v o =
      settled_with-Runs generation s.usage s.emitted _ v.own_usage (simp e v.counted)
        (simp e (omega (arith, v.is_gate.room o, v.maximum))) v.fenced
        (λ k. (simp e (grind (arith, sym v.started ∙ e)), refl))
  apologise-Runs is_space is_digit local_error_text generation s terminal true e v o =
      let (x, l', done, settles) = settle-Settles s.usage v.own_usage in
      let apology : TextFrame = record {
        text = local_error_text;
        generation_id = generation;
        attempt_id = attempt;
      } in
      rw done (record {
        value = failed_result is_space is_digit local_error_text l sink_raises s terminal;
        returns = refl;
        settles = settles;
        counted =
            simp e (omega (arith, v.counted, sentences-append s.emitted (text_frame apology ∷ [])));
        few = simp e (omega (arith, v.is_gate.room o, v.maximum));
        fenced =
            All-append (Fenced generation attempt) s.emitted (text_frame apology ∷ []) v.fenced
              (ground arith, tt);
        retries = λ k. (grind (arith, k, e), refl);
      })

  conclude-Runs :
      (is_space is_digit : ℕ → Bool) (local_error_text : List ℕ) (generation : ℕ) (s : Attempt)
      (terminal : TerminalFrame)
      → IsAttempt generation attempt s
      → s.gate.limited ≡ false
      → Runs l reservation others generation attempt
          (conclude is_space is_digit local_error_text l sink_raises generation attempt s terminal)
  unfolding conclude
  conclude-Runs is_space is_digit local_error_text generation s terminal v o =
      elim (Bool-cases (is_completed terminal.status)) [
        | inl c ↦ rw c (complete-Runs is_space is_digit local_error_text generation s v o)
        | inr c ↦ rw c (
            apologise-Runs is_space is_digit local_error_text generation s terminal
              s.playback_started refl v o)
      ]

  leave-Runs :
      (is_space is_digit : ℕ → Bool) (local_error_text : List ℕ) (generation : ℕ)
      (drained : List ProviderFrame) (stop : Option Stop) (s : Attempt)
      → IsAttempt generation attempt s
      → (stop ≡ none → s.gate.limited ≡ false)
      → Runs l reservation others generation attempt
          (leave is_space is_digit local_error_text l sink_raises generation attempt drained stop s)
  unfolding leave
  leave-Runs is_space is_digit local_error_text generation drained (some superseded) s v o =
      settled_with-Runs generation _ s.emitted (attempt_result cancelled_answer s.gate.released)
        (drain_usage-own drained generation attempt s.usage v.own_usage) v.counted
        (released_le generation attempt s v) v.fenced (λ e. cc)
  leave-Runs is_space is_digit local_error_text generation drained (some limit_reached) s v o =
      settled_with-Runs generation _ s.emitted (attempt_result completed_answer s.gate.released)
        (drain_usage-own drained generation attempt s.usage v.own_usage) v.counted
        (released_le generation attempt s v) v.fenced (λ e. cc)
  leave-Runs is_space is_digit local_error_text generation drained none s v o =
      conclude-Runs is_space is_digit local_error_text generation s
        (terminal_of generation attempt s.terminal) v (o refl)

  -- The attempt `attempt` of the ledger, over any stream, any drained frames and any generation that
  -- is the current one at any time, when the settlement's callback does not raise: `_run_attempt`
  -- returns, the attempt's reservation is taken out of the active ones and settled exactly once, what
  -- was emitted are as many sentences as the result says, three at most with the local error text, all
  -- of this generation and attempt, and a retry is asked for only where no sentence was emitted.
  pub run_attempt-Runs :
      (is_space is_digit : ℕ → Bool) (local_error_text : List ℕ) (generation : ℕ)
      (stream : List (ℕ × ProviderFrame)) (drained : List ProviderFrame)
      → Runs l reservation others generation attempt (
          run_attempt is_space is_digit local_error_text l sink_raises generation attempt stream
            drained)
  unfolding run_attempt new_gate Continues
  run_attempt-Runs is_space is_digit local_error_text generation stream drained =
      let gate : Gate = record {
        max_sentences = 3;
        buffer = [];
        released = 0;
        correlation = none;
        limited = false;
      } in
      let start : IsAttempt generation attempt
          (new_attempt is_space is_digit local_error_text l sink_raises gate) =
        record {
          is_gate = record { room = λ _. omega arith; shut = λ e. cc };
          maximum = refl;
          own_usage = refl;
          counted = refl;
          started = refl;
          fenced = tt;
          correlation = inl (refl, refl);
        } in
      let (stop, s, consumed, v, o) =
        consume-Continues is_space is_digit generation attempt stream _ start refl in
      rw (run_attempt, consumed)
        (leave-Runs is_space is_digit local_error_text generation drained stop s v o)
