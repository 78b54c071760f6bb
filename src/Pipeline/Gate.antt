-- ===== src/Pipeline/Gate.antt =====
-- pipeline/turn_gate.py: the gate that turns fenced PCM into turn events. The detector keeps a
-- state of its own, whose type is a parameter. `Feed` has the operations that call it.
pub mod Feed
pub mod Ready
pub mod Utterance
pub mod Rounds
pub mod Step
pub mod Loop
pub mod Restarts
pub mod Fences
pub mod Create
use lune_voice_companion.Prelude.{
  ℕ, ◌+◌, ◌-◌, ◌*◌, ◌/◌, min, max, Bool, true, false, Option, none, some, List, [], ◌∷◌, ◌++◌, ltb,
  leb, ◌==◌, if◌then◌else◌, length, take, pos,
}
use lune_voice_companion.Result.{
  Error, Result, guard, generation_backwards, missing_onset, assertion, ok, err,
}
use lune_voice_companion.Exec.{Exec, pure, lift, modify, ◌>>=◌, ◌>>◌}
use lune_voice_companion.Audio.Span.{
  AudioSpan, audio_span, slice_span, frame_count, milliseconds_to_samples,
}
use lune_voice_companion.Audio.Vad
use lune_voice_companion.Audio.Vad.{
  TurnPolicy, TurnEvent, TurnEventKind, turn_started, barge_in_confirmed, turn_ended,
  end_silence_samples,
}
use lune_voice_companion.Audio.Preroll
use lune_voice_companion.Audio.Preroll.{PreRollBuffer, capture}
use lune_voice_companion.Pipeline.Contracts.{
  TurnStarted, UtteranceCaptured, TurnGateEvent, started, captured, turn_started_event,
  utterance_captured,
}

pub record Gate (Detector : Type 0) : Type 0 where
  pub detector : Detector
  pub policy : TurnPolicy
  pub pre_roll : PreRollBuffer
  pub sample_rate : ℕ
  pub channels : ℕ
  pub bytes_per_frame : ℕ
  pub max_utterance_samples : ℕ
  pub generation_id : ℕ
  pub carried_generation : Option ℕ
  pub window : List ℕ
  pub window_start : Option ℕ
  pub utterance : List ℕ
  pub utterance_start : Option ℕ
  pub utterance_end : ℕ
  pub pre_roll_truncated : Bool
  pub discontinuities : ℕ

-- `assert o is not None`
abbrev pub expect : Option ℕ → Error → Result ℕ
expect none e = err e
expect (some n) e = ok n

-- `_restamp`
abbrev pub restamp : AudioSpan → ℕ → Result AudioSpan
restamp span generation =
    audio_span span.pcm (pos span.start_sample) (pos span.end_sample) (pos generation)
      (pos span.sample_rate) (pos span.channels)

-- `event.kind is TurnEventKind.BARGE_IN_CONFIRMED`
abbrev pub is_barge : TurnEventKind → Bool
is_barge barge_in_confirmed = true
is_barge _ = false

module _ {D : Type 0} where
  unfoldable pub discard_utterance : Gate D → Gate D
  discard_utterance g = record g {
    utterance = [];
    utterance_start = none;
    utterance_end = 0;
    pre_roll_truncated = false;
  }

  check_forward : ℕ → Exec (Gate D) (Unit {0})
  check_forward generation g = lift (guard (leb g.generation_id generation) generation_backwards) g

  unfoldable pub reset_generation : ℕ → Exec (Gate D) (Unit {0})
  unfolding check_forward discard_utterance
  reset_generation generation = do
    check_forward generation
    modify (λ g. discard_utterance (record g {
      generation_id = generation;
      carried_generation = none;
      policy = Vad.reset g.policy;
      pre_roll = Preroll.clear g.pre_roll;
      window = [];
      window_start = none;
    }))

  unfoldable pub carry_over_generation : ℕ → Exec (Gate D) (Unit {0})
  unfolding check_forward
  carry_over_generation generation = do
    check_forward generation
    modify (λ g. record g {
      carried_generation =
          if generation == g.generation_id then g.carried_generation else some g.generation_id;
      generation_id = generation;
      pre_roll = Preroll.clear g.pre_roll;
    })

  unfoldable pub restart_timeline : ℕ → Gate D → Gate D
  unfolding discard_utterance
  restart_timeline start g = discard_utterance (record g {
    discontinuities = g.discontinuities + 1;
    policy = Vad.reset g.policy;
    pre_roll = Preroll.clear g.pre_roll;
    window = [];
    window_start = some start;
  })

  unfoldable pub extend_utterance : AudioSpan → ℕ → Exec (Gate D) (Unit {0})
  extend_utterance window until g =
      let start = max g.utterance_end window.start_sample in
      if leb until start
      then (ok tt, g)
      else (do
        piece ← lift (slice_span window start until)
        modify (λ h. record h { utterance = h.utterance ++ piece.pcm; utterance_end = until }))
          g

  unfoldable pub build_capture : Bool → Exec (Gate D) UtteranceCaptured
  build_capture max_length g =
      (do
        start ← lift (expect g.utterance_start assertion)
        let stop = min g.utterance_end (start + g.max_utterance_samples)
        let size = (stop - start) * g.bytes_per_frame
        audio ← lift (
            audio_span (take size g.utterance) (pos start) (pos stop) (pos g.generation_id)
              (pos g.sample_rate) (pos g.channels))
        silence ← lift (if max_length then ok 0 else end_silence_samples g.policy.config)
        lift (
            utterance_captured g.generation_id audio (max audio.start_sample (stop - silence))
              g.pre_roll_truncated max_length))
        g

  unfoldable pub close_utterance : AudioSpan → ℕ → Exec (Gate D) TurnGateEvent
  unfolding discard_utterance
  close_utterance window at_sample = do
    extend_utterance window at_sample
    u ← build_capture false
    modify discard_utterance
    pure (captured u)

  unfoldable pub open_utterance : TurnEvent → Exec (Gate D) TurnGateEvent
  open_utterance event g =
      (do
        onset ← lift (expect event.voice_onset_sample missing_onset)
        c ← lift (capture g.pre_roll onset event.at_sample)
        modify (λ h. record h {
          utterance = c.audio.pcm;
          utterance_start = some c.audio.start_sample;
          utterance_end = event.at_sample;
          pre_roll_truncated = c.pre_roll_truncated;
        })
        t ← lift (turn_started_event g.generation_id event.at_sample onset (is_barge event.kind))
        pure (started t))
        g

  enforce_from : Option ℕ → Exec (Gate D) (List TurnGateEvent)
  unfolding discard_utterance
  enforce_from none g = (err assertion, g)
  enforce_from (some start) g =
      if ltb (g.utterance_end - start) g.max_utterance_samples
      then (ok [], g)
      else (do
        u ← build_capture true
        modify (λ h. let h' = discard_utterance h in record h' { policy = Vad.reset h'.policy })
        pure (captured u ∷ []))
          g

  -- `_enforce_utterance_bound`
  unfoldable pub enforce_bound : Exec (Gate D) (List TurnGateEvent)
  unfolding enforce_from
  enforce_bound g = enforce_from g.utterance_start g

  grow_from : Option ℕ → AudioSpan → ℕ → Exec (Gate D) (List TurnGateEvent)
  grow_from none window until = pure []
  grow_from (some _) window until = do extend_utterance window until; enforce_bound

  -- The end of one round: an utterance that is open grows by the window, up to its bound.
  unfoldable pub grow : AudioSpan → ℕ → Exec (Gate D) (List TurnGateEvent)
  unfolding grow_from
  grow window until g = grow_from g.utterance_start window until g

  -- One event of the policy.
  unfoldable pub resolve : AudioSpan → TurnEvent → Exec (Gate D) TurnGateEvent
  resolve window event = elim event.kind [
    | turn_ended ↦ close_utterance window event.at_sample
    | _ ↦ open_utterance event
  ]

  unfoldable pub resolve_all : AudioSpan → List TurnEvent → Exec (Gate D) (List TurnGateEvent)
  resolve_all window [] = pure []
  resolve_all window (e ∷ es) = do
    event ← resolve window e
    later ← resolve_all window es
    pure (event ∷ later)

  -- The start of the buffered window for a span that is accepted.
  unfoldable pub place : Option ℕ → AudioSpan → Gate D → Gate D
  unfolding restart_timeline
  place none span g = record g { window_start = some span.start_sample }
  place (some w) span g =
      if span.start_sample == w + length g.window / g.bytes_per_frame
      then g
      else restart_timeline span.start_sample g

  -- What `feed` does with a span that is not empty.
  unfoldable pub take_in : AudioSpan → Gate D → Gate D
  unfolding place
  take_in span g =
      let placed = place g.window_start span g in
      record placed { window = placed.window ++ span.pcm }
