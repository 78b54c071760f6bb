-- ===== src/Pipeline/Contracts.antt =====
-- pipeline/contracts.py: the typed events, with the checks of their constructors.
use lune_voice_companion.Prelude.{
  ℕ, ◌-◌, Bool, true, false, not, ◌&&◌, List, [], ◌∷◌, ltb, leb, ◌==◌, ℤ,
}
use lune_voice_companion.Result.{
  Result, ◌>>=◌, ◌>>◌, guard, natural, cancel_must_advance, negative_duration,
  onset_after_confirmation, wrong_capture_generation, empty_utterance, last_voiced_outside, ok,
}
use lune_voice_companion.Audio.Span.{AudioSpan, frame_count}

pub data CancelReason : Type 0 where
  barge_in text_barge_in device_changed microphone_off stream_error : CancelReason
  stt_timeout output_overflow shutdown error : CancelReason

pub data CancelStage : Type 0 where
  playback tts stt provider proposals turn_gate transport : CancelStage

-- The duration is a float of milliseconds; it is carried as the number that the clock gave.
pub record CancelEvent : Type 0 where
  pub previous_generation_id : ℕ
  pub generation_id : ℕ
  pub reason : CancelReason
  pub audible_stop_ms : ℕ
  pub failed_stages : List CancelStage

unfoldable pub cancel_event : ℕ → ℕ → CancelReason → ℤ → List CancelStage → Result CancelEvent
cancel_event previous current reason audible_stop_ms failed = do
  guard (ltb previous current) cancel_must_advance
  duration ← natural audible_stop_ms negative_duration
  ok (record {
    previous_generation_id = previous;
    generation_id = current;
    reason = reason;
    audible_stop_ms = duration;
    failed_stages = failed;
  })

-- `clean`
unfoldable pub is_clean : CancelEvent → Bool
is_clean e = elim e.failed_stages [ [] ↦ true | _ ∷ _ ↦ false ]

pub record TurnStarted : Type 0 where
  pub generation_id : ℕ
  pub at_sample : ℕ
  pub voice_onset_sample : ℕ
  pub barge_in : Bool

unfoldable pub turn_started_event : ℕ → ℕ → ℕ → Bool → Result TurnStarted
turn_started_event generation at_sample onset barge = do
  guard (leb onset at_sample) onset_after_confirmation
  ok (record {
    generation_id = generation;
    at_sample = at_sample;
    voice_onset_sample = onset;
    barge_in = barge;
  })

pub record UtteranceCaptured : Type 0 where
  pub generation_id : ℕ
  pub audio : AudioSpan
  pub last_voiced_sample : ℕ
  pub pre_roll_truncated : Bool
  pub max_length_reached : Bool

unfoldable pub utterance_captured : ℕ → AudioSpan → ℕ → Bool → Bool → Result UtteranceCaptured
unfolding frame_count
utterance_captured generation audio last_voiced truncated max_length = do
  guard (audio.generation_id == generation) wrong_capture_generation
  guard (not (frame_count audio == 0)) empty_utterance
  guard (leb audio.start_sample last_voiced && leb last_voiced audio.end_sample) last_voiced_outside
  ok (record {
    generation_id = generation;
    audio = audio;
    last_voiced_sample = last_voiced;
    pre_roll_truncated = truncated;
    max_length_reached = max_length;
  })

unfoldable pub trailing_silence_frames : UtteranceCaptured → ℕ
trailing_silence_frames u = u.audio.end_sample - u.last_voiced_sample

pub data TurnGateEvent : Type 0 where
  started : TurnStarted → TurnGateEvent
  captured : UtteranceCaptured → TurnGateEvent
