-- ===== src/Pipeline/Gate/Loop.antt =====
-- The loop of pipeline/turn_gate.py over the buffered windows, and its two entry points.
use lune_voice_companion.Prelude.{ℕ, ◌≡◌, Bool, List}
use lune_voice_companion.Result.{Result, ok}
use lune_voice_companion.Exec.{Exec, ◌>>=◌}
use lune_voice_companion.Audio.Vad
use lune_voice_companion.Audio.Vad.{TurnPolicyConfig}
use lune_voice_companion.Pipeline.Contracts.{TurnGateEvent}
use lune_voice_companion.Pipeline.Gate.{Gate}
use lune_voice_companion.Pipeline.Gate.Feed.{Detector, break_on, drain_windows}
use lune_voice_companion.Pipeline.Gate.Ready.{IsReady, OnTime, IsTuned}

module _ {D : Type 0} (detector : Detector D) (idle barge silence : ℕ) (c : TurnPolicyConfig)
    (tuned : IsTuned c idle barge silence (detector.frames_required)) where
  open detector use {frames_required, is_voiced}

  pub record Quits (ai : Bool) (r : Result (List TurnGateEvent) × Gate D) : Type 0 where
    pub events : List TurnGateEvent
    pub result : r.0 ≡ ok events
    pub is_ready : IsReady c barge frames_required r.1
    pub on_time : OnTime idle barge silence r.1 ai

  -- The loop behind a round.
  abbrev continue_with :
      Result (List TurnGateEvent) × Gate D → ℕ → Bool → Result (List TurnGateEvent) × Gate D
  continue_with x fuel ai =
      ((λ (_ : Gate D). x) >>= λ events. break_on events (drain_windows detector fuel ai)) x.1
