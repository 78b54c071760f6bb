-- ===== src/Pipeline/Gate/Feed.antt =====
-- pipeline/turn_gate.py: the loop over analysis windows. The detector is a parameter.
use lune_voice_companion.Prelude.{
  ℕ, zero, suc, ◌+◌, ◌*◌, ◌/◌, Bool, ◌&&◌, Option, none, some, List, [], ◌∷◌, ◌++◌, ltb, ◌==◌,
  if◌then◌else◌, length, take, drop, pos,
}
use lune_voice_companion.Result.{guard, format_changed, assertion, ok}
use lune_voice_companion.Exec.{Exec, pure, lift, modify, ◌>>=◌, ◌>>◌}
use lune_voice_companion.Audio.Span.{AudioSpan, audio_span, frame_count}
use lune_voice_companion.Audio.Vad
use lune_voice_companion.Audio.Vad.{TurnEvent}
use lune_voice_companion.Audio.Preroll
use lune_voice_companion.Pipeline.Contracts.{TurnGateEvent}
use lune_voice_companion.Pipeline.Gate.{Gate, expect, restamp, take_in, resolve_all, grow}

-- The detector: the frames of one window, and its answer, which may depend on what it heard.
pub record Detector (D : Type 0) : Type 0 where
  pub frames_required : ℕ
  pub is_voiced : D → AudioSpan → Bool × D

-- `if events: break`
abbrev pub break_on :
    {D : Type 0}
    → List TurnGateEvent
    → Exec (Gate D) (List TurnGateEvent)
    → Exec (Gate D) (List TurnGateEvent)
break_on [] rest = rest
break_on (e ∷ es) rest = pure (e ∷ es)

module _ {D : Type 0} where
  -- Audio of the interrupted generation is stamped anew; any other is stale.
  unfoldable pub accept_carried : Option ℕ → AudioSpan → Exec (Gate D) (Option AudioSpan)
  accept_carried none span g = (ok none, g)
  accept_carried (some c) span g =
      if span.generation_id == c
      then (do s ← lift (restamp span g.generation_id); pure (some s)) g
      else (ok none, g)

  -- `_accept`
  unfoldable pub accept : AudioSpan → Exec (Gate D) (Option AudioSpan)
  accept span g =
      (do
        lift (
            guard (span.sample_rate == g.sample_rate && span.channels == g.channels) format_changed)
        if span.generation_id == g.generation_id
            then (do modify (λ h. record h { carried_generation = none }); pure (some span))
            else accept_carried g.carried_generation span)
        g

module _ {D : Type 0} (detector : Detector D) where
  open detector use {frames_required, is_voiced}

  -- Takes the first window off the buffer.
  unfoldable pub next_window : Exec (Gate D) AudioSpan
  next_window g =
      (do
        start ← lift (expect g.window_start assertion)
        let size = frames_required * g.bytes_per_frame
        modify (λ h. record h {
          window = drop size h.window;
          window_start = some (start + frames_required);
        })
        lift (
            audio_span (take size g.window) (pos start) (pos (start + frames_required))
              (pos g.generation_id) (pos g.sample_rate) (pos g.channels)))
        g

  unfoldable pub append_window : AudioSpan → Exec (Gate D) (Unit {0})
  append_window window g =
      (do
        ring ← lift (Preroll.append g.pre_roll window)
        modify (λ h. record h { pre_roll = ring }))
        g

  unfoldable pub detect : AudioSpan → Exec (Gate D) Bool
  detect window g =
      let (voiced, d) = is_voiced g.detector window in (ok voiced, record g { detector = d })

  unfoldable pub observe : AudioSpan → Bool → Bool → Exec (Gate D) (List TurnEvent)
  observe window voiced ai_active g =
      let (events, policy) =
        Vad.feed g.policy (pos window.start_sample) (pos window.end_sample) voiced ai_active in
      (events, record g { policy = policy })

  -- One round of the loop of `_drain_windows`.
  unfoldable pub one_window : Bool → Exec (Gate D) (List TurnGateEvent)
  one_window ai_active = do
    window ← next_window
    append_window window
    voiced ← detect window
    turn_events ← observe window voiced ai_active
    events ← resolve_all window turn_events
    more ← grow window window.end_sample
    pure (events ++ more)

  -- `while len(self._window) >= window_bytes`, left at the first round with an event.
  unfoldable pub drain_windows : ℕ → Bool → Exec (Gate D) (List TurnGateEvent)
  drain_windows zero ai_active g = (ok [], g)
  drain_windows (suc fuel) ai_active g =
      let rest : Exec (Gate D) (List TurnGateEvent) = drain_windows fuel ai_active in
      if ltb (length g.window) (frames_required * g.bytes_per_frame)
      then (ok [], g)
      else (do events ← one_window ai_active; break_on events rest) g

  -- Each round takes a window off the buffer, so its length bounds the rounds.
  unfoldable pub pump : Bool → Exec (Gate D) (List TurnGateEvent)
  pump ai_active g = drain_windows (length g.window + 1) ai_active g

  unfoldable pub pending_windows : Gate D → ℕ
  pending_windows g = length g.window / (frames_required * g.bytes_per_frame)

  -- What `feed` does with what was accepted.
  unfoldable pub feed_accepted : Option AudioSpan → Bool → Exec (Gate D) (List TurnGateEvent)
  unfolding frame_count
  feed_accepted none ai_active = pure []
  feed_accepted (some s) ai_active =
      if frame_count s == 0 then pure [] else (do modify (take_in s); pump ai_active)

  unfoldable pub feed : AudioSpan → Bool → Exec (Gate D) (List TurnGateEvent)
  feed span ai_active = do accepted ← accept span; feed_accepted accepted ai_active
