-- ===== src/Pipeline/Gate/Rounds.antt =====
-- One round of the loop of pipeline/turn_gate.py: what the gate holds once the window is taken off
-- the buffer, appended to the ring and shown to the detector.
use lune_voice_companion.Prelude.{
  ℕ, ◌+◌, ◌-◌, ◌*◌, ◌≤◌, ◌<◌, ◌≡◌, refl, sym, ap, inl, inr, Bool, true, false, some, List, [], ◌∷◌,
  arith, Option-cases, length, take, drop, length-take,
}
use lune_voice_companion.Result.{ok}
use lune_voice_companion.Audio.Span.{AudioSpan}
use lune_voice_companion.Audio.Span.Laws.{IsSpan, audio_span_ok}
use lune_voice_companion.Audio.Vad.{TurnPolicyConfig, onset_or}
use lune_voice_companion.Audio.Vad.Policy.Outcome.{threshold}
use lune_voice_companion.Audio.Preroll.{PreRollBuffer, first_start}
use lune_voice_companion.Audio.Preroll.Ring.{chain_end-ge}
use lune_voice_companion.Audio.Preroll.Window.{
  window_start, window_end, is_filled, number_or, format,
}
use lune_voice_companion.Audio.Preroll.Append.{IsAppended, append_lem, origin}
use lune_voice_companion.Pipeline.Gate.{Gate}
use lune_voice_companion.Pipeline.Gate.Feed.{Detector, next_window, append_window}
use lune_voice_companion.Pipeline.Gate.Ready.{IsReady, OnTime, ring_accepts}

origin_le :
    (spans : List AudioSpan) (s : AudioSpan) (m : ℕ)
    → (is_filled spans ≡ true → number_or (first_start spans) 0 ≤ m)
    → s.start_sample ≤ m
    → origin spans s ≤ m
origin_le [] s m h k = k
origin_le (x ∷ rest) s m h k = h refl

origin_filled :
    (spans : List AudioSpan) (s : AudioSpan)
    → is_filled spans ≡ true
    → origin spans s ≡ number_or (first_start spans) 0
origin_filled [] s h = cc
origin_filled (x ∷ rest) s h = refl

threshold_le :
    (idle barge silence : ℕ) (ai : Bool) → idle ≤ barge → threshold idle barge silence ai ≤ barge
threshold_le idle barge silence true h = omega arith
threshold_le idle barge silence false h = h

module _ {D : Type 0} (detector : Detector D) (g : Gate D) (ws : ℕ) where
  open detector use {frames_required, is_voiced}

  -- The window that is taken off the buffer.
  abbrev pub taken : AudioSpan
  taken = record {
    pcm = take (frames_required * g.bytes_per_frame) g.window;
    start_sample = ws;
    end_sample = ws + frames_required;
    generation_id = g.generation_id;
    sample_rate = g.sample_rate;
    channels = g.channels;
  }

  abbrev pub shifted : Gate D
  shifted = record g {
    window = drop (frames_required * g.bytes_per_frame) g.window;
    window_start = some (ws + frames_required);
  }

module _ {D : Type 0} (detector : Detector D) (g : Gate D) (ws barge : ℕ) (c : TurnPolicyConfig)
    (ready : IsReady c barge (detector.frames_required) g) (here : g.window_start ≡ some ws)
    (has_frames : 0 < detector.frames_required)
    (enough : detector.frames_required * g.bytes_per_frame ≤ length g.window) where
  open detector use {frames_required, is_voiced}

  taken-length : length (taken detector g ws).pcm ≡ ((ws + frames_required) - ws) * g.channels * 2
  taken-length =
      let e : (ws + frames_required) - ws ≡ frames_required = omega arith in
      rw e (
        omega (
          arith,
          length-take (frames_required * g.bytes_per_frame) g.window,
          ap (λ (n : ℕ). frames_required * n) ready.frame_bytes,
        ))

  pub gate_rate : 0 < g.sample_rate
  gate_rate = omega (arith, ready.ring.has_rate, ready.ring_rate)

  pub gate_channels : 0 < g.channels
  gate_channels = omega (arith, ready.ring.has_channels, ready.ring_channels)

  pub taken-IsSpan : IsSpan (taken detector g ws)
  taken-IsSpan = record {
    ordered = omega arith;
    has_rate = gate_rate;
    has_channels = gate_channels;
    exact_length = taken-length;
  }

  pub next_window_lem : next_window detector g ≡ (ok (taken detector g ws), shifted detector g ws)
  unfolding next_window
  next_window_lem =
      let span =
        audio_span_ok (taken detector g ws).pcm ws (ws + frames_required) g.generation_id
          g.sample_rate g.channels (omega arith) gate_rate gate_channels taken-length in
      rw (here, span)

  ring_end : is_filled g.pre_roll.spans ≡ true → window_end g.pre_roll ≡ ws
  ring_end f = let e = ready.ring_reaches f in ground arith

  ring_start : is_filled g.pre_roll.spans ≡ true → window_start g.pre_roll ≤ ws
  ring_start f = omega (
    arith,
    ring_end f,
    chain_end-ge (format g.pre_roll) (window_start g.pre_roll) g.pre_roll.spans ready.ring.chain,
  )

  -- The ring takes the window.
  pub append_window_lem :
      (ring : PreRollBuffer) × (append_window detector (taken detector g ws) (shifted detector g ws)
        ≡ (ok tt, record (shifted detector g ws) { pre_roll = ring }))
      × IsAppended g.pre_roll (taken detector g ws) ring
  unfolding append_window
  append_window_lem =
      let accepts =
        ring_accepts g.pre_roll g.generation_id ws ready.ring ready.ring_fenced ring_end in
      let (ring, e, a) =
        append_lem g.pre_roll (taken detector g ws) ready.ring taken-IsSpan (sym ready.ring_rate)
          (sym ready.ring_channels) (omega arith) accepts.0 accepts.1 in
      (ring, rw e, a)

  -- A pending onset, or the start of the window, lies in the ring that took the window.
  pub onset_in_ring :
      {idle silence : ℕ} (ai : Bool) (ring : PreRollBuffer)
      → IsAppended g.pre_roll (taken detector g ws) ring
      → idle ≤ barge
      → OnTime idle barge silence g ai
      → g.policy.turn_active ≡ false
      → let o = onset_or g.policy.voice_onset ws in
        (window_start ring ≤ o) × (o ≤ ws) × (ws ≤ o + threshold idle barge silence ai)
  onset_in_ring {idle} {silence} ai ring a idle_first on_time waiting =
      elim (Option-cases g.policy.voice_onset) [
        | inl n ↦ rw n (
            let b =
              origin_le g.pre_roll.spans (taken detector g ws) ws (λ f. ring_start f)
                (omega arith) in
            (omega (arith, a.starts, b, ready.room), omega arith, omega arith))
        | inr (o, n) ↦ rw n (
            let p = ready.pending o waiting n in
            let reaches : window_end g.pre_roll ≡ ws = ring_end p.0 in
            let late = on_time.unconfirmed o waiting n in
            let small = threshold_le idle barge silence ai idle_first in
            let b = origin_filled g.pre_roll.spans (taken detector g ws) p.0 in
            (omega (arith, a.starts, b, p.1, ready.room), omega arith, omega arith))
      ]
