-- ===== src/Pipeline/Gate/Ready.antt =====
-- The invariant of pipeline/turn_gate.py between two windows.
use lune_voice_companion.Prelude.{
  ℕ, ◌+◌, ◌*◌, ◌≤◌, ◌<◌, ◌≡◌, refl, ◌⊎◌, inl, inr, Bool, true, false, Option, none, some, List, [],
  ◌∷◌, arith, Bool-cases, length,
}
use lune_voice_companion.Audio.Span.{AudioSpan}
use lune_voice_companion.Audio.Vad.{TurnPolicyConfig, is_gap}
use lune_voice_companion.Audio.Vad.Policy.{IsTimed}
use lune_voice_companion.Audio.Vad.Policy.Outcome.{threshold}
use lune_voice_companion.Audio.Preroll.{PreRollBuffer, last_end, is_other, leaves_gap}
use lune_voice_companion.Audio.Preroll.Window.{
  IsRing, window_start, window_end, is_filled, is_known, format, last_end-Chain,
}
use lune_voice_companion.Pipeline.Gate.{Gate}
use lune_voice_companion.Pipeline.Gate.Utterance.{Holds}

-- The thresholds and the window of the detector fit the buffers.
pub record IsTuned (c : TurnPolicyConfig) (idle barge silence frames : ℕ) : Type 0 where
  pub timed : IsTimed c idle barge silence
  pub idle_pos : 0 < idle
  pub idle_first : idle ≤ barge
  pub has_frames : 0 < frames

module _ {D : Type 0} (c : TurnPolicyConfig) (barge frames : ℕ) where
  pub record IsReady (g : Gate D) : Type 0 where
    pub ring : IsRing g.pre_roll
    pub same_config : g.policy.config ≡ c
    pub ring_rate : g.pre_roll.sample_rate ≡ g.sample_rate
    pub ring_channels : g.pre_roll.channels ≡ g.channels
    pub frame_bytes : g.bytes_per_frame ≡ g.channels * 2
    pub room : barge + frames ≤ g.pre_roll.capacity_samples
    pub bound : 0 < g.max_utterance_samples
    pub located : 0 < length g.window → is_known g.window_start ≡ true
    pub in_step : (g.policy.next_sample ≡ none) ⊎ (g.policy.next_sample ≡ g.window_start)
    pub ring_reaches :
        is_filled g.pre_roll.spans ≡ true → g.window_start ≡ some (window_end g.pre_roll)
    pub ring_fenced :
        is_filled g.pre_roll.spans ≡ true → g.pre_roll.generation_id ≡ some g.generation_id
    pub pending :
        (o : ℕ)
        → g.policy.turn_active ≡ false
        → g.policy.voice_onset ≡ some o
        → (is_filled g.pre_roll.spans ≡ true)
          × (window_start g.pre_roll ≤ o)
          × (o ≤ window_end g.pre_roll)
    pub utterance_open : is_known g.utterance_start ≡ g.policy.turn_active
    pub utterance_whole :
        (u : ℕ) → g.utterance_start ≡ some u → Holds g u × (g.window_start ≡ some g.utterance_end)

-- No onset is pending for longer than the threshold that the next window is judged by.
pub record OnTime {D : Type 0} (idle barge silence : ℕ) (g : Gate D) (ai : Bool) : Type 0 where
  pub unconfirmed :
      (o : ℕ)
      → g.policy.turn_active ≡ false
      → g.policy.voice_onset ≡ some o
      → window_end g.pre_roll < o + threshold idle barge silence ai

last_end-none : (spans : List AudioSpan) → is_filled spans ≡ false → last_end spans ≡ none
last_end-none [] h = refl
last_end-none (s ∷ rest) h = cc

-- The ring accepts the window that starts where the gate stands.
pub ring_accepts :
    (b : PreRollBuffer) (generation ws : ℕ)
    → IsRing b
    → (is_filled b.spans ≡ true → b.generation_id ≡ some generation)
    → (is_filled b.spans ≡ true → window_end b ≡ ws)
    → (is_other b.generation_id generation ≡ false) × (leaves_gap (last_end b.spans) ws ≡ false)
ring_accepts b generation ws v fenced reaches = elim (Bool-cases (is_filled b.spans)) [
  | inl f ↦
      let g = fenced f in
      let e = last_end-Chain (format b) (window_start b) b.spans v.chain f in
      (rw g (ground arith), rw (e, reaches f) (ground arith))
  | inr f ↦ (ground (arith, v.owned), rw (last_end-none b.spans f))
]

pub in_step-adjacent :
    (next start : Option ℕ) (ws : ℕ)
    → start ≡ some ws
    → (next ≡ none) ⊎ (next ≡ start)
    → is_gap next ws ≡ false
in_step-adjacent next start ws e h = ground arith
