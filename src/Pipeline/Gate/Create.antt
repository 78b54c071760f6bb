-- ===== src/Pipeline/Gate/Create.antt =====
-- The constructor of pipeline/turn_gate.py.
use lune_voice_companion.Prelude.{
  ℕ, ◌+◌, ◌≤◌, ◌<◌, ◌≡◌, refl, inl, Bool, false, Option, none, some, [], arith, ltb, ◌==◌, lt→ltb,
  ℤ, pos, negsuc,
}
use lune_voice_companion.Result.{
  Result, guard, ◌>>=◌, ◌>>◌, natural, positive, bad_milliseconds, negative_generation,
  gate_needs_mono, utterance_bound_too_small, ok,
}
use lune_voice_companion.Audio.Span.{milliseconds_to_samples}
use lune_voice_companion.Audio.Vad.{TurnPolicy, TurnPolicyConfig, default_policy_config, new_policy}
use lune_voice_companion.Audio.Preroll.{PreRollBuffer, new_buffer}
use lune_voice_companion.Audio.Preroll.Window.{IsRing}
use lune_voice_companion.Pipeline.Gate.{Gate}
use lune_voice_companion.Pipeline.Gate.Ready.{IsReady, OnTime}

abbrev policy_or : Option TurnPolicy → TurnPolicy
policy_or none = new_policy default_policy_config
policy_or (some p) = p

-- The ring's own defaults are 700, 350 and 300 ms.
abbrev ring_or : Option PreRollBuffer → ℤ → ℕ → Result PreRollBuffer
ring_or none sample_rate channels = new_buffer sample_rate channels (pos 700) (pos 350) (pos 300)
ring_or (some b) sample_rate channels = ok b

abbrev is_mono : ℤ → Bool
is_mono (pos n) = n == 1
is_mono (negsuc n) = false

module _ {D : Type 0} where
  unfoldable pub new_gate :
      D → Option TurnPolicy → Option PreRollBuffer → ℤ → ℤ → ℤ → ℤ → Result (Gate D)
  new_gate detector policy pre_roll generation_id sample_rate channels max_utterance_ms = do
    generation ← natural generation_id negative_generation
    guard (is_mono channels) gate_needs_mono
    ring ← ring_or pre_roll sample_rate 1
    bound ← milliseconds_to_samples max_utterance_ms sample_rate
    rate ← positive sample_rate bad_milliseconds
    guard (ltb ring.pre_roll_samples bound) utterance_bound_too_small
    ok (record {
      detector = detector;
      policy = policy_or policy;
      pre_roll = ring;
      sample_rate = rate;
      channels = 1;
      bytes_per_frame = 2;
      max_utterance_samples = bound;
      generation_id = generation;
      carried_generation = none;
      window = [];
      window_start = none;
      utterance = [];
      utterance_start = none;
      utterance_end = 0;
      pre_roll_truncated = false;
      discontinuities = 0;
    })

  -- A gate that was given an unused policy and a ring of its own format that is empty and large enough for a
  -- barge-in and a window, is ready from the start, and no onset is pending.
  pub new_gate-IsReady :
      (detector : D) (c : TurnPolicyConfig) (b : PreRollBuffer)
      (generation rate bound ms barge frames : ℕ)
      → IsRing b
      → b.spans ≡ []
      → b.sample_rate ≡ rate
      → b.channels ≡ 1
      → barge + frames ≤ b.capacity_samples
      → b.pre_roll_samples < bound
      → milliseconds_to_samples (pos ms) (pos rate) ≡ ok bound
      → (g : Gate D) × (new_gate detector
            (some (new_policy c))
            (some b)
            (pos generation)
            (pos rate)
            (pos 1)
            (pos ms)
          ≡ ok g)
        × IsReady c barge frames g
        × ((idle silence : ℕ) (ai : Bool) → OnTime idle barge silence g ai)
  unfolding new_gate new_policy
  new_gate-IsReady detector c b generation rate bound ms barge frames v e r k room l m = (
    record {
      detector = detector;
      policy = new_policy c;
      pre_roll = b;
      sample_rate = rate;
      channels = 1;
      bytes_per_frame = 2;
      max_utterance_samples = bound;
      generation_id = generation;
      carried_generation = none;
      window = [];
      window_start = none;
      utterance = [];
      utterance_start = none;
      utterance_end = 0;
      pre_roll_truncated = false;
      discontinuities = 0;
    },
    rw (m, lt→ltb _ _ l, lt→ltb 0 rate (omega (arith, r, v.has_rate))) refl,
    record {
      ring = v;
      same_config = refl;
      ring_rate = r;
      ring_channels = k;
      frame_bytes = refl;
      room = room;
      bound = omega (arith, l);
      located = λ x. absurd (omega (arith, x));
      in_step = inl refl;
      ring_reaches = λ f. cc (e, f);
      ring_fenced = λ f. cc (e, f);
      pending = λ o a x. cc x;
      utterance_open = refl;
      utterance_whole = λ u x. cc x;
    },
    λ idle silence ai. record { unconfirmed = λ o a x. cc x },
  )
