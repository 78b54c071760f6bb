-- ===== src/Pipeline/Gate/Restarts.antt =====
-- What pipeline/turn_gate.py keeps ready where audio is taken in, and where the gate starts anew.
use lune_voice_companion.Prelude.{
  ℕ, ◌+◌, ◌/◌, ◌<◌, ◌≡◌, refl, sym, ap, ◌∙◌, ◌⊎◌, inl, inr, Bool, true, false, Option, none, some,
  List, [], ◌++◌, arith, ◌==◌, Bool-cases, length,
}
use mathlib.Core.Bool.{false≢true}
use lune_voice_companion.Audio.Span.{AudioSpan}
use lune_voice_companion.Audio.Vad
use lune_voice_companion.Audio.Vad.{TurnPolicyConfig}
use lune_voice_companion.Audio.Preroll
use lune_voice_companion.Audio.Preroll.Window.{is_known, clear-IsRing}
use lune_voice_companion.Pipeline.Gate.{Gate, place, take_in}
use lune_voice_companion.Pipeline.Gate.Ready.{IsReady, OnTime}

module _ {D : Type 0} (c : TurnPolicyConfig) (barge frames : ℕ) where
  -- Only the buffered bytes, the detector's place in the stream and the fence of carried audio differ.
  pub window-IsReady :
      (g : Gate D) (bytes : List ℕ) (start : Option ℕ) (carried : Option ℕ)
      → IsReady c barge frames g
      → (0 < length bytes → is_known start ≡ true)
      → (g.window_start ≡ start) ⊎ (g.window_start ≡ none)
      → IsReady c barge frames
          (record g { window = bytes; window_start = start; carried_generation = carried })
  window-IsReady g bytes start carried r located same = record {
    ring = r.ring;
    same_config = r.same_config;
    ring_rate = r.ring_rate;
    ring_channels = r.ring_channels;
    frame_bytes = r.frame_bytes;
    room = r.room;
    bound = r.bound;
    located = located;
    in_step = ground (arith, r.in_step);
    ring_reaches = λ f. ground (arith, r.ring_reaches f);
    ring_fenced = r.ring_fenced;
    pending = r.pending;
    utterance_open = r.utterance_open;
    utterance_whole = λ u e.
        let w = r.utterance_whole u e in
        (record { starts = e; not_empty = w.0.not_empty; bytes = w.0.bytes }, ground (arith, w.1));
  }

  -- A gate that was restarted at some sample, or at none, is ready.
  pub fresh-IsReady :
      (g : Gate D) (start : Option ℕ) (bytes : List ℕ) (generation : ℕ) (carried : Option ℕ)
      (count : ℕ)
      → IsReady c barge frames g
      → (0 < length bytes → is_known start ≡ true)
      → IsReady c barge frames (record g {
        policy = Vad.reset g.policy;
        pre_roll = Preroll.clear g.pre_roll;
        window = bytes;
        window_start = start;
        generation_id = generation;
        carried_generation = carried;
        utterance = [];
        utterance_start = none;
        utterance_end = 0;
        pre_roll_truncated = false;
        discontinuities = count;
      })
  unfolding Vad.reset Preroll.clear
  fresh-IsReady g start bytes generation carried count r located = record {
    ring = unfold Preroll.clear in clear-IsRing g.pre_roll r.ring;
    same_config = r.same_config;
    ring_rate = r.ring_rate;
    ring_channels = r.ring_channels;
    frame_bytes = r.frame_bytes;
    room = r.room;
    bound = r.bound;
    located = located;
    in_step = inl refl;
    ring_reaches = λ f. cc;
    ring_fenced = λ f. cc;
    pending = λ o a b. cc;
    utterance_open = refl;
    utterance_whole = λ u e. cc;
  }

  -- A gate with an open turn that goes on under another generation, with an empty ring.
  pub carried-IsReady :
      (generation : ℕ) (g : Gate D)
      → IsReady c barge frames g
      → g.policy.turn_active ≡ true
      → IsReady c barge frames (record g {
        carried_generation = some g.generation_id;
        generation_id = generation;
        pre_roll = Preroll.clear g.pre_roll;
      })
  unfolding Preroll.clear
  carried-IsReady generation g r active = record {
    ring = unfold Preroll.clear in clear-IsRing g.pre_roll r.ring;
    same_config = r.same_config;
    ring_rate = r.ring_rate;
    ring_channels = r.ring_channels;
    frame_bytes = r.frame_bytes;
    room = r.room;
    bound = r.bound;
    located = r.located;
    in_step = r.in_step;
    ring_reaches = λ f. cc;
    ring_fenced = λ f. cc;
    pending = λ o a b. absurd (false≢true (sym a ∙ active));
    utterance_open = r.utterance_open;
    utterance_whole = λ u e.
        let w = r.utterance_whole u e in
        (record { starts = e; not_empty = w.0.not_empty; bytes = w.0.bytes }, w.1);
  }

  abbrev with_pcm : Gate D → AudioSpan → Gate D
  with_pcm g s = record g { window = g.window ++ s.pcm }

  place-IsReady :
      (o : Option ℕ) (s : AudioSpan) (g : Gate D)
      → g.window_start ≡ o
      → IsReady c barge frames g
      → IsReady c barge frames (with_pcm (place o s g) s)
  unfolding place
  place-IsReady none s g e r =
      window-IsReady g (g.window ++ s.pcm) (some s.start_sample) g.carried_generation r (λ _. refl)
        (inr e)
  place-IsReady (some w) s g e r =
      elim (Bool-cases (s.start_sample == w + length g.window / g.bytes_per_frame)) [
        | inl same ↦ rw same (
            window-IsReady g (g.window ++ s.pcm) g.window_start g.carried_generation r
              (λ _. ap is_known e) (inl refl))
        | inr gap ↦ rw gap (
            fresh-IsReady g (some s.start_sample) s.pcm g.generation_id g.carried_generation
              (g.discontinuities + 1) r (λ _. refl))
      ]

  place-OnTime :
      (idle silence : ℕ) (o : Option ℕ) (s : AudioSpan) (g : Gate D) (ai : Bool)
      → OnTime idle barge silence g ai
      → OnTime idle barge silence (with_pcm (place o s g) s) ai
  unfolding place Vad.reset Preroll.clear
  place-OnTime idle silence none s g ai h = record { unconfirmed = h.unconfirmed }
  place-OnTime idle silence (some w) s g ai h =
      elim (Bool-cases (s.start_sample == w + length g.window / g.bytes_per_frame)) [
        | inl same ↦ rw same (record { unconfirmed = h.unconfirmed })
        | inr gap ↦ rw gap (record { unconfirmed = λ o a b. cc })
      ]

  pub take_in-IsReady :
      (s : AudioSpan) (g : Gate D) → IsReady c barge frames g → IsReady c barge frames (take_in s g)
  unfolding take_in
  take_in-IsReady s g r = place-IsReady g.window_start s g refl r

  pub take_in-OnTime :
      (idle silence : ℕ) (s : AudioSpan) (g : Gate D) (ai : Bool)
      → OnTime idle barge silence g ai
      → OnTime idle barge silence (take_in s g) ai
  unfolding take_in
  take_in-OnTime idle silence s g ai h = place-OnTime idle silence g.window_start s g ai h
