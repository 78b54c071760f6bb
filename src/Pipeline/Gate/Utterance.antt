-- ===== src/Pipeline/Gate/Utterance.antt =====
-- The utterance of pipeline/turn_gate.py: how it grows and how it is captured.
use lune_voice_companion.Prelude.{
  ℕ, ◌+◌, ◌-◌, ◌*◌, ◌≤◌, ◌<◌, min, max, ◌≡◌, ap, ◌∙◌, ◌⊎◌, inl, inr, Bool, true, false, none, some,
  List, [], ◌∷◌, ◌++◌, arith, ltb, leb, if◌then◌else◌, leb→le, Bool-cases, length, take,
  length-append, length-take, pos,
}
use lune_voice_companion.Result.{ok}
use lune_voice_companion.Audio.Span.{AudioSpan, audio_span}
use lune_voice_companion.Audio.Span.Laws.{IsSpan, cut, cut-IsSpan, slice_span_lem, audio_span_ok}
use lune_voice_companion.Audio.Vad
use lune_voice_companion.Audio.Vad.{end_silence_samples}
use lune_voice_companion.Audio.Preroll.Ring.{scale}
use lune_voice_companion.Pipeline.Contracts.{captured, UtteranceCaptured, utterance_captured}
use lune_voice_companion.Pipeline.Gate.{
  Gate, extend_utterance, build_capture, grow, grow_from, enforce_from, enforce_bound,
}

-- What the gate holds of an utterance that starts at `u`: a sample for every offset up to its end.
pub record Holds {D : Type 0} (g : Gate D) (u : ℕ) : Type 0 where
  pub starts : g.utterance_start ≡ some u
  pub not_empty : u < g.utterance_end
  pub bytes : length g.utterance ≡ (g.utterance_end - u) * (g.channels * 2)

module _ {D : Type 0} (g : Gate D) (w : AudioSpan) (until u : ℕ) (h : Holds g u) (v : IsSpan w)
    (same_channels : w.channels ≡ g.channels) (inside : until ≤ w.end_sample)
    (before : w.start_sample ≤ g.utterance_end) where
  abbrev grown : List ℕ → Gate D
  grown bytes = record g { utterance = bytes; utterance_end = max g.utterance_end until }

  -- A window that leaves no gap behind the utterance extends it, and it still has every sample.
  pub extend_lem :
      (bytes : List ℕ) × (extend_utterance w until g ≡ (ok tt, grown bytes)) × Holds (grown bytes) u
  unfolding extend_utterance
  extend_lem =
      let from : max g.utterance_end w.start_sample ≡ g.utterance_end = omega arith in
      let start = h.starts in
      let some_bytes = h.not_empty in
      elim (Bool-cases (leb until (max g.utterance_end w.start_sample))) [
        | inl b ↦
            let same : max g.utterance_end until ≡ g.utterance_end = omega (arith, leb→le _ _ b) in
            (
              g.utterance,
              rw (b, same),
              record { starts = start; not_empty = omega arith; bytes = rw same h.bytes },
            )
        | inr b ↦
            let more : g.utterance_end < until = ground arith in
            let longer : max g.utterance_end until ≡ until = omega arith in
            let e = slice_span_lem w g.utterance_end until v before (omega arith) inside in
            let piece = cut w g.utterance_end until in
            let size = cut-IsSpan w g.utterance_end until v before (omega arith) inside in
            let parts : until - u ≡ (g.utterance_end - u) + (until - g.utterance_end) =
              omega arith in
            (
              g.utterance ++ piece.pcm,
              rw (b, from, e, longer),
              record {
                starts = start;
                not_empty = omega arith;
                bytes =
                    rw (length-append, longer, h.bytes, size.exact_length, same_channels, parts)
                      (grind arith);
              },
            )
      ]

module _ {D : Type 0} (g : Gate D) (u silence : ℕ) (h : Holds g u) (has_rate : 0 < g.sample_rate)
    (has_channels : 0 < g.channels) (frame : g.bytes_per_frame ≡ g.channels * 2)
    (bound : 0 < g.max_utterance_samples)
    (timed : end_silence_samples g.policy.config ≡ ok silence) where
  abbrev stop : ℕ
  stop = min g.utterance_end (u + g.max_utterance_samples)

  abbrev audio : AudioSpan
  audio = record {
    pcm = take ((stop - u) * g.bytes_per_frame) g.utterance;
    start_sample = u;
    end_sample = stop;
    generation_id = g.generation_id;
    sample_rate = g.sample_rate;
    channels = g.channels;
  }

  abbrev pub utterance_of : Bool → UtteranceCaptured
  utterance_of max_length = record {
    generation_id = g.generation_id;
    audio = audio;
    last_voiced_sample = max u (stop - (if max_length then 0 else silence));
    pre_roll_truncated = g.pre_roll_truncated;
    max_length_reached = max_length;
  }

  audio_lem :
      audio_span audio.pcm
        (pos u)
        (pos stop)
        (pos g.generation_id)
        (pos g.sample_rate)
        (pos g.channels)
      ≡ ok audio
  audio_lem =
      let some_bytes = h.not_empty in
      let l = scale (stop - u) (g.utterance_end - u) (g.channels * 2) (omega arith) in
      let size : length audio.pcm ≡ (stop - u) * g.channels * 2 =
        rw frame
          (omega (arith, length-take ((stop - u) * (g.channels * 2)) g.utterance, h.bytes)) in
      audio_span_ok audio.pcm u stop g.generation_id g.sample_rate g.channels (omega arith) has_rate
        has_channels size

  -- An utterance that has every sample is captured without a raise.
  pub build_lem :
      (max_length : Bool) → build_capture max_length g ≡ (ok (utterance_of max_length), g)
  unfolding build_capture utterance_captured
  build_lem true = let some_bytes = h.not_empty in rw (h.starts, audio_lem) (ground arith)
  build_lem false = let some_bytes = h.not_empty in rw (h.starts, audio_lem, timed) (ground arith)

-- What the gate is once an utterance was cut at its bound.
abbrev pub after_bound : {D : Type 0} → Gate D → Gate D
after_bound h = record h {
  utterance = [];
  utterance_start = none;
  utterance_end = 0;
  pre_roll_truncated = false;
  policy = Vad.reset h.policy;
}

abbrev pub grown_to : {D : Type 0} → Gate D → List ℕ → ℕ → Gate D
grown_to h bytes we = record h { utterance = bytes; utterance_end = we }

-- The end of a round, for an utterance that is open: it reaches to the end of the window, and is
-- captured there if it has met its bound.
pub grow_lem :
    {D : Type 0} (h : Gate D) (w : AudioSpan) (u silence : ℕ)
    → Holds h u
    → IsSpan w
    → w.channels ≡ h.channels
    → w.start_sample ≤ h.utterance_end
    → h.utterance_end ≤ w.end_sample
    → 0 < h.sample_rate
    → 0 < h.channels
    → h.bytes_per_frame ≡ h.channels * 2
    → 0 < h.max_utterance_samples
    → end_silence_samples h.policy.config ≡ ok silence
    → (bytes : List ℕ) × Holds (grown_to h bytes w.end_sample) u
      × ((grow w w.end_sample h ≡ (ok [], grown_to h bytes w.end_sample))
          ⊎ ((e : UtteranceCaptured) × (grow w w.end_sample h
                ≡ (ok (captured e ∷ []), after_bound (grown_to h bytes w.end_sample)))))
unfolding grow enforce_bound
grow_lem h w u silence holds v same inside below rate count frame bound timed =
    let (bytes, e, k) = extend_lem h w w.end_sample u holds v same (omega arith) inside in
    let we : max h.utterance_end w.end_sample ≡ w.end_sample = omega arith in
    let e' : extend_utterance w w.end_sample h ≡ (ok tt, grown_to h bytes w.end_sample) =
      rw we at e in
    let k' : Holds (grown_to h bytes w.end_sample) u = rw we at k in
    let b =
      build_lem (grown_to h bytes w.end_sample) u silence k' rate count frame bound timed true in
    let started : grow w w.end_sample h ≡ grow_from (some u) w w.end_sample h =
      ap (λ o. grow_from o w w.end_sample h) holds.starts in
    let bounded : enforce_bound (grown_to h bytes w.end_sample)
        ≡ enforce_from (some u) (grown_to h bytes w.end_sample) =
      ap (λ o. enforce_from o (grown_to h bytes w.end_sample)) k'.starts in
    (
      bytes,
      k',
      elim (Bool-cases (ltb (w.end_sample - u) h.max_utterance_samples)) [
        | inl t ↦ inl (started ∙ rw e' (bounded ∙ rw t))
        | inr t ↦ inr (
          utterance_of (grown_to h bytes w.end_sample) u silence k' rate count frame bound timed
              true,
          started ∙ rw e' (bounded ∙ rw (t, b)),
        )
      ],
    )
