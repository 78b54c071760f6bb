-- ===== src/Audio/Preroll/Ring.antt =====
-- The ring of audio/preroll.py as one stretch of a PCM stream: what its spans hold, and what a
-- capture reads from them.
pub mod Trim
use lune_voice_companion.Prelude.{
  ℕ, ◌+◌, ◌-◌, ◌*◌, ◌≤◌, ◌<◌, min, max, ◌≡◌, ap, ◌∙◌, inl, inr, List, [], ◌∷◌, ◌++◌, arith, ltb,
  leb, ltb→lt, leb→le, Bool-cases, length, slice, length-append, slice-append, slice_clamp,
  slice_past, slice_none,
}
use lune_voice_companion.Result.{ok}
use lune_voice_companion.Audio.Span.{AudioSpan, audio_span, frame_count, trim_left, slice_span}
use lune_voice_companion.Audio.Span.Laws.{
  IsSpan, cut, slice_span_lem, trim_left_lem, cut-IsSpan, audio_span_ok,
}
use lune_voice_companion.Audio.Preroll.{
  PreRollBuffer, PreRollCapture, collect, first_start, last_end, drop_old, trim_first,
  trim_to_capacity, capture,
}

-- The format and the generation that all spans of a ring share.
pub record Format : Type 0 where
  pub generation : ℕ
  pub rate : ℕ
  pub count : ℕ

pub record IsLink (f : Format) (at : ℕ) (s : AudioSpan) : Type 0 where
  pub span : IsSpan s
  pub starts : s.start_sample ≡ at
  pub not_empty : s.start_sample < s.end_sample
  pub same_generation : s.generation_id ≡ f.generation
  pub same_rate : s.sample_rate ≡ f.rate
  pub same_channels : s.channels ≡ f.count

-- Valid spans without gaps, the first of which starts at `at`.
abbrev pub Chain : Format → ℕ → List AudioSpan → Type 0
Chain f at [] = Unit
Chain f at (s ∷ rest) = IsLink f at s × Chain f s.end_sample rest

abbrev pub chain_end : ℕ → List AudioSpan → ℕ
chain_end at [] = at
chain_end at (s ∷ rest) = chain_end s.end_sample rest

-- The bytes of all spans, in order.
abbrev pub stream : List AudioSpan → List ℕ
stream [] = []
stream (s ∷ rest) = s.pcm ++ stream rest

pub chain_end-ge :
    (f : Format) (at : ℕ) (spans : List AudioSpan) → Chain f at spans → at ≤ chain_end at spans
chain_end-ge f at [] c = omega arith
chain_end-ge f at (s ∷ rest) c =
    omega (arith, c.0.starts, c.0.not_empty, chain_end-ge f s.end_sample rest c.1)

pub scale : (a b k : ℕ) → a ≤ b → a * k ≤ b * k
scale a b k h = grind arith

pub sub_scale : (a b k : ℕ) → a * k - b * k ≡ (a - b) * k
sub_scale a b k = elim (Bool-cases (leb b a)) [
  | inl h ↦
      let d : a ≡ (a - b) + b = ground arith in
      let e : a * k ≡ ((a - b) + b) * k = ap (λ (t : ℕ). t * k) d in omega (arith, e)
  | inr h ↦ let d : a - b ≡ 0 = ground arith in rw d (omega (arith, scale a b k (ground arith)))
]

-- The bytes `xs` of one span from `start` to `stop`, with `k` bytes to a frame.
module _ (xs : List ℕ) (start stop from until k : ℕ) (len : length xs ≡ (stop - start) * k)
    (ordered : start < stop) (h : from ≤ until) where
  -- Where the span overlaps the capture, the overlap is the cut at the capture's own offsets.
  overlap :
      max from start < min until stop
      → slice xs ((max from start - start) * k) ((min until stop - start) * k)
        ≡ slice xs ((from - start) * k) ((until - start) * k)
  overlap m =
      let e : max from start - start ≡ from - start = omega arith in
      rw e (elim (Bool-cases (leb until stop)) [
        | inl b ↦ let e' : min until stop ≡ until = omega (arith, leb→le until stop b) in rw e'
        | inr b ↦
            let past : stop ≤ until = ground arith in
            let e' : min until stop ≡ stop = omega arith in
            let longer : (stop - start) * k ≤ (until - start) * k = scale _ _ k (omega arith) in
            rw e' (slice_clamp xs _ _ _ (omega arith) (omega arith))
      ])

  -- Elsewhere the cut is empty.
  no_overlap :
      min until stop ≤ max from start → slice xs ((from - start) * k) ((until - start) * k) ≡ []
  no_overlap m = elim (Bool-cases (leb stop from)) [
    | inl b ↦
        let past : stop ≤ from = leb→le stop from b in
        let longer : (stop - start) * k ≤ (from - start) * k = scale _ _ k (omega arith) in
        slice_past xs _ _ (omega arith)
    | inr b ↦
        let before : from < stop = ground arith in
        let shorter : (until - start) * k ≤ (from - start) * k = scale _ _ k (omega arith) in
        slice_none xs _ _ shorter
  ]

  -- What is left for the spans behind this one.
  rest_offsets :
      ((from - start) * k - length xs ≡ (from - stop) * k)
      × ((until - start) * k - length xs ≡ (until - stop) * k)
  rest_offsets = (
    rw (len, sub_scale) (let e : from - start - (stop - start) ≡ from - stop = omega arith in rw e),
    rw (len, sub_scale)
        (let e : until - start - (stop - start) ≡ until - stop = omega arith in rw e),
  )

pub collect_lem :
    (f : Format) (at from until : ℕ) (spans : List AudioSpan)
    → Chain f at spans
    → from ≤ until
    → collect from until spans
      ≡ ok (slice (stream spans) ((from - at) * (f.count * 2)) ((until - at) * (f.count * 2)))
unfolding collect
collect_lem f at from until [] c h = rw (
    slice_past {A = ℕ} [] ((from - at) * (f.count * 2)) ((until - at) * (f.count * 2))
      (omega arith))
collect_lem f at from until (s ∷ rest) c h =
    let k = f.count * 2 in
    let l = c.0 in
    let ih = collect_lem f s.end_sample from until rest c.1 h in
    let len : length s.pcm ≡ (s.end_sample - s.start_sample) * k =
      rw (← l.same_channels) (omega (arith, l.span.exact_length)) in
    let tail = rest_offsets s.pcm s.start_sample s.end_sample from until k len l.not_empty h in
    let joined =
      slice-append s.pcm (stream rest) ((from - s.start_sample) * k) ((until - s.start_sample) * k)
        (scale _ _ k (omega arith)) in
    rw (← l.starts, joined, tail.0, tail.1, ih)
      (elim (Bool-cases (ltb (max from s.start_sample) (min until s.end_sample))) [
        | inl b ↦
            let m : max from s.start_sample < min until s.end_sample = ltb→lt _ _ b in
            let sliced =
              slice_span_lem s (max from s.start_sample) (min until s.end_sample) l.span
                (omega arith) (omega arith) (omega arith) in
            let bytes =
              overlap s.pcm s.start_sample s.end_sample from until k len l.not_empty h m in
            rw (b, sliced)
              (ap
                (λ (p : List ℕ). ok (
                  p
                  ++ slice (stream rest) ((from - s.end_sample) * k) ((until - s.end_sample) * k)))
                (ap
                    (λ (c : ℕ).
                      slice s.pcm ((max from s.start_sample - s.start_sample) * (c * 2))
                        ((min until s.end_sample - s.start_sample) * (c * 2)))
                    l.same_channels
                  ∙ bytes))
        | inr b ↦ rw (
          b,
          no_overlap s.pcm s.start_sample s.end_sample from until k len l.not_empty h
              (ground arith),
        )
      ])

-- The window holds a sample of each channel, two bytes wide, for every offset.
pub length-stream :
    (f : Format) (at : ℕ) (spans : List AudioSpan)
    → Chain f at spans
    → length (stream spans) ≡ (chain_end at spans - at) * (f.count * 2)
length-stream f at [] c = let e : at - at ≡ 0 = omega arith in rw e (omega arith)
length-stream f at (s ∷ rest) c =
    let k = f.count * 2 in
    let l = c.0 in
    let len : length s.pcm ≡ (s.end_sample - s.start_sample) * k =
      rw (← l.same_channels) (omega (arith, l.span.exact_length)) in
    let parts : chain_end s.end_sample rest - at
        ≡ (s.end_sample - s.start_sample) + (chain_end s.end_sample rest - s.end_sample) =
      omega (arith, chain_end-ge f s.end_sample rest c.1, l.starts, l.not_empty) in
    rw (length-append, len, length-stream f s.end_sample rest c.1, parts) (grind arith)
