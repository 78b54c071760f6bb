-- ===== src/Audio/Span/Laws.antt =====
-- What the constructor and the two cuts of audio/types.py guarantee.
use lune_voice_companion.Prelude.{
  ℕ, ◌-◌, ◌*◌, ◌≤◌, ◌<◌, ◌≡◌, sym, ap, ◌∙◌, ◌↔◌, List, ◌++◌, arith, le→leb, length, slice,
  length-slice, slice_all, slice-join, slice_end, ℤ, pos, negsuc,
}
use lune_voice_companion.Result.{ok}
use lune_voice_companion.Audio.Span.{
  AudioSpan, audio_span, trim_left, slice_span, milliseconds_to_samples, bytes_per_frame,
}

-- The invariant that `__post_init__` establishes.
pub record IsSpan (s : AudioSpan) : Type 0 where
  pub ordered : s.start_sample ≤ s.end_sample
  pub has_rate : 0 < s.sample_rate
  pub has_channels : 0 < s.channels
  pub exact_length : length s.pcm ≡ (s.end_sample - s.start_sample) * s.channels * 2

pub audio_span-IsSpan :
    (pcm : List ℕ) (start stop generation rate channels : ℤ) {s : AudioSpan}
    → audio_span pcm start stop generation rate channels ≡ ok s
    → IsSpan s
unfolding audio_span
audio_span-IsSpan pcm (pos a) (pos b) (pos g) (pos r) (pos c) h = ground arith
audio_span-IsSpan pcm (pos a) (pos b) (pos g) (pos r) (negsuc c) h = ground arith
audio_span-IsSpan pcm (pos a) (pos b) (pos g) (negsuc r) _ h = ground arith
audio_span-IsSpan pcm (pos a) (pos b) (negsuc g) _ _ h = ground arith
audio_span-IsSpan pcm (pos a) (negsuc b) _ _ _ h = ground arith
audio_span-IsSpan pcm (negsuc a) _ _ _ _ h = ground arith

pub audio_span_ok :
    (pcm : List ℕ) (a b g r c : ℕ)
    → a ≤ b
    → 0 < r
    → 0 < c
    → length pcm ≡ (b - a) * c * 2
    → audio_span pcm (pos a) (pos b) (pos g) (pos r) (pos c)
      ≡ ok (record {
        pcm = pcm;
        start_sample = a;
        end_sample = b;
        generation_id = g;
        sample_rate = r;
        channels = c;
      })
unfolding audio_span
audio_span_ok pcm a b g r c h k l e = ground arith

-- Multiplied offsets of a cut that lies inside the span.
cut_offsets :
    (a b s e k : ℕ)
    → s ≤ a
    → a ≤ b
    → b ≤ e
    → ((a - s) * k ≤ (b - s) * k)
      × ((b - s) * k ≤ (e - s) * k)
      × ((b - s) * k - (a - s) * k ≡ (b - a) * k)
cut_offsets a b s e k h i j = (grind arith, grind arith, grind arith)

-- The span that a cut at `a` and `b` leaves.
abbrev pub cut : AudioSpan → ℕ → ℕ → AudioSpan
cut s a b = record s {
  pcm =
      slice s.pcm ((a - s.start_sample) * (s.channels * 2))
        ((b - s.start_sample) * (s.channels * 2));
  start_sample = a;
  end_sample = b;
}

module _ (s : AudioSpan) (a b : ℕ) (v : IsSpan s) (h : s.start_sample ≤ a) (i : a ≤ b)
    (j : b ≤ s.end_sample) where
  length-cut : length (cut s a b).pcm ≡ (b - a) * s.channels * 2
  length-cut =
      let o = cut_offsets a b s.start_sample s.end_sample (s.channels * 2) h i j in
      let e =
        length-slice s.pcm ((a - s.start_sample) * (s.channels * 2))
          ((b - s.start_sample) * (s.channels * 2)) o.0 (omega (arith, v.exact_length, o.1)) in
      omega (arith, e, o.2)

  -- A cut inside a span never raises.
  pub slice_span_lem : slice_span s a b ≡ ok (cut s a b)
  unfolding slice_span bytes_per_frame
  slice_span_lem =
      rw (le→leb _ _ h, le→leb _ _ i, le→leb _ _ j)
        (audio_span_ok (cut s a b).pcm a b s.generation_id s.sample_rate s.channels i v.has_rate
          v.has_channels length-cut)

  pub cut-IsSpan : IsSpan (cut s a b)
  cut-IsSpan = record {
    ordered = i;
    has_rate = v.has_rate;
    has_channels = v.has_channels;
    exact_length = length-cut;
  }

-- A span cut at a point inside it: both cuts succeed, and their bytes join to the bytes of the span.
pub slice_span-join :
    (s : AudioSpan) (m : ℕ)
    → IsSpan s
    → s.start_sample ≤ m
    → m ≤ s.end_sample
    → (l r : AudioSpan) × (slice_span s s.start_sample m ≡ ok l)
      × (slice_span s m s.end_sample ≡ ok r)
      × (l.pcm ++ r.pcm ≡ s.pcm)
slice_span-join s m v h i =
    let k = s.channels * 2 in
    let o = cut_offsets m s.end_sample s.start_sample s.end_sample k h i (omega arith) in
    let z : (s.start_sample - s.start_sample) * k ≡ 0 = grind arith in
    (
      cut s s.start_sample m,
      cut s m s.end_sample,
      slice_span_lem s s.start_sample m v (omega arith) h i,
      slice_span_lem s m s.end_sample v h i (omega arith),
      rw z (
          slice-join s.pcm 0 ((m - s.start_sample) * k) ((s.end_sample - s.start_sample) * k)
            (omega arith) o.0
          ∙ slice_all s.pcm ((s.end_sample - s.start_sample) * k) (omega (arith, v.exact_length))),
    )

-- Trimming on the left is the cut from the trim point to the end, and never raises inside the span.
pub trim_left_lem :
    (s : AudioSpan) (m : ℕ)
    → IsSpan s
    → s.start_sample ≤ m
    → m ≤ s.end_sample
    → trim_left s m ≡ ok (cut s m s.end_sample)
unfolding trim_left bytes_per_frame
trim_left_lem s m v h i =
    let k = s.channels * 2 in
    let e =
      slice_end s.pcm ((m - s.start_sample) * k) ((s.end_sample - s.start_sample) * k)
        (omega (arith, v.exact_length)) in
    let c = cut-IsSpan s m s.end_sample v h i (omega arith) in
    rw (le→leb _ _ h, le→leb _ _ i)
      (ap
          (λ (b : List ℕ).
            audio_span b (pos m) (pos s.end_sample) (pos s.generation_id) (pos s.sample_rate)
              (pos s.channels))
          (sym e)
        ∙ audio_span_ok (cut s m s.end_sample).pcm m s.end_sample s.generation_id s.sample_rate
            s.channels i v.has_rate v.has_channels c.exact_length)

-- The threshold is exact: it is accepted precisely when it is a whole number of samples.
pub milliseconds_to_samples_exact :
    (ms rate n : ℕ)
    → 0 < rate
    → (milliseconds_to_samples (pos ms) (pos rate) ≡ ok n) ↔ (n * 1000 ≡ ms * rate)
unfolding milliseconds_to_samples
milliseconds_to_samples_exact ms rate n h = (λ e. ground arith, λ e. ground arith)

pub audio_span_fields :
    (pcm : List ℕ) (a b r c : ℕ) (g : ℤ) {s : AudioSpan}
    → audio_span pcm (pos a) (pos b) g (pos r) (pos c) ≡ ok s
    → (s.start_sample ≡ a) × (s.end_sample ≡ b) × (s.sample_rate ≡ r) × (s.channels ≡ c)
unfolding audio_span
audio_span_fields pcm a b r c (pos g) h = ground arith
audio_span_fields pcm a b r c (negsuc g) h = ground arith
