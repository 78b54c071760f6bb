-- ===== src/Audio/Preroll.antt =====
-- audio/preroll.py: the bounded ring of PCM spans from which the onset of speech is recovered.
pub mod Ring
pub mod Window
pub mod Append
use lune_voice_companion.Prelude.{
  ℕ, ◌+◌, ◌-◌, min, max, Bool, false, not, ◌&&◌, Option, none, some, List, [], ◌∷◌, ◌++◌, ltb, leb,
  ◌==◌, if◌then◌else◌, ℤ, pos,
}
use lune_voice_companion.Result.{
  Result, ◌>>=◌, ◌>>◌, guard, positive, bad_milliseconds, capacity_too_small, format_changed,
  spans_not_contiguous, preroll_empty, capture_outside, ok, err,
}
use lune_voice_companion.Audio.Span.{
  AudioSpan, audio_span, frame_count, trim_left, slice_span, milliseconds_to_samples,
}

pub record PreRollCapture : Type 0 where
  pub audio : AudioSpan
  pub requested_start_sample : ℕ
  pub pre_roll_truncated : Bool

pub record PreRollBuffer : Type 0 where
  pub sample_rate : ℕ
  pub channels : ℕ
  pub pre_roll_samples : ℕ
  pub capacity_samples : ℕ
  pub spans : List AudioSpan
  pub generation_id : Option ℕ

-- The constructor. The number of channels is that of the spans, so it is not negative.
unfoldable pub new_buffer : ℤ → ℕ → ℤ → ℤ → ℤ → Result PreRollBuffer
new_buffer sample_rate channels capacity_ms required_pre_roll_ms max_confirmation_ms = do
  rate ← positive sample_rate bad_milliseconds
  pre_roll ← milliseconds_to_samples required_pre_roll_ms sample_rate
  capacity ← milliseconds_to_samples capacity_ms sample_rate
  window ← milliseconds_to_samples max_confirmation_ms sample_rate
  guard (leb (pre_roll + window) capacity) capacity_too_small
  ok (record {
    sample_rate = rate;
    channels = channels;
    pre_roll_samples = pre_roll;
    capacity_samples = capacity;
    spans = [];
    generation_id = none;
  })

-- `self._spans[0].start_sample if self._spans else None`
abbrev pub first_start : List AudioSpan → Option ℕ
first_start [] = none
first_start (s ∷ _) = some s.start_sample

-- `self._spans[-1].end_sample if self._spans else None`
abbrev pub last_end : List AudioSpan → Option ℕ
last_end [] = none
last_end (s ∷ rest) = elim (last_end rest) [ none ↦ some s.end_sample | some e ↦ some e ]

unfoldable pub clear : PreRollBuffer → PreRollBuffer
clear b = record b { spans = []; generation_id = none }

-- `while self._spans and self._spans[0].end_sample <= keep_from: self._spans.popleft()`
unfoldable pub drop_old : ℕ → List AudioSpan → List AudioSpan
drop_old keep_from [] = []
drop_old keep_from (s ∷ rest) =
    let kept = drop_old keep_from rest in if leb s.end_sample keep_from then kept else s ∷ rest

-- The trim of the first span that is left.
unfoldable pub trim_first : ℕ → List AudioSpan → Result (List AudioSpan)
trim_first keep_from [] = ok []
trim_first keep_from (s ∷ rest) =
    if ltb s.start_sample keep_from
    then (do trimmed ← trim_left s keep_from; ok (trimmed ∷ rest))
    else ok (s ∷ rest)

-- `max(0, a - b)` is the truncated difference.
unfoldable pub trim_to_capacity : ℕ → List AudioSpan → Result (List AudioSpan)
unfolding drop_old trim_first
trim_to_capacity capacity spans = elim (last_end spans) [
  | none ↦ ok spans
  | some stop ↦ let keep_from = stop - capacity in trim_first keep_from (drop_old keep_from spans)
]

-- `self._generation_id is not None and span.generation_id != self._generation_id`
abbrev pub is_other : Option ℕ → ℕ → Bool
is_other none generation = false
is_other (some g) generation = not (generation == g)

-- `self._spans and span.start_sample != self._spans[-1].end_sample`
abbrev pub leaves_gap : Option ℕ → ℕ → Bool
leaves_gap none start = false
leaves_gap (some e) start = not (start == e)

push : PreRollBuffer → AudioSpan → Result PreRollBuffer
unfolding trim_to_capacity
push b span = do
  guard (not (leaves_gap (last_end b.spans) span.start_sample)) spans_not_contiguous
  kept ← trim_to_capacity b.capacity_samples (b.spans ++ span ∷ [])
  ok (record b { spans = kept; generation_id = some span.generation_id })

-- `append`. Its two checks raise before anything is written: a buffer that was cleared has no
-- span left that the new one could miss.
unfoldable pub append : PreRollBuffer → AudioSpan → Result PreRollBuffer
unfolding push clear frame_count
append b span = do
  guard (span.sample_rate == b.sample_rate && span.channels == b.channels) format_changed
  if frame_count span == 0
      then ok b
      else push (if is_other b.generation_id span.generation_id then clear b else b) span

-- The loop of `capture`: the bytes of each span between the two offsets, joined.
unfoldable pub collect : ℕ → ℕ → List AudioSpan → Result (List ℕ)
collect from until [] = ok []
collect from until (s ∷ rest) =
    let later = collect from until rest in
    let overlap_start = max from s.start_sample in
    let overlap_end = min until s.end_sample in
    if ltb overlap_start overlap_end
    then (do
      piece ← slice_span s overlap_start overlap_end
      pieces ← later
      ok (piece.pcm ++ pieces))
    else later

capture_from : PreRollBuffer → ℕ → ℕ → ℕ → ℕ → ℕ → Result PreRollCapture
unfolding collect
capture_from b generation available_start available_end voice_onset confirmation = do
  guard
      (leb available_start voice_onset
        && (leb voice_onset confirmation && leb confirmation available_end))
      capture_outside
  let requested_start = voice_onset - b.pre_roll_samples
  let actual_start = max requested_start available_start
  pcm ← collect actual_start confirmation b.spans
  audio ←
      audio_span pcm (pos actual_start) (pos confirmation) (pos generation) (pos b.sample_rate)
        (pos b.channels)
  ok (record {
    audio = audio;
    requested_start_sample = requested_start;
    pre_roll_truncated = ltb (voice_onset - actual_start) b.pre_roll_samples;
  })

capture_at : PreRollBuffer → Option ℕ → Option ℕ → Option ℕ → ℕ → ℕ → Result PreRollCapture
unfolding capture_from
capture_at b (some g) (some a) (some e) onset confirmation = capture_from b g a e onset confirmation
capture_at b _ _ _ onset confirmation = err preroll_empty

unfoldable pub capture : PreRollBuffer → ℕ → ℕ → Result PreRollCapture
unfolding capture_at
capture b voice_onset confirmation =
    capture_at b b.generation_id (first_start b.spans) (last_end b.spans) voice_onset confirmation
