-- ===== src/Audio/Span.antt =====
-- audio/types.py: PCM spans addressed by absolute sample offsets. Bytes are numbers.
pub mod Laws
use lune_voice_companion.Prelude.{
  ℕ, ◌+◌, ◌-◌, ◌*◌, ◌/◌, ◌%◌, ◌≡◌, Bool, ◌&&◌, List, drop, slice, length, ℤ, pos, negsuc, ltb, leb,
  ◌==◌, ◌≤◌, ◌<◌,
}
use lune_voice_companion.Result.{
  Result, ok, err, guard, natural, positive, ◌>>=◌, ◌>>◌, bad_milliseconds, inexact_threshold,
  invalid_sample_range, negative_generation, invalid_pcm_format, pcm_length_mismatch,
  trim_outside_span, slice_outside_span,
}

abbrev pub bytes_per_sample : ℕ
bytes_per_sample = 2

unfoldable pub milliseconds_to_samples : ℤ → ℤ → Result ℕ
milliseconds_to_samples milliseconds sample_rate = do
  ms ← natural milliseconds bad_milliseconds
  rate ← positive sample_rate bad_milliseconds
  let numerator = ms * rate
  guard (numerator % 1000 == 0) inexact_threshold
  ok (numerator / 1000)

pub record AudioSpan : Type 0 where
  pub pcm : List ℕ
  pub start_sample : ℕ
  pub end_sample : ℕ
  pub generation_id : ℕ
  pub sample_rate : ℕ
  pub channels : ℕ

unfoldable pub frame_count : AudioSpan → ℕ
frame_count s = s.end_sample - s.start_sample

unfoldable pub bytes_per_frame : AudioSpan → ℕ
bytes_per_frame s = s.channels * bytes_per_sample

-- The constructor with the checks of `__post_init__`, in their order. A negative end is below
-- every start that passed its own check.
unfoldable pub audio_span : List ℕ → ℤ → ℤ → ℤ → ℤ → ℤ → Result AudioSpan
audio_span pcm start_sample end_sample generation_id sample_rate channels = do
  start ← natural start_sample invalid_sample_range
  stop ← natural end_sample invalid_sample_range
  guard (leb start stop) invalid_sample_range
  generation ← natural generation_id negative_generation
  rate ← positive sample_rate invalid_pcm_format
  count ← positive channels invalid_pcm_format
  guard (length pcm == (stop - start) * count * bytes_per_sample) pcm_length_mismatch
  ok (record {
    pcm = pcm;
    start_sample = start;
    end_sample = stop;
    generation_id = generation;
    sample_rate = rate;
    channels = count;
  })

unfoldable pub trim_left : AudioSpan → ℕ → Result AudioSpan
unfolding bytes_per_frame
trim_left s start_sample = do
  guard (leb s.start_sample start_sample && leb start_sample s.end_sample) trim_outside_span
  let byte_offset = (start_sample - s.start_sample) * bytes_per_frame s
  audio_span (drop byte_offset s.pcm) (pos start_sample) (pos s.end_sample) (pos s.generation_id)
      (pos s.sample_rate) (pos s.channels)

unfoldable pub slice_span : AudioSpan → ℕ → ℕ → Result AudioSpan
unfolding bytes_per_frame
slice_span s start_sample end_sample = do
  guard
      (leb s.start_sample start_sample
        && (leb start_sample end_sample && leb end_sample s.end_sample))
      slice_outside_span
  let start_byte = (start_sample - s.start_sample) * bytes_per_frame s
  let end_byte = (end_sample - s.start_sample) * bytes_per_frame s
  audio_span (slice s.pcm start_byte end_byte) (pos start_sample) (pos end_sample)
      (pos s.generation_id) (pos s.sample_rate) (pos s.channels)
