-- ===== src/Audio/Tests.antt =====
-- The theorems on src/lune/audio at concrete inputs, at a rate of one sample for a millisecond.
use lune_voice_companion.Prelude.{
  ℕ, ◌*◌, ◌%◌, ◌≡◌, refl, ◌≢◌, ◌↔◌, ◌⊎◌, Bool, true, false, none, some, List, [], ◌∷◌, ◌++◌, arith,
  length, pos,
}
use lune_voice_companion.Result.{ok}
use lune_voice_companion.Audio.Span.{AudioSpan, slice_span, milliseconds_to_samples}
use lune_voice_companion.Audio.Span.Laws.{IsSpan, slice_span-join, milliseconds_to_samples_exact}
use lune_voice_companion.Audio.Vad.{TurnPolicyConfig, new_policy}
use lune_voice_companion.Audio.Vad.Policy.{Window, IsTimed}
use lune_voice_companion.Audio.Vad.Policy.Runs.{
  run, expected_run, Contiguous, Alternates, run-eq-expected_run, run-Alternates,
}
use lune_voice_companion.Audio.Preroll.{PreRollBuffer, append, capture}
use lune_voice_companion.Audio.Preroll.Window.{IsRing, captured, capture_lem}
use lune_voice_companion.Audio.Preroll.Append.{IsAppended, append_lem}
use lune_voice_companion.Audio.Transport.{Transport, audio_callback}
use lune_voice_companion.Audio.Transport.Order.{audio_callback_cursor, queue-audio_callback}
use lune_voice_companion.Audio.Devices.{
  DeviceSnapshot, Machine, Effect, new_machine, apply_default_devices, is_unsafe, listening,
  cancel_generation, rebuild_streams,
}
use lune_voice_companion.Audio.Devices.Safety.{
  Transitions, microphone, devices, steps, listening_iff, apply_default_devices_effects,
}

abbrev small_config : TurnPolicyConfig
small_config = record {
  sample_rate = pos 1000;
  idle_start_ms = pos 2;
  barge_in_ms = pos 4;
  end_silence_ms = pos 3;
}

small_config-IsTimed : IsTimed small_config 2 4 3
unfolding milliseconds_to_samples
small_config-IsTimed = record { idle_exact = refl; barge_exact = refl; silence_exact = refl }

-- A turn of three voiced samples, and the silence that ends it.
abbrev one_turn : List Window
one_turn =
    record { start = 0; stop = 1; voiced = true; ai_playing = false }
    ∷ record { start = 1; stop = 3; voiced = true; ai_playing = false }
    ∷ record { start = 3; stop = 6; voiced = false; ai_playing = false }
    ∷ []

one_turn-Contiguous : Contiguous none one_turn
one_turn-Contiguous = ((omega arith), refl, ((omega arith), refl, ((omega arith), refl, tt)))

run-eq-expected_run_example :
    run (new_policy small_config) one_turn ≡ ok (expected_run 2 4 3 false [] one_turn)
run-eq-expected_run_example =
    run-eq-expected_run small_config 2 4 3 one_turn small_config-IsTimed one_turn-Contiguous

run-Alternates_example : Alternates false (expected_run 2 4 3 false [] one_turn)
run-Alternates_example =
    run-Alternates small_config 2 4 3 one_turn small_config-IsTimed one_turn-Contiguous
      (run-eq-expected_run small_config 2 4 3 one_turn small_config-IsTimed one_turn-Contiguous)

abbrev four_samples : AudioSpan
four_samples = record {
  pcm = 1 ∷ 2 ∷ 3 ∷ 4 ∷ 5 ∷ 6 ∷ 7 ∷ 8 ∷ [];
  start_sample = 10;
  end_sample = 14;
  generation_id = 1;
  sample_rate = 1000;
  channels = 1;
}

four_samples-IsSpan : IsSpan four_samples
four_samples-IsSpan = record {
  ordered = omega arith;
  has_rate = omega arith;
  has_channels = omega arith;
  exact_length = refl;
}

slice_span-join_example :
    (l r : AudioSpan) × (slice_span four_samples 10 12 ≡ ok l)
    × (slice_span four_samples 12 14 ≡ ok r)
    × (l.pcm ++ r.pcm ≡ four_samples.pcm)
slice_span-join_example =
    slice_span-join four_samples 12 four_samples-IsSpan (omega arith) (omega arith)

milliseconds_to_samples_exact_example :
    (milliseconds_to_samples (pos 100) (pos 16000) ≡ ok 1600) ↔ (1600 * 1000 ≡ 100 * 16000)
milliseconds_to_samples_exact_example = milliseconds_to_samples_exact 100 16000 1600 (omega arith)

-- A ring of six samples that holds four.
abbrev ring : PreRollBuffer
ring = record {
  sample_rate = 1000;
  channels = 1;
  pre_roll_samples = 2;
  capacity_samples = 6;
  spans = four_samples ∷ [];
  generation_id = some 1;
}

ring-IsRing : IsRing ring
ring-IsRing = record {
  chain = (
    record {
      span = four_samples-IsSpan;
      starts = refl;
      not_empty = omega arith;
      same_generation = refl;
      same_rate = refl;
      same_channels = refl;
    },
    tt,
  );
  owned = refl;
  has_room = omega arith;
  has_rate = omega arith;
  has_channels = omega arith;
  bounded = omega arith;
}

capture_lem_example : capture ring 13 14 ≡ ok (captured ring 13 14)
capture_lem_example =
    capture_lem ring 13 14 ring-IsRing refl (omega arith) (omega arith) (omega arith)

-- What comes next, and what comes after a fence.
abbrev next_samples : AudioSpan
next_samples = record four_samples { start_sample = 14; end_sample = 18 }

next_samples-IsSpan : IsSpan next_samples
next_samples-IsSpan = record {
  ordered = omega arith;
  has_rate = omega arith;
  has_channels = omega arith;
  exact_length = refl;
}

append_lem_example :
    (after : PreRollBuffer) × (append ring next_samples ≡ ok after)
    × IsAppended ring next_samples after
append_lem_example =
    append_lem ring next_samples ring-IsRing next_samples-IsSpan refl refl (omega arith) refl refl

-- A transport with its microphone on.
abbrev transport : Transport ℕ
transport = record {
  sample_rate = 1000;
  channels = 1;
  max_callbacks = 2;
  queue = four_samples ∷ [];
  microphone_enabled = true;
  sample_cursor = 14;
  generation_id = pos 1;
  overflowed = false;
  dropped_callbacks = 0;
  anchor = none;
}

abbrev two_bytes : List ℕ
two_bytes = 1 ∷ 2 ∷ []

audio_callback_cursor_example :
    let t' = (audio_callback transport two_bytes 5).1 in
    ((length two_bytes ≢ 0) → (length two_bytes % 2 ≡ 0) → t'.sample_cursor ≡ 15)
    × ((length two_bytes ≡ 0) ⊎ (length two_bytes % 2 ≢ 0)
        → (t'.sample_cursor ≡ 14) × (t'.overflowed ≡ true))
    × ((audio_callback transport two_bytes 5).0 ≡ ok false → t'.overflowed ≡ true)
audio_callback_cursor_example = audio_callback_cursor transport two_bytes 5

queue-audio_callback_example :
    (audio_callback transport two_bytes 5).1.queue
    ≡ four_samples
      ∷ record four_samples { pcm = two_bytes; start_sample = 14; end_sample = 15 }
      ∷ []
queue-audio_callback_example =
    queue-audio_callback transport two_bytes 5 1 (omega arith) (omega arith) refl refl (omega arith)
      (λ e. absurd (omega (arith, e))) refl

abbrev speakers : DeviceSnapshot
speakers = record {
  input = record { uid = "in"; name = "Microphone"; is_builtin = true };
  output = record { uid = "out"; name = "Speakers"; is_builtin = true };
}

listening_iff_example :
    let m = steps new_machine (microphone true ∷ devices (λ _. false) speakers ∷ []) in
    (m.state ≡ listening) ↔ ((is_unsafe m.snapshot ≡ false) × (m.microphone_requested ≡ true))
listening_iff_example = listening_iff (microphone true ∷ devices (λ _. false) speakers ∷ [])

-- A machine that knows its devices is given others, and the streams are not rebuilt.
abbrev known_machine : Machine
known_machine = record new_machine { snapshot = some speakers }

abbrev renamed : DeviceSnapshot
renamed = record speakers { input = record speakers.input { name = "renamed" } }

abbrev refuses : Effect → Bool
refuses cancel_generation = false
refuses (rebuild_streams s) = true

apply_default_devices_effects_example :
    Transitions known_machine renamed refuses (apply_default_devices refuses known_machine renamed)
apply_default_devices_effects_example = apply_default_devices_effects known_machine renamed refuses
