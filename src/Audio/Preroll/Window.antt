-- ===== src/Audio/Preroll/Window.antt =====
-- The pre-roll buffer of audio/preroll.py as a sliding window over a PCM stream.
use lune_voice_companion.Prelude.{
  ℕ, ◌+◌, ◌-◌, ◌*◌, ◌≤◌, ◌<◌, max, ◌≡◌, refl, sym, ◌∙◌, Bool, true, false, Option, none, some, List,
  [], ◌∷◌, arith, ltb, le→leb, length, slice, length-slice,
}
use lune_voice_companion.Result.{ok}
use lune_voice_companion.Audio.Span.{AudioSpan}
use lune_voice_companion.Audio.Span.Laws.{audio_span_ok}
use lune_voice_companion.Audio.Preroll.{
  capture_at, PreRollBuffer, PreRollCapture, first_start, last_end, clear, capture,
}
use lune_voice_companion.Audio.Preroll.Ring.{
  Format, Chain, chain_end, stream, collect_lem, scale, sub_scale, length-stream,
}

abbrev pub number_or : Option ℕ → ℕ → ℕ
number_or none d = d
number_or (some n) d = n

abbrev pub format : PreRollBuffer → Format
format b = record {
  generation = number_or b.generation_id 0;
  rate = b.sample_rate;
  count = b.channels;
}

abbrev pub window_start : PreRollBuffer → ℕ
window_start b = number_or (first_start b.spans) 0

abbrev pub window_end : PreRollBuffer → ℕ
window_end b = chain_end (window_start b) b.spans

abbrev pub is_filled {ℓ} : {A : Type ℓ} → List A → Bool
is_filled [] = false
is_filled (_ ∷ _) = true

abbrev pub is_known : Option ℕ → Bool
is_known none = false
is_known (some _) = true

pub record IsRing (b : PreRollBuffer) : Type 0 where
  pub chain : Chain (format b) (window_start b) b.spans
  pub owned : is_filled b.spans ≡ is_known b.generation_id
  pub has_room : 0 < b.capacity_samples
  pub has_rate : 0 < b.sample_rate
  pub has_channels : 0 < b.channels
  pub bounded : window_end b ≤ window_start b + b.capacity_samples

pub last_end-Chain :
    (f : Format) (at : ℕ) (spans : List AudioSpan)
    → Chain f at spans
    → is_filled spans ≡ true
    → last_end spans ≡ some (chain_end at spans)
last_end-Chain f at [] c h = cc
last_end-Chain f at (s ∷ []) c h = refl
last_end-Chain f at (s ∷ t ∷ rest) c h =
    let ih = last_end-Chain f s.end_sample (t ∷ rest) c.1 refl in rw ih

known_lem : (o : Option ℕ) → is_known o ≡ true → o ≡ some (number_or o 0)
known_lem none h = cc
known_lem (some n) h = refl

first_start_lem :
    (spans : List AudioSpan)
    → is_filled spans ≡ true
    → first_start spans ≡ some (number_or (first_start spans) 0)
first_start_lem [] h = cc
first_start_lem (s ∷ rest) h = refl

pub clear-IsRing : (b : PreRollBuffer) → IsRing b → IsRing (clear b)
unfolding clear
clear-IsRing b v = record {
  chain = tt;
  owned = refl;
  has_room = v.has_room;
  has_rate = v.has_rate;
  has_channels = v.has_channels;
  bounded = omega arith;
}

-- The offset at which a capture starts.
abbrev pub actual_start : PreRollBuffer → ℕ → ℕ
actual_start b onset = max (onset - b.pre_roll_samples) (window_start b)

abbrev pub captured : PreRollBuffer → ℕ → ℕ → PreRollCapture
captured b onset confirmation = record {
  audio = record {
    pcm =
        slice (stream b.spans) ((actual_start b onset - window_start b) * (b.channels * 2))
          ((confirmation - window_start b) * (b.channels * 2));
    start_sample = actual_start b onset;
    end_sample = confirmation;
    generation_id = number_or b.generation_id 0;
    sample_rate = b.sample_rate;
    channels = b.channels;
  };
  requested_start_sample = onset - b.pre_roll_samples;
  pre_roll_truncated = ltb (onset - actual_start b onset) b.pre_roll_samples;
}

-- A capture succeeds on every range inside the window, and its audio is exactly that range of the
-- stream, with the pre-roll before the onset as far as the window reaches back.
pub capture_lem :
    (b : PreRollBuffer) (onset confirmation : ℕ)
    → IsRing b
    → is_filled b.spans ≡ true
    → window_start b ≤ onset
    → onset ≤ confirmation
    → confirmation ≤ window_end b
    → capture b onset confirmation ≡ ok (captured b onset confirmation)
unfolding capture
capture_lem b onset confirmation v f h i j =
    let g = number_or b.generation_id 0 in
    let k = b.channels * 2 in
    let a = actual_start b onset in
    let e1 = known_lem b.generation_id (sym v.owned ∙ f) in
    let e2 = first_start_lem b.spans f in
    let e3 = last_end-Chain (format b) (window_start b) b.spans v.chain f in
    let piece =
      collect_lem (format b) (window_start b) a confirmation b.spans v.chain (omega arith) in
    let total = length-stream (format b) (window_start b) b.spans v.chain in
    let l1 = scale (a - window_start b) (confirmation - window_start b) k (omega arith) in
    let l2 =
      scale (confirmation - window_start b) (window_end b - window_start b) k (omega arith) in
    let d : confirmation - a ≡ (confirmation - window_start b) - (a - window_start b) =
      omega arith in
    let len =
      length-slice (stream b.spans) ((a - window_start b) * k) ((confirmation - window_start b) * k)
        l1 (omega (arith, total)) in
    (λ t. capture_at b (e1 t) (e2 t) (e3 t) onset confirmation)
    ∙ rw (
      le→leb _ _ h,
      le→leb _ _ i,
      le→leb _ _ j,
      piece,
      audio_span_ok (captured b onset confirmation).audio.pcm a confirmation g b.sample_rate
          b.channels (omega arith) v.has_rate v.has_channels
          (len ∙ rw (sub_scale, ← d) (omega arith)),
    )

-- The captured audio has its two bytes for every sample of each channel.
pub captured-length :
    (b : PreRollBuffer) (onset confirmation : ℕ)
    → IsRing b
    → window_start b ≤ onset
    → onset ≤ confirmation
    → confirmation ≤ window_end b
    → length (captured b onset confirmation).audio.pcm
      ≡ (confirmation - actual_start b onset) * (b.channels * 2)
captured-length b onset confirmation v h i j =
    let k = b.channels * 2 in
    let a = actual_start b onset in
    let total = length-stream (format b) (window_start b) b.spans v.chain in
    let l1 = scale (a - window_start b) (confirmation - window_start b) k (omega arith) in
    let l2 =
      scale (confirmation - window_start b) (window_end b - window_start b) k (omega arith) in
    let d : confirmation - a ≡ (confirmation - window_start b) - (a - window_start b) =
      omega arith in
    length-slice (stream b.spans) ((a - window_start b) * k) ((confirmation - window_start b) * k)
      l1 (omega (arith, total))
    ∙ rw (sub_scale, ← d) refl
