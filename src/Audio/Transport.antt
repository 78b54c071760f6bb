-- ===== src/Audio/Transport.antt =====
-- audio/transport.py: the bounded queue between the audio callback and the reader. The clock and
-- its arithmetic on floats are parameters. Each method holds the state lock while it changes the
-- state, so a method is one step.
pub mod Order
use lune_voice_companion.Prelude.{
  ℕ, zero, suc, ◌+◌, ◌*◌, ◌/◌, ◌%◌, Bool, true, false, not, ◌||◌, Option, none, some, List, [], ◌∷◌,
  ◌++◌, ltb, ◌==◌, if◌then◌else◌, length, ℤ, sub_ℕ, pos,
}
use lune_voice_companion.Result.{
  Result, ◌>>=◌, ◌>>◌, natural, positive, negative_generation, invalid_transport_settings, ok, err,
}
use lune_voice_companion.Audio.Span.{AudioSpan, audio_span, bytes_per_sample}

pub record TransportHealth : Type 0 where
  pub queue_depth : ℕ
  pub overflowed : Bool
  pub dropped_callbacks : ℕ

pub record Transport (Time : Type 0) : Type 0 where
  pub sample_rate : ℕ
  pub channels : ℕ
  pub max_callbacks : ℕ
  pub queue : List AudioSpan
  pub microphone_enabled : Bool
  pub sample_cursor : ℕ
  pub generation_id : ℤ
  pub overflowed : Bool
  pub dropped_callbacks : ℕ
  pub anchor : Option (ℕ × Time)

module _ {Time : Type 0} where
  unfoldable pub new_transport : ℤ → ℤ → ℤ → Result (Transport Time)
  new_transport sample_rate channels max_callbacks = do
    rate ← positive sample_rate invalid_transport_settings
    count ← positive channels invalid_transport_settings
    depth ← positive max_callbacks invalid_transport_settings
    ok (record {
      sample_rate = rate;
      channels = count;
      max_callbacks = depth;
      queue = [];
      microphone_enabled = false;
      sample_cursor = 0;
      generation_id = pos 0;
      overflowed = false;
      dropped_callbacks = 0;
      anchor = none;
    })

  unfoldable pub set_microphone : Transport Time → Bool → Transport Time
  set_microphone t enabled = record t { microphone_enabled = enabled }

  unfoldable pub set_generation : Transport Time → ℤ → Result (Transport Time)
  set_generation t generation_id = do
    g ← natural generation_id negative_generation
    ok (record t { generation_id = pos g })

  -- `put_nowait` refuses when the queue is full.
  unfoldable pub enqueue : Transport Time → Result AudioSpan → Result Bool × Transport Time
  enqueue t (err e) = (err e, t)
  enqueue t (ok span) =
      if ltb (length t.queue) t.max_callbacks
      then (ok true, record t { queue = t.queue ++ span ∷ [] })
      else (ok false, record t { dropped_callbacks = t.dropped_callbacks + 1; overflowed = true })

  -- The part of the callback under the lock.
  unfoldable pub accept : Transport Time → List ℕ → ℕ → Time → Result Bool × Transport Time
  accept t pcm frame_count arrived_at =
      let start = t.sample_cursor in
      let stop = start + frame_count in
      let moved = record t { sample_cursor = stop; anchor = some (stop, arrived_at) } in
      if not t.microphone_enabled
      then (ok true, moved)
      else enqueue moved (
          audio_span pcm (pos start) (pos stop) t.generation_id (pos t.sample_rate)
            (pos t.channels))

  unfoldable pub audio_callback : Transport Time → List ℕ → Time → Result Bool × Transport Time
  audio_callback t pcm arrived_at =
      let bytes_per_frame = t.channels * bytes_per_sample in
      if length pcm == 0 || not (length pcm % bytes_per_frame == 0)
      then (ok false, record t { overflowed = true })
      else accept t pcm (length pcm / bytes_per_frame) arrived_at

  dequeue : Transport Time → List AudioSpan → Option AudioSpan × Transport Time
  dequeue t [] = (none, t)
  dequeue t (s ∷ rest) = (some s, record t { queue = rest })

  unfoldable pub read_nowait : Transport Time → Option AudioSpan × Transport Time
  unfolding dequeue
  read_nowait t = dequeue t t.queue

  unfoldable pub health : Transport Time → TransportHealth
  health t = record {
    queue_depth = length t.queue;
    overflowed = t.overflowed;
    dropped_callbacks = t.dropped_callbacks;
  }

  -- `before t n r` stands for the float `t - n / r`.
  unfoldable pub wall_time_of_sample : (Time → ℤ → ℕ → Time) → Transport Time → ℕ → Option Time
  wall_time_of_sample before t sample = elim t.anchor [
    | none ↦ none
    | some (anchor_sample, anchor_time) ↦
        some (before anchor_time (sub_ℕ anchor_sample sample) t.sample_rate)
  ]

  unfoldable pub mark_discontinuity : Transport Time → Transport Time
  mark_discontinuity t = record t { overflowed = true }

  -- `while self.read_nowait() is not None: pass`, once for each span that is queued and once more.
  unfoldable pub drain : ℕ → Transport Time → Transport Time
  unfolding read_nowait
  drain zero t = t
  drain (suc fuel) t = let (o, t') = read_nowait t in elim o [ none ↦ t' | some s ↦ drain fuel t' ]

  unfoldable pub rebuild : Transport Time → ℤ → Transport Time
  unfolding drain
  rebuild t generation_id =
      let off = record t { microphone_enabled = false } in
      let empty = drain (length t.queue + 1) off in
      record empty {
        sample_cursor = 0;
        generation_id = generation_id;
        dropped_callbacks = 0;
        anchor = none;
        overflowed = false;
      }
