-- ===== src/Audio/Transport/Order.antt =====
-- The queue of audio/transport.py: bounded, in sample order, and stamped with absolute offsets.
use lune_voice_companion.Prelude.{
  ℕ, zero, suc, ◌+◌, ◌-◌, ◌*◌, ◌/◌, ◌%◌, ◌≤◌, ◌<◌, ◌≡◌, refl, ◌≢◌, ◌⊎◌, inl, inr, Bool, true, false,
  not, ◌||◌, none, some, List, [], ◌∷◌, ◌++◌, arith, ltb, ◌==◌, ltb→lt, lt→ltb, Bool-cases, length,
  length-append, ℤ, pos,
}
use lune_voice_companion.Result.{Error, Result-cases, err, ok}
use mathlib.Core.Path.{subst}
use native.Mathlib.Nat.{div-add-mod}
use lune_voice_companion.Audio.Span.{AudioSpan, audio_span, bytes_per_sample}
use lune_voice_companion.Audio.Span.Laws.{
  IsSpan, audio_span-IsSpan, audio_span_fields, audio_span_ok,
}
use lune_voice_companion.Audio.Transport.{
  Transport, enqueue, accept, audio_callback, drain, rebuild,
}

-- Valid spans of one format that do not overlap, from `at` on and up to `until`.
abbrev pub Ascends : ℕ → ℕ → ℕ → List AudioSpan → ℕ → Type 0
Ascends rate count at [] until = at ≤ until
Ascends rate count at (s ∷ rest) until =
    IsSpan s
    × (s.sample_rate ≡ rate)
    × (s.channels ≡ count)
    × (at ≤ s.start_sample)
    × Ascends rate count s.end_sample rest until

module _ {Time : Type 0} where
  pub record IsOrdered (t : Transport Time) : Type 0 where
    pub has_rate : 0 < t.sample_rate
    pub has_channels : 0 < t.channels
    pub bounded : length t.queue ≤ t.max_callbacks
    pub ascends : Ascends t.sample_rate t.channels 0 t.queue t.sample_cursor
    pub drops_flagged : 0 < t.dropped_callbacks → t.overflowed ≡ true

Ascends-widen :
    (rate count at : ℕ) (spans : List AudioSpan) (a b : ℕ)
    → a ≤ b
    → Ascends rate count at spans a
    → Ascends rate count at spans b
Ascends-widen rate count at [] a b h c = omega arith
Ascends-widen rate count at (s ∷ rest) a b h c =
    (c.0, c.1, c.2, c.3, Ascends-widen rate count s.end_sample rest a b h c.4)

Ascends-snoc :
    (rate count at : ℕ) (spans : List AudioSpan) (s : AudioSpan) (a : ℕ)
    → Ascends rate count at spans a
    → IsSpan s
    → s.sample_rate ≡ rate
    → s.channels ≡ count
    → a ≤ s.start_sample
    → Ascends rate count at (spans ++ s ∷ []) s.end_sample
Ascends-snoc rate count at [] s a c v i j h = (v, i, j, omega arith, omega arith)
Ascends-snoc rate count at (x ∷ rest) s a c v i j h =
    (c.0, c.1, c.2, c.3, Ascends-snoc rate count x.end_sample rest s a c.4 v i j h)

module _ {Time : Type 0} (t : Transport Time) where
  drain_lem :
      (fuel : ℕ) (q : List AudioSpan)
      → length q < fuel
      → drain fuel (record t { queue = q }) ≡ record t { queue = [] }
  unfolding drain
  drain_lem zero q h = absurd (omega arith)
  drain_lem (suc fuel) [] h = refl
  drain_lem (suc fuel) (s ∷ rest) h = drain_lem fuel rest (omega arith)

module _ {Time : Type 0} where
  enqueue_err : (t : Transport Time) (x : Error) → (enqueue t (err x)).1 ≡ t
  unfolding enqueue
  enqueue_err t x = refl

  enqueue-IsOrdered :
      (t : Transport Time) (s : AudioSpan) (at : ℕ)
      → IsOrdered (record t { sample_cursor = at })
      → IsSpan s
      → s.sample_rate ≡ t.sample_rate
      → s.channels ≡ t.channels
      → at ≤ s.start_sample
      → s.end_sample ≡ t.sample_cursor
      → IsOrdered (enqueue t (ok s)).1
  unfolding enqueue
  enqueue-IsOrdered t s at v w i j h k =
      let c = Ascends-snoc t.sample_rate t.channels 0 t.queue s at v.ascends w i j h in
      let d : Ascends t.sample_rate t.channels 0 t.queue t.sample_cursor =
        Ascends-widen t.sample_rate t.channels 0 t.queue at t.sample_cursor
          (omega (arith, w.ordered)) v.ascends in
      elim (Bool-cases (ltb (length t.queue) t.max_callbacks)) [
        | inl b ↦ rw b (record {
          has_rate = v.has_rate;
          has_channels = v.has_channels;
          bounded = rw length-append (omega (arith, ltb→lt _ _ b));
          ascends = subst (λ n. Ascends t.sample_rate t.channels 0 (t.queue ++ s ∷ []) n) k c;
          drops_flagged = v.drops_flagged;
        })
        | inr b ↦ rw b (record {
          has_rate = v.has_rate;
          has_channels = v.has_channels;
          bounded = v.bounded;
          ascends = d;
          drops_flagged = λ _. refl;
        })
      ]

  accept-IsOrdered :
      (t : Transport Time) (pcm : List ℕ) (n : ℕ) (arrived_at : Time)
      → IsOrdered t
      → IsOrdered (accept t pcm n arrived_at).1
  unfolding accept
  accept-IsOrdered t pcm n arrived_at v =
      let stop = t.sample_cursor + n in
      let moved = λ (b : Bool). record t {
        sample_cursor = stop;
        anchor = some (stop, arrived_at);
        microphone_enabled = b;
      } in
      let kept : (b : Bool) → IsOrdered (moved b) = λ b. record {
        has_rate = v.has_rate;
        has_channels = v.has_channels;
        bounded = v.bounded;
        ascends = Ascends-widen _ _ 0 t.queue t.sample_cursor _ (omega arith) v.ascends;
        drops_flagged = v.drops_flagged;
      } in
      let before : IsOrdered (record (moved true) { sample_cursor = t.sample_cursor }) = record {
        has_rate = v.has_rate;
        has_channels = v.has_channels;
        bounded = v.bounded;
        ascends = v.ascends;
        drops_flagged = v.drops_flagged;
      } in
      let span =
        audio_span pcm (pos t.sample_cursor) (pos stop) t.generation_id (pos t.sample_rate)
          (pos t.channels) in
      elim (Bool-cases t.microphone_enabled) [
        | inr off ↦ rw off (kept false)
        | inl on ↦ elim (Result-cases span) [
          | inl (s, e) ↦
              let fields =
                audio_span_fields pcm t.sample_cursor stop t.sample_rate t.channels t.generation_id
                  e in
              rw (on, e)
                (enqueue-IsOrdered (moved true) s t.sample_cursor before
                  (audio_span-IsSpan pcm _ _ _ _ _ e) fields.2 fields.3 (omega (arith, fields.0))
                  fields.1)
          | inr (x, e) ↦ rw (on, e, enqueue_err) (kept true)
        ]
      ]

  -- `audio_callback` with any buffer keeps the queue bounded, its spans valid and in sample order up to the
  -- cursor, and every drop flagged.
  pub audio_callback-IsOrdered :
      (t : Transport Time) (pcm : List ℕ) (arrived_at : Time)
      → IsOrdered t
      → IsOrdered (audio_callback t pcm arrived_at).1
  unfolding audio_callback
  audio_callback-IsOrdered t pcm arrived_at v =
      elim (Bool-cases
        (length pcm == 0 || not (length pcm % (t.channels * bytes_per_sample) == 0))) [
          | inl bad ↦ rw bad (record {
            has_rate = v.has_rate;
            has_channels = v.has_channels;
            bounded = v.bounded;
            ascends = v.ascends;
            drops_flagged = λ _. refl;
          })
          | inr good ↦ rw good (accept-IsOrdered t pcm _ arrived_at v)
        ]

  -- `rebuild` empties the queue, turns the microphone off and restarts the sample offsets at zero, whatever was
  -- queued, dropped or flagged before.
  rebuild_lem :
      (t : Transport Time) (generation : ℤ)
      → rebuild t generation ≡ record t {
        queue = [];
        microphone_enabled = false;
        sample_cursor = 0;
        generation_id = generation;
        dropped_callbacks = 0;
        anchor = none;
        overflowed = false;
      }
  unfolding rebuild
  rebuild_lem t generation = rw (
      drain_lem (record t { microphone_enabled = false }) (length t.queue + 1) t.queue
        (omega arith))

-- A buffer of whole frames that is not empty moves the cursor by its frames, whether its span is queued, dropped or
-- withheld because the microphone is off; any other buffer leaves the cursor and flags the stream.
-- The callback returns false only with the stream flagged.
pub audio_callback_cursor :
    {Time : Type 0} (t : Transport Time) (pcm : List ℕ) (arrived_at : Time)
    → let t' = (audio_callback t pcm arrived_at).1 in
      let frame = t.channels * 2 in
      ((length pcm ≢ 0)
        → (length pcm % frame ≡ 0)
        → t'.sample_cursor ≡ t.sample_cursor + length pcm / frame)
      × ((length pcm ≡ 0) ⊎ (length pcm % frame ≢ 0)
          → (t'.sample_cursor ≡ t.sample_cursor) × (t'.overflowed ≡ true))
      × ((audio_callback t pcm arrived_at).0 ≡ ok false → t'.overflowed ≡ true)
unfolding audio_callback accept enqueue
audio_callback_cursor t pcm arrived_at = (λ a b. ground arith, λ a. ground arith, λ a. ground arith)

-- While the microphone is on and the queue has room, a buffer of whole frames that is not empty is
-- queued behind all that is queued, as a span of the transport's generation and format that starts
-- at the cursor.
pub queue-audio_callback :
    {Time : Type 0} (t : Transport Time) (pcm : List ℕ) (arrived_at : Time) (generation : ℕ)
    → 0 < t.sample_rate
    → 0 < t.channels
    → t.generation_id ≡ pos generation
    → t.microphone_enabled ≡ true
    → length t.queue < t.max_callbacks
    → length pcm ≢ 0
    → length pcm % (t.channels * 2) ≡ 0
    → (audio_callback t pcm arrived_at).1.queue
      ≡ t.queue
        ++ record {
          pcm = pcm;
          start_sample = t.sample_cursor;
          end_sample = t.sample_cursor + length pcm / (t.channels * 2);
          generation_id = generation;
          sample_rate = t.sample_rate;
          channels = t.channels;
        }
          ∷ []
unfolding audio_callback accept enqueue
queue-audio_callback t pcm arrived_at generation r c g m q e d =
    let n = length pcm / (t.channels * 2) in
    let f : (t.sample_cursor + n) - t.sample_cursor ≡ n = omega arith in
    let frames : length pcm ≡ n * (t.channels * 2) =
      omega (arith, d, div-add-mod (length pcm) (t.channels * 2)) in
    let span =
      audio_span_ok pcm t.sample_cursor (t.sample_cursor + n) generation t.sample_rate t.channels
        (omega arith) r c (rw f (omega (arith, frames))) in
    let whole : (length pcm == 0 || not (length pcm % (t.channels * 2) == 0)) ≡ false =
      ground arith in
    rw (whole, m, g, span, lt→ltb _ _ q)
