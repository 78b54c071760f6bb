-- ===== src/Audio/Preroll/Append.antt =====
-- `append` of audio/preroll.py: it never raises on the span that comes next, and slides the window.
use lune_voice_companion.Prelude.{
  ℕ, ◌-◌, ◌*◌, ◌<◌, max, ◌≡◌, refl, sym, ap, ◌∙◌, true, false, Option, none, some, List, [], ◌∷◌,
  ◌++◌, arith, ◌==◌, ==_iff, drop,
}
use lune_voice_companion.Result.{ok}
use mathlib.Core.Path.{subst}
use mathlib.Core.List.{append-nil, append_assoc}
use lune_voice_companion.Audio.Span.{AudioSpan}
use lune_voice_companion.Audio.Span.Laws.{IsSpan}
use lune_voice_companion.Audio.Preroll.{
  PreRollBuffer, first_start, last_end, clear, append, push, is_other, leaves_gap, trim_to_capacity,
}
use lune_voice_companion.Audio.Preroll.Ring.{Format, IsLink, Chain, chain_end, stream, chain_end-ge}
use lune_voice_companion.Audio.Preroll.Ring.Trim.{trim_lem}
use lune_voice_companion.Audio.Preroll.Window.{
  IsRing, number_or, window_start, window_end, is_filled, is_known, last_end-Chain, clear-IsRing,
}

Chain-snoc :
    (f : Format) (at : ℕ) (spans : List AudioSpan) (s : AudioSpan)
    → Chain f at spans
    → IsLink f (chain_end at spans) s
    → Chain f at (spans ++ s ∷ []) × (chain_end at (spans ++ s ∷ []) ≡ s.end_sample)
Chain-snoc f at [] s c l = ((l, tt), refl)
Chain-snoc f at (x ∷ rest) s c l =
    let ih = Chain-snoc f x.end_sample rest s c.1 l in ((c.0, ih.0), ih.1)

stream-snoc :
    (spans : List AudioSpan) (s : AudioSpan) → stream (spans ++ s ∷ []) ≡ stream spans ++ s.pcm
stream-snoc [] s = append-nil s.pcm
stream-snoc (x ∷ rest) s = rw (stream-snoc rest s, append_assoc)

filled-snoc : (spans : List AudioSpan) (s : AudioSpan) → is_filled (spans ++ s ∷ []) ≡ true
filled-snoc [] s = refl
filled-snoc (x ∷ rest) s = refl

-- Where the window starts once `s` is in it and nothing is trimmed.
abbrev pub origin : List AudioSpan → AudioSpan → ℕ
origin spans s = number_or (first_start spans) s.start_sample

abbrev link_format : PreRollBuffer → AudioSpan → Format
link_format b s = record { generation = s.generation_id; rate = b.sample_rate; count = b.channels }

-- A span that is no gap continues the chain, seen under its own generation.
continues :
    (spans : List AudioSpan) (g : Option ℕ) (rate count : ℕ) (s : AudioSpan)
    → Chain
        (record { generation = number_or g 0; rate = rate; count = count })
        (number_or (first_start spans) 0)
        spans
    → is_filled spans ≡ is_known g
    → is_other g s.generation_id ≡ false
    → leaves_gap (last_end spans) s.start_sample ≡ false
    → Chain
        (record { generation = s.generation_id; rate = rate; count = count })
        (origin spans s)
        spans
      × (chain_end (origin spans s) spans ≡ s.start_sample)
continues [] g rate count s c o i j = (tt, refl)
continues (x ∷ rest) none rate count s c o i j = cc
continues (x ∷ rest) (some g) rate count s c o i j =
    let e : g ≡ s.generation_id = ground arith in
    let l =
      last_end-Chain (record { generation = g; rate = rate; count = count }) x.start_sample
        (x ∷ rest) c refl in
    (
      subst
          (λ (n : ℕ).
            Chain (record { generation = n; rate = rate; count = count }) x.start_sample (x ∷ rest))
          e c,
      ground (arith, l),
    )

first_start-Chain :
    (f : Format) (at : ℕ) (spans : List AudioSpan)
    → Chain f at spans
    → at < chain_end at spans
    → (first_start spans ≡ some at) × (is_filled spans ≡ true)
first_start-Chain f at [] c h = absurd (omega arith)
first_start-Chain f at (x ∷ rest) c h = (rw c.0.starts, refl)

-- What `append` leaves: the span is in, and the window reaches back as far as the capacity allows.
pub record IsAppended (b : PreRollBuffer) (s : AudioSpan) (after : PreRollBuffer) : Type 0 where
  pub ring : IsRing after
  pub ends : window_end after ≡ s.end_sample
  pub starts : window_start after ≡ max (origin b.spans s) (s.end_sample - b.capacity_samples)
  pub filled : is_filled after.spans ≡ true
  pub generation : after.generation_id ≡ some s.generation_id
  pub same_rate : after.sample_rate ≡ b.sample_rate
  pub same_channels : after.channels ≡ b.channels
  pub same_capacity : after.capacity_samples ≡ b.capacity_samples
  pub same_pre_roll : after.pre_roll_samples ≡ b.pre_roll_samples
  pub bytes :
      stream after.spans
      ≡ drop
          ((s.end_sample - b.capacity_samples - origin b.spans s) * (b.channels * 2))
          (stream b.spans ++ s.pcm)

module _ (b : PreRollBuffer) (s : AudioSpan) (v : IsRing b) (w : IsSpan s)
    (same_rate : s.sample_rate ≡ b.sample_rate) (same_channels : s.channels ≡ b.channels)
    (not_empty : s.start_sample < s.end_sample) where
  push_lem :
      is_other b.generation_id s.generation_id ≡ false
      → leaves_gap (last_end b.spans) s.start_sample ≡ false
      → (after : PreRollBuffer) × (push b s ≡ ok after) × IsAppended b s after
  unfolding push
  push_lem i j =
      let f = link_format b s in
      let at = origin b.spans s in
      let keep = s.end_sample - b.capacity_samples in
      let c = continues b.spans b.generation_id b.sample_rate b.channels s v.chain v.owned i j in
      let link : IsLink f (chain_end at b.spans) s = record {
        span = w;
        starts = sym c.1;
        not_empty = not_empty;
        same_generation = refl;
        same_rate = same_rate;
        same_channels = same_channels;
      } in
      let sn = Chain-snoc f at b.spans s c.0 link in
      let room = v.has_room in
      let back : at < s.end_sample = omega (arith, chain_end-ge f at b.spans c.0, c.1) in
      let newest =
        last_end-Chain f at (b.spans ++ s ∷ []) sn.0 (filled-snoc b.spans s) ∙ ap some sn.1 in
      let (kept, e, t) =
        trim_lem f at keep (b.spans ++ s ∷ []) sn.0 (omega (arith, sn.1)) (omega (arith, sn.1)) in
      let ends : chain_end (max at keep) kept ≡ s.end_sample = t.same_end ∙ sn.1 in
      let first = first_start-Chain f (max at keep) kept t.chain (omega arith) in
      let ws : number_or (first_start kept) 0 ≡ max at keep = ap (λ o. number_or o 0) first.0 in
      let ends' : chain_end (number_or (first_start kept) 0) kept ≡ s.end_sample =
        ap (λ n. chain_end n kept) ws ∙ ends in
      (
        record b { spans = kept; generation_id = some s.generation_id },
        rw (j, newest, trim_to_capacity) (rw e),
        record {
          ring = record {
            chain = subst (λ (n : ℕ). Chain f n kept) (sym ws) t.chain;
            owned = first.1;
            has_room = room;
            has_rate = v.has_rate;
            has_channels = v.has_channels;
            bounded = omega (arith, ws, ends');
          };
          ends = ends';
          starts = ws;
          filled = first.1;
          generation = refl;
          same_rate = refl;
          same_channels = refl;
          same_capacity = refl;
          same_pre_roll = refl;
          bytes =
              t.bytes
              ∙ ap (λ (l : List ℕ). drop ((keep - at) * (b.channels * 2)) l)
                  (stream-snoc b.spans s);
        },
      )

-- On a span of the buffer's format that is not empty, belongs to the window's generation and starts where the window
-- ends, `append` succeeds: the window then ends with the span, reaches back as far as the capacity
-- allows, and holds the newest bytes of the window and the span.
pub append_lem :
    (b : PreRollBuffer) (s : AudioSpan)
    → IsRing b
    → IsSpan s
    → s.sample_rate ≡ b.sample_rate
    → s.channels ≡ b.channels
    → s.start_sample < s.end_sample
    → is_other b.generation_id s.generation_id ≡ false
    → leaves_gap (last_end b.spans) s.start_sample ≡ false
    → (after : PreRollBuffer) × (append b s ≡ ok after) × IsAppended b s after
unfolding append
append_lem b s v w same_rate same_channels not_empty i j =
    let (after, e, a) = push_lem b s v w same_rate same_channels not_empty i j in
    let count : (s.end_sample - s.start_sample == 0) ≡ false = ground arith in
    (
      after,
      rw
          (
            (==_iff s.sample_rate b.sample_rate).1 same_rate,
            (==_iff s.channels b.channels).1 same_channels,
            count,
            i,
          )
          e,
      a,
    )

-- A span of another generation empties the window first: it is all that is left of the stream.
append_other :
    (b : PreRollBuffer) (s : AudioSpan)
    → IsRing b
    → IsSpan s
    → s.sample_rate ≡ b.sample_rate
    → s.channels ≡ b.channels
    → s.start_sample < s.end_sample
    → is_other b.generation_id s.generation_id ≡ true
    → (after : PreRollBuffer) × (append b s ≡ ok after) × IsAppended (clear b) s after
unfolding append
append_other b s v w same_rate same_channels not_empty i =
    let (after, e, a) =
      push_lem (clear b) s (clear-IsRing b v) w (unfold clear in same_rate)
        (unfold clear in same_channels) not_empty (unfold clear in refl) (unfold clear in refl) in
    let count : (s.end_sample - s.start_sample == 0) ≡ false = ground arith in
    (
      after,
      rw
          (
            (==_iff s.sample_rate b.sample_rate).1 same_rate,
            (==_iff s.channels b.channels).1 same_channels,
            count,
            i,
          )
          e,
      a,
    )
