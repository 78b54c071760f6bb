-- ===== src/Audio/Preroll/Ring/Trim.antt =====
-- What the two trims of audio/preroll.py leave of a chain of spans.
use lune_voice_companion.Prelude.{
  ℕ, ◌+◌, ◌-◌, ◌*◌, ◌≤◌, ◌<◌, max, ◌≡◌, refl, sym, ap, ◌∙◌, inl, inr, List, [], ◌∷◌, ◌++◌, arith,
  ltb, leb, ltb→lt, leb→le, Bool-cases, length, drop, slice, drop-append_le, drop-append_ge,
  slice_end,
}
use lune_voice_companion.Result.{ok}
use mathlib.Core.Path.{ap₂}
use lune_voice_companion.Audio.Span.{AudioSpan}
use lune_voice_companion.Audio.Span.Laws.{cut, trim_left_lem, cut-IsSpan}
use lune_voice_companion.Audio.Preroll.{drop_old, trim_first}
use lune_voice_companion.Audio.Preroll.Ring.{Format, IsLink, Chain, chain_end, stream, scale}

-- What is left when all before `keep` is given up.
pub record IsTrimmed (f : Format) (at keep : ℕ) (spans kept : List AudioSpan) : Type 0 where
  pub chain : Chain f (max at keep) kept
  pub same_end : chain_end (max at keep) kept ≡ chain_end at spans
  pub bytes : stream kept ≡ drop ((keep - at) * (f.count * 2)) (stream spans)

module _ (f : Format) (at keep : ℕ) (s : AudioSpan) (rest : List AudioSpan)
    (l : IsLink f at s) where
  length_link : length s.pcm ≡ (s.end_sample - at) * (f.count * 2)
  length_link = rw (← l.same_channels, ← l.starts) (omega (arith, l.span.exact_length))

  -- The first span is given up whole.
  trim_past :
      (kept : List AudioSpan)
      → s.end_sample ≤ keep
      → IsTrimmed f s.end_sample keep rest kept
      → IsTrimmed f at keep (s ∷ rest) kept
  trim_past kept h t = record {
    chain =
        let e : max s.end_sample keep ≡ max at keep = omega (arith, l.starts, l.not_empty) in
        rw e at t.chain;
    same_end =
        let e : max s.end_sample keep ≡ max at keep = omega (arith, l.starts, l.not_empty) in
        rw e at t.same_end;
    bytes =
        let k = f.count * 2 in
        let n : (keep - at) * k ≡ length s.pcm + (keep - s.end_sample) * k = rw length_link (
          let e : keep - at ≡ (s.end_sample - at) + (keep - s.end_sample) =
            omega (arith, l.starts, l.not_empty) in
          rw e (grind arith)) in
        t.bytes
        ∙ sym (drop-append_ge ((keep - at) * k) ((keep - s.end_sample) * k) s.pcm (stream rest) n);
  }

  -- The first span is cut.
  trim_cut :
      at < keep
      → keep < s.end_sample
      → Chain f s.end_sample rest
      → IsTrimmed f at keep (s ∷ rest) (cut s keep s.end_sample ∷ rest)
  trim_cut h i c = record {
    chain = (
      record {
        span =
            cut-IsSpan s keep s.end_sample l.span (omega (arith, l.starts)) (omega arith)
              (omega arith);
        starts = omega arith;
        not_empty = i;
        same_generation = l.same_generation;
        same_rate = l.same_rate;
        same_channels = l.same_channels;
      },
      c,
    );
    same_end = refl;
    bytes =
        let k = f.count * 2 in
        let e = scale (keep - at) (s.end_sample - at) k (omega arith) in
        rw (drop-append_le ((keep - at) * k) s.pcm (stream rest) (omega (arith, length_link))) (
          ap (λ (p : List ℕ). p ++ stream rest)
            (ap₂ (λ (a c : ℕ). slice s.pcm ((keep - a) * (c * 2)) ((s.end_sample - a) * (c * 2)))
                l.starts l.same_channels
              ∙ slice_end s.pcm ((keep - at) * k) ((s.end_sample - at) * k)
                  (omega (arith, length_link))));
  }

  trim_nothing : keep ≤ at → Chain f s.end_sample rest → IsTrimmed f at keep (s ∷ rest) (s ∷ rest)
  trim_nothing h c = record {
    chain = let e : max at keep ≡ at = omega arith in rw e (l, c);
    same_end = refl;
    bytes =
        let z : (keep - at) * (f.count * 2) ≡ 0 =
          (let e : keep - at ≡ 0 = omega arith in rw e (omega arith)) in
        rw z;
  }

pub trim_lem :
    (f : Format) (at keep : ℕ) (spans : List AudioSpan)
    → Chain f at spans
    → keep < chain_end at spans
    → at < chain_end at spans
    → (kept : List AudioSpan) × (trim_first keep (drop_old keep spans) ≡ ok kept)
      × IsTrimmed f at keep spans kept
unfolding drop_old trim_first
trim_lem f at keep [] c h i = absurd (omega arith)
trim_lem f at keep (s ∷ rest) c h i = elim (Bool-cases (leb s.end_sample keep)) [
  | inl b ↦
      let past = leb→le s.end_sample keep b in
      let (kept, e, t) = trim_lem f s.end_sample keep rest c.1 h (omega arith) in
      (kept, rw b e, trim_past f at keep s rest c.0 kept past t)
  | inr b ↦ elim (Bool-cases (ltb s.start_sample keep)) [
    | inl b' ↦
        let before = ltb→lt s.start_sample keep b' in
        (
          cut s keep s.end_sample ∷ rest,
          rw (b, b', trim_left_lem s keep c.0.span (omega arith) (ground arith)),
          trim_cut f at keep s rest c.0 (omega (arith, c.0.starts)) (ground arith) c.1,
        )
    | inr b' ↦
        (s ∷ rest, rw (b, b'), trim_nothing f at keep s rest c.0 (ground (arith, c.0.starts)) c.1)
  ]
]
