-- ===== src/Llm/Sentences/Flushing.antt =====
-- What the gate of llm/sentence_gate.py counts and keeps while it releases.
use lune_voice_companion.Prelude.{
  ℕ, zero, suc, ◌+◌, ◌-◌, ◌≤◌, ◌≡◌, refl, ap, ◌∙◌, ◌⊎◌, inl, inr, Bool, true, false, none, some,
  List, [], ◌++◌, arith, ◌==◌, Bool-cases, Option-cases, length, take, drop, All,
}
use lune_voice_companion.Result.{ok}
use lune_voice_companion.Llm.Sentences.{
  Gate, TextFrame, next_boundary, feed_loop, feed, finish_loop, finish, final_boundary,
  check_correlation, is_empty, discard,
}
use lune_voice_companion.Llm.Sentences.Release.{IsGate}

-- The identifiers that a frame carries.
abbrev pub IsOf : ℕ × ℕ → TextFrame → Type 0
IsOf ids f = (f.generation_id ≡ ids.0) × (f.attempt_id ≡ ids.1)

module _ (is_space is_digit : ℕ → Bool) where
  pub feed_loop-correlation :
      (fuel : ℕ) (ids : ℕ × ℕ) (g : Gate)
      → (feed_loop is_space is_digit fuel ids g).1.correlation ≡ g.correlation
  unfolding feed_loop
  feed_loop-correlation zero ids g = refl
  feed_loop-correlation (suc fuel) ids g =
      elim (Option-cases (next_boundary is_space is_digit g.buffer false)) [
        | inl no_end ↦ rw (feed_loop, no_end) refl
        | inr (n, ends) ↦
            let cut : Gate = record g { buffer = drop n g.buffer } in
            let counted : Gate = record cut { released = suc g.released } in
            let a = feed_loop-correlation fuel ids cut in
            let b = feed_loop-correlation fuel ids counted in
            elim (Bool-cases (is_empty (take n g.buffer))) [
              | inl e ↦ rw (feed_loop, ends, e) a
              | inr e ↦ elim (Bool-cases (suc g.released == g.max_sentences)) [
                | inl last ↦ rw (feed_loop, ends, e, last) refl
                | inr more ↦ rw (feed_loop, ends, e, more) b
              ]
            ]
      ]

  pub feed-correlation :
      (g : Gate) (piece : TextFrame) (ids : ℕ × ℕ)
      → g.limited ≡ false
      → check_correlation g piece ≡ ok ids
      → (feed is_space is_digit g piece).1.correlation ≡ some ids
  unfolding feed
  feed-correlation g piece ids o c =
      let longer : Gate = record g {
        correlation = some ids;
        buffer = g.buffer ++ piece.text;
        limited = false;
      } in
      simp (o, c) (feed_loop-correlation (g.max_sentences - g.released) ids longer)

  -- What the loop of `finish` counts.
  record Counts (fuel : ℕ) (ids : ℕ × ℕ) (g : Gate) (frames : List TextFrame) (g' : Gate)
      : Type 0 where
    counted : g'.released ≡ g.released + length frames
    few : length frames ≤ fuel
    same_limit : g'.limited ≡ g.limited
    fenced : All (IsOf ids) frames

  finish_loop-Counts :
      (fuel : ℕ) (ids : ℕ × ℕ) (g : Gate)
      → Counts fuel ids g
          (finish_loop is_space is_digit fuel ids g).0
          (finish_loop is_space is_digit fuel ids g).1
  unfolding finish_loop
  finish_loop-Counts zero ids g = record {
    counted = omega arith;
    few = omega arith;
    same_limit = refl;
    fenced = tt;
  }
  finish_loop-Counts (suc fuel) ids g =
      let n = final_boundary is_space is_digit g.buffer in
      let cut : Gate = record g { buffer = drop n g.buffer } in
      let counted : Gate = record cut { released = suc g.released } in
      let a = finish_loop-Counts fuel ids cut in
      let b = finish_loop-Counts fuel ids counted in
      elim (Bool-cases (is_empty g.buffer)) [
        | inl e ↦
            rw e
              (record { counted = omega arith; few = omega arith; same_limit = refl; fenced = tt })
        | inr e ↦ elim (Bool-cases (is_empty (take n g.buffer))) [
          | inl k ↦
              rw (e, k)
                (record {
                  counted = a.counted;
                  few = omega (arith, a.few);
                  same_limit = a.same_limit;
                  fenced = a.fenced;
                })
          | inr k ↦
              rw (e, k)
                (record {
                  counted = omega (arith, b.counted);
                  few = omega (arith, b.few);
                  same_limit = b.same_limit;
                  fenced = ((refl, refl), b.fenced);
                })
        ]
      ]

  -- `finish` does not raise, counts what it releases and stays within the maximum.
  unfoldable pub Finishes : Gate → ℕ × ℕ → Type 0
  Finishes g ids =
      (frames : List TextFrame) × (g' : Gate) × (finish is_space is_digit g
        ≡ (ok (frames, false), g'))
      × (g'.released ≡ g.released + length frames)
      × (g'.released ≤ g.max_sentences)
      × All (IsOf ids) frames

  finish-empty :
      (g : Gate) (ids : ℕ × ℕ)
      → IsGate g
      → g.limited ≡ false
      → is_empty g.buffer ≡ true
      → Finishes g ids
  unfolding finish discard Finishes
  finish-empty g ids v o e = ([], discard g, simp (o, e), omega arith, omega (arith, v.room o), tt)

  pub finish-Finishes :
      (g : Gate) (ids : ℕ × ℕ)
      → IsGate g
      → g.limited ≡ false
      → ((g.correlation ≡ none) × (g.buffer ≡ [])) ⊎ (g.correlation ≡ some ids)
      → Finishes g ids
  unfolding finish discard Finishes
  finish-Finishes g ids v o c = elim (Bool-cases (is_empty g.buffer)) [
    | inl e ↦ finish-empty g ids v o e
    | inr e ↦ elim c [
      | inl (no_ids, empty) ↦ finish-empty g ids v o (ap is_empty empty)
      | inr some_ids ↦
          let r = finish_loop is_space is_digit (g.max_sentences - g.released) ids g in
          let p = finish_loop-Counts (g.max_sentences - g.released) ids g in
          (
            r.0,
            discard r.1,
            simp (o, e, some_ids, p.same_limit ∙ o),
            p.counted,
            omega (arith, p.counted, p.few, v.room o),
            p.fenced,
          )
    ]
  ]
