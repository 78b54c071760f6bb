-- ===== src/Llm/Sentences/Release.antt =====
-- What the gate of llm/sentence_gate.py releases of the text that it is fed.
use lune_voice_companion.Prelude.{
  ℕ, zero, suc, ◌+◌, ◌-◌, ◌≤◌, ◌<◌, ◌≡◌, refl, sym, ap, ◌∙◌, ◌⊎◌, inl, inr, Bool, true, false,
  Option, none, some, List, [], ◌∷◌, ◌++◌, arith, ◌==◌, Bool-cases, Option-cases, length, take,
  drop, All, take-append-drop, take_all,
}
use lune_voice_companion.Result.{ok}
use mathlib.Core.Path.{subst}
use mathlib.Core.List.{append_assoc, append-nil}
use lune_voice_companion.Llm.Sentences.{
  Gate, TextFrame, next_boundary, feed_loop, feed, finish_loop, finish, final_boundary,
  check_correlation, is_empty, discard,
}
use lune_voice_companion.Llm.Sentences.Units.{
  IsUnit, IsOpen, boundary_from-IsUnit, boundary_from-IsOpen,
}
use lune_voice_companion.Llm.Sentences.Boundary.{boundary_from_bounds}

-- The text of a sequence of frames.
abbrev pub texts : List TextFrame → List ℕ
texts [] = []
texts (f ∷ fs) = f.text ++ texts fs

-- A gate between its calls: it is limited once it has released all that it may, and holds nothing then.
pub record IsGate (g : Gate) : Type 0 where
  pub room : g.limited ≡ false → g.released < g.max_sentences
  pub shut : g.limited ≡ true → (g.released ≡ g.max_sentences) × (g.buffer ≡ [])

take_some : (n : ℕ) (cs : List ℕ) → 0 < n → n ≤ length cs → is_empty (take n cs) ≡ false
take_some zero cs p l = grind (arith, p)
take_some (suc n) [] p l = grind (arith, l)
take_some (suc n) (c ∷ cs) p l = refl

module _ (is_space is_digit : ℕ → Bool) where
  -- What a call released, and the gate it left.
  pub record Releases (ids : ℕ × ℕ) (g : Gate) (frames : List TextFrame) (g' : Gate) : Type 0 where
    pub is_gate : IsGate g'
    pub same_maximum : g'.max_sentences ≡ g.max_sentences
    pub counted : g'.released ≡ g.released + length frames
    pub fenced : All (λ (f : TextFrame). (f.generation_id ≡ ids.0) × (f.attempt_id ≡ ids.1)) frames
    pub text_kept : g'.limited ≡ false → texts frames ++ g'.buffer ≡ g.buffer
    pub text_cut : g'.limited ≡ true → (rest : List ℕ) × (texts frames ++ rest ≡ g.buffer)
    pub units : All (λ (f : TextFrame). IsUnit is_space is_digit none f.text) frames
    pub no_unit : g'.limited ≡ false → next_boundary is_space is_digit g'.buffer false ≡ none

  feed_loop-Releases :
      (fuel : ℕ) (ids : ℕ × ℕ) (g : Gate)
      → g.limited ≡ false
      → 0 < fuel
      → fuel + g.released ≡ g.max_sentences
      → Releases ids g
          (feed_loop is_space is_digit fuel ids g).0
          (feed_loop is_space is_digit fuel ids g).1
  unfolding feed_loop
  feed_loop-Releases zero ids g o p f = grind (arith, p)
  feed_loop-Releases (suc fuel) ids g o p f =
      elim (Option-cases (next_boundary is_space is_digit g.buffer false)) [
        | inl no_end ↦
            rw (feed_loop, no_end)
              (record {
                is_gate = record { room = λ _. omega (arith, f); shut = λ x. cc (x, o) };
                same_maximum = refl;
                counted = omega arith;
                fenced = tt;
                text_kept = λ _. refl;
                text_cut = λ x. cc (x, o);
                units = tt;
                no_unit = λ _. no_end;
              })
        | inr (n, ends) ↦
            let b = boundary_from_bounds is_space is_digit false none g.buffer n ends in
            let some_text = take_some n g.buffer b.0 b.1 in
            let unit = boundary_from-IsUnit is_space is_digit false none g.buffer n ends in
            elim (Bool-cases (suc g.released == g.max_sentences)) [
              | inl last ↦
                  rw (feed_loop, ends, some_text, last)
                    (record {
                      is_gate = record { room = λ x. cc; shut = λ _. (ground (arith, last), refl) };
                      same_maximum = refl;
                      counted = omega arith;
                      fenced = ((refl, refl), tt);
                      text_kept = λ x. cc;
                      text_cut = λ _. (
                        drop n g.buffer,
                        append_assoc (take n g.buffer) [] (drop n g.buffer)
                            ∙ take-append-drop n g.buffer,
                      );
                      units = (unit, tt);
                      no_unit = λ x. cc;
                    })
              | inr more ↦
                  let cut : Gate = record g {
                    buffer = drop n g.buffer;
                    released = suc g.released;
                  } in
                  let r =
                    feed_loop-Releases fuel ids cut o (ground (arith, f, more))
                      (omega (arith, f)) in
                  rw (feed_loop, ends, some_text, more)
                    (record {
                      is_gate = r.is_gate;
                      same_maximum = r.same_maximum;
                      counted = omega (arith, r.counted);
                      fenced = ((refl, refl), r.fenced);
                      text_kept = λ x.
                          append_assoc (take n g.buffer) _ _
                          ∙ ap (λ t. take n g.buffer ++ t) (r.text_kept x)
                          ∙ take-append-drop n g.buffer;
                      text_cut = λ x. (
                        (r.text_cut x).0,
                        append_assoc (take n g.buffer) _ _
                            ∙ ap (λ t. take n g.buffer ++ t) (r.text_cut x).1
                            ∙ take-append-drop n g.buffer,
                      );
                      units = (unit, r.units);
                      no_unit = r.no_unit;
                    })
            ]
      ]

  pub feed-Releases :
      (g : Gate) (piece : TextFrame) (ids : ℕ × ℕ)
      → IsGate g
      → g.limited ≡ false
      → check_correlation g piece ≡ ok ids
      → (frames : List TextFrame) × (g' : Gate) × (feed is_space is_digit g piece
          ≡ (ok (frames, g'.limited), g'))
        × Releases ids
            (record g { correlation = some ids; buffer = g.buffer ++ piece.text })
            frames
            g'
  unfolding feed
  feed-Releases g piece ids v o c =
      let longer : Gate = record g { correlation = some ids; buffer = g.buffer ++ piece.text } in
      let r = feed_loop is_space is_digit (g.max_sentences - g.released) ids longer in
      (
        r.0,
        r.1,
        simp (o, c),
        feed_loop-Releases (g.max_sentences - g.released) ids longer o (omega (arith, v.room o))
            (omega (arith, v.room o)),
      )

  is_empty-nil : (cs : List ℕ) → is_empty cs ≡ true → cs ≡ []
  is_empty-nil [] e = refl
  is_empty-nil (c ∷ cs) e = cc e

  some_text : (cs : List ℕ) → is_empty cs ≡ false → 0 < length cs
  some_text [] e = cc e
  some_text (c ∷ cs) e = omega arith

  final_boundary_some :
      (cs : List ℕ)
      → is_empty cs ≡ false
      → is_empty (take (final_boundary is_space is_digit cs) cs) ≡ false
  unfolding final_boundary
  final_boundary_some cs b = elim (Option-cases (next_boundary is_space is_digit cs true)) [
    | inl no_end ↦
        subst
          (λ o. is_empty (take (elim o as (λ _. ℕ) [ none ↦ length cs | some n ↦ n ]) cs) ≡ false)
          (sym no_end) (take_some (length cs) cs (some_text cs b) (omega arith))
    | inr (n, ends) ↦
        let bounds = boundary_from_bounds is_space is_digit true none cs n ends in
        subst
          (λ o. is_empty (take (elim o as (λ _. ℕ) [ none ↦ length cs | some n ↦ n ]) cs) ≡ false)
          (sym ends) (take_some n cs bounds.0 bounds.1)
  ]

  final_boundary-cut :
      (cs : List ℕ)
      → let t = take (final_boundary is_space is_digit cs) cs in
        IsUnit is_space is_digit none t ⊎ IsOpen is_space is_digit none t
  unfolding final_boundary
  final_boundary-cut cs =
      let OneOf : List ℕ → Type 0 =
        λ t. IsUnit is_space is_digit none t ⊎ IsOpen is_space is_digit none t in
      let Cut : Option ℕ → Type 0 =
        λ o. OneOf (take (elim o as (λ _. ℕ) [ none ↦ length cs | some n ↦ n ]) cs) in
      elim (Option-cases (next_boundary is_space is_digit cs true)) [
        | inl no_end ↦
            let open_text = boundary_from-IsOpen is_space is_digit none cs no_end in
            subst Cut (sym no_end)
              (subst OneOf (sym (take_all (length cs) cs (omega arith))) (inr open_text))
        | inr (n, ends) ↦
            subst Cut (sym ends) (inl (boundary_from-IsUnit is_space is_digit true none cs n ends))
      ]

  -- What the loop of `finish` released, and what is left.
  record Flushes (fuel : ℕ) (g : Gate) (frames : List TextFrame) (g' : Gate) : Type 0 where
    kept : texts frames ++ g'.buffer ≡ g.buffer
    few : length frames ≤ fuel
    all_out : length frames < fuel → g'.buffer ≡ []
    same_limit : g'.limited ≡ g.limited
    sentences :
        All
          (λ (f : TextFrame).
            IsUnit is_space is_digit none f.text ⊎ IsOpen is_space is_digit none f.text)
          frames

  finish_loop-Flushes :
      (fuel : ℕ) (ids : ℕ × ℕ) (g : Gate)
      → Flushes fuel g
          (finish_loop is_space is_digit fuel ids g).0
          (finish_loop is_space is_digit fuel ids g).1
  unfolding finish_loop
  finish_loop-Flushes zero ids g = record {
    kept = refl;
    few = omega arith;
    all_out = λ x. grind (arith, x);
    same_limit = refl;
    sentences = tt;
  }
  finish_loop-Flushes (suc fuel) ids g = elim (Bool-cases (is_empty g.buffer)) [
    | inl b ↦
        rw (finish_loop, b)
          (record {
            kept = refl;
            few = omega arith;
            all_out = λ _. is_empty-nil g.buffer b;
            same_limit = refl;
            sentences = tt;
          })
    | inr b ↦
        let n = final_boundary is_space is_digit g.buffer in
        let r =
          finish_loop-Flushes fuel ids
            (record g { buffer = drop n g.buffer; released = suc g.released }) in
        rw (finish_loop, b, final_boundary_some g.buffer b)
          (record {
            kept =
                append_assoc (take n g.buffer) _ _
                ∙ ap (λ t. take n g.buffer ++ t) r.kept
                ∙ take-append-drop n g.buffer;
            few = omega (arith, r.few);
            all_out = λ x. r.all_out (omega (arith, x));
            same_limit = r.same_limit;
            sentences = (final_boundary-cut g.buffer, r.sentences);
          })
  ]

  -- `finish` on an open gate that holds text releases it, in order: each frame holds one unit, or text
  -- in which no sentence ends; there are at most as many frames as are left of the maximum, and they
  -- hold all of the text unless the maximum is used up. The gate then holds nothing.
  pub finish_lem :
      (g : Gate) (ids : ℕ × ℕ)
      → IsGate g
      → g.limited ≡ false
      → is_empty g.buffer ≡ false
      → g.correlation ≡ some ids
      → (frames : List TextFrame) × (g' : Gate) × (rest : List ℕ) × (finish is_space is_digit g
          ≡ (ok (frames, false), g'))
        × (texts frames ++ rest ≡ g.buffer)
        × (g.released + length frames ≤ g.max_sentences)
        × (g.released + length frames < g.max_sentences → texts frames ≡ g.buffer)
        × (g'.buffer ≡ [])
        × All
            (λ (f : TextFrame).
              IsUnit is_space is_digit none f.text ⊎ IsOpen is_space is_digit none f.text)
            frames
  unfolding finish discard
  finish_lem g ids v o b c =
      let r = finish_loop is_space is_digit (g.max_sentences - g.released) ids g in
      let p = finish_loop-Flushes (g.max_sentences - g.released) ids g in
      (
        r.0,
        discard r.1,
        r.1.buffer,
        simp (o, b, c, p.same_limit ∙ o),
        p.kept,
        omega (arith, p.few, v.room o),
        (λ x.
            sym (append-nil (texts r.0))
            ∙ ap (λ t. texts r.0 ++ t) (sym (p.all_out (omega (arith, x))))
            ∙ p.kept),
        refl,
        p.sentences,
      )
