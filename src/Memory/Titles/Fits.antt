-- ===== src/Memory/Titles/Fits.antt =====
-- What `ThreadTitleManager` of memory/titles.py writes, and when.
use mathlib.Core.Path.{subst}
use lune_voice_companion.Prelude.{
  ℕ, zero, suc, ◌≤◌, ◌<◌, ◌≡◌, ap, ◌⊎◌, inl, inr, Bool, true, not, ◌&&◌, Option, none, some, [],
  ◌∷◌, arith, Bool-cases, Option-cases, length, take, All, length-take, no_text, strip_left,
  strip_right, strip, pos,
}
use lune_voice_companion.Result.{Result, ok}
use lune_voice_companion.Memory.Store.{Text, Session, Store, select}
use lune_voice_companion.Memory.Store.Threads.{is_default, get_conversation_thread}
use lune_voice_companion.Memory.Store.Summaries.{StoredTurn, recent_complete_turns}
use lune_voice_companion.Memory.Store.Memories.{split_words, join_words}
use lune_voice_companion.Memory.Titles.Written.{IsWritten}
use lune_voice_companion.Memory.Titles.{
  TitleAnswer, candidate, is_edge, first_line, title_or_none, named, clean_title,
}

-- A title is neither empty nor longer than the bound, and all of it is printable.
abbrev pub FitsLine : (ℕ → Bool) → ℕ → Text → Type 0
FitsLine is_printable maximum title =
    (0 < length title) × (length title ≤ maximum) × All (λ c. is_printable c ≡ true) title

module _ (P : ℕ → Type 0) where
  All-take : (n : ℕ) (cs : Text) → All P cs → All P (take n cs)
  All-take zero cs a = tt
  All-take (suc n) [] a = tt
  All-take (suc n) (c ∷ cs) a = (a.0, All-take n cs a.1)

  All-strip_left : (test : ℕ → Bool) (cs : Text) → All P cs → All P (strip_left test cs)
  All-strip_left test [] a = tt
  All-strip_left test (c ∷ cs) a = elim (Bool-cases (test c)) [
    | inl e ↦ rw e (All-strip_left test cs a.1)
    | inr e ↦ rw e a
  ]

  All-strip_right : (test : ℕ → Bool) (cs : Text) → All P cs → All P (strip_right test cs)
  All-strip_right test [] a = tt
  All-strip_right test (c ∷ cs) a = elim (Bool-cases (test c && no_text (strip_right test cs))) [
    | inl e ↦ rw e tt
    | inr e ↦ rw e (a.0, All-strip_right test cs a.1)
  ]

  All-strip : (test : ℕ → Bool) (cs : Text) → All P cs → All P (strip test cs)
  All-strip test cs a = All-strip_right test (strip_left test cs) (All-strip_left test cs a)

All-select : (test : ℕ → Bool) (cs : Text) → All (λ c. test c ≡ true) (select test cs)
All-select test [] = tt
All-select test (c ∷ cs) = elim (Bool-cases (test c)) [
  | inl e ↦ rw e (e, All-select test cs)
  | inr e ↦ rw e (All-select test cs)
]

length-strip_left : (test : ℕ → Bool) (cs : Text) → length (strip_left test cs) ≤ length cs
length-strip_left test [] = omega arith
length-strip_left test (c ∷ cs) = ground (arith, length-strip_left test cs)

length-strip_right : (test : ℕ → Bool) (cs : Text) → length (strip_right test cs) ≤ length cs
length-strip_right test [] = omega arith
length-strip_right test (c ∷ cs) = ground (arith, length-strip_right test cs)

length-strip : (test : ℕ → Bool) (cs : Text) → length (strip test cs) ≤ length cs
length-strip test cs =
    omega (arith, length-strip_right test (strip_left test cs), length-strip_left test cs)

title_or_none-eq :
    (cs : Text) {title : Text} → title_or_none cs ≡ some title → (cs ≡ title) × (0 < length title)
title_or_none-eq [] e = absurd (cc e)
title_or_none-eq (c ∷ cs) {title = title} e =
    let same : c ∷ cs ≡ title = cc e in (same, ground (arith, ap length same))

trimmed-FitsLine :
    (is_printable : ℕ → Bool) (cs : Text) (maximum : ℕ) {title : Text}
    → title_or_none (strip is_edge (take maximum (strip is_edge (select is_printable cs))))
      ≡ some title
    → FitsLine is_printable maximum title
trimmed-FitsLine is_printable cs maximum {title = title} e =
    let P : ℕ → Type 0 = λ c. is_printable c ≡ true in
    let once = strip is_edge (select is_printable cs) in
    let cut = take maximum once in
    let named = title_or_none-eq (strip is_edge cut) e in
    let all = All-strip P is_edge cut (
      All-take P maximum once
        (All-strip P is_edge (select is_printable cs) (All-select is_printable cs))) in
    let short : length (strip is_edge cut) ≤ maximum =
      omega (arith, length-strip is_edge cut, length-take maximum once) in
    (named.1, subst (λ t. length t ≤ maximum) named.0 short, subst (All P) named.0 all)

module _ (is_space is_printable is_break : ℕ → Bool) where
  pub clean_title-FitsLine :
      (value : Text) (maximum : ℕ) {title : Text}
      → clean_title is_space is_printable is_break value maximum ≡ some title
      → FitsLine is_printable maximum title
  unfolding clean_title
  clean_title-FitsLine value maximum {title = title} e =
      let title_from : Option Text → Option Text = λ o. elim o [
        | none ↦ none
        | some line ↦ title_or_none (
            strip is_edge (
              take maximum
                (strip is_edge (select is_printable (join_words (split_words is_space [] line))))))
      ] in
      elim (Option-cases (
        first_line (
          select (λ l. not (no_text (strip is_space l)))
            (split_words is_break [] (strip is_space value))))) [
              | inl n ↦ absurd (cc (subst (λ o. title_from o ≡ some title) n e))
              | inr p ↦
                  trimmed-FitsLine is_printable (join_words (split_words is_space [] p.0)) maximum
                    (subst (λ o. title_from o ≡ some title) p.1 e)
            ]

  module _ {Time : Type 0} (is_aware : Time → Bool) (utc : Time → ℕ) where
    module _ (maximum : ℕ) (session : Text) (backend : StoredTurn → TitleAnswer)
        (meanwhile : Store → Store) (first second : Bool) (s : Store) where
      -- Where a title came from and where it went: the generation was current before the backend was
      -- asked and after it had answered; the thread had its first title and one complete turn; the
      -- title is what the backend said of that turn, made short; and the store has it.
      pub record IsNamed (title : Text) (s' : Store) : Type 0 where
        pub current : (first ≡ true) × (second ≡ true)
        pub thread : Session
        pub its_thread :
            get_conversation_thread is_space is_printable is_aware utc session s ≡ ok (some thread)
        pub untitled : is_default thread.title_source ≡ true
        pub turn : StoredTurn
        pub one_turn :
            recent_complete_turns is_space is_aware utc session (pos 2) s ≡ ok (turn ∷ [])
        pub value : Text
        pub said : backend turn ≡ candidate value
        pub cleaned : clean_title is_space is_printable is_break value maximum ≡ some title
        pub fits : FitsLine is_printable maximum title
        pub written :
            IsWritten is_space is_printable is_aware utc session title (meanwhile s) (true, s')

      -- What `maybe_title` may return: no title, and it writes nothing, or one that is written.
      unfoldable pub IsNaming : Option Text × Store → Type 0
      IsNaming (none, s') = (s' ≡ s) ⊎ (s' ≡ meanwhile s)
      IsNaming (some title, s') = IsNamed title s'
