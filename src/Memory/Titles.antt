-- ===== src/Memory/Titles.antt =====
-- memory/titles.py: a thread's one automatic title. What the backend answers is given from outside,
-- and so are `str.isspace`, `str.isprintable` and where `str.splitlines` breaks.
pub mod Written
pub mod Fits
use lune_voice_companion.Prelude.{
  ℕ, Bool, true, false, not, Option, none, some, List, [], ◌∷◌, leb, ◌==◌, if◌then◌else◌, take, ℤ,
  no_text, strip, pos,
}
use lune_voice_companion.Result.{
  Error, Result, guard, ◌>>=◌, ◌>>◌, natural, positive, negative_generation, store_closed,
  bad_title_bound, task_cancelled, err, ok,
}
use lune_voice_companion.Memory.Store.{Text, Session, Store, select, exists}
use lune_voice_companion.Memory.Store.Threads.{
  is_default, get_conversation_thread, set_generated_conversation_title,
}
use lune_voice_companion.Memory.Store.Summaries.{StoredTurn, recent_complete_turns}
use lune_voice_companion.Memory.Store.Memories.{split_words, join_words}

abbrev pub max_title_characters : ℕ
max_title_characters = 24

-- A space, a tab, the ASCII marks and the typographic ones.
abbrev pub stripped_edges : List ℕ
stripped_edges =
    32 ∷ 9 ∷ 34 ∷ 39 ∷ 40 ∷ 41 ∷ 91 ∷ 93 ∷ 60 ∷ 62 ∷ 45 ∷ 95 ∷ 46 ∷ 44 ∷ 58 ∷ 33 ∷ 63 ∷ 8216 ∷ 8217
    ∷ 8220 ∷ 8221 ∷ 8211 ∷ 8212 ∷ 183 ∷ 12300 ∷ 12301 ∷ 12302 ∷ 12303 ∷ 12298 ∷ 12299 ∷ 12296
    ∷ 12297 ∷ 12304 ∷ 12305 ∷ 65288 ∷ 65289 ∷ 12290 ∷ 65292 ∷ 12289 ∷ 65306 ∷ 65281 ∷ 65311 ∷ []

abbrev pub is_edge : ℕ → Bool
is_edge c = exists (λ e. e == c) stripped_edges

-- A backend's answer: a candidate, an exception, or the task's own cancellation.
pub data TitleAnswer : Type 0 where
  candidate : Text → TitleAnswer
  backend_failed backend_cancelled : TitleAnswer

-- The manager's bound on a title.
unfoldable pub new_manager : ℤ → Result ℕ
new_manager max_characters = do
  maximum ← positive max_characters bad_title_bound
  guard (leb maximum 160) bad_title_bound
  ok maximum

-- Whether an exception of the store is a ValueError: that of a closed one is not.
abbrev pub is_value_error : Error → Bool
is_value_error store_closed = false
is_value_error _ = true

abbrev pub first_line : List Text → Option Text
first_line [] = none
first_line (l ∷ ls) = some l

abbrev pub title_or_none : Text → Option Text
title_or_none [] = none
title_or_none (c ∷ cs) = some (c ∷ cs)

abbrev pub if_untitled :
    Option Session → Result (Option Text × Store) → Store → Result (Option Text × Store)
if_untitled none untitled s = ok (none, s)
if_untitled (some t) untitled s = if is_default t.title_source then untitled else ok (none, s)

-- `except ValueError: return None`, and else `title if written else None`.
abbrev pub titled : Text → Store → Result (Bool × Store) → Result (Option Text × Store)
titled title s (err e) = if is_value_error e then ok (none, s) else err e
titled title s (ok (written, s')) = ok (if written then some title else none, s')

module _ (is_space is_printable is_break : ℕ → Bool) where
  -- `_clean_title`; a line of nothing is not kept, so that the breaks may be told one by one.
  unfoldable pub clean_title : Text → ℕ → Option Text
  clean_title value maximum =
      let lines = split_words is_break [] (strip is_space value) in
      elim (first_line (select (λ l. not (no_text (strip is_space l))) lines)) [
        | none ↦ none
        | some line ↦
            let collapsed = join_words (split_words is_space [] line) in
            let printable = select is_printable collapsed in
            title_or_none (strip is_edge (take maximum (strip is_edge printable)))
      ]

  module _ {Time : Type 0} (is_aware : Time → Bool) (utc : Time → ℕ) where
    abbrev pub write_title : Text → Text → Time → Store → Result (Option Text × Store)
    write_title session title at s =
        titled title s
          (set_generated_conversation_title is_space is_printable is_aware utc session title at s)

    abbrev pub named : Text → Option Text → Bool → Time → Store → Result (Option Text × Store)
    named session none current at s = ok (none, s)
    named session (some title) current at s =
        if current then write_title session title at s else ok (none, s)

    abbrev pub answered :
        ℕ → Text → TitleAnswer → Bool → Time → Store → Result (Option Text × Store)
    answered maximum session backend_cancelled current at s = err task_cancelled
    answered maximum session backend_failed current at s = ok (none, s)
    answered maximum session (candidate value) current at s =
        named session (clean_title value maximum) current at s

    -- `meanwhile` is what other tasks do to the store while the backend is awaited.
    abbrev pub offered :
        ℕ
        → Text
        → List StoredTurn
        → Bool
        → Bool
        → (StoredTurn → TitleAnswer)
        → (Store → Store)
        → Time
        → Store
        → Result (Option Text × Store)
    offered maximum session (turn ∷ []) true current_second backend meanwhile at s =
        answered maximum session (backend turn) current_second at (meanwhile s)
    offered maximum session _ _ current_second backend meanwhile at s = ok (none, s)

    unfoldable pub maybe_title :
        ℕ
        → Text
        → ℤ
        → Bool
        → Bool
        → (StoredTurn → TitleAnswer)
        → (Store → Store)
        → Time
        → Store
        → Result (Option Text × Store)
    maybe_title maximum session generation_id current_first current_second backend meanwhile at s =
        do
          generation ← natural generation_id negative_generation
          thread ← get_conversation_thread is_space is_printable is_aware utc session s
          let untitled = do
            turns ← recent_complete_turns is_space is_aware utc session (pos 2) s
            offered maximum session turns current_first current_second backend meanwhile at s
          if_untitled thread untitled s
