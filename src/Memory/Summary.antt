-- ===== src/Memory/Summary.antt =====
-- memory/summary.py: when a session's summary is advanced. What the backend writes is given from
-- outside, and so is what `is_generation_current` returns when it is called first and second.
pub mod Fences
use lune_voice_companion.Prelude.{
  ℕ, Bool, not, ◌||◌, Option, none, some, List, leb, if◌then◌else◌, length, take, ℤ,
}
use lune_voice_companion.Result.{Result, ◌>>=◌, ◌>>◌, natural, negative_generation, ok}
use lune_voice_companion.Memory.Store.{Text, Summary, Store}
use lune_voice_companion.Memory.Store.Summaries.{
  StoredTurn, unsummarized_complete_turns, get_summary, advance_summary,
}

pub record SummaryRequest : Type 0 where
  pub generation_id : ℕ
  pub turns : List StoredTurn
  pub previous_summary : Option Text

abbrev pub content_of : Option Summary → Option Text
content_of none = none
content_of (some u) = some u.content

-- What `advance_summary` returns is a coverage here, which may also be None.
abbrev pub advanced : Result (Summary × Store) → Result (Option Summary × Store)
advanced r = do (row, s) ← r; ok (some row, s)

module _ (is_space : ℕ → Bool) {Time : Type 0} (is_aware : Time → Bool) (utc : Time → ℕ) where
  -- `meanwhile` is what other tasks do to the store while the backend is awaited.
  unfoldable pub maybe_summarize :
      Text
      → ℤ
      → Bool
      → Bool
      → (SummaryRequest → Result Text)
      → (Store → Store)
      → Time
      → Text
      → Store
      → Result (Option Summary × Store)
  maybe_summarize session generation_id current_first current_second backend meanwhile at fresh s =
      do
        generation ← natural generation_id negative_generation
        unsummarized ← unsummarized_complete_turns is_space is_aware utc session s
        let chunk = take 4 unsummarized
        let summarized = do
          previous ← get_summary is_space is_aware utc session s
          content ← backend (record {
            generation_id = generation;
            turns = chunk;
            previous_summary = content_of previous;
          })
          if current_second
              then advanced (
                  advance_summary is_space is_aware utc session chunk content at fresh
                    (meanwhile s))
              else ok (none, meanwhile s)
        if leb (length unsummarized) 12 || not current_first then ok (none, s) else summarized
