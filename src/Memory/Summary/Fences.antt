-- ===== src/Memory/Summary/Fences.antt =====
-- What `RollingSummaryManager` of memory/summary.py writes, and when.
use lune_voice_companion.Prelude.{
  ℕ, ◌<◌, ◌≡◌, refl, ◌⊎◌, inl, inr, Bool, true, false, not, ◌||◌, Option, none, some, List, arith,
  leb, length, take, ℤ,
}
use lune_voice_companion.Result.{Result, natural, negative_generation, ok}
use lune_voice_companion.Memory.Store.{Text, Summary, Store}
use lune_voice_companion.Memory.Steps.{Holds, >>=-Holds, if-Holds, ok-Holds}
use lune_voice_companion.Memory.Told.{IsNumbered}
use lune_voice_companion.Memory.Coverage.{Advances, advance_summary-Advances}
use lune_voice_companion.Memory.Store.Summaries.{
  StoredTurn, unsummarized_complete_turns, get_summary, advance_summary,
}
use lune_voice_companion.Memory.Summary.{SummaryRequest, maybe_summarize}

module _ (is_space : ℕ → Bool) {Time : Type 0} (is_aware : Time → Bool) (utc : Time → ℕ) where
  module _ (session : Text) (first second : Bool) (meanwhile : Store → Store) (s : Store) where
    -- What `maybe_summarize` may return: nothing, and it writes nothing, or a summary over the first
    -- four of more than twelve turns without one, while its generation stayed current.
    unfoldable pub IsSummarizing : Option Summary × Store → Type 0
    IsSummarizing (none, s') = (s' ≡ s) ⊎ (s' ≡ meanwhile s)
    IsSummarizing (some u, s') =
        (turns : List StoredTurn) × (unsummarized_complete_turns is_space is_aware utc session s
          ≡ ok turns)
        × (12 < length turns)
        × (first ≡ true)
        × (second ≡ true)
        × Advances session (meanwhile s) (take 4 turns) (u, s')

    skipped-IsSummarizing : Holds IsSummarizing (ok (none, s))
    unfolding IsSummarizing Holds
    skipped-IsSummarizing = inl refl

    dropped-IsSummarizing : Holds IsSummarizing (ok (none, meanwhile s))
    unfolding IsSummarizing Holds
    dropped-IsSummarizing = inr refl

    IsSummarizing-some :
        (turns : List StoredTurn) (r : Summary × Store)
        → unsummarized_complete_turns is_space is_aware utc session s ≡ ok turns
        → (leb (length turns) 12 || not first) ≡ false
        → second ≡ true
        → Advances session (meanwhile s) (take 4 turns) r
        → IsSummarizing (some r.0, r.1)
    unfolding IsSummarizing
    IsSummarizing-some turns r read asked current a =
        (turns, read, ground (arith, asked), ground (arith, asked), current, a)

    -- `maybe_summarize`, whatever other tasks do to the store while the backend is awaited, as long as
    -- the turns are then numbered upwards: where it does not raise, it either returns no summary and
    -- writes nothing, or stores one that covers the first four of more than twelve turns without one
    -- and leaves those after them, and its generation was current before the backend was asked and
    -- after it had answered.
    pub maybe_summarize-IsSummarizing :
        (generation_id : ℤ) (backend : SummaryRequest → Result Text) (at : Time) (fresh : Text)
        → IsNumbered (meanwhile s).turns
        → Holds IsSummarizing (
            maybe_summarize is_space is_aware utc session generation_id first second backend
              meanwhile at fresh s)
    unfolding maybe_summarize
    maybe_summarize-IsSummarizing generation_id backend at fresh numbered =
        let m = meanwhile s in
        >>=-Holds _ (natural generation_id negative_generation) _ (λ g e.
          >>=-Holds _ (unsummarized_complete_turns is_space is_aware utc session s) _ (λ turns read.
            if-Holds _ (leb (length turns) 12 || not first) _ _ (λ e. skipped-IsSummarizing)
              (λ asked. >>=-Holds _ (get_summary is_space is_aware utc session s) _ (λ previous e.
                >>=-Holds _ (backend _) _ (λ content e.
                  if-Holds _ second _ _
                    (λ current.
                      >>=-Holds _
                        (advance_summary is_space is_aware utc session (take 4 turns) content at
                          fresh m)
                        _
                        (λ r done. ok-Holds _ (
                          IsSummarizing-some turns r read asked current (
                            advance_summary-Advances is_space is_aware utc session (take 4 turns)
                              content at fresh m r numbered done))))
                    (λ e. dropped-IsSummarizing))))))
