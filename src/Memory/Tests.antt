-- ===== src/Memory/Tests.antt =====
-- The theorems on src/lune/memory at concrete inputs.
use lune_voice_companion.Prelude.{
  ℕ, ◌+◌, refl, Bool, true, Option, none, some, List, [], ◌∷◌, map, arith, ◌==◌, pos,
}
use lune_voice_companion.Result.{Result, ok}
use lune_voice_companion.Llm.Budget.{Ledger}
use lune_voice_companion.Memory.Store.{
  Text, Turn, pending, complete, Event, Store, Session, new_store, default, manual, explicit_plan,
  Summary, thread_changed, raise,
}
use lune_voice_companion.Memory.Store.Turns.{start_session, begin_turn}
use lune_voice_companion.Memory.Store.Memories.{apply_affinity}
use lune_voice_companion.Memory.Store.Summaries.{StoredTurn, advance_summary, stored_turn}
use lune_voice_companion.Memory.Coverage.{Advances, advance_summary-Advances}
use lune_voice_companion.Memory.Writes.{IsStore}
use lune_voice_companion.Memory.Writes.Reaches.{
  here, then_writes, starts, begins, moves, Reaches-IsStore,
}
use lune_voice_companion.Memory.Proposals.{MemoryProposal, Host, commit_generation}
use lune_voice_companion.Memory.Proposals.Commits.{Commits, commit_generation-Commits}
use lune_voice_companion.Memory.Steps.{Holds}
use lune_voice_companion.Memory.Summary.{maybe_summarize}
use lune_voice_companion.Memory.Summary.Fences.{IsSummarizing, maybe_summarize-IsSummarizing}

abbrev is_blank : ℕ → Bool
is_blank c = c == 32

abbrev any_char : ℕ → Bool
any_char c = true

abbrev same_case : Text → Text
same_case cs = cs

abbrev as_it_is : ℕ → Option ℕ
as_it_is n = some n

abbrev always : ℕ → Bool
always t = true

abbrev clock : ℕ → ℕ
clock t = t

abbrev one : Text
one = 49 ∷ []

abbrev session : Session
session = record {
  id = one;
  started_at = 7;
  ended_at = none;
  title = one;
  title_source = manual;
  updated_at = 7;
}

abbrev first_store : Store
first_store = record new_store { sessions = session ∷ []; announced = thread_changed one ∷ [] }

abbrev turn : ℕ → Turn
turn n = record {
  id = (48 + n) ∷ [];
  session_id = one;
  generation_id = 5;
  sequence = n;
  status = pending;
  started_at = 7;
  completed_at = none;
}

abbrev second_store : Store
second_store = record first_store { turns = turn 1 ∷ [] }

abbrev event : Event
event = record {
  id = one;
  session_id = one;
  turn_id = one;
  generation_id = 5;
  delta = raise;
  reason = one;
  resulting_affinity = 51;
  created_at = 7;
}

abbrev third_store : Store
third_store = record second_store { affinity = 51; events = event ∷ [] }

-- A session, its first turn and a step of the affinity.
Reaches-IsStore_example : IsStore third_store
unfolding start_session begin_turn apply_affinity
Reaches-IsStore_example =
    Reaches-IsStore is_blank any_char same_case any_char as_it_is always clock (
      then_writes second_store third_store
        (then_writes first_store second_store
          (then_writes new_store first_store here (starts first_store one (some one) 7 one refl))
          (begins second_store one (pos 5) one 7 one refl))
        (moves third_store one one one (pos 5) (pos 1) one 7 (some event) refl))

abbrev proposal : MemoryProposal
proposal = record {
  proposal_id = one;
  generation_id = pos 5;
  session_id = one;
  turn_id = one;
  category = some explicit_plan;
  importance = 1;
  content = one;
}

abbrev host : Host
host = record {
  memory = proposal ∷ [];
  affinity =
      record {
        proposal_id = 50 ∷ [];
        generation_id = pos 5;
        session_id = one;
        turn_id = one;
        delta = pos 1;
        reason = one;
      }
      ∷ [];
}

abbrev embed : Text → Result ℕ
embed cs = ok 4

commit_generation-Commits_example :
    Commits is_blank any_char same_case any_char as_it_is always clock 7 embed true
      (pos 5)
      host
      second_store
      (commit_generation is_blank any_char same_case any_char as_it_is always clock 7
        (pos 5)
        true
        true
        embed
        host
        second_store)
commit_generation-Commits_example =
    commit_generation-Commits is_blank any_char same_case any_char as_it_is always clock 7 (pos 5)
      true true embed host second_store

abbrev finished_turn : ℕ → Turn
finished_turn n = record (turn n) { status = complete }

abbrev full_store : Store
full_store = record first_store {
  turns =
      finished_turn 5 ∷ finished_turn 4 ∷ finished_turn 3 ∷ finished_turn 2 ∷ finished_turn 1 ∷ [];
}

abbrev four_turns : List StoredTurn
four_turns = map (λ n. stored_turn full_store (finished_turn n)) (1 ∷ 2 ∷ 3 ∷ 4 ∷ [])

abbrev summary : Summary
summary = record {
  id = one;
  session_id = one;
  start_turn_sequence = 1;
  end_turn_sequence = 4;
  covered_turn_count = 4;
  content = one;
}

advance_summary-Advances_example :
    Advances one full_store four_turns (summary, record full_store { summaries = summary ∷ [] })
unfolding advance_summary
advance_summary-Advances_example =
    advance_summary-Advances is_blank {Time = ℕ} always clock one four_turns one 7 one full_store
      (summary, record full_store { summaries = summary ∷ [] })
      (omega arith, (omega arith, (omega arith, (omega arith, (omega arith, tt))))) refl

abbrev ledger : Ledger
ledger = record {
  fx = 3300;
  fallback = 7000;
  lock = 9000;
  confirmed = λ p. 0;
  active = [];
  settled = [];
}

-- A session that has its first title and one turn.
abbrev untitled_store : Store
untitled_store = record new_store {
  sessions = record session { title_source = default } ∷ [];
  turns = finished_turn 1 ∷ [];
}

-- While the backend is awaited, a second session is begun.
abbrev begins_another : Store → Store
begins_another s = record s { sessions = record session { id = 50 ∷ [] } ∷ s.sessions }

-- A session with thirteen turns.
abbrev long_store : Store
long_store = record first_store {
  turns = map finished_turn (13 ∷ 12 ∷ 11 ∷ 10 ∷ 9 ∷ 8 ∷ 7 ∷ 6 ∷ 5 ∷ 4 ∷ 3 ∷ 2 ∷ 1 ∷ []);
}

maybe_summarize-IsSummarizing_example :
    Holds (IsSummarizing is_blank always clock one true true begins_another long_store) (
      maybe_summarize is_blank always clock one
        (pos 5)
        true
        true
        (λ asked. ok one)
        begins_another
        7
        one
        long_store)
maybe_summarize-IsSummarizing_example =
    maybe_summarize-IsSummarizing is_blank {Time = ℕ} always clock one true true begins_another
      long_store (pos 5) (λ asked. ok one) 7 one
      (
        omega arith,
        (
          omega arith,
          (
            omega arith,
            (
              omega arith,
              (
                omega arith,
                (
                  omega arith,
                  (
                    omega arith,
                    (
                      omega arith,
                      (omega arith, (omega arith, (omega arith, (omega arith, (omega arith, tt))))),
                    ),
                  ),
                ),
              ),
            ),
          ),
        ),
      )
