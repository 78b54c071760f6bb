-- ===== src/Memory/Writes/Reaches.antt =====
-- The stores that the writes of memory/store.py lead to, one after the other.
use lune_voice_companion.Prelude.{ℕ, ◌≡◌, refl, Bool, Option, List, arith, ℤ}
use lune_voice_companion.Result.{ok}
use lune_voice_companion.Llm.Budget.{SettledAttempt}
use lune_voice_companion.Memory.Store.{
  Text, Role, Session, Event, Summary, Memory, Store, new_store, close,
}
use lune_voice_companion.Memory.Store.Turns.{
  start_session, end_session, begin_turn, insert_message, append_assistant_text, complete_turn,
  cancel_turn, record_retrieved_memories,
}
use lune_voice_companion.Memory.Store.Threads.{
  rename_conversation_thread, set_generated_conversation_title,
}
use lune_voice_companion.Memory.Store.Summaries.{StoredTurn, advance_summary}
use lune_voice_companion.Memory.Store.Memories.{
  MemoryInput, add_memory, forget_memory, apply_affinity, record_usage,
}
use lune_voice_companion.Memory.Steps.{Holds-ok}
use lune_voice_companion.Memory.Writes.{IsStore}
use lune_voice_companion.Memory.Writes.Turns.{
  start_session-Keeps, end_session-Keeps, begin_turn-Keeps, insert_message-Keeps,
  append_assistant_text-Keeps, complete_turn-Keeps, cancel_turn-Keeps,
}
use lune_voice_companion.Memory.Writes.Memories.{
  record_retrieved_memories-Keeps, rename_conversation_thread-Keeps,
  set_generated_conversation_title-Keeps, advance_summary-Keeps, add_memory-Keeps,
  forget_memory-Keeps, apply_affinity-Keeps, record_usage-Keeps,
}

module _ (is_space is_printable : ℕ → Bool) (casefold : Text → Text) (is_unit : ℕ → Bool)
    (normalized : ℕ → Option ℕ) {Time : Type 0} (is_aware : Time → Bool) (utc : Time → ℕ) where
  -- One write that does not raise.
  pub data Writes (s : Store) : Store → Type 0 where
    starts :
        (s' : Store) (id : Text) (title : Option Text) (at : Time) (x : Text)
        → start_session is_space is_printable is_aware utc id title at s ≡ ok (x, s')
        → Writes s s'
    ends :
        (s' : Store) (id : Text) (at : Time)
        → end_session is_space is_printable is_aware utc id at s ≡ ok s'
        → Writes s s'
    begins :
        (s' : Store) (session : Text) (generation : ℤ) (id : Text) (at : Time) (x : Text)
        → begin_turn is_space is_printable is_aware utc session generation id at s ≡ ok (x, s')
        → Writes s s'
    inserts :
        (s' : Store) (turn : Text) (role : Role) (content : Text) (at : Time) (fresh x : Text)
        → insert_message is_space is_printable is_aware utc turn role content at fresh s
          ≡ ok (x, s')
        → Writes s s'
    appends :
        (s' : Store) (turn content : Text) (at : Time) (fresh x : Text)
        → append_assistant_text is_space is_printable is_aware utc turn content at fresh s
          ≡ ok (x, s')
        → Writes s s'
    completes :
        (s' : Store) (turn : Text) (at : Time)
        → complete_turn is_space is_printable is_aware utc turn at s ≡ ok s'
        → Writes s s'
    cancels :
        (s' : Store) (turn : Text) (at : Time)
        → cancel_turn is_space is_printable is_aware utc turn at s ≡ ok s'
        → Writes s s'
    retrieves :
        (s' : Store) (turn : Text) (ids x : List Text)
        → record_retrieved_memories is_space is_printable is_aware utc turn ids s ≡ ok (x, s')
        → Writes s s'
    renames :
        (s' : Store) (id title : Text) (at : Time) (x : Session)
        → rename_conversation_thread is_space is_printable is_aware utc id title at s ≡ ok (x, s')
        → Writes s s'
    names :
        (s' : Store) (id title : Text) (at : Time) (x : Bool)
        → set_generated_conversation_title is_space is_printable is_aware utc id title at s
          ≡ ok (x, s')
        → Writes s s'
    summarizes :
        (s' : Store) (id : Text) (turns : List StoredTurn) (content : Text) (at : Time)
        (fresh : Text) (x : Summary)
        → advance_summary is_space is_aware utc id turns content at fresh s ≡ ok (x, s')
        → Writes s s'
    adds :
        (s' : Store) (input : MemoryInput is_space casefold is_unit normalized is_aware utc)
        (at : Time) (x : Option Memory)
        → add_memory is_space casefold is_unit normalized is_aware utc input at s ≡ ok (x, s')
        → Writes s s'
    forgets :
        (s' : Store) (id : Text) (x : Bool)
        → forget_memory is_space casefold is_unit normalized is_aware utc id s ≡ ok (x, s')
        → Writes s s'
    moves :
        (s' : Store) (id session turn : Text) (generation delta : ℤ) (reason : Text) (at : Time)
        (x : Option Event)
        → apply_affinity is_space casefold is_unit normalized is_aware utc id session turn
            generation delta reason at s
          ≡ ok (x, s')
        → Writes s s'
    charges : (s' : Store) (x : SettledAttempt) → record_usage x s ≡ ok s' → Writes s s'
    closes : Writes s (close s)

  -- Any number of writes; one that raises leaves the store as it is.
  pub data Reaches (s : Store) : Store → Type 0 where
    here : Reaches s s
    then_writes : (m n : Store) → Reaches s m → Writes m n → Reaches s n

  pub Writes-IsStore : {s s' : Store} → Writes s s' → IsStore s → IsStore s'
  unfolding close IsStore
  Writes-IsStore {s = s} (starts s' id title at x e) v =
      Holds-ok (λ r. IsStore r.1) _
        (start_session-Keeps is_space is_printable is_aware utc id title at s v) e
  Writes-IsStore {s = s} (ends s' id at e) v =
      Holds-ok IsStore _ (end_session-Keeps is_space is_printable is_aware utc id at s v) e
  Writes-IsStore {s = s} (begins s' session generation id at x e) v =
      Holds-ok (λ r. IsStore r.1) _
        (begin_turn-Keeps is_space is_printable is_aware utc session generation id at s v) e
  Writes-IsStore {s = s} (inserts s' turn role content at fresh x e) v =
      Holds-ok (λ r. IsStore r.1) _
        (insert_message-Keeps is_space is_printable is_aware utc turn role content at fresh s v) e
  Writes-IsStore {s = s} (appends s' turn content at fresh x e) v =
      Holds-ok (λ r. IsStore r.1) _
        (append_assistant_text-Keeps is_space is_printable is_aware utc turn content at fresh s v) e
  Writes-IsStore {s = s} (completes s' turn at e) v =
      Holds-ok IsStore _ (complete_turn-Keeps is_space is_printable is_aware utc turn at s v) e
  Writes-IsStore {s = s} (cancels s' turn at e) v =
      Holds-ok IsStore _ (cancel_turn-Keeps is_space is_printable is_aware utc turn at s v) e
  Writes-IsStore {s = s} (retrieves s' turn ids x e) v =
      Holds-ok (λ r. IsStore r.1) _
        (record_retrieved_memories-Keeps is_space is_printable is_aware utc turn ids s v) e
  Writes-IsStore {s = s} (renames s' id title at x e) v =
      Holds-ok (λ r. IsStore r.1) _
        (rename_conversation_thread-Keeps is_space is_printable is_aware utc id title at s v) e
  Writes-IsStore {s = s} (names s' id title at x e) v =
      Holds-ok (λ r. IsStore r.1) _
        (set_generated_conversation_title-Keeps is_space is_printable is_aware utc id title at s v)
        e
  Writes-IsStore {s = s} (summarizes s' id turns content at fresh x e) v =
      Holds-ok (λ r. IsStore r.1) _
        (advance_summary-Keeps is_space is_printable is_aware utc id turns content at fresh s v) e
  Writes-IsStore {s = s} (adds s' input at x e) v =
      Holds-ok (λ r. IsStore r.1) _
        (add_memory-Keeps is_space casefold is_unit normalized is_aware utc input at s v) e
  Writes-IsStore {s = s} (forgets s' id x e) v =
      Holds-ok (λ r. IsStore r.1) _
        (forget_memory-Keeps is_space casefold is_unit normalized is_aware utc id s v) e
  Writes-IsStore {s = s} (moves s' id session turn generation delta reason at x e) v =
      Holds-ok (λ r. IsStore r.1) _
        (apply_affinity-Keeps is_space casefold is_unit normalized is_aware utc id session turn
          generation delta reason at s v)
        e
  Writes-IsStore {s = s} (charges s' x e) v = Holds-ok IsStore _ (record_usage-Keeps x s v) e
  Writes-IsStore closes v = v

  Reaches-keeps : {s s' : Store} → Reaches s s' → IsStore s → IsStore s'
  Reaches-keeps here v = v
  Reaches-keeps (then_writes m n steps w) v = Writes-IsStore w (Reaches-keeps steps v)

  -- Whatever writes follow each other on a new database, by any callers and with any arguments: the
  -- affinity lies from 0 to 100 and is 50 moved by all events, the events of a session move it by
  -- three at most, no turn has two events, a complete turn has a message of the user and one of the
  -- assistant, and the turns of a session are numbered upwards in the order in which they began.
  pub Reaches-IsStore : {s : Store} → Reaches new_store s → IsStore s
  unfolding IsStore
  Reaches-IsStore steps =
      Reaches-keeps steps (
        record { scale = omega arith; balance = refl; bounded = λ session. refl; once = tt },
        tt,
        tt,
      )
