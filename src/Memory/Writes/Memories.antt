-- ===== src/Memory/Writes/Memories.antt =====
-- Every other write of memory/store.py keeps the store well formed.
use lune_voice_companion.Prelude.{
  ℕ, suc, ◌≡◌, refl, inl, inr, Bool, not, ◌&&◌, ◌||◌, Option, none, some, List, [], ◌∷◌, map, leb,
  ◌==◌, Bool-cases, length, ℤ, same_text,
}
use lune_voice_companion.Result.{
  natural, negative_generation, bad_category, unknown_thread, affinity_other_session, bad_embedding,
}
use lune_voice_companion.Llm.Budget.{SettledAttempt}
use lune_voice_companion.Memory.Store.{
  Text, Event, Store, exists, find, is_session, validated_id, validated_content, timestamp,
  require_pending_turn, is_turn, required,
}
use lune_voice_companion.Memory.Store.Turns.{
  is_link, unique_ids, validated_thread_title, link_all, record_retrieved_memories,
}
use lune_voice_companion.Memory.Store.Threads.{
  is_untitled, rename_conversation_thread, set_generated_conversation_title,
}
use lune_voice_companion.Memory.Store.Summaries.{
  StoredTurn, advance_summary, all_of, is_increasing, same_turns,
}
use lune_voice_companion.Memory.Store.Memories.{
  MemoryInput, is_attempt, is_memory, normalize_content, add_memory, forget_memory, apply_affinity,
  record_usage, apply_event, within_scale, shifted, delta_of, is_event, is_beyond, moved, sum_of,
  events_of,
}
use lune_voice_companion.Memory.Steps.{ok-Holds, guard-Holds, Holds, >>=-Holds, if-Holds}
use lune_voice_companion.Memory.Writes.{IsStore, Keeps}
use lune_voice_companion.Memory.Related.{IsRelated, apply_event-IsRelated}

-- Links are all that `link_all` writes.
link_all-IsStore :
    (turn : Text) (position : ℕ) (ids : List Text) (s : Store)
    → IsStore s
    → IsStore (link_all turn position ids s).1
unfolding link_all IsStore
link_all-IsStore turn position [] s v = v
link_all-IsStore turn position (id ∷ ids) s v =
    elim (Bool-cases
      (exists (λ m. same_text m.id id) s.memories && not (exists (is_link turn id) s.retrievals))) [
        | inl e ↦ rw e (link_all-IsStore turn (suc position) ids _ v)
        | inr e ↦ rw e (link_all-IsStore turn (suc position) ids s v)
      ]

pub record_usage-Keeps :
    (x : SettledAttempt) (s : Store) → IsStore s → Holds IsStore (record_usage x s)
unfolding record_usage IsStore
record_usage-Keeps x s v = guard-Holds _ (not s.closed) _ _ (λ e.
    guard-Holds _ (not (exists (is_attempt x.reservation.attempt_id) s.usages)) _ _
      (λ e. ok-Holds _ v))

module _ (is_space is_printable : ℕ → Bool) {Time : Type 0} (is_aware : Time → Bool)
    (utc : Time → ℕ) where
  pub record_retrieved_memories-Keeps :
      (turn : Text) (ids : List Text) (s : Store)
      → IsStore s
      → Keeps (record_retrieved_memories is_space is_printable is_aware utc turn ids s)
  unfolding record_retrieved_memories
  record_retrieved_memories-Keeps turn ids s v = >>=-Holds _ (validated_id is_space turn) _ (λ a e.
      >>=-Holds _ (unique_ids is_space is_printable is_aware utc [] ids) _ (λ ordered e.
        guard-Holds _ (leb (length ordered) 5) _ _ (λ e.
          if-Holds _ (leb (length ordered) 0) _ _ (λ e. ok-Holds _ v)
            (λ e. guard-Holds _ (not s.closed) _ _ (λ e.
              >>=-Holds _ (require_pending_turn s a) _
                (λ t e. ok-Holds _ (link_all-IsStore a 0 ordered s v)))))))

  pub rename_conversation_thread-Keeps :
      (id title : Text) (at : Time) (s : Store)
      → IsStore s
      → Keeps (rename_conversation_thread is_space is_printable is_aware utc id title at s)
  unfolding rename_conversation_thread IsStore
  rename_conversation_thread-Keeps id title at s v =
      >>=-Holds _ (validated_id is_space id) _ (λ a e.
        >>=-Holds _ (validated_thread_title is_space is_printable is_aware utc title) _ (λ t e.
          >>=-Holds _ (timestamp is_aware utc at) _ (λ now e. guard-Holds _ (not s.closed) _ _ (λ e.
            >>=-Holds _ (required (find (is_session a) s.sessions) unknown_thread) _
              (λ r e. ok-Holds _ v)))))

  pub set_generated_conversation_title-Keeps :
      (id title : Text) (at : Time) (s : Store)
      → IsStore s
      → Keeps (set_generated_conversation_title is_space is_printable is_aware utc id title at s)
  unfolding set_generated_conversation_title IsStore
  set_generated_conversation_title-Keeps id title at s v =
      >>=-Holds _ (validated_id is_space id) _ (λ a e.
        >>=-Holds _ (validated_thread_title is_space is_printable is_aware utc title) _ (λ t e.
          guard-Holds _ (not s.closed) _ _ (λ e. >>=-Holds _ (timestamp is_aware utc at) _ (λ now e.
            if-Holds _ (exists (is_untitled is_space is_printable is_aware utc a s) s.sessions) _ _
              (λ e. ok-Holds _ v) (λ e. ok-Holds _ v)))))

  pub advance_summary-Keeps :
      (id : Text) (turns : List StoredTurn) (content : Text) (at : Time) (fresh : Text) (s : Store)
      → IsStore s
      → Keeps (advance_summary is_space is_aware utc id turns content at fresh s)
  unfolding advance_summary IsStore
  advance_summary-Keeps id turns content at fresh s v = guard-Holds _ (length turns == 4) _ _ (λ e.
      >>=-Holds _ (validated_content is_space content) _ (λ clean e.
        >>=-Holds _ (validated_id is_space id) _ (λ a e.
          guard-Holds _ (all_of (λ t. same_text t.session_id a) turns) _ _ (λ e.
            guard-Holds _ (is_increasing (map (λ t. t.sequence) turns)) _ _ (λ e.
              guard-Holds _ (not s.closed) _ _ (λ e.
                guard-Holds _ (same_turns _ turns) _ _
                  (λ e. >>=-Holds _ (timestamp is_aware utc at) _ (λ now e. ok-Holds _ v))))))))

module _ (is_space : ℕ → Bool) (casefold : Text → Text) (is_unit : ℕ → Bool)
    (normalized : ℕ → Option ℕ) {Time : Type 0} (is_aware : Time → Bool) (utc : Time → ℕ) where
  pub add_memory-Keeps :
      (input : MemoryInput is_space casefold is_unit normalized is_aware utc) (at : Time)
      (s : Store)
      → IsStore s
      → Keeps (add_memory is_space casefold is_unit normalized is_aware utc input at s)
  unfolding add_memory IsStore
  add_memory-Keeps input at s v = >>=-Holds _ (validated_id is_space input.memory_id) _ (λ a e.
      >>=-Holds _ (validated_content is_space input.content) _ (λ clean e.
        >>=-Holds _ (required input.category bad_category) _ (λ c e.
          guard-Holds _ (is_unit input.importance) _ _ (λ e.
            >>=-Holds _ (required (normalized input.embedding) bad_embedding) _ (λ vector e.
              >>=-Holds _ (timestamp is_aware utc at) _ (λ now e.
                guard-Holds _ (not s.closed) _ _ (λ e.
                  >>=-Holds _ (validated_id is_space input.source_turn_id) _ (λ t e.
                    if-Holds _
                      (exists
                        (λ m.
                          is_memory a m
                          || same_text m.normalized_content (
                              normalize_content is_space casefold is_unit normalized is_aware utc
                                clean))
                        s.memories)
                      _ _ (λ e. ok-Holds _ v)
                      (λ e.
                        guard-Holds _ (exists (is_turn t) s.turns) _ _ (λ e. ok-Holds _ v))))))))))

  pub forget_memory-Keeps :
      (id : Text) (s : Store)
      → IsStore s
      → Keeps (forget_memory is_space casefold is_unit normalized is_aware utc id s)
  unfolding forget_memory IsStore
  forget_memory-Keeps id s v = guard-Holds _ (not s.closed) _ _ (λ e.
      >>=-Holds _ (validated_id is_space id) _ (λ a e.
        if-Holds _ (exists (is_memory a) s.memories) _ _ (λ e. ok-Holds _ v) (λ e. ok-Holds _ v)))

  apply_event-IsStore :
      (o : Option ℕ) (event : ℕ → Event) (s : Store)
      → ((n : ℕ) → o ≡ some n → IsRelated n (event n ∷ s.events))
      → IsStore s
      → IsStore (apply_event o event s).1
  unfolding IsStore
  apply_event-IsStore none event s h v = v
  apply_event-IsStore (some n) event s h v = (h n refl, v.1, v.2)

  pub apply_affinity-Keeps :
      (id session turn : Text) (generation delta : ℤ) (reason : Text) (at : Time) (s : Store)
      → IsStore s
      → Keeps (
          apply_affinity is_space casefold is_unit normalized is_aware utc id session turn
            generation delta reason at s)
  unfolding apply_affinity IsStore
  apply_affinity-Keeps id session turn generation delta reason at s v =
      >>=-Holds _ (delta_of delta) _ (λ step e.
        >>=-Holds _ (natural generation negative_generation) _ (λ g e.
          >>=-Holds _ (validated_id is_space id) _ (λ i e.
            >>=-Holds _ (validated_id is_space session) _ (λ b e.
              >>=-Holds _ (validated_id is_space turn) _ (λ t e.
                >>=-Holds _ (validated_content is_space reason) _ (λ clean e.
                  >>=-Holds _ (timestamp is_aware utc at) _ (λ now e.
                    guard-Holds _ (not s.closed) _ _ (λ e.
                      if-Holds _ (exists (is_event i t) s.events) _ _ (λ e. ok-Holds _ v)
                        (λ new.
                          >>=-Holds _ (required (find (is_turn t) s.turns) affinity_other_session) _
                            (λ row e. guard-Holds _ (same_text row.session_id b) _ _ (λ e.
                              guard-Holds _ (row.generation_id == g) _ _ (λ e.
                                if-Holds _ (is_beyond (moved step (sum_of (events_of b s.events))))
                                  _ _ (λ e. ok-Holds _ v)
                                  (λ near. ok-Holds _ (
                                    apply_event-IsStore (within_scale (shifted step s.affinity)) _ s
                                      (λ n on_scale.
                                        apply_event-IsRelated s _ v.0 new near on_scale)
                                      v))))))))))))))
