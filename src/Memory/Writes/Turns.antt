-- ===== src/Memory/Writes/Turns.antt =====
-- Every write of memory/store.py to the sessions, turns and messages keeps the store well formed.
use lune_voice_companion.Prelude.{
  ℕ, refl, inl, inr, Bool, not, ◌&&◌, ◌||◌, Option, ◌++◌, arith, Option-cases, ℤ,
}
use lune_voice_companion.Result.{natural, negative_generation}
use lune_voice_companion.Memory.Store.{
  Text, complete, cancelled, Role, user, assistant, Store, exists, find, is_session, validated_id,
  validated_content, timestamp, require_pending_turn, is_turn, is_message,
}
use lune_voice_companion.Memory.Store.Turns.{
  title_of, is_open, start_session, end_session, begin_turn, insert_message, append_assistant_text,
  complete_turn, cancel_turn, is_named, has_message, new_message,
}
use lune_voice_companion.Memory.Steps.{ok-Holds, guard-Holds, Holds, >>=-Holds}
use lune_voice_companion.Memory.Writes.{IsStore, Keeps}
use lune_voice_companion.Memory.Told.{
  IsAnswered-cons, IsAnswered-update, IsAnswered-set_status, IsNumbered-set_status,
}

module _ (is_space is_printable : ℕ → Bool) {Time : Type 0} (is_aware : Time → Bool)
    (utc : Time → ℕ) where
  pub start_session-Keeps :
      (id : Text) (title : Option Text) (at : Time) (s : Store)
      → IsStore s
      → Keeps (start_session is_space is_printable is_aware utc id title at s)
  unfolding start_session IsStore
  start_session-Keeps id title at s v = >>=-Holds _ (validated_id is_space id) _ (λ a e.
      >>=-Holds _ (title_of is_space is_printable is_aware utc title) _ (λ a' e.
        >>=-Holds _ (timestamp is_aware utc at) _ (λ now e.
          guard-Holds _ (not s.closed) _ _
            (λ e. guard-Holds _ (not (exists (is_session a) s.sessions)) _ _ (λ e. ok-Holds _ v)))))

  pub end_session-Keeps :
      (id : Text) (at : Time) (s : Store)
      → IsStore s
      → Holds IsStore (end_session is_space is_printable is_aware utc id at s)
  unfolding end_session IsStore
  end_session-Keeps id at s v = >>=-Holds _ (timestamp is_aware utc at) _ (λ now e.
      >>=-Holds _ (validated_id is_space id) _ (λ a e.
        guard-Holds _ (not s.closed) _ _
          (λ e. guard-Holds _ (exists (is_open a) s.sessions) _ _ (λ e. ok-Holds _ v))))

  pub begin_turn-Keeps :
      (session : Text) (generation : ℤ) (id : Text) (at : Time) (s : Store)
      → IsStore s
      → Keeps (begin_turn is_space is_printable is_aware utc session generation id at s)
  unfolding begin_turn IsStore
  begin_turn-Keeps session generation id at s (related, told, numbered) =
      >>=-Holds _ (natural generation negative_generation) _ (λ g e.
        >>=-Holds _ (validated_id is_space id) _ (λ a e.
          >>=-Holds _ (validated_id is_space session) _ (λ b e.
            guard-Holds _ (not s.closed) _ _ (λ e.
              >>=-Holds _ (timestamp is_aware utc at) _ (λ now e.
                guard-Holds _ (exists (is_session b) s.sessions && not (exists (is_turn a) s.turns))
                  _ _ (λ e. ok-Holds _ (related, ((λ c. cc c), told), (omega arith, numbered))))))))

  pub insert_message-Keeps :
      (turn : Text) (role : Role) (content : Text) (at : Time) (fresh : Text) (s : Store)
      → IsStore s
      → Keeps (insert_message is_space is_printable is_aware utc turn role content at fresh s)
  unfolding insert_message IsStore
  insert_message-Keeps turn role content at fresh s (related, told, numbered) =
      >>=-Holds _ (validated_content is_space content) _ (λ clean e.
        >>=-Holds _ (validated_id is_space turn) _ (λ a e. guard-Holds _ (not s.closed) _ _ (λ e.
          >>=-Holds _ (require_pending_turn s a) _ (λ t e.
            >>=-Holds _ (timestamp is_aware utc at) _ (λ now e.
              guard-Holds _ (not (has_message a role s || exists (is_named fresh) s.messages)) _ _
                (λ e. ok-Holds _ (
                  related,
                  IsAnswered-cons (new_message fresh a role clean now) s.messages s.turns told,
                  numbered,
                )))))))

  pub cancel_turn-Keeps :
      (turn : Text) (at : Time) (s : Store)
      → IsStore s
      → Holds IsStore (cancel_turn is_space is_printable is_aware utc turn at s)
  unfolding cancel_turn IsStore
  cancel_turn-Keeps turn at s (related, told, numbered) =
      >>=-Holds _ (validated_id is_space turn) _ (λ a e. guard-Holds _ (not s.closed) _ _ (λ e.
        >>=-Holds _ (require_pending_turn s a) _ (λ t e.
          >>=-Holds _ (timestamp is_aware utc at) _ (λ now e. ok-Holds _ (
            related,
            IsAnswered-set_status cancelled now a s.messages s.turns (λ c. cc c) told,
            IsNumbered-set_status cancelled now a s.turns numbered,
          )))))

  pub complete_turn-Keeps :
      (turn : Text) (at : Time) (s : Store)
      → IsStore s
      → Holds IsStore (complete_turn is_space is_printable is_aware utc turn at s)
  unfolding complete_turn IsStore
  complete_turn-Keeps turn at s (related, told, numbered) =
      >>=-Holds _ (validated_id is_space turn) _ (λ a e.
        >>=-Holds _ (timestamp is_aware utc at) _ (λ now e. guard-Holds _ (not s.closed) _ _ (λ e.
          >>=-Holds _ (require_pending_turn s a) _ (λ t e.
            guard-Holds _ (has_message a user s && has_message a assistant s) _ _ (λ e. ok-Holds _ (
              related,
              IsAnswered-set_status complete now a s.messages s.turns
                  (λ c. (ground (arith, e), ground (arith, e))) told,
              IsNumbered-set_status complete now a s.turns numbered,
            ))))))

  pub append_assistant_text-Keeps :
      (turn content : Text) (at : Time) (fresh : Text) (s : Store)
      → IsStore s
      → Keeps (append_assistant_text is_space is_printable is_aware utc turn content at fresh s)
  unfolding append_assistant_text IsStore
  append_assistant_text-Keeps turn content at fresh s (related, told, numbered) =
      >>=-Holds _ (validated_content is_space content) _ (λ clean e.
        >>=-Holds _ (validated_id is_space turn) _ (λ a e. guard-Holds _ (not s.closed) _ _ (λ e.
          >>=-Holds _ (require_pending_turn s a) _ (λ t e.
            elim (Option-cases (find (is_message a assistant) s.messages)) [
              | inl missing ↦ rw missing (
                  >>=-Holds _ (timestamp is_aware utc at) _ (λ now e.
                    guard-Holds _ (not (exists (is_named fresh) s.messages)) _ _ (λ e. ok-Holds _ (
                      related,
                      IsAnswered-cons (new_message fresh a assistant clean now) s.messages s.turns
                          told,
                      numbered,
                    ))))
              | inr (found, e) ↦ rw e (
                  ok-Holds _ (
                    related,
                    IsAnswered-update (is_named found.id)
                        (λ m. record m { content = found.content ++ clean }) s.messages s.turns
                        (λ turn role m. refl) told,
                    numbered,
                  ))
            ]))))
