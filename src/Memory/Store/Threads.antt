-- ===== src/Memory/Store/Threads.antt =====
-- memory/store.py: what the interface shows of the sessions, and their titles.
use lune_voice_companion.Prelude.{
  ℕ, Bool, true, false, not, ◌&&◌, Option, List, [], ◌∷◌, ◌++◌, map, leb, if◌then◌else◌, same_text,
}
use lune_voice_companion.Result.{Result, guard, ◌>>=◌, ◌>>◌, store_closed, unknown_thread, ok}
use lune_voice_companion.Memory.Store.{
  Text, TitleSource, default, generated, manual, Role, user, assistant, Session, Turn, Message,
  Retrieval, Store, write, find, exists, update, select, is_session, in_session, is_complete,
  announce, thread_changed, validated_id, timestamp, required,
}
use lune_voice_companion.Memory.Store.Turns.{validated_thread_title}

pub record StoredMessage : Type 0 where
  pub id : Text
  pub thread_id : Text
  pub turn_id : Text
  pub sequence : ℕ
  pub role : Role
  pub created_at : ℕ
  pub content : Text
  pub memory_ids : List Text

abbrev pub is_default : TitleSource → Bool
is_default default = true
is_default generated = false
is_default manual = false

-- Rows in the order of a key, each after those of its key that come before it.
abbrev pub insert_by {ℓ} : {A : Type ℓ} → (A → ℕ) → A → List A → List A
insert_by key x [] = x ∷ []
insert_by key x (y ∷ ys) =
    let rest = insert_by key x ys in if leb (key x) (key y) then x ∷ y ∷ ys else y ∷ rest

abbrev pub sort_by {ℓ} : {A : Type ℓ} → (A → ℕ) → List A → List A
sort_by key [] = []
sort_by key (x ∷ xs) = insert_by key x (sort_by key xs)

abbrev pub complete_turns : Text → List Turn → List Turn
complete_turns session ts =
    sort_by (λ t. t.sequence) (select (λ t. in_session session t && is_complete t.status) ts)

abbrev pub of_role : Text → Role → Message → Bool
of_role turn user m = same_text m.turn_id turn && elim m.role [ user ↦ true | assistant ↦ false ]
of_role turn assistant m =
    same_text m.turn_id turn && elim m.role [ user ↦ false | assistant ↦ true ]

-- The memories linked to a turn, best match first.
abbrev pub retrieved : Text → List Retrieval → List Text
retrieved turn links =
    map (λ r. r.memory_id)
      (sort_by (λ r. r.position) (select (λ r. same_text r.turn_id turn) links))

abbrev pub shown : Turn → List Text → Message → StoredMessage
shown t memory_ids m = record {
  id = m.id;
  thread_id = t.session_id;
  turn_id = t.id;
  sequence = t.sequence;
  role = m.role;
  created_at = m.created_at;
  content = m.content;
  memory_ids = memory_ids;
}

-- A turn's messages, the user's first.
abbrev pub shown_turn : Store → Turn → List StoredMessage
shown_turn s t =
    map (shown t []) (select (of_role t.id user) s.messages)
    ++ map (shown t (retrieved t.id s.retrievals)) (select (of_role t.id assistant) s.messages)

abbrev pub concat_map {ℓ} : {A B : Type ℓ} → (A → List B) → List A → List B
concat_map f [] = []
concat_map f (x ∷ xs) = f x ++ concat_map f xs

module _ (is_space is_printable : ℕ → Bool) {Time : Type 0} (is_aware : Time → Bool)
    (utc : Time → ℕ) where
  unfoldable pub conversation_messages : Text → Store → Result (List StoredMessage)
  conversation_messages thread_id s = do
    id ← validated_id is_space thread_id
    guard (not s.closed) store_closed
    ok (concat_map (shown_turn s) (complete_turns id s.turns))

  unfoldable pub get_conversation_thread : Text → Store → Result (Option Session)
  get_conversation_thread thread_id s = do
    id ← validated_id is_space thread_id
    guard (not s.closed) store_closed
    ok (find (is_session id) s.sessions)

  unfoldable pub rename_conversation_thread : Text → Text → Time → Store → Result (Session × Store)
  rename_conversation_thread thread_id title at s = do
    id ← validated_id is_space thread_id
    clean ← validated_thread_title is_space is_printable is_aware utc title
    now ← timestamp is_aware utc at
    write s (do
      row ← required (find (is_session id) s.sessions) unknown_thread
      let rename =
          λ (t : Session). record t { title = clean; title_source = manual; updated_at = now }
      let written = record s { sessions = update (is_session id) rename s.sessions }
      ok (rename row, announce (thread_changed id) written))

  -- The thread whose title may be generated: still the default, with a complete turn.
  abbrev pub is_untitled : Text → Store → Session → Bool
  is_untitled id s t =
      is_session id t
      && is_default t.title_source
      && exists (λ u. in_session id u && is_complete u.status) s.turns

  unfoldable pub set_generated_conversation_title :
      Text → Text → Time → Store → Result (Bool × Store)
  set_generated_conversation_title thread_id title at s = do
    id ← validated_id is_space thread_id
    clean ← validated_thread_title is_space is_printable is_aware utc title
    write s (do
      now ← timestamp is_aware utc at
      let name =
          λ (t : Session). record t { title = clean; title_source = generated; updated_at = now }
      let written = record s { sessions = update (is_untitled id s) name s.sessions }
      if exists (is_untitled id s) s.sessions
          then ok (true, announce (thread_changed id) written)
          else ok (false, s))
