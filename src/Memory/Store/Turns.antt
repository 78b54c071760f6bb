-- ===== src/Memory/Store/Turns.antt =====
-- memory/store.py: sessions, turns and their messages.
use lune_voice_companion.Prelude.{
  ℕ, suc, Bool, true, false, not, ◌&&◌, ◌||◌, Option, none, some, List, [], ◌∷◌, ◌++◌, leb, ◌==◌,
  if◌then◌else◌, length, ℤ, same_text, no_text, strip, pos, negsuc,
}
use lune_voice_companion.Result.{
  Result, guard, ◌>>=◌, ◌>>◌, natural, negative_generation, bad_title, store_closed,
  duplicate_session, unknown_session_or_duplicate_turn, duplicate_message, incomplete_turn,
  unknown_or_ended_session, too_many_memories, ok,
}
use lune_voice_companion.Memory.Store.{
  Text, default, manual, TitleSource, TurnStatus, pending, complete, cancelled, Role, user,
  assistant, Session, Turn, Message, Retrieval, Store, write, find, exists, update, is_turn,
  is_session, require_pending_turn, announce, last_sequence, is_message, is_pending, validated_id,
  validated_content, timestamp, thread_changed, messages_changed,
}

-- 新對話
abbrev pub default_title : Text
default_title = 26032 ∷ 23565 ∷ 35441 ∷ []

abbrev pub is_open : Text → Session → Bool
is_open id t = is_session id t && elim t.ended_at [ none ↦ true | some at ↦ false ]

abbrev pub new_message : Text → Text → Role → Text → ℕ → Message
new_message id turn role content now = record {
  id = id;
  turn_id = turn;
  role = role;
  content = content;
  created_at = now;
}

abbrev pub has_message : Text → Role → Store → Bool
has_message turn role s = exists (is_message turn role) s.messages

abbrev pub is_named : Text → Message → Bool
is_named id m = same_text m.id id

-- UPDATE turns SET status = …, completed_at = … WHERE id = ?
abbrev pub set_status : TurnStatus → ℕ → Text → List Turn → List Turn
set_status status now id =
    update (is_turn id) (λ t. record t { status = status; completed_at = some now })

abbrev pub is_link : Text → Text → Retrieval → Bool
is_link turn memory r = same_text r.turn_id turn && same_text r.memory_id memory

-- INSERT OR IGNORE … SELECT … FROM long_term_memories, for each identifier at its position.
unfoldable pub link_all : Text → ℕ → List Text → Store → List Text × Store
link_all turn position [] s = ([], s)
link_all turn position (id ∷ ids) s =
    let link : Retrieval = record { turn_id = turn; memory_id = id; position = position } in
    let skipped = link_all turn (suc position) ids s in
    let linked =
      link_all turn (suc position) ids (record s { retrievals = s.retrievals ++ link ∷ [] }) in
    if exists (λ m. same_text m.id id) s.memories && not (exists (is_link turn id) s.retrievals)
    then (id ∷ linked.0, linked.1)
    else skipped

module _ (is_space is_printable : ℕ → Bool) {Time : Type 0} (is_aware : Time → Bool)
    (utc : Time → ℕ) where
  abbrev pub all_printable : Text → Bool
  all_printable [] = true
  all_printable (c ∷ cs) = let rest = all_printable cs in is_printable c && rest

  abbrev pub validated_thread_title : Text → Result Text
  validated_thread_title value = do
    let clean = strip is_space value
    guard (not (no_text clean) && leb (length clean) 160 && all_printable clean) bad_title
    ok clean

  -- The title of a new session, and where it is from.
  abbrev pub title_of : Option Text → Result (Text × TitleSource)
  title_of none = ok (default_title, default)
  title_of (some title) = do clean ← validated_thread_title title; ok (clean, manual)

  unfoldable pub start_session : Text → Option Text → Time → Store → Result (Text × Store)
  start_session session_id title at s = do
    id ← validated_id is_space session_id
    titled ← title_of title
    now ← timestamp is_aware utc at
    write s (do
      guard (not (exists (is_session id) s.sessions)) duplicate_session
      let session : Session = record {
        id = id;
        started_at = now;
        ended_at = none;
        title = titled.0;
        title_source = titled.1;
        updated_at = now;
      }
      ok (id, announce (thread_changed id) (record s { sessions = session ∷ s.sessions })))

  unfoldable pub end_session : Text → Time → Store → Result Store
  end_session session_id at s = do
    now ← timestamp is_aware utc at
    id ← validated_id is_space session_id
    write s (do
      guard (exists (is_open id) s.sessions) unknown_or_ended_session
      let ended = λ (t : Session). record t { ended_at = some now; updated_at = now }
      ok (
          announce (thread_changed id)
            (record s { sessions = update (is_open id) ended s.sessions })))

  -- The row is refused where its session is unknown or its identifier is taken.
  unfoldable pub begin_turn : Text → ℤ → Text → Time → Store → Result (Text × Store)
  begin_turn session_id generation_id turn_id at s = do
    generation ← natural generation_id negative_generation
    id ← validated_id is_space turn_id
    session ← validated_id is_space session_id
    write s (do
      now ← timestamp is_aware utc at
      guard (exists (is_session session) s.sessions && not (exists (is_turn id) s.turns))
          unknown_session_or_duplicate_turn
      let turn : Turn = record {
        id = id;
        session_id = session;
        generation_id = generation;
        sequence = suc (last_sequence session s.turns);
        status = pending;
        started_at = now;
        completed_at = none;
      }
      ok (id, record s { turns = turn ∷ s.turns }))

  -- `_insert_message`, with the identifier that `uuid4` gives.
  unfoldable pub insert_message : Text → Role → Text → Time → Text → Store → Result (Text × Store)
  insert_message turn_id role content at fresh s = do
    clean ← validated_content is_space content
    id ← validated_id is_space turn_id
    write s (do
      turn ← require_pending_turn s id
      now ← timestamp is_aware utc at
      guard (not (has_message id role s || exists (is_named fresh) s.messages)) duplicate_message
      let message = new_message fresh id role clean now
      ok (fresh, record s { messages = message ∷ s.messages }))

  abbrev pub accept_user_transcript : Text → Text → Time → Text → Store → Result (Text × Store)
  accept_user_transcript turn_id content at fresh s = insert_message turn_id user content at fresh s

  -- `_append_assistant_text`: both `append_assistant_playback` and `append_assistant_text_delivery`.
  unfoldable pub append_assistant_text : Text → Text → Time → Text → Store → Result (Text × Store)
  append_assistant_text turn_id content at fresh s = do
    clean ← validated_content is_space content
    id ← validated_id is_space turn_id
    write s (do
      turn ← require_pending_turn s id
      elim (find (is_message id assistant) s.messages) [
        | none ↦ do
          now ← timestamp is_aware utc at
          guard (not (exists (is_named fresh) s.messages)) duplicate_message
          let message = new_message fresh id assistant clean now
          ok (fresh, record s { messages = message ∷ s.messages })
        | some found ↦
            let longer = λ (m : Message). record m { content = found.content ++ clean } in
            ok (found.id, record s { messages = update (is_named found.id) longer s.messages })
      ])

  unfoldable pub complete_turn : Text → Time → Store → Result Store
  complete_turn turn_id at s = do
    id ← validated_id is_space turn_id
    now ← timestamp is_aware utc at
    write s (do
      turn ← require_pending_turn s id
      guard (has_message id user s && has_message id assistant s) incomplete_turn
      let touched = update (is_session turn.session_id) (λ t. record t { updated_at = now })
      let written = record s {
        turns = set_status complete now id s.turns;
        sessions = touched s.sessions;
      }
      ok (
          announce (thread_changed turn.session_id)
            (announce (messages_changed turn.session_id id) written)))

  unfoldable pub cancel_turn : Text → Time → Store → Result Store
  cancel_turn turn_id at s = do
    id ← validated_id is_space turn_id
    write s (do
      turn ← require_pending_turn s id
      now ← timestamp is_aware utc at
      ok (record s { turns = set_status cancelled now id s.turns }))

  -- `if generation_id < 0: return False`; the ids are validated where they are reached.
  unfoldable pub turn_matches : Text → Text → ℤ → Store → Result Bool
  turn_matches turn_id session_id (negsuc n) s = ok false
  turn_matches turn_id session_id (pos generation) s = do
    id ← validated_id is_space turn_id
    guard (not s.closed) store_closed
    elim (find (is_turn id) s.turns) [
      | none ↦ ok false
      | some turn ↦ do
        session ← validated_id is_space session_id
        ok (
            same_text turn.session_id session
            && turn.generation_id == generation
            && is_pending turn.status)
    ]

  -- The identifiers without repetition, in the order of their first places.
  abbrev pub unique_ids : List Text → List Text → Result (List Text)
  unique_ids seen [] = ok seen
  unique_ids seen (id ∷ ids) = do
    clean ← validated_id is_space id
    unique_ids (if exists (same_text clean) seen then seen else seen ++ clean ∷ []) ids

  unfoldable pub record_retrieved_memories : Text → List Text → Store → Result (List Text × Store)
  unfolding link_all
  record_retrieved_memories turn_id memory_ids s = do
    id ← validated_id is_space turn_id
    ordered ← unique_ids [] memory_ids
    guard (leb (length ordered) 5) too_many_memories
    let linked = write s (do turn ← require_pending_turn s id; ok (link_all id 0 ordered s))
    if leb (length ordered) 0 then ok ([], s) else linked
