-- ===== src/Memory/Store.antt =====
-- memory/store.py: the tables of the SQLite database, with the constraints of memory/migrations.py,
-- and the transactions on them. A write that raises is rolled back, and leaves the store as it is.
-- Text is the list of its code points, and `str.isspace` is given from outside. A time is given as
-- the caller's datetime, or the clock's where it gives none; fresh identifiers (`uuid4`) are given too.
-- Columns that nothing modelled reads are left out: when a summary or the affinity was updated, the
-- model that made an embedding, and the provider, price version and time of a usage.
pub mod Turns
pub mod Threads
pub mod Summaries
pub mod Memories
use lune_voice_companion.Prelude.{
  ℕ, ◌+◌, max, Bool, true, false, not, ◌&&◌, ◌||◌, Option, none, some, List, [], ◌∷◌, ◌++◌, leb,
  if◌then◌else◌, length, same_text, no_text, any_space, strip,
}
use lune_voice_companion.Llm.Budget.{SettledAttempt}
use lune_voice_companion.Result.{
  Error, Result, guard, ◌>>=◌, ◌>>◌, naive_timestamp, bad_id, bad_content, store_closed,
  not_pending, err, ok,
}

abbrev pub Text : Type 0
Text = List ℕ

pub data TitleSource : Type 0 where
  default generated manual : TitleSource

pub data TurnStatus : Type 0 where
  pending complete cancelled : TurnStatus

pub data Role : Type 0 where
  user assistant : Role

pub data Category : Type 0 where
  stable_preference important_person_or_event explicit_plan explicit_request : Category

pub data MemorySource : Type 0 where
  user_requested lune_observed : MemorySource

pub data Delta : Type 0 where
  raise lower : Delta

pub record Session : Type 0 where
  pub id : Text
  pub started_at : ℕ
  pub ended_at : Option ℕ
  pub title : Text
  pub title_source : TitleSource
  pub updated_at : ℕ

pub record Turn : Type 0 where
  pub id : Text
  pub session_id : Text
  pub generation_id : ℕ
  pub sequence : ℕ
  pub status : TurnStatus
  pub started_at : ℕ
  pub completed_at : Option ℕ

pub record Message : Type 0 where
  pub id : Text
  pub turn_id : Text
  pub role : Role
  pub content : Text
  pub created_at : ℕ

pub record Summary : Type 0 where
  pub id : Text
  pub session_id : Text
  pub start_turn_sequence : ℕ
  pub end_turn_sequence : ℕ
  pub covered_turn_count : ℕ
  pub content : Text

-- A float is a number that names it, and so is an embedding.
pub record Memory : Type 0 where
  pub id : Text
  pub content : Text
  pub normalized_content : Text
  pub category : Category
  pub importance : ℕ
  pub embedding : ℕ
  pub source_turn_id : Text
  pub source : MemorySource
  pub created_at : ℕ

pub record Event : Type 0 where
  pub id : Text
  pub session_id : Text
  pub turn_id : Text
  pub generation_id : ℕ
  pub delta : Delta
  pub reason : Text
  pub resulting_affinity : ℕ
  pub created_at : ℕ

pub record Retrieval : Type 0 where
  pub turn_id : Text
  pub memory_id : Text
  pub position : ℕ

-- What the listener is told of a committed change.
pub data StoreChange : Type 0 where
  thread_changed : Text → StoreChange
  messages_changed : Text → Text → StoreChange
  memories_changed : StoreChange

-- The tables, whose newest rows come first, and what the listener was told; the one row of
-- `relationship_state` is `affinity`.
pub record Store : Type 0 where
  pub closed : Bool
  pub sessions : List Session
  pub turns : List Turn
  pub messages : List Message
  pub summaries : List Summary
  pub memories : List Memory
  pub affinity : ℕ
  pub events : List Event
  pub retrievals : List Retrieval
  pub usages : List SettledAttempt
  pub announced : List StoreChange

-- The database that the migrations make.
abbrev pub new_store : Store
new_store = record {
  closed = false;
  sessions = [];
  turns = [];
  messages = [];
  summaries = [];
  memories = [];
  affinity = 50;
  events = [];
  retrievals = [];
  usages = [];
  announced = [];
}

abbrev pub is_pending : TurnStatus → Bool
is_pending pending = true
is_pending complete = false
is_pending cancelled = false

abbrev pub is_complete : TurnStatus → Bool
is_complete pending = false
is_complete complete = true
is_complete cancelled = false

abbrev pub same_role : Role → Role → Bool
same_role user user = true
same_role assistant assistant = true
same_role _ _ = false

-- `with self._write():`
abbrev pub write {ℓ} : {A : Type ℓ} → Store → Result A → Result A
write s body = do guard (not s.closed) store_closed; body

unfoldable pub close : Store → Store
close s = record s { closed = true }

-- A row of a table by its key; keys are unique.
abbrev pub find {ℓ} : {A : Type ℓ} → (A → Bool) → List A → Option A
find test [] = none
find test (x ∷ xs) = let rest = find test xs in if test x then some x else rest

abbrev pub exists {ℓ} : {A : Type ℓ} → (A → Bool) → List A → Bool
exists test [] = false
exists test (x ∷ xs) = let rest = exists test xs in test x || rest

-- UPDATE … SET … WHERE …
abbrev pub update {ℓ} : {A : Type ℓ} → (A → Bool) → (A → A) → List A → List A
update test set [] = []
update test set (x ∷ xs) = let rest = update test set xs in (if test x then set x else x) ∷ rest

abbrev pub select {ℓ} : {A : Type ℓ} → (A → Bool) → List A → List A
select test [] = []
select test (x ∷ xs) = let rest = select test xs in if test x then x ∷ rest else rest

abbrev pub is_turn : Text → Turn → Bool
is_turn id t = same_text t.id id

abbrev pub is_session : Text → Session → Bool
is_session id t = same_text t.id id

abbrev pub required {ℓ} : {A : Type ℓ} → Option A → Error → Result A
required none raised = err raised
required (some a) raised = ok a

-- `_require_pending_turn`
abbrev pub require_pending_turn : Store → Text → Result Turn
require_pending_turn s id = do
  turn ← required (find (is_turn id) s.turns) not_pending
  guard (is_pending turn.status) not_pending
  ok turn

abbrev pub announce : StoreChange → Store → Store
announce change s = record s { announced = s.announced ++ change ∷ [] }

abbrev pub in_session : Text → Turn → Bool
in_session id t = same_text t.session_id id

-- MAX(sequence) of the turns of a session, or 0.
abbrev pub last_sequence : Text → List Turn → ℕ
last_sequence session [] = 0
last_sequence session (t ∷ ts) =
    let rest = last_sequence session ts in
    if in_session session t then max t.sequence rest else rest

-- The message of a turn in a role.
abbrev pub is_message : Text → Role → Message → Bool
is_message turn role m = same_text m.turn_id turn && same_role m.role role

module _ (is_space : ℕ → Bool) where
  abbrev pub validated_id : Text → Result Text
  validated_id value = do
    guard (not (no_text value) && leb (length value) 128 && not (any_space is_space value)) bad_id
    ok value

  abbrev pub validated_content : Text → Result Text
  validated_content value = do
    let clean = strip is_space value
    guard (not (no_text clean) && leb (length clean) 20000) bad_content
    ok clean

module _ {Time : Type 0} (is_aware : Time → Bool) (utc : Time → ℕ) where
  abbrev pub timestamp : Time → Result ℕ
  timestamp at = do guard (is_aware at) naive_timestamp; ok (utc at)
