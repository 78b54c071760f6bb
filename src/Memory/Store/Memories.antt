-- ===== src/Memory/Store/Memories.antt =====
-- memory/store.py: the long-term memories, the affinity and the recorded usage.
use lune_voice_companion.Prelude.{
  ℕ, zero, suc, ◌+◌, Bool, true, false, not, ◌||◌, Option, none, some, List, [], ◌∷◌, ◌++◌, ltb,
  leb, ◌==◌, if◌then◌else◌, ℤ, same_text, no_text, pos, negsuc,
}
use lune_voice_companion.Result.{
  Result, guard, ◌>>=◌, ◌>>◌, natural, negative_generation, bad_category, bad_importance, bad_delta,
  store_closed, affinity_other_session, affinity_other_generation, bad_embedding,
  missing_source_turn, usage_recorded, ok,
}
use lune_voice_companion.Llm.Budget.{SettledAttempt}
use lune_voice_companion.Memory.Store.{
  Text, Category, explicit_request, stable_preference, important_person_or_event, explicit_plan,
  MemorySource, user_requested, lune_observed, Delta, raise, lower, Memory, Event, Store, write,
  find, exists, select, is_turn, announce, memories_changed, validated_id, validated_content,
  timestamp, required,
}

abbrev pub memory_source_for : Category → MemorySource
memory_source_for explicit_request = user_requested
memory_source_for stable_preference = lune_observed
memory_source_for important_person_or_event = lune_observed
memory_source_for explicit_plan = lune_observed

-- value.split(): `word` holds the characters of the word that is being read, in order.
abbrev pub split_words : (ℕ → Bool) → List ℕ → List ℕ → List (List ℕ)
split_words is_space word [] = if no_text word then [] else word ∷ []
split_words is_space word (c ∷ cs) =
    let new = split_words is_space [] cs in
    let longer = split_words is_space (word ++ c ∷ []) cs in
    if is_space c then if no_text word then new else word ∷ new else longer

-- " ".join(words)
abbrev pub join_words : List (List ℕ) → List ℕ
join_words [] = []
join_words (w ∷ []) = w
join_words (w ∷ v ∷ ws) = w ++ 32 ∷ join_words (v ∷ ws)

abbrev pub is_memory : Text → Memory → Bool
is_memory id m = same_text m.id id

-- `delta in {-1, 1}`
abbrev pub delta_of : ℤ → Result Delta
delta_of (pos n) = do guard (n == 1) bad_delta; ok raise
delta_of (negsuc n) = do guard (n == 0) bad_delta; ok lower

-- A sum of deltas, as how many raise and how many lower.
abbrev pub sum_of : List Event → ℕ × ℕ
sum_of [] = (0, 0)
sum_of (e ∷ es) =
    let rest = sum_of es in
    elim e.delta [ raise ↦ (suc rest.0, rest.1) | lower ↦ (rest.0, suc rest.1) ]

abbrev pub moved : Delta → ℕ × ℕ → ℕ × ℕ
moved raise (up, down) = (suc up, down)
moved lower (up, down) = (up, suc down)

-- `abs(up - down) > 3`
abbrev pub is_beyond : ℕ × ℕ → Bool
is_beyond (up, down) = ltb (down + 3) up || ltb (up + 3) down

-- `affinity + delta`, where it is not negative.
abbrev pub shifted : Delta → ℕ → Option ℕ
shifted raise affinity = some (suc affinity)
shifted lower zero = none
shifted lower (suc affinity) = some affinity

-- The same where it lies from 0 to 100.
abbrev pub within_scale : Option ℕ → Option ℕ
within_scale none = none
within_scale (some n) = if leb n 100 then some n else none

abbrev pub events_of : Text → List Event → List Event
events_of session = select (λ e. same_text e.session_id session)

abbrev pub is_event : Text → Text → Event → Bool
is_event id turn e = same_text e.id id || same_text e.turn_id turn

abbrev pub is_attempt : ℕ → SettledAttempt → Bool
is_attempt id x = x.reservation.attempt_id == id

-- The affinity's update and the event's row, where the affinity stays on its scale.
abbrev pub apply_event : Option ℕ → (ℕ → Event) → Store → Option Event × Store
apply_event none event s = (none, s)
apply_event (some resulting) event s =
    (some (event resulting), record s { affinity = resulting; events = event resulting ∷ s.events })

-- INSERT INTO llm_usage, whose key is the attempt.
unfoldable pub record_usage : SettledAttempt → Store → Result Store
record_usage x s = write s (do
  guard (not (exists (is_attempt x.reservation.attempt_id) s.usages)) usage_recorded
  ok (record s { usages = x ∷ s.usages }))

abbrev pub charged_in : ℕ → List SettledAttempt → ℕ
charged_in period [] = 0
charged_in period (x ∷ xs) =
    (if x.reservation.period == period then x.charged_twd else 0) + charged_in period xs

-- The total of a month, 0 for one that is not a key of the dictionary.
unfoldable pub confirmed_usage_totals : Store → Result (ℕ → ℕ)
confirmed_usage_totals s = do
  guard (not s.closed) store_closed
  ok (λ period. charged_in period s.usages)

-- `casefold` is `str.casefold`, `is_unit` tells of a float whether it lies from 0.0 to 1.0, and
-- `normalized` is what numpy makes of an embedding: `none` for one that is refused.
module _ (is_space : ℕ → Bool) (casefold : Text → Text) (is_unit : ℕ → Bool)
    (normalized : ℕ → Option ℕ) {Time : Type 0} (is_aware : Time → Bool) (utc : Time → ℕ) where
  abbrev pub normalize_content : Text → Text
  normalize_content value = join_words (split_words is_space [] (casefold value))

  -- A new memory: its category, where the name is one of the four, and the source that is given.
  pub record MemoryInput : Type 0 where
    pub memory_id : Text
    pub content : Text
    pub category : Option Category
    pub importance : ℕ
    pub embedding : ℕ
    pub source_turn_id : Text
    pub source : Option MemorySource

  abbrev pub source_of : Option MemorySource → Category → MemorySource
  source_of none category = memory_source_for category
  source_of (some source) category = source

  unfoldable pub add_memory : MemoryInput → Time → Store → Result (Option Memory × Store)
  add_memory input at s = do
    id ← validated_id is_space input.memory_id
    clean ← validated_content is_space input.content
    category ← required input.category bad_category
    guard (is_unit input.importance) bad_importance
    vector ← required (normalized input.embedding) bad_embedding
    now ← timestamp is_aware utc at
    write s (do
      turn ← validated_id is_space input.source_turn_id
      let memory : Memory = record {
        id = id;
        content = clean;
        normalized_content = normalize_content clean;
        category = category;
        importance = input.importance;
        embedding = vector;
        source_turn_id = turn;
        source = source_of input.source category;
        created_at = now;
      }
      let is_same =
          λ (m : Memory). is_memory id m || same_text m.normalized_content memory.normalized_content
      let inserted = do
        guard (exists (is_turn turn) s.turns) missing_source_turn
        ok (some memory, announce memories_changed (record s { memories = memory ∷ s.memories }))
      if exists is_same s.memories then ok (none, s) else inserted)

  -- DELETE, with the links that refer to the memory.
  unfoldable pub forget_memory : Text → Store → Result (Bool × Store)
  forget_memory exact_id s = write s (do
    id ← validated_id is_space exact_id
    let left = record s {
      memories = select (λ m. not (is_memory id m)) s.memories;
      retrievals = select (λ r. not (same_text r.memory_id id)) s.retrievals;
    }
    if exists (is_memory id) s.memories
        then ok (true, announce memories_changed left)
        else ok (false, s))

  unfoldable pub apply_affinity :
      Text → Text → Text → ℤ → ℤ → Text → Time → Store → Result (Option Event × Store)
  apply_affinity event_id session_id turn_id generation_id delta reason at s = do
    step ← delta_of delta
    generation ← natural generation_id negative_generation
    id ← validated_id is_space event_id
    session ← validated_id is_space session_id
    turn ← validated_id is_space turn_id
    clean ← validated_content is_space reason
    now ← timestamp is_aware utc at
    write s (
        if exists (is_event id turn) s.events then ok (none, s) else (do
          row ← required (find (is_turn turn) s.turns) affinity_other_session
          guard (same_text row.session_id session) affinity_other_session
          guard (row.generation_id == generation) affinity_other_generation
          let event : ℕ → Event = λ resulting. record {
            id = id;
            session_id = session;
            turn_id = turn;
            generation_id = generation;
            delta = step;
            reason = clean;
            resulting_affinity = resulting;
            created_at = now;
          }
          let resulting = within_scale (shifted step s.affinity)
          if is_beyond (moved step (sum_of (events_of session s.events)))
              then ok (none, s)
              else ok (apply_event resulting event s)))
