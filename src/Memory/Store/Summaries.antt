-- ===== src/Memory/Store/Summaries.antt =====
-- memory/store.py: the turns to be summarized, and the rolling summary of a session.
use lune_voice_companion.Prelude.{
  ℕ, ◌+◌, ◌-◌, Bool, true, false, not, ◌&&◌, Option, none, some, List, [], ◌∷◌, ◌++◌, map, ltb, leb,
  ◌==◌, if◌then◌else◌, length, take, drop, ℤ, same_text,
}
use lune_voice_companion.Result.{
  Result, guard, ◌>>=◌, ◌>>◌, positive, store_closed, bad_limit, summary_not_four,
  summary_other_session, summary_not_ordered, summary_not_continuous, no_complete_turn, ok,
}
use lune_voice_companion.Memory.Store.{
  Text, Role, user, assistant, Turn, Summary, Store, write, find, select, validated_id,
  validated_content, timestamp,
}
use lune_voice_companion.Memory.Store.Threads.{complete_turns, of_role, concat_map}

pub record StoredTurn : Type 0 where
  pub id : Text
  pub session_id : Text
  pub generation_id : ℕ
  pub sequence : ℕ
  pub messages : List (Role × Text)

pub record PromptContext : Type 0 where
  pub recent_messages : List (Role × Text)
  pub summary : Option Text
  pub relevant_memories : List Text

-- `_stored_turn`
abbrev pub stored_turn : Store → Turn → StoredTurn
stored_turn s t = record {
  id = t.id;
  session_id = t.session_id;
  generation_id = t.generation_id;
  sequence = t.sequence;
  messages =
      map (λ m. (m.role, m.content))
        (select (of_role t.id user) s.messages ++ select (of_role t.id assistant) s.messages);
}

-- The last `n` of a list: `xs[-n:]`.
abbrev pub last_of {ℓ} : {A : Type ℓ} → ℕ → List A → List A
last_of n xs = drop (length xs - n) xs

abbrev pub is_summary : Text → Summary → Bool
is_summary id u = same_text u.session_id id

abbrev pub summary_end : Option Summary → ℕ
summary_end none = 0
summary_end (some u) = u.end_turn_sequence

-- The complete turns of a session after a sequence number, in order.
abbrev pub turns_after : Text → ℕ → Store → List Turn
turns_after session after s = select (λ t. ltb after t.sequence) (complete_turns session s.turns)

abbrev pub is_increasing : List ℕ → Bool
is_increasing [] = true
is_increasing (a ∷ []) = true
is_increasing (a ∷ b ∷ rest) = let more = is_increasing (b ∷ rest) in ltb a b && more

-- `[(row["id"], row["sequence"]) for …] == [(turn.id, turn.sequence) for …]`
abbrev pub same_turns : List Turn → List StoredTurn → Bool
same_turns [] [] = true
same_turns (t ∷ ts) (u ∷ us) =
    let rest = same_turns ts us in same_text t.id u.id && t.sequence == u.sequence && rest
same_turns _ _ = false

abbrev pub all_of {ℓ} : {A : Type ℓ} → (A → Bool) → List A → Bool
all_of test [] = true
all_of test (x ∷ xs) = let rest = all_of test xs in test x && rest

-- sequences[0] and sequences[-1] of what has four.
abbrev pub first_sequence : List StoredTurn → ℕ
first_sequence [] = 0
first_sequence (t ∷ ts) = t.sequence

abbrev pub final_sequence : List StoredTurn → ℕ
final_sequence [] = 0
final_sequence (t ∷ []) = t.sequence
final_sequence (t ∷ u ∷ ts) = final_sequence (u ∷ ts)

-- The row that covers the four turns as well.
abbrev pub extended : Option Summary → Text → Text → List StoredTurn → Text → Summary
extended none fresh session turns content = record {
  id = fresh;
  session_id = session;
  start_turn_sequence = first_sequence turns;
  end_turn_sequence = final_sequence turns;
  covered_turn_count = 4;
  content = content;
}
extended (some u) fresh session turns content = record {
  id = u.id;
  session_id = session;
  start_turn_sequence = u.start_turn_sequence;
  end_turn_sequence = final_sequence turns;
  covered_turn_count = u.covered_turn_count + 4;
  content = content;
}

abbrev pub put_summary : Summary → List Summary → List Summary
put_summary u [] = u ∷ []
put_summary u (x ∷ xs) =
    let rest = put_summary u xs in if same_text x.session_id u.session_id then u ∷ xs else x ∷ rest

module _ (is_space : ℕ → Bool) {Time : Type 0} (is_aware : Time → Bool) (utc : Time → ℕ) where
  unfoldable pub recent_complete_turns : Text → ℤ → Store → Result (List StoredTurn)
  recent_complete_turns session_id limit s = do
    n ← positive limit bad_limit
    id ← validated_id is_space session_id
    guard (not s.closed) store_closed
    ok (map (stored_turn s) (last_of n (complete_turns id s.turns)))

  unfoldable pub get_summary : Text → Store → Result (Option Summary)
  get_summary session_id s = do
    id ← validated_id is_space session_id
    guard (not s.closed) store_closed
    ok (find (is_summary id) s.summaries)

  unfoldable pub unsummarized_complete_turns : Text → Store → Result (List StoredTurn)
  unfolding get_summary
  unsummarized_complete_turns session_id s = do
    id ← validated_id is_space session_id
    coverage ← get_summary id s
    ok (map (stored_turn s) (turns_after id (summary_end coverage) s))

  unfoldable pub advance_summary :
      Text → List StoredTurn → Text → Time → Text → Store → Result (Summary × Store)
  advance_summary session_id turns content at fresh s = do
    guard (length turns == 4) summary_not_four
    clean ← validated_content is_space content
    id ← validated_id is_space session_id
    guard (all_of (λ t. same_text t.session_id id) turns) summary_other_session
    guard (is_increasing (map (λ t. t.sequence) turns)) summary_not_ordered
    write s (do
      let current = find (is_summary id) s.summaries
      guard (same_turns (take 4 (turns_after id (summary_end current) s)) turns)
          summary_not_continuous
      now ← timestamp is_aware utc at
      let row = extended current fresh id turns clean
      ok (row, record s { summaries = put_summary row s.summaries }))

  unfoldable pub build_prompt_context : Text → List Text → Store → Result PromptContext
  unfolding unsummarized_complete_turns get_summary
  build_prompt_context session_id relevant_memories s = do
    turns ← unsummarized_complete_turns session_id s
    let messages = concat_map (λ t. t.messages) (last_of 12 turns)
    guard (not (leb (length messages) 0)) no_complete_turn
    summary ← get_summary session_id s
    ok (record {
      recent_messages = messages;
      summary = elim summary [ none ↦ none | some u ↦ some u.content ];
      relevant_memories = relevant_memories;
    })
