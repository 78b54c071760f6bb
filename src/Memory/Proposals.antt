-- ===== src/Memory/Proposals.antt =====
-- memory/proposals.py: the changes that the model proposes, kept until their generation is committed.
-- What `embed_passage` of the retriever makes of a text is given from outside, and so is what
-- `is_generation_current` returns when it is called first and second.

pub mod Answers
pub mod Commits
use lune_voice_companion.Prelude.{
  ℕ, ◌+◌, Bool, true, false, not, ◌&&◌, ◌||◌, Option, none, some, List, [], ◌∷◌, ◌++◌, map, leb,
  ◌==◌, if◌then◌else◌, length, ℤ, same_text, no_text, any_space, strip, pos, negsuc,
}
use lune_voice_companion.Result.{
  Result, guard, ◌>>=◌, ◌>>◌, natural, negative_generation, bad_proposal_id, empty_memory,
  bad_category, bad_importance, bad_delta, err, ok,
}
use lune_voice_companion.Memory.Store.{
  Text, Category, Memory, Event, Store, exists, select, required, validated_id,
}
use lune_voice_companion.Memory.Store.Turns.{turn_matches}
use lune_voice_companion.Memory.Store.Memories.{MemoryInput, add_memory, apply_affinity}

pub data ProposalStatus : Type 0 where
  committed duplicate rejected_limit cancelled : ProposalStatus

pub record MemoryProposal : Type 0 where
  pub proposal_id : Text
  pub generation_id : ℤ
  pub session_id : Text
  pub turn_id : Text
  pub category : Option Category
  pub importance : ℕ
  pub content : Text

pub record AffinityProposal : Type 0 where
  pub proposal_id : Text
  pub generation_id : ℤ
  pub session_id : Text
  pub turn_id : Text
  pub delta : ℤ
  pub reason : Text

pub record ProposalResult : Type 0 where
  pub proposal_id : Text
  pub status : ProposalStatus

-- The two dictionaries, in the order of insertion.
pub record Host : Type 0 where
  pub memory : List MemoryProposal
  pub affinity : List AffinityProposal

abbrev pub same_generation : ℤ → ℤ → Bool
same_generation (pos a) (pos b) = a == b
same_generation (negsuc a) (negsuc b) = a == b
same_generation _ _ = false

abbrev pub is_proposed : Text → Host → Bool
is_proposed id h =
    exists (λ p. same_text p.proposal_id id) h.memory
    || exists (λ p. same_text p.proposal_id id) h.affinity

abbrev pub memory_of : ℤ → List MemoryProposal → List MemoryProposal
memory_of generation = select (λ p. same_generation p.generation_id generation)

abbrev pub affinity_of : ℤ → List AffinityProposal → List AffinityProposal
affinity_of generation = select (λ p. same_generation p.generation_id generation)

-- What is not of a generation.
abbrev pub other_memory : ℤ → List MemoryProposal → List MemoryProposal
other_memory generation = select (λ p. not (same_generation p.generation_id generation))

abbrev pub other_affinity : ℤ → List AffinityProposal → List AffinityProposal
other_affinity generation = select (λ p. not (same_generation p.generation_id generation))

-- The identifiers of the two dictionaries differ, so that popping from both pops what is counted.
unfoldable pub cancel_generation : ℤ → Host → ℕ × Host
cancel_generation generation h = (
  length (memory_of generation h.memory) + length (affinity_of generation h.affinity),
  record {
    memory = other_memory generation h.memory;
    affinity = other_affinity generation h.affinity;
  },
)

abbrev pub proposal_result : Text → ProposalStatus → ProposalResult
proposal_result id status = record { proposal_id = id; status = status }

-- The results of a generation that is not the current one.
abbrev pub all_cancelled : ℤ → Host → List ProposalResult
all_cancelled generation h =
    map (λ p. proposal_result p.proposal_id cancelled) (memory_of generation h.memory)
    ++ map (λ p. proposal_result p.proposal_id cancelled) (affinity_of generation h.affinity)

-- What a part of `commit_generation` returns or raises, and the store that it leaves.
abbrev pub Committed : Type 0
Committed = Result (List ProposalResult) × Store

-- `results.append(…)` before the rest of the loop.
abbrev pub first_result : ProposalResult → Committed → Committed
first_result x rest = ((do results ← rest.0; ok (x ∷ results)), rest.1)

abbrev pub stored_status : Option Memory → ProposalStatus
stored_status none = duplicate
stored_status (some m) = committed

abbrev pub event_status : Option Event → ProposalStatus
event_status none = rejected_limit
event_status (some e) = committed

module _ (is_space is_printable : ℕ → Bool) (casefold : Text → Text) (is_unit : ℕ → Bool)
    (normalized : ℕ → Option ℕ) {Time : Type 0} (is_aware : Time → Bool) (utc : Time → ℕ) where
  abbrev pub validate_common : Text → ℤ → Result ℕ
  validate_common id generation = do
    guard (not (no_text id) && leb (length id) 128 && not (any_space is_space id)) bad_proposal_id
    natural generation negative_generation

  unfoldable pub propose_memory : MemoryProposal → Host → Store → Result (Bool × Host)
  propose_memory p h s = do
    generation ← validate_common p.proposal_id p.generation_id
    let added = do
      matches ←
          turn_matches is_space is_printable is_aware utc p.turn_id p.session_id p.generation_id s
      let accepted = do
        guard (not (no_text (strip is_space p.content))) empty_memory
        category ← required p.category bad_category
        guard (is_unit p.importance) bad_importance
        ok (true, record h { memory = h.memory ++ p ∷ [] })
      if matches then accepted else ok (false, h)
    if is_proposed p.proposal_id h then ok (false, h) else added

  unfoldable pub propose_affinity : AffinityProposal → Host → Store → Result (Bool × Host)
  propose_affinity p h s = do
    generation ← validate_common p.proposal_id p.generation_id
    guard (same_generation p.delta (pos 1) || same_generation p.delta (negsuc 0)) bad_delta
    let added = do
      matches ←
          turn_matches is_space is_printable is_aware utc p.turn_id p.session_id p.generation_id s
      if matches then ok (true, record h { affinity = h.affinity ++ p ∷ [] }) else ok (false, h)
    if is_proposed p.proposal_id h then ok (false, h) else added

  -- `[(proposal, embed_passage(proposal.content)) for proposal in memory]`
  abbrev pub embed_all :
      (Text → Result ℕ) → List MemoryProposal → Result (List (MemoryProposal × ℕ))
  embed_all embed [] = ok []
  embed_all embed (p ∷ ps) = do
    vector ← embed p.content
    rest ← embed_all embed ps
    ok ((p, vector) ∷ rest)

  -- The clock's time of a write.
  module _ (now : Time) where
    abbrev pub store_memory : MemoryProposal → ℕ → Store → Result (Option Memory × Store)
    store_memory p vector s =
        add_memory is_space casefold is_unit normalized is_aware utc
          (record {
            memory_id = p.proposal_id;
            content = p.content;
            category = p.category;
            importance = p.importance;
            embedding = vector;
            source_turn_id = p.turn_id;
            source = none;
          })
          now s

    abbrev pub store_event : AffinityProposal → Store → Result (Option Event × Store)
    store_event p s =
        apply_affinity is_space casefold is_unit normalized is_aware utc p.proposal_id p.session_id
          p.turn_id p.generation_id p.delta p.reason now s

    unfoldable pub commit_affinity : List AffinityProposal → Store → Committed
    commit_affinity [] s = (ok [], s)
    commit_affinity (p ∷ ps) s =
        elim (turn_matches is_space is_printable is_aware utc p.turn_id p.session_id p.generation_id
          s) [
            | err e ↦ (err e, s)
            | ok false ↦
                first_result (proposal_result p.proposal_id cancelled) (commit_affinity ps s)
            | ok true ↦ elim (store_event p s) [
              | err e ↦ (err e, s)
              | ok (event, s') ↦
                  first_result (proposal_result p.proposal_id (event_status event))
                    (commit_affinity ps s')
            ]
          ]

    -- The loop over the memories, then the one over the affinity.
    unfoldable pub commit_all :
        List (MemoryProposal × ℕ) → List AffinityProposal → Store → Committed
    unfolding commit_affinity
    commit_all [] affinity s = commit_affinity affinity s
    commit_all ((p, vector) ∷ ps) affinity s =
        elim (turn_matches is_space is_printable is_aware utc p.turn_id p.session_id p.generation_id
          s) [
            | err e ↦ (err e, s)
            | ok false ↦
                first_result (proposal_result p.proposal_id cancelled) (commit_all ps affinity s)
            | ok true ↦ elim (store_memory p vector s) [
              | err e ↦ (err e, s)
              | ok (memory, s') ↦
                  first_result (proposal_result p.proposal_id (stored_status memory))
                    (commit_all ps affinity s')
            ]
          ]

    -- The proposals of the generation are dropped where nothing raises, and else stay.
    abbrev pub finish_commit : ℤ → Host → Committed → Result (List ProposalResult) × Host × Store
    finish_commit generation h (err e, s) = (err e, h, s)
    finish_commit generation h (ok results, s) = (ok results, (cancel_generation generation h).1, s)

    unfoldable pub commit_generation :
        ℤ
        → Bool
        → Bool
        → (Text → Result ℕ)
        → Host
        → Store
        → Result (List ProposalResult) × Host × Store
    commit_generation generation current_first current_second embed h s =
        let stale : Result (List ProposalResult) × Host × Store =
          (ok (all_cancelled generation h), (cancel_generation generation h).1, s) in
        if not current_first
        then stale
        else elim (embed_all embed (memory_of generation h.memory)) [
          | err e ↦ (err e, h, s)
          | ok embedded ↦
              if not current_second
              then stale
              else finish_commit generation h
                  (commit_all embedded (affinity_of generation h.affinity) s)
        ]
