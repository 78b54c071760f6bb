-- ===== src/Memory/Proposals/Commits.antt =====
-- What `commit_generation` of memory/proposals.py does to the store and to the proposals.
use lune_voice_companion.Prelude.{
  ℕ, ◌≡◌, refl, ◌⊎◌, inl, inr, Bool, true, false, not, ◌&&◌, Option, List, [], ◌∷◌, ◌++◌, map,
  Bool-cases, ℤ,
}
use lune_voice_companion.Result.{Error, Result, is_ok, Result-cases, err, ok}
use lune_voice_companion.Memory.Store.{Text, Store, select}
use lune_voice_companion.Memory.Store.Turns.{turn_matches}
use lune_voice_companion.Memory.Proposals.{
  MemoryProposal, AffinityProposal, ProposalResult, Host, same_generation, memory_of, affinity_of,
  other_memory, other_affinity, all_cancelled, embed_all, store_memory, store_event,
  commit_affinity, commit_all, finish_commit, commit_generation, cancel_generation, Committed,
}
use lune_voice_companion.Memory.Proposals.Answers.{
  Item, items_of, refusal, AllAnswered, all_answered, Ran, all_cancelled-refusal, commit_all-items,
}
use lune_voice_companion.Memory.Writes.Reaches.{Writes, Reaches, here, then_writes, adds, moves}

select-not {ℓ} :
    {A : Type ℓ} (test : A → Bool) (xs : List A) → select test (select (λ x. not (test x)) xs) ≡ []
select-not test [] = refl
select-not test (x ∷ xs) = elim (Bool-cases (test x)) [
  | inl e ↦ simp (e, select-not test xs)
  | inr e ↦ simp (e, select-not test xs)
]

select-select {ℓ} :
    {A : Type ℓ} (test : A → Bool) (xs : List A) → select test (select test xs) ≡ select test xs
select-select test [] = refl
select-select test (x ∷ xs) = elim (Bool-cases (test x)) [
  | inl e ↦ simp (e, select-select test xs)
  | inr e ↦ simp (e, select-select test xs)
]

module _ (is_space is_printable : ℕ → Bool) (casefold : Text → Text) (is_unit : ℕ → Bool)
    (normalized : ℕ → Option ℕ) {Time : Type 0} (is_aware : Time → Bool) (utc : Time → ℕ) where
  -- The stores that the writes of the store lead to.
  abbrev pub Leads : Store → Store → Type 0
  Leads s s' = Reaches is_space is_printable casefold is_unit normalized is_aware utc s s'

  prepends :
      {s m n : Store}
      → Writes is_space is_printable casefold is_unit normalized is_aware utc s m
      → Leads m n
      → Leads s n
  prepends w here = then_writes _ _ here w
  prepends w (then_writes m n steps v) = then_writes m n (prepends w steps) v

  module _ (now : Time) where
    commit_affinity-Leads :
        (ps : List AffinityProposal) (s : Store)
        → Leads s
            (commit_affinity is_space is_printable casefold is_unit normalized is_aware utc now ps
              s).1
    unfolding commit_affinity
    commit_affinity-Leads [] s = here
    commit_affinity-Leads (p ∷ ps) s =
        elim (Result-cases (
          turn_matches is_space is_printable is_aware utc p.turn_id p.session_id p.generation_id
            s)) [
              | inr (e, raised) ↦ rw (commit_affinity, raised) here
              | inl (false, stale) ↦ rw (commit_affinity, stale) (commit_affinity-Leads ps s)
              | inl (true, found) ↦
                  elim (Result-cases (
                    store_event is_space is_printable casefold is_unit normalized is_aware utc now p
                      s)) [
                        | inr (e, raised) ↦ rw (commit_affinity, found, raised) here
                        | inl ((event, s'), done) ↦
                            rw (commit_affinity, found, done)
                              (prepends
                                (moves s' p.proposal_id p.session_id p.turn_id p.generation_id
                                  p.delta p.reason now event done)
                                (commit_affinity-Leads ps s'))
                      ]
            ]

    commit_all-Leads :
        (ps : List (MemoryProposal × ℕ)) (affinity : List AffinityProposal) (s : Store)
        → Leads s
            (commit_all is_space is_printable casefold is_unit normalized is_aware utc now ps
              affinity s).1
    unfolding commit_all
    commit_all-Leads [] affinity s = commit_affinity-Leads affinity s
    commit_all-Leads ((p, vector) ∷ ps) affinity s =
        elim (Result-cases (
          turn_matches is_space is_printable is_aware utc p.turn_id p.session_id p.generation_id
            s)) [
              | inr (e, raised) ↦ rw (commit_all, raised) here
              | inl (false, stale) ↦ rw (commit_all, stale) (commit_all-Leads ps affinity s)
              | inl (true, found) ↦
                  elim (Result-cases (
                    store_memory is_space is_printable casefold is_unit normalized is_aware utc now
                      p vector s)) [
                        | inr (e, raised) ↦ rw (commit_all, found, raised) here
                        | inl ((memory, s'), done) ↦
                            rw (commit_all, found, done)
                              (prepends (adds s' _ now memory done)
                                (commit_all-Leads ps affinity s'))
                      ]
            ]

    -- The proposals that are pending once a commit has returned: those of the other generations.
    pub record IsCleared (generation : ℤ) (h h' : Host) : Type 0 where
      pub no_memory : memory_of generation h'.memory ≡ []
      pub no_affinity : affinity_of generation h'.affinity ≡ []
      pub other_memories : other_memory generation h'.memory ≡ other_memory generation h.memory
      pub other_affinities :
          other_affinity generation h'.affinity ≡ other_affinity generation h.affinity

    cancel_generation-IsCleared :
        (generation : ℤ) (h : Host) → IsCleared generation h (cancel_generation generation h).1
    unfolding cancel_generation
    cancel_generation-IsCleared generation h = record {
      no_memory = select-not (λ p. same_generation p.generation_id generation) h.memory;
      no_affinity = select-not (λ p. same_generation p.generation_id generation) h.affinity;
      other_memories =
          select-select (λ p. not (same_generation p.generation_id generation)) h.memory;
      other_affinities =
          select-select (λ p. not (same_generation p.generation_id generation)) h.affinity;
    }

    -- What a commit returns. Where its generation is not the current one when it is asked, every
    -- proposal of the generation is answered with cancelled and the store is as it was; else each is
    -- answered in its order. Where it raises, those before were answered.
    pub Ends :
        (Text → Result ℕ) → Bool → List Item → Store → Result (List ProposalResult) × Store → Type 0
    Ends embed current items s (ok results, s') =
        ((current ≡ false) × (results ≡ map refusal items) × (s' ≡ s))
        ⊎ ((current ≡ true)
            × AllAnswered is_space is_printable casefold is_unit normalized is_aware utc embed now
                items s results s')
    Ends embed current items s (err e, s') =
        (before : List Item) × (rest : List Item) × (results : List ProposalResult) × (items
          ≡ before ++ rest)
        × AllAnswered is_space is_printable casefold is_unit normalized is_aware utc embed now
            before s results s'

    -- What a commit does: its answers are those of its generation's proposals; where it returns, these
    -- are gone and the others are as they were; where it raises, all are as they were.
    pub record Commits (embed : Text → Result ℕ) (current : Bool) (generation : ℤ) (h : Host)
        (s : Store) (r : Result (List ProposalResult) × Host × Store) : Type 0 where
      pub ends : Ends embed current (items_of generation h) s (r.0, r.2)
      pub writes : Leads s r.2
      pub clears : is_ok r.0 ≡ true → IsCleared generation h r.1
      pub keeps : is_ok r.0 ≡ false → r.1 ≡ h

    stale-Commits :
        (embed : Text → Result ℕ) (generation : ℤ) (h : Host) (s : Store)
        → Commits embed false generation h s
            (ok (all_cancelled generation h), (cancel_generation generation h).1, s)
    unfolding Ends
    stale-Commits embed generation h s = record {
      ends = inl (refl, all_cancelled-refusal generation h, refl);
      writes = here;
      clears = λ _. cancel_generation-IsCleared generation h;
      keeps = λ e. cc e;
    }

    raised-Commits :
        (embed : Text → Result ℕ) (current : Bool) (generation : ℤ) (h : Host) (s : Store)
        (e : Error)
        → Commits embed current generation h s (err e, h, s)
    unfolding Ends
    raised-Commits embed current generation h s e = record {
      ends = ([], items_of generation h, [], refl, all_answered s);
      writes = here;
      clears = λ e. cc e;
      keeps = λ _. refl;
    }

    finish_commit-Commits :
        (embed : Text → Result ℕ) (generation : ℤ) (h : Host) (s : Store) (c : Committed)
        → Leads s c.1
        → Ran is_space is_printable casefold is_unit normalized is_aware utc embed now
            (items_of generation h)
            s
            c
        → Commits embed true generation h s (
            finish_commit is_space is_printable casefold is_unit normalized is_aware utc now
              generation h c)
    unfolding Ends Ran
    finish_commit-Commits embed generation h s (err e, s') steps ran = record {
      ends = ran;
      writes = steps;
      clears = λ e. cc e;
      keeps = λ _. refl;
    }
    finish_commit-Commits embed generation h s (ok results, s') steps ran = record {
      ends = inr (refl, ran);
      writes = steps;
      clears = λ _. cancel_generation-IsCleared generation h;
      keeps = λ e. cc e;
    }

    -- A commit of a generation, over any host and store. Where the generation is not the current one when
    -- it is asked, at first or after the embeddings are made, a commit that returns answers every
    -- proposal of the generation with cancelled and leaves the store as it was. Else it answers each
    -- of them, the memories first, in their order: with cancelled where the turn no longer matches,
    -- and else by its own write, made with its own fields and the vector of its text, with
    -- committed, or with duplicate or rejected_limit where the store does not take it. Where it
    -- raises, the proposals before were answered so. No proposal of the generation is pending after
    -- a commit that returns, and those of other generations are as they were; where it raises, all are.
    pub commit_generation-Commits :
        (generation : ℤ) (first second : Bool) (embed : Text → Result ℕ) (h : Host) (s : Store)
        → Commits embed (first && second) generation h s (
            commit_generation is_space is_printable casefold is_unit normalized is_aware utc now
              generation first second embed h s)
    unfolding commit_generation
    commit_generation-Commits generation false second embed h s = stale-Commits embed generation h s
    commit_generation-Commits generation true second embed h s =
        elim (Result-cases (
          embed_all is_space is_printable casefold is_unit normalized is_aware utc embed
            (memory_of generation h.memory))) [
              | inr (e, raised) ↦
                  rw (commit_generation, raised) (raised-Commits embed second generation h s e)
              | inl (embedded, done) ↦ elim (Bool-cases second) [
                | inr stale ↦
                    rw (commit_generation, done, stale) (stale-Commits embed generation h s)
                | inl current ↦
                    rw (commit_generation, done, current)
                      (finish_commit-Commits embed generation h s _
                        (commit_all-Leads embedded (affinity_of generation h.affinity) s)
                        (commit_all-items is_space is_printable casefold is_unit normalized is_aware
                          utc embed now generation h s embedded done))
              ]
            ]
