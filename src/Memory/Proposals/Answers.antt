-- ===== src/Memory/Proposals/Answers.antt =====
-- How memory/proposals.py answers the proposals of a generation, one after the other.
use mathlib.Core.Path.{subst}
use lune_voice_companion.Prelude.{
  ℕ, ◌≡◌, refl, ap, ◌∙◌, ◌⊎◌, inl, inr, Bool, true, false, Option, none, some, List, [], ◌∷◌, ◌++◌,
  map, filter, All, ℤ,
}
use lune_voice_companion.Result.{Error, Result, Result-cases, >>=-ok, err, ok}
use lune_voice_companion.Memory.Store.{Text, Memory, Event, Store, select}
use lune_voice_companion.Memory.Store.Turns.{turn_matches}
use lune_voice_companion.Memory.Store.Memories.{add_memory, apply_affinity}
use lune_voice_companion.Memory.Proposals.{
  ProposalStatus, committed, duplicate, rejected_limit, cancelled, MemoryProposal, AffinityProposal,
  ProposalResult, Host, same_generation, memory_of, affinity_of, all_cancelled, Committed,
  first_result, embed_all, store_memory, store_event, commit_affinity, commit_all,
}

pub data Item : Type 0 where
  memory_item : MemoryProposal → Item
  affinity_item : AffinityProposal → Item

-- The proposals of a generation: the memories in their order, then the affinity.
abbrev pub items_of : ℤ → Host → List Item
items_of generation h =
    map memory_item (filter (λ p. same_generation p.generation_id generation) h.memory)
    ++ map affinity_item (filter (λ p. same_generation p.generation_id generation) h.affinity)

abbrev pub answer : Text → ProposalStatus → ProposalResult
answer id status = record { proposal_id = id; status = status }

abbrev pub refusal : Item → ProposalResult
refusal (memory_item p) = answer p.proposal_id cancelled
refusal (affinity_item p) = answer p.proposal_id cancelled

pub select-filter {ℓ} :
    {A : Type ℓ} (test : A → Bool) (xs : List A) → select test xs ≡ filter test xs
select-filter test [] = refl
select-filter test (x ∷ xs) = rw (select-filter test xs)

map-map {ℓ κ μ} :
    {A : Type ℓ} {B : Type κ} {C : Type μ} (f : B → C) (g : A → B) (xs : List A)
    → map f (map g xs) ≡ map (λ x. f (g x)) xs
map-map f g [] = refl
map-map f g (x ∷ xs) = ap (λ r. f (g x) ∷ r) (map-map f g xs)

map-join {ℓ κ} :
    {A : Type ℓ} {B : Type κ} (f : A → B) (xs ys : List A) → map f (xs ++ ys) ≡ map f xs ++ map f ys
map-join f [] ys = refl
map-join f (x ∷ xs) ys = ap (λ r. f x ∷ r) (map-join f xs ys)

pub all_cancelled-refusal :
    (generation : ℤ) (h : Host) → all_cancelled generation h ≡ map refusal (items_of generation h)
all_cancelled-refusal generation h =
    let P : MemoryProposal → Bool = λ p. same_generation p.generation_id generation in
    let Q : AffinityProposal → Bool = λ p. same_generation p.generation_id generation in
    rw
      (
        select-filter P h.memory,
        select-filter Q h.affinity,
        map-join refusal (map memory_item (filter P h.memory))
            (map affinity_item (filter Q h.affinity)),
        map-map refusal memory_item (filter P h.memory),
        map-map refusal affinity_item (filter Q h.affinity),
      )
      refl

module _ (is_space is_printable : ℕ → Bool) (casefold : Text → Text) (is_unit : ℕ → Bool)
    (normalized : ℕ → Option ℕ) {Time : Type 0} (is_aware : Time → Bool) (utc : Time → ℕ)
    (embed : Text → Result ℕ) (now : Time) where
  -- One proposal answered: its turn is no longer the one that it is for, or it is written, and the answer
  -- says whether the store took it.
  pub data Answers : Item → Store → ProposalResult → Store → Type 0 where
    missed_memory :
        (p : MemoryProposal) (s : Store)
        → turn_matches is_space is_printable is_aware utc p.turn_id p.session_id p.generation_id s
          ≡ ok false
        → Answers (memory_item p) s (answer p.proposal_id cancelled) s
    missed_affinity :
        (p : AffinityProposal) (s : Store)
        → turn_matches is_space is_printable is_aware utc p.turn_id p.session_id p.generation_id s
          ≡ ok false
        → Answers (affinity_item p) s (answer p.proposal_id cancelled) s
    remembers :
        (p : MemoryProposal) (s s' : Store) (vector : ℕ) (stored : Option Memory)
        (status : ProposalStatus)
        → turn_matches is_space is_printable is_aware utc p.turn_id p.session_id p.generation_id s
          ≡ ok true
        → embed p.content ≡ ok vector
        → add_memory is_space casefold is_unit normalized is_aware utc
            (record {
              memory_id = p.proposal_id;
              content = p.content;
              category = p.category;
              importance = p.importance;
              embedding = vector;
              source_turn_id = p.turn_id;
              source = none;
            })
            now
            s
          ≡ ok (stored, s')
        → ((stored ≡ none) × (status ≡ duplicate))
          ⊎ ((m : Memory) × (stored ≡ some m) × (status ≡ committed))
        → Answers (memory_item p) s (answer p.proposal_id status) s'
    moves :
        (p : AffinityProposal) (s s' : Store) (event : Option Event) (status : ProposalStatus)
        → turn_matches is_space is_printable is_aware utc p.turn_id p.session_id p.generation_id s
          ≡ ok true
        → apply_affinity is_space casefold is_unit normalized is_aware utc p.proposal_id
            p.session_id p.turn_id p.generation_id p.delta p.reason now s
          ≡ ok (event, s')
        → ((event ≡ none) × (status ≡ rejected_limit))
          ⊎ ((e : Event) × (event ≡ some e) × (status ≡ committed))
        → Answers (affinity_item p) s (answer p.proposal_id status) s'

  -- All of them, in their order, each in the store that the ones before left.
  pub data AllAnswered : List Item → Store → List ProposalResult → Store → Type 0 where
    all_answered : (s : Store) → AllAnswered [] s [] s
    answers_first :
        (i : Item) (rest : List Item) (s m s' : Store) (r : ProposalResult)
        (rs : List ProposalResult)
        → Answers i s r m
        → AllAnswered rest m rs s'
        → AllAnswered (i ∷ rest) s (r ∷ rs) s'

  -- Where the answers return, all proposals are answered; where they raise, those before were.
  unfoldable pub Ran : List Item → Store → Committed → Type 0
  Ran items s (ok results, s') = AllAnswered items s results s'
  Ran items s (err e, s') =
      (before : List Item) × (rest : List Item) × (results : List ProposalResult) × (items
        ≡ before ++ rest)
      × AllAnswered before s results s'

  Ran-raised : (items : List Item) (s : Store) (e : Error) → Ran items s (err e, s)
  unfolding Ran
  Ran-raised items s e = ([], items, [], refl, all_answered s)

  Ran-first :
      (i : Item) (rest : List Item) (s m : Store) (r : ProposalResult) (c : Committed)
      → Answers i s r m
      → Ran rest m c
      → Ran (i ∷ rest) s (first_result r c)
  unfolding Ran
  Ran-first i rest s m r (ok results, s') a later = answers_first i rest s m s' r results a later
  Ran-first i rest s m r (err e, s') a (before, left, results, parts, answered) = (
    i ∷ before,
    left,
    r ∷ results,
    ap (λ t. i ∷ t) parts,
    answers_first i before s m s' r results a answered,
  )

  commit_affinity-Ran :
      (ps : List AffinityProposal) (s : Store)
      → Ran
          (map affinity_item ps)
          s
          (commit_affinity is_space is_printable casefold is_unit normalized is_aware utc now ps s)
  unfolding commit_affinity
  commit_affinity-Ran [] s = unfold Ran in all_answered s
  commit_affinity-Ran (p ∷ ps) s =
      elim (Result-cases (
        turn_matches is_space is_printable is_aware utc p.turn_id p.session_id p.generation_id s)) [
          | inr (e, raised) ↦ rw (commit_affinity, raised) (Ran-raised _ s e)
          | inl (false, stale) ↦
              rw (commit_affinity, stale)
                (Ran-first (affinity_item p) _ s s _ _ (missed_affinity p s stale)
                  (commit_affinity-Ran ps s))
          | inl (true, found) ↦
              elim (Result-cases (
                store_event is_space is_printable casefold is_unit normalized is_aware utc now p
                  s)) [
                    | inr (e, raised) ↦ rw (commit_affinity, found, raised) (Ran-raised _ s e)
                    | inl ((none, s'), done) ↦
                        rw (commit_affinity, found, done)
                          (Ran-first (affinity_item p) _ s s' _ _
                            (moves p s s' none rejected_limit found done (inl (refl, refl)))
                            (commit_affinity-Ran ps s'))
                    | inl ((some event, s'), done) ↦
                        rw (commit_affinity, found, done)
                          (Ran-first (affinity_item p) _ s s' _ _
                            (moves p s s' (some event) committed found done
                              (inr (event, refl, refl)))
                            (commit_affinity-Ran ps s'))
                  ]
        ]

  commit_all-Ran :
      (ps : List (MemoryProposal × ℕ)) (affinity : List AffinityProposal) (s : Store)
      → All (λ (q : MemoryProposal × ℕ). embed q.0.content ≡ ok q.1) ps
      → Ran (map (λ (q : MemoryProposal × ℕ). memory_item q.0) ps ++ map affinity_item affinity) s (
          commit_all is_space is_printable casefold is_unit normalized is_aware utc now ps affinity
            s)
  unfolding commit_all
  commit_all-Ran [] affinity s a = commit_affinity-Ran affinity s
  commit_all-Ran ((p, vector) ∷ ps) affinity s a =
      elim (Result-cases (
        turn_matches is_space is_printable is_aware utc p.turn_id p.session_id p.generation_id s)) [
          | inr (e, raised) ↦ rw (commit_all, raised) (Ran-raised _ s e)
          | inl (false, stale) ↦
              rw (commit_all, stale)
                (Ran-first (memory_item p) _ s s _ _ (missed_memory p s stale)
                  (commit_all-Ran ps affinity s a.1))
          | inl (true, found) ↦
              elim (Result-cases (
                store_memory is_space is_printable casefold is_unit normalized is_aware utc now p
                  vector s)) [
                    | inr (e, raised) ↦ rw (commit_all, found, raised) (Ran-raised _ s e)
                    | inl ((none, s'), done) ↦
                        rw (commit_all, found, done)
                          (Ran-first (memory_item p) _ s s' _ _
                            (remembers p s s' vector none duplicate found a.0 done
                              (inl (refl, refl)))
                            (commit_all-Ran ps affinity s' a.1))
                    | inl ((some memory, s'), done) ↦
                        rw (commit_all, found, done)
                          (Ran-first (memory_item p) _ s s' _ _
                            (remembers p s s' vector (some memory) committed found a.0 done
                              (inr (memory, refl, refl)))
                            (commit_all-Ran ps affinity s' a.1))
                  ]
        ]

  -- What was embedded: the memories that were given, each with the vector of its text.
  abbrev pub IsEmbedded : List MemoryProposal → List (MemoryProposal × ℕ) → Type 0
  IsEmbedded ps qs =
      All (λ (q : MemoryProposal × ℕ). embed q.0.content ≡ ok q.1) qs
      × (map (λ (q : MemoryProposal × ℕ). memory_item q.0) qs ≡ map memory_item ps)

  embed_all-IsEmbedded :
      (ps : List MemoryProposal) (qs : List (MemoryProposal × ℕ))
      → embed_all is_space is_printable casefold is_unit normalized is_aware utc embed ps ≡ ok qs
      → IsEmbedded ps qs
  embed_all-IsEmbedded [] qs e =
      let same : [] ≡ qs = cc e in subst (λ q. IsEmbedded [] q) same (tt, refl)
  embed_all-IsEmbedded (p ∷ ps) qs e =
      let (vector, embedded, e1) = >>=-ok (embed p.content) _ e in
      let (rest, others, e2) =
        >>=-ok (embed_all is_space is_printable casefold is_unit normalized is_aware utc embed ps) _
          e1 in
      let same : (p, vector) ∷ rest ≡ qs = cc e2 in
      let ih = embed_all-IsEmbedded ps rest others in
      subst (λ q. IsEmbedded (p ∷ ps) q) same ((embedded, ih.0), ap (λ r. memory_item p ∷ r) ih.1)

  pub commit_all-items :
      (generation : ℤ) (h : Host) (s : Store) (qs : List (MemoryProposal × ℕ))
      → embed_all is_space is_printable casefold is_unit normalized is_aware utc embed
          (memory_of generation h.memory)
        ≡ ok qs
      → Ran (items_of generation h) s (
          commit_all is_space is_printable casefold is_unit normalized is_aware utc now qs
            (affinity_of generation h.affinity)
            s)
  commit_all-items generation h s qs e =
      let P : MemoryProposal → Bool = λ p. same_generation p.generation_id generation in
      let Q : AffinityProposal → Bool = λ p. same_generation p.generation_id generation in
      let affinity = affinity_of generation h.affinity in
      let m = embed_all-IsEmbedded (memory_of generation h.memory) qs e in
      let memories = m.1 ∙ ap (λ ps. map memory_item ps) (select-filter P h.memory) in
      let same : map (λ (q : MemoryProposal × ℕ). memory_item q.0) qs ++ map affinity_item affinity
          ≡ items_of generation h =
        ap (λ t. t ++ map affinity_item affinity) memories
        ∙ ap (λ t. map memory_item (filter P h.memory) ++ map affinity_item t)
            (select-filter Q h.affinity) in
      subst
        (λ t. Ran t s (
          commit_all is_space is_printable casefold is_unit normalized is_aware utc now qs affinity
            s))
        same (commit_all-Ran qs affinity s m.0)
