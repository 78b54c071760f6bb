-- ===== src/Pipeline/Playback/Accounts.antt =====
-- The accounts of pipeline/playback.py: what is pending, who waits, and what may still be heard.
use lune_voice_companion.Prelude.{
  ℕ, ◌+◌, ◌≤◌, ◌<◌, ◌≡◌, refl, inl, inr, Bool, true, false, ◌||◌, Option, none, some, List, [], ◌∷◌,
  ◌++◌, arith, ltb, ◌==◌, if◌then◌else◌, ltb→lt, Bool-cases, length, All, length-append,
}
use lune_voice_companion.Pipeline.Playback.{
  Chunk, Sink, release, retained, is_stopped, submit, contains,
}

abbrev pub one_if : Bool → ℕ
one_if b = if b then 1 else 0

-- How many chunks of a generation a list holds.
abbrev pub count : ℕ → List Chunk → ℕ
count g [] = 0
count g (c ∷ cs) = one_if (c.generation_id == g) + count g cs

abbrev pub in_hand : ℕ → Option Chunk → ℕ
in_hand g none = 0
in_hand g (some c) = one_if (c.generation_id == g)

pub count-append : (g : ℕ) (xs ys : List Chunk) → count g (xs ++ ys) ≡ count g xs + count g ys
count-append g [] ys = omega arith
count-append g (c ∷ cs) ys = omega (arith, count-append g cs ys)

pub count-retained :
    (g before : ℕ) (q : List Chunk) → ltb g before ≡ false → count g (retained before q) ≡ count g q
count-retained g before [] h = refl
count-retained g before (c ∷ cs) h = ground (arith, count-retained g before cs h)

pub retained-All :
    (before : ℕ) (q : List Chunk)
    → All (λ (c : Chunk). before ≤ c.generation_id) (retained before q)
retained-All before [] = tt
retained-All before (c ∷ cs) = ground (arith, retained-All before cs)

pub length-retained-le : (before : ℕ) (q : List Chunk) → length (retained before q) ≤ length q
length-retained-le before [] = omega arith
length-retained-le before (c ∷ cs) = ground (arith, length-retained-le before cs)

pub All-snoc :
    (before : ℕ) (q : List Chunk) (c : Chunk)
    → All (λ (c : Chunk). before ≤ c.generation_id) q
    → before ≤ c.generation_id
    → All (λ (c : Chunk). before ≤ c.generation_id) (q ++ c ∷ [])
All-snoc before [] c a h = (h, tt)
All-snoc before (x ∷ xs) c a h = (a.0, All-snoc before xs c a.1 h)

module _ {Time : Type 0} where
  -- Of a generation that is not stopped every accepted chunk is pending until it is written, failed or given up;
  -- no stopped chunk is queued; and a `drain` waits only for a generation with something pending.
  pub record Balances (s : Sink Time) : Type 0 where
    pub counted :
        (g : ℕ)
        → s.closed ≡ false
        → is_stopped s g ≡ false
        → s.pending g ≡ count g s.queue + in_hand g s.in_flight
    pub fenced : All (λ (c : Chunk). s.stopped_before ≤ c.generation_id) s.queue
    pub bounded : length s.queue ≤ s.capacity
    pub waking : (g : ℕ) → s.idle g ≡ true → 0 < s.pending g

  pub submit-Balances : (s : Sink Time) (c : Chunk) → Balances s → Balances (submit s c).1
  unfolding submit
  submit-Balances s c v =
      elim (Bool-cases (
        s.closed
        || (is_stopped s c.generation_id || contains c.generation_id s.failed_generations))) [
          | inl no_entry ↦ rw no_entry v
          | inr entry ↦ elim (Bool-cases (ltb (length s.queue) s.capacity)) [
            | inl room ↦
                rw (entry, room)
                  (record {
                    counted =
                        λ g o n. ground (arith, v.counted g o n, count-append g s.queue (c ∷ []));
                    fenced = All-snoc s.stopped_before s.queue c v.fenced (ground arith);
                    bounded = rw length-append (omega (arith, ltb→lt _ _ room));
                    waking = λ g i. ground (arith, v.waking g i);
                  })
            | inr full ↦
                rw (entry, full)
                  (record {
                    counted = v.counted;
                    fenced = v.fenced;
                    bounded = v.bounded;
                    waking = v.waking;
                  })
          ]
        ]

  -- A chunk of the generation leaves the sink.
  pub release-Balances :
      (s : Sink Time) (g : ℕ)
      → ((k : ℕ)
          → s.closed ≡ false
          → is_stopped s k ≡ false
          → s.pending k ≡ count k s.queue + in_hand k s.in_flight + one_if (g == k))
      → All (λ (c : Chunk). s.stopped_before ≤ c.generation_id) s.queue
      → length s.queue ≤ s.capacity
      → ((k : ℕ) → s.idle k ≡ true → 0 < s.pending k)
      → Balances (release s g)
  unfolding release
  release-Balances s g counted fenced bounded waking = record {
    counted = λ k o n. ground (arith, counted k o n);
    fenced = fenced;
    bounded = bounded;
    waking = λ k i. ground (arith, waking k);
  }
