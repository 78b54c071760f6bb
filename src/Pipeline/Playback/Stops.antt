-- ===== src/Pipeline/Playback/Stops.antt =====
-- `stop_generation` of pipeline/playback.py: the chunks that it releases and the chunks that it keeps.
use lune_voice_companion.Prelude.{
  ℕ, ◌+◌, ◌≤◌, ◌<◌, max, ◌≡◌, refl, sym, ap, ◌∙◌, inl, inr, true, false, ◌&&◌, List, [], ◌∷◌, arith,
  ltb, if◌then◌else◌, Bool-cases,
}
use lune_voice_companion.Pipeline.Playback.{
  Chunk, Sink, release, purge, retained, is_stopped, stop_generation,
}
use lune_voice_companion.Pipeline.Playback.Accounts.{
  count-retained, retained-All, length-retained-le, Balances,
}

module _ {Time : Type 0} where
  -- `release` of stopped generations leaves the others alone.
  pub record IsPurged (s t : Sink Time) : Type 0 where
    pub same_fence : t.stopped_before ≡ s.stopped_before
    pub same_capacity : t.capacity ≡ s.capacity
    pub same_flight : t.in_flight ≡ s.in_flight
    pub same_closed : t.closed ≡ s.closed
    pub same_pending : (g : ℕ) → is_stopped s g ≡ false → t.pending g ≡ s.pending g
    pub wakes :
        ((g : ℕ) → s.idle g ≡ true → 0 < s.pending g) → (g : ℕ) → t.idle g ≡ true → 0 < t.pending g

  release-IsPurged : (s : Sink Time) (k : ℕ) → is_stopped s k ≡ true → IsPurged s (release s k)
  unfolding release
  release-IsPurged s k h = record {
    same_fence = refl;
    same_capacity = refl;
    same_flight = refl;
    same_closed = refl;
    same_pending = λ g n. ground arith;
    wakes = λ w g i. ground (arith, w g);
  }

  IsPurged-trans : (s t u : Sink Time) → IsPurged s t → IsPurged t u → IsPurged s u
  IsPurged-trans s t u a b = record {
    same_fence = b.same_fence ∙ a.same_fence;
    same_capacity = b.same_capacity ∙ a.same_capacity;
    same_flight = b.same_flight ∙ a.same_flight;
    same_closed = b.same_closed ∙ a.same_closed;
    same_pending = λ g n. b.same_pending g (ap (ltb g) a.same_fence ∙ n) ∙ a.same_pending g n;
    wakes = λ w. b.wakes (a.wakes w);
  }

  pub purge-IsPurged : (s : Sink Time) (cs : List Chunk) → IsPurged s (purge s cs)
  unfolding purge
  purge-IsPurged s [] = record {
    same_fence = refl;
    same_capacity = refl;
    same_flight = refl;
    same_closed = refl;
    same_pending = λ g n. refl;
    wakes = λ w. w;
  }
  purge-IsPurged s (c ∷ cs) = elim (Bool-cases (is_stopped s c.generation_id)) [
    | inl e ↦ rw e (
        IsPurged-trans s (release s c.generation_id) _ (release-IsPurged s c.generation_id e)
          (purge-IsPurged (release s c.generation_id) cs))
    | inr e ↦ rw e (purge-IsPurged s cs)
  ]

  -- What `stop_generation` does once the queue is purged.
  abbrev fence_off : Sink Time → Sink Time → ℕ → Sink Time
  fence_off s t before = record t {
    queue = retained before s.queue;
    pending = λ g. if is_stopped t g then 0 else t.pending g;
    idle = λ g. if is_stopped t g && ltb 0 (t.pending g) then false else t.idle g;
  }

  fence_off-Balances :
      (s t : Sink Time) (before : ℕ)
      → s.stopped_before ≤ before
      → Balances s
      → IsPurged (record s { stopped_before = before }) t
      → Balances (fence_off s t before)
  fence_off-Balances s t before l v p = record {
    counted = λ g o h.
        let h' = ap (ltb g) (sym p.same_fence) ∙ h in
        let old = p.same_pending g h' ∙ v.counted g (sym p.same_closed ∙ o) (ground (arith, l)) in
        rw (h, p.same_flight, old, count-retained g before s.queue h') refl;
    fenced = rw p.same_fence (retained-All before s.queue);
    bounded = rw p.same_capacity (omega (arith, length-retained-le before s.queue, v.bounded));
    waking = λ g i. ground (arith, p.wakes v.waking g);
  }

  pub stop_generation-Balances :
      (s : Sink Time) (n : ℕ) → Balances s → Balances (stop_generation s n)
  unfolding stop_generation
  stop_generation-Balances s n v =
      let before = max s.stopped_before (n + 1) in
      fence_off-Balances s (purge (record s { stopped_before = before }) s.queue) before
        (omega arith) v (purge-IsPurged (record s { stopped_before = before }) s.queue)
