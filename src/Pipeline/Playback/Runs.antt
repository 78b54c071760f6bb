-- ===== src/Pipeline/Playback/Runs.antt =====
-- Any sequence of the calls of pipeline/playback.py and of its writer's rounds.
use lune_voice_companion.Prelude.{
  ℕ, ◌+◌, ◌≤◌, ◌<◌, max, ◌≡◌, refl, inl, inr, Bool, true, not, ◌&&◌, Option, none, some, List, [],
  ◌∷◌, arith, if◌then◌else◌, Bool-cases, All,
}
use mathlib.Core.Path.{subst}
use lune_voice_companion.Pipeline.Playback.{
  Chunk, Sink, Outcome, written, failed, cancelled, submit, stop_generation, drain, writer_take,
  writer_done, close, release, take_next, take_chunk, settle, after_write, record_audible, shut,
  take_next,
}
use lune_voice_companion.Pipeline.Playback.Accounts.{Balances, submit-Balances}
use lune_voice_companion.Pipeline.Playback.Stops.{purge-IsPurged, stop_generation-Balances}
use lune_voice_companion.Pipeline.Playback.Writer.{
  writer_take-Balances, writer_done-Balances, drain-Balances, close-Balances,
}

-- What happens to a sink: a caller's call, or a part of the writer's round.
pub data Action (Time : Type 0) : Type 0 where
  submits : Chunk → Action Time
  stops : ℕ → Action Time
  drains : ℕ → Bool → Action Time
  takes : Action Time
  answers : Outcome → Time → Action Time
  closes : Time → Action Time

module _ {Time : Type 0} where
  abbrev pub act : Action Time → Sink Time → Sink Time
  act (submits c) s = (submit s c).1
  act (stops n) s = stop_generation s n
  act (drains g woken) s = (drain s g woken).1
  act takes s = writer_take s
  act (answers outcome now) s = writer_done s outcome now
  act (closes now) s = close s now

  abbrev pub acts : List (Action Time) → Sink Time → Sink Time
  acts [] s = s
  acts (a ∷ rest) s = acts rest (act a s)

  act-Balances : (a : Action Time) (s : Sink Time) → Balances s → Balances (act a s)
  act-Balances (submits c) s v = submit-Balances s c v
  act-Balances (stops n) s v = stop_generation-Balances s n v
  act-Balances (drains g woken) s v = drain-Balances s g woken v
  act-Balances takes s v = writer_take-Balances s v
  act-Balances (answers outcome now) s v = writer_done-Balances s outcome now v
  act-Balances (closes now) s v = close-Balances s now v

  -- Whatever is submitted, stopped, drained, written or closed, in whatever order: while the sink is
  -- open, the pending count of a generation that is not stopped is the number of its chunks in the
  -- queue and in the writer's hand; no chunk below the high-water mark is queued; the queue is
  -- within its capacity; and a `drain` that still waits has something pending to wait for.
  pub acts-Balances :
      (ops : List (Action Time)) (s : Sink Time) → Balances s → Balances (acts ops s)
  acts-Balances [] s v = v
  acts-Balances (a ∷ rest) s v = acts-Balances rest (act a s) (act-Balances a s v)

  take_next-fence :
      (s : Sink Time) (held : Option Chunk) (q : List Chunk)
      → s.queue ≡ q
      → (take_next held s).stopped_before ≡ s.stopped_before
  unfolding take_next take_chunk release
  take_next-fence s (some c) q e = refl
  take_next-fence s none [] e = rw e (ground arith)
  take_next-fence s none (c ∷ cs) e = rw e (ground arith)

  after_write-fence :
      (outcome : Outcome) (s : Sink Time) (c : Chunk) (now : Time)
      → (after_write outcome s c now).stopped_before ≡ s.stopped_before
  unfolding after_write release record_audible
  after_write-fence written s c now = ground arith
  after_write-fence failed s c now = refl
  after_write-fence cancelled s c now = refl

  settle-fence :
      (s : Sink Time) (held : Option Chunk) (outcome : Outcome) (now : Time)
      → (settle held outcome s now).stopped_before ≡ s.stopped_before
  unfolding settle
  settle-fence s none outcome now = refl
  settle-fence s (some c) outcome now =
      after_write-fence outcome (record s { in_flight = none }) c now

  act-fence : (a : Action Time) (s : Sink Time) → s.stopped_before ≤ (act a s).stopped_before
  unfolding submit stop_generation drain writer_take writer_done close shut
  act-fence (submits c) s = ground arith
  act-fence (stops n) s = omega (
    arith,
    (purge-IsPurged (record s { stopped_before = max s.stopped_before (n + 1) })
        s.queue).same_fence,
  )
  act-fence (drains g woken) s = ground arith
  act-fence takes s = omega (arith, take_next-fence s s.in_flight s.queue refl)
  act-fence (answers outcome now) s = omega (arith, settle-fence s s.in_flight outcome now)
  act-fence (closes now) s =
      ground (arith, settle-fence (record s { closed = true }) s.in_flight cancelled now)

  acts-fence :
      (ops : List (Action Time)) (s : Sink Time) → s.stopped_before ≤ (acts ops s).stopped_before
  acts-fence [] s = omega arith
  acts-fence (a ∷ rest) s = omega (arith, act-fence a s, acts-fence rest (act a s))

  stop_generation-fence : (s : Sink Time) (n : ℕ) → n < (stop_generation s n).stopped_before
  unfolding stop_generation
  stop_generation-fence s n = omega (
    arith,
    (purge-IsPurged (record s { stopped_before = max s.stopped_before (n + 1) })
        s.queue).same_fence,
  )

  take_chunk-takes :
      (t : Sink Time) (q : List Chunk) (c : Chunk)
      → All (λ (c : Chunk). t.stopped_before ≤ c.generation_id) q
      → t.in_flight ≡ none
      → (take_chunk t q).in_flight ≡ some c
      → t.stopped_before ≤ c.generation_id
  unfolding take_chunk release
  take_chunk-takes t [] c v f k = grind (arith, f, k)
  take_chunk-takes t (x ∷ xs) c v f k = grind (arith, f, k, v.0)

  taken :
      (t : Sink Time) (held : Option Chunk) (c : Chunk)
      → held ≡ none
      → (take_next held t).in_flight ≡ some c
      → Balances t
      → t.in_flight ≡ none
      → t.stopped_before ≤ c.generation_id
  unfolding take_next
  taken t (some x) c h k v f = grind (arith, h)
  taken t none c h k v f = elim (Bool-cases (t.writer_running && not t.closed)) [
    | inl b ↦
        take_chunk-takes t t.queue c v.fenced f
          (subst (λ x. (if x then take_chunk t t.queue else t).in_flight ≡ some c) b k)
    | inr b ↦
        grind
          (arith, f, subst (λ x. (if x then take_chunk t t.queue else t).in_flight ≡ some c) b k)
  ]

  -- Once `stop_generation n` has returned, no sequence of calls and rounds makes the writer take up a
  -- chunk of generation `n` or of an older one.
  pub stop_generation-silences :
      (s : Sink Time) (n : ℕ) (ops : List (Action Time)) (c : Chunk)
      → Balances s
      → (acts ops (stop_generation s n)).in_flight ≡ none
      → (writer_take (acts ops (stop_generation s n))).in_flight ≡ some c
      → n < c.generation_id
  unfolding writer_take
  stop_generation-silences s n ops c v f k =
      let t = acts ops (stop_generation s n) in
      omega (
        arith,
        stop_generation-fence s n,
        acts-fence ops (stop_generation s n),
        taken t t.in_flight c f k
            (acts-Balances ops (stop_generation s n) (stop_generation-Balances s n v)) f,
      )
