-- ===== src/Pipeline/Playback.antt =====
-- pipeline/playback.py: the bounded queue of PCM chunks behind one high-water mark. The writer
-- task is seen between its awaits: it holds at most one chunk, whose write is under way. A
-- dictionary that is only read by `get(key, 0)` is a function, and so is the set of the events
-- that a `drain` waits for. The clock's readings and the outcomes of the device are arguments.
pub mod Accounts
pub mod Stops
pub mod Writer
pub mod Runs
use lune_voice_companion.Prelude.{
  ℕ, zero, suc, ◌+◌, ◌-◌, ◌*◌, max, Bool, true, false, not, ◌&&◌, ◌||◌, Option, none, some, List,
  [], ◌∷◌, ◌++◌, ltb, ◌==◌, if◌then◌else◌, length, ℤ,
}
use lune_voice_companion.Result.{
  Result, ◌>>=◌, ◌>>◌, natural, positive, bad_playback_setting, sink_closed, ok, err,
}

pub record Chunk : Type 0 where
  pub generation_id : ℕ
  pub bytes : List ℕ

abbrev pub max_tracked_generations : ℕ
max_tracked_generations = 128

pub record Sink (Time : Type 0) : Type 0 where
  pub capacity : ℕ
  pub silence_floor : ℕ
  pub queue : List Chunk
  pub stopped_before : ℕ
  pub pending : ℕ → ℕ
  pub idle : ℕ → Bool
  pub first_audible : List (ℕ × Time)
  pub failed_generations : List ℕ
  pub dropped_chunks : ℕ
  pub write_failures : ℕ
  pub overflowed : Bool
  pub writer_running : Bool
  pub in_flight : Option Chunk
  pub closed : Bool

-- What became of a write.
pub data Outcome : Type 0 where
  written failed cancelled : Outcome

-- What `drain` does when it is called or woken: it returns, or it waits for its event.
pub data DrainResult : Type 0 where
  returns : Bool → DrainResult
  waits : DrainResult

-- d[k] = v, and d.pop(k) where v is the value of an absent key
abbrev pub update {ℓ} : {V : Type ℓ} → (ℕ → V) → ℕ → V → ℕ → V
update d k v j = if j == k then v else d j

abbrev pub contains : ℕ → List ℕ → Bool
contains g [] = false
contains g (x ∷ xs) = g == x || contains g xs

abbrev pub contains_key : {Time : Type 0} → ℕ → List (ℕ × Time) → Bool
contains_key g [] = false
contains_key g ((x, t) ∷ xs) = g == x || contains_key g xs

-- `min` of a set that is not empty.
abbrev pub smallest : ℕ → List ℕ → ℕ
smallest m [] = m
smallest m (x ∷ xs) = smallest (if ltb x m then x else m) xs

abbrev pub remove : ℕ → List ℕ → List ℕ
remove g [] = []
remove g (x ∷ xs) = if g == x then xs else x ∷ remove g xs

abbrev pub remove_key : {Time : Type 0} → ℕ → List (ℕ × Time) → List (ℕ × Time)
remove_key g [] = []
remove_key g ((x, t) ∷ xs) = if g == x then xs else (x, t) ∷ remove_key g xs

-- The set after `add`, less its smallest member once it is too large.
add_failed : ℕ → List ℕ → List ℕ
add_failed g s =
    let added = if contains g s then s else g ∷ s in
    if ltb max_tracked_generations (length added) then remove (smallest g added) added else added

abbrev pub keys : {Time : Type 0} → List (ℕ × Time) → List ℕ
keys [] = []
keys ((g, t) ∷ xs) = g ∷ keys xs

-- `for stale in sorted(d)[:-128]: d.pop(stale)`: the smallest keys go, one for each entry too many.
drop_stale : {Time : Type 0} → ℕ → List (ℕ × Time) → List (ℕ × Time)
drop_stale zero d = d
drop_stale (suc n) [] = []
drop_stale (suc n) ((g, t) ∷ d) = drop_stale n (remove_key (smallest g (keys d)) ((g, t) ∷ d))

-- The absolute values of the little-endian 16-bit samples.
unfoldable pub magnitudes : List ℕ → List ℕ
magnitudes (lo ∷ hi ∷ rest) =
    let v = lo + 256 * hi in (if ltb v 32768 then v else 65536 - v) ∷ magnitudes rest
magnitudes _ = []

abbrev any_above : ℕ → List ℕ → Bool
any_above floor [] = false
any_above floor (v ∷ vs) = ltb floor v || any_above floor vs

-- The queued chunks that `stop_generation` puts back, in their order.
abbrev pub retained : ℕ → List Chunk → List Chunk
retained before [] = []
retained before (c ∷ cs) =
    let rest = retained before cs in if ltb c.generation_id before then rest else c ∷ rest

module _ {Time : Type 0} where
  unfoldable pub new_sink : ℤ → ℤ → Result (Sink Time)
  new_sink capacity silence_floor = do
    size ← positive capacity bad_playback_setting
    floor ← natural silence_floor bad_playback_setting
    ok (record {
      capacity = size;
      silence_floor = floor;
      queue = [];
      stopped_before = 0;
      pending = λ _. 0;
      idle = λ _. false;
      first_audible = [];
      failed_generations = [];
      dropped_chunks = 0;
      write_failures = 0;
      overflowed = false;
      writer_running = false;
      in_flight = none;
      closed = false;
    })

  abbrev pub is_stopped : Sink Time → ℕ → Bool
  is_stopped s generation = ltb generation s.stopped_before

  unfoldable pub is_audible : Sink Time → Chunk → Bool
  unfolding magnitudes
  is_audible s chunk = any_above s.silence_floor (magnitudes chunk.bytes)

  unfoldable pub start : Sink Time → Result (Sink Time)
  start s = if s.closed then err sink_closed else ok (record s { writer_running = true })

  -- `_release`. A count of nothing less one is negative, and goes the same way as zero: the key
  -- is popped, which leaves 0, and its event is set.
  unfoldable pub release : Sink Time → ℕ → Sink Time
  release s generation =
      let remaining = s.pending generation - 1 in
      record s {
        pending = update s.pending generation remaining;
        idle = if ltb 0 remaining then s.idle else update s.idle generation false;
      }

  unfoldable pub submit : Sink Time → Chunk → Bool × Sink Time
  submit s chunk =
      if s.closed
        || (is_stopped s chunk.generation_id || contains chunk.generation_id s.failed_generations)
      then (false, s)
      else let running = record s { writer_running = true } in
        if ltb (length s.queue) s.capacity
        then (
          true,
          record running {
            queue = s.queue ++ chunk ∷ [];
            pending = update s.pending chunk.generation_id (s.pending chunk.generation_id + 1);
          },
        )
        else (false, record running { dropped_chunks = s.dropped_chunks + 1; overflowed = true })

  -- The first loop of `stop_generation`: a queued chunk that is stopped is released.
  unfoldable pub purge : Sink Time → List Chunk → Sink Time
  purge s [] = s
  purge s (c ∷ cs) =
      if is_stopped s c.generation_id then purge (release s c.generation_id) cs else purge s cs

  unfoldable pub stop_generation : Sink Time → ℕ → Sink Time
  unfolding purge
  stop_generation s generation =
      let fenced = record s { stopped_before = max s.stopped_before (generation + 1) } in
      let purged = record (purge fenced s.queue) {
        queue = retained fenced.stopped_before s.queue;
      } in
      record purged {
        pending = λ g. if is_stopped purged g then 0 else purged.pending g;
        idle =
            λ g. if is_stopped purged g && ltb 0 (purged.pending g) then false else purged.idle g;
      }

  -- `drain`, when it is called (`woken` is false) and when its event is set.
  unfoldable pub drain : Sink Time → ℕ → Bool → DrainResult × Sink Time
  drain s generation woken =
      if is_stopped s generation
        || (s.closed || (not woken && contains generation s.failed_generations))
      then (returns false, s)
      else if ltb 0 (s.pending generation)
      then (waits, record s { idle = update s.idle generation true })
      else (returns (not (contains generation s.failed_generations)), s)

  unfoldable pub take_chunk : Sink Time → List Chunk → Sink Time
  take_chunk s [] = s
  take_chunk s (c ∷ cs) =
      let taken = record s { queue = cs } in
      if is_stopped s c.generation_id
      then release taken c.generation_id
      else record taken { in_flight = some c }

  unfoldable pub take_next : Option Chunk → Sink Time → Sink Time
  unfolding take_chunk
  take_next (some c) s = s
  take_next none s = if s.writer_running && not s.closed then take_chunk s s.queue else s

  -- One round of the writer up to its await of the device.
  unfoldable pub writer_take : Sink Time → Sink Time
  unfolding take_next
  writer_take s = take_next s.in_flight s

  unfoldable pub record_audible : Sink Time → ℕ → Time → Sink Time
  unfolding drop_stale
  record_audible s generation now =
      let d = s.first_audible ++ (generation, now) ∷ [] in
      record s { first_audible = drop_stale (length d - max_tracked_generations) d }

  unfoldable pub after_write : Outcome → Sink Time → Chunk → Time → Sink Time
  unfolding add_failed
  after_write written s c now =
      let heard =
        if not (contains_key c.generation_id s.first_audible) && is_audible s c
        then record_audible s c.generation_id now
        else s in
      release heard c.generation_id
  after_write failed s c now =
      release
        (record s {
          write_failures = s.write_failures + 1;
          failed_generations = add_failed c.generation_id s.failed_generations;
        })
        c.generation_id
  after_write cancelled s c now = record (release s c.generation_id) { writer_running = false }

  unfoldable pub settle : Option Chunk → Outcome → Sink Time → Time → Sink Time
  unfolding after_write
  settle none outcome s now = s
  settle (some c) outcome s now = after_write outcome (record s { in_flight = none }) c now

  -- The rest of the round, once the device has answered.
  unfoldable pub writer_done : Sink Time → Outcome → Time → Sink Time
  unfolding settle
  writer_done s outcome now = settle s.in_flight outcome s now

  -- `close`, past its first return.
  unfoldable pub shut : Sink Time → Time → Sink Time
  unfolding settle
  shut s now =
      let stopped = settle s.in_flight cancelled (record s { closed = true }) now in
      record stopped {
        writer_running = false;
        pending = λ _. 0;
        idle = λ g. if ltb 0 (stopped.pending g) then false else stopped.idle g;
      }

  unfoldable pub close : Sink Time → Time → Sink Time
  unfolding shut
  close s now = if s.closed then s else shut s now
