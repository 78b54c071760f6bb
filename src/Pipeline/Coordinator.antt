-- ===== src/Pipeline/Coordinator.antt =====
-- pipeline/coordinator.py: the one entry point that invalidates a generation. A collaborator is
-- seen by the calls it gets and by how each of them ends; the clock by the duration it measures.
pub mod Fence
pub mod Teardown
use lune_voice_companion.Prelude.{
  ℕ, ◌+◌, ◌-◌, Bool, true, false, List, [], ◌∷◌, ◌++◌, ◌==◌, if◌then◌else◌, length, drop, ℤ,
}
use lune_voice_companion.Result.{Result, task_cancelled, err, ok}
use lune_voice_companion.Pipeline.Contracts.{
  CancelReason, CancelStage, CancelEvent, cancel_event, barge_in, text_barge_in, device_changed,
  microphone_off, stream_error, stt_timeout, output_overflow, shutdown, error, playback, tts, stt,
  provider, proposals, turn_gate, transport,
}

-- The calls of the collaborators, each with the generation it is given.
pub data Call : Type 0 where
  stop_playback cancel_tts set_stt interrupt_provider cancel_proposals : ℕ → Call
  carry_over_gate reset_gate rebuild_transport set_transport : ℕ → Call

-- How a call ends: it returns, raises an Exception, or raises the task's own CancelledError.
pub data CallOutcome : Type 0 where
  returned raised interrupted : CallOutcome

abbrev pub history_limit : ℕ
history_limit = 64

pub record Coordinator : Type 0 where
  pub has_provider : Bool
  pub has_transport : Bool
  pub generation_id : ℕ
  pub history : List CancelEvent

unfoldable pub is_current : Coordinator → ℕ → Bool
is_current c generation = generation == c.generation_id

-- A cancellation that has moved the fence and waits for the lock.
pub record Ticket : Type 0 where
  pub previous : ℕ
  pub current : ℕ
  pub reason : CancelReason

-- The part of `cancel` before the lock: the fence moves at once.
unfoldable pub begin : Coordinator → CancelReason → Ticket × Coordinator
begin c reason =
    let previous = c.generation_id in
    let current = previous + 1 in
    (
      record { previous = previous; current = current; reason = reason },
      record c { generation_id = current },
    )

-- `_fence_turn_gate`
unfoldable pub gate_call : CancelReason → ℕ → Call
gate_call barge_in generation = carry_over_gate generation
gate_call _ generation = reset_gate generation

-- `_fence_transport`
unfoldable pub transport_call : CancelReason → ℕ → Call
transport_call device_changed generation = rebuild_transport generation
transport_call microphone_off generation = rebuild_transport generation
transport_call stream_error generation = rebuild_transport generation
transport_call output_overflow generation = rebuild_transport generation
transport_call _ generation = set_transport generation

-- The calls made so far, the stages of those that raised, and whether a CancelledError left the method.
pub record Progress : Type 0 where
  pub calls : List Call
  pub failed : List CancelStage
  pub aborted : Bool

module _ (outcome : Call → CallOutcome) where
  -- The call and what `_run` and `_run_sync` make of its end: an Exception is noted and goes no further,
  -- a CancelledError is raised again.
  ended : CallOutcome → CancelStage → Progress → Progress
  ended returned stage p = p
  ended raised stage p = record p { failed = p.failed ++ stage ∷ [] }
  ended interrupted stage p = record p { aborted = true }

  unfoldable pub run : CancelStage → Call → Progress → Progress
  unfolding ended
  run stage call p =
      if p.aborted
      then p
      else ended (outcome call) stage (record p { calls = p.calls ++ call ∷ [] })

  run_if : Bool → CancelStage → Call → Progress → Progress
  unfolding run
  run_if present stage call p = if present then run stage call p else p

  -- The part of `cancel` under the lock.
  unfoldable pub teardown : Coordinator → Ticket → Progress
  unfolding run run_if gate_call transport_call
  teardown c t =
      let p1 =
        run playback (stop_playback t.previous)
          (record { calls = []; failed = []; aborted = false }) in
      let p2 = run tts (cancel_tts t.previous) p1 in
      let p3 = run stt (set_stt t.current) p2 in
      let p4 = run_if c.has_provider provider (interrupt_provider t.previous) p3 in
      let p5 = run proposals (cancel_proposals t.previous) p4 in
      let p6 = run turn_gate (gate_call t.reason t.current) p5 in
      run_if c.has_transport transport (transport_call t.reason t.current) p6

-- `deque(maxlen=64)`: the oldest entries go.
unfoldable pub remember : List CancelEvent → CancelEvent → List CancelEvent
remember history e = let longer = history ++ e ∷ [] in drop (length longer - history_limit) longer

record_event : Coordinator → Result CancelEvent → Result CancelEvent × Coordinator
unfolding remember
record_event c (ok e) = (ok e, record c { history = remember c.history e })
record_event c (err x) = (err x, c)

-- The part of `cancel` behind the lock.
unfoldable pub finish :
    (Call → CallOutcome) → ℤ → Coordinator → Ticket → Result CancelEvent × Coordinator
unfolding record_event
finish outcome audible_stop_ms c t =
    let p = teardown outcome c t in
    if p.aborted
    then (err task_cancelled, c)
    else record_event c (cancel_event t.previous t.current t.reason audible_stop_ms p.failed)
