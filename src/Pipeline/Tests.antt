-- ===== src/Pipeline/Tests.antt =====
-- The theorems on src/lune/pipeline at concrete inputs, at a rate of one sample for a millisecond.
use lune_voice_companion.Prelude.{
  ℕ, ◌<◌, ◌≡◌, refl, inl, inr, Bool, true, false, none, some, List, [], ◌∷◌, arith, pos,
}
use lune_voice_companion.Result.{ok}
use lune_voice_companion.Audio.Span.{AudioSpan, milliseconds_to_samples}
use lune_voice_companion.Audio.Span.Laws.{IsSpan}
use lune_voice_companion.Audio.Vad.{new_policy, TurnPolicyConfig}
use lune_voice_companion.Audio.Preroll.{PreRollBuffer}
use lune_voice_companion.Audio.Preroll.Window.{IsRing}
use lune_voice_companion.Pipeline.Contracts.{barge_in, shutdown}
use lune_voice_companion.Pipeline.Gate.{Gate, reset_generation, carry_over_generation}
use lune_voice_companion.Pipeline.Gate.Create.{new_gate, new_gate-IsReady}
use lune_voice_companion.Pipeline.Gate.Feed.{feed_accepted, Detector, feed}
use lune_voice_companion.Pipeline.Gate.Ready.{IsTuned, IsReady, OnTime}
use lune_voice_companion.Pipeline.Gate.Fences.{IsReset, IsCarried, reset_lem, carry_over_lem}
use lune_voice_companion.Pipeline.Coordinator.{
  Call, CallOutcome, returned, raised, interrupted, interrupt_provider, set_transport, Coordinator,
  Ticket, is_current, teardown,
}
use lune_voice_companion.Pipeline.Coordinator.Teardown.{
  plan, reached, any_interrupted, calls_of, failures_of, teardown-plan,
}
use lune_voice_companion.Pipeline.Coordinator.Fence.{
  System, Action, begins, finishes, step, steps, IsFenced, steps-IsFenced, begin_fences,
}
use lune_voice_companion.Pipeline.Playback.{
  Chunk, Sink, submit, stop_generation, writer_take, written,
}
use lune_voice_companion.Pipeline.Playback.Accounts.{Balances}
use lune_voice_companion.Pipeline.Playback.Runs.{
  submits, stops, takes, answers, acts, acts-Balances, stop_generation-silences,
}

abbrev small_config : TurnPolicyConfig
small_config = record {
  sample_rate = pos 1000;
  idle_start_ms = pos 2;
  barge_in_ms = pos 4;
  end_silence_ms = pos 3;
}

small_config-IsTuned : IsTuned small_config 2 4 3 1
unfolding milliseconds_to_samples
small_config-IsTuned = record {
  timed = record { idle_exact = refl; barge_exact = refl; silence_exact = refl };
  idle_pos = omega arith;
  idle_first = omega arith;
  has_frames = omega arith;
}

-- A detector that hears a voice in each window of one sample.
abbrev detector : Detector Unit
detector = record { frames_required = 1; is_voiced = λ d window. (true, d) }

abbrev empty_ring : PreRollBuffer
empty_ring = record {
  sample_rate = 1000;
  channels = 1;
  pre_roll_samples = 2;
  capacity_samples = 10;
  spans = [];
  generation_id = none;
}

-- A gate without audio, and one in the middle of a turn.
abbrev quiet_gate : Gate Unit
quiet_gate = record {
  detector = tt;
  policy = record {
    config = small_config;
    next_sample = none;
    voice_onset = none;
    silence_onset = none;
    turn_active = false;
  };
  pre_roll = empty_ring;
  sample_rate = 1000;
  channels = 1;
  bytes_per_frame = 2;
  max_utterance_samples = 100;
  generation_id = 1;
  carried_generation = none;
  window = [];
  window_start = none;
  utterance = [];
  utterance_start = none;
  utterance_end = 0;
  pre_roll_truncated = false;
  discontinuities = 0;
}

empty_ring-IsRing : IsRing empty_ring
empty_ring-IsRing = record {
  chain = tt;
  owned = refl;
  has_room = omega arith;
  has_rate = omega arith;
  has_channels = omega arith;
  bounded = omega arith;
}

new_gate-IsReady_example :
    (g : Gate Unit) × (new_gate tt
        (some (new_policy small_config))
        (some empty_ring)
        (pos 1)
        (pos 1000)
        (pos 1)
        (pos 100)
      ≡ ok g)
    × IsReady small_config 4 1 g
    × ((idle silence : ℕ) (ai : Bool) → OnTime idle 4 silence g ai)
unfolding milliseconds_to_samples
new_gate-IsReady_example =
    new_gate-IsReady tt small_config empty_ring 1 1000 100 100 4 1 empty_ring-IsRing refl refl refl
      (omega arith) (omega arith) refl

abbrev two_samples : AudioSpan
two_samples = record {
  pcm = 1 ∷ 0 ∷ 2 ∷ 0 ∷ [];
  start_sample = 0;
  end_sample = 2;
  generation_id = 1;
  sample_rate = 1000;
  channels = 1;
}

two_samples-IsSpan : IsSpan two_samples
two_samples-IsSpan = record {
  ordered = omega arith;
  has_rate = omega arith;
  has_channels = omega arith;
  exact_length = refl;
}

-- The window of the first sample is on the gate's buffer.
abbrev fed_gate : Gate Unit
fed_gate = record quiet_gate { window = 1 ∷ 0 ∷ []; window_start = some 0 }

fed_gate-IsReady : IsReady small_config 4 1 fed_gate
fed_gate-IsReady = record {
  ring = empty_ring-IsRing;
  same_config = refl;
  ring_rate = refl;
  ring_channels = refl;
  frame_bytes = refl;
  room = omega arith;
  bound = omega arith;
  located = λ l. refl;
  in_step = inl refl;
  ring_reaches = λ f. cc;
  ring_fenced = λ f. cc;
  pending = λ o a e. cc e;
  utterance_open = refl;
  utterance_whole = λ u e. cc e;
}

reset_lem_example :
    let out = reset_generation 2 fed_gate in
    (out.0 ≡ ok tt)
    × IsReset detector 2 4 3 small_config small_config-IsTuned 2 out.1
    × (feed detector two_samples false out.1 ≡ (ok [], out.1))
reset_lem_example =
    reset_lem detector 2 4 3 small_config small_config-IsTuned 2 fed_gate two_samples false
      fed_gate-IsReady (omega arith) refl refl refl

abbrev open_gate : Gate Unit
open_gate = record quiet_gate {
  policy = record {
    config = small_config;
    next_sample = some 2;
    voice_onset = none;
    silence_onset = none;
    turn_active = true;
  };
  window_start = some 2;
  utterance = 1 ∷ 0 ∷ 2 ∷ 0 ∷ [];
  utterance_start = some 0;
  utterance_end = 2;
}

open_gate-IsReady : IsReady small_config 4 1 open_gate
open_gate-IsReady = record {
  ring = empty_ring-IsRing;
  same_config = refl;
  ring_rate = refl;
  ring_channels = refl;
  frame_bytes = refl;
  room = omega arith;
  bound = omega arith;
  located = λ l. refl;
  in_step = inr refl;
  ring_reaches = λ f. cc;
  ring_fenced = λ f. cc;
  pending = λ o a e. cc a;
  utterance_open = refl;
  utterance_whole = λ u e.
      let z : u ≡ 0 = cc e in
      rw z (record { starts = refl; not_empty = omega arith; bytes = refl }, refl);
}

carry_over_lem_example :
    let out = carry_over_generation 2 open_gate in
    (out.0 ≡ ok tt)
    × IsCarried detector 2 4 3 small_config small_config-IsTuned 2 open_gate out.1
    × (feed detector two_samples false out.1
        ≡ feed_accepted detector (some (record two_samples { generation_id = 2 })) false out.1)
carry_over_lem_example =
    carry_over_lem detector 2 4 3 small_config small_config-IsTuned 2 open_gate two_samples false
      open_gate-IsReady refl (omega arith) two_samples-IsSpan refl refl refl

abbrev coordinator : Coordinator
coordinator = record { has_provider = true; has_transport = true; generation_id = 3; history = [] }

abbrev idle_system : System
idle_system = record { coordinator = coordinator; waiting = [] }

abbrev ticket : Ticket
ticket = record { previous = 3; current = 4; reason = barge_in }

-- The provider raises, and the task is cancelled at the transport.
abbrev ends : Call → CallOutcome
ends (interrupt_provider generation) = raised
ends (set_transport generation) = interrupted
ends _ = returned

teardown-plan_example :
    ((teardown ends coordinator ticket).calls ≡ calls_of (reached ends (plan coordinator ticket)))
    × ((teardown ends coordinator ticket).failed
        ≡ failures_of ends (reached ends (plan coordinator ticket)))
    × ((teardown ends coordinator ticket).aborted ≡ any_interrupted ends (plan coordinator ticket))
teardown-plan_example = teardown-plan ends coordinator ticket

idle_system-IsFenced : IsFenced idle_system
idle_system-IsFenced = record {
  low = 3;
  climbs = refl;
  bounded = omega arith;
  ascends = omega arith;
}

-- Two cancellations overlap.
abbrev overlap : List Action
overlap =
    begins barge_in
    ∷ begins shutdown
    ∷ finishes (λ _. returned) (pos 1)
    ∷ finishes (λ _. raised) (pos 2)
    ∷ []

steps-IsFenced_example : IsFenced (steps idle_system overlap)
steps-IsFenced_example = steps-IsFenced idle_system overlap idle_system-IsFenced

begin_fences_example :
    is_current (steps (step idle_system (begins barge_in)) overlap).coordinator 3 ≡ false
begin_fences_example = begin_fences idle_system barge_in overlap 3 (omega arith)

abbrev empty_sink : Sink ℕ
empty_sink = record {
  capacity = 2;
  silence_floor = 0;
  queue = [];
  stopped_before = 0;
  pending = λ _. 0;
  idle = λ _. false;
  first_audible = [];
  failed_generations = [];
  dropped_chunks = 0;
  write_failures = 0;
  overflowed = false;
  writer_running = false;
  in_flight = none;
  closed = false;
}

empty_sink-Balances : Balances empty_sink
empty_sink-Balances = record {
  counted = λ g o n. refl;
  fenced = tt;
  bounded = omega arith;
  waking = λ g i. cc i;
}

acts-Balances_example : Balances (
    acts
      (submits (record { generation_id = 1; bytes = 1 ∷ 0 ∷ [] })
        ∷ takes
        ∷ stops 1
        ∷ answers written 7
        ∷ [])
      empty_sink)
acts-Balances_example =
    acts-Balances
      (submits (record { generation_id = 1; bytes = 1 ∷ 0 ∷ [] })
        ∷ takes
        ∷ stops 1
        ∷ answers written 7
        ∷ [])
      empty_sink empty_sink-Balances

-- A chunk of the generation after the one that is stopped.
abbrev later_chunk : Chunk
later_chunk = record { generation_id = 2; bytes = 1 ∷ 0 ∷ [] }

stop_generation-silences_example : 1 < 2
unfolding submit stop_generation writer_take
stop_generation-silences_example =
    stop_generation-silences empty_sink 1 (submits later_chunk ∷ []) later_chunk empty_sink-Balances
      refl refl
