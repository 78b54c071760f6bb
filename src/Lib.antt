-- ===== src/Lib.antt =====
-- Lune's voice companion: a microphone feeds a local voice pipeline whose answers are spoken back,
-- and every interruption fences off what the last answer still has in flight.
--
-- The program's parts and the files that model them (paths from the repository's root):
--   Audio/Span.antt            src/lune/audio/types.py: `AudioSpan`, PCM with its sample range.
--   Audio/Vad.antt             src/lune/audio/vad.py: `TurnPolicy`, the starts and ends of turns.
--   Audio/Preroll.antt         src/lune/audio/preroll.py: `PreRollBuffer`, the newest audio.
--   Audio/Transport.antt       src/lune/audio/transport.py: `LocalAudioTransport`, the capture queue.
--   Audio/Devices.antt         src/lune/audio/devices.py: `DeviceStateMachine`.
--   Pipeline/Contracts.antt    src/lune/pipeline/contracts.py: the events.
--   Pipeline/Gate.antt         src/lune/pipeline/turn_gate.py: `VoiceTurnGate`, its utterance and fences.
--   Pipeline/Gate/Feed.antt    src/lune/pipeline/turn_gate.py: `feed`, `pump` and the loop over windows.
--   Pipeline/Coordinator.antt  src/lune/pipeline/coordinator.py: `GenerationCoordinator.cancel`.
--   Pipeline/Playback.antt     src/lune/pipeline/playback.py: `PlaybackSink` and its writer.
--   Llm/Budget.antt            src/lune/llm/budget.py: `BudgetLedger`.
--   Llm/Sentences.antt         src/lune/llm/sentence_gate.py: `SentenceGate`.
--   Llm/Contracts.antt         src/lune/llm/contracts.py: the frames of a provider's stream.
--   Llm/Streaming.antt         src/lune/llm/streaming.py: one attempt of `ConversationGenerator`.
--   Llm/Streaming/Generate.antt  src/lune/llm/streaming.py: `ConversationGenerator.generate`.
--   Memory/Store.antt          src/lune/memory/store.py and migrations.py: the tables and their rows.
--   Memory/Store/Turns.antt    src/lune/memory/store.py: sessions, turns, messages and retrievals.
--   Memory/Store/Threads.antt  src/lune/memory/store.py: titles and what the interface shows.
--   Memory/Store/Summaries.antt  src/lune/memory/store.py: the rolling summary and the prompt's context.
--   Memory/Store/Memories.antt src/lune/memory/store.py: memories, affinity and recorded usage.
--   Memory/Proposals.antt      src/lune/memory/proposals.py: `ProposalHost`.
--   Memory/Summary.antt        src/lune/memory/summary.py: `RollingSummaryManager`.
--   Memory/Titles.antt         src/lune/memory/titles.py: `ThreadTitleManager`.
--   Memory/Usage.antt          src/lune/memory/usage.py: the ledger that persists in the store.
--   Tts/Contracts.antt         src/lune/tts/contracts.py: the request and the chunk.
--   Tts/Circuit.antt           src/lune/tts/circuit.py: `TTSCircuitBreaker`.
--   Tts/Protocol.antt          src/lune/tts/protocol.py: the frames of the worker and how they are written.
--   Tts/Protocol/Decode.antt   src/lune/tts/protocol.py: how a frame is read.
--   Tts/Protocol/Stream.antt   src/lune/tts/protocol.py: `FrameDecoder` and `read_frame`.
--   Pipeline/Gate/Create.antt  src/lune/pipeline/turn_gate.py: the constructor.
--   Tts/Router.antt            src/lune/tts/router.py: `TTSRouterService.synthesize`.
--
-- The transport queues spans under its generation, the turn gate cuts them into windows, keeps the
-- newest in the pre-roll ring, asks the policy for starts and ends of turns, and hands out the
-- captured utterance. A cancellation moves the coordinator's generation forward at once, and then
-- stops playback, carries the gate over or resets it, and re-stamps or rebuilds the transport. The
-- answer is text of a provider whose attempts the ledger reserves and whose sentences the sentence
-- gate releases; the generator runs the attempts, and settles each. A settlement is a row of the
-- store, which also keeps what was said; what the model proposes to remember is written to it when
-- its generation is committed.
--
-- How the code is modelled. An object's state is a record and a method a function of it; a method
-- that may raise gives a `Result`, or runs in `Exec`, which keeps the state that a raise leaves
-- behind (Result.antt, Exec.antt). Each message of an error is a constructor of `Error`. Samples,
-- generations and bytes are naturals; an argument that the code checks for a sign is an integer.
-- Text is a list of code points, and money a whole number of 10⁻¹⁰ TWD. An asynchronous method is
-- split at its awaits: `cancel` at its lock, the writer of the sink at the device's answer, `drain`
-- at its event; the stream of an attempt is the list of its frames, each with the generation that is
-- current when it arrives; and what other tasks write while a summary or a title is awaited is an
-- argument. A collaborator's call returns, raises an Exception, or raises the task's CancelledError.
-- A transaction of the store is a function of the tables; one that raises is
-- rolled back. Clocks, JSON, callbacks, the voice detector, the calendar, identifiers and the character
-- classes of Python are arguments.
--
-- Loops. The gate's loop over windows has fuel for one round more than it has bytes, and each round
-- takes a window off them; the sentence gate's loops have a round for each sentence that may still be
-- released, and no unit is empty. The decoder's loop has fuel for one round more than it has bytes, and
-- each round takes a prefix off them. The generator's loop needs two rounds, since only Terra is
-- followed by another model. All other loops are structural.
--
-- Not modelled: neural networks, devices, processes, the network, the SQL engine and the
-- user interface; and, in the modelled files, diagnostics and reading properties that no other code
-- uses. A provider's stream or an `emit` that raises out of the generator is left out, and so is a
-- cancellation that is itself cancelled while it waits for the lock. The store's sorted listings of threads, memories and events are left out with the order of text.
pub mod Prelude
pub mod Result
pub mod Exec
pub mod Audio
pub mod Llm
pub mod Memory
pub mod Pipeline
pub mod Tts
