-- ===== src/Pipeline/Coordinator/Teardown.antt =====
-- The teardown of pipeline/coordinator.py: its order, and what a raise changes.
use lune_voice_companion.Prelude.{
  ℕ, ◌≡◌, refl, sym, ◌∙◌, ◌↔◌, ◌⊎◌, inl, inr, Bool, true, false, ◌||◌, List, [], ◌∷◌, ◌++◌, arith,
  if◌then◌else◌, Bool-cases,
}
use mathlib.Core.Path.{subst}
use mathlib.Core.List.{append-nil, append_assoc}
use lune_voice_companion.Pipeline.Contracts.{
  CancelReason, CancelStage, barge_in, device_changed, microphone_off, stream_error,
  output_overflow, playback, tts, stt, provider, proposals, turn_gate, transport,
}
use lune_voice_companion.Pipeline.Coordinator.{
  ended, Call, CallOutcome, returned, raised, interrupted, Coordinator, Ticket, Progress, run,
  teardown, gate_call, transport_call, stop_playback, cancel_tts, set_stt, interrupt_provider,
  cancel_proposals, carry_over_gate, rebuild_transport,
}

-- Every stage that the coordinator has, with its call: audible output first, the gate before the transport.
abbrev pub plan : Coordinator → Ticket → List (CancelStage × Call)
plan c t =
    (playback, stop_playback t.previous)
    ∷ (tts, cancel_tts t.previous)
    ∷ (stt, set_stt t.current)
    ∷ ((if c.has_provider then (provider, interrupt_provider t.previous) ∷ [] else [])
        ++ ((proposals, cancel_proposals t.previous)
            ∷ (turn_gate, gate_call t.reason t.current)
            ∷ (if c.has_transport
                then (transport, transport_call t.reason t.current) ∷ []
                else [])))

abbrev pub calls_of : List (CancelStage × Call) → List Call
calls_of [] = []
calls_of ((s, c) ∷ rest) = c ∷ calls_of rest

abbrev pub is_raised : CallOutcome → Bool
is_raised raised = true
is_raised _ = false

abbrev pub is_interrupted : CallOutcome → Bool
is_interrupted interrupted = true
is_interrupted _ = false

abbrev pub failures_of : (Call → CallOutcome) → List (CancelStage × Call) → List CancelStage
failures_of outcome [] = []
failures_of outcome ((s, c) ∷ rest) =
    let later = failures_of outcome rest in if is_raised (outcome c) then s ∷ later else later

-- The stages up to the first that is interrupted, and that one.
abbrev pub reached : (Call → CallOutcome) → List (CancelStage × Call) → List (CancelStage × Call)
reached outcome [] = []
reached outcome ((s, c) ∷ rest) =
    let later = reached outcome rest in
    if is_interrupted (outcome c) then (s, c) ∷ [] else (s, c) ∷ later

abbrev pub any_interrupted : (Call → CallOutcome) → List (CancelStage × Call) → Bool
any_interrupted outcome [] = false
any_interrupted outcome ((s, c) ∷ rest) =
    let later = any_interrupted outcome rest in is_interrupted (outcome c) || later

run_all : (Call → CallOutcome) → List (CancelStage × Call) → Progress → Progress
run_all outcome [] p = p
run_all outcome ((s, c) ∷ rest) p = run_all outcome rest (run outcome s c p)

run_all_aborted :
    (outcome : Call → CallOutcome) (stages : List (CancelStage × Call)) (p : Progress)
    → p.aborted ≡ true
    → run_all outcome stages p ≡ p
unfolding run_all run
run_all_aborted outcome [] p a = refl
run_all_aborted outcome ((s, c) ∷ rest) p a = simp (a, run_all_aborted outcome rest p a)

-- What a run of stages makes of a progress that was not aborted.
record Runs (outcome : Call → CallOutcome) (stages : List (CancelStage × Call)) (p p' : Progress)
    : Type 0 where
  calls : p'.calls ≡ p.calls ++ calls_of (reached outcome stages)
  failed : p'.failed ≡ p.failed ++ failures_of outcome (reached outcome stages)
  aborted : p'.aborted ≡ any_interrupted outcome stages

run-ended :
    (outcome : Call → CallOutcome) (s : CancelStage) (c : Call) (p : Progress)
    → p.aborted ≡ false
    → run outcome s c p ≡ ended outcome (outcome c) s (record p { calls = p.calls ++ c ∷ [] })
unfolding run
run-ended outcome s c p a = simp a

run_all_lem :
    (outcome : Call → CallOutcome) (stages : List (CancelStage × Call)) (p : Progress)
    → p.aborted ≡ false
    → Runs outcome stages p (run_all outcome stages p)
unfolding run_all ended
run_all_lem outcome [] p a = record {
  calls = sym (append-nil p.calls);
  failed = sym (append-nil p.failed);
  aborted = a;
}
run_all_lem outcome ((s, c) ∷ rest) p a =
    subst (λ q. Runs outcome ((s, c) ∷ rest) p (run_all outcome rest q))
      (sym (run-ended outcome s c p a)) (run_first (outcome c) refl (run_all_lem outcome rest))
  where
    run_first :
        (o : CallOutcome)
        → outcome c ≡ o
        → ((q : Progress) → q.aborted ≡ false → Runs outcome rest q (run_all outcome rest q))
        → Runs outcome
            ((s, c) ∷ rest)
            p
            (run_all outcome rest (ended outcome o s (record p { calls = p.calls ++ c ∷ [] })))
    run_first returned e later =
        let ih = later (record p { calls = p.calls ++ c ∷ [] }) a in
        record {
          calls = rw e (ih.calls ∙ append_assoc p.calls (c ∷ []) _);
          failed = rw (e, e) ih.failed;
          aborted = rw e ih.aborted;
        }
    run_first raised e later =
        let ih = later (record p { calls = p.calls ++ c ∷ []; failed = p.failed ++ s ∷ [] }) a in
        record {
          calls = rw e (ih.calls ∙ append_assoc p.calls (c ∷ []) _);
          failed = rw (e, e) (ih.failed ∙ append_assoc p.failed (s ∷ []) _);
          aborted = rw e ih.aborted;
        }
    run_first interrupted e later =
        let called : Progress = record p { calls = p.calls ++ c ∷ []; aborted = true } in
        rw (run_all_aborted outcome rest called refl) (record {
          calls = rw e refl;
          failed = rw (e, e) (sym (append-nil p.failed));
          aborted = rw e refl;
        })

teardown-run_all :
    (outcome : Call → CallOutcome) (c : Coordinator) (t : Ticket)
    → teardown outcome c t
      ≡ run_all outcome (plan c t) (record { calls = []; failed = []; aborted = false })
unfolding teardown run_all
teardown-run_all outcome c t = elim (Bool-cases c.has_provider) [
  | inl a ↦ elim (Bool-cases c.has_transport) [ inl b ↦ rw (a, b) | inr b ↦ rw (a, b) ]
  | inr a ↦ elim (Bool-cases c.has_transport) [ inl b ↦ rw (a, b) | inr b ↦ rw (a, b) ]
]

-- Whatever the collaborators raise, the stages of the plan are called once each and in the order of the
-- plan, all of them unless the task's own CancelledError leaves a call, which is then the last; the
-- failed stages are exactly those called that raised an Exception, in the same order; and the
-- teardown is aborted exactly when a call of the plan is interrupted.
pub teardown-plan :
    (outcome : Call → CallOutcome) (c : Coordinator) (t : Ticket)
    → ((teardown outcome c t).calls ≡ calls_of (reached outcome (plan c t)))
      × ((teardown outcome c t).failed ≡ failures_of outcome (reached outcome (plan c t)))
      × ((teardown outcome c t).aborted ≡ any_interrupted outcome (plan c t))
teardown-plan outcome c t =
    let r =
      run_all_lem outcome (plan c t) (record { calls = []; failed = []; aborted = false }) refl in
    rw teardown-run_all (r.calls, r.failed, r.aborted)

-- A barge-in carries the interrupting speech over and keeps the transport; a lost or switched stream
-- rebuilds the transport and resets the gate; any other reason resets the gate and re-stamps the transport.
fence_calls :
    (reason : CancelReason) (generation : ℕ)
    → ((gate_call reason generation ≡ carry_over_gate generation) ↔ (reason ≡ barge_in))
      × ((transport_call reason generation ≡ rebuild_transport generation) ↔ (
          (reason ≡ device_changed)
          ⊎ (reason ≡ microphone_off)
          ⊎ (reason ≡ stream_error)
          ⊎ (reason ≡ output_overflow)))
unfolding gate_call transport_call
fence_calls reason generation =
    ((λ e. ground arith, λ e. ground arith), (λ e. ground arith, λ e. ground arith))
