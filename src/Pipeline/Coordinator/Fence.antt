-- ===== src/Pipeline/Coordinator/Fence.antt =====
-- The fence of pipeline/coordinator.py over interleaved cancellations. A cancellation moves the
-- fence when it begins, and finishes in its turn for the lock, which asyncio gives in order.
use lune_voice_companion.Prelude.{
  ℕ, zero, suc, ◌+◌, ◌-◌, ◌≤◌, ◌≡◌, refl, inl, inr, false, List, [], ◌∷◌, ◌++◌, arith, Bool-cases,
  length, drop, length-drop, ℤ, pos, negsuc,
}
use lune_voice_companion.Result.{Result-cases, ok}
use lune_voice_companion.Pipeline.Contracts.{CancelReason, CancelStage, CancelEvent, cancel_event}
use lune_voice_companion.Pipeline.Coordinator.{
  Call, CallOutcome, Coordinator, Ticket, begin, finish, teardown, remember, history_limit,
  is_current,
}

-- The coordinator and the cancellations that have begun and not finished, the oldest first.
pub record System : Type 0 where
  pub coordinator : Coordinator
  pub waiting : List Ticket

pub data Action : Type 0 where
  begins : CancelReason → Action
  finishes : (Call → CallOutcome) → ℤ → Action

finish_first : (Call → CallOutcome) → ℤ → System → List Ticket → System
finish_first outcome duration s [] = s
finish_first outcome duration s (t ∷ rest) = record {
  coordinator = (finish outcome duration s.coordinator t).1;
  waiting = rest;
}

unfoldable pub step : System → Action → System
unfolding finish_first
step s (begins reason) =
    let (t, c) = begin s.coordinator reason in
    record { coordinator = c; waiting = s.waiting ++ t ∷ [] }
step s (finishes outcome duration) = finish_first outcome duration s s.waiting

unfoldable pub steps : System → List Action → System
steps s [] = s
steps s (a ∷ rest) = steps (step s a) rest

-- Ticket after ticket moves the fence by one, from `low` up to `high`.
abbrev pub Climbs : ℕ → List Ticket → ℕ → Type 0
Climbs low [] high = low ≡ high
Climbs low (t ∷ rest) high = (t.previous ≡ low) × (t.current ≡ low + 1) × Climbs (low + 1) rest high

-- Events of generations in ascending order, each one above the one that it ended, up to `high`.
abbrev pub Ascends : ℕ → List CancelEvent → ℕ → Type 0
Ascends low [] high = low ≤ high
Ascends low (e ∷ rest) high =
    (low ≤ e.previous_generation_id)
    × (e.generation_id ≡ e.previous_generation_id + 1)
    × Ascends e.generation_id rest high

-- The history is bounded and ascends to the oldest cancellation that waits, and those that wait climb to the fence.
pub record IsFenced (s : System) : Type 0 where
  pub low : ℕ
  pub climbs : Climbs low s.waiting s.coordinator.generation_id
  pub bounded : length s.coordinator.history ≤ history_limit
  pub ascends : Ascends 0 s.coordinator.history low

Climbs-snoc :
    (low high : ℕ) (ts : List Ticket) (t : Ticket)
    → Climbs low ts high
    → t.previous ≡ high
    → t.current ≡ high + 1
    → Climbs low (ts ++ t ∷ []) (high + 1)
Climbs-snoc low high [] t c p q = (omega arith, omega arith, omega arith)
Climbs-snoc low high (x ∷ ts) t c p q = (c.0, c.1, Climbs-snoc (low + 1) high ts t c.2 p q)

Ascends-snoc :
    (low mid high : ℕ) (es : List CancelEvent) (e : CancelEvent)
    → Ascends low es mid
    → mid ≤ e.previous_generation_id
    → e.generation_id ≡ e.previous_generation_id + 1
    → e.generation_id ≤ high
    → Ascends low (es ++ e ∷ []) high
Ascends-snoc low mid high [] e a i j k = (omega arith, j, k)
Ascends-snoc low mid high (x ∷ es) e a i j k =
    (a.0, a.1, Ascends-snoc x.generation_id mid high es e a.2 i j k)

Ascends-lower :
    (a b high : ℕ) (es : List CancelEvent) → a ≤ b → Ascends b es high → Ascends a es high
Ascends-lower a b high [] h c = omega arith
Ascends-lower a b high (e ∷ es) h c = (omega (arith, c.0), c.1, c.2)

Ascends-raise : (low a b : ℕ) (es : List CancelEvent) → a ≤ b → Ascends low es a → Ascends low es b
Ascends-raise low a b [] h c = omega arith
Ascends-raise low a b (e ∷ es) h c = (c.0, c.1, Ascends-raise e.generation_id a b es h c.2)

Ascends-drop :
    (n low high : ℕ) (es : List CancelEvent) → Ascends low es high → Ascends low (drop n es) high
Ascends-drop zero low high es a = a
Ascends-drop (suc n) low high [] a = a
Ascends-drop (suc n) low high (e ∷ es) a =
    Ascends-lower low e.generation_id high (drop n es) (omega (arith, a.0, a.1))
      (Ascends-drop n e.generation_id high es a.2)

remember-Ascends :
    (low mid high : ℕ) (es : List CancelEvent) (e : CancelEvent)
    → Ascends low es mid
    → mid ≤ e.previous_generation_id
    → e.generation_id ≡ e.previous_generation_id + 1
    → e.generation_id ≤ high
    → Ascends low (remember es e) high × (length (remember es e) ≤ history_limit)
unfolding remember
remember-Ascends low mid high es e a i j k =
    let l = length (es ++ e ∷ []) in
    (
      Ascends-drop (l - history_limit) low high (es ++ e ∷ [])
          (Ascends-snoc low mid high es e a i j k),
      omega (arith, length-drop (l - history_limit) (es ++ e ∷ [])),
    )

cancel_event_ok :
    (p c : ℕ) (reason : CancelReason) (duration : ℤ) (failed : List CancelStage) {e : CancelEvent}
    → cancel_event p c reason duration failed ≡ ok e
    → (e.previous_generation_id ≡ p) × (e.generation_id ≡ c)
unfolding cancel_event
cancel_event_ok p c reason (pos d) failed h = ground arith
cancel_event_ok p c reason (negsuc d) failed h = ground arith

-- A cancellation that finishes, for which the event may be refused, records at most its own event.
finish-IsFenced :
    (outcome : Call → CallOutcome) (duration : ℤ) (c : Coordinator) (t : Ticket) (low : ℕ)
    → t.previous ≡ low
    → t.current ≡ low + 1
    → length c.history ≤ history_limit
    → Ascends 0 c.history low
    → let c' = (finish outcome duration c t).1 in
      (c'.generation_id ≡ c.generation_id)
      × (length c'.history ≤ history_limit)
      × Ascends 0 c'.history (low + 1)
unfolding finish
finish-IsFenced outcome duration c t low p q b a =
    let r = cancel_event t.previous t.current t.reason duration (teardown outcome c t).failed in
    let higher = Ascends-raise 0 low (low + 1) c.history (omega arith) a in
    elim (Bool-cases (teardown outcome c t).aborted) [
      | inl gone ↦ rw gone (refl, b, higher)
      | inr on ↦ elim (Result-cases r) [
        | inl (e, x) ↦
            let f =
              cancel_event_ok t.previous t.current t.reason duration (teardown outcome c t).failed
                x in
            let m =
              remember-Ascends 0 low (low + 1) c.history e a (omega (arith, f.0, p))
                (omega (arith, f, p, q)) (omega (arith, f.1, q)) in
            rw (on, x) (refl, m.1, m.0)
        | inr (z, x) ↦ rw (on, x) (refl, b, higher)
      ]
    ]

step-IsFenced : (s : System) (a : Action) → IsFenced s → IsFenced (step s a)
unfolding step begin
step-IsFenced s (begins reason) v = record {
  low = v.low;
  climbs = Climbs-snoc v.low s.coordinator.generation_id s.waiting _ v.climbs refl refl;
  bounded = v.bounded;
  ascends = v.ascends;
}
step-IsFenced s (finishes outcome duration) v = finish_waiting s.waiting refl v.climbs
  where
    finish_waiting :
        (ts : List Ticket)
        → s.waiting ≡ ts
        → Climbs v.low ts s.coordinator.generation_id
        → IsFenced (finish_first outcome duration s ts)
    finish_waiting [] e c = v
    finish_waiting (t ∷ rest) e c =
        let f =
          finish-IsFenced outcome duration s.coordinator t v.low c.0 c.1 v.bounded v.ascends in
        record { low = v.low + 1; climbs = rw f.0 c.2; bounded = f.1; ascends = f.2 }

-- However cancellations interleave and whatever their collaborators raise, the history keeps at
-- most 64 events in ascending order of generation, each event advances by one, and the
-- cancellations that wait hold consecutive generations up to the fence.
pub steps-IsFenced : (s : System) (actions : List Action) → IsFenced s → IsFenced (steps s actions)
unfolding steps
steps-IsFenced s [] v = v
steps-IsFenced s (a ∷ rest) v = steps-IsFenced (step s a) rest (step-IsFenced s a v)

generation-finish_first :
    (outcome : Call → CallOutcome) (duration : ℤ) (s : System) (ts : List Ticket)
    → (finish_first outcome duration s ts).coordinator.generation_id ≡ s.coordinator.generation_id
unfolding finish_first finish
generation-finish_first outcome duration s [] = refl
generation-finish_first outcome duration s (t ∷ rest) =
    elim (Bool-cases (teardown outcome s.coordinator t).aborted) [
      | inl gone ↦ rw gone
      | inr on ↦
          elim (Result-cases (
            cancel_event t.previous t.current t.reason duration
              (teardown outcome s.coordinator t).failed)) [
                | inl (e, x) ↦ rw (on, x)
                | inr (z, x) ↦ rw (on, x)
              ]
    ]

generation-step :
    (s : System) (a : Action) → s.coordinator.generation_id ≤ (step s a).coordinator.generation_id
unfolding step begin
generation-step s (begins reason) = omega arith
generation-step s (finishes outcome duration) =
    omega (arith, generation-finish_first outcome duration s s.waiting)

generation-steps :
    (s : System) (actions : List Action)
    → s.coordinator.generation_id ≤ (steps s actions).coordinator.generation_id
unfolding steps
generation-steps s [] = omega arith
generation-steps s (a ∷ rest) = omega (arith, generation-step s a, generation-steps (step s a) rest)

-- From the moment a cancellation begins, before any collaborator is called, no generation up to the cancelled
-- one is current again, whatever happens later.
pub begin_fences :
    (s : System) (reason : CancelReason) (later : List Action) (generation : ℕ)
    → generation ≤ s.coordinator.generation_id
    → is_current (steps (step s (begins reason)) later).coordinator generation ≡ false
unfolding is_current step begin
begin_fences s reason later generation h =
    ground (arith, generation-steps (step s (begins reason)) later)
