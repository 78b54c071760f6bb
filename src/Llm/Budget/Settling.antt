-- ===== src/Llm/Budget/Settling.antt =====
-- `settle` of llm/budget.py: what becomes of a month's total on each of its branches.
use lune_voice_companion.Prelude.{
  ℕ, ◌+◌, ◌-◌, ◌≤◌, ◌≡◌, refl, sym, ◌∙◌, inl, inr, Bool, false, Option, none, some, List, [], ◌∷◌,
  ◌++◌, arith, ◌==◌, if◌then◌else◌, Bool-cases,
}
use lune_voice_companion.Result.{Error, Result, wrong_attempt, sink_failed, err, ok}
use mathlib.Core.Path.{subst}
use lune_voice_companion.Llm.Budget.{
  AttemptReservation, AttemptUsage, SettledAttempt, Ledger, reserved, put, pop, total, settle,
  settle_found, charge_of, belongs_elsewhere, actual_cost,
}
use lune_voice_companion.Llm.Budget.Amounts.{share, reserved-put, reserved-pop}
use lune_voice_companion.Llm.Budget.Keys.{
  IsDict, pop-once, pop-put, reserved-put_new, put-IsDict, pop-IsDict,
}

-- The reserved cost where no usage is known, and the actual cost of a usage of the same attempt.
abbrev pub IsCharge : ℕ → AttemptReservation → Option AttemptUsage → ℕ → Type 0
IsCharge id r none charge = charge ≡ r.reserved_twd
IsCharge id r (some usage) charge = (usage.attempt_id ≡ id) × (charge ≡ actual_cost r usage)

IsCharge-charge_of :
    (id : ℕ) (r : AttemptReservation) (usage : Option AttemptUsage)
    → belongs_elsewhere id usage ≡ false
    → IsCharge id r usage (charge_of r usage).0
IsCharge-charge_of id r none b = refl
IsCharge-charge_of id r (some usage) b = (ground (arith, b), refl)

-- A settlement is of the reservation that has the key. It takes it out of the month's total and puts
-- its charge in, which is the reservation's cost where no usage is known and the actual cost else; no
-- other month moves; and the key is gone. A call that raises leaves the totals, what is confirmed and
-- settled, and what is found under the key as they were.
pub Moves : Ledger → ℕ → Option AttemptUsage → Result SettledAttempt × Ledger → Type 0
Moves l id usage (ok s, l') =
    ((p : ℕ)
      → total l' p + share p s.reservation
        ≡ total l p + (if s.reservation.period == p then s.charged_twd else 0))
    × (s.reservation.attempt_id ≡ id)
    × (pop id l.active ≡ some (s.reservation, l'.active))
    × (pop id l'.active ≡ none)
    × IsCharge id s.reservation usage s.charged_twd
    × (l'.settled ≡ l.settled ++ s ∷ [])
    × IsDict l'.active
Moves l id usage (err e, l') =
    ((p : ℕ) → (total l' p ≡ total l p) × (l'.confirmed p ≡ l.confirmed p))
    × (l'.settled ≡ l.settled)
    × (pop id l'.active ≡ pop id l.active)
    × IsDict l'.active

restored_le :
    (l : Ledger) (id : ℕ) (r : AttemptReservation) (rest : List AttemptReservation) (p : ℕ)
    → pop id l.active ≡ some (r, rest)
    → l.confirmed p + reserved p (put r rest) ≤ total l p
restored_le l id r rest p e =
    omega (arith, reserved-pop id l.active r rest e p, reserved-put p r rest)

-- The ledger of a call that raises with the reservation put back.
restored-Moves :
    (l : Ledger) (id : ℕ) (usage : Option AttemptUsage) (e : Error) (r : AttemptReservation)
    (rest : List AttemptReservation)
    → IsDict l.active
    → pop id l.active ≡ some (r, rest)
    → Moves l id usage (err e, record l { active = put r rest })
unfolding Moves
restored-Moves l id usage e r rest d found =
    let once = pop-once id l.active r rest d found in
    let gone : pop r.attempt_id rest ≡ none = rw once.0 once.1 in
    (
      λ p. (
        omega (arith, reserved-put_new p r rest gone, reserved-pop id l.active r rest found p),
        refl,
      ),
      refl,
      subst (λ k. pop k (put r rest) ≡ some (r, rest)) once.0 (pop-put r rest gone) ∙ sym found,
      put-IsDict r rest (pop-IsDict id l.active r rest d found),
    )

settle_found-Moves :
    (l : Ledger) (sink_raises : SettledAttempt → Bool) (id : ℕ) (usage : Option AttemptUsage)
    (found : Option (AttemptReservation × List AttemptReservation))
    → IsDict l.active
    → pop id l.active ≡ found
    → Moves l id usage (settle_found l sink_raises id usage found)
unfolding settle_found Moves
settle_found-Moves l sink_raises id usage none d e = (λ p. (refl, refl), refl, refl, d)
settle_found-Moves l sink_raises id usage (some (r, rest)) d e =
    let put_back = restored-Moves l id usage in
    let once = pop-once id l.active r rest d e in
    elim (Bool-cases (belongs_elsewhere id usage)) [
      | inl b ↦ rw b (put_back wrong_attempt r rest d e)
      | inr b ↦
          rw b
            (elim (Bool-cases (
              sink_raises (record {
                reservation = r;
                charged_twd = (charge_of r usage).0;
                estimated = (charge_of r usage).1;
                usage = usage;
              }))) [
                | inl k ↦ rw k (put_back sink_failed r rest d e)
                | inr k ↦ rw k (
                  (λ p. ground (arith, reserved-pop id l.active r rest e p)),
                  once.0,
                  e,
                  once.1,
                  IsCharge-charge_of id r usage b,
                  refl,
                  pop-IsDict id l.active r rest d e,
                )
              ])
    ]

-- `settle` on a ledger whose reservations have different keys. A settlement is of the reservation that
-- has the key: it takes it out of its month's total and puts its charge in, the reserved cost where
-- no usage is known and the actual cost else, leaves the other months alone and lets no second
-- settlement find it. A call that raises, for an unknown attempt, another attempt's usage or a
-- failing callback, leaves every month's total and what is confirmed, settled and found under the
-- key as they were. The keys still differ after either.
pub settle-Moves :
    (l : Ledger) (sink_raises : SettledAttempt → Bool) (id : ℕ) (usage : Option AttemptUsage)
    → IsDict l.active
    → Moves l id usage (settle l sink_raises id usage)
unfolding settle
settle-Moves l sink_raises id usage d =
    settle_found-Moves l sink_raises id usage (pop id l.active) d refl

-- By how much a settlement is charged above its reservation.
abbrev pub excess_of :
    Option AttemptUsage → Option (AttemptReservation × List AttemptReservation) → ℕ
excess_of usage none = 0
excess_of usage (some (r, rest)) = (charge_of r usage).0 - r.reserved_twd

unfoldable pub excess : Ledger → ℕ → Option AttemptUsage → ℕ
excess l id usage = excess_of usage (pop id l.active)

settle_found-le :
    (l : Ledger) (sink_raises : SettledAttempt → Bool) (id : ℕ) (usage : Option AttemptUsage)
    (found : Option (AttemptReservation × List AttemptReservation))
    → pop id l.active ≡ found
    → (p : ℕ)
    → total (settle_found l sink_raises id usage found).1 p ≤ total l p + excess_of usage found
unfolding settle_found
settle_found-le l sink_raises id usage none e p = omega arith
settle_found-le l sink_raises id usage (some (r, rest)) e p =
    ground (arith, restored_le l id r rest p e, reserved-pop id l.active r rest e p)

-- A settlement raises no month's total by more than it is charged above its reservation.
pub settle_le :
    (l : Ledger) (sink_raises : SettledAttempt → Bool) (id : ℕ) (usage : Option AttemptUsage)
    (p : ℕ)
    → total (settle l sink_raises id usage).1 p ≤ total l p + excess l id usage
unfolding settle excess
settle_le l sink_raises id usage p = settle_found-le l sink_raises id usage (pop id l.active) refl p

settle_found-lock :
    (l : Ledger) (sink_raises : SettledAttempt → Bool) (id : ℕ) (usage : Option AttemptUsage)
    (found : Option (AttemptReservation × List AttemptReservation))
    → (settle_found l sink_raises id usage found).1.lock ≡ l.lock
unfolding settle_found
settle_found-lock l sink_raises id usage none = refl
settle_found-lock l sink_raises id usage (some (r, rest)) = ground arith

pub settle-lock :
    (l : Ledger) (sink_raises : SettledAttempt → Bool) (id : ℕ) (usage : Option AttemptUsage)
    → (settle l sink_raises id usage).1.lock ≡ l.lock
unfolding settle
settle-lock l sink_raises id usage = settle_found-lock l sink_raises id usage (pop id l.active)
