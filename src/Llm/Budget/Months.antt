-- ===== src/Llm/Budget/Months.antt =====
-- The reservations of llm/budget.py keep each month below the lock.
use lune_voice_companion.Prelude.{
  ℕ, ◌+◌, ◌≤◌, ◌<◌, ◌≡◌, refl, ◌⊎◌, inl, inr, Bool, true, false, ◌&&◌, Option, arith, ltb, leb,
  Bool-cases, ℤ,
}
use lune_voice_companion.Result.{Result, Result-cases, err, ok}
use mathlib.Core.Path.{subst}
use lune_voice_companion.Llm.Budget.{
  ModelName, terra, luna, AttemptReservation, AttemptUsage, SettledAttempt, Ledger,
  reservation_cost, total, settle, reserve_model, reserve_conversation,
}
use lune_voice_companion.Llm.Budget.Amounts.{share, reserved-put}
use lune_voice_companion.Llm.Budget.Settling.{excess}

-- No month's confirmed and reserved cost has come to the lock by more than an overrun.
unfoldable pub Within : ℕ → Ledger → Type 0
Within over l = (p : ℕ) → total l p < l.lock + over

module _ {Time : Type 0} (is_aware : Time → Bool) (month : Time → ℕ) where
  -- What a reservation that was granted says of the ledger before and after it.
  pub record IsGranted (l : Ledger) (at : Time) (model : ModelName) (i o : ℤ)
      (r : AttemptReservation) (l' : Ledger) : Type 0 where
    pub its_cost : reservation_cost l model i o ≡ ok r.reserved_twd
    pub its_month : r.period ≡ month at
    pub its_model : r.model ≡ model
    pub same_lock : l'.lock ≡ l.lock
    pub at_most : (p : ℕ) → total l' p ≤ total l p + share p r
    pub free_or_below : (r.reserved_twd ≡ 0) ⊎ (total l r.period + r.reserved_twd < l.lock)

  Grants : Ledger → Time → ModelName → ℤ → ℤ → Result (AttemptReservation × Ledger) → Type 0
  Grants l at model i o (ok (r, l')) = IsGranted l at model i o r l'
  Grants l at model i o (err e) = Unit

  reserve_model-Grants :
      (l : Ledger) (id : ℕ) (at : Time) (model : ModelName) (i o : ℤ)
      → Grants l at model i o (reserve_model is_aware month l id at model i o)
  unfolding reserve_model Grants
  reserve_model-Grants l id at model i o = elim (Result-cases (reservation_cost l model i o)) [
    | inr (e, refused) ↦ rw refused tt
    | inl (cost, costs) ↦ elim (Bool-cases (is_aware at)) [
      | inr naive ↦ rw (costs, naive) tt
      | inl aware ↦ elim (Bool-cases (ltb 0 cost && leb l.lock (total l (month at) + cost))) [
        | inl locked ↦ rw (costs, aware, locked) tt
        | inr unlocked ↦
            rw (costs, aware, unlocked)
              (record {
                its_cost = costs;
                its_month = refl;
                its_model = refl;
                same_lock = refl;
                at_most = λ p. omega (
                  arith,
                  reserved-put p
                      (record {
                        attempt_id = id;
                        period = month at;
                        model = model;
                        reserved_twd = cost;
                        twd_per_usd = l.fx;
                      })
                      l.active,
                );
                free_or_below = elim (Bool-cases (ltb 0 cost)) [
                  | inr free ↦ inl (ground arith)
                  | inl paid ↦ inr (ground arith)
                ];
              })
      ]
    ]
  ]

  -- A reservation that is granted lies in the month of its time and is for the model asked for; it
  -- raises no month by more than itself, and its own only; and it is free, or its month with it
  -- stays below the lock.
  pub reserve_model-IsGranted :
      (l : Ledger) (id : ℕ) (at : Time) (model : ModelName) (i o : ℤ) (r : AttemptReservation)
      (l' : Ledger)
      → reserve_model is_aware month l id at model i o ≡ ok (r, l')
      → IsGranted l at model i o r l'
  unfolding Grants
  reserve_model-IsGranted l id at model i o r l' e =
      subst (Grants l at model i o) e (reserve_model-Grants l id at model i o)

  -- Which model a conversation gets.
  pub Chooses : Ledger → Time → ℤ → ℤ → Result (AttemptReservation × Ledger) → Type 0
  Chooses l at i o (ok (r, l')) =
      ((total l (month at) + r.reserved_twd < l.fallback) × IsGranted l at terra i o r l')
      ⊎ ((cost : ℕ) × (reservation_cost l terra i o ≡ ok cost)
          × (l.fallback ≤ total l (month at) + cost)
          × IsGranted l at luna i o r l')
  Chooses l at i o (err e) = Unit

  Grants-terra :
      (l : Ledger) (at : Time) (i o : ℤ) (cost : ℕ) (x : Result (AttemptReservation × Ledger))
      → reservation_cost l terra i o ≡ ok cost
      → leb l.fallback (total l (month at) + cost) ≡ false
      → Grants l at terra i o x
      → Chooses l at i o x
  unfolding Grants Chooses
  Grants-terra l at i o cost (ok (r, l')) costs under g =
      inl (grind (arith, g.its_cost, costs, under), g)
  Grants-terra l at i o cost (err e) costs under g = tt

  Grants-luna :
      (l : Ledger) (at : Time) (i o : ℤ) (cost : ℕ) (x : Result (AttemptReservation × Ledger))
      → reservation_cost l terra i o ≡ ok cost
      → leb l.fallback (total l (month at) + cost) ≡ true
      → Grants l at luna i o x
      → Chooses l at i o x
  unfolding Grants Chooses
  Grants-luna l at i o cost (ok (r, l')) costs over g = inr (cost, costs, ground arith, g)
  Grants-luna l at i o cost (err e) costs over g = tt

  -- A conversation gets Terra only if the month stays below the fallback threshold with it, and
  -- gets Luna only if it would not with Terra; in either case what it gets is a grant for that model.
  pub reserve_conversation-Chooses :
      (l : Ledger) (id : ℕ) (at : Time) (i o : ℤ)
      → Chooses l at i o (reserve_conversation is_aware month l id at i o)
  unfolding reserve_conversation Chooses
  reserve_conversation-Chooses l id at i o = elim (Bool-cases (is_aware at)) [
    | inr naive ↦ rw naive tt
    | inl aware ↦ elim (Result-cases (reservation_cost l terra i o)) [
      | inr (e, refused) ↦ rw (aware, refused) tt
      | inl (cost, costs) ↦ elim (Bool-cases (leb l.fallback (total l (month at) + cost))) [
        | inl over ↦
            rw (aware, costs, over)
              (Grants-luna l at i o cost _ costs over (reserve_model-Grants l id at luna i o))
        | inr under ↦
            rw (aware, costs, under)
              (Grants-terra l at i o cost _ costs under (reserve_model-Grants l id at terra i o))
      ]
    ]
  ]

  -- What calls a ledger has had, and by how much its settlements were charged above what was
  -- reserved for them, all together.
  pub data Reaches (start : Ledger) : ℕ → Ledger → Type 0 where
    here : Reaches start 0 start
    reserves :
        (over : ℕ) (m n : Ledger) (id : ℕ) (at : Time) (model : ModelName) (i o : ℤ)
        (r : AttemptReservation)
        → Reaches start over m
        → reserve_model is_aware month m id at model i o ≡ ok (r, n)
        → Reaches start over n
    converses :
        (over : ℕ) (m n : Ledger) (id : ℕ) (at : Time) (i o : ℤ) (r : AttemptReservation)
        → Reaches start over m
        → reserve_conversation is_aware month m id at i o ≡ ok (r, n)
        → Reaches start over n
    settles :
        (over : ℕ) (m : Ledger) (sink_raises : SettledAttempt → Bool) (id : ℕ)
        (usage : Option AttemptUsage)
        → Reaches start over m
        → Reaches start (over + excess m id usage) (settle m sink_raises id usage).1
