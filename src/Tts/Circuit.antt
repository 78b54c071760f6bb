-- ===== src/Tts/Circuit.antt =====
-- tts/circuit.py: the breaker that takes the optional backend out of use for a session.
use lune_voice_companion.Prelude.{
  ℕ, ◌+◌, max, ◌≡◌, refl, sym, ap, ◌∙◌, inl, inr, Bool, true, false, not, ◌||◌, List, [], ◌∷◌,
  arith, leb, if◌then◌else◌, Bool-cases, ℤ, pos, negsuc,
}
use mathlib.Core.Path.{subst}
use lune_voice_companion.Result.{Result, ◌>>=◌, positive, bad_threshold, ok}

pub record Circuit : Type 0 where
  pub failure_threshold : ℕ
  pub consecutive_failures : ℕ
  pub is_open : Bool

unfoldable pub new_circuit : ℤ → Result Circuit
new_circuit failure_threshold = do
  threshold ← positive failure_threshold bad_threshold
  ok (record { failure_threshold = threshold; consecutive_failures = 0; is_open = false })

unfoldable pub allows_request : Circuit → Bool
allows_request c = not c.is_open

unfoldable pub record_success : Circuit → Circuit
record_success c = if c.is_open then c else record c { consecutive_failures = 0 }

unfoldable pub record_failure : Circuit → Circuit
record_failure c =
    if c.is_open
    then c
    else let failures = c.consecutive_failures + 1 in
      record c { consecutive_failures = failures; is_open = leb c.failure_threshold failures }

unfoldable pub record_rebuild_failure : Circuit → Circuit
record_rebuild_failure c = record c {
  consecutive_failures = max c.failure_threshold (c.consecutive_failures + 1);
  is_open = true;
}

-- What a session reports of the backend.
pub data Report : Type 0 where
  succeeded failed rebuild_failed : Report

abbrev pub report : Circuit → Report → Circuit
report c succeeded = record_success c
report c failed = record_failure c
report c rebuild_failed = record_rebuild_failure c

abbrev pub reports : Circuit → List Report → Circuit
reports c [] = c
reports c (r ∷ rs) = reports (report c r) rs

-- Whether some report, with those before it, takes the backend out of use: a failed rebuild, or
-- failures without a success between them up to the threshold.
abbrev pub trips : ℕ → ℕ → List Report → Bool
trips threshold n [] = false
trips threshold n (succeeded ∷ rs) = trips threshold 0 rs
trips threshold n (failed ∷ rs) =
    let rest = trips threshold (n + 1) rs in leb threshold (n + 1) || rest
trips threshold n (rebuild_failed ∷ rs) = true

stays_open : (c : Circuit) (rs : List Report) → c.is_open ≡ true → (reports c rs).is_open ≡ true
unfolding record_success record_failure record_rebuild_failure
stays_open c [] h = h
stays_open c (succeeded ∷ rs) h = stays_open (record_success c) rs (ground (arith, h))
stays_open c (failed ∷ rs) h = stays_open (record_failure c) rs (ground (arith, h))
stays_open c (rebuild_failed ∷ rs) h = stays_open (record_rebuild_failure c) rs refl

abbrev counted : Circuit → Circuit
counted c = record c {
  consecutive_failures = c.consecutive_failures + 1;
  is_open = leb c.failure_threshold (c.consecutive_failures + 1);
}

record_failure_closed : (c : Circuit) → c.is_open ≡ false → record_failure c ≡ counted c
unfolding record_failure
record_failure_closed c h = subst (λ b. (if b then c else counted c) ≡ counted c) (sym h) refl

reports-trips :
    (c : Circuit) (rs : List Report)
    → c.is_open ≡ false
    → (reports c rs).is_open ≡ trips c.failure_threshold c.consecutive_failures rs
unfolding record_success record_failure record_rebuild_failure
reports-trips c [] h = h
reports-trips c (succeeded ∷ rs) h =
    rw h (reports-trips (record c { consecutive_failures = 0; is_open = false }) rs refl)
reports-trips c (failed ∷ rs) h =
    let e = record_failure_closed c h in
    elim (Bool-cases (leb c.failure_threshold (c.consecutive_failures + 1))) [
      | inl over ↦
          rw over (stays_open (record_failure c) rs (ap (λ (d : Circuit). d.is_open) e ∙ over))
      | inr under ↦
          rw under
            (ap (λ (d : Circuit). (reports d rs).is_open) e ∙ reports-trips (counted c) rs under)
    ]
reports-trips c (rebuild_failed ∷ rs) h = stays_open (record_rebuild_failure c) rs refl

new_circuit_fresh :
    (threshold : ℤ) (c : Circuit)
    → new_circuit threshold ≡ ok c
    → (c.is_open ≡ false) × (c.consecutive_failures ≡ 0)
unfolding new_circuit
new_circuit_fresh (pos n) c e = ground arith
new_circuit_fresh (negsuc n) c e = cc e

-- A new breaker allows requests after any reports exactly when none of them took the backend out of use:
-- no rebuild failed, and no run of failures with no success between them reached the threshold.
pub allows_request-reports :
    (threshold : ℤ) (c : Circuit) (rs : List Report)
    → new_circuit threshold ≡ ok c
    → allows_request (reports c rs) ≡ not (trips c.failure_threshold 0 rs)
unfolding allows_request
allows_request-reports threshold c rs e =
    let fresh = new_circuit_fresh threshold c e in
    ap not (reports-trips c rs fresh.0 ∙ ap (λ n. trips c.failure_threshold n rs) fresh.1)
