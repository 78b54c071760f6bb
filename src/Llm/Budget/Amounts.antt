-- ===== src/Llm/Budget/Amounts.antt =====
-- The sums and the costs of llm/budget.py.
use lune_voice_companion.Prelude.{
  ℕ, zero, suc, ◌+◌, ◌-◌, ◌*◌, ◌≤◌, max, ◌≡◌, inl, inr, some, List, [], ◌∷◌, arith, ◌==◌,
  if◌then◌else◌, Bool-cases, Option-cases, pos,
}
use lune_voice_companion.Result.{ok}
use lune_voice_companion.Llm.Budget.{
  ModelName, terra, luna, local_qwen, prices, AttemptReservation, AttemptUsage, Ledger,
  reservation_cost, actual_cost, reserved, put, pop,
}

-- What a reservation adds to a month.
abbrev pub share : ℕ → AttemptReservation → ℕ
share period r = if r.period == period then r.reserved_twd else 0

pub reserved-put :
    (p : ℕ) (r : AttemptReservation) (xs : List AttemptReservation)
    → reserved p (put r xs) ≤ share p r + reserved p xs
reserved-put p r [] = omega arith
reserved-put p r (x ∷ xs) = ground (arith, reserved-put p r xs)

pub reserved-pop :
    (id : ℕ) (xs : List AttemptReservation) (r : AttemptReservation)
    (rest : List AttemptReservation)
    → pop id xs ≡ some (r, rest)
    → (p : ℕ) → reserved p xs ≡ share p r + reserved p rest
reserved-pop id [] r rest e p = cc e
reserved-pop id (x ∷ xs) r rest e p = elim (Bool-cases (x.attempt_id == id)) [
  | inl b ↦ grind (arith, b, e)
  | inr b ↦ elim (Option-cases (pop id xs)) [
    | inl none_left ↦ grind (arith, b, e, none_left)
    | inr (found, k) ↦ grind (arith, b, e, k, reserved-pop id xs found.0 found.1 k p)
  ]
]

-- What a provider may report: its details within its input, and both within the bounds asked for.
pub record IsUsage (usage : AttemptUsage) (max_input max_output : ℕ) : Type 0 where
  pub details : usage.cached_input_tokens + usage.cache_write_input_tokens ≤ usage.input_tokens
  pub input_bound : usage.input_tokens ≤ max_input
  pub output_bound : usage.output_tokens ≤ max_output

times_le : (a b c : ℕ) → a ≤ b → a * c ≤ b * c
times_le a b zero h = omega arith
times_le a b (suc c) h = ground (arith, times_le a b c h)

usd_le :
    (model : ModelName) (input cached written output i o : ℕ)
    → cached + written ≤ input
    → input ≤ i
    → output ≤ o
    → (input - cached - written) * (prices model).input_usd_per_million
        + cached * (prices model).cached_input_usd_per_million
        + written * (prices model).cache_write_input_usd_per_million
        + output * (prices model).output_usd_per_million
      ≤ i
          * max
              (prices model).input_usd_per_million
              (prices model).cache_write_input_usd_per_million
        + o * (prices model).output_usd_per_million
usd_le terra input cached written output i o a b c = omega arith
usd_le luna input cached written output i o a b c = omega arith
usd_le local_qwen input cached written output i o a b c = omega arith

pub reservation_cost-ok :
    (l : Ledger) (model : ModelName) (i o cost : ℕ)
    → reservation_cost l model (pos i) (pos o) ≡ ok cost
    → cost
      ≡ (i
            * max
                (prices model).input_usd_per_million
                (prices model).cache_write_input_usd_per_million
          + o * (prices model).output_usd_per_million)
        * l.fx
unfolding reservation_cost
reservation_cost-ok l model i o cost e = grind (arith, e)

-- The cost that is reserved covers what the attempt can be charged: for a usage within the reserved
-- bounds of tokens, the actual cost is at most the reservation's, whatever the model and however
-- the input divides into new, cached and cache-writing tokens.
pub actual_cost-le :
    (l : Ledger) (r : AttemptReservation) (usage : AttemptUsage) (max_input max_output cost : ℕ)
    → IsUsage usage max_input max_output
    → r.twd_per_usd ≡ l.fx
    → reservation_cost l r.model (pos max_input) (pos max_output) ≡ ok cost
    → actual_cost r usage ≤ cost
unfolding actual_cost
actual_cost-le l r usage max_input max_output cost u f e =
    rw (reservation_cost-ok l r.model max_input max_output cost e, f)
      (times_le _ _ l.fx (
        usd_le r.model usage.input_tokens usage.cached_input_tokens usage.cache_write_input_tokens
          usage.output_tokens max_input max_output u.details u.input_bound u.output_bound))
