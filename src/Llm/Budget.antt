-- ===== src/Llm/Budget.antt =====
-- llm/budget.py: the monthly ledger of confirmed and reserved cost. Money is a whole number of
-- 10⁻¹⁰ TWD: a price is in US cents for a million tokens and the exchange rate in 10⁻² TWD for a
-- dollar, so a product of tokens, price and rate is exact, as it is in a `Decimal` of 28 digits.
-- The zone's calendar and the fresh identifiers (`uuid4`) are given from outside.
pub mod Amounts
pub mod Keys
pub mod Settling
pub mod Months
use lune_voice_companion.Prelude.{
  ℕ, ◌+◌, ◌-◌, ◌*◌, max, Bool, true, false, not, ◌&&◌, Option, none, some, List, [], ◌∷◌, ◌++◌, ltb,
  leb, ◌==◌, if◌then◌else◌, ℤ,
}
use lune_voice_companion.Result.{
  Result, ◌>>=◌, ◌>>◌, guard, natural, positive, naive_timestamp, bad_token_bounds, budget_locked,
  wrong_attempt, unknown_attempt, sink_failed, ok, err,
}

pub data ModelName : Type 0 where
  terra luna local_qwen : ModelName

pub record ModelPrice : Type 0 where
  pub input_usd_per_million : ℕ
  pub cached_input_usd_per_million : ℕ
  pub cache_write_input_usd_per_million : ℕ
  pub output_usd_per_million : ℕ

abbrev pub prices : ModelName → ModelPrice
prices terra = record {
  input_usd_per_million = 200;
  cached_input_usd_per_million = 20;
  cache_write_input_usd_per_million = 250;
  output_usd_per_million = 1200;
}
prices luna = record {
  input_usd_per_million = 20;
  cached_input_usd_per_million = 2;
  cache_write_input_usd_per_million = 25;
  output_usd_per_million = 120;
}
prices local_qwen = record {
  input_usd_per_million = 0;
  cached_input_usd_per_million = 0;
  cache_write_input_usd_per_million = 0;
  output_usd_per_million = 0;
}

-- Identifiers are only compared, and are numbers here; so are the months.
pub record AttemptReservation : Type 0 where
  pub attempt_id : ℕ
  pub period : ℕ
  pub model : ModelName
  pub reserved_twd : ℕ
  pub twd_per_usd : ℕ

pub record AttemptUsage : Type 0 where
  pub attempt_id : ℕ
  pub input_tokens : ℕ
  pub cached_input_tokens : ℕ
  pub cache_write_input_tokens : ℕ
  pub output_tokens : ℕ

pub record SettledAttempt : Type 0 where
  pub reservation : AttemptReservation
  pub charged_twd : ℕ
  pub estimated : Bool
  pub usage : Option AttemptUsage

pub record Ledger : Type 0 where
  pub fx : ℕ
  pub fallback : ℕ
  pub lock : ℕ
  pub confirmed : ℕ → ℕ
  pub active : List AttemptReservation
  pub settled : List SettledAttempt

-- A new ledger over the configured thresholds and the months confirmed so far.
abbrev pub new_ledger : ℕ → ℕ → ℕ → (ℕ → ℕ) → Ledger
new_ledger fx fallback lock confirmed = record {
  fx = fx;
  fallback = fallback;
  lock = lock;
  confirmed = confirmed;
  active = [];
  settled = [];
}

unfoldable pub reservation_cost : Ledger → ModelName → ℤ → ℤ → Result ℕ
reservation_cost l model max_input_tokens max_output_tokens = do
  input ← natural max_input_tokens bad_token_bounds
  output ← positive max_output_tokens bad_token_bounds
  let price = prices model
  let worst_input_rate = max price.input_usd_per_million price.cache_write_input_usd_per_million
  ok ((input * worst_input_rate + output * price.output_usd_per_million) * l.fx)

-- A usage frame's details do not exceed its input, so nothing is cut off by the subtraction.
unfoldable pub actual_cost : AttemptReservation → AttemptUsage → ℕ
actual_cost reservation usage =
    let price = prices reservation.model in
    let uncached =
      usage.input_tokens - usage.cached_input_tokens - usage.cache_write_input_tokens in
    (uncached * price.input_usd_per_million
      + usage.cached_input_tokens * price.cached_input_usd_per_million
      + usage.cache_write_input_tokens * price.cache_write_input_usd_per_million
      + usage.output_tokens * price.output_usd_per_million)
    * reservation.twd_per_usd

-- The sum of the reservations of a month.
abbrev pub reserved : ℕ → List AttemptReservation → ℕ
reserved period [] = 0
reserved period (r ∷ rs) = (if r.period == period then r.reserved_twd else 0) + reserved period rs

-- `total_with_reservations`, for the month that it asks for.
abbrev pub total : Ledger → ℕ → ℕ
total l period = l.confirmed period + reserved period l.active

-- d[r.attempt_id] = r
abbrev pub put : AttemptReservation → List AttemptReservation → List AttemptReservation
put r [] = r ∷ []
put r (x ∷ xs) = let rest = put r xs in if x.attempt_id == r.attempt_id then r ∷ xs else x ∷ rest

-- d.pop(attempt_id)
abbrev pub pop : ℕ → List AttemptReservation → Option (AttemptReservation × List AttemptReservation)
pop id [] = none
pop id (x ∷ xs) =
    let rest = pop id xs in
    if x.attempt_id == id
    then some (x, xs)
    else elim rest [ none ↦ none | some found ↦ some (found.0, x ∷ found.1) ]

abbrev pub charge_confirmed : (ℕ → ℕ) → ℕ → ℕ → ℕ → ℕ
charge_confirmed confirmed period charge p =
    if p == period then confirmed period + charge else confirmed p

-- The charge of a settlement, and whether it is an estimate.
abbrev pub charge_of : AttemptReservation → Option AttemptUsage → ℕ × Bool
charge_of reservation none = (reservation.reserved_twd, true)
charge_of reservation (some usage) = (actual_cost reservation usage, false)

abbrev pub belongs_elsewhere : ℕ → Option AttemptUsage → Bool
belongs_elsewhere attempt_id none = false
belongs_elsewhere attempt_id (some usage) = not (usage.attempt_id == attempt_id)

-- `sink_raises` tells of the callback whether it raises on a settlement.
unfoldable pub settle_found :
    Ledger
    → (SettledAttempt → Bool)
    → ℕ
    → Option AttemptUsage
    → Option (AttemptReservation × List AttemptReservation)
    → Result SettledAttempt × Ledger
settle_found l sink_raises attempt_id usage none = (err unknown_attempt, l)
settle_found l sink_raises attempt_id usage (some (reservation, others)) =
    let restored = record l { active = put reservation others } in
    let charge = charge_of reservation usage in
    let outcome : SettledAttempt = record {
      reservation = reservation;
      charged_twd = charge.0;
      estimated = charge.1;
      usage = usage;
    } in
    if belongs_elsewhere attempt_id usage
    then (err wrong_attempt, restored)
    else if sink_raises outcome
    then (err sink_failed, restored)
    else (
      ok outcome,
      record l {
        active = others;
        confirmed = charge_confirmed l.confirmed reservation.period charge.0;
        settled = l.settled ++ outcome ∷ [];
      },
    )

unfoldable pub settle :
    Ledger → (SettledAttempt → Bool) → ℕ → Option AttemptUsage → Result SettledAttempt × Ledger
unfolding settle_found
settle l sink_raises attempt_id usage =
    settle_found l sink_raises attempt_id usage (pop attempt_id l.active)

-- A datetime is aware of its zone or not, and an aware one lies in a month of the ledger's zone.
module _ {Time : Type 0} (is_aware : Time → Bool) (month : Time → ℕ) where
  abbrev pub period_for : Time → Result ℕ
  period_for at = do guard (is_aware at) naive_timestamp; ok (month at)

  unfoldable pub reserve_model :
      Ledger → ℕ → Time → ModelName → ℤ → ℤ → Result (AttemptReservation × Ledger)
  reserve_model l fresh_id at model max_input_tokens max_output_tokens = do
    cost ← reservation_cost l model max_input_tokens max_output_tokens
    period ← period_for at
    guard (not (ltb 0 cost && leb l.lock (total l period + cost))) budget_locked
    let reservation : AttemptReservation = record {
      attempt_id = fresh_id;
      period = period;
      model = model;
      reserved_twd = cost;
      twd_per_usd = l.fx;
    }
    ok (reservation, record l { active = put reservation l.active })

  unfoldable pub reserve_conversation :
      Ledger → ℕ → Time → ℤ → ℤ → Result (AttemptReservation × Ledger)
  reserve_conversation l fresh_id at max_input_tokens max_output_tokens = do
    period ← period_for at
    terra_cost ← reservation_cost l terra max_input_tokens max_output_tokens
    let model = if leb l.fallback (total l period + terra_cost) then luna else terra
    reserve_model l fresh_id at model max_input_tokens max_output_tokens
