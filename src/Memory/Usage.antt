-- ===== src/Memory/Usage.antt =====
-- memory/usage.py: a budget ledger whose settlements are rows of the store.
pub mod Agreement
use lune_voice_companion.Prelude.{ℕ, Bool, not, Option}
use lune_voice_companion.Result.{Result, is_ok, ◌>>=◌, ◌>>◌, err, ok}
use lune_voice_companion.Llm.Budget.{AttemptUsage, SettledAttempt, Ledger, new_ledger, settle}
use lune_voice_companion.Memory.Store.{Store}
use lune_voice_companion.Memory.Store.Memories.{record_usage, confirmed_usage_totals}

-- The ledger that starts from what the store has confirmed.
unfoldable pub persistent_budget_ledger : ℕ → ℕ → ℕ → Store → Result Ledger
persistent_budget_ledger fx fallback lock s = do
  confirmed_twd ← confirmed_usage_totals s
  ok (new_ledger fx fallback lock confirmed_twd)

-- `settlement_sink=store.record_usage`: whether the callback raises, and the store that it leaves.
abbrev pub sink_raises : Store → SettledAttempt → Bool
sink_raises s x = not (is_ok (record_usage x s))

abbrev pub recorded : Store → Result SettledAttempt → Store
recorded s (err e) = s
recorded s (ok x) = elim (record_usage x s) [ err e ↦ s | ok s' ↦ s' ]

-- `settle` with this callback, on the ledger and the store.
unfoldable pub settle_recorded :
    ℕ → Option AttemptUsage → Ledger × Store → Result SettledAttempt × Ledger × Store
settle_recorded attempt_id usage (l, s) =
    let r = settle l (sink_raises s) attempt_id usage in (r.0, r.1, recorded s r.0)
