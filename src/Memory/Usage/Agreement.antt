-- ===== src/Memory/Usage/Agreement.antt =====
-- The months of a persistent ledger are those that the store would start another with.
use lune_voice_companion.Prelude.{ℕ, ◌≡◌, Option, List, [], ◌∷◌}
use lune_voice_companion.Llm.Budget.{AttemptUsage, Ledger}
use lune_voice_companion.Memory.Store.{Store}
use lune_voice_companion.Memory.Store.Memories.{charged_in}
use lune_voice_companion.Memory.Usage.{settle_recorded}

-- What the ledger has confirmed of each month is what the store has recorded for it.
unfoldable pub Agrees : Ledger × Store → Type 0
Agrees (l, s) = (p : ℕ) → l.confirmed p ≡ charged_in p s.usages

-- The ledger and the store after some settlements.
unfoldable pub settle_calls : List (ℕ × Option AttemptUsage) → Ledger × Store → Ledger × Store
unfolding settle_recorded
settle_calls [] state = state
settle_calls ((id, usage) ∷ calls) state =
    let r = settle_recorded id usage state in settle_calls calls (r.1, r.2)
