-- ===== src/Memory/Writes.antt =====
-- What it is for the store of memory/store.py to be well formed.
pub mod Turns
pub mod Memories
pub mod Reaches
use lune_voice_companion.Prelude.{All}
use lune_voice_companion.Result.{Result}
use lune_voice_companion.Memory.Store.{Store}
use lune_voice_companion.Memory.Steps.{Holds}
use lune_voice_companion.Memory.Related.{IsRelated}
use lune_voice_companion.Memory.Told.{IsAnswered, IsNumbered}

-- The affinity is what its events make of it and stays on its scale, every complete turn has both of
-- its messages, and the turns of a session are numbered upwards.
unfoldable pub IsStore : Store → Type 0
IsStore s = IsRelated s.affinity s.events × All (IsAnswered s.messages) s.turns × IsNumbered s.turns

-- The store that an operation leaves, with what it returns.
abbrev pub Keeps {ℓ} : {A : Type ℓ} → Result (A × Store) → Type 0
Keeps {A = A} = Holds (λ (r : A × Store). IsStore r.1)
