-- ===== src/Tts/Router.antt =====
-- tts/router.py: one voice for each utterance. A backend is seen by what it would stream for the
-- request: its chunks, and how the stream ends.
pub mod Voice
use lune_voice_companion.Prelude.{
  ℕ, ◌+◌, Bool, true, false, Option, none, List, [], ◌∷◌, ◌++◌, ◌==◌, if◌then◌else◌,
}
use lune_voice_companion.Result.{}

pub data Backend : Type 0 where
  avspeech gpt_sovits : Backend

-- How a stream ends: by itself, or with a `TTSBackendError` whose code is "cancelled" or another.
pub data Ending : Type 0 where
  done cancelled failed : Ending

pub record Stream (C : Type 0) : Type 0 where
  pub chunks : List C
  pub ending : Ending

pub record Router : Type 0 where
  pub has_gpt_sovits : Bool
  pub preferred : Backend
  pub active : ℕ → Option Backend
  pub closed : Bool
  pub degraded : ℕ → Bool

abbrev pub new_router : Bool → Backend → Router
new_router has_gpt_sovits preferred = record {
  has_gpt_sovits = has_gpt_sovits;
  preferred = preferred;
  active = λ _. none;
  closed = false;
  degraded = λ _. false;
}

abbrev pub set {ℓ} : {V : Type ℓ} → (ℕ → V) → ℕ → V → ℕ → V
set d k v j = if j == k then v else d j

unfoldable pub primary : Router → Backend
primary r = elim r.preferred [
  | avspeech ↦ avspeech
  | gpt_sovits ↦ if r.has_gpt_sovits then gpt_sovits else avspeech
]

abbrev pub tagged : {C : Type 0} → Backend → List C → List (Backend × C)
tagged b [] = []
tagged b (c ∷ cs) = (b, c) ∷ tagged b cs

abbrev pub emitted : {C : Type 0} → List C → Bool
emitted [] = false
emitted (c ∷ cs) = true

-- Whether the first backend's failure is answered by the system's voice.
abbrev pub falls_back : Backend → Bool → Ending → Bool
falls_back gpt_sovits false failed = true
falls_back _ _ _ = false

-- What `synthesize` yields, each chunk with its backend, how it ends, and the router afterwards.
-- A closed router raises at once ("backend_unavailable").
unfoldable pub synthesize :
    {C : Type 0} → Router → ℕ → (Backend → Stream C) → List (Backend × C) × Ending × Router
synthesize r generation streams =
    let first = primary r in
    let s = streams first in
    let idle = record r { active = set r.active generation none } in
    if r.closed
    then ([], failed, r)
    else if falls_back first (emitted s.chunks) s.ending
    then (
      tagged first s.chunks ++ tagged avspeech (streams avspeech).chunks,
      (streams avspeech).ending,
      record idle { degraded = set r.degraded generation true },
    )
    else (tagged first s.chunks, s.ending, idle)
