-- ===== src/Memory/Told.antt =====
-- The turns of memory/store.py and their messages.
use mathlib.Core.Path.{subst}
use lune_voice_companion.Prelude.{
  ℕ, ◌<◌, ◌≡◌, refl, sym, ◌∙◌, inl, inr, Bool, true, List, [], ◌∷◌, arith, Bool-cases, All,
  same_text-eq,
}
use lune_voice_companion.Memory.Store.{
  Text, TurnStatus, Role, user, assistant, Turn, Message, exists, update, is_turn, is_message,
  is_complete, last_sequence,
}
use lune_voice_companion.Memory.Store.Turns.{set_status}

-- A complete turn has a message of the user and one of the assistant.
abbrev pub IsAnswered : List Message → Turn → Type 0
IsAnswered messages t =
    is_complete t.status ≡ true
    → (exists (is_message t.id user) messages ≡ true)
      × (exists (is_message t.id assistant) messages ≡ true)

-- The newest turn of a session has the highest number of its session, and so have those before it.
abbrev pub IsNumbered : List Turn → Type 0
IsNumbered [] = Unit
IsNumbered (t ∷ ts) = (last_sequence t.session_id ts < t.sequence) × IsNumbered ts

pub All-map {ℓ κ μ} :
    {A : Type ℓ} (P : A → Type κ) (Q : A → Type μ) (xs : List A)
    → ((a : A) → P a → Q a)
    → All P xs
    → All Q xs
All-map P Q [] h a = tt
All-map P Q (x ∷ xs) h a = (h x a.0, All-map P Q xs h a.1)

pub exists-cons :
    (test : Message → Bool) (m : Message) (ms : List Message)
    → exists test ms ≡ true
    → exists test (m ∷ ms) ≡ true
exists-cons test m ms e = ground (arith, e)

pub exists-update :
    (test which : Message → Bool) (set : Message → Message) (ms : List Message)
    → ((m : Message) → test (set m) ≡ test m)
    → exists test (update which set ms) ≡ exists test ms
exists-update test which set [] same = refl
exists-update test which set (m ∷ ms) same = elim (Bool-cases (which m)) [
  | inl e ↦ simp (e, same m, exists-update test which set ms same)
  | inr e ↦ simp (e, exists-update test which set ms same)
]

-- A message that is added leaves the turns answered.
pub IsAnswered-cons :
    (m : Message) (ms : List Message) (ts : List Turn)
    → All (IsAnswered ms) ts
    → All (IsAnswered (m ∷ ms)) ts
IsAnswered-cons m ms ts = All-map (IsAnswered ms) (IsAnswered (m ∷ ms)) ts (λ t h c. (
  exists-cons (is_message t.id user) m ms (h c).0,
  exists-cons (is_message t.id assistant) m ms (h c).1,
))

-- And so does one whose text is replaced.
pub IsAnswered-update :
    (which : Message → Bool) (set : Message → Message) (ms : List Message) (ts : List Turn)
    → ((turn : Text) (role : Role) (m : Message)
        → is_message turn role (set m) ≡ is_message turn role m)
    → All (IsAnswered ms) ts
    → All (IsAnswered (update which set ms)) ts
IsAnswered-update which set ms ts same =
    All-map (IsAnswered ms) (IsAnswered (update which set ms)) ts (λ t h c. (
      exists-update (is_message t.id user) which set ms (same t.id user) ∙ (h c).0,
      exists-update (is_message t.id assistant) which set ms (same t.id assistant) ∙ (h c).1,
    ))

-- A status that is set, of a turn that has both messages where it becomes complete.
pub IsAnswered-set_status :
    (status : TurnStatus) (now : ℕ) (id : Text) (ms : List Message) (ts : List Turn)
    → (is_complete status ≡ true
        → (exists (is_message id user) ms ≡ true) × (exists (is_message id assistant) ms ≡ true))
    → All (IsAnswered ms) ts
    → All (IsAnswered ms) (set_status status now id ts)
IsAnswered-set_status status now id ms [] both a = tt
IsAnswered-set_status status now id ms (t ∷ ts) both a = elim (Bool-cases (is_turn id t)) [
  | inl e ↦ rw e (
    subst
        (λ i.
          is_complete status ≡ true
          → (exists (is_message i user) ms ≡ true) × (exists (is_message i assistant) ms ≡ true))
        (sym (same_text-eq t.id id e)) both,
    IsAnswered-set_status status now id ms ts both a.1,
  )
  | inr e ↦ rw e (a.0, IsAnswered-set_status status now id ms ts both a.1)
]

last_sequence-set_status :
    (status : TurnStatus) (now : ℕ) (id session : Text) (ts : List Turn)
    → last_sequence session (set_status status now id ts) ≡ last_sequence session ts
last_sequence-set_status status now id session [] = refl
last_sequence-set_status status now id session (t ∷ ts) = elim (Bool-cases (is_turn id t)) [
  | inl e ↦ simp (e, last_sequence-set_status status now id session ts)
  | inr e ↦ simp (e, last_sequence-set_status status now id session ts)
]

pub IsNumbered-set_status :
    (status : TurnStatus) (now : ℕ) (id : Text) (ts : List Turn)
    → IsNumbered ts
    → IsNumbered (set_status status now id ts)
IsNumbered-set_status status now id [] n = tt
IsNumbered-set_status status now id (t ∷ ts) n = elim (Bool-cases (is_turn id t)) [
  | inl e ↦
      rw (e, last_sequence-set_status status now id t.session_id ts)
        (n.0, IsNumbered-set_status status now id ts n.1)
  | inr e ↦
      rw (e, last_sequence-set_status status now id t.session_id ts)
        (n.0, IsNumbered-set_status status now id ts n.1)
]
