-- ===== src/Exec.antt =====
-- Methods that change an object and may raise. What was written before a raise stays written, so
-- the state comes back beside the error too.
use lune_voice_companion.Result.{Result, ok, err}

abbrev pub Exec {ℓ} : Type ℓ → Type ℓ → Type ℓ
Exec S A = S → Result A × S

module _ {ℓ} {S A : Type ℓ} where
  -- A call that leaves the object alone.
  abbrev pub lift : Result A → Exec S A
  lift r s = (r, s)

  abbrev pub pure : A → Exec S A
  pure a = lift (ok a)

abbrev pub modify : {S : Type 0} → (S → S) → Exec S (Unit {0})
modify change s = (ok tt, change s)

-- What follows a call, which runs in the state that the call left.
abbrev then_run {ℓ} : {S A B : Type ℓ} → Result A × S → (A → Exec S B) → Result B × S
then_run (err raised, left) next = (err raised, left)
then_run (ok a, left) next = next a left

module _ {ℓ} {S A B : Type ℓ} where
  infixl 5 ◌>>=◌
  abbrev pub ◌>>=◌ : Exec S A → (A → Exec S B) → Exec S B
  ◌>>=◌ call next s = then_run (call s) next

  infixl 5 ◌>>◌
  abbrev pub ◌>>◌ : Exec S A → Exec S B → Exec S B
  ◌>>◌ call next = call >>= (λ done. next)
