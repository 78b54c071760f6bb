-- ===== src/Memory/Steps.antt =====
-- What a write to the store of memory/store.py keeps, whatever it does on each of its branches.
use mathlib.Core.Path.{subst}
use lune_voice_companion.Prelude.{◌≡◌, refl, Bool, true, false, if◌then◌else◌}
use lune_voice_companion.Result.{Error, Result, guard, ◌>>=◌, ◌>>◌, err, ok}

-- What holds of the value that is returned, if one is.
unfoldable pub Holds {ℓ κ} : {A : Type ℓ} → (A → Type κ) → Result A → Type κ
Holds P (err e) = Unit
Holds P (ok a) = P a

pub >>=-Holds {ℓ κ μ} :
    {A : Type ℓ} {B : Type κ} (P : B → Type μ) (r : Result A) (rest : A → Result B)
    → ((a : A) → r ≡ ok a → Holds P (rest a))
    → Holds P (r >>= rest)
unfolding Holds
>>=-Holds P (err e) rest h = tt
>>=-Holds P (ok a) rest h = h a refl

pub Holds-ok {ℓ κ} :
    {A : Type ℓ} (P : A → Type κ) (r : Result A) {a : A} → Holds P r → r ≡ ok a → P a
unfolding Holds
Holds-ok P (err e) h e' = cc e'
Holds-ok P (ok a) h e' = subst (Holds P) e' h

pub if-Holds {ℓ κ} :
    {A : Type ℓ} (P : A → Type κ) (b : Bool) (x y : Result A)
    → (b ≡ true → Holds P x)
    → (b ≡ false → Holds P y)
    → Holds P (if b then x else y)
if-Holds P true x y t e = t refl
if-Holds P false x y t e = e refl

pub ok-Holds {ℓ κ} : {A : Type ℓ} (P : A → Type κ) {a : A} → P a → Holds P (ok a)
unfolding Holds
ok-Holds P h = h

pub err-Holds {ℓ κ} : {A : Type ℓ} (P : A → Type κ) (e : Error) → Holds P (err e)
unfolding Holds
err-Holds P e = tt

pub guard-Holds {κ μ} :
    {B : Type κ} (P : B → Type μ) (test : Bool) (raised : Error) (rest : Result B)
    → (test ≡ true → Holds P rest)
    → Holds P (guard test raised >> rest)
unfolding Holds
guard-Holds P true raised rest h = h refl
guard-Holds P false raised rest h = tt
