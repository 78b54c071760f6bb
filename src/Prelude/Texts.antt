-- ===== src/Prelude/Texts.antt =====
-- Text as the list of its code points: equality, and `str.strip` over a given `str.isspace`.
use lune_voice_companion.Prelude.Tests.{◌==◌, if◌then◌else◌}
use Prim.Native.Nat.{ℕ}
use mathlib.Core.Path.{◌≡◌, refl}
use mathlib.Core.Bool.{Bool, true, false, ◌&&◌, ◌||◌}
use mathlib.Core.List.{List, [], ◌∷◌}
use native.Mathlib.Omega.{arith}

abbrev pub same_text : List ℕ → List ℕ → Bool
same_text [] [] = true
same_text (a ∷ as') (b ∷ bs) = let rest = same_text as' bs in a == b && rest
same_text _ _ = false

pub same_text-eq : (a b : List ℕ) → same_text a b ≡ true → a ≡ b
same_text-eq [] [] e = refl
same_text-eq [] (b ∷ bs) e = cc e
same_text-eq (a ∷ as') [] e = cc e
same_text-eq (a ∷ as') (b ∷ bs) e =
    let first : a ≡ b = ground (arith, e) in
    let rest = same_text-eq as' bs (ground (arith, e)) in cc (first, rest)

pub same_text_refl : (a : List ℕ) → same_text a a ≡ true
same_text_refl [] = refl
same_text_refl (a ∷ as') = ground (arith, same_text_refl as')

abbrev pub no_text : List ℕ → Bool
no_text [] = true
no_text (c ∷ cs) = false

module _ (is_space : ℕ → Bool) where
  abbrev pub any_space : List ℕ → Bool
  any_space [] = false
  any_space (c ∷ cs) = let rest = any_space cs in is_space c || rest

  abbrev pub strip_left : List ℕ → List ℕ
  strip_left [] = []
  strip_left (c ∷ cs) = let rest = strip_left cs in if is_space c then rest else c ∷ cs

  abbrev pub strip_right : List ℕ → List ℕ
  strip_right [] = []
  strip_right (c ∷ cs) =
      let rest = strip_right cs in if is_space c && no_text rest then [] else c ∷ rest

  abbrev pub strip : List ℕ → List ℕ
  strip cs = strip_right (strip_left cs)
