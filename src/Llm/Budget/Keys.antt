-- ===== src/Llm/Budget/Keys.antt =====
-- The reservations of llm/budget.py as a dictionary under their attempts' identifiers.
use mathlib.Core.Path.{subst}
use lune_voice_companion.Prelude.{
  ℕ, ◌+◌, ◌≡◌, refl, inl, inr, false, none, some, List, [], ◌∷◌, arith, ◌==◌, Bool-cases,
  Option-cases,
}
use lune_voice_companion.Llm.Budget.{AttemptReservation, reserved, put, pop}
use lune_voice_companion.Llm.Budget.Amounts.{share}

-- The keys of a dictionary differ.
abbrev pub IsDict : List AttemptReservation → Type 0
IsDict [] = Unit
IsDict (x ∷ xs) = (pop x.attempt_id xs ≡ none) × IsDict xs

-- What was popped had the key, and its key is gone.
pub pop-once :
    (id : ℕ) (xs : List AttemptReservation) (r : AttemptReservation)
    (rest : List AttemptReservation)
    → IsDict xs
    → pop id xs ≡ some (r, rest)
    → (r.attempt_id ≡ id) × (pop id rest ≡ none)
pop-once id [] r rest d e = cc e
pop-once id (x ∷ xs) r rest d e = elim (Bool-cases (x.attempt_id == id)) [
  | inl b ↦
      let key : x.attempt_id ≡ id = ground (arith, b) in
      let gone : pop id xs ≡ none = subst (λ k. pop k xs ≡ none) key d.0 in
      grind (arith, b, e, key, gone)
  | inr b ↦ elim (Option-cases (pop id xs)) [
    | inl none_left ↦ grind (arith, b, e, none_left)
    | inr (found, k) ↦ let ih = pop-once id xs found.0 found.1 d.1 k in grind (arith, b, e, k, ih)
  ]
]

pop-not :
    (id : ℕ) (x : AttemptReservation) (xs : List AttemptReservation)
    → pop id (x ∷ xs) ≡ none
    → ((x.attempt_id == id) ≡ false) × (pop id xs ≡ none)
pop-not id x xs e = elim (Bool-cases (x.attempt_id == id)) [
  | inl b ↦ grind (arith, b, e)
  | inr b ↦ elim (Option-cases (pop id xs)) [
    | inl n ↦ (b, n)
    | inr (found, k) ↦ grind (arith, b, e, k)
  ]
]

-- A reservation that is put under a key that is not there is found again, and adds what it reserves.
pub pop-put :
    (r : AttemptReservation) (xs : List AttemptReservation)
    → pop r.attempt_id xs ≡ none
    → pop r.attempt_id (put r xs) ≡ some (r, xs)
pop-put r [] e = ground arith
pop-put r (x ∷ xs) e = let n = pop-not r.attempt_id x xs e in rw n.0 (simp (n.0, pop-put r xs n.1))

pub reserved-put_new :
    (p : ℕ) (r : AttemptReservation) (xs : List AttemptReservation)
    → pop r.attempt_id xs ≡ none
    → reserved p (put r xs) ≡ share p r + reserved p xs
reserved-put_new p r [] e = omega arith
reserved-put_new p r (x ∷ xs) e =
    let n = pop-not r.attempt_id x xs e in rw n.0 (omega (arith, reserved-put_new p r xs n.1))

pop-none-put :
    (k : ℕ) (r : AttemptReservation) (xs : List AttemptReservation)
    → (r.attempt_id == k) ≡ false
    → pop k xs ≡ none
    → pop k (put r xs) ≡ none
pop-none-put k r [] other e = simp other
pop-none-put k r (x ∷ xs) other e =
    let n = pop-not k x xs e in
    elim (Bool-cases (x.attempt_id == r.attempt_id)) [
      | inl b ↦ rw b (simp (other, n.1))
      | inr b ↦ rw b (simp (n.0, pop-none-put k r xs other n.1))
    ]

-- `d[k] = r` and `d.pop(k)` leave a dictionary.
pub put-IsDict :
    (r : AttemptReservation) (xs : List AttemptReservation) → IsDict xs → IsDict (put r xs)
put-IsDict r [] d = (refl, tt)
put-IsDict r (x ∷ xs) d = elim (Bool-cases (x.attempt_id == r.attempt_id)) [
  | inl b ↦
      let key : x.attempt_id ≡ r.attempt_id = ground (arith, b) in
      rw b (subst (λ k. pop k xs ≡ none) key d.0, d.1)
  | inr b ↦
      let other : (r.attempt_id == x.attempt_id) ≡ false = ground (arith, b) in
      rw b (pop-none-put x.attempt_id r xs other d.0, put-IsDict r xs d.1)
]

pop-none-rest :
    (k id : ℕ) (xs : List AttemptReservation) (r : AttemptReservation)
    (rest : List AttemptReservation)
    → pop k xs ≡ none
    → pop id xs ≡ some (r, rest)
    → pop k rest ≡ none
pop-none-rest k id [] r rest n e = cc e
pop-none-rest k id (x ∷ xs) r rest n e =
    let m = pop-not k x xs n in
    elim (Bool-cases (x.attempt_id == id)) [
      | inl b ↦ grind (arith, b, e, m)
      | inr b ↦ elim (Option-cases (pop id xs)) [
        | inl none_left ↦ grind (arith, b, e, none_left)
        | inr (found, j) ↦
            let ih = pop-none-rest k id xs found.0 found.1 m.1 j in
            let same : rest ≡ x ∷ found.1 = grind (arith, b, e, j) in rw same (simp (m.0, ih))
      ]
    ]

pub pop-IsDict :
    (id : ℕ) (xs : List AttemptReservation) (r : AttemptReservation)
    (rest : List AttemptReservation)
    → IsDict xs
    → pop id xs ≡ some (r, rest)
    → IsDict rest
pop-IsDict id [] r rest d e = cc e
pop-IsDict id (x ∷ xs) r rest d e = elim (Bool-cases (x.attempt_id == id)) [
  | inl b ↦ let same : xs ≡ rest = grind (arith, b, e) in subst IsDict same d.1
  | inr b ↦ elim (Option-cases (pop id xs)) [
    | inl none_left ↦ absurd (grind (arith, b, e, none_left))
    | inr (found, j) ↦
        let same : x ∷ found.1 ≡ rest = grind (arith, b, e, j) in
        subst IsDict same (
          pop-none-rest x.attempt_id id xs found.0 found.1 d.0 j,
          pop-IsDict id xs found.0 found.1 d.1 j,
        )
  ]
]
