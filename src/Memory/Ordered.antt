-- ===== src/Memory/Ordered.antt =====
-- The complete turns of a session of memory/store.py, in the order of their numbers.
use mathlib.Core.Path.{subst}
use lune_voice_companion.Prelude.{
  ℕ, ◌<◌, max, ◌≡◌, inl, inr, Bool, false, ◌&&◌, List, [], ◌∷◌, arith, leb, Bool-cases, All,
  same_text-eq,
}
use lune_voice_companion.Memory.Store.{Text, Turn, select, in_session, is_complete, last_sequence}
use lune_voice_companion.Memory.Store.Threads.{insert_by, sort_by, complete_turns}
use lune_voice_companion.Memory.Told.{IsNumbered}

-- Every number is below those after it.
abbrev pub Ascending : List Turn → Type 0
Ascending [] = Unit
Ascending (t ∷ ts) = All (λ u. t.sequence < u.sequence) ts × Ascending ts

All-select {ℓ κ} :
    {A : Type ℓ} (P : A → Type κ) (test : A → Bool) (xs : List A)
    → All P xs
    → All P (select test xs)
All-select P test [] a = tt
All-select P test (x ∷ xs) a = elim (Bool-cases (test x)) [
  | inl e ↦ rw e (a.0, All-select P test xs a.1)
  | inr e ↦ rw e (All-select P test xs a.1)
]

pub Ascending-select :
    (test : Turn → Bool) (ts : List Turn) → Ascending ts → Ascending (select test ts)
Ascending-select test [] a = tt
Ascending-select test (t ∷ ts) a = elim (Bool-cases (test t)) [
  | inl e ↦ rw e (All-select _ test ts a.0, Ascending-select test ts a.1)
  | inr e ↦ rw e (Ascending-select test ts a.1)
]

All-insert_by {ℓ κ} :
    {A : Type ℓ} (P : A → Type κ) (key : A → ℕ) (x : A) (ys : List A)
    → P x
    → All P ys
    → All P (insert_by key x ys)
All-insert_by P key x [] p a = (p, tt)
All-insert_by P key x (y ∷ ys) p a = elim (Bool-cases (leb (key x) (key y))) [
  | inl e ↦ rw e (p, a)
  | inr e ↦ rw e (a.0, All-insert_by P key x ys p a.1)
]

All-sort_by {ℓ κ} :
    {A : Type ℓ} (P : A → Type κ) (key : A → ℕ) (xs : List A) → All P xs → All P (sort_by key xs)
All-sort_by P key [] a = tt
All-sort_by P key (x ∷ xs) a = All-insert_by P key x (sort_by key xs) a.0 (All-sort_by P key xs a.1)

-- A turn that is above all is put last.
Ascending-insert_by :
    (x : Turn) (ys : List Turn)
    → All (λ u. u.sequence < x.sequence) ys
    → Ascending ys
    → Ascending (insert_by (λ t. t.sequence) x ys)
Ascending-insert_by x [] below a = (tt, tt)
Ascending-insert_by x (y ∷ ys) below a =
    let above : leb x.sequence y.sequence ≡ false = ground (arith, below.0) in
    rw above (
      All-insert_by (λ u. y.sequence < u.sequence) (λ t. t.sequence) x ys below.0 a.0,
      Ascending-insert_by x ys below.1 a.1,
    )

below_last :
    (session : Text) (n : ℕ) (ts : List Turn)
    → last_sequence session ts < n
    → All (λ u. u.sequence < n) (select (λ t. in_session session t && is_complete t.status) ts)
below_last session n [] h = tt
below_last session n (t ∷ ts) h = elim (Bool-cases (in_session session t)) [
  | inr other ↦ rw other (below_last session n ts (simp other at h))
  | inl own ↦
      let top : max t.sequence (last_sequence session ts) < n = simp own at h in
      elim (Bool-cases (is_complete t.status)) [
        | inl c ↦ rw (own, c) (omega (arith, top), below_last session n ts (omega (arith, top)))
        | inr c ↦ rw (own, c) (below_last session n ts (omega (arith, top)))
      ]
]

pub complete_turns-Ascending :
    (session : Text) (ts : List Turn) → IsNumbered ts → Ascending (complete_turns session ts)
complete_turns-Ascending session [] n = tt
complete_turns-Ascending session (t ∷ ts) n =
    elim (Bool-cases (in_session session t && is_complete t.status)) [
      | inr e ↦ rw e (complete_turns-Ascending session ts n.1)
      | inl e ↦
          let same : t.session_id ≡ session =
            same_text-eq t.session_id session (ground (arith, e)) in
          let below =
            below_last session t.sequence ts
              (subst (λ s. last_sequence s ts < t.sequence) same n.0) in
          rw e (
            Ascending-insert_by t (complete_turns session ts)
              (All-sort_by (λ u. u.sequence < t.sequence) (λ u. u.sequence) _ below)
              (complete_turns-Ascending session ts n.1))
    ]
