-- ===== src/Memory/Related.antt =====
-- The affinity of memory/store.py and its events.
use mathlib.Core.Path.{subst}
use lune_voice_companion.Prelude.{
  ℕ, zero, suc, ◌+◌, ◌≤◌, ◌≡◌, refl, inl, inr, false, some, List, [], ◌∷◌, arith, Bool-cases,
  same_text, same_text-eq,
}
use lune_voice_companion.Memory.Store.{Text, Delta, raise, lower, Event, Store, exists}
use lune_voice_companion.Memory.Store.Memories.{
  sum_of, moved, is_beyond, shifted, within_scale, events_of, is_event,
}

-- No turn has two events.
abbrev pub OnePerTurn : List Event → Type 0
OnePerTurn [] = Unit
OnePerTurn (e ∷ es) = (exists (λ x. same_text x.turn_id e.turn_id) es ≡ false) × OnePerTurn es

-- The affinity lies on its scale, is 50 moved by all events, no session has moved it by more than
-- three, and no turn twice.
pub record IsRelated (affinity : ℕ) (events : List Event) : Type 0 where
  pub scale : affinity ≤ 100
  pub balance : affinity + (sum_of events).1 ≡ 50 + (sum_of events).0
  pub bounded : (session : Text) → is_beyond (sum_of (events_of session events)) ≡ false
  pub once : OnePerTurn events

moved-sum_of : (e : Event) (es : List Event) → sum_of (e ∷ es) ≡ moved e.delta (sum_of es)
moved-sum_of e es = go e.delta
  where
    go :
        (d : Delta)
        → elim d as (λ _. ℕ × ℕ) [
          | raise ↦ (suc (sum_of es).0, (sum_of es).1)
          | lower ↦ ((sum_of es).0, suc (sum_of es).1)
        ]
          ≡ moved d (sum_of es)
    go raise = refl
    go lower = refl

shifted_balance :
    (d : Delta) (affinity resulting : ℕ) (sum : ℕ × ℕ)
    → within_scale (shifted d affinity) ≡ some resulting
    → affinity + sum.1 ≡ 50 + sum.0
    → (resulting ≤ 100) × (resulting + (moved d sum).1 ≡ 50 + (moved d sum).0)
shifted_balance raise affinity resulting sum e b = (grind (arith, e), grind (arith, e, b))
shifted_balance lower zero resulting sum e b = cc e
shifted_balance lower (suc affinity) resulting sum e b = (grind (arith, e), grind (arith, e, b))

not_other_turn :
    (id turn : Text) (es : List Event)
    → exists (is_event id turn) es ≡ false
    → exists (λ x. same_text x.turn_id turn) es ≡ false
not_other_turn id turn [] h = refl
not_other_turn id turn (e ∷ es) h = ground (arith, h, not_other_turn id turn es)

-- An event that may be applied keeps the affinity as it should be.
pub apply_event-IsRelated :
    (s : Store) (e : Event)
    → IsRelated s.affinity s.events
    → exists (is_event e.id e.turn_id) s.events ≡ false
    → is_beyond (moved e.delta (sum_of (events_of e.session_id s.events))) ≡ false
    → within_scale (shifted e.delta s.affinity) ≡ some e.resulting_affinity
    → IsRelated e.resulting_affinity (e ∷ s.events)
apply_event-IsRelated s e v new near on_scale =
    let moved_by =
      shifted_balance e.delta s.affinity e.resulting_affinity (sum_of s.events) on_scale
        v.balance in
    record {
      scale = moved_by.0;
      balance = rw (moved-sum_of e s.events) moved_by.1;
      bounded = λ session. elim (Bool-cases (same_text e.session_id session)) [
        | inl same ↦
            let is_it = same_text-eq e.session_id session same in
            simp (same, moved-sum_of e (events_of session s.events))
              (subst (λ t. is_beyond (moved e.delta (sum_of (events_of t s.events))) ≡ false) is_it
                near)
        | inr other ↦ simp other (v.bounded session)
      ];
      once = (not_other_turn e.id e.turn_id s.events new, v.once);
    }
