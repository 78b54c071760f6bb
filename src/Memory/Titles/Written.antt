-- ===== src/Memory/Titles/Written.antt =====
-- What the store's write of a generated title, which memory/titles.py makes, does to its rows.
use lune_voice_companion.Prelude.{
  ℕ, ◌≡◌, refl, ◌⊎◌, inl, inr, Bool, true, false, not, ◌&&◌, List, [], ◌∷◌, arith, Bool-cases,
  same_text, same_text_refl,
}
use lune_voice_companion.Result.{ok}
use lune_voice_companion.Memory.Store.{
  Text, Session, Store, generated, exists, update, validated_id, timestamp,
}
use lune_voice_companion.Memory.Steps.{Holds, >>=-Holds, guard-Holds, if-Holds, ok-Holds}
use lune_voice_companion.Memory.Store.Threads.{
  is_default, is_untitled, set_generated_conversation_title,
}
use lune_voice_companion.Memory.Store.Turns.{validated_thread_title}

-- A row that is named had its first title, and gets the title and nothing else but the mark of it.
pub record IsNamedRow (id clean : Text) (t u : Session) : Type 0 where
  pub its_id : same_text t.id id ≡ true
  pub untitled : is_default t.title_source ≡ true
  pub title : u.title ≡ clean
  pub source : u.title_source ≡ generated
  pub same_id : u.id ≡ t.id
  pub same_start : u.started_at ≡ t.started_at
  pub same_end : u.ended_at ≡ t.ended_at

-- Row by row: it is named, or it is as it was.
abbrev pub Renames : Text → Text → List Session → List Session → Type 0
Renames id clean [] [] = Unit
Renames id clean (t ∷ ts) (u ∷ us) = (IsNamedRow id clean t u ⊎ (u ≡ t)) × Renames id clean ts us
Renames id clean _ _ = ⊥

abbrev pub has_title : Text → Text → Session → Bool
has_title id clean u = same_text u.id id && same_text u.title clean

module _ (is_space is_printable : ℕ → Bool) {Time : Type 0} (is_aware : Time → Bool)
    (utc : Time → ℕ) where
  module _ (id clean : Text) (now : ℕ) (s : Store) where
    abbrev name : Session → Session
    name t = record t { title = clean; title_source = generated; updated_at = now }

    abbrev is_named : Session → Bool
    is_named t = is_untitled is_space is_printable is_aware utc id s t

    update-Renames : (ts : List Session) → Renames id clean ts (update is_named name ts)
    update-Renames [] = tt
    update-Renames (t ∷ ts) = elim (Bool-cases (is_named t)) [
      | inl e ↦ rw e (
        inl (record {
          its_id = ground (arith, e);
          untitled = ground (arith, e);
          title = refl;
          source = refl;
          same_id = refl;
          same_start = refl;
          same_end = refl;
        }),
        update-Renames ts,
      )
      | inr e ↦ rw e (inr refl, update-Renames ts)
    ]

    exists-update_named :
        (ts : List Session)
        → exists is_named ts ≡ true
        → exists (has_title id clean) (update is_named name ts) ≡ true
    exists-update_named [] e = cc e
    exists-update_named (t ∷ ts) e = elim (Bool-cases (is_named t)) [
      | inl h ↦
          let its_id : same_text t.id id ≡ true = ground (arith, h) in
          rw h (simp (its_id, same_text_refl clean))
      | inr h ↦
          let rest : exists is_named ts ≡ true = ground (arith, h, e) in
          rw h (ground (arith, exists-update_named ts rest))
    ]

  -- Where nothing is written the store is as it was. Else the title, as the store's validation leaves
  -- it, is in a row of the session, every other row is as it was, and so are the turns and messages.
  unfoldable pub IsWritten : Text → Text → Store → Bool × Store → Type 0
  IsWritten session title s (false, s') = s' ≡ s
  IsWritten session title s (true, s') =
      (id : Text) × (clean : Text) × (validated_id is_space session ≡ ok id)
      × (validated_thread_title is_space is_printable is_aware utc title ≡ ok clean)
      × Renames id clean s.sessions s'.sessions
      × (exists (has_title id clean) s'.sessions ≡ true)
      × (s'.turns ≡ s.turns)
      × (s'.messages ≡ s.messages)

  pub set_generated-IsWritten :
      (session title : Text) (at : Time) (s : Store)
      → Holds
          (IsWritten session title s)
          (set_generated_conversation_title is_space is_printable is_aware utc session title at s)
  unfolding set_generated_conversation_title IsWritten
  set_generated-IsWritten session title at s =
      >>=-Holds _ (validated_id is_space session) _ (λ id named.
        >>=-Holds _ (validated_thread_title is_space is_printable is_aware utc title) _
          (λ clean valid. guard-Holds _ (not s.closed) _ _ (λ e.
            >>=-Holds _ (timestamp is_aware utc at) _ (λ now e.
              if-Holds _ (exists (is_untitled is_space is_printable is_aware utc id s) s.sessions) _
                _
                (λ found. ok-Holds _ (
                  id,
                  clean,
                  named,
                  valid,
                  update-Renames id clean now s s.sessions,
                  exists-update_named id clean now s s.sessions found,
                  refl,
                  refl,
                ))
                (λ e. ok-Holds _ refl)))))
