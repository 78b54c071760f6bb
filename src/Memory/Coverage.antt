-- ===== src/Memory/Coverage.antt =====
-- The rolling summary of memory/store.py covers the complete turns one after the other.
use mathlib.Core.Path.{subst}
use lune_voice_companion.Prelude.{
  ℕ, ◌≤◌, ◌<◌, ◌≡◌, refl, sym, ap, ◌∙◌, inl, inr, Bool, true, false, not, ◌&&◌, Option, none, some,
  List, [], ◌∷◌, map, arith, ltb, leb, ◌==◌, ltb→lt, lt→ltb, Bool-cases, length, take, drop, All,
  same_text, same_text_refl, no_text, any_space,
}
use lune_voice_companion.Result.{ok}
use lune_voice_companion.Memory.Store.{
  Text, Turn, Summary, Store, find, select, validated_id, validated_content, timestamp,
}
use lune_voice_companion.Memory.Store.Threads.{complete_turns}
use lune_voice_companion.Memory.Store.Summaries.{
  StoredTurn, is_summary, summary_end, turns_after, all_of, is_increasing, same_turns,
  final_sequence, extended, put_summary, advance_summary,
}
use lune_voice_companion.Memory.Steps.{>>=-Holds, guard-Holds, ok-Holds, Holds-ok}
use lune_voice_companion.Memory.Told.{IsNumbered}
use lune_voice_companion.Memory.Ordered.{Ascending, Ascending-select, complete_turns-Ascending}

select_every :
    (n : ℕ) (ts : List Turn) → All (λ t. n < t.sequence) ts → select (λ t. ltb n t.sequence) ts ≡ ts
select_every n [] a = refl
select_every n (t ∷ ts) a = simp (lt→ltb n t.sequence a.0, select_every n ts a.1)

-- Of ascending turns whose front is given, those after the last of the front are the rest.
select_after :
    (ts : List Turn) (u : StoredTurn) (us : List StoredTurn)
    → Ascending ts
    → same_turns (take (length (u ∷ us)) ts) (u ∷ us) ≡ true
    → (select (λ t. ltb (final_sequence (u ∷ us)) t.sequence) ts ≡ drop (length (u ∷ us)) ts)
      × All (λ t. t.sequence ≤ final_sequence (u ∷ us)) (take 1 ts)
      × (0 < length ts)
select_after [] u us a e = cc e
select_after (t ∷ ts) u [] a e =
    let same : t.sequence ≡ u.sequence = ground (arith, e) in
    let not_after : ltb u.sequence t.sequence ≡ false = ground (arith, same) in
    (
      simp not_after
          (select_every u.sequence ts (subst (λ n. All (λ x. n < x.sequence) ts) same a.0)),
      (omega (arith, same), tt),
      omega arith,
    )
select_after (t ∷ []) u (v ∷ us) a e = grind (arith, e)
select_after (t ∷ w ∷ ws) u (v ∷ us) a e =
    let (rest, (top, _), _) = select_after (w ∷ ws) v us a.1 (grind (arith, e)) in
    let not_after : ltb (final_sequence (v ∷ us)) t.sequence ≡ false = ground (arith, top, a.0.0) in
    (simp not_after rest, (omega (arith, top, a.0.0), tt), omega arith)

select-select_after :
    (m n : ℕ) (ts : List Turn)
    → m ≤ n
    → select (λ t. ltb n t.sequence) (select (λ t. ltb m t.sequence) ts)
      ≡ select (λ t. ltb n t.sequence) ts
select-select_after m n [] h = refl
select-select_after m n (t ∷ ts) h = elim (Bool-cases (ltb m t.sequence)) [
  | inl e ↦ elim (Bool-cases (ltb n t.sequence)) [
    | inl k ↦ simp (e, k, select-select_after m n ts h)
    | inr k ↦ simp (e, k, select-select_after m n ts h)
  ]
  | inr e ↦
      let below : ltb n t.sequence ≡ false = ground (arith, e, h) in
      simp (e, below, select-select_after m n ts h)
]

find-put_summary :
    (row : Summary) (us : List Summary)
    → find (is_summary row.session_id) (put_summary row us) ≡ some row
find-put_summary row [] = simp (same_text_refl row.session_id)
find-put_summary row (u ∷ us) = elim (Bool-cases (same_text u.session_id row.session_id)) [
  | inl e ↦ simp (e, same_text_refl row.session_id)
  | inr e ↦ simp (e, find-put_summary row us)
]

-- What an advance of the summary of a session makes of it, and of the turns that are left to cover.
pub record Advances (session : Text) (s : Store) (turns : List StoredTurn) (r : Summary × Store)
    : Type 0 where
  pub stored : find (is_summary session) r.1.summaries ≡ some r.0
  pub four : length turns ≡ 4
  pub covers :
      same_turns
        (take 4 (turns_after session (summary_end (find (is_summary session) s.summaries)) s))
        turns
      ≡ true
  pub continues :
      turns_after session r.0.end_turn_sequence r.1
      ≡ drop 4 (turns_after session (summary_end (find (is_summary session) s.summaries)) s)

extended_end :
    (o : Option Summary) (fresh session : Text) (turns : List StoredTurn) (content : Text)
    → (extended o fresh session turns content).end_turn_sequence ≡ final_sequence turns
extended_end none fresh session turns content = refl
extended_end (some u) fresh session turns content = refl

extended_session :
    (o : Option Summary) (fresh session : Text) (turns : List StoredTurn) (content : Text)
    → (extended o fresh session turns content).session_id ≡ session
extended_session none fresh session turns content = refl
extended_session (some u) fresh session turns content = refl

above_select :
    (m : ℕ) (ts : List Turn) → All (λ t. m < t.sequence) (select (λ t. ltb m t.sequence) ts)
above_select m [] = tt
above_select m (t ∷ ts) = elim (Bool-cases (ltb m t.sequence)) [
  | inl e ↦ rw e (ltb→lt m t.sequence e, above_select m ts)
  | inr e ↦ rw e (above_select m ts)
]

head_bound :
    (m n : ℕ) (ts : List Turn)
    → All (λ t. m < t.sequence) ts
    → All (λ t. t.sequence ≤ n) (take 1 ts)
    → 0 < length ts
    → m ≤ n
head_bound m n [] a b some_left = grind (arith, some_left)
head_bound m n (t ∷ ts) a b some_left = omega (arith, a.0, b.0)

validated_same : (is_space : ℕ → Bool) (id a : Text) → validated_id is_space id ≡ ok a → a ≡ id
validated_same is_space id a e =
    Holds-ok (λ b. b ≡ id) (validated_id is_space id)
      (guard-Holds _ (not (no_text id) && leb (length id) 128 && not (any_space is_space id)) _ _
        (λ tested. ok-Holds _ refl))
      e

continues_lem :
    (session : Text) (after : ℕ) (turns : List StoredTurn) (s : Store)
    → IsNumbered s.turns
    → length turns ≡ 4
    → same_turns (take 4 (turns_after session after s)) turns ≡ true
    → turns_after session (final_sequence turns) s ≡ drop 4 (turns_after session after s)
continues_lem session after [] s n four same = grind (arith, four)
continues_lem session after (u ∷ us) s n four same =
    let all = complete_turns session s.turns in
    let left = turns_after session after s in
    let (cut, top, some_left) =
      select_after left u us
        (Ascending-select (λ t. ltb after t.sequence) all
          (complete_turns-Ascending session s.turns n))
        (subst (λ k. same_turns (take k left) (u ∷ us) ≡ true) (sym four) same) in
    let end = final_sequence (u ∷ us) in
    sym (
      select-select_after after end all
        (head_bound after end left (above_select after all) top some_left))
    ∙ cut
    ∙ ap (λ k. drop k left) four

advances_lem :
    (id : Text) (turns : List StoredTurn) (clean fresh : Text) (s : Store)
    → IsNumbered s.turns
    → length turns ≡ 4
    → same_turns (take 4 (turns_after id (summary_end (find (is_summary id) s.summaries)) s)) turns
      ≡ true
    → (row : Summary) → row ≡ extended (find (is_summary id) s.summaries) fresh id turns clean
    → Advances id s turns (row, record s { summaries = put_summary row s.summaries })
advances_lem id turns clean fresh s n four same row made =
    let current = find (is_summary id) s.summaries in
    let its_session : row.session_id ≡ id =
      ap (λ (u : Summary). u.session_id) made ∙ extended_session current fresh id turns clean in
    let its_end : row.end_turn_sequence ≡ final_sequence turns =
      ap (λ (u : Summary). u.end_turn_sequence) made ∙ extended_end current fresh id turns clean in
    record {
      stored =
          subst (λ i. find (is_summary i) (put_summary row s.summaries) ≡ some row) its_session
            (find-put_summary row s.summaries);
      four = four;
      covers = same;
      continues =
          ap (λ k. turns_after id k s) its_end
          ∙ continues_lem id (summary_end current) turns s n four same;
    }

-- The four turns that a summary advances by, of a session whose turns are numbered upwards: the row
-- becomes the session's summary, the turns are the first four complete ones that it did not
-- cover, and those that are left to cover are the ones after them, so that none is covered twice
-- or skipped.
pub advance_summary-Advances :
    (is_space : ℕ → Bool) {Time : Type 0} (is_aware : Time → Bool) (utc : Time → ℕ) (id : Text)
    (turns : List StoredTurn) (content : Text) (at : Time) (fresh : Text) (s : Store)
    (r : Summary × Store)
    → IsNumbered s.turns
    → advance_summary is_space is_aware utc id turns content at fresh s ≡ ok r
    → Advances id s turns r
unfolding advance_summary
advance_summary-Advances is_space is_aware utc id turns content at fresh s r n done =
    Holds-ok (Advances id s turns)
      (advance_summary is_space is_aware utc id turns content at fresh s)
      (guard-Holds _ (length turns == 4) _ _ (λ four.
        >>=-Holds _ (validated_content is_space content) _ (λ clean e.
          >>=-Holds _ (validated_id is_space id) _ (λ a named.
            guard-Holds _ (all_of (λ t. same_text t.session_id a) turns) _ _ (λ e.
              guard-Holds _ (is_increasing (map (λ t. t.sequence) turns)) _ _ (λ e.
                guard-Holds _ (not s.closed) _ _ (λ e.
                  guard-Holds _
                    (same_turns
                      (take 4 (turns_after a (summary_end (find (is_summary a) s.summaries)) s))
                      turns)
                    _ _
                    (λ same. >>=-Holds _ (timestamp is_aware utc at) _ (λ now e. ok-Holds _ (
                      subst
                        (λ i. Advances i s turns (
                          extended (find (is_summary a) s.summaries) fresh a turns clean,
                          record s {
                            summaries =
                                put_summary
                                  (extended (find (is_summary a) s.summaries) fresh a turns clean)
                                  s.summaries;
                          },
                        ))
                        (validated_same is_space id a named)
                        (advances_lem a turns clean fresh s n (ground (arith, four)) same _
                          refl)))))))))))
      done
