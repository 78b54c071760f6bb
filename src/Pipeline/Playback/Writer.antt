-- ===== src/Pipeline/Playback/Writer.antt =====
-- The accounts of pipeline/playback.py through the writer's rounds, `drain` and `close`.
use lune_voice_companion.Prelude.{
  ℕ, ◌+◌, ◌≤◌, ◌≡◌, refl, sym, inl, inr, Bool, true, false, not, ◌&&◌, ◌||◌, Option, none, some,
  List, [], ◌∷◌, arith, ltb, ◌==◌, if◌then◌else◌, Bool-cases, length, All,
}
use mathlib.Core.Path.{subst}
use lune_voice_companion.Pipeline.Playback.{
  Chunk, Sink, Outcome, written, failed, cancelled, release, is_stopped, take_chunk, take_next,
  writer_take, after_write, settle, writer_done, close, shut, drain, is_audible, contains_key,
  record_audible, contains,
}
use lune_voice_companion.Pipeline.Playback.Accounts.{
  one_if, count, in_hand, release-Balances, Balances,
}

module _ {Time : Type 0} where
  take_chunk-Balances :
      (s : Sink Time) (q : List Chunk)
      → s.queue ≡ q
      → s.in_flight ≡ none
      → Balances s
      → Balances (take_chunk s q)
  unfolding take_chunk
  take_chunk-Balances s [] e f v = v
  take_chunk-Balances s (c ∷ cs) e f v =
      let fenced =
        subst (λ q. All (λ (c : Chunk). s.stopped_before ≤ c.generation_id) q) e v.fenced in
      let bounded = subst (λ q. length q ≤ s.capacity) e v.bounded in
      let counted = λ (g : ℕ) (o : s.closed ≡ false) (n : is_stopped s g ≡ false).
        subst (λ q. s.pending g ≡ count g q + 0) e
          (subst (λ h. s.pending g ≡ count g s.queue + in_hand g h) f (v.counted g o n)) in
      elim (Bool-cases (is_stopped s c.generation_id)) [
        | inl h ↦ rw h (
            release-Balances (record s { queue = cs }) c.generation_id
              (λ k o n. rw f (omega (arith, counted k o n))) fenced.1 (omega (arith, bounded))
              v.waking)
        | inr h ↦ rw h (record {
          counted = λ g o n. omega (arith, counted g o n);
          fenced = fenced.1;
          bounded = omega (arith, bounded);
          waking = v.waking;
        })
      ]

  take_next-Balances :
      (s : Sink Time) (held : Option Chunk)
      → s.in_flight ≡ held
      → Balances s
      → Balances (take_next held s)
  unfolding take_next
  take_next-Balances s (some c) e v = v
  take_next-Balances s none e v = elim (Bool-cases (s.writer_running && not s.closed)) [
    | inl b ↦ rw b (take_chunk-Balances s s.queue refl e v)
    | inr b ↦ rw b v
  ]

  pub writer_take-Balances : (s : Sink Time) → Balances s → Balances (writer_take s)
  unfolding writer_take
  writer_take-Balances s v = take_next-Balances s s.in_flight refl v

  settle-Balances :
      (s : Sink Time) (held : Option Chunk) (outcome : Outcome) (now : Time)
      → s.in_flight ≡ held
      → Balances s
      → Balances (settle held outcome s now)
  unfolding settle after_write record_audible
  settle-Balances s none outcome now e v = v
  settle-Balances s (some c) outcome now e v =
      let empty = record s { in_flight = none } in
      let counted : (k : ℕ)
          → s.closed ≡ false
          → is_stopped s k ≡ false
          → s.pending k ≡ count k s.queue + 0 + one_if (c.generation_id == k) =
        λ k o n.
          let before =
            subst (λ h. s.pending k ≡ count k s.queue + in_hand k h) e (v.counted k o n) in
          omega (arith, before) in
      elim outcome as (λ o. Balances (settle (some c) o s now)) [
        | written ↦
            elim (Bool-cases
              (not (contains_key c.generation_id s.first_audible) && is_audible empty c)) [
                | inl h ↦ rw h (
                    release-Balances (record_audible empty c.generation_id now) c.generation_id
                      counted v.fenced v.bounded v.waking)
                | inr h ↦
                    rw h
                      (release-Balances empty c.generation_id counted v.fenced v.bounded v.waking)
              ]
        | failed ↦ release-Balances _ c.generation_id counted v.fenced v.bounded v.waking
        | cancelled ↦
            let b = release-Balances empty c.generation_id counted v.fenced v.bounded v.waking in
            record {
              counted = b.counted;
              fenced = b.fenced;
              bounded = b.bounded;
              waking = b.waking;
            }
      ]

  pub writer_done-Balances :
      (s : Sink Time) (outcome : Outcome) (now : Time)
      → Balances s
      → Balances (writer_done s outcome now)
  unfolding writer_done
  writer_done-Balances s outcome now v = settle-Balances s s.in_flight outcome now refl v

  pub drain-Balances :
      (s : Sink Time) (g : ℕ) (woken : Bool) → Balances s → Balances (drain s g woken).1
  unfolding drain
  drain-Balances s g woken v =
      elim (Bool-cases
        (is_stopped s g || (s.closed || (not woken && contains g s.failed_generations)))) [
          | inl h ↦ rw h v
          | inr h ↦ elim (Bool-cases (ltb 0 (s.pending g))) [
            | inl p ↦
                rw (h, p)
                  (record {
                    counted = v.counted;
                    fenced = v.fenced;
                    bounded = v.bounded;
                    waking = λ k i. ground (arith, v.waking k);
                  })
            | inr p ↦ rw (h, p) v
          ]
        ]

  settle-closed :
      (s : Sink Time) (held : Option Chunk) (now : Time)
      → (settle held cancelled s now).closed ≡ s.closed
  unfolding settle after_write release
  settle-closed s none now = refl
  settle-closed s (some c) now = refl

  shut-Balances : (s : Sink Time) (now : Time) → Balances s → Balances (shut s now)
  unfolding shut
  shut-Balances s now v =
      let closing : Sink Time = record s { closed = true } in
      let b = settle-Balances closing s.in_flight cancelled now refl (record {
        counted = λ g o n. cc;
        fenced = v.fenced;
        bounded = v.bounded;
        waking = v.waking;
      }) in
      record {
        counted = λ g o n. cc (settle-closed closing s.in_flight now, o);
        fenced = b.fenced;
        bounded = b.bounded;
        waking = λ g i. ground (arith, b.waking g);
      }

  pub close-Balances : (s : Sink Time) (now : Time) → Balances s → Balances (close s now)
  unfolding close
  close-Balances s now v = elim (Bool-cases s.closed) [
    | inl h ↦ subst (λ b. Balances (if b then s else shut s now)) (sym h) v
    | inr h ↦ subst (λ b. Balances (if b then s else shut s now)) (sym h) (shut-Balances s now v)
  ]
