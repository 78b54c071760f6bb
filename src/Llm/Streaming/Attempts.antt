-- ===== src/Llm/Streaming/Attempts.antt =====
-- What holds of an attempt of llm/streaming.py while its stream is consumed.
use lune_voice_companion.Prelude.{
  ℕ, suc, ◌+◌, ◌≡◌, refl, sym, ap, ◌∙◌, ◌⊎◌, inl, inr, Bool, true, false, ◌&&◌, ◌||◌, Option, none,
  some, List, [], ◌∷◌, ◌++◌, arith, ltb, ◌==◌, if◌then◌else◌, Bool-cases, length, All,
}
use lune_voice_companion.Result.{Result, ok}
use lune_voice_companion.Llm.Budget.{AttemptUsage, belongs_elsewhere}
use lune_voice_companion.Llm.Sentences.{Gate, TextFrame, check_correlation}
use lune_voice_companion.Llm.Sentences.Release.{IsGate, feed-Releases}
use lune_voice_companion.Llm.Sentences.Flushing.{IsOf, feed-correlation}
use lune_voice_companion.Llm.Contracts.{
  TerminalFrame, ProviderFrame, text_frame, call_frame, usage_frame, terminal_frame,
}
use lune_voice_companion.Llm.Streaming.{
  Attempt, Stop, superseded, limit_reached, belongs_to, drain_usage, text_frames, emit_all,
  is_some_frame, receive, take_frame, feed_text, unless_ended, consume,
}

-- The text frames among what was emitted.
abbrev pub sentences : List ProviderFrame → ℕ
sentences [] = 0
sentences (text_frame f ∷ fs) = suc (sentences fs)
sentences (call_frame f ∷ fs) = sentences fs
sentences (usage_frame f ∷ fs) = sentences fs
sentences (terminal_frame f ∷ fs) = sentences fs

pub sentences-append : (a b : List ProviderFrame) → sentences (a ++ b) ≡ sentences a + sentences b
sentences-append [] b = omega arith
sentences-append (text_frame f ∷ fs) b = omega (arith, sentences-append fs b)
sentences-append (call_frame f ∷ fs) b = sentences-append fs b
sentences-append (usage_frame f ∷ fs) b = sentences-append fs b
sentences-append (terminal_frame f ∷ fs) b = sentences-append fs b

pub sentences-text_frames : (fs : List TextFrame) → sentences (text_frames fs) ≡ length fs
sentences-text_frames [] = refl
sentences-text_frames (f ∷ fs) = omega (arith, sentences-text_frames fs)

-- A frame of this generation and this attempt.
abbrev pub Fenced : ℕ → ℕ → ProviderFrame → Type 0
Fenced generation attempt f = belongs_to f generation attempt ≡ true

pub All-append {ℓ κ} :
    {A : Type ℓ} (P : A → Type κ) (a b : List A) → All P a → All P b → All P (a ++ b)
All-append P [] b h k = k
All-append P (x ∷ a) b h k = (h.0, All-append P a b h.1 k)

pub IsOf-Fenced :
    (generation attempt : ℕ) (fs : List TextFrame)
    → All (IsOf (generation, attempt)) fs
    → All (Fenced generation attempt) (text_frames fs)
IsOf-Fenced generation attempt [] h = tt
IsOf-Fenced generation attempt (f ∷ fs) h =
    (ground (arith, h.0.0, h.0.1), IsOf-Fenced generation attempt fs h.1)

pub record IsAttempt (generation attempt : ℕ) (s : Attempt) : Type 0 where
  pub is_gate : IsGate s.gate
  pub maximum : s.gate.max_sentences ≡ 3
  pub own_usage : belongs_elsewhere attempt s.usage ≡ false
  pub counted : sentences s.emitted ≡ s.gate.released
  pub started : s.playback_started ≡ ltb 0 s.gate.released
  pub fenced : All (Fenced generation attempt) s.emitted
  pub correlation :
      ((s.gate.correlation ≡ none) × (s.gate.buffer ≡ []))
      ⊎ (s.gate.correlation ≡ some (generation, attempt))

pub started_lem :
    (n : ℕ) (fs : List TextFrame) → (ltb 0 n || is_some_frame fs) ≡ ltb 0 (n + length fs)
started_lem n [] = ground arith
started_lem n (f ∷ fs) = ground arith

pub drain_usage-own :
    (fs : List ProviderFrame) (generation attempt : ℕ) (current : Option AttemptUsage)
    → belongs_elsewhere attempt current ≡ false
    → belongs_elsewhere attempt (drain_usage fs generation attempt current) ≡ false
unfolding drain_usage
drain_usage-own [] generation attempt current h = h
drain_usage-own (text_frame f ∷ fs) generation attempt current h =
    drain_usage-own fs generation attempt current h
drain_usage-own (call_frame f ∷ fs) generation attempt current h =
    drain_usage-own fs generation attempt current h
drain_usage-own (terminal_frame f ∷ fs) generation attempt current h =
    drain_usage-own fs generation attempt current h
drain_usage-own (usage_frame f ∷ fs) generation attempt current h =
    drain_usage-own fs generation attempt _ (ground (arith, h))

own_ids :
    (a generation b attempt : ℕ)
    → (a == generation && b == attempt) ≡ true
    → (a ≡ generation) × (b ≡ attempt)
own_ids a generation b attempt h = (ground (arith, h), ground (arith, h))

check_correlation-own :
    (g : Gate) (piece : TextFrame) (generation attempt : ℕ)
    → (g.correlation ≡ none) ⊎ (g.correlation ≡ some (generation, attempt))
    → belongs_to (text_frame piece) generation attempt ≡ true
    → check_correlation g piece ≡ ok (generation, attempt)
unfolding check_correlation
check_correlation-own g piece generation attempt (inl h) b =
    let ids = own_ids piece.generation_id generation piece.attempt_id attempt b in
    simp (check_correlation, h, ids.0, ids.1)
check_correlation-own g piece generation attempt (inr h) b = simp (check_correlation, h, b)

module _ (is_space is_digit : ℕ → Bool) (generation attempt : ℕ) where
  -- What the loop's body makes of an attempt that goes on.
  unfoldable pub Continues : Result (Option Stop × Attempt) → Type 0
  Continues r =
      (stop : Option Stop) × (s : Attempt) × (r ≡ ok (stop, s))
      × IsAttempt generation attempt s
      × (stop ≡ none → s.gate.limited ≡ false)

  unless_ended-Continues :
      (t : Option TerminalFrame) (s : Attempt) (taken : Result (Option Stop × Attempt))
      → IsAttempt generation attempt s
      → s.gate.limited ≡ false
      → Continues taken
      → Continues (unless_ended t s taken)
  unfolding Continues
  unless_ended-Continues none s taken v o c = c
  unless_ended-Continues (some t) s taken v o c = (none, s, refl, v, λ _. o)

  feed_text-Continues :
      (s : Attempt) (f : TextFrame)
      → IsAttempt generation attempt s
      → s.gate.limited ≡ false
      → belongs_to (text_frame f) generation attempt ≡ true
      → Continues (feed_text is_space is_digit s f)
  unfolding feed_text Continues
  feed_text-Continues s f v o b =
      let either : (s.gate.correlation ≡ none) ⊎ (s.gate.correlation ≡ some (generation, attempt)) =
        elim v.correlation [ inl p ↦ inl p.0 | inr p ↦ inr p ] in
      let own = check_correlation-own s.gate f generation attempt either b in
      let (frames, g', fed, rel) =
        feed-Releases is_space is_digit s.gate f (generation, attempt) v.is_gate o own in
      let correlated = feed-correlation is_space is_digit s.gate f (generation, attempt) o own in
      let next : Attempt = emit_all frames (record s { gate = g' }) in
      (
        if g'.limited then some limit_reached else none,
        next,
        simp fed,
        record {
          is_gate = rel.is_gate;
          maximum = rel.same_maximum ∙ v.maximum;
          own_usage = v.own_usage;
          counted = omega (
            arith,
            sentences-append s.emitted (text_frames frames),
            sentences-text_frames frames,
            v.counted,
            rel.counted,
          );
          started = simp (v.started, rel.counted, started_lem s.gate.released frames);
          fenced =
              All-append (Fenced generation attempt) s.emitted (text_frames frames) v.fenced
                (IsOf-Fenced generation attempt frames rel.fenced);
          correlation = inr (sym (ap (λ r. r.1.correlation) fed) ∙ correlated);
        },
        λ e. ground (arith, e),
      )

  take_frame-Continues :
      (s : Attempt) (f : ProviderFrame)
      → IsAttempt generation attempt s
      → s.gate.limited ≡ false
      → belongs_to f generation attempt ≡ true
      → Continues (take_frame is_space is_digit s f)
  unfolding take_frame Continues
  take_frame-Continues s (text_frame f) v o b =
      unless_ended-Continues s.terminal s _ v o (feed_text-Continues s f v o b)
  take_frame-Continues s (call_frame f) v o b = unless_ended-Continues s.terminal s _ v o (
    none,
    _,
    refl,
    record {
      is_gate = v.is_gate;
      maximum = v.maximum;
      own_usage = v.own_usage;
      counted = omega (arith, sentences-append s.emitted (call_frame f ∷ []), v.counted);
      started = v.started;
      fenced =
          All-append (Fenced generation attempt) s.emitted (call_frame f ∷ []) v.fenced (b, tt);
      correlation = v.correlation;
    },
    λ _. o,
  )
  take_frame-Continues s (usage_frame f) v o b = (
    none,
    record s { usage = some f.usage },
    refl,
    record {
      is_gate = v.is_gate;
      maximum = v.maximum;
      own_usage = ground (arith, b);
      counted = v.counted;
      started = v.started;
      fenced = v.fenced;
      correlation = v.correlation;
    },
    λ _. o,
  )
  take_frame-Continues s (terminal_frame f) v o b = unless_ended-Continues s.terminal s _ v o (
    none,
    record s { terminal = some f },
    refl,
    record {
      is_gate = v.is_gate;
      maximum = v.maximum;
      own_usage = v.own_usage;
      counted = v.counted;
      started = v.started;
      fenced = v.fenced;
      correlation = v.correlation;
    },
    λ _. o,
  )

  receive-Continues :
      (s : Attempt) (current : ℕ) (f : ProviderFrame)
      → IsAttempt generation attempt s
      → s.gate.limited ≡ false
      → Continues (receive is_space is_digit generation attempt s current f)
  unfolding receive Continues
  receive-Continues s current f v o = elim (Bool-cases (belongs_to f generation attempt)) [
    | inr b ↦ rw b (none, s, refl, v, λ _. o)
    | inl b ↦ elim (Bool-cases (current == generation)) [
      | inr c ↦ rw (b, c) (some superseded, s, refl, v, λ e. cc)
      | inl c ↦ rw (b, c) (take_frame-Continues s f v o b)
    ]
  ]

  consume-next :
      (stop : Option Stop) (next : Attempt) (rest : Result (Option Stop × Attempt))
      → IsAttempt generation attempt next
      → (stop ≡ none → next.gate.limited ≡ false)
      → (stop ≡ none → Continues rest)
      → Continues (elim stop as (λ _. Result (Option Stop × Attempt)) [
        | some why ↦ ok (some why, next)
        | none ↦ rest
      ])
  unfolding Continues
  consume-next (some why) next rest v o r = (some why, next, refl, v, o)
  consume-next none next rest v o r = r refl

  -- The loop does not raise, and leaves an attempt as it should be.
  pub consume-Continues :
      (fs : List (ℕ × ProviderFrame)) (s : Attempt)
      → IsAttempt generation attempt s
      → s.gate.limited ≡ false
      → Continues (consume is_space is_digit generation attempt s fs)
  unfolding consume Continues
  consume-Continues [] s v o = (none, s, refl, v, λ _. o)
  consume-Continues ((current, f) ∷ fs) s v o =
      let (stop, next, received, v', o') = receive-Continues s current f v o in
      rw received (consume-next stop next _ v' o' (λ e. consume-Continues fs next v' (o' e)))
