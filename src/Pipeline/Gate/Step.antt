-- ===== src/Pipeline/Gate/Step.antt =====
-- One round of the loop of pipeline/turn_gate.py never raises on a gate that is ready, and leaves
-- it ready for the next.
use lune_voice_companion.Prelude.{
  ℕ, ◌+◌, ◌*◌, ◌≤◌, ◌<◌, max, ◌≡◌, refl, sym, ap, ◌∙◌, ◌⊎◌, inl, inr, Bool, true, false, Option,
  none, some, List, [], ◌∷◌, ◌++◌, arith, if◌then◌else◌, le→leb, Option-cases, length, drop,
}
use lune_voice_companion.Result.{Result, ok}
use lune_voice_companion.Exec.{pure, ◌>>=◌}
use mathlib.Core.Path.{subst}
use mathlib.Core.Bool.{false≢true}
use lune_voice_companion.Audio.Span.{AudioSpan}
use lune_voice_companion.Audio.Vad
use lune_voice_companion.Audio.Vad.{
  TurnPolicy, TurnPolicyConfig, TurnEvent, onset_or, feed, end_silence_samples, turn_ended,
  turn_started, barge_in_confirmed,
}
use lune_voice_companion.Audio.Vad.Policy.Outcome.{Waits, Begins, GoesOn, Ends, threshold}
use lune_voice_companion.Audio.Preroll.{PreRollBuffer}
use lune_voice_companion.Audio.Preroll.Window.{
  window_start, is_known, captured as ring_capture, actual_start, capture_lem, captured-length,
}
use lune_voice_companion.Audio.Preroll.Append.{IsAppended}
use lune_voice_companion.Pipeline.Contracts.{started, captured, TurnGateEvent, turn_started_event}
use lune_voice_companion.Pipeline.Gate.{
  Gate, is_barge, resolve, resolve_all, grow, grow_from, open_utterance, close_utterance,
}
use lune_voice_companion.Pipeline.Gate.Feed.{Detector}
use lune_voice_companion.Pipeline.Gate.Utterance.{
  Holds, grow_lem, grown_to, extend_lem, build_lem, utterance_of,
}
use lune_voice_companion.Pipeline.Gate.Ready.{IsReady, OnTime, IsTuned}
use lune_voice_companion.Pipeline.Gate.Rounds.{
  taken, shifted, taken-IsSpan, gate_rate, gate_channels, onset_in_ring,
}

some_eq : (a b : ℕ) → some a ≡ some b → a ≡ b
some_eq a b h = ground arith

abbrev pub start_of : Bool → ℕ → ℕ → TurnEvent
start_of ai onset at = record {
  kind = if ai then barge_in_confirmed else turn_started;
  at_sample = at;
  voice_onset_sample = some onset;
}

resolve_start :
    {D : Type 0} (w : AudioSpan) (ai : Bool) (onset at : ℕ) (g : Gate D)
    → resolve w (start_of ai onset at) g ≡ open_utterance (start_of ai onset at) g
unfolding resolve
resolve_start w true onset at g = refl
resolve_start w false onset at g = refl

is_barge_of : (ai : Bool) → is_barge (if ai then barge_in_confirmed else turn_started) ≡ ai
is_barge_of true = refl
is_barge_of false = refl

threshold_pos :
    (idle barge silence : ℕ) (ai : Bool)
    → 0 < idle
    → idle ≤ barge
    → 0 < threshold idle barge silence ai
threshold_pos idle barge silence true h i = omega arith
threshold_pos idle barge silence false h i = h

reset_facts :
    (q : TurnPolicy)
    → ((Vad.reset q).config ≡ q.config)
      × ((Vad.reset q).next_sample ≡ none)
      × ((Vad.reset q).turn_active ≡ false)
      × ((Vad.reset q).voice_onset ≡ none)
unfolding Vad.reset
reset_facts q = (refl, refl, refl, refl)

module _ {D : Type 0} (detector : Detector D) (g : Gate D) (ws : ℕ) (ring : PreRollBuffer) where
  open detector use {frames_required, is_voiced}

  -- The gate once the window was heard, with a policy and an utterance.
  abbrev pub heard : TurnPolicy → List ℕ → Option ℕ → ℕ → Bool → Gate D
  heard policy bytes start stop truncated = record (shifted detector g ws) {
    pre_roll = ring;
    detector = (is_voiced g.detector (taken detector g ws)).1;
    policy = policy;
    utterance = bytes;
    utterance_start = start;
    utterance_end = stop;
    pre_roll_truncated = truncated;
  }

module _ {D : Type 0} (detector : Detector D) (g : Gate D) (ws idle barge silence : ℕ)
    (c : TurnPolicyConfig) (tuned : IsTuned c idle barge silence (detector.frames_required))
    (ready : IsReady c barge (detector.frames_required) g) (here : g.window_start ≡ some ws)
    (ring : PreRollBuffer) (appended : IsAppended g.pre_roll (taken detector g ws) ring)
    (enough : detector.frames_required * g.bytes_per_frame ≤ length g.window) where
  open detector use {frames_required, is_voiced}

  -- What a round leaves is ready if the policy and the utterance are in order.
  pub heard-IsReady :
      (p : TurnPolicy) (bytes : List ℕ) (start : Option ℕ) (stop : ℕ) (truncated : Bool)
      → p.config ≡ c
      → (p.next_sample ≡ none) ⊎ (p.next_sample ≡ some (ws + frames_required))
      → ((o : ℕ)
          → p.turn_active ≡ false
          → p.voice_onset ≡ some o
          → (window_start ring ≤ o) × (o ≤ ws + frames_required))
      → is_known start ≡ p.turn_active
      → ((u : ℕ)
          → start ≡ some u
          → Holds (heard detector g ws ring p bytes start stop truncated) u
            × (ws + frames_required ≡ stop))
      → IsReady c barge frames_required (heard detector g ws ring p bytes start stop truncated)
  heard-IsReady p bytes start stop truncated same step pending open_turn whole = record {
    ring = appended.ring;
    same_config = same;
    ring_rate = appended.same_rate ∙ ready.ring_rate;
    ring_channels = appended.same_channels ∙ ready.ring_channels;
    frame_bytes = ready.frame_bytes;
    room = omega (arith, ready.room, appended.same_capacity);
    bound = ready.bound;
    located = λ _. refl;
    in_step = step;
    ring_reaches = λ _. ap some (sym appended.ends);
    ring_fenced = λ _. appended.generation;
    pending = λ o a b.
        (appended.filled, (pending o a b).0, omega (arith, (pending o a b).1, appended.ends));
    utterance_open = open_turn;
    utterance_whole = λ u e. ((whole u e).0, ap some (whole u e).1);
  }

  -- A round that ends well: no raise, and the gate is ready for the next window.
  pub record IsDone (ai : Bool) (r : Result (List TurnGateEvent) × Gate D) : Type 0 where
    pub events : List TurnGateEvent
    pub result : r.0 ≡ ok events
    pub is_ready : IsReady c barge frames_required r.1
    pub on_time : OnTime idle barge silence r.1 ai
    pub rest : r.1.window ≡ drop (frames_required * g.bytes_per_frame) g.window
    pub moved : r.1.window_start ≡ some (ws + frames_required)
    pub same_frame : r.1.bytes_per_frame ≡ g.bytes_per_frame

  -- The part of a round behind the policy.
  abbrev pub tail : List TurnEvent → Gate D → Result (List TurnGateEvent) × Gate D
  tail turn_events h =
      (do
        events ← resolve_all (taken detector g ws) turn_events
        more ← grow (taken detector g ws) (ws + frames_required)
        pure (events ++ more))
        h

  abbrev pub kept : TurnPolicy → Gate D
  kept q =
      heard detector g ws ring q g.utterance g.utterance_start g.utterance_end g.pre_roll_truncated

  closed_start : g.policy.turn_active ≡ false → g.utterance_start ≡ none
  closed_start h = ground (arith, ready.utterance_open)

  open_start : g.policy.turn_active ≡ true → (u : ℕ) × (g.utterance_start ≡ some u)
  open_start h = elim (Option-cases g.utterance_start) [
    | inl n ↦ absurd (cc (n, ready.utterance_open, h))
    | inr s ↦ s
  ]

  -- A round is done if it is known what it returns.
  IsDone-of :
      (ai : Bool) (r : Result (List TurnGateEvent) × Gate D) (p : TurnPolicy)
      (events : List TurnGateEvent) (bytes : List ℕ) (start : Option ℕ) (stop : ℕ)
      (truncated : Bool)
      → r ≡ (ok events, heard detector g ws ring p bytes start stop truncated)
      → IsReady c barge frames_required (heard detector g ws ring p bytes start stop truncated)
      → ((o : ℕ)
          → p.turn_active ≡ false
          → p.voice_onset ≡ some o
          → ws + frames_required < o + threshold idle barge silence ai)
      → IsDone ai r
  IsDone-of ai r p events bytes start stop truncated e is_ready late =
      subst (λ r. IsDone ai r) (sym e)
        (record {
          events = events;
          result = refl;
          is_ready = is_ready;
          on_time = record { unconfirmed = λ o a b. omega (arith, late o a b, appended.ends) };
          rest = refl;
          moved = refl;
          same_frame = refl;
        })

  -- Nothing is pending and no utterance is open.
  idle-IsReady :
      (p : TurnPolicy)
      → p.config ≡ c
      → (p.next_sample ≡ none) ⊎ (p.next_sample ≡ some (ws + frames_required))
      → p.turn_active ≡ false
      → p.voice_onset ≡ none
      → (bytes : List ℕ) (stop : ℕ) (truncated : Bool)
      → IsReady c barge frames_required (heard detector g ws ring p bytes none stop truncated)
  idle-IsReady p same step waiting no_onset bytes stop truncated =
      heard-IsReady p bytes none stop truncated same step (λ o a b. cc) (sym waiting) (λ u e. cc)

  grow-none :
      (h : Gate D) (w : AudioSpan) (until : ℕ)
      → h.utterance_start ≡ none
      → grow w until h ≡ (ok [], h)
  unfolding grow
  grow-none h w until e = ap (λ o. grow_from o w until h) e

  module _ (q : TurnPolicy) (ai : Bool) (same : q.config ≡ c)
      (next : q.next_sample ≡ some (ws + frames_required)) where
    pub Waits-IsDone :
        (r : Result (List TurnEvent))
        → Waits idle barge silence g.policy q ws (ws + frames_required) ai r
        → OnTime idle barge silence g ai
        → IsDone ai (tail [] (kept q))
    unfolding resolve_all
    Waits-IsDone r w on_time =
        let n = closed_start w.was_waiting in
        let o_in =
          onset_in_ring detector g ws barge c ready here tuned.has_frames enough ai ring appended
            tuned.idle_first on_time w.was_waiting in
        IsDone-of ai (tail [] (kept q)) q [] g.utterance g.utterance_start g.utterance_end
          g.pre_roll_truncated
          (rw (grow-none (kept q) (taken detector g ws) (ws + frames_required) n))
          (heard-IsReady q g.utterance g.utterance_start g.utterance_end g.pre_roll_truncated same
            (inr next) (λ o a b. ground (arith, o_in, w.unconfirmed))
            (ready.utterance_open ∙ w.was_waiting ∙ sym w.is_waiting) (λ u e. cc))
          (λ o a b. ground (arith, w.unconfirmed))

    -- An open utterance grows by the window.
    grows-IsDone :
        (u : ℕ) (events : List TurnGateEvent) (bytes : List ℕ) (start : Option ℕ) (stop : ℕ)
        (truncated : Bool)
        → let h = heard detector g ws ring q bytes start stop truncated in
          Holds h u
          → ws ≤ stop
          → stop ≤ ws + frames_required
          → q.turn_active ≡ true
          → IsDone ai (
              (do more ← grow (taken detector g ws) (ws + frames_required); pure (events ++ more))
                h)
    grows-IsDone u events bytes start stop truncated holds lo hi active =
        let h = heard detector g ws ring q bytes start stop truncated in
        let we = ws + frames_required in
        let rate = gate_rate detector g ws barge c ready here tuned.has_frames enough in
        let count = gate_channels detector g ws barge c ready here tuned.has_frames enough in
        let span = taken-IsSpan detector g ws barge c ready here tuned.has_frames enough in
        let timed : end_silence_samples q.config ≡ ok silence =
          ap end_silence_samples same ∙ tuned.timed.silence_exact in
        let (longer, k, ends) =
          grow_lem h (taken detector g ws) u silence holds span refl lo hi rate count
            ready.frame_bytes ready.bound timed in
        elim ends [
          | inl e ↦
              IsDone-of ai _ q (events ++ []) longer start we truncated (rw e)
                (heard-IsReady q longer start we truncated same (inr next)
                  (λ o a b. absurd (false≢true (sym a ∙ active))) (rw holds.starts (sym active))
                  (λ u' e'. (
                    subst (λ n. Holds (grown_to h longer we) n)
                        (some_eq u u' (sym holds.starts ∙ e')) k,
                    refl,
                  )))
                (λ o a b. absurd (false≢true (sym a ∙ active)))
          | inr (ev, e) ↦
              let facts = reset_facts q in
              IsDone-of ai _ (Vad.reset q) (events ++ captured ev ∷ []) [] none 0 false (rw e)
                (idle-IsReady (Vad.reset q) (facts.0 ∙ same) (inl facts.1) facts.2 facts.3 [] 0
                  false)
                (λ o a b. cc (facts.3, b))
        ]

    pub goes-IsDone :
        (r : Result (List TurnEvent))
        → GoesOn idle barge silence g.policy q r
        → IsDone ai (tail [] (kept q))
    unfolding resolve_all
    goes-IsDone r w =
        let (u, e) = open_start w.was_active in
        let whole = ready.utterance_whole u e in
        let at : ws ≡ g.utterance_end = ground (arith, whole.1) in
        grows-IsDone u [] g.utterance g.utterance_start g.utterance_end g.pre_roll_truncated
          (record { starts = e; not_empty = whole.0.not_empty; bytes = whole.0.bytes })
          (omega arith) (omega arith) w.is_active

    pub Ends-IsDone :
        (r : Result (List TurnEvent))
        → Ends idle barge silence g.policy q ws (ws + frames_required) r
        → IsDone ai (
            tail
              (record {
                kind = turn_ended;
                at_sample = onset_or g.policy.silence_onset ws + silence;
                voice_onset_sample = none;
              }
                ∷ [])
              (kept q))
    unfolding resolve_all resolve close_utterance
    Ends-IsDone r w =
        let (u, e) = open_start w.was_active in
        let whole = ready.utterance_whole u e in
        let at_end : ws ≡ g.utterance_end = ground (arith, whole.1) in
        let at = onset_or g.policy.silence_onset ws + silence in
        let h = kept q in
        let rate = gate_rate detector g ws barge c ready here tuned.has_frames enough in
        let count = gate_channels detector g ws barge c ready here tuned.has_frames enough in
        let span = taken-IsSpan detector g ws barge c ready here tuned.has_frames enough in
        let timed : end_silence_samples q.config ≡ ok silence =
          ap end_silence_samples same ∙ tuned.timed.silence_exact in
        let holds : Holds h u = record {
          starts = e;
          not_empty = whole.0.not_empty;
          bytes = whole.0.bytes;
        } in
        let (bytes, x, k) =
          extend_lem h (taken detector g ws) at u holds span refl w.confirmed (omega arith) in
        let b =
          build_lem (record h { utterance = bytes; utterance_end = max g.utterance_end at }) u
            silence k rate count ready.frame_bytes ready.bound timed false in
        let gone =
          grow-none (heard detector g ws ring q [] none 0 false) (taken detector g ws)
            (ws + frames_required) refl in
        IsDone-of ai _ q
          (captured (
              utterance_of (record h { utterance = bytes; utterance_end = max g.utterance_end at })
                u silence k rate count ready.frame_bytes ready.bound timed false)
            ∷ [])
          [] none 0 false (rw (x, b, gone))
          (idle-IsReady q same (inr next) w.is_waiting w.no_onset [] 0 false)
          (λ o a n. cc (w.no_onset, n))

    -- A start opens the utterance with what the ring holds from the pre-roll on.
    open_lem :
        (o at : ℕ)
        → window_start ring ≤ o
        → o ≤ at
        → at ≤ ws + frames_required
        → open_utterance (start_of ai o at) (kept q) ≡ (
          ok (
              started (record {
                generation_id = g.generation_id;
                at_sample = at;
                voice_onset_sample = o;
                barge_in = ai;
              })),
          heard detector g ws ring q
              (ring_capture ring o at).audio.pcm
              (some (actual_start ring o))
              at
              (ring_capture ring o at).pre_roll_truncated,
        )
    unfolding open_utterance turn_started_event
    open_lem o at h i j =
        let c =
          capture_lem ring o at appended.ring appended.filled h i (omega (arith, appended.ends)) in
        rw (c, le→leb _ _ i, is_barge_of ai)

    pub Begins-IsDone :
        (r : Result (List TurnEvent))
        → Begins idle barge silence g.policy q ws (ws + frames_required) ai r
        → OnTime idle barge silence g ai
        → IsDone ai (
            tail
              (start_of ai
                  (onset_or g.policy.voice_onset ws)
                  (onset_or g.policy.voice_onset ws + threshold idle barge silence ai)
                ∷ [])
              (kept q))
    unfolding resolve_all
    Begins-IsDone r w on_time =
        let o = onset_or g.policy.voice_onset ws in
        let at = o + threshold idle barge silence ai in
        let inside =
          onset_in_ring detector g ws barge c ready here tuned.has_frames enough ai ring appended
            tuned.idle_first on_time w.was_waiting in
        let opened = open_lem o at inside.0 (omega arith) w.confirmed in
        let size =
          captured-length ring o at appended.ring inside.0 (omega arith)
            (omega (arith, appended.ends, w.confirmed)) in
        let count : ring.channels ≡ g.channels = appended.same_channels ∙ ready.ring_channels in
        let positive_threshold =
          threshold_pos idle barge silence ai tuned.idle_pos tuned.idle_first in
        let first = resolve_start (taken detector g ws) ai o at (kept q) ∙ opened in
        subst (λ x. IsDone ai x) (sym (rw first))
          (grows-IsDone (actual_start ring o)
            (started (record {
              generation_id = g.generation_id;
              at_sample = at;
              voice_onset_sample = o;
              barge_in = ai;
            })
              ∷ [])
            (ring_capture ring o at).audio.pcm (some (actual_start ring o)) at
            (ring_capture ring o at).pre_roll_truncated
            (record {
              starts = refl;
              not_empty = omega (arith, inside.0, positive_threshold);
              bytes = rw (← count) size;
            })
            inside.2 w.confirmed w.is_active)
