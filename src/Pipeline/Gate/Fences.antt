-- ===== src/Pipeline/Gate/Fences.antt =====
-- The calls of pipeline/turn_gate.py from outside: audio in, and the two fences.
use lune_voice_companion.Prelude.{
  ℕ, ◌≤◌, ◌<◌, ◌≡◌, refl, Bool, true, false, none, some, [], arith, leb, ◌==◌, le→leb, ==_iff,
}
use lune_voice_companion.Result.{ok}
use lune_voice_companion.Audio.Span.{AudioSpan}
use lune_voice_companion.Audio.Span.Laws.{IsSpan, audio_span_ok}
use lune_voice_companion.Audio.Vad
use lune_voice_companion.Audio.Vad.{TurnPolicyConfig}
use lune_voice_companion.Audio.Preroll
use lune_voice_companion.Pipeline.Gate.{Gate, reset_generation, carry_over_generation}
use lune_voice_companion.Pipeline.Gate.Feed.{Detector, accept, accept_carried, feed_accepted, feed}
use lune_voice_companion.Pipeline.Gate.Ready.{IsReady, IsTuned}
use lune_voice_companion.Pipeline.Gate.Restarts.{fresh-IsReady, carried-IsReady}

module _ {D : Type 0} (detector : Detector D) (idle barge silence : ℕ) (c : TurnPolicyConfig)
    (tuned : IsTuned c idle barge silence (detector.frames_required)) where
  open detector use {frames_required, is_voiced}

  -- What a fence does to the gate: its generation is the one that is given, and the ring is empty.
  pub record IsMoved (generation : ℕ) (g' : Gate D) : Type 0 where
    pub is_ready : IsReady c barge frames_required g'
    pub fence : g'.generation_id ≡ generation
    pub no_ring : g'.pre_roll.spans ≡ []

  -- What a reset leaves: no carried generation, no window, no turn and no utterance.
  pub record IsReset (generation : ℕ) (g' : Gate D) : Type 0 where
    pub moved : IsMoved generation g'
    pub not_carried : g'.carried_generation ≡ none
    pub no_window : (g'.window ≡ []) × (g'.window_start ≡ none)
    pub no_turn :
        (g'.policy.turn_active ≡ false)
        × (g'.policy.voice_onset ≡ none)
        × (g'.policy.next_sample ≡ none)
    pub no_utterance : (g'.utterance ≡ []) × (g'.utterance_start ≡ none)

  -- What a carry-over leaves: the policy, the window and the utterance as they were.
  pub record IsCarried (generation : ℕ) (g g' : Gate D) : Type 0 where
    pub moved : IsMoved generation g'
    pub carried : g'.carried_generation ≡ some g.generation_id
    pub same_window : (g'.window ≡ g.window) × (g'.window_start ≡ g.window_start)
    pub same_policy : g'.policy ≡ g.policy
    pub same_utterance :
        (g'.utterance ≡ g.utterance)
        × (g'.utterance_start ≡ g.utterance_start)
        × (g'.utterance_end ≡ g.utterance_end)
        × (g'.pre_roll_truncated ≡ g.pre_roll_truncated)

  -- A reset of a ready gate to its own generation or a later one succeeds and leaves nothing behind of
  -- what was heard, and the gate ready. Nothing crosses its fence: a span of the gate's format and any
  -- other generation, fed to the gate next, reports nothing and changes nothing.
  pub reset_lem :
      (generation : ℕ) (g : Gate D) (s : AudioSpan) (ai : Bool)
      → IsReady c barge frames_required g
      → g.generation_id ≤ generation
      → s.sample_rate ≡ g.sample_rate
      → s.channels ≡ g.channels
      → (s.generation_id == generation) ≡ false
      → let out = reset_generation generation g in
        (out.0 ≡ ok tt) × IsReset generation out.1 × (feed detector s ai out.1 ≡ (ok [], out.1))
  unfolding reset_generation Vad.reset Preroll.clear feed accept accept_carried feed_accepted
  reset_lem generation g s ai r h rate count other =
      let e1 = (==_iff s.sample_rate g.sample_rate).1 rate in
      let e2 = (==_iff s.channels g.channels).1 count in
      rw (le→leb _ _ h) (
        refl,
        record {
          moved = record {
            is_ready =
                unfold Vad.reset Preroll.clear in
                fresh-IsReady c barge frames_required g none [] generation none g.discontinuities r
                  (λ h. elim h [ ]);
            fence = refl;
            no_ring = refl;
          };
          not_carried = refl;
          no_window = (refl, refl);
          no_turn = (refl, refl, refl);
          no_utterance = (refl, refl);
        },
        rw (e1, e2, other) refl,
      )

  -- A carry-over of a ready gate with an open turn to a later generation succeeds, keeps what was heard
  -- of the turn, and leaves the gate ready. The interrupting speech crosses the fence: a valid span of
  -- the gate's format and of the generation that the gate had, fed to the gate next, is taken in as
  -- the same audio of the new generation.
  pub carry_over_lem :
      (generation : ℕ) (g : Gate D) (s : AudioSpan) (ai : Bool)
      → IsReady c barge frames_required g
      → g.policy.turn_active ≡ true
      → g.generation_id < generation
      → IsSpan s
      → s.sample_rate ≡ g.sample_rate
      → s.channels ≡ g.channels
      → s.generation_id ≡ g.generation_id
      → let out = carry_over_generation generation g in
        (out.0 ≡ ok tt)
        × IsCarried generation g out.1
        × (feed detector s ai out.1
            ≡ feed_accepted detector (some (record s { generation_id = generation })) ai out.1)
  unfolding carry_over_generation Preroll.clear feed accept accept_carried
  carry_over_lem generation g s ai r active h v rate count own =
      let e1 = (==_iff s.sample_rate g.sample_rate).1 rate in
      let e2 = (==_iff s.channels g.channels).1 count in
      let up : leb g.generation_id generation ≡ true = ground arith in
      let later : (generation == g.generation_id) ≡ false = ground arith in
      let other : (s.generation_id == generation) ≡ false = ground arith in
      let same : (s.generation_id == g.generation_id) ≡ true = ground arith in
      let span =
        audio_span_ok s.pcm s.start_sample s.end_sample generation s.sample_rate s.channels
          v.ordered v.has_rate v.has_channels v.exact_length in
      rw (up, later)
        (
          refl,
          record {
            moved = record {
              is_ready = carried-IsReady c barge frames_required generation g r active;
              fence = refl;
              no_ring = refl;
            };
            carried = refl;
            same_window = (refl, refl);
            same_policy = refl;
            same_utterance = (refl, refl, refl, refl);
          },
          rw (e1, e2, other, same, span) refl,
        )
