-- ===== src/Audio/Vad/Policy/Runs.antt =====
-- Whole runs of the turn policy of audio/vad.py over contiguous windows.
use lune_voice_companion.Prelude.{
  ℕ, ◌<◌, ◌≡◌, refl, Bool, true, false, not, Option, none, some, List, [], ◌∷◌, ◌++◌, arith,
}
use lune_voice_companion.Result.{Result, ◌>>=◌, ok}
use lune_voice_companion.Audio.Vad.{
  TurnEvent, TurnEventKind, TurnPolicy, TurnPolicyConfig, turn_ended, new_policy, is_gap,
}
use lune_voice_companion.Audio.Vad.Policy.{
  Window, IsTimed, Follows, expected, feed_window, toggles, feed-eq-expected, feed-Follows,
  turn_active-feed, next_sample-feed, new_policy-Follows,
}

-- Every window is given to `feed` in turn; the first raise ends the run.
unfoldable pub run : TurnPolicy → List Window → Result (List TurnEvent)
run p [] = ok []
run p (w ∷ ws) = do
  events ← (feed_window p w).0
  later ← run (feed_window p w).1 ws
  ok (events ++ later)

module _ (idle barge silence : ℕ) where
  -- The same run, decided from the history alone.
  unfoldable pub expected_run : Bool → List Window → List Window → List TurnEvent
  expected_run active older [] = []
  expected_run active older (w ∷ ws) =
      let events = expected idle barge silence active w older in
      events ++ expected_run (toggles active events) (w ∷ older) ws

-- Each window is not empty and starts where the one before it stopped.
abbrev pub Contiguous : Option ℕ → List Window → Type 0
Contiguous next [] = Unit
Contiguous next (w ∷ ws) =
    (w.start < w.stop) × (is_gap next w.start ≡ false) × Contiguous (some w.stop) ws

run-from :
    {c : TurnPolicyConfig} {idle barge silence : ℕ} (t : IsTimed c idle barge silence)
    (p : TurnPolicy) (older ws : List Window)
    → Follows c p older
    → Contiguous p.next_sample ws
    → run p ws ≡ ok (expected_run idle barge silence p.turn_active older ws)
unfolding run expected_run
run-from t p older [] f k = refl
run-from {c} {idle} {barge} {silence} t p older (w ∷ ws) f k =
    let q = (feed_window p w).1 in
    let ih =
      run-from t q (w ∷ older) ws (feed-Follows t p w older f k.0 k.1)
        (rw (next_sample-feed t p w older f k.0 k.1) k.2) in
    rw (feed-eq-expected t p w older f k.0 k.1, ih, turn_active-feed t p w older f k.0 k.1)

-- On contiguous windows a new policy with exact thresholds never raises, and reports what a reader
-- of the whole history reports: a turn starts once the unbroken voiced run that reaches the newest
-- window has lasted the threshold for idle or for playback, and it ends once the unbroken silent
-- run has lasted the end silence.
pub run-eq-expected_run :
    (c : TurnPolicyConfig) (idle barge silence : ℕ) (ws : List Window)
    → IsTimed c idle barge silence
    → Contiguous none ws
    → run (new_policy c) ws ≡ ok (expected_run idle barge silence false [] ws)
unfolding new_policy
run-eq-expected_run c idle barge silence ws t k =
    run-from t (new_policy c) [] ws (new_policy-Follows c) k

abbrev pub is_end : TurnEventKind → Bool
is_end turn_ended = true
is_end _ = false

-- Starts and ends take turns; the flag says whether a turn is open.
abbrev pub Alternates : Bool → List TurnEvent → Type 0
Alternates open_turn [] = Unit
Alternates open_turn (e ∷ es) = (is_end e.kind ≡ open_turn) × Alternates (not open_turn) es

expected_run-Alternates :
    (idle barge silence : ℕ) (active : Bool) (older ws : List Window)
    → Alternates active (expected_run idle barge silence active older ws)
unfolding expected_run
expected_run-Alternates i b s active older [] = tt
expected_run-Alternates i b s true older (w ∷ ws) = ground (
  arith,
  expected_run-Alternates i b s true (w ∷ older) ws,
  expected_run-Alternates i b s false (w ∷ older) ws,
)
expected_run-Alternates i b s false older (w ∷ ws) = ground (
  arith,
  expected_run-Alternates i b s true (w ∷ older) ws,
  expected_run-Alternates i b s false (w ∷ older) ws,
)

-- On contiguous windows a new policy with exact thresholds reports starts and ends in turn, a start
-- first.
pub run-Alternates :
    (c : TurnPolicyConfig) (idle barge silence : ℕ) (ws : List Window) {es : List TurnEvent}
    → IsTimed c idle barge silence
    → Contiguous none ws
    → run (new_policy c) ws ≡ ok es
    → Alternates false es
run-Alternates c i b s ws {es} t k h =
    let same_events : expected_run i b s false [] ws ≡ es =
      cc (run-eq-expected_run c i b s ws t k) in
    rw same_events at (expected_run-Alternates i b s false [] ws)
