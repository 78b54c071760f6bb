-- ===== src/Audio/Vad/Policy.antt =====
-- The turn policy of audio/vad.py against the history of what it was fed: the policy keeps three
-- numbers, and decides as one that reads the whole history would.
pub mod Runs
pub mod Outcome
use lune_voice_companion.Prelude.{
  ℕ, ◌+◌, ◌-◌, ◌<◌, ◌≡◌, Bool, true, false, not, Option, none, some, List, [], ◌∷◌, arith, ltb,
  if◌then◌else◌, pos,
}
use lune_voice_companion.Result.{Result, ok}
use lune_voice_companion.Audio.Vad.{
  TurnEvent, TurnPolicy, TurnPolicyConfig, turn_started, barge_in_confirmed, turn_ended, feed,
  reset, new_policy, idle_start_samples, barge_in_samples, end_silence_samples, onset_or, is_gap,
}

-- One observation, as the detector and the playback state gave it.
pub record Window : Type 0 where
  pub start : ℕ
  pub stop : ℕ
  pub voiced : Bool
  pub ai_playing : Bool

abbrev pub same : Bool → Bool → Bool
same true b = b
same false b = not b

-- Where the unbroken run of windows with this flag began that reaches to the newest window. The
-- history has its newest window first.
abbrev pub run_start : Bool → List Window → Option ℕ
run_start flag [] = none
run_start flag (w ∷ older) =
    if same flag w.voiced then some (onset_or (run_start flag older) w.start) else none

-- The three thresholds of a configuration, in samples.
pub record IsTimed (c : TurnPolicyConfig) (idle barge silence : ℕ) : Type 0 where
  pub idle_exact : idle_start_samples c ≡ ok idle
  pub barge_exact : barge_in_samples c ≡ ok barge
  pub silence_exact : end_silence_samples c ≡ ok silence

abbrev start_event : Bool → ℕ → ℕ → TurnEvent
start_event ai onset at = record {
  kind = if ai then barge_in_confirmed else turn_started;
  at_sample = at;
  voice_onset_sample = some onset;
}

abbrev end_event : ℕ → TurnEvent
end_event at = record { kind = turn_ended; at_sample = at; voice_onset_sample = none }

-- A decision from a run: confirmed once it has lasted the threshold.
abbrev lasted : Option ℕ → ℕ → ℕ → (ℕ → ℕ → TurnEvent) → List TurnEvent
lasted none threshold stop event = []
lasted (some onset) threshold stop event =
    if ltb stop (onset + threshold) then [] else event onset (onset + threshold) ∷ []

module _ (idle barge silence : ℕ) where
  -- What a policy that reads the whole history reports on its newest window.
  abbrev pub expected : Bool → Window → List Window → List TurnEvent
  expected false w older =
      lasted (run_start true (w ∷ older)) (if w.ai_playing then barge else idle) w.stop
        (λ onset at. start_event w.ai_playing onset at)
  expected true w older = lasted (run_start false (w ∷ older)) silence w.stop (λ _ at. end_event at)

-- What the policy remembers of the history.
pub record Follows (c : TurnPolicyConfig) (p : TurnPolicy) (history : List Window) : Type 0 where
  pub same_config : p.config ≡ c
  pub waiting : p.turn_active ≡ false → p.voice_onset ≡ run_start true history
  pub active : p.turn_active ≡ true → p.silence_onset ≡ run_start false history

pub new_policy-Follows : (c : TurnPolicyConfig) → Follows c (new_policy c) []
unfolding new_policy
new_policy-Follows c = ground arith

pub reset-Follows : (c : TurnPolicyConfig) (p : TurnPolicy) → p.config ≡ c → Follows c (reset p) []
unfolding reset
reset-Follows c p h = ground arith

abbrev pub feed_window : TurnPolicy → Window → Result (List TurnEvent) × TurnPolicy
feed_window p w = feed p (pos w.start) (pos w.stop) w.voiced w.ai_playing

-- Whether a list of events leaves a turn open.
abbrev pub toggles : Bool → List TurnEvent → Bool
toggles b [] = b
toggles b (_ ∷ _) = not b

module _ {c : TurnPolicyConfig} {idle barge silence : ℕ} (t : IsTimed c idle barge silence)
    (p : TurnPolicy) (w : Window) (older : List Window) (f : Follows c p older)
    (ordered : w.start < w.stop) (adjacent : is_gap p.next_sample w.start ≡ false) where
  pub feed-eq-expected :
      (feed_window p w).0 ≡ ok (expected idle barge silence p.turn_active w older)
  unfolding feed
  feed-eq-expected = ground arith

  pub feed-Follows : Follows c (feed_window p w).1 (w ∷ older)
  unfolding feed
  feed-Follows = ground arith

  pub turn_active-feed :
      (feed_window p w).1.turn_active
      ≡ toggles p.turn_active (expected idle barge silence p.turn_active w older)
  unfolding feed
  turn_active-feed = ground arith

  pub next_sample-feed : (feed_window p w).1.next_sample ≡ some w.stop
  unfolding feed
  next_sample-feed = ground arith
