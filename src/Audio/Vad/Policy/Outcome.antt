-- ===== src/Audio/Vad/Policy/Outcome.antt =====
-- The four things that one observation can do to the policy of audio/vad.py.
use lune_voice_companion.Prelude.{
  ℕ, ◌+◌, ◌≤◌, ◌<◌, ◌≡◌, ◌⊎◌, Bool, true, false, none, some, List, [], ◌∷◌, arith, if◌then◌else◌,
  pos,
}
use lune_voice_companion.Result.{Result, ok}
use lune_voice_companion.Audio.Vad.{
  TurnEvent, TurnPolicy, TurnPolicyConfig, turn_started, barge_in_confirmed, turn_ended, feed,
  onset_or, is_gap,
}
use lune_voice_companion.Audio.Vad.Policy.{IsTimed}

module _ (idle barge silence : ℕ) where
  abbrev pub threshold : Bool → ℕ
  threshold ai = if ai then barge else idle

  -- No turn is open and none is confirmed.
  pub record Waits (p q : TurnPolicy) (ws we : ℕ) (ai : Bool) (r : Result (List TurnEvent))
      : Type 0 where
    pub was_waiting : p.turn_active ≡ false
    pub result : r ≡ ok []
    pub is_waiting : q.turn_active ≡ false
    pub unconfirmed :
        (q.voice_onset ≡ none)
        ⊎ ((q.voice_onset ≡ some (onset_or p.voice_onset ws))
            × (we < onset_or p.voice_onset ws + threshold ai))

  -- A turn starts.
  pub record Begins (p q : TurnPolicy) (ws we : ℕ) (ai : Bool) (r : Result (List TurnEvent))
      : Type 0 where
    pub was_waiting : p.turn_active ≡ false
    pub result :
        r
        ≡ ok (
            record {
              kind = if ai then barge_in_confirmed else turn_started;
              at_sample = onset_or p.voice_onset ws + threshold ai;
              voice_onset_sample = some (onset_or p.voice_onset ws);
            }
            ∷ [])
    pub is_active : q.turn_active ≡ true
    pub confirmed : onset_or p.voice_onset ws + threshold ai ≤ we

  -- A turn goes on.
  pub record GoesOn (p q : TurnPolicy) (r : Result (List TurnEvent)) : Type 0 where
    pub was_active : p.turn_active ≡ true
    pub result : r ≡ ok []
    pub is_active : q.turn_active ≡ true

  -- A turn ends.
  pub record Ends (p q : TurnPolicy) (ws we : ℕ) (r : Result (List TurnEvent)) : Type 0 where
    pub was_active : p.turn_active ≡ true
    pub result :
        r
        ≡ ok (
            record {
              kind = turn_ended;
              at_sample = onset_or p.silence_onset ws + silence;
              voice_onset_sample = none;
            }
            ∷ [])
    pub is_waiting : q.turn_active ≡ false
    pub no_onset : q.voice_onset ≡ none
    pub confirmed : onset_or p.silence_onset ws + silence ≤ we

module _ {c : TurnPolicyConfig} {idle barge silence : ℕ} (t : IsTimed c idle barge silence)
    (p : TurnPolicy) (ws we : ℕ) (voiced ai : Bool) (same : p.config ≡ c) (ordered : ws < we)
    (adjacent : is_gap p.next_sample ws ≡ false) where
  abbrev after : Result (List TurnEvent) × TurnPolicy
  after = feed p (pos ws) (pos we) voiced ai

  pub feed_kept : (after.1.config ≡ c) × (after.1.next_sample ≡ some we)
  unfolding feed
  feed_kept = ground arith

  pub feed_waiting_cases :
      p.turn_active ≡ false
      → Waits idle barge silence p after.1 ws we ai after.0
        ⊎ Begins idle barge silence p after.1 ws we ai after.0
  unfolding feed
  feed_waiting_cases h = ground arith

  pub feed_active_cases :
      p.turn_active ≡ true
      → GoesOn idle barge silence p after.1 after.0
        ⊎ Ends idle barge silence p after.1 ws we after.0
  unfolding feed
  feed_active_cases h = ground arith
