-- ===== src/Audio/Vad.antt =====
-- audio/vad.py: the sample-count turn policy. What was written before a raise stays written, so
-- the state comes back beside the error too.
pub mod Policy
use lune_voice_companion.Prelude.{
  ℕ, ◌+◌, Bool, true, false, not, Option, none, some, List, [], ◌∷◌, ltb, ◌==◌, if◌then◌else◌, ℤ,
  pos,
}
use lune_voice_companion.Result.{
  Result, ◌>>=◌, ◌>>◌, guard, natural, invalid_observation, observations_not_contiguous, ok, err,
}
use lune_voice_companion.Audio.Span.{milliseconds_to_samples}

pub data TurnEventKind : Type 0 where
  turn_started barge_in_confirmed turn_ended : TurnEventKind

pub record TurnEvent : Type 0 where
  pub kind : TurnEventKind
  pub at_sample : ℕ
  pub voice_onset_sample : Option ℕ

pub record TurnPolicyConfig : Type 0 where
  pub sample_rate : ℤ
  pub idle_start_ms : ℤ
  pub barge_in_ms : ℤ
  pub end_silence_ms : ℤ

abbrev pub default_policy_config : TurnPolicyConfig
default_policy_config = record {
  sample_rate = pos 16000;
  idle_start_ms = pos 100;
  barge_in_ms = pos 300;
  end_silence_ms = pos 350;
}

abbrev pub idle_start_samples : TurnPolicyConfig → Result ℕ
idle_start_samples c = milliseconds_to_samples c.idle_start_ms c.sample_rate

abbrev pub barge_in_samples : TurnPolicyConfig → Result ℕ
barge_in_samples c = milliseconds_to_samples c.barge_in_ms c.sample_rate

abbrev pub end_silence_samples : TurnPolicyConfig → Result ℕ
end_silence_samples c = milliseconds_to_samples c.end_silence_ms c.sample_rate

pub record TurnPolicy : Type 0 where
  pub config : TurnPolicyConfig
  pub next_sample : Option ℕ
  pub voice_onset : Option ℕ
  pub silence_onset : Option ℕ
  pub turn_active : Bool

unfoldable pub new_policy : TurnPolicyConfig → TurnPolicy
new_policy c = record {
  config = c;
  next_sample = none;
  voice_onset = none;
  silence_onset = none;
  turn_active = false;
}

unfoldable pub reset : TurnPolicy → TurnPolicy
reset p = record p {
  next_sample = none;
  voice_onset = none;
  silence_onset = none;
  turn_active = false;
}

abbrev pub onset_or : Option ℕ → ℕ → ℕ
onset_or none start = start
onset_or (some o) start = o

-- The end of `_feed_waiting`, once the threshold is known.
unfoldable pub confirm_start :
    TurnPolicy → ℕ → ℕ → Bool → Result ℕ → Result (List TurnEvent) × TurnPolicy
confirm_start p onset end_sample ai_playing (err e) = (err e, p)
confirm_start p onset end_sample ai_playing (ok threshold) =
    let confirmation = onset + threshold in
    if ltb end_sample confirmation then (ok [], p) else (
      ok (
          record {
            kind = if ai_playing then barge_in_confirmed else turn_started;
            at_sample = confirmation;
            voice_onset_sample = some onset;
          }
          ∷ []),
      record p { turn_active = true; silence_onset = none },
    )

unfoldable pub feed_waiting :
    TurnPolicy → ℕ → ℕ → Bool → Bool → Result (List TurnEvent) × TurnPolicy
unfolding confirm_start
feed_waiting p start_sample end_sample voiced ai_playing =
    if not voiced
    then (ok [], record p { voice_onset = none })
    else let onset = onset_or p.voice_onset start_sample in
      confirm_start (record p { voice_onset = some onset }) onset end_sample ai_playing
        (if ai_playing then barge_in_samples p.config else idle_start_samples p.config)

-- The end of `_feed_active`, once the threshold is known.
unfoldable pub confirm_end : TurnPolicy → ℕ → ℕ → Result ℕ → Result (List TurnEvent) × TurnPolicy
confirm_end p onset end_sample (err e) = (err e, p)
confirm_end p onset end_sample (ok threshold) =
    let confirmation = onset + threshold in
    if ltb end_sample confirmation then (ok [], p) else (
      ok (record { kind = turn_ended; at_sample = confirmation; voice_onset_sample = none } ∷ []),
      record p { turn_active = false; voice_onset = none; silence_onset = none },
    )

unfoldable pub feed_active : TurnPolicy → ℕ → ℕ → Bool → Result (List TurnEvent) × TurnPolicy
unfolding confirm_end
feed_active p start_sample end_sample voiced =
    if voiced
    then (ok [], record p { silence_onset = none })
    else let onset = onset_or p.silence_onset start_sample in
      confirm_end (record p { silence_onset = some onset }) onset end_sample
        (end_silence_samples p.config)

-- `self._next_sample is not None and start_sample != self._next_sample`
abbrev pub is_gap : Option ℕ → ℕ → Bool
is_gap none start = false
is_gap (some n) start = not (start == n)

abbrev observe : TurnPolicy → ℕ → ℕ → Bool → Bool → Result (List TurnEvent) × TurnPolicy
unfolding feed_waiting feed_active
observe p start_sample end_sample voiced ai_playing =
    let q = record p { next_sample = some end_sample } in
    if not p.turn_active
    then feed_waiting q start_sample end_sample voiced ai_playing
    else feed_active q start_sample end_sample voiced

-- A negative start is refused, and an end at or below the start.
abbrev pub in_order : ℤ → ℤ → Result (ℕ × ℕ)
in_order start_sample end_sample = do
  start ← natural start_sample invalid_observation
  stop ← natural end_sample invalid_observation
  guard (ltb start stop) invalid_observation
  ok (start, stop)

abbrev checked : TurnPolicy → Result (ℕ × ℕ) → Bool → Bool → Result (List TurnEvent) × TurnPolicy
checked p (err e) voiced ai_playing = (err e, p)
checked p (ok (start, stop)) voiced ai_playing =
    if is_gap p.next_sample start
    then (err observations_not_contiguous, p)
    else observe p start stop voiced ai_playing

unfoldable pub feed : TurnPolicy → ℤ → ℤ → Bool → Bool → Result (List TurnEvent) × TurnPolicy
unfolding feed_waiting feed_active
feed p start_sample end_sample voiced ai_playing =
    checked p (in_order start_sample end_sample) voiced ai_playing
