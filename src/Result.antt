-- ===== src/Result.antt =====
-- Exceptions as values. An operation that may raise returns a `Result`; a constructor of `Error`
-- stands for one `raise` (or for several with the same type and message) of the source.
use lune_voice_companion.Prelude.{
  ℕ, ◌≡◌, refl, ◌⊎◌, inl, inr, Bool, true, false, ltb, ℤ, pos, negsuc,
}

pub data Error : Type 0 where
  -- audio/types.py
  bad_milliseconds inexact_threshold : Error
  invalid_sample_range negative_generation invalid_pcm_format pcm_length_mismatch : Error
  trim_outside_span slice_outside_span : Error
  -- audio/vad.py
  invalid_observation observations_not_contiguous : Error
  -- audio/preroll.py
  capacity_too_small format_changed spans_not_contiguous preroll_empty capture_outside : Error
  -- audio/transport.py
  invalid_transport_settings : Error
  -- pipeline/contracts.py
  cancel_must_advance negative_duration onset_after_confirmation : Error
  wrong_capture_generation empty_utterance last_voiced_outside : Error
  -- pipeline/turn_gate.py
  generation_backwards gate_needs_mono utterance_bound_too_small missing_onset assertion : Error
  -- pipeline/playback.py
  bad_playback_setting sink_closed : Error
  -- llm/
  naive_timestamp bad_token_bounds budget_locked wrong_attempt unknown_attempt sink_failed : Error
  bad_sentence_limit mixed_correlation : Error
  usage_negative usage_details_exceed completed_with_error : Error
  -- memory/proposals.py
  bad_proposal_id empty_memory bad_category bad_importance bad_delta empty_reason : Error
  -- memory/store.py
  bad_id bad_content bad_title store_closed duplicate_session : Error
  unknown_session_or_duplicate_turn : Error
  not_pending duplicate_message incomplete_turn unknown_or_ended_session unknown_thread : Error
  too_many_memories bad_limit summary_not_four summary_other_session summary_not_ordered : Error
  summary_not_continuous no_complete_turn affinity_other_session affinity_other_generation : Error
  bad_embedding missing_source_turn usage_recorded : Error
  -- memory/titles.py
  bad_title_bound task_cancelled : Error
  -- tts/
  backend_unavailable bad_request_id generation_out_of_range bad_text bad_sample_rate : Error
  bad_channels bad_pcm bad_threshold : Error
  control_frame_too_large pcm_frame_too_large empty_frame unknown_frame_kind : Error
  invalid_control_json protocol_version_mismatch unexpected_control_field : Error
  invalid_control_type unhashable_type invalid_request_id invalid_code invalid_text
        invalid_language_hint :
      Error
  invalid_python_version invalid_generation_id invalid_sequence invalid_pcm_frame : Error
  invalid_frame_length worker_eof truncated_frame struct_out_of_range : Error

pub data Result {ℓ} (Value : Type ℓ) : Type ℓ where
  err : Error → Result Value
  ok : Value → Result Value

abbrev pub is_ok {ℓ} : {A : Type ℓ} → Result A → Bool
is_ok (err e) = false
is_ok (ok a) = true

pub Result-cases {ℓ} :
    {A : Type ℓ} (r : Result A) → ((a : A) × (r ≡ ok a)) ⊎ ((e : Error) × (r ≡ err e))
Result-cases (err e) = inr (e, refl)
Result-cases (ok a) = inl (a, refl)

-- `if not b: raise e`
abbrev pub guard : Bool → Error → Result (Unit {0})
guard false raised = err raised
guard true raised = ok tt

-- A raise leaves the rest of the code undone.
module _ {ℓ κ} {A : Type ℓ} {B : Type κ} where
  infixl 5 ◌>>=◌
  abbrev pub ◌>>=◌ : Result A → (A → Result B) → Result B
  err raised >>= rest = err raised
  ok a >>= rest = rest a

module _ {κ} {B : Type κ} where
  infixl 5 ◌>>◌
  abbrev pub ◌>>◌ : Result (Unit {0}) → Result B → Result B
  first >> rest = first >>= (λ done. rest)

-- `if n < 0: raise e`
abbrev pub natural : ℤ → Error → Result ℕ
natural (pos n) raised = ok n
natural (negsuc n) raised = err raised

-- `if n <= 0: raise e`
abbrev pub positive : ℤ → Error → Result ℕ
positive (pos n) raised = do guard (ltb 0 n) raised; ok n
positive (negsuc n) raised = err raised

-- A block that succeeds: its first call did, and so did the rest with what that gave.
pub >>=-ok {ℓ κ} :
    {A : Type ℓ} {B : Type κ} (r : Result A) (rest : A → Result B) {b : B}
    → (r >>= rest) ≡ ok b
    → (a : A) × (r ≡ ok a) × (rest a ≡ ok b)
>>=-ok (err x) rest e = absurd (cc e)
>>=-ok (ok a) rest e = (a, refl, e)

pub guard-ok : (test : Bool) (x : Error) {u : Unit {0}} → guard test x ≡ ok u → test ≡ true
guard-ok true x e = refl
guard-ok false x e = cc e
