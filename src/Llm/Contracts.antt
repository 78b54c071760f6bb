-- ===== src/Llm/Contracts.antt =====
-- llm/contracts.py: the frames that a provider's stream carries. The payload of a function call is
-- only passed on, and is a number here.
use lune_voice_companion.Prelude.{
  ℕ, ◌+◌, Bool, true, false, not, ◌&&◌, ◌||◌, Option, none, some, leb, ℤ,
}
use lune_voice_companion.Result.{
  Result, guard, ◌>>=◌, ◌>>◌, natural, negative_generation, usage_negative, usage_details_exceed,
  completed_with_error, ok,
}
use lune_voice_companion.Llm.Budget.{AttemptUsage}
use lune_voice_companion.Llm.Sentences.{TextFrame}

pub data TerminalStatus : Type 0 where
  completed failed incomplete cancelled : TerminalStatus

pub data ProviderErrorCode : Type 0 where
  busy rate_limited connection_lost provider_error stream_incomplete : ProviderErrorCode
  attempt_cancelled : ProviderErrorCode

pub record FunctionCall : Type 0 where
  pub generation_id : ℕ
  pub attempt_id : ℕ
  pub call : ℕ

pub record UsageFrame : Type 0 where
  pub generation_id : ℕ
  pub usage : AttemptUsage

pub record TerminalFrame : Type 0 where
  pub generation_id : ℕ
  pub attempt_id : ℕ
  pub status : TerminalStatus
  pub transient : Bool
  pub error_code : Option ProviderErrorCode

pub data ProviderFrame : Type 0 where
  text_frame : TextFrame → ProviderFrame
  call_frame : FunctionCall → ProviderFrame
  usage_frame : UsageFrame → ProviderFrame
  terminal_frame : TerminalFrame → ProviderFrame

abbrev pub is_completed : TerminalStatus → Bool
is_completed completed = true
is_completed failed = false
is_completed incomplete = false
is_completed cancelled = false

abbrev pub is_given {ℓ} : {A : Type ℓ} → Option A → Bool
is_given none = false
is_given (some a) = true

-- The checks of `AttemptUsageFrame.__post_init__`.
unfoldable pub attempt_usage : ℤ → ℕ → ℤ → ℤ → ℤ → ℤ → Result UsageFrame
attempt_usage generation_id attempt_id input cached written output = do
  generation ← natural generation_id negative_generation
  input_tokens ← natural input usage_negative
  cached_tokens ← natural cached usage_negative
  written_tokens ← natural written usage_negative
  output_tokens ← natural output usage_negative
  guard (leb (cached_tokens + written_tokens) input_tokens) usage_details_exceed
  ok (record {
    generation_id = generation;
    usage = record {
      attempt_id = attempt_id;
      input_tokens = input_tokens;
      cached_input_tokens = cached_tokens;
      cache_write_input_tokens = written_tokens;
      output_tokens = output_tokens;
    };
  })

-- The checks of `ProviderTerminalFrame.__post_init__`.
unfoldable pub provider_terminal :
    ℤ → ℕ → TerminalStatus → Bool → Option ProviderErrorCode → Result TerminalFrame
provider_terminal generation_id attempt_id status transient error_code = do
  generation ← natural generation_id negative_generation
  guard (not (is_completed status && (transient || is_given error_code))) completed_with_error
  ok (record {
    generation_id = generation;
    attempt_id = attempt_id;
    status = status;
    transient = transient;
    error_code = error_code;
  })
