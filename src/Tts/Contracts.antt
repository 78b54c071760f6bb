-- ===== src/Tts/Contracts.antt =====
-- tts/contracts.py: the requests and the chunks that every backend shares. `str.isspace` is given
-- from outside.
use lune_voice_companion.Prelude.{
  ℕ, ◌*◌, ◌%◌, ◌^◌, Bool, false, not, ◌&&◌, ◌||◌, Option, List, [], ◌∷◌, ltb, leb, ◌==◌, length, ℤ,
}
use lune_voice_companion.Result.{
  Error, Result, guard, ◌>>=◌, ◌>>◌, natural, bad_request_id, generation_out_of_range, bad_text,
  bad_sample_rate, bad_channels, bad_pcm, ok,
}

pub data LanguageHint : Type 0 where
  zh en auto : LanguageHint

pub record TtsRequest : Type 0 where
  pub request_id : List ℕ
  pub generation_id : ℕ
  pub text : List ℕ
  pub language_hint : Option LanguageHint

pub record PcmChunk : Type 0 where
  pub generation_id : ℕ
  pub sample_rate : ℕ
  pub channels : ℕ
  pub pcm : List ℕ

-- Whether `text.strip()` has anything left.
abbrev pub has_text : (ℕ → Bool) → List ℕ → Bool
has_text is_space [] = false
has_text is_space (c ∷ cs) = let rest = has_text is_space cs in not (is_space c) || rest

abbrev pub in_range : ℤ → Error → Result ℕ
in_range generation_id e = do
  generation ← natural generation_id e
  guard (ltb generation (2 ^ 63)) e
  ok generation

unfoldable pub tts_request :
    (ℕ → Bool) → List ℕ → ℤ → List ℕ → Option LanguageHint → Result TtsRequest
tts_request is_space request_id generation_id text language_hint = do
  guard (ltb 0 (length request_id) && leb (length request_id) 128) bad_request_id
  generation ← in_range generation_id generation_out_of_range
  guard (has_text is_space text && leb (length text) 8000) bad_text
  ok (record {
    request_id = request_id;
    generation_id = generation;
    text = text;
    language_hint = language_hint;
  })

unfoldable pub pcm_chunk : ℤ → ℤ → ℤ → List ℕ → Result PcmChunk
pcm_chunk generation_id sample_rate channels pcm = do
  generation ← in_range generation_id generation_out_of_range
  rate ← natural sample_rate bad_sample_rate
  guard (leb 8000 rate && leb rate 192000) bad_sample_rate
  count ← natural channels bad_channels
  guard (leb 1 count && leb count 8) bad_channels
  guard (ltb 0 (length pcm) && length pcm % (2 * count) == 0) bad_pcm
  ok (record { generation_id = generation; sample_rate = rate; channels = count; pcm = pcm })
