-- ===== src/Tts/Protocol/Decode.antt =====
-- tts/protocol.py: what the decoder makes of a frame's body.
use lune_voice_companion.Prelude.{
  ℕ, ◌+◌, ◌^◌, Bool, false, not, ◌&&◌, ◌||◌, Option, none, some, List, [], ◌∷◌, ltb, leb, ◌==◌,
  if◌then◌else◌, length, take, drop, same_text, pos,
}
use lune_voice_companion.Result.{
  Error, Result, guard, ◌>>=◌, ◌>>◌, control_frame_too_large, pcm_frame_too_large, empty_frame,
  unknown_frame_kind, invalid_control_json, protocol_version_mismatch, unexpected_control_field,
  invalid_control_type, unhashable_type, invalid_request_id, invalid_code, invalid_text,
  invalid_language_hint, invalid_python_version, invalid_generation_id, invalid_sequence,
  invalid_pcm_frame, err, ok,
}
use lune_voice_companion.Tts.Contracts.{pcm_chunk}
use lune_voice_companion.Tts.Protocol.{
  max_control_bytes, max_pcm_bytes, header_size, unpack_from, ControlType, ControlFrame, PcmFrame,
  WorkerFrame, Key, Value, key_code, type_name, ready, synthesize, cancel, finished, failed, close,
  control, audio, version_key, type_key, request_id_key, generation_id_key, sequence_key, code_key,
  text_key, language_hint_key, python_version_key, null, compound, boolean, float, integer, string,
}

-- value.get(key): `none` for a missing key, and for a null.
abbrev pub get : Key → List (Key × Value) → Option Value
get k [] = none
get k ((j, v) ∷ d) =
    let rest = get k d in
    if key_code j == key_code k then elim v [ null ↦ none | other ↦ some other ] else rest

abbrev pub has_other_key : List (Key × Value) → Bool
has_other_key [] = false
has_other_key ((j, v) ∷ d) = let rest = has_other_key d in key_code j == 9 || rest

-- `value == PROTOCOL_VERSION`
abbrev pub is_version : Option Value → Bool
is_version (some (integer (pos n))) = n == 1
is_version (some (boolean b)) = b
is_version (some (float b)) = b
is_version _ = false

abbrev pub first_named : List ControlType → List ℕ → Option ControlType
first_named [] name = none
first_named (t ∷ ts) name =
    let rest = first_named ts name in if same_text (type_name t) name then some t else rest

-- A list or an object has no hash, so that asking the set for it raises a TypeError.
abbrev pub type_of : Option Value → Result ControlType
type_of (some (string name)) =
    elim (first_named (ready ∷ synthesize ∷ cancel ∷ finished ∷ failed ∷ close ∷ []) name) [
      | some t ↦ ok t
      | none ↦ err invalid_control_type
    ]
type_of (some compound) = err unhashable_type
type_of _ = err invalid_control_type

abbrev pub optional_string : Option Value → ℕ → Error → Result (Option (List ℕ))
optional_string none maximum e = ok none
optional_string (some (string s)) maximum e = do
  guard (ltb 0 (length s) && leb (length s) maximum) e
  ok (some s)
optional_string (some _) maximum e = err e

abbrev pub optional_nonnegative_int : Option Value → Error → Result (Option ℕ)
optional_nonnegative_int none e = ok none
optional_nonnegative_int (some (integer (pos n))) e = do guard (ltb n (2 ^ 63)) e; ok (some n)
optional_nonnegative_int (some _) e = err e

unfoldable pub decode_object : List (Key × Value) → Result ControlFrame
decode_object d = do
  guard (is_version (get version_key d)) protocol_version_mismatch
  guard (not (has_other_key d)) unexpected_control_field
  frame_type ← type_of (get type_key d)
  request_id ← optional_string (get request_id_key d) 128 invalid_request_id
  code ← optional_string (get code_key d) 64 invalid_code
  text ← optional_string (get text_key d) 8000 invalid_text
  language_hint ← optional_string (get language_hint_key d) 16 invalid_language_hint
  python_version ← optional_string (get python_version_key d) 32 invalid_python_version
  generation_id ← optional_nonnegative_int (get generation_id_key d) invalid_generation_id
  sequence ← optional_nonnegative_int (get sequence_key d) invalid_sequence
  ok (record {
    frame_type = frame_type;
    request_id = request_id;
    generation_id = generation_id;
    sequence = sequence;
    code = code;
    text = text;
    language_hint = language_hint;
    python_version = python_version;
  })

-- What `json.loads` gives: no JSON, an object, or another value.
pub data Loaded : Type 0 where
  undecodable not_an_object : Loaded
  object : List (Key × Value) → Loaded

unfoldable pub decode_control : Loaded → Result ControlFrame
unfolding decode_object
decode_control undecodable = err invalid_control_json
decode_control not_an_object = err protocol_version_mismatch
decode_control (object d) = decode_object d

-- `invalid_pcm_frame` for whatever the chunk's own validation raises.
abbrev pub rename_error {ℓ} : {A : Type ℓ} → Result A → Error → Result A
rename_error (ok a) e = ok a
rename_error (err x) e = err e

unfoldable pub decode_pcm : List ℕ → Result PcmFrame
decode_pcm bytes = do
  guard (ltb header_size (length bytes)) invalid_pcm_frame
  let generation = unpack_from 0 (take 8 bytes)
  let sequence = unpack_from 0 (take 4 (drop 8 bytes))
  let rate = unpack_from 0 (take 4 (drop 12 bytes))
  let channels = unpack_from 0 (take 2 (drop 16 bytes))
  chunk ←
      rename_error (pcm_chunk (pos generation) (pos rate) (pos channels) (drop 18 bytes))
        invalid_pcm_frame
  ok (record { sequence = sequence; chunk = chunk })

module _ (loads : List ℕ → Loaded) where
  unfoldable pub decode_body : List ℕ → Result WorkerFrame
  unfolding decode_control decode_pcm
  decode_body [] = err empty_frame
  decode_body (kind ∷ rest) =
      if kind == 1
      then (do
        guard (leb (length rest) max_control_bytes) control_frame_too_large
        f ← decode_control (loads rest)
        ok (control f))
      else if kind == 2
      then (do
        guard (leb (length rest) (max_pcm_bytes + header_size)) pcm_frame_too_large
        f ← decode_pcm rest
        ok (audio f))
      else err unknown_frame_kind
