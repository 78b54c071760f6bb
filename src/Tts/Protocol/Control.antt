-- ===== src/Tts/Protocol/Control.antt =====
-- Control frames of tts/protocol.py come back from their bytes.
use lune_voice_companion.Prelude.{
  ℕ, ◌^◌, ◌≤◌, ◌<◌, ◌≡◌, refl, ◌≢◌, false, Option, none, some, List, [], ◌∷◌, arith, leb, ◌==◌,
  if◌then◌else◌, lt→ltb, leb→le, length,
}
use lune_voice_companion.Result.{
  Error, guard, >>=-ok, guard-ok, control_frame_too_large, invalid_request_id, invalid_code,
  invalid_text, invalid_language_hint, invalid_python_version, invalid_generation_id,
  invalid_sequence, ok,
}
use lune_voice_companion.Tts.Protocol.{
  ControlType, ready, synthesize, cancel, finished, failed, close, ControlFrame, control, Key,
  Value, null, string, request_id_key, generation_id_key, sequence_key, code_key, text_key,
  language_hint_key, python_version_key, key_code, type_name, text_value, int_value, collect,
  optional_fields, payload, encode_control, framed, max_control_bytes, max_frame_bytes,
}
use lune_voice_companion.Tts.Protocol.Decode.{
  Loaded, object, get, has_other_key, type_of, optional_string, optional_nonnegative_int,
  decode_object, decode_control, decode_body,
}

-- What `get` finds among the optional fields.
abbrev find : Key → List (Key × Option Value) → Option Value
find k [] = none
find k ((j, o) ∷ fields) =
    let rest = find k fields in
    if key_code j == key_code k
    then elim o [ none ↦ rest | some null ↦ none | some v ↦ some v ]
    else rest

get-collect :
    (k : Key) (fields : List (Key × Option Value)) → get k (collect fields) ≡ find k fields
get-collect k [] = refl
get-collect k ((j, none) ∷ fields) = ground (arith, get-collect k fields)
get-collect k ((j, some v) ∷ fields) = rw (get-collect k fields) refl

abbrev NoOther : List (Key × Option Value) → Type 0
NoOther [] = Unit
NoOther ((j, o) ∷ fields) = (key_code j ≢ 9) × NoOther fields

has_other_key-collect :
    (fields : List (Key × Option Value)) → NoOther fields → has_other_key (collect fields) ≡ false
has_other_key-collect [] h = refl
has_other_key-collect ((j, none) ∷ fields) h = has_other_key-collect fields h.1
has_other_key-collect ((j, some v) ∷ fields) h =
    ground (arith, h.0, has_other_key-collect fields h.1)

abbrev FitsText : Option (List ℕ) → ℕ → Type 0
FitsText none maximum = Unit
FitsText (some s) maximum = (0 < length s) × (length s ≤ maximum)

abbrev FitsInt : Option ℕ → Type 0
FitsInt none = Unit
FitsInt (some n) = n < 2 ^ 63

-- The fields of a frame are within the bounds that the decoder asks for.
pub record IsControl (f : ControlFrame) : Type 0 where
  pub request_id : FitsText f.request_id 128
  pub code : FitsText f.code 64
  pub text : FitsText f.text 8000
  pub language_hint : FitsText f.language_hint 16
  pub python_version : FitsText f.python_version 32
  pub generation_id : FitsInt f.generation_id
  pub sequence : FitsInt f.sequence

-- What `find` gives for a field that is there once.
abbrev found : Option Value → Option Value
found o = elim o [ none ↦ none | some null ↦ none | some v ↦ some v ]

optional_string-found :
    (s : Option (List ℕ)) (maximum : ℕ) (e : Error)
    → FitsText s maximum
    → optional_string (found (text_value s)) maximum e ≡ ok s
optional_string-found none maximum e h = refl
optional_string-found (some s) maximum e h = ground (arith, h.0, h.1)

optional_int-found :
    (n : Option ℕ) (e : Error) → FitsInt n → optional_nonnegative_int (found (int_value n)) e ≡ ok n
optional_int-found none e h = refl
optional_int-found (some n) e h = rw (lt→ltb n (2 ^ 63) h) refl

type_of-type_name : (t : ControlType) → type_of (some (string (type_name t))) ≡ ok t
type_of-type_name ready = refl
type_of-type_name synthesize = refl
type_of-type_name cancel = refl
type_of-type_name finished = refl
type_of-type_name failed = refl
type_of-type_name close = refl

decode_object-payload : (f : ControlFrame) → IsControl f → decode_object (payload f) ≡ ok f
unfolding decode_object payload
decode_object-payload f v =
    let fields = optional_fields f in
    rw
      (
        has_other_key-collect fields (omega arith),
        type_of-type_name f.frame_type,
        get-collect request_id_key fields,
        optional_string-found f.request_id 128 invalid_request_id v.request_id,
        get-collect code_key fields,
        optional_string-found f.code 64 invalid_code v.code,
        get-collect text_key fields,
        optional_string-found f.text 8000 invalid_text v.text,
        get-collect language_hint_key fields,
        optional_string-found f.language_hint 16 invalid_language_hint v.language_hint,
        get-collect python_version_key fields,
        optional_string-found f.python_version 32 invalid_python_version v.python_version,
        get-collect generation_id_key fields,
        optional_int-found f.generation_id invalid_generation_id v.generation_id,
        get-collect sequence_key fields,
        optional_int-found f.sequence invalid_sequence v.sequence,
      )
      refl

module _ (dumps : List (Key × Value) → List ℕ) (loads : List ℕ → Loaded) where
  -- A control frame within the decoder's bounds, whose JSON comes back as it was written, comes back from the body of its encoding.
  pub decode_body-encode_control :
      (f : ControlFrame) (bytes : List ℕ)
      → loads (dumps (payload f)) ≡ object (payload f)
      → IsControl f
      → encode_control dumps f ≡ ok bytes
      → (b : List ℕ) × (framed b ≡ ok bytes)
        × (decode_body loads b ≡ ok (control f))
        × (0 < length b)
        × (length b ≤ max_frame_bytes)
  unfolding decode_body encode_control decode_control
  decode_body-encode_control f bytes json v e =
      let (_, small, e1) =
        >>=-ok (guard (leb (length (dumps (payload f))) max_control_bytes) control_frame_too_large)
          _ e in
      let fits = guard-ok _ _ small in
      (
        1 ∷ dumps (payload f),
        e1,
        rw (fits, json, decode_object-payload f v) refl,
        omega arith,
        omega (arith, leb→le _ _ fits),
      )
