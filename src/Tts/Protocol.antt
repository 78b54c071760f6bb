-- ===== src/Tts/Protocol.antt =====
-- tts/protocol.py: length-prefixed control and PCM frames between the companion and its worker.
-- `json.dumps` and `json.loads` are given from outside, over an object's keys and its values as far
-- as the decoder looks into them. Bytes are naturals, and integers stand in network order.
pub mod Bytes
pub mod Decode
pub mod Framing
pub mod Control
pub mod Pcm
pub mod Stream
pub mod RoundTrip
use lune_voice_companion.Prelude.{
  ℕ, zero, suc, ◌+◌, ◌*◌, ◌/◌, ◌%◌, ◌^◌, Bool, Option, none, some, List, [], ◌∷◌, ◌++◌, ltb, leb,
  length, ℤ, pos,
}
use lune_voice_companion.Result.{
  Result, guard, ◌>>=◌, ◌>>◌, control_frame_too_large, pcm_frame_too_large, struct_out_of_range, ok,
}
use lune_voice_companion.Tts.Contracts.{PcmChunk, pcm_chunk}

abbrev pub max_control_bytes : ℕ
max_control_bytes = 65536

abbrev pub max_pcm_bytes : ℕ
max_pcm_bytes = 1048576

abbrev pub max_frame_bytes : ℕ
max_frame_bytes = 1048640

abbrev pub prefix_size : ℕ
prefix_size = 4

abbrev pub header_size : ℕ
header_size = 18

-- struct's unsigned integers: the low byte stands last.
unfoldable pub big_endian : ℕ → ℕ → List ℕ
big_endian zero n = []
big_endian (suc w) n = big_endian w (n / 256) ++ (n % 256) ∷ []

-- The number that bytes stand for, with those before them.
unfoldable pub unpack_from : ℕ → List ℕ → ℕ
unpack_from n [] = n
unpack_from n (b ∷ bs) = unpack_from (n * 256 + b) bs

-- `struct.pack` of one field raises where the number does not fit.
unfoldable pub pack : ℕ → ℕ → Result (List ℕ)
pack w n = do guard (ltb n (256 ^ w)) struct_out_of_range; ok (big_endian w n)

pub data ControlType : Type 0 where
  ready synthesize cancel finished failed close : ControlType

pub record ControlFrame : Type 0 where
  pub frame_type : ControlType
  pub request_id : Option (List ℕ)
  pub generation_id : Option ℕ
  pub sequence : Option ℕ
  pub code : Option (List ℕ)
  pub text : Option (List ℕ)
  pub language_hint : Option (List ℕ)
  pub python_version : Option (List ℕ)

pub record PcmFrame : Type 0 where
  pub sequence : ℕ
  pub chunk : PcmChunk

pub data WorkerFrame : Type 0 where
  control : ControlFrame → WorkerFrame
  audio : PcmFrame → WorkerFrame

-- A control object's keys; `other_key` is any that the protocol does not know.
pub data Key : Type 0 where
  version_key type_key request_id_key generation_id_key sequence_key code_key text_key : Key
  language_hint_key python_version_key other_key : Key

-- A value of the object. A float tells whether it equals one, since `1.0 == 1`; `compound` is a
-- list or an object.
pub data Value : Type 0 where
  null compound : Value
  boolean float : Bool → Value
  integer : ℤ → Value
  string : List ℕ → Value

abbrev pub key_code : Key → ℕ
key_code version_key = 0
key_code type_key = 1
key_code request_id_key = 2
key_code generation_id_key = 3
key_code sequence_key = 4
key_code code_key = 5
key_code text_key = 6
key_code language_hint_key = 7
key_code python_version_key = 8
key_code other_key = 9

-- "ready", "synthesize", "cancel", "done", "error" and "close".
abbrev pub type_name : ControlType → List ℕ
type_name ready = b'r' ∷ b'e' ∷ b'a' ∷ b'd' ∷ b'y' ∷ []
type_name synthesize = b's' ∷ b'y' ∷ b'n' ∷ b't' ∷ b'h' ∷ b'e' ∷ b's' ∷ b'i' ∷ b'z' ∷ b'e' ∷ []
type_name cancel = b'c' ∷ b'a' ∷ b'n' ∷ b'c' ∷ b'e' ∷ b'l' ∷ []
type_name finished = b'd' ∷ b'o' ∷ b'n' ∷ b'e' ∷ []
type_name failed = b'e' ∷ b'r' ∷ b'r' ∷ b'o' ∷ b'r' ∷ []
type_name close = b'c' ∷ b'l' ∷ b'o' ∷ b's' ∷ b'e' ∷ []

abbrev pub text_value : Option (List ℕ) → Option Value
text_value none = none
text_value (some s) = some (string s)

abbrev pub int_value : Option ℕ → Option Value
int_value none = none
int_value (some n) = some (integer (pos n))

-- The fields that are not None.
abbrev pub collect : List (Key × Option Value) → List (Key × Value)
collect [] = []
collect ((k, none) ∷ fields) = collect fields
collect ((k, some v) ∷ fields) = (k, v) ∷ collect fields

abbrev pub optional_fields : ControlFrame → List (Key × Option Value)
optional_fields f =
    (request_id_key, text_value f.request_id)
    ∷ (generation_id_key, int_value f.generation_id)
    ∷ (sequence_key, int_value f.sequence)
    ∷ (code_key, text_value f.code)
    ∷ (text_key, text_value f.text)
    ∷ (language_hint_key, text_value f.language_hint)
    ∷ (python_version_key, text_value f.python_version)
    ∷ []

unfoldable pub payload : ControlFrame → List (Key × Value)
payload f =
    (version_key, integer (pos 1))
    ∷ (type_key, string (type_name f.frame_type))
    ∷ collect (optional_fields f)

-- The length of the body, and the body: `_PREFIX.pack(len(body)) + body`.
unfoldable pub framed : List ℕ → Result (List ℕ)
framed body = do prefix ← pack prefix_size (length body); ok (prefix ++ body)

module _ (dumps : List (Key × Value) → List ℕ) where
  unfoldable pub encode_control : ControlFrame → Result (List ℕ)
  encode_control f = do
    let encoded = dumps (payload f)
    guard (leb (length encoded) max_control_bytes) control_frame_too_large
    framed (1 ∷ encoded)

unfoldable pub pcm_body : PcmFrame → Result (List ℕ)
pcm_body f = do
  guard (leb (length f.chunk.pcm) max_pcm_bytes) pcm_frame_too_large
  generation ← pack 8 f.chunk.generation_id
  sequence ← pack 4 f.sequence
  rate ← pack 4 f.chunk.sample_rate
  channels ← pack 2 f.chunk.channels
  ok (2 ∷ (generation ++ (sequence ++ (rate ++ (channels ++ f.chunk.pcm)))))

unfoldable pub encode_pcm : PcmFrame → Result (List ℕ)
unfolding pcm_body
encode_pcm f = do body ← pcm_body f; framed body
