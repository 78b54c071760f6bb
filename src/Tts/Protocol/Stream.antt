-- ===== src/Tts/Protocol/Stream.antt =====
-- `FrameDecoder` and `read_frame` of tts/protocol.py, over the decoder of a body. The loop has fuel
-- for one round more than there are bytes, and each round takes a prefix and a body off them.
use lune_voice_companion.Prelude.{
  ℕ, zero, suc, ◌+◌, ◌||◌, List, [], ◌∷◌, ◌++◌, ltb, ◌==◌, if◌then◌else◌, length, take, drop,
}
use lune_voice_companion.Result.{Result, invalid_frame_length, worker_eof, truncated_frame, err, ok}
use lune_voice_companion.Tts.Protocol.{prefix_size, max_frame_bytes, unpack_from}

abbrev pub frame_length : List ℕ → ℕ
frame_length buffer = unpack_from 0 (take prefix_size buffer)

-- What a round finds: too few bytes, a length that no frame has, or a body and the bytes behind it.
pub data Round : Type 0 where
  waits invalid : Round
  body : List ℕ → List ℕ → Round

unfoldable pub next_frame : List ℕ → Round
next_frame buffer =
    let size = frame_length buffer in
    if ltb (length buffer) prefix_size
    then waits
    else if size == 0 || ltb max_frame_bytes size
    then invalid
    else if ltb (length buffer) (prefix_size + size)
    then waits
    else body (take size (drop prefix_size buffer)) (drop (prefix_size + size) buffer)

module _ {F : Type 0} (decode : List ℕ → Result F) where
  abbrev pub put_first : F → Result (List F) × List ℕ → Result (List F) × List ℕ
  put_first f (ok fs, left) = (ok (f ∷ fs), left)
  put_first f (err e, left) = (err e, left)

  -- What follows the decoding of a body: the later rounds, or a raise with the rest still buffered.
  abbrev pub continue : Result F → (Result (List F) × List ℕ) → List ℕ → Result (List F) × List ℕ
  continue (ok f) later rest = put_first f later
  continue (err e) later rest = (err e, rest)

  abbrev pub after_round :
      Round → List ℕ → (List ℕ → Result (List F) × List ℕ) → Result (List F) × List ℕ
  after_round waits buffer later = (ok [], buffer)
  after_round invalid buffer later = (err invalid_frame_length, buffer)
  after_round (body b rest) buffer later = continue (decode b) (later rest) rest

  -- The loop of `feed`: the frames, and what is left of the buffer.
  unfoldable pub decode_frames : ℕ → List ℕ → Result (List F) × List ℕ
  decode_frames zero buffer = (ok [], buffer)
  decode_frames (suc fuel) buffer = after_round (next_frame buffer) buffer (decode_frames fuel)

  -- `feed` of a decoder with this buffer.
  unfoldable pub feed : List ℕ → List ℕ → Result (List F) × List ℕ
  feed buffer bytes = decode_frames (suc (length (buffer ++ bytes))) (buffer ++ bytes)

  -- `read_frame` of a stream that ends after these bytes, and what it leaves unread.
  unfoldable pub read_frame : List ℕ → Result F × List ℕ
  read_frame bytes =
      let size = frame_length bytes in
      let rest = drop prefix_size bytes in
      if ltb (length bytes) prefix_size
      then (err worker_eof, [])
      else if size == 0 || ltb max_frame_bytes size
      then (err invalid_frame_length, rest)
      else if ltb (length rest) size
      then (err truncated_frame, [])
      else (decode (take size rest), drop size rest)
