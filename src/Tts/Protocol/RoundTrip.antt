-- ===== src/Tts/Protocol/RoundTrip.antt =====
-- A worker's whole stream of frames comes back from its bytes.
use lune_voice_companion.Prelude.{
  ℕ, zero, suc, ◌≤◌, ◌<◌, ◌≡◌, refl, ap, ◌∙◌, List, [], ◌∷◌, ◌++◌, arith, length, All,
}
use lune_voice_companion.Result.{Result, ◌>>=◌, >>=-ok, ok}
use lune_voice_companion.Tts.Protocol.{
  WorkerFrame, control, audio, Key, Value, payload, encode_control, encode_pcm, pcm_body, framed,
  max_frame_bytes,
}
use lune_voice_companion.Tts.Protocol.Decode.{Loaded, object, decode_body}
use lune_voice_companion.Tts.Protocol.Bytes.{next_frame-framed}
use lune_voice_companion.Tts.Protocol.Control.{IsControl, decode_body-encode_control}
use lune_voice_companion.Tts.Protocol.Pcm.{IsChunk, decode_body-pcm_body}
use lune_voice_companion.Tts.Protocol.Framing.{one_round, next_frame-append}
use lune_voice_companion.Tts.Protocol.Stream.{next_frame, decode_frames, put_first, feed}

abbrev pub IsFrame : WorkerFrame → Type 0
IsFrame (control f) = IsControl f
IsFrame (audio f) = IsChunk f.chunk

nothing_left :
    {F : Type 0} (decode : List ℕ → Result F) (n : ℕ) (bytes : List ℕ)
    → bytes ≡ []
    → decode_frames decode (suc n) bytes ≡ (ok [], [])
unfolding decode_frames next_frame
nothing_left decode n bytes e = rw e refl

module _ (dumps : List (Key × Value) → List ℕ) where
  abbrev pub encode : WorkerFrame → Result (List ℕ)
  encode (control f) = encode_control dumps f
  encode (audio f) = encode_pcm f

  -- The bytes of frames that are written one after the other.
  abbrev pub encode_all : List WorkerFrame → Result (List ℕ)
  encode_all [] = ok []
  encode_all (f ∷ fs) = do bytes ← encode f; later ← encode_all fs; ok (bytes ++ later)

  module _ (loads : List ℕ → Loaded) where
    -- The JSON of a control frame comes back as it was written.
    abbrev pub Survives : WorkerFrame → Type 0
    Survives (control f) = loads (dumps (payload f)) ≡ object (payload f)
    Survives (audio f) = Unit

    encode_body :
        (f : WorkerFrame) (bytes : List ℕ)
        → IsFrame f
        → Survives f
        → encode f ≡ ok bytes
        → (b : List ℕ) × (framed b ≡ ok bytes)
          × (decode_body loads b ≡ ok f)
          × (0 < length b)
          × (length b ≤ max_frame_bytes)
    unfolding encode_pcm
    encode_body (control f) bytes v j e = decode_body-encode_control dumps loads f bytes j v e
    encode_body (audio f) bytes v j e =
        let (b, made, e1) = >>=-ok (pcm_body f) _ e in
        let d = decode_body-pcm_body loads f b v made in (b, e1, d.0, d.1, d.2)

    decode_frames-encode_all :
        (fs : List WorkerFrame) (bytes : List ℕ) (n : ℕ)
        → All IsFrame fs
        → All Survives fs
        → encode_all fs ≡ ok bytes
        → length bytes < n
        → decode_frames (decode_body loads) n bytes ≡ (ok fs, [])
    decode_frames-encode_all fs bytes zero v j e h = absurd (omega (arith, h))
    decode_frames-encode_all [] bytes (suc n) v j e h =
        let nothing : bytes ≡ [] = cc e in nothing_left (decode_body loads) n bytes nothing
    decode_frames-encode_all (f ∷ fs) bytes (suc n) v j e h =
        let (first, e0, e1) = >>=-ok (encode f) _ e in
        let (later, e2, e3) = >>=-ok (encode_all fs) _ e1 in
        let (b, e4, d, some_bytes, small) = encode_body f first v.0 j.0 e0 in
        let joined : bytes ≡ first ++ later = cc e3 in
        let found = next_frame-framed b first later e4 some_bytes small in
        let shorter = (next_frame-append (first ++ later) [] b later found).1 in
        rw joined (
          one_round (decode_body loads) n (first ++ later) b later f found d
          ∙ ap (put_first (decode_body loads) f) (
              decode_frames-encode_all fs later n v.1 j.1 e2
                (omega (arith, shorter, ap length joined))))

    -- Frames that are encoded one after the other, control frames within the decoder's bounds whose
    -- JSON comes back as it was written and chunks that their constructor made: they come back from a
    -- new decoder in their order, and no byte is left.
    pub feed-encode_all :
        (fs : List WorkerFrame) (bytes : List ℕ)
        → All IsFrame fs
        → All Survives fs
        → encode_all fs ≡ ok bytes
        → feed (decode_body loads) [] bytes ≡ (ok fs, [])
    unfolding feed
    feed-encode_all fs bytes v j e =
        decode_frames-encode_all fs bytes (suc (length bytes)) v j e (omega arith)
