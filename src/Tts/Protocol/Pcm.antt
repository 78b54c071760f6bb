-- ===== src/Tts/Protocol/Pcm.antt =====
-- PCM frames of tts/protocol.py come back from their bytes.
use lune_voice_companion.Prelude.{
  ℕ, ◌+◌, ◌≤◌, ◌<◌, ◌≡◌, refl, ap, ◌∙◌, true, List, ◌∷◌, ◌++◌, arith, ltb, leb, lt→ltb, leb→le,
  le→leb, length, length-append, drop-append_ge, pos,
}
use lune_voice_companion.Result.{guard, >>=-ok, guard-ok, pcm_frame_too_large, ok}
use lune_voice_companion.Tts.Contracts.{PcmChunk, pcm_chunk}
use lune_voice_companion.Tts.Protocol.{
  PcmFrame, audio, pack, pcm_body, header_size, max_pcm_bytes, max_frame_bytes,
}
use lune_voice_companion.Tts.Protocol.Decode.{Loaded, decode_pcm, decode_body}
use lune_voice_companion.Tts.Protocol.Bytes.{IsPacked, pack-IsPacked, take_front, drop_front}

-- The chunk is one that its constructor made.
abbrev pub IsChunk : PcmChunk → Type 0
IsChunk c = pcm_chunk (pos c.generation_id) (pos c.sample_rate) (pos c.channels) c.pcm ≡ ok c

IsChunk-not_empty : (c : PcmChunk) → IsChunk c → 0 < length c.pcm
unfolding pcm_chunk
IsChunk-not_empty c h = grind (arith, h)

-- The header and the bytes behind it.
decode_pcm-fields :
    (g s r n pcm : List ℕ) (f : PcmFrame)
    → IsPacked 8 f.chunk.generation_id g
    → IsPacked 4 f.sequence s
    → IsPacked 4 f.chunk.sample_rate r
    → IsPacked 2 f.chunk.channels n
    → IsChunk f.chunk
    → f.chunk.pcm ≡ pcm
    → decode_pcm (g ++ (s ++ (r ++ (n ++ pcm)))) ≡ ok f
unfolding decode_pcm
decode_pcm-fields g s r n pcm f gp sp rp np c e =
    let body4 = n ++ pcm in
    let body3 = r ++ body4 in
    let body2 = s ++ body3 in
    let at8 = drop_front 8 g body2 gp.its_length in
    let at12 =
      drop-append_ge 12 4 g body2 (omega (arith, gp.its_length))
      ∙ drop_front 4 s body3 sp.its_length in
    let at16 =
      drop-append_ge 16 8 g body2 (omega (arith, gp.its_length))
      ∙ drop-append_ge 8 4 s body3 (omega (arith, sp.its_length))
      ∙ drop_front 4 r body4 rp.its_length in
    let at18 =
      drop-append_ge 18 10 g body2 (omega (arith, gp.its_length))
      ∙ drop-append_ge 10 6 s body3 (omega (arith, sp.its_length))
      ∙ drop-append_ge 6 2 r body4 (omega (arith, rp.its_length))
      ∙ drop_front 2 n pcm np.its_length in
    let long : ltb header_size (length (g ++ body2)) ≡ true = lt→ltb _ _ (
      omega (
        arith,
        length-append g body2,
        length-append s body3,
        length-append r body4,
        length-append n pcm,
        gp.its_length,
        sp.its_length,
        rp.its_length,
        np.its_length,
        ap length e,
        IsChunk-not_empty f.chunk c,
      )) in
    rw
      (
        long,
        take_front 8 g body2 gp.its_length,
        at8,
        at12,
        at16,
        at18,
        take_front 4 s body3 sp.its_length,
        take_front 4 r body4 rp.its_length,
        take_front 2 n pcm np.its_length,
        gp.unpacks,
        sp.unpacks,
        rp.unpacks,
        np.unpacks,
        ← e,
        c,
      )
      refl

-- The pieces of a body.
pcm_body_pieces :
    (f : PcmFrame) (b : List ℕ)
    → pcm_body f ≡ ok b
    → (length f.chunk.pcm ≤ max_pcm_bytes)
      × (g : List ℕ) × (s : List ℕ) × (r : List ℕ) × (n : List ℕ) × (b
          ≡ 2 ∷ (g ++ (s ++ (r ++ (n ++ f.chunk.pcm)))))
      × IsPacked 8 f.chunk.generation_id g
      × IsPacked 4 f.sequence s
      × IsPacked 4 f.chunk.sample_rate r
      × IsPacked 2 f.chunk.channels n
unfolding pcm_body
pcm_body_pieces f b e =
    let (_, small, e1) =
      >>=-ok (guard (leb (length f.chunk.pcm) max_pcm_bytes) pcm_frame_too_large) _ e in
    let (g, gp, e2) = >>=-ok (pack 8 f.chunk.generation_id) _ e1 in
    let (s, sp, e3) = >>=-ok (pack 4 f.sequence) _ e2 in
    let (r, rp, e4) = >>=-ok (pack 4 f.chunk.sample_rate) _ e3 in
    let (n, np, e5) = >>=-ok (pack 2 f.chunk.channels) _ e4 in
    (
      leb→le _ _ (guard-ok _ _ small),
      g,
      s,
      r,
      n,
      cc e5,
      pack-IsPacked 8 f.chunk.generation_id g gp,
      pack-IsPacked 4 f.sequence s sp,
      pack-IsPacked 4 f.chunk.sample_rate r rp,
      pack-IsPacked 2 f.chunk.channels n np,
    )

-- A PCM frame that could be encoded comes back from the body of its encoding.
pub decode_body-pcm_body :
    (loads : List ℕ → Loaded) (f : PcmFrame) (b : List ℕ)
    → IsChunk f.chunk
    → pcm_body f ≡ ok b
    → (decode_body loads b ≡ ok (audio f)) × (0 < length b) × (length b ≤ max_frame_bytes)
unfolding decode_body
decode_body-pcm_body loads f b c e =
    let (small, g, s, r, n, joined, gp, sp, rp, np) = pcm_body_pieces f b e in
    let size : length (g ++ (s ++ (r ++ (n ++ f.chunk.pcm)))) ≡ 18 + length f.chunk.pcm = omega (
      arith,
      length-append g (s ++ (r ++ (n ++ f.chunk.pcm))),
      length-append s (r ++ (n ++ f.chunk.pcm)),
      length-append r (n ++ f.chunk.pcm),
      length-append n f.chunk.pcm,
      gp.its_length,
      sp.its_length,
      rp.its_length,
      np.its_length,
    ) in
    let fits : leb (length (g ++ (s ++ (r ++ (n ++ f.chunk.pcm))))) (max_pcm_bytes + header_size)
        ≡ true =
      le→leb _ _ (omega (arith, size, small)) in
    rw joined (
      rw (fits, decode_pcm-fields g s r n f.chunk.pcm f gp sp rp np c refl) refl,
      omega arith,
      omega (arith, size, small),
    )
