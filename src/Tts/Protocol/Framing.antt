-- ===== src/Tts/Protocol/Framing.antt =====
-- The decoder of tts/protocol.py does not depend on how the bytes arrive.
use mathlib.Core.List.{append_assoc}
use mathlib.Core.Path.{subst}
use lune_voice_companion.Prelude.{
  ℕ, zero, suc, ◌+◌, ◌≤◌, ◌<◌, ◌≡◌, refl, sym, ap, ◌∙◌, ◌⊎◌, inl, inr, List, [], ◌∷◌, ◌++◌, arith,
  ltb, Bool-cases, length, drop, length-append, length-drop, take-append_le, drop-append_le,
}
use lune_voice_companion.Result.{Result, Result-cases, invalid_frame_length, err, ok}
use lune_voice_companion.Tts.Protocol.{prefix_size}
use lune_voice_companion.Tts.Protocol.Stream.{
  frame_length, Round, waits, invalid, body, next_frame, put_first, continue, decode_frames, feed,
}

Round-cases :
    (r : Round) → (r ≡ waits) ⊎ (r ≡ invalid) ⊎ ((b : List ℕ) × (rest : List ℕ) × (r ≡ body b rest))
Round-cases waits = inl refl
Round-cases invalid = inr (inl refl)
Round-cases (body b rest) = inr (inr (b, rest, refl))

-- A round with a body takes it off the buffer, whatever bytes follow.
pub next_frame-append :
    (buffer bytes b rest : List ℕ)
    → next_frame buffer ≡ body b rest
    → (next_frame (buffer ++ bytes) ≡ body b (rest ++ bytes)) × (length rest < length buffer)
unfolding next_frame
next_frame-append buffer bytes b rest e = elim (Bool-cases (ltb (length buffer) prefix_size)) [
  | inl short ↦ ground (arith, e, short)
  | inr long ↦
      let size = frame_length buffer in
      let p : prefix_size ≤ length buffer = ground (arith, long) in
      rw (take-append_le prefix_size buffer bytes p)
        (elim (Bool-cases (ltb (length buffer) (prefix_size + size))) [
          | inl less ↦ ground (arith, e, less, long)
          | inr enough ↦
              let q : prefix_size + size ≤ length buffer = ground (arith, enough) in
              ground (
                arith,
                e,
                long,
                enough,
                length-append buffer bytes,
                length-drop (prefix_size + size) buffer,
                drop-append_le (prefix_size + size) buffer bytes q,
                drop-append_le prefix_size buffer bytes p,
                length-drop prefix_size buffer,
                take-append_le size (drop prefix_size buffer) bytes,
              )
        ])
]

next_frame_invalid :
    (buffer bytes : List ℕ) → next_frame buffer ≡ invalid → next_frame (buffer ++ bytes) ≡ invalid
unfolding next_frame
next_frame_invalid buffer bytes e = elim (Bool-cases (ltb (length buffer) prefix_size)) [
  | inl short ↦ ground (arith, e, short)
  | inr long ↦
      let p : prefix_size ≤ length buffer = ground (arith, long) in
      rw (take-append_le prefix_size buffer bytes p)
        (ground (arith, e, long, length-append buffer bytes))
]

module _ {F : Type 0} (decode : List ℕ → Result F) where
  -- More fuel than bytes is as good as any.
  decode_frames_fuel :
      (n m : ℕ) (buffer : List ℕ)
      → length buffer < n
      → length buffer < m
      → decode_frames decode n buffer ≡ decode_frames decode m buffer
  unfolding decode_frames
  decode_frames_fuel zero m buffer h k = absurd (omega (arith, h))
  decode_frames_fuel (suc n) zero buffer h k = absurd (omega (arith, k))
  decode_frames_fuel (suc n) (suc m) buffer h k = elim (Round-cases (next_frame buffer)) [
    | inl e ↦ rw e refl
    | inr (inl e) ↦ rw e refl
    | inr (inr (b, rest, e)) ↦
        let shorter = (next_frame-append buffer [] b rest e).1 in
        rw e (
          ap (λ later. continue decode (decode b) later rest)
            (decode_frames_fuel n m rest (omega (arith, shorter)) (omega (arith, shorter))))
  ]

  -- What is done with the frames that came before.
  abbrev pub put_all : List F → Result (List F) × List ℕ → Result (List F) × List ℕ
  put_all [] r = r
  put_all (f ∷ fs) r = put_first decode f (put_all fs r)

  put_first-ok :
      (f : F) (r : Result (List F) × List ℕ) (fs : List F) (left : List ℕ)
      → put_first decode f r ≡ (ok fs, left)
      → (gs : List F) × (fs ≡ f ∷ gs) × (r ≡ (ok gs, left))
  put_first-ok f (ok gs, l) fs left e = (gs, cc e, cc e)
  put_first-ok f (err x, l) fs left e = absurd (cc e)

  pub one_round :
      (m : ℕ) (buffer b rest : List ℕ) (f : F)
      → next_frame buffer ≡ body b rest
      → decode b ≡ ok f
      → decode_frames decode (suc m) buffer ≡ put_first decode f (decode_frames decode m rest)
  unfolding decode_frames
  one_round m buffer b rest f w d = rw (w, d) refl

  -- A round with a body, given the induction's step for what follows it.
  body_round :
      (n m : ℕ) (buffer bytes : List ℕ) (fs : List F) (left b rest : List ℕ)
      → next_frame buffer ≡ body b rest
      → (next_frame (buffer ++ bytes) ≡ body b (rest ++ bytes)) × (length rest < length buffer)
      → length buffer < suc n
      → length (buffer ++ bytes) < suc m
      → continue decode (decode b) (decode_frames decode n rest) rest ≡ (ok fs, left)
      → ((gs : List F) (l : List ℕ)
          → length rest < n
          → length (rest ++ bytes) < suc m
          → decode_frames decode n rest ≡ (ok gs, l)
          → decode_frames decode (suc m) (rest ++ bytes)
            ≡ put_all gs (decode_frames decode (suc m) (l ++ bytes)))
      → decode_frames decode (suc m) (buffer ++ bytes)
        ≡ put_all fs (decode_frames decode (suc m) (left ++ bytes))
  body_round n m buffer bytes fs left b rest w nf h k e later = elim (Result-cases (decode b)) [
    | inr (x, d) ↦ let raises : (err x, rest) ≡ (ok fs, left) = rw d at e in absurd (cc raises)
    | inl (f, d) ↦
        let (gs, more, found) = put_first-ok f (decode_frames decode n rest) fs left (rw d at e) in
        let fewer : length (rest ++ bytes) < m =
          omega (arith, length-append rest bytes, length-append buffer bytes, nf.1, k) in
        let same_fuel = decode_frames_fuel m (suc m) (rest ++ bytes) fewer (omega (arith, fewer)) in
        let ih = later gs left (omega (arith, nf.1, h)) (omega (arith, fewer)) found in
        rw more (
          one_round m (buffer ++ bytes) b (rest ++ bytes) f nf.0 d
          ∙ ap (put_first decode f) (same_fuel ∙ ih))
  ]

  decode_frames-append :
      (n m : ℕ) (buffer bytes : List ℕ) (fs : List F) (left : List ℕ)
      → length buffer < n
      → length (buffer ++ bytes) < m
      → decode_frames decode n buffer ≡ (ok fs, left)
      → decode_frames decode m (buffer ++ bytes)
        ≡ put_all fs (decode_frames decode m (left ++ bytes))
  unfolding decode_frames
  decode_frames-append zero m buffer bytes fs left h k e = absurd (omega (arith, h))
  decode_frames-append (suc n) zero buffer bytes fs left h k e = absurd (omega (arith, k))
  decode_frames-append (suc n) (suc m) buffer bytes fs left h k e =
      elim (Round-cases (next_frame buffer)) [
        | inl w ↦
            let none_yet : (ok [], buffer) ≡ (ok fs, left) = rw w at e in
            let no_frame : fs ≡ [] = cc none_yet in
            let all_left : left ≡ buffer = cc none_yet in rw (no_frame, all_left) refl
        | inr (inl w) ↦
            let raises : (err invalid_frame_length, buffer) ≡ (ok fs, left) = rw w at e in
            absurd (cc raises)
        | inr (inr (b, rest, w)) ↦
            body_round n m buffer bytes fs left b rest w (next_frame-append buffer bytes b rest w) h
              k (rw w at e) (decode_frames-append n (suc m) rest bytes)
      ]

  put_first-left : (f : F) (r : Result (List F) × List ℕ) → (put_first decode f r).1 ≡ r.1
  put_first-left f (ok fs, l) = refl
  put_first-left f (err e, l) = refl

  decode_frames_left :
      (n : ℕ) (buffer : List ℕ) → length (decode_frames decode n buffer).1 ≤ length buffer
  unfolding decode_frames
  decode_frames_left zero buffer = omega arith
  decode_frames_left (suc n) buffer = elim (Round-cases (next_frame buffer)) [
    | inl w ↦ rw w (omega arith)
    | inr (inl w) ↦ rw w (omega arith)
    | inr (inr (b, rest, w)) ↦
        let shorter = (next_frame-append buffer [] b rest w).1 in
        rw w (elim (Result-cases (decode b)) [
          | inr (x, d) ↦ rw d (omega (arith, shorter))
          | inl (f, d) ↦
              rw (d, put_first-left f (decode_frames decode n rest))
                (omega (arith, shorter, decode_frames_left n rest))
        ])
  ]

  -- Bytes may arrive in any pieces: where a piece gives frames, the whole gives those frames and then
  -- what the later bytes give with what was left of the piece, an error or frames; and the same
  -- bytes are left of either.
  pub feed-append :
      (buffer early late : List ℕ) (fs : List F) (left : List ℕ)
      → feed decode buffer early ≡ (ok fs, left)
      → feed decode buffer (early ++ late) ≡ put_all fs (feed decode left late)
  unfolding feed
  feed-append buffer early late fs left e =
      let whole = sym (append_assoc buffer early late) in
      let n = suc (length (buffer ++ early)) in
      let m = suc (length ((buffer ++ early) ++ late)) in
      let kept : length left ≤ length (buffer ++ early) =
        subst (λ (r : Result (List F) × List ℕ). length r.1 ≤ length (buffer ++ early)) e
          (decode_frames_left n (buffer ++ early)) in
      rw whole (
        decode_frames-append n m (buffer ++ early) late fs left (omega arith) (omega arith) e
        ∙ ap (put_all fs) (
            decode_frames_fuel m (suc (length (left ++ late))) (left ++ late)
              (omega (arith, kept, length-append left late, length-append (buffer ++ early) late))
              (omega arith)))
