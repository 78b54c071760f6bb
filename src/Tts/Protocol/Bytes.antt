-- ===== src/Tts/Protocol/Bytes.antt =====
-- The integers of tts/protocol.py: packing and unpacking, and the frame around a body.
use mathlib.Core.List.{append_assoc}
use lune_voice_companion.Prelude.{
  ℕ, zero, suc, ◌+◌, ◌*◌, ◌/◌, ◌%◌, ◌^◌, ◌≤◌, ◌<◌, ◌≡◌, refl, ap, ◌∙◌, inl, inr, List, [], ◌∷◌,
  ◌++◌, arith, ltb, ltb→lt, Bool-cases, length, take, drop, length-append, take_all, take-append_le,
  drop-append_ge,
}
use lune_voice_companion.Result.{Result-cases, ok}
use lune_voice_companion.Tts.Protocol.{
  big_endian, unpack_from, pack, framed, prefix_size, max_frame_bytes,
}
use lune_voice_companion.Tts.Protocol.Stream.{next_frame, body}

pub length-big_endian : (w n : ℕ) → length (big_endian w n) ≡ w
unfolding big_endian
length-big_endian zero n = refl
length-big_endian (suc w) n =
    omega (
      arith,
      length-append (big_endian w (n / 256)) ((n % 256) ∷ []),
      length-big_endian w (n / 256),
    )

unpack_from-append :
    (k : ℕ) (xs ys : List ℕ) → unpack_from k (xs ++ ys) ≡ unpack_from (unpack_from k xs) ys
unfolding unpack_from
unpack_from-append k [] ys = refl
unpack_from-append k (x ∷ xs) ys = unpack_from-append (k * 256 + x) xs ys

pub unpack_from-big_endian : (w n : ℕ) → n < 256 ^ w → unpack_from 0 (big_endian w n) ≡ n
unfolding big_endian unpack_from
unpack_from-big_endian zero n h = ground (arith, h)
unpack_from-big_endian (suc w) n h =
    unpack_from-append 0 (big_endian w (n / 256)) ((n % 256) ∷ [])
    ∙ ap (λ (m : ℕ). m * 256 + n % 256) (unpack_from-big_endian w (n / 256) (grind arith))
    ∙ omega arith

-- What a packed field is.
pub record IsPacked (w n : ℕ) (bytes : List ℕ) : Type 0 where
  pub its_length : length bytes ≡ w
  pub unpacks : unpack_from 0 bytes ≡ n

pub pack-IsPacked : (w n : ℕ) (bytes : List ℕ) → pack w n ≡ ok bytes → IsPacked w n bytes
unfolding pack
pack-IsPacked w n bytes e = elim (Bool-cases (ltb n (256 ^ w))) [
  | inr big ↦ ground (arith, e, big)
  | inl fits ↦
      let packed : big_endian w n ≡ bytes = ground (arith, e, fits) in
      rw (← packed) (record {
        its_length = length-big_endian w n;
        unpacks = unpack_from-big_endian w n (ltb→lt n (256 ^ w) fits);
      })
]

pub take_front : {A : Type 0} (n : ℕ) (xs ys : List A) → length xs ≡ n → take n (xs ++ ys) ≡ xs
take_front n xs ys e = take-append_le n xs ys (omega (arith, e)) ∙ take_all n xs (omega (arith, e))

pub drop_front : {A : Type 0} (n : ℕ) (xs ys : List A) → length xs ≡ n → drop n (xs ++ ys) ≡ ys
drop_front n xs ys e = drop-append_ge n 0 xs ys (omega (arith, e))

framed_prefix :
    (b bytes : List ℕ)
    → framed b ≡ ok bytes
    → (prefix : List ℕ) × IsPacked prefix_size (length b) prefix × (bytes ≡ prefix ++ b)
unfolding framed
framed_prefix b bytes e = elim (Result-cases (pack prefix_size (length b))) [
  | inl (prefix, p) ↦ (prefix, pack-IsPacked prefix_size (length b) prefix p, ground (arith, e, p))
  | inr (x, p) ↦ absurd (ground (arith, e, p))
]

-- The decoder finds the body of a frame, whatever follows it.
pub next_frame-framed :
    (b bytes later : List ℕ)
    → framed b ≡ ok bytes
    → 0 < length b
    → length b ≤ max_frame_bytes
    → next_frame (bytes ++ later) ≡ body b later
unfolding next_frame
next_frame-framed b bytes later e p l =
    let (prefix, packed, joined) = framed_prefix b bytes e in
    let front = take_front prefix_size prefix (b ++ later) packed.its_length in
    let back = drop_front prefix_size prefix (b ++ later) packed.its_length in
    let all =
      drop-append_ge (prefix_size + length b) (length b) prefix (b ++ later)
        (omega (arith, packed.its_length)) in
    rw (joined, append_assoc prefix b later, front, packed.unpacks)
      (ground (
        arith,
        p,
        l,
        back,
        all,
        packed.its_length,
        length-append prefix (b ++ later),
        length-append b later,
        take_front (length b) b later refl,
        drop_front (length b) b later refl,
      ))
