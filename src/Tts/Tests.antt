-- ===== src/Tts/Tests.antt =====
-- The theorems on src/lune/tts at concrete inputs.
use lune_voice_companion.Prelude.{
  ℕ, ◌≡◌, refl, true, false, not, none, some, List, [], ◌∷◌, ◌++◌, map, arith, if◌then◌else◌, All,
  same_text, pos,
}
use lune_voice_companion.Result.{Result, ok}
use lune_voice_companion.Tts.Contracts.{pcm_chunk}
use lune_voice_companion.Tts.Circuit.{
  Circuit, Report, succeeded, failed as tripped, new_circuit, allows_request, reports, trips,
  allows_request-reports,
}
use lune_voice_companion.Tts.Protocol.{
  ControlFrame, ready, PcmFrame, control, audio, Key, key_code, Value, payload, encode_control,
  encode_pcm, pcm_body, framed, pack, unpack_from, big_endian,
}
use lune_voice_companion.Tts.Protocol.Decode.{Loaded, undecodable, object, decode_body}
use lune_voice_companion.Tts.Protocol.Control.{IsControl}
use lune_voice_companion.Tts.Protocol.Stream.{feed, decode_frames, next_frame}
use lune_voice_companion.Tts.Protocol.Framing.{put_all, feed-append}
use lune_voice_companion.Tts.Protocol.RoundTrip.{feed-encode_all}
use lune_voice_companion.Tts.Router.{
  tagged, Backend, avspeech, gpt_sovits, done, failed, Stream, Router, new_router, primary, emitted,
  synthesize,
}
use lune_voice_companion.Tts.Router.Voice.{synthesize_one_voice}

abbrev router : Router
router = new_router true gpt_sovits

-- One backend fails before it gives a chunk.
abbrev streams : Backend → Stream ℕ
streams gpt_sovits = record { chunks = []; ending = failed }
streams avspeech = record { chunks = 1 ∷ 2 ∷ []; ending = done }

synthesize_one_voice_example :
    let out = synthesize router 3 streams in
    (b : Backend) × All (λ (x : Backend × ℕ). x.0 ≡ b) out.0
    × (out.0 ≡ tagged b (streams b).chunks)
    × (out.1 ≡ (streams b).ending)
    × (router.degraded 3 ≡ false
        → out.2.degraded 3 ≡ true
        → (b ≡ avspeech)
          × (primary router ≡ gpt_sovits)
          × (emitted (streams gpt_sovits).chunks ≡ false)
          × ((streams gpt_sovits).ending ≡ failed))
synthesize_one_voice_example = synthesize_one_voice router 3 streams refl

abbrev circuit : Circuit
circuit = record { failure_threshold = 2; consecutive_failures = 0; is_open = false }

abbrev calls : List Report
calls = tripped ∷ succeeded ∷ tripped ∷ tripped ∷ []

allows_request-reports_example : allows_request (reports circuit calls) ≡ not (trips 2 0 calls)
unfolding new_circuit
allows_request-reports_example = allows_request-reports (pos 2) circuit calls refl

-- A decoder of a body that gives the body itself, on two frames in three parts.
abbrev as_it_is : List ℕ → Result (List ℕ)
as_it_is b = ok b

feed-append_example :
    feed as_it_is [] ((0 ∷ 0 ∷ 0 ∷ 1 ∷ 7 ∷ 0 ∷ []) ++ 0 ∷ 0 ∷ 2 ∷ 8 ∷ 9 ∷ [])
    ≡ put_all as_it_is ((7 ∷ []) ∷ []) (feed as_it_is (0 ∷ []) (0 ∷ 0 ∷ 2 ∷ 8 ∷ 9 ∷ []))
unfolding feed decode_frames next_frame unpack_from
feed-append_example =
    feed-append as_it_is [] (0 ∷ 0 ∷ 0 ∷ 1 ∷ 7 ∷ 0 ∷ []) (0 ∷ 0 ∷ 2 ∷ 8 ∷ 9 ∷ []) ((7 ∷ []) ∷ [])
      (0 ∷ []) refl

abbrev hello : ControlFrame
hello = record {
  frame_type = ready;
  request_id = none;
  generation_id = some 3;
  sequence = none;
  code = none;
  text = none;
  language_hint = none;
  python_version = none;
}

abbrev pcm : PcmFrame
pcm = record {
  sequence = 1;
  chunk = record { generation_id = 3; sample_rate = 8000; channels = 1; pcm = 5 ∷ 6 ∷ [] };
}

-- A notation for the objects that the example needs: the codes of the keys.
abbrev dumps : List (Key × Value) → List ℕ
dumps d = map (λ e. key_code e.0) d

abbrev loads : List ℕ → Loaded
loads bytes = if same_text bytes (0 ∷ 1 ∷ 3 ∷ []) then object (payload hello) else undecodable

hello-IsControl : IsControl hello
hello-IsControl = record {
  request_id = tt;
  code = tt;
  text = tt;
  language_hint = tt;
  python_version = tt;
  generation_id = omega arith;
  sequence = tt;
}

feed-encode_all_example :
    feed (decode_body loads) [] (
      0 ∷ 0 ∷ 0 ∷ 4 ∷ 1 ∷ 0 ∷ 1 ∷ 3 ∷ 0 ∷ 0 ∷ 0 ∷ 21 ∷ 2 ∷ 0 ∷ 0 ∷ 0 ∷ 0 ∷ 0 ∷ 0 ∷ 0 ∷ 3 ∷ 0 ∷ 0 ∷ 0
      ∷ 1 ∷ 0 ∷ 0 ∷ 31 ∷ 64 ∷ 0 ∷ 1 ∷ 5 ∷ 6 ∷ [])
    ≡ (ok (control hello ∷ audio pcm ∷ []), [])
unfolding pcm_chunk encode_control encode_pcm pcm_body framed pack big_endian payload
feed-encode_all_example =
    feed-encode_all dumps loads (control hello ∷ audio pcm ∷ []) _ (hello-IsControl, (refl, tt))
      (refl, (tt, tt)) refl
