-- ===== src/Tts/Router/Voice.antt =====
-- The voices of tts/router.py.
use lune_voice_companion.Prelude.{
  ℕ, ◌≡◌, refl, inl, inr, Bool, true, false, List, [], ◌∷◌, Bool-cases, All,
}
use mathlib.Core.Path.{subst}
use lune_voice_companion.Tts.Router.{
  Backend, avspeech, gpt_sovits, Ending, done, cancelled, failed, Stream, Router, primary, tagged,
  emitted, falls_back, synthesize,
}

tagged-All :
    {C : Type 0} (b : Backend) (cs : List C) → All (λ (x : Backend × C). x.0 ≡ b) (tagged b cs)
tagged-All b [] = tt
tagged-All b (c ∷ cs) = (refl, tagged-All b cs)

degrades :
    (b : Backend) (some_chunk : Bool) (e : Ending)
    → falls_back b some_chunk e ≡ true
    → (b ≡ gpt_sovits) × (some_chunk ≡ false) × (e ≡ failed)
degrades gpt_sovits false failed h = (refl, refl, refl)
degrades gpt_sovits false done h = cc h
degrades gpt_sovits false cancelled h = cc h
degrades gpt_sovits true e h = cc h
degrades avspeech b e h = cc h

not_emitted : {C : Type 0} (cs : List C) → emitted cs ≡ false → cs ≡ []
not_emitted [] e = refl
not_emitted (c ∷ cs) e = cc e

-- Whatever the backends stream, an open router yields the whole stream of one backend and nothing of
-- another, with that stream's ending. That is the system's voice for an utterance that was not
-- degraded before and is now, and then the preferred backend had failed, not cancelled, before its
-- first chunk.
pub synthesize_one_voice :
    {C : Type 0} (r : Router) (generation : ℕ) (streams : Backend → Stream C)
    → r.closed ≡ false
    → let out = synthesize r generation streams in
      (b : Backend) × All (λ (x : Backend × C). x.0 ≡ b) out.0
      × (out.0 ≡ tagged b (streams b).chunks)
      × (out.1 ≡ (streams b).ending)
      × (r.degraded generation ≡ false
          → out.2.degraded generation ≡ true
          → (b ≡ avspeech)
            × (primary r ≡ gpt_sovits)
            × (emitted (streams gpt_sovits).chunks ≡ false)
            × ((streams gpt_sovits).ending ≡ failed))
unfolding synthesize primary
synthesize_one_voice r generation streams c =
    elim (Bool-cases (
      falls_back (primary r) (emitted (streams (primary r)).chunks) (streams (primary r)).ending)) [
        | inl f ↦
            let d =
              degrades (primary r) (emitted (streams (primary r)).chunks)
                (streams (primary r)).ending f in
            rw (synthesize, c, f, not_emitted (streams (primary r)).chunks d.1)
              (
                avspeech,
                tagged-All avspeech (streams avspeech).chunks,
                refl,
                refl,
                (λ before after. (
                  refl,
                  d.0,
                  subst (λ b. emitted (streams b).chunks ≡ false) d.0 d.1,
                  subst (λ b. (streams b).ending ≡ failed) d.0 d.2,
                )),
              )
        | inr f ↦
            rw (synthesize, c, f)
              (
                primary r,
                tagged-All (primary r) (streams (primary r)).chunks,
                refl,
                refl,
                (λ before after. cc (before, after)),
              )
      ]
