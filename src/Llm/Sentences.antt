-- ===== src/Llm/Sentences.antt =====
-- llm/sentence_gate.py: the gate that releases whole sentences, at most three. Text is the list of
-- its code points. `str.isspace` and `str.isdigit` are given from outside. A loop is on fuel: one
-- round for each sentence that may still be released, which is enough since no unit is empty.
pub mod Boundary
pub mod Flushing
pub mod Release
pub mod Units
use lune_voice_companion.Prelude.{
  ℕ, zero, suc, ◌+◌, ◌-◌, Bool, true, false, not, ◌&&◌, ◌||◌, Option, none, some, List, [], ◌∷◌,
  ◌++◌, leb, ◌==◌, if◌then◌else◌, length, take, drop, ℤ,
}
use lune_voice_companion.Result.{
  Result, ◌>>=◌, ◌>>◌, guard, positive, assertion, bad_sentence_limit, mixed_correlation, ok, err,
}

abbrev pub is_one_of : ℕ → List ℕ → Bool
is_one_of c [] = false
is_one_of c (x ∷ xs) = c == x || is_one_of c xs

abbrev pub full_stop : ℕ
full_stop = 46

-- 。！？!?…
abbrev pub terminators : List ℕ
terminators = 12290 ∷ 65281 ∷ 65311 ∷ 33 ∷ 63 ∷ 8230 ∷ []

-- "'”’」』】）)]｝}
abbrev pub closers : List ℕ
closers = 34 ∷ 39 ∷ 8221 ∷ 8217 ∷ 12301 ∷ 12303 ∷ 12305 ∷ 65289 ∷ 41 ∷ 93 ∷ 65373 ∷ 125 ∷ []

abbrev pub is_terminal : ℕ → Bool
is_terminal c = is_one_of c terminators || c == full_stop

-- How many characters at the front pass a test: `while end < len(text) and …: end += 1`.
abbrev pub leading : (ℕ → Bool) → List ℕ → ℕ
leading test [] = 0
leading test (c ∷ cs) = let rest = leading test cs in if test c then suc rest else 0

abbrev pub is_empty : List ℕ → Bool
is_empty [] = true
is_empty (c ∷ cs) = false

pub record TextFrame : Type 0 where
  pub text : List ℕ
  pub generation_id : ℕ
  pub attempt_id : ℕ

pub record Gate : Type 0 where
  pub max_sentences : ℕ
  pub buffer : List ℕ
  pub released : ℕ
  pub correlation : Option (ℕ × ℕ)
  pub limited : Bool

unfoldable pub new_gate : ℤ → Result Gate
new_gate max_sentences = do
  limit ← positive max_sentences bad_sentence_limit
  guard (leb limit 3) bad_sentence_limit
  ok (record {
    max_sentences = limit;
    buffer = [];
    released = 0;
    correlation = none;
    limited = false;
  })

-- `_check_correlation`: the frame's identifiers, once they are the gate's.
unfoldable pub check_correlation : Gate → TextFrame → Result (ℕ × ℕ)
check_correlation g frame = elim g.correlation [
  | none ↦ ok (frame.generation_id, frame.attempt_id)
  | some ids ↦ do
    guard (frame.generation_id == ids.0 && frame.attempt_id == ids.1) mixed_correlation
    ok ids
]

unfoldable pub discard : Gate → Gate
discard g = record g { buffer = [] }

module _ (is_space is_digit : ℕ → Bool) where
  abbrev pub digit_first : List ℕ → Bool
  digit_first [] = false
  digit_first (c ∷ cs) = is_digit c

  abbrev pub digit_before : Option ℕ → Bool
  digit_before none = false
  digit_before (some c) = is_digit c

  -- The end of a unit, counted from its terminal, of which `rest` is what follows.
  abbrev pub unit_end : Bool → List ℕ → Option ℕ
  unit_end final rest =
      let stops = leading is_terminal rest in
      let marks = leading (λ c. is_one_of c closers) (drop stops rest) in
      let after = drop marks (drop stops rest) in
      if is_empty after && not final
      then none
      else some (suc (stops + marks + leading is_space after))

  -- `_next_boundary`, from an index with the character before it.
  abbrev pub boundary_from : Bool → Option ℕ → List ℕ → Option ℕ
  boundary_from final before [] = none
  boundary_from final before (c ∷ cs) =
      let later = boundary_from final (some c) cs in
      if is_terminal c && not (c == full_stop && (digit_before before && digit_first cs))
      then unit_end final cs
      else elim later [ none ↦ none | some n ↦ some (suc n) ]

  abbrev pub next_boundary : List ℕ → Bool → Option ℕ
  next_boundary text final = boundary_from final none text

  abbrev pub frame : ℕ × ℕ → List ℕ → TextFrame
  frame ids text = record { text = text; generation_id = ids.0; attempt_id = ids.1 }

  -- The loop of `feed`: what it releases, and the gate it leaves.
  unfoldable pub feed_loop : ℕ → ℕ × ℕ → Gate → List TextFrame × Gate
  feed_loop zero ids g = ([], g)
  feed_loop (suc fuel) ids g = elim (next_boundary g.buffer false) [
    | none ↦ ([], g)
    | some n ↦
        let sentence = take n g.buffer in
        let cut = record g { buffer = drop n g.buffer } in
        let counted = record cut { released = suc g.released } in
        if is_empty sentence
        then feed_loop fuel ids cut
        else if suc g.released == g.max_sentences
        then (frame ids sentence ∷ [], record counted { limited = true; buffer = [] })
        else let rest = feed_loop fuel ids counted in (frame ids sentence ∷ rest.0, rest.1)
  ]

  unfoldable pub feed : Gate → TextFrame → Result (List TextFrame × Bool) × Gate
  unfolding feed_loop check_correlation
  feed g piece = if g.limited then (ok ([], true), g) else elim (check_correlation g piece) [
    | err e ↦ (err e, g)
    | ok ids ↦
        let longer = record g { correlation = some ids; buffer = g.buffer ++ piece.text } in
        let r = feed_loop (g.max_sentences - g.released) ids longer in (ok (r.0, r.1.limited), r.1)
  ]

  -- The boundary that `finish` cuts at: the text's end where no unit ends before.
  unfoldable pub final_boundary : List ℕ → ℕ
  final_boundary text = elim (next_boundary text true) [ none ↦ length text | some n ↦ n ]

  -- The loop of `finish`.
  unfoldable pub finish_loop : ℕ → ℕ × ℕ → Gate → List TextFrame × Gate
  finish_loop zero ids g = ([], g)
  finish_loop (suc fuel) ids g =
      let n = final_boundary g.buffer in
      let sentence = take n g.buffer in
      let cut = record g { buffer = drop n g.buffer } in
      let rest = finish_loop fuel ids (record cut { released = suc g.released }) in
      if is_empty g.buffer
      then ([], g)
      else if is_empty sentence
      then finish_loop fuel ids cut
      else (frame ids sentence ∷ rest.0, rest.1)

  unfoldable pub finish : Gate → Result (List TextFrame × Bool) × Gate
  unfolding finish_loop discard
  finish g =
      if g.limited || is_empty g.buffer
      then (ok ([], g.limited), discard g)
      else elim g.correlation [
        | none ↦ (err assertion, g)
        | some ids ↦
            let r = finish_loop (g.max_sentences - g.released) ids g in
            (ok (r.0, r.1.limited), discard r.1)
      ]
