-- ===== src/Connection/Framing/Chunks.antt =====
-- How the stream is cut into data events makes no difference
-- (`onData` of bridge/openrct2-plugin/src/connection.ts).
use helter_skelter.Prelude.{
  ◌≡◌, ◌≢◌, refl, ap, sym, ◌∙◌, Text, List, [], ◌∷◌, ◌++◌, append_assoc, append-nil, All-append,
  All-append_left, Bool-cases, inl, inr,
}
use helter_skelter.Json.Lines.{OneLine}
use helter_skelter.Connection.Framing.{Outcome, threw, is_blank, handle_line, on_data}
use helter_skelter.Connection.Framing.Lines.{
  split_lines, split_lines-unlines, split_lines-AreLines, unlines,
}
use helter_skelter.Connection.Framing.Loop.{outcomes_of, NeverThrows, on_data_lem}

-- The data events one after another: all outcomes, and the buffer at the end.
unfoldable pub feed : Text → List Text → List Outcome × Text
feed buffer [] = ([], buffer)
feed buffer (input ∷ inputs) =
    let d = on_data buffer input in
    let (later, buffer') = feed d.inbound_buffer inputs in (d.outcomes ++ later, buffer')

abbrev pub concat : List Text → Text
concat [] = []
concat (d ∷ ds) = d ++ concat ds

outcomes_of-append : (ls ms : List Text) → outcomes_of (ls ++ ms) ≡ outcomes_of ls ++ outcomes_of ms
unfolding outcomes_of
outcomes_of-append [] ms = refl
outcomes_of-append (l ∷ ls) ms = elim (Bool-cases (is_blank l)) [
  | inl blank ↦ rw blank (outcomes_of-append ls ms)
  | inr full ↦ rw full (ap (λ os. handle_line l ∷ os) (outcomes_of-append ls ms))
]

unlines-append :
    (ls ms : List Text) (tail : Text) → unlines (ls ++ ms) tail ≡ unlines ls (unlines ms tail)
unlines-append [] ms tail = refl
unlines-append (l ∷ ls) ms tail = ap (λ s. l ++ (10 ∷ s)) (unlines-append ls ms tail)

append-unlines :
    (ls : List Text) (tail more : Text) → unlines ls tail ++ more ≡ unlines ls (tail ++ more)
append-unlines [] tail more = refl
append-unlines (l ∷ ls) tail more =
    append_assoc l (10 ∷ unlines ls tail) more
    ∙ ap (λ s. l ++ (10 ∷ s)) (append-unlines ls tail more)

-- Cutting in two steps: the tail of the first text goes before the second.
pub split_lines-append :
    (s t : Text)
    → split_lines (s ++ t) ≡ (
      (split_lines s).0 ++ (split_lines ((split_lines s).1 ++ t)).0,
      (split_lines ((split_lines s).1 ++ t)).1,
    )
split_lines-append s t =
    let (e, hs, h) = split_lines-AreLines s in
    let (ls, tail) = split_lines s in
    let (e', hs', h') = split_lines-AreLines (tail ++ t) in
    let (ms, rest) = split_lines (tail ++ t) in
    let whole : s ++ t ≡ unlines (ls ++ ms) rest =
      ap (λ u. u ++ t) (sym e)
      ∙ append-unlines ls tail t
      ∙ ap (unlines ls) (sym e')
      ∙ sym (unlines-append ls ms rest) in
    ap split_lines whole ∙ split_lines-unlines (ls ++ ms) rest (All-append OneLine ls ms hs hs') h'

-- If the buffer holds no newline and no line of the stream throws, then the outcomes of its lines and
-- the text left in the buffer are those of the whole stream, however it is cut into data events.
pub feed_lem :
    (inputs : List Text) (buffer : Text)
    → OneLine buffer
    → NeverThrows (split_lines (buffer ++ concat inputs)).0
    → feed buffer inputs ≡ (
      outcomes_of (split_lines (buffer ++ concat inputs)).0,
      (split_lines (buffer ++ concat inputs)).1,
    )
unfolding feed
feed_lem [] buffer line fine =
    rw (append-nil buffer) (rw (split_lines-unlines [] buffer tt line) (unfold outcomes_of in refl))
feed_lem (input ∷ inputs) buffer line fine =
    let s = buffer ++ input in
    let more = concat inputs in
    let whole : split_lines (buffer ++ (input ++ more)) ≡ (
      (split_lines s).0 ++ (split_lines ((split_lines s).1 ++ more)).0,
      (split_lines ((split_lines s).1 ++ more)).1,
    ) =
      ap split_lines (sym (append_assoc buffer input more)) ∙ split_lines-append s more in
    let (now, later) =
      All-append_left (λ l. handle_line l ≢ threw) (split_lines s).0
        (split_lines ((split_lines s).1 ++ more)).0 (rw (ap (λ p. p.0) whole) at fine) in
    let (e, hs, tail) = split_lines-AreLines s in
    let ih = feed_lem inputs (split_lines s).1 tail later in
    rw (on_data_lem buffer input now) (
      rw ih (
        rw whole (
          rw (outcomes_of-append (split_lines s).0 (split_lines ((split_lines s).1 ++ more)).0)
            refl)))
