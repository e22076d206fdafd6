-- ===== src/Connection/Framing/Lines.antt =====
-- The cutting of a stream into lines, as a recursion on the stream: the reference for the loop of
-- `onData` (bridge/openrct2-plugin/src/connection.ts).
use helter_skelter.Prelude.{
  ℕ, ◌≡◌, ◌≢◌, refl, ap, ◌∙◌, false, Bool-cases, inl, inr, Text, List, [], ◌∷◌, ◌++◌, ◌==◌,
  if◌then◌else◌, All, arith,
}
use helter_skelter.Json.Lines.{OneLine}

-- The lines that are complete, and what stands behind the last of them.
abbrev pub prepend : ℕ → List Text × Text → List Text × Text
prepend c ([], tail) = ([], c ∷ tail)
prepend c (l ∷ ls, tail) = ((c ∷ l) ∷ ls, tail)

abbrev pub cut : List Text × Text → List Text × Text
cut (ls, tail) = ([] ∷ ls, tail)

unfoldable pub split_lines : Text → List Text × Text
split_lines [] = ([], [])
split_lines (c ∷ s) = if c == 10 then cut (split_lines s) else prepend c (split_lines s)

-- Each line closed by a newline, and a tail.
abbrev pub unlines : List Text → Text → Text
unlines [] tail = tail
unlines (l ∷ ls) tail = l ++ (10 ∷ unlines ls tail)

prepend-line :
    (c : ℕ) (p : List Text × Text) (l : Text) (ls : List Text) (tail : Text)
    → p ≡ (l ∷ ls, tail)
    → prepend c p ≡ ((c ∷ l) ∷ ls, tail)
prepend-line c p l ls tail e = rw e refl

split_lines-line :
    (l s : Text)
    → OneLine l
    → split_lines (l ++ (10 ∷ s)) ≡ (l ∷ (split_lines s).0, (split_lines s).1)
unfolding split_lines
split_lines-line [] s h = refl
split_lines-line (c ∷ l) s (here, h) =
    let plain : (c == 10) ≡ false = ground arith in
    rw plain (prepend-line c _ l _ _ (split_lines-line l s h))

split_lines-tail : (t : Text) → OneLine t → split_lines t ≡ ([], t)
unfolding split_lines
split_lines-tail [] h = refl
split_lines-tail (c ∷ t) (here, h) =
    let plain : (c == 10) ≡ false = ground arith in rw plain (rw (split_lines-tail t h) refl)

pub split_lines-unlines :
    (ls : List Text) (tail : Text)
    → All OneLine ls
    → OneLine tail
    → split_lines (unlines ls tail) ≡ (ls, tail)
split_lines-unlines [] tail hs h = split_lines-tail tail h
split_lines-unlines (l ∷ ls) tail (here, hs) h =
    split_lines-line l (unlines ls tail) here ∙ rw (split_lines-unlines ls tail hs h) refl

-- The pieces of a text are lines, and make it up.
abbrev pub AreLines : List Text × Text → Text → Type 0
AreLines p s = (unlines p.0 p.1 ≡ s) × All OneLine p.0 × OneLine p.1

prepend-AreLines :
    (c : ℕ) (p : List Text × Text) (s : Text)
    → c ≢ 10
    → AreLines p s
    → AreLines (prepend c p) (c ∷ s)
prepend-AreLines c ([], tail) s h (e, ls, t) = (ap (λ u. c ∷ u) e, tt, (h, t))
prepend-AreLines c (l ∷ ls, tail) s h (e, (first, rest), t) =
    (ap (λ u. c ∷ u) e, ((h, first), rest), t)

pub split_lines-AreLines : (s : Text) → AreLines (split_lines s) s
unfolding split_lines
split_lines-AreLines [] = (refl, tt, tt)
split_lines-AreLines (c ∷ s) = elim (Bool-cases (c == 10)) [
  | inl newline ↦
      let (e, hs, t) = split_lines-AreLines s in
      let feed : c ≡ 10 = ground arith in rw newline (rw feed (ap (λ u. 10 ∷ u) e), (tt, hs), t)
  | inr plain ↦
      rw plain (prepend-AreLines c (split_lines s) s (ground arith) (split_lines-AreLines s))
]
