-- ===== src/Connection/Framing/Loop.antt =====
-- The loop of `onData` (bridge/openrct2-plugin/src/connection.ts) handles the lines of its buffer.
use native.Mathlib.Numerals.{add-one}
use helter_skelter.Prelude.{
  ℕ, zero, suc, ◌+◌, ◌≤◌, ◌<◌, ◌≡◌, ◌≢◌, refl, ap, sym, ◌∙◌, false, Text, none, some, List, [], ◌∷◌,
  ◌++◌, take, drop, length, length-append, ◌==◌, if◌then◌else◌, All, arith,
}
use helter_skelter.Json.Lines.{OneLine}
use helter_skelter.Connection.Framing.{
  index_of_newline, is_blank, Outcome, threw, handle_line, settle, drain, on_data,
}
use helter_skelter.Connection.Framing.Lines.{split_lines, unlines, split_lines-AreLines}

pub index-line : (l s : Text) → OneLine l → index_of_newline (l ++ (10 ∷ s)) ≡ some (length l)
unfolding index_of_newline
index-line [] s h = refl
index-line (c ∷ l) s (here, h) =
    let plain : (c == 10) ≡ false = ground arith in
    rw (plain, index_of_newline) (rw (index-line l s h) refl)

pub index-tail : (t : Text) → OneLine t → index_of_newline t ≡ none
unfolding index_of_newline
index-tail [] h = refl
index-tail (c ∷ t) (here, h) =
    let plain : (c == 10) ≡ false = ground arith in
    rw (plain, index_of_newline) (rw (index-tail t h) refl)

pub take-line : (l s : Text) → take (length l) (l ++ (10 ∷ s)) ≡ l
take-line [] s = refl
take-line (c ∷ l) s = ap (λ u. c ∷ u) (take-line l s)

pub drop-line : (l s : Text) → drop (length l + 1) (l ++ (10 ∷ s)) ≡ s
drop-line l s = rw add-one (behind l)
  where
    behind : (l : Text) → drop (suc (length l)) (l ++ (10 ∷ s)) ≡ s
    behind [] = refl
    behind (c ∷ l) = behind l

drain_of_index :
    (f i : ℕ) (b : Text)
    → index_of_newline b ≡ some i
    → drain (suc f) b ≡ settle (take i b) (drop (i + 1) b) (drain f (drop (i + 1) b))
unfolding drain
drain_of_index f i b e = rw (e, drain) refl

pub drain-line :
    (f : ℕ) (l s : Text) → OneLine l → drain (suc f) (l ++ (10 ∷ s)) ≡ settle l s (drain f s)
drain-line f l s h =
    drain_of_index f (length l) (l ++ (10 ∷ s)) (index-line l s h)
    ∙ rw (take-line l s) (rw (drop-line l s) refl)

drain-tail :
    (f : ℕ) (t : Text)
    → OneLine t
    → drain (suc f) t ≡ record { outcomes = []; inbound_buffer = t; thrown = false }
unfolding drain
drain-tail f t h = rw (index-tail t h, drain) refl

-- Each line that is not blank has its outcome.
unfoldable pub outcomes_of : List Text → List Outcome
outcomes_of [] = []
outcomes_of (l ∷ ls) = if is_blank l then outcomes_of ls else handle_line l ∷ outcomes_of ls

abbrev pub NeverThrows : List Text → Type 0
NeverThrows = All (λ l. handle_line l ≢ threw)

settle-fine :
    (l s : Text) (os : List Outcome) (tail : Text)
    → handle_line l ≢ threw
    → settle l s (record { outcomes = os; inbound_buffer = tail; thrown = false }) ≡ record {
      outcomes = if is_blank l then os else handle_line l ∷ os;
      inbound_buffer = tail;
      thrown = false;
    }
unfolding settle
settle-fine l s os tail fine = ground arith

pub drain-unlines :
    (ls : List Text) (f : ℕ) (tail : Text)
    → length ls < f
    → All OneLine ls
    → OneLine tail
    → NeverThrows ls
    → drain f (unlines ls tail)
      ≡ record { outcomes = outcomes_of ls; inbound_buffer = tail; thrown = false }
unfolding outcomes_of
drain-unlines ls zero tail h hs t fine = elim h [ ]
drain-unlines [] (suc f) tail h hs t fine = drain-tail f tail t
drain-unlines (l ∷ ls) (suc f) tail h (here, hs) t (ok, fine) =
    drain-line f l (unlines ls tail) here
    ∙ ap (settle l (unlines ls tail)) (drain-unlines ls f tail (omega arith) hs t fine)
    ∙ settle-fine l (unlines ls tail) (outcomes_of ls) tail ok

pub length-unlines : (ls : List Text) (tail : Text) → length ls ≤ length (unlines ls tail)
length-unlines [] tail = omega arith
length-unlines (l ∷ ls) tail =
    omega (arith, length-append l (10 ∷ unlines ls tail), length-unlines ls tail)

-- If no line throws, a data event handles exactly the complete lines that are not blank, in order, and
-- keeps what stands behind the last newline.
pub on_data_lem :
    (buffer input : Text)
    → NeverThrows (split_lines (buffer ++ input)).0
    → on_data buffer input ≡ record {
      outcomes = outcomes_of (split_lines (buffer ++ input)).0;
      inbound_buffer = (split_lines (buffer ++ input)).1;
      thrown = false;
    }
unfolding on_data
on_data_lem buffer input fine =
    let (e, hs, t) = split_lines-AreLines (buffer ++ input) in
    let (ls, tail) = split_lines (buffer ++ input) in
    let enough : length ls < suc (length (buffer ++ input)) =
      omega (arith, length-unlines ls tail, ap length e) in
    ap (drain (suc (length (buffer ++ input)))) (sym e)
    ∙ drain-unlines ls (suc (length (buffer ++ input))) tail enough hs t fine
