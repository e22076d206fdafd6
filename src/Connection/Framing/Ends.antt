-- ===== src/Connection/Framing/Ends.antt =====
-- The loop of `onData` (bridge/openrct2-plugin/src/connection.ts) ends.
use helter_skelter.Prelude.{
  ℕ, zero, suc, ◌+◌, ◌<◌, ◌≡◌, refl, ap, true, false, Bool-cases, inl, inr, ◌⊎◌, Text, Option, none,
  some, Option-cases, [], ◌∷◌, ◌++◌, take, drop, length, length-drop, ◌==◌, arith,
}
use helter_skelter.Json.{Json}
use helter_skelter.Json.Lines.{OneLine}
use helter_skelter.Connection.Framing.{
  index_of_newline, is_blank, Outcome, dispatched, logged, threw, handle_line, Drained, settle,
  drain, on_data,
}

abbrev behind : ℕ → Option ℕ → Option ℕ
behind c o = elim (c == 10) [
  | true ↦ some 0
  | false ↦ elim o [ none ↦ none | some i ↦ some (suc i) ]
]

-- Where there is no newline, the text is one line.
index-none : (b : Text) → index_of_newline b ≡ none → OneLine b
unfolding index_of_newline
index-none [] e = tt
index-none (c ∷ b) e = elim (Option-cases (index_of_newline b)) [
  | inl h ↦ (ground (arith, h), index-none b h)
  | inr (i, h) ↦ absurd (ground (arith, h))
]

-- A newline stands inside the text.
index-lt : (b : Text) (i : ℕ) → index_of_newline b ≡ some i → i < length b
unfolding index_of_newline
index-lt [] i e = cc
index-lt (c ∷ b) i e = elim (Option-cases (index_of_newline b)) [
  | inl h ↦ ground (arith, h)
  | inr (j, h) ↦ ground (arith, h, index-lt b j h)
]

-- How a run of the loop may end.
abbrev pub HasEnded : Drained → Type 0
HasEnded d = (d.thrown ≡ true) ⊎ OneLine d.inbound_buffer

Outcome-cases : (o : Outcome) → (o ≡ threw) ⊎ (((v : Json) × (o ≡ dispatched v)) ⊎ (o ≡ logged))
Outcome-cases (dispatched v) = inr (inl (v, refl))
Outcome-cases logged = inr (inr refl)
Outcome-cases threw = inl refl

settle-HasEnded :
    (l rest : Text) (later : Drained) → HasEnded later → HasEnded (settle l rest later)
unfolding settle
settle-HasEnded l rest later h = elim (Bool-cases (is_blank l)) [
  | inl blank ↦ rw (blank, settle) h
  | inr written ↦ elim (Outcome-cases (handle_line l)) [
    | inl thrown ↦ rw (written, settle) (rw (thrown, settle) (inl refl))
    | inr (inl (v, e)) ↦ rw (written, settle) (rw (e, settle) h)
    | inr (inr e) ↦ rw (written, settle) (rw (e, settle) h)
  ]
]

drain-HasEnded : (f : ℕ) (b : Text) → length b < f → HasEnded (drain f b)
unfolding drain
drain-HasEnded zero b h = elim h [ ]
drain-HasEnded (suc f) b h = elim (Option-cases (index_of_newline b)) [
  | inl e ↦ rw (e, drain) (inr (index-none b e))
  | inr (i, e) ↦
      rw (e, drain)
        (settle-HasEnded (take i b) (drop (i + 1) b) (drain f (drop (i + 1) b)) (
          drain-HasEnded f (drop (i + 1) b) (omega (arith, length-drop (i + 1) b, index-lt b i e))))
]

drain-eq : (f g : ℕ) (b : Text) → length b < f → length b < g → drain f b ≡ drain g b
unfolding drain
drain-eq zero g b h k = elim h [ ]
drain-eq (suc f) zero b h k = elim k [ ]
drain-eq (suc f) (suc g) b h k = elim (Option-cases (index_of_newline b)) [
  | inl e ↦ rw (e, drain) refl
  | inr (i, e) ↦
      let less : length (drop (i + 1) b) < length b =
        omega (arith, length-drop (i + 1) b, index-lt b i e) in
      rw (e, drain)
        (ap (settle (take i b) (drop (i + 1) b))
          (drain-eq f g (drop (i + 1) b) (omega arith) (omega arith)))
]

-- On any buffer and any data, whether or not a line throws: the loop needs no more rounds than the text
-- has units and one, since it gives the same for any greater number, and it ends by an exception or
-- because no newline is left in the buffer.
pub on_data-ends :
    (buffer input : Text) (rounds : ℕ)
    → length (buffer ++ input) < rounds
    → (drain rounds (buffer ++ input) ≡ on_data buffer input) × HasEnded (on_data buffer input)
unfolding on_data
on_data-ends buffer input rounds h = (
  drain-eq rounds (suc (length (buffer ++ input))) (buffer ++ input) h (omega arith),
  drain-HasEnded (suc (length (buffer ++ input))) (buffer ++ input) (omega arith),
)
