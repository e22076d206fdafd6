-- ===== src/FakeOrchestrator/Prints.antt =====
-- What scripts/dev/fake-orchestrator.js prints.
use helter_skelter.Prelude.{
  ℕ, zero, suc, ◌+◌, ◌-◌, ◌≤◌, ◌<◌, ◌≡◌, refl, sym, ap, ◌∙◌, Bool, true, false, Bool-cases, inl,
  inr, Text, Option, none, some, List, [], ◌∷◌, ◌++◌, take, length, leb, All, arith,
}
use helter_skelter.Json.Lines.{OneLine}
use helter_skelter.Connection.Framing.Lines.{split_lines, split_lines-AreLines, unlines}
use helter_skelter.Connection.Framing.Loop.{
  index-line, index-tail, take-line, drop-line, length-unlines,
}
use helter_skelter.FakeOrchestrator.{
  Report, report, is_reached, Collected, count_line, collect, on_chunk,
}

-- The lines that are not empty.
abbrev pub written : List Text → List Text
written [] = []
written ([] ∷ ls) = written ls
written ((c ∷ l) ∷ ls) = (c ∷ l) ∷ written ls

-- The reports of lines, numbered from the count on.
abbrev pub numbered : ℕ → List Text → List Report
numbered count [] = []
numbered count (l ∷ ls) = report (count + 1) l ∷ numbered (count + 1) ls

-- Those that are printed: up to the limit, and one if it is reached already.
abbrev pub allowed : Option ℕ → ℕ → List Text → List Text
allowed none count ls = ls
allowed (some most) count ls = take (suc (most - suc count)) ls

abbrev pub is_enough : Option ℕ → ℕ → List Text → Bool
is_enough none count ls = false
is_enough (some most) count ls = leb (suc (most - suc count)) (length ls)

pub record Prints (limit : Option ℕ) (count : ℕ) (ls : List Text) (tail : Text) (c : Collected)
    : Type 0 where
  pub reports : c.reports ≡ numbered count (allowed limit count ls)
  pub message_count : c.message_count ≡ count + length (allowed limit count ls)
  pub exited : c.exited ≡ is_enough limit count ls
  pub buffer : c.exited ≡ false → c.buffer ≡ tail

take-cons-zero : (n : ℕ) (l : Text) (ls : List Text) → n ≡ 0 → take (suc n) (l ∷ ls) ≡ l ∷ []
take-cons-zero zero l ls h = refl
take-cons-zero (suc n) l ls h = absurd (omega (arith, h))

allowed_last :
    (limit : Option ℕ) (count : ℕ) (l : Text) (ls : List Text)
    → is_reached limit (count + 1) ≡ true
    → (allowed limit count (l ∷ ls) ≡ l ∷ []) × (is_enough limit count (l ∷ ls) ≡ true)
allowed_last none count l ls h = cc
allowed_last (some most) count l ls h =
    let done : most ≤ count + 1 = ground arith in
    (take-cons-zero (most - suc count) l ls (omega arith), ground arith)

allowed_more :
    (limit : Option ℕ) (count : ℕ) (l : Text) (ls : List Text)
    → is_reached limit (count + 1) ≡ false
    → (allowed limit count (l ∷ ls) ≡ l ∷ allowed limit (count + 1) ls)
      × (is_enough limit count (l ∷ ls) ≡ is_enough limit (count + 1) ls)
allowed_more none count l ls h = (refl, refl)
allowed_more (some most) count l ls h =
    let more : count + 1 < most = ground arith in
    let one : most - suc count ≡ suc (most - suc (count + 1)) = omega arith in
    (ap (λ n. take (suc n) (l ∷ ls)) one, ground arith)

-- The loop on the lines of its buffer.
collect-line :
    (f : ℕ) (limit : Option ℕ) (l s : Text) (count : ℕ)
    → OneLine l
    → collect (suc f) limit (l ++ (10 ∷ s)) count ≡ count_line limit l s count (collect f limit s)
unfolding collect
collect-line f limit l s count h =
    rw (index-line l s h, collect) (rw (take-line l s) (rw (drop-line l s) refl))

collect-tail :
    (f : ℕ) (limit : Option ℕ) (t : Text) (count : ℕ)
    → OneLine t
    → collect (suc f) limit t count
      ≡ record { reports = []; buffer = t; message_count = count; exited = false }
unfolding collect
collect-tail f limit t count h = rw (index-tail t h, collect) refl

nothing_allowed :
    (limit : Option ℕ) (count : ℕ)
    → (allowed limit count [] ≡ []) × (is_enough limit count [] ≡ false)
nothing_allowed none count = (refl, refl)
nothing_allowed (some most) count = (refl, ground arith)

pub nothing-Prints :
    (limit : Option ℕ) (count : ℕ) (t : Text)
    → Prints limit count [] t
        (record { reports = []; buffer = t; message_count = count; exited = false })
nothing-Prints limit count t =
    let (a, b) = nothing_allowed limit count in
    record {
      reports = rw a refl;
      message_count = rw a (omega arith);
      exited = sym b;
      buffer = λ _. refl;
    }

line-Prints :
    (limit : Option ℕ) (c : ℕ) (l rest : Text) (count : ℕ) (later : ℕ → Collected) (ls : List Text)
    (tail : Text)
    → Prints limit (count + 1) ls tail (later (count + 1))
    → Prints limit count ((c ∷ l) ∷ ls) tail (count_line limit (c ∷ l) rest count later)
unfolding count_line
line-Prints limit c l rest count later ls tail v =
    elim (Bool-cases (is_reached limit (count + 1))) [
      | inl h ↦
          let (a, b) = allowed_last limit count (c ∷ l) ls h in
          rw (h, count_line)
            (record {
              reports = rw a refl;
              message_count = rw a (omega arith);
              exited = sym b;
              buffer = λ e. cc;
            })
      | inr h ↦
          let (a, b) = allowed_more limit count (c ∷ l) ls h in
          rw (h, count_line)
            (record {
              reports = rw a (ap (λ rs. report (count + 1) (c ∷ l) ∷ rs) v.reports);
              message_count = rw a (omega (arith, v.message_count));
              exited = v.exited ∙ sym b;
              buffer = v.buffer;
            })
    ]

collect-unlines :
    (ls : List Text) (f : ℕ) (limit : Option ℕ) (tail : Text) (count : ℕ)
    → length ls < f
    → All OneLine ls
    → OneLine tail
    → Prints limit count (written ls) tail (collect f limit (unlines ls tail) count)
collect-unlines ls zero limit tail count h hs t = elim h [ ]
collect-unlines [] (suc f) limit tail count h hs t =
    rw (collect-tail f limit tail count t) (nothing-Prints limit count tail)
collect-unlines (l ∷ ls) (suc f) limit tail count h (here, hs) t =
    rw (collect-line f limit l (unlines ls tail) count here)
      (by_line l (λ count. collect-unlines ls f limit tail count (omega arith) hs t))
  where
    by_line :
        (l : Text)
        → ((n : ℕ) → Prints limit n (written ls) tail (collect f limit (unlines ls tail) n))
        → Prints limit count
            (written (l ∷ ls))
            tail
            (count_line limit l (unlines ls tail) count (collect f limit (unlines ls tail)))
    by_line [] later = unfold count_line in later count
    by_line (c ∷ l) later =
        line-Prints limit c l (unlines ls tail) count (collect f limit (unlines ls tail))
          (written ls) tail (later (count + 1))

pub on_chunk-Prints :
    (limit : Option ℕ) (buffer chunk : Text) (count : ℕ)
    → let (ls, tail) = split_lines (buffer ++ chunk) in
      Prints limit count (written ls) tail (on_chunk limit buffer chunk count)
unfolding on_chunk
on_chunk-Prints limit buffer chunk count =
    let text = buffer ++ chunk in
    let (e, hs, t) = split_lines-AreLines text in
    let (ls, tail) = split_lines text in
    let enough : length ls < suc (length text) =
      omega (arith, length-unlines ls tail, ap length e) in
    rw (ap (λ s. collect (suc (length text)) limit s count) (sym e))
      (collect-unlines ls (suc (length text)) limit tail count enough hs t)
