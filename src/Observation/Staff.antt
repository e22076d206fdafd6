-- ===== src/Observation/Staff.antt =====
-- The staff counts of bridge/openrct2-plugin/src/observation.ts.
use mathlib.Core.List.{foldl}
use helter_skelter.Prelude.{
  ℕ, suc, ◌+◌, ◌≡◌, refl, ap, ◌∙◌, Bool, true, false, Bool-cases, inl, inr, Text, codes, text_eq,
  eq_of_text_eq, List, [], ◌∷◌, if◌then◌else◌, arith,
}
use helter_skelter.Prelude.Int.{pos}
use helter_skelter.Protocol.{StaffCounts}
use helter_skelter.Observation.{increment, count_staff, build_staff_counts}

-- How often a name stands in a list.
abbrev pub count : Text → List Text → ℕ
count name [] = 0
count name (t ∷ ts) = if text_eq t name then suc (count name ts) else count name ts

abbrev bump : Bool → ℕ → ℕ
bump true n = suc n
bump false n = n

abbrev counts : ℕ → ℕ → ℕ → ℕ → StaffCounts
counts h m s e = record {
  handyman = pos h;
  mechanic = pos m;
  security = pos s;
  entertainer = pos e;
}

abbrev stepped : ℕ → ℕ → ℕ → ℕ → Text → StaffCounts
stepped h m s e t =
    counts (bump (text_eq t (codes "handyman")) h) (bump (text_eq t (codes "mechanic")) m)
      (bump (text_eq t (codes "security")) s) (bump (text_eq t (codes "entertainer")) e)

count_staff-counts : (h m s e : ℕ) (t : Text) → count_staff (counts h m s e) t ≡ stepped h m s e t
unfolding count_staff text_eq increment
count_staff-counts h m s e t = elim (Bool-cases (text_eq t (codes "handyman"))) [
  | inl same ↦ rw (eq_of_text_eq t (codes "handyman") same) refl
  | inr no₁ ↦ elim (Bool-cases (text_eq t (codes "mechanic"))) [
    | inl same ↦ rw (eq_of_text_eq t (codes "mechanic") same) refl
    | inr no₂ ↦ elim (Bool-cases (text_eq t (codes "security"))) [
      | inl same ↦ rw (eq_of_text_eq t (codes "security") same) refl
      | inr no₃ ↦ elim (Bool-cases (text_eq t (codes "entertainer"))) [
        | inl same ↦ rw (eq_of_text_eq t (codes "entertainer") same) refl
        | inr no₄ ↦ rw no₁ (rw no₂ (rw no₃ (rw no₄ refl)))
      ]
    ]
  ]
]

count-bump :
    (name t : Text) (ts : List Text) (n : ℕ)
    → bump (text_eq t name) n + count name ts ≡ n + count name (t ∷ ts)
count-bump name t ts n = elim (Bool-cases (text_eq t name)) [
  | inl h ↦ rw h (omega arith)
  | inr h ↦ rw h refl
]

counts-ap :
    {h h' m m' s s' e e' : ℕ}
    → h ≡ h'
    → m ≡ m'
    → s ≡ s'
    → e ≡ e'
    → counts h m s e ≡ counts h' m' s' e'
counts-ap p q r t = cc

foldl-counts :
    (ts : List Text) (h m s e : ℕ)
    → foldl count_staff (counts h m s e) ts
      ≡ counts
          (h + count (codes "handyman") ts)
          (m + count (codes "mechanic") ts)
          (s + count (codes "security") ts)
          (e + count (codes "entertainer") ts)
foldl-counts [] h m s e = counts-ap (omega arith) (omega arith) (omega arith) (omega arith)
foldl-counts (t ∷ ts) h m s e =
    ap (λ k. foldl count_staff k ts) (count_staff-counts h m s e t)
    ∙ foldl-counts ts (bump (text_eq t (codes "handyman")) h)
        (bump (text_eq t (codes "mechanic")) m) (bump (text_eq t (codes "security")) s)
        (bump (text_eq t (codes "entertainer")) e)
    ∙ counts-ap (count-bump (codes "handyman") t ts h) (count-bump (codes "mechanic") t ts m)
        (count-bump (codes "security") t ts s) (count-bump (codes "entertainer") t ts e)

-- Each staff count is the number of the staff that have this type.
build_staff_counts_lem :
    (ts : List Text)
    → build_staff_counts ts ≡ record {
      handyman = pos (count (codes "handyman") ts);
      mechanic = pos (count (codes "mechanic") ts);
      security = pos (count (codes "security") ts);
      entertainer = pos (count (codes "entertainer") ts);
    }
unfolding build_staff_counts
build_staff_counts_lem ts =
    foldl-counts ts 0 0 0 0 ∙ counts-ap (omega arith) (omega arith) (omega arith) (omega arith)
