-- ===== src/Daemon/Composite/Order/Base.antt =====
-- Which bases `normalize_pr_base` refuses, told without trimming.
use hitch.Prelude.{
  ℕ, ◌≡◌, refl, ◌∙◌, inl, inr, Bool, true, false, ◌&&◌, Option, none, some, [], ◌∷◌, ◌++◌, arith,
  Bool-cases,
}
use hitch.Prelude.Text.{Text, is_empty, is_whitespace, trim_start, trim_end}
use mathlib.Core.List.{reverse, reverse-cons}

abbrev all : (ℕ → Bool) → Text → Bool
all p [] = true
all p (c ∷ cs) = p c && all p cs

-- No base, or one of white space alone.
abbrev pub is_blank : Option Text → Bool
is_blank none = true
is_blank (some base) = all is_whitespace base

all-append : (p : ℕ → Bool) (s t : Text) → all p (s ++ t) ≡ (all p s && all p t)
all-append p [] t = refl
all-append p (c ∷ cs) t = ground (arith, all-append p cs t)

all-reverse : (p : ℕ → Bool) (s : Text) → all p (reverse s) ≡ all p s
all-reverse p [] = refl
all-reverse p (c ∷ cs) =
    rw (reverse-cons c cs, all-append p (reverse cs) (c ∷ []), all-reverse p cs) (ground arith)

trim_start-all : (p : ℕ → Bool) (s : Text) → is_empty (trim_start p s) ≡ all p s
unfolding trim_start is_empty
trim_start-all p [] = refl
trim_start-all p (c ∷ cs) = elim (Bool-cases (p c)) [
  | inl skipped ↦ rw skipped (trim_start-all p cs)
  | inr kept ↦ rw kept refl
]

all-trim_start : (p : ℕ → Bool) (s : Text) → all p (trim_start p s) ≡ all p s
unfolding trim_start
all-trim_start p [] = refl
all-trim_start p (c ∷ cs) = elim (Bool-cases (p c)) [
  | inl skipped ↦ rw skipped (all-trim_start p cs)
  | inr kept ↦ ground (arith, kept)
]

is_empty-append : (s : Text) (c : ℕ) → is_empty (s ++ c ∷ []) ≡ false
unfolding is_empty
is_empty-append [] c = refl
is_empty-append (d ∷ ds) c = refl

is_empty-reverse : (s : Text) → is_empty (reverse s) ≡ is_empty s
unfolding is_empty
is_empty-reverse [] = refl
is_empty-reverse (c ∷ cs) = rw (reverse-cons c cs) (is_empty-append (reverse cs) c)

pub trimmed-blank :
    (s : Text) → is_empty (trim_end is_whitespace (trim_start is_whitespace s)) ≡ is_blank (some s)
unfolding trim_end
trimmed-blank s =
    let t = trim_start is_whitespace s in
    is_empty-reverse (trim_start is_whitespace (reverse t))
    ∙ trim_start-all is_whitespace (reverse t)
    ∙ all-reverse is_whitespace t
    ∙ all-trim_start is_whitespace s
