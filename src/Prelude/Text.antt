-- ===== src/Prelude/Text.antt =====
-- Texts that the program walks, as lists of code points, and the operations of `str` and of
-- `std::path` on Unix that it uses on them.
use Prim.Native.Nat.{ℕ}
use Prim.Native.Char.{code}
use Prim.Native.String.{String}
use mathlib.Core.Path.{◌≡◌, refl, ap, ◌∙◌}
use mathlib.Core.Logic.{◌↔◌, ◌≢◌, inl, inr}
use mathlib.Core.Bool.{Bool, true, false, ◌&&◌, ◌||◌}
use mathlib.Core.Option.{Option, none, some}
use mathlib.Core.List.{List, [], ◌∷◌, ◌++◌, reverse}
use native.Mathlib.Omega.{arith}
use hitch.Prelude.Tests.{leb, ◌==◌, if◌then◌else◌, Bool-cases}

abbrev pub Text : Type 0
Text = List ℕ

abbrev pub codes : String → Text
codes String.[] = []
codes (String.◌∷◌ c s) = code c ∷ codes s

unfoldable pub text_eq : Text → Text → Bool
text_eq [] [] = true
text_eq (c ∷ cs) (d ∷ ds) = c == d && text_eq cs ds
text_eq _ _ = false

pub text_eq_iff : (a b : Text) → (text_eq a b ≡ true) ↔ (a ≡ b)
unfolding text_eq
text_eq_iff (c ∷ cs) (d ∷ ds) = ground (arith, text_eq_iff cs ds)
text_eq_iff [] [] = ground arith
text_eq_iff _ _ = ground arith

unfoldable pub is_empty : Text → Bool
is_empty [] = true
is_empty (_ ∷ _) = false

-- `str::contains` with one character.
unfoldable pub contains : ℕ → Text → Bool
contains c [] = false
contains c (d ∷ ds) = d == c || contains c ds

-- `char::is_whitespace`: the code points with the property White_Space.
unfoldable pub is_whitespace : ℕ → Bool
is_whitespace c =
    (leb 9 c && leb c 13)
    || c == 0x20
    || c == 0x85
    || c == 0xa0
    || c == 0x1680
    || (leb 0x2000 c && leb c 0x200a)
    || c == 0x2028
    || c == 0x2029
    || c == 0x202f
    || c == 0x205f
    || c == 0x3000

-- `str::trim_start_matches` with a test.
unfoldable pub trim_start : (ℕ → Bool) → Text → Text
trim_start p [] = []
trim_start p (c ∷ cs) = if p c then trim_start p cs else c ∷ cs

unfoldable pub trim_end : (ℕ → Bool) → Text → Text
unfolding trim_start
trim_end p s = reverse (trim_start p (reverse s))

word : Text → Text
word [] = []
word (c ∷ cs) = if is_whitespace c then [] else c ∷ word cs

some_word : Text → Option Text
some_word [] = none
some_word (c ∷ cs) = some (word (c ∷ cs))

-- `s.split_whitespace().next()`
unfoldable pub first_word : Text → Option Text
unfolding some_word word trim_start is_whitespace
first_word s = some_word (trim_start is_whitespace s)

onto_first : ℕ → List Text → List Text
onto_first c [] = (c ∷ []) ∷ []
onto_first c (s ∷ ss) = (c ∷ s) ∷ ss

-- `s.split(sep)`
unfoldable pub split_on : ℕ → Text → List Text
unfolding onto_first
split_on sep [] = [] ∷ []
split_on sep (c ∷ cs) =
    let rest = split_on sep cs in if c == sep then [] ∷ rest else onto_first c rest

onto_first-ne-nil : (c : ℕ) (ss : List Text) → onto_first c ss ≢ []
unfolding onto_first
onto_first-ne-nil c [] h = cc
onto_first-ne-nil c (s ∷ ss) h = cc

split_on-ne-nil : (sep : ℕ) (s : Text) → split_on sep s ≢ []
unfolding split_on
split_on-ne-nil sep [] h = cc
split_on-ne-nil sep (c ∷ cs) h = elim (Bool-cases (c == sep)) [
  | inl here ↦ cc (rw here at h)
  | inr other ↦ onto_first-ne-nil c (split_on sep cs) (rw other at h)
]

onto_first-append :
    (c : ℕ) (ss ts : List Text) → ss ≢ [] → onto_first c (ss ++ ts) ≡ onto_first c ss ++ ts
unfolding onto_first
onto_first-append c [] ts h = absurd (h refl)
onto_first-append c (s ∷ ss) ts h = refl

-- Splitting at a separator that stands between two texts.
pub split_on-append :
    (sep : ℕ) (s t : Text) → split_on sep (s ++ sep ∷ t) ≡ split_on sep s ++ split_on sep t
unfolding split_on
split_on-append sep [] t = let same : (sep == sep) ≡ true = ground arith in rw same refl
split_on-append sep (c ∷ cs) t = elim (Bool-cases (c == sep)) [
  | inl here ↦ rw here (ap (λ ss. [] ∷ ss) (split_on-append sep cs t))
  | inr other ↦ rw other (
      ap (onto_first c) (split_on-append sep cs t)
      ∙ onto_first-append c (split_on sep cs) (split_on sep t) (split_on-ne-nil sep cs))
]

-- A text without the separator is one piece.
pub split_on_whole : (sep : ℕ) (s : Text) → contains sep s ≡ false → split_on sep s ≡ s ∷ []
unfolding split_on contains onto_first
split_on_whole sep [] h = refl
split_on_whole sep (c ∷ cs) h =
    let other : (c == sep) ≡ false = ground (arith, h) in
    rw (other) (ap (onto_first c) (split_on_whole sep cs (ground (arith, h))))

last_normal : List Text → Option Text
last_normal [] = none
last_normal (s ∷ ss) =
    let earlier = last_normal ss in
    if is_empty s || text_eq s (codes ".")
    then earlier
    else if text_eq s (codes "..")
    then none
    else some s

-- `Path::file_name` on Unix: the last component, where it is a normal one.
unfoldable pub file_name : Text → Option Text
unfolding last_normal split_on text_eq is_empty
file_name p = last_normal (reverse (split_on b'/' p))

abbrev pub unwrap_or {ℓ} : {A : Type ℓ} → A → Option A → A
unwrap_or d none = d
unwrap_or d (some a) = a
