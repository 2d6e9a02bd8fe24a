-- ===== src/Daemon/Uploads/Names.antt =====
-- The names that uploads get: where they are on Unix, and that they are new there.
use hitch.Prelude.{
  ℕ, zero, suc, ◌≡◌, refl, sym, ap, inl, inr, Bool, true, false, ◌||◌, none, List, [], ◌∷◌, ◌++◌,
  ◌==◌, if◌then◌else◌, Bool-cases, Option-cases, ok-ne-err, ok-injective, ok, err,
}
use hitch.Prelude.Text.{
  Text, codes, text_eq, is_empty, contains, is_whitespace, trim_start, trim_end, split_on,
  split_on-append, split_on_whole,
}
use mathlib.Core.List.{drop_last}
use hitch.Core.Domain.{SessionId}
use hitch.Daemon.Uploads.{
  ErrorCode, invalid_request, sanitize_upload_name, find_file, suffix_name, reserve_from, File,
  reserve_upload_path,
}

-- How Unix walks the parts of a path, from the directory whose components are `at`, without links:
-- empty parts and `.` stay, `..` goes to the parent, and any other part goes down.
abbrev pub walk : List Text → List Text → List Text
walk at [] = at
walk at (part ∷ parts) =
    if is_empty part || text_eq part (codes ".")
    then walk at parts
    else if text_eq part (codes "..")
    then walk (drop_last at) parts
    else walk (at ++ part ∷ []) parts

-- The components of the place that a path from the root names.
abbrev pub resolved : Text → List Text
resolved path = walk [] (split_on b'/' path)

walk-append : (at xs ys : List Text) → walk at (xs ++ ys) ≡ walk (walk at xs) ys
walk-append at [] ys = refl
walk-append at (x ∷ xs) ys = elim (Bool-cases (is_empty x || text_eq x (codes "."))) [
  | inl stays ↦ rw stays (walk-append at xs ys)
  | inr moves ↦ elim (Bool-cases (text_eq x (codes ".."))) [
    | inl up ↦ rw (moves, up) (walk-append (drop_last at) xs ys)
    | inr down ↦ rw (moves, down) (walk-append (at ++ x ∷ []) xs ys)
  ]
]

record Clear (a b c d e f : Bool) : Type 0 where
  first : a ≡ false
  second : b ≡ false
  third : c ≡ false
  fourth : d ≡ false
  fifth : e ≡ false
  sixth : f ≡ false

all-Clear :
    {A : Type 0} (a b c d e f : Bool) (x : ErrorCode) (y z : A)
    → (if a || b || c || d || e || f then err x else ok y) ≡ ok z
    → Clear a b c d e f
all-Clear false false false false false false x y z h = record {
  first = refl;
  second = refl;
  third = refl;
  fourth = refl;
  fifth = refl;
  sixth = refl;
}
all-Clear true _ _ _ _ _ x y z h = cc
all-Clear false true _ _ _ _ x y z h = cc
all-Clear false false true _ _ _ x y z h = cc
all-Clear false false false true _ _ x y z h = cc
all-Clear false false false false true _ x y z h = cc
all-Clear false false false false false true x y z h = cc

abbrev pub trimmed : Text → Text
trimmed name = trim_end is_whitespace (trim_start is_whitespace name)

accepted_is :
    {A : Type 0} {y z : A} (bad : Bool) (x : ErrorCode)
    → (if bad then err x else ok y) ≡ ok z
    → z ≡ y
accepted_is false x h = sym (ok-injective h)
accepted_is true x h = cc

-- A name that `sanitize_upload_name` accepts is the given one without its outer white space, and has
-- no NUL; and on Unix, whatever the directory, the directory, a slash and the name together name the
-- place of that name right in the directory: the name neither leads out of it nor deeper into it.
pub sanitize_upload_name-resolved :
    (name accepted : Text)
    → sanitize_upload_name name ≡ ok accepted
    → (accepted ≡ trimmed name)
      × (contains 0 accepted ≡ false)
      × ((dir : Text) → resolved (dir ++ b'/' ∷ accepted) ≡ resolved dir ++ accepted ∷ [])
unfolding sanitize_upload_name
sanitize_upload_name-resolved name accepted h =
    let t = trimmed name in
    let c =
      all-Clear (is_empty t) (text_eq t (codes ".")) (text_eq t (codes "..")) (contains b'/' t)
        (contains 0x5c t) (contains 0 t) invalid_request t accepted h in
    let same = accepted_is _ invalid_request h in
    (
      same,
      rw same c.sixth,
      λ dir.
          rw
            (
              same,
              split_on-append b'/' dir t,
              split_on_whole b'/' t c.fourth,
              walk-append [] (split_on b'/' dir) (t ∷ []),
              c.first,
              c.second,
              c.third,
            )
            refl,
    )

-- The file that an attempt of `reserve_upload_path` creates: nothing had its name in its directory,
-- the other files stay as they were, and it is empty.
pub record Reserved (dir : SessionId) (files after : List File) (name : Text) : Type 0 where
  pub free : find_file dir name files ≡ none
  pub created : after ≡ files ++ record { dir = dir; name = name; bytes = [] } ∷ []

pub reserve_from-Reserved :
    (fuel attempt : ℕ) (disk : Text → Bool) (dir : SessionId) (name : Text)
    (files after : List File) (final : Text)
    → reserve_from fuel attempt disk dir name files ≡ ok (after, final)
    → Reserved dir files after final
unfolding reserve_from
reserve_from-Reserved zero attempt disk dir name files after final h = cc
reserve_from-Reserved (suc fuel) attempt disk dir name files after final h =
    let candidate = if attempt == 0 then name else suffix_name name attempt in
    elim (Bool-cases (disk candidate)) [
      | inl fails ↦ absurd (ok-ne-err (sym (rw fails at h)))
      | inr works ↦ elim (Option-cases (find_file dir candidate files)) [
        | inl free ↦
            let same = ok-injective (rw (works, free) at h) in
            record {
              free = rw (← ap (λ p. p.1) same) free;
              created = rw (← ap (λ p. p.1) same) (sym (ap (λ p. p.0) same));
            }
        | inr (bytes, taken) ↦
            reserve_from-Reserved fuel (suc attempt) disk dir name files after final
              (rw (works, taken) at h)
      ]
    ]

-- A path that `reserve_upload_path` returns was free in the session's directory, and the reservation
-- adds one empty file of that name and changes no other file.
pub reserve_upload_path-Reserved :
    (disk : Text → Bool) (dir : SessionId) (name : Text) (files after : List File) (final : Text)
    → reserve_upload_path disk dir name files ≡ ok (after, final)
    → Reserved dir files after final
reserve_upload_path-Reserved disk dir name files after final h =
    reserve_from-Reserved 10000 0 disk dir name files after final h
