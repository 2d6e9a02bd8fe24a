-- ===== src/Core/Quoting.antt =====
-- The two quoting functions: `powershell_single_quoted` of crates/hitch-core/src/lib.rs and
-- `posix_sh_quote` of crates/hitch-git/src/lib.rs, and what a shell reads back.
use hitch.Prelude.{
  ℕ, ◌≡◌, refl, inl, inr, Bool, ◌&&◌, ◌||◌, Option, none, some, [], ◌∷◌, ◌++◌, arith, leb, ◌==◌,
  if◌then◌else◌, Bool-cases,
}
use hitch.Prelude.Text.{Text, codes}

unfoldable pub escaped : Text → Text
escaped [] = []
escaped (c ∷ cs) = let rest = escaped cs in if c == b'\'' then codes "'\\''" ++ rest else c ∷ rest

unfoldable pub posix_sh_quote : Text → Text
unfolding escaped
posix_sh_quote value = b'\'' ∷ (escaped value ++ b'\'' ∷ [])

-- `value.replace('\'', "''")`
doubled : Text → Text
doubled [] = []
doubled (c ∷ cs) = let rest = doubled cs in if c == b'\'' then codes "''" ++ rest else c ∷ rest

unfoldable pub powershell_single_quoted : Text → Text
unfolding doubled
powershell_single_quoted value = b'\'' ∷ (doubled value ++ b'\'' ∷ [])

-- A word as `sh` reads it: a quote opens and closes a part in which every character is literal, and
-- a backslash outside takes the next character literally. Other characters that mean something to
-- `sh` outside the quotes are no word here.
is_plain : ℕ → Bool
is_plain c =
    (leb b'a' c && leb c b'z')
    || (leb b'A' c && leb c b'Z')
    || (leb b'0' c && leb c b'9')
    || c == b'-'

onto : ℕ → Option Text → Option Text
onto c none = none
onto c (some word) = some (c ∷ word)

unfoldable mutual
  unfolding onto is_plain

  pub sh_outside : Text → Option Text
  sh_outside [] = some []
  sh_outside (c ∷ cs) =
      let quoted = sh_inside cs in
      let taken = sh_escape cs in
      let rest = sh_outside cs in
      if c == b'\''
      then quoted
      else if c == 0x5c
      then taken
      else if is_plain c
      then onto c rest
      else none

  pub sh_inside : Text → Option Text
  sh_inside [] = none
  sh_inside (c ∷ cs) =
      let out = sh_outside cs in let rest = sh_inside cs in if c == b'\'' then out else onto c rest

  pub sh_escape : Text → Option Text
  sh_escape [] = none
  sh_escape (c ∷ cs) = onto c (sh_outside cs)

sh_inside-escaped : (value : Text) → sh_inside (escaped value ++ b'\'' ∷ []) ≡ some value
unfolding sh_outside sh_inside sh_escape escaped onto
sh_inside-escaped [] = refl
sh_inside-escaped (c ∷ cs) = elim (Bool-cases (c == b'\'')) [
  | inl quote ↦
      let e : c ≡ b'\'' = ground (arith, quote) in rw (quote, sh_inside-escaped cs, e) refl
  | inr plain ↦ rw (plain, plain, sh_inside-escaped cs) refl
]

-- `sh` reads what `posix_sh_quote` writes as one word, which is the value, whatever characters it
-- has.
pub sh_outside-posix_sh_quote : (value : Text) → sh_outside (posix_sh_quote value) ≡ some value
unfolding sh_outside posix_sh_quote
sh_outside-posix_sh_quote value = sh_inside-escaped value

-- A PowerShell single-quoted literal: a doubled quote is a quote, and a single one ends the literal.
unfoldable mutual
  unfolding onto

  pub ps_inside : Text → Option Text
  ps_inside [] = none
  ps_inside (c ∷ cs) =
      let quote = ps_quote cs in
      let rest = ps_inside cs in if c == b'\'' then quote else onto c rest

  pub ps_quote : Text → Option Text
  ps_quote [] = some []
  ps_quote (c ∷ cs) = let rest = ps_inside cs in if c == b'\'' then onto c rest else none

abbrev pub ps_literal : Text → Option Text
ps_literal [] = none
ps_literal (c ∷ cs) = let rest = ps_inside cs in if c == b'\'' then rest else none

ps_inside-doubled : (value : Text) → ps_inside (doubled value ++ b'\'' ∷ []) ≡ some value
unfolding ps_inside ps_quote doubled onto
ps_inside-doubled [] = refl
ps_inside-doubled (c ∷ cs) = elim (Bool-cases (c == b'\'')) [
  | inl quote ↦
      let e : c ≡ b'\'' = ground (arith, quote) in rw (quote, ps_inside-doubled cs, e) refl
  | inr plain ↦ rw (plain, plain, ps_inside-doubled cs) refl
]

-- PowerShell reads what `powershell_single_quoted` writes as one single-quoted literal, whose value
-- is the given one, whatever characters it has.
pub ps_literal-powershell_single_quoted :
    (value : Text) → ps_literal (powershell_single_quoted value) ≡ some value
unfolding powershell_single_quoted
ps_literal-powershell_single_quoted value = ps_inside-doubled value
