-- ===== src/AgentHooks/Again/Contains.antt =====
-- What `str::contains` finds in a command line: a part without quotes is still there when the text is
-- quoted or has other text around it.
use hitch.Prelude.{
  ◌≡◌, refl, inl, inr, Bool, true, false, ◌||◌, [], ◌∷◌, ◌++◌, arith, ◌==◌, Bool-cases,
}
use hitch.Prelude.Text.{Text}
use hitch.AgentHooks.Install.{starts_with, contains_text}
use hitch.AgentHooks.Entries

or-left : (a b : Bool) → a ≡ true → a || b ≡ true
or-left true b e = refl
or-left false b e = absurd (cc e)

or-right : (a b : Bool) → b ≡ true → a || b ≡ true
or-right true b e = refl
or-right false b e = e

starts_with-append : (p a b : Text) → starts_with p a ≡ true → starts_with p (a ++ b) ≡ true
unfolding starts_with
starts_with-append [] a b h = refl
starts_with-append (c ∷ p) [] b h = absurd (cc h)
starts_with-append (c ∷ p) (d ∷ a) b h = elim (Bool-cases (c == d)) [
  | inl same ↦ rw same (starts_with-append p a b (rw same at h))
  | inr other ↦ absurd (cc (rw other at h))
]

starts_with-contains : (p a : Text) → starts_with p a ≡ true → contains_text p a ≡ true
unfolding contains_text
starts_with-contains p [] h = h
starts_with-contains p (c ∷ a) h = or-left (starts_with p (c ∷ a)) (contains_text p a) h

pub contains_behind : (p a b : Text) → contains_text p b ≡ true → contains_text p (a ++ b) ≡ true
unfolding contains_text
contains_behind p [] b h = h
contains_behind p (c ∷ a) b h =
    or-right (starts_with p (c ∷ (a ++ b))) (contains_text p (a ++ b)) (contains_behind p a b h)

pub contains_before : (p a b : Text) → contains_text p a ≡ true → contains_text p (a ++ b) ≡ true
unfolding contains_text
contains_before p [] b h = starts_with-contains p b (starts_with-append p [] b h)
contains_before p (c ∷ a) b h = elim (Bool-cases (starts_with p (c ∷ a))) [
  | inl here ↦
      or-left (starts_with p (c ∷ (a ++ b))) (contains_text p (a ++ b))
        (starts_with-append p (c ∷ a) b here)
  | inr later ↦
      or-right (starts_with p (c ∷ (a ++ b))) (contains_text p (a ++ b))
        (contains_before p a b (rw later at h))
]

-- A text without a quote.
abbrev pub HasNoQuote : Text → Type 0
HasNoQuote [] = Unit {0}
HasNoQuote (c ∷ p) = ((c == b'\'') ≡ false) × HasNoQuote p

module _ (by : Text) where
  starts_with-quote :
      (p s : Text)
      → HasNoQuote p
      → starts_with p s ≡ true
      → starts_with p (Entries.replace_quote by s) ≡ true
  unfolding starts_with Entries.replace_quote
  starts_with-quote [] s q h = refl
  starts_with-quote (c ∷ p) [] q h = absurd (cc h)
  starts_with-quote (c ∷ p) (d ∷ s) (q, qs) h = elim (Bool-cases (c == d)) [
    | inl same ↦
        let c≡d : c ≡ d = ground (arith, same) in
        let no : (d == b'\'') ≡ false = rw⁻¹ c≡d q in
        rw (no, same) (starts_with-quote p s qs (rw same at h))
    | inr other ↦ absurd (cc (rw other at h))
  ]

  contains-quote :
      (p s : Text)
      → HasNoQuote p
      → contains_text p s ≡ true
      → contains_text p (Entries.replace_quote by s) ≡ true
  unfolding contains_text Entries.replace_quote
  contains-quote p [] q h = h
  contains-quote p (d ∷ s) q h = elim (Bool-cases (starts_with p (d ∷ s))) [
    | inl here ↦
        starts_with-contains p (Entries.replace_quote by (d ∷ s))
          (starts_with-quote p (d ∷ s) q here)
    | inr later ↦
        let rest = contains-quote p s q (rw later at h) in
        elim (Bool-cases (d == b'\'')) [
          | inl quote ↦ rw quote (contains_behind p by (Entries.replace_quote by s) rest)
          | inr other ↦ rw other (contains_behind p (d ∷ []) (Entries.replace_quote by s) rest)
        ]
  ]

  pub contains-quoted :
      (p s : Text)
      → HasNoQuote p
      → contains_text p s ≡ true
      → contains_text p (Entries.quoted by s) ≡ true
  contains-quoted p s q h =
      contains_behind p (b'\'' ∷ []) (Entries.replace_quote by s ++ b'\'' ∷ [])
        (contains_before p (Entries.replace_quote by s) (b'\'' ∷ []) (contains-quote p s q h))
