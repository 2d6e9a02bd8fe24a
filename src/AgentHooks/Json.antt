-- ===== src/AgentHooks/Json.antt =====
-- `serde_json::Value` as crates/hitch-agent/src/lib.rs uses it. An object is a map, whose members
-- stand in any order here; numbers are kept as their text.
use hitch.Prelude.{
  ℕ, suc, ◌≡◌, refl, ap, ◌∙◌, inl, inr, Bool, true, false, ◌&&◌, ◌||◌, Option, none, some, ◌==◌,
  if◌then◌else◌, Bool-cases,
}
use hitch.Prelude.Text.{Text, text_eq, text_eq_iff}

mutual
  pub data Value : Type 0 where
    null : Value
    bool : Bool → Value
    number : Text → Value
    string : Text → Value
    array : Values → Value
    object : Members → Value

  pub data Values : Type 0 where
    nil : Values
    item : Value → Values → Values

  pub data Members : Type 0 where
    done : Members
    member : Text → Value → Members → Members

unfoldable pub get_member : Text → Members → Option Value
get_member k done = none
get_member k (member j v m) = if text_eq j k then some v else get_member k m

unfoldable pub insert_member : Text → Value → Members → Members
insert_member k v done = member k v done
insert_member k v (member j w m) =
    let kept = member j w (insert_member k v m) in if text_eq j k then member k v m else kept

unfoldable pub remove_member : Text → Members → Members
remove_member k done = done
remove_member k (member j w m) =
    let rest = remove_member k m in if text_eq j k then rest else member j w rest

abbrev size : Members → ℕ
size done = 0
size (member k v m) = suc (size m)

unfoldable mutual
  pub value_eq : Value → Value → Bool
  value_eq null null = true
  value_eq (bool true) (bool b) = b
  value_eq (bool false) (bool true) = false
  value_eq (bool false) (bool false) = true
  value_eq (number a) (number b) = text_eq a b
  value_eq (string a) (string b) = text_eq a b
  value_eq (array a) (array b) = values_eq a b
  value_eq (object a) (object b) = size a == size b && members_eq a b
  value_eq _ _ = false

  values_eq : Values → Values → Bool
  values_eq nil nil = true
  values_eq (item v vs) (item w ws) = value_eq v w && values_eq vs ws
  values_eq _ _ = false

  members_eq : Members → Members → Bool
  members_eq done b = true
  members_eq (member k v a) b =
      elim (get_member k b) [ none ↦ false | some w ↦ value_eq v w ] && members_eq a b

abbrev pub is_nil : Values → Bool
is_nil nil = true
is_nil (item v vs) = false

abbrev pub push : Values → Values → Values
push nil ws = ws
push (item v vs) ws = item v (push vs ws)

unfoldable pub contains_value : Value → Values → Bool
contains_value v nil = false
contains_value v (item w ws) = value_eq w v || contains_value v ws

abbrev pub as_array : Option Value → Option Values
as_array (some (array vs)) = some vs
as_array _ = none

abbrev pub as_object : Option Value → Option Members
as_object (some (object m)) = some m
as_object _ = none

abbrev pub as_str : Option Value → Option Text
as_str (some (string s)) = some s
as_str _ = none

-- `Value::get` with a key.
abbrev pub field : Text → Value → Option Value
field k (object m) = get_member k m
field k _ = none

pub push-nil : (vs : Values) → push vs nil ≡ vs
push-nil nil = refl
push-nil (item v vs) = ap (item v) (push-nil vs)

pub push_assoc : (us vs ws : Values) → push (push us vs) ws ≡ push us (push vs ws)
push_assoc nil vs ws = refl
push_assoc (item u us) vs ws = ap (item u) (push_assoc us vs ws)

same_text : (k : Text) → text_eq k k ≡ true
same_text k = (text_eq_iff k k).1 refl

pub get-insert_same :
    (k : Text) (v : Value) (m : Members) → get_member k (insert_member k v m) ≡ some v
unfolding get_member insert_member
get-insert_same k v done = rw (same_text k) refl
get-insert_same k v (member j w m) = elim (Bool-cases (text_eq j k)) [
  | inl same ↦ rw (same, same_text k) refl
  | inr other ↦ rw (other, other) (get-insert_same k v m)
]

pub get-insert_else :
    (k e : Text) (v : Value) (m : Members)
    → text_eq k e ≡ false
    → get_member e (insert_member k v m) ≡ get_member e m
unfolding get_member insert_member
get-insert_else k e v done differs = rw differs refl
get-insert_else k e v (member j w m) differs = elim (Bool-cases (text_eq j k)) [
  | inl same ↦
      let j≡k : j ≡ k = (text_eq_iff j k).0 same in rw (same, differs) (rw (j≡k, differs) refl)
  | inr other ↦ rw other (
      ap (λ (rest : Option Value). if text_eq j e then some w else rest)
        (get-insert_else k e v m differs))
]

pub get-remove_same : (k : Text) (m : Members) → get_member k (remove_member k m) ≡ none
unfolding get_member remove_member
get-remove_same k done = refl
get-remove_same k (member j w m) = elim (Bool-cases (text_eq j k)) [
  | inl same ↦ rw same (get-remove_same k m)
  | inr other ↦ rw (other, other) (get-remove_same k m)
]

pub get-remove_else :
    (k e : Text) (m : Members)
    → text_eq k e ≡ false
    → get_member e (remove_member k m) ≡ get_member e m
unfolding get_member remove_member
get-remove_else k e done differs = refl
get-remove_else k e (member j w m) differs = elim (Bool-cases (text_eq j k)) [
  | inl same ↦
      let j≡k : j ≡ k = (text_eq_iff j k).0 same in
      rw same (get-remove_else k e m differs ∙ rw (j≡k, differs) refl)
  | inr other ↦ rw other (
      ap (λ (rest : Option Value). if text_eq j e then some w else rest)
        (get-remove_else k e m differs))
]

pub insert-insert :
    (k : Text) (v : Value) (m : Members)
    → insert_member k v (insert_member k v m) ≡ insert_member k v m
unfolding insert_member
insert-insert k v done = rw (same_text k) refl
insert-insert k v (member j w m) = elim (Bool-cases (text_eq j k)) [
  | inl same ↦ rw (same, same_text k) refl
  | inr other ↦ rw (other, other) (ap (member j w) (insert-insert k v m))
]
