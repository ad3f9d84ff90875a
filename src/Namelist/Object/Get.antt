-- ===== src/Namelist/Object/Get.antt =====
-- scripts/lib/CIME/namelist.py: what get_variable_value gives after the assignments of a Namelist.
use cime.Common.{
  ℕ, Text, Bool, true, false, ◌&&◌, Option, none, some, List, [], ◌∷◌, if◌then◌else◌, nat_eq,
  list_eq, list_beq_iff, is_nil, ◌≡◌, refl, sym, ap, ◌∙◌, Bool-cases, inl, inr,
}
use cime.Common.Dict.{Dict, lookup, insert, keys}
use cime.Namelist.Object.{
  lower, string_in_list, Group, Groups, value_in_group, group_found, get_variable_value, at_key,
  found_entry, or_null, or_empty,
}
use cime.Namelist.Object.Values.{resolve, or_name, put}
use cime.Namelist.Object.Lookup.{
  same_name, entry, resolved, entry-insert, found_lem, found-nil, string_in_list-same,
  same_name-other, same_name-to,
}

at_key-cons {ℓ} :
    {V : Type ℓ} (name x : Text) (v : V) (d : Dict Text V) (hit : Option Text)
    → string_in_list name (keys d) ≡ hit
    → same_name name x ≡ false
    → at_key ((x, v) ∷ d) hit ≡ at_key d hit
unfolding lookup
at_key-cons name x v d none same off = refl
at_key-cons name x v d (some k) same off =
    rw (same_name-other name k x (string_in_list-same name (keys d) k same) off) refl

string_in_list-entry {ℓ} :
    {V : Type ℓ} (name : Text) (d : Dict Text V)
    → at_key d (string_in_list name (keys d)) ≡ entry name d
unfolding string_in_list entry lookup
string_in_list-entry name [] = refl
string_in_list-entry name ((x, v) ∷ d) = elim (Bool-cases (same_name name x)) [
  | inl on ↦ rw (on, (list_beq_iff x x).1 refl) refl
  | inr off ↦ rw off (at_key-cons name x v d _ refl off ∙ string_in_list-entry name d)
]

resolved_lem :
    (name : Text) (names : List Text)
    → or_name name (string_in_list name names) ≡ resolved name names
unfolding string_in_list resolved
resolved_lem name [] = refl
resolved_lem name (x ∷ names) = elim (Bool-cases (same_name name x)) [
  | inl on ↦ rw on refl
  | inr off ↦ rw off (resolved_lem name names)
]

resolve_lem :
    (c : ℕ) (name : Text) (names : List Text) → resolve (c ∷ name) names ≡ resolved (c ∷ name) names
unfolding resolve
resolve_lem c name names =
    ap (or_name (c ∷ name)) (found_lem c name names) ∙ resolved_lem (c ∷ name) names

found_entry_lem {ℓ} :
    {V : Type ℓ} (c : ℕ) (name : Text) (d : Dict Text V)
    → found_entry (c ∷ name) d ≡ entry (c ∷ name) d
unfolding found_entry
found_entry_lem c name d =
    ap (at_key d) (found_lem c name (keys d)) ∙ string_in_list-entry (c ∷ name) d

found_entry-nil {ℓ} : {V : Type ℓ} (d : Dict Text V) → found_entry [] d ≡ none
unfolding found_entry
found_entry-nil d = ap (at_key d) (found-nil (keys d))

-- An assignment under the key of a name that is not empty, and the entry of any name.
found_entry-insert {ℓ} :
    {V : Type ℓ} (name : Text) (c : ℕ) (written : Text) (v : V) (d : Dict Text V)
    → found_entry name (insert (resolve (c ∷ written) (keys d)) v d)
      ≡ (if same_name name (c ∷ written) then some v else found_entry name d)
unfolding lower
found_entry-insert [] c written v d = found_entry-nil _ ∙ sym (found_entry-nil d)
found_entry-insert (a ∷ name) c written v d =
    found_entry_lem a name _
    ∙ ap (λ k. entry (a ∷ name) (insert k v d)) (resolve_lem c written (keys d))
    ∙ entry-insert (a ∷ name) (c ∷ written) v d
    ∙ ap (λ old. if same_name (a ∷ name) (c ∷ written) then some v else old)
        (sym (found_entry_lem a name d))

entry-same {ℓ} :
    {V : Type ℓ} (name other : Text) (d : Dict Text V)
    → same_name name other ≡ true
    → entry name d ≡ entry other d
unfolding entry
entry-same name other [] hit = refl
entry-same name other ((x, v) ∷ d) hit =
    rw (same_name-to name other x hit, entry-same name other d hit) refl

found_entry-same {ℓ} :
    {V : Type ℓ} (name other : Text) (d : Dict Text V)
    → is_nil other ≡ false
    → same_name name other ≡ true
    → found_entry name d ≡ found_entry other d
unfolding lower
found_entry-same name [] d full hit = cc
found_entry-same [] (c ∷ other) d full hit = cc
found_entry-same (a ∷ name) (c ∷ other) d full hit =
    found_entry_lem a name d
    ∙ entry-same (a ∷ name) (c ∷ other) d hit
    ∙ sym (found_entry_lem c other d)

ap-if {ℓ κ} :
    {A : Type ℓ} {B : Type κ} (f : A → B) (test : Bool) (x y : A)
    → f (if test then x else y) ≡ (if test then f x else f y)
ap-if f true x y = refl
ap-if f false x y = refl

value_in_group-insert :
    (name : Text) (c : ℕ) (written : Text) (values : List Text) (group : Group)
    → value_in_group name (insert (resolve (c ∷ written) (keys group)) values group)
      ≡ (if same_name name (c ∷ written) then values else value_in_group name group)
unfolding value_in_group
value_in_group-insert name c written values group =
    ap or_null (found_entry-insert name c written values group)
    ∙ ap-if or_null (same_name name (c ∷ written)) (some values) (found_entry name group)

group_found-insert :
    (name : Text) (c : ℕ) (written : Text) (group : Group) (groups : Groups)
    → group_found name (insert (resolve (c ∷ written) (keys groups)) group groups)
      ≡ (if same_name name (c ∷ written) then group else group_found name groups)
unfolding group_found
group_found-insert name c written group groups =
    ap or_empty (found_entry-insert name c written group groups)
    ∙ ap-if or_empty (same_name name (c ∷ written)) (some group) (found_entry name groups)

group_found-same :
    (name other : Text) (groups : Groups)
    → is_nil other ≡ false
    → same_name name other ≡ true
    → group_found name groups ≡ group_found other groups
unfolding group_found
group_found-same name other groups full hit =
    ap or_empty (found_entry-same name other groups full hit)

-- Values that are put under two names that are not empty are the values of these names, whatever
-- their case, and the values of all other names are what they were.
pub get_variable_value-put :
    (group_name variable_name other_group other_variable : Text) (values : List Text)
    (groups : Groups)
    → is_nil group_name ≡ false
    → is_nil variable_name ≡ false
    → get_variable_value other_group other_variable (put group_name variable_name values groups) ≡ (
        if same_name other_group group_name && same_name other_variable variable_name
        then values
        else get_variable_value other_group other_variable groups)
unfolding get_variable_value put
get_variable_value-put [] variable_name g v values groups full full_too = cc
get_variable_value-put (c ∷ group_name) [] g v values groups full full_too = cc
get_variable_value-put (c ∷ group_name) (a ∷ variable_name) g v values groups full full_too =
    let group = group_found (c ∷ group_name) groups in
    ap (value_in_group v) (
      group_found-insert g c group_name
        (insert (resolve (a ∷ variable_name) (keys group)) values group) groups)
    ∙ elim (Bool-cases (same_name g (c ∷ group_name))) [
      | inl hit ↦
          rw (hit, group_found-same g (c ∷ group_name) groups refl hit)
            (value_in_group-insert v a variable_name values group)
      | inr miss ↦ rw miss refl
    ]
