-- ===== src/Namelist/Object/Merge.antt =====
-- scripts/lib/CIME/namelist.py: what one step of merge_nl gives for a variable without indices.
use cime.Common.{
  ℕ, zero, suc, ◌+◌, ◌-◌, ◌*◌, ◌≤◌, Text, Bool, true, false, ◌&&◌, List, [], ◌∷◌, if◌then◌else◌,
  is_nil, length, length-append, ◌≡◌, refl, ap, arith, ok, Bool-cases, inl, inr, ◌==◌, nat_eq,
}
use cime.Common.Int.{pos}
use cime.Namelist.Literals.{
  is_digit, digits_of, has_nonzero, has_repeat, number_from, copies, after_first, expand_literal,
  expand_literal_list, compress_literal_list, merge_elements, merge_literal_lists,
}
use cime.Namelist.Names.{
  is_name_char, is_valid_fortran_name, name_part, after_name, get_fortran_name_only,
  get_fortran_variable_indices, indices_of, any_length,
}
use cime.Namelist.Object.{Groups, get_variable_value}
use cime.Namelist.Object.Values.{lift_name, put, set_variable_value, merge_variable}
use cime.Namelist.Object.Lookup.{same_name}
use cime.Namelist.Object.Get.{get_variable_value-put}
use cime.Namelist.Object.Assign.{get_fortran_name_only_lem, overlay, assigned-overlay}

number_from-le : (n : ℕ) (s : Text) → n ≤ number_from n s
unfolding number_from
number_from-le n [] = omega arith
number_from-le n (c ∷ s) = omega (arith, number_from-le (n * 10 + (c - b'0')) s)

digit_le : (c : ℕ) → is_digit c ≡ true → (c == b'0') ≡ false → 1 ≤ c - b'0'
digit_le c digit other = ground (arith, digit, other)

number_from-positive :
    (n : ℕ) (s : Text) → has_nonzero (digits_of s) ≡ true → 1 ≤ number_from n (digits_of s)
unfolding number_from digits_of has_nonzero
number_from-positive n [] hit = absurd cc
number_from-positive n (c ∷ s) hit = elim (Bool-cases (is_digit c)) [
  | inl digit ↦ elim (Bool-cases (c == b'0')) [
    | inl null ↦ rw digit (number_from-positive (n * 10 + (c - b'0')) s (rw (digit, null) at hit))
    | inr other ↦
        rw digit (
          omega (arith, number_from-le (n * 10 + (c - b'0')) (digits_of s), digit_le c digit other))
  ]
  | inr other ↦ absurd (ground (arith, other, hit))
]

length-copies : (n : ℕ) (value : Text) → length (copies n value) ≡ n
unfolding copies
length-copies zero value = refl
length-copies (suc n) value = ap suc (length-copies n value)

expand_literal-length : (literal : Text) → 1 ≤ length (expand_literal literal)
unfolding expand_literal has_repeat
expand_literal-length literal = elim (Bool-cases (has_repeat literal)) [
  | inl on ↦
      rw (on, length-copies (number_from 0 (digits_of literal)) (after_first b'*' literal))
        (number_from-positive 0 literal (ground (arith, on)))
  | inr off ↦ rw off (omega arith)
]

expand_literal_list-length :
    (literals : List Text) → length literals ≤ length (expand_literal_list literals)
unfolding expand_literal_list
expand_literal_list-length [] = omega arith
expand_literal_list-length (l ∷ literals) = omega (
  arith,
  length-append (expand_literal l) (expand_literal_list literals),
  expand_literal-length l,
  expand_literal_list-length literals,
)

merge_elements-length :
    (default overwrite : List Text)
    → (length default ≤ length (merge_elements default overwrite))
      × (length overwrite ≤ length (merge_elements default overwrite))
unfolding merge_elements
merge_elements-length [] overwrite = (omega arith, omega arith)
merge_elements-length (d ∷ default) [] = (omega arith, omega arith)
merge_elements-length (d ∷ default) (o ∷ overwrite) = (
  omega (arith, (merge_elements-length default overwrite).0),
  omega (arith, (merge_elements-length default overwrite).1),
)

pub merge_literal_lists-length :
    (default overwrite : List Text)
    → (length default ≤ length (merge_literal_lists default overwrite))
      × (length overwrite ≤ length (merge_literal_lists default overwrite))
unfolding merge_literal_lists compress_literal_list
merge_literal_lists-length default overwrite =
    let merged =
      merge_elements-length (expand_literal_list default) (expand_literal_list overwrite) in
    (
      omega (arith, merged.0, expand_literal_list-length default),
      omega (arith, merged.1, expand_literal_list-length overwrite),
    )

-- At the start, values that are at least as many as the old ones take the place of them all.
overlay-all :
    (value values : List Text) → length values ≤ length value → overlay 0 value values ≡ value
unfolding overlay
overlay-all [] [] fits = refl
overlay-all [] (x ∷ values) fits = absurd (omega (arith, fits))
overlay-all (v ∷ value) [] fits = ap (λ l. v ∷ l) (overlay-all value [] (omega arith))
overlay-all (v ∷ value) (x ∷ values) fits =
    ap (λ l. v ∷ l) (overlay-all value values (omega (arith, fits)))

after_name-nil : (s : Text) → name_part s ≡ s → after_name s ≡ []
unfolding name_part after_name
after_name-nil [] same = refl
after_name-nil (c ∷ s) same = elim (Bool-cases (is_name_char c)) [
  | inl on ↦ rw on (after_name-nil s (ground (arith, on, same)))
  | inr off ↦ absurd (ground (arith, off, same))
]

plain_indices :
    (name : Text) (size : ℕ)
    → is_valid_fortran_name name ≡ true
    → name_part name ≡ name
    → get_fortran_variable_indices name (pos size) false
      ≡ ok (record { minindex = pos 1; maxindex = pos size; step = pos 1 })
unfolding get_fortran_variable_indices indices_of any_length
plain_indices name size valid plain = rw (valid, after_name-nil name plain) refl

plain_name :
    (name : Text)
    → is_valid_fortran_name name ≡ true
    → name_part name ≡ name
    → get_fortran_name_only name ≡ ok name
unfolding get_fortran_name_only
plain_name name valid plain = rw (valid, plain) refl

-- Values for a name without indices, at least as many as it has, are put under the name.
set_plain :
    (group_name name : Text) (v : Text) (value : List Text) (groups : Groups)
    → is_valid_fortran_name name ≡ true
    → name_part name ≡ name
    → length (get_variable_value group_name name groups) ≤ length (v ∷ value)
    → set_variable_value group_name name (v ∷ value) (length (v ∷ value)) groups
      ≡ ok (put group_name name (v ∷ value) groups)
unfolding set_variable_value lift_name
set_plain group_name name v value groups valid plain fits =
    rw
      (
        plain_indices name (length (v ∷ value)) valid plain,
        plain_name name valid plain,
        assigned-overlay 0 (length (v ∷ value)) v value (get_variable_value group_name name groups)
            (omega arith),
        overlay-all (v ∷ value) (get_variable_value group_name name groups) fits,
      )
      refl

merged_values : Bool → List Text → List Text → List Text
merged_values overwrite self other =
    if overwrite then merge_literal_lists self other else merge_literal_lists other self

merged_values-length :
    (overwrite : Bool) (self other : List Text)
    → length self ≤ length (merged_values overwrite self other)
unfolding merged_values
merged_values-length true self other = (merge_literal_lists-length self other).0
merged_values-length false self other = (merge_literal_lists-length other self).1

set_values :
    (group_name name : Text) (value : List Text) (groups : Groups)
    → is_valid_fortran_name name ≡ true
    → name_part name ≡ name
    → 1 ≤ length (get_variable_value group_name name groups)
    → length (get_variable_value group_name name groups) ≤ length value
    → set_variable_value group_name name value (length value) groups
      ≡ ok (put group_name name value groups)
set_values group_name name [] groups valid plain some_value fits =
    absurd (omega (arith, some_value, fits))
set_values group_name name (v ∷ value) groups valid plain some_value fits =
    set_plain group_name name v value groups valid plain fits

-- The step of merge_nl for a valid name without indices returns, when this namelist has a value for it
-- and the group's name is not empty. The name then has the merged list of both values, with `other` on
-- top under `overwrite` and below without it, and every other name has the values it had.
pub merge_variable-get :
    (overwrite : Bool) (group_name name : Text) (other self : Groups)
    → is_nil group_name ≡ false
    → is_valid_fortran_name name ≡ true
    → name_part name ≡ name
    → 1 ≤ length (get_variable_value group_name name self)
    → (new : Groups) × (merge_variable overwrite other group_name name self ≡ ok new)
      × ((other_group other_variable : Text)
          → get_variable_value other_group other_variable new ≡ (
              if same_name other_group group_name && same_name other_variable name
              then (if overwrite
                  then merge_literal_lists
                      (get_variable_value group_name name self)
                      (get_variable_value group_name name other)
                  else merge_literal_lists
                      (get_variable_value group_name name other)
                      (get_variable_value group_name name self))
              else get_variable_value other_group other_variable self))
unfolding merge_variable merged_values
merge_variable-get overwrite group_name name other self full valid plain some_value =
    let mine = get_variable_value group_name name self in
    let merged = merged_values overwrite mine (get_variable_value group_name name other) in
    (
      put group_name name merged self,
      set_values group_name name merged self valid plain some_value
          (merged_values-length overwrite mine (get_variable_value group_name name other)),
      λ g v.
          get_variable_value-put group_name name g v merged self full
            (get_fortran_name_only_lem name name (plain_name name valid plain)).1,
    )
