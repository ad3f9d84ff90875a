-- ===== src/Namelist/Object/Assign.antt =====
-- scripts/lib/CIME/namelist.py: set_variable_value against an overlay of the old values.
use cime.Common.{
  ℕ, zero, suc, ◌+◌, ◌-◌, ◌≤◌, ◌<◌, Text, Bool, true, false, ◌&&◌, List, [], ◌∷◌, ◌++◌,
  if◌then◌else◌, is_nil, length, ◌≡◌, refl, sym, ap, ◌∙◌, arith, Result, ok, err, expect,
  ok_of_bind, subst,
}
use mathlib.Core.List.{append-nil}
use cime.Common.Int.{pos, ltb_ℤ, ◌+ℤ◌}
use cime.Namelist.Regex.{Regex, Matches, m_seq, m_one, seq, one}
use cime.Namelist.Regex.Sound.{matches-Matches}
use cime.Namelist.Names.{
  NameError, no_match, Indices, is_letter, is_name_char, fortran_name_regex, is_valid_fortran_name,
  name_part, get_fortran_name_only, get_fortran_variable_indices,
}
use cime.Namelist.Object.{low_index, Groups, get_variable_value}
use cime.Namelist.Object.Values.{
  lift_name, nulls, pad_to, set_at, place, in_range, place_values, assigned, put,
  set_variable_value,
}
use cime.Namelist.Object.Lookup.{same_name}
use cime.Namelist.Object.Get.{get_variable_value-put}

-- The old values with `value` over them from position `j` on, null values in a gap.
unfoldable pub overlay : ℕ → List Text → List Text → List Text
overlay zero [] values = values
overlay zero (v ∷ value) [] = v ∷ overlay zero value []
overlay zero (v ∷ value) (x ∷ values) = v ∷ overlay zero value values
overlay (suc j) value [] = [] ∷ overlay j value []
overlay (suc j) value (x ∷ values) = x ∷ overlay j value values

pad_to-cons :
    (n : ℕ) (x : Text) (values : List Text) → pad_to (suc n) (x ∷ values) ≡ x ∷ pad_to n values
unfolding pad_to
pad_to-cons n x values = ap (λ k. x ∷ (values ++ nulls k)) (omega arith)

pad_to-nil : (n : ℕ) → pad_to (suc n) [] ≡ [] ∷ pad_to n []
unfolding pad_to nulls
pad_to-nil n = ap nulls {x = suc n - 0} {y = suc (n - 0)} (omega arith)

pad_to-zero : (values : List Text) → pad_to 0 values ≡ values
unfolding pad_to nulls
pad_to-zero values =
    ap (λ k. values ++ nulls k) {x = 0 - length values} {y = 0} (omega arith) ∙ append-nil values

overlay-set_at :
    (j : ℕ) (v : Text) (value values : List Text)
    → overlay (suc j) value (set_at j v (pad_to (suc j) values)) ≡ overlay j (v ∷ value) values
unfolding overlay set_at
overlay-set_at zero v value [] = rw (pad_to-nil 0, pad_to-zero []) refl
overlay-set_at zero v value (x ∷ values) = rw (pad_to-cons 0 x values, pad_to-zero values) refl
overlay-set_at (suc j) v value [] =
    rw (pad_to-nil (suc j)) (ap (λ l. [] ∷ l) (overlay-set_at j v value []))
overlay-set_at (suc j) v value (x ∷ values) =
    rw (pad_to-cons (suc j) x values) (ap (λ l. x ∷ l) (overlay-set_at j v value values))

set_at-overlay :
    (j : ℕ) (v : Text) (values : List Text)
    → set_at j v (pad_to (suc j) values) ≡ overlay j (v ∷ []) values
unfolding overlay set_at
set_at-overlay zero v [] = rw (pad_to-nil 0, pad_to-zero []) refl
set_at-overlay zero v (x ∷ values) = rw (pad_to-cons 0 x values, pad_to-zero values) refl
set_at-overlay (suc j) v [] = rw (pad_to-nil (suc j)) (ap (λ l. [] ∷ l) (set_at-overlay j v []))
set_at-overlay (suc j) v (x ∷ values) =
    rw (pad_to-cons (suc j) x values) (ap (λ l. x ∷ l) (set_at-overlay j v values))

plus_one : (n : ℕ) → (pos n +ℤ pos 1) ≡ pos (suc n)
unfolding ◌+ℤ◌
plus_one n = ground arith

in_range_lem : (n stop : ℕ) → n < stop → in_range (pos n) (pos stop) (pos 1) ≡ true
unfolding in_range
in_range_lem n stop below = ground (arith, below)

-- The loop over consecutive indices.
place_values-overlay :
    (j stop : ℕ) (v : Text) (value values : List Text)
    → suc j + length value < stop
    → place_values (pos (suc j)) (pos stop) (pos 1) (v ∷ value) values
      ≡ ok (overlay j (v ∷ value) values)
unfolding place_values place
place_values-overlay j stop v [] values below =
    rw (in_range_lem (suc j) stop (omega (arith, below))) (ap ok (set_at-overlay j v values))
place_values-overlay j stop v (u ∷ value) values below =
    rw (in_range_lem (suc j) stop (omega (arith, below)), plus_one (suc j))
      (place_values-overlay (suc j) stop u value (set_at j v (pad_to (suc j) values))
          (omega (arith, below))
        ∙ ap ok (overlay-set_at j v (u ∷ value) values))

overlay-pad :
    (j : ℕ) (value values : List Text)
    → overlay j value (values ++ nulls (j - length values)) ≡ overlay j value values
unfolding overlay nulls
overlay-pad zero value values =
    ap (λ k. overlay 0 value (values ++ nulls k)) {x = 0 - length values} {y = 0} (omega arith)
    ∙ ap (overlay 0 value) (append-nil values)
overlay-pad (suc j) value [] =
    ap (λ k. overlay (suc j) value (nulls k)) {x = suc j - 0} {y = suc (j - 0)} (omega arith)
    ∙ ap (λ l. [] ∷ l) (overlay-pad j value [])
overlay-pad (suc j) value (x ∷ values) =
    ap (λ l. x ∷ l)
      (ap (λ k. overlay j value (values ++ nulls k)) {x = suc j - suc (length values)}
          {y = j - length values} (omega arith)
        ∙ overlay-pad j value values)

stop_lem : (m : ℕ) → (pos m +ℤ (pos 1 +ℤ pos 1)) ≡ pos (m + 2)
unfolding ◌+ℤ◌
stop_lem m = ground arith

-- With the step 1 and no more values than the range has, and one more at most, the loop lays the
-- values over the old ones from the lower index on, and null values over a gap before it.
pub assigned-overlay :
    (j m : ℕ) (v : Text) (value current : List Text)
    → j + length (v ∷ value) ≤ suc m
    → assigned
        (record { minindex = pos (suc j); maxindex = pos m; step = pos 1 })
        (v ∷ value)
        current
      ≡ ok (overlay j (v ∷ value) current)
unfolding assigned
assigned-overlay j m v value current fits =
    ap
      (λ stop.
        place_values (pos (suc j)) stop (pos 1) (v ∷ value) (current ++ nulls (j - length current)))
      (stop_lem m)
    ∙ place_values-overlay j (m + 2) v value (current ++ nulls (j - length current))
        (omega (arith, fits))
    ∙ ap ok (overlay-pad j (v ∷ value) current)

letter-name : (c : ℕ) → is_letter c ≡ true → is_name_char c ≡ true
letter-name c letter = ground (arith, letter)

-- A name that is matched starts with a letter.
starts_letter :
    {r : Regex} {w : Text} → Matches (seq (one is_letter) r) w → is_nil (name_part w) ≡ false
unfolding name_part
starts_letter (m_seq {v} (m_one c letter) m same) =
    subst (λ t. is_nil (name_part t) ≡ false) same (rw (letter-name c letter) refl)

expect_ok :
    {E : Type 0} (test : Bool) (e : E) {done : Unit {0}} → expect test e ≡ ok done → test ≡ true
expect_ok true e passed = refl
expect_ok false e passed = absurd cc

pub get_fortran_name_only_lem :
    (full_var name : Text)
    → get_fortran_name_only full_var ≡ ok name
    → (name_part full_var ≡ name) × (is_nil name ≡ false)
unfolding get_fortran_name_only is_valid_fortran_name fortran_name_regex
get_fortran_name_only_lem full_var name done =
    let parts =
      ok_of_bind (expect (is_valid_fortran_name full_var) no_match) (λ _. ok (name_part full_var))
        done in
    let named : name_part full_var ≡ name = cc in
    (
      named,
      subst (λ n. is_nil n ≡ false) named
          (starts_letter (
            (matches-Matches fortran_name_regex full_var).0
              (expect_ok (is_valid_fortran_name full_var) no_match parts.1))),
    )

lift_name_ok :
    {A : Type 0} (result : Result NameError A) {a : A} → lift_name result ≡ ok a → result ≡ ok a
unfolding lift_name
lift_name_ok (ok a) same = cc
lift_name_ok (err e) same = cc

-- What is returned twice is the same.
ok_same : {E A : Type 0} {result : Result E A} {a b : A} → result ≡ ok a → result ≡ ok b → a ≡ b
ok_same first second = cc

get_put_as :
    (group_name name part other_group other_variable : Text) (values : List Text)
    (groups new : Groups)
    → is_nil group_name ≡ false
    → (part ≡ name) × (is_nil name ≡ false)
    → put group_name name values groups ≡ new
    → get_variable_value other_group other_variable new ≡ (
        if same_name other_group group_name && same_name other_variable part
        then values
        else get_variable_value other_group other_variable groups)
get_put_as group_name name part g v values groups new full named put_new =
    subst
      (λ n. get_variable_value g v n ≡ (
        if same_name g group_name && same_name v part
        then values
        else get_variable_value g v groups))
      put_new
      (subst
        (λ n. get_variable_value g v (put group_name name values groups) ≡ (
          if same_name g group_name && same_name v n
          then values
          else get_variable_value g v groups))
        (sym named.0) (get_variable_value-put group_name name g v values groups full named.1))

-- When a call of set_variable_value returns, and the group's name is not empty, the values that the
-- indices of the name give, laid over the old ones, are those of the group and of the variable's name
-- without its indices, whatever their case, and the values of every other name are what they were.
pub set_variable_value-get :
    (group_name variable_name : Text) (value : List Text) (var_size : ℕ) (groups new : Groups)
    → is_nil group_name ≡ false
    → set_variable_value group_name variable_name value var_size groups ≡ ok new
    → (i : Indices) × (values : List Text) × (get_fortran_variable_indices variable_name
          (pos var_size)
          false
        ≡ ok i)
      × (assigned i value (get_variable_value group_name (name_part variable_name) groups)
          ≡ ok values)
      × ((other_group other_variable : Text)
          → get_variable_value other_group other_variable new ≡ (
              if same_name other_group group_name
                && same_name other_variable (name_part variable_name)
              then values
              else get_variable_value other_group other_variable groups))
unfolding set_variable_value
set_variable_value-get group_name variable_name value var_size groups new full done =
    let (i, indexed, after_i) =
      ok_of_bind (lift_name (get_fortran_variable_indices variable_name (pos var_size) false)) _
        done in
    let (name, named, after_name) =
      ok_of_bind (lift_name (get_fortran_name_only variable_name)) _ after_i in
    let (_, low, after_low) =
      ok_of_bind (expect (ltb_ℤ (pos 0) i.minindex) low_index) _ after_name in
    let (values, set, put_done) =
      ok_of_bind (assigned i value (get_variable_value group_name name groups)) _ after_low in
    let part = get_fortran_name_only_lem variable_name name (lift_name_ok _ named) in
    (
      i,
      values,
      lift_name_ok _ indexed,
      subst (λ n. assigned i value (get_variable_value group_name n groups) ≡ ok values)
          (sym part.0) set,
      λ g v.
          get_put_as group_name name (name_part variable_name) g v values groups new full part
            (ok_same refl put_done),
    )
