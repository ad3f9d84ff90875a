-- ===== src/Macros/Relevant.antt =====
-- What add_setting of scripts/lib/CIME/BuildTools/possiblevalues.py keeps.
use cime.Common.{
  Text, ℕ, Bool, true, false, ◌&&◌, if◌then◌else◌, ltb, some, List, [], ◌∷◌, ◌++◌, ◌≡◌, refl, subst,
  nat_eq, arith, Bool-cases, Option-cases, inl, inr, All,
}
use cime.Macros.Setting.{Setting, has_special_case}
use cime.Macros.Values.{ValueEntry, PossibleValues, possible_values, override, add_setting}

-- The objects that the program makes.
pub data IsBuilt : PossibleValues → Type 0 where
  initial :
      (name : Text) (setting : Setting) (specificity : ℕ) (depends : List Text)
      → IsBuilt (possible_values name setting specificity depends)
  added :
      {values : PossibleValues} (setting : Setting) (specificity : ℕ) (depends : List Text)
      → IsBuilt values
      → IsBuilt (add_setting setting specificity depends values)

All-append {ℓ} :
    {A : Type 0} (P : A → Type ℓ) (xs ys : List A) → All P xs → All P ys → All P (xs ++ ys)
All-append P [] ys front back = back
All-append P (x ∷ xs) ys (first, front) back = (first, All-append P xs ys front back)

if_elim {ℓ} :
    {A : Type 0} (P : A → Type ℓ) (test : Bool) (here there : A)
    → (test ≡ true → P here)
    → (test ≡ false → P there)
    → P (if test then here else there)
if_elim P true here there on_true on_false = on_true refl
if_elim P false here there on_true on_false = on_false refl

abbrev pub Sets : ValueEntry → Type 0
Sets other = other.setting.do_append ≡ false

abbrev pub Appends : Setting → Type 0
Appends setting = setting.do_append ≡ true

-- An entry is more specific than another one, which is a special case of it.
unfoldable pub outdoes : ValueEntry → ValueEntry → Bool
outdoes mine other =
    ltb other.specificity mine.specificity && has_special_case mine.setting other.setting

abbrev Apart : ValueEntry → ValueEntry → Type 0
Apart mine other = (outdoes mine other ≡ false) × (outdoes other mine ≡ false)

-- No entry outdoes another one.
abbrev pub IsRelevant : List ValueEntry → Type 0
IsRelevant [] = Unit
IsRelevant (mine ∷ entries) =
    All (λ other. (outdoes mine other ≡ false) × (outdoes other mine ≡ false)) entries
    × IsRelevant entries

module _ (setting : Setting) (specificity : ℕ) (depends : List Text) where
  abbrev new : ValueEntry
  new = record { setting = setting; specificity = specificity; depends = depends }

  -- The new setting removes those that it outdoes, and none outdoes it.
  data Left : List ValueEntry → List ValueEntry → Type 0 where
    end : Left [] []
    drops :
        {other : ValueEntry} {entries kept : List ValueEntry}
        → outdoes new other ≡ true
        → Left entries kept
        → Left (other ∷ entries) kept
    keeps :
        {other : ValueEntry} {entries kept : List ValueEntry}
        → Apart other new
        → Left entries kept
        → Left (other ∷ entries) (other ∷ kept)

  override-Left :
      (entries kept : List ValueEntry)
      → override setting specificity entries ≡ some kept
      → Left entries kept
  unfolding override outdoes
  override-Left [] kept done = let none_left : [] ≡ kept = cc in subst (Left []) none_left end
  override-Left (other ∷ entries) kept done =
      elim (Option-cases (override setting specificity entries)) [
        | inl gone ↦ absurd (ground (arith, gone, done))
        | inr (rest, left) ↦ elim (Bool-cases (outdoes new other)) [
          | inl dropped ↦
              let same : rest ≡ kept = ground (arith, left, done, dropped) in
              drops dropped (subst (Left entries) same (override-Left entries rest left))
          | inr stays ↦
              let same : other ∷ rest ≡ kept = ground (arith, left, done, stays) in
              subst (Left (other ∷ entries)) same
                (keeps (ground (arith, left, done), stays) (override-Left entries rest left))
        ]
      ]

  Left-All {ℓ} :
      (P : ValueEntry → Type ℓ) {entries kept : List ValueEntry}
      → Left entries kept
      → All P entries
      → All P kept
  Left-All P end each = each
  Left-All P (drops outdone left) (first, each) = Left-All P left each
  Left-All P (keeps apart left) (first, each) = (first, Left-All P left each)

  Left-Apart :
      {entries kept : List ValueEntry} → Left entries kept → All (λ other. Apart other new) kept
  Left-Apart end = tt
  Left-Apart (drops outdone left) = Left-Apart left
  Left-Apart (keeps apart left) = (apart, Left-Apart left)

  Left-IsRelevant :
      {entries kept : List ValueEntry} → Left entries kept → IsRelevant entries → IsRelevant kept
  Left-IsRelevant end relevant = relevant
  Left-IsRelevant (drops outdone left) (first, relevant) = Left-IsRelevant left relevant
  Left-IsRelevant (keeps {other} apart left) (first, relevant) =
      (Left-All (Apart other) left first, Left-IsRelevant left relevant)

  IsRelevant-append :
      (entries : List ValueEntry)
      → IsRelevant entries
      → All (λ other. Apart other new) entries
      → IsRelevant (entries ++ new ∷ [])
  IsRelevant-append [] relevant apart = (tt, tt)
  IsRelevant-append (mine ∷ entries) (first, relevant) (here, apart) = (
    All-append (Apart mine) entries (new ∷ []) first (here, tt),
    IsRelevant-append entries relevant apart,
  )

  add_setting-IsRelevant :
      (values : PossibleValues)
      → IsRelevant values.entries
      → IsRelevant (add_setting setting specificity depends values).entries
  unfolding add_setting
  add_setting-IsRelevant values relevant =
      if_elim (λ (v : PossibleValues). IsRelevant v.entries) setting.do_append _ _
        (λ appends. relevant)
        λ sets. elim (Option-cases (override setting specificity values.entries)) [
          | inl useless ↦ rw useless relevant
          | inr (kept, done) ↦
              let left = override-Left values.entries kept done in
              rw done (IsRelevant-append kept (Left-IsRelevant left relevant) (Left-Apart left))
        ]

  add_setting-Sets :
      (values : PossibleValues)
      → All Sets values.entries
      → All Sets (add_setting setting specificity depends values).entries
  unfolding add_setting
  add_setting-Sets values each =
      if_elim (λ (v : PossibleValues). All Sets v.entries) setting.do_append _ _ (λ appends. each)
        λ sets. elim (Option-cases (override setting specificity values.entries)) [
          | inl useless ↦ rw useless each
          | inr (kept, done) ↦ rw done (
              All-append Sets kept (new ∷ [])
                (Left-All Sets (override-Left values.entries kept done) each) (sets, tt))
        ]

  add_setting-Appends :
      (values : PossibleValues)
      → All Appends values.append_settings
      → All Appends (add_setting setting specificity depends values).append_settings
  unfolding add_setting
  add_setting-Appends values each =
      if_elim (λ (v : PossibleValues). All Appends v.append_settings) setting.do_append _ _
        (λ appends. All-append Appends values.append_settings (setting ∷ []) each (appends, tt))
        λ sets. elim (Option-cases (override setting specificity values.entries)) [
          | inl useless ↦ rw useless each
          | inr (kept, done) ↦ rw done each
        ]

pub IsBuilt-Sets : {values : PossibleValues} → IsBuilt values → All Sets values.entries
IsBuilt-Sets (initial name setting specificity depends) =
    unfold possible_values in
    if_elim (λ (v : PossibleValues). All Sets v.entries) setting.do_append _ _ (λ appends. tt)
      (λ sets. (sets, tt))
IsBuilt-Sets (added {values} setting specificity depends built) =
    add_setting-Sets setting specificity depends values (IsBuilt-Sets built)

pub IsBuilt-Appends :
    {values : PossibleValues} → IsBuilt values → All Appends values.append_settings
IsBuilt-Appends (initial name setting specificity depends) =
    unfold possible_values in
    if_elim (λ (v : PossibleValues). All Appends v.append_settings) setting.do_append _ _
      (λ appends. (appends, tt)) (λ sets. tt)
IsBuilt-Appends (added {values} setting specificity depends built) =
    add_setting-Appends setting specificity depends values (IsBuilt-Appends built)

-- However the settings are added to an object, in the end no entry of it is more specific than an
-- entry that is a special case of it.
pub IsBuilt-IsRelevant : {values : PossibleValues} → IsBuilt values → IsRelevant values.entries
IsBuilt-IsRelevant (initial name setting specificity depends) =
    unfold possible_values in
    if_elim (λ (v : PossibleValues). IsRelevant v.entries) setting.do_append _ _ (λ appends. tt)
      (λ sets. (tt, tt))
IsBuilt-IsRelevant (added {values} setting specificity depends built) =
    add_setting-IsRelevant setting specificity depends values (IsBuilt-IsRelevant built)
