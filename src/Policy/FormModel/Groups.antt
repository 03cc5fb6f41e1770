-- ===== src/Policy/FormModel/Groups.antt =====
-- ui/src/features/policy/policy-form-model.ts: the groups of a form's fields by their sections. A new
-- field joins the last group where the sections agree, and opens one otherwise.
use boxui.Base.{
  String, Bool, true, false, Option, none, some, List, [], ◌∷◌, ◌++◌, ◌≡◌, refl, sym, ap, ◌∙◌, ◌==◌,
  eq_iff, All, All-append, reduce, Bool-cases, inl, inr, if◌then◌else◌, arith,
}
use boxui.Form.{FieldSpec}

-- `last.section === field.section`
unfoldable pub same_section : Option String → Option String → Bool
same_section none none = true
same_section (some s) (some t) = s == t
same_section _ _ = false

same_section-eq : (s t : Option String) → same_section s t ≡ true → s ≡ t
unfolding same_section
same_section-eq none none h = refl
same_section-eq none (some t) h = ground arith
same_section-eq (some s) none h = ground arith
same_section-eq (some s) (some t) h = ap some ((eq_iff s t).0 h)

pub record FieldGroup (K R : Type 0) : Type 0 where
  pub section_name : Option String
  pub fields : List (FieldSpec K R)

module _ {K R : Type 0} where
  -- `groups.push({ section: field.section, fields: [field] })`
  abbrev pub single : FieldSpec K R → FieldGroup K R
  single f = record { section_name = f.section_name; fields = f ∷ [] }

  -- `last.fields.push(field)`
  abbrev pub join : FieldGroup K R → FieldSpec K R → FieldGroup K R
  join g f = record { section_name = g.section_name; fields = g.fields ++ f ∷ [] }

  -- The body of the `for` loop.
  unfoldable pub push_field : List (FieldGroup K R) → FieldSpec K R → List (FieldGroup K R)
  push_field [] f = single f ∷ []
  push_field (g ∷ []) f =
      if same_section g.section_name f.section_name then join g f ∷ [] else g ∷ single f ∷ []
  push_field (g ∷ h ∷ groups) f = g ∷ push_field (h ∷ groups) f

  unfoldable pub group_policy_fields_by_section : List (FieldSpec K R) → List (FieldGroup K R)
  unfolding reduce
  group_policy_fields_by_section fields = reduce push_field [] fields

  -- The fields of the groups, one group after another.
  unfoldable pub fields_of_groups : List (FieldGroup K R) → List (FieldSpec K R)
  fields_of_groups [] = []
  fields_of_groups (g ∷ groups) = g.fields ++ fields_of_groups groups

  -- Each field of the group is of the group's section.
  abbrev pub IsOfSection : FieldGroup K R → Type 0
  IsOfSection g = All (λ (f : FieldSpec K R). f.section_name ≡ g.section_name) g.fields

  append_assoc : (xs ys zs : List (FieldSpec K R)) → (xs ++ ys) ++ zs ≡ xs ++ (ys ++ zs)
  append_assoc [] ys zs = refl
  append_assoc (x ∷ xs) ys zs = ap (λ r. x ∷ r) (append_assoc xs ys zs)

  append_nil : (xs : List (FieldSpec K R)) → xs ++ [] ≡ xs
  append_nil [] = refl
  append_nil (x ∷ xs) = ap (λ r. x ∷ r) (append_nil xs)

  fields_of_groups-push_field :
      (groups : List (FieldGroup K R)) (f : FieldSpec K R)
      → fields_of_groups (push_field groups f) ≡ fields_of_groups groups ++ f ∷ []
  unfolding push_field fields_of_groups
  fields_of_groups-push_field [] f = refl
  fields_of_groups-push_field (g ∷ []) f =
      elim (Bool-cases (same_section g.section_name f.section_name)) [
        | inl same ↦
            rw same
              (append_nil (g.fields ++ f ∷ []) ∙ ap (λ r. r ++ f ∷ []) (sym (append_nil g.fields)))
        | inr other ↦ rw other (ap (λ r. r ++ f ∷ []) (sym (append_nil g.fields)))
      ]
  fields_of_groups-push_field (g ∷ h ∷ groups) f =
      ap (λ r. g.fields ++ r) (fields_of_groups-push_field (h ∷ groups) f)
      ∙ sym (append_assoc g.fields (fields_of_groups (h ∷ groups)) (f ∷ []))

  fields_of_groups-reduce :
      (fields : List (FieldSpec K R)) (groups : List (FieldGroup K R))
      → fields_of_groups (reduce push_field groups fields) ≡ fields_of_groups groups ++ fields
  unfolding reduce
  fields_of_groups-reduce [] groups = sym (append_nil (fields_of_groups groups))
  fields_of_groups-reduce (f ∷ fields) groups =
      fields_of_groups-reduce fields (push_field groups f)
      ∙ ap (λ r. r ++ fields) (fields_of_groups-push_field groups f)
      ∙ append_assoc (fields_of_groups groups) (f ∷ []) fields

  push_field-IsOfSection :
      (groups : List (FieldGroup K R)) (f : FieldSpec K R)
      → All IsOfSection groups
      → All IsOfSection (push_field groups f)
  unfolding push_field
  push_field-IsOfSection [] f h = ((refl, tt), tt)
  push_field-IsOfSection (g ∷ []) f (h, _) =
      elim (Bool-cases (same_section g.section_name f.section_name)) [
        | inl same ↦ rw same (
          (All-append (λ (x : FieldSpec K R). x.section_name ≡ g.section_name) g.fields (f ∷ []) h
              (sym (same_section-eq g.section_name f.section_name same), tt)),
          tt,
        )
        | inr other ↦ rw other (h, ((refl, tt), tt))
      ]
  push_field-IsOfSection (g ∷ g' ∷ groups) f (h, hs) =
      (h, push_field-IsOfSection (g' ∷ groups) f hs)

  reduce-IsOfSection :
      (fields : List (FieldSpec K R)) (groups : List (FieldGroup K R))
      → All IsOfSection groups
      → All IsOfSection (reduce push_field groups fields)
  unfolding reduce
  reduce-IsOfSection [] groups h = h
  reduce-IsOfSection (f ∷ fields) groups h =
      reduce-IsOfSection fields (push_field groups f) (push_field-IsOfSection groups f h)

-- Grouping loses, repeats and reorders no field, and each field stands in a group of its section.
pub group_policy_fields_by_section_lem :
    {K R : Type 0} (fields : List (FieldSpec K R))
    → (fields_of_groups (group_policy_fields_by_section fields) ≡ fields)
      × All IsOfSection (group_policy_fields_by_section fields)
unfolding group_policy_fields_by_section fields_of_groups
group_policy_fields_by_section_lem fields =
    (fields_of_groups-reduce fields [], reduce-IsOfSection fields [] tt)
