-- ===== src/Policy/FormModel/Prune/Loop.antt =====
-- The loops of `pruneInvisiblePolicyFields`, pass by pass.
use boxui.Base.{
  ℕ, zero, suc, ◌≤◌, ◌<◌, String, Bool, true, false, none, some, List, [], ◌∷◌, ◌≡◌, ◌≢◌, refl, ap,
  subst, sym, ◌⊎◌, inl, inr, reduce, Memᴰ, All, length, is_none, if◌then◌else◌, Bool-cases,
  Option-cases, arith,
}
use boxui.Json.{JsonObject}
use boxui.Form.{FieldSpec}
use boxui.Policy.FormModel.{
  get_policy_path, set_policy_path, is_policy_field_visible, prune_field, prune_pass, prune_loop,
}
use boxui.Policy.FormModel.Access.{
  get_policy_path-set_policy_path_self, get_policy_path-set_policy_path-none,
}

-- Whatever is absent from the first object is absent from the second.
abbrev pub Shrinks : JsonObject → JsonObject → Type 0
Shrinks o o' = (path : String) → get_policy_path o path ≡ none → get_policy_path o' path ≡ none

module _ {K R : Type 0} where
  -- The form shows the field, or the object has no value for it.
  abbrev pub IsSettled : JsonObject → FieldSpec K R → Type 0
  IsSettled o f = (is_policy_field_visible o f ≡ true) ⊎ (get_policy_path o f.path ≡ none)

  -- What one round of the `for` loop does.
  pub prune_field_cases :
      (next : JsonObject) (changed : Bool) (f : FieldSpec K R)
      → ((prune_field (next, changed) f ≡ (next, changed)) × IsSettled next f)
        ⊎ ((prune_field (next, changed) f ≡ (set_policy_path next f.path none, true))
            × (get_policy_path next f.path ≢ none)
            × (is_policy_field_visible next f ≡ false))
  unfolding prune_field
  prune_field_cases next changed f = elim (Bool-cases (is_policy_field_visible next f)) [
    | inl shown ↦ inl (rw shown, inl shown)
    | inr hidden ↦ elim (Option-cases (get_policy_path next f.path)) [
      | inl absent ↦ inl (rw (hidden, absent), inr absent)
      | inr (v, present) ↦ inr (rw (hidden, present), (λ e. cc), hidden)
    ]
  ]

  -- The rest of the loop from a known state.
  pub after :
      (P : JsonObject × Bool → Type 0) (fields : List (FieldSpec K R)) {s t : JsonObject × Bool}
      → s ≡ t
      → P (reduce prune_field t fields)
      → P (reduce prune_field s fields)
  after P fields e h = subst (λ st. P (reduce prune_field st fields)) (sym e) h

  abbrev run : List (FieldSpec K R) → JsonObject → Bool → JsonObject × Bool
  run fields next changed = reduce prune_field (next, changed) fields

  run-true : (fields : List (FieldSpec K R)) (next : JsonObject) → (run fields next true).1 ≡ true
  unfolding reduce
  run-true [] next = refl
  run-true (f ∷ fields) next = elim (prune_field_cases next true f) [
    | inl (same, settled) ↦ after (λ r. r.1 ≡ true) fields same (run-true fields next)
    | inr (removed, present, hidden) ↦
        after (λ r. r.1 ≡ true) fields removed (run-true fields (set_policy_path next f.path none))
  ]

  run-Shrinks :
      (fields : List (FieldSpec K R)) (next : JsonObject) (changed : Bool)
      → Shrinks next (run fields next changed).0
  unfolding reduce
  run-Shrinks [] next changed path h = h
  run-Shrinks (f ∷ fields) next changed path h = elim (prune_field_cases next changed f) [
    | inl (same, settled) ↦
        after (λ r. get_policy_path r.0 path ≡ none) fields same
          (run-Shrinks fields next changed path h)
    | inr (removed, present, hidden) ↦
        after (λ r. get_policy_path r.0 path ≡ none) fields removed
          (run-Shrinks fields (set_policy_path next f.path none) true path
            (get_policy_path-set_policy_path-none next f.path path h))
  ]

  -- A pass that changes nothing has found every field settled.
  run-false :
      (fields : List (FieldSpec K R)) (next : JsonObject)
      → (run fields next false).1 ≡ false
      → ((run fields next false).0 ≡ next) × All (IsSettled next) fields
  unfolding reduce
  run-false [] next h = (refl, tt)
  run-false (f ∷ fields) next h = elim (prune_field_cases next false f) [
    | inl (same, settled) ↦
        let (unchanged, others) =
          run-false fields next (after (λ r. r.1 ≡ false) fields (sym same) h) in
        (after (λ r. r.0 ≡ next) fields same unchanged, (settled, others))
    | inr (removed, present, hidden) ↦
        let still : (run fields (set_policy_path next f.path none) true).1 ≡ false =
          after (λ r. r.1 ≡ false) fields (sym removed) h in
        cc (run-true fields (set_policy_path next f.path none))
  ]

  -- A pass that changes something has removed a field that had a value.
  run-removed :
      (fields : List (FieldSpec K R)) (next : JsonObject)
      → (run fields next false).1 ≡ true
      → (f : FieldSpec K R) × Memᴰ f fields
        × (get_policy_path next f.path ≢ none)
        × (get_policy_path (run fields next false).0 f.path ≡ none)
  unfolding reduce
  run-removed [] next h = cc
  run-removed (f ∷ fields) next h = elim (prune_field_cases next false f) [
    | inl (same, settled) ↦
        let (g, listed, present, gone) =
          run-removed fields next (after (λ r. r.1 ≡ true) fields (sym same) h) in
        (
          g,
          Memᴰ.tail listed,
          present,
          after (λ r. get_policy_path r.0 g.path ≡ none) fields same gone,
        )
    | inr (removed, present, hidden) ↦ (
      f,
      Memᴰ.head refl,
      present,
      after (λ r. get_policy_path r.0 f.path ≡ none) fields removed
          (run-Shrinks fields (set_policy_path next f.path none) true f.path
            (get_policy_path-set_policy_path_self next f.path none)),
    )
  ]

  -- How many fields of the form the object has a value for.
  pub present : List (FieldSpec K R) → JsonObject → ℕ
  present [] o = 0
  present (f ∷ fields) o =
      if is_none (get_policy_path o f.path) then present fields o else suc (present fields o)

  pub present-le-length :
      (fields : List (FieldSpec K R)) (o : JsonObject) → present fields o ≤ length fields
  unfolding present
  present-le-length [] o = omega arith
  present-le-length (f ∷ fields) o = ground (arith, present-le-length fields o)

  present-le :
      (fields : List (FieldSpec K R)) (o o' : JsonObject)
      → Shrinks o o'
      → present fields o' ≤ present fields o
  unfolding present
  present-le [] o o' s = omega arith
  present-le (f ∷ fields) o o' s = ground (arith, present-le fields o o' s, s f.path)

  present-lt :
      (fields : List (FieldSpec K R)) (o o' : JsonObject) (f : FieldSpec K R)
      → Shrinks o o'
      → Memᴰ f fields
      → get_policy_path o f.path ≢ none
      → get_policy_path o' f.path ≡ none
      → present fields o' < present fields o
  unfolding present
  present-lt [] o o' g s m was gone = elim m [ ]
  present-lt (f ∷ fields) o o' g s (Memᴰ.head e) was gone =
      let same = ap (λ (h : FieldSpec K R). h.path) e in
      let was' = subst (λ p. get_policy_path o p ≢ none) same was in
      let gone' = subst (λ p. get_policy_path o' p ≡ none) same gone in
      ground (arith, present-le fields o o' s, was', gone')
  present-lt (f ∷ fields) o o' g s (Memᴰ.tail m) was gone =
      ground (arith, present-lt fields o o' g s m was gone, s f.path)

  -- With more fuel than fields that have a value the loop ends by its test.
  pub prune_loop_total :
      (fuel : ℕ) (fields : List (FieldSpec K R)) (o : JsonObject)
      → present fields o < fuel
      → (r : JsonObject) × (prune_loop fuel fields o ≡ some r)
        × All (IsSettled r) fields
        × Shrinks o r
  unfolding prune_loop prune_pass
  prune_loop_total zero fields o h = elim h [ ]
  prune_loop_total (suc fuel) fields o h = elim (Bool-cases (run fields o false).1) [
    | inr stable ↦
        let (unchanged, settled) = run-false fields o stable in
        (o, rw (stable, unchanged), settled, λ path e. e)
    | inl changed ↦
        let (f, listed, was, gone) = run-removed fields o changed in
        let smaller =
          present-lt fields o (run fields o false).0 f (run-Shrinks fields o false) listed was
            gone in
        let (r, e, settled, shrinks) =
          prune_loop_total fuel fields (run fields o false).0 (omega arith) in
        (
          r,
          rw changed e,
          settled,
          λ path absent. shrinks path (run-Shrinks fields o false path absent),
        )
  ]

  -- A pass over settled fields changes nothing.
  run-settled :
      (fields : List (FieldSpec K R)) (next : JsonObject)
      → All (IsSettled next) fields
      → run fields next false ≡ (next, false)
  unfolding reduce
  run-settled [] next h = refl
  run-settled (f ∷ fields) next (h, hs) = elim (prune_field_cases next false f) [
    | inl (same, settled) ↦ after (λ r. r ≡ (next, false)) fields same (run-settled fields next hs)
    | inr (removed, present, hidden) ↦ elim h [
      | inl shown ↦ cc
      | inr absent ↦ absurd (present absent)
    ]
  ]

  pub prune_loop-settled :
      (fuel : ℕ) (fields : List (FieldSpec K R)) (o : JsonObject)
      → All (IsSettled o) fields
      → prune_loop (suc fuel) fields o ≡ some o
  unfolding prune_loop prune_pass
  prune_loop-settled fuel fields o h = rw (run-settled fields o h)

  -- A property that the removal of each field keeps is kept by the loops.
  module _ (P : JsonObject → Type 0) where
    abbrev pub IsKept : FieldSpec K R → Type 0
    IsKept f = (x : JsonObject) → P x → P (set_policy_path x f.path none)

    run_keeps :
        (fields : List (FieldSpec K R)) (next : JsonObject) (changed : Bool)
        → All IsKept fields
        → P next
        → P (run fields next changed).0
    unfolding reduce
    run_keeps [] next changed k h = h
    run_keeps (f ∷ fields) next changed (k, ks) h = elim (prune_field_cases next changed f) [
      | inl (same, settled) ↦ after (λ r. P r.0) fields same (run_keeps fields next changed ks h)
      | inr (removed, present, hidden) ↦
          after (λ r. P r.0) fields removed
            (run_keeps fields (set_policy_path next f.path none) true ks (k next h))
    ]

    pub prune_loop_keeps :
        (fuel : ℕ) (fields : List (FieldSpec K R)) (o : JsonObject) {r : JsonObject}
        → All IsKept fields
        → P o
        → prune_loop fuel fields o ≡ some r
        → P r
    unfolding prune_loop prune_pass
    prune_loop_keeps zero fields o k h e = cc
    prune_loop_keeps (suc fuel) fields o {r} k h e = elim (Bool-cases (run fields o false).1) [
      | inl changed ↦
          prune_loop_keeps fuel fields (run fields o false).0 k (run_keeps fields o false k h)
            (rw changed at e)
      | inr stable ↦
          let ended : some (run fields o false).0 ≡ some r = rw stable at e in
          let same : (run fields o false).0 ≡ r = cc in subst P same (run_keeps fields o false k h)
    ]
