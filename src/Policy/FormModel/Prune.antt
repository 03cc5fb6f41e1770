-- ===== src/Policy/FormModel/Prune.antt =====
-- `pruneInvisiblePolicyFields` ends, and what it leaves.
mod Loop
pub use Loop.{Shrinks, IsSettled}
use Loop.{
  prune_field_cases, after, present, present-le-length, prune_loop_total, prune_loop-settled,
  IsKept, prune_loop_keeps,
}
use boxui.Base.{
  ℕ, zero, suc, ◌≤◌, ◌<◌, String, Bool, true, false, Option, none, some, List, [], ◌∷◌, ◌≡◌, refl,
  ap, sym, ◌∙◌, ◌⊎◌, inl, inr, All, All-map_imp, length, or_else, reduce, arith,
}
use boxui.Json.{JsonValue, JsonObject}
use boxui.Form.{FieldSpec}
use boxui.Policy.FormModel.{
  get_policy_path, set_policy_path, is_policy_field_visible, prune_field, prune_pass, prune_loop,
  prune_invisible_policy_fields,
}
use boxui.Policy.FormModel.Access.{
  clashes, lies_below, get_policy_path-set_policy_path_ne, get_policy_path-set_policy_path-below,
}

module _ {K R : Type 0} (o : JsonObject) (fields : List (FieldSpec K R)) where
  -- The `while` loop ends within one pass more than there are fields, and its result is the object
  -- that `pruneInvisiblePolicyFields` returns.
  pub prune_loop_terminates :
      prune_loop (suc (length fields)) fields o ≡ some (prune_invisible_policy_fields o fields)
  unfolding prune_invisible_policy_fields
  prune_loop_terminates =
      let (r, e, settled, shrinks) =
        prune_loop_total (suc (length fields)) fields o
          (omega (arith, present-le-length fields o)) in
      e ∙ ap (λ x. some (or_else x o)) (sym e)

  -- In the result every field of the form is shown or has no value, whatever the removals before
  -- have hidden.
  pub prune-IsSettled : All (IsSettled (prune_invisible_policy_fields o fields)) fields
  unfolding prune_invisible_policy_fields
  prune-IsSettled =
      let (r, e, settled, shrinks) =
        prune_loop_total (suc (length fields)) fields o
          (omega (arith, present-le-length fields o)) in
      rw e settled

  -- Pruning brings no path into being.
  pub prune-Shrinks : Shrinks o (prune_invisible_policy_fields o fields)
  unfolding prune_invisible_policy_fields
  prune-Shrinks =
      let (r, e, settled, shrinks) =
        prune_loop_total (suc (length fields)) fields o
          (omega (arith, present-le-length fields o)) in
      rw e shrinks

  -- Where every field is shown or has no value already, pruning returns the object as it is.
  pub prune-settled : All (IsSettled o) fields → prune_invisible_policy_fields o fields ≡ o
  unfolding prune_invisible_policy_fields
  prune-settled h = rw (prune_loop-settled (length fields) fields o h)

  prune_keeps :
      (P : JsonObject → Type 0)
      → All (IsKept P) fields
      → P o
      → P (prune_invisible_policy_fields o fields)
  prune_keeps P k h = prune_loop_keeps P (suc (length fields)) fields o k h prune_loop_terminates

  -- A path that lies neither at, above nor below a field of the form keeps its value.
  pub prune-frame :
      (q : String)
      → All (λ f. clashes f.path q ≡ false) fields
      → get_policy_path (prune_invisible_policy_fields o fields) q ≡ get_policy_path o q
  prune-frame q apart =
      prune_keeps (λ x. get_policy_path x q ≡ get_policy_path o q)
        (All-map_imp (λ f. clashes f.path q ≡ false)
          (IsKept (λ x. get_policy_path x q ≡ get_policy_path o q))
          (λ f c x h. get_policy_path-set_policy_path_ne x f.path q none c ∙ h) fields apart)
        refl

  -- The field's path lies apart from the given one, or at or above it: its removal drops the value
  -- there or leaves it alone.
  abbrev pub Spares : String → FieldSpec K R → Type 0
  Spares q f = (clashes f.path q ≡ false) ⊎ (lies_below f.path q ≡ true)

  set-Spares :
      (q : String) (f : FieldSpec K R)
      → Spares q f
      → IsKept (λ x. (get_policy_path x q ≡ get_policy_path o q) ⊎ (get_policy_path x q ≡ none)) f
  set-Spares q f (inl apart) x (inl same) =
      inl (get_policy_path-set_policy_path_ne x f.path q none apart ∙ same)
  set-Spares q f (inl apart) x (inr gone) =
      inr (get_policy_path-set_policy_path_ne x f.path q none apart ∙ gone)
  set-Spares q f (inr below) x h = inr (get_policy_path-set_policy_path-below x f.path q below)

  -- Pruning never alters a value: at a path with no field strictly below it the result has the value
  -- of the object, or none.
  pub prune-Spares :
      (q : String)
      → All (Spares q) fields
      → (get_policy_path (prune_invisible_policy_fields o fields) q ≡ get_policy_path o q)
        ⊎ (get_policy_path (prune_invisible_policy_fields o fields) q ≡ none)
  prune-Spares q spared =
      prune_keeps (λ x. (get_policy_path x q ≡ get_policy_path o q) ⊎ (get_policy_path x q ≡ none))
        (All-map_imp _ _ (λ f h. set-Spares q f h) fields spared) (inl refl)

-- Pruning a second time changes nothing.
pub prune_idempotent :
    {K R : Type 0} (o : JsonObject) (fields : List (FieldSpec K R))
    → prune_invisible_policy_fields (prune_invisible_policy_fields o fields) fields
      ≡ prune_invisible_policy_fields o fields
prune_idempotent o fields =
    prune-settled (prune_invisible_policy_fields o fields) fields (prune-IsSettled o fields)
