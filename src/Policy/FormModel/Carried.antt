-- ===== src/Policy/FormModel/Carried.antt =====
-- What a change of type carries over, as ui/src/features/policy/route-form-model.ts and
-- dns-form-cleanup.ts both mean it, said of the fields and values themselves, and the searches in
-- lists of fields that decide it. `path` and `kind` are those of a field, `Fits` says which values a
-- kind takes.
use mathlib.Core.Bool.{false≢true}
use boxui.Base.{
  String, Bool, true, false, Option, none, some, List, [], ◌∷◌, ◌&&◌, ◌==◌, ◌≡◌, ◌↔◌, refl, sym, ap,
  ◌∙◌, subst, Option-cases, Bool-cases, inl, inr, and-parts, if◌then◌else◌, any, keep, every,
  every-All, All, Memᴰ, eq_iff, All-map_imp, not, or_else,
}
use boxui.Json.{JsonValue}
use boxui.Form.{table_get}

-- The value after a change, by the one before: a value is kept where it survives and dropped
-- otherwise.
pub data Carries (Survives : JsonValue → Type 0)
    : Option JsonValue → Option JsonValue → Type 0 where
  absent : Carries Survives none none
  kept : (v : JsonValue) → Survives v → Carries Survives (some v) (some v)
  dropped : (v : JsonValue) → ¬ Survives v → Carries Survives (some v) none

module _ {F K : Type 0} (path : F → String) (kind : F → K) where
  -- The old type, where it is a known one, has the field with the same kind.
  abbrev pub IsShared : Option (List F) → F → Type 0
  IsShared none g = Unit
  IsShared (some source) g = (h : F) × Memᴰ h source × (path h ≡ path g) × (kind h ≡ kind g)

  -- The new type has a field of the path, which the old type shares, and the value fits its kind.
  unfoldable pub Survives :
      (K → JsonValue → Type 0) → Option (List F) → List F → String → JsonValue → Type 0
  Survives Fits source target q v =
      (g : F) × Memᴰ g target × (path g ≡ q) × IsShared source g × Fits (kind g) v

  abbrev pub IsDistinct : List F → Type 0
  IsDistinct [] = Unit
  IsDistinct (f ∷ fields) = All (λ g. (path g == path f) ≡ false) fields × IsDistinct fields

  abbrev pub are_distinct : List F → Bool
  are_distinct [] = true
  are_distinct (f ∷ fields) = every (λ g. not (path g == path f)) fields && are_distinct fields

  not-false : (b : Bool) → not b ≡ true → b ≡ false
  not-false true h = sym h
  not-false false h = refl

  are_distinct-IsDistinct : (fields : List F) → are_distinct fields ≡ true → IsDistinct fields
  are_distinct-IsDistinct [] h = tt
  are_distinct-IsDistinct (f ∷ fields) h =
      let (others, rest) =
        and-parts (every (λ g. not (path g == path f)) fields) (are_distinct fields) h in
      (
        All-map_imp (λ g. not (path g == path f) ≡ true) (λ g. (path g == path f) ≡ false)
            (λ g. not-false (path g == path f)) fields
            (every-All (λ g. not (path g == path f)) fields others),
        are_distinct-IsDistinct fields rest,
      )

  -- The fields of a type, none for a type that the table does not have, have distinct paths.
  pub table-IsDistinct :
      (table : List (String × List F)) (type : String)
      → every (λ entry. are_distinct entry.1) table ≡ true
      → IsDistinct (or_else (table_get table type) [])
  unfolding table_get
  table-IsDistinct [] type h = tt
  table-IsDistinct ((name, fields) ∷ table) type h =
      let (here, rest) =
        and-parts (are_distinct fields) (every (λ entry. are_distinct entry.1) table) h in
      elim (Bool-cases (name == type)) [
        | inl e ↦ rw e (are_distinct-IsDistinct fields here)
        | inr e ↦ rw e (table-IsDistinct table type rest)
      ]

  -- The last field of a path.
  abbrev pub last_at : List F → String → Option F
  last_at [] q = none
  last_at (f ∷ fields) q =
      let later = last_at fields q in
      elim later [ some g ↦ some g | none ↦ if path f == q then some f else none ]

  last_at_sound :
      (fields : List F) (q : String) (f : F)
      → last_at fields q ≡ some f
      → Memᴰ f fields × (path f ≡ q)
  last_at_sound [] q f h = cc
  last_at_sound (g ∷ fields) q f h = elim (Option-cases (last_at fields q)) [
    | inl e ↦ elim (Bool-cases (path g == q)) [
      | inl same ↦
          let here : g ≡ f = cc (rw (e, same) at h) in
          (Memᴰ.head (sym here), subst (λ x. path x ≡ q) here ((eq_iff (path g) q).0 same))
      | inr other ↦ cc (rw (e, other) at h)
    ]
    | inr (later, e) ↦
        let same : later ≡ f = cc (rw e at h) in
        let (m, at_q) = last_at_sound fields q later e in
        subst (λ x. Memᴰ x (g ∷ fields) × (path x ≡ q)) same (Memᴰ.tail m, at_q)
  ]

  keep-mem :
      (test : F → Bool) (fields : List F) (f : F)
      → Memᴰ f (keep test fields)
      → Memᴰ f fields × (test f ≡ true)
  keep-mem test [] f m = elim m [ ]
  keep-mem test (g ∷ fields) f m = elim (Bool-cases (test g)) [
    | inl e ↦ elim (rw e at m) [
      | Memᴰ.head here ↦ (Memᴰ.head here, ap test here ∙ e)
      | Memᴰ.tail rest ↦
          let (there, passes) = keep-mem test fields f rest in (Memᴰ.tail there, passes)
    ]
    | inr e ↦ let (there, passes) = keep-mem test fields f (rw e at m) in (Memᴰ.tail there, passes)
  ]

  last_at-absent :
      (test : F → Bool) (fields : List F) (q : String)
      → All (λ g. (path g == q) ≡ false) fields
      → last_at (keep test fields) q ≡ none
  last_at-absent test [] q h = refl
  last_at-absent test (g ∷ fields) q (h, hs) = elim (Bool-cases (test g)) [
    | inl e ↦ rw (e, last_at-absent test fields q hs, h) refl
    | inr e ↦ rw e (last_at-absent test fields q hs)
  ]

  last_at-keep :
      (test : F → Bool) (fields : List F) (f : F)
      → IsDistinct fields
      → Memᴰ f fields
      → test f ≡ true
      → last_at (keep test fields) (path f) ≡ some f
  last_at-keep test [] f d m t = elim m [ ]
  last_at-keep test (g ∷ fields) f (apart, d) (Memᴰ.head here) t =
      let passes : test g ≡ true = ap test (sym here) ∙ t in
      let others : All (λ h. (path h == path f) ≡ false) fields =
        subst (λ x. All (λ h. (path h == path x) ≡ false) fields) (sym here) apart in
      let found : (path g == path f) ≡ true = (eq_iff (path g) (path f)).1 (ap path (sym here)) in
      rw (passes, last_at-absent test fields (path f) others, found) (ap some (sym here))
  last_at-keep test (g ∷ fields) f (apart, d) (Memᴰ.tail m) t =
      let later = last_at-keep test fields f d m t in
      elim (Bool-cases (test g)) [ inl e ↦ rw (e, later) refl | inr e ↦ rw (e, later) refl ]

  module _ (same : K → K → Bool) (fits : K → JsonValue → Bool) (Fits : K → JsonValue → Type 0) where
    -- The test of a field of the new type against the old one.
    abbrev pub is_shared : Option (List F) → F → Bool
    is_shared none g = true
    is_shared (some source) g = any (λ h. path h == path g && same (kind h) (kind g)) source

    abbrev pub offered : Option (List F) → List F → List F
    offered none target = target
    offered (some source) target = keep (is_shared (some source)) target

    abbrev pub passes : Option F → JsonValue → Bool
    passes none v = false
    passes (some g) v = fits (kind g) v

    module _ (same_iff : (a b : K) → (same a b ≡ true) ↔ (a ≡ b))
        (fits_iff : (k : K) (v : JsonValue) → (fits k v ≡ true) ↔ Fits k v) where
      any-IsShared :
          (source : List F) (g : F) → is_shared (some source) g ≡ true → IsShared (some source) g
      any-IsShared [] g h = absurd (false≢true h)
      any-IsShared (f ∷ source) g h =
          elim (Bool-cases (path f == path g && same (kind f) (kind g))) [
            | inl e ↦
                let (paths, kinds) = and-parts (path f == path g) (same (kind f) (kind g)) e in
                (
                  f,
                  Memᴰ.head refl,
                  (eq_iff (path f) (path g)).0 paths,
                  (same_iff (kind f) (kind g)).0 kinds,
                )
            | inr e ↦
                let (shared, m, paths, kinds) = any-IsShared source g (rw e at h) in
                (shared, Memᴰ.tail m, paths, kinds)
          ]

      IsShared-any :
          (source : List F) (g h : F)
          → Memᴰ h source
          → path h ≡ path g
          → kind h ≡ kind g
          → is_shared (some source) g ≡ true
      IsShared-any [] g h m p k = elim m [ ]
      IsShared-any (f ∷ source) g h (Memᴰ.head here) p k =
          let paths : (path f == path g) ≡ true =
            (eq_iff (path f) (path g)).1 (ap path (sym here) ∙ p) in
          let kinds : same (kind f) (kind g) ≡ true =
            (same_iff (kind f) (kind g)).1 (ap kind (sym here) ∙ k) in
          rw (paths, kinds) refl
      IsShared-any (f ∷ source) g h (Memᴰ.tail m) p k =
          let rest = IsShared-any source g h m p k in
          elim (Bool-cases (path f == path g && same (kind f) (kind g))) [
            | inl e ↦ rw e refl
            | inr e ↦ rw e rest
          ]

      offered_sound :
          (source : Option (List F)) (target : List F) (g : F)
          → Memᴰ g (offered source target)
          → Memᴰ g target × IsShared source g
      offered_sound none target g m = (m, tt)
      offered_sound (some source) target g m =
          let (there, test) = keep-mem (is_shared (some source)) target g m in
          (there, any-IsShared source g test)

      keep-true : (fields : List F) → keep (λ f. true) fields ≡ fields
      keep-true [] = refl
      keep-true (f ∷ fields) = ap (λ rest. f ∷ rest) (keep-true fields)

      offered-last :
          (source : Option (List F)) (target : List F) (g : F)
          → IsDistinct target
          → Memᴰ g target
          → IsShared source g
          → last_at (offered source target) (path g) ≡ some g
      offered-last none target g d m shared =
          subst (λ fs. last_at fs (path g) ≡ some g) (keep-true target)
            (last_at-keep (λ f. true) target g d m refl)
      offered-last (some source) target g d m (h, there, paths, kinds) =
          last_at-keep (is_shared (some source)) target g d m
            (IsShared-any source g h there paths kinds)

      -- The search among the fields that both types share decides what survives.
      pub passes-Survives :
          (source : Option (List F)) (target : List F) (q : String) (v : JsonValue)
          → IsDistinct target
          → (passes (last_at (offered source target) q) v ≡ true) ↔ Survives Fits source target q v
      unfolding Survives
      passes-Survives source target q v d = (
        (λ e. elim (Option-cases (last_at (offered source target) q)) [
          | inl nothing ↦ absurd (false≢true (rw nothing at e))
          | inr (g, found) ↦
              let (m, at_q) = last_at_sound (offered source target) q g found in
              let (there, shared) = offered_sound source target g m in
              (g, there, at_q, shared, (fits_iff (kind g) v).0 (rw found at e))
        ]),
        λ (g, m, at_q, shared, fit).
            let found : last_at (offered source target) q ≡ some g =
              subst (λ p. last_at (offered source target) p ≡ some g) at_q
                (offered-last source target g d m shared) in
            rw found ((fits_iff (kind g) v).1 fit),
      )

-- What survives may be said in another way.
pub Carries-map :
    (S T : JsonValue → Type 0) (before after : Option JsonValue)
    → ((v : JsonValue) → S v ↔ T v)
    → Carries S before after
    → Carries T before after
Carries-map S T none none same absent = absent
Carries-map S T before after same (kept v s) = kept v ((same v).0 s)
Carries-map S T before after same (dropped v s) = dropped v (λ t. s ((same v).1 t))

-- Where nothing survives, no value is left.
pub nothing-Carries :
    (S : JsonValue → Type 0) (before : Option JsonValue)
    → ((v : JsonValue) → ¬ S v)
    → Carries S before none
nothing-Carries S none h = absent
nothing-Carries S (some v) h = dropped v (h v)
