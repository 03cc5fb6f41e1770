-- ===== src/Policy/FormModel/Sieve.antt =====
-- A pass over the fields of a form that removes the path of each field whose value fails a test:
-- the shape of the transitions of the route, DNS, inbound and outbound forms.
use boxui.Base.{
  String, Bool, true, false, not, Option, none, List, [], ◌∷◌, ◌&&◌, ◌≡◌, refl, ap, ◌∙◌, Memᴰ, All,
  All-mem, if◌then◌else◌, reduce, every, arith,
}
use boxui.Text.{split_dots}
use boxui.Json.{JsonValue, JsonObject}
use boxui.Policy.FormModel.{get_policy_path, set_policy_path}
use boxui.Policy.FormModel.Paths.{overlaps}
use boxui.Policy.FormModel.Access.{
  clashes, get_policy_path-set_policy_path_self, get_policy_path-set_policy_path_ne,
}

module _ {F : Type 0} (path : F → String) where
  -- No two of the fields lie at or below one another.
  abbrev pub Apart : List F → Type 0
  Apart [] = Unit
  Apart (f ∷ fields) =
      All (λ g. clashes (path f) (path g) ≡ false) fields
      × All (λ g. clashes (path g) (path f) ≡ false) fields
      × Apart fields

  abbrev pub split_paths : List F → List (List String)
  split_paths [] = []
  split_paths (f ∷ fields) = split_dots (path f) ∷ split_paths fields

  module _ (kept : F → Option JsonValue → Bool) where
    -- One round of the pass.
    unfoldable pub sieve : JsonObject → F → JsonObject
    sieve next f =
        if kept f (get_policy_path next (path f)) then next else set_policy_path next (path f) none

    sieve_self :
        (next : JsonObject) (f : F)
        → get_policy_path (sieve next f) (path f)
          ≡ (if kept f (get_policy_path next (path f)) then get_policy_path next (path f) else none)
    unfolding sieve
    sieve_self next f = ground (arith, get_policy_path-set_policy_path_self next (path f) none)

    sieve_ne :
        (next : JsonObject) (f : F) (q : String)
        → clashes (path f) q ≡ false
        → get_policy_path (sieve next f) q ≡ get_policy_path next q
    unfolding sieve
    sieve_ne next f q h = ground (arith, get_policy_path-set_policy_path_ne next (path f) q none h)

    -- A path that no field touches keeps its value.
    pub sieve-frame :
        (next : JsonObject) (known : List F) (q : String)
        → All (λ f. clashes (path f) q ≡ false) known
        → get_policy_path (reduce sieve next known) q ≡ get_policy_path next q
    unfolding reduce
    sieve-frame next [] q h = refl
    sieve-frame next (f ∷ known) q (h, hs) =
        sieve-frame (sieve next f) known q hs ∙ sieve_ne next f q h

    -- A field keeps its value exactly if the value passes the test.
    pub sieve-exact :
        (next : JsonObject) (known : List F) (f : F)
        → Apart known
        → Memᴰ f known
        → get_policy_path (reduce sieve next known) (path f)
          ≡ (if kept f (get_policy_path next (path f)) then get_policy_path next (path f) else none)
    unfolding reduce
    sieve-exact next [] f a m = elim m [ ]
    sieve-exact next (x ∷ known) f (after, before, a) (Memᴰ.head e) =
        rw e (sieve-frame (sieve next x) known (path x) before ∙ sieve_self next x)
    sieve-exact next (x ∷ known) f (after, before, a) (Memᴰ.tail m) =
        sieve-exact (sieve next x) known f a m
        ∙ ap (λ v. if kept f v then v else none)
            (sieve_ne next x (path f)
              (All-mem (λ g. clashes (path x) (path g) ≡ false) known after m))

-- A test that a path lies apart from each of a list, all split into keys.
unfoldable pub apart_from : List String → List (List String) → Bool
unfolding overlaps
apart_from p ps = every (λ q. not (overlaps p q) && not (overlaps q p)) ps

-- A test for `Apart`.
unfoldable pub apart_keys : List (List String) → Bool
unfolding apart_from
apart_keys [] = true
apart_keys (p ∷ ps) = apart_from p ps && apart_keys ps

module _ {F : Type 0} (path : F → String) where
  pub apart_from-All :
      (key : String) (fields : List F)
      → apart_from (split_dots key) (split_paths path fields) ≡ true
      → All (λ g. clashes key (path g) ≡ false) fields
        × All (λ g. clashes (path g) key ≡ false) fields
  unfolding clashes apart_from
  apart_from-All key [] h = (tt, tt)
  apart_from-All key (g ∷ fields) h =
      let (xs, ys) = apart_from-All key fields (ground arith) in
      ((ground arith, xs), (ground arith, ys))

  pub apart_keys-Apart :
      (fields : List F) → apart_keys (split_paths path fields) ≡ true → Apart path fields
  unfolding apart_keys
  apart_keys-Apart [] h = tt
  apart_keys-Apart (f ∷ fields) h =
      let (xs, ys) = apart_from-All (path f) fields (ground arith) in
      (xs, ys, apart_keys-Apart fields (ground arith))
