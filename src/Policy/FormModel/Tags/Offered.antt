-- ===== src/Policy/FormModel/Tags/Offered.antt =====
-- The tags that a form offers: each once, none empty, none the current one, and all of the others.
use boxui.Base.{
  String, Bool, true, false, not, Option, none, some, List, [], ◌∷◌, ◌++◌, ◌||◌, ◌&&◌, ◌≡◌, refl,
  sym, ◌∙◌, subst, ◌==◌, eq_iff, eq_refl, Memᴰ, includes, add_new, distinct, reduce, Bool-cases,
  inl, inr, arith, All, All-append,
}
use boxui.Json.{JsonValue, string, array, object, JsonArray, nil, cons, JsonObject, items, lookup}
use boxui.Policy.FormModel.Tags.{
  is_current, offered_tag, tag_of_item, tags_of_items, policy_config_tags,
}

-- No text stands in the list twice.
abbrev pub HasNoRepeat : List String → Type 0
HasNoRepeat [] = Unit
HasNoRepeat (x ∷ xs) = (includes xs x ≡ false) × HasNoRepeat xs

includes-append :
    (xs ys : List String) (s : String) → includes (xs ++ ys) s ≡ (includes xs s || includes ys s)
includes-append [] ys s = refl
includes-append (x ∷ xs) ys s = ground (arith, includes-append xs ys s)

or-false-intro : (a b : Bool) → a ≡ false → b ≡ false → (a || b) ≡ false
or-false-intro a b h k = ground arith

ne-sym : (s t : String) → (s == t) ≡ false → (t == s) ≡ false
ne-sym s t h = ground (arith, eq_iff s t, eq_iff t s)

snoc-HasNoRepeat :
    (xs : List String) (s : String)
    → includes xs s ≡ false
    → HasNoRepeat xs
    → HasNoRepeat (xs ++ s ∷ [])
snoc-HasNoRepeat [] s h k = (refl, tt)
snoc-HasNoRepeat (x ∷ xs) s h (k, ks) =
    let here : (x == s) ≡ false = ground arith in
    let there : includes xs s ≡ false = ground arith in
    (
      includes-append xs (s ∷ []) x
          ∙ or-false-intro (includes xs x) ((s == x) || false) k
              (or-false-intro (s == x) false (ne-sym x s here) refl),
      snoc-HasNoRepeat xs s there ks,
    )

pub add_new-HasNoRepeat :
    (seen : List String) (s : String) → HasNoRepeat seen → HasNoRepeat (add_new seen s)
unfolding add_new
add_new-HasNoRepeat seen s k = elim (Bool-cases (includes seen s)) [
  | inl old ↦ rw old k
  | inr fresh ↦ rw fresh (snoc-HasNoRepeat seen s fresh k)
]

reduce-HasNoRepeat :
    (xs seen : List String) → HasNoRepeat seen → HasNoRepeat (reduce add_new seen xs)
unfolding reduce
reduce-HasNoRepeat [] seen k = k
reduce-HasNoRepeat (x ∷ xs) seen k =
    reduce-HasNoRepeat xs (add_new seen x) (add_new-HasNoRepeat seen x k)

reduce-All :
    (P : String → Type 0) (xs seen : List String)
    → All P xs
    → All P seen
    → All P (reduce add_new seen xs)
unfolding reduce add_new
reduce-All P [] seen h k = k
reduce-All P (x ∷ xs) seen (p, h) k = elim (Bool-cases (includes seen x)) [
  | inl old ↦ rw old (reduce-All P xs seen h k)
  | inr fresh ↦ rw fresh (reduce-All P xs (seen ++ x ∷ []) h (All-append P seen (x ∷ []) k (p, tt)))
]

includes-reduce-seen :
    (xs seen : List String) (s : String)
    → includes seen s ≡ true
    → includes (reduce add_new seen xs) s ≡ true
unfolding reduce add_new
includes-reduce-seen [] seen s h = h
includes-reduce-seen (x ∷ xs) seen s h = elim (Bool-cases (includes seen x)) [
  | inl old ↦ rw old (includes-reduce-seen xs seen s h)
  | inr fresh ↦
      rw fresh (
        includes-reduce-seen xs (seen ++ x ∷ []) s
          (ground (arith, includes-append seen (x ∷ []) s)))
]

add_new_self : (seen : List String) (s : String) → includes (add_new seen s) s ≡ true
unfolding add_new
add_new_self seen s = elim (Bool-cases (includes seen s)) [
  | inl old ↦ rw old old
  | inr fresh ↦ rw fresh (ground (arith, includes-append seen (s ∷ []) s, eq_refl s))
]

includes-reduce :
    (xs seen : List String) {s : String} → Memᴰ s xs → includes (reduce add_new seen xs) s ≡ true
unfolding reduce
includes-reduce [] seen m = elim m [ ]
includes-reduce (x ∷ xs) seen {s} (Memᴰ.head e) =
    includes-reduce-seen xs (add_new seen x) s
      (subst (λ t. includes (add_new seen t) s ≡ true) e (add_new_self seen s))
includes-reduce (x ∷ xs) seen (Memᴰ.tail m) = includes-reduce xs (add_new seen x) m

-- A tag to offer is not empty and not the current one.
abbrev pub IsOffered : Option String → String → Type 0
IsOffered current tag = ((tag == "") ≡ false) × (is_current current tag ≡ false)

not-left : (a b : Bool) → (not a && not b) ≡ true → a ≡ false
not-left true b h = sym h
not-left false b h = refl

not-right : (a b : Bool) → (not a && not b) ≡ true → b ≡ false
not-right true b h = ground arith
not-right false true h = sym h
not-right false false h = refl

offered_tag-IsOffered :
    (current : Option String) (v : Option JsonValue)
    → All (IsOffered current) (offered_tag current v)
unfolding offered_tag
offered_tag-IsOffered current (some (string tag)) =
    elim (Bool-cases (not (tag == "") && not (is_current current tag))) [
      | inl fits ↦ rw fits (
        (
          not-left (tag == "") (is_current current tag) fits,
          not-right (tag == "") (is_current current tag) fits,
        ),
        tt,
      )
      | inr other ↦ rw other tt
    ]
offered_tag-IsOffered current none = tt
offered_tag-IsOffered current (some _) = tt

tag_of_item-IsOffered :
    (current : Option String) (v : JsonValue) → All (IsOffered current) (tag_of_item current v)
unfolding tag_of_item
tag_of_item-IsOffered current (object o) = offered_tag-IsOffered current (lookup "tag" o)
tag_of_item-IsOffered current _ = tt

tags_of_items-IsOffered :
    (current : Option String) (vs : JsonArray) → All (IsOffered current) (tags_of_items current vs)
unfolding tags_of_items
tags_of_items-IsOffered current nil = tt
tags_of_items-IsOffered current (cons v vs) =
    All-append (IsOffered current) (tag_of_item current v) (tags_of_items current vs)
      (tag_of_item-IsOffered current v) (tags_of_items-IsOffered current vs)

-- Each tag is offered once, and none of them is empty or the current one, whatever the configuration
-- holds in place of the items.
pub policy_config_tags_lem :
    (value : Option JsonValue) (current : Option String)
    → HasNoRepeat (policy_config_tags value current)
      × All (IsOffered current) (policy_config_tags value current)
unfolding policy_config_tags distinct
policy_config_tags_lem (some (array vs)) current = (
  reduce-HasNoRepeat (tags_of_items current vs) [] tt,
  reduce-All (IsOffered current) (tags_of_items current vs) [] (tags_of_items-IsOffered current vs)
      tt,
)
policy_config_tags_lem none current = (tt, tt)
policy_config_tags_lem (some _) current = (tt, tt)

Memᴰ-append-left : (xs ys : List String) {s : String} → Memᴰ s xs → Memᴰ s (xs ++ ys)
Memᴰ-append-left [] ys m = elim m [ ]
Memᴰ-append-left (x ∷ xs) ys (Memᴰ.head e) = Memᴰ.head e
Memᴰ-append-left (x ∷ xs) ys (Memᴰ.tail m) = Memᴰ.tail (Memᴰ-append-left xs ys m)

Memᴰ-append-right : (xs ys : List String) {s : String} → Memᴰ s ys → Memᴰ s (xs ++ ys)
Memᴰ-append-right [] ys m = m
Memᴰ-append-right (x ∷ xs) ys m = Memᴰ.tail (Memᴰ-append-right xs ys m)

offered_tag-tagged :
    (current : Option String) (tag : String)
    → IsOffered current tag
    → Memᴰ tag (offered_tag current (some (string tag)))
unfolding offered_tag
offered_tag-tagged current tag (filled, other) = rw (filled, other) (Memᴰ.head refl)

tag_of_item-tagged :
    (current : Option String) (o : JsonObject) (tag : String)
    → lookup "tag" o ≡ some (string tag)
    → IsOffered current tag
    → Memᴰ tag (tag_of_item current (object o))
unfolding tag_of_item
tag_of_item-tagged current o tag e h =
    subst (λ v. Memᴰ tag (offered_tag current v)) (sym e) (offered_tag-tagged current tag h)

tags_of_items-tagged :
    (current : Option String) (vs : JsonArray) (o : JsonObject) (tag : String)
    → Memᴰ (object o) (items vs)
    → lookup "tag" o ≡ some (string tag)
    → IsOffered current tag
    → Memᴰ tag (tags_of_items current vs)
unfolding tags_of_items
tags_of_items-tagged current nil o tag m e h = elim m [ ]
tags_of_items-tagged current (cons v vs) o tag (Memᴰ.head same) e h =
    Memᴰ-append-left (tag_of_item current v) (tags_of_items current vs)
      (subst (λ w. Memᴰ tag (tag_of_item current w)) same (tag_of_item-tagged current o tag e h))
tags_of_items-tagged current (cons v vs) o tag (Memᴰ.tail m) e h =
    Memᴰ-append-right (tag_of_item current v) (tags_of_items current vs)
      (tags_of_items-tagged current vs o tag m e h)

-- The tag of every object of the array is offered, unless it is empty or the current one.
pub policy_config_tags_complete :
    (current : Option String) (vs : JsonArray) (o : JsonObject) (tag : String)
    → Memᴰ (object o) (items vs)
    → lookup "tag" o ≡ some (string tag)
    → IsOffered current tag
    → includes (policy_config_tags (some (array vs)) current) tag ≡ true
unfolding policy_config_tags distinct
policy_config_tags_complete current vs o tag m e h =
    includes-reduce (tags_of_items current vs) [] (tags_of_items-tagged current vs o tag m e h)
