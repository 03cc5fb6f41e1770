-- ===== src/Policy/Editor/Saved.antt =====
-- ui/src/features/policy/policy-page.tsx: the sections of the configuration that saveGlobal,
-- persist and persistRules save. What a server's answer leads to is not modelled.
use boxui.Base.{
  String, Bool, true, false, Option, none, some, List, [], ◌∷◌, ◌≡◌, refl, ◌∙◌, ◌==◌, ◌||◌,
  includes, if◌then◌else◌, eq_refl, eq_iff, Bool-cases, inl, inr,
}
use boxui.Json.{JsonValue, object, JsonObject, empty, lookup, insert}
use boxui.Json.Laws.{lookup-insert}
use boxui.Policy.FormModel.Tags.{PolicySection, route, dns}

abbrev pub section_key : PolicySection → String
section_key route = "route"
section_key dns = "dns"

-- The keys of the lists that the visual editor edits.
abbrev pub list_keys : PolicySection → List String
list_keys route = "rules" ∷ "rule_set" ∷ []
list_keys dns = "servers" ∷ "rules" ∷ []

-- `isJsonObject(value) ? value : {}`
abbrev pub object_or_empty : JsonValue → JsonObject
object_or_empty (object o) = o
object_or_empty _ = empty

-- `...(source[key] === undefined ? {} : { [key]: source[key] })` after the properties of `o`
abbrev pub spread_key : Option JsonValue → String → JsonObject → JsonObject
spread_key none key o = o
spread_key (some v) key o = insert key v o

-- `{ ...o, ...preserved }`, where `preserved` has the source's values at these keys
unfoldable pub spread_keys : List String → JsonObject → JsonObject → JsonObject
spread_keys [] source o = o
spread_keys (key ∷ keys) source o = spread_keys keys source (spread_key (lookup key source) key o)

-- What saveGlobal hands on.
unfoldable pub save_global : PolicySection → JsonValue → JsonObject → JsonObject
unfolding spread_keys
save_global section initial o = spread_keys (list_keys section) (object_or_empty initial) o

-- `{ ...config, [section]: object }`
unfoldable pub persist : PolicySection → JsonObject → JsonObject → JsonObject
persist section config o = insert (section_key section) (object o) config

unfoldable pub persist_rules : PolicySection → JsonValue → JsonObject → JsonObject → JsonObject
unfolding spread_keys persist
persist_rules section initial config o =
    persist section config (spread_keys (list_keys section) o (object_or_empty initial))

-- The source's value of a key, or else the other's.
abbrev pub or_value : Option JsonValue → Option JsonValue → Option JsonValue
or_value none other = other
or_value (some v) other = some v

lookup-spread_key :
    (key k : String) (v : Option JsonValue) (o : JsonObject)
    → lookup k (spread_key v key o) ≡ (if key == k then or_value v (lookup k o) else lookup k o)
lookup-spread_key key k none o = elim (Bool-cases (key == k)) [
  | inl e ↦ rw e refl
  | inr e ↦ rw e refl
]
lookup-spread_key key k (some v) o = lookup-insert key k v o

lookup-spread_at :
    (key k : String) (source o : JsonObject)
    → lookup k (spread_key (lookup key source) key o)
      ≡ (if key == k then or_value (lookup k source) (lookup k o) else lookup k o)
lookup-spread_at key k source o =
    lookup-spread_key key k (lookup key source) o
    ∙ (elim (Bool-cases (key == k)) [ inl e ↦ rw (e, (eq_iff key k).0 e) refl | inr e ↦ rw e refl ])

or_value_twice : (v w : Option JsonValue) → or_value v (or_value v w) ≡ or_value v w
or_value_twice none w = refl
or_value_twice (some v) w = refl

merge_twice :
    (here there : Bool) (v w : Option JsonValue)
    → (if there
        then or_value v (if here then or_value v w else w)
        else (if here then or_value v w else w))
      ≡ (if here || there then or_value v w else w)
merge_twice true true v w = or_value_twice v w
merge_twice true false v w = refl
merge_twice false true v w = refl
merge_twice false false v w = refl

lookup-spread_keys :
    (keys : List String) (k : String) (source o : JsonObject)
    → lookup k (spread_keys keys source o)
      ≡ (if includes keys k then or_value (lookup k source) (lookup k o) else lookup k o)
unfolding spread_keys
lookup-spread_keys [] k source o = refl
lookup-spread_keys (key ∷ keys) k source o =
    rw
      (
        lookup-spread_keys keys k source (spread_key (lookup key source) key o),
        lookup-spread_at key k source o,
      )
      (merge_twice (key == k) (includes keys k) (lookup k source) (lookup k o))

-- Saving the global settings saves the edited object, except that the lists of the section, which the
-- visual editor saves by itself, keep the values that the saved configuration has; a list that it
-- lacks is taken from the edited object.
pub lookup-save_global :
    (section : PolicySection) (initial : JsonValue) (o : JsonObject) (k : String)
    → lookup k (save_global section initial o) ≡ (
        if includes (list_keys section) k
        then or_value (lookup k (object_or_empty initial)) (lookup k o)
        else lookup k o)
unfolding save_global
lookup-save_global section initial o k =
    lookup-spread_keys (list_keys section) k (object_or_empty initial) o

-- The object of a section of a configuration.
abbrev pub section_of : Option JsonValue → JsonObject
section_of (some v) = object_or_empty v
section_of none = empty

-- Saving the rules changes just the section of the configuration, and in it just the lists that the
-- edited object has: no other setting that is edited but not saved is written.
pub lookup-persist_rules :
    (section : PolicySection) (initial : JsonValue) (config o : JsonObject) (k key : String)
    → (lookup k (section_of (lookup (section_key section) (persist_rules section initial config o)))
        ≡ (if includes (list_keys section) k
            then or_value (lookup k o) (lookup k (object_or_empty initial))
            else lookup k (object_or_empty initial)))
      × (section_key section == key ≡ false
          → lookup key (persist_rules section initial config o) ≡ lookup key config)
unfolding persist_rules persist
lookup-persist_rules section initial config o k key =
    let saved = spread_keys (list_keys section) o (object_or_empty initial) in
    (
      rw
          (
            lookup-insert (section_key section) (section_key section) (object saved) config,
            eq_refl (section_key section),
          )
          (lookup-spread_keys (list_keys section) k o (object_or_empty initial)),
      λ other. rw (lookup-insert (section_key section) key (object saved) config, other) refl,
    )
