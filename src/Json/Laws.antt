-- ===== src/Json/Laws.antt =====
-- The laws of `lookup`, `insert` and `delete`, which hold for every object.
use boxui.Base.{String, ◌≡◌, refl, none, some, arith, ◌==◌, eq_iff, if◌then◌else◌}
use boxui.Json.{JsonValue, JsonObject, empty, property, lookup, insert, delete}

pub lookup-insert :
    (k j : String) (v : JsonValue) (o : JsonObject)
    → lookup j (insert k v o) ≡ (if k == j then some v else lookup j o)
unfolding lookup insert
lookup-insert k j v empty = refl
lookup-insert k j v (property i w o) =
    ground (arith, eq_iff k j, eq_iff i k, eq_iff i j, lookup-insert k j v o)

pub lookup-delete :
    (k j : String) (o : JsonObject) → lookup j (delete k o) ≡ (if k == j then none else lookup j o)
unfolding lookup delete
lookup-delete k j empty = ground arith
lookup-delete k j (property i w o) =
    ground (arith, eq_iff k j, eq_iff i k, eq_iff i j, lookup-delete k j o)
