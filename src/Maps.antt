-- ===== src/Maps.antt =====
-- Go's `map[string]string` as a list of keys and values, in which no key need come in order.
use openenvx_cloud.Prelude.{
  ◌≡◌, refl, String, List, [], ◌∷◌, Option, none, some, arith, ◌==◌, eq_iff, if◌then◌else◌,
}

unfoldable pub lookup : String → List (String × String) → Option String
lookup k [] = none
lookup k ((j, v) ∷ m) = if j == k then some v else lookup k m

-- m[k] = v
unfoldable pub set_key : String → String → List (String × String) → List (String × String)
set_key k v [] = (k, v) ∷ []
set_key k v ((j, x) ∷ m) = if j == k then (k, v) ∷ m else (j, x) ∷ set_key k v m

pub lookup-set_key :
    (k j v : String) (m : List (String × String))
    → lookup j (set_key k v m) ≡ (if k == j then some v else lookup j m)
unfolding lookup set_key
lookup-set_key k j v [] = refl
lookup-set_key k j v ((i, x) ∷ m) =
    ground (arith, eq_iff k j, eq_iff i k, eq_iff i j, lookup-set_key k j v m)
