-- ===== src/Infisical/Laws.antt =====
-- What `GetSecrets` makes of the entries of a listing.
use openenvx_cloud.Prelude.{
  ◌≡◌, refl, ◌∙◌, ap, String, List, [], ◌∷◌, Option, none, some, arith, ◌==◌, eq_iff, if◌then◌else◌,
}
use openenvx_cloud.Maps.{lookup, set_key, lookup-set_key}
use openenvx_cloud.Infisical.{Secret, collect}

abbrev pub or_else : Option String → Option String → Option String
or_else none o = o
or_else (some v) o = some v

-- The value of the last entry with the key.
abbrev pub last_value : String → List Secret → Option String
last_value k [] = none
last_value k (s ∷ ss) =
    or_else (last_value k ss) (if s.secret_key == k then some s.secret_value else none)

or_else_if :
    (a b : Option String) (v k j : String)
    → or_else a (if j == k then some v else b)
      ≡ or_else (or_else a (if j == k then some v else none)) b
or_else_if none b v k j = ground (arith, eq_iff j k)
or_else_if (some x) b v k j = refl

lookup-collect_from :
    (k : String) (m : List (String × String)) (ss : List Secret)
    → lookup k (collect m ss) ≡ or_else (last_value k ss) (lookup k m)
unfolding collect
lookup-collect_from k m [] = refl
lookup-collect_from k m (s ∷ ss) =
    lookup-collect_from k (set_key s.secret_key s.secret_value m) ss
    ∙ ap (or_else (last_value k ss)) (lookup-set_key s.secret_key k s.secret_value m)
    ∙ or_else_if (last_value k ss) (lookup k m) s.secret_value k s.secret_key

or_else-none : (o : Option String) → or_else o none ≡ o
or_else-none none = refl
or_else-none (some v) = refl

-- The map that the loop of `GetSecrets` builds gives each key the value of the last entry with that
-- key, and has no other key.
pub lookup-collect : (k : String) (ss : List Secret) → lookup k (collect [] ss) ≡ last_value k ss
unfolding lookup
lookup-collect k ss = lookup-collect_from k [] ss ∙ or_else-none (last_value k ss)
