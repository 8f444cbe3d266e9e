-- ===== src/Storage/Objects.antt =====
-- An object that is put is got, and no other is changed.
use openenvx_cloud.Prelude.{
  ◌≡◌, refl, ◌∙◌, String, List, [], ◌∷◌, some, arith, ◌==◌, eq_iff, if◌then◌else◌,
}
use openenvx_cloud.World.{Object}
use openenvx_cloud.Storage.{get_object, put_object}

pub get_object-put_object :
    (k j : String) (o : Object) (m : List (String × Object))
    → get_object j (put_object k o m) ≡ (if k == j then some o else get_object j m)
unfolding get_object put_object
get_object-put_object k j o [] = refl
get_object-put_object k j o ((i, x) ∷ m) =
    ground (arith, eq_iff k j, eq_iff i k, eq_iff i j, get_object-put_object k j o m)

pub get_object-put_object_self :
    (k : String) (o : Object) (m : List (String × Object))
    → get_object k (put_object k o m) ≡ some o
get_object-put_object_self k o m = get_object-put_object k k o m ∙ rw ((eq_iff k k).1 refl) refl
