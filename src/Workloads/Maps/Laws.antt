-- ===== src/Workloads/Maps/Laws.antt =====
-- Lookup after the changes of a map of texts.
use dash0_operator.Base.{
  String, false, none, some, [], ◌∷◌, ◌==◌, ◌≡◌, refl, arith, eq_iff, eq_refl,
}
use dash0_operator.Workloads.Pod.{Map}
use dash0_operator.Workloads.Maps.{lookup, put, delete}

pub lookup-put : (m : Map) (k v : String) → lookup (put m k v) k ≡ some v
unfolding lookup put
lookup-put [] k v = ground (arith, eq_refl k)
lookup-put (e ∷ m) k v = ground (arith, lookup-put m k v, eq_refl k)

pub lookup-put-other :
    (m : Map) (k v other : String)
    → (k == other) ≡ false
    → lookup (put m k v) other ≡ lookup m other
unfolding lookup put
lookup-put-other [] k v other h = ground arith
lookup-put-other (e ∷ m) k v other h = ground (arith, lookup-put-other m k v other, eq_iff e.0 k)

pub lookup-delete : (m : Map) (k : String) → lookup (delete m k) k ≡ none
unfolding lookup delete
lookup-delete [] k = refl
lookup-delete (e ∷ m) k = ground (arith, lookup-delete m k)

pub lookup-delete-other :
    (m : Map) (k other : String) → (k == other) ≡ false → lookup (delete m k) other ≡ lookup m other
unfolding lookup delete
lookup-delete-other [] k other h = refl
lookup-delete-other (e ∷ m) k other h =
    ground (arith, lookup-delete-other m k other, eq_iff e.0 k, eq_iff e.0 other, eq_iff k other)
