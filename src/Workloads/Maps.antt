-- ===== src/Workloads/Maps.antt =====
-- Maps of texts (Go's map[string]string), as lists by key.
pub mod Laws
use Prim.Native.String
use dash0_operator.Base.{
  String, Bool, true, false, not, Option, none, some, List, [], ◌∷◌, ◌==◌, keep, compare, Ordering,
  is_some, if◌then◌else◌,
}
use dash0_operator.Workloads.Pod.{Map}

unfoldable pub lookup : Map → String → Option String
lookup [] key = none
lookup ((k, v) ∷ entries) key = if k == key then some v else lookup entries key

abbrev pub has_key : Map → String → Bool
has_key m key = is_some (lookup m key)

-- m[key] = value
unfoldable pub put : Map → String → String → Map
put [] key value = (key, value) ∷ []
put ((k, v) ∷ entries) key value =
    let rest = put entries key value in if k == key then (k, value) ∷ entries else (k, v) ∷ rest

-- delete(m, key)
unfoldable pub delete : Map → String → Map
delete m key = keep (λ e. not (e.0 == key)) m

-- m[key] = value in a list that is sorted by key, as slices.Sorted(maps.Keys(m)) reads it
unfoldable pub put_sorted : Map → String → String → Map
put_sorted [] key value = (key, value) ∷ []
put_sorted ((k, v) ∷ entries) key value =
    let rest = put_sorted entries key value in
    elim (String.compare key k) [
      | Ordering.eq ↦ (k, value) ∷ entries
      | Ordering.lt ↦ (key, value) ∷ (k, v) ∷ entries
      | Ordering.gt ↦ (k, v) ∷ rest
    ]
