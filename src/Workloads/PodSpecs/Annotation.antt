-- ===== src/Workloads/PodSpecs/Annotation.antt =====
-- internal/workloads/workload_modifier.go: the annotation that lists the local volumes, when the Dash0
-- volume is added to it and removed from it.
use mathlib.Core.Option.{some-injective}
use dash0_operator.Base.{
  String, true, Option, none, some, List, [], ◌∷◌, ◌==◌, ◌≡◌, refl, sym, ◌∙◌, arith, Bool-cases,
  inl, inr, eq_iff, eq_refl, ◌↔◌,
}
use dash0_operator.Base.Members.{In}
use dash0_operator.Base.Text.{trim_left, trim_right, contains_text, trim_space, split}
use dash0_operator.Workloads.Pod.{Map}
use dash0_operator.Workloads.Maps.{lookup, put, delete}
use dash0_operator.Workloads.Maps.Laws.{lookup-put}
use dash0_operator.Workloads.Instrumentation.{dash0_volume_name}
use dash0_operator.Workloads.PodSpecs.{
  safe_to_evict, parse_and_normalize_volume_list, listed_volume,
  add_safe_to_evict_local_volumes_annotation, delete_first, unlisted_volume,
  remove_safe_to_evict_local_volumes_annotation,
}

delete_first-none :
    (xs : List String) (name : String) → (delete_first xs name ≡ none) ↔ (¬ (In name xs))
unfolding delete_first
delete_first-none [] name = (λ h i. i, λ h. refl)
delete_first-none (x ∷ xs) name = ground (arith, delete_first-none xs name, eq_iff x name)

-- The annotation names the Dash0 volume somewhere in its text, but not as one of its entries.
abbrev pub NamesOnlyInPassing : Map → Type 0
NamesOnlyInPassing annotations =
    (value : String) × (lookup annotations safe_to_evict ≡ some value)
    × (contains_text value dash0_volume_name ≡ true)
    × (¬ (In dash0_volume_name (parse_and_normalize_volume_list value)))

own_name-In : In dash0_volume_name (parse_and_normalize_volume_list dash0_volume_name)
unfolding parse_and_normalize_volume_list split trim_space trim_left trim_right
own_name-In = inl refl

unlisted_volume-none :
    (annotations : Map) (value : String)
    → (unlisted_volume annotations (some value) ≡ none) ↔ (
        (contains_text value dash0_volume_name ≡ true)
        × (¬ (In dash0_volume_name (parse_and_normalize_volume_list value))))
unfolding unlisted_volume
unlisted_volume-none annotations value = elim (Bool-cases (value == dash0_volume_name)) [
  | inl e ↦
      let own : In dash0_volume_name (parse_and_normalize_volume_list value) =
        rw ((eq_iff value dash0_volume_name).0 e) own_name-In in
      (λ h. absurd (ground (arith, e, h)), λ h. absurd (h.1 own))
  | inr e ↦
      ground (arith, e, delete_first-none (parse_and_normalize_volume_list value) dash0_volume_name)
]

names-in_passing :
    (annotations : Map) (o : Option String)
    → lookup annotations safe_to_evict ≡ o
    → (unlisted_volume annotations o ≡ none) ↔ NamesOnlyInPassing annotations
unfolding unlisted_volume
names-in_passing annotations none e = (λ h. absurd (ground arith), λ h. absurd (cc (e, h.1)))
names-in_passing annotations (some value) e =
    let panics = unlisted_volume-none annotations value in
    (
      λ h. let (c, n) = panics.0 h in (value, e, c, n),
      λ (other, f, c, n).
          let same : other ≡ value = some-injective other value (sym f ∙ e) in
          panics.1 (rw (← same) c, λ i. n (rw same i)),
    )

-- Removing the Dash0 volume from the annotation on local volumes panics exactly when the value of the
-- annotation contains the name of the volume, but no entry of the list is that name.
pub remove_safe_to_evict-panics :
    (annotations : Map)
    → (remove_safe_to_evict_local_volumes_annotation annotations ≡ none)
      ↔ NamesOnlyInPassing annotations
unfolding remove_safe_to_evict_local_volumes_annotation
remove_safe_to_evict-panics annotations =
    names-in_passing annotations (lookup annotations safe_to_evict) refl

delete-put : (m : Map) (k v : String) → lookup m k ≡ none → delete (put m k v) k ≡ m
unfolding lookup put delete
delete-put [] k v h = ground (arith, eq_refl k)
delete-put (e ∷ m) k v h = ground (arith, delete-put m k v)

-- Where the annotation is missing, it is missing again afterwards, with the other annotations kept.
pub remove-add_safe_to_evict :
    (annotations : Map)
    → lookup annotations safe_to_evict ≡ none
    → remove_safe_to_evict_local_volumes_annotation
        (add_safe_to_evict_local_volumes_annotation annotations)
      ≡ some annotations
unfolding remove_safe_to_evict_local_volumes_annotation add_safe_to_evict_local_volumes_annotation
    listed_volume unlisted_volume
remove-add_safe_to_evict annotations h = ground (
  arith,
  h,
  lookup-put annotations safe_to_evict dash0_volume_name,
  delete-put annotations safe_to_evict dash0_volume_name h,
  eq_refl dash0_volume_name,
)

pub remove_safe_to_evict-absent :
    (annotations : Map)
    → lookup annotations safe_to_evict ≡ none
    → remove_safe_to_evict_local_volumes_annotation annotations ≡ some annotations
unfolding remove_safe_to_evict_local_volumes_annotation unlisted_volume
remove_safe_to_evict-absent annotations h = rw h refl
