-- ===== src/Workloads/Labels/Merged.antt =====
-- internal/util/labels.go: MergeMaps, and the labels after the instrumentation has been removed.
use dash0_operator.Base.{
  String, Option, none, some, [], ◌∷◌, map, ◌==◌, ◌≡◌, refl, ◌∙◌, arith, eq_iff, Bool-cases, inl,
  inr,
}
use dash0_operator.Base.Members.{IsDistinct, In}
use dash0_operator.Workloads.Pod.{Map, ObjectMeta}
use dash0_operator.Workloads.Maps.{lookup, put, delete}
use dash0_operator.Workloads.Maps.Laws.{
  lookup-put, lookup-put-other, lookup-delete, lookup-delete-other,
}
use dash0_operator.Workloads.Labels.{
  unknown, instrumented_label, operator_image_label, instrumentation_image_label,
  instrumented_by_label, legacy_init_container_image_label, copy, merge_maps,
  read_instrumentation_state, remove_instrumentation_labels_and_annotations,
}

-- The keys of a Go map are distinct.
abbrev pub IsMap : Map → Type 0
IsMap m = IsDistinct (map (λ e. e.0) m)

abbrev pub or_else : Option String → Option String → Option String
or_else (some v) other = some v
or_else none other = other

or_else-none : (o : Option String) → or_else o none ≡ o
or_else-none none = refl
or_else-none (some v) = refl

lookup-absent : (m : Map) (k : String) → ¬ (In k (map (λ e. e.0) m)) → lookup m k ≡ none
unfolding lookup
lookup-absent [] k h = refl
lookup-absent (e ∷ m) k h = ground (arith, lookup-absent m k, eq_iff e.0 k, h)

lookup-copy :
    (target entries : Map) (k : String)
    → IsMap entries
    → lookup (copy target entries) k ≡ or_else (lookup entries k) (lookup target k)
unfolding copy lookup
lookup-copy target [] k h = refl
lookup-copy target ((key, value) ∷ entries) k h = elim (Bool-cases (key == k)) [
  | inl e ↦
      let same = (eq_iff key k).0 e in
      rw
        (
          e,
          lookup-copy (put target key value) entries k h.1,
          lookup-absent entries k (λ i. h.0 (rw same i)),
        )
        (rw (← same) (lookup-put target key value))
  | inr e ↦
      rw
        (e, lookup-copy (put target key value) entries k h.1, lookup-put-other target key value k e)
        refl
]

-- The merged labels have the default under every key that has one, and the additional label under every
-- other key.
pub lookup-merge_maps :
    (defaults additional : Map) (k : String)
    → IsMap defaults
    → IsMap additional
    → lookup (merge_maps defaults additional) k ≡ or_else (lookup defaults k) (lookup additional k)
unfolding merge_maps lookup
lookup-merge_maps defaults additional k h l =
    lookup-copy (copy [] additional) defaults k h
    ∙ rw (lookup-copy [] additional k l, or_else-none (lookup additional k)) refl

pub removed-unknown :
    (meta : ObjectMeta)
    → read_instrumentation_state (remove_instrumentation_labels_and_annotations meta) ≡ unknown
unfolding read_instrumentation_state remove_instrumentation_labels_and_annotations
removed-unknown meta =
    let unstated = delete meta.labels instrumented_label in
    let unoperated = delete unstated operator_image_label in
    let unimaged = delete unoperated instrumentation_image_label in
    let unacted = delete unimaged instrumented_by_label in
    let gone : lookup (delete unacted legacy_init_container_image_label) instrumented_label ≡ none =
      lookup-delete-other unacted legacy_init_container_image_label instrumented_label refl
      ∙ lookup-delete-other unimaged instrumented_by_label instrumented_label refl
      ∙ lookup-delete-other unoperated instrumentation_image_label instrumented_label refl
      ∙ lookup-delete-other unstated operator_image_label instrumented_label refl
      ∙ lookup-delete meta.labels instrumented_label in
    rw gone refl
