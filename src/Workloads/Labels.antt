-- ===== src/Workloads/Labels.antt =====
-- internal/util/labels.go: the labels and the annotation that record the state of the instrumentation.
-- The hash of an image reference and the label selectors of Kubernetes are parameters.
pub mod Merged
use mathlib.Core.Option
use dash0_operator.Base.{
  String, Bool, true, false, not, ◌&&◌, Option, none, some, [], ◌∷◌, ◌==◌, is_some, if◌then◌else◌,
}
use dash0_operator.Workloads.Pod.{Map, ObjectMeta, ClusterConfig}
use dash0_operator.Workloads.Maps.{lookup, put, delete}
use dash0_operator.Workloads.Images.{image_ref_to_label}

abbrev pub instrumented_label : String
instrumented_label = "dash0.com/instrumented"

abbrev pub operator_image_label : String
operator_image_label = "dash0.com/operator-image"

abbrev pub instrumentation_image_label : String
instrumentation_image_label = "dash0.com/instrumentation-image"

abbrev pub legacy_init_container_image_label : String
legacy_init_container_image_label = "dash0.com/init-container-image"

abbrev pub instrumented_by_label : String
instrumented_by_label = "dash0.com/instrumented-by"

abbrev pub instrumentation_delivery_annotation : String
instrumentation_delivery_annotation = "dash0.com/instrumentation-delivery"

abbrev pub webhook_ignore_once_label : String
webhook_ignore_once_label = "dash0.com/webhook-ignore-once"

pub data InstrumentedState : Type 0 where
  successful unsuccessful unknown : InstrumentedState

abbrev pub add_label : ObjectMeta → String → String → ObjectMeta
add_label meta key value = record meta { labels = put meta.labels key value }

abbrev pub remove_label : ObjectMeta → String → ObjectMeta
remove_label meta key = record meta { labels = delete meta.labels key }

abbrev pub add_annotation : ObjectMeta → String → String → ObjectMeta
add_annotation meta key value = record meta { annotations = put meta.annotations key value }

abbrev pub remove_annotation : ObjectMeta → String → ObjectMeta
remove_annotation meta key = record meta { annotations = delete meta.annotations key }

abbrev pub delivery_text : Bool → String
delivery_text is_image_volume = if is_image_volume then "image-volume" else "init-container"

module _ (hash : String → String) where
  unfoldable pub add_instrumentation_labels_and_annotations :
      ObjectMeta → Bool → ClusterConfig → Bool → String → ObjectMeta
  add_instrumentation_labels_and_annotations meta success c is_image_volume actor =
      let stated = add_label meta instrumented_label (if success then "true" else "false") in
      let operated =
        add_label stated operator_image_label (image_ref_to_label hash c.operator_image) in
      let imaged =
        add_label operated instrumentation_image_label
          (image_ref_to_label hash c.init_container_image) in
      let acted = add_label imaged instrumented_by_label actor in
      let delivered =
        add_annotation acted instrumentation_delivery_annotation (delivery_text is_image_volume) in
      remove_label delivered legacy_init_container_image_label

unfoldable pub remove_instrumentation_labels_and_annotations : ObjectMeta → ObjectMeta
remove_instrumentation_labels_and_annotations meta =
    let unstated = remove_label meta instrumented_label in
    let unoperated = remove_label unstated operator_image_label in
    let unimaged = remove_label unoperated instrumentation_image_label in
    let unacted = remove_label unimaged instrumented_by_label in
    remove_label (remove_annotation unacted instrumentation_delivery_annotation)
      legacy_init_container_image_label

state_of : Option String → InstrumentedState
state_of none = unknown
state_of (some value) =
    if value == "true" then successful else if value == "false" then unsuccessful else unknown

unfoldable pub read_instrumentation_state : ObjectMeta → InstrumentedState
unfolding state_of
read_instrumentation_state meta = state_of (lookup meta.labels instrumented_label)

unfoldable pub has_been_instrumented_successfully : ObjectMeta → Bool
has_been_instrumented_successfully meta = elim (read_instrumentation_state meta) [
  | successful ↦ true
  | unsuccessful ↦ false
  | unknown ↦ false
]

unfoldable pub instrumentation_attempt_has_failed : ObjectMeta → Bool
instrumentation_attempt_has_failed meta = elim (read_instrumentation_state meta) [
  | successful ↦ false
  | unsuccessful ↦ true
  | unknown ↦ false
]

module _ (hash : String → String) where
  images_match : ClusterConfig → Option String → Option String → Bool
  images_match c (some operator) (some instrumentation) =
      operator == image_ref_to_label hash c.operator_image
      && instrumentation == image_ref_to_label hash c.init_container_image
  images_match c _ _ = false

  unfoldable pub has_been_instrumented_successfully_by_this_version :
      ObjectMeta → ClusterConfig → Bool
  unfolding images_match
  has_been_instrumented_successfully_by_this_version meta c =
      if not (has_been_instrumented_successfully meta)
      then false
      else images_match c (lookup meta.labels operator_image_label)
          (lookup meta.labels instrumentation_image_label)

-- labels.Parse and Matches: a selector that cannot be parsed has no test.
module _ (parse : String → Option (Map → Bool)) where
  matches : Option (Map → Bool) → Map → Option Bool
  matches none labels = none
  matches (some selector) labels = some (selector labels)

  -- none: not even the default selector can be parsed, and the call panics
  unfoldable pub should_be_instrumented : ObjectMeta → String → Option Bool
  unfolding matches
  should_be_instrumented meta selector =
      if is_some (parse selector)
      then matches (parse selector) meta.labels
      else matches (parse "dash0.com/enable!=false") meta.labels

  unfoldable pub has_opted_out_of_instrumentation : ObjectMeta → String → Option Bool
  has_opted_out_of_instrumentation meta selector =
      Option.map not (should_be_instrumented meta selector)

  unfoldable pub has_opted_out_and_is_uninstrumented : ObjectMeta → String → Option Bool
  has_opted_out_and_is_uninstrumented meta selector =
      Option.map (λ out. out && not (has_been_instrumented_successfully meta))
        (has_opted_out_of_instrumentation meta selector)

  unfoldable pub was_instrumented_but_has_opted_out_now : ObjectMeta → String → Option Bool
  was_instrumented_but_has_opted_out_now meta selector =
      if has_been_instrumented_successfully meta
      then has_opted_out_of_instrumentation meta selector
      else some false

abbrev is_value : Option String → String → Bool
is_value none value = false
is_value (some v) value = v == value

unfoldable pub add_webhook_ignore_once_label : ObjectMeta → ObjectMeta
add_webhook_ignore_once_label meta = add_label meta webhook_ignore_once_label "true"

unfoldable pub has_webhook_ignore_once_label : ObjectMeta → Bool
has_webhook_ignore_once_label meta = is_value (lookup meta.labels webhook_ignore_once_label) "true"

unfoldable pub remove_webhook_ignore_once_label : Map → Map × Bool
remove_webhook_ignore_once_label labels =
    if not (is_value (lookup labels webhook_ignore_once_label) "true")
    then (labels, false)
    else (delete labels webhook_ignore_once_label, true)

-- maps.Copy
unfoldable pub copy : Map → Map → Map
copy target [] = target
copy target ((key, value) ∷ entries) = copy (put target key value) entries

-- MergeMaps; a nil map is an empty one
unfoldable pub merge_maps : Map → Map → Map
merge_maps defaults additional = copy (copy [] additional) defaults
