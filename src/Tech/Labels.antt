-- ===== src/Tech/Labels.antt =====
-- tech.rs: `detect_from_labels`.
use hub_kubernetes_agent.Prelude.{
  String, Option, none, some, List, [], ◌∷◌, Bool, ◌||◌, ◌==◌, if◌then◌else◌, trim, is_none,
}
use hub_kubernetes_agent.Tech.{Technology}

unfoldable pub matches_stack_label_key : String → Bool
matches_stack_label_key key =
    (key == "app.kubernetes.io/component") || (key == "app.kubernetes.io/runtime")

abbrev pub labelled : Option String → String → Option String → String → Technology
labelled vendor product language subtype = record {
  vendor = vendor;
  product = some product;
  version = none;
  language = language;
  source = "labels";
  subtype = some subtype;
}

-- What the value of a label says, in lower case.
unfoldable pub stack_of_label : String → Option Technology
stack_of_label v =
    if (v == "postgres") || (v == "postgresql")
    then some (labelled (some "postgresql") "postgres" (some "C") "postgresql")
    else if v == "angular"
    then some (labelled none "angular" none "angular")
    else if (v == "spring-boot") || (v == "spring_boot") || (v == "springboot")
    then some (labelled none "spring-boot" (some "Java") "spring_boot")
    else if (v == "oracle") || (v == "oracle-database") || (v == "oracle_database")
    then some (labelled (some "oracle") "oracle-database" none "oracle_database")
    else none

-- The loop over the labels.
unfoldable pub detect_in_labels : (String → String) → List (String × String) → Option Technology
unfolding matches_stack_label_key stack_of_label
detect_in_labels to_lowercase [] = none
detect_in_labels to_lowercase ((key, value) ∷ labels) =
    let later = detect_in_labels to_lowercase labels in
    if matches_stack_label_key key
    then elim (stack_of_label (to_lowercase value)) [ some tech ↦ some tech | none ↦ later ]
    else later

-- The loop over the annotations, where no label tells.
unfoldable pub detect_in_annotations : List (String × String) → Option Technology
unfolding trim
detect_in_annotations [] = none
detect_in_annotations ((key, value) ∷ annotations) =
    let later = detect_in_annotations annotations in
    if key == "angular.io/version"
    then some (record (labelled none "angular" none "angular") { version = some (trim value) })
    else if key == "app.spring.io/version"
    then some (record (labelled none "spring-boot" (some "Java") "spring_boot") {
      version = some (trim value);
    })
    else later

-- The annotation that holds the version of a stack.
abbrev version_key : String → Option String
version_key subtype =
    if subtype == "angular"
    then some "angular.io/version"
    else if subtype == "spring_boot"
    then some "app.spring.io/version"
    else none

unfoldable pub annotation_version_for_stack : Option String → List (String × String) → Option String
unfolding trim
annotation_version_for_stack none annotations = none
annotation_version_for_stack (some subtype) [] = none
annotation_version_for_stack (some subtype) ((key, value) ∷ annotations) =
    let later = annotation_version_for_stack (some subtype) annotations in
    elim (version_key subtype) [
      | some wanted ↦ if key == wanted then some (trim value) else later
      | none ↦ later
    ]

abbrev with_version : Technology → Option String → Technology
with_version tech none = tech
with_version tech (some version) = record tech { version = some version }

unfoldable pub detect_from_labels :
    (String → String) → List (String × String) → List (String × String) → Option Technology
unfolding detect_in_labels detect_in_annotations annotation_version_for_stack
detect_from_labels to_lowercase labels annotations = elim (detect_in_labels to_lowercase labels) [
  | none ↦ detect_in_annotations annotations
  | some tech ↦
      if is_none tech.version
      then some (with_version tech (annotation_version_for_stack tech.subtype annotations))
      else some tech
]
