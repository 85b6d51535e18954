-- ===== src/Operator/Namespaces/Effective.antt =====
-- operator.rs: the namespaces that a status lists are the eligible ones.
use hub_kubernetes_agent.Prelude.{
  ◌≡◌, ◌↔◌, ◌∙◌, sym, refl, String, some, List, [], ◌∷◌, Memᴰ, true, ◌==◌, eq_iff, arith, contains,
  contains-sort, subst, eq_refl, ap, lookup, not, Bool, false, Bool-cases, Option-cases, inl, inr,
}
use hub_kubernetes_agent.Model.Objects.{Namespace}
use hub_kubernetes_agent.Prelude.Decisions.{and_true}
use hub_kubernetes_agent.Operator.Namespaces.{
  eligible_names, effective_namespaces, is_eligible, namespace_is_excluded,
  namespace_action_mode_enabled,
}
use hub_kubernetes_agent.Operator.Namespaces.Covered.{Covers, namespace_is_excluded-Covers}

-- A listed namespace of this name that passes the tests of the loop.
record Chosen (namespaces : List Namespace) (excluded : List String) (name : String) : Type 0 where
  namespace : Namespace
  listed : Memᴰ namespace namespaces
  named : namespace.metadata.name ≡ some name
  eligible : is_eligible excluded name namespace ≡ true

Chosen-cons :
    (first : Namespace) (rest : List Namespace) (excluded : List String) (name : String)
    → Chosen rest excluded name
    → Chosen (first ∷ rest) excluded name
Chosen-cons first rest excluded name e = record {
  namespace = e.namespace;
  listed = Memᴰ.tail e.listed;
  named = e.named;
  eligible = e.eligible;
}

eligible_names-Chosen :
    (namespaces : List Namespace) (excluded : List String) (name : String)
    → contains (eligible_names excluded namespaces) name ≡ true
    → Chosen namespaces excluded name
unfolding eligible_names
eligible_names-Chosen [] excluded name h = cc
eligible_names-Chosen (first ∷ rest) excluded name h =
    let later = eligible_names-Chosen rest excluded name in
    elim (Option-cases first.metadata.name) [
      | inl a ↦ Chosen-cons first rest excluded name (later (rw (a, eligible_names) at h))
      | inr (n, a) ↦ elim (Bool-cases (is_eligible excluded n first)) [
        | inl b ↦ elim (Bool-cases (n == name)) [
          | inl c ↦ record {
            namespace = first;
            listed = Memᴰ.head refl;
            named = rw (← (eq_iff n name).0 c) a;
            eligible = rw (← (eq_iff n name).0 c) b;
          }
          | inr c ↦ Chosen-cons first rest excluded name (later (rw (a, b, c, eligible_names) at h))
        ]
        | inr b ↦ Chosen-cons first rest excluded name (later (rw (a, b, eligible_names) at h))
      ]
    ]

Chosen-eligible_names :
    (namespaces : List Namespace) (excluded : List String) (name : String) (namespace : Namespace)
    → Memᴰ namespace namespaces
    → namespace.metadata.name ≡ some name
    → is_eligible excluded name namespace ≡ true
    → contains (eligible_names excluded namespaces) name ≡ true
unfolding eligible_names
Chosen-eligible_names [] excluded name namespace m n e = elim m [ ]
Chosen-eligible_names (first ∷ rest) excluded name namespace (Memᴰ.head same) n e =
    let named : first.metadata.name ≡ some name = subst (λ m. m.metadata.name ≡ some name) same n in
    let eligible : is_eligible excluded name first ≡ true =
      subst (λ m. is_eligible excluded name m ≡ true) same e in
    rw (named, eligible_names) (rw (eligible, eq_refl))
Chosen-eligible_names (first ∷ rest) excluded name namespace (Memᴰ.tail m) n e =
    ground (arith, Chosen-eligible_names rest excluded name namespace m n e)

-- A listed namespace of this name, which no pattern covers, and whose label for action mode is "true".
pub record Eligible (namespaces : List Namespace) (excluded : List String) (name : String)
    : Type 0 where
  pub namespace : Namespace
  pub listed : Memᴰ namespace namespaces
  pub named : namespace.metadata.name ≡ some name
  pub uncovered : (pattern' : String) → Memᴰ pattern' excluded → Covers pattern' name → ⊥
  pub labels : List (String × String)
  pub labels_are : namespace.metadata.labels ≡ some labels
  pub labelled : lookup "sentinella.io/action-mode" labels ≡ some "true"

labels_of :
    (namespace : Namespace)
    → namespace_action_mode_enabled namespace ≡ true
    → (labels : List (String × String)) × (namespace.metadata.labels ≡ some labels)
      × (lookup "sentinella.io/action-mode" labels ≡ some "true")
unfolding namespace_action_mode_enabled
labels_of namespace h = elim (Option-cases namespace.metadata.labels) [
  | inl bare ↦ cc (rw (bare, namespace_action_mode_enabled) at h)
  | inr (labels, e) ↦ elim (Option-cases (lookup "sentinella.io/action-mode" labels)) [
    | inl absent ↦ cc (rw (e, absent, namespace_action_mode_enabled) at h)
    | inr (value, found) ↦
        let is_true : value ≡ "true" =
          (eq_iff value "true").0 (rw (e, found, namespace_action_mode_enabled) at h) in
        (labels, e, found ∙ ap some is_true)
  ]
]

labelled-enabled :
    (namespace : Namespace) (labels : List (String × String))
    → namespace.metadata.labels ≡ some labels
    → lookup "sentinella.io/action-mode" labels ≡ some "true"
    → namespace_action_mode_enabled namespace ≡ true
unfolding namespace_action_mode_enabled
labelled-enabled namespace labels e found = rw (e, found, namespace_action_mode_enabled) refl

Chosen-Eligible :
    {namespaces : List Namespace} {excluded : List String} {name : String}
    → Chosen namespaces excluded name
    → Eligible namespaces excluded name
unfolding is_eligible
Chosen-Eligible {excluded = excluded} {name = name} c =
    let (free, enabled) = and_true {a = not (namespace_is_excluded name excluded)} c.eligible in
    let (labels, labels_are, labelled) = labels_of c.namespace enabled in
    record {
      namespace = c.namespace;
      listed = c.listed;
      named = c.named;
      uncovered = (namespace_is_excluded-Covers name excluded).0 (not_true free);
      labels = labels;
      labels_are = labels_are;
      labelled = labelled;
    }
  where
    not_true : {b : Bool} → not b ≡ true → b ≡ false
    not_true {b} h = ground arith

Eligible-Chosen :
    {namespaces : List Namespace} {excluded : List String} {name : String}
    → Eligible namespaces excluded name
    → Chosen namespaces excluded name
unfolding is_eligible
Eligible-Chosen {excluded = excluded} {name = name} e =
    let free = (namespace_is_excluded-Covers name excluded).1 e.uncovered in
    let enabled = labelled-enabled e.namespace e.labels e.labels_are e.labelled in
    record {
      namespace = e.namespace;
      listed = e.listed;
      named = e.named;
      eligible = rw (free, enabled, is_eligible) refl;
    }

-- The effective namespaces of a status are exactly the names of the listed namespaces whose label
-- sentinella.io/action-mode is "true" and that no pattern covers: a pattern covers its own text, and
-- one that ends in "*" covers instead the names that begin with what stands in front of it, which is
-- not empty.
pub effective_namespaces-Eligible :
    (namespaces : List Namespace) (excluded : List String) (name : String)
    → (contains (effective_namespaces namespaces excluded) name ≡ true)
      ↔ Eligible namespaces excluded name
unfolding effective_namespaces
effective_namespaces-Eligible namespaces excluded name =
    let same = contains-sort (eligible_names excluded namespaces) name in
    (
      λ h. Chosen-Eligible (eligible_names-Chosen namespaces excluded name (sym same ∙ h)),
      λ e.
          let c = Eligible-Chosen e in
          same
          ∙ Chosen-eligible_names namespaces excluded name c.namespace c.listed c.named c.eligible,
    )
