-- ===== src/Pods/Scheduling.antt =====
-- Where the scheduler may put a pod.
use ocudu_infra_srs.Prelude.{
  ◌≡◌, ◌↔◌, refl, sym, ap, subst, ◌∙◌, inl, inr, Bool, true, not, List, [], ◌∷◌, map, if◌then◌else◌,
  In, here, there, All, In-map, In-single, All-In, All-intro,
}
use ocudu_infra_srs.Prelude.Text.{Text, text}
use ocudu_infra_srs.Elements.{LabelDefinition, TaintDefinition, check_label_list}
use ocudu_infra_srs.Elements.Labels.{Admits, IsPlain, check_label_list_iff}
use ocudu_infra_srs.Pods.Config.{PodConfig, Expression, is_in, does_not_exist, Toleration}
use ocudu_infra_srs.Pods.Spec.{toleration, expression, create_pod_spec}

-- When Kubernetes takes an expression to hold for the labels of a node.
abbrev pub Matches : List LabelDefinition → Expression → Type 0
Matches own (is_in key values) =
    (l : LabelDefinition) × In l own × (l.name ≡ key) × In l.value values
Matches own (does_not_exist key) = ¬ ((l : LabelDefinition) × In l own × (l.name ≡ key))

-- When Kubernetes takes a taint to be tolerated.
abbrev pub Tolerates : List Toleration → TaintDefinition → Type 0
Tolerates tolerations taint =
    (t : Toleration) × In t tolerations
    × (t.key ≡ taint.key)
    × (t.value ≡ taint.value)
    × (t.effect ≡ taint.effect)

expression_of : Text → Text → Bool → Expression
expression_of name value reverse =
    if not reverse then is_in name (value ∷ []) else does_not_exist name

plain_expression : (l : LabelDefinition) → IsPlain l → expression l ≡ is_in l.name (l.value ∷ [])
unfolding expression expression_of
plain_expression l p = ap (expression_of l.name l.value) p

same_label :
    (k l : LabelDefinition) → IsPlain k → IsPlain l → k.name ≡ l.name → k.value ≡ l.value → k ≡ l
same_label k l p q n v = λ i. record { name = n i; value = v i; reverse = (p ∙ sym q) i }

expression-Matches :
    (own : List LabelDefinition) (l : LabelDefinition)
    → All IsPlain own
    → IsPlain l
    → Matches own (expression l) ↔ Admits own l
expression-Matches own l plain p = (
  λ h. to (subst (Matches own) (plain_expression l p) h),
  λ a. subst (Matches own) (sym (plain_expression l p)) (from a),
)
  where
    to : Matches own (is_in l.name (l.value ∷ [])) → Admits own l
    to (k, i, e, v) =
        inl (
          p,
          subst (λ x. In x own) (same_label k l (All-In IsPlain own plain i) p e (In-single v)) i,
        )

    from : Admits own l → Matches own (is_in l.name (l.value ∷ []))
    from (inl (h, i)) = (l, i, refl, here)
    from (inr (h, n)) = cc

expressions_admit :
    (own asked : List LabelDefinition)
    → All IsPlain own
    → All IsPlain asked
    → All (Matches own) (map expression asked) ↔ All (Admits own) asked
expressions_admit own [] plain ps = (λ h. tt, λ h. tt)
expressions_admit own (l ∷ asked) plain ps =
    let first = expression-Matches own l plain ps.0 in
    let rest = expressions_admit own asked plain ps.1 in
    (λ h. (first.0 h.0, rest.0 h.1), λ h. (first.1 h.0, rest.1 h.1))

-- For labels that are not marked as reverse, the node affinity of a pod's specification holds for the labels of a
-- node exactly when check_label_list accepts the labels of the pod's config on that node.
pub affinity-check_label_list :
    (config : PodConfig) (dev_mode : Bool) (own : List LabelDefinition)
    → All IsPlain own
    → All IsPlain config.label_list
    → All (Matches own) (create_pod_spec config dev_mode).match_expressions
      ↔ (check_label_list own config.label_list ≡ true)
unfolding create_pod_spec
affinity-check_label_list config dev_mode own plain ps =
    let admits = expressions_admit own config.label_list plain ps in
    let checks = check_label_list_iff own config.label_list in
    (λ h. checks.1 (admits.0 h), λ h. admits.1 (checks.0 h))

toleration-In :
    (taints : List TaintDefinition) (t : Toleration)
    → In t (map toleration taints)
    → t.effect ≡ text "NoSchedule"
unfolding toleration
toleration-In [] t i = elim i [ ]
toleration-In (x ∷ taints) t here = refl
toleration-In (x ∷ taints) t (there i) = toleration-In taints t i

tolerated_effect :
    (taints : List TaintDefinition) (taint : TaintDefinition)
    → Tolerates (map toleration taints) taint
    → taint.effect ≡ text "NoSchedule"
tolerated_effect taints taint (t, i, key, value, effect) = sym effect ∙ toleration-In taints t i

-- Every taint of a pod's config is tolerated by the pod's specification exactly when all of these taints have the
-- effect NoSchedule.
pub tolerations_iff :
    (config : PodConfig) (dev_mode : Bool)
    → All (Tolerates (create_pod_spec config dev_mode).tolerations) config.taint_list
      ↔ All (λ t. t.effect ≡ text "NoSchedule") config.taint_list
unfolding create_pod_spec toleration
tolerations_iff config dev_mode = (to, from)
  where
    to :
        All (Tolerates (map toleration config.taint_list)) config.taint_list
        → All (λ t. t.effect ≡ text "NoSchedule") config.taint_list
    to h =
        All-intro (λ t. t.effect ≡ text "NoSchedule") config.taint_list
          (λ t i.
            tolerated_effect config.taint_list t
              (All-In (Tolerates (map toleration config.taint_list)) config.taint_list h i))

    from :
        All (λ t. t.effect ≡ text "NoSchedule") config.taint_list
        → All (Tolerates (map toleration config.taint_list)) config.taint_list
    from h = All-intro (Tolerates (map toleration config.taint_list)) config.taint_list (λ t i. (
      toleration t,
      In-map toleration config.taint_list i,
      refl,
      refl,
      sym (All-In (λ x. x.effect ≡ text "NoSchedule") config.taint_list h i),
    ))
