-- ===== src/Instance/Operands.antt =====
-- internal/controller/platform_readiness.go: whether KubeVirt and HyperShift are there. The operands
-- are read as unstructured data; what apimachinery's accessors find in them are fields here.
use guestcluster.Base.{
  Bool, List, Option, Text, [], codes, false, if◌then◌else◌, length, ltb_ℤ, none, not, pos, some,
  text_eq, true, ℕ, ℤ, ◌==◌, ◌∷◌,
}
use guestcluster.Kube.{
  ConditionType, Message, Reason, Reply, found, operand_not_ready, other_condition, other_reason,
  plain, refused,
}

-- An item of a list of conditions: `none` where the field is no text.
pub record StatusItem : Type 0 where
  pub type : Option Text
  pub status : Option Text

-- `conditions` is `none` where there is no list at status.conditions.
pub record Operand : Type 0 where
  pub generation : ℤ
  pub observed_generation : Option ℤ
  pub conditions : Option (List StatusItem)

-- An item of spec.overrides.components of a MultiClusterEngine.
pub record Component : Type 0 where
  pub name : Option Text
  pub enabled : Option Bool

-- The live reads of the checks; `get_operator_replicas` reads the available replicas of the
-- Deployment hypershift/operator.
pub record OperandServer (S : Type 0) : Type 0 where
  pub list_hyper_converged : S → Reply (List Operand)
  pub list_engines : S → Reply (List (Option (List Component)))
  pub get_crd : Text → S → Reply Operand
  pub get_operator_replicas : S → Reply ℤ

-- A condition without its generation, which the gate fills in.
pub record PlatformCondition : Type 0 where
  pub kind : ConditionType
  pub reason : Reason
  pub message : Message
  pub is_ready : Bool

abbrev pub hyper_converged_ready : ConditionType
hyper_converged_ready = other_condition (codes "HyperConvergedReady")

abbrev pub engine_ready : ConditionType
engine_ready = other_condition (codes "MultiClusterEngineReady")

unfoldable pub ready_condition : ConditionType → Message → PlatformCondition
ready_condition t msg = record {
  kind = t;
  reason = other_reason (codes "OperandReady");
  message = msg;
  is_ready = true;
}

unfoldable pub not_ready_condition : ConditionType → Reason → Message → PlatformCondition
not_ready_condition t r msg = record { kind = t; reason = r; message = msg; is_ready = false }

unfoldable pub unavailable_condition : ConditionType → Text → PlatformCondition
unfolding not_ready_condition
unavailable_condition t operand =
    not_ready_condition t (other_reason (codes "APIUnavailable"))
      (record { format = "cannot read %s"; numbers = []; names = operand ∷ [] })

unfoldable pub singleton_condition : ConditionType → Text → ℕ → PlatformCondition
unfolding not_ready_condition
singleton_condition t operand count =
    if count == 0
    then not_ready_condition t (other_reason (codes "OperandNotFound"))
        (record { format = "no %s operand was found"; numbers = []; names = operand ∷ [] })
    else not_ready_condition t (other_reason (codes "MultipleOperandsFound")) (record {
      format = "found %d %s operands; exactly one is required";
      numbers = pos count ∷ [];
      names = operand ∷ [];
    })

abbrev is_text : Option Text → Text → Bool
is_text none t = false
is_text (some a) t = text_eq a t

-- The status of the first condition of a type.
unfoldable pub status_loop : List StatusItem → Text → Option Text
status_loop [] t = none
status_loop (c ∷ cs) t = let rest = status_loop cs t in if is_text c.type t then c.status else rest

unfoldable pub condition_status : Operand → Text → Option Text
unfolding status_loop
condition_status operand t = elim operand.conditions [ none ↦ none | some cs ↦ status_loop cs t ]

unfoldable pub component_loop : List Component → Bool
component_loop [] = false
component_loop (c ∷ cs) =
    let rest = component_loop cs in
    if is_text c.name (codes "hypershift")
    then elim c.enabled [ none ↦ true | some b ↦ b ]
    else rest

-- `none` where the engine lists no components.
unfoldable pub hyper_shift_component_enabled : Option (List Component) → Bool
unfolding component_loop
hyper_shift_component_enabled none = false
hyper_shift_component_enabled (some cs) = component_loop cs

-- The conditions that HyperConverged must have.
abbrev pub expected : List (Text × Text)
expected =
    (codes "Available", codes "True")
    ∷ (codes "Progressing", codes "False")
    ∷ (codes "Degraded", codes "False")
    ∷ []

unfoldable pub expected_loop : Operand → List (Text × Text) → PlatformCondition
unfolding condition_status not_ready_condition ready_condition
expected_loop operand [] =
    ready_condition hyper_converged_ready (plain "HyperConverged is available")
expected_loop operand ((t, st) ∷ rest) =
    let later = expected_loop operand rest in
    if not (is_text (condition_status operand t) st)
    then not_ready_condition hyper_converged_ready operand_not_ready (record {
      format = "HyperConverged condition %s must be %s";
      numbers = [];
      names = t ∷ st ∷ [];
    })
    else later

-- The status has not seen the latest generation.
unfoldable pub is_stale : Operand → Bool
is_stale operand = elim operand.observed_generation [
  | none ↦ true
  | some g ↦ ltb_ℤ g operand.generation
]

unfoldable pub check_operand : Operand → PlatformCondition
unfolding is_stale not_ready_condition expected_loop
check_operand operand =
    if is_stale operand
    then not_ready_condition hyper_converged_ready (other_reason (codes "StatusStale"))
        (plain "HyperConverged status does not observe its current generation")
    else expected_loop operand expected

unfoldable pub check_operands : Reply (List Operand) → PlatformCondition
unfolding unavailable_condition singleton_condition check_operand
check_operands (refused e) = unavailable_condition hyper_converged_ready (codes "HyperConverged")
check_operands (found []) = singleton_condition hyper_converged_ready (codes "HyperConverged") 0
check_operands (found (x ∷ [])) = check_operand x
check_operands (found (x ∷ y ∷ zs)) =
    singleton_condition hyper_converged_ready (codes "HyperConverged") (length (x ∷ y ∷ zs))

unfoldable pub check_operator : Reply ℤ → PlatformCondition
unfolding unavailable_condition not_ready_condition ready_condition
check_operator (refused e) =
    unavailable_condition engine_ready (codes "hypershift/operator Deployment")
check_operator (found replicas) =
    if ltb_ℤ replicas (pos 1)
    then not_ready_condition engine_ready operand_not_ready
        (plain "Deployment hypershift/operator has no available replicas")
    else ready_condition engine_ready (plain "HyperShift APIs and operator are available")

-- The definitions that must be established.
abbrev pub crd_names : List Text
crd_names =
    codes "hostedclusters.hypershift.openshift.io" ∷ codes "nodepools.hypershift.openshift.io" ∷ []

unfoldable pub check_crd : Text → Reply Operand → PlatformCondition → PlatformCondition
unfolding unavailable_condition condition_status not_ready_condition
check_crd name (refused e) later = unavailable_condition engine_ready name
check_crd name (found crd) later =
    if not (is_text (condition_status crd (codes "Established")) (codes "True"))
    then not_ready_condition engine_ready operand_not_ready (record {
      format = "CustomResourceDefinition %s is not established";
      numbers = [];
      names = name ∷ [];
    })
    else later

module _ {S : Type 0} (ops : OperandServer S) where
  unfoldable pub check_hyper_converged : S → PlatformCondition
  unfolding check_operands
  check_hyper_converged s = check_operands (ops.list_hyper_converged s)

  unfoldable pub crd_loop : List Text → S → PlatformCondition
  unfolding check_crd check_operator
  crd_loop [] s = check_operator (ops.get_operator_replicas s)
  crd_loop (n ∷ ns) s = check_crd n (ops.get_crd n s) (crd_loop ns s)

  unfoldable pub check_engines : Reply (List (Option (List Component))) → S → PlatformCondition
  unfolding unavailable_condition singleton_condition not_ready_condition crd_loop
      hyper_shift_component_enabled
  check_engines (refused e) s = unavailable_condition engine_ready (codes "MultiClusterEngine")
  check_engines (found []) s = singleton_condition engine_ready (codes "MultiClusterEngine") 0
  check_engines (found (x ∷ [])) s =
      if not (hyper_shift_component_enabled x)
      then not_ready_condition engine_ready (other_reason (codes "ComponentDisabled"))
          (plain "MultiClusterEngine does not enable the hypershift component")
      else crd_loop crd_names s
  check_engines (found (x ∷ y ∷ zs)) s =
      singleton_condition engine_ready (codes "MultiClusterEngine") (length (x ∷ y ∷ zs))

  unfoldable pub check_multi_cluster_engine : S → PlatformCondition
  unfolding check_engines
  check_multi_cluster_engine s = check_engines (ops.list_engines s) s
