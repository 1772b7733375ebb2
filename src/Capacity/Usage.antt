-- ===== src/Capacity/Usage.antt =====
-- internal/controller/namespace_capacity.go: what one ClusterInstance asks for, and whether one more
-- would go over the limits of its namespace.
use guestcluster.Api.{Instance, InstanceSpec, Phase, Topology, crc, hcp, other_topology}
use guestcluster.Base.{
  Bool, List, Option, Text, [], codes, false, if◌then◌else◌, is_empty, leb_ℤ, ltb_ℤ, none, not, pos,
  some, text_eq, true, ℤ, ◌*ℤ◌, ◌||◌, ◌∷◌,
}
use guestcluster.Capacity.{Amounts, Dimension, QuotaViolation, amount_of, cpu, memory, storage}
use guestcluster.Kube.{is_deleting}
use guestcluster.Platform.{Library}

-- desiredReplicas (internal/controller/clusterinstance_hypershift.go).
unfoldable pub desired_replicas : Instance → ℤ
desired_replicas i = elim i.spec.template.node_pool_replicas [
  | none ↦ pos 1
  | some r ↦ if leb_ℤ (pos 1) r then r else pos 1
]

-- DefaultCRCRootVolumeSize and DefaultNodePoolRootVolumeSize of internal/resources.
abbrev pub default_crc_root_volume_size : Text
default_crc_root_volume_size = codes "80Gi"

abbrev pub default_node_pool_root_volume_size : Text
default_node_pool_root_volume_size = codes "32Gi"

-- `none` where the topology is neither of the two.
unfoldable pub replicas_of : Instance → Topology → Option ℤ
unfolding desired_replicas
replicas_of i crc = some (pos 1)
replicas_of i hcp = some (desired_replicas i)
replicas_of i (other_topology t) = none

unfoldable pub default_root_volume_size : Topology → Text
default_root_volume_size crc = default_crc_root_volume_size
default_root_volume_size _ = default_node_pool_root_volume_size

unfoldable pub root_volume_size_of : InstanceSpec → Text
unfolding default_root_volume_size is_empty
root_volume_size_of spec =
    if is_empty spec.template.root_volume_size
    then default_root_volume_size spec.topology
    else spec.template.root_volume_size

-- sameClusterInstanceIdentity; the nil checks have no counterpart.
unfoldable pub same_instance_identity : Instance → Instance → Bool
unfolding is_empty
same_instance_identity existing candidate =
    if is_empty candidate.meta.namespace || is_empty candidate.meta.name
    then false
    else if not (text_eq existing.meta.namespace candidate.meta.namespace)
        || not (text_eq existing.meta.name candidate.meta.name)
    then false
    else is_empty existing.meta.uid
      || is_empty candidate.meta.uid
      || text_eq existing.meta.uid candidate.meta.uid

abbrev pub phase_reserves : Phase → Bool
phase_reserves Phase.ready = true
phase_reserves Phase.failed = true
phase_reserves Phase.terminating = true
phase_reserves Phase.unset = false
phase_reserves Phase.provisioning = false

abbrev pub is_authorized : Instance → Bool
is_authorized i = elim i.status.provisioning [ none ↦ false | some t ↦ true ]

unfoldable pub reserves_resources : Instance → Bool
unfolding is_empty
reserves_resources i =
    if is_deleting i.meta || not (is_empty i.spec.pool_ref) || is_authorized i
    then true
    else phase_reserves i.status.phase

-- An instance that counts against the budget beside the candidate.
unfoldable pub counts_against : Instance → Instance → Bool
unfolding same_instance_identity reserves_resources
counts_against candidate i =
    if not (text_eq i.meta.namespace candidate.meta.namespace)
    then false
    else if same_instance_identity i candidate
    then false
    else reserves_resources i

abbrev pub is_some : {A : Type 0} → Option A → Bool
is_some none = false
is_some (some a) = true

-- `len(limits) > 0`.
abbrev pub has_limits : {Q : Type 0} → Amounts (Option Q) → Bool
has_limits l = is_some l.cpu_amount || is_some l.memory_amount || is_some l.storage_amount

module _ {Q : Type 0} (lib : Library Q) where
  -- `none` stands for the error in each of these.
  unfoldable pub parse_whole_positive_quantity : Text → Option Q
  parse_whole_positive_quantity text = elim (lib.parse_quantity text) [
    | none ↦ none
    | some q ↦ elim (lib.as_int64 q) [
      | none ↦ none
      | some bytes ↦ if leb_ℤ bytes (pos 0) then none else some q
    ]
  ]

  unfoldable pub multiply_whole_quantity : Q → ℤ → Option Q
  multiply_whole_quantity q multiplier =
      if ltb_ℤ multiplier (pos 1) then none else elim (lib.quantity_mul q multiplier) [
        | none ↦ none
        | some r ↦ elim (lib.as_int64 r) [ none ↦ none | some v ↦ some r ]
      ]

  unfoldable pub whole_quantity_times : Text → ℤ → Option Q
  unfolding parse_whole_positive_quantity multiply_whole_quantity
  whole_quantity_times text replicas = elim (parse_whole_positive_quantity text) [
    | none ↦ none
    | some q ↦ multiply_whole_quantity q replicas
  ]

  -- The product of two int32 values fits an int64, so it is exact.
  unfoldable pub instance_resource_usage : Instance → Option (Amounts Q)
  unfolding whole_quantity_times replicas_of root_volume_size_of
  instance_resource_usage i = elim (replicas_of i i.spec.topology) [
    | none ↦ none
    | some replicas ↦
        if ltb_ℤ i.spec.template.cores (pos 1)
        then none
        else elim (whole_quantity_times i.spec.template.memory replicas) [
          | none ↦ none
          | some mem ↦ elim (whole_quantity_times (root_volume_size_of i.spec) replicas) [
            | none ↦ none
            | some disk ↦ some (record {
              cpu_amount = lib.new_quantity (i.spec.template.cores *ℤ replicas);
              memory_amount = mem;
              storage_amount = disk;
            })
          ]
        ]
  ]

  unfoldable pub add_usage : Amounts Q → Amounts Q → Amounts Q
  add_usage total allocation = record {
    cpu_amount = lib.quantity_add total.cpu_amount allocation.cpu_amount;
    memory_amount = lib.quantity_add total.memory_amount allocation.memory_amount;
    storage_amount = lib.quantity_add total.storage_amount allocation.storage_amount;
  }

  abbrev pub no_usage : Amounts Q
  no_usage = record {
    cpu_amount = lib.zero_quantity;
    memory_amount = lib.zero_quantity;
    storage_amount = lib.zero_quantity;
  }

  -- The loop over the instances of the namespace.
  unfoldable pub usage_loop : Instance → Amounts Q → List Instance → Option (Amounts Q)
  usage_loop candidate used [] = some used
  usage_loop candidate used (i ∷ rest) = elim (counts_against candidate i) [
    | false ↦ usage_loop candidate used rest
    | true ↦ elim (instance_resource_usage i) [
      | none ↦ none
      | some allocation ↦ usage_loop candidate (add_usage used allocation) rest
    ]
  ]

  unfoldable pub exceeds : Option Q → Q → Q → Bool
  exceeds none used requested = false
  exceeds (some limit) used requested = lib.quantity_lt limit (lib.quantity_add used requested)

  -- One round of the last loop: the violation of this dimension, or else the later ones.
  abbrev pub dimension_violation :
      Dimension
      → Amounts (Option Q)
      → Amounts Q
      → Amounts Q
      → Option (QuotaViolation Q)
      → Option (QuotaViolation Q)
  dimension_violation d limits used requested later = elim (amount_of limits d) [
    | none ↦ later
    | some limit ↦
        if exceeds (some limit) (amount_of used d) (amount_of requested d)
        then some (record {
          dimension = d;
          used = amount_of used d;
          requested = amount_of requested d;
          limit = limit;
        })
        else later
  ]

  unfoldable pub first_violation :
      Amounts (Option Q) → Amounts Q → Amounts Q → Option (QuotaViolation Q)
  unfolding exceeds
  first_violation limits used requested = dimension_violation cpu limits used requested (
      dimension_violation memory limits used requested
        (dimension_violation storage limits used requested none))

  -- namespaceClusterInstanceResourceViolation: `none` is its error, `some none` no violation.
  unfoldable pub resource_violation :
      List Instance → Amounts (Option Q) → Instance → Option (Option (QuotaViolation Q))
  resource_violation instances limits candidate =
      if not (has_limits limits)
      then some none
      else elim (usage_loop candidate no_usage instances) [
        | none ↦ none
        | some used ↦ elim (instance_resource_usage candidate) [
          | none ↦ none
          | some requested ↦ some (first_violation limits used requested)
        ]
      ]
