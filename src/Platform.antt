-- ===== src/Platform.antt =====
-- What the controllers call and the repository does not implement: the API server behind the
-- controller-runtime client, and the Kubernetes libraries. Both are parameters of every handler.
use guestcluster.Api.{
  Bundle, Instance, InstanceStatus, Lease, LeaseStatus, Namespace, Pool, PoolStatus, Quota, Secret,
}
use guestcluster.Base.{Bool, List, Option, Text, ltb, true, ℕ, ℤ, ◌+◌, ◌≡◌}
use guestcluster.Kube.{ApiError, Condition, ConditionType, Meta, Reply}

-- The API server, over its state. A read can be refused, and a write returns the server's error
-- or `none`. Reads that the source makes through the cached client have the word `cached`.
pub record Server (S Q : Type 0) : Type 0 where
  pub cached_pool : Text → Text → S → Reply Pool
  pub cached_instance : Text → Text → S → Reply Instance
  pub cached_bundle : Text → S → Reply Bundle
  pub cached_claims : Text → Text → S → Reply (List Lease)
  pub cached_secret : Text → Text → S → Reply Secret
  pub cached_leases : Text → S → Reply (List Lease)
  pub get_namespace : Text → S → Reply Namespace
  pub list_instances : Text → S → Reply (List Instance)
  pub list_quotas : Text → S → Reply (List (Quota Q))
  pub list_leases : Text → S → Reply (List Lease)
  pub get_lease : Text → Text → S → Reply Lease
  pub get_secret : Text → Text → S → Reply Secret
  pub create_instance : Instance → S → Option ApiError × S
  pub delete_instance : Text → Text → S → Option ApiError × S
  pub update_instance : Instance → S → Option ApiError × S
  pub update_instance_status : Instance → S → Option ApiError × S
  pub update_pool_status : Pool → S → Option ApiError × S
  pub create_bundle : Bundle → S → Option ApiError × S
  pub create_secret : Secret → S → Option ApiError × S
  pub update_secret : Secret → S → Option ApiError × S
  pub update_lease : Lease → S → Option ApiError × S
  pub update_lease_status : Lease → S → Option ApiError × S
  pub delete_lease : Lease → S → Option ApiError × S

-- The libraries: apimeta.SetStatusCondition and RemoveStatusCondition, equality.Semantic.DeepEqual,
-- controllerutil.SetControllerReference, metav1.IsControlledBy, and resource.Quantity.
pub record Library (Q : Type 0) : Type 0 where
  pub set_condition : List Condition → Condition → List Condition
  pub remove_condition : List Condition → ConditionType → List Condition
  pub same_pool_status : PoolStatus → PoolStatus → Bool
  pub same_instance_status : InstanceStatus → InstanceStatus → Bool
  pub same_lease_status : LeaseStatus → LeaseStatus → Bool
  pub set_controller_reference : Meta → Meta → Option Meta
  pub is_controlled_by : Meta → Meta → Bool
  pub parse_quantity : Text → Option Q
  pub new_quantity : ℤ → Q
  pub zero_quantity : Q
  pub as_int64 : Q → Option ℤ
  pub quantity_value : Q → ℤ
  pub quantity_lt : Q → Q → Bool
  pub quantity_add : Q → Q → Q
  pub quantity_mul : Q → ℤ → Option Q

-- DeepEqual holds of equal values only.
pub record StatusEquality {Q : Type 0} (lib : Library Q) : Type 0 where
  pub pool_status : (a b : PoolStatus) → lib.same_pool_status a b ≡ true → a ≡ b
  pub instance_status : (a b : InstanceStatus) → lib.same_instance_status a b ≡ true → a ≡ b
  pub lease_status : (a b : LeaseStatus) → lib.same_lease_status a b ≡ true → a ≡ b

-- Quantities are compared and added as the numbers that they stand for. `amount` is that number, in
-- a unit fine enough for every quantity that the controllers handle.
pub record QuantityLaws {Q : Type 0} (lib : Library Q) (amount : Q → ℕ) : Type 0 where
  pub lt_amount : (a b : Q) → lib.quantity_lt a b ≡ ltb (amount a) (amount b)
  pub add_amount : (a b : Q) → amount (lib.quantity_add a b) ≡ amount a + amount b
  pub zero_amount : amount lib.zero_quantity ≡ 0
