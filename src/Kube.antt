-- ===== src/Kube.antt =====
-- What every controller shares with the Kubernetes machinery: errors, conditions, object metadata,
-- the value that a Reconcile returns, and the early-return monad in which handlers are written.
use guestcluster.Base.{
  Bool, List, Option, String, Text, [], false, if◌then◌else◌, inl, inr, none, pos, refl, some,
  text_eq, true, ℕ, ℤ, ◌*◌, ◌||◌, ◌∷◌, ◌≡◌, ◌⊎◌,
}

-- The errors that k8s.io/apimachinery/pkg/api/errors tells apart; the text is the server's message.
pub data ApiError : Type 0 where
  not_found already_exists : ApiError
  forbidden : Text → ApiError
  other : Text → ApiError

-- `wrapped` is fmt.Errorf("...: %w", err). The arguments put into a message are not kept.
pub data Error : Type 0 where
  api : ApiError → Error
  wrapped : String → Error → Error
  message : String → Error

-- What errors.As finds behind the wrapping.
unfoldable pub cause : Error → Option ApiError
cause (api e) = some e
cause (wrapped c e) = cause e
cause (message m) = none

-- `err != nil && !apierrors.IsAlreadyExists(err)`, and the same for IsNotFound.
unfoldable pub unless_exists : Option ApiError → Option Error
unless_exists none = none
unless_exists (some already_exists) = none
unless_exists (some e) = some (api e)

unfoldable pub unless_missing : Option ApiError → Option Error
unless_missing none = none
unless_missing (some not_found) = none
unless_missing (some e) = some (api e)

-- The result of a read: the object, or the server's error.
pub data Reply (A : Type 0) : Type 0 where
  found : A → Reply A
  refused : ApiError → Reply A

-- The Type strings of the conditions that the controllers set.
pub data ConditionType : Type 0 where
  capacity_available provisioning_allowed lease_bound : ConditionType
  ready version_mismatch guest_api_reachable terminating crc_agent : ConditionType
  other_condition : Text → ConditionType

-- The Reason strings.
pub data Reason : Type 0 where
  max_size_too_small at_capacity capacity_sufficient : Reason
  namespace_at_capacity namespace_resource_quota_exceeded : Reason
  namespace_unavailable namespace_terminating namespace_disabled namespace_enabled : Reason
  provisioning_authorized waiting_for_capacity instance_bound : Reason
  backing_resources_available ocp_version_mismatch ocp_version_matches : Reason
  reconcile_error agent_job_failed invalid_template invalid_pull_secret : Reason
  api_endpoint_conflict api_endpoint_route_not_admitted api_endpoint_unavailable : Reason
  hcp_placement_conflict operand_not_ready : Reason
  cleanup_in_progress cleanup_error cleanup_timed_out : Reason
  other_reason : Text → Reason

-- A formatted message: its format, and what it prints of numbers and of names.
pub record Message : Type 0 where
  pub format : String
  pub numbers : List ℤ
  pub names : List Text

abbrev pub plain : String → Message
plain s = record { format = s; numbers = []; names = [] }

-- metav1.Condition; `status` is true for ConditionTrue and false for ConditionFalse.
pub record Condition : Type 0 where
  pub kind : ConditionType
  pub status : Bool
  pub reason : Reason
  pub message : Message
  pub observed_generation : ℤ
  pub last_transition_time : ℤ

-- A condition as the controllers build it: the transition time is the library's to fill in.
abbrev pub condition_of : ConditionType → Bool → Reason → Message → ℤ → Condition
condition_of t s r m g = record {
  kind = t;
  status = s;
  reason = r;
  message = m;
  observed_generation = g;
  last_transition_time = pos 0;
}

-- A map[string]string, in which a missing key reads as the empty text.
abbrev pub Labels : Type 0
Labels = List (Text × Text)

unfoldable pub label_value : Labels → Text → Text
label_value [] key = []
label_value ((k, v) ∷ rest) key = if text_eq k key then v else label_value rest key

-- The fields of metav1.ObjectMeta that the controllers read or write. Times are nanoseconds.
pub record Meta : Type 0 where
  pub name : Text
  pub namespace : Text
  pub uid : Text
  pub generation : ℤ
  pub labels : Labels
  pub finalizers : List Text
  pub owners : List Text
  pub creation_timestamp : ℤ
  pub deletion_timestamp : Option ℤ

-- `!obj.DeletionTimestamp.IsZero()`.
abbrev pub is_deleting : Meta → Bool
is_deleting m = elim m.deletion_timestamp [ none ↦ false | some t ↦ true ]

-- A bare object with a name and a namespace.
abbrev pub named : Text → Text → Meta
named namespace name = record {
  name = name;
  namespace = namespace;
  uid = [];
  generation = pos 0;
  labels = [];
  finalizers = [];
  owners = [];
  creation_timestamp = pos 0;
  deletion_timestamp = none;
}

-- controllerutil's operations on the list of finalizers.
unfoldable pub contains_finalizer : List Text → Text → Bool
contains_finalizer [] f = false
contains_finalizer (g ∷ gs) f = text_eq g f || contains_finalizer gs f

unfoldable pub remove_finalizer : List Text → Text → List Text
remove_finalizer [] f = []
remove_finalizer (g ∷ gs) f =
    let rest = remove_finalizer gs f in if text_eq g f then rest else g ∷ rest

-- What a Reconcile returns: ctrl.Result and error. A `requeue_after` of 0 asks for nothing.
pub record Outcome : Type 0 where
  pub requeue_after : ℤ
  pub error : Option Error

abbrev pub done : Outcome
done = record { requeue_after = pos 0; error = none }

abbrev pub requeue : ℤ → Outcome
requeue d = record { requeue_after = d; error = none }

abbrev pub fail : Error → Outcome
fail e = record { requeue_after = pos 0; error = some e }

-- A part of a handler either goes on with a value or returns from the whole handler.
pub data Step (A : Type 0) : Type 0 where
  go_on : A → Step A
  return : Outcome → Step A

-- A part of a handler, over the state of the API server.
abbrev pub M : Type 0 → Type 0 → Type 0
M S A = S → Step A × S

infixl 5 ◌>>=◌ ◌>>◌
abbrev pub ◌>>=◌ : {S A B : Type 0} → M S A → (A → M S B) → M S B
◌>>=◌ m f s = let r = m s in elim r.0 [ go_on a ↦ f a r.1 | return o ↦ (return o, r.1) ]

abbrev pub ◌>>◌ : {S A B : Type 0} → M S A → M S B → M S B
m >> k = m >>= λ _. k

abbrev pub value : {S A : Type 0} → A → M S A
value a s = (go_on a, s)

abbrev pub return_with : {S A : Type 0} → Outcome → M S A
return_with o s = (return o, s)

-- A read: an error returns from the handler, wrapped.
abbrev pub read : {S A : Type 0} → String → (S → Reply A) → M S A
read context get s = elim (get s) [
  | found a ↦ (go_on a, s)
  | refused e ↦ (return (fail (wrapped context (api e))), s)
]

-- A write: `none` is success; an error returns from the handler, wrapped.
abbrev pub write : {S : Type 0} → String → (S → Option ApiError × S) → M S (Unit {0})
write context put s =
    let r = put s in
    elim r.0 [ none ↦ (go_on tt, r.1) | some e ↦ (return (fail (wrapped context (api e))), r.1) ]

-- A write that leaves its error to the caller.
abbrev pub attempt : {S : Type 0} → (S → Option ApiError × S) → M S (Option ApiError)
attempt put s = let r = put s in (go_on r.0, r.1)

-- The whole handler: what is left at the end is `return ctrl.Result{}, nil`.
abbrev pub outcome : Step Outcome → Outcome
outcome (go_on o) = o
outcome (return o) = o

abbrev pub handle : {S : Type 0} → M S Outcome → S → Outcome × S
handle m s = let r = m s in (outcome r.0, r.1)

-- Second, minute: time.Duration counts nanoseconds.
abbrev pub seconds : ℕ → ℤ
seconds n = pos (n * 1000000000)

-- To split on what a part of a handler came to, and keep the equation.
pub Step-cases :
    {A : Type 0} (m : Step A) → ((a : A) × (m ≡ go_on a)) ⊎ ((o : Outcome) × (m ≡ return o))
Step-cases (go_on a) = inl (a, refl)
Step-cases (return o) = inr (o, refl)

pub Reply-cases :
    {A : Type 0} (r : Reply A) → ((a : A) × (r ≡ found a)) ⊎ ((e : ApiError) × (r ≡ refused e))
Reply-cases (found a) = inl (a, refl)
Reply-cases (refused e) = inr (e, refl)

-- The state in which `m >>= f` ends is that of `f`, or else that of `m`.
module _ {S A B : Type 0} (R : S → Type 0) where
  bind_from :
      (f : A → M S B) (r : Step A × S)
      → ((a : A) → r.0 ≡ go_on a → R (f a r.1).1)
      → ((o : Outcome) → r.0 ≡ return o → R r.1)
      → R (◌>>=◌ {A = A} (λ (s : S). r) f r.1).1
  bind_from f (go_on a, t) h k = h a refl
  bind_from f (return o, t) h k = k o refl

  pub bind-final :
      (m : M S A) (f : A → M S B) (s : S)
      → ((a : A) → (m s).0 ≡ go_on a → R (f a (m s).1).1)
      → ((o : Outcome) → (m s).0 ≡ return o → R (m s).1)
      → R ((m >>= f) s).1
  bind-final m f s h k = bind_from f (m s) h k

  read_from :
      (context : String) (f : A → M S B) (r : Reply A) (s : S)
      → ((a : A) → r ≡ found a → R (f a s).1)
      → ((e : ApiError) → r ≡ refused e → R s)
      → R ((read context (λ _. r) >>= f) s).1
  read_from context f (found a) s h k = h a refl
  read_from context f (refused e) s h k = k e refl

  pub read-final :
      (context : String) (get : S → Reply A) (f : A → M S B) (s : S)
      → ((a : A) → get s ≡ found a → R (f a s).1)
      → ((e : ApiError) → get s ≡ refused e → R s)
      → R ((read context get >>= f) s).1
  read-final context get f s h k = read_from context f (get s) s h k

-- The state that a write leaves, where nothing follows.
write_from :
    {S : Type 0} (context : String) (r : Option ApiError × S) (t : S)
    → ((write context (λ (u : S). r) >> value done) t).1 ≡ r.1
write_from context (none, u) t = refl
write_from context (some e, u) t = refl

pub write-state :
    {S : Type 0} (context : String) (put_it : S → Option ApiError × S) (t : S)
    → ((write context put_it >> value done) t).1 ≡ (put_it t).1
write-state context put_it t = write_from context (put_it t) t

written-state :
    {S : Type 0} (context : String) (r : Option ApiError × S) (t : S)
    → (write context (λ (u : S). r) t).1 ≡ r.1
written-state context (none, u) t = refl
written-state context (some e, u) t = refl

pub write-final :
    {S : Type 0} (context : String) (put_it : S → Option ApiError × S) (t : S)
    → (write context put_it t).1 ≡ (put_it t).1
write-final context put_it t = written-state context (put_it t) t

-- A bind that goes on went on in both of its parts.
module _ {S A B : Type 0} (f : A → M S B) (b : B) where
  went_on_from :
      (r : Step A × S)
      → (◌>>=◌ {A = A} (λ (s : S). r) f r.1).0 ≡ go_on b
      → (a : A) × (r.0 ≡ go_on a)
        × ((f a r.1).0 ≡ go_on b)
        × ((◌>>=◌ {A = A} (λ (s : S). r) f r.1).1 ≡ (f a r.1).1)
  went_on_from (go_on a, t) h = (a, refl, h, refl)
  went_on_from (return o, t) h = cc h

  pub bind-went_on :
      (m : M S A) (s : S)
      → ((m >>= f) s).0 ≡ go_on b
      → (a : A) × ((m s).0 ≡ go_on a)
        × ((f a (m s).1).0 ≡ go_on b)
        × (((m >>= f) s).1 ≡ (f a (m s).1).1)
  bind-went_on m s h = went_on_from (m s) h
