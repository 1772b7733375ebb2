-- ===== src/Instance/Delete.antt =====
-- reconcileDelete and terminationCondition of internal/controller/clusterinstance_controller.go.
use guestcluster.Api.{Instance, Phase}
use guestcluster.Base.{
  Bool, Option, Text, codes, false, if◌then◌else◌, leb_ℤ, none, not, some, sub_time, true, ℤ,
}
use guestcluster.Instance.Status.{update_instance_status_if_changed}
use guestcluster.Kube.{
  Condition, ConditionType, Error, M, Message, Meta, Outcome, Reason, cleanup_error,
  cleanup_in_progress, cleanup_timed_out, condition_of, contains_finalizer, done, fail, plain,
  remove_finalizer, requeue, return, return_with, seconds, value, wrapped, write, ◌>>◌,
}
use guestcluster.Platform.{Library, Server}
use guestcluster.Pool.Scaling.{requeue_interval}

abbrev pub instance_finalizer : Text
instance_finalizer = codes "guestcluster.opdev.io/cleanup"

abbrev pub cleanup_timeout : ℤ
cleanup_timeout = seconds 900

-- What a teardown of the backing objects comes to: `pending, err`.
pub data Teardown : Type 0 where
  gone : Teardown
  waiting : Teardown
  broken : Error → Teardown

abbrev is_timed_out : ℤ → Meta → Bool
is_timed_out now m = elim m.deletion_timestamp [
  | none ↦ false
  | some t ↦ leb_ℤ cleanup_timeout (sub_time now t)
]

-- The condition, whose message is the format only.
unfoldable pub termination_condition : ℤ → Instance → Option Error → Condition
termination_condition now i failure =
    let reason_of : Reason = elim failure [ none ↦ cleanup_in_progress | some e ↦ cleanup_error ] in
    let text : Message = elim failure [
      | none ↦ plain "Backing resource cleanup is in progress"
      | some e ↦ plain "Backing resource cleanup failed: %v"
    ] in
    if is_timed_out now i.meta
    then condition_of ConditionType.terminating true cleanup_timed_out
        (plain
          "Backing resources, including the HyperShift control-plane namespace, remain after %s; the finalizer remains and cleanup will retry")
        i.meta.generation
    else condition_of ConditionType.terminating true reason_of text i.meta.generation

module _ {S Q : Type 0} (srv : Server S Q) (lib : Library Q)
    (teardown : Instance → S → Teardown × Instance × S) where
  abbrev pub with_termination : ℤ → Instance → Option Error → Instance
  with_termination now i failure = record i {
    status = record i.status {
      conditions = lib.set_condition i.status.conditions (termination_condition now i failure);
    };
  }

  abbrev without_instance_finalizer : Instance → Instance
  without_instance_finalizer i = record i {
    meta = record i.meta { finalizers = remove_finalizer i.meta.finalizers instance_finalizer };
  }

  -- What follows the teardown.
  unfoldable pub after_teardown : ℤ → Instance → Teardown → M S Outcome
  unfolding update_instance_status_if_changed
  after_teardown now i gone s =
      (write "removing finalizer" (srv.update_instance (without_instance_finalizer i))
          >> value done)
        s
  after_teardown now i waiting s =
      let r =
        update_instance_status_if_changed srv lib "updating teardown condition" i.status
          (with_termination now i none) s in
      elim r.0 [ none ↦ (return (requeue requeue_interval), r.1) | some e ↦ (return (fail e), r.1) ]
  after_teardown now i (broken e) s =
      let r =
        update_instance_status_if_changed srv lib "updating teardown condition" i.status
          (with_termination now i (some e)) s in
      (return (fail (wrapped "tearing down backing resources" e)), r.1)

  abbrev pub is_terminating_phase : Phase → Bool
  is_terminating_phase Phase.terminating = true
  is_terminating_phase _ = false

  abbrev pub as_terminating : Instance → Instance
  as_terminating i = record i { status = record i.status { phase = Phase.terminating } }

  -- The teardown, which may change the instance that it is given, and what follows it.
  unfoldable pub tear_down : ℤ → Instance → M S Outcome
  unfolding after_teardown
  tear_down now i s = let r = teardown i s in after_teardown now r.1 r.0 r.2

  unfoldable pub reconcile_instance_delete : ℤ → Instance → M S Outcome
  unfolding tear_down
  reconcile_instance_delete now i =
      if not (contains_finalizer i.meta.finalizers instance_finalizer)
      then return_with done
      else if is_terminating_phase i.status.phase
      then tear_down now i
      else do
        write "updating status to Terminating" (srv.update_instance_status (as_terminating i))
        tear_down now (as_terminating i)
