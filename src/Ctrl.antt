-- ===== src/Ctrl.antt =====
-- What a Reconcile function returns to controller-runtime, and the pieces that both controllers
-- share: the finalizer and the condition constants.
pub mod Ends
pub mod Answered
use volume_snapshot_mover.Prelude.{ℕ, String, Bool, true, false, Option, none, some}
use volume_snapshot_mover.Api.Meta.{Condition, ConditionStatus}
use volume_snapshot_mover.Exec.{Error, Result, ok, err, panic, Exec, pure, crash}

-- `(ctrl.Result, error)`; `requeue_after` counts seconds.
pub record CtrlReturn : Type 0 where
  pub requeue : Bool
  pub requeue_after : ℕ
  pub error : Option Error

-- `return ctrl.Result{}, nil`
abbrev pub stop : CtrlReturn
stop = record { requeue = false; requeue_after = 0; error = none }

-- `return ctrl.Result{Requeue: true}, nil`
abbrev pub requeue_now : CtrlReturn
requeue_now = record { requeue = true; requeue_after = 0; error = none }

-- `return ctrl.Result{Requeue: true, RequeueAfter: 5 * time.Second}, err`
abbrev pub requeue_later : Option Error → CtrlReturn
requeue_later e = record { requeue = true; requeue_after = 5; error = e }

-- `return ctrl.Result{}, err`
abbrev pub give_up : Error → CtrlReturn
give_up e = record { requeue = false; requeue_after = 0; error = some e }

abbrev pub dm_finalizer : String
dm_finalizer = "oadp.openshift.io/oadp-datamover"

-- `x, err := …; if err != nil { return ctrl.Result{}, err }`
unfoldable pub on_ok : {W A : Type 0} → Result A → (A → Exec W CtrlReturn) → Exec W CtrlReturn
on_ok (ok a) f = f a
on_ok (err e) f = pure (give_up e)
on_ok panic f = crash

-- `if err := …; err != nil { return ctrl.Result{}, err }; return ctrl.Result{}, nil`, for the
-- answer of one call.
abbrev pub ended_by : {A : Type 0} → Result A → Result CtrlReturn
ended_by (ok a) = ok stop
ended_by (err e) = ok (give_up e)
ended_by panic = panic

-- The condition that ReconcileBatch's outcome is turned into.
unfoldable pub reconciled_condition : Result Bool → Condition
reconciled_condition (ok b) = record {
  kind = "Reconciled";
  status = ConditionStatus.cond_true;
  reason = "Complete";
  message = "Reconcile complete";
}
reconciled_condition (err (Error.message t)) = record {
  kind = "Reconciled";
  status = ConditionStatus.cond_false;
  reason = "Error";
  message = t;
}
reconciled_condition (err Error.not_found) = record {
  kind = "Reconciled";
  status = ConditionStatus.cond_false;
  reason = "Error";
  message = "not found";
}
reconciled_condition panic = record {
  kind = "Reconciled";
  status = ConditionStatus.cond_unknown;
  reason = "";
  message = "";
}

-- The end of Reconcile: the status step's answer, then the batch's flag. The error is the status
-- step's alone.
unfoldable pub conclude : (batch status_step : Result Bool) → CtrlReturn
conclude batch (err e) = requeue_later (some e)
conclude batch panic = requeue_later none
conclude batch (ok false) = requeue_later none
conclude (ok true) (ok true) = stop
conclude (ok false) (ok true) = requeue_later none
conclude (err e) (ok true) = requeue_later none
conclude panic (ok true) = requeue_later none
