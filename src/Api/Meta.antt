-- ===== src/Api/Meta.antt =====
-- Object metadata, conditions and the small types that the objects share (Kubernetes API types).
-- A time is a number that nothing computes with; a zero time or a nil pointer is `none`.
use volume_snapshot_mover.Prelude.{
  ℕ, String, Bool, true, false, Option, none, some, List, StringMap,
}

abbrev pub Time : Type 0
Time = ℕ

-- A resource.Quantity is known by its canonical text; its functions are parameters.
abbrev pub Quantity : Type 0
Quantity = String

pub record NamespacedName : Type 0 where
  pub namespace : String
  pub name : String

pub record ObjectMeta : Type 0 where
  pub name : String
  pub namespace : String
  pub labels : StringMap String
  pub annotations : StringMap String
  pub finalizers : List String
  pub generation : ℕ
  pub resource_version : String
  pub creation_timestamp : Option Time
  pub deletion_timestamp : Option Time

-- `IsZero` of a timestamp.
abbrev pub is_zero : Option Time → Bool
is_zero none = true
is_zero (some t) = false

pub record ObjectReference : Type 0 where
  pub api_version : String
  pub kind : String
  pub namespace : String
  pub name : String

-- metav1.ConditionStatus; `absent` is the empty string of a zero condition.
pub data ConditionStatus : Type 0 where
  cond_true cond_false cond_unknown absent : ConditionStatus

pub record Condition : Type 0 where
  pub kind : String
  pub status : ConditionStatus
  pub reason : String
  pub message : String

-- `metav1.Condition{}`.
abbrev pub no_condition : Condition
no_condition = record { kind = ""; status = ConditionStatus.absent; reason = ""; message = "" }

abbrev pub is_true : ConditionStatus → Bool
is_true ConditionStatus.cond_true = true
is_true _ = false

abbrev pub is_false : ConditionStatus → Bool
is_false ConditionStatus.cond_false = true
is_false _ = false

pub record PvcData : Type 0 where
  pub name : String
  pub size : String
  pub storage_class_name : String
