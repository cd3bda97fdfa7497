-- ===== src/Model/Records.antt =====
-- Decisions, evidence, grants and the stored records: authorization.go, evidence.go, caller.go,
-- policy.go and events.go. A digest is the list of its bytes.
use policy_engine.Prelude.{ℕ, Bool, List, Option}
use policy_engine.Prelude.Text.{Text}
use policy_engine.Model.Requests.{Selector}

pub data Decision : Type 0 where
  no_decision allow deny require_approval : Decision

pub record DecisionResultInput : Type 0 where
  pub decision : Decision
  pub decision_id : Text
  pub reason_code : Text
  pub revision_id : Text
  pub slot_generation : ℕ
  pub data_generation : ℕ
  pub evaluated_at : ℕ
  pub requirements : List Text
  pub approval_binding_digest : Text
  pub used_contextual_data : Bool
  pub used_approval : Bool
  pub used_delegation : Bool

pub record DecisionResult : Type 0 where
  pub valid_result : Bool
  pub decision : Decision
  pub decision_id : Text
  pub reason_code : Text
  pub revision_id : Text
  pub slot_generation : ℕ
  pub data_generation : ℕ
  pub evaluated_at : ℕ
  pub requirements : List Text
  pub approval_binding_digest : Text
  pub has_approval_binding : Bool
  pub used_contextual_data : Bool
  pub used_approval : Bool
  pub used_delegation : Bool

pub record ExplainStep : Type 0 where
  pub schema_path : Text
  pub operator : Text
  pub outcome : Bool

-- The pointers to a digest may be nil.
pub record CallerBinding : Type 0 where
  pub digest : Option Text
  pub valid : Bool

pub record EvidenceFingerprint : Type 0 where
  pub digest : Option Text
  pub valid : Bool

pub record EvidenceBinding : Type 0 where
  pub caller : CallerBinding
  pub namespace : Text
  pub selector : Selector
  pub revision_id : Text
  pub slot_generation : ℕ
  pub data_generation : ℕ
  pub evaluated_at : ℕ
  pub fingerprint : EvidenceFingerprint
  pub valid_binding : Bool

pub record Grant : Type 0 where
  pub namespace_pattern : Text
  pub capabilities : List Text

pub record RevisionMetadata : Type 0 where
  pub namespace : Text
  pub id : Text
  pub published_at : ℕ

-- store/revisions.go
pub record RevisionProvenance : Type 0 where
  pub source_name : Text
  pub original_source : Text
  pub original_source_digest : Text
  pub valid : Bool

pub record RevisionRecord : Type 0 where
  pub metadata : RevisionMetadata
  pub artifact : Text
  pub provenance : RevisionProvenance

pub record Activation : Type 0 where
  pub namespace : Text
  pub slot : Text
  pub revision_id : Text
  pub generation : ℕ
  pub activated_at : ℕ

pub data StateEventKind : Type 0 where
  no_event revision_published slot_activated data_written : StateEventKind

pub record StateEvent : Type 0 where
  pub namespace : Text
  pub cursor : Text
  pub kind : StateEventKind
  pub revision_id : Text
  pub slot : Text
  pub slot_generation : ℕ
  pub data_generation : ℕ
  pub occurred_at : ℕ

pub data ComponentState : Type 0 where
  no_state ready degraded unavailable : ComponentState

pub record ComponentStatus : Type 0 where
  pub name : Text
  pub state : ComponentState
  pub reason_code : Text
