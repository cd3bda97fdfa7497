-- ===== src/Model/Requests.antt =====
-- The inputs of requests: policy.go, authorization.go and data.go. A map of arguments is the list
-- of its entries, in the order in which a loop over it meets them.
use policy_engine.Prelude.{ℕ, List}
use policy_engine.Prelude.Text.{Text}
use policy_engine.Model.Data.{
  EntityRef, Value, ContextualData, RelationshipTuple, TupleKey, Attribute, AttributeKey,
}

pub record Selector : Type 0 where
  pub slot : Text
  pub revision_id : Text

pub record CheckRequestInput : Type 0 where
  pub namespace : Text
  pub selector : Selector
  pub subject : EntityRef
  pub resource : EntityRef
  pub action : Text
  pub arguments : List (Text × Value)
  pub contextual_data : ContextualData
  pub approval_evidence : Text
  pub delegation_evidence : Text
  pub minimum_generation : ℕ

pub record BatchCheckItem : Type 0 where
  pub subject : EntityRef
  pub resource : EntityRef
  pub action : Text
  pub arguments : List (Text × Value)

pub record BatchCheckRequestInput : Type 0 where
  pub namespace : Text
  pub selector : Selector
  pub items : List BatchCheckItem
  pub contextual_data : ContextualData
  pub approval_evidence : Text
  pub delegation_evidence : Text
  pub minimum_generation : ℕ

pub record WriteDataRequestInput : Type 0 where
  pub namespace : Text
  pub validation_revision_id : Text
  pub expected_generation : ℕ
  pub idempotency_key : Text
  pub tuple_writes : List RelationshipTuple
  pub tuple_deletes : List TupleKey
  pub attribute_writes : List Attribute
  pub attribute_deletes : List AttributeKey
