-- ===== src/Model/Data.antt =====
-- data.go: authorization data. The structs of the DSL package are taken with the fields that the
-- engine reads. An instant (`time.Time`) is a number that orders as the instants do; the zero time
-- is 0.
use policy_engine.Prelude.{ℕ, Bool, List}
use policy_engine.Prelude.Int.{ℤ}
use policy_engine.Prelude.Text.{Text}

pub record EntityRef : Type 0 where
  pub type_name : Text
  pub id : Text

pub record SubjectRef : Type 0 where
  pub type_name : Text
  pub id : Text
  pub relation : Text

pub record Tuple : Type 0 where
  pub resource : EntityRef
  pub relation : Text
  pub subject : SubjectRef

-- `unset` is the zero value of the type.
pub data ValueKind : Type 0 where
  unset kind_string kind_integer kind_boolean kind_null : ValueKind

pub record Value : Type 0 where
  pub kind : ValueKind
  pub text : Text
  pub integer : ℤ
  pub boolean : Bool

pub record RelationshipTuple : Type 0 where
  pub tuple : Tuple
  pub expires_at : ℕ
  pub has_expiry : Bool

pub record Attribute : Type 0 where
  pub entity : EntityRef
  pub path : List Text
  pub value : Value

pub record ContextualData : Type 0 where
  pub tuples : List RelationshipTuple
  pub attributes : List Attribute

pub record TupleKey : Type 0 where
  pub tuple : Tuple

pub record AttributeKey : Type 0 where
  pub entity : EntityRef
  pub path : List Text
