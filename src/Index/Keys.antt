-- ===== src/Index/Keys.antt =====
-- The comparisons of indexed.go: on strings, entities, subjects, tuples and revision keys.
pub mod Laws
use policy_engine.Prelude.{ℕ, Ordering, ltb, if◌then◌else◌}
use policy_engine.Prelude.Text.{Text, compare_text}
use policy_engine.Model.Data.{EntityRef, SubjectRef, Tuple}
use policy_engine.Model.Records.{RevisionMetadata}

-- `if order := …; order != 0 { return order }; return next`
abbrev pub chain : Ordering → Ordering → Ordering
chain Ordering.lt next = Ordering.lt
chain Ordering.eq next = next
chain Ordering.gt next = Ordering.gt

unfoldable pub compare_entity : EntityRef → EntityRef → Ordering
compare_entity left right =
    chain (compare_text left.type_name right.type_name) (compare_text left.id right.id)

unfoldable pub compare_subject : SubjectRef → SubjectRef → Ordering
compare_subject left right =
    chain (compare_text left.type_name right.type_name)
      (chain (compare_text left.id right.id) (compare_text left.relation right.relation))

unfoldable pub compare_tuple : Tuple → Tuple → Ordering
compare_tuple left right =
    chain (compare_entity left.resource right.resource) (
      chain (compare_text left.relation right.relation)
        (compare_subject left.subject right.subject))

unfoldable pub compare_tuple_bucket : Tuple → EntityRef → Text → Ordering
compare_tuple_bucket tuple resource relation =
    chain (compare_entity tuple.resource resource) (compare_text tuple.relation relation)

pub record RevisionKey : Type 0 where
  pub published_at : ℕ
  pub id : Text

unfoldable pub compare_revision_key : RevisionKey → RevisionKey → Ordering
compare_revision_key left right =
    if ltb left.published_at right.published_at
    then Ordering.lt
    else if ltb right.published_at left.published_at
    then Ordering.gt
    else compare_text left.id right.id
