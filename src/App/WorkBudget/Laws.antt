-- ===== src/App/WorkBudget/Laws.antt =====
-- The verifier bytes of batch.go are the bytes of cost.go, and a shared budget is never overdrawn.
use policy_engine.Prelude.{
  ℕ, ◌+◌, ◌≤◌, ◌≡◌, refl, ◌∙◌, List, [], ◌∷◌, Option, some, arith, leb, ◌&&◌, if◌then◌else◌,
}
use policy_engine.Prelude.Int.{pos}
use policy_engine.Prelude.Text.{Text}
use policy_engine.Errors.{Result, ok, err, ◌>>=◌, resource_exhausted}
use policy_engine.Model.Data.{ValueKind, kind_string, RelationshipTuple, Attribute, ContextualData}
use policy_engine.Budget.Laws.{counter, charge}
use policy_engine.Cost.Parts.{add_contextual_data_cost}
use policy_engine.Cost.Sizes.{
  sum_of, text_size, relationship_size, attribute_size, contextual_size, payload_size,
}
use policy_engine.Cost.Exact.Parts.{contextual-Costs}
use policy_engine.App.WorkBudget.{
  BatchWorkBudget, add, path_bytes, string_bytes, tuple_bytes, attribute_bytes,
  contextual_data_verifier_bytes,
}

path_bytes-sum :
    (path : List Text) (bytes : ℕ) → path_bytes bytes path ≡ bytes + sum_of text_size path
unfolding path_bytes sum_of
path_bytes-sum [] bytes = omega arith
path_bytes-sum (segment ∷ path) bytes =
    omega (arith, path_bytes-sum path (bytes + text_size segment))

string_bytes-payload :
    (kind : ValueKind) (text : Text) → string_bytes kind text ≡ payload_size kind text
unfolding string_bytes
string_bytes-payload kind_string text = refl
string_bytes-payload _ text = refl

tuple_bytes-sum :
    (tuples : List RelationshipTuple) (bytes : ℕ)
    → tuple_bytes bytes tuples ≡ bytes + sum_of relationship_size tuples
unfolding tuple_bytes sum_of
tuple_bytes-sum [] bytes = omega arith
tuple_bytes-sum (t ∷ tuples) bytes = tuple_bytes-sum tuples _ ∙ ground arith

attribute_bytes-sum :
    (attributes : List Attribute) (bytes : ℕ)
    → attribute_bytes bytes attributes ≡ bytes + sum_of attribute_size attributes
unfolding attribute_bytes sum_of
attribute_bytes-sum [] bytes = omega arith
attribute_bytes-sum (a ∷ attributes) bytes =
    attribute_bytes-sum attributes _
    ∙ omega (
      arith,
      path_bytes-sum a.path (bytes + (text_size a.entity.type_name + text_size a.entity.id + 8)),
      string_bytes-payload a.value.kind a.value.text,
    )

-- The bytes that a batch charges for a verifier's facts are the bytes that the engine's aggregate
-- budget charges for the same facts: `addContextualDataCost` answers at every counter whose use is
-- within its limit as a charge of `contextualDataVerifierBytes` does.
pub contextual_data_verifier_bytes-exact :
    (contextual : ContextualData) (limit used : ℕ)
    → used ≤ limit
    → add_contextual_data_cost (counter used limit) contextual
      ≡ charge limit used (contextual_data_verifier_bytes contextual)
unfolding contextual_data_verifier_bytes
contextual_data_verifier_bytes-exact contextual limit used h =
    let same : contextual_size contextual ≡ contextual_data_verifier_bytes contextual = omega (
      arith,
      attribute_bytes-sum contextual.attributes (tuple_bytes 16 contextual.tuples),
      tuple_bytes-sum contextual.tuples 16,
    ) in
    (contextual-Costs contextual).exact limit used h ∙ rw same

-- A budget in its range.
abbrev pub work : ℕ → ℕ → ℕ → ℕ → BatchWorkBudget
work items bytes max_items max_bytes = record {
  items = pos items;
  bytes = pos bytes;
  max_items = pos max_items;
  max_bytes = pos max_bytes;
}

-- The calls of one batch, in turn, up to the first refusal.
abbrev pub add_all : Option BatchWorkBudget → List (ℕ × ℕ) → Result (Option BatchWorkBudget)
add_all budget [] = ok budget
add_all budget ((items, bytes) ∷ calls) = do
  budget ← add budget (pos items) (pos bytes)
  add_all budget calls

-- A shared budget is exact: the calls of a batch are all granted if the items and the bytes used
-- before them and theirs fit the two limits together, and then exactly those are counted;
-- otherwise a call is refused with RESOURCE_EXHAUSTED.
pub add_all-exact :
    (calls : List (ℕ × ℕ)) (items bytes max_items max_bytes : ℕ)
    → items ≤ max_items
    → bytes ≤ max_bytes
    → add_all (some (work items bytes max_items max_bytes)) calls ≡ (
        if leb (items + sum_of (λ c. c.0) calls) max_items
          && leb (bytes + sum_of (λ c. c.1) calls) max_bytes
        then ok (
            some (
              work
                (items + sum_of (λ c. c.0) calls)
                (bytes + sum_of (λ c. c.1) calls)
                max_items
                max_bytes))
        else err resource_exhausted)
unfolding add sum_of
add_all-exact [] items bytes max_items max_bytes h k = ground arith
add_all-exact ((n, m) ∷ calls) items bytes max_items max_bytes h k =
    ground (arith, add_all-exact calls (items + n) (bytes + m) max_items max_bytes)
