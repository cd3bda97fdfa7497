-- ===== src/App/Tests.antt =====
-- The batch's work budget at concrete facts and calls.
use policy_engine.Prelude.{arith, ◌≡◌, false, [], ◌∷◌, some}
use policy_engine.Prelude.Int.{pos}
use policy_engine.Prelude.Text.{codes}
use policy_engine.Errors.{err, resource_exhausted}
use policy_engine.Budget.Laws.{counter, charge}
use policy_engine.Model.Data.{ContextualData, kind_string}
use policy_engine.Cost.Parts.{add_contextual_data_cost}
use policy_engine.Cost.Sizes.{sum_of}
use policy_engine.App.WorkBudget.{add, contextual_data_verifier_bytes}
use policy_engine.App.WorkBudget.Laws.{
  contextual_data_verifier_bytes-exact, work, add_all, add_all-exact,
}

abbrev contextual : ContextualData
contextual = record {
  tuples = [];
  attributes =
      record {
        entity = record { type_name = codes "user"; id = codes "a" };
        path = codes "team" ∷ [];
        value = record { kind = kind_string; text = codes "x"; integer = pos 0; boolean = false };
      }
      ∷ [];
}

contextual_data_verifier_bytes-exact_example :
    add_contextual_data_cost (counter 3 4096) contextual
    ≡ charge 4096 3 (contextual_data_verifier_bytes contextual)
contextual_data_verifier_bytes-exact_example =
    contextual_data_verifier_bytes-exact contextual 4096 3 (omega arith)

-- The second of two calls does not fit the bytes.
add_all-exact_example :
    add_all (some (work 0 0 10 100)) ((1, 60) ∷ (1, 60) ∷ []) ≡ err resource_exhausted
unfolding add sum_of
add_all-exact_example =
    add_all-exact ((1, 60) ∷ (1, 60) ∷ []) 0 0 10 100 (omega arith) (omega arith)
