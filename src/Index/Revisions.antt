-- ===== src/Index/Revisions.antt =====
-- The index of revisions by publication time and identity: `revisionSet` and `revisionPage`.
pub mod Laws
use policy_engine.Prelude.{ℕ, Bool, Option}
use policy_engine.Model.Records.{RevisionRecord}
use policy_engine.Index.Avl.{Tree, set}
use policy_engine.Index.Avl.Buckets.{Visitor}
use policy_engine.Index.Avl.Pages.{page}
use policy_engine.Index.Keys.{RevisionKey}
use policy_engine.Index.Keys.Laws.{revision_key_order}

-- `revisionNode`, where a nil pointer is the empty tree.
abbrev pub RevisionTree : Type 0
RevisionTree = Tree RevisionKey RevisionRecord

abbrev pub revision_key_for : RevisionRecord → RevisionKey
revision_key_for r = record { published_at = r.metadata.published_at; id = r.metadata.id }

unfoldable pub revision_set : RevisionTree → RevisionRecord → Option RevisionTree
unfolding set
revision_set root r = set revision_key_order (revision_key_for r) r root

-- The number of visits, whether there are more records, and the visitor's state.
unfoldable pub revision_page :
    {S : Type 0}
    → RevisionTree
    → RevisionKey
    → Bool
    → ℕ
    → Visitor RevisionRecord S
    → S
    → ℕ × Bool × S
unfolding page
revision_page root after has_after limit visit state =
    page revision_key_order after has_after limit visit root state
