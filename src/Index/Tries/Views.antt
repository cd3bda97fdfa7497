-- ===== src/Index/Tries/Views.antt =====
-- The children of a trie node are its segment tree, and a nil node reads as an empty one.
use policy_engine.Prelude.{◌≡◌, refl, List, [], ◌∷◌, none}
use policy_engine.Prelude.Text.{Text}
use policy_engine.Index.Avl.{Tree, leaf, node}
use policy_engine.Index.Tries.{Trie, segments, children, walk, trie_get}

pub segments-children : (t : Tree Text Trie) → segments (children t) ≡ t
unfolding segments children
segments-children leaf = refl
segments-children (node h k v l r) = rw (segments-children l, segments-children r) refl

pub trie_get-none : (q : List Text) → trie_get q none ≡ none
unfolding trie_get walk
trie_get-none [] = refl
trie_get-none (k ∷ q) = trie_get-none q
