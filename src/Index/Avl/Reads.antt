-- ===== src/Index/Avl/Reads.antt =====
-- Reads of a balanced search tree, and the map laws that updates and reads obey together.
use policy_engine.Prelude.{◌≡◌, refl, none, some, inl, inr, ◌∷◌}
use policy_engine.Index.Comparison.{Comparison}
use policy_engine.Index.Avl.{Tree, leaf, node, set, delete, get}
use policy_engine.Index.Avl.Balance.{entries, IsAvl}
use policy_engine.Index.Avl.Entries.{
  find, overlay, Ascending, split, find_left, find_right, Under-trans,
}
use policy_engine.Index.Avl.Laws.{find-put, find-erase, Ascending-put, Ascending-erase}
use policy_engine.Index.Avl.Updates.{Ordering-cases, set-Grows}
use policy_engine.Index.Avl.Deletes.{delete-Shrinks}

module _ {K V : Type 0} (c : Comparison K) where
  -- A search finds what the list of entries holds under the key.
  pub get-find :
      (key : K) (t : Tree K V) → Ascending c (entries t) → get c key t ≡ find c key (entries t)
  unfolding get
  get-find key leaf s = refl
  get-find key (node h k v l r) s =
      let parts = split c (entries l) k v (entries r) s in
      elim (Ordering-cases (c.cmp key k)) [
        | inl below ↦
            rw (below, get, find_left c key (entries l) k v (entries r) below parts.over)
              (get-find key l parts.left)
        | inr (inl above) ↦
            rw
              (
                above,
                get,
                find_right c key (entries l) ((k, v) ∷ entries r)
                    (Under-trans c key k (entries l) above parts.under),
              )
              (rw (above, find) (get-find key r parts.right))
        | inr (inr same) ↦
            rw
              (
                same,
                get,
                find_right c key (entries l) ((k, v) ∷ entries r)
                    (rw (c.eq_sound key k same) parts.under),
              )
              (rw (same, find))
      ]

  -- A balanced search tree.
  pub record IsIndex (t : Tree K V) : Type 0 where
    pub avl : IsAvl t
    pub ascending : Ascending c (entries t)

  -- The outcome of an insertion.
  pub record Inserted (key : K) (value : V) (t : Tree K V) : Type 0 where
    pub result : Tree K V
    pub returned : set c key value t ≡ some result
    pub index : IsIndex result
    pub found : (q : K) → get c q result ≡ overlay (c.cmp q key) (some value) (get c q t)

  pub record Deleted (key : K) (t : Tree K V) : Type 0 where
    pub result : Tree K V
    pub returned : delete c key t ≡ some result
    pub index : IsIndex result
    pub found : (q : K) → get c q result ≡ overlay (c.cmp q key) none (get c q t)

  pub set-Inserted : (key : K) (value : V) (t : Tree K V) → IsIndex t → Inserted key value t
  set-Inserted key value t i =
      let g = set-Grows c key value t i.avl i.ascending in
      let ascending : Ascending c (entries g.result) =
        rw g.kept (Ascending-put c key value (entries t) i.ascending) in
      record {
        result = g.result;
        returned = g.returned;
        index = record { avl = g.avl; ascending = ascending };
        found = λ q.
            rw (get-find q g.result ascending, get-find q t i.ascending, g.kept)
              (find-put c q key value (entries t));
      }

  pub delete-Deleted : (key : K) (t : Tree K V) → IsIndex t → Deleted key t
  delete-Deleted key t i =
      let g = delete-Shrinks c key t i.avl i.ascending in
      let ascending : Ascending c (entries g.result) =
        rw g.kept (Ascending-erase c key (entries t) i.ascending) in
      record {
        result = g.result;
        returned = g.returned;
        index = record { avl = g.avl; ascending = ascending };
        found = λ q.
            rw (get-find q g.result ascending, get-find q t i.ascending, g.kept)
              (find-erase c q key (entries t) i.ascending);
      }
