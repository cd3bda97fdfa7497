-- ===== src/Index/Revisions/Laws.antt =====
-- Revisions are kept by their own keys, and pages that continue one another leave nothing out.
use mathlib.Core.Path.{subst}
use mathlib.Core.List.{append_assoc}
use policy_engine.Prelude.{
  ℕ, zero, suc, ◌<◌, ◌≡◌, refl, sym, ap, ◌∙◌, Bool, true, false, some, inl, inr, List, [], ◌∷◌,
  ◌++◌, arith, length, take, drop, ltb, ltb→lt, Bool-cases, ◌&&◌,
}
use policy_engine.Model.Records.{RevisionRecord}
use policy_engine.Index.Comparison.{Comparison}
use policy_engine.Index.Avl.Balance.{entries}
use policy_engine.Index.Avl.Entries.{All, find, put, overlay, Ascending, Under, Over, split}
use policy_engine.Index.Avl.Laws.{find-put, Ascending-put}
use policy_engine.Index.Avl.Updates.{set-Grows}
use policy_engine.Index.Avl.Reads.{IsIndex}
use policy_engine.Index.Avl.Pages.{eligible, not_after, page-exact, collect, eligible-append}
use policy_engine.Index.Keys.{RevisionKey, compare_revision_key}
use policy_engine.Index.Keys.Laws.{revision_key_order}
use policy_engine.Index.Revisions.{RevisionTree, revision_key_for, revision_set, revision_page}

All-middle :
    {A : Type 0} (P : A → Type 0) (xs : List A) (e : A) (ys : List A) → All P (xs ++ (e ∷ ys)) → P e
All-middle P [] e ys h = h.0
All-middle P (x ∷ xs) e ys h = All-middle P xs e ys h.1

module _ {K V : Type 0} (c : Comparison K) where
  abbrev values : List (K × V) → List V
  values [] = []
  values ((k, v) ∷ m) = v ∷ values m

  eligible-Over : (k : K) (m : List (K × V)) → Over c k m → eligible c k true m ≡ values m
  eligible-Over k [] o = refl
  eligible-Over k ((j, v) ∷ m) o = ground (arith, eligible-Over k m o.1, c.lt_swap k j o.0)

  eligible-Under_all : (k : K) (m : List (K × V)) → Under c k m → eligible c k true m ≡ []
  eligible-Under_all k [] u = refl
  eligible-Under_all k ((j, v) ∷ m) u =
      ground (arith, eligible-Under_all k m u.1, c.gt_swap k j u.0)

  -- What follows an entry's key are the entries right of it.
  eligible-middle :
      (xs : List (K × V)) (k : K) (v : V) (ys : List (K × V))
      → Ascending c (xs ++ ((k, v) ∷ ys))
      → eligible c k true (xs ++ ((k, v) ∷ ys)) ≡ values ys
  eligible-middle xs k v ys h =
      let parts = split c xs k v ys h in
      eligible-append c k true xs ((k, v) ∷ ys)
      ∙ ground (arith, eligible-Under_all k xs parts.under, c.self k, eligible-Over k ys parts.over)

  -- The records after a continuation key are the values of a tail of the entries.
  record Tail (after : K) (has_after : Bool) (m : List (K × V)) : Type 0 where
    before : List (K × V)
    following : List (K × V)
    whole : m ≡ before ++ following
    same : eligible c after has_after m ≡ values following

  eligible-Over_all :
      (after : K) (has_after : Bool) (k : K) (m : List (K × V))
      → (has_after && not_after (c.cmp k after)) ≡ false
      → Over c k m
      → eligible c after has_after m ≡ values m
  eligible-Over_all after has_after k [] h o = refl
  eligible-Over_all after has_after k ((j, v) ∷ m) h o = ground (
    arith,
    eligible-Over_all after has_after k m h o.1,
    c.gt_swap k after,
    c.gt_swap j after,
    c.lt_swap after j,
    c.lt_trans after k j,
  )

  Tail-of :
      (after : K) (has_after : Bool) (m : List (K × V)) → Ascending c m → Tail after has_after m
  Tail-of after has_after [] h = record { before = []; following = []; whole = refl; same = refl }
  Tail-of after has_after ((k, v) ∷ m) h =
      let rest = Tail-of after has_after m h.1 in
      elim (Bool-cases (has_after && not_after (c.cmp k after))) [
        | inl skip ↦ record {
          before = (k, v) ∷ rest.before;
          following = rest.following;
          whole = ap (◌∷◌ (k, v)) rest.whole;
          same = rw skip rest.same;
        }
        | inr keep ↦ record {
          before = [];
          following = (k, v) ∷ m;
          whole = refl;
          same = rw keep (ap (◌∷◌ v) (eligible-Over_all after has_after k m keep h.0));
        }
      ]

  -- A list cut behind its entry at `n`.
  record Cut (n : ℕ) (m : List (K × V)) : Type 0 where
    left : List (K × V)
    key : K
    value : V
    right : List (K × V)
    whole : m ≡ left ++ ((key, value) ∷ right)
    taken : take (suc n) (values m) ≡ values left ++ (value ∷ [])
    dropped : drop (suc n) (values m) ≡ values right

  cut : (n : ℕ) (m : List (K × V)) → n < length (values m) → Cut n m
  cut n [] h = absurd (omega arith)
  cut zero ((k, v) ∷ m) h = record {
    left = [];
    key = k;
    value = v;
    right = m;
    whole = refl;
    taken = refl;
    dropped = refl;
  }
  cut (suc n) ((k, v) ∷ m) h =
      let rest = cut n m (omega arith) in
      record {
        left = (k, v) ∷ rest.left;
        key = rest.key;
        value = rest.value;
        right = rest.right;
        whole = ap (◌∷◌ (k, v)) rest.whole;
        taken = ap (◌∷◌ v) rest.taken;
        dropped = rest.dropped;
      }

  -- Where a page is full and there are more: its last entry, and what follows that entry's key.
  record Continues (after : K) (has_after : Bool) (n : ℕ) (m : List (K × V)) : Type 0 where
    left : List (K × V)
    key : K
    last : V
    right : List (K × V)
    front : List V
    whole : m ≡ left ++ ((key, last) ∷ right)
    taken : take (suc n) (eligible c after has_after m) ≡ front ++ (last ∷ [])
    next : eligible c key true m ≡ drop (suc n) (eligible c after has_after m)

  continues :
      (after : K) (has_after : Bool) (n : ℕ) (m : List (K × V))
      → Ascending c m
      → suc n < length (eligible c after has_after m)
      → Continues after has_after n m
  continues after has_after n m h l =
      let tail = Tail-of after has_after m h in
      let long : n < length (values tail.following) = rw (← tail.same) (omega arith) in
      let p = cut n tail.following long in
      let whole : m ≡ (tail.before ++ p.left) ++ ((p.key, p.value) ∷ p.right) =
        tail.whole
        ∙ ap (λ m. tail.before ++ m) p.whole
        ∙ sym (append_assoc tail.before p.left ((p.key, p.value) ∷ p.right)) in
      record {
        left = tail.before ++ p.left;
        key = p.key;
        last = p.value;
        right = p.right;
        front = values p.left;
        whole = whole;
        taken = ap (take (suc n)) tail.same ∙ p.taken;
        next =
            ap (eligible c p.key true) whole
            ∙ eligible-middle (tail.before ++ p.left) p.key p.value p.right
                (subst (Ascending c) whole h)
            ∙ sym (ap (drop (suc n)) tail.same ∙ p.dropped);
      }

-- The key that a revision is stored under is its own.
abbrev pub IsKeyed : RevisionKey × RevisionRecord → Type 0
IsKeyed e = e.0 ≡ revision_key_for e.1

All-put :
    (key : RevisionKey) (r : RevisionRecord) (m : List (RevisionKey × RevisionRecord))
    → key ≡ revision_key_for r
    → All IsKeyed m
    → All IsKeyed (put revision_key_order key r m)
All-put key r [] e h = (e, tt)
All-put key r ((k, v) ∷ m) e h = ground (arith, All-put key r m e h.1)

-- An index of revisions: an ordered and balanced tree with each revision under its own key.
pub record IsRevisionIndex (t : RevisionTree) : Type 0 where
  pub index : IsIndex revision_key_order t
  pub keyed : All IsKeyed (entries t)

-- A publication never fails in the index: the result is an index of revisions again, which holds
-- the revision under its publication time and identity, and the old revisions elsewhere.
pub revision_set-stored :
    (t : RevisionTree) (r : RevisionRecord)
    → IsRevisionIndex t
    → (t' : RevisionTree) × (revision_set t r ≡ some t')
      × IsRevisionIndex t'
      × ((q : RevisionKey)
          → find revision_key_order q (entries t')
            ≡ overlay
                (compare_revision_key q (revision_key_for r))
                (some r)
                (find revision_key_order q (entries t)))
unfolding revision_set
revision_set-stored t r i =
    let key = revision_key_for r in
    let g = set-Grows revision_key_order key r t i.index.avl i.index.ascending in
    (
      g.result,
      g.returned,
      record {
        index = record {
          avl = g.avl;
          ascending =
              rw g.kept (Ascending-put revision_key_order key r (entries t) i.index.ascending);
        };
        keyed = rw g.kept (All-put key r (entries t) refl i.keyed);
      },
      λ q. rw g.kept (find-put revision_key_order q key r (entries t)),
    )

-- The records after a continuation key.
abbrev pub following : RevisionKey → Bool → RevisionTree → List RevisionRecord
following after has_after t = eligible revision_key_order after has_after (entries t)

-- A page of an index of revisions, of at most `limit` records, handed to a visitor that collects: the first `limit` records
-- after the continuation key, in the order of publication time and identity, and whether there are
-- more.
pub revision_page-records :
    (t : RevisionTree) (after : RevisionKey) (has_after : Bool) (limit : ℕ)
    → IsRevisionIndex t
    → let r = revision_page t after has_after limit collect [] in
      let rest = following after has_after t in
      (r.2 ≡ take limit rest) × (r.1 ≡ ltb limit (length rest))
unfolding revision_page
revision_page-records t after has_after limit i =
    page-exact limit revision_key_order after has_after t i.index.ascending

-- A page of an index of revisions, with a limit of one or more, that says there are more records ends with a record such that
-- the records after that record's key are exactly the ones that the page left out: pages that
-- continue one another repeat nothing and leave nothing out.
pub revision_page-continues :
    (t : RevisionTree) (after : RevisionKey) (has_after : Bool) (n : ℕ)
    → IsRevisionIndex t
    → (revision_page t after has_after (suc n) collect []).1 ≡ true
    → (front : List RevisionRecord) × (last : RevisionRecord) × ((revision_page t after has_after
          (suc n)
          collect
          []).2
        ≡ front ++ (last ∷ []))
      × (following (revision_key_for last) true t ≡ drop (suc n) (following after has_after t))
unfolding revision_page
revision_page-continues t after has_after n i yes_more =
    let order = revision_key_order in
    let (records, more) = revision_page-records t after has_after (suc n) i in
    let p =
      continues order after has_after n (entries t) i.index.ascending
        (ltb→lt _ _ (sym more ∙ yes_more)) in
    let own : p.key ≡ revision_key_for p.last =
      All-middle IsKeyed p.left (p.key, p.last) p.right (subst (All IsKeyed) p.whole i.keyed) in
    (p.front, p.last, records ∙ p.taken, rw (← own) p.next)
