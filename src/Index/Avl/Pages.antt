-- ===== src/Index/Avl/Pages.antt =====
-- `revisionPage` of indexed.go: one page of a search tree, after a continuation key.
use mathlib.Core.Path.{fun_ext}
use mathlib.Core.List.{append-nil, append_assoc}
use policy_engine.Prelude.{
  ℕ, zero, suc, ◌+◌, ◌≡◌, refl, sym, ap, ◌∙◌, Ordering, Bool, true, false, ◌&&◌, inl, inr, List, [],
  ◌∷◌, ◌++◌, arith, if◌then◌else◌, ◌==◌, ltb, length, take, Bool-cases,
}
use policy_engine.Index.Comparison.{Comparison}
use policy_engine.Index.Avl.{Tree, leaf, node}
use policy_engine.Index.Avl.Balance.{entries}
use policy_engine.Index.Avl.Entries.{Ascending, Under, split}
use policy_engine.Index.Avl.Buckets.{Visitor, both, both_assoc}

-- What the closure `walk` of `revisionPage` counts and hands on.
pub record Progress (S : Type 0) : Type 0 where
  pub emitted : ℕ
  pub more : Bool
  pub state : S

pub record PageWalk (S : Type 0) : Type 0 where
  pub visited : ℕ
  pub progress : Progress S

abbrev pub not_after : Ordering → Bool
not_after Ordering.gt = false
not_after _ = true

module _ {K V : Type 0} (c : Comparison K) (after : K) (has_after : Bool) where
  -- The entries that follow the continuation key.
  abbrev pub eligible : List (K × V) → List V
  eligible [] = []
  eligible ((k, v) ∷ m) =
      let rest = eligible m in if has_after && not_after (c.cmp k after) then rest else v ∷ rest

  pub eligible-append : (xs ys : List (K × V)) → eligible (xs ++ ys) ≡ eligible xs ++ eligible ys
  eligible-append [] ys = refl
  eligible-append ((k, v) ∷ xs) ys = ground (arith, eligible-append xs ys)

  -- Left of a key that does not follow the continuation, nothing does.
  eligible-Under :
      (k : K) (m : List (K × V))
      → (has_after && not_after (c.cmp k after)) ≡ true
      → Under c k m
      → eligible m ≡ []
  eligible-Under k [] h u = refl
  eligible-Under k ((j, v) ∷ m) h u =
      ground (
        arith,
        eligible-Under k m h u.1,
        c.gt_swap k j u.0,
        c.lt_trans j k after,
        c.eq_sound k after,
      )

module _ {V S : Type 0} (limit : ℕ) (visit : Visitor V S) where
  abbrev emit : V → Progress S → Bool × Progress S
  emit v p =
      let (go_on, state) = visit v p.state in
      (go_on, record { emitted = p.emitted + 1; more = p.more; state = state })

  -- The records that follow the continuation key, one by one, up to the limit.
  unfoldable pub visit_page : List V → Progress S → Bool × Progress S
  visit_page [] p = (true, p)
  visit_page (v ∷ vs) p =
      let rest = both (emit v p) (λ p. visit_page vs p) in
      if p.emitted == limit then (false, record p { more = true }) else rest

module _ {K V S : Type 0} (c : Comparison K) (after : K) (has_after : Bool) (limit : ℕ)
    (visit : Visitor V S) where
  emit_walk : V → PageWalk S → Bool × PageWalk S
  emit_walk v w =
      let (go_on, state) = visit v w.progress.state in
      (
        go_on,
        record {
          visited = w.visited;
          progress = record {
            emitted = w.progress.emitted + 1;
            more = w.progress.more;
            state = state;
          };
        },
      )

  walk : Tree K V → PageWalk S → Bool × PageWalk S
  unfolding emit_walk
  walk leaf w = (true, w)
  walk (node h k v left right) w0 =
      let w : PageWalk S = record w0 { visited = w0.visited + 1 } in
      elim (has_after && not_after (c.cmp k after)) [
        | true ↦ walk right w
        | false ↦ both (walk left w) (λ w.
            let rest = both (emit_walk v w) (λ w. walk right w) in
            if w.progress.emitted == limit
            then (
              false,
              record w {
                progress = record {
                  emitted = w.progress.emitted;
                  more = true;
                  state = w.progress.state;
                };
              },
            )
            else rest)
      ]

  -- The visits, whether there are more, and the visitor's state.
  unfoldable pub page : Tree K V → S → ℕ × Bool × S
  unfolding walk
  page root state =
      let (_, w) =
        walk root (record {
          visited = 0;
          progress = record { emitted = 0; more = false; state = state };
        }) in
      (w.visited, w.progress.more, w.progress.state)

  abbrev forget : Bool × PageWalk S → Bool × Progress S
  forget r = (r.0, r.1.progress)

  forget-both :
      (r : Bool × PageWalk S) (f : PageWalk S → Bool × PageWalk S)
      (g : Progress S → Bool × Progress S)
      → ((w : PageWalk S) → forget (f w) ≡ g w.progress)
      → forget (both r f) ≡ both (forget r) g
  forget-both (true, w) f g h = h w
  forget-both (false, w) f g h = refl

  visit_page-append :
      (xs ys : List V) (p : Progress S)
      → visit_page limit visit (xs ++ ys) p
        ≡ both (visit_page limit visit xs p) (λ p. visit_page limit visit ys p)
  unfolding visit_page
  visit_page-append [] ys p = refl
  visit_page-append (v ∷ xs) ys p = elim (Bool-cases (p.emitted == limit)) [
    | inl full ↦ rw full
    | inr room ↦ rw room (rw both_assoc (rw (fun_ext (visit_page-append xs ys))))
  ]

  -- One record of the walk, and the walk of what is right of it.
  emit-visit_page :
      (v : V) (vs : List V) (right : PageWalk S → Bool × PageWalk S) (w : PageWalk S)
      → ((w : PageWalk S) → forget (right w) ≡ visit_page limit visit vs w.progress)
      → forget (
          if w.progress.emitted == limit
          then (
            false,
            record w {
              progress = record {
                emitted = w.progress.emitted;
                more = true;
                state = w.progress.state;
              };
            },
          )
          else both (emit_walk v w) right)
        ≡ visit_page limit visit (v ∷ vs) w.progress
  unfolding emit_walk visit_page
  emit-visit_page v vs right w h = elim (Bool-cases (w.progress.emitted == limit)) [
    | inl full ↦ rw full
    | inr room ↦ rw room (forget-both (emit_walk v w) right (visit_page limit visit vs) h)
  ]

  walk-visit_page :
      (t : Tree K V) (w : PageWalk S)
      → Ascending c (entries t)
      → forget (walk t w)
        ≡ visit_page limit visit (eligible c after has_after (entries t)) w.progress
  unfolding walk visit_page
  walk-visit_page leaf w h = refl
  walk-visit_page (node n k v l r) w h =
      let parts = split c (entries l) k v (entries r) h in
      elim (Bool-cases (has_after && not_after (c.cmp k after))) [
        | inl skip ↦
            rw
              (
                skip,
                walk,
                eligible-append c after has_after (entries l) ((k, v) ∷ entries r),
                eligible-Under c after has_after k (entries l) skip parts.under,
              )
              (rw skip (walk-visit_page r (record w { visited = w.visited + 1 }) parts.right))
        | inr keep ↦
            rw (keep, walk, eligible-append c after has_after (entries l) ((k, v) ∷ entries r))
              (rw keep (
                forget-both (walk l (record w { visited = w.visited + 1 })) _
                  (visit_page limit visit (v ∷ eligible c after has_after (entries r)))
                  (λ w1.
                    emit-visit_page v (eligible c after has_after (entries r)) (walk r) w1
                      (λ w2. walk-visit_page r w2 parts.right))
                ∙ ap
                    (λ q.
                      both q (visit_page limit visit (v ∷ eligible c after has_after (entries r))))
                    (walk-visit_page l (record w { visited = w.visited + 1 }) parts.left)
                ∙ sym (
                    visit_page-append (eligible c after has_after (entries l))
                      (v ∷ eligible c after has_after (entries r)) w.progress)))
      ]

-- The visitor of `ListRevisions`: it appends what it is given, and goes on.
abbrev pub collect : {V : Type 0} → Visitor V (List V)
collect v records = (true, records ++ (v ∷ []))

module _ {V : Type 0} (limit : ℕ) where
  collected :
      (vs : List V) (room : ℕ) (p : Progress (List V))
      → p.emitted + room ≡ limit
      → let r = visit_page limit collect vs p in
        (r.1.state ≡ p.state ++ take room vs)
        × (r.1.more ≡ (if ltb room (length vs) then true else p.more))
  unfolding visit_page
  collected [] zero p h = (sym (append-nil p.state), refl)
  collected [] (suc room) p h = (sym (append-nil p.state), ground arith)
  collected (v ∷ vs) zero p h =
      let full : (p.emitted == limit) ≡ true = ground arith in
      rw full (sym (append-nil p.state), ground arith)
  collected (v ∷ vs) (suc room) p h =
      let free : (p.emitted == limit) ≡ false = ground arith in
      let p' : Progress (List V) = record {
        emitted = p.emitted + 1;
        more = p.more;
        state = p.state ++ (v ∷ []);
      } in
      let (records, more) = collected vs room p' (omega arith) in
      rw free (records ∙ append_assoc p.state (v ∷ []) (take room vs), more ∙ ground arith)

  -- A page holds the first `limit` of the records that follow the continuation key, in order, and
  -- says that there are more exactly if there are.
  pub page-exact :
      {K : Type 0} (c : Comparison K) (after : K) (has_after : Bool) (root : Tree K V)
      → Ascending c (entries root)
      → let following = eligible c after has_after (entries root) in
        let (_, more, records) = page c after has_after limit collect root [] in
        (records ≡ take limit following) × (more ≡ ltb limit (length following))
  unfolding page
  page-exact c after has_after root h =
      let start : PageWalk (List V) = record {
        visited = 0;
        progress = record { emitted = 0; more = false; state = [] };
      } in
      let following = eligible c after has_after (entries root) in
      let walked = walk-visit_page c after has_after limit collect root start h in
      let (records, more) = collected following limit start.progress (omega arith) in
      (ap (λ r. r.1.state) walked ∙ records, ap (λ r. r.1.more) walked ∙ more ∙ ground arith)
