-- ===== src/Index/Keys/Laws.antt =====
-- The comparisons are total orders whose equality is equality.
use policy_engine.Prelude.{ℕ, ◌≡◌, refl, sym, ◌∙◌, Ordering, [], ◌∷◌, arith, ltb, if◌then◌else◌}
use policy_engine.Prelude.Text.{Text, compare_text}
use policy_engine.Model.Data.{EntityRef, SubjectRef, Tuple}
use policy_engine.Index.Comparison.{Comparison}
use policy_engine.Index.Keys.{
  chain, compare_entity, compare_subject, compare_tuple, RevisionKey, compare_revision_key,
}

pub text_eq_sound : (a b : Text) → compare_text a b ≡ Ordering.eq → a ≡ b
unfolding compare_text
text_eq_sound [] [] h = refl
text_eq_sound [] (y ∷ ys) h = ground arith
text_eq_sound (x ∷ xs) [] h = ground arith
text_eq_sound (x ∷ xs) (y ∷ ys) h = ground (arith, text_eq_sound xs ys)

pub text_self : (a : Text) → compare_text a a ≡ Ordering.eq
unfolding compare_text
text_self [] = refl
text_self (x ∷ xs) = ground (arith, text_self xs)

pub text_lt_swap : (a b : Text) → compare_text a b ≡ Ordering.lt → compare_text b a ≡ Ordering.gt
unfolding compare_text
text_lt_swap [] [] h = ground arith
text_lt_swap [] (y ∷ ys) h = refl
text_lt_swap (x ∷ xs) [] h = ground arith
text_lt_swap (x ∷ xs) (y ∷ ys) h = ground (arith, text_lt_swap xs ys)

pub text_gt_swap : (a b : Text) → compare_text a b ≡ Ordering.gt → compare_text b a ≡ Ordering.lt
unfolding compare_text
text_gt_swap [] [] h = ground arith
text_gt_swap [] (y ∷ ys) h = ground arith
text_gt_swap (x ∷ xs) [] h = refl
text_gt_swap (x ∷ xs) (y ∷ ys) h = ground (arith, text_gt_swap xs ys)

pub text_lt_trans :
    (a b c : Text)
    → compare_text a b ≡ Ordering.lt
    → compare_text b c ≡ Ordering.lt
    → compare_text a c ≡ Ordering.lt
unfolding compare_text
text_lt_trans [] (y ∷ ys) [] h k = ground arith
text_lt_trans [] (y ∷ ys) (z ∷ zs) h k = refl
text_lt_trans (x ∷ xs) (y ∷ ys) (z ∷ zs) h k = ground (arith, text_lt_trans xs ys zs)
text_lt_trans _ _ _ h k = ground arith

abbrev pub text_order : Comparison Text
text_order = record {
  cmp = compare_text;
  eq_sound = text_eq_sound;
  self = text_self;
  lt_swap = text_lt_swap;
  gt_swap = text_gt_swap;
  lt_trans = text_lt_trans;
}

-- The lexicographic comparison of pairs.
module _ {A B : Type 0} (a : Comparison A) (b : Comparison B) where
  abbrev pub lex_cmp : A × B → A × B → Ordering
  lex_cmp x y = chain (a.cmp x.0 y.0) (b.cmp x.1 y.1)

  pub lex_eq_sound : (x y : A × B) → lex_cmp x y ≡ Ordering.eq → x ≡ y
  lex_eq_sound x y h = ground (arith, a.eq_sound x.0 y.0, b.eq_sound x.1 y.1)

  pub lex_self : (x : A × B) → lex_cmp x x ≡ Ordering.eq
  lex_self x = rw (a.self x.0) (b.self x.1)

  pub lex_lt_swap : (x y : A × B) → lex_cmp x y ≡ Ordering.lt → lex_cmp y x ≡ Ordering.gt
  lex_lt_swap x y h =
      ground (arith, a.lt_swap x.0 y.0, b.lt_swap x.1 y.1, a.eq_sound x.0 y.0, a.self x.0)

  pub lex_gt_swap : (x y : A × B) → lex_cmp x y ≡ Ordering.gt → lex_cmp y x ≡ Ordering.lt
  lex_gt_swap x y h =
      ground (arith, a.gt_swap x.0 y.0, b.gt_swap x.1 y.1, a.eq_sound x.0 y.0, a.self x.0)

  pub lex_lt_trans :
      (x y z : A × B)
      → lex_cmp x y ≡ Ordering.lt
      → lex_cmp y z ≡ Ordering.lt
      → lex_cmp x z ≡ Ordering.lt
  lex_lt_trans x y z h k = ground (
    arith,
    a.lt_trans x.0 y.0 z.0,
    b.lt_trans x.1 y.1 z.1,
    a.eq_sound x.0 y.0,
    a.eq_sound y.0 z.0,
  )

  abbrev pub lex : Comparison (A × B)
  lex = record {
    cmp = lex_cmp;
    eq_sound = lex_eq_sound;
    self = lex_self;
    lt_swap = lex_lt_swap;
    gt_swap = lex_gt_swap;
    lt_trans = lex_lt_trans;
  }

-- The comparison of a record that agrees with the comparison of a tuple of its fields.
module _ {X A : Type 0} (f : X → A) (c : Comparison A) (injective : (x y : X) → f x ≡ f y → x ≡ y)
    (cmp : X → X → Ordering) (same : (x y : X) → cmp x y ≡ c.cmp (f x) (f y)) where
  abbrev pub by_fields : Comparison X
  by_fields = record {
    cmp = cmp;
    eq_sound = λ x y h. injective x y (c.eq_sound (f x) (f y) (sym (same x y) ∙ h));
    self = λ x. same x x ∙ c.self (f x);
    lt_swap = λ x y h. same y x ∙ c.lt_swap (f x) (f y) (sym (same x y) ∙ h);
    gt_swap = λ x y h. same y x ∙ c.gt_swap (f x) (f y) (sym (same x y) ∙ h);
    lt_trans = λ x y z h k.
        same x z ∙ c.lt_trans (f x) (f y) (f z) (sym (same x y) ∙ h) (sym (same y z) ∙ k);
  }

abbrev pub entity_fields : EntityRef → Text × Text
entity_fields e = (e.type_name, e.id)

pub entity_injective : (x y : EntityRef) → entity_fields x ≡ entity_fields y → x ≡ y
entity_injective x y h = ground arith

pub entity_same :
    (x y : EntityRef)
    → compare_entity x y ≡ (lex text_order text_order).cmp (entity_fields x) (entity_fields y)
unfolding compare_entity
entity_same x y = refl

abbrev pub entity_order : Comparison EntityRef
entity_order =
    by_fields entity_fields (lex text_order text_order) entity_injective compare_entity entity_same

abbrev pub subject_fields : SubjectRef → Text × (Text × Text)
subject_fields s = (s.type_name, (s.id, s.relation))

pub subject_injective : (x y : SubjectRef) → subject_fields x ≡ subject_fields y → x ≡ y
subject_injective x y h = ground arith

pub subject_same :
    (x y : SubjectRef)
    → compare_subject x y
      ≡ (lex text_order (lex text_order text_order)).cmp (subject_fields x) (subject_fields y)
unfolding compare_subject
subject_same x y = refl

abbrev pub subject_order : Comparison SubjectRef
subject_order =
    by_fields subject_fields (lex text_order (lex text_order text_order)) subject_injective
      compare_subject subject_same

abbrev pub tuple_fields : Tuple → EntityRef × (Text × SubjectRef)
tuple_fields t = (t.resource, (t.relation, t.subject))

pub tuple_injective : (x y : Tuple) → tuple_fields x ≡ tuple_fields y → x ≡ y
tuple_injective x y h = ground arith

pub tuple_same :
    (x y : Tuple)
    → compare_tuple x y
      ≡ (lex entity_order (lex text_order subject_order)).cmp (tuple_fields x) (tuple_fields y)
unfolding compare_tuple
tuple_same x y = refl

abbrev pub tuple_order : Comparison Tuple
tuple_order =
    by_fields tuple_fields (lex entity_order (lex text_order subject_order)) tuple_injective
      compare_tuple tuple_same

-- Instants compare as numbers.
pub instant_cmp : ℕ → ℕ → Ordering
instant_cmp a b = if ltb a b then Ordering.lt else if ltb b a then Ordering.gt else Ordering.eq

pub instant_eq_sound : (a b : ℕ) → instant_cmp a b ≡ Ordering.eq → a ≡ b
unfolding instant_cmp
instant_eq_sound a b h = ground arith

pub instant_self : (a : ℕ) → instant_cmp a a ≡ Ordering.eq
unfolding instant_cmp
instant_self a = ground arith

pub instant_lt_swap : (a b : ℕ) → instant_cmp a b ≡ Ordering.lt → instant_cmp b a ≡ Ordering.gt
unfolding instant_cmp
instant_lt_swap a b h = ground arith

pub instant_gt_swap : (a b : ℕ) → instant_cmp a b ≡ Ordering.gt → instant_cmp b a ≡ Ordering.lt
unfolding instant_cmp
instant_gt_swap a b h = ground arith

pub instant_lt_trans :
    (a b c : ℕ)
    → instant_cmp a b ≡ Ordering.lt
    → instant_cmp b c ≡ Ordering.lt
    → instant_cmp a c ≡ Ordering.lt
unfolding instant_cmp
instant_lt_trans a b c h k = ground arith

abbrev pub instant_order : Comparison ℕ
instant_order = record {
  cmp = instant_cmp;
  eq_sound = instant_eq_sound;
  self = instant_self;
  lt_swap = instant_lt_swap;
  gt_swap = instant_gt_swap;
  lt_trans = instant_lt_trans;
}

abbrev pub revision_fields : RevisionKey → ℕ × Text
revision_fields k = (k.published_at, k.id)

pub revision_injective : (x y : RevisionKey) → revision_fields x ≡ revision_fields y → x ≡ y
revision_injective x y h = ground arith

pub revision_same :
    (x y : RevisionKey)
    → compare_revision_key x y
      ≡ (lex instant_order text_order).cmp (revision_fields x) (revision_fields y)
unfolding compare_revision_key instant_cmp
revision_same x y = ground arith

abbrev pub revision_key_order : Comparison RevisionKey
revision_key_order =
    by_fields revision_fields (lex instant_order text_order) revision_injective compare_revision_key
      revision_same
