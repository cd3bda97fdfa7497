-- ===== src/Index/Tries/Writes.antt =====
-- Writes to a trie: a value is refused below or above another value, and else it is stored.
use policy_engine.Prelude.{
  arith, ◌≡◌, refl, sym, ◌∙◌, List, [], ◌∷◌, Option, none, some, ◌⊎◌, inl, inr, if◌then◌else◌,
}
use policy_engine.Prelude.Text.{Text}
use policy_engine.Model.Data.{Attribute}
use policy_engine.Index.Avl.{◌>>=◌}
use policy_engine.Index.Attributes.{segment_get}
use policy_engine.Index.Attributes.Laws.{segment_get-updates}
use policy_engine.Index.Tries.{
  Trie, trie, Segments, end, segments, children, walk, trie_get, trie_set, set_child,
}
use policy_engine.Index.Tries.Views.{segments-children}
use policy_engine.Index.Tries.Values.{
  IsTrie, valued, inner, Whole, Whole-some, Whole-none, same_path, Conflict, IsTrie-Held, Children,
  not_end, overlay_self, IsTrie-child, read_below, Children-end, get_made,
}

-- What a write does: it is refused because of a value above or below, or it stores the attribute.
pub record Refusal (o : Option Trie) (path : List Text) (r : Option (Option Trie)) : Type 0 where
  pub refused : r ≡ some none
  pub at : List Text
  pub value : Attribute
  pub found : trie_get at o ≡ some value
  pub conflict : Conflict path at

pub record Stored (o : Option Trie) (path : List Text) (a : Attribute) (r : Option (Option Trie))
    : Type 0 where
  pub result : Trie
  pub returned : r ≡ some (some result)
  pub kept : IsTrie result
  pub reads :
      (q : List Text)
      → trie_get q (some result) ≡ (if same_path q path then some a else trie_get q o)

set_child-Stored :
    (s : Segments) (k : Text) (path : List Text) (a : Attribute) (r : Option (Option Trie))
    → Children s
    → Stored (segment_get (segments s) k) path a r
    → Stored (some (trie none s)) (k ∷ path) a (r >>= set_child none s k)
unfolding trie_get walk
set_child-Stored s k path a r c st =
    let u = (segment_get-updates (segments s) k st.result c.index).0 in
    let self : segment_get u.0 k ≡ some st.result =
      u.3 k ∙ overlay_self k (some st.result) (segment_get (segments s) k) in
    record {
      result = trie none (children u.0);
      returned = rw (st.returned, u.1) refl;
      kept =
          inner (children u.0) (rw (segments-children u.0) u.2) (not_end u.0 k st.result self) (λ j.
            λ t. λ h.
              IsTrie-child s k j (some st.result) t c (Whole-some st.result st.kept)
                (sym (u.3 j) ∙ rw (sym (segments-children u.0)) h));
      reads = λ q. read_below s u.0 k path (some a) (some st.result) q u.3 st.reads;
    }

set_child-Refusal :
    (s : Segments) (k : Text) (path : List Text) (r : Option (Option Trie))
    → Refusal (segment_get (segments s) k) path r
    → Refusal (some (trie none s)) (k ∷ path) (r >>= set_child none s k)
unfolding trie_get walk
set_child-Refusal s k path r f = record {
  refused = rw f.refused refl;
  at = k ∷ f.at;
  value = f.value;
  found = f.found;
  conflict = (refl, f.conflict);
}

Refusal-made :
    (path : List Text) (r : Option (Option Trie))
    → Refusal (some (trie none end)) path r
    → Refusal none path r
Refusal-made path r f = record {
  refused = f.refused;
  at = f.at;
  value = f.value;
  found = sym (get_made f.at) ∙ f.found;
  conflict = f.conflict;
}

Stored-made :
    (path : List Text) (a : Attribute) (r : Option (Option Trie))
    → Stored (some (trie none end)) path a r
    → Stored none path a r
Stored-made path a r f = record {
  result = f.result;
  returned = f.returned;
  kept = f.kept;
  reads = λ q. rw (sym (get_made q)) (f.reads q);
}

read_here :
    (v : Option Attribute) (a : Attribute) (q : List Text)
    → trie_get q (some (trie (some a) end))
      ≡ (if same_path q [] then some a else trie_get q (some (trie v end)))
unfolding trie_get walk
read_here v a [] = refl
read_here v a (k ∷ q) = refl

below_root :
    (q : List Text) (s : Segments) (b : Attribute)
    → trie_get q (some (trie none s)) ≡ some b
    → Conflict [] q
unfolding trie_get walk
below_root [] s b h = ground arith
below_root (k ∷ q) s b h = tt

unfoldable pub Outcome : Option Trie → List Text → Attribute → Option (Option Trie) → Type 0
Outcome o path a r = Refusal o path r ⊎ Stored o path a r

set_end-Outcome :
    (a : Attribute) (t : Trie) → IsTrie t → Outcome (some t) [] a (trie_set [] a (some t))
unfolding trie_set Outcome
set_end-Outcome a _ (valued b) = inr (record {
  result = trie (some a) end;
  returned = refl;
  kept = valued a;
  reads = read_here (some b) a;
})
set_end-Outcome a _ (inner s i n each) =
    let h = IsTrie-Held (trie none s) (inner s i n each) in
    inl (record {
      refused = rw n refl;
      at = h.at;
      value = h.value;
      found = h.found;
      conflict = below_root h.at s h.value h.found;
    })

set_below-Outcome :
    (k : Text) (path : List Text) (a : Attribute) (s : Segments)
    → Children s
    → Outcome (segment_get (segments s) k) path a (trie_set path a (segment_get (segments s) k))
    → Outcome (some (trie none s)) (k ∷ path) a (trie_set (k ∷ path) a (some (trie none s)))
unfolding trie_set Outcome
set_below-Outcome k path a s c (inl f) =
    inl (set_child-Refusal s k path (trie_set path a (segment_get (segments s) k)) f)
set_below-Outcome k path a s c (inr f) =
    inr (set_child-Stored s k path a (trie_set path a (segment_get (segments s) k)) c f)

set_node-Outcome :
    (k : Text) (path : List Text) (a : Attribute) (t : Trie)
    → ((o : Option Trie) → Whole o → Outcome o path a (trie_set path a o))
    → IsTrie t
    → Outcome (some t) (k ∷ path) a (trie_set (k ∷ path) a (some t))
unfolding trie_set Outcome trie_get walk
set_node-Outcome k path a _ rec (valued b) =
    inl (record { refused = refl; at = []; value = b; found = refl; conflict = tt })
set_node-Outcome k path a _ rec (inner s i n each) =
    set_below-Outcome k path a s (record { index = i; each = each })
      (rec (segment_get (segments s) k) (each k))

Outcome-made :
    (path : List Text) (a : Attribute)
    → Outcome (some (trie none end)) path a (trie_set path a (some (trie none end)))
    → Outcome none path a (trie_set path a (some (trie none end)))
unfolding Outcome
Outcome-made path a (inl f) = inl (Refusal-made path (trie_set path a (some (trie none end))) f)
Outcome-made path a (inr f) = inr (Stored-made path a (trie_set path a (some (trie none end))) f)

-- A write to a well-formed trie is refused where a value stands at a proper beginning or a proper
-- continuation of the path, and else it stores the attribute and changes no other path.
pub trie_set-Outcome :
    (path : List Text) (a : Attribute) (o : Option Trie)
    → Whole o
    → Outcome o path a (trie_set path a o)
unfolding trie_set Outcome segment_get segments
trie_set-Outcome [] a none w = inr (record {
  result = trie (some a) end;
  returned = refl;
  kept = valued a;
  reads = λ q. rw (sym (get_made q)) (read_here none a q);
})
trie_set-Outcome [] a (some t) w = set_end-Outcome a t (w t refl)
trie_set-Outcome (k ∷ path) a none w =
    Outcome-made (k ∷ path) a
      (set_below-Outcome k path a end Children-end (trie_set-Outcome path a none Whole-none))
trie_set-Outcome (k ∷ path) a (some t) w =
    set_node-Outcome k path a t (trie_set-Outcome path a) (w t refl)
