-- ===== src/Memory/Interleavings/Holds.antt =====
-- Who holds which reservation: every call holds the one of its key, and no other call has that key.
use policy_engine.Prelude.{
  ℕ, ◌≤◌, ◌<◌, ◌≡◌, refl, sym, ◌∙◌, arith, true, List, none, some, inl, inr, same_value, ap,
}
use policy_engine.Prelude.Assoc.{
  none-some, lookup, insert, erase, Distinct, Distinct-insert, Distinct-erase, insert-to,
  insert-from, lookup-insert_self, erase-to, erase-from,
}
use policy_engine.Memory.Store.{
  Text_Eq, Pair_Eq, CommitReservationKey, CommitReservation, Store, owns_commit_reservation,
  release_commit_reservation,
}
use policy_engine.Cache.Revisions.{ℕ_Eq}
use policy_engine.Memory.Interleavings.{Call, reservation_of}

abbrev pub Calls : Type 0
Calls = List (ℕ × Call)

abbrev pub Reservations : Type 0
Reservations = List (CommitReservationKey × CommitReservation)

-- The table holds a reservation of the call's key at the call's address.
pub record Held (i : ℕ) (r : CommitReservation) (m : Reservations) : Type 0 where
  pub entry : CommitReservation
  pub address : r.address ≡ i
  pub found : lookup r.key m ≡ some entry
  pub same : entry.address ≡ i

pub record Holds (calls : Calls) (s : Store) : Type 0 where
  pub calls_distinct : Distinct calls
  pub table_distinct : Distinct s.reservations
  pub held :
      (i : ℕ) (c : Call)
      → lookup i calls ≡ some c
      → Held i (reservation_of c) s.reservations × (i < s.next_address)

-- Two calls with one key are one call.
pub one_holder :
    (calls : Calls) (s : Store) (i j : ℕ) (c d : Call)
    → Holds calls s
    → lookup i calls ≡ some c
    → lookup j calls ≡ some d
    → (reservation_of c).key ≡ (reservation_of d).key
    → i ≡ j
one_holder calls s i j c d h ci dj e =
    let a = (h.held i c ci).0 in
    let b = (h.held j d dj).0 in
    let entries : a.entry ≡ b.entry = same_value (sym a.found ∙ rw e b.found) in
    sym a.same ∙ ap (λ r. r.address) entries ∙ b.same

-- Ownership never fails for a call.
pub Holds-owns :
    (calls : Calls) (s : Store) (i : ℕ) (c : Call)
    → Holds calls s
    → lookup i calls ≡ some c
    → owns_commit_reservation (reservation_of c) s ≡ true
unfolding owns_commit_reservation
Holds-owns calls s i c h e =
    let a = (h.held i c e).0 in rw a.found (ground (arith, a.address, a.same))

Held-entry :
    (i : ℕ) (r : CommitReservation) (m m' : Reservations) (h : Held i r m)
    → lookup r.key m' ≡ some h.entry
    → Held i r m'
Held-entry i r m m' h f = record { entry = h.entry; address = h.address; found = f; same = h.same }

-- A call that goes on under the same reservation.
pub Holds-finish :
    (calls : Calls) (s t : Store) (i : ℕ) (c d : Call)
    → Holds calls s
    → lookup i calls ≡ some c
    → reservation_of d ≡ reservation_of c
    → t.reservations ≡ s.reservations
    → s.next_address ≤ t.next_address
    → Holds (insert i d calls) t
Holds-finish calls s t i c d h e same table grown = record {
  calls_distinct = Distinct-insert i d calls h.calls_distinct;
  table_distinct = rw table h.table_distinct;
  held = λ j. λ x. λ f. elim (insert-from j i d x calls f) [
    | inl (je, xe) ↦ rw (je, xe, same, table) ((h.held i c e).0, omega (arith, (h.held i c e).1))
    | inr (n, g) ↦ rw table ((h.held j x g).0, omega (arith, (h.held j x g).1))
  ];
}

-- A step of a call that holds nothing afterwards.
pub Holds-table :
    (calls : Calls) (s t : Store)
    → Holds calls s
    → Distinct t.reservations
    → ((k : CommitReservationKey) → lookup k t.reservations ≡ lookup k s.reservations)
    → s.next_address ≤ t.next_address
    → Holds calls t
Holds-table calls s t h d same grown = record {
  calls_distinct = h.calls_distinct;
  table_distinct = d;
  held = λ j. λ x. λ f.
      let a = h.held j x f in
      (
        Held-entry j (reservation_of x) s.reservations t.reservations a.0
            (same (reservation_of x).key ∙ a.0.found),
        omega (arith, a.1),
      );
}

insert_other :
    (j k : CommitReservationKey) (v x : CommitReservation) (m : Reservations)
    → lookup k m ≡ none
    → lookup j m ≡ some x
    → lookup j (insert k v m) ≡ some x
insert_other j k v x m free f = elim (insert-to j k v x m f) [
  | inl (same, g) ↦ absurd (none-some x (sym free ∙ rw (sym same) f))
  | inr (n, g) ↦ g
]

-- A call that enters with a new reservation.
pub Holds-enter :
    (calls : Calls) (s t : Store) (c : Call)
    → Holds calls s
    → lookup (reservation_of c).key s.reservations ≡ none
    → (reservation_of c).address ≡ s.next_address
    → Distinct t.reservations
    → ((k : CommitReservationKey)
        → lookup k t.reservations
          ≡ lookup k (insert (reservation_of c).key (reservation_of c) s.reservations))
    → s.next_address < t.next_address
    → Holds (insert (reservation_of c).address c calls) t
Holds-enter calls s t c h free fresh d same grown = record {
  calls_distinct = Distinct-insert (reservation_of c).address c calls h.calls_distinct;
  table_distinct = d;
  held = λ j. λ x. λ f. elim (insert-from j (reservation_of c).address c x calls f) [
    | inl (je, xe) ↦
        rw (je, xe)
          (
            record {
              entry = reservation_of c;
              address = refl;
              found =
                  same (reservation_of c).key
                  ∙ lookup-insert_self (reservation_of c).key (reservation_of c) s.reservations;
              same = refl;
            },
            omega (arith, fresh),
          )
    | inr (n, g) ↦
        let a = h.held j x g in
        (
          Held-entry j (reservation_of x) s.reservations t.reservations a.0 (
              same (reservation_of x).key
              ∙ insert_other (reservation_of x).key (reservation_of c).key (reservation_of c)
                  a.0.entry s.reservations free a.0.found),
          omega (arith, a.1),
        )
  ];
}

-- A call that leaves.
pub Holds-leave :
    (calls : Calls) (s : Store) (i : ℕ) (c : Call)
    → Holds calls s
    → lookup i calls ≡ some c
    → Holds (erase i calls) (release_commit_reservation (reservation_of c) s)
unfolding release_commit_reservation
Holds-leave calls s i c h e = rw (Holds-owns calls s i c h e) (record {
  calls_distinct = Distinct-erase i calls h.calls_distinct;
  table_distinct = Distinct-erase (reservation_of c).key s.reservations h.table_distinct;
  held = λ j. λ x. λ f.
      let g = erase-from j i x calls h.calls_distinct f in
      let a = h.held j x g.1 in
      (
        Held-entry j (reservation_of x) s.reservations (erase (reservation_of c).key s.reservations)
            a.0
            (erase-to (reservation_of x).key (reservation_of c).key a.0.entry s.reservations
              h.table_distinct a.0.found (λ k. g.0 (one_holder calls s j i x c h g.1 e k))),
        a.1,
      );
})
