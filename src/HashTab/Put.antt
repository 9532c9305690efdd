-- ===== src/HashTab/Put.antt =====
-- hash-tab.c: `hash_insert` on a table that keeps the invariant, and the table without entries.
use jauto_profiler_mcp.Prelude.{
  ℕ, ◌+◌, ◌<◌, ◌≡◌, refl, ◌⊎◌, inl, inr, Bool, true, false, List, [], Option, none, some, arith,
}
use jauto_profiler_mcp.HashTab.{Bytes, HashTab, blank, hash_insert}
use jauto_profiler_mcp.HashTab.Probe.{is_some}
use jauto_profiler_mcp.HashTab.Links.{keys}
use jauto_profiler_mcp.HashTab.Insert.{Inserts, slot_at, hash_insert-Inserts}
use jauto_profiler_mcp.HashTab.Valid.{IsValid}
use jauto_profiler_mcp.HashTab.Update.{Reaches-insert, Has-insert_self, Has-insert, Has-insert_back}
use jauto_profiler_mcp.HashTab.View.{view, view_held, view_absent, view_agree, updated, updated_by}

module _ {V : Type 0} where
  -- the value of an entry, NULL if there is none
  abbrev pub flat : Option (Option V) → Option V
  flat none = none
  flat (some v) = v

  abbrev pub entries_for : Option (Option V) → ℕ
  entries_for none = 0
  entries_for (some v) = 1

  -- `u` is the table `t` with the value for the key, and `prev` is what the key stood for
  pub record With (t : HashTab V) (key : Bytes) (val : Option V) (u : HashTab V) (prev : Option V)
      : Type 0 where
    pub valid : IsValid u
    pub view_is : (k : Bytes) → view u k ≡ updated (view t) key (some val) k
    pub prev_is : prev ≡ flat (view t key)
    pub count_is : u.count + entries_for (view t key) ≡ t.count + 1
    pub same_capacity : u.capacity ≡ t.capacity
    pub same_thresh : u.over_thresh ≡ t.over_thresh

  module _ (t : HashTab V) (valid : IsValid t) (key : Bytes) (val : Option V)
      (room : t.count + 1 < t.capacity) where
    module _ (d : ℕ) (u : HashTab V) (prev : Option V) (m : List ℕ)
        (ins : Inserts t key val d u prev m) where
      valid' : IsValid u
      valid' = record {
        order = m;
        core = ins.core;
        reaches = Reaches-insert t u key val prev d m ins valid.reaches;
        room = ground (arith, ins.count_is, ins.writes.same_capacity);
        thresh = rw ins.writes.same_thresh valid.thresh;
      }

      view_new :
          (is_some (keys t (slot_at t key d)) ≡ false) × (view t key ≡ none)
          ⊎ (is_some (keys t (slot_at t key d)) ≡ true)
            × (view t key ≡ some (t.tab (slot_at t key d)).val)
      view_new = elim ins.stops [
        | inl free ↦
            inl (rw free refl, view_absent t valid key (λ v (s, at, is). ins.absent free s at))
        | inr same ↦ inr (rw same refl, view_held t valid key _ (slot_at t key d, same, refl))
      ]

      With-entry : With t key val u prev
      With-entry = record {
        valid = valid';
        view_is =
            updated_by (view t) (view u) key (some val)
              (view_held u valid' key val (Has-insert_self t u key val prev d m ins))
              (λ k ne.
                view_agree t u k valid valid' (λ v. Has-insert t u key val prev d m ins k v ne)
                  (λ v. Has-insert_back t u key val prev d m ins k v ne));
        prev_is = ground (arith, ins.prev_is, view_new);
        count_is = ground (arith, ins.count_is, view_new);
        same_capacity = ins.writes.same_capacity;
        same_thresh = ins.writes.same_thresh;
      }

    pub hash_insert-With :
        (u : HashTab V) × (prev : Option V) × (hash_insert t key val ≡ some (u, prev))
        × With t key val u prev
    hash_insert-With =
        let (d, u, prev, m, runs, ins) =
          hash_insert-Inserts t key val valid.order valid.core valid.room
            (λ s at. valid.reaches s key at) in
        (u, prev, runs, With-entry d u prev m ins)

  -- a table whose array is zeroed
  abbrev pub empty : ℕ → (Bytes → ℕ) → (ℕ → ℕ → Bool) → HashTab V
  empty cap hash_fn over_thresh = record {
    capacity = cap;
    count = 0;
    hash_fn = hash_fn;
    over_thresh = over_thresh;
    head = none;
    tab = λ i. blank;
  }

  module _ (cap : ℕ) (hash_fn : Bytes → ℕ) (over : ℕ → ℕ → Bool) (pos : 0 < cap)
      (below : (c n : ℕ) → over c n ≡ false → c < n) where
    pub empty-IsValid : IsValid (empty cap hash_fn over)
    empty-IsValid = record {
      order = [];
      core = record {
        pos = pos;
        counted = refl;
        tally = λ s. refl;
        inside = λ s h. cc;
        head_first = refl;
        next_succ = λ s h. cc;
        prev_pred = λ s h. cc;
        unique = λ s r k h. cc;
      };
      reaches = λ s k h. cc;
      room = pos;
      thresh = below;
    }

    pub view-empty : (k : Bytes) → view (empty cap hash_fn over) k ≡ none
    view-empty k = view_absent _ empty-IsValid k (λ v (s, at, is). cc)
