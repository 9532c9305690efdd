-- ===== src/HashTab/Links.antt =====
-- hash-tab.c: the part of the table's invariant that is about keys and links, and how the steps
-- that write one entry keep it: the two branches of `hash_insert`, and `ent_unlink`.
use jauto_profiler_mcp.Prelude.{
  ℕ, ◌+◌, ◌-◌, ◌<◌, ◌≡◌, refl, ◌≢◌, inl, inr, true, false, List, [], ◌∷◌, Option, none, some, ◌==◌,
  if◌then◌else◌, arith, Bool-cases, Option-cases, length,
}
use jauto_profiler_mcp.HashTab.{
  Bytes, HashEntry, HashTab, put, set_next, set_prev, is_at, link_front, replace_at, ent_unlink,
}
use jauto_profiler_mcp.HashTab.Probe.{Keys, is_some, IsUnique}
use jauto_profiler_mcp.HashTab.Order.{
  to_nat, times, IsNodup, first, succ_in, pred_in, remove, times-remove, length-remove,
  first-remove, first-remove_self, succ_in-remove, pred_in-remove, pred_in-some, pred_in-first,
}

module _ {V : Type 0} where
  abbrev pub keys : HashTab V → Keys
  keys t s = (t.tab s).key

  -- `l` is the linked list; the slots on it are the occupied ones
  pub record Core (t : HashTab V) (l : List ℕ) : Type 0 where
    pub pos : 0 < t.capacity
    pub counted : t.count ≡ length l
    pub tally : (s : ℕ) → times s l ≡ to_nat (is_some (keys t s))
    pub inside : (s : ℕ) → is_some (keys t s) ≡ true → s < t.capacity
    pub head_first : t.head ≡ first l
    pub next_succ : (s : ℕ) → is_some (keys t s) ≡ true → (t.tab s).next ≡ succ_in s l
    pub prev_pred : (s : ℕ) → is_some (keys t s) ≡ true → (t.tab s).prev ≡ pred_in none s l
    pub unique : IsUnique (keys t)

  -- `u` differs from `t` by the key and value of slot `i`, and perhaps by links
  pub record Writes (t : HashTab V) (i : ℕ) (x : Option Bytes) (v : Option V) (u : HashTab V)
      : Type 0 where
    pub same_capacity : u.capacity ≡ t.capacity
    pub same_hash : u.hash_fn ≡ t.hash_fn
    pub same_thresh : u.over_thresh ≡ t.over_thresh
    pub key_at : (s : ℕ) → (u.tab s).key ≡ (if i == s then x else (t.tab s).key)
    pub val_at : (s : ℕ) → (u.tab s).val ≡ (if i == s then v else (t.tab s).val)

  -- The head has no `prev`.
  head-prev :
      (t : HashTab V) (l : List ℕ) (h : ℕ) → Core t l → t.head ≡ some h → (t.tab h).prev ≡ none
  head-prev t [] h c e = cc c.head_first
  head-prev t (a ∷ l) h c e = ground (arith, c.head_first, c.tally h, c.prev_pred h)

  head-occupied :
      (t : HashTab V) (l : List ℕ) (h : ℕ) → Core t l → t.head ≡ some h → is_some (keys t h) ≡ true
  head-occupied t [] h c e = cc c.head_first
  head-occupied t (a ∷ l) h c e = ground (arith, c.head_first, c.tally h)

  -- `link_front` with its assertion left out
  pub front : HashTab V → ℕ → Bytes → Option V → HashTab V
  front t idx key val =
      let ent : HashEntry V = record { next = t.head; prev = none; key = some key; val = val } in
      let tab = put t.tab idx ent in
      record t {
        head = some idx;
        tab = elim t.head [ none ↦ tab | some h ↦ set_prev tab h (some idx) ];
        count = t.count + 1;
      }

  module _ (t : HashTab V) (idx : ℕ) (key : Bytes) (val : Option V) where
    pub count-front : (front t idx key val).count ≡ t.count + 1
    unfolding front
    count-front = refl

    pub front-Writes : Writes t idx (some key) val (front t idx key val)
    unfolding front
    front-Writes = record {
      same_capacity = refl;
      same_hash = refl;
      same_thresh = refl;
      key_at = λ s. ground arith;
      val_at = λ s. ground arith;
    }

    module _ (l : List ℕ) (c : Core t l) (free : keys t idx ≡ none) where
      pub link_front-front : link_front t idx key val ≡ some (front t idx key val)
      unfolding link_front front
      link_front-front = elim (Option-cases t.head) [
        | inl e ↦ ground arith
        | inr (h, e) ↦ ground (arith, head-prev t l h c e, head-occupied t l h c e)
      ]

      pub front-Core :
          idx < t.capacity → ((s : ℕ) → keys t s ≢ some key) → Core (front t idx key val) (idx ∷ l)
      unfolding front
      front-Core lt fresh = record {
        pos = c.pos;
        counted = ground (arith, c.counted);
        tally = λ s. ground (arith, c.tally s, c.tally idx);
        inside = λ s. ground (arith, c.inside s);
        head_first = refl;
        next_succ = λ s. ground (arith, c.tally s, c.tally idx, c.next_succ s, c.head_first);
        prev_pred = λ s. ground (arith, c.tally s, c.tally idx, c.prev_pred s, c.head_first);
        unique = λ s r k. ground (arith, c.unique s r k, fresh s, fresh r);
      }

  module _ (t : HashTab V) (idx : ℕ) (key : Bytes) (val : Option V) where
    pub replace_at-Writes : Writes t idx (some key) val (replace_at t idx key val)
    unfolding replace_at
    replace_at-Writes = record {
      same_capacity = refl;
      same_hash = refl;
      same_thresh = refl;
      key_at = λ s. ground arith;
      val_at = λ s. ground arith;
    }

    pub replace_at-Core :
        (l : List ℕ) → Core t l → keys t idx ≡ some key → Core (replace_at t idx key val) l
    unfolding replace_at
    replace_at-Core l c e = record {
      pos = c.pos;
      counted = c.counted;
      tally = λ s. ground (arith, c.tally s);
      inside = λ s. ground (arith, c.inside s);
      head_first = c.head_first;
      next_succ = λ s. ground (arith, c.next_succ s);
      prev_pred = λ s. ground (arith, c.prev_pred s);
      unique = λ s r k. ground (arith, c.unique s r k, c.unique s idx k, c.unique idx r k);
    }

  -- `ent_unlink` with its assertion left out
  pub cut : HashTab V → ℕ → HashTab V
  cut t i =
      let ent = t.tab i in
      let tab = put t.tab i (record ent { key = none; val = none }) in
      let tab' : ℕ → HashEntry V = elim (is_at t.head i) [
        | true ↦ tab
        | false ↦ elim ent.prev [ none ↦ tab | some p ↦ set_next tab p ent.next ]
      ] in
      record t {
        head = elim (is_at t.head i) [ true ↦ ent.next | false ↦ t.head ];
        tab = elim ent.next [
          | none ↦ tab'
          | some n ↦ set_prev tab' n (elim (is_at t.head i) [ true ↦ none | false ↦ ent.prev ])
        ];
        count = t.count - 1;
      }

  module _ (t : HashTab V) (i : ℕ) where
    pub cut-Writes : Writes t i none none (cut t i)
    unfolding cut
    cut-Writes = record {
      same_capacity = refl;
      same_hash = refl;
      same_thresh = refl;
      key_at = λ s. ground arith;
      val_at = λ s. ground arith;
    }

    module _ (l : List ℕ) (c : Core t l) (held : is_some (keys t i) ≡ true) where
      listed : 0 < times i l
      listed = ground (arith, c.tally i)

      nodup : IsNodup l
      nodup s = ground (arith, c.tally s)

      -- Only the head has no `prev`.
      prev_none : (t.tab i).prev ≡ none → is_at t.head i ≡ true
      prev_none e = elim (Bool-cases (is_at (first l) i)) [
        | inl at ↦ ground (arith, c.head_first)
        | inr not_at ↦ let (q, r) = pred_in-some i l listed not_at in ground (arith, c.prev_pred i)
      ]

      pub ent_unlink-cut : ent_unlink t i ≡ some (cut t i)
      unfolding ent_unlink cut
      ent_unlink-cut = elim (Option-cases (t.tab i).prev) [
        | inl e ↦ ground (arith, prev_none)
        | inr (q, e) ↦ ground arith
      ]

      pub cut-Core : Core (cut t i) (remove i l)
      unfolding cut
      cut-Core = record {
        pos = c.pos;
        counted = ground (arith, c.counted, length-remove i l listed);
        tally = λ s. ground (arith, c.tally s, times-remove i s l);
        inside = λ s. ground (arith, c.inside s);
        head_first =
            ground (arith, c.head_first, first-remove i l, first-remove_self i l, c.next_succ i);
        next_succ = λ s. ground (
          arith,
          c.next_succ s,
          c.next_succ i,
          c.prev_pred i,
          c.head_first,
          c.tally s,
          listed,
          prev_none,
          pred_in-first i l,
          succ_in-remove i s none l nodup,
        );
        prev_pred = λ s. ground (
          arith,
          c.prev_pred s,
          c.next_succ i,
          c.prev_pred i,
          c.head_first,
          c.tally s,
          listed,
          prev_none,
          pred_in-first i l,
          pred_in-remove i s none l nodup,
        );
        unique = λ s r k. ground (arith, c.unique s r k);
      }
