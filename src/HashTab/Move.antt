-- ===== src/HashTab/Move.antt =====
-- hash-tab.c: one round of the loop of `hash_tab_remove`. While it moves the entries behind the
-- removed one, the slots that it has emptied are holes, over which the entries still to be moved
-- have their paths.
use jauto_profiler_mcp.Prelude.{
  ℕ, suc, ◌+◌, ◌%◌, ◌≤◌, ◌<◌, ◌≡◌, refl, ap, ◌∙◌, sym, ◌≢◌, ◌⊎◌, inl, inr, true, List, Option, none,
  some, ◌==◌, if◌then◌else◌, arith, Bool-cases, subst, ==_iff, ℕ_discrete, dec_lt,
}
use jauto_profiler_mcp.HashTab.{Bytes, HashTab, ent_unlink, hash_insert}
use jauto_profiler_mcp.HashTab.Probe.{is_some, Reach}
use jauto_profiler_mcp.HashTab.Order.{remove, length-remove}
use jauto_profiler_mcp.HashTab.Links.{Core, keys, Writes, cut, cut-Writes, cut-Core, ent_unlink-cut}
use jauto_profiler_mcp.HashTab.Room.{slots_ne}
use jauto_profiler_mcp.HashTab.Insert.{Inserts, slot_at, hash_insert-Inserts}
use jauto_profiler_mcp.HashTab.Valid.{Reaches}
use jauto_profiler_mcp.HashTab.Update.{Has, Reach-new, taken_writes}
use jauto_profiler_mcp.HashTab.Cluster.{avoids_or_behind}

module _ {V : Type 0} where
  -- the slots `a` steps behind `j`, or fewer
  abbrev pub Hole : HashTab V → ℕ → ℕ → ℕ → Type 0
  Hole t j a s = (m : ℕ) × (m ≤ a) × (s ≡ (j + m) % t.capacity)

  -- every slot between the home and the entry is taken or a hole
  pub record Open (t : HashTab V) (j a h s : ℕ) : Type 0 where
    pub dist : ℕ
    pub near : dist < t.capacity
    pub at : s ≡ (h + dist) % t.capacity
    pub path :
        (e : ℕ)
        → e < dist
        → (is_some (keys t ((h + e) % t.capacity)) ≡ true) ⊎ Hole t j a ((h + e) % t.capacity)

  -- the state before the round at slot `j + a + 1`; the run of taken slots ends before `j + e`
  pub record Moving (t : HashTab V) (l : List ℕ) (j a e : ℕ) : Type 0 where
    pub core : Core t l
    pub room : t.count < t.capacity
    pub ahead : a < e
    pub near : e < t.capacity
    pub open_paths : (s : ℕ) (k : Bytes) → keys t s ≡ some k → Open t j a (t.hash_fn k) s
    pub closed :
        (s : ℕ) (k : Bytes)
        → keys t s ≡ some k
        → Reach (keys t) t.capacity (t.hash_fn k) s
          ⊎ ((m : ℕ) × (a < m) × (m < e) × (s ≡ (j + m) % t.capacity))
    pub taken : (m : ℕ) → a < m → m < e → is_some (keys t ((j + m) % t.capacity)) ≡ true
    pub stop : keys t ((j + e) % t.capacity) ≡ none

  -- one round: the entry of slot `i` is unlinked and inserted again
  pub record Round (t u : HashTab V) (i : ℕ) (k : Bytes) (m : List ℕ) (j a e : ℕ) : Type 0 where
    pub held : keys t i ≡ some k
    pub unlinks :
        (c : HashTab V) × (prev : Option V) × (ent_unlink t i ≡ some c)
        × (hash_insert c k (t.tab i).val ≡ some (u, prev))
    pub moving : Moving u m j (suc a) e
    pub same_count : u.count ≡ t.count
    pub same_capacity : u.capacity ≡ t.capacity
    pub same_thresh : u.over_thresh ≡ t.over_thresh
    pub has : (k' : Bytes) (v : Option V) → Has t k' v → Has u k' v
    pub back : (k' : Bytes) (v : Option V) → Has u k' v → Has t k' v

  module _ (t : HashTab V) (l : List ℕ) (j a e : ℕ) (mv : Moving t l j a e) where
    abbrev pub idx : ℕ
    idx = (j + suc a) % t.capacity

    -- The run has ended: every entry can be reached.
    pub finished : suc a ≡ e → Reaches t
    finished end s k at = elim (mv.closed s k at) [
      | inl r ↦ r
      | inr (m, lo, hi, is) ↦ absurd (omega arith)
    ]

    module _ (k : Bytes) (held : keys t idx ≡ some k) where
      pub is_held : is_some (keys t idx) ≡ true
      is_held = rw held refl

      pub unlinked : Writes t idx none none (cut t idx)
      unlinked = cut-Writes t idx

      pub core' : Core (cut t idx) (remove idx l)
      core' = cut-Core t idx l mv.core is_held

      -- The key stands nowhere while its entry is out of the table.
      pub gone : (s : ℕ) → keys (cut t idx) s ≢ some k
      gone s at = ground (arith, unlinked.key_at s, mv.core.unique s idx k)

      -- The entry back in the table, `d` steps behind its home.
      module _ (d : ℕ) (u : HashTab V) (prev : Option V) (m : List ℕ)
          (ins : Inserts (cut t idx) k (t.tab idx).val d u prev m) where
        abbrev slot : ℕ
        slot = (t.hash_fn k + d) % t.capacity

        slot_is : slot_at (cut t idx) k d ≡ slot
        slot_is = rw (unlinked.same_hash, unlinked.same_capacity) refl

        pub capacity_is : u.capacity ≡ t.capacity
        capacity_is = ins.writes.same_capacity ∙ unlinked.same_capacity

        pub hash_is : u.hash_fn ≡ t.hash_fn
        hash_is = ins.writes.same_hash ∙ unlinked.same_hash

        key_is :
            (s : ℕ) → keys u s ≡ (if slot == s then some k else if idx == s then none else keys t s)
        key_is s = ground (arith, ins.writes.key_at s, unlinked.key_at s, slot_is)

        slot_free : keys (cut t idx) slot ≡ none
        slot_free = elim ins.stops [
          | inl free ↦ subst (λ s. keys (cut t idx) s ≡ none) slot_is free
          | inr old ↦ absurd (gone _ old)
        ]

        path_taken :
            (i : ℕ) → i < d → is_some (keys (cut t idx) ((t.hash_fn k + i) % t.capacity)) ≡ true
        path_taken i lt =
            subst (λ s. is_some (keys (cut t idx) s) ≡ true)
              (rw (unlinked.same_hash, unlinked.same_capacity) refl) (ins.path i lt)

        -- It comes back into a slot that was emptied before.
        slot-Hole : Hole t j (suc a) slot
        slot-Hole =
            let o = mv.open_paths idx k held in
            elim (dec_lt d o.dist) [
              | yes lt ↦ elim (o.path d lt) [
                | inl full ↦ (suc a, omega arith, ground (arith, slot_free, unlinked.key_at slot))
                | inr (x, le, is) ↦ (x, omega arith, is)
              ]
              | no ge ↦ elim (dec_lt o.dist d) [
                | yes gt ↦ absurd (ground (arith, path_taken o.dist gt, o.at, unlinked.key_at idx))
                | no le ↦
                    let same : d ≡ o.dist = omega arith in
                    (suc a, omega arith, ap (λ x. (t.hash_fn k + x) % t.capacity) same ∙ sym o.at)
              ]
            ]

        -- Only the slot that was emptied may have lost its entry.
        still_full : (s : ℕ) → is_some (keys t s) ≡ true → (is_some (keys u s) ≡ true) ⊎ (s ≡ idx)
        still_full s full = ground (arith, key_is s)

        put_back : (s : ℕ) → is_some (keys (cut t idx) s) ≡ true → is_some (keys u s) ≡ true
        put_back s = taken_writes (cut t idx) u _ k (t.tab idx).val ins.writes s

        Hole-wider : (x : ℕ) → Hole t j a x → Hole t j (suc a) x
        Hole-wider x (y, le, is) = (y, omega arith, is)

        -- The paths over the capacity and hash function of `t`, which are those of `u`.
        path_open :
            (h n : ℕ)
            → ((i : ℕ)
                → i < n
                → (is_some (keys t ((h + i) % t.capacity)) ≡ true)
                  ⊎ Hole t j a ((h + i) % t.capacity))
            → (i : ℕ) → i < n
            → (is_some (keys u ((h + i) % t.capacity)) ≡ true)
              ⊎ Hole t j (suc a) ((h + i) % t.capacity)
        path_open h n path i lt = elim (path i lt) [
          | inr hole ↦ inr (Hole-wider _ hole)
          | inl full ↦ elim (still_full _ full) [
            | inl kept ↦ inl kept
            | inr at ↦ inr (suc a, omega arith, at)
          ]
        ]

        Open-moved :
            (h s dist : ℕ)
            → dist < t.capacity
            → s ≡ (h + dist) % t.capacity
            → ((i : ℕ)
                → i < dist
                → (is_some (keys u ((h + i) % t.capacity)) ≡ true)
                  ⊎ Hole t j (suc a) ((h + i) % t.capacity))
            → Open u j (suc a) h s
        Open-moved h s dist lt at path = record {
          dist = dist;
          near = rw capacity_is lt;
          at = rw capacity_is at;
          path = λ i lt'. rw capacity_is (path i lt');
        }

        moved-Open : (s : ℕ) (k' : Bytes) → keys u s ≡ some k' → Open u j (suc a) (u.hash_fn k') s
        moved-Open s k' at =
            subst (λ f. Open u j (suc a) (f k') s) (sym hash_is)
              (elim (Bool-cases (slot == s)) [
                | inl here ↦
                    subst (λ x. Open u j (suc a) (t.hash_fn x) s) (ground (arith, key_is s))
                      (Open-moved (t.hash_fn k) s d near_t (sym ((==_iff _ s).0 here))
                        (λ i lt. inl (put_back _ (path_taken i lt))))
                | inr there ↦
                    let o = mv.open_paths s k' (ground (arith, key_is s)) in
                    Open-moved (t.hash_fn k') s o.dist o.near o.at
                      (path_open (t.hash_fn k') o.dist o.path)
              ])
          where
            near_t : d < t.capacity
            near_t = rw unlinked.same_capacity at ins.near

        Reach-kept :
            (h s : ℕ)
            → (r : Reach (keys t) t.capacity h s)
            → ((i : ℕ) → i < r.dist → (h + i) % t.capacity ≢ idx)
            → Reach (keys u) t.capacity h s
        Reach-kept h s r miss = record {
          dist = r.dist;
          near = r.near;
          at = r.at;
          path = λ i lt. elim (still_full _ (r.path i lt)) [
            | inl kept ↦ kept
            | inr at ↦ absurd (miss i lt at)
          ];
        }

        closed_moved :
            suc a < e
            → (s : ℕ) (k' : Bytes) → keys u s ≡ some k'
            → Reach (keys u) u.capacity (u.hash_fn k') s
              ⊎ ((m : ℕ) × (suc a < m) × (m < e) × (s ≡ (j + m) % u.capacity))
        closed_moved more s k' at = elim (Bool-cases (slot == s)) [
          | inl here ↦ inl (
              subst (λ x. Reach (keys u) u.capacity (u.hash_fn x) s) (ground (arith, key_is s))
                (Reach-new (cut t idx) u k (t.tab idx).val prev d m ins s
                  (slot_is ∙ (==_iff _ s).0 here)))
          | inr there ↦
              let before : keys t s ≡ some k' = ground (arith, key_is s) in
              elim (mv.closed s k' before) [
                | inl r ↦
                    elim (avoids_or_behind (keys t) j t.capacity (suc a) e (t.hash_fn k') s k'
                      mv.stop more before r) [
                        | inl miss ↦ inl (
                            subst (λ f. Reach (keys u) u.capacity (f k') s) (sym hash_is)
                              (subst (λ c. Reach (keys u) c (t.hash_fn k') s) (sym capacity_is)
                                (Reach-kept (t.hash_fn k') s r miss)))
                        | inr (x, lo, hi, is) ↦ inr (x, lo, hi, rw capacity_is is)
                      ]
                | inr (x, lo, hi, is) ↦ elim (ℕ_discrete x (suc a)) [
                  | yes first ↦ absurd (ground (arith, key_is s))
                  | no later ↦ inr (x, omega arith, hi, rw capacity_is is)
                ]
              ]
        ]

        slot_before : (x : ℕ) → suc a < x → x < t.capacity → slot ≢ (j + x) % t.capacity
        slot_before x lt near at =
            let (y, le, is) = slot-Hole in
            slots_ne j y x t.capacity (omega arith) near (sym is ∙ at)

        pub count_kept : u.count ≡ t.count
        count_kept = ground (
          arith,
          ins.count_is,
          slot_is,
          slot_free,
          core'.counted,
          mv.core.counted,
          mv.core.tally idx,
          is_held,
          length-remove idx l,
        )

        -- The round leads to the state before the next round.
        pub moved : suc a < e → Moving u m j (suc a) e
        moved more = record {
          core = ins.core;
          room = ground (arith, mv.room, count_kept, capacity_is);
          ahead = more;
          near = ground (arith, mv.near, capacity_is);
          open_paths = moved-Open;
          closed = closed_moved more;
          taken = λ x lo hi. rw capacity_is (elim (still_full _ (mv.taken x (omega arith) hi)) [
            | inl kept ↦ kept
            | inr at ↦ absurd (slots_ne j (suc a) x t.capacity lo (omega (arith, mv.near)) (sym at))
          ]);
          stop =
              rw capacity_is (
                ground (arith, key_is ((j + e) % t.capacity), slot_before e more mv.near, mv.stop));
        }

        pub Has-moved : (k' : Bytes) (v : Option V) → Has t k' v → Has u k' v
        Has-moved k' v (s, at, is) = elim (Bool-cases (idx == s)) [
          | inl here ↦
              (slot, ground (arith, key_is slot), ground (arith, ins.writes.val_at slot, slot_is))
          | inr there ↦ (
            s,
            ground (arith, key_is s, slot_free, unlinked.key_at s),
            ground (
              arith,
              ins.writes.val_at s,
              slot_is,
              slot_free,
              unlinked.key_at s,
              unlinked.val_at s,
            ),
          )
        ]

        pub Has-back : (k' : Bytes) (v : Option V) → Has u k' v → Has t k' v
        Has-back k' v (s, at, is) = elim (Bool-cases (slot == s)) [
          | inl here ↦ (idx, ground (arith, key_is s), ground (arith, ins.writes.val_at s, slot_is))
          | inr there ↦ (
            s,
            ground (arith, key_is s),
            ground (arith, ins.writes.val_at s, slot_is, key_is s, unlinked.val_at s),
          )
        ]

        thresh_is : u.over_thresh ≡ t.over_thresh
        thresh_is = ins.writes.same_thresh ∙ unlinked.same_thresh

        Round-from :
            suc a < e
            → ent_unlink t idx ≡ some (cut t idx)
            → hash_insert (cut t idx) k (t.tab idx).val ≡ some (u, prev)
            → Round t u idx k m j a e
        Round-from more cutting inserting = record {
          held = held;
          unlinks = (cut t idx, prev, cutting, inserting);
          moving = moved more;
          same_count = count_kept;
          same_capacity = capacity_is;
          same_thresh = thresh_is;
          has = Has-moved;
          back = Has-back;
        }

      room' : (cut t idx).count < (cut t idx).capacity
      room' = ground (
        arith,
        unlinked.same_capacity,
        core'.counted,
        mv.core.counted,
        mv.room,
        mv.core.tally idx,
        is_held,
        length-remove idx l,
      )

      -- A round at an entry of the run succeeds.
      pub round : suc a < e → (u : HashTab V) × (m : List ℕ) × Round t u idx k m j a e
      round more =
          let (d, u, prev, m, done, ins) =
            hash_insert-Inserts (cut t idx) k (t.tab idx).val (remove idx l) core' room'
              (λ s h. absurd (gone s h)) in
          (u, m, Round-from d u prev m ins more (ent_unlink-cut t idx l mv.core is_held) done)
