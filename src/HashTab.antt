-- ===== src/HashTab.antt =====
-- c-src/main/util/hash-tab.c: an open-addressing hash table with linear probing whose occupied
-- entries are also threaded on a doubly linked list. The array of entries is a function of the
-- index, and a pointer to an entry is its index. A `void *` value is an option, `none` for NULL; a
-- key is its bytes, so `key_len` is their number. `none` as the result of an operation is a failed
-- `assert`. An allocation takes a Boolean that says whether it succeeds.
-- `thresh` enters by the test that it is used for, `(float)cnext / (float)capacity >= thresh`.
-- Indices are `int` in the source: a table of 2 ^ 31 entries would take 96 GB, and wrapping past
-- that size is not modelled.
pub mod Assign
pub mod Probe
pub mod Search
pub mod Order
pub mod Links
pub mod Room
pub mod Insert
pub mod Valid
pub mod Update
pub mod View
pub mod Put
pub mod Copy
pub mod Rehash
pub mod Cluster
pub mod Move
pub mod Begin
pub mod Remove
pub mod Delete
pub mod Map
pub mod Iterate
mod Tests
use jauto_profiler_mcp.Prelude.{
  ℕ, zero, suc, ◌+◌, ◌-◌, ◌*◌, ◌%◌, Bool, true, false, not, ◌&&◌, List, [], ◌∷◌, Option, none, some,
  ◌==◌, if◌then◌else◌, ◌>>=◌,
}

abbrev pub Bytes : Type 0
Bytes = List ℕ

-- `struct hash_entry`; a `kv.key` of NULL marks an empty slot
pub record HashEntry (V : Type 0) : Type 0 where
  pub next : Option ℕ
  pub prev : Option ℕ
  pub key : Option Bytes
  pub val : Option V

-- `struct hash_tab`
pub record HashTab (V : Type 0) : Type 0 where
  pub capacity : ℕ
  pub count : ℕ
  pub hash_fn : Bytes → ℕ
  pub over_thresh : ℕ → ℕ → Bool
  pub head : Option ℕ
  pub tab : ℕ → HashEntry V

-- `keycmp(…) == 0`: equal lengths and equal bytes
unfoldable pub keycmp : Bytes → Bytes → Bool
keycmp [] [] = true
keycmp [] (b ∷ bs) = false
keycmp (a ∷ rest) [] = false
keycmp (a ∷ rest) (b ∷ bs) = a == b && keycmp rest bs

-- the pointer `p` is `tab + i`
abbrev pub is_at : Option ℕ → ℕ → Bool
is_at none i = false
is_at (some h) i = h == i

module _ {V : Type 0} where
  abbrev pub put : (ℕ → HashEntry V) → ℕ → HashEntry V → ℕ → HashEntry V
  put t i e j = if i == j then e else t j

  -- a zeroed entry
  abbrev pub blank : HashEntry V
  blank = record { next = none; prev = none; key = none; val = none }

  abbrev pub set_next : (ℕ → HashEntry V) → ℕ → Option ℕ → ℕ → HashEntry V
  set_next t i x = put t i (record (t i) { next = x })

  abbrev pub set_prev : (ℕ → HashEntry V) → ℕ → Option ℕ → ℕ → HashEntry V
  set_prev t i x = put t i (record (t i) { prev = x })

  -- the loop of `hash_insert`, with `n` of its `capacity` rounds left: the first slot that is empty
  -- or holds the key; `none` where the assertion after the loop fails
  pub find_slot : (ℕ → HashEntry V) → ℕ → Bytes → ℕ → ℕ → Option ℕ
  find_slot t cap key zero idx = none
  find_slot t cap key (suc n) idx = elim (t idx).key [
    | none ↦ some idx
    | some k ↦
        let rest = find_slot t cap key n ((idx + 1) % cap) in
        if keycmp k key then some idx else rest
  ]

  -- the branch of `hash_insert` for an empty slot; its assertion is that the old head has no `prev`
  pub link_front : HashTab V → ℕ → Bytes → Option V → Option (HashTab V)
  link_front t idx key val =
      let ent : HashEntry V = record { next = t.head; prev = none; key = some key; val = val } in
      let tab = put t.tab idx ent in
      elim t.head [
        | none ↦ some (record t { head = some idx; tab = tab; count = t.count + 1 })
        | some h ↦ elim (tab h).prev [
          | none ↦
              some
                (record t { head = some idx; tab = set_prev tab h (some idx); count = t.count + 1 })
          | some p ↦ none
        ]
      ]

  -- the branch of `hash_insert` for a slot that holds the key: the entry keeps its links
  pub replace_at : HashTab V → ℕ → Bytes → Option V → HashTab V
  replace_at t idx key val = record t {
    tab = put t.tab idx (record (t.tab idx) { key = some key; val = val });
  }

  -- the two branches of `hash_insert` at the slot found
  pub insert_at : HashTab V → Bytes → Option V → ℕ → Option (HashTab V × Option V)
  unfolding link_front replace_at
  insert_at t key val idx = elim (t.tab idx).key [
    | none ↦ do t' ← link_front t idx key val; some (t', none)
    | some k ↦ some (replace_at t idx key val, (t.tab idx).val)
  ]

  -- `hash_insert`: the new table and the value that is replaced
  pub hash_insert : HashTab V → Bytes → Option V → Option (HashTab V × Option V)
  unfolding find_slot insert_at
  hash_insert t key val = do
    idx ← find_slot t.tab t.capacity key t.capacity (t.hash_fn key % t.capacity)
    insert_at t key val idx

  -- `ent_unlink` at an occupied entry, so `count -= 1` does not wrap
  pub ent_unlink : HashTab V → ℕ → Option (HashTab V)
  ent_unlink t i =
      let ent = t.tab i in
      let tab = put t.tab i (record ent { key = none; val = none }) in
      elim (is_at t.head i) [
        | true ↦ some (record t {
          head = ent.next;
          tab = elim ent.next [ none ↦ tab | some h ↦ set_prev tab h none ];
          count = t.count - 1;
        })
        | false ↦ elim ent.prev [
          | none ↦ none
          | some p ↦
              let tab' = set_next tab p ent.next in
              some (record t {
                tab = elim ent.next [ none ↦ tab' | some n ↦ set_prev tab' n (some p) ];
                count = t.count - 1;
              })
        ]
      ]

  -- the loop of `rehash`, which reads the old array and inserts into the new table; a listed entry
  -- without a key would be a fault, and so is a list that is longer than the fuel
  pub copy_entries : ℕ → (ℕ → HashEntry V) → Option ℕ → HashTab V → Option (HashTab V)
  copy_entries f old none t = some t
  copy_entries zero old (some i) t = none
  copy_entries (suc f) old (some i) t = do
    key ← (old i).key
    (t', prev) ← hash_insert t key (old i).val
    copy_entries f old (old i).next t'

  -- `rehash`, and whether it succeeded; `count` rounds are enough for the loop
  pub rehash : Bool → HashTab V → Option (HashTab V × Bool)
  unfolding copy_entries hash_insert
  rehash alloc_ok t = elim alloc_ok [
    | false ↦ some (t, false)
    | true ↦ do
      t' ←
          copy_entries t.count t.tab t.head
            (record t { tab = λ i. blank; head = none; count = 0; capacity = t.capacity * 2 })
      some (t', true)
  ]

  -- `need_rehash`
  pub need_rehash : HashTab V → Bool
  need_rehash t = t.over_thresh (t.count + 1) t.capacity

  -- the loop of `ent_lookup`, with `n` of its rounds left
  pub lookup_from : (ℕ → HashEntry V) → ℕ → Bytes → ℕ → ℕ → Option ℕ
  lookup_from t cap key zero idx = none
  lookup_from t cap key (suc n) idx = elim (t idx).key [
    | none ↦ none
    | some k ↦
        let rest = lookup_from t cap key n ((idx + 1) % cap) in
        if keycmp k key then some idx else rest
  ]

  -- `ent_lookup`
  unfoldable pub ent_lookup : HashTab V → Bytes → Option ℕ
  unfolding lookup_from
  ent_lookup t key = lookup_from t.tab t.capacity key t.capacity (t.hash_fn key % t.capacity)

  -- `hash_tab_lookup`
  unfoldable pub hash_tab_lookup : HashTab V → Bytes → Option V
  unfolding ent_lookup
  hash_tab_lookup t key = elim (ent_lookup t key) [ none ↦ none | some i ↦ (t.tab i).val ]

  -- the loop of `hash_tab_remove` that moves the entries behind the removed one, with `n` of its
  -- rounds left
  pub reinsert : ℕ → ℕ → HashTab V → Option (HashTab V)
  reinsert zero idx t = some t
  reinsert (suc n) idx t = elim (t.tab idx).key [
    | none ↦ some t
    | some key ↦ do
      u ← ent_unlink t idx
      (t', prev) ← hash_insert u key (t.tab idx).val
      reinsert n ((idx + 1) % t.capacity) t'
  ]

  -- `hash_tab_remove`: the new table and the value that was removed
  pub hash_tab_remove : HashTab V → Bytes → Option (HashTab V × Option V)
  unfolding ent_lookup ent_unlink reinsert hash_insert
  hash_tab_remove t key = elim (ent_lookup t key) [
    | none ↦ some (t, none)
    | some i ↦ do
      u ← ent_unlink t i
      t' ← reinsert t.capacity ((i + 1) % t.capacity) u
      some (t', (t.tab i).val)
  ]

  -- `rehash` if the load asks for it
  pub make_room : Bool → HashTab V → Option (HashTab V × Bool)
  unfolding need_rehash rehash
  make_room alloc_ok t = elim (need_rehash t) [ true ↦ rehash alloc_ok t | false ↦ some (t, true) ]

  -- `hash_tab_add`; `key_ok` and `tab_ok` say whether its two allocations succeed. The value is the
  -- new table with `err == 0` and `prev`.
  pub hash_tab_add :
      Bool → Bool → HashTab V → Bytes → Option V → Option (HashTab V × Bool × Option V)
  unfolding make_room hash_insert
  hash_tab_add key_ok tab_ok t key val = elim key_ok [
    | false ↦ some (t, false, none)
    | true ↦ do
      (t', room) ← make_room tab_ok t
      elim room [
        | false ↦ some (t', false, none)
        | true ↦ do (t'', prev) ← hash_insert t' key val; some (t'', true, prev)
      ]
  ]

  -- `hash_tab_size`
  pub hash_tab_size : HashTab V → ℕ
  hash_tab_size t = t.count

  -- `hash_tab_itr_init`
  pub hash_tab_itr_init : HashTab V → Option ℕ
  hash_tab_itr_init t = t.head

  -- `hash_tab_iterate`: the key and value of the next entry, and the new iterator
  pub hash_tab_iterate : HashTab V → Option ℕ → Option (Option Bytes × Option V) × Option ℕ
  hash_tab_iterate t none = (none, none)
  hash_tab_iterate t (some i) = (some ((t.tab i).key, (t.tab i).val), (t.tab i).next)

  -- `while ((kv = hash_tab_iterate(tab, &itr)) != NULL)`, on fuel
  pub hash_tab_entries : ℕ → HashTab V → Option ℕ → List (Option Bytes × Option V)
  unfolding hash_tab_iterate
  hash_tab_entries zero t itr = []
  hash_tab_entries (suc f) t itr =
      let (kv, itr') = hash_tab_iterate t itr in
      elim kv [ none ↦ [] | some e ↦ e ∷ hash_tab_entries f t itr' ]

  -- `hash_tab_init`: `none` where its assertion on `cap` or its allocations fail
  pub hash_tab_init : Bool → ℕ → (Bytes → ℕ) → (ℕ → ℕ → Bool) → Option (HashTab V)
  hash_tab_init alloc_ok cap hash_fn over_thresh =
      if alloc_ok && not (cap == 0)
      then some (record {
        capacity = cap;
        count = 0;
        hash_fn = hash_fn;
        over_thresh = over_thresh;
        head = none;
        tab = λ i. blank;
      })
      else none
