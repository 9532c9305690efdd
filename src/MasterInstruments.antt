-- ===== src/MasterInstruments.antt =====
-- c-src/main/master-instruments.c and master-instruments.h: the registry of instruments by id, over
-- the table of hash-tab.c. The key of an id is its 8 bytes, low byte first. A string is the list of
-- its bytes; `Memory` says whether the entry with its strings, the key and a larger table can be
-- allocated. Ids are `uint64_t`; the wrap of the counter after 2 ^ 64 instruments is written out.
-- An entry is changed in its slot of the table, which the pointer to it stands for.
pub mod Keys
pub mod Registry
pub mod Marks
mod Tests
use jauto_profiler_mcp.Prelude.{
  ℕ, zero, suc, ◌+◌, ◌*◌, ◌/◌, ◌%◌, ◌^◌, Bool, true, false, not, ◌&&◌, ◌||◌, List, [], ◌∷◌, Option,
  none, some, ◌>>=◌, if◌then◌else◌,
}
use jauto_profiler_mcp.HashTab.Assign.{assign}
use jauto_profiler_mcp.HashTab.{
  ent_lookup, hash_tab_entries, hash_tab_size, hash_tab_itr_init, Bytes, HashTab, keycmp,
  hash_tab_add, hash_tab_remove, hash_tab_lookup, hash_tab_init,
}

-- `struct mi_entry` and `enum mi_type`
pub data MiEntry : Type 0 where
  mi_method : (entry_class_name method_name : Bytes) (deferred : Bool) → MiEntry
  mi_line :
      (entry_class_name exit_class_name : Bytes) (entry_line_number exit_line_number : ℕ)
      (entry_deferred exit_deferred : Bool)
      → MiEntry
  mi_var_bind : (entry_class_name var_name : Bytes) (line_number : ℕ) (deferred : Bool) → MiEntry

-- `mi_line_is_ready`
unfoldable pub mi_line_is_ready : Bool → Bool → Bool
mi_line_is_ready entry_deferred exit_deferred = not entry_deferred && not exit_deferred

-- `mi_type_is_user_visible`
unfoldable pub mi_type_is_user_visible : MiEntry → Bool
mi_type_is_user_visible (mi_method c m d) = true
mi_type_is_user_visible (mi_line c x a b d e) = true
mi_type_is_user_visible (mi_var_bind c v l d) = false

-- `struct master_instruments`
pub record MasterInstruments : Type 0 where
  pub tab : HashTab MiEntry
  pub next_id : ℕ

-- the bytes of an id in memory
pub id_key : ℕ → Bytes
id_key id =
    id % 256
    ∷ id / 2 ^ 8 % 256
    ∷ id / 2 ^ 16 % 256
    ∷ id / 2 ^ 24 % 256
    ∷ id / 2 ^ 32 % 256
    ∷ id / 2 ^ 40 % 256
    ∷ id / 2 ^ 48 % 256
    ∷ id / 2 ^ 56 % 256
    ∷ []

-- `mi_id_hash`: the low 32 bits of the id; other keys do not occur
pub mi_id_hash : Bytes → ℕ
mi_id_hash (a ∷ b ∷ c ∷ d ∷ rest) = a + b * 2 ^ 8 + c * 2 ^ 16 + d * 2 ^ 24
mi_id_hash other = 0

-- whether the allocations of an operation succeed: the entry with its strings, the key, the table
pub record Memory : Type 0 where
  pub entry_ok : Bool
  pub key_ok : Bool
  pub tab_ok : Bool

-- `mi_insert`: the registry and the id, 0 on failure
pub mi_insert : Memory → MasterInstruments → MiEntry → Option (MasterInstruments × ℕ)
mi_insert mem mi e = do
  r ← hash_tab_add mem.key_ok mem.tab_ok mi.tab (id_key mi.next_id) (some e)
  elim r.1 [
    | false ↦ some (record mi { tab = r.0 }, 0)
    | true ↦ some (record { tab = r.0; next_id = (mi.next_id + 1) % 2 ^ 64 }, mi.next_id)
  ]

-- the entry is made if its strings can be allocated
pub add_entry : Memory → MasterInstruments → MiEntry → Option (MasterInstruments × ℕ)
unfolding mi_insert
add_entry mem mi e = if mem.entry_ok then mi_insert mem mi e else some (mi, 0)

-- `mi_add_method`
unfoldable pub mi_add_method :
    Memory → MasterInstruments → Bytes → Bytes → Option (MasterInstruments × ℕ)
mi_add_method mem mi entry_class method_name =
    add_entry mem mi (mi_method entry_class method_name true)

-- `mi_add_line` and `mi_add_linep`
unfoldable pub mi_add_line :
    Memory → MasterInstruments → Bytes → Bytes → ℕ → ℕ → Option (MasterInstruments × ℕ)
mi_add_line mem mi entry_class exit_class entry_line exit_line =
    add_entry mem mi (mi_line entry_class exit_class entry_line exit_line true true)

-- `mi_add_var_bind`
pub mi_add_var_bind :
    Memory → MasterInstruments → Bytes → Bytes → ℕ → Option (MasterInstruments × ℕ)
mi_add_var_bind mem mi class_name var_name line_number =
    add_entry mem mi (mi_var_bind class_name var_name line_number true)

-- `mi_remove`
pub mi_remove : MasterInstruments → ℕ → Option MasterInstruments
mi_remove mi id = do r ← hash_tab_remove mi.tab (id_key id); some (record mi { tab = r.0 })

-- `mi_find`
unfoldable pub mi_find : MasterInstruments → ℕ → Option MiEntry
mi_find mi id = hash_tab_lookup mi.tab (id_key id)

-- the four ways to mark an entry, one for each function
pub data Mark : Type 0 where
  method_mark line_entry_mark line_exit_mark var_bind_mark : Mark

-- the entry with its flag cleared, where its type is the right one
unfoldable pub marked : Mark → MiEntry → Option MiEntry
marked method_mark (mi_method c m d) = some (mi_method c m false)
marked line_entry_mark (mi_line c x a b d e) = some (mi_line c x a b false e)
marked line_exit_mark (mi_line c x a b d e) = some (mi_line c x a b d false)
marked var_bind_mark (mi_var_bind c v l d) = some (mi_var_bind c v l false)
marked mark e = none

-- `mi_mark_method_applied`, `mi_mark_line_entry_applied`, `mi_mark_line_exit_applied` and
-- `mi_mark_var_bind_applied`: the registry, and whether 0 was returned
unfoldable pub mi_mark_applied : Mark → MasterInstruments → ℕ → MasterInstruments × Bool
unfolding marked
mi_mark_applied mark mi id = elim (ent_lookup mi.tab (id_key id)) [
  | none ↦ (mi, false)
  | some i ↦ elim (mi.tab.tab i).val [
    | none ↦ (mi, false)
    | some e ↦ elim (marked mark e) [
      | none ↦ (mi, false)
      | some e' ↦ (record mi { tab = assign mi.tab i (some e') }, true)
    ]
  ]
]

-- the id in the bytes of a key
unfoldable pub key_id : Bytes → ℕ
key_id [] = 0
key_id (b ∷ bs) = b + 256 * key_id bs

-- what repeated calls of `mi_iterate` give until the entry is NULL
unfoldable pub ids_of : List (Option Bytes × Option MiEntry) → List (ℕ × MiEntry)
unfolding key_id
ids_of ((some key, some e) ∷ es) = (key_id key, e) ∷ ids_of es
ids_of es = []

-- `while ((r = mi_iterate(mi, &itr)).entry != NULL)` after `mi_itr_init`
unfoldable pub mi_entries : MasterInstruments → List (ℕ × MiEntry)
unfolding ids_of
mi_entries mi =
    ids_of (hash_tab_entries (suc (hash_tab_size mi.tab)) mi.tab (hash_tab_itr_init mi.tab))

-- whether an entry is the method, as `mi_find_method_by_name` tests it
unfoldable pub is_named : Bytes → Bytes → MiEntry → Bool
is_named class_name method_sig (mi_method c m d) = keycmp c class_name && keycmp m method_sig
is_named class_name method_sig (mi_line c x a b d e) = false
is_named class_name method_sig (mi_var_bind c v l d) = false

-- the loop of `mi_find_method_by_name`
unfoldable pub find_named : Bytes → Bytes → List (ℕ × MiEntry) → Option (ℕ × MiEntry)
unfolding is_named
find_named class_name method_sig [] = none
find_named class_name method_sig ((id, e) ∷ rs) =
    let rest = find_named class_name method_sig rs in
    if is_named class_name method_sig e then some (id, e) else rest

-- `mi_find_method_by_name`
unfoldable pub mi_find_method_by_name : MasterInstruments → Bytes → Bytes → Option (ℕ × MiEntry)
unfolding mi_entries find_named
mi_find_method_by_name mi class_name method_sig = find_named class_name method_sig (mi_entries mi)
