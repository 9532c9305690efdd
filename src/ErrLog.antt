-- ===== src/ErrLog.antt =====
-- c-src/main/prof-err-log.c and prof-err-log.h: the log of asynchronous errors, a ring of 4096
-- entries that overwrites its oldest. The array is a function of the index. `push` takes the time
-- and the message as arguments: `time` and the allocation of a message are the system's, and no
-- message stands for `pstring_from_cstr` or `pstring_vsprintf` returning NULL.
pub mod Contents
pub mod Reads
mod Tests
use jauto_profiler_mcp.Prelude.{
  ℕ, zero, suc, ◌+◌, ◌-◌, ◌%◌, List, [], ◌∷◌, Option, none, some, ltb, ◌==◌, if◌then◌else◌, length,
}

-- PROF_ERR_LOG_CAP
abbrev pub cap : ℕ
cap = 4096

-- `struct prof_err_entry`; the message is a `pstring` or NULL
pub record ErrEntry : Type 0 where
  pub timestamp : ℕ
  pub msg : Option (List ℕ)

-- `struct prof_err_log`
pub record ErrLog : Type 0 where
  pub entries : ℕ → ErrEntry
  pub next : ℕ
  pub count : ℕ

-- `struct prof_err_log_size`
pub record ErrLogSize : Type 0 where
  pub string_size : ℕ
  pub count : ℕ
  pub overhead_size : ℕ

abbrev pub blank : ErrEntry
blank = record { timestamp = 0; msg = none }

-- `prof_err_log_start`
unfoldable pub start : ErrLog → ℕ
start log = (log.next + cap - log.count) % cap

-- `prof_err_log_init`, over the entries that the memory held; timestamps are left as they were
pub init : (ℕ → ErrEntry) → ErrLog
init old = record { entries = λ i. record (old i) { msg = none }; next = 0; count = 0 }

abbrev pub store : (ℕ → ErrEntry) → ℕ → ErrEntry → ℕ → ErrEntry
store f i e j = if i == j then e else f j

-- `do_push` at time `now`
pub do_push : ErrLog → ℕ → List ℕ → ErrLog
do_push log now msg = record {
  entries = store log.entries log.next (record { timestamp = now; msg = some msg });
  next = (log.next + 1) % cap;
  count = if ltb log.count cap then log.count + 1 else log.count;
}

-- `prof_err_log_push` and `prof_err_log_printf`: without a message nothing is logged
pub push : ErrLog → ℕ → Option (List ℕ) → ErrLog
push log now none = log
push log now (some msg) = do_push log now msg

-- one round of the loop of `prof_err_log_size`; `sizeof(struct pstring)` is 2 and a timestamp is
-- 8 bytes. Reading `e->msg->size` of a NULL message is a fault, `none`.
abbrev pub add_size : ErrLogSize → ErrEntry → Option ErrLogSize
add_size s e = elim e.msg [
  | none ↦ none
  | some m ↦ some (record {
    string_size = s.string_size + length m;
    count = s.count + 1;
    overhead_size = s.overhead_size + (2 + length m) + 8;
  })
]

-- the loop, with `n` rounds left from round `i`
unfoldable pub size_from : ErrLog → ErrLogSize → ℕ → ℕ → Option ErrLogSize
size_from log s i zero = some s
size_from log s i (suc n) = elim (add_size s (log.entries ((start log + i) % cap))) [
  | none ↦ none
  | some s' ↦ size_from log s' (i + 1) n
]

-- `prof_err_log_size`
unfoldable pub log_size : ErrLog → Option ErrLogSize
log_size log = size_from log (record { string_size = 0; count = 0; overhead_size = 0 }) 0 log.count

-- `prof_err_log_iterate`: the entry and the new value of `itr->i`
unfoldable pub iterate : ErrLog → ℕ → Option ErrEntry × ℕ
iterate log i =
    if ltb i log.count then (some (log.entries ((start log + i) % cap)), i + 1) else (none, i)

-- `while ((e = prof_err_log_iterate(&itr, log)) != NULL)` from position `i`, on fuel
unfoldable pub drain : ℕ → ErrLog → ℕ → List ErrEntry
drain zero log i = []
drain (suc f) log i =
    let (e, j) = iterate log i in elim e [ none ↦ [] | some x ↦ x ∷ drain f log j ]
