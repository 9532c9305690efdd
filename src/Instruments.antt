-- ===== src/Instruments.antt =====
-- c-src/main/instrument-handler.c and instrument-handler.h: the instruments of the user, which are put
-- into loaded classes at once and wait in a queue otherwise. Here are its context, the answers of the
-- JVM and of the allocator, and the steps that its functions are made of. A step that reads through
-- NULL, reads the wrong member of a union, or fails an assertion has no result. What the code passes
-- to the JVM is recorded.
pub mod Apply
pub mod Deferred
pub mod Remove
pub mod Handle
pub mod Reapply
pub mod Ensures
pub mod Sound
pub mod Steps
pub mod Classes
pub mod Applying
pub mod Queue
pub mod Waiting
pub mod Stays
pub mod Settled
pub mod Settling
pub mod Loading
pub mod Adding
pub mod Dropping
pub mod Removing
pub mod Reapplying
pub mod LineExit
pub mod Lines
pub mod Loaded
pub mod Tests
use jauto_profiler_mcp.Prelude.{
  if◌then◌else◌, ℕ, ◌+◌, Bool, true, false, List, [], ◌∷◌, ◌++◌, Option, none, some,
}
use jauto_profiler_mcp.HashTab.{Bytes}
use jauto_profiler_mcp.ErrLog
use jauto_profiler_mcp.ErrLog.{ErrLog}
use jauto_profiler_mcp.ClassInfo.{
  ClassInfo, ClassInfoList, ClassInstrumentParams, class_instrument_params_alloc,
  ci_list_find_by_name, ci_clear_instruments, write,
}
use jauto_profiler_mcp.Queued.{QueuedInstrList}
use jauto_profiler_mcp.MasterInstruments.{
  MiEntry, MasterInstruments, Mark, mi_find, mi_remove, mi_mark_applied,
}

-- `struct instr_ctx`, without `pending`, which is set only while a class is transformed
pub record InstrCtx : Type 0 where
  pub loaded_classes : ClassInfoList
  pub queued_instruments : QueuedInstrList
  pub master_instruments : MasterInstruments

-- `struct pending_instrument`; a `profiler_id` of -1 is `none`
pub record PendingInstrument : Type 0 where
  pub class_name : Bytes
  pub method_sig : Option Bytes
  pub bytecode : Bytes
  pub profiler_id : Option ℕ

-- what was asked of the JVM
pub data JvmCall : Type 0 where
  create_profiler : (instrument_id : ℕ) (id : Option ℕ) → JvmCall
  remove_profiler : (id : ℕ) → JvmCall
  retransform_class : (loader : Option ℕ) (pending : PendingInstrument) → JvmCall

-- The answers of the JVM and the system, each at its turn; a profiler's id of -1 is `none`. `cleared`
-- says whether the small arrays of a class that loses its instruments can be allocated, and `freed`
-- whether a read of memory that was freed does no harm.
pub record Jvm : Type 0 where
  pub malloc : ℕ → Bool
  pub create : ℕ → Option ℕ
  pub remove : ℕ → Bool
  pub bytecode : ℕ → ClassInstrumentParams → Option Bytes
  pub retransform : ℕ → Bool
  pub now : ℕ → ℕ
  pub message : ℕ → Option (List ℕ)
  pub cleared : ℕ → Bool
  pub freed : ℕ → Bool

pub record Session : Type 0 where
  pub ctx : InstrCtx
  pub err_log : ErrLog
  pub turn : ℕ
  pub calls : List JvmCall

abbrev pub Action : Type 0 → Type 0
Action A = Session → Option (A × Session)

module _ {A : Type 0} where
  abbrev pub pure : A → Action A
  pure a s = some (a, s)

  abbrev pub crash : Action A
  crash s = none

  abbrev pub gets : (Session → A) → Action A
  gets f s = some (f s, s)

  -- reading through a pointer
  abbrev pub deref : Option A → Action A
  deref none s = none
  deref (some a) s = some (a, s)

infixl 5 ◌>>=◌ ◌>>◌
abbrev pub ◌>>=◌ : {A B : Type 0} → Action A → (A → Action B) → Action B
◌>>=◌ m f s = elim (m s) [ none ↦ none | some (a, s') ↦ f a s' ]

abbrev pub ◌>>◌ : {B : Type 0} → Action (Unit {0}) → Action B → Action B
m >> k = m >>= λ _. k

abbrev pub modify : (Session → Session) → Action (Unit {0})
modify f s = some (tt, f s)

abbrev pub when : Bool → Action (Unit {0}) → Action (Unit {0})
when true m = m
when false m = pure tt

-- the state of the context
abbrev pub set_ctx : (InstrCtx → InstrCtx) → Action (Unit {0})
set_ctx f = modify (λ s. record s { ctx = f s.ctx })

abbrev pub set_queue : QueuedInstrList → Action (Unit {0})
set_queue q = set_ctx (λ c. record c { queued_instruments = q })

abbrev pub set_registry : MasterInstruments → Action (Unit {0})
set_registry mi = set_ctx (λ c. record c { master_instruments = mi })

abbrev pub class_of : Session → ℕ → ClassInfo
class_of s ci = s.ctx.loaded_classes.store ci

-- writing to the class at an address
abbrev pub put_class : ℕ → ClassInfo → Action (Unit {0})
put_class ci c = set_ctx (λ x. record x {
  loaded_classes = record x.loaded_classes { store = write x.loaded_classes.store ci c };
})

-- `mi_remove`, `mi_find`, the marks and `ci_list_find_by_name` on the context
unfoldable pub remove_instrument : ℕ → Action (Unit {0})
remove_instrument id = do
  mi ← gets (λ s. s.ctx.master_instruments)
  mi' ← deref (mi_remove mi id)
  set_registry mi'

unfoldable pub find_instrument : ℕ → Action (Option MiEntry)
find_instrument id = gets (λ s. mi_find s.ctx.master_instruments id)

unfoldable pub mark_applied : Mark → ℕ → Action (Unit {0})
mark_applied mark id =
    set_ctx
      (λ c. record c { master_instruments = (mi_mark_applied mark c.master_instruments id).0 })

unfoldable pub find_class : Bytes → Action (Option ℕ)
find_class name = gets (λ s. ci_list_find_by_name s.ctx.loaded_classes name)

abbrev pub called : JvmCall → Session → Session
called c s = record s { turn = s.turn + 1; calls = s.calls ++ c ∷ [] }

module _ (jvm : Jvm) where
  -- whether the next allocation succeeds
  unfoldable pub malloc : Action Bool
  malloc s = some (jvm.malloc s.turn, record s { turn = s.turn + 1 })

  -- `jni_create_profiler` and `jni_create_line_profiler`
  unfoldable pub jni_create_profiler : ℕ → Action (Option ℕ)
  jni_create_profiler instrument_id s =
      some (jvm.create s.turn, called (create_profiler instrument_id (jvm.create s.turn)) s)

  -- `jni_remove_profiler`
  unfoldable pub jni_remove_profiler : ℕ → Action Bool
  jni_remove_profiler id s = some (jvm.remove s.turn, called (remove_profiler id) s)

  -- `bc_instrument_method`
  unfoldable pub bc_instrument_method : ClassInstrumentParams → Action (Option Bytes)
  bc_instrument_method params s = some (jvm.bytecode s.turn params, record s { turn = s.turn + 1 })

  -- `prof_err_log_printf`; the message is made by the system
  unfoldable pub prof_err_log_printf : Action (Unit {0})
  prof_err_log_printf s = some (
    tt,
    record s {
      err_log = ErrLog.push s.err_log (jvm.now s.turn) (jvm.message s.turn);
      turn = s.turn + 1;
    },
  )

  -- reading the members of an entry that was freed, which is undefined
  unfoldable pub read_freed : Action (Unit {0})
  read_freed s = if jvm.freed s.turn then some (tt, record s { turn = s.turn + 1 }) else none

  -- `ci_clear_instruments` on the class at an address
  unfoldable pub clear_instruments : ℕ → Action (Unit {0})
  clear_instruments ci s =
      elim (ci_clear_instruments (jvm.cleared s.turn) (jvm.cleared (s.turn + 1)) (class_of s ci)) [
        | none ↦ none
        | some c ↦ put_class ci c (record s { turn = s.turn + 2 })
      ]

  -- `do_instrumentation`
  unfoldable pub do_instrumentation : ClassInfo → Action (Option Bytes)
  unfolding malloc bc_instrument_method
  do_instrumentation ci = do
    methods_ok ← malloc
    lines_ok ← malloc
    elim (class_instrument_params_alloc methods_ok lines_ok ci) [
      | none ↦ pure none
      | some params ↦ bc_instrument_method params
    ]

  -- `retransform_pending`, whether it returns 0
  unfoldable pub retransform_pending :
      Bytes → Option ℕ → Option Bytes → Bytes → Option ℕ → Action Bool
  retransform_pending class_name loader method_sig new_bc profiler_id s = some (
    jvm.retransform s.turn,
    called
        (retransform_class loader (record {
          class_name = class_name;
          method_sig = method_sig;
          bytecode = new_bc;
          profiler_id = profiler_id;
        }))
        s,
  )
