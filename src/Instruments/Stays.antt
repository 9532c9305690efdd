-- ===== src/Instruments/Stays.antt =====
-- instrument-handler.c: what holds of the registry after a step that has a result, whatever the classes
-- are.
use jauto_profiler_mcp.Prelude.{ℕ, ◌+◌, Bool, true, false, Option, none, some, if◌then◌else◌}
use jauto_profiler_mcp.HashTab.{Bytes}
use jauto_profiler_mcp.ClassInfo.{
  ClassInfo, instrument_enter, instrument_exit, instrumented_method_list_add_and_init, write,
  ci_add_instrumented_line, ci_remove_instrumented_line, ci_remove_instrumented_by_sig,
  class_instrument_params_alloc,
}
use jauto_profiler_mcp.MasterInstruments.{
  MiEntry, MasterInstruments, mi_method, mi_line, mi_var_bind,
}
use jauto_profiler_mcp.Instruments.{
  Jvm, Session, Action, pure, deref, ◌>>=◌, ◌>>◌, put_class, class_of, malloc, jni_remove_profiler,
  bc_instrument_method, prof_err_log_printf, read_freed, do_instrumentation, retransform_pending,
}
use jauto_profiler_mcp.Instruments.Apply.{
  remove_line, remove_by_sig, drop_last_method, populate_class_info, populate_class_info_line,
}

-- If there is a result, the registry has the property.
abbrev pub After : {A : Type 0} → (MasterInstruments → Type 0) → Option (A × Session) → Type 0
After R none = Unit {0}
After R (some (a, s)) = R s.ctx.master_instruments

abbrev pub Leads : (R R' : MasterInstruments → Type 0) → {A : Type 0} → Action A → Type 0
Leads R R' m = (s : Session) → R s.ctx.master_instruments → After R' (m s)

module _ (R R' R'' : MasterInstruments → Type 0) where
  pub Leads-bind :
      {A B : Type 0} (m : Action A) (f : A → Action B)
      → Leads R R' m
      → ((a : A) → Leads R' R'' (f a))
      → Leads R R'' (m >>= f)
  Leads-bind {A} {B} m f h k s r = goes (m s) (h s r)
    where
      goes :
          (x : Option (A × Session))
          → After R' x
          → After R''
              (elim x as (λ _. Option (B × Session)) [ none ↦ none | some (a, s') ↦ f a s' ])
      goes none r' = tt
      goes (some (a, s')) r' = k a s' r'

module _ (R R' : MasterInstruments → Type 0) where
  pub Leads-if :
      {A : Type 0} (b : Bool) (m n : Action A)
      → Leads R R' m
      → Leads R R' n
      → Leads R R' (if b then m else n)
  Leads-if true m n h k = h
  Leads-if false m n h k = k

  pub Leads-option :
      {A B : Type 0} (o : Option A) (m : Action B) (f : A → Action B)
      → Leads R R' m
      → ((a : A) → Leads R R' (f a))
      → Leads R R' (elim o [ none ↦ m | some a ↦ f a ])
  Leads-option none m f h k = h
  Leads-option (some a) m f h k = k a

  pub Leads-deref :
      {A B : Type 0} (o : Option A) (f : A → Action B)
      → ((a : A) → Leads R R' (f a))
      → Leads R R' (deref o >>= f)
  Leads-deref none f k s r = tt
  Leads-deref (some a) f k s r = k a s r

-- The steps on the JVM and the classes leave the registry alone.
module _ (R : MasterInstruments → Type 0) (jvm : Jvm) where
  pub stays_malloc : Leads R R (malloc jvm)
  unfolding malloc
  stays_malloc s r = r

  pub stays_remove_profiler : (p : ℕ) → Leads R R (jni_remove_profiler jvm p)
  unfolding jni_remove_profiler
  stays_remove_profiler p s r = r

  pub stays_printf : Leads R R (prof_err_log_printf jvm)
  unfolding prof_err_log_printf
  stays_printf s r = r

  pub stays_read_freed : Leads R R (read_freed jvm)
  unfolding read_freed
  stays_read_freed s r = read (jvm.freed s.turn)
    where
      read : (b : Bool) → After R (if b then some (tt, record s { turn = s.turn + 1 }) else none)
      read true = r
      read false = tt

  pub stays_retransform :
      (name : Bytes) (loader : Option ℕ) (sig : Option Bytes) (bc : Bytes) (p : Option ℕ)
      → Leads R R (retransform_pending jvm name loader sig bc p)
  unfolding retransform_pending
  stays_retransform name loader sig bc p s r = r

  pub stays_do_instrumentation : (c : ClassInfo) → Leads R R (do_instrumentation jvm c)
  unfolding do_instrumentation bc_instrument_method
  stays_do_instrumentation c = Leads-bind R R R (malloc jvm) _ stays_malloc (λ a.
      Leads-bind R R R (malloc jvm) _ stays_malloc (λ b.
        Leads-option R R (class_instrument_params_alloc a b c) (pure none)
          (bc_instrument_method jvm) (λ s r. r) (λ p s r. r)))

  pub stays_remove_line : (ci l : ℕ) → Leads R R (remove_line ci l)
  unfolding remove_line
  stays_remove_line ci l s r =
      Leads-deref R R (ci_remove_instrumented_line (class_of s ci) l)
        (λ a. put_class ci a.0 >> pure a.1) (λ a s r. r) s r

  pub stays_remove_by_sig : (ci : ℕ) (m : Bytes) → Leads R R (remove_by_sig ci m)
  unfolding remove_by_sig
  stays_remove_by_sig ci m s r =
      Leads-deref R R (ci_remove_instrumented_by_sig (class_of s ci) m)
        (λ a. put_class ci a.0 >> pure a.1) (λ a s r. r) s r

  pub stays_populate :
      (ci : ℕ) (e : MiEntry) (p id : ℕ) → Leads R R (populate_class_info jvm ci e p id)
  unfolding populate_class_info drop_last_method
  stays_populate ci (mi_line c x a b d e) p id = λ s r. tt
  stays_populate ci (mi_var_bind c v l d) p id = λ s r. tt
  stays_populate ci (mi_method c m d) p id =
      Leads-bind R R R (malloc jvm) _ stays_malloc (λ grow_ok s.
        Leads-option R R
          (instrumented_method_list_add_and_init grow_ok (class_of s ci).instrumented m p id)
          (pure false)
          (λ l.
            put_class ci (record (class_of s ci) { instrumented = l })
            >> (malloc jvm >>= λ sig_ok.
                if sig_ok then pure true else (drop_last_method ci >> pure false)))
          (λ s r. r)
          (λ l s1 r.
            Leads-bind R R R (malloc jvm) _ stays_malloc
              (λ sig_ok.
                Leads-if R R sig_ok (pure true) (drop_last_method ci >> pure false) (λ s r. r)
                  (λ s r. r))
              (record s1 {
                ctx = record s1.ctx {
                  loaded_classes = record s1.ctx.loaded_classes {
                    store =
                        write s1.ctx.loaded_classes.store ci
                          (record (class_of s ci) { instrumented = l });
                  };
                };
              })
              r)
          s)

  -- the exit of a line, in `populate_class_info_line`
  abbrev exit_line : (ci ci' b a p id : ℕ) → Bool → Action Bool
  exit_line ci ci' b a p id exit_ok s =
      (elim (ci_add_instrumented_line exit_ok (class_of s ci') b p id instrument_exit)
          as (λ _. Action Bool) [
            | none ↦ remove_line ci a >>= λ u. pure false
            | some x' ↦ put_class ci' x' >> pure true
          ])
        s

  exit_line_stays :
      (ci ci' b a p id : ℕ) (exit_ok : Bool) → Leads R R (exit_line ci ci' b a p id exit_ok)
  exit_line_stays ci ci' b a p id exit_ok s =
      Leads-option R R (ci_add_instrumented_line exit_ok (class_of s ci') b p id instrument_exit)
        (remove_line ci a >>= λ u. pure false) (λ x'. put_class ci' x' >> pure true)
        (Leads-bind R R R (remove_line ci a) (λ u. pure false) (stays_remove_line ci a)
          (λ u s r. r))
        (λ l s r. r) s

  pub stays_populate_line :
      (ci ci' : ℕ) (e : MiEntry) (p id : ℕ) → Leads R R (populate_class_info_line jvm ci ci' e p id)
  unfolding populate_class_info_line
  stays_populate_line ci ci' (mi_method c m d) p id = λ s r. tt
  stays_populate_line ci ci' (mi_var_bind c v l d) p id = λ s r. tt
  stays_populate_line ci ci' (mi_line c x a b d e) p id =
      Leads-bind R R R (malloc jvm) _ stays_malloc (λ entry_ok s.
        Leads-option R R (ci_add_instrumented_line entry_ok (class_of s ci) a p id instrument_enter)
          (pure false)
          (λ l.
            put_class ci l >> (malloc jvm >>= λ exit_ok s'. exit_line ci ci' b a p id exit_ok s'))
          (λ s r. r)
          (λ l s1 r.
            Leads-bind R R R (malloc jvm) (exit_line ci ci' b a p id) stays_malloc
              (exit_line_stays ci ci' b a p id)
              (record s1 {
                ctx = record s1.ctx {
                  loaded_classes = record s1.ctx.loaded_classes {
                    store = write s1.ctx.loaded_classes.store ci l;
                  };
                };
              })
              r)
          s)
