-- ===== src/Instruments/Ensures.antt =====
-- instrument-handler.c: what a step ensures, and the steps that leave the context alone.
use jauto_profiler_mcp.Prelude.{
  ℕ, ◌+◌, ◌≡◌, sym, ap, Bool, true, false, Option, none, some, if◌then◌else◌,
}
use jauto_profiler_mcp.HashTab.{Bytes, hash_tab_lookup}
use jauto_profiler_mcp.ClassInfo.{
  ClassInfo, ClassInfoList, class_instrument_params_alloc, ci_list_find_by_name,
}
use jauto_profiler_mcp.Instruments.{
  InstrCtx, Session, Jvm, Action, pure, gets, ◌>>=◌, ◌>>◌, when, find_class, malloc,
  jni_create_profiler, jni_remove_profiler, bc_instrument_method, prof_err_log_printf, read_freed,
  do_instrumentation, retransform_pending,
}

-- There is a result, and it has the property.
abbrev pub Ensures : {A : Type 0} → (A → Session → Type 0) → Option (A × Session) → Type 0
Ensures Q none = ⊥
Ensures Q (some (a, s)) = Q a s

abbrev continue : {A B : Type 0} → (A → Action B) → Option (A × Session) → Option (B × Session)
continue f none = none
continue f (some (a, s)) = f a s

Ensures-continue :
    {A B : Type 0} (P : A → Session → Type 0) (Q : B → Session → Type 0) (r : Option (A × Session))
    (f : A → Action B)
    → Ensures P r
    → ((a : A) (s : Session) → P a s → Ensures Q (f a s))
    → Ensures Q (elim r [ none ↦ none | some (a, s) ↦ f a s ])
Ensures-continue P Q none f e h = elim e [ ]
Ensures-continue P Q (some (a, s)) f p h = h a s p

pub Ensures-bind :
    {A B : Type 0} (P : A → Session → Type 0) (Q : B → Session → Type 0) (m : Action A)
    (f : A → Action B) (s : Session)
    → Ensures P (m s)
    → ((a : A) (s' : Session) → P a s' → Ensures Q (f a s'))
    → Ensures Q ((m >>= f) s)
Ensures-bind P Q m f s p h = Ensures-continue P Q (m s) f p h

pub Ensures-weaken :
    {A : Type 0} (P Q : A → Session → Type 0) (r : Option (A × Session))
    → Ensures P r
    → ((a : A) (s : Session) → P a s → Q a s)
    → Ensures Q r
Ensures-weaken P Q none e h = elim e [ ]
Ensures-weaken P Q (some (a, s)) p h = h a s p

module _ (I : InstrCtx → Type 0) where
  -- There is a result, and the context still has the property.
  abbrev pub Keeps : {A : Type 0} → Action A → Type 0
  Keeps {A} m = (s : Session) → I s.ctx → Ensures {A = A} (λ a s'. I s'.ctx) (m s)

  pub Keeps-bind :
      {A B : Type 0} (m : Action A) (f : A → Action B)
      → Keeps m
      → ((a : A) → Keeps (f a))
      → Keeps (m >>= f)
  Keeps-bind m f p h s i =
      Ensures-bind (λ a s'. I s'.ctx) (λ b s'. I s'.ctx) m f s (p s i) (λ a s' i'. h a s' i')

  pub Keeps-then :
      {B : Type 0} (m : Action (Unit {0})) (n : Action B) → Keeps m → Keeps n → Keeps (m >> n)
  Keeps-then m n p h s i =
      Ensures-bind (λ a s'. I s'.ctx) (λ b s'. I s'.ctx) m (λ _. n) s (p s i) (λ a s' i'. h s' i')

  pub Keeps-pure : {A : Type 0} (a : A) → Keeps (pure a)
  Keeps-pure a s i = i

  pub Keeps-when : (b : Bool) (m : Action (Unit {0})) → Keeps m → Keeps (when b m)
  Keeps-when true m p = p
  Keeps-when false m p = λ s i. i

  pub Keeps-if :
      {A : Type 0} (b : Bool) (m n : Action A) → Keeps m → Keeps n → Keeps (if b then m else n)
  Keeps-if true m n p h = p
  Keeps-if false m n p h = h

  pub Keeps-option :
      {A B : Type 0} (o : Option A) (m : Action B) (f : A → Action B)
      → Keeps m
      → ((a : A) → Keeps (f a))
      → Keeps (elim o [ none ↦ m | some a ↦ f a ])
  Keeps-option none m f p h = p
  Keeps-option (some a) m f p h = h a

  pub Keeps-gets :
      {A B : Type 0} (g : Session → A) (f : A → Action B)
      → ((a : A) → Keeps (f a))
      → Keeps (gets g >>= f)
  Keeps-gets g f h s i = h (g s) s i

  module _ (jvm : Jvm) where
    pub Keeps-malloc : Keeps (malloc jvm)
    unfolding malloc
    Keeps-malloc s i = i

    pub Keeps-jni_create_profiler : (id : ℕ) → Keeps (jni_create_profiler jvm id)
    unfolding jni_create_profiler
    Keeps-jni_create_profiler id s i = i

    pub Keeps-jni_remove_profiler : (id : ℕ) → Keeps (jni_remove_profiler jvm id)
    unfolding jni_remove_profiler
    Keeps-jni_remove_profiler id s i = i

    pub Keeps-prof_err_log_printf : Keeps (prof_err_log_printf jvm)
    unfolding prof_err_log_printf
    Keeps-prof_err_log_printf s i = i

    -- where reading freed memory does no harm
    pub Keeps-read_freed : ((i : ℕ) → jvm.freed i ≡ true) → Keeps (read_freed jvm)
    unfolding read_freed
    Keeps-read_freed readable s i = rw (readable s.turn) i

    pub Keeps-retransform_pending :
        (name : Bytes) (loader : Option ℕ) (sig : Option Bytes) (bc : Bytes) (p : Option ℕ)
        → Keeps (retransform_pending jvm name loader sig bc p)
    unfolding retransform_pending
    Keeps-retransform_pending name loader sig bc p s i = i

    pub Keeps-do_instrumentation : (c : ClassInfo) → Keeps (do_instrumentation jvm c)
    unfolding do_instrumentation malloc bc_instrument_method
    Keeps-do_instrumentation c s i =
        Keeps-option (class_instrument_params_alloc (jvm.malloc s.turn) (jvm.malloc (s.turn + 1)) c)
          (pure none) (bc_instrument_method jvm) (λ s' i'. i') (λ p s' i'. i') _ i

module _ (I J : InstrCtx → Type 0) where
  -- There is a result, and a context with the one property then has the other.
  abbrev pub Takes : {A : Type 0} → Action A → Type 0
  Takes {A} m = (s : Session) → I s.ctx → Ensures {A = A} (λ a s'. J s'.ctx) (m s)

  pub Takes-bind :
      {A B : Type 0} (m : Action A) (f : A → Action B)
      → Keeps I m
      → ((a : A) → Takes (f a))
      → Takes (m >>= f)
  Takes-bind m f p h s i =
      Ensures-bind (λ a s'. I s'.ctx) (λ b s'. J s'.ctx) m f s (p s i) (λ a s' i'. h a s' i')

  pub Takes-first :
      {A B : Type 0} (m : Action A) (f : A → Action B)
      → Takes m
      → ((a : A) → Keeps J (f a))
      → Takes (m >>= f)
  Takes-first m f p h s i =
      Ensures-bind (λ a s'. J s'.ctx) (λ b s'. J s'.ctx) m f s (p s i) (λ a s' i'. h a s' i')

  pub Takes-if :
      {A : Type 0} (b : Bool) (m n : Action A) → Takes m → Takes n → Takes (if b then m else n)
  Takes-if true m n p h = p
  Takes-if false m n p h = h

  pub Takes-option :
      {A B : Type 0} (o : Option A) (m : Action B) (f : A → Action B)
      → Takes m
      → ((a : A) → Takes (f a))
      → Takes (elim o [ none ↦ m | some a ↦ f a ])
  Takes-option none m f p h = p
  Takes-option (some a) m f p h = h a

module _ {B : Type 0} (I : InstrCtx → Type 0) (Q : B → InstrCtx → Type 0) where
  -- There is a result, which has the property together with the context.
  abbrev pub Ends : Action B → Type 0
  Ends m = (s : Session) → I s.ctx → Ensures (λ b s'. Q b s'.ctx) (m s)

  pub Ends-bind :
      {A : Type 0} (m : Action A) (f : A → Action B)
      → Keeps I m
      → ((a : A) → Ends (f a))
      → Ends (m >>= f)
  Ends-bind m f p h s i =
      Ensures-bind (λ a s'. I s'.ctx) (λ b s'. Q b s'.ctx) m f s (p s i) (λ a s' i'. h a s' i')

  pub Ends-if : (b : Bool) (m n : Action B) → Ends m → Ends n → Ends (if b then m else n)
  Ends-if true m n p h = p
  Ends-if false m n p h = h

  pub Ends-option :
      {A : Type 0} (o : Option A) (m : Action B) (f : A → Action B)
      → Ends m
      → ((a : A) → Ends (f a))
      → Ends (elim o [ none ↦ m | some a ↦ f a ])
  Ends-option none m f p h = p
  Ends-option (some a) m f p h = h a

  -- Looking for a class, where the table is known.
  pub Ends-find_class :
      (t : ClassInfoList) (name : Bytes) (f : Option ℕ → Action B)
      → ((ctx : InstrCtx) → I ctx → ctx.loaded_classes.tab ≡ t.tab)
      → Ends (f none)
      → ((a : ℕ) → hash_tab_lookup t.tab name ≡ some a → Ends (f (some a)))
      → Ends (find_class name >>= f)
  unfolding find_class ci_list_find_by_name
  Ends-find_class t name f tab_is missing there s i =
      found (hash_tab_lookup s.ctx.loaded_classes.tab name)
        (ap (λ x. hash_tab_lookup x name) (sym (tab_is s.ctx i)))
    where
      found : (r : Option ℕ) → hash_tab_lookup t.tab name ≡ r → Ensures (λ b s'. Q b s'.ctx) (f r s)
      found none e = missing s i
      found (some a) e = there a e s i
