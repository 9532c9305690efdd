-- ===== src/HashTab/Assign.antt =====
-- hash-tab.c: a value that its holder changes through the pointer which the table gave out.
use jauto_profiler_mcp.Prelude.{
  ℕ, ◌≡◌, ap, ◌∙◌, sym, Option, some, arith, ◌==◌, if◌then◌else◌, ◌≢◌, ℕ_discrete,
}
use jauto_profiler_mcp.HashTab.{Bytes, HashTab}
use jauto_profiler_mcp.HashTab.Links.{keys}
use jauto_profiler_mcp.HashTab.Valid.{IsValid}
use jauto_profiler_mcp.HashTab.View.{view, view_held, updated, updated_by, view_agree}

module _ {V : Type 0} where
  -- the table with another value in a slot
  abbrev pub assign : HashTab V → ℕ → Option V → HashTab V
  assign t i v = record t {
    tab = λ s. record (t.tab s) { val = if s == i then v else (t.tab s).val };
  }

  pub assign-IsValid : (t : HashTab V) (i : ℕ) (v : Option V) → IsValid t → IsValid (assign t i v)
  assign-IsValid t i v ok = record {
    order = ok.order;
    core = record {
      pos = ok.core.pos;
      counted = ok.core.counted;
      tally = ok.core.tally;
      inside = ok.core.inside;
      head_first = ok.core.head_first;
      next_succ = ok.core.next_succ;
      prev_pred = ok.core.prev_pred;
      unique = ok.core.unique;
    };
    reaches = ok.reaches;
    room = ok.room;
    thresh = ok.thresh;
  }

  -- Changing the value of a key leaves the table in order, and it stands for the map with that value.
  pub assign-view :
      (t : HashTab V) (ok : IsValid t) (i : ℕ) (v : Option V) (k : Bytes)
      → keys t i ≡ some k
      → (k' : Bytes) → view (assign t i v) k' ≡ updated (view t) k (some v) k'
  assign-view t ok i v k at = updated_by (view t) (view u) k (some v) here there
    where
      u : HashTab V
      u = assign t i v

      u-IsValid : IsValid u
      u-IsValid = assign-IsValid t i v ok

      here : view u k ≡ some v
      here = view_held u u-IsValid k v (i, at, ground arith)

      -- The slot of another key keeps its value.
      elsewhere : (k' : Bytes) (s : ℕ) → k' ≢ k → keys t s ≡ some k' → (u.tab s).val ≡ (t.tab s).val
      elsewhere k' s ne held = elim (ℕ_discrete s i) [
        | yes same ↦ let both = sym held ∙ ap (keys t) same ∙ at in absurd (ne cc)
        | no other ↦ ground arith
      ]

      there : (k' : Bytes) → k' ≢ k → view u k' ≡ view t k'
      there k' ne =
          view_agree t u k' ok u-IsValid (λ w (s, held, is). (s, held, elsewhere k' s ne held ∙ is))
            (λ w (s, held, is). (s, held, sym (elsewhere k' s ne held) ∙ is))
