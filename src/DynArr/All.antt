-- ===== src/DynArr/All.antt =====
-- dyn-arr.c: what every element of an array has, after an element was added or removed.
use jauto_profiler_mcp.Prelude.{ℕ, ◌+◌, ◌<◌, ◌≡◌, Bool, some, ltb, if◌then◌else◌, arith}
use jauto_profiler_mcp.DynArr.{DynArr, dynarr_add, dynarr_remove}
use jauto_profiler_mcp.DynArr.Items.{IsValid}

-- the index in the array before an element was removed
abbrev pub skip : ℕ → ℕ → ℕ
skip index j = if ltb j index then j else j + 1

module _ {A : Type 0} where
  module _ (a b : DynArr A) (valid : IsValid a) where
    -- `b` is `a` with one element more.
    abbrev pub IsLonger : A → Type 0
    IsLonger x =
        IsValid b
        × (b.len ≡ a.len + 1)
        × (b.arr a.len ≡ x)
        × ((j : ℕ) → j < a.len → b.arr j ≡ a.arr j)

    -- `b` is `a` without the element at an index.
    abbrev pub IsShorter : ℕ → Type 0
    IsShorter index =
        IsValid b × (b.len + 1 ≡ a.len) × ((j : ℕ) → j < b.len → b.arr j ≡ a.arr (skip index j))

    pub dynarr_add-IsLonger :
        (grow_ok : Bool) (x : A) → dynarr_add grow_ok a x ≡ some b → IsLonger x
    unfolding dynarr_add
    dynarr_add-IsLonger grow_ok x run =
        ((ground arith, ground arith), ground arith, ground arith, λ j lt. ground arith)

    pub dynarr_remove-IsShorter : (index : ℕ) → dynarr_remove a index ≡ some b → IsShorter index
    unfolding dynarr_remove
    dynarr_remove-IsShorter index run =
        ((ground arith, ground arith), ground arith, λ j lt. ground arith)
