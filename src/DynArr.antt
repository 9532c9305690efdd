-- ===== src/DynArr.antt =====
-- c-src/main/util/dyn-arr.h and dyn-arr.c: growing arrays. The memory is a function of the index;
-- whether an allocation succeeds is an argument. An index is not negative, and capacities do not
-- reach 2 ^ 64. A failed assertion is `none`.
pub mod Items
pub mod All
pub mod Without
use jauto_profiler_mcp.Prelude.{
  ℕ, zero, suc, ◌+◌, ◌-◌, ◌*◌, Bool, true, false, not, Option, none, some, ltb, leb, ◌==◌,
  if◌then◌else◌,
}

-- DYNARR_STRUCT
pub record DynArr (A : Type 0) : Type 0 where
  pub len : ℕ
  pub capacity : ℕ
  pub arr : ℕ → A

module _ {A : Type 0} where
  -- `prefix_init` over the zeroed memory that `dynarr_alloc` gives
  unfoldable pub dynarr_init : Bool → A → ℕ → Option (DynArr A)
  dynarr_init alloc_ok zeroed init_cap =
      if alloc_ok
      then some
          (record { len = 0; capacity = if init_cap == 0 then 16 else init_cap; arr = λ i. zeroed })
      else none

  -- `prefix_add` and the write of the element to the place that it returns; `none` for NULL
  unfoldable pub dynarr_add : Bool → DynArr A → A → Option (DynArr A)
  dynarr_add grow_ok a x =
      let arr : ℕ → A = λ i. if a.len == i then x else a.arr i in
      if leb a.capacity a.len
      then if grow_ok
        then some (record { len = a.len + 1; capacity = a.capacity * 2; arr = arr })
        else none
      else some (record { len = a.len + 1; capacity = a.capacity; arr = arr })

  -- `prefix_remove`, with `dynarr_remove`
  unfoldable pub dynarr_remove : DynArr A → ℕ → Option (DynArr A)
  dynarr_remove a index =
      if index + 1 == a.len
      then some (record a { len = a.len - 1 })
      else if ltb index a.len
      then some (record a {
        len = a.len - 1;
        arr = λ i.
            if ltb i index then a.arr i else if ltb i (a.len - 1) then a.arr (i + 1) else a.arr i;
      })
      else none
