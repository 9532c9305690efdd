-- ===== src/Bytecode/Tests.antt =====
-- bytecode.c: a class file with the one method `m:()V`.
use jauto_profiler_mcp.Prelude.{ℕ, ◌≡◌, refl, ◌⊎◌, Bool, true, List, [], ◌∷◌, ◌++◌}
use jauto_profiler_mcp.Prelude.Checked.{ok}
use jauto_profiler_mcp.Bytecode.{Memory, Name, skip_attributes, bc_extract_methods}
use jauto_profiler_mcp.Bytecode.Bounds.{bc_extract_methods-IsSafe}

abbrev plenty : Memory
plenty = record { pool_ok = true; text_ok = λ i. true; name_ok = λ i. true; slot_ok = λ i. true }

abbrev class_file : List ℕ
class_file =
    (202 ∷ 254 ∷ 186 ∷ 190 ∷ 0 ∷ 0 ∷ 0 ∷ 52 ∷ [])
    ++ (0 ∷ 3 ∷ 1 ∷ 0 ∷ 1 ∷ 109 ∷ 1 ∷ 0 ∷ 3 ∷ 40 ∷ 41 ∷ 86 ∷ [])
    ++ (0 ∷ 0 ∷ 0 ∷ 0 ∷ 0 ∷ 0 ∷ 0 ∷ 0 ∷ 0 ∷ 0 ∷ [])
    ++ (0 ∷ 1 ∷ 0 ∷ 0 ∷ 0 ∷ 1 ∷ 0 ∷ 2 ∷ 0 ∷ 0 ∷ [])

bc_extract_methods_example :
    (success : Bool) × (methods' : List Name) × (bc_extract_methods plenty class_file []
      ≡ ok (success, methods'))
    × ((success ≡ true) ⊎ (methods' ≡ []) ⊎ (methods' ≡ []))
bc_extract_methods_example = bc_extract_methods-IsSafe plenty class_file []

extracts :
    bc_extract_methods plenty class_file []
    ≡ ok (true, record { size = 5; str = 109 ∷ 58 ∷ 40 ∷ 41 ∷ 86 ∷ [] } ∷ [])
unfolding bc_extract_methods
extracts = refl

-- An attribute that claims 2 ^ 32 - 6 bytes takes none: the sum of 32 bits wraps.
wraps : skip_attributes (0 ∷ 1 ∷ 0 ∷ 0 ∷ 255 ∷ 255 ∷ 255 ∷ 250 ∷ []) 0 ≡ ok 2
unfolding skip_attributes
wraps = refl
