-- ===== src/Bytecode.antt =====
-- c-src/main/bytecode.c: the methods of a Java class file. The file is a list of bytes, a position an
-- index into it; a read out of bounds is a `fault`, the return value -1 is `fail`. Allocations are
-- answered by `Memory`. `size_t` has 64 bits and no sum of two positions wraps; a `uint32_t` has 32.
pub mod Bounds
mod Tests
use jauto_profiler_mcp.Prelude.{
  ℕ, zero, suc, ◌+◌, ◌-◌, ◌*◌, ◌%◌, ◌^◌, Bool, true, false, not, ◌||◌, List, [], ◌∷◌, ◌++◌, Option,
  none, some, ltb, leb, ◌==◌, if◌then◌else◌, length,
}
use jauto_profiler_mcp.Prelude.Checked.{
  Checked, fault, fail, ok, Done, ◌>>=◌, fail_if, read, read_bytes,
}

-- the answers to the calls of `calloc` and `malloc`: for the pool, for the copy of an entry of the
-- pool, for the name of a method, and for its place in the list
pub record Memory : Type 0 where
  pub pool_ok : Bool
  pub text_ok : ℕ → Bool
  pub name_ok : ℕ → Bool
  pub slot_ok : ℕ → Bool

-- `struct pstring`, its `size` of 16 bits apart from the bytes that were written
pub record Name : Type 0 where
  pub size : ℕ
  pub str : List ℕ

-- `read_u2`
pub read_u2 : List ℕ → ℕ → Checked ℕ
read_u2 buf p = do a ← read buf p; b ← read buf (p + 1); ok (a * 256 + b)

-- `read_u4`
pub read_u4 : List ℕ → ℕ → Checked ℕ
read_u4 buf p = do
  a ← read buf p
  b ← read buf (p + 1)
  c ← read buf (p + 2)
  d ← read buf (p + 3)
  ok (a * 2 ^ 24 + b * 2 ^ 16 + c * 2 ^ 8 + d)

-- the tags of the entries whose size is fixed, and that size
pub fixed_size : ℕ → Option ℕ
fixed_size tag =
    if tag == 3 || tag == 4
    then some 4
    else if tag == 5 || tag == 6
    then some 8
    else if tag == 7 || tag == 8 || tag == 16 || tag == 19 || tag == 20
    then some 2
    else if tag == 9 || tag == 10 || tag == 11 || tag == 12 || tag == 17 || tag == 18
    then some 4
    else if tag == 15
    then some 3
    else none

-- the case `CP_UTF8` of `parse_cp_body`, which copies the text
pub parse_utf8 : Bool → List ℕ → ℕ → ℕ → Checked (ℕ × Option (List ℕ))
unfolding read_u2
parse_utf8 copy_ok buf pos remaining = do
  _ ← fail_if (ltb remaining 2)
  len ← read_u2 buf pos
  _ ← fail_if (ltb remaining (2 + len))
  _ ← fail_if (not copy_ok)
  text ← read_bytes buf (pos + 2) len
  ok (2 + len, some text)

-- `parse_cp_body` at `data + pos`: the bytes consumed, and the text of a `CP_UTF8`
pub parse_cp_body : Bool → List ℕ → ℕ → ℕ → ℕ → Checked (ℕ × Option (List ℕ))
unfolding parse_utf8 fixed_size
parse_cp_body copy_ok buf pos remaining tag = elim (tag == 1) [
  | true ↦ parse_utf8 copy_ok buf pos remaining
  | false ↦ elim (fixed_size tag) [
    | none ↦ fail
    | some n ↦ do _ ← fail_if (ltb remaining n); ok (n, none)
  ]
]

-- the loop of `skip_attributes`, with `n` attributes left
pub skip_each : List ℕ → ℕ → ℕ → Checked ℕ
unfolding read_u4
skip_each buf zero pos = ok pos
skip_each buf (suc n) pos = do
  _ ← fail_if (ltb (length buf) (pos + 6))
  attr_len ← read_u4 buf (pos + 2)
  _ ← fail_if (ltb (length buf) (pos + (6 + attr_len) % 2 ^ 32))
  skip_each buf n (pos + (6 + attr_len) % 2 ^ 32)

-- `skip_attributes`: the position behind the attributes
pub skip_attributes : List ℕ → ℕ → Checked ℕ
unfolding read_u2 skip_each
skip_attributes buf pos = do
  _ ← fail_if (ltb (length buf) (pos + 2))
  attr_count ← read_u2 buf pos
  skip_each buf attr_count (pos + 2)

-- the array `utf8_pool`, where an index without a text is NULL
abbrev pub Pool : Type 0
Pool = ℕ → Option (List ℕ)

abbrev pub set_text : Pool → ℕ → Option (List ℕ) → Pool
set_text pool i text j = if i == j then text else pool j

-- the loop over the constant pool from entry `i`, with fuel; without fuel it would be a fault
pub pool_loop : ℕ → Memory → List ℕ → ℕ → ℕ → ℕ → Pool → Checked (ℕ × Pool)
unfolding parse_cp_body
pool_loop zero mem buf cp_count i pos pool = elim (ltb i cp_count) [
  | true ↦ fault
  | false ↦ ok (pos, pool)
]
pool_loop (suc f) mem buf cp_count i pos pool = elim (ltb i cp_count) [
  | false ↦ ok (pos, pool)
  | true ↦ do
    _ ← fail_if (leb (length buf) pos)
    tag ← read buf pos
    entry ← parse_cp_body (mem.text_ok i) buf (pos + 1) (length buf - (pos + 1)) tag
    let (consumed, text) = entry
    pool_loop f mem buf cp_count (i + (if tag == 5 || tag == 6 then 2 else 1)) (pos + 1 + consumed)
        (set_text pool i text)
]

-- the loop over the fields, with `n` left
pub field_loop : List ℕ → ℕ → ℕ → Checked ℕ
unfolding skip_attributes
field_loop buf zero pos = ok pos
field_loop buf (suc n) pos = do
  _ ← fail_if (ltb (length buf) (pos + 6))
  pos' ← skip_attributes buf (pos + 6)
  field_loop buf n pos'

-- a C string: the bytes before the first zero
abbrev pub cstr : List ℕ → List ℕ
cstr [] = []
cstr (zero ∷ bs) = []
cstr (suc b ∷ bs) = suc b ∷ cstr bs

-- "name:descriptor"
pub full_name : List ℕ → List ℕ → Name
full_name name desc =
    let str = cstr name ++ 58 ∷ cstr desc in record { size = length str % 2 ^ 16; str = str }

-- the end of a round of the method loop: the list with the method, if both indices have a text
pub add_method : Memory → ℕ → ℕ → Pool → ℕ → ℕ → List Name → Checked (List Name)
unfolding full_name
add_method mem i cp_count pool name_idx desc_idx methods =
    if leb cp_count name_idx || leb cp_count desc_idx then ok methods else elim (pool name_idx) [
      | none ↦ ok methods
      | some name ↦ elim (pool desc_idx) [
        | none ↦ ok methods
        | some desc ↦ do
          _ ← fail_if (not (mem.name_ok i))
          _ ← fail_if (not (mem.slot_ok i))
          ok (methods ++ full_name name desc ∷ [])
      ]
    ]

-- the loop over the methods from method `i`, with `n` left
pub method_loop : Memory → List ℕ → ℕ → Pool → ℕ → ℕ → ℕ → List Name → Checked (List Name)
unfolding skip_attributes add_method read_u2
method_loop mem buf cp_count pool zero i pos methods = ok methods
method_loop mem buf cp_count pool (suc n) i pos methods = do
  _ ← fail_if (ltb (length buf) (pos + 6))
  name_idx ← read_u2 buf (pos + 2)
  desc_idx ← read_u2 buf (pos + 4)
  pos' ← skip_attributes buf (pos + 6)
  methods' ← add_method mem i cp_count pool name_idx desc_idx methods
  method_loop mem buf cp_count pool n (i + 1) pos' methods'

-- what is known when the method loop starts
pub record Header : Type 0 where
  pub cp_count : ℕ
  pub pool : Pool
  pub method_count : ℕ
  pub pos : ℕ

-- `bc_extract_methods` from the constant pool to the method loop
pub parse_members : List ℕ → ℕ → ℕ → Pool → Checked Header
unfolding read_u2 field_loop
parse_members buf cp_count pos pool = do
  _ ← fail_if (ltb (length buf) (pos + 6))
  _ ← fail_if (ltb (length buf) (pos + 8))
  iface_count ← read_u2 buf (pos + 6)
  _ ← fail_if (ltb (length buf) (pos + 8 + 2 * iface_count))
  _ ← fail_if (ltb (length buf) (pos + 8 + 2 * iface_count + 2))
  field_count ← read_u2 buf (pos + 8 + 2 * iface_count)
  pos' ← field_loop buf field_count (pos + 8 + 2 * iface_count + 2)
  _ ← fail_if (ltb (length buf) (pos' + 2))
  method_count ← read_u2 buf pos'
  ok (record { cp_count = cp_count; pool = pool; method_count = method_count; pos = pos' + 2 })

-- `bc_extract_methods` up to the method loop
pub parse_header : Memory → List ℕ → Checked Header
unfolding read_u2 pool_loop parse_members
parse_header mem buf = do
  _ ← fail_if (ltb (length buf) 8)
  _ ← fail_if (ltb (length buf) 10)
  cp_count ← read_u2 buf 8
  _ ← fail_if (ltb cp_count 1)
  _ ← fail_if (not mem.pool_ok)
  entries ← pool_loop cp_count mem buf cp_count 1 10 (λ i. none)
  parse_members buf cp_count entries.0 entries.1

-- `bc_extract_methods`: whether it returns 0, and the list. An error before the method loop leaves
-- the list as it was, and an error in the loop empties it.
pub bc_extract_methods : Memory → List ℕ → List Name → Checked (Bool × List Name)
unfolding parse_header method_loop
bc_extract_methods mem buf methods = elim (parse_header mem buf) [
  | fault ↦ fault
  | fail ↦ ok (false, methods)
  | ok h ↦ elim (method_loop mem buf h.cp_count h.pool h.method_count 0 h.pos methods) [
    | fault ↦ fault
    | fail ↦ ok (false, [])
    | ok methods' ↦ ok (true, methods')
  ]
]
