-- ===== src/MasterInstruments/Keys.antt =====
-- master-instruments.c: different ids have different keys.
use jauto_profiler_mcp.Prelude.{
  ℕ, ◌+◌, ◌*◌, ◌^◌, ◌<◌, ◌≡◌, ap, ◌∙◌, sym, false, [], ◌∷◌, arith, ◌≢◌, Bool-cases, inl, inr,
}
use jauto_profiler_mcp.HashTab.{Bytes, keycmp}
use jauto_profiler_mcp.HashTab.Probe.{keycmp→eq}
use jauto_profiler_mcp.MasterInstruments.{id_key}

-- the number whose bytes these are, low byte first
abbrev value : Bytes → ℕ
value [] = 0
value (b ∷ bs) = b + 256 * value bs

value-id_key : (id : ℕ) → id < 2 ^ 64 → value (id_key id) ≡ id
unfolding id_key
value-id_key id lt = omega arith

pub id_key_injective : (a b : ℕ) → a < 2 ^ 64 → b < 2 ^ 64 → id_key a ≡ id_key b → a ≡ b
id_key_injective a b la lb e = sym (value-id_key a la) ∙ ap value e ∙ value-id_key b lb

pub keycmp-id_key :
    (a b : ℕ) → a < 2 ^ 64 → b < 2 ^ 64 → a ≢ b → keycmp (id_key a) (id_key b) ≡ false
keycmp-id_key a b la lb ne = elim (Bool-cases (keycmp (id_key a) (id_key b))) [
  | inl e ↦ absurd (ne (id_key_injective a b la lb (keycmp→eq (id_key a) (id_key b) e)))
  | inr e ↦ e
]
