-- ===== src/Vpn/Keys.antt =====
-- Words, keys and base64 as the crate uses them: crates/omni-vpn/src/lib.rs.
use omni_os.Prelude.{
  ltb, ◌==◌, if◌then◌else◌, length, text_comparable, pair_comparable, trim, ℕ, ◌+◌, ◌-◌, ◌^◌, min,
  String, Option, none, some, List,
}

abbrev pub u64_max : ℕ
u64_max = 2 ^ 64 - 1

abbrev pub saturating_add : ℕ → ℕ → ℕ
saturating_add a b = min (a + b) u64_max

abbrev pub abs_diff : ℕ → ℕ → ℕ
abs_diff a b = if ltb a b then b - a else a - b

-- The engine `STANDARD` of the base64 crate.
pub record Base64 : Type 0 where
  pub encode : List ℕ → String
  pub decode : String → Option (List ℕ)

module _ (base64 : Base64) where
  -- `None` is an error: no base64, or not 32 bytes.
  unfoldable pub decode_key : String → Option (List ℕ)
  decode_key value = elim (base64.decode (trim value)) [
    | none ↦ none
    | some bytes ↦ if length bytes == 32 then some bytes else none
  ]
