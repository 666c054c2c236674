-- ===== src/Core/Policy/Managed.antt =====
-- The policy of an organization: `load_managed_pinned` and `managed_from_env` of
-- crates/omni-core/src/policy.rs, on Unix. What the file system answers, serde and SHA-256 are parameters.
use omni_os.Prelude.{
  leb, ◌==◌, length, take, ensure, or_fail, ◌>>=◌, ◌>>◌, Result, ok, err, text_comparable,
  pair_comparable, all_chars, to_ascii_lowercase, ℕ, ◌+◌, ◌*◌, ◌/◌, ◌%◌, String, len, Bool, true,
  not, ◌&&◌, ◌||◌, Option, none, some, List, str_eq,
}
use omni_os.Core.Errors.{
  Error, managed_missing, managed_unreadable, managed_not_regular, managed_writable,
  managed_too_large, managed_invalid, managed_digest, managed_without_file,
}
use omni_os.Core.Audit.{none_or, some_and}
use omni_os.Core.Policy.{Engine, CompiledPolicy, PolicySpec, compile}

-- What `symlink_metadata` tells of a path.
pub record Metadata : Type 0 where
  pub is_file : Bool
  pub is_symlink : Bool
  pub mode : ℕ

-- A path: its metadata, and the bytes that are read later from it; `none` is an error.
pub record PolicyFile : Type 0 where
  pub metadata : Option Metadata
  pub content : Option (List ℕ)

pub record Reader : Type 0 where
  pub from_slice : List ℕ → Option PolicySpec
  pub hex_digest : List ℕ → String

abbrev is_hex_digit : ℕ → Bool
is_hex_digit c =
    (leb b'0' c && leb c b'9') || ((leb b'A' c && leb c b'F') || (leb b'a' c && leb c b'f'))

-- `mode & 0o022 == 0`: the bits 0o020 and 0o002 are clear.
abbrev pub not_writable : ℕ → Bool
not_writable mode = (mode / 16) % 2 == 0 && (mode / 2) % 2 == 0

abbrev pub max_file : ℕ
max_file = 128 * 1024

-- A variable of the environment, as `std::env::var` tells it.
pub data EnvText : Type 0 where
  unset : EnvText
  not_unicode : EnvText
  text : String → EnvText

-- `std::env::var(..).ok()`
abbrev readable : EnvText → Option String
readable unset = none
readable not_unicode = none
readable (text value) = some value

module _ {Regex : Type 0} (engine : Engine Regex) (reader : Reader) where
  abbrev pub pin_fits : List ℕ → String → Bool
  pin_fits bytes expected =
      (len expected == 64 && all_chars is_hex_digit expected)
      && str_eq (reader.hex_digest bytes) (to_ascii_lowercase expected)

  unfoldable pub load_managed_pinned :
      PolicyFile → Option String → Result Error (CompiledPolicy Regex)
  load_managed_pinned file expected = do
    metadata ← or_fail file.metadata managed_missing
    ensure (metadata.is_file && not metadata.is_symlink) managed_not_regular
    ensure (not_writable metadata.mode) managed_writable
    content ← or_fail file.content managed_unreadable
    let bytes : List ℕ = take (max_file + 1) content
    ensure (leb (length bytes) max_file) managed_too_large
    spec ← or_fail (reader.from_slice bytes) managed_invalid
    ensure (none_or (pin_fits bytes) expected) managed_digest
    compiled ← compile engine spec
    ok (record compiled { pinned = some_and (λ pin. true) expected })

  abbrev pub load_managed : PolicyFile → Result Error (CompiledPolicy Regex)
  load_managed file = load_managed_pinned file none

  -- The two variables of the environment: the file that the path names, which `var_os` always gives,
  -- and the digest, of which `var(..).ok()` keeps valid Unicode only.
  unfoldable pub managed_from_env :
      Option PolicyFile → EnvText → Result Error (Option (CompiledPolicy Regex))
  managed_from_env (some file) digest = do
    compiled ← load_managed_pinned file (readable digest)
    ok (some compiled)
  managed_from_env none digest = elim (readable digest) [
    | some pin ↦ err managed_without_file
    | none ↦ ok none
  ]
