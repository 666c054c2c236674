-- ===== src/Core/Policy.antt =====
-- Request policies, crates/omni-core/src/policy.rs: what a policy may say, how a request is inspected,
-- and how a policy judges it. The regex engine, JSON texts and SHA-256 are parameters.
pub mod Compile
pub mod Decided
pub mod Files
pub mod Inspect
pub mod Saved
pub mod Managed
pub mod Retained
pub mod Seen
pub mod Store
mod Tests
pub mod Trusted
pub mod Verdict
pub mod Whole
use omni_os.Prelude.{
  ltb, leb, ◌==◌, if◌then◌else◌, length, any, find, ensure, or_fail, ◌>>=◌, ◌>>◌, Result, ok,
  one_of, is_control, is_ascii_alphanumeric, all_chars, any_char, is_empty, trim, ℕ, ◌*◌, String,
  len, Bool, true, false, not, ◌&&◌, ◌||◌, Option, none, some, List, [], ◌∷◌, map, str_eq,
}
use omni_os.Core.Errors.{
  Error, bad_json, policy_name, policy_limits, policy_extensions, policy_too_many_rules, rule_id,
  rule_text, rule_pattern,
}
use Inspect.{InspectedFile, Inspection, Violation, violation_of, file_types}

pub data RuleAction : Type 0 where
  block_match require_match : RuleAction

pub record Rule : Type 0 where
  pub id : String
  pub name : String
  pub regex_text : String
  pub action : RuleAction
  pub enabled : Bool

pub record PolicySpec : Type 0 where
  pub name : String
  pub max_request_bytes : ℕ
  pub max_file_bytes : ℕ
  pub max_files : ℕ
  pub allowed_extensions : List String
  pub rules : List Rule

abbrev pub max_bytes : ℕ
max_bytes = 1024 * 1024

-- `PolicySpec::default()`
abbrev pub default_spec : PolicySpec
default_spec = record {
  name = "Local request policy";
  max_request_bytes = max_bytes;
  max_file_bytes = 100000;
  max_files = 4;
  allowed_extensions = map (λ (p : String × String). p.0) file_types;
  rules = [];
}

-- What other crates do: `RegexBuilder` with the code's limits, matching, and the digest of a policy's
-- JSON text in hex. `none` is an error of that crate.
pub record Engine (Regex : Type 0) : Type 0 where
  pub build : String → Option Regex
  pub is_match : Regex → String → Bool
  pub fingerprint : PolicySpec → Option String

pub record CompiledPolicy (Regex : Type 0) : Type 0 where
  pub spec : PolicySpec
  pub fingerprint : String
  pub pinned : Bool
  pub expressions : List (Rule × Regex)

-- 1–100 bytes that are not all white space, without control characters.
abbrev pub good_name : String → Bool
good_name name =
    not (is_empty (trim name)) && (leb (len name) 100 && not (any_char is_control name))

abbrev pub good_limits : PolicySpec → Bool
good_limits spec =
    (leb 1024 spec.max_request_bytes && leb spec.max_request_bytes max_bytes)
    && ((leb 1 spec.max_file_bytes && leb spec.max_file_bytes 100000) && leb spec.max_files 8)

-- The loop over the extensions, with the set of those before.
unfoldable pub good_extensions : List String → List String → Bool
good_extensions seen [] = true
good_extensions seen (ext ∷ exts) =
    (any (λ (p : String × String). str_eq ext p.0) file_types && not (one_of seen ext))
    && good_extensions (ext ∷ seen) exts

abbrev is_id_char : ℕ → Bool
is_id_char c = is_ascii_alphanumeric c || (c == b'-' || c == b'_')

abbrev pub good_id : String → Bool
good_id id = not (is_empty id) && (leb (len id) 64 && all_chars is_id_char id)

abbrev pub good_text : Rule → Bool
good_text rule =
    good_name rule.name && (not (is_empty rule.regex_text) && leb (len rule.regex_text) 2048)

module _ {Regex : Type 0} (engine : Engine Regex) where
  abbrev add_enabled : Rule → Regex → List (Rule × Regex) → List (Rule × Regex)
  add_enabled rule regex rest = if rule.enabled then (rule, regex) ∷ rest else rest

  -- The loop over the rules, with the set of the ids before: the enabled rules, in order.
  unfoldable pub compile_rules : List String → List Rule → Result Error (List (Rule × Regex))
  compile_rules ids [] = ok []
  compile_rules ids (rule ∷ rules) = do
    ensure (good_id rule.id && not (one_of ids rule.id)) rule_id
    ensure (good_text rule) rule_text
    regex ← or_fail (engine.build rule.regex_text) rule_pattern
    rest ← compile_rules (rule.id ∷ ids) rules
    ok (add_enabled rule regex rest)

  unfoldable pub compile : PolicySpec → Result Error (CompiledPolicy Regex)
  compile spec = do
    ensure (good_name spec.name) policy_name
    ensure (good_limits spec) policy_limits
    ensure (good_extensions [] spec.allowed_extensions) policy_extensions
    ensure (leb (length spec.rules) 32) policy_too_many_rules
    expressions ← compile_rules [] spec.rules
    fingerprint ← or_fail (engine.fingerprint spec) bad_json
    ok (record {
      spec = spec;
      fingerprint = fingerprint;
      pinned = false;
      expressions = expressions;
    })

  -- The loop over the files.
  unfoldable pub file_violation : PolicySpec → List InspectedFile → Option Violation
  file_violation spec [] = none
  file_violation spec (file ∷ files) =
      let rest = file_violation spec files in
      if not (one_of spec.allowed_extensions file.extension)
      then some (violation_of "file_type_not_allowed")
      else if ltb spec.max_file_bytes file.bytes
      then some (violation_of "file_too_large")
      else rest

  abbrev pub blocks : Inspection → Rule × Regex → Bool
  blocks content (rule, regex) = elim rule.action [
    | block_match ↦ engine.is_match regex content.text || engine.is_match regex content.joined
    | require_match ↦ false
  ]

  abbrev pub misses : Inspection → Rule × Regex → Bool
  misses content (rule, regex) = elim rule.action [
    | block_match ↦ false
    | require_match ↦ not (engine.is_match regex content.text)
  ]

  abbrev pub rule_violation : String → Option (Rule × Regex) → Option Violation
  rule_violation code none = none
  rule_violation code (some (rule, regex)) = some (record { code = code; rule_id = some rule.id })

  abbrev pub or_else : Option Violation → Option Violation → Option Violation
  or_else (some v) w = some v
  or_else none w = w

  -- Block rules always win, regardless of their place; every require rule has to match.
  unfoldable pub evaluate : CompiledPolicy Regex → Inspection → Option Violation
  evaluate policy content =
      if ltb policy.spec.max_request_bytes content.bytes
      then some (violation_of "request_too_large")
      else or_else content.violation (
          if ltb policy.spec.max_files (length content.files)
          then some (violation_of "too_many_files")
          else or_else (file_violation policy.spec content.files) (
              or_else (rule_violation "blocked_pattern" (find (blocks content) policy.expressions))
                (rule_violation "required_pattern_missing"
                  (find (misses content) policy.expressions))))
