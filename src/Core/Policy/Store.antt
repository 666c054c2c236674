-- ===== src/Core/Policy/Store.antt =====
-- The tables `request_policy` and `policy_decisions` of the vault: `policy_current`, `policy_view`,
-- `policy_save`, `policy_evaluate` and `policy_decisions` of crates/omni-core/src/policy.rs. The JSON
-- text of a policy is written and read by serde, a parameter; a decision's row holds the decision.
mod Tests
use omni_os.Prelude.{
  option_map, ltb, leb, ◌==◌, if◌then◌else◌, length, take, any, keep_if, ensure, or_fail, ◌>>=◌,
  ◌>>◌, Result, ok, err, one_of, ℕ, ◌+◌, ◌^◌, min, String, Bool, true, false, not, Option, none,
  some, List, [], ◌∷◌, map, str_eq,
}
use omni_os.Core.Errors.{Error, bad_json, out_of_range, unknown_operation, constraint_failed}
use omni_os.Core.Audit.{AuditRecord, Stamp, no_details, audit_on, some_and}
use omni_os.Core.Policy.Inspect.{Inspection, Violation}
use omni_os.Core.Policy.{Engine, CompiledPolicy, PolicySpec, compile, evaluate}

pub record Decision : Type 0 where
  pub id : String
  pub created_at : ℕ
  pub allowed : Bool
  pub operation : String
  pub revision : ℕ
  pub managed_fingerprint : Option String
  pub layer : String
  pub reason : String
  pub rule_id : Option String
  pub request_bytes : ℕ
  pub file_count : ℕ

-- The one row of `request_policy`, the rows of `policy_decisions`, newest first, the last value of
-- its AUTOINCREMENT key, and the audit journal.
pub record PolicyStore : Type 0 where
  pub revision : ℕ
  pub document : String
  pub decisions : List (ℕ × Decision)
  pub last_seq : ℕ
  pub journal : List AuditRecord

pub record Codec : Type 0 where
  pub write : PolicySpec → Option String
  pub read : String → Option PolicySpec

pub record PolicyView : Type 0 where
  pub managed_pinned : Bool
  pub revision : ℕ
  pub policy : PolicySpec
  pub managed : Option PolicySpec
  pub managed_fingerprint : Option String

pub record Trail : Type 0 where
  pub items : List Decision
  pub retained : ℕ
  pub blocked : ℕ
  pub retention_limit : ℕ

abbrev pub operations : List String
operations = "chat" ∷ "gateway" ∷ "capture" ∷ "mcp" ∷ "preview" ∷ []

module _ {Regex : Type 0} (engine : Engine Regex) (codec : Codec) where
  unfoldable pub policy_current : PolicyStore → Result Error (ℕ × CompiledPolicy Regex)
  policy_current store = do
    spec ← or_fail (codec.read store.document) bad_json
    compiled ← compile engine spec
    ok (store.revision, compiled)

  -- Whether the policy was saved: not when another revision is current.
  unfoldable pub policy_save :
      PolicyStore → Stamp → ℕ → PolicySpec → Result Error (Bool × PolicyStore)
  policy_save store stamp expected spec = do
    compiled ← compile engine spec
    document ← or_fail (codec.write compiled.spec) bad_json
    ensure (ltb expected (2 ^ 63)) out_of_range
    journal ←
        (if store.revision == expected
          then audit_on store.journal stamp "policy_updated"
              (record no_details { count = some (length compiled.spec.rules) })
          else ok store.journal)
    ok (
        if store.revision == expected
        then (
          true,
          record store { revision = store.revision + 1; document = document; journal = journal },
        )
        else (false, store))

  abbrev pub at_layer : String → Option Violation → Option (String × Violation)
  at_layer layer none = none
  at_layer layer (some v) = some (layer, v)

  abbrev pub managed_violation :
      Option (CompiledPolicy Regex) → Inspection → Option (String × Violation)
  managed_violation none content = none
  managed_violation (some policy) content = at_layer "managed" (evaluate engine policy content)

  abbrev pub or_next :
      Option (String × Violation) → Option (String × Violation) → Option (String × Violation)
  or_next none next = next
  or_next (some v) next = some v

  -- The managed policy first, then the local one.
  unfoldable pub first_violation :
      Option (CompiledPolicy Regex)
      → CompiledPolicy Regex
      → Inspection
      → Option (String × Violation)
  first_violation managed local content =
      or_next (managed_violation managed content) (at_layer "local" (evaluate engine local content))

  unfoldable pub policy_view : PolicyStore → Option (CompiledPolicy Regex) → Result Error PolicyView
  policy_view store managed = do
    (revision, local) ← policy_current store
    ok (record {
      managed_pinned = some_and (λ (p : CompiledPolicy Regex). p.pinned) managed;
      revision = revision;
      policy = local.spec;
      managed = option_map (λ (p : CompiledPolicy Regex). p.spec) managed;
      managed_fingerprint = option_map (λ (p : CompiledPolicy Regex). p.fingerprint) managed;
    })

  abbrev pub decision_of :
      Stamp
      → String
      → ℕ
      → Option (CompiledPolicy Regex)
      → Inspection
      → String
      → String
      → Option String
      → Decision
  decision_of stamp operation revision managed content layer reason rule_id = record {
    id = stamp.fresh_id;
    created_at = stamp.time;
    allowed = str_eq reason "allowed";
    operation = operation;
    revision = revision;
    managed_fingerprint = option_map (λ (p : CompiledPolicy Regex). p.fingerprint) managed;
    layer = layer;
    reason = reason;
    rule_id = rule_id;
    request_bytes = content.bytes;
    file_count = length content.files;
  }

  abbrev pub decision_on :
      Stamp
      → String
      → ℕ
      → Option (CompiledPolicy Regex)
      → Inspection
      → Option (String × Violation)
      → Decision
  decision_on stamp operation revision managed content none =
      decision_of stamp operation revision managed content "combined" "allowed" none
  decision_on stamp operation revision managed content (some (layer, v)) =
      decision_of stamp operation revision managed content layer v.code v.rule_id

  unfoldable pub decide :
      Stamp
      → String
      → ℕ
      → Option (CompiledPolicy Regex)
      → CompiledPolicy Regex
      → Inspection
      → Decision
  decide stamp operation revision managed local content =
      decision_on stamp operation revision managed content (first_violation managed local content)

  -- What the code computes before it writes.
  unfoldable pub policy_decision :
      PolicyStore
      → Stamp
      → Option (CompiledPolicy Regex)
      → Inspection
      → String
      → Result Error Decision
  policy_decision store stamp managed content operation = do
    ensure (one_of operations operation) unknown_operation
    (revision, local) ← policy_current store
    ok (decide stamp operation revision managed local content)

-- The new row, and the deletion of the rows whose key is at most the greatest less 1000.
unfoldable pub record_decision : PolicyStore → Decision → PolicyStore
record_decision store decision =
    let seq = store.last_seq + 1 in
    record store {
      decisions =
          keep_if (λ (row : ℕ × Decision). not (leb (row.0 + 1000) seq))
            ((seq, decision) ∷ store.decisions);
      last_seq = seq;
    }

-- A blocked request is audited after its decision is kept, with no transaction around the two.
unfoldable pub audit_blocked : PolicyStore → Stamp → Decision → PolicyStore × Result Error Decision
audit_blocked store stamp decision =
    if decision.allowed
    then (store, ok decision)
    else elim (audit_on store.journal stamp "policy_blocked"
        (record no_details { entity_id = some decision.id })) [
          | ok journal ↦ (record store { journal = journal }, ok decision)
          | err e ↦ (store, err e)
        ]

unfoldable pub keep_decision : PolicyStore → Stamp → Decision → PolicyStore × Result Error Decision
keep_decision store stamp decision =
    if any (λ (row : ℕ × Decision). str_eq row.1.id decision.id) store.decisions
    then (store, err constraint_failed)
    else audit_blocked (record_decision store decision) stamp decision

-- What the code does with the decision.
unfoldable pub finish :
    PolicyStore → Stamp → Bool → Result Error Decision → PolicyStore × Result Error Decision
finish store stamp persist (err e) = (store, err e)
finish store stamp false (ok decision) = (store, ok decision)
finish store stamp true (ok decision) = keep_decision store stamp decision

-- `policy_evaluate`: the store after the call, and its result.
unfoldable pub policy_evaluate :
    {Regex : Type 0}
    → Engine Regex
    → Codec
    → PolicyStore
    → Stamp
    → Stamp
    → Option (CompiledPolicy Regex)
    → Inspection
    → String
    → Bool
    → PolicyStore × Result Error Decision
policy_evaluate engine codec store stamp audit_stamp managed content operation persist =
    finish store audit_stamp persist
      (policy_decision engine codec store stamp managed content operation)

unfoldable pub policy_decisions : PolicyStore → ℕ → Trail
policy_decisions store limit = record {
  items = take (min limit 100) (map (λ (row : ℕ × Decision). row.1) store.decisions);
  retained = length store.decisions;
  blocked = length (keep_if (λ (row : ℕ × Decision). not row.1.allowed) store.decisions);
  retention_limit = 1000;
}
