-- ===== src/Core/Policy/Store/Tests.antt =====
-- The stored policy and its decisions, on a toy engine and a codec that knows one policy.
use omni_os.Prelude.{
  length, ok, text_comparable, pair_comparable, trim, contains_text, ◌+◌, ◌≤◌, String, ◌≡◌, refl,
  ◌≢◌, ◌↔◌, ◌⊎◌, true, false, none, some, [], ◌∷◌,
}
use omni_os.Core.Audit.{Stamp, AuditRecord, no_details, audit_on, valid_action, metric, level_of}
use omni_os.Core.Policy.{
  Engine, CompiledPolicy, default_spec, compile, compile_rules, good_extensions, evaluate,
}
use omni_os.Core.Policy.Inspect.{Inspection, violation_of}
use omni_os.Core.Policy.Verdict.{IsAllowed}
use omni_os.Core.Policy.Decided.{some-NotAllowed, ManagedAllows, policy_decision-allowed_iff}
use omni_os.Core.Policy.Saved.{policy_save-outcome, policy_save-policy_save_same}
use omni_os.Core.Policy.Retained.{IsRetained, policy_evaluate-IsRetained}
use omni_os.Core.Policy.Managed.{
  PolicyFile, Reader, load_managed_pinned, managed_from_env, not_unicode,
}
use omni_os.Core.Policy.Trusted.{IsTrusted, load_managed_pinned-IsTrusted}
use omni_os.Core.Policy.Store.{
  PolicyStore, Codec, Decision, policy_current, policy_save, policy_decision, decide,
  first_violation, policy_evaluate,
}

abbrev toy : Engine String
toy = record {
  build = λ s. some s;
  is_match = λ regex s. contains_text s regex;
  fingerprint = λ spec. some "f1";
}

abbrev codec : Codec
codec = record { write = λ spec. some "default"; read = λ document. some default_spec }

abbrev default_compiled : CompiledPolicy String
default_compiled = record {
  spec = default_spec;
  fingerprint = "f1";
  pinned = false;
  expressions = [];
}

abbrev start : PolicyStore
start = record { revision = 0; document = "default"; decisions = []; last_seq = 0; journal = [] }

abbrev stamp : Stamp
stamp = record { fresh_id = "r1"; time = 7 }

abbrev audited : AuditRecord
audited = record {
  id = "r1";
  created_at = 7;
  action = "policy_updated";
  level = "info";
  details = record no_details { count = some 0 };
}

abbrev saved_once : PolicyStore
saved_once = record start { revision = 1; journal = audited ∷ [] }

first_save : policy_save toy codec start stamp 0 default_spec ≡ ok (true, saved_once)
unfolding policy_save compile compile_rules good_extensions trim audit_on valid_action metric
    level_of
first_save = refl

late_save : policy_save toy codec saved_once stamp 0 default_spec ≡ ok (false, saved_once)
unfolding policy_save compile compile_rules good_extensions trim
late_save = refl

policy_save-outcome_example :
    ((true ≡ true)
      × (start.revision ≡ 0)
      × ((compiled : CompiledPolicy String) × (compile toy default_spec ≡ ok compiled)
          × (policy_current toy codec saved_once ≡ ok (0 + 1, compiled)))
      × (saved_once.decisions ≡ start.decisions)
      × (saved_once.revision ≡ 0 + 1))
    ⊎ ((true ≡ false) × (start.revision ≢ 0) × (saved_once ≡ start))
policy_save-outcome_example =
    policy_save-outcome toy codec start saved_once stamp 0 default_spec true (λ d w. refl)
      first_save

policy_save-policy_save_same_example : (false ≡ false) × (saved_once ≡ saved_once)
policy_save-policy_save_same_example =
    policy_save-policy_save_same toy codec start saved_once saved_once stamp stamp 0 default_spec
      default_spec false (λ d w. refl) (λ d w. refl) first_save late_save

abbrev deep : Inspection
deep = record {
  bytes = 13;
  text = "";
  joined = "";
  files = [];
  violation = some (violation_of "content_too_deep");
}

abbrev refusal : Decision
refusal = record {
  id = "r1";
  created_at = 7;
  allowed = false;
  operation = "chat";
  revision = 0;
  managed_fingerprint = none;
  layer = "local";
  reason = "content_too_deep";
  rule_id = none;
  request_bytes = 13;
  file_count = 0;
}

refused : policy_decision toy codec start stamp none deep "chat" ≡ ok refusal
unfolding policy_decision policy_current compile compile_rules good_extensions trim decide
    first_violation evaluate
refused = refl

policy_decision-allowed_iff_example :
    (local : CompiledPolicy String) × (policy_current toy codec start ≡ ok (0, local))
    × ((false ≡ true) ↔ (ManagedAllows toy none deep × IsAllowed toy local deep))
policy_decision-allowed_iff_example =
    policy_decision-allowed_iff toy codec start stamp none deep "chat" refusal
      (some-NotAllowed (violation_of "content_too_deep") refl) refused

policy_evaluate-IsRetained_example :
    IsRetained (policy_evaluate toy codec start stamp stamp none deep "chat" true).0
    × (length (policy_evaluate toy codec start stamp stamp none deep "chat" true).0.decisions
        ≤ 1000)
policy_evaluate-IsRetained_example =
    policy_evaluate-IsRetained toy codec start stamp stamp none deep "chat" true
      (record { descending = tt; recent = tt })

abbrev file : PolicyFile
file = record {
  metadata = some (record { is_file = true; is_symlink = false; mode = 0x1a4 });
  content = some (123 ∷ 125 ∷ []);
}

abbrev reader : Reader
reader = record { from_slice = λ bytes. some default_spec; hex_digest = λ bytes. "" }

managed_loads : load_managed_pinned toy reader file none ≡ ok default_compiled
unfolding load_managed_pinned compile compile_rules good_extensions trim
managed_loads = refl

load_managed_pinned-IsTrusted_example : IsTrusted toy reader file none default_compiled
load_managed_pinned-IsTrusted_example =
    load_managed_pinned-IsTrusted toy reader file none default_compiled managed_loads

-- A digest that is configured but no valid Unicode is as good as none.
dropped_pin : managed_from_env toy reader none not_unicode ≡ ok none
unfolding managed_from_env
dropped_pin = refl

dropped_pin_of_file :
    managed_from_env toy reader (some file) not_unicode ≡ ok (some default_compiled)
unfolding managed_from_env
dropped_pin_of_file = rw managed_loads refl
