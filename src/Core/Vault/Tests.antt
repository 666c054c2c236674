-- ===== src/Core/Vault/Tests.antt =====
-- The vault at concrete operations, with a lower case that changes nothing.
use omni_os.Prelude.{
  All, ok, err, text_comparable, pair_comparable, trim, ℕ, String, ◌≡◌, refl, true, false, Option,
  none, some, List, [], ◌∷◌, str_eq,
}
use omni_os.Core.Errors.{grant_revoked}
use omni_os.Core.Audit.{
  AuditRecord, Stamp, no_details, audit_on, valid_action, identifier, metric, level_of,
}
use omni_os.Core.Vault.{
  Vault, Memory, MemoryRow, HistoryRow, Source, Grant, Receipt, memories, grants, joined_rows,
  add_memory, delete_memory, check_content, check_source, valid_status,
}
use omni_os.Core.Vault.Context.{context, create_grant, revoke, authorized, within, select}
use omni_os.Core.Vault.Receipts.{receipt, current_context_receipt}
use omni_os.Core.Vault.Selected.{IsEntitled, context-IsEntitled}
use omni_os.Core.Vault.Valid.{IsValidRow, Reach-IsValidRow}
use omni_os.Core.Vault.Revoked.{revoke-context}
use omni_os.Core.Vault.Steps.{here, next, adds, grants_scope, marks}
use omni_os.Core.Vault.Disclosed.{current_context_receipt-Disclosed}
use omni_os.Core.Vault.Deleted.{delete_memory-gone}
use omni_os.Core.Vault.Receipts.{receipt_status}

abbrev same_text : String → String
same_text s = s

abbrev stamp : String → Stamp
stamp id = record { fresh_id = id; time = 5 }

abbrev tea : Memory
tea = record {
  id = "m1";
  source_id = "s1";
  content = "Likes tea";
  status = "confirmed";
  created_at = 10;
  updated_at = 10;
  source = "manual";
}

abbrev tea_row : MemoryRow
tea_row = record {
  id = "m1";
  source_id = "s1";
  content = "Likes tea";
  status = "confirmed";
  created_at = 10;
  updated_at = 10;
}

abbrev tea_source : Source
tea_source = record { id = "s1"; kind = "manual"; content = "Likes tea"; created_at = 10 }

abbrev day_grant : Grant
day_grant = record {
  client_id = none;
  id = "g1";
  destination = "https://provider.test";
  scope = "*" ∷ [];
  expires_at = 3620;
  revoked_at = none;
  created_at = 20;
}

abbrev entry : String → String → String → AuditRecord
entry id action about = record {
  id = id;
  created_at = 5;
  action = action;
  level = "info";
  details = record no_details { entity_id = some about };
}

abbrev empty_vault : Vault
empty_vault = record {
  sources = [];
  rows = [];
  history = [];
  grant_rows = [];
  receipt_rows = [];
  journal = [];
}

abbrev with_tea : Vault
with_tea = record empty_vault {
  sources = tea_source ∷ [];
  rows = tea_row ∷ [];
  journal = entry "a1" "memory_created" "m1" ∷ [];
}

abbrev granted : Vault
granted = record with_tea {
  grant_rows = day_grant ∷ [];
  journal = entry "a2" "grant_created" "g1" ∷ entry "a1" "memory_created" "m1" ∷ [];
}

tea_added :
    add_memory empty_vault (stamp "a1") "s1" "m1" 10 "Likes tea" "confirmed" "manual"
    ≡ ok (tea, with_tea)
unfolding add_memory check_content check_source valid_status trim audit_on valid_action identifier
    metric level_of
tea_added = refl

day_granted :
    create_grant with_tea (stamp "a2") "g1" 20 20 "https://provider.test" ("*" ∷ []) 3600
    ≡ ok (day_grant, granted)
unfolding create_grant memories joined_rows audit_on valid_action identifier metric level_of
day_granted = refl

tea_selected : context same_text granted 30 "g1" "https://provider.test" none ≡ ok (tea ∷ [])
unfolding context grants select authorized within joined_rows
tea_selected = refl

context-IsEntitled_example : IsEntitled granted 30 "g1" "https://provider.test" (tea ∷ [])
context-IsEntitled_example =
    context-IsEntitled same_text granted 30 "g1" "https://provider.test" none (tea ∷ [])
      tea_selected

abbrev made : Receipt
made = record {
  id = "r1";
  destination = "https://provider.test";
  memory_ids = "m1" ∷ [];
  created_at = 30;
  grant_id = some "g1";
  status = "authorized";
}

tea_disclosed :
    current_context_receipt same_text granted "r1" 30 30 "https://provider.test" "g1" (tea ∷ [])
    ≡ ok (some made, record granted { receipt_rows = made ∷ [] })
unfolding current_context_receipt receipt context grants select authorized within joined_rows
tea_disclosed = refl

current_context_receipt-Disclosed_example :
    (context same_text granted 30 "g1" "https://provider.test" none ≡ ok (tea ∷ []))
    × IsEntitled granted 30 "g1" "https://provider.test" (tea ∷ [])
    × ((made.destination ≡ "https://provider.test")
        × (made.grant_id ≡ some "g1")
        × (made.memory_ids ≡ "m1" ∷ [])
        × (made.status ≡ "authorized")
        × (record granted { receipt_rows = made ∷ [] }
            ≡ record granted { receipt_rows = made ∷ [] }))
current_context_receipt-Disclosed_example =
    current_context_receipt-Disclosed same_text granted
      (record granted { receipt_rows = made ∷ [] }) "r1" 30 30 "https://provider.test" "g1"
      (tea ∷ []) (some made) tea_disclosed

abbrev revoked : Vault
revoked = record granted {
  grant_rows = record day_grant { revoked_at = some 40 } ∷ [];
  journal =
      entry "a3" "grant_revoked" "g1"
      ∷ entry "a2" "grant_created" "g1"
      ∷ entry "a1" "memory_created" "m1"
      ∷ [];
}

day_revoked : revoke granted (stamp "a3") 40 "g1" ≡ ok (true, revoked)
unfolding revoke audit_on valid_action identifier metric level_of
day_revoked = refl

revoke-context_example :
    context same_text (receipt_status revoked "r1" "sent") 50 "g1" "https://provider.test" none
    ≡ err grant_revoked
revoke-context_example =
    revoke-context same_text granted revoked (receipt_status revoked "r1" "sent") (stamp "a3") 40 50
      "g1" "https://provider.test" none day_revoked (next here (marks "r1" "sent"))

abbrev forgotten : Vault
forgotten = record granted {
  sources = [];
  rows = [];
  journal =
      entry "a3" "memory_deleted" "m1"
      ∷ entry "a2" "grant_created" "g1"
      ∷ entry "a1" "memory_created" "m1"
      ∷ [];
}

tea_deleted : delete_memory granted (stamp "a3") "m1" ≡ ok (true, forgotten)
unfolding delete_memory audit_on valid_action identifier metric level_of
tea_deleted = refl

delete_memory-gone_example :
    All (λ (r : MemoryRow). str_eq r.id "m1" ≡ false) forgotten.rows
    × (true ≡ true → All (λ (h : HistoryRow). str_eq h.memory_id "m1" ≡ false) forgotten.history)
    × ((now : ℕ) (grant_id destination : String) (query : Option String) (ms : List Memory)
        → context same_text forgotten now grant_id destination query ≡ ok ms
        → All (λ (m : Memory). str_eq m.id "m1" ≡ false) ms)
delete_memory-gone_example =
    delete_memory-gone same_text granted forgotten (stamp "a3") "m1" true tea_deleted

Reach-IsValidRow_example : All IsValidRow granted.rows
Reach-IsValidRow_example = Reach-IsValidRow empty_vault granted refl (
    next
      (next here
        (adds with_tea (stamp "a1") "s1" "m1" 10 "Likes tea" "confirmed" "manual" tea tea_added))
      (grants_scope granted (stamp "a2") "g1" 20 20 "https://provider.test" ("*" ∷ []) 3600
        day_grant day_granted))
