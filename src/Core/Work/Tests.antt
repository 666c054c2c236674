-- ===== src/Core/Work/Tests.antt =====
-- The work installation at concrete operations; the hash of a token is the token.
use omni_os.Prelude.{
  ok, text_comparable, pair_comparable, one_of, trim, String, ◌≡◌, refl, ◌↔◌, true, none, some, [],
  ◌∷◌, arith,
}
use omni_os.Core.Audit.{
  Stamp, AuditRecord, Details, no_details, audit_on, valid_action, identifier, metric, level_of,
}
use omni_os.Core.Vault.{Grant}
use omni_os.Core.Work.{
  Work, WorkClient, Approval, client, label, enable_work, create_work_client, active_client,
  authenticate_client,
}
use omni_os.Core.Work.Access.{authorize_principal, bind_work_grant, revoke_client}
use omni_os.Core.Work.Steps.{here, next, enables}
use omni_os.Core.Work.Ended.{IsOut, revoke_client-IsOut}
use omni_os.Core.Work.Allowed.{
  MayAct, authorize_principal_iff, create_work_client-authenticate_client,
}

abbrev same_text : String → String
same_text s = s

abbrev stamp : String → Stamp
stamp id = record { fresh_id = id; time = 5 }

abbrev entry : String → String → Details → AuditRecord
entry id action details = record {
  id = id;
  created_at = 5;
  action = action;
  level = "info";
  details = details;
}

abbrev about : String → Details
about id = record no_details { entity_id = some id }

abbrev enabled_details : Details
enabled_details = record no_details { enabled = some true }

abbrev token : String
token = "00112233445566778899aabbccddeeff00112233445566778899aabbccddeeff"

abbrev day_grant : Grant
day_grant = record {
  client_id = none;
  id = "g1";
  destination = "https://provider.test";
  scope = "*" ∷ [];
  expires_at = 3620;
  revoked_at = none;
  created_at = 20;
}

abbrev work_0 : Work
work_0 = record {
  name = "Office";
  enabled = true;
  clients = [];
  requests = [];
  vault = record {
    sources = [];
    rows = [];
    history = [];
    grant_rows = day_grant ∷ [];
    receipt_rows = [];
    journal = [];
  };
}

abbrev approval : Approval
approval = record { id = "c1"; token = token; now = 10; created = 10 }

abbrev laptop : WorkClient
laptop = record {
  id = "c1";
  label = "Laptop";
  token_hash = token;
  destinations = "https://provider.test" ∷ [];
  expires_at = 3610;
  revoked_at = none;
  created_at = 10;
}

abbrev work_1 : Work
work_1 = record work_0 {
  clients = laptop ∷ [];
  vault = record work_0.vault { journal = entry "a1" "client_approved" (about "c1") ∷ [] };
}

laptop_approved :
    create_work_client same_text work_0
      (stamp "a1")
      approval
      " Laptop "
      ("https://provider.test" ∷ [])
      3600
    ≡ ok (laptop, work_1)
unfolding create_work_client label trim audit_on valid_action identifier metric level_of
laptop_approved = refl

create_work_client-authenticate_client_example :
    (authenticate_client same_text work_1 50 token ≡ some (client "c1"))
    × ((destination : String)
        → one_of ("https://provider.test" ∷ []) destination ≡ true
        → authorize_principal work_1 50 (client "c1") destination none ≡ ok tt)
create_work_client-authenticate_client_example =
    create_work_client-authenticate_client same_text work_0 work_1 (stamp "a1") approval " Laptop "
      ("https://provider.test" ∷ []) 3600 50 laptop laptop_approved refl (omega arith)

abbrev work_2 : Work
work_2 = record work_1 {
  vault = record work_1.vault { grant_rows = record day_grant { client_id = some "c1" } ∷ [] };
}

grant_bound : bind_work_grant work_1 30 "g1" "c1" "https://provider.test" ≡ ok work_2
unfolding bind_work_grant active_client
grant_bound = refl

authorize_principal_iff_example :
    (authorize_principal work_2 50 (client "c1") "https://provider.test" (some "g1") ≡ ok tt)
    ↔ MayAct work_2 50 (client "c1") "https://provider.test" (some "g1")
authorize_principal_iff_example =
    authorize_principal_iff work_2 50 (client "c1") "https://provider.test" (some "g1")

abbrev work_3 : Work
work_3 = record work_2 {
  clients = record laptop { revoked_at = some 60 } ∷ [];
  vault = record work_2.vault {
    grant_rows = record day_grant { client_id = some "c1"; revoked_at = some 61 } ∷ [];
    journal =
        entry "a2" "client_revoked" (about "c1") ∷ entry "a1" "client_approved" (about "c1") ∷ [];
  };
}

laptop_revoked : revoke_client work_2 (stamp "a2") 60 61 "c1" ≡ ok (true, work_3)
unfolding revoke_client audit_on valid_action identifier metric level_of
laptop_revoked = refl

abbrev work_4 : Work
work_4 = record work_3 {
  name = "Home";
  vault = record work_3.vault {
    journal =
        entry "a3" "work_enabled" enabled_details
        ∷ entry "a2" "client_revoked" (about "c1")
        ∷ entry "a1" "client_approved" (about "c1")
        ∷ [];
  };
}

enabled_again : enable_work work_3 (stamp "a3") "Home" ≡ ok work_4
unfolding enable_work label trim audit_on valid_action identifier metric level_of
enabled_again = refl

revoke_client-IsOut_example : IsOut same_text same_text "c1" work_4
revoke_client-IsOut_example =
    revoke_client-IsOut same_text same_text work_2 work_3 work_4 (stamp "a2") 60 61 "c1"
      laptop_revoked (next here (enables work_4 (stamp "a3") "Home" enabled_again))
