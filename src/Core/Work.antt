-- ===== src/Core/Work.antt =====
-- The work installation, crates/omni-core/src/work.rs: individually approved clients beside the owner,
-- with their tokens, destinations and lifetimes. The state holds the vault, whose grants are bound to
-- clients; the binding of `work_grants` is the field `client_id` of the grant's row. SHA-256 of a token
-- in hex is a parameter, a random token an argument.
pub mod Access
pub mod Ended
pub mod Allowed
pub mod Steps
mod Tests
use omni_os.Prelude.{
  ltb, leb, ◌==◌, if◌then◌else◌, length, any, keep_if, find, ensure, or_fail, ◌>>=◌, ◌>>◌, Result,
  ok, err, text_comparable, pair_comparable, is_control, all_chars, any_char, is_empty, trim, ℕ,
  ◌+◌, String, len, Bool, true, not, ◌&&◌, ◌||◌, Option, none, some, List, ◌∷◌, str_eq,
}
use omni_os.Core.Errors.{
  Error, constraint_failed, invalid_label, work_not_enabled, client_limits, too_many_clients,
  unknown_client, client_inactive,
}
use omni_os.Core.Audit.{Stamp, no_details, audit_on}
use omni_os.Core.Vault.{Vault}
use omni_os.Core.Vault.Context.{is_none}

pub data Principal : Type 0 where
  owner legacy : Principal
  client : String → Principal

-- `Principal::id`
abbrev pub principal_id : Principal → String
principal_id owner = "owner-workspace"
principal_id legacy = "legacy-integration"
principal_id (client id) = id

-- A row of `work_clients`.
pub record WorkClient : Type 0 where
  pub id : String
  pub label : String
  pub token_hash : String
  pub destinations : List String
  pub expires_at : ℕ
  pub revoked_at : Option ℕ
  pub created_at : ℕ

-- A row of `work_requests`.
pub record WorkRequest : Type 0 where
  pub interaction_id : String
  pub principal : String
  pub receipt_id : Option String
  pub preflight_us : ℕ
  pub policy_us : ℕ
  pub created_at : ℕ

pub record Work : Type 0 where
  pub name : String
  pub enabled : Bool
  pub clients : List WorkClient
  pub requests : List WorkRequest
  pub vault : Vault

-- `label`: the trimmed name.
unfoldable pub label : String → Result Error String
label value = do
  let name : String = trim value
  ensure (not (is_empty name) && (leb (len name) 120 && not (any_char is_control name)))
      invalid_label
  ok name

-- `Vault::enable_work`
unfoldable pub enable_work : Work → Stamp → String → Result Error Work
enable_work work stamp value = do
  name ← label value
  journal ←
      audit_on work.vault.journal stamp "work_enabled" (record no_details { enabled = some true })
  ok (record work { name = name; enabled = true; vault = record work.vault { journal = journal } })

abbrev pub is_active_row : WorkClient → Bool
is_active_row c = is_none c.revoked_at

-- The number of rows that are not revoked.
abbrev pub active_count : List WorkClient → ℕ
active_count clients = length (keep_if is_active_row clients)

abbrev pub is_hex_digit : ℕ → Bool
is_hex_digit c =
    (leb b'0' c && leb c b'9') || ((leb b'A' c && leb c b'F') || (leb b'a' c && leb c b'f'))

abbrev pub has_client : String → WorkClient → Bool
has_client id c = str_eq c.id id

abbrev pub has_hash : String → WorkClient → Bool
has_hash hash c = str_eq c.token_hash hash

-- The client under approval, with what the code draws for it.
pub record Approval : Type 0 where
  pub id : String
  pub token : String
  pub now : ℕ
  pub created : ℕ

abbrev pub client_of : Approval → String → String → List String → ℕ → WorkClient
client_of approval hash name destinations seconds = record {
  id = approval.id;
  label = name;
  token_hash = hash;
  destinations = destinations;
  expires_at = approval.now + seconds;
  revoked_at = none;
  created_at = approval.created;
}

-- `Vault::work_clients`: ordered by the time of creation, the latest first; only `find` by a primary
-- key reads it, so the rows serve as they are.
abbrev pub work_clients : Work → List WorkClient
work_clients work = work.clients

-- `Vault::active_client`
unfoldable pub active_client : Work → ℕ → String → Result Error WorkClient
active_client work now id = do
  ensure work.enabled work_not_enabled
  c ← or_fail (find (has_client id) (work_clients work)) unknown_client
  ensure (is_none c.revoked_at && ltb now c.expires_at) client_inactive
  ok c

module _ (hash : String → String) where
  -- `Vault::create_work_client`
  unfoldable pub create_work_client :
      Work → Stamp → Approval → String → List String → ℕ → Result Error (WorkClient × Work)
  create_work_client work stamp approval value destinations seconds = do
    ensure work.enabled work_not_enabled
    ensure
        (leb 1 (length destinations)
          && (leb (length destinations) 16 && (leb 60 seconds && leb seconds 2592000)))
        client_limits
    ensure (ltb (active_count work.clients) 32) too_many_clients
    name ← label value
    let c : WorkClient = client_of approval (hash approval.token) name destinations seconds
    ensure
        (not (any (has_client c.id) work.clients) && not (any (has_hash c.token_hash) work.clients))
        constraint_failed
    journal ←
        audit_on work.vault.journal stamp "client_approved"
          (record no_details { entity_id = some approval.id })
    ok (
      c,
      record work { clients = c ∷ work.clients; vault = record work.vault { journal = journal } },
    )

  abbrev well_formed : String → Bool
  well_formed token = len token == 64 && all_chars is_hex_digit token

  abbrev pub active_principal : Result Error WorkClient → String → Option Principal
  active_principal (ok c) id = some (client id)
  active_principal (err e) id = none

  abbrev pub known_principal : Work → ℕ → Option WorkClient → Option Principal
  known_principal work now none = none
  known_principal work now (some c) = active_principal (active_client work now c.id) c.id

  -- `Vault::authenticate_client`
  unfoldable pub authenticate_client : Work → ℕ → String → Option Principal
  authenticate_client work now token =
      if well_formed token
      then known_principal work now (find (has_hash (hash token)) work.clients)
      else none
