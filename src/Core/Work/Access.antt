-- ===== src/Core/Work/Access.antt =====
-- What a client may do, and the end of it: `revoke_client`, `bind_work_grant`, `authorize_principal` and
-- `record_work_request` of crates/omni-core/src/work.rs.

use omni_os.Core.Audit.{some_and, Stamp, no_details, audit_on}
use omni_os.Prelude.{
  ltb, if◌then◌else◌, any, keep_if, find, ensure, or_fail, ◌>>=◌, ◌>>◌, Result, ok, text_comparable,
  pair_comparable, one_of, ℕ, ◌^◌, String, Bool, true, false, not, Option, none, some, List, ◌∷◌,
  map, str_eq,
}
use omni_os.Core.Errors.{
  Error, constraint_failed, out_of_range, client_destination, client_required, grant_other_client,
}
use omni_os.Core.Vault.{Grant}
use omni_os.Core.Vault.Context.{or_now}
use omni_os.Core.Work.{
  Work, WorkClient, WorkRequest, Principal, owner, legacy, client, principal_id, has_client,
  active_client,
}

abbrev pub is_bound : String → Grant → Bool
is_bound id grant = some_and (str_eq id) grant.client_id

abbrev pub end_client : String → ℕ → WorkClient → WorkClient
end_client id now c =
    if has_client id c then record c { revoked_at = or_now c.revoked_at now } else c

abbrev pub end_grant : String → ℕ → Grant → Grant
end_grant id now grant =
    if is_bound id grant then record grant { revoked_at = or_now grant.revoked_at now } else grant

abbrev revoke_found : Work → Stamp → ℕ → ℕ → String → Bool → Result Error (Bool × Work)
revoke_found work stamp now later id false = ok (false, work)
revoke_found work stamp now later id true = do
  journal ←
      audit_on work.vault.journal stamp "client_revoked" (record no_details { entity_id = some id })
  ok (
    true,
    record work {
      clients = map (end_client id now) work.clients;
      vault = record work.vault {
        grant_rows = map (end_grant id later) work.vault.grant_rows;
        journal = journal;
      };
    },
  )

-- `Vault::revoke_client`: the client and every grant that is bound to it, at the times of two reads of
-- the clock.
unfoldable pub revoke_client : Work → Stamp → ℕ → ℕ → String → Result Error (Bool × Work)
revoke_client work stamp now later id =
    revoke_found work stamp now later id (any (has_client id) work.clients)

abbrev pub has_grant : String → Grant → Bool
has_grant id grant = str_eq grant.id id

abbrev is_unbound : Option String → Bool
is_unbound none = true
is_unbound (some id) = false

abbrev pub bind_grant : String → String → Grant → Grant
bind_grant id client_id grant =
    if has_grant id grant then record grant { client_id = some client_id } else grant

-- `Vault::bind_work_grant`: the grant exists (a foreign key) and is not bound (the primary key).
unfoldable pub bind_work_grant : Work → ℕ → String → String → String → Result Error Work
bind_work_grant work now grant_id client_id destination = do
  c ← active_client work now client_id
  ensure (one_of c.destinations destination) client_destination
  grant ← or_fail (find (has_grant grant_id) work.vault.grant_rows) constraint_failed
  ensure (is_unbound grant.client_id) constraint_failed
  ok (record work {
    vault = record work.vault {
      grant_rows = map (bind_grant grant_id client_id) work.vault.grant_rows;
    };
  })

abbrev pub client_of_grant : Option Grant → Option String
client_of_grant none = none
client_of_grant (some grant) = grant.client_id

abbrev pub binding_of : Work → String → Option String
binding_of work grant_id = client_of_grant (find (has_grant grant_id) work.vault.grant_rows)

abbrev pub covers : Work → String → Option String → Bool
covers work id none = true
covers work id (some grant_id) = some_and (str_eq id) (binding_of work grant_id)

-- `Vault::authorize_principal`
unfoldable pub authorize_principal :
    Work → ℕ → Principal → String → Option String → Result Error (Unit {0})
authorize_principal work now owner destination grant_id = ok tt
authorize_principal work now legacy destination grant_id = ensure (not work.enabled) client_required
authorize_principal work now (client id) destination grant_id = do
  c ← active_client work now id
  ensure (one_of c.destinations destination) client_destination
  ensure (covers work id grant_id) grant_other_client

-- `Vault::record_work_request`; `known` are the interactions in the journal.
unfoldable pub record_work_request :
    List String → Work → ℕ → String → Principal → Option String → ℕ → ℕ → Result Error Work
record_work_request known work now interaction principal receipt preflight policy = do
  ensure (ltb preflight (2 ^ 63)) out_of_range
  ensure (ltb policy (2 ^ 63)) out_of_range
  ensure (not (any (λ (r : WorkRequest). str_eq r.interaction_id interaction) work.requests))
      constraint_failed
  let made : WorkRequest = record {
    interaction_id = interaction;
    principal = principal_id principal;
    receipt_id = receipt;
    preflight_us = preflight;
    policy_us = policy;
    created_at = now;
  }
  ok (record work {
    requests = keep_if (λ (r : WorkRequest). one_of known r.interaction_id) (made ∷ work.requests);
  })
