-- ===== src/Core/Work/Steps.antt =====
-- The steps of a work installation, and what they do to its clients and to the grants.

use omni_os.Core.Work.{
  active_client, Work, WorkClient, Approval, Principal, has_client, enable_work, create_work_client,
}
use omni_os.Core.Vault.{Vault}
use omni_os.Prelude.{
  any, >>=-eq-ok, ok, text_comparable, pair_comparable, ℕ, String, ◌≡◌, ◌⊎◌, Bool, true, false,
  Option, List, ◌∷◌, map, arith,
}
use omni_os.Core.Work.Access.{
  end_client, end_grant, revoke_client, bind_grant, bind_work_grant, record_work_request,
}
use omni_os.Core.Vault.Steps.{Step}
use omni_os.Core.Audit.{Stamp}

-- One successful operation of the installation, or of its vault.
pub data WorkStep (hash : String → String) (w : Work) : Work → Type 0 where
  enables :
      (x : Work) (stamp : Stamp) (name : String)
      → enable_work w stamp name ≡ ok x
      → WorkStep hash w x
  approves :
      (x : Work) (stamp : Stamp) (approval : Approval) (name : String) (destinations : List String)
      (seconds : ℕ) (c : WorkClient)
      → create_work_client hash w stamp approval name destinations seconds ≡ ok (c, x)
      → WorkStep hash w x
  ends :
      (x : Work) (stamp : Stamp) (now later : ℕ) (id : String) (found : Bool)
      → revoke_client w stamp now later id ≡ ok (found, x)
      → WorkStep hash w x
  binds :
      (x : Work) (now : ℕ) (grant_id client_id destination : String)
      → bind_work_grant w now grant_id client_id destination ≡ ok x
      → WorkStep hash w x
  records :
      (x : Work) (known : List String) (now : ℕ) (interaction : String) (principal : Principal)
      (receipt : Option String) (preflight policy : ℕ)
      → record_work_request known w now interaction principal receipt preflight policy ≡ ok x
      → WorkStep hash w x
  in_vault : (v : Vault) → Step w.vault v → WorkStep hash w (record w { vault = v })

pub data WorkReach (hash : String → String) (w : Work) : Work → Type 0 where
  here : WorkReach hash w w
  next : {x y : Work} → WorkReach hash w x → WorkStep hash x y → WorkReach hash w y

-- What the operations do to the clients and the grants.
pub enable_work-tables :
    (w x : Work) (stamp : Stamp) (name : String)
    → enable_work w stamp name ≡ ok x
    → (x.clients ≡ w.clients) × (x.vault.grant_rows ≡ w.vault.grant_rows)
unfolding enable_work
enable_work-tables w x stamp name h = (ground arith, ground arith)

pub create_work_client-tables :
    (hash : String → String) (w x : Work) (stamp : Stamp) (approval : Approval) (name : String)
    (destinations : List String) (seconds : ℕ) (c : WorkClient)
    → create_work_client hash w stamp approval name destinations seconds ≡ ok (c, x)
    → (any (has_client c.id) w.clients ≡ false)
      × (x.clients ≡ c ∷ w.clients)
      × (x.vault.grant_rows ≡ w.vault.grant_rows)
unfolding create_work_client
create_work_client-tables hash w x stamp approval name destinations seconds c h =
    (ground arith, ground arith, ground arith)

pub revoke_client-tables :
    (w x : Work) (stamp : Stamp) (now later : ℕ) (id : String) (found : Bool)
    → revoke_client w stamp now later id ≡ ok (found, x)
    → ((found ≡ true)
        × (any (has_client id) w.clients ≡ true)
        × (x.clients ≡ map (end_client id now) w.clients)
        × (x.vault.grant_rows ≡ map (end_grant id later) w.vault.grant_rows))
      ⊎ ((found ≡ false) × (x ≡ w))
unfolding revoke_client
revoke_client-tables w x stamp now later id found h = ground arith

pub bind_work_grant-tables :
    (w x : Work) (now : ℕ) (grant_id client_id destination : String)
    → bind_work_grant w now grant_id client_id destination ≡ ok x
    → ((c : WorkClient) × (active_client w now client_id ≡ ok c))
      × (x.clients ≡ w.clients)
      × (x.vault.grant_rows ≡ map (bind_grant grant_id client_id) w.vault.grant_rows)
unfolding bind_work_grant
bind_work_grant-tables w x now grant_id client_id destination h =
    let (c, a, h1) = >>=-eq-ok (active_client w now client_id) _ h in
    ((c, a), ground arith, ground arith)

pub record_work_request-tables :
    (known : List String) (w x : Work) (now : ℕ) (interaction : String) (principal : Principal)
    (receipt : Option String) (preflight policy : ℕ)
    → record_work_request known w now interaction principal receipt preflight policy ≡ ok x
    → (x.clients ≡ w.clients) × (x.vault.grant_rows ≡ w.vault.grant_rows)
unfolding record_work_request
record_work_request-tables known w x now interaction principal receipt preflight policy h =
    (ground arith, ground arith)
