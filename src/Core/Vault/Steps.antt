-- ===== src/Core/Vault/Steps.antt =====
-- The steps of a vault, and what a step does to its grants.
use omni_os.Prelude.{
  any, ok, text_comparable, pair_comparable, ℕ, String, ◌≡◌, sym, ap, subst, ◌⊎◌, inl, inr, Bool,
  true, false, Option, none, List, ◌∷◌, map, arith, str_eq,
}
use omni_os.Core.Audit.{Stamp}
use omni_os.Core.Vault.{
  Receipt, Vault, Memory, Grant, add_memory, update_memory, delete_memory, delete_source,
}
use omni_os.Core.Vault.Capture.{add_capture}
use omni_os.Core.Vault.Context.{create_grant, revoke, revoke_row}
use omni_os.Core.Vault.Receipts.{receipt, receipt_status}

-- One successful operation.
pub data Step (v : Vault) : Vault → Type 0 where
  adds :
      (w : Vault) (stamp : Stamp) (source_id id : String) (time : ℕ) (content status kind : String)
      (m : Memory)
      → add_memory v stamp source_id id time content status kind ≡ ok (m, w)
      → Step v w
  updates :
      (w : Vault) (stamp : Stamp) (time : ℕ) (id : String) (content status : Option String)
      (m : Memory)
      → update_memory v stamp time id content status ≡ ok (m, w)
      → Step v w
  deletes :
      (w : Vault) (stamp : Stamp) (id : String) (found : Bool)
      → delete_memory v stamp id ≡ ok (found, w)
      → Step v w
  deletes_source :
      (w : Vault) (stamp : Stamp) (id : String) (found : Bool)
      → delete_source v stamp id ≡ ok (found, w)
      → Step v w
  captures :
      (w : Vault) (stamp : Stamp) (source_id : String) (time : ℕ) (raw kind : String)
      (proposals : List (String × String)) (ms : List Memory)
      → add_capture v stamp source_id time raw kind proposals ≡ ok (ms, w)
      → Step v w
  grants_scope :
      (w : Vault) (stamp : Stamp) (id : String) (now created : ℕ) (destination : String)
      (scope : List String) (seconds : ℕ) (g : Grant)
      → create_grant v stamp id now created destination scope seconds ≡ ok (g, w)
      → Step v w
  revokes :
      (w : Vault) (stamp : Stamp) (now : ℕ) (id : String) (found : Bool)
      → revoke v stamp now id ≡ ok (found, w)
      → Step v w
  discloses :
      (w : Vault) (id : String) (time : ℕ) (destination : String) (ms : List Memory)
      (grant_id : Option String) (made : Receipt)
      → receipt v id time destination ms grant_id ≡ ok (made, w)
      → Step v w
  marks : (id status : String) → Step v (receipt_status v id status)

pub data Reach (v : Vault) : Vault → Type 0 where
  here : Reach v v
  next : {w x : Vault} → Reach v w → Step w x → Reach v x

abbrev pub has_id : String → Grant → Bool
has_id id g = str_eq g.id id

-- What one operation does to the table of grants.
pub data GrantMove (rows : List Grant) : List Grant → Type 0 where
  stays : GrantMove rows rows
  revokes_id : (id : String) (now : ℕ) → GrantMove rows (map (revoke_row id now) rows)
  adds_grant :
      (g : Grant) → any (has_id g.id) rows ≡ false → g.client_id ≡ none → GrantMove rows (g ∷ rows)

-- The operations that leave the grants as they are.
add_memory-grant_rows :
    (v w : Vault) (stamp : Stamp) (source_id id : String) (time : ℕ) (content status kind : String)
    (m : Memory)
    → add_memory v stamp source_id id time content status kind ≡ ok (m, w)
    → w.grant_rows ≡ v.grant_rows
unfolding add_memory
add_memory-grant_rows v w stamp source_id id time content status kind m h = ground arith

update_memory-grant_rows :
    (v w : Vault) (stamp : Stamp) (time : ℕ) (id : String) (content status : Option String)
    (m : Memory)
    → update_memory v stamp time id content status ≡ ok (m, w)
    → w.grant_rows ≡ v.grant_rows
unfolding update_memory
update_memory-grant_rows v w stamp time id content status m h = ground arith

delete_memory-grant_rows :
    (v w : Vault) (stamp : Stamp) (id : String) (found : Bool)
    → delete_memory v stamp id ≡ ok (found, w)
    → w.grant_rows ≡ v.grant_rows
unfolding delete_memory
delete_memory-grant_rows v w stamp id found h = ground arith

delete_source-grant_rows :
    (v w : Vault) (stamp : Stamp) (id : String) (found : Bool)
    → delete_source v stamp id ≡ ok (found, w)
    → w.grant_rows ≡ v.grant_rows
unfolding delete_source
delete_source-grant_rows v w stamp id found h = ground arith

add_capture-grant_rows :
    (v w : Vault) (stamp : Stamp) (source_id : String) (time : ℕ) (raw kind : String)
    (proposals : List (String × String)) (ms : List Memory)
    → add_capture v stamp source_id time raw kind proposals ≡ ok (ms, w)
    → w.grant_rows ≡ v.grant_rows
unfolding add_capture
add_capture-grant_rows v w stamp source_id time raw kind proposals ms h = ground arith

receipt-grant_rows :
    (v w : Vault) (id : String) (time : ℕ) (destination : String) (ms : List Memory)
    (grant_id : Option String) (made : Receipt)
    → receipt v id time destination ms grant_id ≡ ok (made, w)
    → w.grant_rows ≡ v.grant_rows
unfolding receipt
receipt-grant_rows v w id time destination ms grant_id made h = ground arith

create_grant-grant_rows :
    (v w : Vault) (stamp : Stamp) (id : String) (now created : ℕ) (destination : String)
    (scope : List String) (seconds : ℕ) (g : Grant)
    → create_grant v stamp id now created destination scope seconds ≡ ok (g, w)
    → (any (has_id g.id) v.grant_rows ≡ false)
      × (g.client_id ≡ none)
      × (w.grant_rows ≡ g ∷ v.grant_rows)
unfolding create_grant
create_grant-grant_rows v w stamp id now created destination scope seconds g h =
    (ground arith, ground arith, ground arith)

pub revoke-grant_rows :
    (v w : Vault) (stamp : Stamp) (now : ℕ) (id : String) (found : Bool)
    → revoke v stamp now id ≡ ok (found, w)
    → ((found ≡ true)
        × (any (has_id id) v.grant_rows ≡ true)
        × (w.grant_rows ≡ map (revoke_row id now) v.grant_rows))
      ⊎ ((found ≡ false) × (w ≡ v))
unfolding revoke
revoke-grant_rows v w stamp now id found h = ground arith

same_rows : (rows after : List Grant) → after ≡ rows → GrantMove rows after
same_rows rows after e = subst (GrantMove rows) (sym e) stays

pub Step-GrantMove : (v w : Vault) → Step v w → GrantMove v.grant_rows w.grant_rows
unfolding receipt_status
Step-GrantMove v w (adds _ stamp source_id mid time content status kind m h) =
    same_rows _ _ (add_memory-grant_rows v w stamp source_id mid time content status kind m h)
Step-GrantMove v w (updates _ stamp time mid content status m h) =
    same_rows _ _ (update_memory-grant_rows v w stamp time mid content status m h)
Step-GrantMove v w (deletes _ stamp mid found h) =
    same_rows _ _ (delete_memory-grant_rows v w stamp mid found h)
Step-GrantMove v w (deletes_source _ stamp sid found h) =
    same_rows _ _ (delete_source-grant_rows v w stamp sid found h)
Step-GrantMove v w (captures _ stamp source_id time raw kind proposals ms h) =
    same_rows _ _ (add_capture-grant_rows v w stamp source_id time raw kind proposals ms h)
Step-GrantMove v w (grants_scope _ stamp gid now created destination scope seconds g h) =
    let (new, unbound, rows) =
      create_grant-grant_rows v w stamp gid now created destination scope seconds g h in
    subst (GrantMove v.grant_rows) (sym rows) (adds_grant g new unbound)
Step-GrantMove v w (revokes _ stamp now gid found h) =
    elim (revoke-grant_rows v w stamp now gid found h) [
      | inl (yes_, some_, rows) ↦ subst (GrantMove v.grant_rows) (sym rows) (revokes_id gid now)
      | inr (no_, same) ↦ same_rows _ _ (ap (λ (x : Vault). x.grant_rows) same)
    ]
Step-GrantMove v w (discloses _ rid time destination ms grant_id made h) =
    same_rows _ _ (receipt-grant_rows v w rid time destination ms grant_id made h)
Step-GrantMove v w (marks rid status) = stays
