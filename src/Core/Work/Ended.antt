-- ===== src/Core/Work/Ended.antt =====
-- What is left of a client that was revoked with `revoke_client` of crates/omni-core/src/work.rs, and of
-- the grants bound to it.
use omni_os.Prelude.{
  leb, ◌==◌, Bool-cases, any, find, All, Result-cases, ok, err, text_comparable, pair_comparable,
  all_chars, ℕ, String, len, ◌≡◌, refl, sym, ◌∙◌, subst, ◌≢◌, inl, inr, Bool, true, false, ◌&&◌,
  Option, none, some, List, [], ◌∷◌, map, arith, str_eq, eq_iff,
}
use omni_os.Core.Errors.{Error, grant_revoked, client_inactive, work_not_enabled}
use omni_os.Core.Audit.{Stamp}
use omni_os.Core.Vault.{Grant, grants}
use omni_os.Core.Vault.Context.{context, is_none, revoke_row}
use omni_os.Core.Vault.Steps.{GrantMove, stays, revokes_id, adds_grant, Step-GrantMove}
use omni_os.Core.Vault.Revoked.{or_now-some}
use omni_os.Core.Vault.Selected.{All-sort_by, find-All}
use omni_os.Core.Work.{
  Work, WorkClient, client, has_client, is_hex_digit, active_client, authenticate_client,
  known_principal,
}
use omni_os.Core.Work.Access.{
  is_bound, end_client, end_grant, revoke_client, bind_grant, authorize_principal,
}
use omni_os.Core.Work.Steps.{
  WorkStep, WorkReach, enables, approves, ends, binds, records, in_vault, here, next,
  enable_work-tables, create_work_client-tables, revoke_client-tables, bind_work_grant-tables,
  record_work_request-tables,
}

abbrev ClientOver : String → WorkClient → Type 0
ClientOver id c = has_client id c ≡ true → is_none c.revoked_at ≡ false

abbrev GrantOver : String → Grant → Type 0
GrantOver id g = is_bound id g ≡ true → is_none g.revoked_at ≡ false

record IsEnded (id : String) (clients : List WorkClient) (rows : List Grant) : Type 0 where
  pub present : any (has_client id) clients ≡ true
  pub clients_over : All (ClientOver id) clients
  pub grants_over : All (GrantOver id) rows

All-map {ℓ} :
    {A : Type ℓ} (P : A → Type 0) (f : A → A) (xs : List A)
    → ((x : A) → P x → P (f x))
    → All P xs
    → All P (map f xs)
All-map P f [] h ps = tt
All-map P f (x ∷ xs) h ps = (h x ps.0, All-map P f xs h ps.1)

All-map_new {ℓ} :
    {A : Type ℓ} (P : A → Type 0) (f : A → A) (xs : List A) → ((x : A) → P (f x)) → All P (map f xs)
All-map_new P f [] h = tt
All-map_new P f (x ∷ xs) h = (h x, All-map_new P f xs h)

any-map :
    (id other : String) (now : ℕ) (cs : List WorkClient)
    → any (has_client id) (map (end_client other now) cs) ≡ any (has_client id) cs
any-map id other now [] = refl
any-map id other now (c ∷ cs) = let ih = any-map id other now cs in ground arith

end_client-over :
    (id other : String) (now : ℕ) (c : WorkClient)
    → ClientOver id c
    → ClientOver id (end_client other now c)
end_client-over id other now c over same = let o = or_now-some c.revoked_at now in ground arith

end_client_now : (id : String) (now : ℕ) (c : WorkClient) → ClientOver id (end_client id now c)
end_client_now id now c same = let o = or_now-some c.revoked_at now in ground arith

end_grant-over :
    (id other : String) (now : ℕ) (g : Grant)
    → GrantOver id g
    → GrantOver id (end_grant other now g)
end_grant-over id other now g over same = let o = or_now-some g.revoked_at now in ground arith

end_grant_now : (id : String) (now : ℕ) (g : Grant) → GrantOver id (end_grant id now g)
end_grant_now id now g same = let o = or_now-some g.revoked_at now in ground arith

revoke_row-over :
    (id other : String) (now : ℕ) (g : Grant)
    → GrantOver id g
    → GrantOver id (revoke_row other now g)
revoke_row-over id other now g over same = let o = or_now-some g.revoked_at now in ground arith

bind_grant-over :
    (id grant_id client_id : String) (g : Grant)
    → str_eq id client_id ≡ false
    → GrantOver id g
    → GrantOver id (bind_grant grant_id client_id g)
bind_grant-over id grant_id client_id g other over same = ground arith

find-any :
    (p : WorkClient → Bool) (xs : List WorkClient)
    → any p xs ≡ true
    → (c : WorkClient) × (find p xs ≡ some c)
find-any p [] h = cc
find-any p (x ∷ xs) h = elim (Bool-cases (p x)) [
  | inl hit ↦ (x, rw hit refl)
  | inr miss ↦ let r = find-any p xs (rw miss at h) in (r.0, rw miss r.1)
]

IsEnded-active_client :
    (id : String) (w : Work) (now : ℕ)
    → IsEnded id w.clients w.vault.grant_rows
    → (e : Error) × (active_client w now id ≡ err e)
unfolding active_client
IsEnded-active_client id w now r =
    let (c, found) = find-any (has_client id) w.clients r.present in
    let (over, same) = find-All (ClientOver id) (has_client id) w.clients c r.clients_over found in
    let gone = over same in
    elim (Bool-cases w.enabled) [
      | inl on ↦ (client_inactive, rw (on, found, gone) refl)
      | inr off ↦ (work_not_enabled, rw off refl)
    ]

move-GrantOver :
    (id : String) (rows after : List Grant)
    → GrantMove rows after
    → All (GrantOver id) rows
    → All (GrantOver id) after
move-GrantOver id rows after stays ps = ps
move-GrantOver id rows after (revokes_id other now) ps =
    All-map (GrantOver id) _ rows (revoke_row-over id other now) ps
move-GrantOver id rows after (adds_grant g new unbound) ps = ((λ same. ground arith), ps)

bound_apart :
    (id client_id : String) (w : Work) (now : ℕ) (c : WorkClient)
    → IsEnded id w.clients w.vault.grant_rows
    → active_client w now client_id ≡ ok c
    → str_eq id client_id ≡ false
bound_apart id client_id w now c r a = elim (Bool-cases (str_eq id client_id)) [
  | inl same ↦
      let e = IsEnded-active_client id w now r in
      let b = subst (λ i. active_client w now i ≡ ok c) (sym ((eq_iff id client_id).0 same)) a in
      absurd (let d : err e.0 ≡ ok c = sym e.1 ∙ b in cc)
  | inr differs ↦ differs
]

WorkStep-IsEnded :
    (hash : String → String) (id : String) (w x : Work)
    → WorkStep hash w x
    → IsEnded id w.clients w.vault.grant_rows
    → IsEnded id x.clients x.vault.grant_rows
WorkStep-IsEnded hash id w x (enables _ stamp name h) r =
    let (c, g) = enable_work-tables w x stamp name h in rw (c, g) r
WorkStep-IsEnded hash id w x (approves _ stamp approval name destinations seconds c h) r =
    let (new, cs, g) =
      create_work_client-tables hash w x stamp approval name destinations seconds c h in
    rw (cs, g)
      (record {
        present = let p = r.present in ground arith;
        clients_over = (
          λ same.
              let e : c.id ≡ id = (eq_iff c.id id).0 same in
              let f = sym (subst (λ i. any (has_client i) w.clients ≡ false) e new) ∙ r.present in
              cc,
          r.clients_over,
        );
        grants_over = r.grants_over;
      })
WorkStep-IsEnded hash id w x (ends _ stamp now later other found h) r =
    elim (revoke_client-tables w x stamp now later other found h) [
      | inl (done, present, cs, g) ↦
          rw (cs, g)
            (record {
              present = any-map id other now w.clients ∙ r.present;
              clients_over =
                  All-map (ClientOver id) _ w.clients (end_client-over id other now) r.clients_over;
              grants_over =
                  All-map (GrantOver id) _ w.vault.grant_rows (end_grant-over id other later)
                    r.grants_over;
            })
      | inr (none_, same) ↦ rw same r
    ]
WorkStep-IsEnded hash id w x (binds _ now grant_id client_id destination h) r =
    let ((c, a), cs, g) = bind_work_grant-tables w x now grant_id client_id destination h in
    let apart = bound_apart id client_id w now c r a in
    rw (cs, g)
      (record {
        present = r.present;
        clients_over = r.clients_over;
        grants_over =
            All-map (GrantOver id) _ w.vault.grant_rows
              (λ b. bind_grant-over id grant_id client_id b apart) r.grants_over;
      })
WorkStep-IsEnded hash id w x (records _ known now interaction principal receipt preflight policy h)
      r =
    let (c, g) =
      record_work_request-tables known w x now interaction principal receipt preflight policy h in
    rw (c, g) r
WorkStep-IsEnded hash id w x (in_vault v step) r = record {
  present = r.present;
  clients_over = r.clients_over;
  grants_over =
      move-GrantOver id w.vault.grant_rows v.grant_rows (Step-GrantMove w.vault v step)
        r.grants_over;
}

WorkReach-IsEnded :
    (hash : String → String) (id : String) (w x : Work)
    → WorkReach hash w x
    → IsEnded id w.clients w.vault.grant_rows
    → IsEnded id x.clients x.vault.grant_rows
WorkReach-IsEnded hash id w x here r = r
WorkReach-IsEnded hash id w x (next {x = u} reach step) r =
    WorkStep-IsEnded hash id u x step (WorkReach-IsEnded hash id w u reach r)

client_injective : (a b : String) → some (client a) ≡ some (client b) → a ≡ b
client_injective a b h = cc

known_principal-client :
    (hash : String → String) (w : Work) (now : ℕ) (id : String) (found : Option WorkClient)
    → known_principal hash w now found ≡ some (client id)
    → (d : WorkClient) × (active_client w now id ≡ ok d)
known_principal-client hash w now id none h = cc
known_principal-client hash w now id (some c) h = elim (Result-cases (active_client w now c.id)) [
  | inl (d, a) ↦
      let e : c.id ≡ id = client_injective c.id id (rw a at h) in
      (d, subst (λ i. active_client w now i ≡ ok d) e a)
  | inr (e, a) ↦ let n = rw a at h in cc
]

IsEnded-authenticate_client :
    (hash : String → String) (id : String) (w : Work) (now : ℕ) (token : String)
    → IsEnded id w.clients w.vault.grant_rows
    → authenticate_client hash w now token ≢ some (client id)
unfolding authenticate_client
IsEnded-authenticate_client hash id w now token r h =
    let (e, a) = IsEnded-active_client id w now r in
    elim (Bool-cases (len token == 64 && all_chars is_hex_digit token)) [
      | inl fine ↦
          let (d, b) = known_principal-client hash w now id _ (rw fine at h) in
          let f : err e ≡ ok d = sym a ∙ b in cc
      | inr wrong ↦ let n = rw wrong at h in cc
    ]

IsEnded-authorize_principal :
    (id : String) (w : Work) (now : ℕ) (destination : String) (grant_id : Option String)
    → IsEnded id w.clients w.vault.grant_rows
    → (e : Error) × (authorize_principal w now (client id) destination grant_id ≡ err e)
unfolding authorize_principal
IsEnded-authorize_principal id w now destination grant_id r =
    let (e, a) = IsEnded-active_client id w now r in (e, rw a refl)

IsEnded-context :
    (to_lowercase : String → String) (id : String) (w : Work) (now : ℕ)
    (grant_id destination : String) (query : Option String) (g : Grant)
    → IsEnded id w.clients w.vault.grant_rows
    → find (λ (g : Grant). str_eq g.id grant_id) (grants w.vault) ≡ some g
    → is_bound id g ≡ true
    → context to_lowercase w.vault now grant_id destination query ≡ err grant_revoked
unfolding context grants
IsEnded-context to_lowercase id w now grant_id destination query g r found bound =
    let newest : Grant → Grant → Bool = λ a b. leb b.created_at a.created_at in
    let (over, same) =
      find-All (GrantOver id) _ _ g (All-sort_by _ newest w.vault.grant_rows r.grants_over) found in
    rw (found, over bound) refl

-- What is left of a client.
pub record IsOut (hash to_lowercase : String → String) (id : String) (w : Work) : Type 0 where
  pub not_authenticated :
      (now : ℕ) (token : String) → authenticate_client hash w now token ≢ some (client id)
  pub not_authorized :
      (now : ℕ) (destination : String) (grant_id : Option String)
      → (e : Error) × (authorize_principal w now (client id) destination grant_id ≡ err e)
  pub no_context :
      (now : ℕ) (grant_id destination : String) (query : Option String) (g : Grant)
      → find (λ (g : Grant). str_eq g.id grant_id) (grants w.vault) ≡ some g
      → is_bound id g ≡ true
      → context to_lowercase w.vault now grant_id destination query ≡ err grant_revoked

-- Once a client is revoked, then after any further successful operations of the installation and of
-- its vault, no token authenticates as this client, the client is authorized for no destination and
-- no grant, and no grant that is bound to it gives a context.
pub revoke_client-IsOut :
    (hash to_lowercase : String → String) (w ended x : Work) (stamp : Stamp) (now later : ℕ)
    (id : String)
    → revoke_client w stamp now later id ≡ ok (true, ended)
    → WorkReach hash ended x
    → IsOut hash to_lowercase id x
revoke_client-IsOut hash to_lowercase w ended x stamp now later id h reach =
    let start : IsEnded id ended.clients ended.vault.grant_rows =
      elim (revoke_client-tables w ended stamp now later id true h) [
        | inl (done, present, cs, g) ↦
            rw (cs, g)
              (record {
                present = any-map id id now w.clients ∙ present;
                clients_over = All-map_new (ClientOver id) _ w.clients (end_client_now id now);
                grants_over =
                    All-map_new (GrantOver id) _ w.vault.grant_rows (end_grant_now id later);
              })
        | inr (none_, same) ↦ absurd (cc)
      ] in
    let r = WorkReach-IsEnded hash id ended x reach start in
    record {
      not_authenticated = λ t token. IsEnded-authenticate_client hash id x t token r;
      not_authorized =
          λ t destination grant_id. IsEnded-authorize_principal id x t destination grant_id r;
      no_context = λ t grant_id destination query g.
          IsEnded-context to_lowercase id x t grant_id destination query g r;
    }
