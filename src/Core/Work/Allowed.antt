-- ===== src/Core/Work/Allowed.antt =====
-- What is allowed: exactly when a principal is authorized, and that an approved client is.

-- A client that may act at a time: it is known, not revoked and not past its lifetime, and work is
-- enabled.
use omni_os.Core.Work.Steps.{create_work_client-tables}
use omni_os.Core.Audit.{some_and, Stamp}
use omni_os.Prelude.{
  ltb, ◌==◌, lt→ltb, find, ensure, or_fail, ensure-eq-ok, >>=-eq-ok, ok_injective, or_fail-eq-ok,
  some_injective, ok, text_comparable, pair_comparable, one_of, all_chars, ℕ, ◌+◌, ◌<◌, String, len,
  ◌≡◌, refl, sym, ap, subst, ◌↔◌, Bool, true, false, not, ◌&&◌, Option, none, some, List, ◌∷◌,
  arith, str_eq, eq_iff,
}
use omni_os.Core.Errors.{
  Error, client_destination, client_required, grant_other_client, work_not_enabled, unknown_client,
  client_inactive,
}
use omni_os.Core.Vault.Context.{is_none}
use omni_os.Core.Work.{
  Work, WorkClient, Approval, Principal, owner, legacy, client, has_client, has_hash, is_hex_digit,
  active_client, create_work_client, authenticate_client, known_principal,
}
use omni_os.Core.Work.Access.{authorize_principal, covers, binding_of}

pub record IsActive (w : Work) (now : ℕ) (id : String) (c : WorkClient) : Type 0 where
  pub on : w.enabled ≡ true
  pub known : find (has_client id) w.clients ≡ some c
  pub not_revoked : c.revoked_at ≡ none
  pub not_expired : now < c.expires_at

-- What a principal needs for a destination and, where one is named, a grant.
abbrev pub MayAct : Work → ℕ → Principal → String → Option String → Type 0
MayAct w now owner destination grant_id = Unit
MayAct w now legacy destination grant_id = w.enabled ≡ false
MayAct w now (client id) destination grant_id =
    (c : WorkClient) × IsActive w now id c
    × (one_of c.destinations destination ≡ true)
    × ((g : String) → grant_id ≡ some g → binding_of w g ≡ some id)

is_none-≡ : (o : Option ℕ) → (is_none o ≡ true) ↔ (o ≡ none)
is_none-≡ none = (λ h. refl, λ h. refl)
is_none-≡ (some t) = (λ h. cc, λ h. cc)

active_client_iff :
    (w : Work) (now : ℕ) (id : String) (c : WorkClient)
    → (active_client w now id ≡ ok c) ↔ IsActive w now id c
unfolding active_client
active_client_iff w now id c = (
  λ h.
      let (on, h1) = ensure-eq-ok w.enabled work_not_enabled _ h in
      let (d, f, h2) = >>=-eq-ok (or_fail (find (has_client id) w.clients) unknown_client) _ h1 in
      let (live, h3) =
        ensure-eq-ok (is_none d.revoked_at && ltb now d.expires_at) client_inactive _ h2 in
      let e : d ≡ c = ok_injective d c h3 in
      subst (IsActive w now id) e (record {
        on = on;
        known = or_fail-eq-ok _ unknown_client d f;
        not_revoked = (is_none-≡ d.revoked_at).0 (ground arith);
        not_expired = ground arith;
      }),
  λ a. rw (a.on, a.known, a.not_revoked, lt→ltb now c.expires_at a.not_expired) refl,
)

some_and-≡ : (id : String) (o : Option String) → (some_and (str_eq id) o ≡ true) ↔ (o ≡ some id)
some_and-≡ id none = (λ h. cc, λ h. cc)
some_and-≡ id (some j) =
    (λ h. ap some (sym ((eq_iff id j).0 h)), λ h. (eq_iff id j).1 (sym (some_injective j id h)))

covers_iff :
    (w : Work) (id : String) (grant_id : Option String)
    → (covers w id grant_id ≡ true) ↔ ((g : String) → grant_id ≡ some g → binding_of w g ≡ some id)
covers_iff w id none = (λ h g e. cc, λ h. refl)
covers_iff w id (some g) = (
  λ h k e.
      subst (λ i. binding_of w i ≡ some id) (some_injective g k e)
        ((some_and-≡ id (binding_of w g)).0 h),
  λ h. (some_and-≡ id (binding_of w g)).1 (h g refl),
)

ensure_iff : (b : Bool) (e : Error) → (ensure b e ≡ ok tt) ↔ (b ≡ true)
ensure_iff true e = (λ h. refl, λ h. refl)
ensure_iff false e = (λ h. cc, λ h. cc)

-- The owner is authorized always, the legacy integration exactly while work is not enabled, and a
-- client exactly when it is active, approved for the destination and, where a grant is named, the
-- one that the grant is bound to.
pub authorize_principal_iff :
    (w : Work) (now : ℕ) (principal : Principal) (destination : String) (grant_id : Option String)
    → (authorize_principal w now principal destination grant_id ≡ ok tt)
      ↔ MayAct w now principal destination grant_id
unfolding authorize_principal
authorize_principal_iff w now owner destination grant_id = (λ h. tt, λ h. refl)
authorize_principal_iff w now legacy destination grant_id =
    (λ h. let b = (ensure_iff (not w.enabled) client_required).0 h in ground arith, λ h. rw h refl)
authorize_principal_iff w now (client id) destination grant_id = (
  λ h.
      let (c, a, h1) = >>=-eq-ok (active_client w now id) _ h in
      let (d, h2) = ensure-eq-ok (one_of c.destinations destination) client_destination _ h1 in
      (
        c,
        (active_client_iff w now id c).0 a,
        d,
        (covers_iff w id grant_id).0 ((ensure_iff (covers w id grant_id) grant_other_client).0 h2),
      ),
  λ m. rw ((active_client_iff w now id m.0).1 m.1, m.2, (covers_iff w id grant_id).1 m.3) refl,
)

-- What an approval leaves.
record Approved (hash : String → String) (x : Work) (approval : Approval)
    (destinations : List String) (seconds : ℕ) (c : WorkClient) : Type 0 where
  pub on : x.enabled ≡ true
  pub named : c.id ≡ approval.id
  pub hashed : c.token_hash ≡ hash approval.token
  pub listed : c.destinations ≡ destinations
  pub until : c.expires_at ≡ approval.now + seconds
  pub live : c.revoked_at ≡ none

create_work_client-Approved :
    (hash : String → String) (w x : Work) (stamp : Stamp) (approval : Approval) (name : String)
    (destinations : List String) (seconds : ℕ) (c : WorkClient)
    → create_work_client hash w stamp approval name destinations seconds ≡ ok (c, x)
    → Approved hash x approval destinations seconds c
unfolding create_work_client
create_work_client-Approved hash w x stamp approval name destinations seconds c h = record {
  on = ground arith;
  named = ground arith;
  hashed = ground arith;
  listed = ground arith;
  until = ground arith;
  live = ground arith;
}

find-first :
    (p : WorkClient → Bool) (c : WorkClient) (cs : List WorkClient)
    → p c ≡ true
    → find p (c ∷ cs) ≡ some c
find-first p c cs h = rw h refl

Approved-IsActive :
    (hash : String → String) (x : Work) (approval : Approval) (destinations : List String)
    (seconds : ℕ) (c : WorkClient) (cs : List WorkClient) (now : ℕ)
    → x.clients ≡ c ∷ cs
    → Approved hash x approval destinations seconds c
    → now < approval.now + seconds
    → IsActive x now approval.id c
Approved-IsActive hash x approval destinations seconds c cs now e a early = record {
  on = a.on;
  known = rw e (find-first (has_client approval.id) c cs ((eq_iff c.id approval.id).1 a.named));
  not_revoked = a.live;
  not_expired = rw a.until early;
}

known_principal-active :
    (hash : String → String) (x : Work) (now : ℕ) (id : String) (found : Option WorkClient)
    (c : WorkClient)
    → found ≡ some c
    → c.id ≡ id
    → active_client x now id ≡ ok c
    → known_principal hash x now found ≡ some (client id)
known_principal-active hash x now id found c hit named a =
    let b = subst (λ i. active_client x now i ≡ ok c) (sym named) a in
    rw (hit, b) (ap (λ i. some (client i)) named)

-- A client that was just approved: the owner hands out its token, of 64 hex digits. The token
-- authenticates it, and it is authorized for the approved destinations, until the end of its
-- lifetime, which is the time of approval and the seconds asked for.
pub create_work_client-authenticate_client :
    (hash : String → String) (w x : Work) (stamp : Stamp) (approval : Approval) (name : String)
    → (destinations : List String) (seconds now : ℕ) (c : WorkClient)
    → create_work_client hash w stamp approval name destinations seconds ≡ ok (c, x)
    → (len approval.token == 64 && all_chars is_hex_digit approval.token) ≡ true
    → now < approval.now + seconds
    → (authenticate_client hash x now approval.token ≡ some (client approval.id))
      × ((destination : String)
          → one_of destinations destination ≡ true
          → authorize_principal x now (client approval.id) destination none ≡ ok tt)
unfolding authenticate_client
create_work_client-authenticate_client hash w x stamp approval name destinations seconds now c h
      fine early =
    let (_, e, _) =
      create_work_client-tables hash w x stamp approval name destinations seconds c h in
    let a = create_work_client-Approved hash w x stamp approval name destinations seconds c h in
    let active = Approved-IsActive hash x approval destinations seconds c w.clients now e a early in
    let hit =
      find-first (has_hash (hash approval.token)) c w.clients
        ((eq_iff c.token_hash (hash approval.token)).1 a.hashed) in
    (
      rw fine (
          known_principal-active hash x now approval.id _ c (rw e hit) a.named
            ((active_client_iff x now approval.id c).1 active)),
      λ d listed.
          (authorize_principal_iff x now (client approval.id) d none).1
            (c, active, rw a.listed listed, λ g e. cc),
    )
