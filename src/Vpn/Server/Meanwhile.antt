-- ===== src/Vpn/Server/Meanwhile.antt =====
-- A client that waits for its commit, while the server cleans up and serves the others.
use omni_os.Prelude.{
  leb, le→leb, lt→leb_false, >>=-eq-ok, Result-cases, Result, ok, err, text_comparable,
  pair_comparable, lookup, insert, lookup-insert_ne, ℕ, ◌≤◌, ◌<◌, String, ◌≡◌, refl, sym, ap, ◌∙◌,
  subst, inl, inr, Bool, true, false, none, some, List, [], ◌∷◌, arith, str_eq,
}
use omni_os.Vpn.Server.{
  Outside, Enrollment, ClientState, Command, ServerError, add_admitted, delete_admitted, serve,
  serve_action, find_client, store_client, cleanup, cleanup_client,
}
use omni_os.Vpn.Knock.{Request}
use omni_os.Vpn.Server.Exclusive.{lookup-∷}

-- A client in whose rotation a key is prepared, and one that no longer waits.
abbrev pub waiting_of : ClientState → ℕ → String → ℕ → ClientState
waiting_of c epoch key expiry = record {
  epoch = c.epoch;
  public_key = c.public_key;
  pending = some (record { epoch = epoch; public_key = key; expires_at = expiry });
  previous = none;
}

abbrev pub settled_of : ClientState → ClientState
settled_of c = record {
  epoch = c.epoch;
  public_key = c.public_key;
  pending = none;
  previous = none;
}

-- A request whose arm accepts it goes through, where the commands succeed.
pub serve-accepts :
    (o : Outside) (commands after : List Command) (clients : List (String × ClientState))
    (e : Enrollment) (request : Request) (now : ℕ) (source : String) (c d : ClientState)
    → find_client o clients request ≡ ok c
    → serve_action o commands e c request request.action now ≡ (after, ok d)
    → o.is_ipv4 source ≡ true
    → ((done : List Command) (command : Command) → o.runs done command ≡ true)
    → serve o commands clients e request now source ≡ (
      (add_admitted source ∷ delete_admitted source ∷ after, insert request.client_id d clients),
      ok tt,
    )
unfolding serve
serve-accepts o commands after clients e request now source c d found acted v4 runs_ =
    rw (found, acted, v4, runs_ (delete_admitted source ∷ after) (add_admitted source)) refl

store_client-lookup :
    (o : Outside) (clients : List (String × ClientState)) (id other source : String)
    (r : List Command × Result ServerError ClientState)
    → str_eq other id ≡ false
    → lookup id (store_client o clients other r source).0.1 ≡ lookup id clients
store_client-lookup o clients id other source (commands, err x) differs = refl
store_client-lookup o clients id other source (commands, ok c) differs =
    lookup-insert_ne other id c clients differs

-- A request of another client leaves a client as it is.
serve-lookup :
    (o : Outside) (commands : List Command) (clients : List (String × ClientState)) (e : Enrollment)
    (request : Request) (now : ℕ) (source id : String)
    → str_eq request.client_id id ≡ false
    → lookup id (serve o commands clients e request now source).0.1 ≡ lookup id clients
unfolding serve
serve-lookup o commands clients e request now source id differs =
    elim (Result-cases (find_client o clients request)) [
      | inl (c, h) ↦ rw h (store_client-lookup o clients id request.client_id source _ differs)
      | inr (x, h) ↦ rw h refl
    ]

-- What `cleanup` makes of a client that it finds first under an id.
pub cleanup-found :
    (o : Outside) (now : ℕ) (commands later : List Command)
    (clients after : List (String × ClientState)) (b : Bool) (id : String) (c d : ClientState)
    → ((cs m : List Command) (a : Bool) (x : ClientState)
        → cleanup_client o now cs c ≡ ok (a, m, x)
        → x ≡ d)
    → cleanup o now commands clients ≡ ok (b, later, after)
    → lookup id clients ≡ some c
    → lookup id after ≡ some d
unfolding cleanup
cleanup-found o now commands later [] after b id c d each h found = cc
cleanup-found o now commands later ((j, x) ∷ clients) after b id c d each h found =
    let ((a, m, x'), e, h1) = >>=-eq-ok (cleanup_client o now commands x) _ h in
    let ((a', m', rest), e', h2) = >>=-eq-ok (cleanup o now m clients) _ h1 in
    let whole : (j, x') ∷ rest ≡ after = ground arith in
    ap (lookup id) (sym whole) ∙ (elim (lookup-∷ id j x c clients found) [
      | inl (same, own) ↦
          let f : x' ≡ d =
            each commands m a x'
              (subst (λ y. cleanup_client o now commands y ≡ ok (a, m, x')) own e) in
          rw same (ap some f)
      | inr (other, g) ↦ rw other (cleanup-found o now m m' clients rest a' id c d each e' g)
    ])

pub cleanup_client-waits :
    (o : Outside) (now : ℕ) (c : ClientState) (epoch expiry : ℕ) (key : String)
    → now < expiry
    → (cs m : List Command) (a : Bool) (x : ClientState)
    → cleanup_client o now cs (waiting_of c epoch key expiry) ≡ ok (a, m, x)
    → x ≡ waiting_of c epoch key expiry
cleanup_client-waits o now c epoch expiry key live cs m a x h =
    let stays : leb expiry now ≡ false = lt→leb_false expiry now live in
    let g = rw stays at h in ground arith

pub cleanup_client-drops :
    (o : Outside) (now : ℕ) (c : ClientState) (epoch expiry : ℕ) (key : String)
    → expiry ≤ now
    → (cs m : List Command) (a : Bool) (x : ClientState)
    → cleanup_client o now cs (waiting_of c epoch key expiry) ≡ ok (a, m, x)
    → x ≡ settled_of c
cleanup_client-drops o now c epoch expiry key over cs m a x h =
    let out : leb expiry now ≡ true = le→leb expiry now over in let g = rw out at h in ground arith

-- What the server may do before a time for anyone but one client: it cleans up, and serves requests of
-- the others.
pub data Meanwhile (o : Outside) (id : String) (until : ℕ) (commands : List Command)
    (clients : List (String × ClientState))
    : List Command → List (String × ClientState) → Type 0 where
  idle : Meanwhile o id until commands clients commands clients
  cleans :
      {cs later : List Command} {cls after : List (String × ClientState)} (now : ℕ) (b : Bool)
      → Meanwhile o id until commands clients cs cls
      → now < until
      → cleanup o now cs cls ≡ ok (b, later, after)
      → Meanwhile o id until commands clients later after
  serves :
      {cs : List Command} {cls : List (String × ClientState)} (e : Enrollment) (request : Request)
      (now : ℕ) (source : String)
      → Meanwhile o id until commands clients cs cls
      → str_eq request.client_id id ≡ false
      → Meanwhile o id until commands clients
          (serve o cs cls e request now source).0.0
          (serve o cs cls e request now source).0.1

pub Meanwhile-lookup :
    (o : Outside) (id : String) (c : ClientState) (epoch expiry : ℕ) (key : String)
    (commands : List Command) (clients : List (String × ClientState)) (cs : List Command)
    (cls : List (String × ClientState))
    → Meanwhile o id expiry commands clients cs cls
    → lookup id clients ≡ some (waiting_of c epoch key expiry)
    → lookup id cls ≡ some (waiting_of c epoch key expiry)
Meanwhile-lookup o id c epoch expiry key commands clients cs cls idle f = f
Meanwhile-lookup o id c epoch expiry key commands clients cs cls
      (cleans {cs = cs'} {cls = cls'} now b m live h) f =
    cleanup-found o now cs' cs cls' cls b id (waiting_of c epoch key expiry) _
      (cleanup_client-waits o now c epoch expiry key live) h
      (Meanwhile-lookup o id c epoch expiry key commands clients cs' cls' m f)
Meanwhile-lookup o id c epoch expiry key commands clients cs cls
      (serves {cs = cs'} {cls = cls'} e request now source m differs) f =
    serve-lookup o cs' cls' e request now source id differs
    ∙ Meanwhile-lookup o id c epoch expiry key commands clients cs' cls' m f
