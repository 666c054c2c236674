-- ===== src/Vpn/Server/Prepared.antt =====
-- The arms for `PrepareRotation` and `CommitRotation` of crates/omni-vpn/src/server.rs on requests that
-- they accept, within the whole handling of a request.
use omni_os.Prelude.{
  ◌==◌, eq→==, Result, ok, text_comparable, pair_comparable, beq_refl, lookup, insert,
  lookup-insert_self, ℕ, ◌+◌, ◌<◌, String, ◌≡◌, refl, ap, ◌∙◌, true, false, ◌&&◌, Option, none,
  some, List, ◌∷◌, arith, str_eq,
}
use omni_os.Vpn.Keys.{u64_max}
use omni_os.Vpn.Rotation.{Rotation, Key, fresh, overlap_seconds, checked_add, KeyEpoch}
use omni_os.Vpn.Server.{
  Outside, Enrollment, Previous, ClientState, Command, ServerError, set_peer, add_admitted,
  delete_admitted, address_at, serve_prepare, serve_commit, recent_handshake, serve, is_assigned,
}
use omni_os.Vpn.Knock.{Request, Action, prepare_rotation}
use omni_os.Vpn.Server.Meanwhile.{waiting_of, serve-accepts, Meanwhile, Meanwhile-lookup}

-- The server's active key is the client's; a public key is text in a request.
pub record Agrees (text_of : Key → String) (r : Rotation) (c : ClientState) : Type 0 where
  pub epoch : c.epoch ≡ r.active.epoch
  pub key : c.public_key ≡ text_of r.active.public_key
  pub idle : c.pending ≡ none

-- A request to prepare the next key is accepted.
pub serve_prepare-accepts :
    (o : Outside) (commands : List Command) (e : Enrollment) (c : ClientState) (epoch : ℕ)
    (key : String) (now : ℕ)
    → checked_add c.epoch 1 ≡ some epoch
    → str_eq key c.public_key ≡ false
    → c.pending ≡ none
    → c.previous ≡ none
    → o.runs commands (set_peer key (address_at e epoch)) ≡ true
    → serve_prepare o commands e c epoch key now ≡ (
      set_peer key (address_at e epoch) ∷ commands,
      ok (record c {
        pending = some (record { epoch = epoch; public_key = key; expires_at = now + 60 });
      }),
    )
unfolding serve_prepare
serve_prepare-accepts o commands e c epoch key now step new idle free runs_ =
    rw (step, eq→== epoch epoch refl, new, free, idle, runs_) refl

-- So is the request to commit it, after a recent handshake with it.
pub serve_commit-accepts :
    (o : Outside) (commands : List Command) (c : ClientState) (epoch expiry : ℕ) (key : String)
    (now : ℕ)
    → str_eq key c.public_key ≡ false
    → recent_handshake o commands key now ≡ ok true
    → serve_commit o commands
        (record c {
          pending = some (record { epoch = epoch; public_key = key; expires_at = expiry });
        })
        epoch
        key
        now
      ≡ ok (record {
        epoch = epoch;
        public_key = key;
        pending = none;
        previous = some (record { public_key = c.public_key; expires_at = now + overlap_seconds });
      })
unfolding serve_commit
serve_commit-accepts o commands c epoch expiry key now new recent =
    let fresh_ : (epoch == c.epoch && str_eq key c.public_key) ≡ false = ground arith in
    rw (fresh_, eq→== epoch epoch refl, beq_refl key, recent) refl

-- A committed key is committed again without a change.
pub serve_commit-again :
    (o : Outside) (commands : List Command) (c : ClientState) (now : ℕ)
    → serve_commit o commands c c.epoch c.public_key now ≡ ok c
unfolding serve_commit
serve_commit-again o commands c now = rw (eq→== c.epoch c.epoch refl, beq_refl c.public_key) refl

-- The key pair that a client draws for the next epoch, and a request about a key.
abbrev pub next_of : (Key → Key) → Rotation → Key → KeyEpoch
next_of public_of r random_key = fresh public_of (r.active.epoch + 1) random_key

abbrev pub request_for : Request → String → Action → KeyEpoch → (Key → String) → Request
request_for base id action k text_of = record base {
  client_id = id;
  action = action;
  epoch = k.epoch;
  public_key = some (text_of k.public_key);
}

-- The client after a commit.
abbrev pub done_of : ClientState → ℕ → String → ℕ → ClientState
done_of c epoch key now = record {
  epoch = epoch;
  public_key = key;
  pending = none;
  previous = some (record { public_key = c.public_key; expires_at = now + overlap_seconds });
}

-- The server's answer to a request to prepare the next key.
abbrev pub prepares_at :
    (Key → Key)
    → (Key → String)
    → Outside
    → Enrollment
    → Rotation
    → String
    → String
    → Request
    → List (String × ClientState)
    → List Command
    → Key
    → ℕ
    → (List Command × List (String × ClientState)) × Result ServerError (Unit {0})
prepares_at public_of text_of o e r id source base clients commands random_key prepared_at =
    serve o commands clients e
      (request_for base id prepare_rotation (next_of public_of r random_key) text_of) prepared_at
      source

pub prepares_at-waits :
    (public_of : Key → Key) (text_of : Key → String) (o : Outside) (e : Enrollment) (r : Rotation)
    (c : ClientState) (id source : String) (base : Request) (clients : List (String × ClientState))
    (commands : List Command) (random_key prepared_at : ℕ)
    → Agrees text_of r c
    → c.previous ≡ none
    → r.active.epoch < u64_max
    → lookup id clients ≡ some c
    → str_eq (text_of (public_of random_key)) c.public_key ≡ false
    → is_assigned id (text_of (public_of random_key)) clients ≡ false
    → ((done : List Command) (command : Command) → o.runs done command ≡ true)
    → o.is_ipv4 source ≡ true
    → let k = next_of public_of r random_key in
      let key = text_of k.public_key in
      prepares_at public_of text_of o e r id source base clients commands random_key prepared_at ≡ (
        (
          add_admitted source
              ∷ delete_admitted source
              ∷ set_peer key (address_at e k.epoch)
              ∷ commands,
          insert id (waiting_of c k.epoch key (prepared_at + 60)) clients,
        ),
        ok tt,
      )
unfolding fresh
prepares_at-waits public_of text_of o e r c id source base clients commands random_key prepared_at
      agrees free left_ found new apart runs_ v4 =
    let k = next_of public_of r random_key in
    let key = text_of k.public_key in
    let step : checked_add c.epoch 1 ≡ some (r.active.epoch + 1) =
      let a = agrees.epoch in ground arith in
    serve-accepts o commands _ clients e (request_for base id prepare_rotation k text_of)
      prepared_at source c (waiting_of c k.epoch key (prepared_at + 60)) (rw (apart, found) refl)
      (serve_prepare-accepts o commands e c k.epoch key prepared_at step new agrees.idle free
          (runs_ _ _)
        ∙ ap
            (λ (q : Option Previous). (
              set_peer key (address_at e k.epoch) ∷ commands,
              ok (record {
                epoch = c.epoch;
                public_key = c.public_key;
                pending =
                    some
                      (record { epoch = k.epoch; public_key = key; expires_at = prepared_at + 60 });
                previous = q;
              }),
            ))
            free)
      v4 runs_

-- What was prepared is still prepared.
pub waits-lookup :
    (public_of : Key → Key) (text_of : Key → String) (o : Outside) (e : Enrollment) (r : Rotation)
    (c : ClientState) (id source : String) (base : Request)
    (clients others : List (String × ClientState)) (commands before : List Command)
    (random_key prepared_at : ℕ) {cs : List Command}
    → let k = next_of public_of r random_key in
      prepares_at public_of text_of o e r id source base clients commands random_key prepared_at ≡ (
        (cs, insert id (waiting_of c k.epoch (text_of k.public_key) (prepared_at + 60)) clients),
        ok tt,
      )
      → Meanwhile o id
          (prepared_at + 60)
          (prepares_at public_of text_of o e r id source base clients commands random_key
            prepared_at).0.0
          (prepares_at public_of text_of o e r id source base clients commands random_key
            prepared_at).0.1
          before
          others
      → let k = next_of public_of r random_key in
        lookup id others ≡ some (waiting_of c k.epoch (text_of k.public_key) (prepared_at + 60))
waits-lookup public_of text_of o e r c id source base clients others commands before random_key
      prepared_at first meanwhile =
    let k = next_of public_of r random_key in
    Meanwhile-lookup o id c k.epoch (prepared_at + 60) (text_of k.public_key) _ _ before others
      meanwhile (ap (λ x. lookup id x.0.1) first ∙ lookup-insert_self id _ clients)
