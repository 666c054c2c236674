-- ===== src/Vpn/Server/Loop.antt =====
-- The start of the server and one round of its loop: `run` of crates/omni-vpn/src/server.rs. The files
-- are read already; parsing an address, and the JSON form of an acknowledgement, are parameters.
use omni_os.Prelude.{
  leb, if◌then◌else◌, length, all, any, ensure, or_fail, ◌>>=◌, ◌>>◌, Result, ok, err,
  text_comparable, pair_comparable, lookup, contains, insert, one_of, ℕ, ◌+◌, String, Bool, true,
  false, not, ◌&&◌, ◌||◌, Option, none, some, option_map, List, [], ◌∷◌, ◌++◌, str_eq,
}
use omni_os.Vpn.Keys.{decode_key}
use omni_os.Vpn.Knock.{
  Error, Crypto, Bytes, Verifier, Request, SignedRequest, SignedAck, authenticate, acknowledge,
  enroll, new, nonce_entries, restore_nonces,
}
use omni_os.Vpn.Server.{
  Outside, Enrollment, Pending, Previous, ClientState, Command, ServerError, set_peer, address_at,
  cleanup, serve, bad_ack, cannot_save,
}

abbrev pub Nonces : Type 0
Nonces = List ((String × String) × ℕ)

pub record State : Type 0 where
  pub clients : List (String × ClientState)
  pub nonces : Nonces

pub record Server : Type 0 where
  pub enrolled : List (String × Enrollment)
  pub verifier : Verifier
  pub state : State
  pub commands : List Command
  pub disk : Option State

pub data StartError : Type 0 where
  no_clients bad_public_key bad_address equal_addresses duplicate_peer bad_secret : StartError
  not_enrolled unknown_client bad_nonces start_failed : StartError

-- `strip_suffix("/32")`
abbrev pub strip_32 : String → Option String
strip_32 String.[] = none
strip_32 (String.◌∷◌ c s) =
    let rest = strip_32 s in
    if str_eq (String.◌∷◌ c s) "/32" then some "" else option_map (String.◌∷◌ c) rest

abbrev pub fails_as {ℓ κ μ} : {E : Type ℓ} {F : Type κ} {A : Type μ} → F → Result E A → Result F A
fails_as f (ok a) = ok a
fails_as f (err e) = err f

-- A peer has the key or an address of another.
abbrev pub is_duplicate : Enrollment → Enrollment → Bool
is_duplicate e new =
    str_eq e.public_key new.public_key
    || (one_of (new.even_address ∷ new.odd_address ∷ []) e.even_address
        || one_of (new.even_address ∷ new.odd_address ∷ []) e.odd_address)

-- `entry(id).or_insert_with(…)` for every enrollment.
abbrev pub first_state : Enrollment → ClientState
first_state e = record { epoch = 0; public_key = e.public_key; pending = none; previous = none }

abbrev pub or_insert :
    String → ClientState → List (String × ClientState) → List (String × ClientState)
or_insert id c clients = if contains id clients then clients else insert id c clients

abbrev pub with_enrolled :
    List (String × Enrollment) → List (String × ClientState) → List (String × ClientState)
with_enrolled [] clients = clients
with_enrolled ((id, e) ∷ enrolled) clients =
    with_enrolled enrolled (or_insert id (first_state e) clients)

-- The peers that a client has: its keys with their addresses.
abbrev pending_peer : Enrollment → Option Pending → List Command
pending_peer e none = []
pending_peer e (some p) = set_peer p.public_key (address_at e p.epoch) ∷ []

abbrev previous_peer : Enrollment → ℕ → Option Previous → List Command
previous_peer e epoch none = []
previous_peer e epoch (some p) = set_peer p.public_key (address_at e (epoch + 1)) ∷ []

abbrev pub client_peers : Enrollment → ClientState → List Command
client_peers e c =
    set_peer c.public_key (address_at e c.epoch)
    ∷ (pending_peer e c.pending ++ previous_peer e c.epoch c.previous)

abbrev pub peers_of : Option Enrollment → ClientState → List Command
peers_of none c = []
peers_of (some e) c = client_peers e c

abbrev pub all_peers : List (String × Enrollment) → List (String × ClientState) → List Command
all_peers enrolled [] = []
all_peers enrolled ((id, c) ∷ clients) =
    peers_of (lookup id enrolled) c ++ all_peers enrolled clients

module _ (o : Outside) (crypto : Crypto) (private_ipv4 : String → Bool) (saves : State → Bool)
    (ack_bytes : SignedAck → Option Bytes) where
  abbrev pub is_address : Option String → Bool
  is_address none = false
  is_address (some raw) = private_ipv4 raw

  -- The loop over the configuration's clients.
  unfoldable pub enroll_all :
      List Enrollment
      → List (String × Enrollment)
      → Verifier
      → Result StartError (List (String × Enrollment) × Verifier)
  enroll_all [] enrolled verifier = ok (enrolled, verifier)
  enroll_all (e ∷ es) enrolled verifier = do
    key ← or_fail (decode_key crypto.base64 e.public_key) bad_public_key
    ensure (is_address (strip_32 e.even_address) && is_address (strip_32 e.odd_address)) bad_address
    ensure (not (str_eq e.even_address e.odd_address)) equal_addresses
    ensure (not (any (λ ((id, f) : String × Enrollment). is_duplicate f e) enrolled)) duplicate_peer
    secret ← or_fail (decode_key crypto.base64 e.knock_secret) bad_secret
    verifier' ← fails_as not_enrolled (enroll verifier e.id secret)
    enroll_all es (insert e.id e enrolled) verifier'

  -- Commands in order; each must succeed.
  abbrev pub run_all : List Command → List Command → Result StartError (List Command)
  run_all done [] = ok done
  run_all done (c ∷ cs) = do ensure (o.runs done c) start_failed; run_all (c ∷ done) cs

  -- `run` up to the socket, with the state that is on disk, if there is one.
  unfoldable pub start_server : List Enrollment → Option State → ℕ → Result StartError Server
  start_server config disk now = do
    ensure (leb 1 (length config) && leb (length config) 128) no_clients
    (enrolled, verifier) ← enroll_all config [] new
    let stored : State = elim disk [ none ↦ record { clients = []; nonces = [] } | some s ↦ s ]
    let clients : List (String × ClientState) = with_enrolled enrolled stored.clients
    ensure (all (λ ((id, c) : String × ClientState). contains id enrolled) clients) unknown_client
    verifier' ← fails_as bad_nonces (restore_nonces verifier stored.nonces now)
    (changed, commands, live) ← fails_as start_failed (cleanup o now [] clients)
    commands' ← run_all commands (all_peers enrolled live)
    let state : State = record { clients = live; nonces = stored.nonces }
    ensure (saves state) start_failed
    ok (record {
      enrolled = enrolled;
      verifier = verifier';
      state = state;
      commands = commands';
      disk = some state;
    })

  -- A save that fails ends the server.
  abbrev pub save : Server → Result ServerError Server
  save server = do
    ensure (saves server.state) cannot_save
    ok (record server { disk = some server.state })

  abbrev pub save_if : Bool → Server → Result ServerError Server
  save_if false server = ok server
  save_if true server = save server

  abbrev pub with_clients : Server → List Command → List (String × ClientState) → Server
  with_clients server commands clients = record server {
    commands = commands;
    state = record server.state { clients = clients };
  }

  -- `cleanup` at the head of the loop.
  unfoldable pub clean : Server → ℕ → Result ServerError Server
  clean server now = do
    (changed, commands, clients) ← cleanup o now server.commands server.state.clients
    save_if changed (with_clients server commands clients)

  abbrev pub answer_if :
      Server
      → Request
      → ℕ
      → Result ServerError (Unit {0})
      → Result ServerError (Server × Option Bytes)
  answer_if server request now (err e) = ok (server, none)
  answer_if server request now (ok done) = do
    saved ← save server
    ack ← fails_as bad_ack (acknowledge crypto saved.verifier request now)
    bytes ← or_fail (ack_bytes ack) bad_ack
    ok (saved, some bytes)

  abbrev pub served :
      Server
      → Request
      → ℕ
      → (List Command × List (String × ClientState)) × Result ServerError (Unit {0})
      → Result ServerError (Server × Option Bytes)
  served server request now ((commands, clients), result) =
      answer_if (with_clients server commands clients) request now result

  -- An accepted knock is served only when its nonce is on disk. The client is enrolled, since the
  -- verifier knows it.
  abbrev pub serve_if :
      Server → Option Enrollment → Request → ℕ → String → Result ServerError (Server × Option Bytes)
  serve_if server none request now source = ok (server, none)
  serve_if server (some e) request now source =
      served server request now (serve o server.commands server.state.clients e request now source)

  abbrev pub after_knock :
      Server
      → ℕ
      → String
      → Verifier × Result Error SignedRequest
      → Result ServerError (Server × Option Bytes)
  after_knock server now source (verifier, err e) = ok (record server { verifier = verifier }, none)
  after_knock server now source (verifier, ok signed) = do
    saved ← save (record server {
      verifier = verifier;
      state = record server.state { nonces = nonce_entries verifier };
    })
    serve_if saved (lookup signed.request.client_id saved.enrolled) signed.request now source

  abbrev pub receive :
      Server → ℕ → Option (Bytes × String) → Result ServerError (Server × Option Bytes)
  receive server now none = ok (server, none)
  receive server now (some (bytes, source)) =
      after_knock server now source (authenticate crypto server.verifier bytes now)

  -- One round, with the datagram that came, if one did: the answer sent, if any. A failure ends the
  -- server.
  unfoldable pub round :
      Server → ℕ → Option (Bytes × String) → Result ServerError (Server × Option Bytes)
  round server now datagram = do cleaned ← clean server now; receive cleaned now datagram
