-- ===== src/Vpn/Server.antt =====
-- The server of the network, crates/omni-vpn/src/server.rs: the state of each client, the commands for
-- `wg` and `nft`, and the handling of one request. What a command or the disk answers is a parameter. A
-- `HashMap` is an association list.
pub mod Agreed
pub mod Exclusive
pub mod Loop
pub mod Meanwhile
pub mod Prepared
pub mod Reached
pub mod Served
pub mod Started
mod Tests
use omni_os.Prelude.{
  ltb, leb, ◌==◌, if◌then◌else◌, any, ensure, or_fail, ◌>>=◌, ◌>>◌, Result, ok, err,
  text_comparable, pair_comparable, lookup, insert, ℕ, ◌+◌, ◌%◌, String, Bool, true, false, not,
  ◌&&◌, ◌||◌, Option, none, some, List, [], ◌∷◌, str_eq,
}
use omni_os.Vpn.Keys.{abs_diff}
use omni_os.Vpn.Rotation.{overlap_seconds, checked_add}
use omni_os.Vpn.Knock.{Action, open_path, prepare_rotation, commit_rotation, Request}

pub record Enrollment : Type 0 where
  pub id : String
  pub knock_secret : String
  pub public_key : String
  pub even_address : String
  pub odd_address : String

pub record Pending : Type 0 where
  pub epoch : ℕ
  pub public_key : String
  pub expires_at : ℕ

pub record Previous : Type 0 where
  pub public_key : String
  pub expires_at : ℕ

pub record ClientState : Type 0 where
  pub epoch : ℕ
  pub public_key : String
  pub pending : Option Pending
  pub previous : Option Previous

-- The commands that change something, with what `add_peer`, `remove_peer` and `admission` pass.
pub data Command : Type 0 where
  set_peer : String → String → Command
  remove_peer delete_admitted add_admitted : String → Command

-- After these commands, latest first: whether the next one succeeds, and what `wg show` prints, as the
-- fields of its lines. `str::parse::<u64>`, and whether an address is IPv4.
pub record Outside : Type 0 where
  pub runs : List Command → Command → Bool
  pub handshakes : List Command → Option (List (List String))
  pub parse_u64 : String → Option ℕ
  pub is_ipv4 : String → Bool

pub data ServerError : Type 0 where
  command_failed not_ipv4 key_assigned missing_client stale_identity : ServerError
  invalid_next overlap_active other_pending no_prepared unprepared_key : ServerError
  no_handshake cannot_save bad_ack : ServerError

-- `addresses[(epoch % 2) as usize]`
abbrev pub address_at : Enrollment → ℕ → String
address_at e epoch = if epoch % 2 == 0 then e.even_address else e.odd_address

abbrev pub some_and {ℓ} : {A : Type ℓ} → (A → Bool) → Option A → Bool
some_and p none = false
some_and p (some a) = p a

abbrev pub is_none {ℓ} : {A : Type ℓ} → Option A → Bool
is_none none = true
is_none (some a) = false

-- A key is the active, the pending or the previous one of a client.
abbrev pub holds : ClientState → String → Bool
holds c key =
    str_eq c.public_key key
    || (some_and (λ (p : Pending). str_eq p.public_key key) c.pending
        || some_and (λ (p : Previous). str_eq p.public_key key) c.previous)

-- A key is one of another client.
abbrev pub is_assigned : String → String → List (String × ClientState) → Bool
is_assigned id key clients =
    any (λ ((other, c) : String × ClientState). not (str_eq other id) && holds c key) clients

module _ (o : Outside) where
  open o use {runs, handshakes, parse_u64, is_ipv4}

  -- The two halves of the loop body of `cleanup`, on one client.
  abbrev pub drop_pending :
      ℕ
      → List Command
      → ClientState
      → Option Pending
      → Result ServerError (Bool × List Command × ClientState)
  drop_pending now commands c none = ok (false, commands, c)
  drop_pending now commands c (some p) =
      if leb p.expires_at now
      then (do
        ensure (runs commands (remove_peer p.public_key)) command_failed
        ok (true, remove_peer p.public_key ∷ commands, record c { pending = none }))
      else ok (false, commands, c)

  abbrev pub drop_previous :
      ℕ
      → List Command
      → ClientState
      → Option Previous
      → Result ServerError (Bool × List Command × ClientState)
  drop_previous now commands c none = ok (false, commands, c)
  drop_previous now commands c (some p) =
      if leb p.expires_at now
      then (do
        ensure (runs commands (remove_peer p.public_key)) command_failed
        ok (true, remove_peer p.public_key ∷ commands, record c { previous = none }))
      else ok (false, commands, c)

  abbrev pub cleanup_client :
      ℕ → List Command → ClientState → Result ServerError (Bool × List Command × ClientState)
  cleanup_client now commands c = do
    (a, commands', c') ← drop_pending now commands c c.pending
    (b, commands'', c'') ← drop_previous now commands' c' c'.previous
    ok (a || b, commands'', c'')

  -- `cleanup`: whether something changed, and the clients; a failure ends the server.
  unfoldable pub cleanup :
      ℕ
      → List Command
      → List (String × ClientState)
      → Result ServerError (Bool × List Command × List (String × ClientState))
  cleanup now commands [] = ok (false, commands, [])
  cleanup now commands ((id, c) ∷ clients) = do
    (a, commands', c') ← cleanup_client now commands c
    (b, commands'', clients') ← cleanup now commands' clients
    ok (a || b, commands'', (id, c') ∷ clients')

  abbrev pub is_recent : String → ℕ → List String → Bool
  is_recent key now (first ∷ second ∷ rest) =
      str_eq first key && some_and (λ t. ltb 0 t && leb (abs_diff t now) 30) (parse_u64 second)
  is_recent key now fields = false

  -- `recent_handshake`
  unfoldable pub recent_handshake : List Command → String → ℕ → Result ServerError Bool
  recent_handshake commands key now = do
    lines ← or_fail (handshakes commands) command_failed
    ok (any (is_recent key now) lines)

  abbrev pub prepare_check : ClientState → ℕ → String → Result ServerError (Unit {0})
  prepare_check c epoch key = do
    ensure (some_and (λ e. e == epoch) (checked_add c.epoch 1) && not (str_eq key c.public_key))
        invalid_next
    ensure (is_none c.previous) overlap_active

  abbrev pub prepare_with :
      List Command
      → Enrollment
      → ClientState
      → Option Pending
      → ℕ
      → String
      → ℕ
      → List Command × Result ServerError ClientState
  prepare_with commands e c (some p) epoch key now =
      (commands, ensure (p.epoch == epoch && str_eq p.public_key key) other_pending >> ok c)
  prepare_with commands e c none epoch key now =
      let command = set_peer key (address_at e epoch) in
      let pending : Pending = record { epoch = epoch; public_key = key; expires_at = now + 60 } in
      (
        command ∷ commands,
        ensure (runs commands command) command_failed >> ok (record c { pending = some pending }),
      )

  abbrev pub prepare_after :
      Result ServerError (Unit {0})
      → List Command
      → List Command × Result ServerError ClientState
      → List Command × Result ServerError ClientState
  prepare_after (err e) commands rest = (commands, err e)
  prepare_after (ok done) commands rest = rest

  -- The arm for `PrepareRotation`.
  unfoldable pub serve_prepare :
      List Command
      → Enrollment
      → ClientState
      → ℕ
      → String
      → ℕ
      → List Command × Result ServerError ClientState
  serve_prepare commands e c epoch key now =
      prepare_after (prepare_check c epoch key) commands
        (prepare_with commands e c c.pending epoch key now)

  -- The arm for `CommitRotation`: what is committed already stays.
  unfoldable pub serve_commit :
      List Command → ClientState → ℕ → String → ℕ → Result ServerError ClientState
  serve_commit commands c epoch key now =
      if epoch == c.epoch && str_eq key c.public_key then ok c else do
        pending ← or_fail c.pending no_prepared
        ensure (pending.epoch == epoch && str_eq pending.public_key key) unprepared_key
        recent ← recent_handshake commands key now
        ensure recent no_handshake
        let previous : Previous = record {
          public_key = c.public_key;
          expires_at = now + overlap_seconds;
        }
        ok (record { epoch = epoch; public_key = key; pending = none; previous = some previous })

  abbrev pub key_text : Option String → String
  key_text none = ""
  key_text (some s) = s

  -- The `match` on the action.
  abbrev pub serve_action :
      List Command
      → Enrollment
      → ClientState
      → Request
      → Action
      → ℕ
      → List Command × Result ServerError ClientState
  serve_action commands e c request open_path now =
      (commands, ensure (request.epoch == c.epoch) stale_identity >> ok c)
  serve_action commands e c request prepare_rotation now =
      serve_prepare commands e c request.epoch (key_text request.public_key) now
  serve_action commands e c request commit_rotation now =
      (commands, serve_commit commands c request.epoch (key_text request.public_key) now)

  abbrev pub admit_after : List Command → Command → List Command × Result ServerError (Unit {0})
  admit_after commands command = (command ∷ commands, ensure (runs commands command) command_failed)

  -- `admission`: the deletion may fail.
  abbrev pub admission : List Command → String → List Command × Result ServerError (Unit {0})
  admission commands ip =
      if is_ipv4 ip
      then admit_after (delete_admitted ip ∷ commands) (add_admitted ip)
      else (commands, err not_ipv4)

  abbrev pub is_prepare : Action → Bool
  is_prepare open_path = false
  is_prepare prepare_rotation = true
  is_prepare commit_rotation = false

  abbrev pub Clients : Type 0
  Clients = List (String × ClientState)

  abbrev pub store_client :
      Clients
      → String
      → List Command × Result ServerError ClientState
      → String
      → (List Command × Clients) × Result ServerError (Unit {0})
  store_client clients id (commands, err e) source = ((commands, clients), err e)
  store_client clients id (commands, ok c) source =
      let (commands', result) = admission commands source in
      ((commands', insert id c clients), result)

  abbrev pub find_client : Clients → Request → Result ServerError ClientState
  find_client clients request = do
    ensure
        (not (
          is_prepare request.action
          && is_assigned request.client_id (key_text request.public_key) clients))
        key_assigned
    or_fail (lookup request.client_id clients) missing_client

  abbrev pub serve_found :
      List Command
      → Clients
      → Enrollment
      → Request
      → ℕ
      → String
      → Result ServerError ClientState
      → (List Command × Clients) × Result ServerError (Unit {0})
  serve_found commands clients e request now source (err x) = ((commands, clients), err x)
  serve_found commands clients e request now source (ok c) =
      store_client clients request.client_id (serve_action commands e c request request.action now)
        source

  -- One authenticated request, the closure in `run`: the commands and the clients after it, whatever
  -- its result.
  unfoldable pub serve :
      List Command
      → Clients
      → Enrollment
      → Request
      → ℕ
      → String
      → (List Command × Clients) × Result ServerError (Unit {0})
  serve commands clients e request now source =
      serve_found commands clients e request now source (find_client clients request)
