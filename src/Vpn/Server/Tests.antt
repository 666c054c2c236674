-- ===== src/Vpn/Server/Tests.antt =====
-- The server at concrete requests: commands succeed, and a key is the text of its number.

use omni_os.Vpn.Knock.{
  Bytes, open_path, commit_rotation, Crypto, Request, SignedAck, Verifier, enroll, new,
  restore_loop, restore_nonces, nonce_entries, admit, issue, checked, authenticate,
  acknowledge as knock_acknowledge, verify_mac, mac_for,
}
use omni_os.Vpn.Keys.{decode_key, saturating_add}
use omni_os.Vpn.Server.{
  cleanup, Outside, Enrollment, ClientState, Command, set_peer, serve_prepare, recent_handshake,
  serve, add_admitted, delete_admitted, remove_peer, is_assigned, ServerError, no_prepared,
}
use omni_os.Prelude.{
  ◌==◌, if◌then◌else◌, replicate, Result, ok, err, text_comparable, pair_comparable, lookup, trim,
  ℕ, ◌+◌, String, len, ◌≡◌, refl, Bool, true, false, Option, none, some, List, [], ◌∷◌, arith,
}
use omni_os.Vpn.Rotation.{Rotation, Key, fresh, prepare, acknowledge, overlap_seconds}
use omni_os.Vpn.Server.Exclusive.{IsExclusive}
use omni_os.Vpn.Server.Loop.{State, Server, start_server, enroll_all, clean, round}
use omni_os.Vpn.Server.Reached.{started, goes_on, IsDurable}
use omni_os.Vpn.Server.Started.{Rounds-started}
use omni_os.Vpn.Server.Agreed.{rotation-Agrees, serve-cleanup}
use omni_os.Vpn.Server.Prepared.{Agrees, prepares_at, next_of, request_for}
use omni_os.Vpn.Server.Meanwhile.{waiting_of, settled_of, Meanwhile, idle, cleans}

abbrev outside : Outside
outside = record {
  runs = λ commands c. true;
  handshakes = λ commands. some (("new" ∷ "100" ∷ []) ∷ []);
  parse_u64 = λ s. some 100;
  is_ipv4 = λ s. true;
}

abbrev enrolled_one : Enrollment
enrolled_one = record {
  id = "laptop";
  knock_secret = "secret";
  public_key = "old";
  even_address = "10.0.0.2/32";
  odd_address = "10.0.0.3/32";
}

abbrev double : Key → Key
double k = k + k

abbrev text_of : Key → String
text_of k = if k == 2 then "old" else "new"

abbrev client_side : Rotation
client_side = record {
  active = record { epoch = 0; private_key = 1; public_key = 2 };
  pending = none;
  retired = none;
  next_at = 90;
  interval = 1800;
}

abbrev server_side : ClientState
server_side = record { epoch = 0; public_key = "old"; pending = none; previous = none }

abbrev other_side : ClientState
other_side = record { epoch = 4; public_key = "third"; pending = none; previous = none }

abbrev two_clients : ClientState → List (String × ClientState)
two_clients c = ("laptop", c) ∷ ("phone", other_side) ∷ []

abbrev any_request : Request
any_request = record {
  version = 1;
  client_id = "";
  issued_at = 100;
  nonce = "abcdefghijklmnop";
  action = open_path;
  epoch = 0;
  public_key = none;
}

abbrev prepared_first : (List Command × List (String × ClientState)) × Result ServerError (Unit {0})
prepared_first =
    prepares_at double text_of outside enrolled_one client_side "laptop" "192.0.2.7" any_request
      (two_clients server_side) [] 7 95

abbrev first_commands : List Command
first_commands =
    add_admitted "192.0.2.7" ∷ delete_admitted "192.0.2.7" ∷ set_peer "new" "10.0.0.3/32" ∷ []

abbrev waiting : List (String × ClientState)
waiting = two_clients (waiting_of server_side 1 "new" 155)

clean_100 :
    cleanup outside 100 prepared_first.0.0 prepared_first.0.1 ≡ ok (false, first_commands, waiting)
unfolding serve serve_prepare fresh cleanup
clean_100 = refl

clean_110 : cleanup outside 110 first_commands waiting ≡ ok (false, first_commands, waiting)
unfolding cleanup
clean_110 = refl

clean_155 :
    cleanup outside 155 first_commands waiting
    ≡ ok (true, remove_peer "new" ∷ first_commands, two_clients server_side)
unfolding cleanup
clean_155 = refl

cleaned_once :
    Meanwhile outside "laptop" 155 prepared_first.0.0 prepared_first.0.1 first_commands waiting
cleaned_once = cleans 100 false idle (omega arith) clean_100

new_handshake : recent_handshake outside first_commands "new" 110 ≡ ok true
unfolding recent_handshake
new_handshake = refl

next_is_free : is_assigned "laptop" "new" (two_clients server_side) ≡ false
next_is_free = refl

rotation-Agrees_example :
    let k = next_of double client_side 7 in
    let commit = request_for any_request "laptop" commit_rotation k text_of in
    let second = serve outside first_commands waiting enrolled_one commit 110 "192.0.2.7" in
    let sent = (prepare double client_side 90 7).0 in
    (done : ClientState) × (s : Rotation) × (prepared_first.1 ≡ ok tt)
    × (second.1 ≡ ok tt)
    × (lookup "laptop" second.0.1 ≡ some done)
    × ((any : List Command) (again : ℕ)
        → ((serve outside any second.0.1 enrolled_one commit again "192.0.2.7").1 ≡ ok tt)
          × (lookup "laptop"
                (serve outside any second.0.1 enrolled_one commit again "192.0.2.7").0.1
              ≡ some done))
    × (acknowledge sent k.epoch k.public_key 111 ≡ ok s)
    × Agrees text_of s done
    × (s.active ≡ k)
    × (s.retired ≡ some (client_side.active, saturating_add 111 overlap_seconds))
    × (done.previous ≡ some (record { public_key = "old"; expires_at = 110 + overlap_seconds }))
rotation-Agrees_example =
    rotation-Agrees double text_of outside enrolled_one client_side server_side "laptop" "192.0.2.7"
      any_request (two_clients server_side) waiting waiting [] first_commands first_commands false
      90 7 95 110 111 (record { epoch = refl; key = refl; idle = refl }) refl
      (record {
        time_has_come = omega arith;
        nothing_pending = refl;
        overlap_over = tt;
        epoch_left = omega arith;
      })
      refl refl next_is_free (λ done command. refl) refl cleaned_once (omega arith) clean_110
      new_handshake

serve-cleanup_example :
    let k = next_of double client_side 7 in
    let commit = request_for any_request "laptop" commit_rotation k text_of in
    Agrees text_of client_side (settled_of server_side)
    × (lookup "laptop" (two_clients server_side) ≡ some (settled_of server_side))
    × (serve outside
          (remove_peer "new" ∷ first_commands)
          (two_clients server_side)
          enrolled_one
          commit
          155
          "192.0.2.7"
        ≡ ((remove_peer "new" ∷ first_commands, two_clients server_side), err no_prepared))
serve-cleanup_example =
    serve-cleanup double text_of outside enrolled_one client_side server_side "laptop" "192.0.2.7"
      any_request (two_clients server_side) waiting (two_clients server_side) [] first_commands
      (remove_peer "new" ∷ first_commands) true 7 95 155
      (record { epoch = refl; key = refl; idle = refl }) refl (omega arith) refl refl next_is_free
      (λ done command. refl) refl cleaned_once (omega arith) clean_155

-- A start with one client, and a round with a knock of it; a text decodes to as many zeros.
abbrev text_32 : String
text_32 = "abcdefghijklmnopabcdefghijklmnop"

abbrev one_client : Enrollment
one_client = record {
  id = "laptop";
  knock_secret = text_32;
  public_key = text_32;
  even_address = "10.0.0.2/32";
  odd_address = "10.0.0.3/32";
}

abbrev opening : Request
opening = record {
  version = 1;
  client_id = "laptop";
  issued_at = 100;
  nonce = "abcdefghijklmnop";
  action = open_path;
  epoch = 0;
  public_key = none;
}

abbrev toy : Crypto
toy = record {
  base64 = record { encode = λ bytes. ""; decode = λ s. some (replicate (len s) 0) };
  hmac = λ secret message. [];
  request_json = λ r. some [];
  ack_json = λ a. some [];
  signed_of_json = λ bytes. some (record { request = opening; mac = "" });
}

abbrev any_address : String → Bool
any_address raw = true

abbrev can_save : State → Bool
can_save state = true

abbrev ack_bytes : SignedAck → Option Bytes
ack_bytes ack = some (1 ∷ [])

abbrev verifier_0 : Verifier
verifier_0 = record { secrets = ("laptop", replicate 32 0) ∷ []; nonces = [] }

abbrev state_0 : State
state_0 = record {
  clients =
      ("laptop", record { epoch = 0; public_key = text_32; pending = none; previous = none }) ∷ [];
  nonces = [];
}

abbrev server_0 : Server
server_0 = record {
  enrolled = ("laptop", one_client) ∷ [];
  verifier = verifier_0;
  state = state_0;
  commands = set_peer text_32 "10.0.0.2/32" ∷ [];
  disk = some state_0;
}

server_0-start_server :
    start_server outside toy any_address can_save ack_bytes (one_client ∷ []) none 90 ≡ ok server_0
unfolding start_server enroll_all decode_key trim enroll new restore_nonces restore_loop cleanup
server_0-start_server = refl

abbrev state_1 : State
state_1 = record state_0 { nonces = (("laptop", "abcdefghijklmnop"), 131) ∷ [] }

abbrev server_1 : Server
server_1 = record {
  enrolled = ("laptop", one_client) ∷ [];
  verifier = record verifier_0 { nonces = state_1.nonces };
  state = state_1;
  commands =
      add_admitted "192.0.2.1" ∷ delete_admitted "192.0.2.1" ∷ set_peer text_32 "10.0.0.2/32" ∷ [];
  disk = some state_1;
}

server_1-round :
    round outside toy any_address can_save ack_bytes server_0 100 (some (0 ∷ [], "192.0.2.1"))
    ≡ ok (server_1, some (1 ∷ []))
unfolding round clean cleanup authenticate checked admit verify_mac nonce_entries serve
    knock_acknowledge issue mac_for
server_1-round = refl

Rounds-started_example :
    IsExclusive server_1.state.clients
    × IsDurable outside toy any_address can_save ack_bytes server_1 (some (1 ∷ []))
Rounds-started_example =
    Rounds-started outside toy any_address can_save ack_bytes (one_client ∷ []) 90 server_0 server_1
      (some (1 ∷ [])) server_0-start_server
      (goes_on 100 (some (0 ∷ [], "192.0.2.1")) started server_1-round)
