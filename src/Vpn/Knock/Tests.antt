-- ===== src/Vpn/Knock/Tests.antt =====
-- A verifier with one client under toy codecs, and the theorems at it.

-- A number as that many `a` and a `b`.

use omni_os.Vpn.Knock.Capacity.{run-IsBounded, IsBounded}
use omni_os.Vpn.Knock.Outcome.{
  authenticate-ok_iff, authenticate_refused, live, verify-issue, sign_request-IsAuthentic,
}
use omni_os.Vpn.Knock.{
  replayed_knock, max_nonces, verify_mac, admit, ack_expired, checked, key_of, SignedAck,
  authenticate, issue, mac_for, verify, new, sign_request, bytes_beq, enroll, open_path, Crypto,
  Verifier, SignedRequest, Request, Bytes,
}
use omni_os.Vpn.Knock.Admit.{expiry_of}
use omni_os.Vpn.Knock.Replay.{no_replay, restarts, knock, run}
use omni_os.Vpn.Knock.Restart.{restart}
use omni_os.Vpn.Knock.Authentic.{IsAuthentic}
use omni_os.Prelude.{
  ◌==◌, if◌then◌else◌, length, replicate, ok, err, text_comparable, pair_comparable, lookup, insert,
  ℕ, zero, suc, ◌+◌, ◌<◌, code, String, ◌≡◌, refl, ap, ◌∙◌, ◌≢◌, ◌↔◌, ◌⊎◌, Option, none, some, [],
  ◌∷◌, ◌++◌, arith,
}
use omni_os.Vpn.Keys.{Base64}

encode_onto : ℕ → String → String
encode_onto zero s = String.◌∷◌ "b" s
encode_onto (suc n) s = String.◌∷◌ "a" (encode_onto n s)

encode : Bytes → String
unfolding encode_onto
encode [] = ""
encode (b ∷ bytes) = encode_onto b (encode bytes)

decode_from : ℕ → String → Option Bytes
decode_from n String.[] = if n == 0 then some [] else none
decode_from n (String.◌∷◌ c s) =
    let more = decode_from (suc n) s in
    let rest = decode_from 0 s in
    if code c == b'a' then more else elim rest [ none ↦ none | some bytes ↦ some (n ∷ bytes) ]

decode_from-encode_onto :
    (n k : ℕ) (s : String) (bytes : Bytes)
    → decode_from 0 s ≡ some bytes
    → decode_from k (encode_onto n s) ≡ some ((n + k) ∷ bytes)
unfolding decode_from encode_onto
decode_from-encode_onto zero k s bytes h = let e : 0 + k ≡ k = omega arith in rw (h, e)
decode_from-encode_onto (suc n) k s bytes h =
    decode_from-encode_onto n (suc k) s bytes h
    ∙ ap (λ m. some (m ∷ bytes)) (let e : n + suc k ≡ suc n + k = omega arith in e)

decode-encode : (bytes : Bytes) → decode_from 0 (encode bytes) ≡ some bytes
unfolding encode
decode-encode [] = unfold decode_from in refl
decode-encode (b ∷ bytes) =
    decode_from-encode_onto b 0 (encode bytes) bytes (decode-encode bytes)
    ∙ ap (λ m. some (m ∷ bytes)) (let e : b + 0 ≡ b = omega arith in e)

abbrev toy_base64 : Base64
toy_base64 = record { encode = encode; decode = decode_from 0 }

abbrev request : Request
request = record {
  version = 1;
  client_id = "alice";
  issued_at = 100;
  nonce = "bbbbbbbbbbbbbbbb";
  action = open_path;
  epoch = 0;
  public_key = none;
}

-- The tag of `request` under the toy hash, which appends the message's length to the secret.
abbrev signed : SignedRequest
signed = record { request = request; mac = "aaaaaaabaaaaaaaaaaaaaab" }

abbrev toy : Crypto
toy = record {
  base64 = toy_base64;
  hmac = λ secret message. secret ++ (length message ∷ []);
  request_json = λ r. some [];
  ack_json = λ a. some [];
  signed_of_json = λ bytes. if bytes_beq bytes (1 ∷ []) then some signed else none;
}

abbrev alice_only : Verifier
alice_only = record { secrets = ("alice", 7 ∷ []) ∷ []; nonces = [] }

alice_enrolled : enroll new "alice" (7 ∷ []) ≡ ok alice_only
unfolding enroll new
alice_enrolled = refl

zeros : Bytes
zeros = replicate 16 0

signed_by_alice : sign_request toy "alice" (7 ∷ []) 100 open_path 0 none zeros ≡ ok signed
unfolding sign_request mac_for encode encode_onto zeros
signed_by_alice = refl

abbrev admitted : Verifier
admitted = record alice_only { nonces = (("alice", "bbbbbbbbbbbbbbbb"), 131) ∷ [] }

admitted_at : authenticate toy alice_only (1 ∷ []) 100 ≡ (admitted, ok signed)
unfolding authenticate checked admit verify_mac decode_from
admitted_at = refl

replayed_at : (authenticate toy admitted (1 ∷ []) 130).1 ≡ err replayed_knock
unfolding authenticate checked admit verify_mac decode_from
replayed_at = refl

no_replay_example :
    authenticate toy (run toy admitted (knock (1 ∷ []) 110 ∷ restarts 115 ∷ [])) (1 ∷ []) 120
    ≢ (alice_only, ok signed)
no_replay_example =
    no_replay toy alice_only admitted alice_only (1 ∷ []) (1 ∷ []) 100 120 signed signed
      (knock (1 ∷ []) 110 ∷ restarts 115 ∷ []) admitted_at (omega arith) (omega arith) refl refl

run-IsBounded_example :
    IsBounded (run toy admitted (knock (1 ∷ []) 110 ∷ restarts 115 ∷ []))
    × ((w : Verifier) × (restart (run toy admitted (knock (1 ∷ []) 110 ∷ restarts 115 ∷ [])) 120
          ≡ ok w))
run-IsBounded_example =
    run-IsBounded toy admitted (knock (1 ∷ []) 110 ∷ restarts 115 ∷ []) 120 (omega arith)

authenticate-ok_iff_example : (authenticate toy alice_only (1 ∷ []) 100 ≡ (admitted, ok signed)) ↔ (
    IsAuthentic toy alice_only (1 ∷ []) 100 signed
    × (lookup (key_of request) (live alice_only 100) ≡ none)
    × (length (live alice_only 100) < max_nonces)
    × (admitted ≡ record alice_only {
      nonces = insert (key_of request) (expiry_of request) (live alice_only 100);
    }))
authenticate-ok_iff_example = authenticate-ok_iff toy alice_only admitted (1 ∷ []) 100 signed

authenticate_refused_example :
    (admitted ≡ admitted) ⊎ (admitted ≡ record admitted { nonces = live admitted 130 })
unfolding authenticate checked admit verify_mac decode_from
authenticate_refused_example =
    authenticate_refused toy admitted admitted (1 ∷ []) 130 replayed_knock refl

sign_request-IsAuthentic_example : IsAuthentic toy alice_only (1 ∷ []) 110 signed
unfolding zeros
sign_request-IsAuthentic_example =
    sign_request-IsAuthentic toy decode-encode alice_only (1 ∷ []) (7 ∷ []) zeros "alice" 100 110 0
      open_path none signed signed_by_alice refl refl tt (λ _. refl, λ _. refl) (omega arith)
      (omega arith) refl

abbrev signed_ack : SignedAck
signed_ack = record {
  ack = record {
    client_id = "alice";
    nonce = "bbbbbbbbbbbbbbbb";
    epoch = 0;
    public_key = none;
    accepted_at = 101;
    expires_at = 221;
  };
  mac = "aaaaaaabaaaaaaaaaaaaaaaaaab";
}

issued_at : issue toy request (7 ∷ []) 101 ≡ ok signed_ack
unfolding issue mac_for encode encode_onto
issued_at = refl

verify-issue_example : verify toy signed_ack request (7 ∷ []) 132 ≡ err ack_expired
verify-issue_example =
    verify-issue toy decode-encode request (7 ∷ []) 101 132 signed_ack issued_at (omega arith)
