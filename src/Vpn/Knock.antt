-- ===== src/Vpn/Knock.antt =====
-- Authenticated admission, crates/omni-vpn/src/knock.rs: signed requests and acknowledgements, and
-- the verifier with its table of nonces. HMAC-SHA256, base64 and the JSON forms are parameters.
pub mod Admit
pub mod Restart
pub mod Replay
pub mod Capacity
pub mod Authentic
pub mod Outcome
mod Tests
use omni_os.Prelude.{
  ltb, leb, ◌==◌, if◌then◌else◌, ==_iff, Bool-cases, Option-cases, le→leb, lt→leb_false, leb→le,
  ltb→lt, eq→==, ne→==_false, lt→ltb, le→ltb_false, length, get_or, set, take, drop, replicate, all,
  any, keep_if, find, length-append, length-keep_if, replicate-add, All, ◌>>=◌, ◌>>◌, ensure,
  or_fail, ensure-eq-ok, >>=-eq-ok, Result-cases, Result, ok, err, text_comparable, pair_beq,
  pair_beq_iff, pair_comparable, beq_refl, lookup, contains, insert, retain, lookup-insert_self,
  lookup-insert_ne, lookup-retain, is_whitespace, is_control, is_ascii_alphanumeric, all_chars,
  any_char, is_empty, trim_start, trim_end, trim, ℕ, zero, suc, ◌+◌, ◌-◌, ◌*◌, ◌/◌, ◌%◌, ◌^◌, ◌≤◌,
  ◌<◌, min, max, code, String, len, ◌≡◌, refl, sym, ap, ◌∙◌, subst, ◌≢◌, ◌↔◌, ◌⊎◌, inl, inr, Bool,
  true, false, not, ◌&&◌, ◌||◌, Option, none, some, List, [], ◌∷◌, ◌++◌, map, arith, str_eq, eq_iff,
}
use omni_os.Vpn.Keys.{saturating_add, abs_diff, Base64, decode_key}

abbrev pub admission_ttl : ℕ
admission_ttl = 120

abbrev pub clock_skew : ℕ
clock_skew = 30

abbrev pub max_knock_bytes : ℕ
max_knock_bytes = 2048

abbrev pub max_nonces : ℕ
max_nonces = 4096

abbrev pub Bytes : Type 0
Bytes = List ℕ

pub data Action : Type 0 where
  open_path prepare_rotation commit_rotation : Action

pub record Request : Type 0 where
  pub version : ℕ
  pub client_id : String
  pub issued_at : ℕ
  pub nonce : String
  pub action : Action
  pub epoch : ℕ
  pub public_key : Option String

pub record SignedRequest : Type 0 where
  pub request : Request
  pub mac : String

pub record Ack : Type 0 where
  pub client_id : String
  pub nonce : String
  pub epoch : ℕ
  pub public_key : Option String
  pub accepted_at : ℕ
  pub expires_at : ℕ

pub record SignedAck : Type 0 where
  pub ack : Ack
  pub mac : String

pub data Error : Type 0 where
  bad_json bad_base64 invalid_authentication : Error
  ack_mismatch ack_expired : Error
  invalid_client_id already_enrolled nonce_store_too_large : Error
  knock_too_large unsupported_version unknown_client stale_knock invalid_nonce bad_key : Error
  invalid_action_fields replayed_knock capacity_reached : Error

-- What other crates do: the keyed hash, the codecs, and `serde_json::from_slice` on a knock.
pub record Crypto : Type 0 where
  pub base64 : Base64
  pub hmac : Bytes → Bytes → Bytes
  pub request_json : Request → Option Bytes
  pub ack_json : Ack → Option Bytes
  pub signed_of_json : Bytes → Option SignedRequest

-- `b"OMNI-KNOCK-v1\0"` and `b"OMNI-KNOCK-ACK-v1\0"`.
abbrev pub codes : String → Bytes
codes String.[] = []
codes (String.◌∷◌ c s) = code c ∷ codes s

abbrev pub knock_domain : Bytes
knock_domain = codes "OMNI-KNOCK-v1" ++ (0 ∷ [])

abbrev pub ack_domain : Bytes
ack_domain = codes "OMNI-KNOCK-ACK-v1" ++ (0 ∷ [])

abbrev pub bytes_beq : Bytes → Bytes → Bool
bytes_beq [] [] = true
bytes_beq [] (b ∷ ys) = false
bytes_beq (a ∷ xs) [] = false
bytes_beq (a ∷ xs) (b ∷ ys) = a == b && bytes_beq xs ys

abbrev pub option_beq : Option String → Option String → Bool
option_beq none none = true
option_beq none (some b) = false
option_beq (some a) none = false
option_beq (some a) (some b) = str_eq a b

abbrev pub is_none {ℓ} : {A : Type ℓ} → Option A → Bool
is_none none = true
is_none (some a) = false

abbrev pub is_open : Action → Bool
is_open open_path = true
is_open prepare_rotation = false
is_open commit_rotation = false

pub record Verifier : Type 0 where
  pub secrets : List (String × Bytes)
  pub nonces : List ((String × String) × ℕ)

unfoldable pub new : Verifier
new = record { secrets = []; nonces = [] }

abbrev is_id_char : ℕ → Bool
is_id_char c = is_ascii_alphanumeric c || (c == b'-' || c == b'_')

unfoldable pub enroll : Verifier → String → Bytes → Result Error Verifier
enroll v client_id secret = do
  ensure (not (is_empty client_id) && (leb (len client_id) 64 && all_chars is_id_char client_id))
      invalid_client_id
  ensure (not (contains client_id v.secrets)) already_enrolled
  ok (record v { secrets = insert client_id secret v.secrets })

-- The loop of `restore_nonces`: the first live entry for a key is kept.
unfoldable pub restore_loop :
    List ((String × String) × ℕ)
    → ℕ
    → List ((String × String) × Unit {0})
    → List ((String × String) × ℕ)
    → List ((String × String) × ℕ)
restore_loop [] now seen nonces = nonces
restore_loop ((key, expiry) ∷ entries) now seen nonces =
    let fresh = ltb now expiry && not (contains key seen) in
    restore_loop entries now (if fresh then insert key tt seen else seen)
      (if fresh then insert key expiry nonces else nonces)

unfoldable pub restore_nonces : Verifier → List ((String × String) × ℕ) → ℕ → Result Error Verifier
restore_nonces v entries now = do
  ensure (leb (length entries) max_nonces) nonce_store_too_large
  ok (record v { nonces = restore_loop entries now [] v.nonces })

-- The order of a `HashMap`'s entries is not specified; here it is that of the list.
unfoldable pub nonce_entries : Verifier → List ((String × String) × ℕ)
nonce_entries v = v.nonces

-- Every knock with this key, and the time until which it is refused.
abbrev pub key_of : Request → String × String
key_of request = (request.client_id, request.nonce)

-- The part of `authenticate` that reads and writes the table: what has expired goes, also if the
-- knock is then refused.
unfoldable pub admit : Verifier → SignedRequest → ℕ → Verifier × Result Error SignedRequest
admit v signed now =
    let live = retain (λ expiry. ltb now expiry) v.nonces in
    let request = signed.request in
    if contains (key_of request) live
    then (record v { nonces = live }, err replayed_knock)
    else if leb max_nonces (length live)
    then (record v { nonces = live }, err capacity_reached)
    else (
      record v {
        nonces = insert (key_of request) (saturating_add request.issued_at (clock_skew + 1)) live;
      },
      ok signed,
    )

module _ (crypto : Crypto) where
  open crypto use {base64, hmac, request_json, ack_json, signed_of_json}

  -- `mac_for`, on the JSON form of the value.
  unfoldable pub mac_for : Bytes → Bytes → Option Bytes → Result Error String
  mac_for secret domain json = do
    value ← or_fail json bad_json
    ok (base64.encode (hmac secret (domain ++ value)))

  unfoldable pub verify_mac : Bytes → Bytes → Option Bytes → String → Result Error (Unit {0})
  verify_mac secret domain json encoded = do
    bytes ← or_fail (base64.decode encoded) bad_base64
    value ← or_fail json bad_json
    ensure (bytes_beq (hmac secret (domain ++ value)) bytes) invalid_authentication

  -- `SignedRequest::new`; the 16 random bytes are an argument.
  pub sign_request :
      String → Bytes → ℕ → Action → ℕ → Option String → Bytes → Result Error SignedRequest
  sign_request client_id secret now action epoch public_key random = do
    let request : Request = record {
      version = 1;
      client_id = client_id;
      issued_at = now;
      nonce = base64.encode random;
      action = action;
      epoch = epoch;
      public_key = public_key;
    }
    mac ← mac_for secret knock_domain (request_json request)
    ok (record { request = request; mac = mac })

  unfoldable pub issue : Request → Bytes → ℕ → Result Error SignedAck
  issue request secret now = do
    let ack : Ack = record {
      client_id = request.client_id;
      nonce = request.nonce;
      epoch = request.epoch;
      public_key = request.public_key;
      accepted_at = now;
      expires_at = saturating_add now admission_ttl;
    }
    mac ← mac_for secret ack_domain (ack_json ack)
    ok (record { ack = ack; mac = mac })

  pub verify : SignedAck → Request → Bytes → ℕ → Result Error (Unit {0})
  verify signed request secret now = do
    let ack = signed.ack
    verify_mac secret ack_domain (ack_json ack) signed.mac
    ensure
        (str_eq ack.client_id request.client_id
          && (str_eq ack.nonce request.nonce
              && (ack.epoch == request.epoch && option_beq ack.public_key request.public_key)))
        ack_mismatch
    ensure
        (leb (abs_diff ack.accepted_at now) clock_skew
          && (ltb now ack.expires_at && leb (ack.expires_at - ack.accepted_at) admission_ttl))
        ack_expired

  -- `if let Some(public_key) = … { decode_key(public_key)?; }`
  abbrev pub check_key : Option String → Result Error (Unit {0})
  check_key none = ok tt
  check_key (some value) = or_fail (decode_key base64 value) bad_key >>= λ _. ok tt

  -- The checks of `authenticate` that only read.
  unfoldable pub checked : Verifier → Bytes → ℕ → Result Error SignedRequest
  checked v bytes now = do
    ensure (leb (length bytes) max_knock_bytes) knock_too_large
    signed ← or_fail (signed_of_json bytes) bad_json
    let request = signed.request
    ensure (request.version == 1) unsupported_version
    secret ← or_fail (lookup request.client_id v.secrets) unknown_client
    verify_mac secret knock_domain (request_json request) signed.mac
    ensure (leb (abs_diff request.issued_at now) clock_skew) stale_knock
    nonce ← or_fail (base64.decode request.nonce) bad_base64
    ensure (length nonce == 16) invalid_nonce
    check_key request.public_key
    ensure
        ((is_open request.action && is_none request.public_key)
          || (not (is_open request.action) && not (is_none request.public_key)))
        invalid_action_fields
    ok signed

  unfoldable pub authenticate : Verifier → Bytes → ℕ → Verifier × Result Error SignedRequest
  authenticate v bytes now = elim (checked v bytes now) [
    | err e ↦ (v, err e)
    | ok signed ↦ admit v signed now
  ]

  -- `Verifier::acknowledge`
  unfoldable pub acknowledge : Verifier → Request → ℕ → Result Error SignedAck
  acknowledge v request now = do
    secret ← or_fail (lookup request.client_id v.secrets) unknown_client
    issue request secret now
