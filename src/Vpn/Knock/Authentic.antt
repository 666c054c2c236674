-- ===== src/Vpn/Knock/Authentic.antt =====
-- Which knocks are authentic, what an admitted knock needs, and acknowledgements.
use omni_os.Prelude.{
  Option-cases, length, ok, text_comparable, pair_comparable, lookup, ℕ, ◌≤◌, String, ◌≡◌, refl,
  ◌↔◌, inl, inr, true, not, ◌&&◌, ◌||◌, Option, none, some, arith,
}
use omni_os.Vpn.Keys.{abs_diff, Base64, decode_key}
use omni_os.Vpn.Knock.Admit.{checked-parsed}
use omni_os.Vpn.Knock.{
  prepare_rotation, commit_rotation, Crypto, Verifier, SignedRequest, Action, open_path, Bytes,
  checked, max_knock_bytes, clock_skew, knock_domain, verify_mac, is_none, is_open, check_key,
}

-- A key, where there is one, is base64 of 32 bytes.
abbrev pub HasGoodKey : Base64 → Option String → Type 0
HasGoodKey base64 none = Unit {0}
HasGoodKey base64 (some value) = (key : Bytes) × (decode_key base64 value ≡ some key)

-- A key is given exactly for the two rotation actions.
abbrev pub HasRightFields : Action → Option String → Type 0
HasRightFields action key = (action ≡ open_path) ↔ (key ≡ none)

module _ (crypto : Crypto) where
  -- What makes the bytes that arrive at a time an authentic knock of an enrolled client.
  pub record IsAuthentic (v : Verifier) (bytes : Bytes) (now : ℕ) (s : SignedRequest) : Type 0 where
    pub short : length bytes ≤ max_knock_bytes
    pub parsed : crypto.signed_of_json bytes ≡ some s
    pub version_1 : s.request.version ≡ 1
    pub secret : Bytes
    pub enrolled : lookup s.request.client_id v.secrets ≡ some secret
    pub signed : verify_mac crypto secret knock_domain (crypto.request_json s.request) s.mac ≡ ok tt
    pub fresh : abs_diff s.request.issued_at now ≤ clock_skew
    pub nonce_bytes : Bytes
    pub nonce_decoded : crypto.base64.decode s.request.nonce ≡ some nonce_bytes
    pub nonce_16 : length nonce_bytes ≡ 16
    pub good_key : HasGoodKey crypto.base64 s.request.public_key
    pub right_fields : HasRightFields s.request.action s.request.public_key

  check_key-good : (k : Option String) → check_key crypto k ≡ ok tt → HasGoodKey crypto.base64 k
  check_key-good none h = tt
  check_key-good (some value) h = elim (Option-cases (decode_key crypto.base64 value)) [
    | inl e ↦ absurd (ground arith)
    | inr (key, e) ↦ (key, e)
  ]

  right :
      (a : Action) (k : Option String)
      → ((is_open a && is_none k) || (not (is_open a) && not (is_none k))) ≡ true
      → HasRightFields a k
  right open_path none h = (λ _. refl, λ _. refl)
  right open_path (some k) h = cc
  right prepare_rotation none h = cc
  right prepare_rotation (some k) h = (λ e. cc, λ e. cc)
  right commit_rotation none h = cc
  right commit_rotation (some k) h = (λ e. cc, λ e. cc)

  pub checked-IsAuthentic :
      (v : Verifier) (bytes : Bytes) (now : ℕ) (s : SignedRequest)
      → checked crypto v bytes now ≡ ok s
      → IsAuthentic v bytes now s
  unfolding checked
  checked-IsAuthentic v bytes now s h =
      let (parsed, fresh) = checked-parsed crypto v bytes now s h in
      elim (Option-cases (lookup s.request.client_id v.secrets)) [
        | inl e ↦ absurd (ground arith)
        | inr (secret, enrolled) ↦ elim (Option-cases (crypto.base64.decode s.request.nonce)) [
          | inl e ↦ absurd (ground arith)
          | inr (nonce, decoded) ↦ record {
            short = ground arith;
            parsed = parsed;
            version_1 = ground arith;
            secret = secret;
            enrolled = enrolled;
            signed = ground arith;
            fresh = fresh;
            nonce_bytes = nonce;
            nonce_decoded = decoded;
            nonce_16 = ground arith;
            good_key = check_key-good s.request.public_key (ground arith);
            right_fields = right s.request.action s.request.public_key (ground arith);
          }
        ]
      ]

  pub IsAuthentic-checked :
      (v : Verifier) (bytes : Bytes) (now : ℕ) (s : SignedRequest)
      → IsAuthentic v bytes now s
      → checked crypto v bytes now ≡ ok s
  unfolding checked
  IsAuthentic-checked v bytes now s h = ground arith
