-- ===== src/Vpn/Knock/Outcome.antt =====
-- What `authenticate` admits and leaves, and that honest requests and acknowledgements are accepted.
use omni_os.Prelude.{
  ltb, leb, if◌then◌else◌, eq→==, length, ensure, >>=-eq-ok, Result-cases, ok, err, text_comparable,
  pair_comparable, lookup, insert, retain, ℕ, ◌+◌, ◌-◌, ◌≤◌, ◌<◌, String, ◌≡◌, refl, subst, ◌↔◌,
  ◌⊎◌, inl, inr, true, ◌&&◌, Option, none, some, List, [], ◌∷◌, ◌++◌, arith, eq_iff,
}
use omni_os.Vpn.Keys.{u64_max, saturating_add, abs_diff}
use omni_os.Vpn.Knock.{
  Crypto, Verifier, SignedRequest, SignedAck, Ack, Request, Action, Error, Bytes, key_of, admit,
  checked, authenticate, max_nonces, max_knock_bytes, clock_skew, admission_ttl, knock_domain,
  ack_domain, mac_for, verify_mac, issue, verify, bytes_beq, option_beq, ack_expired, sign_request,
}
use omni_os.Vpn.Knock.Admit.{authenticate-admit, expiry_of}
use omni_os.Vpn.Knock.Authentic.{
  IsAuthentic, HasGoodKey, HasRightFields, checked-IsAuthentic, IsAuthentic-checked,
}

abbrev pub live : Verifier → ℕ → List ((String × String) × ℕ)
live v now = retain (λ expiry. ltb now expiry) v.nonces

admit-ok_iff :
    (v w : Verifier) (s : SignedRequest) (now : ℕ)
    → (admit v s now ≡ (w, ok s)) ↔ (
        (lookup (key_of s.request) (live v now) ≡ none)
        × (length (live v now) < max_nonces)
        × (w ≡ record v { nonces = insert (key_of s.request) (expiry_of s.request) (live v now) }))
unfolding admit
admit-ok_iff v w s now = (λ h. ground arith, λ h. ground arith)

admit_err :
    (v w : Verifier) (s : SignedRequest) (e : Error) (now : ℕ)
    → admit v s now ≡ (w, err e)
    → w ≡ record v { nonces = live v now }
unfolding admit
admit_err v w s e now h = ground arith

bytes_beq_refl : (bs : Bytes) → bytes_beq bs bs ≡ true
bytes_beq_refl [] = refl
bytes_beq_refl (b ∷ bs) = ground (arith, bytes_beq_refl bs)

option_beq_refl : (k : Option String) → option_beq k k ≡ true
option_beq_refl none = refl
option_beq_refl (some k) = (eq_iff k k).1 refl

-- Within the clock skew of its issue an acknowledgement has not expired.
window :
    (issued now : ℕ)
    → issued + admission_ttl ≤ u64_max
    → ensure
        (leb (abs_diff issued now) clock_skew
          && (ltb now (saturating_add issued admission_ttl)
              && leb (saturating_add issued admission_ttl - issued) admission_ttl))
        ack_expired
      ≡ (if leb (abs_diff issued now) clock_skew then ok tt else err ack_expired)
window issued now room = ground arith

module _ (crypto : Crypto) where
  -- A knock is admitted exactly when it is authentic at that time, its client and nonce are not among
  -- the nonces that have not expired, and these are fewer than 4096; the table is then these nonces
  -- with the new one, which expires 31 seconds after the time of issue.
  pub authenticate-ok_iff :
      (v w : Verifier) (bytes : Bytes) (now : ℕ) (s : SignedRequest)
      → (authenticate crypto v bytes now ≡ (w, ok s)) ↔ (
          IsAuthentic crypto v bytes now s
          × (lookup (key_of s.request) (live v now) ≡ none)
          × (length (live v now) < max_nonces)
          × (w
              ≡ record v { nonces = insert (key_of s.request) (expiry_of s.request) (live v now) }))
  unfolding authenticate
  authenticate-ok_iff v w bytes now s = (
    λ h.
        let (c, a) = authenticate-admit crypto v w bytes now s h in
        let r = (admit-ok_iff v w s now).0 a in
        (checked-IsAuthentic crypto v bytes now s c, r.0, r.1, r.2),
    λ h.
        let a = (admit-ok_iff v w s now).1 (h.1, h.2, h.3) in
        let c = IsAuthentic-checked crypto v bytes now s h.0 in ground arith,
  )

  -- A refused knock adds nothing: the verifier is unchanged, or has lost its expired nonces alone.
  pub authenticate_refused :
      (v w : Verifier) (bytes : Bytes) (now : ℕ) (e : Error)
      → authenticate crypto v bytes now ≡ (w, err e)
      → (w ≡ v) ⊎ (w ≡ record v { nonces = live v now })
  unfolding authenticate
  authenticate_refused v w bytes now e h = elim (Result-cases (checked crypto v bytes now)) [
    | inl (s, c) ↦ inr (admit_err v w s e now (ground arith))
    | inr (x, c) ↦ inl (ground arith)
  ]

  module _
      (base64_law : (bytes : Bytes)
        → crypto.base64.decode (crypto.base64.encode bytes) ≡ some bytes) where
    verify_mac-mac_for :
        (secret domain : Bytes) (json : Option Bytes) (mac : String)
        → mac_for crypto secret domain json ≡ ok mac
        → verify_mac crypto secret domain json mac ≡ ok tt
    unfolding mac_for verify_mac
    verify_mac-mac_for secret domain none mac h = cc
    verify_mac-mac_for secret domain (some value) mac h =
        let tag : Bytes = crypto.hmac secret (domain ++ value) in
        ground (arith, base64_law tag, bytes_beq_refl tag)

    -- If base64 decodes what it encodes, then a request that is signed with the secret of an enrolled
    -- client, with 16 random bytes and the fields that its action needs, and that arrives within 30
    -- seconds in at most 2048 bytes that parse to it, is authentic.
    pub sign_request-IsAuthentic :
        (v : Verifier) (bytes secret random : Bytes) (client_id : String) (issued now epoch : ℕ)
        (action : Action) (public_key : Option String) (s : SignedRequest)
        → sign_request crypto client_id secret issued action epoch public_key random ≡ ok s
        → lookup client_id v.secrets ≡ some secret
        → length random ≡ 16
        → HasGoodKey crypto.base64 public_key
        → HasRightFields action public_key
        → abs_diff issued now ≤ clock_skew
        → length bytes ≤ max_knock_bytes
        → crypto.signed_of_json bytes ≡ some s
        → IsAuthentic crypto v bytes now s
    unfolding sign_request
    sign_request-IsAuthentic v bytes secret random client_id issued now epoch action public_key s h
          enrolled r16 key fields near short parsed =
        let request : Request = record {
          version = 1;
          client_id = client_id;
          issued_at = issued;
          nonce = crypto.base64.encode random;
          action = action;
          epoch = epoch;
          public_key = public_key;
        } in
        let (mac, m, made) =
          >>=-eq-ok (mac_for crypto secret knock_domain (crypto.request_json request))
            (λ mac. ok (record { request = request; mac = mac })) h in
        let e : record { request = request; mac = mac } ≡ s = ground arith in
        subst (λ x. crypto.signed_of_json bytes ≡ some x → IsAuthentic crypto v bytes now x) e
          (λ p. record {
            short = short;
            parsed = p;
            version_1 = refl;
            secret = secret;
            enrolled = enrolled;
            signed = verify_mac-mac_for secret knock_domain _ mac m;
            fresh = near;
            nonce_bytes = random;
            nonce_decoded = base64_law random;
            nonce_16 = r16;
            good_key = key;
            right_fields = fields;
          })
          parsed

    -- If base64 decodes what it encodes, then an acknowledgement that is issued for a request is
    -- verified, with the same request and secret and before the end of 64 bits, within 30 seconds of its
    -- issue on either side, and is refused as expired at any other time.
    pub verify-issue :
        (request : Request) (secret : Bytes) (issued now : ℕ) (signed : SignedAck)
        → issue crypto request secret issued ≡ ok signed
        → issued + admission_ttl ≤ u64_max
        → verify crypto signed request secret now
          ≡ (if leb (abs_diff issued now) clock_skew then ok tt else err ack_expired)
    unfolding issue verify
    verify-issue request secret issued now signed h room =
        let ack : Ack = record {
          client_id = request.client_id;
          nonce = request.nonce;
          epoch = request.epoch;
          public_key = request.public_key;
          accepted_at = issued;
          expires_at = saturating_add issued admission_ttl;
        } in
        let (mac, m, made) =
          >>=-eq-ok (mac_for crypto secret ack_domain (crypto.ack_json ack))
            (λ mac. ok (record { ack = ack; mac = mac })) h in
        let e : record { ack = ack; mac = mac } ≡ signed = ground arith in
        let verified = verify_mac-mac_for secret ack_domain (crypto.ack_json ack) mac m in
        subst
          (λ (x : SignedAck).
            verify crypto x request secret now
            ≡ (if leb (abs_diff issued now) clock_skew then ok tt else err ack_expired))
          e
          (rw
            (
              verified,
              (eq_iff request.client_id request.client_id).1 refl,
              (eq_iff request.nonce request.nonce).1 refl,
              eq→== request.epoch request.epoch refl,
              option_beq_refl request.public_key,
            )
            (window issued now room))
