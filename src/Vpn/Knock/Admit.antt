-- ===== src/Vpn/Knock/Admit.antt =====
-- One call of `authenticate`: which knocks it admits, and what it keeps of the table.
use omni_os.Prelude.{
  ltb, Bool-cases, lt→ltb, Result-cases, ok, err, text_comparable, pair_beq, pair_beq_iff,
  pair_comparable, lookup, retain, lookup-insert_self, lookup-insert_ne, lookup-retain, ℕ, ◌+◌, ◌≤◌,
  ◌<◌, String, ◌≡◌, sym, subst, inl, inr, some, List, arith,
}
use omni_os.Vpn.Keys.{saturating_add, abs_diff}
use omni_os.Vpn.Knock.{
  Crypto, Verifier, SignedRequest, Request, Bytes, key_of, admit, checked, authenticate, clock_skew,
  replayed_knock,
}

-- The entry that an admitted request leaves.
abbrev pub expiry_of : Request → ℕ
expiry_of request = saturating_add request.issued_at (clock_skew + 1)

-- A knock with this key is refused until then.
abbrev pub Remembers : Verifier → String × String → ℕ → Type 0
Remembers v key expiry = lookup key v.nonces ≡ some expiry

pub admit-Remembers :
    (v v' : Verifier) (signed s : SignedRequest) (now : ℕ)
    → admit v signed now ≡ (v', ok s)
    → Remembers v' (key_of s.request) (expiry_of s.request)
unfolding admit
admit-Remembers v v' signed s now h =
    let live : List ((String × String) × ℕ) = retain (λ e. ltb now e) v.nonces in
    let found = lookup-insert_self (key_of signed.request) (expiry_of signed.request) live in
    ground arith

pub admit_replayed :
    (v : Verifier) (signed : SignedRequest) (expiry now : ℕ)
    → Remembers v (key_of signed.request) expiry
    → now < expiry
    → (admit v signed now).1 ≡ err replayed_knock
unfolding admit
admit_replayed v signed expiry now h lt =
    let live =
      lookup-retain (λ e. ltb now e) (key_of signed.request) expiry v.nonces h
        (lt→ltb now expiry lt) in
    ground arith

pub admit-keeps_same :
    (v : Verifier) (signed : SignedRequest) (expiry now : ℕ)
    → Remembers v (key_of signed.request) expiry
    → now < expiry
    → Remembers (admit v signed now).0 (key_of signed.request) expiry
unfolding admit
admit-keeps_same v signed expiry now h lt =
    let live =
      lookup-retain (λ e. ltb now e) (key_of signed.request) expiry v.nonces h
        (lt→ltb now expiry lt) in
    ground arith

-- What is remembered beyond now stays, whatever is admitted or refused.
pub admit-keeps :
    (v : Verifier) (signed : SignedRequest) (key : String × String) (expiry now : ℕ)
    → Remembers v key expiry
    → now < expiry
    → Remembers (admit v signed now).0 key expiry
unfolding admit
admit-keeps v signed key expiry now h lt =
    let live : List ((String × String) × ℕ) = retain (λ e. ltb now e) v.nonces in
    let kept : lookup key live ≡ some expiry =
      lookup-retain _ key expiry v.nonces h (lt→ltb now expiry lt) in
    elim (Bool-cases (pair_beq (key_of signed.request) key)) [
      | inl same ↦
          let e : key_of signed.request ≡ key = (pair_beq_iff _ _).0 same in
          subst (λ k. Remembers (admit v signed now).0 k expiry) e
            (admit-keeps_same v signed expiry now (subst (λ k. Remembers v k expiry) (sym e) h) lt)
      | inr other ↦
          let k =
            lookup-insert_ne (key_of signed.request) key (expiry_of signed.request) live other in
          ground arith
    ]

pub admit-ok :
    (v v' : Verifier) (signed s : SignedRequest) (now : ℕ)
    → admit v signed now ≡ (v', ok s)
    → s ≡ signed
unfolding admit
admit-ok v v' signed s now h = ground arith

module _ (crypto : Crypto) where
  pub authenticate-admit :
      (v v' : Verifier) (bytes : Bytes) (now : ℕ) (s : SignedRequest)
      → authenticate crypto v bytes now ≡ (v', ok s)
      → (checked crypto v bytes now ≡ ok s) × (admit v s now ≡ (v', ok s))
  unfolding authenticate
  authenticate-admit v v' bytes now s h = elim (Result-cases (checked crypto v bytes now)) [
    | inl (x, e) ↦ ground (arith, admit-ok v v' x s now)
    | inr (x, e) ↦ absurd (ground arith)
  ]

  pub checked-parsed :
      (v : Verifier) (bytes : Bytes) (now : ℕ) (s : SignedRequest)
      → checked crypto v bytes now ≡ ok s
      → (crypto.signed_of_json bytes ≡ some s) × (abs_diff s.request.issued_at now ≤ clock_skew)
  unfolding checked
  checked-parsed v bytes now s h = ground arith

  -- A refused or admitted knock leaves the keys of the table that have not expired.
  pub authenticate-keeps :
      (v : Verifier) (bytes : Bytes) (key : String × String) (expiry now : ℕ)
      → Remembers v key expiry
      → now < expiry
      → Remembers (authenticate crypto v bytes now).0 key expiry
  unfolding authenticate
  authenticate-keeps v bytes key expiry now h lt =
      elim (Result-cases (checked crypto v bytes now)) [
        | inl (x, e) ↦ let k = admit-keeps v x key expiry now h lt in ground arith
        | inr (x, e) ↦ ground arith
      ]
