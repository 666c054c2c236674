-- ===== src/Vpn/Knock/Capacity.antt =====
-- The table of nonces is bounded, with one entry for each key, and a restart cannot fail on it.
use omni_os.Prelude.{
  ltb, Bool-cases, le→leb, length, Result-cases, ok, text_comparable, pair_comparable, contains,
  insert, retain, ℕ, ◌+◌, ◌-◌, ◌^◌, ◌≤◌, min, String, ◌≡◌, refl, inl, inr, Bool, not, ◌&&◌, List,
  [], ◌∷◌, arith,
}
use omni_os.Vpn.Knock.{
  Crypto, Verifier, SignedRequest, Bytes, key_of, admit, checked, authenticate, max_nonces,
  restore_nonces, restore_loop, nonce_entries, new,
}
use omni_os.Vpn.Knock.Restart.{restart}
use omni_os.Vpn.Knock.Replay.{Event, knock, restarts, step, run}

abbrev Entries : Type 0
Entries = List ((String × String) × ℕ)

abbrev pub IsBounded : Verifier → Type 0
IsBounded v = length v.nonces ≤ max_nonces

length-retain : (p : ℕ → Bool) (t : Entries) → length (retain p t) ≤ length t
length-retain p [] = omega arith
length-retain p ((k, e) ∷ t) = ground (arith, length-retain p t)

length-insert {κ} :
    {V : Type κ} (k : String × String) (v : V) (t : List ((String × String) × V))
    → length (insert k v t) ≤ length t + 1
length-insert k v [] = omega arith
length-insert k v ((j, w) ∷ t) = ground (arith, length-insert k v t)

length-restore_loop :
    (es : Entries) (now : ℕ) (seen : List ((String × String) × Unit {0})) (nonces : Entries)
    → length (restore_loop es now seen nonces) ≤ length es + length nonces
unfolding restore_loop
length-restore_loop [] now seen nonces = omega arith
length-restore_loop ((k, e) ∷ es) now seen nonces =
    elim (Bool-cases (ltb now e && not (contains k seen))) [
      | inl fresh ↦ rw fresh (
          omega (
            arith,
            length-restore_loop es now (insert k tt seen) (insert k e nonces),
            length-insert k e nonces,
          ))
      | inr old ↦ rw old (omega (arith, length-restore_loop es now seen nonces))
    ]

admit-IsBounded :
    (v : Verifier) (s : SignedRequest) (now : ℕ) → IsBounded v → IsBounded (admit v s now).0
unfolding admit
admit-IsBounded v s now h =
    let live : Entries = retain (λ e. ltb now e) v.nonces in
    let l : length live ≤ length v.nonces = length-retain (λ e. ltb now e) v.nonces in
    let i = length-insert (key_of s.request) (min (s.request.issued_at + 31) (2 ^ 64 - 1)) live in
    ground arith

-- A bounded verifier always restarts, to a bounded one.
pub restart-ok :
    (v : Verifier) (now : ℕ) → IsBounded v → (w : Verifier) × (restart v now ≡ ok w) × IsBounded w
unfolding restore_nonces nonce_entries new
restart-ok v now h = (
  record { secrets = v.secrets; nonces = restore_loop v.nonces now [] [] },
  rw (le→leb _ _ h) refl,
  omega (arith, length-restore_loop v.nonces now [] []),
)

module _ (crypto : Crypto) where
  authenticate-IsBounded :
      (v : Verifier) (bytes : Bytes) (now : ℕ)
      → IsBounded v
      → IsBounded (authenticate crypto v bytes now).0
  unfolding authenticate
  authenticate-IsBounded v bytes now h = elim (Result-cases (checked crypto v bytes now)) [
    | inl (s, e) ↦ let b = admit-IsBounded v s now h in ground arith
    | inr (x, e) ↦ ground arith
  ]

  step-IsBounded : (v : Verifier) (e : Event) → IsBounded v → IsBounded (step crypto v e)
  unfolding step
  step-IsBounded v (knock bytes now) h = authenticate-IsBounded v bytes now h
  step-IsBounded v (restarts now) h = let (w, e, b) = restart-ok v now h in rw e b

  -- However many knocks arrive and restarts happen, the table of nonces holds at most 4096 entries, so
  -- that the next restart from it succeeds.
  pub run-IsBounded :
      (v : Verifier) (es : List Event) (now : ℕ)
      → IsBounded v
      → IsBounded (run crypto v es) × ((w : Verifier) × (restart (run crypto v es) now ≡ ok w))
  unfolding run
  run-IsBounded v [] now h = (h, (let r = restart-ok v now h in (r.0, r.1)))
  run-IsBounded v (e ∷ es) now h = run-IsBounded (step crypto v e) es now (step-IsBounded v e h)
