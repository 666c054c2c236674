-- ===== src/Vpn/Knock/Replay.antt =====
-- No knock is admitted twice, whatever else arrives and whenever the server restarts.
use omni_os.Prelude.{
  All, Result-cases, Result, ok, err, text_comparable, pair_comparable, ℕ, ◌≤◌, ◌<◌, String, ◌≡◌,
  sym, subst, ◌≢◌, inl, inr, List, [], ◌∷◌, arith,
}
use omni_os.Vpn.Keys.{u64_max, abs_diff}
use omni_os.Vpn.Knock.{
  Crypto, Verifier, SignedRequest, Request, Error, Bytes, key_of, authenticate, clock_skew,
}
use omni_os.Vpn.Knock.Admit.{
  Remembers, expiry_of, admit-Remembers, admit_replayed, authenticate-admit, checked-parsed,
  authenticate-keeps,
}
use omni_os.Vpn.Knock.Restart.{restart, restart-keeps}

-- What happens to a verifier: a datagram arrives, or the server restarts from its saved nonces. A
-- restart that is refused leaves no server; the next one starts from the same saved nonces.
pub data Event : Type 0 where
  knock : Bytes → ℕ → Event
  restarts : ℕ → Event

abbrev pub time_of : Event → ℕ
time_of (knock bytes now) = now
time_of (restarts now) = now

abbrev or_same : Verifier → Result Error Verifier → Verifier
or_same v (ok w) = w
or_same v (err e) = v

before_expiry :
    (t s : Request) (later : ℕ)
    → t.issued_at ≡ s.issued_at
    → abs_diff t.issued_at later ≤ clock_skew
    → later < u64_max
    → later < expiry_of s
before_expiry t s later same fresh bound = ground arith

module _ (crypto : Crypto) where
  unfoldable pub step : Verifier → Event → Verifier
  step v (knock bytes now) = (authenticate crypto v bytes now).0
  step v (restarts now) = or_same v (restart v now)

  unfoldable pub run : Verifier → List Event → Verifier
  run v [] = v
  run v (e ∷ es) = run (step v e) es

  step-keeps :
      (v : Verifier) (e : Event) (key : String × String) (expiry : ℕ)
      → Remembers v key expiry
      → time_of e < expiry
      → Remembers (step v e) key expiry
  unfolding step
  step-keeps v (knock bytes now) key expiry h lt =
      authenticate-keeps crypto v bytes key expiry now h lt
  step-keeps v (restarts now) key expiry h lt = elim (Result-cases (restart v now)) [
    | inl (w, e) ↦ rw e (restart-keeps v w key expiry now e h lt)
    | inr (x, e) ↦ rw e h
  ]

  run-keeps :
      (v : Verifier) (es : List Event) (key : String × String) (expiry : ℕ)
      → Remembers v key expiry
      → All (λ e. time_of e < expiry) es
      → Remembers (run v es) key expiry
  unfolding run
  run-keeps v [] key expiry h lt = h
  run-keeps v (e ∷ es) key expiry h lt =
      run-keeps (step v e) es key expiry (step-keeps v e key expiry h lt.0) lt.1

  All-lt :
      (es : List Event) (m n : ℕ)
      → m < n
      → All (λ e. time_of e ≤ m) es
      → All (λ e. time_of e < n) es
  All-lt [] m n lt h = tt
  All-lt (e ∷ es) m n lt h = (omega arith, All-lt es m n lt h.1)

  -- Once a knock is admitted, then after any further knocks and restarts at times up to a later time
  -- (below the end of 64 bits), no bytes that hold a request with the same client, nonce and
  -- time of issue are admitted at that later time.
  pub no_replay :
      (v w w' : Verifier) (bytes again : Bytes) (now later : ℕ) (s t : SignedRequest)
      (es : List Event)
      → authenticate crypto v bytes now ≡ (w, ok s)
      → All (λ e. time_of e ≤ later) es
      → later < u64_max
      → key_of t.request ≡ key_of s.request
      → t.request.issued_at ≡ s.request.issued_at
      → authenticate crypto (run w es) again later ≢ (w', ok t)
  no_replay v w w' bytes again now later s t es first times bound same_key same_time second =
      let (_, admitted) = authenticate-admit crypto v w bytes now s first in
      let (checks, admitted_again) = authenticate-admit crypto (run w es) w' again later t second in
      let (_, fresh) = checked-parsed crypto (run w es) again later t checks in
      let lt : later < expiry_of s.request =
        before_expiry t.request s.request later same_time fresh bound in
      let kept =
        run-keeps w es (key_of s.request) (expiry_of s.request)
          (admit-Remembers v w s s now admitted) (All-lt es later (expiry_of s.request) lt times) in
      let refused =
        admit_replayed (run w es) t (expiry_of s.request) later
          (subst (λ k. Remembers (run w es) k (expiry_of s.request)) (sym same_key) kept) lt in
      cc
