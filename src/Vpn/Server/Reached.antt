-- ===== src/Vpn/Server/Reached.antt =====
-- A server that was started without a stored state, after any rounds of its loop.
use omni_os.Prelude.{
  or_fail, >>=-eq-ok, ok_injective, Result, ok, err, text_comparable, pair_comparable, ℕ, String,
  ◌≡◌, sym, ap, ◌∙◌, subst, Bool, true, false, Option, none, some, arith,
}
use omni_os.Vpn.Knock.{
  Error, Crypto, Bytes, Verifier, Request, SignedRequest, SignedAck, authenticate, acknowledge,
  nonce_entries,
}
use omni_os.Vpn.Server.{Outside, Enrollment, ServerError, cleanup, serve, bad_ack}
use omni_os.Vpn.Server.Exclusive.{IsExclusive, cleanup-IsExclusive}
use omni_os.Vpn.Server.Served.{serve-IsExclusive}
use omni_os.Vpn.Server.Loop.{
  State, Server, fails_as, save, save_if, with_clients, clean, answer_if, serve_if, after_knock,
  receive, round,
}

module _ (o : Outside) (crypto : Crypto) (private_ipv4 : String → Bool) (saves : State → Bool)
    (ack_bytes : SignedAck → Option Bytes) where
  -- An answer goes out only with the state, and every nonce, on disk.
  abbrev pub IsDurable : Server → Option Bytes → Type 0
  IsDurable server none = Unit
  IsDurable server (some bytes) =
      (server.disk ≡ some server.state) × (server.state.nonces ≡ nonce_entries server.verifier)

  save-state :
      (server after : Server)
      → save o crypto private_ipv4 saves ack_bytes server ≡ ok after
      → (after.state ≡ server.state)
        × (after.verifier ≡ server.verifier)
        × (after.disk ≡ some after.state)
  save-state server after h = (ground arith, ground arith, ground arith)

  -- All nonces of the verifier are in the state.
  abbrev HasNonces : Server → Type 0
  HasNonces server = server.state.nonces ≡ nonce_entries server.verifier

  saved-IsDurable :
      (server after : Server) (bytes : Bytes)
      → save o crypto private_ipv4 saves ack_bytes server ≡ ok after
      → HasNonces server
      → IsDurable after (some bytes)
  saved-IsDurable server after bytes h n =
      let (same, verifier, disk) = save-state server after h in
      (disk, ap (λ (s : State). s.nonces) same ∙ n ∙ ap nonce_entries (sym verifier))

  answer_if-state :
      (server after : Server) (request : Request) (now : ℕ) (r : Result ServerError (Unit {0}))
      (reply : Option Bytes)
      → answer_if o crypto private_ipv4 saves ack_bytes server request now r ≡ ok (after, reply)
      → HasNonces server
      → (after.state ≡ server.state) × IsDurable after reply
  answer_if-state server after request now (err e) reply h n =
      (ground arith, subst (IsDurable after) (let d : none ≡ reply = ground arith in d) tt)
  answer_if-state server after request now (ok done) reply h n =
      let (saved, e, h1) = >>=-eq-ok (save o crypto private_ipv4 saves ack_bytes server) _ h in
      let (ack, f, h2) =
        >>=-eq-ok (fails_as bad_ack (acknowledge crypto saved.verifier request now)) _ h1 in
      let (bytes, g, h3) = >>=-eq-ok (or_fail (ack_bytes ack) bad_ack) _ h2 in
      let p : (saved, some bytes) ≡ (after, reply) = ok_injective _ _ h3 in
      subst (λ (x : Server × Option Bytes). (x.0.state ≡ server.state) × IsDurable x.0 x.1) p
        ((save-state server saved e).0, saved-IsDurable server saved bytes e n)

  serve_if-IsExclusive :
      (server after : Server) (e : Option Enrollment) (request : Request) (now : ℕ)
      (source : String) (reply : Option Bytes)
      → serve_if o crypto private_ipv4 saves ack_bytes server e request now source
        ≡ ok (after, reply)
      → HasNonces server
      → IsExclusive server.state.clients
      → IsExclusive after.state.clients × IsDurable after reply
  serve_if-IsExclusive server after none request now source reply h n ex =
      let p : (server, none) ≡ (after, reply) = ok_injective _ _ h in
      subst (λ (x : Server × Option Bytes). IsExclusive x.0.state.clients × IsDurable x.0 x.1) p
        (ex, tt)
  serve_if-IsExclusive server after (some e) request now source reply h n ex =
      let out = serve o server.commands server.state.clients e request now source in
      let (same, durable) =
        answer_if-state (with_clients o crypto private_ipv4 saves ack_bytes server out.0.0 out.0.1)
          after request now out.1 reply h n in
      (
        subst (λ (s : State). IsExclusive s.clients) (sym same)
            (serve-IsExclusive o server.commands server.state.clients e request now source ex),
        durable,
      )

  after_knock-IsExclusive :
      (server after : Server) (now : ℕ) (source : String)
      (r : Verifier × Result Error SignedRequest) (reply : Option Bytes)
      → after_knock o crypto private_ipv4 saves ack_bytes server now source r ≡ ok (after, reply)
      → IsExclusive server.state.clients
      → IsExclusive after.state.clients × IsDurable after reply
  after_knock-IsExclusive server after now source (verifier, err e) reply h ex =
      let p : (record server { verifier = verifier }, none) ≡ (after, reply) = ok_injective _ _ h in
      subst (λ (x : Server × Option Bytes). IsExclusive x.0.state.clients × IsDurable x.0 x.1) p
        (ex, tt)
  after_knock-IsExclusive server after now source (verifier, ok signed) reply h ex =
      let noted : Server = record server {
        verifier = verifier;
        state = record server.state { nonces = nonce_entries verifier };
      } in
      let (saved, e, h1) = >>=-eq-ok (save o crypto private_ipv4 saves ack_bytes noted) _ h in
      let (same, kept, disk) = save-state noted saved e in
      let n : HasNonces saved = ap (λ (s : State). s.nonces) same ∙ ap nonce_entries (sym kept) in
      serve_if-IsExclusive saved after _ signed.request now source reply h1 n
        (subst (λ (s : State). IsExclusive s.clients) (sym same) ex)

  receive-IsExclusive :
      (server after : Server) (now : ℕ) (datagram : Option (Bytes × String)) (reply : Option Bytes)
      → receive o crypto private_ipv4 saves ack_bytes server now datagram ≡ ok (after, reply)
      → IsExclusive server.state.clients
      → IsExclusive after.state.clients × IsDurable after reply
  receive-IsExclusive server after now none reply h ex =
      let p : (server, none) ≡ (after, reply) = ok_injective _ _ h in
      subst (λ (x : Server × Option Bytes). IsExclusive x.0.state.clients × IsDurable x.0 x.1) p
        (ex, tt)
  receive-IsExclusive server after now (some (bytes, source)) reply h ex =
      after_knock-IsExclusive server after now source
        (authenticate crypto server.verifier bytes now) reply h ex

  save_if-state :
      (changed : Bool) (server after : Server)
      → save_if o crypto private_ipv4 saves ack_bytes changed server ≡ ok after
      → after.state ≡ server.state
  save_if-state false server after h = ground arith
  save_if-state true server after h = (save-state server after h).0

  clean-IsExclusive :
      (server after : Server) (now : ℕ)
      → clean o crypto private_ipv4 saves ack_bytes server now ≡ ok after
      → IsExclusive server.state.clients
      → IsExclusive after.state.clients
  unfolding clean
  clean-IsExclusive server after now h ex =
      let ((changed, commands, clients), e, h1) =
        >>=-eq-ok (cleanup o now server.commands server.state.clients) _ h in
      subst (λ (s : State). IsExclusive s.clients)
        (sym (
          save_if-state changed
            (with_clients o crypto private_ipv4 saves ack_bytes server commands clients) after h1))
        (cleanup-IsExclusive o now server.commands commands server.state.clients clients changed e
          ex)

  round-IsExclusive :
      (server after : Server) (now : ℕ) (datagram : Option (Bytes × String)) (reply : Option Bytes)
      → round o crypto private_ipv4 saves ack_bytes server now datagram ≡ ok (after, reply)
      → IsExclusive server.state.clients
      → IsExclusive after.state.clients × IsDurable after reply
  unfolding round
  round-IsExclusive server after now datagram reply h ex =
      let (cleaned, e, h1) =
        >>=-eq-ok (clean o crypto private_ipv4 saves ack_bytes server now) _ h in
      receive-IsExclusive cleaned after now datagram reply h1
        (clean-IsExclusive server cleaned now e ex)

  -- Rounds that end with an answer, or none.
  pub data Rounds (s : Server) : Server → Option Bytes → Type 0 where
    started : Rounds s s none
    goes_on :
        {t u : Server} {before reply : Option Bytes} (now : ℕ) (datagram : Option (Bytes × String))
        → Rounds s t before
        → round o crypto private_ipv4 saves ack_bytes t now datagram ≡ ok (u, reply)
        → Rounds s u reply

  pub Rounds-IsExclusive :
      (s t : Server) (reply : Option Bytes)
      → Rounds s t reply
      → IsExclusive s.state.clients
      → IsExclusive t.state.clients × IsDurable t reply
  Rounds-IsExclusive s t reply started ex = (ex, tt)
  Rounds-IsExclusive s t reply (goes_on {t = u} {before = b} now datagram rounds h) ex =
      round-IsExclusive u t now datagram reply h (Rounds-IsExclusive s u b rounds ex).0
