-- ===== src/Vpn/Server/Started.antt =====
-- The keys of the clients of a server (crates/omni-vpn/src/server.rs) that starts without a stored state.
use omni_os.Prelude.{
  leb, Bool-cases, length, all, any, All, or_fail, ensure-eq-ok, >>=-eq-ok, ok_injective, Result,
  ok, err, text_comparable, pair_comparable, lookup, contains, insert, ℕ, String, ◌≡◌, refl, sym,
  ap, ◌∙◌, subst, inl, inr, Bool, true, false, not, ◌&&◌, Option, none, some, List, [], ◌∷◌, arith,
  str_eq, eq_iff,
}
use omni_os.Vpn.Keys.{decode_key}
use omni_os.Vpn.Knock.{Crypto, Bytes, Verifier, SignedAck, enroll, new, restore_nonces}
use omni_os.Vpn.Server.{Outside, Enrollment, ClientState, cleanup, holds}
use omni_os.Vpn.Server.Exclusive.{IsExclusive, cleanup-IsExclusive, lookup-insert}
use omni_os.Vpn.Server.Loop.{
  State, Server, fails_as, is_duplicate, first_state, or_insert, with_enrolled, all_peers,
  enroll_all, is_address, strip_32, run_all, start_server, no_clients, bad_public_key, bad_address,
  equal_addresses, duplicate_peer, bad_secret, not_enrolled, unknown_client, bad_nonces,
  start_failed,
}
use omni_os.Vpn.Server.Reached.{Rounds, Rounds-IsExclusive, IsDurable}

-- No enrollment has this key.
abbrev IsFree : String → List (String × Enrollment) → Type 0
IsFree key enrolled =
    All (λ ((id, e) : String × Enrollment). str_eq e.public_key key ≡ false) enrolled

abbrev HasOwnKeys : List (String × Enrollment) → Type 0
HasOwnKeys [] = Unit
HasOwnKeys ((id, e) ∷ enrolled) = IsFree e.public_key enrolled × HasOwnKeys enrolled

IsFree-duplicate :
    (e : Enrollment) (enrolled : List (String × Enrollment))
    → any (λ ((id, f) : String × Enrollment). is_duplicate f e) enrolled ≡ false
    → IsFree e.public_key enrolled
IsFree-duplicate e [] h = tt
IsFree-duplicate e ((id, f) ∷ enrolled) h =
    (ground arith, IsFree-duplicate e enrolled (ground arith))

IsFree-insert :
    (key id : String) (e : Enrollment) (enrolled : List (String × Enrollment))
    → str_eq e.public_key key ≡ false
    → IsFree key enrolled
    → IsFree key (insert id e enrolled)
IsFree-insert key id e [] apart free = (apart, tt)
IsFree-insert key id e ((j, f) ∷ enrolled) apart free = elim (Bool-cases (str_eq j id)) [
  | inl same ↦ rw same (apart, free.1)
  | inr other ↦ rw other (free.0, IsFree-insert key id e enrolled apart free.1)
]

swap : (a b : String) → str_eq a b ≡ false → str_eq b a ≡ false
swap a b h = elim (Bool-cases (str_eq b a)) [
  | inl same ↦ absurd (let e = sym h ∙ (eq_iff a b).1 (sym ((eq_iff b a).0 same)) in cc)
  | inr other ↦ other
]

HasOwnKeys-insert :
    (id : String) (e : Enrollment) (enrolled : List (String × Enrollment))
    → IsFree e.public_key enrolled
    → HasOwnKeys enrolled
    → HasOwnKeys (insert id e enrolled)
HasOwnKeys-insert id e [] free own = (tt, tt)
HasOwnKeys-insert id e ((j, f) ∷ enrolled) free own = elim (Bool-cases (str_eq j id)) [
  | inl same ↦ rw same (free.1, own.1)
  | inr other ↦ rw other (
    IsFree-insert f.public_key id e enrolled (swap f.public_key e.public_key free.0) own.0,
    HasOwnKeys-insert id e enrolled free.1 own.1,
  )
]

-- Clients in their first state, with keys that the rest of the enrollments do not have.
record IsFirst (clients : List (String × ClientState)) (rest : List (String × Enrollment))
    : Type 0 where
  pub fresh :
      (id : String) (c : ClientState)
      → lookup id clients ≡ some c
      → (c.pending ≡ none) × (c.previous ≡ none) × IsFree c.public_key rest
  pub apart :
      (i j : String) (c d : ClientState)
      → lookup i clients ≡ some c
      → lookup j clients ≡ some d
      → c.public_key ≡ d.public_key
      → i ≡ j

IsFirst-or_insert :
    (id : String) (e : Enrollment) (clients : List (String × ClientState))
    (rest : List (String × Enrollment))
    → IsFree e.public_key rest
    → IsFirst clients ((id, e) ∷ rest)
    → IsFirst (or_insert id (first_state e) clients) rest
IsFirst-or_insert id e clients rest free first = elim (Bool-cases (contains id clients)) [
  | inl known ↦ rw known (record {
    fresh = λ i c f. let (a, b, d) = first.fresh i c f in (a, b, d.1);
    apart = first.apart;
  })
  | inr new ↦ rw new (record {
    fresh = λ i c f. elim (lookup-insert id i (first_state e) c clients f) [
      | inl (same, g) ↦
          subst
            (λ (x : ClientState).
              (x.pending ≡ none) × (x.previous ≡ none) × IsFree x.public_key rest)
            g (refl, refl, free)
      | inr (other, g) ↦ let (a, b, d) = first.fresh i c g in (a, b, d.1)
    ];
    apart = λ i j c d f g k. elim (lookup-insert id i (first_state e) c clients f) [
      | inl (is, ce) ↦ elim (lookup-insert id j (first_state e) d clients g) [
        | inl (js, de) ↦ sym is ∙ js
        | inr (jo, g') ↦
            let (_, _, away) = first.fresh j d g' in
            absurd (
              let q : str_eq e.public_key d.public_key ≡ true =
                (eq_iff e.public_key d.public_key).1 (ap (λ x. x.public_key) ce ∙ k) in
              let z = sym away.0 ∙ q in cc)
      ]
      | inr (io, f') ↦ elim (lookup-insert id j (first_state e) d clients g) [
        | inl (js, de) ↦
            let (_, _, away) = first.fresh i c f' in
            absurd (
              let q : str_eq e.public_key c.public_key ≡ true =
                (eq_iff e.public_key c.public_key).1 (ap (λ x. x.public_key) de ∙ sym k) in
              let z = sym away.0 ∙ q in cc)
        | inr (jo, g') ↦ first.apart i j c d f' g' k
      ]
    ];
  })
]

with_enrolled-IsFirst :
    (enrolled : List (String × Enrollment)) (clients : List (String × ClientState))
    → HasOwnKeys enrolled
    → IsFirst clients enrolled
    → IsFirst (with_enrolled enrolled clients) []
with_enrolled-IsFirst [] clients own first = first
with_enrolled-IsFirst ((id, e) ∷ enrolled) clients own first =
    with_enrolled-IsFirst enrolled (or_insert id (first_state e) clients) own.1
      (IsFirst-or_insert id e clients enrolled own.0 first)

holds-only :
    (c : ClientState) (k : String)
    → (c.pending ≡ none) × (c.previous ≡ none)
    → holds c k ≡ true
    → c.public_key ≡ k
holds-only c k (a, b) h = (eq_iff c.public_key k).0 (let g = rw (a, b) at h in ground arith)

IsFirst-IsExclusive :
    (clients : List (String × ClientState)) → IsFirst clients [] → IsExclusive clients
IsFirst-IsExclusive clients first = record {
  own = λ id c f.
      let (a, b, _) = first.fresh id c f in
      record {
        next = λ p g. absurd (let z = sym a ∙ g in cc);
        left = λ p g. absurd (let z = sym b ∙ g in cc);
      };
  apart = λ i j c d k f g hc hd.
      let (a, b, _) = first.fresh i c f in
      let (a', b', _) = first.fresh j d g in
      first.apart i j c d f g (holds-only c k (a, b) hc ∙ sym (holds-only d k (a', b') hd));
}

undone : (b : Bool) → not b ≡ true → b ≡ false
undone b h = ground arith

fails_as-ok {ℓ κ μ} :
    {E : Type ℓ} {F : Type κ} {A : Type μ} (f : F) (r : Result E A) (a : A)
    → fails_as f r ≡ ok a
    → r ≡ ok a
fails_as-ok f (ok b) a h = ap ok (ok_injective b a h)
fails_as-ok f (err e) a h = cc

module _ (o : Outside) (crypto : Crypto) (private_ipv4 : String → Bool) (saves : State → Bool)
    (ack_bytes : SignedAck → Option Bytes) where
  enroll_all-HasOwnKeys :
      (config : List Enrollment) (enrolled after : List (String × Enrollment)) (v w : Verifier)
      → enroll_all o crypto private_ipv4 saves ack_bytes config enrolled v ≡ ok (after, w)
      → HasOwnKeys enrolled
      → HasOwnKeys after
  unfolding enroll_all
  enroll_all-HasOwnKeys [] enrolled after v w h own = subst HasOwnKeys (ground arith) own
  enroll_all-HasOwnKeys (e ∷ config) enrolled after v w h own =
      let (key, a, h1) =
        >>=-eq-ok (or_fail (decode_key crypto.base64 e.public_key) bad_public_key) _ h in
      let (b, h2) =
        ensure-eq-ok
          (is_address o crypto private_ipv4 saves ack_bytes (strip_32 e.even_address)
            && is_address o crypto private_ipv4 saves ack_bytes (strip_32 e.odd_address))
          bad_address _ h1 in
      let (c, h3) = ensure-eq-ok (not (str_eq e.even_address e.odd_address)) equal_addresses _ h2 in
      let (d, h4) =
        ensure-eq-ok (not (any (λ ((id, f) : String × Enrollment). is_duplicate f e) enrolled))
          duplicate_peer _ h3 in
      let (secret, f, h5) =
        >>=-eq-ok (or_fail (decode_key crypto.base64 e.knock_secret) bad_secret) _ h4 in
      let (v', g, h6) = >>=-eq-ok (fails_as not_enrolled (enroll v e.id secret)) _ h5 in
      enroll_all-HasOwnKeys config (insert e.id e enrolled) after v' w h6
        (HasOwnKeys-insert e.id e enrolled (IsFree-duplicate e enrolled (undone _ d)) own)

  start_server-IsExclusive :
      (config : List Enrollment) (now : ℕ) (server : Server)
      → start_server o crypto private_ipv4 saves ack_bytes config none now ≡ ok server
      → IsExclusive server.state.clients
  unfolding start_server
  start_server-IsExclusive config now server h =
      let (a, h1) =
        ensure-eq-ok (leb 1 (length config) && leb (length config) 128) no_clients _ h in
      let ((enrolled, v), b, h2) =
        >>=-eq-ok (enroll_all o crypto private_ipv4 saves ack_bytes config [] new) _ h1 in
      let own = enroll_all-HasOwnKeys config [] enrolled new v b tt in
      let clients = with_enrolled enrolled [] in
      let first = with_enrolled-IsFirst enrolled [] own (record {
        fresh = λ i c f. absurd (let z = f in cc);
        apart = λ i j c d f g k. absurd (let z = f in cc);
      }) in
      let (c, h3) =
        ensure-eq-ok (all (λ ((id, c) : String × ClientState). contains id enrolled) clients)
          unknown_client _ h2 in
      let (v', d, h4) = >>=-eq-ok (fails_as bad_nonces (restore_nonces v [] now)) _ h3 in
      let ((changed, commands, live), e, h5) =
        >>=-eq-ok (fails_as start_failed (cleanup o now [] clients)) _ h4 in
      let (commands', f, h6) =
        >>=-eq-ok (run_all o crypto private_ipv4 saves ack_bytes commands (all_peers enrolled live))
          _ h5 in
      let state : State = record { clients = live; nonces = [] } in
      let (g, h7) = ensure-eq-ok (saves state) start_failed _ h6 in
      subst (λ (s : State). IsExclusive s.clients)
        (ap (λ (s : Server). s.state) (ok_injective _ server h7))
        (cleanup-IsExclusive o now [] commands clients live changed (fails_as-ok start_failed _ _ e)
          (IsFirst-IsExclusive clients first))

  -- A server that started without a stored state, after any rounds of its loop: no key is the active,
  -- the pending or the previous one of two clients; a client's pending key belongs to the next epoch and
  -- is not its active one, nor is its previous one, and it never has a pending and a previous key at
  -- once. When a round has ended with an answer, the disk holds the whole state, with all nonces of the
  -- verifier.
  pub Rounds-started :
      (config : List Enrollment) (now : ℕ) (started after : Server) (reply : Option Bytes)
      → start_server o crypto private_ipv4 saves ack_bytes config none now ≡ ok started
      → Rounds o crypto private_ipv4 saves ack_bytes started after reply
      → IsExclusive after.state.clients
        × IsDurable o crypto private_ipv4 saves ack_bytes after reply
  Rounds-started config now server after reply h rounds =
      Rounds-IsExclusive o crypto private_ipv4 saves ack_bytes server after reply rounds
        (start_server-IsExclusive config now server h)
