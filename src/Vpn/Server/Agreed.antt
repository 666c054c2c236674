-- ===== src/Vpn/Server/Agreed.antt =====
-- The two sides of a rotation: the client's, crates/omni-vpn/src/rotation.rs, and the server's.
use omni_os.Prelude.{
  ◌==◌, ok, err, text_comparable, pair_comparable, lookup, lookup-insert_self, ℕ, ◌+◌, ◌≤◌, ◌<◌,
  String, ◌≡◌, refl, ap, ◌∙◌, Bool, true, false, ◌&&◌, none, some, List, arith, str_eq,
}
use omni_os.Vpn.Keys.{saturating_add, u64_max}
use omni_os.Vpn.Rotation.Cycle.{MayBegin, prepare-ok}
use omni_os.Vpn.Rotation.{Rotation, Key, prepare, fresh, acknowledge, overlap_seconds}
use omni_os.Vpn.Server.{
  Outside, Enrollment, ClientState, Command, serve_commit, recent_handshake, serve, cleanup,
  is_assigned, no_prepared,
}
use omni_os.Vpn.Knock.{Request, commit_rotation}
use omni_os.Vpn.Server.Meanwhile.{
  settled_of, serve-accepts, cleanup-found, cleanup_client-waits, cleanup_client-drops, Meanwhile,
}
use omni_os.Vpn.Server.Prepared.{
  Agrees, next_of, request_for, prepares_at, done_of, prepares_at-waits, waits-lookup,
  serve_commit-accepts, serve_commit-again,
}

-- Where the two sides agree on epoch and key, nothing is pending on the server and a rotation may
-- begin, with no overlap left on the server and a key that is another text and of no other client, the
-- rotation goes through when every command of the server succeeds and the source is an IPv4 address:
-- the request to prepare is accepted; then the server may clean up, at times less than 60 seconds after
-- the preparation, and serve any requests of other clients; a round whose time is less than 60 seconds
-- after the preparation cleans up and accepts the request to commit, where a recent handshake of the
-- new key is shown; the commit is accepted again at any time without a change of the client, as when
-- its answer was lost; the client takes the acknowledgement, and the two sides agree again, on the new
-- key, with the former one kept on both for its overlap.
pub rotation-Agrees :
    (public_of : Key → Key) (text_of : Key → String) (o : Outside) (e : Enrollment) (r : Rotation)
    (c : ClientState) (id source : String) (base : Request)
    (clients others cleaned : List (String × ClientState)) (commands before later : List Command)
    (b : Bool) (now random_key prepared_at committed_at answered_at : ℕ)
    → Agrees text_of r c
    → c.previous ≡ none
    → MayBegin r now
    → lookup id clients ≡ some c
    → str_eq (text_of (public_of random_key)) c.public_key ≡ false
    → is_assigned id (text_of (public_of random_key)) clients ≡ false
    → ((done : List Command) (command : Command) → o.runs done command ≡ true)
    → o.is_ipv4 source ≡ true
    → Meanwhile o id
        (prepared_at + 60)
        (prepares_at public_of text_of o e r id source base clients commands random_key
          prepared_at).0.0
        (prepares_at public_of text_of o e r id source base clients commands random_key
          prepared_at).0.1
        before
        others
    → committed_at < prepared_at + 60
    → cleanup o committed_at before others ≡ ok (b, later, cleaned)
    → recent_handshake o later (text_of (public_of random_key)) committed_at ≡ ok true
    → let k = next_of public_of r random_key in
      let first =
        prepares_at public_of text_of o e r id source base clients commands random_key
          prepared_at in
      let commit = request_for base id commit_rotation k text_of in
      let second = serve o later cleaned e commit committed_at source in
      let sent = (prepare public_of r now random_key).0 in
      (done : ClientState) × (s : Rotation) × (first.1 ≡ ok tt)
      × (second.1 ≡ ok tt)
      × (lookup id second.0.1 ≡ some done)
      × ((any : List Command) (again : ℕ)
          → ((serve o any second.0.1 e commit again source).1 ≡ ok tt)
            × (lookup id (serve o any second.0.1 e commit again source).0.1 ≡ some done))
      × (acknowledge sent k.epoch k.public_key answered_at ≡ ok s)
      × Agrees text_of s done
      × (s.active ≡ k)
      × (s.retired ≡ some (r.active, saturating_add answered_at overlap_seconds))
      × (done.previous
          ≡ some
              (record { public_key = c.public_key; expires_at = committed_at + overlap_seconds }))
unfolding acknowledge fresh
rotation-Agrees public_of text_of o e r c id source base clients others cleaned commands before
      later b now random_key prepared_at committed_at answered_at agrees free may found new apart
      runs_ v4 meanwhile live cleaned_up recent =
    let k = next_of public_of r random_key in
    let key = text_of k.public_key in
    let s : Rotation = record r {
      active = k;
      pending = none;
      retired = some (r.active, saturating_add answered_at overlap_seconds);
      next_at = saturating_add answered_at r.interval;
    } in
    let done = done_of c k.epoch key committed_at in
    let first =
      prepares_at-waits public_of text_of o e r c id source base clients commands random_key
        prepared_at agrees free may.epoch_left found new apart runs_ v4 in
    let kept =
      waits-lookup public_of text_of o e r c id source base clients others commands before
        random_key prepared_at first meanwhile in
    let waits =
      cleanup-found o committed_at before later others cleaned b id _ _
        (cleanup_client-waits o committed_at c k.epoch (prepared_at + 60) key live) cleaned_up
        kept in
    let second =
      serve-accepts o later later cleaned e (request_for base id commit_rotation k text_of)
        committed_at source _ done (rw waits refl)
        (ap (λ x. (later, x))
          (serve_commit-accepts o later (settled_of c) k.epoch (prepared_at + 60) key committed_at
            new recent))
        v4 runs_ in
    let stored : lookup id
          (serve o later cleaned e (request_for base id commit_rotation k text_of) committed_at
            source).0.1
        ≡ some done =
      ap (λ x. lookup id x.0.1) second ∙ lookup-insert_self id done cleaned in
    (
      done,
      s,
      ap (λ x. x.1) first,
      ap (λ x. x.1) second,
      stored,
      (λ any again.
          let third =
            serve-accepts o any any _ e (request_for base id commit_rotation k text_of) again source
              done done (rw stored refl) (ap (λ x. (any, x)) (serve_commit-again o any done again))
              v4 runs_ in
          (ap (λ x. x.1) third, ap (λ x. lookup id x.0.1) third ∙ lookup-insert_self id done _)),
      rw (prepare-ok public_of r now random_key may) (ground arith),
      record { epoch = refl; key = refl; idle = refl },
      refl,
      refl,
      refl,
    )

-- Where the two sides agree on epoch and key, no overlap is left on the server, the client's epoch can
-- grow, the new key is another text and of no other client, every command of the server succeeds and
-- the source is an IPv4 address, a rotation that was prepared has expired for a round whose time is 60
-- seconds or more after the preparation, when clean-ups before that time and requests of other clients
-- are all that the server did since: its clean-up takes the new key away, the former one stays active
-- and the two sides agree on it, and the request to commit is refused as not prepared, without a change.
pub serve-cleanup :
    (public_of : Key → Key) (text_of : Key → String) (o : Outside) (e : Enrollment) (r : Rotation)
    (c : ClientState) (id source : String) (base : Request)
    (clients others cleaned : List (String × ClientState)) (commands before later : List Command)
    (b : Bool) (random_key prepared_at committed_at : ℕ)
    → Agrees text_of r c
    → c.previous ≡ none
    → r.active.epoch < u64_max
    → lookup id clients ≡ some c
    → str_eq (text_of (public_of random_key)) c.public_key ≡ false
    → is_assigned id (text_of (public_of random_key)) clients ≡ false
    → ((done : List Command) (command : Command) → o.runs done command ≡ true)
    → o.is_ipv4 source ≡ true
    → Meanwhile o id
        (prepared_at + 60)
        (prepares_at public_of text_of o e r id source base clients commands random_key
          prepared_at).0.0
        (prepares_at public_of text_of o e r id source base clients commands random_key
          prepared_at).0.1
        before
        others
    → prepared_at + 60 ≤ committed_at
    → cleanup o committed_at before others ≡ ok (b, later, cleaned)
    → let commit = request_for base id commit_rotation (next_of public_of r random_key) text_of in
      Agrees text_of r (settled_of c)
      × (lookup id cleaned ≡ some (settled_of c))
      × (serve o later cleaned e commit committed_at source ≡ ((later, cleaned), err no_prepared))
unfolding serve serve_commit fresh
serve-cleanup public_of text_of o e r c id source base clients others cleaned commands before later
      b random_key prepared_at committed_at agrees free left_ found new apart runs_ v4 meanwhile
      over cleaned_up =
    let k = next_of public_of r random_key in
    let key = text_of k.public_key in
    let first =
      prepares_at-waits public_of text_of o e r c id source base clients commands random_key
        prepared_at agrees free left_ found new apart runs_ v4 in
    let kept =
      waits-lookup public_of text_of o e r c id source base clients others commands before
        random_key prepared_at first meanwhile in
    let gone =
      cleanup-found o committed_at before later others cleaned b id _ _
        (cleanup_client-drops o committed_at c k.epoch (prepared_at + 60) key over) cleaned_up
        kept in
    let fresh_ : (k.epoch == c.epoch && str_eq key c.public_key) ≡ false = rw new (ground arith) in
    (record { epoch = agrees.epoch; key = agrees.key; idle = refl }, gone, rw (gone, fresh_) refl)
