-- ===== src/Vpn/Server/Served.antt =====
-- What one request leaves of the keys of the clients.

-- A client after its request: it is sound again, and a key that it did not have is the one asked for.

use omni_os.Vpn.Server.Exclusive.{lookup-insert, lookup-∷, IsExclusive, IsSoundClient}
use omni_os.Prelude.{
  ◌==◌, Bool-cases, or_fail, ensure-eq-ok, >>=-eq-ok, Result-cases, ok_injective, or_fail-eq-ok,
  some_injective, Result, ok, err, text_comparable, pair_comparable, lookup, insert, ℕ, ◌+◌, String,
  ◌≡◌, refl, sym, ap, ◌∙◌, subst, ◌⊎◌, inl, inr, true, false, not, ◌&&◌, Option, none, some, List,
  [], ◌∷◌, arith, str_eq, eq_iff,
}
use omni_os.Vpn.Knock.{Action, open_path, prepare_rotation, commit_rotation, Request}
use omni_os.Vpn.Server.{
  is_prepare, key_text, find_client, store_client, serve_found, serve, serve_action, serve_commit,
  recent_handshake, no_prepared, unprepared_key, no_handshake, missing_client, key_assigned,
  ServerError, Action, Request, is_assigned, Outside, Enrollment, Pending, Previous, ClientState,
  Command, holds, is_none, prepare_check, prepare_with, serve_prepare,
}
use omni_os.Vpn.Rotation.{overlap_seconds}

record Follows (c after : ClientState) (key : String) : Type 0 where
  pub sound : IsSoundClient c → IsSoundClient after
  pub keys : (k : String) → holds after k ≡ true → (holds c k ≡ true) ⊎ (key ≡ k)

-- The same without a new key.
record Stays (c after : ClientState) : Type 0 where
  pub sound : IsSoundClient c → IsSoundClient after
  pub keys : (k : String) → holds after k ≡ true → holds c k ≡ true

Stays-refl : (c after : ClientState) → c ≡ after → Stays c after
Stays-refl c after e = subst (Stays c) e (record { sound = λ s. s; keys = λ k h. h })

is_none-≡ {ℓ} : {A : Type ℓ} (x : Option A) → is_none x ≡ true → x ≡ none
is_none-≡ none h = refl
is_none-≡ (some a) h = cc

str_eq-swap : (a b : String) → str_eq a b ≡ false → str_eq b a ≡ false
str_eq-swap a b h = elim (Bool-cases (str_eq b a)) [
  | inl same ↦ absurd (let e = sym h ∙ (eq_iff a b).1 (sym ((eq_iff b a).0 same)) in cc)
  | inr other ↦ other
]

module _ (o : Outside) where
  prepare_check-ok :
      (c : ClientState) (epoch : ℕ) (key : String)
      → prepare_check o c epoch key ≡ ok tt
      → (epoch ≡ c.epoch + 1) × (str_eq key c.public_key ≡ false) × (c.previous ≡ none)
  prepare_check-ok c epoch key h = (ground arith, ground arith, is_none-≡ c.previous (ground arith))

  prepare_with-Follows :
      (commands commands' : List Command) (e : Enrollment) (c after : ClientState)
      (p : Option Pending) (epoch : ℕ) (key : String) (now : ℕ)
      → (epoch ≡ c.epoch + 1) × (str_eq key c.public_key ≡ false) × (c.previous ≡ none)
      → prepare_with o commands e c p epoch key now ≡ (commands', ok after)
      → Follows c after key
  prepare_with-Follows commands commands' e c after (some p) epoch key now (next_, new, free) h =
      let same = Stays-refl c after (ground arith) in
      record { sound = same.sound; keys = λ k a. inl (same.keys k a) }
  prepare_with-Follows commands commands' e c after none epoch key now (next_, new, free) h =
      let made : record c {
        pending = some (record { epoch = epoch; public_key = key; expires_at = now + 60 });
      }
          ≡ after =
        ground arith in
      subst (λ x. Follows c x key) made
        (record {
          sound = λ s. record {
            next = λ p q.
                let r = some_injective _ p q in
                subst
                  (λ (x : Pending).
                    (x.epoch ≡ c.epoch + 1)
                    × (str_eq x.public_key c.public_key ≡ false)
                    × (c.previous ≡ none))
                  r (next_, new, free);
            left = s.left;
          };
          keys = λ k a. elim (Bool-cases (str_eq key k)) [
            | inl same ↦ inr ((eq_iff key k).0 same)
            | inr other ↦ inl (ground arith)
          ];
        })

  serve_prepare-Follows :
      (commands commands' : List Command) (e : Enrollment) (c after : ClientState) (epoch : ℕ)
      (key : String) (now : ℕ)
      → serve_prepare o commands e c epoch key now ≡ (commands', ok after)
      → Follows c after key
  unfolding serve_prepare
  serve_prepare-Follows commands commands' e c after epoch key now h =
      elim (Result-cases (prepare_check o c epoch key)) [
        | inl (done, fine) ↦
            prepare_with-Follows commands commands' e c after c.pending epoch key now
              (prepare_check-ok c epoch key fine) (rw fine at h)
        | inr (x, bad) ↦ absurd (let n = rw bad at h in ground arith)
      ]

  commit_new-Stays :
      (c : ClientState) (p : Pending) (epoch : ℕ) (key : String) (now : ℕ)
      → c.pending ≡ some p
      → (p.epoch ≡ epoch) × (p.public_key ≡ key)
      → Stays c (record {
        epoch = epoch;
        public_key = key;
        pending = none;
        previous = some (record { public_key = c.public_key; expires_at = now + overlap_seconds });
      })
  commit_new-Stays c p epoch key now f (e1, e2) = record {
    sound = λ s.
        let (a, b, d) = s.next p f in
        record {
          next = λ q g. absurd (cc);
          left = λ q g.
              let r = some_injective _ q g in
              subst (λ (x : Previous). str_eq x.public_key key ≡ false) r
                (subst (λ k. str_eq c.public_key k ≡ false) e2
                  (str_eq-swap p.public_key c.public_key b));
        };
    keys = λ k h. elim (Bool-cases (str_eq key k)) [
      | inl same ↦ let e3 : str_eq p.public_key k ≡ true = rw e2 same in rw f (ground arith)
      | inr other ↦ ground arith
    ];
  }

  serve_commit-Stays :
      (commands : List Command) (c after : ClientState) (epoch : ℕ) (key : String) (now : ℕ)
      → serve_commit o commands c epoch key now ≡ ok after
      → Stays c after
  unfolding serve_commit
  serve_commit-Stays commands c after epoch key now h =
      elim (Bool-cases (epoch == c.epoch && str_eq key c.public_key)) [
        | inl done ↦ Stays-refl c after (ok_injective c after (rw done at h))
        | inr to_do ↦
            let (p, f, h1) = >>=-eq-ok (or_fail c.pending no_prepared) _ (rw to_do at h) in
            let (same, h2) =
              ensure-eq-ok (p.epoch == epoch && str_eq p.public_key key) unprepared_key _ h1 in
            let (recent, r, h3) = >>=-eq-ok (recent_handshake o commands key now) _ h2 in
            let (live, h4) = ensure-eq-ok recent no_handshake _ h3 in
            subst (Stays c) (ok_injective _ after h4) (
              commit_new-Stays c p epoch key now (or_fail-eq-ok c.pending no_prepared p f)
                (ground arith, (eq_iff p.public_key key).0 (ground arith)))
      ]

  serve_action-cases :
      (commands commands' : List Command) (e : Enrollment) (c after : ClientState)
      (request : Request) (action : Action) (now : ℕ)
      → serve_action o commands e c request action now ≡ (commands', ok after)
      → Stays c after
        ⊎ ((is_prepare o action ≡ true) × Follows c after (key_text o request.public_key))
  serve_action-cases commands commands' e c after request open_path now h =
      inl (Stays-refl c after (ground arith))
  serve_action-cases commands commands' e c after request prepare_rotation now h = inr (
    refl,
    serve_prepare-Follows commands commands' e c after request.epoch (key_text o request.public_key)
        now h,
  )
  serve_action-cases commands commands' e c after request commit_rotation now h = inl (
      serve_commit-Stays commands c after request.epoch (key_text o request.public_key) now
        (ap (λ x. x.1) h))

  -- A key of no other client.
  free_elsewhere :
      (id j key : String) (d : ClientState) (clients : List (String × ClientState))
      → is_assigned id key clients ≡ false
      → lookup j clients ≡ some d
      → holds d key ≡ true
      → str_eq j id ≡ true
  free_elsewhere id j key d [] free f h = absurd (let e = f in cc)
  free_elsewhere id j key d ((i, c) ∷ clients) free f h = elim (lookup-∷ j i c d clients f) [
    | inl (same, e) ↦
        let ij : i ≡ j = (eq_iff i j).0 same in
        let hc : holds c key ≡ true = subst (λ x. holds x key ≡ true) (sym e) h in
        let own_ : str_eq i id ≡ true = ground arith in subst (λ x. str_eq x id ≡ true) ij own_
    | inr (other, g) ↦ free_elsewhere id j key d clients (ground arith) g h
  ]

  alone :
      (id j : String) (c after d : ClientState) (clients : List (String × ClientState)) (k : String)
      → lookup id clients ≡ some c
      → ((k : String)
          → holds after k ≡ true
          → (holds c k ≡ true) ⊎ (is_assigned id k clients ≡ false))
      → IsExclusive clients
      → lookup j clients ≡ some d
      → holds after k ≡ true
      → holds d k ≡ true
      → id ≡ j
  alone id j c after d clients k found keys ex g ha hd = elim (keys k ha) [
    | inl hc ↦ ex.apart id j c d k found g hc hd
    | inr free ↦ sym ((eq_iff j id).0 (free_elsewhere id j k d clients free g hd))
  ]

  -- One client's new state keeps the keys apart.
  insert-IsExclusive :
      (id : String) (c after : ClientState) (clients : List (String × ClientState))
      → lookup id clients ≡ some c
      → (IsSoundClient c → IsSoundClient after)
      → ((k : String)
          → holds after k ≡ true
          → (holds c k ≡ true) ⊎ (is_assigned id k clients ≡ false))
      → IsExclusive clients
      → IsExclusive (insert id after clients)
  insert-IsExclusive id c after clients found sound keys ex = record {
    own = λ i d f. elim (lookup-insert id i after d clients f) [
      | inl (same, e) ↦ subst IsSoundClient e (sound (ex.own id c found))
      | inr (other, g) ↦ ex.own i d g
    ];
    apart = λ i j d e k f g hd he. elim (lookup-insert id i after d clients f) [
      | inl (is, ed) ↦ elim (lookup-insert id j after e clients g) [
        | inl (js, ee) ↦ sym is ∙ js
        | inr (jo, g') ↦
            sym is
            ∙ alone id j c after e clients k found keys ex g'
                (subst (λ x. holds x k ≡ true) (sym ed) hd) he
      ]
      | inr (io, f') ↦ elim (lookup-insert id j after e clients g) [
        | inl (js, ee) ↦
            sym (
              alone id i c after d clients k found keys ex f'
                (subst (λ x. holds x k ≡ true) (sym ee) he) hd)
            ∙ js
        | inr (jo, g') ↦ ex.apart i j d e k f' g' hd he
      ]
    ];
  }

  store_client-IsExclusive :
      (clients : List (String × ClientState)) (request : Request) (c : ClientState)
      (source : String) (made : List Command × Result ServerError ClientState)
      → lookup request.client_id clients ≡ some c
      → not (
          is_prepare o request.action
          && is_assigned request.client_id (key_text o request.public_key) clients)
        ≡ true
      → ((commands' : List Command) (after : ClientState)
          → made ≡ (commands', ok after)
          → Stays c after
            ⊎ ((is_prepare o request.action ≡ true)
                × Follows c after (key_text o request.public_key)))
      → IsExclusive clients
      → IsExclusive (store_client o clients request.client_id made source).0.1
  store_client-IsExclusive clients request c source (commands, err x) row free cases ex = ex
  store_client-IsExclusive clients request c source (commands, ok after) row free cases ex =
      elim (cases commands after refl) [
        | inl stays ↦
            insert-IsExclusive request.client_id c after clients row stays.sound
              (λ k h. inl (stays.keys k h)) ex
        | inr (prepares, follows) ↦
            let none_ : is_assigned request.client_id (key_text o request.public_key) clients
                ≡ false =
              ground arith in
            insert-IsExclusive request.client_id c after clients row follows.sound
              (λ k h. elim (follows.keys k h) [
                | inl old ↦ inl old
                | inr new ↦
                    inr (subst (λ x. is_assigned request.client_id x clients ≡ false) new none_)
              ])
              ex
      ]

  serve_found-IsExclusive :
      (commands : List Command) (clients : List (String × ClientState)) (e : Enrollment)
      (request : Request) (now : ℕ) (source : String) (found : Result ServerError ClientState)
      → find_client o clients request ≡ found
      → IsExclusive clients
      → IsExclusive (serve_found o commands clients e request now source found).0.1
  serve_found-IsExclusive commands clients e request now source (err x) f ex = ex
  serve_found-IsExclusive commands clients e request now source (ok c) f ex =
      let (free, f1) =
        ensure-eq-ok
          (not (
            is_prepare o request.action
            && is_assigned request.client_id (key_text o request.public_key) clients))
          key_assigned _ f in
      let row = or_fail-eq-ok (lookup request.client_id clients) missing_client c f1 in
      store_client-IsExclusive clients request c source _ row free
        (λ commands' after h.
          serve_action-cases commands commands' e c after request request.action now h)
        ex

  -- The keys stay apart under a request, whatever its result.
  pub serve-IsExclusive :
      (commands : List Command) (clients : List (String × ClientState)) (e : Enrollment)
      (request : Request) (now : ℕ) (source : String)
      → IsExclusive clients
      → IsExclusive (serve o commands clients e request now source).0.1
  unfolding serve
  serve-IsExclusive commands clients e request now source ex =
      serve_found-IsExclusive commands clients e request now source _ refl ex
