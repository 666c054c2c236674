-- ===== src/Vpn/Server/Exclusive.antt =====
-- Whose the keys of the clients are, and what `cleanup` of crates/omni-vpn/src/server.rs does to them.

-- One client: what is pending is the next epoch with another key and no overlap, and the previous key is
-- another one.
use omni_os.Prelude.{
  lookup-insert_ne, lookup-insert_self, eq_iff, insert, Bool-cases, >>=-eq-ok, some_injective, ok,
  text_comparable, pair_comparable, lookup, ℕ, ◌+◌, String, ◌≡◌, refl, sym, ap, ◌∙◌, subst, ◌≢◌,
  ◌⊎◌, inl, inr, Bool, true, false, Option, none, some, List, [], ◌∷◌, arith, str_eq,
}
use omni_os.Vpn.Server.{
  Outside, Pending, Previous, ClientState, Command, holds, drop_pending, drop_previous,
  cleanup_client, cleanup,
}

pub record IsSoundClient (c : ClientState) : Type 0 where
  pub next :
      (p : Pending)
      → c.pending ≡ some p
      → (p.epoch ≡ c.epoch + 1) × (str_eq p.public_key c.public_key ≡ false) × (c.previous ≡ none)
  pub left : (p : Previous) → c.previous ≡ some p → str_eq p.public_key c.public_key ≡ false

pub record IsExclusive (clients : List (String × ClientState)) : Type 0 where
  pub own : (id : String) (c : ClientState) → lookup id clients ≡ some c → IsSoundClient c
  pub apart :
      (i j : String) (c d : ClientState) (key : String)
      → lookup i clients ≡ some c
      → lookup j clients ≡ some d
      → holds c key ≡ true
      → holds d key ≡ true
      → i ≡ j

-- What an expiry takes.
record IsLess (c after : ClientState) : Type 0 where
  pub key : after.public_key ≡ c.public_key
  pub epoch : after.epoch ≡ c.epoch
  pub pending : (after.pending ≡ none) ⊎ (after.pending ≡ c.pending)
  pub previous : (after.previous ≡ none) ⊎ (after.previous ≡ c.previous)

IsLess-refl : (c : ClientState) → IsLess c c
IsLess-refl c = record { key = refl; epoch = refl; pending = inr refl; previous = inr refl }

IsLess-trans : (a b c : ClientState) → IsLess a b → IsLess b c → IsLess a c
IsLess-trans a b c ab bc = record {
  key = bc.key ∙ ab.key;
  epoch = bc.epoch ∙ ab.epoch;
  pending = elim (bc.pending) [
    | inl n ↦ inl n
    | inr e ↦ elim (ab.pending) [ inl n ↦ inl (e ∙ n) | inr f ↦ inr (e ∙ f) ]
  ];
  previous = elim (bc.previous) [
    | inl n ↦ inl n
    | inr e ↦ elim (ab.previous) [ inl n ↦ inl (e ∙ n) | inr f ↦ inr (e ∙ f) ]
  ];
}

IsLess-IsSoundClient :
    (c after : ClientState) → IsLess c after → IsSoundClient c → IsSoundClient after
IsLess-IsSoundClient c after less sound = record {
  next = λ p h. elim (less.pending) [
    | inl n ↦ absurd (let e = sym n ∙ h in cc)
    | inr e ↦
        let (a, b, d) = sound.next p (sym e ∙ h) in
        (rw less.epoch a, rw less.key b, elim (less.previous) [ inl n ↦ n | inr f ↦ f ∙ d ])
  ];
  left = λ p h. elim (less.previous) [
    | inl n ↦ absurd (let e = sym n ∙ h in cc)
    | inr e ↦ rw less.key (sound.left p (sym e ∙ h))
  ];
}

IsLess-holds :
    (c after : ClientState) (k : String) → IsLess c after → holds after k ≡ true → holds c k ≡ true
IsLess-holds c after k less h =
    let a = less.key in let b = less.pending in let d = less.previous in ground arith

pub lookup-∷ :
    {V : Type 0} (id j : String) (c d : V) (rest : List (String × V))
    → lookup id ((j, c) ∷ rest) ≡ some d
    → ((str_eq j id ≡ true) × (c ≡ d)) ⊎ ((str_eq j id ≡ false) × (lookup id rest ≡ some d))
lookup-∷ id j c d rest h = elim (Bool-cases (str_eq j id)) [
  | inl same ↦ inl (same, some_injective c d (rw same at h))
  | inr other ↦ inr (other, rw other at h)
]

pub lookup-insert :
    {V : Type 0} (id j : String) (after d : V) (clients : List (String × V))
    → lookup j (insert id after clients) ≡ some d
    → ((id ≡ j) × (after ≡ d)) ⊎ ((str_eq id j ≡ false) × (lookup j clients ≡ some d))
lookup-insert id j after d clients h = elim (Bool-cases (str_eq id j)) [
  | inl same ↦
      let e : id ≡ j = (eq_iff id j).0 same in
      let g : lookup id (insert id after clients) ≡ some d =
        subst (λ i. lookup i (insert id after clients) ≡ some d) (sym e) h in
      inl (e, some_injective after d (sym (lookup-insert_self id after clients) ∙ g))
  | inr other ↦ inr (other, sym (lookup-insert_ne id j after clients other) ∙ h)
]

module _ (o : Outside) where
  drop_pending-IsLess :
      (now : ℕ) (commands commands' : List Command) (c after : ClientState) (p : Option Pending)
      (b : Bool)
      → drop_pending o now commands c p ≡ ok (b, commands', after)
      → IsLess c after
  drop_pending-IsLess now commands commands' c after none b h =
      subst (IsLess c) (ground arith) (IsLess-refl c)
  drop_pending-IsLess now commands commands' c after (some p) b h = record {
    key = ground arith;
    epoch = ground arith;
    pending = ground arith;
    previous = ground arith;
  }

  drop_previous-IsLess :
      (now : ℕ) (commands commands' : List Command) (c after : ClientState) (p : Option Previous)
      (b : Bool)
      → drop_previous o now commands c p ≡ ok (b, commands', after)
      → IsLess c after
  drop_previous-IsLess now commands commands' c after none b h =
      subst (IsLess c) (ground arith) (IsLess-refl c)
  drop_previous-IsLess now commands commands' c after (some p) b h = record {
    key = ground arith;
    epoch = ground arith;
    pending = ground arith;
    previous = ground arith;
  }

  cleanup_client-IsLess :
      (now : ℕ) (commands commands' : List Command) (c after : ClientState) (b : Bool)
      → cleanup_client o now commands c ≡ ok (b, commands', after)
      → IsLess c after
  cleanup_client-IsLess now commands commands' c after b h =
      let ((a, m, d), e, h1) = >>=-eq-ok (drop_pending o now commands c c.pending) _ h in
      let ((a', m', d'), e', h2) = >>=-eq-ok (drop_previous o now m d d.previous) _ h1 in
      subst (IsLess c) (ground arith) (
        IsLess-trans c d d' (drop_pending-IsLess now commands m c d c.pending a e)
          (drop_previous-IsLess now m m' d d' d.previous a' e'))

  cleanup-[] :
      (now : ℕ) (commands commands' : List Command) (after : List (String × ClientState)) (b : Bool)
      (id : String) (d : ClientState)
      → cleanup o now commands [] ≡ ok (b, commands', after)
      → lookup id after ≢ some d
  unfolding cleanup
  cleanup-[] now commands commands' after b id d h f = ground arith

  cleanup-∷ :
      (now : ℕ) (commands commands' : List Command) (j : String) (c : ClientState)
      (clients after : List (String × ClientState)) (b : Bool)
      → cleanup o now commands ((j, c) ∷ clients) ≡ ok (b, commands', after)
      → (m : List Command) × (a' : Bool) × (m' : List Command) × (c' : ClientState) × (rest : List
          (String × ClientState))
        × IsLess c c'
        × (cleanup o now m clients ≡ ok (a', m', rest))
        × ((j, c') ∷ rest ≡ after)
  unfolding cleanup
  cleanup-∷ now commands commands' j c clients after b h =
      let ((a, m, c'), e, h1) = >>=-eq-ok (cleanup_client o now commands c) _ h in
      let ((a', m', rest), e', h2) = >>=-eq-ok (cleanup o now m clients) _ h1 in
      (m, a', m', c', rest, cleanup_client-IsLess now commands m c c' a e, e', ground arith)

  cleanup-lookup :
      (now : ℕ) (commands commands' : List Command) (clients after : List (String × ClientState))
      (b : Bool) (id : String) (d : ClientState)
      → cleanup o now commands clients ≡ ok (b, commands', after)
      → lookup id after ≡ some d
      → (c : ClientState) × (lookup id clients ≡ some c) × IsLess c d
  cleanup-lookup now commands commands' [] after b id d h f =
      absurd (cleanup-[] now commands commands' after b id d h f)
  cleanup-lookup now commands commands' ((j, c) ∷ clients) after b id d h f =
      let (m, a', m', c', rest, less, e', after_of) =
        cleanup-∷ now commands commands' j c clients after b h in
      elim (lookup-∷ id j c' d rest (ap (lookup id) after_of ∙ f)) [
        | inl (same, e) ↦ (c, rw same refl, subst (IsLess c) e less)
        | inr (other, g) ↦
            let (x, found, less_x) = cleanup-lookup now m m' clients rest a' id d e' g in
            (x, rw other found, less_x)
      ]

  pub cleanup-IsExclusive :
      (now : ℕ) (commands commands' : List Command) (clients after : List (String × ClientState))
      (b : Bool)
      → cleanup o now commands clients ≡ ok (b, commands', after)
      → IsExclusive clients
      → IsExclusive after
  cleanup-IsExclusive now commands commands' clients after b h ex = record {
    own = λ id c f.
        let (x, found, less) = cleanup-lookup now commands commands' clients after b id c h f in
        IsLess-IsSoundClient x c less (ex.own id x found);
    apart = λ i j c d k f g hc hd.
        let (x, fx, lx) = cleanup-lookup now commands commands' clients after b i c h f in
        let (y, fy, ly) = cleanup-lookup now commands commands' clients after b j d h g in
        ex.apart i j x y k fx fy (IsLess-holds x c k lx hc) (IsLess-holds y d k ly hd);
  }
