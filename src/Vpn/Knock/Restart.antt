-- ===== src/Vpn/Knock/Restart.antt =====
-- `restore_nonces`: a restarted verifier refuses what the former one refused.
use omni_os.Prelude.{
  ltb, Bool-cases, lt→ltb, Result, ok, text_comparable, pair_beq, pair_beq_iff, pair_comparable,
  lookup, contains, insert, lookup-insert_self, lookup-insert_ne, ℕ, ◌<◌, String, ◌≡◌, refl, sym,
  ap, ◌∙◌, subst, inl, inr, Bool, true, false, not, ◌&&◌, some, List, [], ◌∷◌, arith,
}
use omni_os.Vpn.Knock.{Verifier, Error, new, restore_loop, restore_nonces, nonce_entries}
use omni_os.Vpn.Knock.Admit.{Remembers}

abbrev Seen : Type 0
Seen = List ((String × String) × Unit {0})

abbrev Entries : Type 0
Entries = List ((String × String) × ℕ)

contains-insert_self {κ} :
    {V : Type κ} (k : String × String) (v : V) (t : List ((String × String) × V))
    → contains k (insert k v t) ≡ true
contains-insert_self k v t = let h = lookup-insert_self k v t in ground arith

contains-insert_ne {κ} :
    {V : Type κ} (k key : String × String) (v : V) (t : List ((String × String) × V))
    → pair_beq k key ≡ false
    → contains key (insert k v t) ≡ contains key t
contains-insert_ne k key v t h = let l = lookup-insert_ne k key v t h in ground arith

-- An entry for a key that is not yet seen is for another key than one that is seen.
fresh_ne :
    (k key : String × String) (b : Bool) (seen : Seen)
    → contains key seen ≡ true
    → (b && not (contains k seen)) ≡ true
    → pair_beq k key ≡ false
fresh_ne k key b seen s fresh = elim (Bool-cases (pair_beq k key)) [
  | inl same ↦
      let e : key ≡ k = sym ((pair_beq_iff k key).0 same) in
      let s' = subst (λ j. contains j seen ≡ true) e s in absurd (ground arith)
  | inr other ↦ other
]

-- A key that is seen keeps its entry.
restore_loop_seen :
    (key : String × String) (expiry now : ℕ) (es : Entries) (seen : Seen) (nonces : Entries)
    → contains key seen ≡ true
    → lookup key nonces ≡ some expiry
    → lookup key (restore_loop es now seen nonces) ≡ some expiry
unfolding restore_loop
restore_loop_seen key expiry now [] seen nonces s h = h
restore_loop_seen key expiry now ((k, e) ∷ es) seen nonces s h =
    elim (Bool-cases (ltb now e && not (contains k seen))) [
      | inl fresh ↦
          let ne = fresh_ne k key (ltb now e) seen s fresh in
          rw fresh (
            restore_loop_seen key expiry now es (insert k tt seen) (insert k e nonces)
              (contains-insert_ne k key tt seen ne ∙ s) (lookup-insert_ne k key e nonces ne ∙ h))
      | inr old ↦ rw old (restore_loop_seen key expiry now es seen nonces s h)
    ]

-- An entry for a key that is not yet seen is kept until its expiry.
restore_loop_unseen :
    (key : String × String) (expiry now : ℕ) (es : Entries) (seen : Seen) (nonces : Entries)
    → now < expiry
    → contains key seen ≡ false
    → lookup key es ≡ some expiry
    → lookup key (restore_loop es now seen nonces) ≡ some expiry
unfolding restore_loop
restore_loop_unseen key expiry now [] seen nonces lt s h = cc
restore_loop_unseen key expiry now ((k, e) ∷ es) seen nonces lt s h =
    elim (Bool-cases (pair_beq k key)) [
      | inl same ↦
          let eq : key ≡ k = sym ((pair_beq_iff k key).0 same) in
          let s' : contains k seen ≡ false = subst (λ j. contains j seen ≡ false) eq s in
          let found : e ≡ expiry = ground arith in
          let live = lt→ltb now e (subst (λ n. now < n) (sym found) lt) in
          rw (live, s')
            (restore_loop_seen key expiry now es (insert k tt seen) (insert k e nonces)
              (rw eq (contains-insert_self k tt seen))
              (rw eq (lookup-insert_self k e nonces ∙ ap some found)))
      | inr other ↦
          let h' : lookup key es ≡ some expiry = ground arith in
          elim (Bool-cases (ltb now e && not (contains k seen))) [
            | inl fresh ↦ rw fresh (
                restore_loop_unseen key expiry now es (insert k tt seen) (insert k e nonces) lt
                  (contains-insert_ne k key tt seen other ∙ s) h')
            | inr old ↦ rw old (restore_loop_unseen key expiry now es seen nonces lt s h')
          ]
    ]

-- A verifier for the same clients, with the nonces that were saved.
abbrev pub restart : Verifier → ℕ → Result Error Verifier
restart v now = restore_nonces (record new { secrets = v.secrets }) (nonce_entries v) now

pub restart-keeps :
    (v w : Verifier) (key : String × String) (expiry now : ℕ)
    → restart v now ≡ ok w
    → Remembers v key expiry
    → now < expiry
    → Remembers w key expiry
unfolding restore_nonces nonce_entries new
restart-keeps v w key expiry now h r lt =
    let kept = restore_loop_unseen key expiry now v.nonces [] [] lt refl r in ground arith
