-- ===== src/Core/Continuity/Bounds.antt =====
-- The bounds of an abstract conversation, and that every operation on it keeps them.
use omni_os.Prelude.{
  leb, Bool-cases, Option-cases, length, some_injective, text_comparable, pair_comparable, ℕ, ◌≤◌,
  ◌<◌, String, ◌≡◌, refl, sym, subst, inl, inr, true, false, Option, none, some, List, [], ◌∷◌,
  arith, str_eq, eq_iff,
}
use omni_os.Core.Audit.{some_and}
use omni_os.Core.Continuity.Talk.{
  Talk, Pair, IsNew, Op, expires, opens, begins, saves, abandons, removes, expire, abandon, Own,
  Begun, Saved, Does, Runs,
}

-- What the operations on talks keep: at most one exchange for a revision and at most 100 revisions, no request in two
-- exchanges, and a pending request that is in none.
abbrev pub Once : List Pair → Type 0
Once [] = Unit
Once (p ∷ ps) = IsNew p.request ps × Once ps

pub record IsBounded (t : Talk) : Type 0 where
  pub exchanges : length t.log ≤ t.revision
  pub revisions : t.revision ≤ 100
  pub once : Once t.log
  pub fresh :
      (request : String) → t.pending ≡ some request → (t.revision < 100) × IsNew request t.log

abbrev pub IsWithin : Option Talk → Type 0
IsWithin none = Unit
IsWithin (some t) = IsBounded t

Begun-IsWithin :
    (n : ℕ) (request : String) (a b : Option Talk) → Begun n request a b → IsWithin a → IsWithin b
Begun-IsWithin n request a b begun w =
    let v = subst IsWithin begun.idle w in
    rw begun.waits (record {
      exchanges = v.exchanges;
      revisions = v.revisions;
      once = v.once;
      fresh = λ r p.
          (begun.room, subst (λ q. IsNew q begun.log) (some_injective request r p) begun.new);
    })

Saved-IsWithin : (n : ℕ) (p : Pair) (a b : Option Talk) → Saved n p a b → IsWithin a → IsWithin b
Saved-IsWithin n p a b saved w =
    let v = subst IsWithin saved.waits w in
    let (bound, new) = v.fresh p.request refl in
    rw saved.idle (record {
      exchanges = let e = v.exchanges in omega arith;
      revisions = omega (arith, bound);
      once = (new, v.once);
      fresh = λ r q. cc;
    })

expire-IsWithin : (now : ℕ) (a : Option Talk) → IsWithin a → IsWithin (expire now a)
expire-IsWithin now none w = tt
expire-IsWithin now (some t) w = elim (Bool-cases (leb t.expires_at now)) [
  | inl over ↦ rw over tt
  | inr lives ↦ rw lives w
]

abandon-IsWithin : (request : String) (a : Option Talk) → IsWithin a → IsWithin (abandon request a)
abandon-IsWithin request none w = tt
abandon-IsWithin request (some t) w = elim (Bool-cases (some_and (str_eq request) t.pending)) [
  | inl waits ↦ elim (Option-cases t.pending) [
    | inl idle ↦ absurd (let n : false ≡ true = rw idle at waits in cc)
    | inr (r, p) ↦
        let (bound, new) = w.fresh r p in
        rw waits (record {
          exchanges = let e = w.exchanges in omega arith;
          revisions = omega (arith, bound);
          once = w.once;
          fresh = λ q none_. cc;
        })
  ]
  | inr other ↦ rw other w
]

Own-IsWithin :
    (i id : String) (a b : Option Talk) (P : Type 0)
    → Own i id a b P
    → (P → IsWithin a → IsWithin b)
    → IsWithin a
    → IsWithin b
Own-IsWithin i id a b P o each w = elim (Bool-cases (str_eq i id)) [
  | inl own ↦ each (o.own ((eq_iff i id).0 own)) w
  | inr other ↦ subst IsWithin (sym (o.other other)) w
]

Does-IsWithin :
    (op : Op) (id : String) (a b : Option Talk) → Does op id a b → IsWithin a → IsWithin b
Does-IsWithin (expires now) id a b d w = rw d (expire-IsWithin now a w)
Does-IsWithin (opens i expiry) id a b d w =
    Own-IsWithin i id a b _ d
      (λ e v.
        rw e.1 (record {
          exchanges = omega arith;
          revisions = omega arith;
          once = tt;
          fresh = λ r p. cc;
        }))
      w
Does-IsWithin (begins i n request) id a b d w =
    Own-IsWithin i id a b _ d (Begun-IsWithin n request a b) w
Does-IsWithin (saves i n p) id a b d w = Own-IsWithin i id a b _ d (Saved-IsWithin n p a b) w
Does-IsWithin (abandons i request) id a b d w =
    Own-IsWithin i id a b _ d (λ e v. rw e (abandon-IsWithin request a v)) w
Does-IsWithin (removes i) id a b d w = Own-IsWithin i id a b _ d (λ e v. rw e tt) w

pub Runs-IsWithin :
    (ops : List Op) (id : String) (a b : Option Talk) → Runs ops id a b → IsWithin a → IsWithin b
Runs-IsWithin [] id a b e w = subst IsWithin (sym e) w
Runs-IsWithin (op ∷ ops) id a b (mid, d, r) w =
    Runs-IsWithin ops id mid b r (Does-IsWithin op id a mid d w)
