-- ===== src/Core/Vault/Revoked.antt =====
-- A grant that is revoked never authorizes again, whatever is done to the vault afterwards.
use omni_os.Prelude.{
  leb, Bool-cases, any, find, All, ok, err, text_comparable, pair_comparable, ℕ, String, ◌≡◌, refl,
  sym, ap, ◌∙◌, subst, inl, inr, Bool, true, false, ◌||◌, Option, none, some, List, [], ◌∷◌, map,
  arith, str_eq, eq_iff,
}
use omni_os.Core.Errors.{grant_revoked}
use omni_os.Core.Audit.{Stamp}
use omni_os.Core.Vault.{Vault, Grant, grants, sort_by, insert_by}
use omni_os.Core.Vault.Context.{context, revoke, revoke_row, or_now, is_none}
use omni_os.Core.Vault.Steps.{
  Step, Reach, here, next, has_id, GrantMove, stays, revokes_id, adds_grant, Step-GrantMove,
  revoke-grant_rows,
}
use omni_os.Core.Vault.Selected.{All-sort_by, find-All}

-- The grants of a store: one has the id, and all that have it are revoked.
record IsRevoked (id : String) (rows : List Grant) : Type 0 where
  pub present : any (has_id id) rows ≡ true
  pub over : All (λ (g : Grant). has_id id g ≡ true → is_none g.revoked_at ≡ false) rows

any-insert_by :
    (before : Grant → Grant → Bool) (p : Grant → Bool) (x : Grant) (xs : List Grant)
    → any p (insert_by before x xs) ≡ (p x || any p xs)
any-insert_by before p x [] = refl
any-insert_by before p x (y ∷ ys) = let ih = any-insert_by before p x ys in ground arith

any-sort_by :
    (before : Grant → Grant → Bool) (p : Grant → Bool) (xs : List Grant)
    → any p (sort_by before xs) ≡ any p xs
any-sort_by before p [] = refl
any-sort_by before p (x ∷ xs) =
    any-insert_by before p x (sort_by before xs) ∙ ap (λ b. p x || b) (any-sort_by before p xs)

find-any :
    (p : Grant → Bool) (xs : List Grant) → any p xs ≡ true → (x : Grant) × (find p xs ≡ some x)
find-any p [] h = cc
find-any p (x ∷ xs) h = elim (Bool-cases (p x)) [
  | inl yes_ ↦ (x, rw yes_ refl)
  | inr no_ ↦ let r = find-any p xs (rw no_ at h) in (r.0, rw no_ r.1)
]

IsRevoked-context :
    (to_lowercase : String → String) (v : Vault) (now : ℕ) (id destination : String)
    (query : Option String)
    → IsRevoked id v.grant_rows
    → context to_lowercase v now id destination query ≡ err grant_revoked
unfolding context grants
IsRevoked-context to_lowercase v now id destination query r =
    let newest : Grant → Grant → Bool = λ a b. leb b.created_at a.created_at in
    let (g, found) =
      find-any (has_id id) (sort_by newest v.grant_rows)
        (any-sort_by newest (has_id id) v.grant_rows ∙ r.present) in
    let over = find-All _ (has_id id) _ g (All-sort_by _ newest v.grant_rows r.over) found in
    rw (found, over.0 over.1) refl

revoke_row-id :
    (id other : String) (now : ℕ) (g : Grant) → has_id id (revoke_row other now g) ≡ has_id id g
revoke_row-id id other now g = ground arith

pub or_now-some : (before : Option ℕ) (now : ℕ) → is_none (or_now before now) ≡ false
or_now-some none now = refl
or_now-some (some t) now = refl

revoke_row-over :
    (other : String) (now : ℕ) (g : Grant)
    → is_none g.revoked_at ≡ false
    → is_none (revoke_row other now g).revoked_at ≡ false
revoke_row-over other now g h = elim (Bool-cases (str_eq g.id other)) [
  | inl same ↦ rw same (or_now-some g.revoked_at now)
  | inr differs ↦ rw differs h
]

revoke_row-now :
    (id : String) (now : ℕ) (g : Grant)
    → has_id id g ≡ true
    → is_none (revoke_row id now g).revoked_at ≡ false
revoke_row-now id now g same = rw same (or_now-some g.revoked_at now)

map-present :
    (id other : String) (now : ℕ) (rows : List Grant)
    → any (has_id id) (map (revoke_row other now) rows) ≡ any (has_id id) rows
map-present id other now [] = refl
map-present id other now (g ∷ rows) =
    rw (revoke_row-id id other now g, map-present id other now rows) refl

abbrev IsOver : String → Grant → Type 0
IsOver id g = has_id id g ≡ true → is_none g.revoked_at ≡ false

map-IsOver :
    (id other : String) (now : ℕ) (rows : List Grant)
    → All (IsOver id) rows
    → All (IsOver id) (map (revoke_row other now) rows)
map-IsOver id other now [] r = tt
map-IsOver id other now (g ∷ rows) r = (
  λ same. revoke_row-over other now g (r.0 (sym (revoke_row-id id other now g) ∙ same)),
  map-IsOver id other now rows r.1,
)

map-IsOver_now :
    (id : String) (now : ℕ) (rows : List Grant) → All (IsOver id) (map (revoke_row id now) rows)
map-IsOver_now id now [] = tt
map-IsOver_now id now (g ∷ rows) = (
  λ same. revoke_row-now id now g (sym (revoke_row-id id id now g) ∙ same),
  map-IsOver_now id now rows,
)

map-IsRevoked :
    (id other : String) (now : ℕ) (rows : List Grant)
    → IsRevoked id rows
    → IsRevoked id (map (revoke_row other now) rows)
map-IsRevoked id other now rows r = record {
  present = map-present id other now rows ∙ r.present;
  over = map-IsOver id other now rows r.over;
}

false-ne-true : (false ≡ true) → ⊥
false-ne-true h = cc

cons-IsRevoked :
    (id : String) (g : Grant) (rows : List Grant)
    → any (has_id g.id) rows ≡ false
    → IsRevoked id rows
    → IsRevoked id (g ∷ rows)
cons-IsRevoked id g rows new r = record {
  present = let p = r.present in ground arith;
  over = (
    λ same.
        let e : g.id ≡ id = (eq_iff g.id id).0 same in
        absurd (false-ne-true (sym (subst (λ i. any (has_id i) rows ≡ false) e new) ∙ r.present)),
    r.over,
  );
}

move-IsRevoked :
    (id : String) (rows after : List Grant)
    → GrantMove rows after
    → IsRevoked id rows
    → IsRevoked id after
move-IsRevoked id rows after stays r = r
move-IsRevoked id rows after (revokes_id other now) r = map-IsRevoked id other now rows r
move-IsRevoked id rows after (adds_grant g new unbound) r = cons-IsRevoked id g rows new r

Step-IsRevoked :
    (id : String) (v w : Vault) → Step v w → IsRevoked id v.grant_rows → IsRevoked id w.grant_rows
Step-IsRevoked id v w step r =
    move-IsRevoked id v.grant_rows w.grant_rows (Step-GrantMove v w step) r

Reach-IsRevoked :
    (id : String) (v w : Vault) → Reach v w → IsRevoked id v.grant_rows → IsRevoked id w.grant_rows
Reach-IsRevoked id v w here r = r
Reach-IsRevoked id v w (next {w = u} reach step) r =
    Step-IsRevoked id u w step (Reach-IsRevoked id v u reach r)

-- Once a grant is revoked, then after any further successful operations on memories, sources,
-- grants and receipts, a context under it is refused as revoked, at every time, for every
-- destination and query.
pub revoke-context :
    (to_lowercase : String → String) (v revoked w : Vault) (stamp : Stamp) (time now : ℕ)
    → (id destination : String) (query : Option String)
    → revoke v stamp time id ≡ ok (true, revoked)
    → Reach revoked w
    → context to_lowercase w now id destination query ≡ err grant_revoked
revoke-context to_lowercase v revoked w stamp time now id destination query h reach =
    let start : IsRevoked id revoked.grant_rows =
      elim (revoke-grant_rows v revoked stamp time id true h) [
        | inl (yes_, some_, rows) ↦ rw rows (record {
          present = map-present id id time v.grant_rows ∙ some_;
          over = map-IsOver_now id time v.grant_rows;
        })
        | inr (no_, same) ↦ absurd (cc)
      ] in
    IsRevoked-context to_lowercase w now id destination query
      (Reach-IsRevoked id revoked w reach start)
