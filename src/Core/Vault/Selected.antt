-- ===== src/Core/Vault/Selected.antt =====
-- What a context holds: nothing but stored, confirmed memories that a live grant for this destination
-- covers, within the limits on their number and size.

use omni_os.Core.Vault.Context.{
  matches, query_of, select, is_none, context, authorized, within, in_scope,
}
use omni_os.Core.Vault.{
  join_row, memory_of, Vault, Memory, MemoryRow, Source, Grant, grants, joined_rows, sort_by,
  insert_by,
}
use omni_os.Prelude.{
  ok_injective, some_injective, or_fail-eq-ok, ltb, Bool-cases, ltb→lt, length, take, any, keep_if,
  find, All, or_fail, ensure-eq-ok, >>=-eq-ok, ok, text_comparable, pair_comparable, beq_refl, ℕ,
  zero, suc, ◌+◌, ◌-◌, ◌≤◌, ◌<◌, String, len, ◌≡◌, refl, subst, inl, inr, Bool, true, ◌&&◌, Option,
  none, some, List, [], ◌∷◌, arith, str_eq, eq_iff,
}
use omni_os.Core.Errors.{unknown_grant, grant_revoked, grant_expired, wrong_destination}

-- Lists keep what holds of every element.
module _ {A : Type 0} (P : A → Type 0) where
  All-insert_by :
      (before : A → A → Bool) (x : A) (xs : List A) → P x → All P xs → All P (insert_by before x xs)
  All-insert_by before x [] p ps = (p, tt)
  All-insert_by before x (y ∷ ys) p ps = elim (Bool-cases (before x y)) [
    | inl first ↦ rw first (p, ps)
    | inr later ↦ rw later (ps.0, All-insert_by before x ys p ps.1)
  ]

  pub All-sort_by : (before : A → A → Bool) (xs : List A) → All P xs → All P (sort_by before xs)
  All-sort_by before [] ps = tt
  All-sort_by before (x ∷ xs) ps =
      All-insert_by before x (sort_by before xs) ps.0 (All-sort_by before xs ps.1)

  All-take : (n : ℕ) (xs : List A) → All P xs → All P (take n xs)
  All-take zero xs ps = tt
  All-take (suc n) [] ps = tt
  All-take (suc n) (x ∷ xs) ps = (ps.0, All-take n xs ps.1)

  pub All-keep_if : (p : A → Bool) (xs : List A) → All P xs → All P (keep_if p xs)
  All-keep_if p [] ps = tt
  All-keep_if p (x ∷ xs) ps = elim (Bool-cases (p x)) [
    | inl kept ↦ rw kept (ps.0, All-keep_if p xs ps.1)
    | inr dropped ↦ rw dropped (All-keep_if p xs ps.1)
  ]

  pub keep_if-All :
      (Q : A → Type 0) (p : A → Bool) (xs : List A)
      → ((x : A) → p x ≡ true → P x → Q x)
      → All P xs
      → All Q (keep_if p xs)
  keep_if-All Q p [] f ps = tt
  keep_if-All Q p (x ∷ xs) f ps = elim (Bool-cases (p x)) [
    | inl kept ↦ rw kept (f x kept ps.0, keep_if-All Q p xs f ps.1)
    | inr dropped ↦ rw dropped (keep_if-All Q p xs f ps.1)
  ]

  pub find-All :
      (p : A → Bool) (xs : List A) (x : A) → All P xs → find p xs ≡ some x → P x × (p x ≡ true)
  find-All p [] x ps h = cc
  find-All p (y ∷ ys) x ps h = elim (Bool-cases (p y)) [
    | inl here ↦ subst (λ z. P z × (p z ≡ true)) (some_injective y x (rw here at h)) (ps.0, here)
    | inr there ↦ find-All p ys x ps.1 (rw there at h)
  ]

All-within :
    (P : Memory → Type 0) (budget : ℕ) (ms : List Memory) → All P ms → All P (within budget ms)
unfolding within
All-within P budget [] ps = tt
All-within P budget (m ∷ ms) ps = elim (Bool-cases (ltb budget (len m.content))) [
  | inl over ↦ rw over (All-within P budget ms ps.1)
  | inr fits ↦ rw fits (ps.0, All-within P (budget - len m.content) ms ps.1)
]

-- The bytes of all contents.
abbrev total : List Memory → ℕ
total [] = 0
total (m ∷ ms) = len m.content + total ms

total-within : (budget : ℕ) (ms : List Memory) → total (within budget ms) ≤ budget
unfolding within
total-within budget [] = omega arith
total-within budget (m ∷ ms) =
    let skipped = total-within budget ms in
    let taken = total-within (budget - len m.content) ms in
    elim (Bool-cases (ltb budget (len m.content))) [
      | inl over ↦ rw over skipped
      | inr fits ↦
          rw fits (let le : len m.content ≤ budget = ground arith in omega (arith, taken, le))
    ]

total-take : (n : ℕ) (ms : List Memory) → total (take n ms) ≤ total ms
total-take zero ms = omega arith
total-take (suc n) [] = omega arith
total-take (suc n) (m ∷ ms) = omega (arith, total-take n ms)

length-take {ℓ} : {A : Type ℓ} (n : ℕ) (xs : List A) → length (take n xs) ≤ n
length-take zero xs = omega arith
length-take (suc n) [] = omega arith
length-take (suc n) (x ∷ xs) = omega (arith, length-take n xs)

-- A row of the table has the memory's id, content and status.
abbrev pub IsStored : List MemoryRow → Memory → Type 0
IsStored rows m =
    any
      (λ (r : MemoryRow).
        str_eq r.id m.id && (str_eq r.content m.content && str_eq r.status m.status))
      rows
    ≡ true

All-join_row :
    (P : Memory → Type 0) (row : MemoryRow) (found : Option Source) (rest : List Memory)
    → ((source : Source) → P (memory_of row source))
    → All P rest
    → All P (join_row row found rest)
All-join_row P row none rest p ps = ps
All-join_row P row (some source) rest p ps = (p source, ps)

here :
    (row : MemoryRow) (rows : List MemoryRow) (source : Source)
    → IsStored (row ∷ rows) (memory_of row source)
here row rows source = rw (beq_refl row.id, beq_refl row.content, beq_refl row.status) refl

there :
    (row : MemoryRow) (rows : List MemoryRow) (m : Memory)
    → IsStored rows m
    → IsStored (row ∷ rows) m
there row rows m stored = ground arith

joined_rows-IsStored :
    (sources : List Source) (all_rows rows : List MemoryRow)
    → ((m : Memory) → IsStored rows m → IsStored all_rows m)
    → All (IsStored all_rows) (joined_rows sources rows)
unfolding joined_rows
joined_rows-IsStored sources all_rows [] more = tt
joined_rows-IsStored sources all_rows (row ∷ rows) more =
    All-join_row (IsStored all_rows) row _ _
      (λ source. more (memory_of row source) (here row rows source))
      (joined_rows-IsStored sources all_rows rows (λ m stored. more m (there row rows m stored)))

-- What entitles to a context of these memories.
pub record IsEntitled (vault : Vault) (now : ℕ) (grant_id destination : String) (ms : List Memory)
    : Type 0 where
  pub grant : Grant
  pub held : find (λ (g : Grant). str_eq g.id grant_id) (grants vault) ≡ some grant
  pub not_revoked : grant.revoked_at ≡ none
  pub not_expired : now < grant.expires_at
  pub for_destination : grant.destination ≡ destination
  pub covered :
      All
        (λ (m : Memory).
          (m.status ≡ "confirmed") × (in_scope grant m ≡ true) × IsStored vault.rows m)
        ms
  pub few : length ms ≤ 24
  pub small : total ms ≤ 12000

both_hold :
    (status : String) (covered : Bool)
    → (str_eq status "confirmed" && covered) ≡ true
    → (status ≡ "confirmed") × (covered ≡ true)
both_hold status covered h = let e = eq_iff status "confirmed" in ground arith

authorized-covered :
    (vault : Vault) (grant : Grant)
    → All
        (λ (m : Memory).
          (m.status ≡ "confirmed") × (in_scope grant m ≡ true) × IsStored vault.rows m)
        (authorized vault grant)
unfolding authorized
authorized-covered vault grant = All-sort_by _ _ _ (
    keep_if-All (IsStored vault.rows) _ _ _
      (λ m kept stored. let (s, c) = both_hold m.status (in_scope grant m) kept in (s, c, stored))
      (joined_rows-IsStored vault.sources vault.rows vault.rows (λ m s. s)))

select-covered :
    (to_lowercase : String → String) (vault : Vault) (grant : Grant) (query : String)
    → All
        (λ (m : Memory).
          (m.status ≡ "confirmed") × (in_scope grant m ≡ true) × IsStored vault.rows m)
        (select to_lowercase vault grant query)
      × (length (select to_lowercase vault grant query) ≤ 24)
      × (total (select to_lowercase vault grant query) ≤ 12000)
unfolding select
select-covered to_lowercase vault grant query =
    let found = keep_if (matches to_lowercase query) (authorized vault grant) in
    (
      All-take _ 24 _
          (All-within _ 12000 found (All-keep_if _ _ _ (authorized-covered vault grant))),
      length-take 24 (within 12000 found),
      omega (arith, total-take 24 (within 12000 found), total-within 12000 found),
    )

unrevoked : (at : Option ℕ) → is_none at ≡ true → at ≡ none
unrevoked none h = refl
unrevoked (some t) h = cc

-- A context is returned only under a grant with this id that is not revoked, has not expired and
-- names this destination; it holds at most 24 memories of 12000 bytes together, and each one is
-- confirmed, in the scope of the grant and a row of the table.
pub context-IsEntitled :
    (to_lowercase : String → String) (vault : Vault) (now : ℕ) (grant_id destination : String)
    → (query : Option String) (ms : List Memory)
    → context to_lowercase vault now grant_id destination query ≡ ok ms
    → IsEntitled vault now grant_id destination ms
unfolding context
context-IsEntitled to_lowercase vault now grant_id destination query ms h =
    let (grant, g, h1) =
      >>=-eq-ok (or_fail (find (λ (g : Grant). str_eq g.id grant_id) (grants vault)) unknown_grant)
        _ h in
    let (live, h2) = ensure-eq-ok (is_none grant.revoked_at) grant_revoked _ h1 in
    let (early, h3) = ensure-eq-ok (ltb now grant.expires_at) grant_expired _ h2 in
    let (right, h4) = ensure-eq-ok (str_eq grant.destination destination) wrong_destination _ h3 in
    let same = ok_injective (select to_lowercase vault grant (query_of to_lowercase query)) ms h4 in
    let (covered, few, small) =
      select-covered to_lowercase vault grant (query_of to_lowercase query) in
    record {
      grant = grant;
      held = or_fail-eq-ok _ _ grant g;
      not_revoked = unrevoked grant.revoked_at live;
      not_expired = ltb→lt _ _ early;
      for_destination = (eq_iff _ _).0 right;
      covered = subst (All _) same covered;
      few = subst (λ l. length l ≤ 24) same few;
      small = subst (λ l. total l ≤ 12000) same small;
    }
