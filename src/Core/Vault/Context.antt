-- ===== src/Core/Vault/Context.antt =====
-- Grants, the memories that one authorizes, and receipts: the rest of crates/omni-core/src/vault.rs.
-- `str::to_lowercase` is a parameter.
use Prim.Native.Nat.{lt, eq, gt}
use Prim.Native.String.{compare}
use omni_os.Prelude.{
  ltb, leb, ◌==◌, if◌then◌else◌, length, take, all, any, keep_if, find, ensure, or_fail, ◌>>=◌,
  ◌>>◌, Result, ok, text_comparable, pair_comparable, one_of, is_empty, contains_text, ℕ, ◌+◌, ◌-◌,
  String, len, Bool, true, false, not, ◌&&◌, ◌||◌, Option, none, some, List, [], ◌∷◌, map, str_eq,
}
use omni_os.Core.Errors.{
  Error, constraint_failed, grant_lifetime, grant_scope_size, grant_wildcard, grant_missing_memory,
  unknown_grant, grant_revoked, grant_expired, wrong_destination,
}
use omni_os.Core.Audit.{Stamp, no_details, audit_on}
use omni_os.Core.Vault.{Vault, Memory, Grant, memories, grants, joined_rows, sort_by}

abbrev pub is_none : Option ℕ → Bool
is_none none = true
is_none (some t) = false

abbrev is_known : List Memory → String → Bool
is_known ms id = str_eq id "*" || any (λ (m : Memory). str_eq m.id id) ms

-- `Vault::create_grant`, with the random id and the times of its two reads of the clock; a time is
-- counted in seconds.
unfoldable pub create_grant :
    Vault → Stamp → String → ℕ → ℕ → String → List String → ℕ → Result Error (Grant × Vault)
create_grant vault stamp id now created destination scope seconds = do
  ensure (leb 1 seconds && leb seconds 86400) grant_lifetime
  ensure (leb 1 (length scope) && leb (length scope) 128) grant_scope_size
  ensure (not (one_of scope "*") || length scope == 1) grant_wildcard
  ensure (all (is_known (memories vault)) scope) grant_missing_memory
  ensure (not (any (λ (g : Grant). str_eq g.id id) vault.grant_rows)) constraint_failed
  journal ← audit_on vault.journal stamp "grant_created" (record no_details { entity_id = some id })
  let grant : Grant = record {
    client_id = none;
    id = id;
    destination = destination;
    scope = scope;
    expires_at = now + seconds;
    revoked_at = none;
    created_at = created;
  }
  ok (grant, record vault { grant_rows = grant ∷ vault.grant_rows; journal = journal })

abbrev pub or_now : Option ℕ → ℕ → Option ℕ
or_now none now = some now
or_now (some t) now = some t

abbrev pub revoke_row : String → ℕ → Grant → Grant
revoke_row id now grant =
    if str_eq grant.id id then record grant { revoked_at = or_now grant.revoked_at now } else grant

abbrev revoke_if : Vault → Stamp → ℕ → String → Bool → Result Error (Bool × Vault)
revoke_if vault stamp now id false = ok (false, vault)
revoke_if vault stamp now id true = do
  journal ← audit_on vault.journal stamp "grant_revoked" (record no_details { entity_id = some id })
  ok (
    true,
    record vault { grant_rows = map (revoke_row id now) vault.grant_rows; journal = journal },
  )

-- `Vault::revoke`
unfoldable pub revoke : Vault → Stamp → ℕ → String → Result Error (Bool × Vault)
revoke vault stamp now id =
    revoke_if vault stamp now id (any (λ (g : Grant). str_eq g.id id) vault.grant_rows)

abbrev pub text_leb : String → String → Bool
text_leb a b = elim (compare a b) [ lt ↦ true | eq ↦ true | gt ↦ false ]

-- `ORDER BY created_at DESC, id`
abbrev newer : Memory → Memory → Bool
newer a b = ltb b.created_at a.created_at || (a.created_at == b.created_at && text_leb a.id b.id)

abbrev pub is_wildcard : List String → Bool
is_wildcard (s ∷ []) = str_eq s "*"
is_wildcard scope = false

abbrev pub in_scope : Grant → Memory → Bool
in_scope grant m = is_wildcard grant.scope || one_of grant.scope m.id

-- What the statement selects.
unfoldable pub authorized : Vault → Grant → List Memory
authorized vault grant = sort_by newer (
    keep_if (λ (m : Memory). str_eq m.status "confirmed" && in_scope grant m)
      (joined_rows vault.sources vault.rows))

-- The filter with the budget: a memory over what is left is passed over.
unfoldable pub within : ℕ → List Memory → List Memory
within budget [] = []
within budget (m ∷ ms) =
    let skipped = within budget ms in
    let taken = within (budget - len m.content) ms in
    if ltb budget (len m.content) then skipped else m ∷ taken

module _ (to_lowercase : String → String) where
  abbrev pub matches : String → Memory → Bool
  matches query m = is_empty query || contains_text (to_lowercase m.content) query

  abbrev pub query_of : Option String → String
  query_of none = to_lowercase ""
  query_of (some s) = to_lowercase s

  -- The chain of filters.
  unfoldable pub select : Vault → Grant → String → List Memory
  select vault grant query =
      take 24 (within 12000 (keep_if (matches query) (authorized vault grant)))

  -- `Vault::context` at a time.
  unfoldable pub context : Vault → ℕ → String → String → Option String → Result Error (List Memory)
  context vault now grant_id destination query = do
    grant ← or_fail (find (λ (g : Grant). str_eq g.id grant_id) (grants vault)) unknown_grant
    ensure (is_none grant.revoked_at) grant_revoked
    ensure (ltb now grant.expires_at) grant_expired
    ensure (str_eq grant.destination destination) wrong_destination
    ok (select vault grant (query_of query))
