-- ===== src/Core/Vault/Valid.antt =====
-- Every memory that the vault ever holds has an allowed status and bounded content.

use omni_os.Core.Vault.{
  memory_of, new_row, entity, Vault, Memory, MemoryRow, Source, Grant, Receipt, memories,
  joined_rows, check_content, valid_status, is_valid, or_old, update_row, row_of, has_source,
  add_memory, update_memory, delete_memory, delete_source,
}
use omni_os.Core.Errors.{
  constraint_failed, Error, invalid_content, invalid_status, memory_not_found,
}
use omni_os.Prelude.{
  Bool-cases, Option-cases, keep_if, find, All, or_fail, ◌>>=◌, ensure-eq-ok, >>=-eq-ok,
  ok_injective, or_fail-eq-ok, Result, ok, err, text_comparable, pair_comparable, ℕ, String, ◌≡◌,
  refl, sym, ap, subst, ◌⊎◌, inl, inr, Bool, true, not, Option, none, some, List, [], ◌∷◌, map,
  arith, str_eq,
}
use omni_os.Core.Audit.{AuditRecord, audit_on, Stamp}
use omni_os.Core.Vault.Context.{create_grant, revoke}
use omni_os.Core.Vault.Receipts.{receipt, receipt_status}
use omni_os.Core.Vault.Selected.{All-sort_by, find-All, All-keep_if}
use omni_os.Core.Vault.Steps.{
  Step, Reach, adds, updates, deletes, deletes_source, captures, grants_scope, revokes, discloses,
  marks, here, next,
}
use omni_os.Core.Vault.Capture.{add_capture, insert_proposals}

abbrev pub IsValidRow : MemoryRow → Type 0
IsValidRow r = (valid_status r.status ≡ true) × (check_content r.content ≡ true)

abbrev IsValidMemory : Memory → Type 0
IsValidMemory m = (valid_status m.status ≡ true) × (check_content m.content ≡ true)

add_memory-rows :
    (v w : Vault) (stamp : Stamp) (source_id id : String) (time : ℕ) (content status kind : String)
    (m : Memory)
    → add_memory v stamp source_id id time content status kind ≡ ok (m, w)
    → (check_content content ≡ true)
      × (valid_status status ≡ true)
      × (w.rows ≡ row_of id source_id content status time ∷ v.rows)
unfolding add_memory
add_memory-rows v w stamp source_id id time content status kind m h =
    (ground arith, ground arith, ground arith)

abbrev returning : Vault → Memory → Result Error (Memory × Vault)
returning after u = ok (u, after)

found_after :
    (o : Option Memory) (after w : Vault) (m : Memory)
    → (or_fail o memory_not_found >>= returning after) ≡ ok (m, w)
    → w ≡ after
found_after none after w m h = cc
found_after (some u) after w m h =
    sym (ap (λ (p : Memory × Vault). p.1) (ok_injective (u, after) (m, w) h))

-- The last steps of an update.
updating :
    {J : Type 0} (audited : Result Error J) (again : J → Option Memory) (after : J → Vault)
    (m : Memory) (w : Vault)
    → (audited >>= λ j. or_fail (again j) memory_not_found >>= returning (after j)) ≡ ok (m, w)
    → (j : J) × (w ≡ after j)
updating (err e) again after m w h = cc
updating (ok j) again after m w h = (j, found_after (again j) (after j) w m h)

update_memory-rows :
    (v w : Vault) (stamp : Stamp) (time : ℕ) (id : String) (content status : Option String)
    (m : Memory)
    → update_memory v stamp time id content status ≡ ok (m, w)
    → (is_valid check_content content ≡ true)
      × (is_valid valid_status status ≡ true)
      × ((old : Memory) × (find (λ (m : Memory). str_eq m.id id) (memories v) ≡ some old)
          × (w.rows
              ≡ map
                  (update_row id (or_old content old.content) (or_old status old.status) time)
                  v.rows))
unfolding update_memory
update_memory-rows v w stamp time id content status m h =
    let (good, h1) = ensure-eq-ok (is_valid check_content content) invalid_content _ h in
    let (named, h2) = ensure-eq-ok (is_valid valid_status status) invalid_status _ h1 in
    let (old, f, h3) =
      >>=-eq-ok (or_fail (find (λ (m : Memory). str_eq m.id id) (memories v)) memory_not_found) _
        h2 in
    let after : List AuditRecord → Vault = λ journal. record v {
      rows =
          map (update_row id (or_old content old.content) (or_old status old.status) time) v.rows;
      history =
          record { memory_id = id; content = old.content; status = old.status; recorded_at = time }
          ∷ v.history;
      journal = journal;
    } in
    let (journal, same) =
      updating (audit_on v.journal stamp "memory_updated" (entity id))
        (λ j. find (λ (m : Memory). str_eq m.id id) (memories (after j))) after m w h3 in
    (good, named, (old, or_fail-eq-ok _ memory_not_found old f, ap (λ (x : Vault). x.rows) same))

joined-IsValid :
    (sources : List Source) (rows : List MemoryRow)
    → All IsValidRow rows
    → All IsValidMemory (joined_rows sources rows)
unfolding joined_rows
joined-IsValid sources [] ps = tt
joined-IsValid sources (row ∷ rows) ps =
    elim (Option-cases (find (λ (s : Source). str_eq s.id row.source_id) sources)) [
      | inl e ↦ rw e (joined-IsValid sources rows ps.1)
      | inr (s, e) ↦ rw e (ps.0, joined-IsValid sources rows ps.1)
    ]

or_old-valid :
    (p : String → Bool) (s : Option String) (old : String)
    → is_valid p s ≡ true
    → p old ≡ true
    → p (or_old s old) ≡ true
or_old-valid p none old h k = k
or_old-valid p (some s) old h k = h

map-IsValidRow :
    (id content status : String) (time : ℕ) (rows : List MemoryRow)
    → valid_status status ≡ true
    → check_content content ≡ true
    → All IsValidRow rows
    → All IsValidRow (map (update_row id content status time) rows)
map-IsValidRow id content status time [] s c ps = tt
map-IsValidRow id content status time (row ∷ rows) s c ps =
    let rest = map-IsValidRow id content status time rows s c ps.1 in
    elim (Bool-cases (str_eq row.id id)) [
      | inl same ↦ rw same ((s, c), rest)
      | inr differs ↦ rw differs (ps.0, rest)
    ]

delete_memory-rows :
    (v w : Vault) (stamp : Stamp) (id : String) (found : Bool)
    → delete_memory v stamp id ≡ ok (found, w)
    → (w.rows ≡ v.rows) ⊎ (w.rows ≡ keep_if (λ (r : MemoryRow). not (str_eq r.id id)) v.rows)
unfolding delete_memory
delete_memory-rows v w stamp id found h = ground arith

delete_source-rows :
    (v w : Vault) (stamp : Stamp) (id : String) (found : Bool)
    → delete_source v stamp id ≡ ok (found, w)
    → (w.rows ≡ v.rows) ⊎ (w.rows ≡ keep_if (λ (r : MemoryRow). not (has_source id r)) v.rows)
unfolding delete_source
delete_source-rows v w stamp id found h = ground arith

create_grant-rows :
    (v w : Vault) (stamp : Stamp) (id : String) (now created : ℕ) (destination : String)
    (scope : List String) (seconds : ℕ) (g : Grant)
    → create_grant v stamp id now created destination scope seconds ≡ ok (g, w)
    → w.rows ≡ v.rows
unfolding create_grant
create_grant-rows v w stamp id now created destination scope seconds g h = ground arith

revoke-rows :
    (v w : Vault) (stamp : Stamp) (now : ℕ) (id : String) (found : Bool)
    → revoke v stamp now id ≡ ok (found, w)
    → w.rows ≡ v.rows
unfolding revoke
revoke-rows v w stamp now id found h = ground arith

receipt-rows :
    (v w : Vault) (id : String) (time : ℕ) (destination : String) (ms : List Memory)
    (grant_id : Option String) (made : Receipt)
    → receipt v id time destination ms grant_id ≡ ok (made, w)
    → w.rows ≡ v.rows
unfolding receipt
receipt-rows v w id time destination ms grant_id made h = ground arith

insert_proposals-IsValidRow :
    (source : Source) (time : ℕ) (proposals : List (String × String)) (rows after : List MemoryRow)
    (ms : List Memory)
    → insert_proposals source time proposals rows ≡ ok (ms, after)
    → All IsValidRow rows
    → All IsValidRow after
unfolding insert_proposals valid_status
insert_proposals-IsValidRow source time [] rows after ms h ps =
    subst (All IsValidRow)
      (ap (λ (p : List Memory × List MemoryRow). p.1) (ok_injective ([], rows) (ms, after) h)) ps
insert_proposals-IsValidRow source time ((id, content) ∷ proposals) rows after ms h ps =
    let row : MemoryRow = row_of id source.id content "proposed" time in
    let (good, h1) = ensure-eq-ok (check_content content) invalid_content _ h in
    let (fresh, h2) = ensure-eq-ok (new_row rows id) constraint_failed _ h1 in
    let ((ms', after'), i, h3) =
      >>=-eq-ok (insert_proposals source time proposals (row ∷ rows)) _ h2 in
    let all' =
      insert_proposals-IsValidRow source time proposals (row ∷ rows) after' ms' i
        ((refl, good), ps) in
    subst (All IsValidRow)
      (ap (λ (p : List Memory × List MemoryRow). p.1)
        (ok_injective (memory_of row source ∷ ms', after') (ms, after) h3))
      all'

-- The rows after a capture.
add_capture-rows :
    (v w : Vault) (stamp : Stamp) (source_id : String) (time : ℕ) (raw kind : String)
    (proposals : List (String × String)) (ms : List Memory)
    → add_capture v stamp source_id time raw kind proposals ≡ ok (ms, w)
    → insert_proposals
        (record { id = source_id; kind = kind; content = raw; created_at = time })
        time
        proposals
        v.rows
      ≡ ok (ms, w.rows)
unfolding add_capture
add_capture-rows v w stamp source_id time raw kind proposals ms h = ground arith

add_capture-IsValidRow :
    (v w : Vault) (stamp : Stamp) (source_id : String) (time : ℕ) (raw kind : String)
    (proposals : List (String × String)) (ms : List Memory)
    → add_capture v stamp source_id time raw kind proposals ≡ ok (ms, w)
    → All IsValidRow v.rows
    → All IsValidRow w.rows
add_capture-IsValidRow v w stamp source_id time raw kind proposals ms h ps =
    insert_proposals-IsValidRow _ time proposals v.rows w.rows ms
      (add_capture-rows v w stamp source_id time raw kind proposals ms h) ps

find_valid :
    (v : Vault) (id : String) (old : Memory)
    → All IsValidRow v.rows
    → find (λ (m : Memory). str_eq m.id id) (memories v) ≡ some old
    → IsValidMemory old
unfolding memories
find_valid v id old ps f =
    (find-All IsValidMemory (λ (m : Memory). str_eq m.id id) _ old
      (All-sort_by IsValidMemory _ _ (joined-IsValid v.sources v.rows ps)) f).0

Step-IsValidRow : (v w : Vault) → Step v w → All IsValidRow v.rows → All IsValidRow w.rows
unfolding receipt_status
Step-IsValidRow v w (adds _ stamp source_id id time content status kind m h) ps =
    let (c, s, rows) = add_memory-rows v w stamp source_id id time content status kind m h in
    rw rows ((s, c), ps)
Step-IsValidRow v w (updates _ stamp time id content status m h) ps =
    let (c, s, r) = update_memory-rows v w stamp time id content status m h in
    let valid = find_valid v id r.0 ps r.1 in
    rw r.2 (
      map-IsValidRow id _ _ time v.rows (or_old-valid valid_status status r.0.status s valid.0)
        (or_old-valid check_content content r.0.content c valid.1) ps)
Step-IsValidRow v w (deletes _ stamp id found h) ps =
    elim (delete_memory-rows v w stamp id found h) [
      | inl e ↦ rw e ps
      | inr e ↦ rw e (All-keep_if IsValidRow _ v.rows ps)
    ]
Step-IsValidRow v w (deletes_source _ stamp id found h) ps =
    elim (delete_source-rows v w stamp id found h) [
      | inl e ↦ rw e ps
      | inr e ↦ rw e (All-keep_if IsValidRow _ v.rows ps)
    ]
Step-IsValidRow v w (captures _ stamp source_id time raw kind proposals ms h) ps =
    add_capture-IsValidRow v w stamp source_id time raw kind proposals ms h ps
Step-IsValidRow v w (grants_scope _ stamp id now created destination scope seconds g h) ps =
    rw (create_grant-rows v w stamp id now created destination scope seconds g h) ps
Step-IsValidRow v w (revokes _ stamp now id found h) ps =
    rw (revoke-rows v w stamp now id found h) ps
Step-IsValidRow v w (discloses _ id time destination ms grant_id made h) ps =
    rw (receipt-rows v w id time destination ms grant_id made h) ps
Step-IsValidRow v w (marks id status) ps = ps

-- In every vault that successful operations reach from one without memories, each memory has one
-- of the four statuses, and content of at most 100000 bytes that is not all white space.
pub Reach-IsValidRow : (v w : Vault) → v.rows ≡ [] → Reach v w → All IsValidRow w.rows
Reach-IsValidRow v w none_yet here = rw none_yet tt
Reach-IsValidRow v w none_yet (next {w = u} reach step) =
    Step-IsValidRow u w step (Reach-IsValidRow v u none_yet reach)
