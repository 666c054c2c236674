-- ===== src/Core/Continuity/Updates.antt =====
-- What the statements of crates/omni-core/src/continuity.rs that update threads do to a talk.
use omni_os.Prelude.{
  ◌==◌, Bool-cases, Option-cases, eq→==, any, keep_if, find, All, some_injective, text_comparable,
  pair_comparable, ℕ, ◌+◌, ◌≤◌, ◌<◌, String, ◌≡◌, refl, sym, ap, ◌∙◌, subst, inl, inr, true, false,
  ◌&&◌, none, some, option_map, List, [], ◌∷◌, map, arith, str_eq, eq_iff,
}
use omni_os.Core.Audit.{some_and}
use omni_os.Core.Vault.Selected.{All-sort_by}
use omni_os.Core.Continuity.{Conversation, Turn, Store, has_id, is_of, awaits, clear_row}
use omni_os.Core.Continuity.Exchange.{turns_of, later_first, begin_row, is_none, is_turn}
use omni_os.Core.Continuity.Rows.{find-map, AtMostOne-map, find-any-false, find-holds}
use omni_os.Core.Continuity.Talk.{
  Op, begins, abandons, Does, IsSound, talk_of, view, own_turns, IsSoundRow, Refines, pair_of,
  IsNew,
}
use omni_os.Core.Continuity.Tables.{view-of, IsSound-of, row_of, one_op, same_talk, has_id-other}

-- An update of threads that keeps their keys.
update_rows-Refines :
    (op : Op) (f : Conversation → Conversation) (s : Store)
    → ((id : String) (c : Conversation) → has_id id (f c) ≡ has_id id c)
    → ((id : String) → IsSound s id → find (has_id id) s.threads ≡ none → Does op id none none)
    → ((id : String) (c : Conversation)
        → IsSound s id
        → find (has_id id) s.threads ≡ some c
        → IsSoundRow (own_turns s id) (some (f c))
          × Does op id (talk_of (turns_of s id) (some c)) (talk_of (turns_of s id) (some (f c))))
    → Refines (op ∷ []) s (record s { threads = map f s.threads })
unfolding turns_of
update_rows-Refines op f s key missing each id sound =
    let after : Store = record s { threads = map f s.threads } in
    let one = AtMostOne-map (has_id id) f s.threads (key id) sound.one in
    let row = find-map (has_id id) f s.threads (key id) in
    elim (Option-cases (find (has_id id) s.threads)) [
      | inl absent ↦
          let row_after = row ∙ ap (option_map f) absent in
          (
            (same_talk s after id sound one (row_after ∙ sym absent) refl).0,
            one_op op id _ _ (
                subst (λ a. Does op id a (view after id)) (sym (view-of s id _ _ absent refl))
                  (subst (Does op id _) (sym (view-of after id _ _ row_after refl))
                    (missing id sound absent))),
          )
      | inr (c, found) ↦
          let (fine, d) = each id c sound found in
          let row_after = row ∙ ap (option_map f) found in
          (
            IsSound-of after id (own_turns s id) (some (f c)) one row_after refl fine,
            one_op op id _ _ (
                subst (λ a. Does op id a (view after id)) (sym (view-of s id _ _ found refl))
                  (subst (Does op id _) (sym (view-of after id _ _ row_after refl)) d)),
          )
    ]

-- The next revision, without a request.
pub IsSoundRow-suc :
    (turns : List Turn) (n : ℕ)
    → All (λ (t : Turn). t.position ≤ n) turns
    → All (λ (t : Turn). t.position ≤ n + 1) turns
IsSoundRow-suc [] n ps = tt
IsSoundRow-suc (t ∷ ts) n ps = (let p = ps.0 in omega arith, IsSoundRow-suc ts n ps.1)

clear_row-Does :
    (i id request : String) (turns : List Turn) (c : Conversation)
    → has_id id c ≡ true
    → Does
        (abandons i request)
        id
        (talk_of turns (some c))
        (talk_of turns (some (clear_row i request c)))
clear_row-Does i id request turns c own = record {
  own = λ e.
      let hit : has_id i c ≡ true = subst (λ j. has_id j c ≡ true) (sym e) own in
      elim (Bool-cases (some_and (str_eq request) c.pending_request)) [
        | inl waits ↦ rw (hit, waits) refl
        | inr idle ↦ rw (hit, idle) refl
      ];
  other = λ differs. rw (has_id-other i id c own differs) refl;
}

-- A pending request is abandoned.
pub clear_row-Refines :
    (i request : String) (s : Store)
    → Refines
        (abandons i request ∷ [])
        s
        (record s { threads = map (clear_row i request) s.threads })
clear_row-Refines i request s =
    update_rows-Refines (abandons i request) (clear_row i request) s
      (λ id c. elim (Bool-cases (awaits i request c)) [ inl a ↦ rw a refl | inr a ↦ rw a refl ])
      (λ id sound absent. record { own = λ e. refl; other = λ e. refl })
      (λ id c sound found.
        let row = row_of s id (some c) found sound in
        (
          elim (Bool-cases (awaits i request c)) [
            | inl a ↦ rw a ((IsSoundRow-suc _ c.revision row.0, λ r none_. cc))
            | inr a ↦ rw a row
          ],
          clear_row-Does i id request (turns_of s id) c (find-holds (has_id id) s.threads c found),
        ))

-- A talk has no turn of a request that is not found.
All-absent :
    (id request : String) (turns : List Turn)
    → any (is_turn id request) turns ≡ false
    → All (λ (t : Turn). str_eq t.request_id request ≡ false) (keep_if (is_of id) turns)
All-absent id request [] h = tt
All-absent id request (t ∷ ts) h = elim (Bool-cases (is_of id t)) [
  | inl own ↦ rw own ((ground arith, All-absent id request ts (ground arith)))
  | inr other ↦ rw other (All-absent id request ts (ground arith))
]

All-map_pair :
    (request : String) (turns : List Turn)
    → All (λ (t : Turn). str_eq t.request_id request ≡ false) turns
    → IsNew request (map pair_of turns)
All-map_pair request [] h = tt
All-map_pair request (t ∷ ts) h = (h.0, All-map_pair request ts h.1)

IsNew-turns_of :
    (s : Store) (id request : String)
    → All (λ (t : Turn). str_eq t.request_id request ≡ false) (own_turns s id)
    → IsNew request (map pair_of (turns_of s id))
unfolding turns_of
IsNew-turns_of s id request h =
    All-map_pair request (turns_of s id) (All-sort_by _ later_first (own_turns s id) h)

some_text : (a b : String) → some a ≡ some b → a ≡ b
some_text a b h = cc

begin_row-own :
    (i id request : String) (revision : ℕ) (s : Store) (d : Conversation)
    → i ≡ id
    → has_id id d ≡ true
    → d.revision ≡ revision
    → d.pending_request ≡ none
    → revision < 100
    → find (is_turn i request) s.turns ≡ none
    → IsSoundRow (own_turns s id) (some d)
    → IsSoundRow (own_turns s id) (some (begin_row i revision request d))
      × Does
          (begins i revision request)
          id
          (talk_of (turns_of s id) (some d))
          (talk_of (turns_of s id) (some (begin_row i revision request d)))
begin_row-own i id request revision s d same own current idle bound absent row =
    let hit : has_id i d ≡ true = subst (λ j. has_id j d ≡ true) (sym same) own in
    let begun : begin_row i revision request d ≡ record d { pending_request = some request } =
      rw (hit, eq→== d.revision revision current, idle) refl in
    let new =
      subst (λ j. All (λ (t : Turn). str_eq t.request_id request ≡ false) (own_turns s j)) same
        (All-absent i request s.turns (find-any-false (is_turn i request) s.turns absent)) in
    rw begun (
      (
        row.0,
        λ r p.
            subst (λ q. All (λ (t : Turn). str_eq t.request_id q ≡ false) (own_turns s id))
              (some_text request r p) new,
      ),
      record {
        own = λ e. record {
          log = map pair_of (turns_of s id);
          expiry = d.expires_at;
          idle = rw (current, idle) refl;
          room = bound;
          new = IsNew-turns_of s id request new;
          waits = rw current refl;
        };
        other = λ differs. absurd (let f = sym differs ∙ (eq_iff i id).1 same in cc);
      },
    )

-- A new request begins in the row of its talk.
pub begin_row-Refines :
    (i request : String) (revision : ℕ) (c : Conversation) (s : Store)
    → (IsSound s i → find (has_id i) s.threads ≡ some c)
    → c.revision ≡ revision
    → c.pending_request ≡ none
    → revision < 100
    → find (is_turn i request) s.turns ≡ none
    → Refines
        (begins i revision request ∷ [])
        s
        (record s { threads = map (begin_row i revision request) s.threads })
begin_row-Refines i request revision c s row current idle bound absent =
    update_rows-Refines (begins i revision request) (begin_row i revision request) s
      (λ id d.
        elim (Bool-cases (has_id i d && (d.revision == revision && is_none d.pending_request))) [
          | inl a ↦ rw a refl
          | inr a ↦ rw a refl
        ])
      (λ id sound none_. record {
        own = λ e. absurd (
            let f = row (subst (IsSound s) (sym e) sound) in
            let g = subst (λ j. find (has_id j) s.threads ≡ some c) e f in
            let h = sym none_ ∙ g in cc);
        other = λ e. refl;
      })
      (λ id d sound found. elim (Bool-cases (str_eq i id)) [
        | inl own ↦
            let same : i ≡ id = (eq_iff i id).0 own in
            let f = row (subst (IsSound s) (sym same) sound) in
            let e : c ≡ d =
              some_injective c d
                (sym (subst (λ j. find (has_id j) s.threads ≡ some c) same f) ∙ found) in
            begin_row-own i id request revision s d same (find-holds (has_id id) s.threads d found)
              (subst (λ x. x.revision ≡ revision) e current)
              (subst (λ x. x.pending_request ≡ none) e idle) bound absent
              (row_of s id (some d) found sound)
        | inr differs ↦
            let miss = has_id-other i id d (find-holds (has_id id) s.threads d found) differs in
            rw miss (
              row_of s id (some d) found sound,
              record {
                own = λ e. absurd (let f = sym differs ∙ (eq_iff i id).1 e in cc);
                other = λ e. refl;
              },
            )
      ])
