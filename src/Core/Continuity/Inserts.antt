-- ===== src/Core/Continuity/Inserts.antt =====
-- What the statements of crates/omni-core/src/continuity.rs that insert rows do to a talk.

-- A thread with a new id.
use omni_os.Core.Continuity.Talk.{IsSound, opens, saves, own_turns, Refines, pair_of}
use omni_os.Prelude.{
  leb, Bool-cases, le→leb, any, find, All, text_comparable, pair_comparable, ℕ, ◌+◌, ◌≤◌, String,
  ◌≡◌, refl, sym, ap, ◌∙◌, subst, inl, inr, true, false, Option, none, some, option_map, List, [],
  ◌∷◌, map, arith, str_eq, eq_iff,
}
use omni_os.Core.Vault.{insert_by}
use omni_os.Core.Vault.Selected.{All-sort_by}
use omni_os.Core.Continuity.{Conversation, Turn, Store, has_id, is_of}
use omni_os.Core.Continuity.Exchange.{turns_of, later_first, saved_row}
use omni_os.Core.Continuity.Rows.{find-map, AtMostOne-map, any-false-find, find-holds}
use omni_os.Core.Continuity.Tables.{view-of, IsSound-of, row_of, one_op, same_talk}
use omni_os.Core.Continuity.Updates.{IsSoundRow-suc}

pub insert_thread-Refines :
    (c : Conversation) (s : Store)
    → any (has_id c.id) s.threads ≡ false
    → c.revision ≡ 0
    → c.pending_request ≡ none
    → Refines (opens c.id c.expires_at ∷ []) s (record s { threads = c ∷ s.threads })
unfolding turns_of
insert_thread-Refines c s new zero_ empty id sound = elim (Bool-cases (has_id id c)) [
  | inl hit ↦
      let after : Store = record s { threads = c ∷ s.threads } in
      let absent : any (has_id id) s.threads ≡ false =
        subst (λ i. any (has_id i) s.threads ≡ false) ((eq_iff c.id id).0 hit) new in
      let row = any-false-find (has_id id) s.threads absent in
      let none_ : own_turns s id ≡ [] = row_of s id none row sound in
      let row_after : find (has_id id) (c ∷ s.threads) ≡ some c = rw hit refl in
      (
        IsSound-of after id [] (some c) (λ h. absent, sound.one) row_after none_
            (tt, λ r p. absurd (let e = sym empty ∙ p in cc)),
        one_op (opens c.id c.expires_at) id _ _ (record {
          own = λ e. (
            view-of s id [] none row none_,
            view-of after id [] (some c) row_after none_ ∙ rw (zero_, empty) refl,
          );
          other = λ differs. absurd (let e = sym differs ∙ hit in cc);
        }),
      )
  | inr miss ↦
      let (fine, e) =
        same_talk s (record s { threads = c ∷ s.threads }) id sound
          ((λ hit. absurd (let e = sym miss ∙ hit in cc)), sound.one) (rw miss refl) refl in
      (
        fine,
        one_op (opens c.id c.expires_at) id _ _ (record {
          own = λ same. absurd (let f = sym miss ∙ (eq_iff c.id id).1 same in cc);
          other = λ differs. e;
        }),
      )
]

-- A turn after all others stands first.
insert_by-first :
    (x : Turn) (n : ℕ) (ts : List Turn)
    → x.position ≡ n + 1
    → All (λ (t : Turn). t.position ≤ n) ts
    → insert_by later_first x ts ≡ x ∷ ts
insert_by-first x n [] e ps = refl
insert_by-first x n (t ∷ ts) e ps =
    let b : leb t.position x.position ≡ true =
      le→leb t.position x.position (let p = ps.0 in omega arith) in
    rw b refl

saved_row-other :
    (id other : String) (found : Option Conversation)
    → str_eq id other ≡ false
    → ((c : Conversation) → found ≡ some c → has_id other c ≡ true)
    → option_map (saved_row id) found ≡ found
saved_row-other id other none differs holds = refl
saved_row-other id other (some c) differs holds =
    let e : c.id ≡ other = (eq_iff c.id other).0 (holds c refl) in
    let d : str_eq c.id id ≡ false = elim (Bool-cases (str_eq c.id id)) [
      | inl same ↦ absurd (
          let f = (eq_iff id other).1 (sym ((eq_iff c.id id).0 same) ∙ e) in
          let g = sym differs ∙ f in cc)
      | inr apart ↦ apart
    ] in
    rw d refl

-- The pending request is saved with its turn.
pub save-Refines :
    (new : Turn) (c : Conversation) (s : Store)
    → (IsSound s new.thread_id → find (has_id new.thread_id) s.threads ≡ some c)
    → c.pending_request ≡ some new.request_id
    → new.position ≡ c.revision + 1
    → Refines
        (saves new.thread_id c.revision (pair_of new) ∷ [])
        s
        (record s { threads = map (saved_row new.thread_id) s.threads; turns = new ∷ s.turns })
unfolding turns_of
save-Refines new c s found pending_ position id sound =
    let after : Store = record s {
      threads = map (saved_row new.thread_id) s.threads;
      turns = new ∷ s.turns;
    } in
    let key : (d : Conversation) → has_id id (saved_row new.thread_id d) ≡ has_id id d =
      λ d. elim (Bool-cases (has_id new.thread_id d)) [ inl a ↦ rw a refl | inr a ↦ rw a refl ] in
    let one = AtMostOne-map (has_id id) (saved_row new.thread_id) s.threads key sound.one in
    let row = find-map (has_id id) (saved_row new.thread_id) s.threads key in
    elim (Bool-cases (is_of id new)) [
      | inl own ↦
          let same : new.thread_id ≡ id = (eq_iff new.thread_id id).0 own in
          let found_s : find (has_id new.thread_id) s.threads ≡ some c =
            found (subst (IsSound s) (sym same) sound) in
          let row_s : find (has_id id) s.threads ≡ some c =
            subst (λ i. find (has_id i) s.threads ≡ some c) same found_s in
          let next : Conversation = record c {
            pending_request = none;
            revision = c.revision + 1;
          } in
          let row_after : find (has_id id) after.threads ≡ some next =
            row
            ∙ ap (option_map (saved_row new.thread_id)) row_s
            ∙ rw (find-holds (has_id new.thread_id) s.threads c found_s) refl in
          let own_after : own_turns after id ≡ new ∷ own_turns s id = rw own refl in
          let before = row_of s id (some c) row_s sound in
          (
            IsSound-of after id (new ∷ own_turns s id) (some next) one row_after own_after (
              (omega (arith, position), IsSoundRow-suc _ c.revision before.0),
              λ r p. absurd (cc),
            ),
            one_op (saves new.thread_id c.revision (pair_of new)) id _ _ (record {
              own = λ e. record {
                log = map pair_of (turns_of s id);
                expiry = c.expires_at;
                waits = view-of s id _ (some c) row_s refl ∙ rw pending_ refl;
                idle =
                    view-of after id _ (some next) row_after own_after
                    ∙ rw
                        (insert_by-first new c.revision (turns_of s id) position
                          (All-sort_by _ later_first (own_turns s id) before.0))
                        refl;
              };
              other = λ differs. absurd (let e = sym differs ∙ own in cc);
            }),
          )
      | inr other ↦
          let (fine, e) =
            same_talk s after id sound one
              (row
                ∙ saved_row-other new.thread_id id (find (has_id id) s.threads) other
                    (find-holds (has_id id) s.threads))
              (rw other refl) in
          (
            fine,
            one_op (saves new.thread_id c.revision (pair_of new)) id _ _ (record {
              own = λ same. absurd (let f = sym other ∙ (eq_iff new.thread_id id).1 same in cc);
              other = λ differs. e;
            }),
          )
    ]
