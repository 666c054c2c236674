-- ===== src/Core/Continuity/Tables.antt =====
-- What each statement on the tables of continuity does to a talk.
use omni_os.Prelude.{
  leb, if◌then◌else◌, Bool-cases, Option-cases, any, keep_if, find, text_comparable,
  pair_comparable, ℕ, String, ◌≡◌, refl, sym, ap, ◌∙◌, subst, inl, inr, Bool, true, false, not,
  ◌&&◌, Option, none, some, List, [], ◌∷◌, arith, str_eq, eq_iff,
}
use omni_os.Core.Vault.{sort_by}
use omni_os.Core.Continuity.{
  Conversation, Turn, Store, has_id, is_of, goes_with, without_threads, is_expired,
}
use omni_os.Core.Continuity.Exchange.{turns_of, later_first}
use omni_os.Core.Continuity.Rows.{
  AtMostOne, AtMostOne-keep_if, find-keep_if-none, find-keep_if-kept, find-keep_if-gone,
  any-selected, find-holds,
}
use omni_os.Core.Continuity.Talk.{
  Talk, Op, expires, removes, expire, Does, Runs, talk_of, view, own_turns, IsSoundRow, IsSound,
  Refines,
}

-- The turns of a thread that goes, and of one that stays.
keep_if-gone :
    (id : String) (gone : Turn → Bool) (turns : List Turn)
    → ((t : Turn) → is_of id t ≡ true → gone t ≡ true)
    → keep_if (is_of id) (keep_if (λ t. not (gone t)) turns) ≡ []
keep_if-gone id gone [] h = refl
keep_if-gone id gone (t ∷ ts) h = let g = h t in let ih = keep_if-gone id gone ts h in ground arith

keep_if-kept :
    (id : String) (gone : Turn → Bool) (turns : List Turn)
    → ((t : Turn) → is_of id t ≡ true → gone t ≡ false)
    → keep_if (is_of id) (keep_if (λ t. not (gone t)) turns) ≡ keep_if (is_of id) turns
keep_if-kept id gone [] h = refl
keep_if-kept id gone (t ∷ ts) h = let g = h t in let ih = keep_if-kept id gone ts h in ground arith

keep_if-none :
    (id : String) (gone : Turn → Bool) (turns : List Turn)
    → keep_if (is_of id) turns ≡ []
    → keep_if (is_of id) (keep_if (λ t. not (gone t)) turns) ≡ []
keep_if-none id gone [] h = refl
keep_if-none id gone (t ∷ ts) h = let ih = keep_if-none id gone ts in ground arith

pub goes_with-selected :
    (gone : Conversation → Bool) (id : String) (threads : List Conversation) (c : Conversation)
    (t : Turn)
    → AtMostOne (has_id id) threads
    → find (has_id id) threads ≡ some c
    → is_of id t ≡ true
    → goes_with gone threads t ≡ gone c
goes_with-selected gone id threads c t one f own =
    subst (λ i. any (λ (c : Conversation). gone c && str_eq c.id i) threads ≡ gone c)
      (sym ((eq_iff t.thread_id id).0 own)) (any-selected (has_id id) gone threads c one f)

-- The view of a store by its row and its turns.
pub view-of :
    (s : Store) (id : String) (turns : List Turn) (row : Option Conversation)
    → find (has_id id) s.threads ≡ row
    → own_turns s id ≡ turns
    → view s id ≡ talk_of (sort_by later_first turns) row
unfolding turns_of
view-of s id turns row r o = rw (r, o) refl

pub IsSound-of :
    (s : Store) (id : String) (turns : List Turn) (row : Option Conversation)
    → AtMostOne (has_id id) s.threads
    → find (has_id id) s.threads ≡ row
    → own_turns s id ≡ turns
    → IsSoundRow turns row
    → IsSound s id
IsSound-of s id turns row one r o sound = record {
  one = one;
  row = subst (IsSoundRow _) (sym r) (subst (λ ts. IsSoundRow ts row) (sym o) sound);
}

pub row_of :
    (s : Store) (id : String) (row : Option Conversation)
    → find (has_id id) s.threads ≡ row
    → IsSound s id
    → IsSoundRow (own_turns s id) row
row_of s id row r sound = subst (IsSoundRow _) r sound.row

pub one_op : (op : Op) (id : String) (a b : Option Talk) → Does op id a b → Runs (op ∷ []) id a b
one_op op id a b d = (b, d, refl)

-- A talk whose row and turns are as before is as before.
pub same_talk :
    (s t : Store) (id : String)
    → IsSound s id
    → AtMostOne (has_id id) t.threads
    → find (has_id id) t.threads ≡ find (has_id id) s.threads
    → own_turns t id ≡ own_turns s id
    → IsSound t id × (view t id ≡ view s id)
same_talk s t id sound one row turns = (
  IsSound-of t id (own_turns s id) (find (has_id id) s.threads) one row turns sound.row,
  view-of t id _ _ row turns ∙ sym (view-of s id _ _ refl refl),
)

-- The talks are in these two tables.
pub Refines-tables : (s t : Store) → t.threads ≡ s.threads → t.turns ≡ s.turns → Refines [] s t
Refines-tables s t ths ts id sound =
    same_talk s t id sound (subst (AtMostOne (has_id id)) (sym ths) sound.one)
      (ap (find (has_id id)) ths) (ap (keep_if (is_of id)) ts)

-- A talk without a row is gone.
talk_gone :
    (t : Store) (id : String)
    → AtMostOne (has_id id) t.threads
    → find (has_id id) t.threads ≡ none
    → own_turns t id ≡ []
    → IsSound t id × (view t id ≡ none)
talk_gone t id one row turns =
    (IsSound-of t id [] none one row turns refl, view-of t id [] none row turns)

-- A thread that stays, stays with its turns.
pub without_threads-kept :
    (gone : Conversation → Bool) (s : Store) (id : String) (c : Conversation)
    → IsSound s id
    → find (has_id id) s.threads ≡ some c
    → gone c ≡ false
    → (find (has_id id) (without_threads gone s).threads ≡ some c)
      × (own_turns (without_threads gone s) id ≡ own_turns s id)
without_threads-kept gone s id c sound found stays = (
  find-keep_if-kept (has_id id) (λ d. not (gone d)) s.threads c found (ap not stays),
  keep_if-kept id _ s.turns
      (λ t own. goes_with-selected gone id s.threads c t sound.one found own ∙ stays),
)

-- The row of a thread that stays.
abbrev kept_row : (Conversation → Bool) → Option Conversation → Option Conversation
kept_row gone none = none
kept_row gone (some c) = if gone c then none else some c

-- Deleting threads, with their turns.
without_threads-talk :
    (gone : Conversation → Bool) (s : Store) (id : String)
    → IsSound s id
    → IsSound (without_threads gone s) id
      × (view (without_threads gone s) id
          ≡ talk_of (turns_of s id) (kept_row gone (find (has_id id) s.threads)))
unfolding turns_of
without_threads-talk gone s id sound =
    let after = without_threads gone s in
    let kept : Conversation → Bool = λ c. not (gone c) in
    let one = AtMostOne-keep_if (has_id id) kept s.threads sound.one in
    elim (Option-cases (find (has_id id) s.threads)) [
      | inl absent ↦ rw absent (
          talk_gone after id one (find-keep_if-none (has_id id) kept s.threads absent)
            (keep_if-none id _ s.turns (row_of s id none absent sound)))
      | inr (c, found) ↦
          let selected = λ (t : Turn) (own : is_of id t ≡ true).
            goes_with-selected gone id s.threads c t sound.one found own in
          elim (Bool-cases (gone c)) [
            | inl out ↦
                rw (found, out)
                  (talk_gone after id one
                    (find-keep_if-gone (has_id id) kept s.threads c sound.one found (ap not out))
                    (keep_if-gone id _ s.turns (λ t own. selected t own ∙ out)))
            | inr stays ↦
                let (row, own) = without_threads-kept gone s id c sound found stays in
                let (fine, e) = same_talk s after id sound one (row ∙ sym found) own in
                rw (found, stays) ((fine, e ∙ view-of s id (own_turns s id) (some c) found refl))
          ]
    ]

expire-talk :
    (turns : List Turn) (now : ℕ) (row : Option Conversation)
    → talk_of turns (kept_row (is_expired now) row) ≡ expire now (talk_of turns row)
expire-talk turns now none = refl
expire-talk turns now (some c) = elim (Bool-cases (leb c.expires_at now)) [
  | inl out ↦ rw out refl
  | inr stays ↦ rw stays refl
]

pub expires-Refines :
    (now : ℕ) (s : Store) → Refines (expires now ∷ []) s (without_threads (is_expired now) s)
expires-Refines now s id sound =
    let (fine, e) = without_threads-talk (is_expired now) s id sound in
    (fine, one_op (expires now) id _ _ (e ∙ expire-talk (turns_of s id) now _))

-- A row under one id is not under another.
pub has_id-other :
    (id other : String) (c : Conversation)
    → has_id other c ≡ true
    → str_eq id other ≡ false
    → has_id id c ≡ false
has_id-other id other c own differs = elim (Bool-cases (str_eq c.id id)) [
  | inl same ↦ absurd (
      let f = (eq_iff id other).1 (sym ((eq_iff c.id id).0 same) ∙ (eq_iff c.id other).0 own) in
      let g = sym differs ∙ f in cc)
  | inr apart ↦ apart
]

removed_row :
    (i id : String) (turns : List Turn) (row : Option Conversation)
    → ((c : Conversation) → row ≡ some c → has_id id c ≡ true)
    → Does (removes i) id (talk_of turns row) (talk_of turns (kept_row (has_id i) row))
removed_row i id turns none holds = record { own = λ e. refl; other = λ e. refl }
removed_row i id turns (some c) holds =
    let own = holds c refl in
    record {
      own = λ e.
          let hit : has_id i c ≡ true = subst (λ j. has_id j c ≡ true) (sym e) own in rw hit refl;
      other = λ differs. rw (has_id-other i id c own differs) refl;
    }

pub removes-Refines :
    (i : String) (s : Store) → Refines (removes i ∷ []) s (without_threads (has_id i) s)
unfolding turns_of
removes-Refines i s id sound =
    let (fine, e) = without_threads-talk (has_id i) s id sound in
    let d = removed_row i id (turns_of s id) _ (find-holds (has_id id) s.threads) in
    (fine, one_op (removes i) id _ _ (subst (Does (removes i) id (view s id)) (sym e) d))
