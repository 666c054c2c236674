-- ===== src/Core/Continuity/Talk.antt =====
-- The abstract view of saved conversations: under an id there is no talk, or one with a revision, at
-- most one pending request, a log of exchanges and a time at which it ends; and what the operations on
-- it do.
use omni_os.Prelude.{
  leb, if◌then◌else◌, keep_if, find, All, text_comparable, pair_comparable, ℕ, ◌+◌, ◌≤◌, ◌<◌,
  String, ◌≡◌, refl, subst, false, Option, none, some, List, [], ◌∷◌, ◌++◌, map, str_eq,
}
use omni_os.Core.Audit.{some_and}
use omni_os.Core.Continuity.{Conversation, Turn, Store, has_id, is_of}
use omni_os.Core.Continuity.Exchange.{turns_of}
use omni_os.Core.Continuity.Rows.{AtMostOne}

pub record Pair : Type 0 where
  pub request : String
  pub human : String
  pub model : String

-- The log has the latest exchange first.
pub record Talk : Type 0 where
  pub revision : ℕ
  pub pending : Option String
  pub log : List Pair
  pub expires_at : ℕ

abbrev pub IsNew : String → List Pair → Type 0
IsNew request log = All (λ (p : Pair). str_eq p.request request ≡ false) log

-- The operations on talks: those whose time is over end, one is opened, a new request begins at a
-- revision, the pending one is saved with its reply, a pending request is abandoned, a talk is removed.
pub data Op : Type 0 where
  expires : ℕ → Op
  opens : String → ℕ → Op
  begins : String → ℕ → String → Op
  saves : String → ℕ → Pair → Op
  abandons : String → String → Op
  removes : String → Op

abbrev pub expire : ℕ → Option Talk → Option Talk
expire now none = none
expire now (some t) = if leb t.expires_at now then none else some t

abbrev pub abandon : String → Option Talk → Option Talk
abandon request none = none
abandon request (some t) =
    if some_and (str_eq request) t.pending
    then some (record t { revision = t.revision + 1; pending = none })
    else some t

-- An operation on the talk under one id leaves the others.
pub record Own (i id : String) (a b : Option Talk) (P : Type 0) : Type 0 where
  pub own : i ≡ id → P
  pub other : str_eq i id ≡ false → b ≡ a

-- The precondition of a request that begins, and its effect.
pub record Begun (n : ℕ) (request : String) (a b : Option Talk) : Type 0 where
  pub log : List Pair
  pub expiry : ℕ
  pub idle : a ≡ some (record { revision = n; pending = none; log = log; expires_at = expiry })
  pub room : n < 100
  pub new : IsNew request log
  pub waits :
      b ≡ some (record { revision = n; pending = some request; log = log; expires_at = expiry })

-- The precondition of a reply that is saved, and its effect.
pub record Saved (n : ℕ) (p : Pair) (a b : Option Talk) : Type 0 where
  pub log : List Pair
  pub expiry : ℕ
  pub waits :
      a ≡ some (record { revision = n; pending = some p.request; log = log; expires_at = expiry })
  pub idle :
      b ≡ some (record { revision = n + 1; pending = none; log = p ∷ log; expires_at = expiry })

-- What an operation does to the talk under an id.
abbrev pub Does : Op → String → Option Talk → Option Talk → Type 0
Does (expires now) id a b = b ≡ expire now a
Does (opens i expiry) id a b = Own i id a b (
    (a ≡ none)
    × (b ≡ some (record { revision = 0; pending = none; log = []; expires_at = expiry })))
Does (begins i n request) id a b = Own i id a b (Begun n request a b)
Does (saves i n p) id a b = Own i id a b (Saved n p a b)
Does (abandons i request) id a b = Own i id a b (b ≡ abandon request a)
Does (removes i) id a b = Own i id a b (b ≡ none)

-- Operations one after the other.
abbrev pub Runs : List Op → String → Option Talk → Option Talk → Type 0
Runs [] id a b = b ≡ a
Runs (op ∷ ops) id a b = (mid : Option Talk) × Does op id a mid × Runs ops id mid b

Runs-append :
    (xs ys : List Op) (id : String) (a b c : Option Talk)
    → Runs xs id a b
    → Runs ys id b c
    → Runs (xs ++ ys) id a c
Runs-append [] ys id a b c e r = subst (λ x. Runs ys id x c) e r
Runs-append (x ∷ xs) ys id a b c (mid, d, q) r = (mid, d, Runs-append xs ys id mid b c q r)

abbrev pub pair_of : Turn → Pair
pair_of t = record { request = t.request_id; human = t.user_text; model = t.assistant_text }

abbrev pub talk_of : List Turn → Option Conversation → Option Talk
talk_of turns none = none
talk_of turns (some c) = some (record {
  revision = c.revision;
  pending = c.pending_request;
  log = map pair_of turns;
  expires_at = c.expires_at;
})

-- The talk under an id in a store.
abbrev pub view : Store → String → Option Talk
view store id = talk_of (turns_of store id) (find (has_id id) store.threads)

abbrev pub own_turns : Store → String → List Turn
own_turns store id = keep_if (is_of id) store.turns

-- No thread, no turns; otherwise the positions are within the revision, and the pending request is new.
abbrev pub IsSoundRow : List Turn → Option Conversation → Type 0
IsSoundRow turns none = turns ≡ []
IsSoundRow turns (some c) =
    All (λ (t : Turn). t.position ≤ c.revision) turns
    × ((request : String)
        → c.pending_request ≡ some request
        → All (λ (t : Turn). str_eq t.request_id request ≡ false) turns)

-- The tables are sound under an id.
pub record IsSound (store : Store) (id : String) : Type 0 where
  pub one : AtMostOne (has_id id) store.threads
  pub row : IsSoundRow (own_turns store id) (find (has_id id) store.threads)

-- One store becomes another under every id: it stays sound, and the operations run on the talk.
abbrev pub Refines : List Op → Store → Store → Type 0
Refines ops s t = (id : String) → IsSound s id → IsSound t id × Runs ops id (view s id) (view t id)

pub Refines-refl : (s : Store) → Refines [] s s
Refines-refl s id sound = (sound, refl)

pub Refines-trans :
    (xs ys : List Op) (s t u : Store) → Refines xs s t → Refines ys t u → Refines (xs ++ ys) s u
Refines-trans xs ys s t u st tu id sound =
    let (sound_t, m) = st id sound in
    let (sound_u, n) = tu id sound_t in
    (sound_u, Runs-append xs ys id (view s id) (view t id) (view u id) m n)
