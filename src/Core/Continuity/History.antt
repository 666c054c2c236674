-- ===== src/Core/Continuity/History.antt =====
-- The history that goes with a request of a saved conversation.
use omni_os.Prelude.{
  ltb, Bool-cases, leb→le, ltb→lt, length, take, keep_if, All, ok, text_comparable, pair_comparable,
  ℕ, zero, suc, ◌+◌, ◌-◌, ◌≤◌, ◌<◌, String, len, ◌≡◌, refl, sym, ap, ◌∙◌, ◌⊎◌, inl, inr, Bool, ◌&&◌,
  none, List, [], ◌∷◌, ◌++◌, arith, str_eq,
}
use omni_os.Core.Continuity.Prepared.{prepare_conversation-begun}
use omni_os.Core.Vault.{sort_by, insert_by}
use omni_os.Core.Continuity.{Turn, Store, is_of, prune_conversations}
use omni_os.Core.Continuity.Exchange.{
  Asked, PreparedConversation, fitting, messages, turns_of, history_of, prepare_conversation,
  Message, user, assistant, later_first,
}

abbrev pub size_of : Turn → ℕ
size_of t = len t.user_text + len t.assistant_text

abbrev pub total : List Turn → ℕ
total [] = 0
total (t ∷ ts) = size_of t + total ts

-- Why a selection ends: it has the greatest number, or nothing is left, or the next is over the budget.
abbrev pub Ends : ℕ → ℕ → List Turn → List Turn → Type 0
Ends n budget xs [] = Unit
Ends n budget xs (t ∷ ts) = (length xs ≡ n) ⊎ (budget < total xs + size_of t)

-- The longest first part of the turns within a number and a budget of bytes.
pub record IsLongest (n budget : ℕ) (turns xs : List Turn) : Type 0 where
  pub rest : List Turn
  pub parts : turns ≡ xs ++ rest
  pub few : length xs ≤ n
  pub small : total xs ≤ budget
  pub ends : Ends n budget xs rest

Ends-∷ :
    (n budget : ℕ) (t : Turn) (xs rest : List Turn)
    → size_of t ≤ budget
    → Ends n (budget - size_of t) xs rest
    → Ends (suc n) budget (t ∷ xs) rest
Ends-∷ n budget t xs [] fits e = tt
Ends-∷ n budget t xs (u ∷ us) fits (inl full) = inl (ap suc full)
Ends-∷ n budget t xs (u ∷ us) fits (inr over) = inr (omega (arith, over, fits))

fitting-IsLongest :
    (n budget : ℕ) (ts : List Turn) → IsLongest n budget ts (fitting budget (take n ts))
unfolding fitting
fitting-IsLongest zero budget [] = record {
  rest = [];
  parts = refl;
  few = omega arith;
  small = omega arith;
  ends = tt;
}
fitting-IsLongest zero budget (t ∷ ts) = record {
  rest = t ∷ ts;
  parts = refl;
  few = omega arith;
  small = omega arith;
  ends = inl refl;
}
fitting-IsLongest (suc n) budget [] = record {
  rest = [];
  parts = refl;
  few = omega arith;
  small = omega arith;
  ends = tt;
}
fitting-IsLongest (suc n) budget (t ∷ ts) = elim (Bool-cases (ltb budget (size_of t))) [
  | inl over ↦ rw over (record {
    rest = t ∷ ts;
    parts = refl;
    few = omega arith;
    small = omega arith;
    ends = inr (let o = ltb→lt budget (size_of t) over in omega arith);
  })
  | inr fits ↦
      let r = fitting-IsLongest n (budget - size_of t) ts in
      let f : size_of t ≤ budget = ground arith in
      rw fits (record {
        rest = r.rest;
        parts = ap (◌∷◌ t) r.parts;
        few = let b = r.few in omega arith;
        small = let b = r.small in omega (arith, f);
        ends = Ends-∷ n budget t _ r.rest f r.ends;
      })
]

-- The turns of a conversation in a table, the latest first: their positions fall, and they are the same
-- turns, as often.
abbrev pub IsFalling : List Turn → Type 0
IsFalling [] = Unit
IsFalling (t ∷ ts) = All (λ (u : Turn). u.position ≤ t.position) ts × IsFalling ts

pub record IsLatestFirst (table : List Turn) (id : String) (turns : List Turn) : Type 0 where
  pub falling : IsFalling turns
  pub same :
      (p : Turn → Bool)
      → length (keep_if p turns)
        ≡ length (keep_if (λ (t : Turn). p t && str_eq t.thread_id id) table)

All-insert_by :
    (n : ℕ) (x : Turn) (ts : List Turn)
    → x.position ≤ n
    → All (λ (u : Turn). u.position ≤ n) ts
    → All (λ (u : Turn). u.position ≤ n) (insert_by later_first x ts)
All-insert_by n x [] h ps = (h, tt)
All-insert_by n x (t ∷ ts) h ps = elim (Bool-cases (later_first x t)) [
  | inl before ↦ rw before ((h, ps))
  | inr after ↦ rw after ((ps.0, All-insert_by n x ts h ps.1))
]

All-le :
    (m n : ℕ) (ts : List Turn)
    → m ≤ n
    → All (λ (u : Turn). u.position ≤ m) ts
    → All (λ (u : Turn). u.position ≤ n) ts
All-le m n [] h ps = tt
All-le m n (t ∷ ts) h ps = (let p = ps.0 in omega (arith, h, p), All-le m n ts h ps.1)

insert_by-IsFalling :
    (x : Turn) (ts : List Turn) → IsFalling ts → IsFalling (insert_by later_first x ts)
insert_by-IsFalling x [] f = (tt, tt)
insert_by-IsFalling x (t ∷ ts) f = elim (Bool-cases (later_first x t)) [
  | inl before ↦
      let le = leb→le t.position x.position before in
      rw before (((le, All-le t.position x.position ts le f.0), f))
  | inr after ↦
      let le : x.position ≤ t.position = ground arith in
      rw after ((All-insert_by t.position x ts le f.0, insert_by-IsFalling x ts f.1))
]

sort_by-IsFalling : (ts : List Turn) → IsFalling (sort_by later_first ts)
sort_by-IsFalling [] = tt
sort_by-IsFalling (t ∷ ts) = insert_by-IsFalling t (sort_by later_first ts) (sort_by-IsFalling ts)

length-keep_if-insert_by :
    (p : Turn → Bool) (x : Turn) (ts : List Turn)
    → length (keep_if p (insert_by later_first x ts)) ≡ length (keep_if p (x ∷ ts))
length-keep_if-insert_by p x [] = refl
length-keep_if-insert_by p x (t ∷ ts) = let ih = length-keep_if-insert_by p x ts in ground arith

length-keep_if-sort_by :
    (p : Turn → Bool) (ts : List Turn)
    → length (keep_if p (sort_by later_first ts)) ≡ length (keep_if p ts)
length-keep_if-sort_by p [] = refl
length-keep_if-sort_by p (t ∷ ts) =
    let first = length-keep_if-insert_by p t (sort_by later_first ts) in
    let ih = length-keep_if-sort_by p ts in first ∙ ground arith

keep_if-keep_if :
    (p q : Turn → Bool) (ts : List Turn) → keep_if p (keep_if q ts) ≡ keep_if (λ t. p t && q t) ts
keep_if-keep_if p q [] = refl
keep_if-keep_if p q (t ∷ ts) = let ih = keep_if-keep_if p q ts in ground arith

turns_of-IsLatestFirst : (s : Store) (id : String) → IsLatestFirst s.turns id (turns_of s id)
unfolding turns_of
turns_of-IsLatestFirst s id = record {
  falling = sort_by-IsFalling (keep_if (is_of id) s.turns);
  same = λ p.
      length-keep_if-sort_by p (keep_if (is_of id) s.turns)
      ∙ ap length (keep_if-keep_if p (is_of id) s.turns);
}

-- Turns as they were spoken, in their order: what the user said, then the answer.
abbrev pub spoken : List Turn → List Message
spoken [] = []
spoken (t ∷ ts) =
    record { role = user; content = t.user_text }
    ∷ record { role = assistant; content = t.assistant_text }
    ∷ spoken ts

abbrev pub reversed : List Turn → List Turn
reversed [] = []
reversed (t ∷ ts) = reversed ts ++ (t ∷ [])

spoken-append : (xs ys : List Turn) → spoken (xs ++ ys) ≡ spoken xs ++ spoken ys
spoken-append [] ys = refl
spoken-append (x ∷ xs) ys = let ih = spoken-append xs ys in rw ih refl

messages-spoken : (ts : List Turn) → messages ts ≡ spoken (reversed ts)
unfolding messages
messages-spoken [] = refl
messages-spoken (t ∷ ts) =
    ap (λ l. l ++ spoken (t ∷ [])) (messages-spoken ts) ∙ sym (spoken-append (reversed ts) (t ∷ []))

-- A prepared request that is not a replay carries the exchanges of its conversation in the store
-- without what has expired, each as what the user said and then the answer, from the earliest to the
-- latest position, without a gap up to the latest one: at most 10 of them and 40000 bytes, and the
-- most that these limits allow.
pub prepare_conversation-history :
    (hash to_lowercase : String → String) (is_uuid : String → Bool) (s t : Store) (before now : ℕ)
    (request : Asked) (p : PreparedConversation)
    → prepare_conversation hash to_lowercase is_uuid s before now request ≡ (t, ok p)
    → p.replay ≡ none
    → (turns : List Turn) × (xs : List Turn) × IsLatestFirst
        (prune_conversations s before).turns
        request.id
        turns
      × IsLongest 10 40000 turns xs
      × (p.history ≡ spoken (reversed xs))
unfolding history_of
prepare_conversation-history hash to_lowercase is_uuid s t before now request p h empty =
    let (_, e, _) =
      prepare_conversation-begun hash to_lowercase is_uuid s t before now request p h empty in
    let pruned = prune_conversations s before in
    let turns = turns_of pruned request.id in
    let xs = fitting 40000 (take 10 turns) in
    (
      turns,
      xs,
      turns_of-IsLatestFirst pruned request.id,
      fitting-IsLongest 10 40000 turns,
      ap (λ q. q.history) e ∙ messages-spoken xs,
    )
