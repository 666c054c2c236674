-- ===== src/Core/Journal/Recovered.antt =====
-- What a restart does to interactions that were cut off.

-- No status is both open and final.
use omni_os.Core.Journal.Sound.{HasOwnIds, IsFine}
use omni_os.Core.Audit.{AuditRecord, metric}
use omni_os.Prelude.{
  if◌then◌else◌, Bool-cases, le→leb, lt→ltb, length, any, keep_if, find, All, ok, text_comparable,
  pair_comparable, beq_refl, one_of, ℕ, ◌+◌, ◌^◌, String, ◌≡◌, refl, sym, ap, ◌∙◌, subst, ◌≢◌, inl,
  inr, Bool, true, false, Option, some, List, [], ◌∷◌, ◌++◌, map, arith, str_eq, eq_iff,
}
use omni_os.Core.Journal.{
  count, add_count, recover_all, Floats, InteractionRecord, Journal, terminal, has_id,
  journal_finish, finished_record, replace, is_open, restarted,
}

both_kinds : (s : String) → one_of ("pending" ∷ "streaming" ∷ []) s ≡ true → terminal s ≢ true
both_kinds s going final = elim (Bool-cases (str_eq s "pending")) [
  | inl p ↦
      let e : s ≡ "pending" = (eq_iff s "pending").0 p in
      let z : terminal "pending" ≡ true = subst (λ x. terminal x ≡ true) e final in cc
  | inr not_p ↦
      let q : str_eq s "streaming" ≡ true = ground arith in
      let e : s ≡ "streaming" = (eq_iff s "streaming").0 q in
      let z : terminal "streaming" ≡ true = subst (λ x. terminal x ≡ true) e final in cc
]

apart_swap : (a b : String) → str_eq a b ≡ false → str_eq b a ≡ false
apart_swap a b h = elim (Bool-cases (str_eq b a)) [
  | inl same ↦ absurd (let e = sym h ∙ (eq_iff a b).1 (sym ((eq_iff b a).0 same)) in cc)
  | inr other ↦ other
]

module _ (F : Type 0) (f : Floats F) (parse_time : String → Option ℕ)
    (normalize_base : String → Option String) where
  -- A record after a restart at a time: an open one is aborted, with what is known of it.
  abbrev pub settled : ℕ → InteractionRecord F → InteractionRecord F
  settled now r =
      if is_open F f parse_time normalize_base r
      then finished_record F f parse_time normalize_base r
          (restarted F f parse_time normalize_base r) (some now)
      else r

  settled-terminal :
      (now : ℕ) (r : InteractionRecord F) → IsFine F r → terminal (settled now r).status ≡ true
  settled-terminal now r fine = elim (Bool-cases (is_open F f parse_time normalize_base r)) [
    | inl going ↦ rw going refl
    | inr final ↦ let k = fine.known in rw final (ground arith)
  ]

  pub terminal-settled :
      (now : ℕ) (r : InteractionRecord F) → terminal r.status ≡ true → settled now r ≡ r
  terminal-settled now r final = elim (Bool-cases (is_open F f parse_time normalize_base r)) [
    | inl going ↦ absurd (both_kinds r.status going final)
    | inr done ↦ rw done refl
  ]

  pub All-settled :
      (now : ℕ) (rs : List (InteractionRecord F))
      → All (IsFine F) rs
      → All (λ (r : InteractionRecord F). terminal r.status ≡ true) (map (settled now) rs)
  All-settled now [] ps = tt
  All-settled now (r ∷ rs) ps = (settled-terminal now r ps.0, All-settled now rs ps.1)

  open-terminal :
      (r : InteractionRecord F)
      → is_open F f parse_time normalize_base r ≡ true
      → terminal r.status ≡ false
  open-terminal r going = elim (Bool-cases (terminal r.status)) [
    | inl final ↦ absurd (both_kinds r.status going final)
    | inr not_final ↦ not_final
  ]

  -- An open record that is found is finished.
  journal_finish-restarted :
      (journal : Journal F) (r : InteractionRecord F) (now : ℕ)
      → find (has_id F r.id) journal.interactions ≡ some r
      → is_open F f parse_time normalize_base r ≡ true
      → IsFine F r
      → journal_finish F f parse_time normalize_base journal r.id
          (restarted F f parse_time normalize_base r)
          now
        ≡ ok (
          true,
          record journal {
            interactions =
                map
                  (replace F f parse_time normalize_base r.id (
                    finished_record F f parse_time normalize_base r
                      (restarted F f parse_time normalize_base r)
                      (some now)))
                  journal.interactions;
          },
        )
  unfolding journal_finish metric
  journal_finish-restarted journal r now found going fine =
      rw
        (
          lt→ltb r.response_bytes (2 ^ 63) fine.bytes,
          found,
          open-terminal r going,
          le→leb r.response_bytes r.response_bytes (omega arith),
          fine.latency,
        )
        refl

  -- Rows before the record that a loop is at.
  append_∷ :
      (pre : List (InteractionRecord F)) (r : InteractionRecord F) (rs : List (InteractionRecord F))
      → (pre ++ (r ∷ [])) ++ rs ≡ pre ++ (r ∷ rs)
  append_∷ [] r rs = refl
  append_∷ (p ∷ pre) r rs = ap (◌∷◌ p) (append_∷ pre r rs)

  any-append_last :
      (id : String) (pre : List (InteractionRecord F)) (r : InteractionRecord F)
      → any (has_id F id) pre ≡ false
      → str_eq r.id id ≡ false
      → any (has_id F id) (pre ++ (r ∷ [])) ≡ false
  any-append_last id [] r h apart = rw apart refl
  any-append_last id (p ∷ pre) r h apart = let ih = any-append_last id pre r in ground arith

  find-append :
      (pre : List (InteractionRecord F)) (r : InteractionRecord F) (rs : List (InteractionRecord F))
      → any (has_id F r.id) pre ≡ false
      → find (has_id F r.id) (pre ++ (r ∷ rs)) ≡ some r
  find-append [] r rs h = rw (beq_refl r.id) refl
  find-append (p ∷ pre) r rs h = elim (Bool-cases (str_eq p.id r.id)) [
    | inl hit ↦ absurd (let e : true ≡ false = rw hit at h in cc)
    | inr miss ↦ rw miss (find-append pre r rs (rw miss at h))
  ]

  map-replace_apart :
      (id : String) (made : InteractionRecord F) (rs : List (InteractionRecord F))
      → any (has_id F id) rs ≡ false
      → map (replace F f parse_time normalize_base id made) rs ≡ rs
  map-replace_apart id made [] h = refl
  map-replace_apart id made (r ∷ rs) h = elim (Bool-cases (str_eq r.id id)) [
    | inl hit ↦ absurd (let e : true ≡ false = rw hit at h in cc)
    | inr miss ↦ rw miss (ap (◌∷◌ r) (map-replace_apart id made rs (rw miss at h)))
  ]

  map-replace :
      (made : InteractionRecord F) (pre : List (InteractionRecord F)) (r : InteractionRecord F)
      (rs : List (InteractionRecord F))
      → any (has_id F r.id) pre ≡ false
      → any (has_id F r.id) rs ≡ false
      → map (replace F f parse_time normalize_base r.id made) (pre ++ (r ∷ rs)) ≡ pre ++ (made ∷ rs)
  map-replace made [] r rs h k =
      rw (beq_refl r.id) (ap (◌∷◌ made) (map-replace_apart r.id made rs k))
  map-replace made (p ∷ pre) r rs h k = elim (Bool-cases (str_eq p.id r.id)) [
    | inl hit ↦ absurd (let e : true ≡ false = rw hit at h in cc)
    | inr miss ↦ rw miss (ap (◌∷◌ p) (map-replace made pre r rs (rw miss at h) k))
  ]

  abbrev pub AreApart : List (InteractionRecord F) → List (InteractionRecord F) → Type 0
  AreApart pre rs = All (λ (r : InteractionRecord F). any (has_id F r.id) pre ≡ false) rs

  AreApart-last :
      (pre : List (InteractionRecord F)) (r : InteractionRecord F) (rs : List (InteractionRecord F))
      → any (has_id F r.id) rs ≡ false
      → AreApart pre rs
      → AreApart (pre ++ (r ∷ [])) rs
  AreApart-last pre r [] h a = tt
  AreApart-last pre r (q ∷ rs) h a = elim (Bool-cases (str_eq q.id r.id)) [
    | inl hit ↦ absurd (let e : true ≡ false = rw hit at h in cc)
    | inr miss ↦ (
      any-append_last q.id pre r a.0 (apart_swap q.id r.id miss),
      AreApart-last pre r rs (rw miss at h) a.1,
    )
  ]

  abbrev open_rows : List (InteractionRecord F) → List (InteractionRecord F)
  open_rows rs = keep_if (is_open F f parse_time normalize_base) rs

  abbrev with_rows : List AuditRecord → List (InteractionRecord F) → Journal F
  with_rows audit rs = record { interactions = rs; audit = audit }

  pub recover_all-∷ :
      (journal next_ : Journal F) (r : InteractionRecord F) (rs : List (InteractionRecord F))
      (now : ℕ) (b : Bool)
      → journal_finish F f parse_time normalize_base journal r.id
          (restarted F f parse_time normalize_base r)
          now
        ≡ ok (b, next_)
      → recover_all F f parse_time normalize_base (r ∷ rs) journal now
        ≡ add_count F f parse_time normalize_base
            (count F f parse_time normalize_base b)
            (recover_all F f parse_time normalize_base rs next_ now)
  unfolding recover_all
  recover_all-∷ journal next_ r rs now b h = rw (h, recover_all) refl

  recover_all-moved :
      (audit : List AuditRecord) (pre rs : List (InteractionRecord F)) (q : InteractionRecord F)
      (now n : ℕ)
      → recover_all F f parse_time normalize_base
          (open_rows rs)
          (with_rows audit ((pre ++ (q ∷ [])) ++ rs))
          now
        ≡ (with_rows audit ((pre ++ (q ∷ [])) ++ map (settled now) rs), ok n)
      → recover_all F f parse_time normalize_base
          (open_rows rs)
          (with_rows audit (pre ++ (q ∷ rs)))
          now
        ≡ (with_rows audit (pre ++ (q ∷ map (settled now) rs)), ok n)
  recover_all-moved audit pre rs q now n h =
      ap (λ l. recover_all F f parse_time normalize_base (open_rows rs) (with_rows audit l) now)
        (sym (append_∷ pre q rs))
      ∙ h
      ∙ ap (λ l. (with_rows audit l, ok n)) (append_∷ pre q (map (settled now) rs))

  recover_all-going :
      (audit : List AuditRecord) (pre rs : List (InteractionRecord F)) (r : InteractionRecord F)
      (now n : ℕ)
      → is_open F f parse_time normalize_base r ≡ true
      → IsFine F r
      → any (has_id F r.id) pre ≡ false
      → any (has_id F r.id) rs ≡ false
      → recover_all F f parse_time normalize_base
          (open_rows rs)
          (with_rows audit (pre ++ (settled now r ∷ rs)))
          now
        ≡ (with_rows audit (pre ++ (settled now r ∷ map (settled now) rs)), ok n)
      → recover_all F f parse_time normalize_base
          (r ∷ open_rows rs)
          (with_rows audit (pre ++ (r ∷ rs)))
          now
        ≡ (with_rows audit (pre ++ (settled now r ∷ map (settled now) rs)), ok (1 + n))
  recover_all-going audit pre rs r now n going fine before after h =
      let journal = with_rows audit (pre ++ (r ∷ rs)) in
      let made =
        finished_record F f parse_time normalize_base r (restarted F f parse_time normalize_base r)
          (some now) in
      let s : settled now r ≡ made = rw going refl in
      let done = journal_finish-restarted journal r now (find-append pre r rs before) going fine in
      let rows : map (replace F f parse_time normalize_base r.id made) (pre ++ (r ∷ rs))
          ≡ pre ++ (settled now r ∷ rs) =
        map-replace made pre r rs before after ∙ ap (λ x. pre ++ (x ∷ rs)) (sym s) in
      recover_all-∷ journal
        (with_rows audit (map (replace F f parse_time normalize_base r.id made) (pre ++ (r ∷ rs))))
        r (open_rows rs) now true done
      ∙ ap
          (λ l.
            add_count F f parse_time normalize_base 1
              (recover_all F f parse_time normalize_base (open_rows rs) (with_rows audit l) now))
          rows
      ∙ ap (add_count F f parse_time normalize_base 1) h

  open_rows-going :
      (r : InteractionRecord F) (rs : List (InteractionRecord F))
      → is_open F f parse_time normalize_base r ≡ true
      → open_rows (r ∷ rs) ≡ r ∷ open_rows rs
  open_rows-going r rs going = rw going refl

  settled-id : (now : ℕ) (r : InteractionRecord F) → (settled now r).id ≡ r.id
  settled-id now r = elim (Bool-cases (is_open F f parse_time normalize_base r)) [
    | inl going ↦ rw going refl
    | inr final ↦ rw final refl
  ]

  -- The loop settles the records from where it is.
  pub recover_all-settled :
      (audit : List AuditRecord) (pre rs : List (InteractionRecord F)) (now : ℕ)
      → HasOwnIds F rs
      → All (IsFine F) rs
      → AreApart pre rs
      → recover_all F f parse_time normalize_base
          (keep_if (is_open F f parse_time normalize_base) rs)
          (record { interactions = pre ++ rs; audit = audit })
          now
        ≡ (
          record { interactions = pre ++ map (settled now) rs; audit = audit },
          ok (length (keep_if (is_open F f parse_time normalize_base) rs)),
        )
  unfolding recover_all
  recover_all-settled audit pre [] now own fine apart = refl
  recover_all-settled audit pre (r ∷ rs) now own fine apart =
      let q = settled now r in
      let named : q.id ≡ r.id = settled-id now r in
      let free : any (has_id F q.id) rs ≡ false =
        subst (λ i. any (has_id F i) rs ≡ false) (sym named) own.0 in
      let step = recover_all-moved audit pre rs q now (length (open_rows rs)) (
        recover_all-settled audit (pre ++ (q ∷ [])) rs now own.1 fine.1
          (AreApart-last pre q rs free apart.1)) in
      elim (Bool-cases (is_open F f parse_time normalize_base r)) [
        | inl going ↦
            ap
              (λ l.
                recover_all F f parse_time normalize_base l (with_rows audit (pre ++ (r ∷ rs))) now)
              (open_rows-going r rs going)
            ∙ recover_all-going audit pre rs r now (length (open_rows rs)) going fine.0 apart.0
                own.0 step
            ∙ ap (λ n. (with_rows audit (pre ++ (q ∷ map (settled now) rs)), ok n))
                (let e : 1 + length (open_rows rs) ≡ length (r ∷ open_rows rs) = omega arith in
                  e ∙ ap length (sym (open_rows-going r rs going)))
        | inr final ↦
            let same : q ≡ r = rw final refl in
            let rest : open_rows (r ∷ rs) ≡ open_rows rs = rw final refl in
            ap
              (λ l.
                recover_all F f parse_time normalize_base l (with_rows audit (pre ++ (r ∷ rs))) now)
              rest
            ∙ ap
                (λ x.
                  recover_all F f parse_time normalize_base (open_rows rs)
                    (with_rows audit (pre ++ (x ∷ rs))) now)
                (sym same)
            ∙ step
            ∙ ap (λ l. (with_rows audit (pre ++ (q ∷ map (settled now) rs)), ok (length l)))
                (sym rest)
      ]
