-- ===== src/Core/Continuity/Rows.antt =====
-- Rows with a primary key: at most one row has a key, and what the statements do to it.
use omni_os.Prelude.{
  Bool-cases, any, keep_if, find, some_injective, text_comparable, pair_comparable, ◌≡◌, refl, sym,
  ap, ◌∙◌, subst, inl, inr, Bool, true, false, ◌&&◌, ◌||◌, none, some, option_map, List, [], ◌∷◌,
  map, arith,
}
use omni_os.Core.Vault.{sort_by, insert_by}

module _ {A : Type 0} where
  -- A test holds for one element of the list at most.
  abbrev pub AtMostOne : (A → Bool) → List A → Type 0
  AtMostOne p [] = Unit
  AtMostOne p (x ∷ xs) = (p x ≡ true → any p xs ≡ false) × AtMostOne p xs

  pub any-false-find : (p : A → Bool) (xs : List A) → any p xs ≡ false → find p xs ≡ none
  any-false-find p [] h = refl
  any-false-find p (x ∷ xs) h = elim (Bool-cases (p x)) [
    | inl hit ↦ absurd (let e : true ≡ false = rw hit at h in cc)
    | inr miss ↦ rw miss (any-false-find p xs (rw miss at h))
  ]

  pub find-any-false : (p : A → Bool) (xs : List A) → find p xs ≡ none → any p xs ≡ false
  find-any-false p [] h = refl
  find-any-false p (x ∷ xs) h = elim (Bool-cases (p x)) [
    | inl hit ↦ absurd (let e : some x ≡ none = rw hit at h in cc)
    | inr miss ↦ rw miss (find-any-false p xs (rw miss at h))
  ]

  pub find-holds : (p : A → Bool) (xs : List A) (x : A) → find p xs ≡ some x → p x ≡ true
  find-holds p [] x h = cc
  find-holds p (y ∷ ys) x h = elim (Bool-cases (p y)) [
    | inl hit ↦ subst (λ z. p z ≡ true) (some_injective y x (rw hit at h)) hit
    | inr miss ↦ find-holds p ys x (rw miss at h)
  ]

  -- The order of the rows does not matter to a search by key.
  any-insert_by :
      (before : A → A → Bool) (p : A → Bool) (x : A) (xs : List A)
      → any p (insert_by before x xs) ≡ (p x || any p xs)
  any-insert_by before p x [] = refl
  any-insert_by before p x (y ∷ ys) = let ih = any-insert_by before p x ys in ground arith

  any-sort_by :
      (before : A → A → Bool) (p : A → Bool) (xs : List A) → any p (sort_by before xs) ≡ any p xs
  any-sort_by before p [] = refl
  any-sort_by before p (x ∷ xs) =
      any-insert_by before p x (sort_by before xs) ∙ ap (λ b. p x || b) (any-sort_by before p xs)

  find-insert_by_miss :
      (before : A → A → Bool) (p : A → Bool) (x : A) (xs : List A)
      → p x ≡ false
      → find p (insert_by before x xs) ≡ find p xs
  find-insert_by_miss before p x [] miss = rw miss refl
  find-insert_by_miss before p x (y ∷ ys) miss =
      let ih = find-insert_by_miss before p x ys miss in ground arith

  find-insert_by_hit :
      (before : A → A → Bool) (p : A → Bool) (x : A) (xs : List A)
      → p x ≡ true
      → any p xs ≡ false
      → find p (insert_by before x xs) ≡ some x
  find-insert_by_hit before p x [] hit none_ = rw hit refl
  find-insert_by_hit before p x (y ∷ ys) hit none_ =
      let ih = find-insert_by_hit before p x ys hit in ground arith

  pub find-sort_by :
      (before : A → A → Bool) (p : A → Bool) (xs : List A)
      → AtMostOne p xs
      → find p (sort_by before xs) ≡ find p xs
  find-sort_by before p [] one = refl
  find-sort_by before p (x ∷ xs) one = elim (Bool-cases (p x)) [
    | inl hit ↦ rw hit (find-insert_by_hit before p x _ hit (any-sort_by before p xs ∙ one.0 hit))
    | inr miss ↦ rw miss (find-insert_by_miss before p x _ miss ∙ find-sort_by before p xs one.1)
  ]

  -- A statement that updates rows and keeps their keys.
  pub find-map :
      (p : A → Bool) (f : A → A) (xs : List A)
      → ((x : A) → p (f x) ≡ p x)
      → find p (map f xs) ≡ option_map f (find p xs)
  find-map p f [] same_key = refl
  find-map p f (x ∷ xs) same_key =
      let k = same_key x in let ih = find-map p f xs same_key in ground arith

  any-map_key :
      (p : A → Bool) (f : A → A) (xs : List A)
      → ((x : A) → p (f x) ≡ p x)
      → any p (map f xs) ≡ any p xs
  any-map_key p f [] same_key = refl
  any-map_key p f (x ∷ xs) same_key =
      let k = same_key x in let ih = any-map_key p f xs same_key in ground arith

  pub AtMostOne-map :
      (p : A → Bool) (f : A → A) (xs : List A)
      → ((x : A) → p (f x) ≡ p x)
      → AtMostOne p xs
      → AtMostOne p (map f xs)
  AtMostOne-map p f [] same_key one = tt
  AtMostOne-map p f (x ∷ xs) same_key one = (
    λ hit. any-map_key p f xs same_key ∙ one.0 (sym (same_key x) ∙ hit),
    AtMostOne-map p f xs same_key one.1,
  )

  -- A statement that deletes rows.
  any-keep_if : (p q : A → Bool) (xs : List A) → any p xs ≡ false → any p (keep_if q xs) ≡ false
  any-keep_if p q [] h = refl
  any-keep_if p q (x ∷ xs) h = let ih = any-keep_if p q xs in ground arith

  pub AtMostOne-keep_if :
      (p q : A → Bool) (xs : List A) → AtMostOne p xs → AtMostOne p (keep_if q xs)
  AtMostOne-keep_if p q [] one = tt
  AtMostOne-keep_if p q (x ∷ xs) one = elim (Bool-cases (q x)) [
    | inl kept ↦ rw kept (λ hit. any-keep_if p q xs (one.0 hit), AtMostOne-keep_if p q xs one.1)
    | inr gone ↦ rw gone (AtMostOne-keep_if p q xs one.1)
  ]

  pub find-keep_if-none :
      (p q : A → Bool) (xs : List A) → find p xs ≡ none → find p (keep_if q xs) ≡ none
  find-keep_if-none p q xs h =
      any-false-find p (keep_if q xs) (any-keep_if p q xs (find-any-false p xs h))

  pub find-keep_if-kept :
      (p q : A → Bool) (xs : List A) (x : A)
      → find p xs ≡ some x
      → q x ≡ true
      → find p (keep_if q xs) ≡ some x
  find-keep_if-kept p q [] x h kept = h
  find-keep_if-kept p q (y ∷ ys) x h kept = elim (Bool-cases (p y)) [
    | inl hit ↦
        let e : y ≡ x = some_injective y x (rw hit at h) in
        rw (subst (λ z. q z ≡ true) (sym e) kept) (rw hit (ap some e))
    | inr miss ↦ let ih = find-keep_if-kept p q ys x (rw miss at h) kept in ground arith
  ]

  pub find-keep_if-gone :
      (p q : A → Bool) (xs : List A) (x : A)
      → AtMostOne p xs
      → find p xs ≡ some x
      → q x ≡ false
      → find p (keep_if q xs) ≡ none
  find-keep_if-gone p q [] x one h gone = refl
  find-keep_if-gone p q (y ∷ ys) x one h gone = elim (Bool-cases (p y)) [
    | inl hit ↦
        let e : y ≡ x = some_injective y x (rw hit at h) in
        rw (subst (λ z. q z ≡ false) (sym e) gone)
          (any-false-find p (keep_if q ys) (any-keep_if p q ys (one.0 hit)))
    | inr miss ↦ let ih = find-keep_if-gone p q ys x one.1 (rw miss at h) gone in ground arith
  ]

  any-and : (p q : A → Bool) (xs : List A) → any p xs ≡ false → any (λ y. q y && p y) xs ≡ false
  any-and p q [] h = refl
  any-and p q (x ∷ xs) h = let ih = any-and p q xs in ground arith

  -- Whether some row with the key is selected.
  pub any-selected :
      (p q : A → Bool) (xs : List A) (x : A)
      → AtMostOne p xs
      → find p xs ≡ some x
      → any (λ y. q y && p y) xs ≡ q x
  any-selected p q [] x one h = cc
  any-selected p q (y ∷ ys) x one h = elim (Bool-cases (p y)) [
    | inl hit ↦
        let e : y ≡ x = some_injective y x (rw hit at h) in
        let rest = any-and p q ys (one.0 hit) in
        let n : (q y && p y) || any (λ y. q y && p y) ys ≡ q y = ground arith in n ∙ ap q e
    | inr miss ↦ let ih = any-selected p q ys x one.1 (rw miss at h) in ground arith
  ]
