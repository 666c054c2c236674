-- ===== src/Vpn/Wire/Positions.antt =====
-- Positions in a packet: reads, slices and sums after a write at one position.
use omni_os.Prelude.{
  length, get_or, set, take, drop, All, ℕ, zero, suc, ◌+◌, ◌-◌, ◌*◌, ◌%◌, ◌≤◌, ◌<◌, min, ◌≡◌, refl,
  ap, ◌∙◌, ◌⊎◌, inl, inr, List, [], ◌∷◌, ◌++◌, arith,
}
use omni_os.Vpn.Wire.{Bytes, slice, word_sum, packet_pseudo}
use omni_os.Vpn.Wire.Sum.{IsByte, word_sum-le}
use omni_os.Vpn.Wire.Parse.{SumsFit}

module _ {ℓ} {A : Type ℓ} where
  pub length-set : (xs : List A) (i : ℕ) (v : A) → length (set xs i v) ≡ length xs
  length-set [] i v = refl
  length-set (x ∷ xs) zero v = refl
  length-set (x ∷ xs) (suc i) v = ap suc (length-set xs i v)

  pub get_or-set_lt :
      (xs : List A) (i j : ℕ) (v d : A) → j < i → get_or (set xs i v) j d ≡ get_or xs j d
  get_or-set_lt [] i j v d h = refl
  get_or-set_lt (x ∷ xs) zero j v d h = absurd (omega arith)
  get_or-set_lt (x ∷ xs) (suc i) zero v d h = refl
  get_or-set_lt (x ∷ xs) (suc i) (suc j) v d h = get_or-set_lt xs i j v d (omega arith)

  pub take-set : (n : ℕ) (xs : List A) (i : ℕ) (v : A) → n ≤ i → take n (set xs i v) ≡ take n xs
  take-set zero xs i v h = refl
  take-set (suc n) [] i v h = refl
  take-set (suc n) (x ∷ xs) zero v h = absurd (omega arith)
  take-set (suc n) (x ∷ xs) (suc i) v h = ap (◌∷◌ x) (take-set n xs i v (omega arith))

  pub drop-set :
      (n : ℕ) (xs : List A) (i : ℕ) (v : A)
      → n ≤ i
      → drop n (set xs i v) ≡ set (drop n xs) (i - n) v
  drop-set zero xs i v h = ap (λ k. set xs k v) (omega arith)
  drop-set (suc n) [] i v h = refl
  drop-set (suc n) (x ∷ xs) zero v h = absurd (omega arith)
  drop-set (suc n) (x ∷ xs) (suc i) v h =
      drop-set n xs i v (omega arith) ∙ ap (λ k. set (drop n xs) k v) (omega arith)

  pub length-take : (n : ℕ) (xs : List A) → length (take n xs) ≡ min n (length xs)
  length-take zero xs = omega arith
  length-take (suc n) [] = omega arith
  length-take (suc n) (x ∷ xs) = omega (arith, length-take n xs)

  pub length-drop : (n : ℕ) (xs : List A) → length (drop n xs) ≡ length xs - n
  length-drop zero xs = omega arith
  length-drop (suc n) [] = omega arith
  length-drop (suc n) (x ∷ xs) = omega (arith, length-drop n xs)

  pub get_or-drop : (n i : ℕ) (xs : List A) (d : A) → get_or (drop n xs) i d ≡ get_or xs (n + i) d
  get_or-drop zero i xs d = ap (λ k. get_or xs k d) (omega arith)
  get_or-drop (suc n) i [] d = refl
  get_or-drop (suc n) i (x ∷ xs) d =
      get_or-drop n i xs d
      ∙ ap (λ k. get_or (x ∷ xs) k d) (let e : suc (n + i) ≡ suc n + i = omega arith in e)

word_sum-append :
    (xs ys : Bytes) → length xs % 2 ≡ 0 → word_sum (xs ++ ys) ≡ word_sum xs + word_sum ys
word_sum-append [] ys h = omega arith
word_sum-append (x ∷ []) ys h = absurd (omega arith)
word_sum-append (x ∷ y ∷ xs) ys h = omega (arith, word_sum-append xs ys (omega arith))

-- A byte in an even place counts 256 times.
abbrev pub weight : ℕ → ℕ
weight zero = 256
weight (suc zero) = 1
weight (suc (suc i)) = weight i

pub weight_cases : (i : ℕ) → (weight i ≡ 256) ⊎ (weight i ≡ 1)
weight_cases zero = inl refl
weight_cases (suc zero) = inr refl
weight_cases (suc (suc i)) = weight_cases i

pub word_sum-set :
    (xs : Bytes) (i v : ℕ)
    → i < length xs
    → word_sum (set xs i v) + weight i * get_or xs i 0 ≡ word_sum xs + weight i * v
word_sum-set [] i v h = absurd (omega arith)
word_sum-set (x ∷ []) zero v h = omega arith
word_sum-set (x ∷ []) (suc i) v h = absurd (omega arith)
word_sum-set (x ∷ y ∷ xs) zero v h = omega arith
word_sum-set (x ∷ y ∷ xs) (suc zero) v h = omega arith
word_sum-set (x ∷ y ∷ xs) (suc (suc i)) v h = omega (arith, word_sum-set xs i v (omega arith))

pub get_or-byte : (xs : Bytes) (i : ℕ) → All IsByte xs → get_or xs i 0 < 256
get_or-byte [] i h = omega arith
get_or-byte (x ∷ xs) zero h = omega arith
get_or-byte (x ∷ xs) (suc i) h = get_or-byte xs i h.1

-- The sum over the pseudo-header and the datagram, part by part.
pub pseudo_parts :
    (p : Bytes)
    → 28 ≤ length p
    → word_sum (packet_pseudo p)
      ≡ word_sum (slice 12 20 p) + (17 + (word_sum (slice 24 26 p) + word_sum (drop 20 p)))
pseudo_parts p h =
    let a = length-take 8 (drop 12 p) in
    let b = length-drop 12 p in
    let c = length-take 2 (drop 24 p) in
    let d = length-drop 24 p in
    rw
      (
        word_sum-append (slice 12 20 p) (0 ∷ 17 ∷ (slice 24 26 p ++ drop 20 p)) (omega arith),
        word_sum-append (slice 24 26 p) (drop 20 p) (omega arith),
      )
      (omega arith)

pub slice-set :
    (a b : ℕ) (p : Bytes) (i v : ℕ) → a ≤ b → b ≤ i → slice a b (set p i v) ≡ slice a b p
slice-set a b p i v h k =
    ap (take (b - a)) (drop-set a p i v (omega arith))
    ∙ take-set (b - a) (drop a p) (i - a) v (omega arith)

-- The sums of a packet of at most 65535 bytes fit `u32`.
All-take : (n : ℕ) (xs : Bytes) → All IsByte xs → All IsByte (take n xs)
All-take zero xs h = tt
All-take (suc n) [] h = tt
All-take (suc n) (x ∷ xs) h = (h.0, All-take n xs h.1)

All-drop : (n : ℕ) (xs : Bytes) → All IsByte xs → All IsByte (drop n xs)
All-drop zero xs h = h
All-drop (suc n) [] h = tt
All-drop (suc n) (x ∷ xs) h = All-drop n xs h.1

pub All-set : (xs : Bytes) (i v : ℕ) → v < 256 → All IsByte xs → All IsByte (set xs i v)
All-set [] i v hv h = tt
All-set (x ∷ xs) zero v hv h = (hv, h.1)
All-set (x ∷ xs) (suc i) v hv h = (h.0, All-set xs i v hv h.1)

pub bytes-SumsFit : (p : Bytes) → All IsByte p → 28 ≤ length p → length p ≤ 65535 → SumsFit p
bytes-SumsFit p h long short =
    let ip = word_sum-le (take 20 p) (All-take 20 p h) in
    let a = word_sum-le (slice 12 20 p) (All-take 8 (drop 12 p) (All-drop 12 p h)) in
    let b = word_sum-le (slice 24 26 p) (All-take 2 (drop 24 p) (All-drop 24 p h)) in
    let c = word_sum-le (drop 20 p) (All-drop 20 p h) in
    let n1 = length-take 20 p in
    let n2 = length-take 8 (drop 12 p) in
    let n3 = length-take 2 (drop 24 p) in
    let n4 = length-drop 20 p in (omega arith, rw (pseudo_parts p long) (omega arith))
