-- ===== src/Vpn/Wire/Sum.antt =====
-- The Internet checksum as a number modulo 65535.
use omni_os.Prelude.{
  length, All, text_comparable, pair_comparable, ℕ, zero, suc, ◌+◌, ◌*◌, ◌/◌, ◌%◌, ◌^◌, ◌≤◌, ◌<◌,
  ◌≡◌, refl, ◌↔◌, ◌⊎◌, [], ◌∷◌, arith,
}
use omni_os.Vpn.Wire.{Bytes, word_sum, fold_carries, checksum}

abbrev pub IsByte : ℕ → Type 0
IsByte b = b < 256

pub fold_carries_lem :
    (s : ℕ)
    → s < 2 ^ 32
    → (fold_carries 2 s ≤ 65535)
      × (fold_carries 2 s % 65535 ≡ s % 65535)
      × (((s ≡ 0) × (fold_carries 2 s ≡ 0)) ⊎ ((0 < s) × (0 < fold_carries 2 s)))
fold_carries_lem s h = ground arith

fold_carries_done : (k s : ℕ) → s ≤ 65535 → fold_carries k s ≡ s
fold_carries_done zero s h = refl
fold_carries_done (suc k) s h = ground arith

pub fold_carries_fuel : (k s : ℕ) → s < 2 ^ 32 → fold_carries (suc (suc k)) s ≡ fold_carries 2 s
fold_carries_fuel k s h =
    let t : ℕ = s % 65536 + s / 65536 in ground (arith, fold_carries_done k (t % 65536 + t / 65536))

-- A checksum comes out as 0 exactly on data with a positive multiple of 65535 as its sum.
pub checksum-eq-zero_iff :
    (bytes : Bytes)
    → word_sum bytes < 2 ^ 32
    → (checksum bytes ≡ 0) ↔ ((0 < word_sum bytes) × (word_sum bytes % 65535 ≡ 0))
unfolding checksum
checksum-eq-zero_iff bytes h = (
  λ e. let l = fold_carries_lem (word_sum bytes) h in omega arith,
  λ e. let l = fold_carries_lem (word_sum bytes) h in omega arith,
)

-- The checksum completes the sum to a positive multiple of 65535.
pub checksum_completes :
    (bytes : Bytes)
    → word_sum bytes < 2 ^ 32
    → (checksum bytes ≤ 65535)
      × (0 < word_sum bytes + checksum bytes)
      × ((word_sum bytes + checksum bytes) % 65535 ≡ 0)
unfolding checksum
checksum_completes bytes h =
    let l = fold_carries_lem (word_sum bytes) h in (omega arith, omega arith, omega arith)

-- Fewer than 2 ^ 17 bytes have a sum below 2 ^ 32: the `u32` does not overflow.
pub word_sum-le : (bytes : Bytes) → All IsByte bytes → word_sum bytes ≤ 32768 * (length bytes + 1)
word_sum-le [] h = omega arith
word_sum-le (a ∷ []) h = omega arith
word_sum-le (a ∷ b ∷ rest) h = omega (arith, word_sum-le rest h.1.1)

-- For every sum below 2 ^ 32 two rounds of the loop are enough: more fuel gives the same, at most 65535,
-- which is the sum modulo 65535, and 0 exactly when the sum is 0.
pub fold_carries_end :
    (s : ℕ)
    → s < 2 ^ 32
    → (fold_carries 2 s ≤ 65535)
      × (fold_carries 2 s % 65535 ≡ s % 65535)
      × (((s ≡ 0) × (fold_carries 2 s ≡ 0)) ⊎ ((0 < s) × (0 < fold_carries 2 s)))
      × ((k : ℕ) → fold_carries (suc (suc k)) s ≡ fold_carries 2 s)
fold_carries_end s h = let l = fold_carries_lem s h in (l.0, l.1, l.2, λ k. fold_carries_fuel k s h)
