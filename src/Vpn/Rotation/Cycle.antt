-- ===== src/Vpn/Rotation/Cycle.antt =====
-- When a rotation may begin, and what one whole rotation does.
use omni_os.Prelude.{
  Result, ok, text_comparable, pair_comparable, ℕ, ◌+◌, ◌≤◌, ◌<◌, ◌≡◌, refl, ap, ◌↔◌, true, Option,
  none, some, arith,
}
use omni_os.Vpn.Keys.{u64_max}
use omni_os.Vpn.Rotation.{Key, KeyEpoch, Rotation, Error, due, expire, acknowledge, fresh, prepare}

-- The previous identity, if there is one, has reached the end of its overlap.
abbrev pub OverlapOver : Option (KeyEpoch × ℕ) → ℕ → Type 0
OverlapOver none now = Unit
OverlapOver (some (k, expiry)) now = expiry ≤ now

-- What has to hold for a rotation to begin.
pub record MayBegin (r : Rotation) (now : ℕ) : Type 0 where
  pub time_has_come : r.next_at ≤ now
  pub nothing_pending : r.pending ≡ none
  pub overlap_over : OverlapOver r.retired now
  pub epoch_left : r.active.epoch < u64_max

module _ (public_of : Key → Key) where
  -- On a state where a rotation may begin, `prepare` drops the retired identity, and stores and returns
  -- the identity of the next epoch.
  pub prepare-ok :
      (r : Rotation) (now : ℕ) (random_key : Key)
      → MayBegin r now
      → prepare public_of r now random_key ≡ (
        record r {
          retired = none;
          pending = some (fresh public_of (r.active.epoch + 1) random_key);
        },
        ok (fresh public_of (r.active.epoch + 1) random_key),
      )
  unfolding prepare
  prepare-ok r now random_key h = ground arith

  prepare-ok_only :
      (r : Rotation) (now : ℕ) (random_key : Key) (k : KeyEpoch)
      → (prepare public_of r now random_key).1 ≡ ok k
      → MayBegin r now
  unfolding prepare
  prepare-ok_only r now random_key k h = ground arith

  -- `prepare` succeeds exactly when the time has come, nothing is pending, the overlap of the previous
  -- identity is over and an epoch is left.
  pub prepare-ok_iff :
      (r : Rotation) (now : ℕ) (random_key : Key)
      → ((k : KeyEpoch) × ((prepare public_of r now random_key).1 ≡ ok k)) ↔ MayBegin r now
  prepare-ok_iff r now random_key = (
    λ h. prepare-ok_only r now random_key h.0 h.1,
    λ h. (
      fresh public_of (r.active.epoch + 1) random_key,
      ap (λ (p : Rotation × Result Error KeyEpoch). p.1) (prepare-ok r now random_key h),
    ),
  )

  -- From a state where a rotation may begin, `prepare` and an acknowledgement of the prepared key at a
  -- later time (with room for the overlap and the interval in 64 bits) make the prepared identity the
  -- active one and keep the former one, which `expire` drops at 30 seconds after the acknowledgement
  -- and not before; the next rotation is due when the interval has passed, and not before.
  pub rotation_cycle :
      (r : Rotation) (now later : ℕ) (random_key : Key)
      → MayBegin r now
      → later + 30 ≤ u64_max
      → later + r.interval ≤ u64_max
      → let k = fresh public_of (r.active.epoch + 1) random_key in
        (s : Rotation) × (acknowledge
            (prepare public_of r now random_key).0
            k.epoch
            k.public_key
            later
          ≡ ok s)
        × (s.active ≡ k)
        × ((t : ℕ) → t < later + 30 → (expire s t).retired ≡ some (r.active, later + 30))
        × ((t : ℕ) → later + 30 ≤ t → (expire s t).retired ≡ none)
        × ((t : ℕ) → (due s t ≡ true) ↔ (later + r.interval ≤ t))
  unfolding prepare acknowledge fresh due
  rotation_cycle r now later random_key h a b = (
    record {
      active = fresh public_of (r.active.epoch + 1) random_key;
      pending = none;
      retired = some (r.active, later + 30);
      next_at = later + r.interval;
      interval = r.interval;
    },
    ground arith,
    refl,
    λ t lt. ground arith,
    λ t le. ground arith,
    λ t. ground arith,
  )
