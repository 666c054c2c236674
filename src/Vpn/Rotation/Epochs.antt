-- ===== src/Vpn/Rotation/Epochs.antt =====
-- The identities that a rotation holds are consecutive, whatever calls are made.
use omni_os.Prelude.{
  ok, text_comparable, pair_comparable, ℕ, ◌+◌, ◌≤◌, ◌≡◌, Option, none, some, arith,
}
use omni_os.Vpn.Rotation.{
  Key, KeyEpoch, Rotation, expire, cancel_pending, acknowledge, with_interval, prepare,
}

-- The pending identity is the next epoch.
abbrev pub IsNext : ℕ → Option KeyEpoch → Type 0
IsNext e none = Unit
IsNext e (some p) = p.epoch ≡ e + 1

-- The retired identity is the epoch before.
abbrev pub IsPrevious : ℕ → Option (KeyEpoch × ℕ) → Type 0
IsPrevious e none = Unit
IsPrevious e (some (k, expiry)) = k.epoch + 1 ≡ e

pub record IsValid (r : Rotation) : Type 0 where
  pub pending_next : IsNext r.active.epoch r.pending
  pub retired_previous : IsPrevious r.active.epoch r.retired
  pub interval_positive : 1 ≤ r.interval

-- A call of the public interface, each at the time and with the values that its caller gives.
pub data Step (public_of : Key → Key) (r : Rotation) : Rotation → Type 0 where
  expires : (now : ℕ) → Step public_of r (expire r now)
  cancels : Step public_of r (cancel_pending r)
  prepares : (now : ℕ) (random_key : Key) → Step public_of r (prepare public_of r now random_key).0
  acknowledges :
      (r' : Rotation) (epoch : ℕ) (public_key : Key) (now : ℕ)
      → acknowledge r epoch public_key now ≡ ok r'
      → Step public_of r r'

pub data Reach (public_of : Key → Key) (r : Rotation) : Rotation → Type 0 where
  here : Reach public_of r r
  next : {s t : Rotation} → Reach public_of r s → Step public_of s t → Reach public_of r t

module _ (public_of : Key → Key) where
  expire-IsValid : (r : Rotation) (now : ℕ) → IsValid r → IsValid (expire r now)
  unfolding expire
  expire-IsValid r now v = ground arith

  prepare-IsValid :
      (r : Rotation) (now : ℕ) (random_key : Key)
      → IsValid r
      → IsValid (prepare public_of r now random_key).0
  unfolding prepare
  prepare-IsValid r now random_key v = ground arith

  acknowledge-IsValid :
      (r r' : Rotation) (epoch : ℕ) (public_key : Key) (now : ℕ)
      → acknowledge r epoch public_key now ≡ ok r'
      → IsValid r
      → IsValid r'
  unfolding acknowledge
  acknowledge-IsValid r r' epoch public_key now e v = ground arith

  Step-IsValid : {r s : Rotation} → Step public_of r s → IsValid r → IsValid s
  unfolding cancel_pending
  Step-IsValid {r} (expires now) v = expire-IsValid r now v
  Step-IsValid cancels v = ground arith
  Step-IsValid {r} (prepares now random_key) v = prepare-IsValid r now random_key v
  Step-IsValid {r} (acknowledges r' epoch public_key now e) v =
      acknowledge-IsValid r r' epoch public_key now e v

  with_interval-IsValid :
      (now interval : ℕ) (random_key : Key)
      → IsValid (with_interval public_of now interval random_key)
  unfolding with_interval
  with_interval-IsValid now interval random_key = ground arith

  Reach-IsValid : {r s : Rotation} → IsValid r → Reach public_of r s → IsValid s
  Reach-IsValid v here = v
  Reach-IsValid v (next t st) = Step-IsValid st (Reach-IsValid v t)

  -- In every state that calls reach from a new rotation, a pending identity has the epoch after the
  -- active one, a retired identity has the epoch before it, and the interval is at least a second.
  pub Reach-new-IsValid :
      (now interval : ℕ) (random_key : Key) {s : Rotation}
      → Reach public_of (with_interval public_of now interval random_key) s
      → IsValid s
  Reach-new-IsValid now interval random_key =
      Reach-IsValid (with_interval-IsValid now interval random_key)

  Step-epoch-le :
      {r s : Rotation} → Step public_of r s → IsValid r → r.active.epoch ≤ s.active.epoch
  unfolding cancel_pending expire prepare acknowledge
  Step-epoch-le (expires now) v = ground arith
  Step-epoch-le cancels v = ground arith
  Step-epoch-le (prepares now random_key) v = ground arith
  Step-epoch-le (acknowledges r' epoch public_key now e) v = ground arith

  -- From a valid state, no sequence of calls takes the active identity back to an earlier epoch.
  pub Reach-epoch-le :
      {r s : Rotation} → IsValid r → Reach public_of r s → r.active.epoch ≤ s.active.epoch
  Reach-epoch-le v here = omega arith
  Reach-epoch-le v (next t st) =
      omega (arith, Reach-epoch-le v t, Step-epoch-le st (Reach-IsValid v t))
