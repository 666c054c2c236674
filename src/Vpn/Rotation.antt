-- ===== src/Vpn/Rotation.antt =====
-- Client key rotation, crates/omni-vpn/src/rotation.rs. Times and epochs are `u64`; a fresh private
-- key is an argument, and X25519 (`PublicKey::from`) is the parameter `public_of`.
pub mod Epochs
pub mod Cycle
mod Tests
use omni_os.Prelude.{
  ltb, leb, ◌==◌, if◌then◌else◌, ==_iff, Bool-cases, Option-cases, le→leb, lt→leb_false, leb→le,
  ltb→lt, eq→==, ne→==_false, length, get_or, set, take, drop, replicate, all, any, keep_if, find,
  length-append, length-keep_if, replicate-add, All, ◌>>=◌, ◌>>◌, ensure, or_fail, ensure-eq-ok,
  >>=-eq-ok, Result, ok, err, text_comparable, pair_beq, pair_beq_iff, pair_comparable, beq_refl,
  lookup, contains, insert, retain, lookup-insert_self, lookup-insert_ne, lookup-retain,
  is_whitespace, is_control, is_ascii_alphanumeric, all_chars, any_char, is_empty, trim_start,
  trim_end, trim, ℕ, zero, suc, ◌+◌, ◌-◌, ◌*◌, ◌/◌, ◌%◌, ◌^◌, ◌≤◌, ◌<◌, min, max, code, String, len,
  ◌≡◌, refl, sym, ap, ◌∙◌, subst, ◌≢◌, ◌↔◌, ◌⊎◌, inl, inr, Bool, true, false, not, ◌&&◌, ◌||◌,
  Option, none, some, List, [], ◌∷◌, ◌++◌, map, arith, str_eq, eq_iff,
}
use omni_os.Vpn.Keys.{u64_max, saturating_add}

abbrev pub rotation_seconds : ℕ
rotation_seconds = 1800

abbrev pub overlap_seconds : ℕ
overlap_seconds = 30

-- A private or public key: 32 bytes, read as one number.
abbrev pub Key : Type 0
Key = ℕ

pub record KeyEpoch : Type 0 where
  pub epoch : ℕ
  pub private_key : Key
  pub public_key : Key

pub record Rotation : Type 0 where
  pub active : KeyEpoch
  pub pending : Option KeyEpoch
  pub retired : Option (KeyEpoch × ℕ)
  pub next_at : ℕ
  pub interval : ℕ

pub data Error : Type 0 where
  not_due overlap_active epoch_overflow no_pending mismatch : Error

abbrev pub is_none {ℓ} : {A : Type ℓ} → Option A → Bool
is_none none = true
is_none (some a) = false

pub due : Rotation → ℕ → Bool
due r now = leb r.next_at now && is_none r.pending

-- `Option::is_some_and` on the expiry of the retired key.
abbrev overlap_over : Option (KeyEpoch × ℕ) → ℕ → Bool
overlap_over none now = false
overlap_over (some (k, expiry)) now = leb expiry now

pub expire : Rotation → ℕ → Rotation
expire r now = if overlap_over r.retired now then record r { retired = none } else r

pub cancel_pending : Rotation → Rotation
cancel_pending r = record r { pending = none }

abbrev pub checked_add : ℕ → ℕ → Option ℕ
checked_add a b = if leb (a + b) u64_max then some (a + b) else none

-- The caller's rotation after the call and the result: `acknowledge` fails before it writes.
unfoldable pub acknowledge : Rotation → ℕ → Key → ℕ → Result Error Rotation
acknowledge r epoch public_key now = do
  pending ← or_fail r.pending no_pending
  ensure (pending.epoch == epoch && pending.public_key == public_key) mismatch
  ok (record r {
    active = pending;
    pending = none;
    retired = some (r.active, saturating_add now overlap_seconds);
    next_at = saturating_add now r.interval;
  })

module _ (public_of : Key → Key) where
  unfoldable pub fresh : ℕ → Key → KeyEpoch
  fresh epoch random_key = record {
    epoch = epoch;
    private_key = random_key;
    public_key = public_of random_key;
  }

  pub with_interval : ℕ → ℕ → Key → Rotation
  unfolding fresh
  with_interval now interval random_key = record {
    active = fresh 0 random_key;
    pending = none;
    retired = none;
    next_at = saturating_add now (max interval 1);
    interval = max interval 1;
  }

  pub new : ℕ → Key → Rotation
  unfolding with_interval
  new now random_key = with_interval now rotation_seconds random_key

  -- The checks of `prepare` on the state that `expire` leaves, and the key that it makes.
  pub prepare_checked : Rotation → ℕ → Key → Result Error KeyEpoch
  unfolding due fresh
  prepare_checked r now random_key = do
    ensure (due r now) not_due
    ensure (is_none r.retired) overlap_active
    epoch ← or_fail (checked_add r.active.epoch 1) epoch_overflow
    ok (fresh epoch random_key)

  abbrev store_pending : Rotation → Result Error KeyEpoch → Rotation × Result Error KeyEpoch
  store_pending r (ok k) = (record r { pending = some k }, ok k)
  store_pending r (err e) = (r, err e)

  -- An error leaves what `expire` has done.
  pub prepare : Rotation → ℕ → Key → Rotation × Result Error KeyEpoch
  unfolding expire prepare_checked
  prepare r now random_key =
      let r' = expire r now in store_pending r' (prepare_checked r' now random_key)
