-- ===== src/Vpn/Rotation/Tests.antt =====
-- A rotation step by step, and the theorems at it.
use omni_os.Prelude.{
  ok, err, text_comparable, pair_comparable, ℕ, ◌+◌, ◌≤◌, ◌<◌, ◌≡◌, refl, ◌↔◌, true, false, none,
  some, arith,
}
use omni_os.Vpn.Rotation.{
  Key, KeyEpoch, Rotation, Error, fresh, with_interval, new, prepare, acknowledge, due, expire,
}
use omni_os.Vpn.Rotation.Epochs.{
  IsValid, Reach, here, next, expires, prepares, acknowledges, Reach-new-IsValid, Reach-epoch-le,
}
use omni_os.Vpn.Rotation.Cycle.{MayBegin, prepare-ok_iff, rotation_cycle}

abbrev public_of : Key → Key
public_of k = k + 1000

abbrev start : Rotation
start = record {
  active = record { epoch = 0; private_key = 7; public_key = 1007 };
  pending = none;
  retired = none;
  next_at = 1800;
  interval = 1800;
}

abbrev prepared : Rotation
prepared = record start {
  pending = some (record { epoch = 1; private_key = 8; public_key = 1008 });
}

abbrev rotated : Rotation
rotated = record {
  active = record { epoch = 1; private_key = 8; public_key = 1008 };
  pending = none;
  retired = some (start.active, 1840);
  next_at = 3610;
  interval = 1800;
}

not_due_before : due start 1799 ≡ false
unfolding due
not_due_before = refl

prepared_at : (prepare public_of start 1800 8).0 ≡ prepared
unfolding prepare
prepared_at = refl

wrong_key_refused : acknowledge prepared 1 0 1810 ≡ err Error.mismatch
unfolding acknowledge
wrong_key_refused = refl

rotated_at : acknowledge prepared 1 1008 1810 ≡ ok rotated
unfolding acknowledge
rotated_at = refl

new-eq-start : new public_of 0 7 ≡ start
unfolding new
new-eq-start = refl

history : Reach public_of (with_interval public_of 0 1800 7) (expire rotated 1840)
unfolding with_interval prepare acknowledge
history =
    next (next (next here (prepares 1800 8)) (acknowledges rotated 1 1008 1810 refl)) (expires 1840)

Reach-new-IsValid_example : IsValid (expire rotated 1840)
Reach-new-IsValid_example = Reach-new-IsValid public_of 0 1800 7 history

start-IsValid : IsValid start
start-IsValid = record { pending_next = tt; retired_previous = tt; interval_positive = omega arith }

rotation_once : Reach public_of start rotated
unfolding prepare acknowledge
rotation_once = next (next here (prepares 1800 8)) (acknowledges rotated 1 1008 1810 refl)

Reach-epoch-le_example : start.active.epoch ≤ rotated.active.epoch
Reach-epoch-le_example = Reach-epoch-le public_of start-IsValid rotation_once

start-MayBegin : MayBegin start 1800
start-MayBegin = record {
  time_has_come = omega arith;
  nothing_pending = refl;
  overlap_over = tt;
  epoch_left = omega arith;
}

prepare-ok_iff_example :
    ((k : KeyEpoch) × ((prepare public_of start 1800 8).1 ≡ ok k)) ↔ MayBegin start 1800
prepare-ok_iff_example = prepare-ok_iff public_of start 1800 8

rotation_cycle_example :
    let k = fresh public_of (start.active.epoch + 1) 8 in
    (s : Rotation) × (acknowledge (prepare public_of start 1800 8).0 k.epoch k.public_key 1810
      ≡ ok s)
    × (s.active ≡ k)
    × ((t : ℕ) → t < 1810 + 30 → (expire s t).retired ≡ some (start.active, 1810 + 30))
    × ((t : ℕ) → 1810 + 30 ≤ t → (expire s t).retired ≡ none)
    × ((t : ℕ) → (due s t ≡ true) ↔ (1810 + start.interval ≤ t))
rotation_cycle_example =
    rotation_cycle public_of start 1800 1810 8 start-MayBegin (omega arith) (omega arith)
