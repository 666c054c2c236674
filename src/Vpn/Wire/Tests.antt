-- ===== src/Vpn/Wire/Tests.antt =====
-- Runs of the frame code, and the theorems at concrete packets.

use omni_os.Vpn.Wire.Corruption.{udp_payload-IsFrame_iff, udp_payload-set}
use omni_os.Vpn.Wire.Parse.{IsFrame}
use omni_os.Vpn.Wire.RoundTrip.{udp_payload-udp_frame}
use omni_os.Vpn.Wire.{udp_checksum, checksum, udp_payload, fold_carries, Bytes, Ipv4, udp_frame}
use omni_os.Prelude.{
  set, drop, ◌>>=◌, ok, err, text_comparable, pair_comparable, ℕ, suc, ◌%◌, ◌≤◌, ◌<◌, ◌≡◌, refl,
  ◌↔◌, ◌⊎◌, [], ◌∷◌, arith,
}
use omni_os.Vpn.Wire.Sum.{fold_carries_end}

abbrev client : Ipv4
client = record { octet_0 = 10; octet_1 = 77; octet_2 = 0; octet_3 = 2 }

abbrev hub : Ipv4
hub = record { octet_0 = 10; octet_1 = 77; octet_2 = 0; octet_3 = 1 }

abbrev hello : Bytes
hello = 104 ∷ 101 ∷ 108 ∷ 108 ∷ 111 ∷ []

abbrev frame : Bytes
frame =
    0x45 ∷ 0 ∷ 0 ∷ 33 ∷ 0 ∷ 0 ∷ 0x40 ∷ 0 ∷ 64 ∷ 17 ∷ 38 ∷ 48 ∷ 10 ∷ 77 ∷ 0 ∷ 2 ∷ 10 ∷ 77 ∷ 0 ∷ 1
    ∷ 164 ∷ 16 ∷ 164 ∷ 17 ∷ 0 ∷ 13 ∷ 95 ∷ 67 ∷ hello

frame_built : udp_frame client hub hello ≡ ok frame
unfolding udp_frame checksum
frame_built = refl

frame_accepted : udp_payload frame ≡ ok hello
unfolding udp_payload checksum
frame_accepted = refl

udp_payload-udp_frame_example : (udp_frame client hub hello >>= udp_payload) ≡ ok hello
udp_payload-udp_frame_example =
    udp_payload-udp_frame client hub hello (omega arith) (omega arith) (omega arith)

udp_payload-set_example : udp_payload (set frame 28 105) ≡ err udp_checksum
udp_payload-set_example =
    udp_payload-set frame hello 28 105 (omega arith) frame_accepted (omega arith) (omega arith)
      (omega arith) (omega arith)

udp_payload-IsFrame_iff_example :
    (udp_payload frame ≡ ok hello) ↔ (IsFrame frame × (hello ≡ drop 28 frame))
udp_payload-IsFrame_iff_example = udp_payload-IsFrame_iff frame hello (omega arith) (omega arith)

fold_carries_end_example :
    (fold_carries 2 131069 ≤ 65535)
    × (fold_carries 2 131069 % 65535 ≡ ◌%◌ 131069 65535)
    × (((◌≡◌ {A = ℕ} 131069 0) × (fold_carries 2 131069 ≡ 0))
        ⊎ ((0 < 131069) × (0 < fold_carries 2 131069)))
    × ((k : ℕ) → fold_carries (suc (suc k)) 131069 ≡ fold_carries 2 131069)
fold_carries_end_example = fold_carries_end 131069 (omega arith)
