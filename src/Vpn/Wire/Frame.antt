-- ===== src/Vpn/Wire/Frame.antt =====
-- The bytes of a frame that `udp_frame` builds, written out.
use omni_os.Prelude.{
  ℕ, ◌+◌, ◌/◌, ◌%◌, ◌<◌, ◌≤◌, ◌≡◌, refl, [], ◌∷◌, ◌++◌, ap, le→leb, lt→leb_false, length, replicate,
  replicate-add, ok, err,
}
use omni_os.Vpn.Wire.{
  Bytes, Ipv4, checksum, write_at, ip_part, udp_part, nonzero, frame_pseudo, udp_frame,
  payload_too_large,
}

-- A frame with the given checksums.
abbrev pub frame_bytes : Ipv4 → Ipv4 → Bytes → ℕ → ℕ → Bytes
frame_bytes s d payload ip_sum udp_sum =
    let n = (28 + length payload) % 65536 in
    let u = (length payload % 65536 + 8) % 65536 in
    0x45
    ∷ 0
    ∷ (n / 256)
    ∷ (n % 256)
    ∷ 0
    ∷ 0
    ∷ 0x40
    ∷ 0
    ∷ 64
    ∷ 17
    ∷ (ip_sum / 256)
    ∷ (ip_sum % 256)
    ∷ s.octet_0
    ∷ s.octet_1
    ∷ s.octet_2
    ∷ s.octet_3
    ∷ d.octet_0
    ∷ d.octet_1
    ∷ d.octet_2
    ∷ d.octet_3
    ∷ 164
    ∷ 16
    ∷ 164
    ∷ 17
    ∷ (u / 256)
    ∷ (u % 256)
    ∷ (udp_sum / 256)
    ∷ (udp_sum % 256)
    ∷ payload

-- The IP header alone.
abbrev pub header_bytes : Ipv4 → Ipv4 → ℕ → ℕ → Bytes
header_bytes s d length ip_sum =
    let n = (28 + length) % 65536 in
    0x45
    ∷ 0
    ∷ (n / 256)
    ∷ (n % 256)
    ∷ 0
    ∷ 0
    ∷ 0x40
    ∷ 0
    ∷ 64
    ∷ 17
    ∷ (ip_sum / 256)
    ∷ (ip_sum % 256)
    ∷ s.octet_0
    ∷ s.octet_1
    ∷ s.octet_2
    ∷ s.octet_3
    ∷ d.octet_0
    ∷ d.octet_1
    ∷ d.octet_2
    ∷ d.octet_3
    ∷ []

pub write_at-replicate :
    (bytes : Bytes) (a : ℕ) → write_at 0 bytes (replicate (length bytes) a) ≡ bytes
write_at-replicate [] a = refl
write_at-replicate (b ∷ bytes) a = ap (◌∷◌ b) (write_at-replicate bytes a)

blank :
    (payload : Bytes)
    → replicate {A = ℕ} (28 + length payload) 0 ≡ replicate 28 0 ++ replicate (length payload) 0
blank payload = replicate-add 28 (length payload) 0

pub udp_part-frame :
    (s d : Ipv4) (payload : Bytes)
    → udp_part payload (ip_part s d payload)
      ≡ frame_bytes s d payload (checksum (header_bytes s d (length payload) 0)) 0
udp_part-frame s d payload = rw (blank payload, write_at-replicate payload)

-- The IP checksum of a frame.
abbrev pub ip_sum_of : Ipv4 → Ipv4 → Bytes → ℕ
ip_sum_of s d payload = checksum (header_bytes s d (length payload) 0)

-- The UDP checksum of a frame.
abbrev pub udp_sum_of : Ipv4 → Ipv4 → Bytes → ℕ
udp_sum_of s d payload =
    nonzero
      (checksum (frame_pseudo s d payload (frame_bytes s d payload (ip_sum_of s d payload) 0)))

pub udp_frame-frame :
    (s d : Ipv4) (payload : Bytes)
    → length payload ≤ 1200
    → udp_frame s d payload
      ≡ ok (frame_bytes s d payload (ip_sum_of s d payload) (udp_sum_of s d payload))
unfolding udp_frame
udp_frame-frame s d payload h = rw (le→leb _ _ h) (rw (udp_part-frame s d payload) refl)

pub udp_frame_too_large :
    (s d : Ipv4) (payload : Bytes)
    → 1200 < length payload
    → udp_frame s d payload ≡ err payload_too_large
unfolding udp_frame
udp_frame_too_large s d payload h = rw (lt→leb_false _ _ h)
