-- ===== src/Vpn/Wire/RoundTrip.antt =====
-- `udp_payload` reads back what `udp_frame` wrote.
use omni_os.Prelude.{
  leb, if◌then◌else◌, Bool-cases, leb→le, length, All, ◌>>=◌, ok, err, ℕ, ◌+◌, ◌^◌, ◌≤◌, ◌<◌, ◌≡◌,
  refl, inl, inr, arith,
}
use omni_os.Vpn.Wire.{
  Bytes, Ipv4, word_sum, checksum, packet_pseudo, udp_payload, udp_frame, frame_pseudo, nonzero,
  payload_too_large,
}
use omni_os.Vpn.Wire.Sum.{IsByte, checksum_completes, word_sum-le}
use omni_os.Vpn.Wire.Frame.{
  frame_bytes, header_bytes, ip_sum_of, udp_sum_of, udp_frame-frame, udp_frame_too_large,
}
use omni_os.Vpn.Wire.Parse.{IsFrame, SumsFit, IsComplete, udp_payload-ok_iff}

abbrev pub IsIpv4 : Ipv4 → Type 0
IsIpv4 a = (a.octet_0 < 256) × (a.octet_1 < 256) × (a.octet_2 < 256) × (a.octet_3 < 256)

module _ (s d : Ipv4) (payload : Bytes) (hs : IsIpv4 s) (hd : IsIpv4 d) (hp : All IsByte payload)
    (short : length payload ≤ 1200) where
  -- With any two checksums the sums are the sums without them, and the checksums.
  header_sum :
      (c : ℕ)
      → word_sum (header_bytes s d (length payload) c)
        ≡ word_sum (header_bytes s d (length payload) 0) + c
  header_sum c = omega arith

  header_small : word_sum (header_bytes s d (length payload) 0) < 2 ^ 32
  header_small = omega arith

  pseudo_sum :
      (c u : ℕ)
      → word_sum (packet_pseudo (frame_bytes s d payload c u))
        ≡ word_sum (frame_pseudo s d payload (frame_bytes s d payload c 0)) + u
  pseudo_sum c u = omega arith

  pseudo_small :
      (c : ℕ) → word_sum (frame_pseudo s d payload (frame_bytes s d payload c 0)) < 1000000000
  pseudo_small c = omega (arith, word_sum-le payload hp)

  nonzero_completes :
      (n c : ℕ) → c ≤ 65535 → IsComplete (n + c) → IsComplete (n + nonzero c) × (nonzero c ≤ 65535)
  nonzero_completes n c le h = ground arith

  frame_bytes-IsFrame :
      let f = frame_bytes s d payload (ip_sum_of s d payload) (udp_sum_of s d payload) in
      SumsFit f × IsFrame f
  frame_bytes-IsFrame =
      let c : ℕ = ip_sum_of s d payload in
      let pseudo : Bytes = frame_pseudo s d payload (frame_bytes s d payload c 0) in
      let small = pseudo_small c in
      let ip = checksum_completes (header_bytes s d (length payload) 0) header_small in
      let udp = checksum_completes pseudo (omega arith) in
      let (u_complete, u_le) =
        nonzero_completes (word_sum pseudo) (checksum pseudo) udp.0 (udp.1, udp.2) in
      let hsum = header_sum c in
      let psum = pseudo_sum c (udp_sum_of s d payload) in
      let hsmall = header_small in
      (
        (omega (arith, hsum, ip), omega (arith, psum, small, u_le)),
        record {
          header_fits = omega arith;
          version_4 = refl;
          protocol_udp = refl;
          ip_length = omega arith;
          ip_complete = rw hsum (ip.1, ip.2);
          udp_length = omega arith;
          udp_complete = rw psum u_complete;
        },
      )

  udp_payload-frame :
      udp_payload (frame_bytes s d payload (ip_sum_of s d payload) (udp_sum_of s d payload))
      ≡ ok payload
  udp_payload-frame =
      (udp_payload-ok_iff _ payload frame_bytes-IsFrame.0).1 (frame_bytes-IsFrame.1, refl)

-- Between two IPv4 addresses, a payload of bytes is framed and read back unchanged if it has at most
-- 1200 bytes, and refused otherwise.
pub udp_payload-udp_frame :
    (s d : Ipv4) (payload : Bytes)
    → IsIpv4 s
    → IsIpv4 d
    → All IsByte payload
    → (udp_frame s d payload >>= udp_payload)
      ≡ (if leb (length payload) 1200 then ok payload else err payload_too_large)
udp_payload-udp_frame s d payload hs hd hp = elim (Bool-cases (leb (length payload) 1200)) [
  | inl short ↦
      let le = leb→le _ _ short in
      rw (short, udp_frame-frame s d payload le) (udp_payload-frame s d payload hs hd hp le)
  | inr long ↦ rw (long, udp_frame_too_large s d payload (ground arith)) refl
]
