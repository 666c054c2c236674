-- ===== src/Vpn/Wire/Parse.antt =====
-- What `udp_payload` accepts, and that it reads back what `udp_frame` wrote.
use omni_os.Prelude.{
  leb, ◌==◌, ==_iff, eq→==, length, take, drop, ◌>>◌, ensure, ok, ℕ, ◌+◌, ◌-◌, ◌%◌, ◌^◌, ◌≤◌, ◌<◌,
  ◌≡◌, sym, ap, ◌∙◌, ◌↔◌, Bool, true, ◌&&◌, arith,
}
use omni_os.Vpn.Wire.{
  Bytes, from_be, at, word_sum, checksum, packet_pseudo, udp_payload, Error, not_udp, ip_length,
  ip_checksum, udp_length, udp_checksum,
}
use omni_os.Vpn.Wire.Sum.{checksum-eq-zero_iff}

-- A positive multiple of 65535.
abbrev pub IsComplete : ℕ → Type 0
IsComplete n = (0 < n) × (n % 65535 ≡ 0)

-- An IPv4 packet without options that holds one UDP datagram, with consistent lengths, and with
-- sums that are complete.
pub record IsFrame (packet : Bytes) : Type 0 where
  pub header_fits : 28 ≤ length packet
  pub version_4 : at packet 0 ≡ 0x45
  pub protocol_udp : at packet 9 ≡ 17
  pub ip_length : from_be (at packet 2) (at packet 3) ≡ length packet
  pub ip_complete : IsComplete (word_sum (take 20 packet))
  pub udp_length : from_be (at packet 24) (at packet 25) + 20 ≡ length packet
  pub udp_complete : IsComplete (word_sum (packet_pseudo packet))

-- The two sums fit `u32`, as they do in every packet of at most 65535 bytes.
abbrev pub SumsFit : Bytes → Type 0
SumsFit packet = (word_sum (take 20 packet) < 2 ^ 32) × (word_sum (packet_pseudo packet) < 2 ^ 32)

-- The checks of `udp_payload`, each by itself.
pub record Checks (packet : Bytes) : Type 0 where
  pub shape : (leb 28 (length packet) && (at packet 0 == 0x45 && at packet 9 == 17)) ≡ true
  pub total : (from_be (at packet 2) (at packet 3) == length packet) ≡ true
  pub ip : (checksum (take 20 packet) == 0) ≡ true
  pub udp : (from_be (at packet 24) (at packet 25) == length packet - 20) ≡ true
  pub sum : (checksum (packet_pseudo packet) == 0) ≡ true

five_checks :
    (b c d e f : Bool) (x y z u v : Error) (payload result : Bytes)
    → (ensure b x >> (ensure c y >> (ensure d z >> (ensure e u >> (ensure f v >> ok payload)))))
      ≡ ok result
    → (b ≡ true) × (c ≡ true) × (d ≡ true) × (e ≡ true) × (f ≡ true) × (result ≡ payload)
five_checks b c d e f x y z u v payload result h = ground arith

pub udp_payload-Checks :
    (packet payload : Bytes)
    → udp_payload packet ≡ ok payload
    → Checks packet × (payload ≡ drop 28 packet)
unfolding udp_payload
udp_payload-Checks packet payload h =
    let c =
      five_checks _ _ _ _ _ not_udp ip_length ip_checksum udp_length udp_checksum _ payload h in
    (record { shape = c.0; total = c.1; ip = c.2; udp = c.3; sum = c.4 }, c.5)

Checks-udp_payload : (packet : Bytes) → Checks packet → udp_payload packet ≡ ok (drop 28 packet)
unfolding udp_payload
Checks-udp_payload packet c = rw (c.shape, c.total, c.ip, c.udp, c.sum)

pub shape_iff :
    (n a b : ℕ) → ((leb 28 n && (a == 0x45 && b == 17)) ≡ true) ↔ ((28 ≤ n) × (a ≡ 0x45) × (b ≡ 17))
shape_iff n a b = ground arith

IsFrame-Checks : (packet : Bytes) → SumsFit packet → IsFrame packet → Checks packet
IsFrame-Checks packet fit v =
    let u = v.udp_length in
    record {
      shape = (shape_iff _ _ _).1 (v.header_fits, v.version_4, v.protocol_udp);
      total = eq→== _ _ v.ip_length;
      ip = eq→== _ _ ((checksum-eq-zero_iff (take 20 packet) fit.0).1 v.ip_complete);
      udp = eq→== _ (length packet - 20) (omega arith);
      sum = eq→== _ _ ((checksum-eq-zero_iff (packet_pseudo packet) fit.1).1 v.udp_complete);
    }

pub udp_payload-ok_iff :
    (packet payload : Bytes)
    → SumsFit packet
    → (udp_payload packet ≡ ok payload) ↔ (IsFrame packet × (payload ≡ drop 28 packet))
udp_payload-ok_iff packet payload fit = (
  λ h.
      let (c, e) = udp_payload-Checks packet payload h in
      let s = (shape_iff _ _ _).0 c.shape in
      let u = (==_iff _ _).0 c.udp in
      (
        record {
          header_fits = s.0;
          version_4 = s.1;
          protocol_udp = s.2;
          ip_length = (==_iff _ _).0 c.total;
          ip_complete = (checksum-eq-zero_iff (take 20 packet) fit.0).0 ((==_iff _ _).0 c.ip);
          udp_length = omega (arith, u, s.0);
          udp_complete =
              (checksum-eq-zero_iff (packet_pseudo packet) fit.1).0 ((==_iff _ _).0 c.sum);
        },
        e,
      ),
  λ (v, e). Checks-udp_payload packet (IsFrame-Checks packet fit v) ∙ ap ok (sym e),
)
