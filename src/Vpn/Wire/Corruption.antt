-- ===== src/Vpn/Wire/Corruption.antt =====
-- A changed payload byte is always detected; what the parser accepts, for packets of bytes.
use omni_os.Prelude.{
  ◌==◌, ==_iff, ne→==_false, length, get_or, set, drop, All, ok, err, ℕ, ◌+◌, ◌-◌, ◌*◌, ◌%◌, ◌≤◌,
  ◌<◌, ◌≡◌, refl, sym, ◌≢◌, ◌↔◌, ◌⊎◌, inl, inr, false, arith,
}
use omni_os.Vpn.Wire.{Bytes, at, word_sum, packet_pseudo, udp_payload, checksum, udp_checksum}
use omni_os.Vpn.Wire.Sum.{IsByte, checksum-eq-zero_iff}
use omni_os.Vpn.Wire.Parse.{SumsFit, IsFrame, udp_payload-Checks, udp_payload-ok_iff, shape_iff}
use omni_os.Vpn.Wire.Positions.{
  length-set, get_or-set_lt, take-set, drop-set, length-drop, get_or-drop, get_or-byte,
  word_sum-set, weight_cases, slice-set, All-set, weight, pseudo_parts, bytes-SumsFit,
}

-- Two sums that differ by a byte, in a weight, are not both multiples of 65535.
not_both :
    (m n w a b : ℕ)
    → (w ≡ 256) ⊎ (w ≡ 1)
    → a < 256
    → b < 256
    → a ≢ b
    → m + w * a ≡ n + w * b
    → n % 65535 ≡ 0
    → m % 65535 ≢ 0
not_both m n w a b (inl e) ha hb ne sum zn zm = let q = rw e at sum in omega arith
not_both m n w a b (inr e) ha hb ne sum zn zm = let q = rw e at sum in omega arith

module _ (p : Bytes) (i v : ℕ) (inside : i < length p) (late : 28 ≤ i) where
  pseudo-set :
      word_sum (packet_pseudo (set p i v)) + weight (i - 20) * get_or p i 0
      ≡ word_sum (packet_pseudo p) + weight (i - 20) * v
  pseudo-set =
      let n = length-set p i v in
      let d = length-drop 20 p in
      let s = word_sum-set (drop 20 p) (i - 20) v (omega arith) in
      let g = get_or-drop 20 (i - 20) p 0 in
      let e : 20 + (i - 20) ≡ i = omega arith in
      rw
        (
          pseudo_parts (set p i v) (omega arith),
          pseudo_parts p (omega arith),
          slice-set 12 20 p i v (omega arith) (omega arith),
          slice-set 24 26 p i v (omega arith) (omega arith),
          drop-set 20 p i v (omega arith),
        )
        (let q = rw g at s in let q' = rw e at q in omega arith)

  changed :
      (payload : Bytes)
      → SumsFit p
      → SumsFit (set p i v)
      → All IsByte p
      → v < 256
      → v ≢ get_or p i 0
      → udp_payload p ≡ ok payload
      → udp_payload (set p i v) ≡ err udp_checksum
  unfolding udp_payload
  changed payload fit fit' bytes hv ne accepted =
      let (c, _) = udp_payload-Checks p payload accepted in
      let keeps = λ (j : ℕ) (h : j < 28). get_or-set_lt p i j v 0 (omega arith) in
      let n = length-set p i v in
      let zero_sum = (checksum-eq-zero_iff (packet_pseudo p) fit.1).0 ((==_iff _ _).0 c.sum) in
      let moved =
        not_both _ (word_sum (packet_pseudo p)) (weight (i - 20)) (get_or p i 0) v
          (weight_cases (i - 20)) (get_or-byte p i bytes) hv (λ e. ne (sym e)) pseudo-set
          zero_sum.1 in
      let bad : (checksum (packet_pseudo (set p i v)) == 0) ≡ false =
        ne→==_false _ _ λ e. moved ((checksum-eq-zero_iff _ fit'.1).0 e).1 in
      rw
        (
          n,
          keeps 0 (omega arith),
          keeps 9 (omega arith),
          keeps 2 (omega arith),
          keeps 3 (omega arith),
          keeps 24 (omega arith),
          keeps 25 (omega arith),
          take-set 20 p i v (omega arith),
          c.shape,
          c.total,
          c.ip,
          c.udp,
          bad,
        )
        refl

-- The bounds that the parser's own checks give.
accepted_size :
    (p payload : Bytes)
    → All IsByte p
    → udp_payload p ≡ ok payload
    → (28 ≤ length p) × (length p ≤ 65535)
accepted_size p payload h accepted =
    let (c, _) = udp_payload-Checks p payload accepted in
    let s = (shape_iff (length p) (at p 0) (at p 9)).0 c.shape in
    let t = (==_iff _ _).0 c.total in
    let hi = get_or-byte p 2 h in let lo = get_or-byte p 3 h in (s.0, omega arith)

-- If a packet of bytes is accepted, then after the change of any one byte of its payload to another
-- byte it is refused, by the UDP checksum.
pub udp_payload-set :
    (p payload : Bytes) (i v : ℕ)
    → All IsByte p
    → udp_payload p ≡ ok payload
    → 28 ≤ i
    → i < length p
    → v < 256
    → v ≢ get_or p i 0
    → udp_payload (set p i v) ≡ err udp_checksum
udp_payload-set p payload i v h accepted late inside hv ne =
    let (long, short) = accepted_size p payload h accepted in
    let n = length-set p i v in
    changed p i v inside late payload (bytes-SumsFit p h long short)
      (bytes-SumsFit (set p i v) (All-set p i v hv h) (omega arith) (omega arith)) h hv ne accepted

-- A packet of at most 65535 bytes is accepted exactly when it is long enough for the two headers, has
-- the version, protocol and lengths of an IPv4/UDP datagram without options, and has both sums (of
-- the IP header, and of the UDP datagram with its pseudo-header) equal to a positive multiple of 65535;
-- the payload is then what follows the 28 bytes of headers.
pub udp_payload-IsFrame_iff :
    (p payload : Bytes)
    → All IsByte p
    → length p ≤ 65535
    → (udp_payload p ≡ ok payload) ↔ (IsFrame p × (payload ≡ drop 28 p))
udp_payload-IsFrame_iff p payload h short = (
  λ e. (udp_payload-ok_iff p payload (bytes-SumsFit p h (accepted_size p payload h e).0 short)).0 e,
  λ (v, e). (udp_payload-ok_iff p payload (bytes-SumsFit p h v.header_fits short)).1 (v, e),
)
