-- ===== src/Vpn/Wire.antt =====
-- The synthetic IPv4/UDP frames of crates/omni-vpn/src/wire.rs: `checksum`, `udp_frame` and
-- `udp_payload`. A byte slice is a list of numbers below 256; `sum & 65535` and `sum >> 16` are
-- written `% 65536` and `/ 65536`.
pub mod Sum
pub mod Frame
pub mod Parse
pub mod RoundTrip
pub mod Positions
pub mod Corruption
mod Tests
use omni_os.Prelude.{
  ℕ, zero, suc, ◌+◌, ◌-◌, ◌*◌, ◌/◌, ◌%◌, true, false, ◌&&◌, List, [], ◌∷◌, ◌++◌, leb, ltb, ◌==◌,
  if◌then◌else◌, Result, ok, ensure, ◌>>◌, length, get_or, take, drop, replicate,
}

abbrev pub Bytes : Type 0
Bytes = List ℕ

-- `Ipv4Addr`, by its octets.
pub record Ipv4 : Type 0 where
  pub octet_0 : ℕ
  pub octet_1 : ℕ
  pub octet_2 : ℕ
  pub octet_3 : ℕ

abbrev pub octets : Ipv4 → Bytes
octets a = a.octet_0 ∷ a.octet_1 ∷ a.octet_2 ∷ a.octet_3 ∷ []

pub data Error : Type 0 where
  payload_too_large not_udp ip_length ip_checksum udp_length udp_checksum : Error

-- `u16::from_be_bytes` and `u16::to_be_bytes`.
abbrev pub from_be : ℕ → ℕ → ℕ
from_be hi lo = hi * 256 + lo

abbrev pub to_be : ℕ → Bytes
to_be n = (n / 256) ∷ (n % 256) ∷ []

-- The sum over `bytes.chunks(2)`; a last single byte is followed by 0.
abbrev pub word_sum : Bytes → ℕ
word_sum [] = 0
word_sum (a ∷ []) = from_be a 0
word_sum (a ∷ b ∷ rest) = from_be a b + word_sum rest

-- `while sum > 65535`, on fuel: two rounds are enough for every `u32`.
abbrev pub fold_carries : ℕ → ℕ → ℕ
fold_carries zero sum = sum
fold_carries (suc fuel) sum = elim (ltb 65535 sum) [
  | true ↦ fold_carries fuel (sum % 65536 + sum / 65536)
  | false ↦ sum
]

-- `!(sum as u16)` is the complement of the low 16 bits.
pub checksum : Bytes → ℕ
checksum bytes = 65535 - fold_carries 2 (word_sum bytes) % 65536

-- `packet[at..at + bytes.len()].copy_from_slice(bytes)`, within the packet.
abbrev pub write_at : ℕ → Bytes → Bytes → Bytes
write_at zero [] packet = packet
write_at zero (b ∷ bytes) [] = []
write_at zero (b ∷ bytes) (x ∷ packet) = b ∷ write_at zero bytes packet
write_at (suc at) bytes [] = []
write_at (suc at) bytes (x ∷ packet) = x ∷ write_at at bytes packet

-- `packet[from..to]`
abbrev pub slice : ℕ → ℕ → Bytes → Bytes
slice from to packet = take (to - from) (drop from packet)

-- The frame up to the IP checksum, with that field still 0.
abbrev pub ip_part : Ipv4 → Ipv4 → Bytes → Bytes
ip_part source destination payload =
    let packet = replicate (28 + length payload) 0 in
    let packet = write_at 0 (0x45 ∷ []) packet in
    let packet = write_at 2 (to_be ((28 + length payload) % 65536)) packet in
    let packet = write_at 6 (0x40 ∷ []) packet in
    let packet = write_at 8 (64 ∷ []) packet in
    let packet = write_at 9 (17 ∷ []) packet in
    let packet = write_at 12 (octets source) packet in write_at 16 (octets destination) packet

-- Then the IP checksum, the UDP header with its checksum still 0, and the payload.
abbrev pub udp_part : Bytes → Bytes → Bytes
udp_part payload packet =
    let packet = write_at 10 (to_be (checksum (slice 0 20 packet))) packet in
    let packet = write_at 20 (to_be 42000) packet in
    let packet = write_at 22 (to_be 42001) packet in
    let packet = write_at 24 (to_be ((length payload % 65536 + 8) % 65536)) packet in
    write_at 28 payload packet

-- `sum == 0` is sent as 65535.
abbrev pub nonzero : ℕ → ℕ
nonzero sum = if sum == 0 then 65535 else sum

abbrev pub frame_pseudo : Ipv4 → Ipv4 → Bytes → Bytes → Bytes
frame_pseudo source destination payload packet =
    octets source
    ++ (octets destination
        ++ (0 ∷ 17 ∷ (to_be ((length payload % 65536 + 8) % 65536) ++ drop 20 packet)))

pub udp_frame : Ipv4 → Ipv4 → Bytes → Result Error Bytes
udp_frame source destination payload = do
  ensure (leb (length payload) 1200) payload_too_large
  let packet = udp_part payload (ip_part source destination payload)
  let sum = checksum (frame_pseudo source destination payload packet)
  ok (write_at 26 (to_be (nonzero sum)) packet)

abbrev pub packet_pseudo : Bytes → Bytes
packet_pseudo packet = slice 12 20 packet ++ (0 ∷ 17 ∷ (slice 24 26 packet ++ drop 20 packet))

abbrev pub at : Bytes → ℕ → ℕ
at packet i = get_or packet i 0

pub udp_payload : Bytes → Result Error Bytes
udp_payload packet = do
  ensure (leb 28 (length packet) && (at packet 0 == 0x45 && at packet 9 == 17)) not_udp
  ensure (from_be (at packet 2) (at packet 3) == length packet) ip_length
  ensure (checksum (take 20 packet) == 0) ip_checksum
  ensure (from_be (at packet 24) (at packet 25) == length packet - 20) udp_length
  ensure (checksum (packet_pseudo packet) == 0) udp_checksum
  ok (drop 28 packet)
