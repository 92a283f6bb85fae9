-- ===== src/Tcp/Segment.antt =====
-- The wire format of kernel/src/net/tcp.rs: `build_tcp_segment_fields`, `parse_tcp_packet`,
-- `checksum` and `tcp_sequence_span`.
pub mod Roundtrip
pub mod Checksum
use ristux.Common.{
  ℕ, zero, suc, ◌+◌, ◌-◌, ◌*◌, ◌/◌, ◌%◌, Bool, ltb, ◌||◌, Option, none, some, List, [], ◌∷◌, ◌++◌,
  length, drop, get_or, if◌then◌else◌, has_flag, u32_mod, u16_mod,
}
use ristux.Tcp.{Ipv4Addr, TcpPacket, tcp_flag_syn, tcp_flag_fin}

-- `u16::to_be_bytes`, `u32::to_be_bytes`, and their inverses on the bytes of a slice at an offset.
abbrev pub to_be_bytes16 : ℕ → List ℕ
to_be_bytes16 n = n / 256 % 256 ∷ n % 256 ∷ []

abbrev pub to_be_bytes32 : ℕ → List ℕ
to_be_bytes32 n = n / 16777216 % 256 ∷ n / 65536 % 256 ∷ n / 256 % 256 ∷ n % 256 ∷ []

abbrev pub byte_at : List ℕ → ℕ → ℕ
byte_at bytes i = get_or bytes i 0

abbrev pub from_be_bytes16 : List ℕ → ℕ → ℕ
from_be_bytes16 bytes i = byte_at bytes i * 256 + byte_at bytes (suc i)

abbrev pub from_be_bytes32 : List ℕ → ℕ → ℕ
from_be_bytes32 bytes i =
    byte_at bytes i * 16777216
    + byte_at bytes (suc i) * 65536
    + byte_at bytes (suc (suc i)) * 256
    + byte_at bytes (suc (suc (suc i)))

-- `u32::from(flag & bit != 0)`.
abbrev pub flag_bit : ℕ → ℕ → ℕ
flag_bit flags mask = if has_flag flags mask then 1 else 0

-- The addition is the release build's: it wraps.
unfoldable pub tcp_sequence_span : ℕ → ℕ → ℕ
tcp_sequence_span flags payload_len =
    (payload_len % u32_mod + (flag_bit flags tcp_flag_syn + flag_bit flags tcp_flag_fin)) % u32_mod

unfoldable pub build_tcp_segment_fields : ℕ → ℕ → ℕ → ℕ → ℕ → ℕ → List ℕ → List ℕ
build_tcp_segment_fields src_port dst_port seq ack window flags payload =
    to_be_bytes16 src_port
    ++ (to_be_bytes16 dst_port
        ++ (to_be_bytes32 seq
            ++ (to_be_bytes32 ack
                ++ (0x50 ∷ flags ∷ (to_be_bytes16 window ++ (0 ∷ 0 ∷ 0 ∷ 0 ∷ payload))))))

-- `none` is the source's `None`; every index read below is within the length test.
unfoldable pub parse_tcp_packet : Ipv4Addr → Ipv4Addr → List ℕ → Option TcpPacket
parse_tcp_packet src_ip dst_ip bytes =
    let data_offset : ℕ = byte_at bytes 12 / 16 * 4 in
    if ltb (length bytes) 20
    then none
    else (if ltb data_offset 20 || ltb (length bytes) data_offset
        then none
        else some (record {
          src_ip = src_ip;
          dst_ip = dst_ip;
          src_port = from_be_bytes16 bytes 0;
          dst_port = from_be_bytes16 bytes 2;
          seq = from_be_bytes32 bytes 4;
          ack = from_be_bytes32 bytes 8;
          flags = byte_at bytes 13;
          payload = drop data_offset bytes;
        }))

-- The loop of `add_words`: two bytes a round, a last odd byte in the high half.
unfoldable pub add_words : ℕ → List ℕ → ℕ
add_words sum [] = sum
add_words sum (hi ∷ []) = sum + hi * 256
add_words sum (hi ∷ lo ∷ rest) = add_words (sum + (hi * 256 + lo)) rest

-- `while sum >> 16 != 0 { sum = (sum & 0xffff) + (sum >> 16) }` on fuel.
unfoldable pub fold_carries : ℕ → ℕ → Option ℕ
fold_carries zero sum = none
fold_carries (suc fuel) sum =
    let rest = fold_carries fuel (sum % u16_mod + sum / u16_mod) in
    if ltb sum u16_mod then some sum else rest

abbrev pub ip_bytes : Ipv4Addr → List ℕ
ip_bytes ip = ip.b0 ∷ ip.b1 ∷ ip.b2 ∷ ip.b3 ∷ []

abbrev pub checksum_sum : Ipv4Addr → Ipv4Addr → List ℕ → ℕ
checksum_sum src dst segment =
    add_words (add_words (add_words 0 (ip_bytes src)) (ip_bytes dst) + 6 + length segment) segment

-- `!(sum as u16)` of the folded sum. Four rounds are enough for a sum below 2 ^ 32.
unfoldable pub checksum : Ipv4Addr → Ipv4Addr → List ℕ → Option ℕ
checksum src dst segment = elim (fold_carries 4 (checksum_sum src dst segment)) [
  | none ↦ none
  | some sum ↦ some (u16_mod - 1 - sum)
]
