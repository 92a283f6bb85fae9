-- ===== src/Tcp/Segment/Roundtrip.antt =====
-- Parsing what `build_tcp_segment_fields` wrote.
use ristux.Common.{ℕ, ◌<◌, ◌≡◌, some, List, arith, u16_mod, u32_mod}
use ristux.Tcp.{Ipv4Addr}
use ristux.Tcp.Segment.{parse_tcp_packet, build_tcp_segment_fields}

-- A segment built from fields in range parses to a packet with exactly those fields: the ports, the
-- sequence and acknowledgement numbers, the flags and the whole payload.
pub parse_tcp_packet-build :
    (src_ip dst_ip : Ipv4Addr) (src_port dst_port seq ack window flags : ℕ) (payload : List ℕ)
    → src_port < u16_mod
    → dst_port < u16_mod
    → seq < u32_mod
    → ack < u32_mod
    → parse_tcp_packet src_ip dst_ip
        (build_tcp_segment_fields src_port dst_port seq ack window flags payload)
      ≡ some (record {
        src_ip = src_ip;
        dst_ip = dst_ip;
        src_port = src_port;
        dst_port = dst_port;
        seq = seq;
        ack = ack;
        flags = flags;
        payload = payload;
      })
unfolding parse_tcp_packet build_tcp_segment_fields
parse_tcp_packet-build src_ip dst_ip src_port dst_port seq ack window flags payload hs hd hq ha =
    ground arith
