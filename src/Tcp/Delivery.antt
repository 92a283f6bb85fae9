-- ===== src/Tcp/Delivery.antt =====
-- Two endpoints of kernel/src/net/tcp.rs talking to each other: what one builds, the other parses
-- and handles.
use ristux.Common.{
  ℕ, ◌≤◌, ◌≡◌, some, List, [], ◌++◌, length, take, arith, wrapping_add, take-length,
}
use mathlib.Core.Path.{ap, ◌∙◌}
use ristux.Tcp.{Ipv4Addr, TcpPacket, TcpSocket, close_wait, flags_ack_psh, flags_ack_fin}
use ristux.Tcp.Segment.{parse_tcp_packet, tcp_sequence_span}
use ristux.Tcp.Segment.Roundtrip.{parse_tcp_packet-build}
use ristux.Tcp.Socket.{
  build_tcp_segment, build_outbound, accept_in_order_payload, handle_established_like,
  recv_window_available,
}
use ristux.Tcp.Socket.Valid.{SocketIsValid}
use ristux.Tcp.Socket.Receive.{handle_established_like_lem, delivered}

-- The packet that a segment of a socket carries.
abbrev pub packet_of : Ipv4Addr → Ipv4Addr → TcpSocket → ℕ → List ℕ → TcpPacket
packet_of src dst s flags payload = record {
  src_ip = src;
  dst_ip = dst;
  src_port = s.local_port;
  dst_port = s.remote_port;
  seq = s.seq;
  ack = s.ack;
  flags = flags;
  payload = payload;
}

pub parse-build_outbound :
    (src dst : Ipv4Addr) (s : TcpSocket) (flags : ℕ) (payload : List ℕ)
    → SocketIsValid s
    → parse_tcp_packet src dst (build_outbound s flags payload).segment
      ≡ some (packet_of src dst s flags payload)
unfolding build_outbound build_tcp_segment
parse-build_outbound src dst s flags payload v =
    parse_tcp_packet-build src dst s.local_port s.remote_port s.seq s.ack _ flags payload
      v.local_word v.remote_word v.seq_word v.ack_word

module _ (src dst : Ipv4Addr) (s r : TcpSocket) (payload : List ℕ) (vs : SocketIsValid s)
    (vr : SocketIsValid r) (due : r.ack ≡ s.seq)
    (fits : length payload ≤ recv_window_available r) where
  whole : delivered r (packet_of src dst s flags_ack_psh payload) ≡ length payload
  whole = ground arith

  -- The segment that `send` builds for bytes that fit the receiver's window parses to a packet that,
  -- handled by an established socket which expects the sender's sequence number, appends exactly
  -- those bytes to its buffer, leaves it in its state, and moves its acknowledgement number to the
  -- sender's next sequence number.
  pub deliver :
      let p = packet_of src dst s flags_ack_psh payload in
      let t = (handle_established_like r p close_wait).0 in
      (parse_tcp_packet src dst (build_outbound s flags_ack_psh payload).segment ≡ some p)
      × (t.rx_buffer ≡ r.rx_buffer ++ payload)
      × (t.ack ≡ wrapping_add s.seq (tcp_sequence_span flags_ack_psh (length payload)))
      × (t.state ≡ r.state)
  unfolding tcp_sequence_span
  deliver =
      let p = packet_of src dst s flags_ack_psh payload in
      let got = handle_established_like_lem r p close_wait vr in
      (
        parse-build_outbound src dst s flags_ack_psh payload vs,
        got.0 ∙ ap (λ n. r.rx_buffer ++ take n payload) whole ∙ rw take-length,
        omega (arith, got.1, whole),
        got.3,
      )

-- The FIN that `close` builds parses to a packet that, handled by an established socket which expects
-- its sequence number, moves the socket to CLOSE_WAIT with nothing added to its buffer, and its
-- acknowledgement number past the FIN, to the sender's next sequence number.
pub deliver_fin :
    (src dst : Ipv4Addr) (s r : TcpSocket)
    → SocketIsValid s
    → SocketIsValid r
    → r.ack ≡ s.seq
    → let p = packet_of src dst s flags_ack_fin [] in
      let t = (handle_established_like r p close_wait).0 in
      (parse_tcp_packet src dst (build_outbound s flags_ack_fin []).segment ≡ some p)
      × (t.rx_buffer ≡ r.rx_buffer)
      × (t.ack ≡ wrapping_add s.seq (tcp_sequence_span flags_ack_fin 0))
      × (t.state ≡ close_wait)
unfolding tcp_sequence_span handle_established_like accept_in_order_payload
deliver_fin src dst s r vs vr due =
    (parse-build_outbound src dst s flags_ack_fin [] vs, ground arith, ground arith, ground arith)
