-- ===== src/Tcp/Socket.antt =====
-- `TcpSocket` of kernel/src/net/tcp.rs and the functions on one socket that handle a packet in each
-- connected state. A function that takes `&mut TcpSocket` returns the new socket beside its result.
-- `crate::time::monotonic_ticks()` is the argument `now`.
pub mod Valid
pub mod Receive
pub mod Sequence
use ristux.Common.{
  ℕ, ◌+◌, ◌-◌, ◌%◌, Bool, true, false, ◌==◌, ◌&&◌, ltb, Option, none, some, List, [], ◌∷◌, ◌++◌,
  length, take, min, if◌then◌else◌, has_flag, wrapping_add, wrapping_sub, saturating_add, u32_mod,
}
use ristux.Tcp.{
  TcpState, closed, listen, established, close_wait, fin_wait2, closing, time_wait, Ipv4Addr, ip_eq,
  TcpPacket, TcpOutbound, TcpRetransmit, TcpSocket, tcp_flag_fin, tcp_flag_ack, tcp_recv_window,
  tcp_retransmit_ticks, tcp_time_wait_ticks,
}
use ristux.Tcp.Segment.{build_tcp_segment_fields}

abbrev pub unspecified_ip : Ipv4Addr
unspecified_ip = record { b0 = 0; b1 = 0; b2 = 0; b3 = 0 }

unfoldable pub new : ℕ → TcpSocket
new local_port = record {
  local_port = local_port;
  remote_ip = unspecified_ip;
  remote_port = 0;
  state = closed;
  seq = 1;
  ack = 0;
  window = tcp_recv_window;
  rx_buffer = [];
  error = none;
  time_wait_deadline_tick = none;
}

unfoldable pub start_listen : TcpSocket → TcpSocket
start_listen s = record s { state = listen; time_wait_deadline_tick = none }

-- `saturating_sub` is the subtraction of the natural numbers.
abbrev pub recv_window_available : TcpSocket → ℕ
recv_window_available s = s.window - length s.rx_buffer

abbrev pub advertised_window : TcpSocket → ℕ
advertised_window s = min (recv_window_available s) 65535

abbrev pub matches_packet : TcpSocket → TcpPacket → Bool
matches_packet s packet =
    s.local_port == packet.dst_port
    && s.remote_port == packet.src_port
    && ip_eq s.remote_ip packet.src_ip

unfoldable pub build_tcp_segment : TcpSocket → ℕ → List ℕ → List ℕ
build_tcp_segment s flags payload =
    build_tcp_segment_fields s.local_port s.remote_port s.seq s.ack (advertised_window s) flags
      payload

unfoldable pub build_outbound : TcpSocket → ℕ → List ℕ → TcpOutbound
build_outbound s flags payload = record {
  dst_ip = s.remote_ip;
  segment = build_tcp_segment s flags payload;
}

unfoldable pub build_retransmit : ℕ → TcpSocket → List ℕ → ℕ → ℕ → Option TcpRetransmit
build_retransmit now s segment seq span =
    if span == 0
    then none
    else some (record {
      dst_ip = s.remote_ip;
      local_port = s.local_port;
      remote_port = s.remote_port;
      end_seq = wrapping_add seq span;
      segment = segment;
      deadline_tick = saturating_add now tcp_retransmit_ticks;
      attempts = 0;
    })

-- `(seq.wrapping_sub(checkpoint) as i32) >= 0`: the difference is below 2 ^ 31.
unfoldable pub seq_at_or_after : ℕ → ℕ → Bool
seq_at_or_after seq checkpoint = ltb (wrapping_sub seq checkpoint) 2147483648

unfoldable pub fin_acknowledged : TcpSocket → TcpPacket → Bool
fin_acknowledged s packet = has_flag packet.flags tcp_flag_ack && seq_at_or_after packet.ack s.seq

unfoldable pub enter_time_wait : ℕ → TcpSocket → TcpSocket
enter_time_wait now s = record s {
  state = time_wait;
  time_wait_deadline_tick = some (saturating_add now tcp_time_wait_ticks);
}

-- The sequence number just after the payload, where the FIN stands.
abbrev pub fin_seq : TcpPacket → ℕ
fin_seq packet = wrapping_add packet.seq (length packet.payload % u32_mod)

-- How many bytes of a payload the receive window takes.
abbrev pub accepted : TcpSocket → TcpPacket → ℕ
accepted s packet = min (length packet.payload) (recv_window_available s)

unfoldable pub accept_in_order_payload : TcpSocket → TcpPacket → Bool × TcpSocket
accept_in_order_payload s packet =
    if length packet.payload == 0
    then (false, s)
    else if packet.seq == s.ack
    then if ltb 0 (accepted s packet)
      then (
        true,
        record s {
          ack = wrapping_add packet.seq (accepted s packet % u32_mod);
          rx_buffer = s.rx_buffer ++ take (accepted s packet) packet.payload;
        },
      )
      else (true, s)
    else (true, s)

unfoldable pub consume_remote_fin : TcpSocket → TcpPacket → Bool × TcpSocket
consume_remote_fin s packet =
    if has_flag packet.flags tcp_flag_fin
    then if fin_seq packet == s.ack
      then (true, record s { ack = wrapping_add (fin_seq packet) 1 })
      else (false, s)
    else (false, s)

-- `if ack_needed { Some(build_outbound(socket, TCP_FLAG_ACK, &[])) } else { None }`.
unfoldable pub reply : Bool → TcpSocket → Option TcpOutbound
reply ack_needed s = if ack_needed then some (build_outbound s tcp_flag_ack []) else none

-- Its first block is the body of `accept_in_order_payload`, written out a second time.
unfoldable pub handle_established_like :
    TcpSocket → TcpPacket → TcpState → TcpSocket × Option TcpOutbound
handle_established_like socket packet fin_state =
    let (payload_ack, s) = accept_in_order_payload socket packet in
    let after_fin : TcpSocket =
      if fin_seq packet == s.ack
      then record s { ack = wrapping_add (fin_seq packet) 1; state = fin_state }
      else s in
    if has_flag packet.flags tcp_flag_fin
    then (after_fin, reply true after_fin)
    else (s, reply payload_ack s)

unfoldable pub handle_fin_wait1 : ℕ → TcpSocket → TcpPacket → TcpSocket × Option TcpOutbound
handle_fin_wait1 now socket packet =
    let fin_acked = fin_acknowledged socket packet in
    let (payload_ack, s) = accept_in_order_payload socket packet in
    let (consumed, t) = consume_remote_fin s packet in
    let u : TcpSocket = if fin_acked then enter_time_wait now t else record t { state = closing } in
    let v : TcpSocket = if fin_acked then record t { state = fin_wait2 } else t in
    if consumed then (u, reply true u) else (v, reply payload_ack v)

unfoldable pub handle_fin_wait2 : ℕ → TcpSocket → TcpPacket → TcpSocket × Option TcpOutbound
handle_fin_wait2 now socket packet =
    let (payload_ack, s) = accept_in_order_payload socket packet in
    let (consumed, t) = consume_remote_fin s packet in
    let u = enter_time_wait now t in
    if consumed then (u, reply true u) else (t, reply payload_ack t)

-- The reply is built before the state changes.
unfoldable pub handle_closing : ℕ → TcpSocket → TcpPacket → TcpSocket × Option TcpOutbound
handle_closing now s packet = (
  if fin_acknowledged s packet then enter_time_wait now s else s,
  reply (has_flag packet.flags tcp_flag_fin) s,
)
