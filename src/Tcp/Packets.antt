-- ===== src/Tcp/Packets.antt =====
-- `handle_packet` of kernel/src/net/tcp.rs and the two functions that it hands a packet to.
pub mod States
pub mod Reset
use ristux.Common.{
  ℕ, suc, Bool, true, false, ◌==◌, ◌&&◌, not, Option, none, some, List, [], ◌∷◌, ◌++◌, length,
  get_elem?, set, remove, position, if◌then◌else◌, has_flag, wrapping_add, bit_and,
}
use ristux.Tcp.{
  TcpState, closed, listen, syn_sent, established, close_wait, fin_wait1, fin_wait2, closing,
  last_ack, time_wait, TcpError, connection_reset, TcpPacket, TcpOutbound, TcpSocket, TcpStack,
  tcp_flag_fin, tcp_flag_syn, tcp_flag_rst, tcp_flag_ack, flags_syn_ack, flags_rst_ack, is_listen,
}
use ristux.Tcp.Segment.{build_tcp_segment_fields, tcp_sequence_span}
use ristux.Tcp.Socket.{
  matches_packet, build_outbound, fin_acknowledged, enter_time_wait, reply, handle_established_like,
  handle_fin_wait1, handle_fin_wait2, handle_closing,
}
use ristux.Tcp.Socket
use ristux.Tcp.Retransmit.{Flow, acknowledge, remove_retransmits}

unfoldable pub build_reset_for_unmatched : TcpPacket → TcpOutbound
build_reset_for_unmatched packet =
    let span = tcp_sequence_span packet.flags (length packet.payload) in
    record {
      dst_ip = packet.src_ip;
      segment =
          if has_flag packet.flags tcp_flag_ack
          then build_tcp_segment_fields packet.dst_port packet.src_port packet.ack 0 0 tcp_flag_rst
              []
          else build_tcp_segment_fields packet.dst_port packet.src_port 0
              (wrapping_add packet.seq span) 0 flags_rst_ack [];
    }

-- The connection that a packet belongs to, seen from this side.
abbrev pub packet_flow : TcpPacket → Flow
packet_flow p = record { ip = p.src_ip; remote_port = p.src_port; local_port = p.dst_port }

abbrev pub push_outbound : Option TcpOutbound → TcpStack → TcpStack
push_outbound none st = st
push_outbound (some out) st = record st { pending_outbound = st.pending_outbound ++ (out ∷ []) }

-- `if packet.flags & TCP_FLAG_ACK != 0 { self.acknowledge(..) }`.
unfoldable pub acknowledge_if : TcpPacket → TcpStack → TcpStack
acknowledge_if p st =
    if has_flag p.flags tcp_flag_ack then acknowledge (packet_flow p) p.ack st else st

-- The cases of the `match` in `handle_socket_packet` that have a body of their own.
unfoldable pub handle_syn_sent : TcpSocket → TcpPacket → TcpSocket × Option TcpOutbound
handle_syn_sent s p =
    let t = record s {
      ack = wrapping_add p.seq 1;
      seq = p.ack;
      state = established;
      error = none;
      time_wait_deadline_tick = none;
    } in
    if bit_and p.flags flags_syn_ack == flags_syn_ack then (t, reply true t) else (s, none)

unfoldable pub handle_last_ack : TcpSocket → TcpPacket → TcpSocket × Option TcpOutbound
handle_last_ack s p = (
  if fin_acknowledged s p then record s { state = closed; time_wait_deadline_tick = none } else s,
  reply (has_flag p.flags tcp_flag_fin) s,
)

unfoldable pub handle_time_wait : ℕ → TcpSocket → TcpPacket → TcpSocket × Option TcpOutbound
handle_time_wait now s p =
    let t = enter_time_wait now s in
    if has_flag p.flags tcp_flag_fin then (t, reply true t) else (s, none)

-- The peer that a SYN creates, as `build_outbound` sees it; its `seq` then counts the SYN.
unfoldable pub new_peer : TcpSocket → TcpPacket → TcpSocket
new_peer s p = record (Socket.new s.local_port) {
  remote_ip = p.src_ip;
  remote_port = p.src_port;
  state = established;
  seq = 1;
  ack = wrapping_add p.seq 1;
}

-- The `match` on the state, but for LISTEN, which does not touch the socket.
unfoldable pub on_packet : ℕ → TcpState → TcpSocket → TcpPacket → TcpSocket × Option TcpOutbound
on_packet now syn_sent s p = handle_syn_sent s p
on_packet now established s p = handle_established_like s p close_wait
on_packet now close_wait s p = handle_established_like s p close_wait
on_packet now fin_wait1 s p = handle_fin_wait1 now s p
on_packet now fin_wait2 s p = handle_fin_wait2 now s p
on_packet now closing s p = handle_closing now s p
on_packet now last_ack s p = handle_last_ack s p
on_packet now time_wait s p = handle_time_wait now s p
on_packet now _ s p = (s, none)

-- The LISTEN case: the SYN|ACK is built from the peer, and the peer queued.
unfoldable pub on_listen : TcpSocket → TcpPacket → TcpStack → TcpStack
on_listen s p st =
    let peer = new_peer s p in
    let queued = record peer { seq = wrapping_add peer.seq 1 } in
    if has_flag p.flags tcp_flag_syn
    then push_outbound (some (build_outbound peer flags_syn_ack []))
        (record st { accept_queue = st.accept_queue ++ (queued ∷ []) })
    else st

unfoldable pub reset_socket : TcpSocket → TcpSocket
reset_socket s = record s {
  state = closed;
  error = some connection_reset;
  time_wait_deadline_tick = none;
}

-- `self.sockets[index]` is the socket that the caller's `position` found.
unfoldable pub handle_socket_packet : ℕ → ℕ → TcpSocket → TcpPacket → TcpStack → Bool × TcpStack
handle_socket_packet now index s p st =
    let reset =
      remove_retransmits (packet_flow p)
        (record st { sockets = set st.sockets index (reset_socket s) }) in
    let acked = acknowledge_if p st in
    let (t, out) = on_packet now s.state s p in
    let moved = push_outbound out (record acked { sockets = set acked.sockets index t }) in
    if has_flag p.flags tcp_flag_rst && not (is_listen s.state)
    then (true, reset)
    else (true, if is_listen s.state then on_listen s p acked else moved)

-- The states that `handle_queued_accept_packet` matches on; the others answer nothing.
unfoldable pub on_queued_packet :
    ℕ → TcpState → TcpSocket → TcpPacket → TcpSocket × Option TcpOutbound
on_queued_packet now established s p = handle_established_like s p close_wait
on_queued_packet now close_wait s p = handle_established_like s p close_wait
on_queued_packet now fin_wait1 s p = handle_fin_wait1 now s p
on_queued_packet now fin_wait2 s p = handle_fin_wait2 now s p
on_queued_packet now closing s p = handle_closing now s p
on_queued_packet now time_wait s p = handle_time_wait now s p
on_queued_packet now _ s p = (s, none)

unfoldable pub handle_queued_accept_packet :
    ℕ → ℕ → TcpSocket → TcpPacket → TcpStack → Bool × TcpStack
handle_queued_accept_packet now index s p st =
    let acked = acknowledge_if p st in
    let (t, out) = on_queued_packet now s.state s p in
    if has_flag p.flags tcp_flag_rst
    then (
      true,
      remove_retransmits (packet_flow p)
          (record st { accept_queue = remove st.accept_queue index }),
    )
    else (true, push_outbound out (record acked { accept_queue = set acked.accept_queue index t }))

abbrev pub listens_for : TcpPacket → TcpSocket → Bool
listens_for p s = is_listen s.state && s.local_port == p.dst_port

-- `iter().position(..)` with the element found.
unfoldable pub find_from : ℕ → (TcpSocket → Bool) → List TcpSocket → Option (ℕ × TcpSocket)
find_from i test [] = none
find_from i test (s ∷ rest) =
    let later = find_from (suc i) test rest in if test s then some (i, s) else later

unfoldable pub handle_packet : ℕ → TcpPacket → TcpStack → Bool × TcpStack
handle_packet now p st = elim (find_from 0 (λ s. matches_packet s p) st.sockets) [
  | some (i, s) ↦ handle_socket_packet now i s p st
  | none ↦ elim (find_from 0 (λ s. matches_packet s p) st.accept_queue) [
    | some (i, s) ↦ handle_queued_accept_packet now i s p st
    | none ↦ elim (find_from 0 (listens_for p) st.sockets) [
      | some (i, s) ↦ handle_socket_packet now i s p st
      | none ↦
          if has_flag p.flags tcp_flag_rst
          then (false, st)
          else (true, push_outbound (some (build_reset_for_unmatched p)) st)
    ]
  ]
]
