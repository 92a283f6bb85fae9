-- ===== src/Tcp/Tests.antt =====
-- Concrete inputs for kernel/src/net/tcp.rs: the endpoints of its self-test, runs, and the theorems
-- at these inputs.
use ristux.Common.{
  ℕ, Bool, not, leb, length, map, retain, inl, inr, ◌+◌, ◌%◌, ◌<◌, ◌≤◌, ◌≡◌, refl, true, false,
  none, some, [], ◌∷◌, ◌++◌, All, ◌||◌, if◌then◌else◌, has_flag, wrapping_add, arith, u32_mod,
  u16_mod,
}
use ristux.Tcp.{
  listen, established, close_wait, fin_wait1, fin_wait2, time_wait, Ipv4Addr, TcpPacket,
  TcpOutbound, TcpRetransmit, TcpSocket, TcpStack, tcp_flag_fin, tcp_flag_rst, flags_ack_psh,
  flags_ack_fin,
}
use ristux.Tcp.Segment.{
  build_tcp_segment_fields, parse_tcp_packet, checksum, checksum_sum, tcp_sequence_span,
}
use ristux.Tcp.Segment.Roundtrip.{parse_tcp_packet-build}
use ristux.Tcp.Segment.Checksum.{weigh, with_pseudo_header, checksum_lem}
use ristux.Tcp.Socket.{
  accept_in_order_payload, consume_remote_fin, enter_time_wait, handle_established_like,
  handle_fin_wait1, handle_fin_wait2, fin_acknowledged, seq_at_or_after, build_outbound,
}
use ristux.Tcp.Socket.Valid.{SocketIsValid, PacketIsValid}
use ristux.Tcp.Socket.Receive.{
  Received, has_payload, fin_due, after_fin_wait1, handle_established_like_lem,
  handle_fin_wait1_lem, handle_fin_wait2_lem,
}
use ristux.Tcp.Stack
use ristux.Tcp.Stack.{open_socket, connect, recv, accept}
use ristux.Tcp.Packets.{on_packet, handle_packet}
use ristux.Tcp.Packets.States.{PacketEdge, on_packet-PacketEdge}
use ristux.Tcp.Packets.Reset.{reset_for, handle_packet-unmatched}
use ristux.Tcp.Retransmit.{
  Flow, poll_retransmit, expire_time_wait, expire_socket, poll_entries, poll_entry, poll_step,
  apply_poll, fail_all, fail_socket, fail_first,
}
use ristux.Tcp.Retransmit.Sent.{segment_of, is_resent, renewed, is_lost}
use ristux.Tcp.Retransmit.Timeout.{IsPending, IsUnexpired, poll_retransmit-settles}
use ristux.Tcp.Retransmit.Budget.{polls, count, attempts_left, resends-le}
use ristux.Tcp.Invariant.{StackIsValid}
use ristux.Tcp.Invariant.Reach.{Step, here, next, Reach-StackIsValid}
use ristux.Tcp.Delivery.{packet_of, deliver}

abbrev here_ip : Ipv4Addr
here_ip = record { b0 = 10; b1 = 0; b2 = 2; b3 = 15 }

abbrev peer_ip : Ipv4Addr
peer_ip = record { b0 = 10; b1 = 0; b2 = 2; b3 = 2 }

-- An endpoint and its mirror image at the peer.
abbrev conn : TcpSocket
conn = record {
  local_port = 49152;
  remote_ip = peer_ip;
  remote_port = 443;
  state = established;
  seq = 5000;
  ack = 9000;
  window = 4096;
  rx_buffer = 7 ∷ [];
  error = none;
  time_wait_deadline_tick = none;
}

abbrev peer : TcpSocket
peer = record conn {
  local_port = 443;
  remote_ip = here_ip;
  remote_port = 49152;
  seq = 9000;
  ack = 5000;
}

abbrev closing_conn : TcpSocket
closing_conn = record conn { state = fin_wait1; seq = 5001 }

abbrev half_closed : TcpSocket
half_closed = record conn { state = fin_wait2; seq = 5001 }

-- Two bytes and a FIN, in order.
abbrev last_packet : TcpPacket
last_packet = record {
  src_ip = peer_ip;
  dst_ip = here_ip;
  src_port = 443;
  dst_port = 49152;
  seq = 9000;
  ack = 5001;
  flags = flags_ack_fin;
  payload = 1 ∷ 2 ∷ [];
}

conn-IsValid : SocketIsValid conn
conn-IsValid = ground arith

peer-IsValid : SocketIsValid peer
peer-IsValid = ground arith

closing_conn-IsValid : SocketIsValid closing_conn
closing_conn-IsValid = ground arith

half_closed-IsValid : SocketIsValid half_closed
half_closed-IsValid = ground arith

last_packet-IsValid : PacketIsValid last_packet
last_packet-IsValid = omega arith

-- Both FINs are done: TIME_WAIT, three numbers further, two bytes more.
both_fins :
    let t = (handle_fin_wait1 100 closing_conn last_packet).0 in
    (t.state ≡ time_wait) × (t.ack ≡ 9003) × (t.rx_buffer ≡ 7 ∷ 1 ∷ 2 ∷ [])
unfolding handle_fin_wait1 fin_acknowledged seq_at_or_after accept_in_order_payload
    consume_remote_fin enter_time_wait
both_fins = (refl, refl, refl)

parse_tcp_packet-build_example :
    parse_tcp_packet here_ip peer_ip
      (build_tcp_segment_fields 49152 443 5000 9000 4096 16 (1 ∷ 2 ∷ []))
    ≡ some (record {
      src_ip = here_ip;
      dst_ip = peer_ip;
      src_port = 49152;
      dst_port = 443;
      seq = 5000;
      ack = 9000;
      flags = 16;
      payload = 1 ∷ 2 ∷ [];
    })
parse_tcp_packet-build_example =
    parse_tcp_packet-build here_ip peer_ip 49152 443 5000 9000 4096 16 (1 ∷ 2 ∷ []) (omega arith)
      (omega arith) (omega arith) (omega arith)

checksum_lem_example :
    (c : ℕ) × (checksum here_ip peer_ip (255 ∷ 255 ∷ 3 ∷ []) ≡ some c)
    × (c < u16_mod)
    × (checksum_sum here_ip peer_ip (255 ∷ 255 ∷ 3 ∷ []) < u32_mod)
    × ((weigh true (with_pseudo_header here_ip peer_ip (255 ∷ 255 ∷ 3 ∷ [])) + c) % 65535 ≡ 0)
checksum_lem_example =
    checksum_lem here_ip peer_ip (255 ∷ 255 ∷ 3 ∷ []) (omega arith) (omega arith) (omega arith)
      (omega arith)

handle_established_like_lem_example :
    Received conn last_packet
      (if fin_due conn last_packet then close_wait else established)
      (has_payload last_packet || has_flag flags_ack_fin tcp_flag_fin)
      (handle_established_like conn last_packet close_wait)
handle_established_like_lem_example =
    handle_established_like_lem conn last_packet close_wait conn-IsValid

handle_fin_wait1_lem_example :
    Received closing_conn last_packet
      (after_fin_wait1
        (fin_due closing_conn last_packet)
        (fin_acknowledged closing_conn last_packet)
        fin_wait1)
      (has_payload last_packet || fin_due closing_conn last_packet)
      (handle_fin_wait1 100 closing_conn last_packet)
handle_fin_wait1_lem_example =
    handle_fin_wait1_lem 100 closing_conn last_packet closing_conn-IsValid

handle_fin_wait2_lem_example :
    Received half_closed last_packet
      (if fin_due half_closed last_packet then time_wait else fin_wait2)
      (has_payload last_packet || fin_due half_closed last_packet)
      (handle_fin_wait2 100 half_closed last_packet)
handle_fin_wait2_lem_example = handle_fin_wait2_lem 100 half_closed last_packet half_closed-IsValid

on_packet-PacketEdge_example :
    PacketEdge conn last_packet established (on_packet 100 established conn last_packet).0.state
on_packet-PacketEdge_example =
    on_packet-PacketEdge 100 conn last_packet conn-IsValid established refl

deliver_example :
    let p = packet_of here_ip peer_ip conn flags_ack_psh (1 ∷ 2 ∷ 3 ∷ []) in
    let t = (handle_established_like peer p close_wait).0 in
    (parse_tcp_packet here_ip peer_ip (build_outbound conn flags_ack_psh (1 ∷ 2 ∷ 3 ∷ [])).segment
      ≡ some p)
    × (t.rx_buffer ≡ 7 ∷ 1 ∷ 2 ∷ 3 ∷ [])
    × (t.ack ≡ wrapping_add 5000 (tcp_sequence_span flags_ack_psh 3))
    × (t.state ≡ established)
deliver_example =
    deliver here_ip peer_ip conn peer (1 ∷ 2 ∷ 3 ∷ []) conn-IsValid peer-IsValid refl (omega arith)

abbrev flow : Flow
flow = record { ip = peer_ip; remote_port = 443; local_port = 49152 }

abbrev entry : TcpRetransmit
entry = record {
  dst_ip = peer_ip;
  local_port = 49152;
  remote_port = 443;
  end_seq = 5001;
  segment = 1 ∷ [];
  deadline_tick = 25;
  attempts = 0;
}

abbrev old_entry : TcpRetransmit
old_entry = record entry { end_seq = 4294967290 }

-- A listener, an established connection, two peers that wait, and two segments in flight.
abbrev busy : TcpStack
busy = record {
  sockets = record conn { state = listen; local_port = 22; remote_port = 0 } ∷ conn ∷ [];
  accept_queue =
      record conn { local_port = 80; remote_port = 1 }
      ∷ record conn { local_port = 443; remote_port = 2 }
      ∷ [];
  pending_outbound = [];
  retransmits = entry ∷ record entry { end_seq = 5002; attempts = 3 } ∷ [];
}

-- The segments of `entry`, told by their length.
abbrev is_short : TcpOutbound → Bool
is_short out = leb (length out.segment) 3

resends-le_example :
    count is_short (polls (30 ∷ 40 ∷ 90 ∷ 300 ∷ 1000 ∷ 9000 ∷ []) busy).pending_outbound
      + attempts_left is_short (polls (30 ∷ 40 ∷ 90 ∷ 300 ∷ 1000 ∷ 9000 ∷ []) busy).retransmits
    ≤ count is_short busy.pending_outbound + attempts_left is_short busy.retransmits
resends-le_example = resends-le is_short (30 ∷ 40 ∷ 90 ∷ 300 ∷ 1000 ∷ 9000 ∷ []) busy

abbrev waits : TcpStack
waits = record busy { retransmits = entry ∷ [] }

-- The bound is reached.
resends_all :
    (count is_short (polls (30 ∷ 90 ∷ 300 ∷ 1000 ∷ 9000 ∷ []) waits).pending_outbound ≡ 3)
    × (attempts_left is_short waits.retransmits ≡ 3)
unfolding poll_retransmit expire_time_wait expire_socket poll_entries poll_entry poll_step
    apply_poll fail_all fail_socket fail_first
resends_all = (refl, refl)

poll_retransmit-settles_example :
    All (IsPending 30) (poll_retransmit 30 busy).1.retransmits
    × All (IsUnexpired 30) (poll_retransmit 30 busy).1.sockets
    × ((poll_retransmit 30 busy).1.pending_outbound
        ≡ [] ++ map segment_of (retain (is_resent 30) busy.retransmits))
    × ((poll_retransmit 30 busy).1.retransmits
        ≡ map (renewed 30) (retain (λ e. not (is_lost 30 busy.retransmits e)) busy.retransmits))
poll_retransmit-settles_example = poll_retransmit-settles 30 busy (omega arith)

abbrev stray : TcpPacket
stray = record last_packet { dst_port = 9 }

handle_packet-unmatched_example :
    (out : TcpOutbound) × (handle_packet 5 stray busy ≡ (
      if has_flag flags_ack_fin tcp_flag_rst
      then (false, busy)
      else (true, record busy { pending_outbound = [] ++ (out ∷ []) })))
    × (out.dst_ip ≡ peer_ip)
    × (parse_tcp_packet here_ip peer_ip out.segment ≡ some (reset_for here_ip stray))
handle_packet-unmatched_example =
    handle_packet-unmatched 5 stray busy
      (inl (λ e. absurd (omega (arith, e))), (inl (λ e. absurd (omega (arith, e))), tt))
      (inl (λ e. absurd (omega (arith, e))), (inl (λ e. absurd (omega (arith, e))), tt))
      (inr (λ e. absurd (omega (arith, e))), (inr (λ e. absurd (omega (arith, e))), tt)) here_ip
      (omega arith)

Reach-StackIsValid_example :
    StackIsValid (poll_retransmit 40 (connect 3 0 peer_ip 443 (open_socket Stack.new).1).1).1
Reach-StackIsValid_example = Reach-StackIsValid (
    next
      (next (next here (Step.opens Stack.new))
        (Step.connects (open_socket Stack.new).1 3 0 peer_ip 443 (omega arith)))
      (Step.polls (connect 3 0 peer_ip 443 (open_socket Stack.new).1).1 40))
