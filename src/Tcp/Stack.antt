-- ===== src/Tcp/Stack.antt =====
-- The calls that the socket layer makes on a `TcpStack` of kernel/src/net/tcp.rs. A call returns its
-- `Result` beside the new stack; a socket handle is an index into `sockets`.
pub mod Receive
pub mod Accept
use ristux.Common.{
  ℕ, suc, ◌+◌, ◌%◌, Option, none, some, List, [], ◌∷◌, ◌++◌, length, get_elem?, set, if◌then◌else◌,
  wrapping_add, u16_mod,
}
use ristux.Common.Results.{Result, ok, err}
use ristux.Tcp.{
  TcpState, closed, syn_sent, established, close_wait, fin_wait1, fin_wait2, last_ack, time_wait,
  TcpError, not_connected, would_block, invalid_state, already_connected, in_progress, Ipv4Addr,
  TcpOutbound, TcpRetransmit, TcpSocket, TcpStack, tcp_flag_syn, flags_ack_psh, flags_ack_fin,
  is_listen, is_established,
}
use ristux.Tcp.Segment.{tcp_sequence_span}
use ristux.Tcp.Socket.{start_listen, build_outbound, build_retransmit}
use ristux.Tcp.Socket

unfoldable pub new : TcpStack
new = record { sockets = []; accept_queue = []; pending_outbound = []; retransmits = [] }

-- `open`, whose name is reserved.
unfoldable pub open_socket : TcpStack → ℕ × TcpStack
open_socket st =
    let local_port = (49152 + length st.sockets % u16_mod) % u16_mod in
    (length st.sockets, record st { sockets = st.sockets ++ (Socket.new local_port ∷ []) })

unfoldable pub bind_existing : ℕ → ℕ → TcpStack → Result (Unit {0}) TcpError × TcpStack
bind_existing socket local_port st = elim (get_elem? st.sockets socket) [
  | none ↦ (err invalid_state, st)
  | some s ↦
      (ok tt, record st { sockets = set st.sockets socket (record s { local_port = local_port }) })
]

unfoldable pub listen_on : ℕ → TcpStack → Result (Unit {0}) TcpError × TcpStack
listen_on socket st = elim (get_elem? st.sockets socket) [
  | none ↦ (err invalid_state, st)
  | some s ↦ (ok tt, record st { sockets = set st.sockets socket (start_listen s) })
]

abbrev pub push_some : Option TcpRetransmit → List TcpRetransmit → List TcpRetransmit
push_some none entries = entries
push_some (some entry) entries = entries ++ (entry ∷ [])

unfoldable pub queue_outbound : TcpOutbound → Option TcpRetransmit → TcpStack → TcpStack
queue_outbound outbound retransmit st = record st {
  retransmits = push_some retransmit st.retransmits;
  pending_outbound = st.pending_outbound ++ (outbound ∷ []);
}

-- The common end of `connect`, `send` and `close`: the segment is built and queued, the sequence
-- number advances by its span, and the socket is written back.
unfoldable pub transmit : ℕ → ℕ → TcpSocket → ℕ → List ℕ → TcpStack → TcpStack
transmit now socket s flags payload st =
    let outbound = build_outbound s flags payload in
    let span = tcp_sequence_span flags (length payload) in
    let retransmit = build_retransmit now s outbound.segment s.seq span in
    queue_outbound outbound retransmit
      (record st { sockets = set st.sockets socket (record s { seq = wrapping_add s.seq span }) })

-- The `match` on the state in `connect`.
abbrev pub connect_guard : TcpState → Result (Unit {0}) TcpError
connect_guard closed = ok tt
connect_guard syn_sent = err in_progress
connect_guard established = err already_connected
connect_guard _ = err invalid_state

unfoldable pub connect : ℕ → ℕ → Ipv4Addr → ℕ → TcpStack → Result (Unit {0}) TcpError × TcpStack
connect now socket remote_ip remote_port st = elim (get_elem? st.sockets socket) [
  | none ↦ (err invalid_state, st)
  | some s ↦ elim (connect_guard s.state) [
    | err e ↦ (err e, st)
    | ok _ ↦ (
      ok tt,
      transmit now socket
          (record s {
            remote_ip = remote_ip;
            remote_port = remote_port;
            state = syn_sent;
            error = none;
            time_wait_deadline_tick = none;
          })
          tcp_flag_syn [] st,
    )
  ]
]

-- `Vec::pop`: the last element and the rest.
unfoldable pub pop_last {ℓ} : {A : Type ℓ} → List A → Option (A × List A)
pop_last [] = none
pop_last (x ∷ xs) = elim (pop_last xs) [ none ↦ some (x, []) | some (y, ys) ↦ some (y, x ∷ ys) ]

unfoldable pub accept : ℕ → TcpStack → Result ℕ TcpError × TcpStack
accept socket st = elim (get_elem? st.sockets socket) [
  | none ↦ (err invalid_state, st)
  | some listener ↦
      if is_listen listener.state
      then elim (pop_last st.accept_queue) [
        | none ↦ (err would_block, st)
        | some (peer, queue) ↦ (
          ok (length st.sockets),
          record st { sockets = st.sockets ++ (peer ∷ []); accept_queue = queue },
        )
      ]
      else (err invalid_state, st)
]

unfoldable pub send : ℕ → ℕ → List ℕ → TcpStack → Result ℕ TcpError × TcpStack
send now socket bytes st = elim (get_elem? st.sockets socket) [
  | none ↦ (err invalid_state, st)
  | some s ↦ elim s.error [
    | some e ↦ (err e, st)
    | none ↦
        if is_established s.state
        then (ok (length bytes), transmit now socket s flags_ack_psh bytes st)
        else (err not_connected, st)
  ]
]

-- The loop of `recv` over the caller's buffer: the bytes read, the buffer and what is left.
unfoldable pub fill_buffer : List ℕ → List ℕ → ℕ × List ℕ × List ℕ
fill_buffer [] rx = (0, [], rx)
fill_buffer (slot ∷ buf) [] = (0, slot ∷ buf, [])
fill_buffer (slot ∷ buf) (byte ∷ rx) =
    let (read, buf', rx') = fill_buffer buf rx in (suc read, byte ∷ buf', rx')

-- The answer of `recv` with nothing buffered.
abbrev pub recv_empty : TcpState → Result ℕ TcpError
recv_empty established = err would_block
recv_empty close_wait = ok 0
recv_empty time_wait = ok 0
recv_empty closed = ok 0
recv_empty _ = err not_connected

unfoldable pub recv_buffered :
    ℕ → TcpSocket → List ℕ → List ℕ → TcpStack → Result ℕ TcpError × List ℕ × TcpStack
recv_buffered socket s [] buf st = (recv_empty s.state, buf, st)
recv_buffered socket s (byte ∷ rx) buf st =
    let (read, buf', rx') = fill_buffer buf (byte ∷ rx) in
    (ok read, buf', record st { sockets = set st.sockets socket (record s { rx_buffer = rx' }) })

unfoldable pub recv : ℕ → List ℕ → TcpStack → Result ℕ TcpError × List ℕ × TcpStack
recv socket buf st = elim (get_elem? st.sockets socket) [
  | none ↦ (err invalid_state, buf, st)
  | some s ↦ elim s.error [
    | some e ↦ (err e, buf, st)
    | none ↦ recv_buffered socket s s.rx_buffer buf st
  ]
]

-- The `match` on the state in `close`: send a FIN and go on, do nothing, or drop to CLOSED.
pub data Closing : Type 0 where
  fin_to : TcpState → Closing
  already : Closing
  drop_to_closed : Closing

abbrev pub close_plan : TcpState → Closing
close_plan established = fin_to fin_wait1
close_plan close_wait = fin_to last_ack
close_plan fin_wait1 = already
close_plan fin_wait2 = already
close_plan last_ack = already
close_plan time_wait = already
close_plan _ = drop_to_closed

unfoldable pub follow_plan :
    ℕ → ℕ → TcpSocket → TcpStack → Closing → Result (Unit {0}) TcpError × TcpStack
follow_plan now socket s st already = (ok tt, st)
follow_plan now socket s st drop_to_closed =
    (ok tt, record st { sockets = set st.sockets socket (record s { state = closed }) })
follow_plan now socket s st (fin_to next) = (
  ok tt,
  transmit now socket (record s { state = next; time_wait_deadline_tick = none }) flags_ack_fin []
      st,
)

unfoldable pub close : ℕ → ℕ → TcpStack → Result (Unit {0}) TcpError × TcpStack
close now socket st = elim (get_elem? st.sockets socket) [
  | none ↦ (err invalid_state, st)
  | some s ↦ follow_plan now socket s st (close_plan s.state)
]

unfoldable pub pop_outbound : TcpStack → Option TcpOutbound × TcpStack
pop_outbound st = elim st.pending_outbound [
  | [] ↦ (none, st)
  | out ∷ rest ↦ (some out, record st { pending_outbound = rest })
]

unfoldable pub take_error : ℕ → TcpStack → Option TcpError × TcpStack
take_error socket st = elim (get_elem? st.sockets socket) [
  | none ↦ (none, st)
  | some s ↦ (s.error, record st { sockets = set st.sockets socket (record s { error = none }) })
]
