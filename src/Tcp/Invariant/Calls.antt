-- ===== src/Tcp/Invariant/Calls.antt =====
-- The calls of the socket layer keep the invariant of the stack.
use ristux.Common.{
  ℕ, ◌≤◌, ◌<◌, ◌≡◌, refl, ap, Option, none, some, List, [], ◌∷◌, length, get_elem?, set, arith, All,
  All-append, All-snoc, All-set, All-get_elem?, Option-cases, inl, inr, u16_mod,
}
use ristux.Tcp.{
  syn_sent, Ipv4Addr, TcpSocket, TcpStack, TcpRetransmit, tcp_flag_syn, flags_ack_psh,
  flags_ack_fin,
}
use ristux.Tcp.Socket.{build_retransmit, start_listen}
use ristux.Tcp.Socket.Valid.{SocketIsValid, new-SocketIsValid, start_listen-SocketIsValid}
use ristux.Tcp.Stack
use ristux.Tcp.Stack.{
  open_socket, bind_existing, listen_on, push_some, queue_outbound, transmit, connect, pop_last,
  accept, send, follow_plan, close_plan, Closing, already, drop_to_closed, fin_to, fill_buffer,
  recv_buffered, recv, close, pop_outbound, take_error,
}
use ristux.Tcp.Stack.Accept.{pop_last-cases}
use ristux.Tcp.Invariant.{EntryIsValid, StackIsValid}

pub new-StackIsValid : StackIsValid Stack.new
unfolding Stack.new
new-StackIsValid = ground arith

-- Writing back a valid socket.
pub set-StackIsValid :
    {st : TcpStack} (i : ℕ) (s : TcpSocket)
    → StackIsValid st
    → SocketIsValid s
    → StackIsValid (record st { sockets = set st.sockets i s })
set-StackIsValid {st} i s v h =
    ground (arith, All-set SocketIsValid st.sockets i s v.sockets_valid h)

pub open_socket-StackIsValid : {st : TcpStack} → StackIsValid st → StackIsValid (open_socket st).1
unfolding open_socket
open_socket-StackIsValid {st} v = record {
  sockets_valid =
      All-append SocketIsValid st.sockets _ v.sockets_valid (new-SocketIsValid _ (omega arith), tt);
  queue_valid = v.queue_valid;
  entries_valid = v.entries_valid;
}

-- A socket call on a handle: the stack is unchanged, or the socket there is valid.
socket_at :
    {st : TcpStack} (i : ℕ)
    → StackIsValid st
    → (s : TcpSocket) → get_elem? st.sockets i ≡ some s
    → SocketIsValid s
socket_at {st} i v s e = All-get_elem? SocketIsValid st.sockets i v.sockets_valid e

pub bind_existing-StackIsValid :
    (i port : ℕ) {st : TcpStack}
    → port < u16_mod
    → StackIsValid st
    → StackIsValid (bind_existing i port st).1
unfolding bind_existing
bind_existing-StackIsValid i port {st} h v = elim (Option-cases (get_elem? st.sockets i)) [
  | inl e ↦ rw (e, bind_existing) v
  | inr (s, e) ↦
      rw (e, bind_existing)
        (set-StackIsValid i (record s { local_port = port }) v (ground (arith, socket_at i v s e)))
]

pub listen_on-StackIsValid :
    (i : ℕ) {st : TcpStack} → StackIsValid st → StackIsValid (listen_on i st).1
unfolding listen_on
listen_on-StackIsValid i {st} v = elim (Option-cases (get_elem? st.sockets i)) [
  | inl e ↦ rw (e, listen_on) v
  | inr (s, e) ↦
      rw (e, listen_on)
        (set-StackIsValid i (start_listen s) v (start_listen-SocketIsValid (socket_at i v s e)))
]

push_some-All :
    (o : Option TcpRetransmit) (es : List TcpRetransmit)
    → All EntryIsValid es
    → ((e : TcpRetransmit) → o ≡ some e → EntryIsValid e)
    → All EntryIsValid (push_some o es)
push_some-All none es h k = h
push_some-All (some e) es h k = All-append EntryIsValid es (e ∷ []) h (k e refl, tt)

build_retransmit-EntryIsValid :
    (now : ℕ) (s : TcpSocket) (segment : List ℕ) (seq span : ℕ) (e : TcpRetransmit)
    → build_retransmit now s segment seq span ≡ some e
    → EntryIsValid e
unfolding build_retransmit
build_retransmit-EntryIsValid now s segment seq span e h = ground arith

-- A segment sent from a valid socket: the entry that is queued for retransmission is valid, and so
-- is the socket with its sequence number advanced.
pub transmit-StackIsValid :
    (now i : ℕ) (s : TcpSocket) (flags : ℕ) (payload : List ℕ) {st : TcpStack}
    → StackIsValid st
    → SocketIsValid s
    → StackIsValid (transmit now i s flags payload st)
unfolding transmit queue_outbound
transmit-StackIsValid now i s flags payload {st} v h = record {
  sockets_valid = All-set SocketIsValid st.sockets i _ v.sockets_valid (ground arith);
  queue_valid = v.queue_valid;
  entries_valid =
      push_some-All _ st.retransmits v.entries_valid
        (build_retransmit-EntryIsValid now s _ s.seq _);
}

pub connect-StackIsValid :
    (now i : ℕ) (ip : Ipv4Addr) (port : ℕ) {st : TcpStack}
    → port < u16_mod
    → StackIsValid st
    → StackIsValid (connect now i ip port st).1
unfolding connect
connect-StackIsValid now i ip port {st} h v = elim (Option-cases (get_elem? st.sockets i)) [
  | inl e ↦ rw (e, connect) v
  | inr (s, e) ↦
      rw (e, connect)
        (ground (
          arith,
          socket_at i v s e,
          transmit-StackIsValid now i
              (record s {
                remote_ip = ip;
                remote_port = port;
                state = syn_sent;
                error = none;
                time_wait_deadline_tick = none;
              })
              tcp_flag_syn [] v,
        ))
]

pub send-StackIsValid :
    (now i : ℕ) (bytes : List ℕ) {st : TcpStack}
    → StackIsValid st
    → StackIsValid (send now i bytes st).1
unfolding send
send-StackIsValid now i bytes {st} v = elim (Option-cases (get_elem? st.sockets i)) [
  | inl e ↦ rw (e, send) v
  | inr (s, e) ↦
      rw (e, send)
        (ground (arith, transmit-StackIsValid now i s flags_ack_psh bytes v (socket_at i v s e)))
]

follow_plan-StackIsValid :
    (now i : ℕ) (s : TcpSocket) {st : TcpStack} (plan : Closing)
    → close_plan s.state ≡ plan
    → StackIsValid st
    → SocketIsValid s
    → StackIsValid (follow_plan now i s st plan).1
unfolding follow_plan
follow_plan-StackIsValid now i s already e v h = v
follow_plan-StackIsValid now i s drop_to_closed e v h = set-StackIsValid i _ v (ground arith)
follow_plan-StackIsValid now i s (fin_to next) e v h =
    transmit-StackIsValid now i _ flags_ack_fin [] v (ground arith)

pub close-StackIsValid :
    (now i : ℕ) {st : TcpStack} → StackIsValid st → StackIsValid (close now i st).1
unfolding close
close-StackIsValid now i {st} v = elim (Option-cases (get_elem? st.sockets i)) [
  | inl e ↦ rw (e, close) v
  | inr (s, e) ↦
      rw (e, close)
        (follow_plan-StackIsValid now i s (close_plan s.state) refl v (socket_at i v s e))
]

pub accept-StackIsValid : (i : ℕ) {st : TcpStack} → StackIsValid st → StackIsValid (accept i st).1
unfolding accept
accept-StackIsValid i {st} v = elim (Option-cases (get_elem? st.sockets i)) [
  | inl e ↦ rw (e, accept) v
  | inr (s, e) ↦
      rw (e, accept)
        (elim (pop_last-cases st.accept_queue) [
          | inl n ↦ ground arith
          | inr (peer, queue, q, m) ↦
              let (hq, hp) = All-snoc SocketIsValid queue peer (rw q at v.queue_valid) in
              ground
                (arith, All-append SocketIsValid st.sockets (peer ∷ []) v.sockets_valid (hp, tt))
        ])
]

fill_buffer-length : (buf rx : List ℕ) → length (fill_buffer buf rx).2 ≤ length rx
unfolding fill_buffer
fill_buffer-length [] rx = omega arith
fill_buffer-length (slot ∷ buf) [] = omega arith
fill_buffer-length (slot ∷ buf) (byte ∷ rx) = omega (arith, fill_buffer-length buf rx)

recv_buffered-StackIsValid :
    (i : ℕ) (s : TcpSocket) (rx buf : List ℕ) {st : TcpStack}
    → s.rx_buffer ≡ rx
    → StackIsValid st
    → SocketIsValid s
    → StackIsValid (recv_buffered i s rx buf st).2
unfolding recv_buffered
recv_buffered-StackIsValid i s [] buf e v h = v
recv_buffered-StackIsValid i s (byte ∷ rx) buf e v h =
    set-StackIsValid i _ v (ground (arith, fill_buffer-length buf (byte ∷ rx), ap length e))

pub recv-StackIsValid :
    (i : ℕ) (buf : List ℕ) {st : TcpStack} → StackIsValid st → StackIsValid (recv i buf st).2
unfolding recv
recv-StackIsValid i buf {st} v = elim (Option-cases (get_elem? st.sockets i)) [
  | inl e ↦ rw (e, recv) v
  | inr (s, e) ↦
      rw (e, recv)
        (ground (arith, recv_buffered-StackIsValid i s s.rx_buffer buf refl v (socket_at i v s e)))
]

pub pop_outbound-StackIsValid : {st : TcpStack} → StackIsValid st → StackIsValid (pop_outbound st).1
unfolding pop_outbound
pop_outbound-StackIsValid v = ground arith

pub take_error-StackIsValid :
    (i : ℕ) {st : TcpStack} → StackIsValid st → StackIsValid (take_error i st).1
unfolding take_error
take_error-StackIsValid i {st} v = elim (Option-cases (get_elem? st.sockets i)) [
  | inl e ↦ rw (e, take_error) v
  | inr (s, e) ↦ rw (e, take_error) (set-StackIsValid i _ v (ground (arith, socket_at i v s e)))
]
