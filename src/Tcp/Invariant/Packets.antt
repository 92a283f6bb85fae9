-- ===== src/Tcp/Invariant/Packets.antt =====
-- Every packet keeps the invariant of the stack.
use ristux.Common.{
  ℕ, suc, ◌≡◌, refl, ap, Bool, Option, none, some, List, [], ◌∷◌, set, arith, All, All-append,
  All-set, All-remove, Option-cases, Bool-cases, inl, inr, wrapping_add, remove,
}
use mathlib.Core.Path.{subst}
use mathlib.Core.Option.{some-injective}
use ristux.Tcp.{
  TcpState, syn_sent, established, close_wait, fin_wait1, fin_wait2, closing, last_ack, time_wait,
  TcpPacket, TcpSocket, TcpStack, TcpOutbound,
}
use ristux.Tcp.Socket
use ristux.Tcp.Socket.{matches_packet}
use ristux.Tcp.Socket.Valid.{
  SocketIsValid, PacketIsValid, enter_time_wait-SocketIsValid,
  handle_established_like-SocketIsValid, handle_fin_wait1-SocketIsValid,
  handle_fin_wait2-SocketIsValid, handle_closing-SocketIsValid,
}
use ristux.Tcp.Packets.{
  acknowledge_if, handle_syn_sent, handle_last_ack, handle_time_wait, new_peer, on_packet,
  on_listen, reset_socket, handle_socket_packet, on_queued_packet, handle_queued_accept_packet,
  find_from, handle_packet, listens_for, packet_flow, push_outbound,
}
use ristux.Tcp.Invariant.{StackIsValid}
use ristux.Tcp.Invariant.Calls.{set-StackIsValid}
use ristux.Tcp.Invariant.Timers.{acknowledge-StackIsValid, remove_retransmits-StackIsValid}

module _ (now : ℕ) (s : TcpSocket) (p : TcpPacket) (v : SocketIsValid s)
    (hp : PacketIsValid p) where
  handle_syn_sent-SocketIsValid : SocketIsValid (handle_syn_sent s p).0
  unfolding handle_syn_sent
  handle_syn_sent-SocketIsValid = ground arith

  handle_last_ack-SocketIsValid : SocketIsValid (handle_last_ack s p).0
  unfolding handle_last_ack
  handle_last_ack-SocketIsValid = ground arith

  handle_time_wait-SocketIsValid : SocketIsValid (handle_time_wait now s p).0
  unfolding handle_time_wait
  handle_time_wait-SocketIsValid = ground (arith, enter_time_wait-SocketIsValid now v)

  -- Each state's handler, the state being the socket's.
  pub on_packet-SocketIsValid :
      (state : TcpState) → s.state ≡ state → SocketIsValid (on_packet now state s p).0
  unfolding on_packet
  on_packet-SocketIsValid syn_sent e = handle_syn_sent-SocketIsValid
  on_packet-SocketIsValid established e =
      handle_established_like-SocketIsValid s p close_wait (rw e) refl v
  on_packet-SocketIsValid close_wait e =
      handle_established_like-SocketIsValid s p close_wait (rw e) refl v
  on_packet-SocketIsValid fin_wait1 e = handle_fin_wait1-SocketIsValid now s p v (rw e)
  on_packet-SocketIsValid fin_wait2 e = handle_fin_wait2-SocketIsValid now s p v
  on_packet-SocketIsValid closing e = handle_closing-SocketIsValid now s p v
  on_packet-SocketIsValid last_ack e = handle_last_ack-SocketIsValid
  on_packet-SocketIsValid time_wait e = handle_time_wait-SocketIsValid
  on_packet-SocketIsValid _ e = v

  on_queued_packet-SocketIsValid :
      (state : TcpState) → s.state ≡ state → SocketIsValid (on_queued_packet now state s p).0
  unfolding on_queued_packet
  on_queued_packet-SocketIsValid established e =
      handle_established_like-SocketIsValid s p close_wait (rw e) refl v
  on_queued_packet-SocketIsValid close_wait e =
      handle_established_like-SocketIsValid s p close_wait (rw e) refl v
  on_queued_packet-SocketIsValid fin_wait1 e = handle_fin_wait1-SocketIsValid now s p v (rw e)
  on_queued_packet-SocketIsValid fin_wait2 e = handle_fin_wait2-SocketIsValid now s p v
  on_queued_packet-SocketIsValid closing e = handle_closing-SocketIsValid now s p v
  on_queued_packet-SocketIsValid time_wait e = handle_time_wait-SocketIsValid
  on_queued_packet-SocketIsValid _ e = v

  reset_socket-SocketIsValid : SocketIsValid (reset_socket s)
  unfolding reset_socket
  reset_socket-SocketIsValid = ground arith

acknowledge_if-StackIsValid :
    (p : TcpPacket) {st : TcpStack} → StackIsValid st → StackIsValid (acknowledge_if p st)
unfolding acknowledge_if
acknowledge_if-StackIsValid p w = ground (arith, acknowledge-StackIsValid (packet_flow p) p.ack w)

push_outbound-StackIsValid :
    (o : Option TcpOutbound) {st : TcpStack} → StackIsValid st → StackIsValid (push_outbound o st)
push_outbound-StackIsValid none w = w
push_outbound-StackIsValid (some out) w = ground arith

queued_peer-SocketIsValid :
    (s : TcpSocket) (p : TcpPacket)
    → SocketIsValid s
    → PacketIsValid p
    → SocketIsValid (record (new_peer s p) { seq = wrapping_add (new_peer s p).seq 1 })
unfolding new_peer Socket.new
queued_peer-SocketIsValid s p v hp = ground arith

on_listen-StackIsValid :
    (s : TcpSocket) (p : TcpPacket) {st : TcpStack}
    → SocketIsValid s
    → PacketIsValid p
    → StackIsValid st
    → StackIsValid (on_listen s p st)
unfolding on_listen
on_listen-StackIsValid s p {st} v hp w = ground (
  arith,
  All-append SocketIsValid st.accept_queue
      (record (new_peer s p) { seq = wrapping_add (new_peer s p).seq 1 } ∷ []) w.queue_valid
      (queued_peer-SocketIsValid s p v hp, tt),
)

module _ (now i : ℕ) (s : TcpSocket) (p : TcpPacket) {st : TcpStack} (v : SocketIsValid s)
    (hp : PacketIsValid p) (w : StackIsValid st) where
  handle_socket_packet-StackIsValid : StackIsValid (handle_socket_packet now i s p st).1
  unfolding handle_socket_packet
  handle_socket_packet-StackIsValid = ground (
    arith,
    on_listen-StackIsValid s p v hp (acknowledge_if-StackIsValid p w),
    remove_retransmits-StackIsValid (packet_flow p)
        (set-StackIsValid i (reset_socket s) w (reset_socket-SocketIsValid now s p v hp)),
    push_outbound-StackIsValid (on_packet now s.state s p).1 (
        set-StackIsValid i (on_packet now s.state s p).0 (acknowledge_if-StackIsValid p w)
          (on_packet-SocketIsValid now s p v hp s.state refl)),
  )

  handle_queued_accept_packet-StackIsValid :
      StackIsValid (handle_queued_accept_packet now i s p st).1
  unfolding handle_queued_accept_packet
  handle_queued_accept_packet-StackIsValid =
      let acked = acknowledge_if-StackIsValid p w in
      ground (
        arith,
        remove_retransmits-StackIsValid (packet_flow p)
            {st = record st { accept_queue = remove st.accept_queue i }}
            (record {
              sockets_valid = w.sockets_valid;
              queue_valid = All-remove SocketIsValid st.accept_queue i w.queue_valid;
              entries_valid = w.entries_valid;
            }),
        push_outbound-StackIsValid (on_queued_packet now s.state s p).1
            {st = record (acknowledge_if p st) {
              accept_queue =
                  set (acknowledge_if p st).accept_queue i (on_queued_packet now s.state s p).0;
            }}
            (record {
              sockets_valid = acked.sockets_valid;
              queue_valid =
                  All-set SocketIsValid (acknowledge_if p st).accept_queue i _ acked.queue_valid
                    (on_queued_packet-SocketIsValid now s p v hp s.state refl);
              entries_valid = acked.entries_valid;
            }),
      )

find_from-SocketIsValid :
    (i : ℕ) (test : TcpSocket → Bool) (ss : List TcpSocket) {j : ℕ} {s : TcpSocket}
    → All SocketIsValid ss
    → find_from i test ss ≡ some (j, s)
    → SocketIsValid s
unfolding find_from
find_from-SocketIsValid i test [] h e = cc
find_from-SocketIsValid i test (x ∷ rest) h e = elim (Bool-cases (test x)) [
  | inl t ↦
      subst SocketIsValid (ap (λ (q : ℕ × TcpSocket). q.1) (some-injective _ _ (rw t at e))) h.0
  | inr t ↦ find_from-SocketIsValid (suc i) test rest h.1 (rw t at e)
]

pub handle_packet-StackIsValid :
    (now : ℕ) (p : TcpPacket) {st : TcpStack}
    → PacketIsValid p
    → StackIsValid st
    → StackIsValid (handle_packet now p st).1
unfolding handle_packet
handle_packet-StackIsValid now p {st} hp w =
    elim (Option-cases (find_from 0 (λ s. matches_packet s p) st.sockets)) [
      | inr ((i, s), e) ↦
          rw (e, handle_packet)
            (handle_socket_packet-StackIsValid now i s p
              (find_from-SocketIsValid 0 _ _ w.sockets_valid e) hp w)
      | inl n ↦ elim (Option-cases (find_from 0 (λ s. matches_packet s p) st.accept_queue)) [
        | inr ((i, s), e) ↦
            rw (n, e, handle_packet)
              (handle_queued_accept_packet-StackIsValid now i s p
                (find_from-SocketIsValid 0 _ _ w.queue_valid e) hp w)
        | inl m ↦ elim (Option-cases (find_from 0 (listens_for p) st.sockets)) [
          | inr ((i, s), e) ↦
              rw (n, m, e, handle_packet)
                (handle_socket_packet-StackIsValid now i s p
                  (find_from-SocketIsValid 0 _ _ w.sockets_valid e) hp w)
          | inl k ↦ rw (n, m, k, handle_packet) (ground arith)
        ]
      ]
    ]
