-- ===== src/Tcp/Socket/Receive.antt =====
-- What a packet delivers to a connected socket: the bytes, the acknowledgement number, the state and
-- the reply, against a description that does not follow the code's branches.
use ristux.Common.{
  ℕ, ◌+◌, ◌%◌, ◌≡◌, Bool, true, false, ◌==◌, ◌&&◌, ◌||◌, not, Option, ◌++◌, length, take,
  if◌then◌else◌, has_flag, arith, u32_mod,
}
use mathlib.Core.List.{append-nil}
use ristux.Tcp.{
  TcpPacket, TcpOutbound, TcpState, closing, fin_wait2, time_wait, TcpSocket, tcp_flag_fin,
}
use ristux.Tcp.Socket.{
  accept_in_order_payload, consume_remote_fin, accepted, fin_seq, reply, fin_acknowledged,
  handle_established_like, handle_fin_wait1, handle_fin_wait2, enter_time_wait,
}
use ristux.Tcp.Socket.Valid.{SocketIsValid}

-- The number of bytes that a packet delivers: what fits the window, if it is in order.
abbrev pub delivered : TcpSocket → TcpPacket → ℕ
delivered s p = if p.seq == s.ack then accepted s p else 0

-- The peer's FIN is due: flagged, and next after what was delivered.
abbrev pub fin_due : TcpSocket → TcpPacket → Bool
fin_due s p = has_flag p.flags tcp_flag_fin && fin_seq p == (s.ack + delivered s p) % u32_mod

abbrev pub count_of : Bool → ℕ
count_of true = 1
count_of false = 0

abbrev pub has_payload : TcpPacket → Bool
has_payload p = not (length p.payload == 0)

-- The socket after a packet: bytes in order, each byte and the FIN counted once, what was sent
-- untouched, the state as given, and an answer, if there is one, from the socket's new state.
abbrev pub Received :
    TcpSocket → TcpPacket → TcpState → Bool → TcpSocket × Option TcpOutbound → Type 0
Received s p state answered (t, out) =
    (t.rx_buffer ≡ s.rx_buffer ++ take (delivered s p) p.payload)
    × (t.ack ≡ (s.ack + delivered s p + count_of (fin_due s p)) % u32_mod)
    × (t.seq ≡ s.seq)
    × (t.state ≡ state)
    × (out ≡ reply answered t)

accept_in_order_payload_lem :
    (s : TcpSocket) (p : TcpPacket)
    → SocketIsValid s
    → let (ack_needed, t) = accept_in_order_payload s p in
      (t.rx_buffer ≡ s.rx_buffer ++ take (delivered s p) p.payload)
      × (t.ack ≡ (s.ack + delivered s p) % u32_mod)
      × (t.seq ≡ s.seq)
      × (t.state ≡ s.state)
      × (ack_needed ≡ has_payload p)
unfolding accept_in_order_payload
accept_in_order_payload_lem s p v = ground (arith, append-nil s.rx_buffer)

-- In ESTABLISHED and CLOSE_WAIT: a packet delivers the part of its payload that is in order and fits
-- the window, the acknowledgement number counts each delivered byte and a due FIN once, the state
-- becomes the given one exactly if the FIN is due, and just a packet with payload or FIN is answered.
pub handle_established_like_lem :
    (s : TcpSocket) (p : TcpPacket) (fin_state : TcpState)
    → SocketIsValid s
    → Received s p
        (if fin_due s p then fin_state else s.state)
        (has_payload p || has_flag p.flags tcp_flag_fin)
        (handle_established_like s p fin_state)
unfolding handle_established_like
handle_established_like_lem s p fin_state v = ground (arith, accept_in_order_payload_lem s p v)

-- FIN_WAIT_1: the state follows from whether our FIN is acknowledged and whether the peer's is due.
abbrev pub after_fin_wait1 : Bool → Bool → TcpState → TcpState
after_fin_wait1 true true s = time_wait
after_fin_wait1 true false s = closing
after_fin_wait1 false true s = fin_wait2
after_fin_wait1 false false s = s

-- In FIN_WAIT_1 a packet delivers as in ESTABLISHED; the socket goes to TIME_WAIT, CLOSING or
-- FIN_WAIT_2, or stays, by the four cases of a due FIN and an acknowledgement of the own FIN; just a
-- packet with payload or a due FIN is answered.
pub handle_fin_wait1_lem :
    (now : ℕ) (s : TcpSocket) (p : TcpPacket)
    → SocketIsValid s
    → Received s p
        (after_fin_wait1 (fin_due s p) (fin_acknowledged s p) s.state)
        (has_payload p || fin_due s p)
        (handle_fin_wait1 now s p)
unfolding handle_fin_wait1 consume_remote_fin enter_time_wait
handle_fin_wait1_lem now s p v = ground (arith, accept_in_order_payload_lem s p v)

-- In FIN_WAIT_2 a packet delivers as in ESTABLISHED; a due FIN takes the socket to TIME_WAIT, and
-- nothing else changes its state; just a packet with payload or a due FIN is answered.
pub handle_fin_wait2_lem :
    (now : ℕ) (s : TcpSocket) (p : TcpPacket)
    → SocketIsValid s
    → Received s p
        (if fin_due s p then time_wait else s.state)
        (has_payload p || fin_due s p)
        (handle_fin_wait2 now s p)
unfolding handle_fin_wait2 consume_remote_fin enter_time_wait
handle_fin_wait2_lem now s p v = ground (arith, accept_in_order_payload_lem s p v)
