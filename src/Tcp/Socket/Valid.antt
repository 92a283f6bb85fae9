-- ===== src/Tcp/Socket/Valid.antt =====
-- What holds of every socket between two packets, and that each function on one socket keeps it.
use ristux.Common.{
  ℕ, ◌≤◌, ◌<◌, ◌≡◌, Bool, true, false, Option, none, some, length, take, arith, u16_mod, u32_mod,
  length-append, length-take, ◌∙◌,
}
use ristux.Tcp.{TcpPacket, TcpState, TcpSocket, tcp_recv_window, is_time_wait}
use ristux.Tcp.Socket.{
  new, start_listen, enter_time_wait, accept_in_order_payload, consume_remote_fin, accepted,
  handle_established_like, handle_fin_wait1, handle_fin_wait2, handle_closing,
}

abbrev pub is_some : Option ℕ → Bool
is_some none = false
is_some (some _) = true

pub record SocketIsValid (s : TcpSocket) : Type 0 where
  pub seq_word : s.seq < u32_mod
  pub ack_word : s.ack < u32_mod
  pub local_word : s.local_port < u16_mod
  pub remote_word : s.remote_port < u16_mod
  pub window_fixed : s.window ≡ tcp_recv_window
  pub buffer_fits : length s.rx_buffer ≤ tcp_recv_window
  -- A deadline is set in TIME_WAIT and in no other state.
  pub deadline_set : is_some s.time_wait_deadline_tick ≡ is_time_wait s.state

pub record PacketIsValid (p : TcpPacket) : Type 0 where
  pub seq_word : p.seq < u32_mod
  pub ack_word : p.ack < u32_mod
  pub src_word : p.src_port < u16_mod
  pub dst_word : p.dst_port < u16_mod

pub new-SocketIsValid : (port : ℕ) → port < u16_mod → SocketIsValid (new port)
unfolding new
new-SocketIsValid port h = ground arith

pub start_listen-SocketIsValid : {s : TcpSocket} → SocketIsValid s → SocketIsValid (start_listen s)
unfolding start_listen
start_listen-SocketIsValid v = ground arith

pub enter_time_wait-SocketIsValid :
    (now : ℕ) {s : TcpSocket} → SocketIsValid s → SocketIsValid (enter_time_wait now s)
unfolding enter_time_wait
enter_time_wait-SocketIsValid now v = ground arith

pub accept_in_order_payload-SocketIsValid :
    (s : TcpSocket) (p : TcpPacket)
    → SocketIsValid s
    → SocketIsValid (accept_in_order_payload s p).1
unfolding accept_in_order_payload
accept_in_order_payload-SocketIsValid s p v = ground (
  arith,
  length-append s.rx_buffer (take (accepted s p) p.payload),
  length-take (accepted s p) p.payload,
)

pub accept_in_order_payload-state :
    (s : TcpSocket) (p : TcpPacket) → (accept_in_order_payload s p).1.state ≡ s.state
unfolding accept_in_order_payload
accept_in_order_payload-state s p = ground arith

pub consume_remote_fin-SocketIsValid :
    (s : TcpSocket) (p : TcpPacket) → SocketIsValid s → SocketIsValid (consume_remote_fin s p).1
unfolding consume_remote_fin
consume_remote_fin-SocketIsValid s p v = ground arith

pub consume_remote_fin-state :
    (s : TcpSocket) (p : TcpPacket) → (consume_remote_fin s p).1.state ≡ s.state
unfolding consume_remote_fin
consume_remote_fin-state s p = ground arith

pub handle_established_like-SocketIsValid :
    (s : TcpSocket) (p : TcpPacket) (fin_state : TcpState)
    → is_time_wait s.state ≡ false
    → is_time_wait fin_state ≡ false
    → SocketIsValid s
    → SocketIsValid (handle_established_like s p fin_state).0
unfolding handle_established_like
handle_established_like-SocketIsValid s p fin_state hs hf v =
    ground (arith, accept_in_order_payload-SocketIsValid s p v, accept_in_order_payload-state s p)

module _ (now : ℕ) (s : TcpSocket) (p : TcpPacket) (v : SocketIsValid s) where
  -- The socket after the payload and the FIN are taken.
  taken-SocketIsValid : SocketIsValid (consume_remote_fin (accept_in_order_payload s p).1 p).1
  taken-SocketIsValid =
      consume_remote_fin-SocketIsValid _ p (accept_in_order_payload-SocketIsValid s p v)

  taken-state : (consume_remote_fin (accept_in_order_payload s p).1 p).1.state ≡ s.state
  taken-state =
      consume_remote_fin-state (accept_in_order_payload s p).1 p ∙ accept_in_order_payload-state s p

  pub handle_fin_wait1-SocketIsValid :
      is_time_wait s.state ≡ false → SocketIsValid (handle_fin_wait1 now s p).0
  unfolding handle_fin_wait1 enter_time_wait
  handle_fin_wait1-SocketIsValid h = ground (arith, taken-SocketIsValid, taken-state)

  pub handle_fin_wait2-SocketIsValid : SocketIsValid (handle_fin_wait2 now s p).0
  unfolding handle_fin_wait2 enter_time_wait
  handle_fin_wait2-SocketIsValid = ground (arith, taken-SocketIsValid, taken-state)

  pub handle_closing-SocketIsValid : SocketIsValid (handle_closing now s p).0
  unfolding handle_closing enter_time_wait
  handle_closing-SocketIsValid = ground arith
