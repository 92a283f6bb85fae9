-- ===== src/Tcp/Packets/States.antt =====
-- The transition diagram of a connection as packets drive it, with what each edge asks of the packet.
use ristux.Common.{
  ℕ, ◌≡◌, refl, Bool, true, false, ◌==◌, bit_and, if◌then◌else◌, arith, ◌∙◌, sym, ap,
}
use mathlib.Core.Path.{subst}
use ristux.Tcp.{
  TcpState, closed, listen, syn_sent, established, close_wait, fin_wait1, fin_wait2, closing,
  last_ack, time_wait, TcpPacket, TcpSocket, flags_syn_ack,
}
use ristux.Tcp.Socket.{fin_acknowledged, handle_closing, enter_time_wait}
use ristux.Tcp.Socket.Valid.{SocketIsValid}
use ristux.Tcp.Socket.Receive.{
  fin_due, after_fin_wait1, handle_established_like_lem, handle_fin_wait1_lem, handle_fin_wait2_lem,
}
use ristux.Tcp.Packets.{on_packet, handle_syn_sent, handle_last_ack, handle_time_wait}

-- RFC 793's edges for an arriving segment; `closed` and `listen` are left by other means.
pub data PacketEdge (s : TcpSocket) (p : TcpPacket) : TcpState → TcpState → Type 0 where
  stay : {a : TcpState} → PacketEdge s p a a
  handshake : bit_and p.flags flags_syn_ack ≡ flags_syn_ack → PacketEdge s p syn_sent established
  remote_close : fin_due s p ≡ true → PacketEdge s p established close_wait
  own_fin_acked : fin_acknowledged s p ≡ true → PacketEdge s p fin_wait1 fin_wait2
  simultaneous : fin_due s p ≡ true → PacketEdge s p fin_wait1 closing
  both_done : fin_due s p ≡ true → fin_acknowledged s p ≡ true → PacketEdge s p fin_wait1 time_wait
  remote_done : fin_due s p ≡ true → PacketEdge s p fin_wait2 time_wait
  crossed_done : fin_acknowledged s p ≡ true → PacketEdge s p closing time_wait
  last_acked : fin_acknowledged s p ≡ true → PacketEdge s p last_ack closed

fin_wait1-PacketEdge :
    (s : TcpSocket) (p : TcpPacket) (due acked : Bool)
    → fin_due s p ≡ due
    → fin_acknowledged s p ≡ acked
    → PacketEdge s p fin_wait1 (after_fin_wait1 due acked fin_wait1)
fin_wait1-PacketEdge s p true true d a = both_done d a
fin_wait1-PacketEdge s p true false d a = simultaneous d
fin_wait1-PacketEdge s p false true d a = own_fin_acked a
fin_wait1-PacketEdge s p false false d a = stay

-- A state that a test chooses, with an edge for each answer of the test.
chosen :
    (s : TcpSocket) (p : TcpPacket) (a b : TcpState) (test : Bool)
    → (test ≡ true → PacketEdge s p a b)
    → PacketEdge s p a (if test then b else a)
chosen s p a b true k = k refl
chosen s p a b false k = stay

-- A handler whose new state is chosen by a test.
decided :
    (s : TcpSocket) (p : TcpPacket) (a b r : TcpState) (test : Bool)
    → s.state ≡ a
    → r ≡ (if test then b else s.state)
    → (test ≡ true → PacketEdge s p a b)
    → PacketEdge s p a r
decided s p a b r test e h k =
    subst (PacketEdge s p a) (sym (h ∙ ap (λ t. if test then b else t) e)) (chosen s p a b test k)

handle_syn_sent-state :
    (s : TcpSocket) (p : TcpPacket)
    → (handle_syn_sent s p).0.state
      ≡ (if bit_and p.flags flags_syn_ack == flags_syn_ack then established else s.state)
unfolding handle_syn_sent
handle_syn_sent-state s p = ground arith

handle_closing-state :
    (now : ℕ) (s : TcpSocket) (p : TcpPacket)
    → (handle_closing now s p).0.state ≡ (if fin_acknowledged s p then time_wait else s.state)
unfolding handle_closing enter_time_wait
handle_closing-state now s p = ground arith

handle_last_ack-state :
    (s : TcpSocket) (p : TcpPacket)
    → (handle_last_ack s p).0.state ≡ (if fin_acknowledged s p then closed else s.state)
unfolding handle_last_ack
handle_last_ack-state s p = ground arith

handle_time_wait-state :
    (now : ℕ) (s : TcpSocket) (p : TcpPacket)
    → s.state ≡ time_wait
    → (handle_time_wait now s p).0.state ≡ time_wait
unfolding handle_time_wait enter_time_wait
handle_time_wait-state now s p h = ground arith

module _ (now : ℕ) (s : TcpSocket) (p : TcpPacket) (v : SocketIsValid s) where
  -- In every state, the handler of that state takes a valid socket along an edge of the diagram:
  -- each change of state is one of the named edges, and the packet has what that edge asks.
  pub on_packet-PacketEdge :
      (state : TcpState) → s.state ≡ state → PacketEdge s p state (on_packet now state s p).0.state
  unfolding on_packet
  on_packet-PacketEdge syn_sent e =
      decided s p syn_sent established _ _ e (handle_syn_sent-state s p)
        (λ h. handshake (ground arith))
  on_packet-PacketEdge established e =
      decided s p established close_wait _ _ e (handle_established_like_lem s p close_wait v).3
        remote_close
  on_packet-PacketEdge close_wait e =
      decided s p close_wait close_wait _ _ e (handle_established_like_lem s p close_wait v).3
        (λ h. stay)
  on_packet-PacketEdge fin_wait1 e =
      subst (PacketEdge s p fin_wait1)
        (sym (
          (handle_fin_wait1_lem now s p v).3
          ∙ ap (after_fin_wait1 (fin_due s p) (fin_acknowledged s p)) e))
        (fin_wait1-PacketEdge s p _ _ refl refl)
  on_packet-PacketEdge fin_wait2 e =
      decided s p fin_wait2 time_wait _ _ e (handle_fin_wait2_lem now s p v).3 remote_done
  on_packet-PacketEdge closing e =
      decided s p closing time_wait _ _ e (handle_closing-state now s p) crossed_done
  on_packet-PacketEdge last_ack e =
      decided s p last_ack closed _ _ e (handle_last_ack-state s p) last_acked
  on_packet-PacketEdge time_wait e =
      subst (PacketEdge s p time_wait) (sym (handle_time_wait-state now s p e)) stay
  on_packet-PacketEdge closed e = subst (PacketEdge s p closed) (sym e) stay
  on_packet-PacketEdge listen e = subst (PacketEdge s p listen) (sym e) stay
