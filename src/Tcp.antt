-- ===== src/Tcp.antt =====
-- The data of kernel/src/net/tcp.rs: constants, states, errors, packets, sockets and the stack.
-- Words are natural numbers with their range in `IsValid` predicates of the children; byte strings
-- are lists. `Vec::len` of a buffer is its `length`.
pub mod Segment
pub mod Socket
pub mod Retransmit
pub mod Stack
pub mod Packets
pub mod Invariant
pub mod Delivery
mod Tests
use ristux.Common.{ℕ, ◌==◌, ◌&&◌, Bool, true, false, Option, none, some, List, [], ◌∷◌}

abbrev pub tcp_flag_fin : ℕ
tcp_flag_fin = 0x01

abbrev pub tcp_flag_syn : ℕ
tcp_flag_syn = 0x02

abbrev pub tcp_flag_rst : ℕ
tcp_flag_rst = 0x04

abbrev pub tcp_flag_ack : ℕ
tcp_flag_ack = 0x10

-- `TCP_FLAG_SYN | TCP_FLAG_ACK`, `TCP_FLAG_ACK | TCP_FLAG_PSH`, `TCP_FLAG_ACK | TCP_FLAG_FIN` and
-- `TCP_FLAG_RST | TCP_FLAG_ACK`.
abbrev pub flags_syn_ack : ℕ
flags_syn_ack = 0x12

abbrev pub flags_ack_psh : ℕ
flags_ack_psh = 0x18

abbrev pub flags_ack_fin : ℕ
flags_ack_fin = 0x11

abbrev pub flags_rst_ack : ℕ
flags_rst_ack = 0x14

abbrev pub tcp_retransmit_ticks : ℕ
tcp_retransmit_ticks = 25

abbrev pub tcp_max_retransmits : ℕ
tcp_max_retransmits = 3

abbrev pub tcp_recv_window : ℕ
tcp_recv_window = 4096

abbrev pub tcp_time_wait_ticks : ℕ
tcp_time_wait_ticks = 100

pub data TcpState : Type 0 where
  closed listen syn_sent established close_wait : TcpState
  fin_wait1 fin_wait2 closing last_ack time_wait : TcpState

pub data TcpError : Type 0 where
  not_connected would_block invalid_state already_connected : TcpError
  in_progress connection_reset timed_out : TcpError

-- `Ipv4Addr([u8; 4])` of kernel/src/net/mod.rs.
pub record Ipv4Addr : Type 0 where
  pub b0 : ℕ
  pub b1 : ℕ
  pub b2 : ℕ
  pub b3 : ℕ

-- Its derived `==`.
abbrev pub ip_eq : Ipv4Addr → Ipv4Addr → Bool
ip_eq a b = a.b0 == b.b0 && a.b1 == b.b1 && a.b2 == b.b2 && a.b3 == b.b3

pub record TcpPacket : Type 0 where
  pub src_ip : Ipv4Addr
  pub dst_ip : Ipv4Addr
  pub src_port : ℕ
  pub dst_port : ℕ
  pub seq : ℕ
  pub ack : ℕ
  pub flags : ℕ
  pub payload : List ℕ

pub record TcpOutbound : Type 0 where
  pub dst_ip : Ipv4Addr
  pub segment : List ℕ

pub record TcpRetransmit : Type 0 where
  pub dst_ip : Ipv4Addr
  pub local_port : ℕ
  pub remote_port : ℕ
  pub end_seq : ℕ
  pub segment : List ℕ
  pub deadline_tick : ℕ
  pub attempts : ℕ

pub record TcpSocket : Type 0 where
  pub local_port : ℕ
  pub remote_ip : Ipv4Addr
  pub remote_port : ℕ
  pub state : TcpState
  pub seq : ℕ
  pub ack : ℕ
  pub window : ℕ
  pub rx_buffer : List ℕ
  pub error : Option TcpError
  pub time_wait_deadline_tick : Option ℕ

pub record TcpStack : Type 0 where
  pub sockets : List TcpSocket
  pub accept_queue : List TcpSocket
  pub pending_outbound : List TcpOutbound
  pub retransmits : List TcpRetransmit

-- The derived `==` of `TcpState`, at the two states that a guard compares with.
abbrev pub is_listen : TcpState → Bool
is_listen listen = true
is_listen _ = false

abbrev pub is_established : TcpState → Bool
is_established established = true
is_established _ = false

abbrev pub is_time_wait : TcpState → Bool
is_time_wait time_wait = true
is_time_wait _ = false
