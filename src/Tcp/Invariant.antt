-- ===== src/Tcp/Invariant.antt =====
-- The invariant of a whole `TcpStack` of kernel/src/net/tcp.rs; the children prove that each call,
-- each packet and each timer poll keeps it.
pub mod Calls
pub mod Timers
pub mod Packets
pub mod Reach
use ristux.Common.{◌≤◌, ◌<◌, All, u32_mod}
use ristux.Tcp.{TcpRetransmit, TcpStack, tcp_max_retransmits}
use ristux.Tcp.Socket.Valid.{SocketIsValid}

pub record EntryIsValid (e : TcpRetransmit) : Type 0 where
  pub end_word : e.end_seq < u32_mod
  pub attempts_bounded : e.attempts ≤ tcp_max_retransmits

pub record StackIsValid (st : TcpStack) : Type 0 where
  pub sockets_valid : All SocketIsValid st.sockets
  pub queue_valid : All SocketIsValid st.accept_queue
  pub entries_valid : All EntryIsValid st.retransmits
