-- ===== src/Tcp/Invariant/Reach.antt =====
-- Every history of a TCP stack: calls of the socket layer, packets and timer polls, in any order.
use ristux.Common.{ℕ, ◌<◌, List, u16_mod}
use ristux.Tcp.{Ipv4Addr, TcpPacket, TcpStack}
use ristux.Tcp.Socket.Valid.{PacketIsValid}
use ristux.Tcp.Stack.{
  open_socket, bind_existing, listen_on, connect, accept, send, recv, close, pop_outbound,
  take_error,
}
use ristux.Tcp.Stack
use ristux.Tcp.Packets.{handle_packet}
use ristux.Tcp.Retransmit.{poll_retransmit}
use ristux.Tcp.Invariant.{StackIsValid}
use ristux.Tcp.Invariant.Calls.{
  new-StackIsValid, open_socket-StackIsValid, bind_existing-StackIsValid, listen_on-StackIsValid,
  connect-StackIsValid, accept-StackIsValid, send-StackIsValid, recv-StackIsValid,
  close-StackIsValid, pop_outbound-StackIsValid, take_error-StackIsValid,
}
use ristux.Tcp.Invariant.Timers.{poll_retransmit-StackIsValid}
use ristux.Tcp.Invariant.Packets.{handle_packet-StackIsValid}

-- One step of a history; a port argument is a `u16`, and a packet has fields in their words' range.
pub data Step : TcpStack → TcpStack → Type 0 where
  opens : (st : TcpStack) → Step st (open_socket st).1
  binds : (st : TcpStack) (i port : ℕ) → port < u16_mod → Step st (bind_existing i port st).1
  listens : (st : TcpStack) (i : ℕ) → Step st (listen_on i st).1
  connects :
      (st : TcpStack) (now i : ℕ) (ip : Ipv4Addr) (port : ℕ)
      → port < u16_mod
      → Step st (connect now i ip port st).1
  accepts : (st : TcpStack) (i : ℕ) → Step st (accept i st).1
  sends : (st : TcpStack) (now i : ℕ) (bytes : List ℕ) → Step st (send now i bytes st).1
  receives : (st : TcpStack) (i : ℕ) (buf : List ℕ) → Step st (recv i buf st).2
  closes : (st : TcpStack) (now i : ℕ) → Step st (close now i st).1
  pops : (st : TcpStack) → Step st (pop_outbound st).1
  takes_error : (st : TcpStack) (i : ℕ) → Step st (take_error i st).1
  packet :
      (st : TcpStack) (now : ℕ) (p : TcpPacket)
      → PacketIsValid p
      → Step st (handle_packet now p st).1
  polls : (st : TcpStack) (now : ℕ) → Step st (poll_retransmit now st).1

pub data Reach (st : TcpStack) : TcpStack → Type 0 where
  here : Reach st st
  next : {t u : TcpStack} → Reach st t → Step t u → Reach st u

Step-StackIsValid : {t u : TcpStack} → Step t u → StackIsValid t → StackIsValid u
Step-StackIsValid (opens st) v = open_socket-StackIsValid v
Step-StackIsValid (binds st i port h) v = bind_existing-StackIsValid i port h v
Step-StackIsValid (listens st i) v = listen_on-StackIsValid i v
Step-StackIsValid (connects st now i ip port h) v = connect-StackIsValid now i ip port h v
Step-StackIsValid (accepts st i) v = accept-StackIsValid i v
Step-StackIsValid (sends st now i bytes) v = send-StackIsValid now i bytes v
Step-StackIsValid (receives st i buf) v = recv-StackIsValid i buf v
Step-StackIsValid (closes st now i) v = close-StackIsValid now i v
Step-StackIsValid (pops st) v = pop_outbound-StackIsValid v
Step-StackIsValid (takes_error st i) v = take_error-StackIsValid i v
Step-StackIsValid (packet st now p h) v = handle_packet-StackIsValid now p h v
Step-StackIsValid (polls st now) v = poll_retransmit-StackIsValid now v

Reach-Valid : {s t : TcpStack} → StackIsValid s → Reach s t → StackIsValid t
Reach-Valid v here = v
Reach-Valid v (next r st) = Step-StackIsValid st (Reach-Valid v r)

-- After any sequence of calls, packets and timer polls on a new stack, every socket, in use or
-- waiting for `accept`, has its numbers in their words' range, at most 4096 buffered bytes, and a
-- TIME_WAIT deadline exactly in TIME_WAIT; and every queued retransmission was resent at most three
-- times.
pub Reach-StackIsValid : {st : TcpStack} → Reach Stack.new st → StackIsValid st
Reach-StackIsValid r = Reach-Valid new-StackIsValid r
