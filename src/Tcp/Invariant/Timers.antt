-- ===== src/Tcp/Invariant/Timers.antt =====
-- Acknowledgements, resets and the timer poll keep the invariant of the stack.
use ristux.Common.{ℕ, List, [], ◌∷◌, arith, All, All-retain, not, map, ◌++◌, retain}
use ristux.Tcp.{TcpError, timed_out, TcpSocket, TcpStack, TcpRetransmit}
use ristux.Tcp.Socket.Valid.{SocketIsValid}
use ristux.Tcp.Retransmit.{
  Flow, acknowledge, remove_retransmits, fail_first, fail_socket, expire_socket, expire_time_wait,
  poll_entry, poll_step, poll_entries, fail_all, is_failed, poll_retransmit, Poll, apply_poll,
}
use ristux.Tcp.Invariant.{EntryIsValid, StackIsValid}

pub acknowledge-StackIsValid :
    (f : Flow) (ack : ℕ) {st : TcpStack} → StackIsValid st → StackIsValid (acknowledge f ack st)
unfolding acknowledge
acknowledge-StackIsValid f ack {st} v = record {
  sockets_valid = v.sockets_valid;
  queue_valid = v.queue_valid;
  entries_valid = All-retain EntryIsValid _ st.retransmits v.entries_valid;
}

pub remove_retransmits-StackIsValid :
    (f : Flow) {st : TcpStack} → StackIsValid st → StackIsValid (remove_retransmits f st)
unfolding remove_retransmits
remove_retransmits-StackIsValid f {st} v = record {
  sockets_valid = v.sockets_valid;
  queue_valid = v.queue_valid;
  entries_valid = All-retain EntryIsValid _ st.retransmits v.entries_valid;
}

fail_first-All :
    (f : Flow) (e : TcpError) (ss : List TcpSocket)
    → All SocketIsValid ss
    → All SocketIsValid (fail_first f e ss)
unfolding fail_first
fail_first-All f e [] h = h
fail_first-All f e (s ∷ rest) h = ground (arith, fail_first-All f e rest)

fail_all-StackIsValid :
    (fs : List Flow) {st : TcpStack} → StackIsValid st → StackIsValid (fail_all fs st)
unfolding fail_all fail_socket
fail_all-StackIsValid [] v = v
fail_all-StackIsValid (f ∷ fs) {st} v =
    fail_all-StackIsValid fs (ground (arith, fail_first-All f timed_out st.sockets v.sockets_valid))

expire-All :
    (now : ℕ) (ss : List TcpSocket)
    → All SocketIsValid ss
    → All SocketIsValid (map (expire_socket now) ss)
unfolding expire_socket
expire-All now [] h = h
expire-All now (s ∷ rest) h = (ground arith, expire-All now rest h.1)

pub expire_time_wait-StackIsValid :
    (now : ℕ) {st : TcpStack} → StackIsValid st → StackIsValid (expire_time_wait now st)
unfolding expire_time_wait
expire_time_wait-StackIsValid now {st} v = record {
  sockets_valid = expire-All now st.sockets v.sockets_valid;
  queue_valid = v.queue_valid;
  entries_valid = v.entries_valid;
}

poll_entries-All :
    (now : ℕ) (es : List TcpRetransmit)
    → All EntryIsValid es
    → All EntryIsValid (poll_entries now es).entries
unfolding poll_entries poll_step poll_entry
poll_entries-All now [] h = h
poll_entries-All now (e ∷ rest) h = ground (arith, poll_entries-All now rest)

apply_poll-StackIsValid :
    (poll : Poll) {st : TcpStack}
    → StackIsValid st
    → All EntryIsValid poll.entries
    → StackIsValid (apply_poll poll st).1
unfolding apply_poll
apply_poll-StackIsValid poll {st} v h = ground (
  arith,
  fail_all-StackIsValid poll.failed
      {st = record st {
        pending_outbound = st.pending_outbound ++ poll.sent;
        retransmits = retain (λ entry. not (is_failed poll.failed entry)) poll.entries;
      }}
      (record {
        sockets_valid = v.sockets_valid;
        queue_valid = v.queue_valid;
        entries_valid = All-retain EntryIsValid _ poll.entries h;
      }),
)

pub poll_retransmit-StackIsValid :
    (now : ℕ) {st : TcpStack} → StackIsValid st → StackIsValid (poll_retransmit now st).1
unfolding poll_retransmit
poll_retransmit-StackIsValid now {st} v =
    let w = expire_time_wait-StackIsValid now v in
    apply_poll-StackIsValid (poll_entries now (expire_time_wait now st).retransmits) w
      (poll_entries-All now (expire_time_wait now st).retransmits w.entries_valid)
