-- ===== src/Tcp/Retransmit/Timeout.antt =====
-- What a timer poll leaves behind and what it sends.
use ristux.Common.{
  ℕ, ◌+◌, ◌*◌, ◌^◌, ◌<◌, ◌≡◌, refl, sym, ap, ◌∙◌, some, Bool, true, false, not, List, [], ◌∷◌, ◌++◌,
  All, retain, map, min, arith, u64_max, ◌⊎◌,
}
use native.Mathlib.Nat.{one-le-pow}
use ristux.Tcp.{timed_out, TcpRetransmit, TcpOutbound, TcpSocket, TcpStack, is_time_wait, time_wait}
use ristux.Tcp.Retransmit.{
  Flow, fail_first, fail_socket, deadline_passed, expire_socket, expire_time_wait, Polled, waiting,
  failing, resend, poll_entry, poll_step, poll_entries, fail_all, is_failed, apply_poll,
  poll_retransmit, Poll,
}
use ristux.Tcp.Retransmit.Sent.{
  segment_of, is_resent, renewed, is_lost, fail_all-retransmits, apply_poll-pending,
  poll_entries-sent, apply_poll-left,
}

-- What a poll leaves of an entry: a deadline that has not come, or a failed connection.
abbrev Settled : ℕ → List Flow → TcpRetransmit → Type 0
Settled now failed e = (now < e.deadline_tick) ⊎ (is_failed failed e ≡ true)

Settled-more :
    (now : ℕ) (f : Flow) (fs : List Flow) (es : List TcpRetransmit)
    → All (Settled now fs) es
    → All (Settled now (f ∷ fs)) es
Settled-more now f fs [] h = h
Settled-more now f fs (e ∷ es) h = (ground arith, Settled-more now f fs es h.1)

backoff-pos : (n : ℕ) → 0 < 25 * 2 ^ min n 5
backoff-pos n = omega (arith, one-le-pow (min n 5) 2)

settle :
    (now : ℕ) (e : TcpRetransmit) (o : Polled) (rest : Poll)
    → now < u64_max
    → poll_entry now e ≡ o
    → All (Settled now rest.failed) rest.entries
    → All (Settled now (poll_step e o rest).failed) (poll_step e o rest).entries
unfolding poll_step poll_entry
settle now e waiting rest h q k = (ground arith, k)
settle now e failing rest h q k = (ground arith, Settled-more now _ rest.failed rest.entries k)
settle now e (resend r) rest h q k = (ground (arith, backoff-pos (min (e.attempts + 1) 255)), k)

poll_entries-Settled :
    (now : ℕ) (es : List TcpRetransmit)
    → now < u64_max
    → All (Settled now (poll_entries now es).failed) (poll_entries now es).entries
unfolding poll_entries
poll_entries-Settled now [] h = tt
poll_entries-Settled now (e ∷ es) h =
    settle now e (poll_entry now e) (poll_entries now es) h refl (poll_entries-Settled now es h)

-- The entries that a poll keeps are not due.
abbrev pub IsPending : ℕ → TcpRetransmit → Type 0
IsPending now e = now < e.deadline_tick

-- A socket in TIME_WAIT with a deadline has it still to come.
abbrev pub IsUnexpired : ℕ → TcpSocket → Type 0
IsUnexpired now s =
    (deadline : ℕ)
    → s.state ≡ time_wait
    → s.time_wait_deadline_tick ≡ some deadline
    → now < deadline

-- The same by the tests of `expire_time_wait`.
abbrev IsInTime : ℕ → TcpSocket → Type 0
IsInTime now s = is_time_wait s.state ≡ true → deadline_passed now s.time_wait_deadline_tick ≡ false

kept-IsPending :
    (now : ℕ) (failed : List Flow) (es : List TcpRetransmit)
    → All (Settled now failed) es
    → All (IsPending now) (retain (λ e. not (is_failed failed e)) es)
kept-IsPending now failed [] h = h
kept-IsPending now failed (e ∷ es) h = ground (arith, kept-IsPending now failed es h.1)

unfailed-IsPending :
    (now : ℕ) (es : List TcpRetransmit) → All (Settled now []) es → All (IsPending now) es
unfailed-IsPending now [] h = h
unfailed-IsPending now (e ∷ es) h = (ground arith, unfailed-IsPending now es h.1)

fail_first-IsInTime :
    (now : ℕ) (f : Flow) (ss : List TcpSocket)
    → All (IsInTime now) ss
    → All (IsInTime now) (fail_first f timed_out ss)
unfolding fail_first
fail_first-IsInTime now f [] h = h
fail_first-IsInTime now f (s ∷ ss) h = ground (arith, fail_first-IsInTime now f ss h.1)

fail_all-IsInTime :
    (now : ℕ) (fs : List Flow) (st : TcpStack)
    → All (IsInTime now) st.sockets
    → All (IsInTime now) (fail_all fs st).sockets
unfolding fail_all fail_socket
fail_all-IsInTime now [] st h = h
fail_all-IsInTime now (f ∷ fs) st h =
    fail_all-IsInTime now fs (fail_socket f timed_out st) (fail_first-IsInTime now f st.sockets h)

expired-IsInTime : (now : ℕ) (ss : List TcpSocket) → All (IsInTime now) (map (expire_socket now) ss)
unfolding expire_socket
expired-IsInTime now [] = tt
expired-IsInTime now (s ∷ ss) = ((λ h. ground arith), expired-IsInTime now ss)

module _ (now : ℕ) (es : List TcpRetransmit) (sent : List TcpOutbound) (flag : Bool) (st : TcpStack)
    (k : All (IsInTime now) st.sockets) where
  apply_poll-Settled :
      (failed : List Flow)
      → All (Settled now failed) es
      → let poll : Poll = record {
        entries = es;
        sent = sent;
        failed = failed;
        retransmitted = flag;
      } in
        All (IsPending now) (apply_poll poll st).1.retransmits
        × All (IsInTime now) (apply_poll poll st).1.sockets
  unfolding apply_poll
  apply_poll-Settled [] h = (unfailed-IsPending now es h, k)
  apply_poll-Settled (f ∷ fs) h = (
    rw fail_all-retransmits (kept-IsPending now (f ∷ fs) es h),
    fail_all-IsInTime now (f ∷ fs) _ k,
  )

in_time-IsUnexpired :
    (now : ℕ) (ss : List TcpSocket) → All (IsInTime now) ss → All (IsUnexpired now) ss
in_time-IsUnexpired now [] h = tt
in_time-IsUnexpired now (s ∷ ss) (h, hs) = (
  λ deadline waits e.
      let late : deadline_passed now (some deadline) ≡ false =
        sym (ap (deadline_passed now) e) ∙ h (ap is_time_wait waits) in
      ground (arith, late),
  in_time-IsUnexpired now ss hs,
)

-- After a timer poll at any tick below the largest `u64`, no retransmission is due, and no socket is in
-- TIME_WAIT with a deadline that has passed. The poll put into the outbound queue just the segments that
-- were due and had an attempt left of three, each once and in their order; their entries count one more
-- attempt and fall due 25 * 2 ^ attempts ticks after the poll, or at the largest `u64`; and the queue lost
-- just the entries of the connections of which an entry was due with no attempt left.
pub poll_retransmit-settles :
    (now : ℕ) (st : TcpStack)
    → now < u64_max
    → All (IsPending now) (poll_retransmit now st).1.retransmits
      × All (IsUnexpired now) (poll_retransmit now st).1.sockets
      × ((poll_retransmit now st).1.pending_outbound
          ≡ st.pending_outbound ++ map segment_of (retain (is_resent now) st.retransmits))
      × ((poll_retransmit now st).1.retransmits
          ≡ map (renewed now) (retain (λ e. not (is_lost now st.retransmits e)) st.retransmits))
unfolding poll_retransmit expire_time_wait
poll_retransmit-settles now st h =
    let poll = poll_entries now st.retransmits in
    let expired = expire_time_wait now st in
    let (pending, in_time) =
      apply_poll-Settled now poll.entries poll.sent poll.retransmitted expired
        (expired-IsInTime now st.sockets) poll.failed (poll_entries-Settled now st.retransmits h) in
    (
      pending,
      in_time-IsUnexpired now _ in_time,
      apply_poll-pending poll expired
          ∙ ap (λ s. st.pending_outbound ++ s) (poll_entries-sent now st.retransmits),
      apply_poll-left now expired st.retransmits,
    )
