-- ===== src/Tcp/Retransmit/Budget.antt =====
-- How often timer polls resend a segment.
use ristux.Common.{
  ℕ, ◌+◌, ◌-◌, ◌≤◌, ◌≡◌, ap, ◌∙◌, inl, inr, Bool, not, Bool-cases, if◌then◌else◌, List, [], ◌∷◌,
  ◌++◌, length, length-append, retain, retain-append, arith,
}
use ristux.Tcp.{TcpRetransmit, TcpOutbound, TcpStack}
use ristux.Tcp.Retransmit.{
  expire_time_wait, poll_entry, poll_step, poll_entries, is_failed, apply_poll, is_nil,
  poll_retransmit, Poll,
}
use ristux.Tcp.Retransmit.Sent.{segment_of, fail_all-retransmits, apply_poll-pending}

-- The stack after timer polls at these ticks, with nothing else in between.
abbrev pub polls : List ℕ → TcpStack → TcpStack
polls [] st = st
polls (now ∷ later) st = polls later (poll_retransmit now st).1

module _ (test : TcpOutbound → Bool) where
  -- How many segments of a queue pass the test.
  abbrev pub count : List TcpOutbound → ℕ
  count queue = length (retain test queue)

  -- The attempts of three that the entries of such segments have left.
  abbrev pub attempts_left : List TcpRetransmit → ℕ
  attempts_left [] = 0
  attempts_left (e ∷ es) = (if test (segment_of e) then 3 - e.attempts else 0) + attempts_left es

  count-append : (xs ys : List TcpOutbound) → count (xs ++ ys) ≡ count xs + count ys
  count-append xs ys =
      ap length (retain-append test xs ys) ∙ length-append (retain test xs) (retain test ys)

  step-le :
      (now : ℕ) (e : TcpRetransmit) (rest : Poll)
      → count (poll_step e (poll_entry now e) rest).sent
          + attempts_left (poll_step e (poll_entry now e) rest).entries
        ≤ count rest.sent
          + attempts_left rest.entries
          + (if test (segment_of e) then 3 - e.attempts else 0)
  unfolding poll_step poll_entry
  step-le now e rest = ground arith

  poll_entries-le :
      (now : ℕ) (es : List TcpRetransmit)
      → count (poll_entries now es).sent + attempts_left (poll_entries now es).entries
        ≤ attempts_left es
  unfolding poll_entries
  poll_entries-le now [] = omega arith
  poll_entries-le now (e ∷ es) =
      omega (arith, step-le now e (poll_entries now es), poll_entries-le now es)

  attempts_left-retain :
      (keep : TcpRetransmit → Bool) (es : List TcpRetransmit)
      → attempts_left (retain keep es) ≤ attempts_left es
  attempts_left-retain keep [] = omega arith
  attempts_left-retain keep (e ∷ es) = elim (Bool-cases (keep e)) [
    | inl t ↦ rw t (omega (arith, attempts_left-retain keep es))
    | inr t ↦ rw t (omega (arith, attempts_left-retain keep es))
  ]

  apply_poll-le :
      (poll : Poll) (st : TcpStack)
      → attempts_left (apply_poll poll st).1.retransmits ≤ attempts_left poll.entries
  unfolding apply_poll
  apply_poll-le poll st = elim (Bool-cases (is_nil poll.failed)) [
    | inl e ↦ rw e (omega arith)
    | inr e ↦
        rw (e, fail_all-retransmits)
          (attempts_left-retain (λ entry. not (is_failed poll.failed entry)) poll.entries)
  ]

  poll_retransmit-le :
      (now : ℕ) (st : TcpStack)
      → count (poll_retransmit now st).1.pending_outbound
          + attempts_left (poll_retransmit now st).1.retransmits
        ≤ count st.pending_outbound + attempts_left st.retransmits
  unfolding poll_retransmit expire_time_wait
  poll_retransmit-le now st =
      let poll = poll_entries now st.retransmits in
      let expired = expire_time_wait now st in
      omega (
        arith,
        ap count (apply_poll-pending poll expired),
        count-append st.pending_outbound poll.sent,
        apply_poll-le poll expired,
        poll_entries-le now st.retransmits,
      )

  -- Whatever segments a test picks out: timer polls, however many and at whatever ticks, with nothing
  -- else in between, put at most as many of them into the outbound queue as the entries of such
  -- segments have attempts left of three, less what their entries have left afterwards.
  pub resends-le :
      (times : List ℕ) (st : TcpStack)
      → count (polls times st).pending_outbound + attempts_left (polls times st).retransmits
        ≤ count st.pending_outbound + attempts_left st.retransmits
  resends-le [] st = omega arith
  resends-le (now ∷ later) st =
      omega (arith, resends-le later (poll_retransmit now st).1, poll_retransmit-le now st)
