-- ===== src/Tcp/Retransmit/Sent.antt =====
-- What a timer poll sends and what it leaves in the queue, entry by entry.
use ristux.Common.{
  ℕ, ◌+◌, ◌*◌, ◌^◌, ◌≡◌, refl, sym, ap, ◌∙◌, Bool, true, false, not, ◌&&◌, ◌==◌, ltb, leb, any,
  Bool-cases, if◌then◌else◌, List, [], ◌∷◌, ◌++◌, retain, map, min, saturating_add, arith, inl, inr,
}
use ristux.Tcp.{TcpRetransmit, TcpOutbound, TcpStack, timed_out, ip_eq}
use ristux.Tcp.Retransmit.{
  Flow, entry_matches, fail_socket, poll_entry, poll_step, poll_entries, fail_all, is_failed,
  apply_poll, Poll, is_nil,
}

-- What a resent entry puts into the outbound queue.
abbrev pub segment_of : TcpRetransmit → TcpOutbound
segment_of e = record { dst_ip = e.dst_ip; segment = e.segment }

-- The entry is due and has an attempt left of three.
abbrev pub is_resent : ℕ → TcpRetransmit → Bool
is_resent now e = leb e.deadline_tick now && ltb e.attempts 3

-- The entry after the poll: one more attempt, and twice the delay of the one before.
abbrev pub renewed : ℕ → TcpRetransmit → TcpRetransmit
renewed now e =
    if is_resent now e
    then record e {
      attempts = e.attempts + 1;
      deadline_tick = saturating_add now (25 * 2 ^ (e.attempts + 1));
    }
    else e

-- The entry is due and has no attempt left.
abbrev is_hopeless : ℕ → TcpRetransmit → Bool
is_hopeless now e = leb e.deadline_tick now && leb 3 e.attempts

-- An entry of the same connection is due and has no attempt left.
abbrev pub is_lost : ℕ → List TcpRetransmit → TcpRetransmit → Bool
is_lost now es e =
    any
      (λ g.
        is_hopeless now g
        && (ip_eq e.dst_ip g.dst_ip
            && e.remote_port == g.remote_port
            && e.local_port == g.local_port))
      es

pub fail_all-retransmits :
    (fs : List Flow) (st : TcpStack) → (fail_all fs st).retransmits ≡ st.retransmits
unfolding fail_all fail_socket
fail_all-retransmits [] st = refl
fail_all-retransmits (f ∷ fs) st = fail_all-retransmits fs (fail_socket f timed_out st)

fail_all-pending :
    (fs : List Flow) (st : TcpStack) → (fail_all fs st).pending_outbound ≡ st.pending_outbound
unfolding fail_all fail_socket
fail_all-pending [] st = refl
fail_all-pending (f ∷ fs) st = fail_all-pending fs (fail_socket f timed_out st)

pub apply_poll-pending :
    (poll : Poll) (st : TcpStack)
    → (apply_poll poll st).1.pending_outbound ≡ st.pending_outbound ++ poll.sent
unfolding apply_poll
apply_poll-pending poll st = elim (Bool-cases (is_nil poll.failed)) [
  | inl e ↦ rw e refl
  | inr e ↦ rw e (fail_all-pending poll.failed _)
]

poll_step-sent :
    (now : ℕ) (e : TcpRetransmit) (rest : Poll)
    → (poll_step e (poll_entry now e) rest).sent
      ≡ (if is_resent now e then segment_of e ∷ rest.sent else rest.sent)
unfolding poll_entry poll_step
poll_step-sent now e rest = ground arith

pub poll_entries-sent :
    (now : ℕ) (es : List TcpRetransmit)
    → (poll_entries now es).sent ≡ map segment_of (retain (is_resent now) es)
unfolding poll_entries
poll_entries-sent now [] = refl
poll_entries-sent now (e ∷ es) =
    let step = poll_step-sent now e (poll_entries now es) in
    elim (Bool-cases (is_resent now e)) [
      | inl t ↦ rw (step, t) (ap (λ s. segment_of e ∷ s) (poll_entries-sent now es))
      | inr t ↦ rw (step, t) (poll_entries-sent now es)
    ]

poll_step-entries :
    (now : ℕ) (e : TcpRetransmit) (rest : Poll)
    → (poll_step e (poll_entry now e) rest).entries ≡ renewed now e ∷ rest.entries
unfolding poll_entry poll_step
poll_step-entries now e rest = elim (Bool-cases (ltb now e.deadline_tick)) [
  | inl w ↦ let n : leb e.deadline_tick now ≡ false = ground (arith, w) in rw (w, n) refl
  | inr w ↦
      let n : leb e.deadline_tick now ≡ true = ground (arith, w) in
      elim (Bool-cases (leb 3 e.attempts)) [
        | inl l ↦ let m : ltb e.attempts 3 ≡ false = ground (arith, l) in rw (w, n, l, m) refl
        | inr l ↦
            let m : ltb e.attempts 3 ≡ true = ground (arith, l) in
            let once : min (e.attempts + 1) 255 ≡ e.attempts + 1 = ground (arith, l) in
            let small : min (e.attempts + 1) 5 ≡ e.attempts + 1 = ground (arith, l) in
            rw (w, n, l, m, once, small) refl
      ]
]

poll_entries-entries :
    (now : ℕ) (es : List TcpRetransmit) → (poll_entries now es).entries ≡ map (renewed now) es
unfolding poll_entries
poll_entries-entries now [] = refl
poll_entries-entries now (e ∷ es) =
    poll_step-entries now e (poll_entries now es)
    ∙ ap (λ t. renewed now e ∷ t) (poll_entries-entries now es)

poll_step-failed :
    (now : ℕ) (e : TcpRetransmit) (rest : Poll)
    → (poll_step e (poll_entry now e) rest).failed ≡ (
        if is_hopeless now e
        then record { ip = e.dst_ip; remote_port = e.remote_port; local_port = e.local_port }
          ∷ rest.failed
        else rest.failed)
unfolding poll_entry poll_step
poll_step-failed now e rest = ground arith

entry_matches-renewed :
    (now : ℕ) (f : Flow) (e : TcpRetransmit) → entry_matches f (renewed now e) ≡ entry_matches f e
entry_matches-renewed now f e = elim (Bool-cases (is_resent now e)) [
  | inl t ↦ rw t refl
  | inr t ↦ rw t refl
]

is_failed-is_lost :
    (now : ℕ) (es : List TcpRetransmit) (e : TcpRetransmit)
    → is_failed (poll_entries now es).failed (renewed now e) ≡ is_lost now es e
unfolding poll_entries
is_failed-is_lost now [] e = refl
is_failed-is_lost now (g ∷ es) e =
    let step = poll_step-failed now g (poll_entries now es) in
    elim (Bool-cases (is_hopeless now g)) [
      | inl t ↦
          let f : Flow = record {
            ip = g.dst_ip;
            remote_port = g.remote_port;
            local_port = g.local_port;
          } in
          rw (step, t, entry_matches-renewed now f e)
            (ap (λ r. if entry_matches f e then true else r) (is_failed-is_lost now es e))
      | inr t ↦ rw (step, t) (is_failed-is_lost now es e)
    ]

retain-map :
    (p q : TcpRetransmit → Bool) (f : TcpRetransmit → TcpRetransmit) (es : List TcpRetransmit)
    → ((e : TcpRetransmit) → p (f e) ≡ q e)
    → retain p (map f es) ≡ map f (retain q es)
retain-map p q f [] h = refl
retain-map p q f (e ∷ es) h = elim (Bool-cases (q e)) [
  | inl t ↦ rw (h e, t) (ap (λ r. f e ∷ r) (retain-map p q f es h))
  | inr t ↦ rw (h e, t) (retain-map p q f es h)
]

retain-all : (es : List TcpRetransmit) → retain (λ e. true) es ≡ es
retain-all [] = refl
retain-all (e ∷ es) = ap (λ t. e ∷ t) (retain-all es)

module _ (es : List TcpRetransmit) (sent : List TcpOutbound) (flag : Bool) (st : TcpStack) where
  apply_poll-kept :
      (failed : List Flow)
      → let poll : Poll = record {
        entries = es;
        sent = sent;
        failed = failed;
        retransmitted = flag;
      } in
        (apply_poll poll st).1.retransmits ≡ retain (λ e. not (is_failed failed e)) es
  unfolding apply_poll
  apply_poll-kept [] = sym (retain-all es)
  apply_poll-kept (f ∷ fs) = fail_all-retransmits (f ∷ fs) _

-- What a poll leaves in the queue.
pub apply_poll-left :
    (now : ℕ) (st : TcpStack) (es : List TcpRetransmit)
    → (apply_poll (poll_entries now es) st).1.retransmits
      ≡ map (renewed now) (retain (λ e. not (is_lost now es e)) es)
apply_poll-left now st es =
    let poll = poll_entries now es in
    apply_poll-kept poll.entries poll.sent poll.retransmitted st poll.failed
    ∙ ap (λ t. retain (λ e. not (is_failed poll.failed e)) t) (poll_entries-entries now es)
    ∙ retain-map (λ e. not (is_failed poll.failed e)) (λ e. not (is_lost now es e)) (renewed now) es
        (λ e. ap not (is_failed-is_lost now es e))
