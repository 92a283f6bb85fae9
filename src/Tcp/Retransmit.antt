-- ===== src/Tcp/Retransmit.antt =====
-- The retransmission queue of kernel/src/net/tcp.rs: `acknowledge`, `remove_retransmits`,
-- `fail_socket`, `expire_time_wait` and `poll_retransmit`.
pub mod Acknowledge
pub mod Sent
pub mod Timeout
pub mod Budget
use ristux.Common.{
  ℕ, ◌+◌, ◌*◌, ◌^◌, Bool, true, false, ◌==◌, ◌&&◌, not, leb, ltb, min, Option, none, some, List, [],
  ◌∷◌, ◌++◌, map, any, retain, if◌then◌else◌, saturating_add,
}
use ristux.Tcp.{
  TcpError, timed_out, closed, Ipv4Addr, ip_eq, TcpOutbound, TcpRetransmit, TcpSocket, TcpStack,
  tcp_retransmit_ticks, tcp_max_retransmits, is_time_wait,
}

-- The remote address, remote port and local port of a connection, as the source's tuples hold them.
pub record Flow : Type 0 where
  pub ip : Ipv4Addr
  pub remote_port : ℕ
  pub local_port : ℕ

abbrev pub entry_matches : Flow → TcpRetransmit → Bool
entry_matches f entry =
    ip_eq entry.dst_ip f.ip
    && entry.remote_port == f.remote_port
    && entry.local_port == f.local_port

abbrev pub socket_matches : Flow → TcpSocket → Bool
socket_matches f s =
    ip_eq s.remote_ip f.ip && s.remote_port == f.remote_port && s.local_port == f.local_port

-- The test of `acknowledge`: a plain order of the two numbers.
abbrev pub is_acknowledged : Flow → ℕ → TcpRetransmit → Bool
is_acknowledged f ack entry = entry_matches f entry && leb entry.end_seq ack

unfoldable pub acknowledge : Flow → ℕ → TcpStack → TcpStack
acknowledge f ack st = record st {
  retransmits = retain (λ entry. not (is_acknowledged f ack entry)) st.retransmits;
}

unfoldable pub remove_retransmits : Flow → TcpStack → TcpStack
remove_retransmits f st = record st {
  retransmits = retain (λ entry. not (entry_matches f entry)) st.retransmits;
}

-- `iter_mut().find(..)`: the first socket of the connection.
unfoldable pub fail_first : Flow → TcpError → List TcpSocket → List TcpSocket
fail_first f e [] = []
fail_first f e (s ∷ rest) =
    let later = fail_first f e rest in
    if socket_matches f s
    then record s { state = closed; error = some e; time_wait_deadline_tick = none } ∷ rest
    else s ∷ later

unfoldable pub fail_socket : Flow → TcpError → TcpStack → TcpStack
fail_socket f e st = record st { sockets = fail_first f e st.sockets }

-- `time_wait_deadline_tick.map(|deadline| deadline <= now_tick).unwrap_or(false)`.
abbrev pub deadline_passed : ℕ → Option ℕ → Bool
deadline_passed now none = false
deadline_passed now (some deadline) = leb deadline now

unfoldable pub expire_socket : ℕ → TcpSocket → TcpSocket
expire_socket now s =
    if is_time_wait s.state && deadline_passed now s.time_wait_deadline_tick
    then record s { state = closed; time_wait_deadline_tick = none }
    else s

unfoldable pub expire_time_wait : ℕ → TcpStack → TcpStack
expire_time_wait now st = record st { sockets = map (expire_socket now) st.sockets }

-- What the first loop of `poll_retransmit` does with one entry.
pub data Polled : Type 0 where
  waiting failing : Polled
  resend : TcpRetransmit → Polled

unfoldable pub poll_entry : ℕ → TcpRetransmit → Polled
poll_entry now entry =
    let attempts = min (entry.attempts + 1) 255 in
    if ltb now entry.deadline_tick
    then waiting
    else if leb tcp_max_retransmits entry.attempts
    then failing
    else resend (record entry {
      attempts = attempts;
      deadline_tick = saturating_add now (tcp_retransmit_ticks * 2 ^ min attempts 5);
    })

-- The variables of that loop: the entries, what was pushed to the outbound queue, the failed
-- connections, and the flag that the caller gets.
pub record Poll : Type 0 where
  pub entries : List TcpRetransmit
  pub sent : List TcpOutbound
  pub failed : List Flow
  pub retransmitted : Bool

unfoldable pub poll_step : TcpRetransmit → Polled → Poll → Poll
poll_step entry waiting rest = record rest { entries = entry ∷ rest.entries }
poll_step entry failing rest = record rest {
  entries = entry ∷ rest.entries;
  failed =
      record { ip = entry.dst_ip; remote_port = entry.remote_port; local_port = entry.local_port }
      ∷ rest.failed;
}
poll_step entry (resend renewed) rest = record rest {
  entries = renewed ∷ rest.entries;
  sent = record { dst_ip = entry.dst_ip; segment = entry.segment } ∷ rest.sent;
  retransmitted = true;
}

unfoldable pub poll_entries : ℕ → List TcpRetransmit → Poll
poll_entries now [] = record { entries = []; sent = []; failed = []; retransmitted = false }
poll_entries now (entry ∷ rest) = poll_step entry (poll_entry now entry) (poll_entries now rest)

unfoldable pub fail_all : List Flow → TcpStack → TcpStack
fail_all [] st = st
fail_all (f ∷ rest) st = fail_all rest (fail_socket f timed_out st)

abbrev pub is_failed : List Flow → TcpRetransmit → Bool
is_failed failed entry = any (λ f. entry_matches f entry) failed

abbrev pub is_nil {ℓ} : {A : Type ℓ} → List A → Bool
is_nil [] = true
is_nil (_ ∷ _) = false

-- The rest of `poll_retransmit` after that loop.
unfoldable pub apply_poll : Poll → TcpStack → Bool × TcpStack
apply_poll poll st =
    let pending = st.pending_outbound ++ poll.sent in
    let kept = retain (λ entry. not (is_failed poll.failed entry)) poll.entries in
    if is_nil poll.failed
    then (poll.retransmitted, record st { pending_outbound = pending; retransmits = poll.entries })
    else (true, fail_all poll.failed (record st { pending_outbound = pending; retransmits = kept }))

unfoldable pub poll_retransmit : ℕ → TcpStack → Bool × TcpStack
poll_retransmit now st =
    let expired = expire_time_wait now st in
    apply_poll (poll_entries now expired.retransmits) expired
