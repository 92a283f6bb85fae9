-- ===== src/Tcp/Packets/Reset.antt =====
-- How the stack answers a packet that belongs to no connection and no listener.
use ristux.Common.{
  ℕ, suc, ◌+◌, ◌%◌, ◌≡◌, ◌≢◌, ◌⊎◌, inl, inr, refl, sym, Bool, true, false, none, some, List, [],
  ◌∷◌, ◌++◌, length, All, Bool-cases, if◌then◌else◌, has_flag, wrapping_add, u32_mod, arith,
}
use ristux.Tcp.{
  TcpState, closed, listen, syn_sent, established, fin_wait1, fin_wait2, close_wait, closing,
  last_ack, time_wait, is_listen, Ipv4Addr, ip_eq, TcpPacket, TcpSocket, TcpStack, TcpOutbound,
  tcp_flag_syn, tcp_flag_fin, tcp_flag_rst, tcp_flag_ack, flags_rst_ack,
}
use ristux.Tcp.Segment.{parse_tcp_packet, tcp_sequence_span}
use ristux.Tcp.Segment.Roundtrip.{parse_tcp_packet-build}
use ristux.Tcp.Socket.{matches_packet}
use ristux.Tcp.Socket.Valid.{PacketIsValid}
use ristux.Tcp.Packets.{build_reset_for_unmatched, find_from, listens_for, handle_packet}

-- What a packet occupies of the sequence numbers: its bytes, and one more for SYN and for FIN.
abbrev occupied : TcpPacket → ℕ
occupied p =
    length p.payload
    + (if has_flag p.flags tcp_flag_syn then 1 else 0)
    + (if has_flag p.flags tcp_flag_fin then 1 else 0)

-- RFC 793: a reset takes its sequence number from an acknowledgement, and otherwise acknowledges
-- all that the packet occupies.
abbrev pub reset_for : Ipv4Addr → TcpPacket → TcpPacket
reset_for here p =
    let acked = has_flag p.flags tcp_flag_ack in
    record {
      src_ip = here;
      dst_ip = p.src_ip;
      src_port = p.dst_port;
      dst_port = p.src_port;
      seq = if acked then p.ack else 0;
      ack = if acked then 0 else (p.seq + occupied p) % u32_mod;
      flags = if acked then tcp_flag_rst else flags_rst_ack;
      payload = [];
    }

-- The socket is not the packet's end of its connection.
abbrev IsOther : TcpPacket → TcpSocket → Type 0
IsOther p s =
    (s.local_port ≢ p.dst_port) ⊎ ((s.remote_port ≢ p.src_port) ⊎ (s.remote_ip ≢ p.src_ip))

-- The socket does not listen on the packet's port.
abbrev IsDeaf : TcpPacket → TcpSocket → Type 0
IsDeaf p s = (s.state ≢ listen) ⊎ (s.local_port ≢ p.dst_port)

ip_eq_lem : (a b : Ipv4Addr) → ip_eq a b ≡ true → a ≡ b
ip_eq_lem a b h =
    let p : a.b0 ≡ b.b0 = ground (arith, h) in
    let q : a.b1 ≡ b.b1 = ground (arith, h) in
    let r : a.b2 ≡ b.b2 = ground (arith, h) in
    let t : a.b3 ≡ b.b3 = ground (arith, h) in cc (p, q, r, t)

is_listen_lem : (s : TcpState) → is_listen s ≡ true → s ≡ listen
is_listen_lem closed h = absurd (cc h)
is_listen_lem listen h = refl
is_listen_lem syn_sent h = absurd (cc h)
is_listen_lem established h = absurd (cc h)
is_listen_lem fin_wait1 h = absurd (cc h)
is_listen_lem fin_wait2 h = absurd (cc h)
is_listen_lem close_wait h = absurd (cc h)
is_listen_lem closing h = absurd (cc h)
is_listen_lem last_ack h = absurd (cc h)
is_listen_lem time_wait h = absurd (cc h)

find_from-none :
    (i : ℕ) (test : TcpSocket → Bool) (ss : List TcpSocket)
    → All (λ s. test s ≡ false) ss
    → find_from i test ss ≡ none
unfolding find_from
find_from-none i test [] h = refl
find_from-none i test (s ∷ ss) h = rw (h.0, find_from) (find_from-none (suc i) test ss h.1)

IsOther-unmatched :
    (p : TcpPacket) (ss : List TcpSocket)
    → All (IsOther p) ss
    → All (λ s. matches_packet s p ≡ false) ss
IsOther-unmatched p [] h = tt
IsOther-unmatched p (s ∷ ss) (h, hs) = (
  elim (Bool-cases (matches_packet s p)) [
    | inr f ↦ f
    | inl e ↦
        let same = ip_eq_lem s.remote_ip p.src_ip (ground (arith, e)) in
        let here : s.local_port ≡ p.dst_port = ground (arith, e) in
        let there : s.remote_port ≡ p.src_port = ground (arith, e) in
        absurd (elim h [ inl d ↦ d here | inr (inl d) ↦ d there | inr (inr d) ↦ d same ])
  ],
  IsOther-unmatched p ss hs,
)

IsDeaf-unmatched :
    (p : TcpPacket) (ss : List TcpSocket)
    → All (IsDeaf p) ss
    → All (λ s. listens_for p s ≡ false) ss
IsDeaf-unmatched p [] h = tt
IsDeaf-unmatched p (s ∷ ss) (h, hs) = (
  elim (Bool-cases (listens_for p s)) [
    | inr f ↦ f
    | inl e ↦
        let listening = is_listen_lem s.state (ground (arith, e)) in
        let here : s.local_port ≡ p.dst_port = ground (arith, e) in
        absurd (elim h [ inl d ↦ d listening | inr d ↦ d here ])
  ],
  IsDeaf-unmatched p ss hs,
)

span-occupied :
    (p : TcpPacket)
    → wrapping_add p.seq (tcp_sequence_span p.flags (length p.payload))
      ≡ (p.seq + occupied p) % u32_mod
unfolding tcp_sequence_span
span-occupied p = ground arith

parse-reset :
    (here : Ipv4Addr) (p : TcpPacket)
    → PacketIsValid p
    → parse_tcp_packet here p.src_ip (build_reset_for_unmatched p).segment ≡ some (reset_for here p)
unfolding build_reset_for_unmatched
parse-reset here p v =
    let ack = wrapping_add p.seq (tcp_sequence_span p.flags (length p.payload)) in
    let build = parse_tcp_packet-build here p.src_ip p.dst_port p.src_port in
    ground (
      arith,
      sym (span-occupied p),
      build p.ack 0 0 tcp_flag_rst [] v.dst_word v.src_word v.ack_word (omega arith),
      build 0 ack 0 flags_rst_ack [] v.dst_word v.src_word (omega arith) (omega arith),
    )

module _ (now : ℕ) (p : TcpPacket) (st : TcpStack) (no_socket : All (IsOther p) st.sockets)
    (no_peer : All (IsOther p) st.accept_queue) (no_listener : All (IsDeaf p) st.sockets) where
  -- A packet whose ports and source address are those of no socket and of no waiting peer, and on
  -- whose port no socket listens, leaves the stack as it was, reporting false, if it is a reset; any
  -- other is answered by one segment to its sender, which parses to the reset of RFC 793 for it, and
  -- nothing else changes.
  pub handle_packet-unmatched :
      (here : Ipv4Addr)
      → PacketIsValid p
      → (out : TcpOutbound) × (handle_packet now p st ≡ (
          if has_flag p.flags tcp_flag_rst
          then (false, st)
          else (true, record st { pending_outbound = st.pending_outbound ++ (out ∷ []) })))
        × (out.dst_ip ≡ p.src_ip)
        × (parse_tcp_packet here p.src_ip out.segment ≡ some (reset_for here p))
  unfolding handle_packet build_reset_for_unmatched
  handle_packet-unmatched here v = (
    build_reset_for_unmatched p,
    rw (
      find_from-none 0 (λ s. matches_packet s p) st.sockets
          (IsOther-unmatched p st.sockets no_socket),
      find_from-none 0 (λ s. matches_packet s p) st.accept_queue
          (IsOther-unmatched p st.accept_queue no_peer),
      find_from-none 0 (listens_for p) st.sockets (IsDeaf-unmatched p st.sockets no_listener),
      handle_packet,
    ),
    refl,
    parse-reset here p v,
  )
