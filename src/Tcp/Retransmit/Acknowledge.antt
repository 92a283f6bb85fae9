-- ===== src/Tcp/Retransmit/Acknowledge.antt =====
-- `acknowledge` against the order of sequence numbers modulo 2 ^ 32.
use ristux.Common.{
  ℕ, ◌+◌, ◌%◌, ◌≤◌, ◌<◌, ◌≡◌, refl, ap, Bool, true, ◌&&◌, not, List, [], ◌∷◌, ◌++◌, All, retain,
  retain-append, arith, u32_mod,
}
use ristux.Tcp.{TcpRetransmit, TcpStack}
use ristux.Tcp.Socket.{seq_at_or_after}
use ristux.Tcp.Retransmit.{Flow, entry_matches, is_acknowledged, acknowledge}

-- The test that the wrap-around calls for: the acknowledgement is at or after the entry's end.
abbrev pub is_covered : Flow → ℕ → TcpRetransmit → Bool
is_covered f ack entry = entry_matches f entry && seq_at_or_after ack entry.end_seq

-- No wrap-around between the end of an entry and an acknowledgement.
abbrev pub IsNear : ℕ → TcpRetransmit → Type 0
IsNear ack entry =
    (entry.end_seq < u32_mod)
    × (ack < entry.end_seq + 2147483648)
    × (entry.end_seq ≤ ack + 2147483648)

near_test :
    (f : Flow) (ack : ℕ) (entry : TcpRetransmit)
    → ack < u32_mod
    → IsNear ack entry
    → is_acknowledged f ack entry ≡ is_covered f ack entry
unfolding seq_at_or_after
near_test f ack entry h near = ground arith

near_retain :
    (f : Flow) (ack : ℕ) (es : List TcpRetransmit)
    → ack < u32_mod
    → All (IsNear ack) es
    → retain (λ e. not (is_acknowledged f ack e)) es ≡ retain (λ e. not (is_covered f ack e)) es
near_retain f ack [] h near = refl
near_retain f ack (e ∷ es) h near = rw (near_test f ack e h near.0, near_retain f ack es h near.1)

-- Where no entry's end lies across the wrap-around from the acknowledgement, `acknowledge` drops
-- just the connection's entries that the acknowledgement covers modulo 2 ^ 32, and keeps the rest of
-- the stack.
pub acknowledge-covered :
    (f : Flow) (ack : ℕ) (st : TcpStack)
    → ack < u32_mod
    → All (IsNear ack) st.retransmits
    → acknowledge f ack st
      ≡ record st { retransmits = retain (λ e. not (is_covered f ack e)) st.retransmits }
unfolding acknowledge
acknowledge-covered f ack st h near =
    ap (λ es. record st { retransmits = es }) (near_retain f ack st.retransmits h near)

not_acknowledged :
    (f : Flow) (d : ℕ) (entry : TcpRetransmit)
    → entry.end_seq < u32_mod
    → u32_mod ≤ entry.end_seq + d
    → d < 2147483648
    → not (is_acknowledged f ((entry.end_seq + d) % u32_mod) entry) ≡ true
not_acknowledged f d entry he hd hs = ground arith

-- Where the acknowledgement has wrapped past the end of an entry, it covers the entry modulo 2 ^ 32,
-- and yet `acknowledge` keeps the entry: it goes on to be resent.
pub acknowledge-keeps_wrapped :
    (f : Flow) (d : ℕ) (entry : TcpRetransmit) (before after : List TcpRetransmit) (st : TcpStack)
    → entry.end_seq < u32_mod
    → u32_mod ≤ entry.end_seq + d
    → d < 2147483648
    → st.retransmits ≡ before ++ (entry ∷ after)
    → let ack = (entry.end_seq + d) % u32_mod in
      let keep = λ (e : TcpRetransmit). not (is_acknowledged f ack e) in
      (seq_at_or_after ack entry.end_seq ≡ true)
      × ((acknowledge f ack st).retransmits ≡ retain keep before ++ (entry ∷ retain keep after))
unfolding seq_at_or_after acknowledge
acknowledge-keeps_wrapped f d entry before after st he hd hs q =
    (ground arith, rw (q, retain-append, not_acknowledged f d entry he hd hs))
