-- ===== src/Tcp/Socket/Sequence.antt =====
-- `seq_at_or_after`, the order of sequence numbers that survives their wrap-around.
use ristux.Common.{ℕ, ◌+◌, ◌%◌, ◌<◌, ◌≡◌, ltb, arith, u32_mod}
use ristux.Tcp.Socket.{seq_at_or_after}

-- A sequence number `d` steps after a checkpoint, modulo 2 ^ 32, is at or after it just if `d` is
-- below 2 ^ 31, wherever the checkpoint lies.
pub seq_at_or_after_lem :
    (checkpoint d : ℕ)
    → checkpoint < u32_mod
    → d < u32_mod
    → seq_at_or_after ((checkpoint + d) % u32_mod) checkpoint ≡ ltb d 2147483648
unfolding seq_at_or_after
seq_at_or_after_lem checkpoint d hc hd = ground arith
