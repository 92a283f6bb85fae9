-- ===== src/Tcp/Stack/Receive.antt =====
-- `recv`: what the caller's buffer gets and what stays buffered.
use ristux.Common.{
  ℕ, ◌≡◌, refl, ap, none, some, List, [], ◌∷◌, ◌++◌, length, take, drop, min, get_elem?, set, arith,
  ◌≢◌,
}
use ristux.Common.Results.{ok}
use ristux.Tcp.{TcpSocket, TcpStack}
use ristux.Tcp.Stack.{fill_buffer, recv_buffered, recv}

fill_buffer_lem :
    (buf rx : List ℕ)
    → let (read, buf', rx') = fill_buffer buf rx in
      (read ≡ min (length buf) (length rx))
      × (buf' ≡ take read rx ++ drop read buf)
      × (rx' ≡ drop read rx)
unfolding fill_buffer
fill_buffer_lem [] rx = (omega arith, refl, refl)
fill_buffer_lem (slot ∷ buf) [] = (omega arith, refl, refl)
fill_buffer_lem (slot ∷ buf) (byte ∷ rx) =
    let (n, b, r) = fill_buffer_lem buf rx in (omega (arith, n), ap (λ t. byte ∷ t) b, r)

recv_buffered_lem :
    (i : ℕ) (s : TcpSocket) (rx buf : List ℕ) (st : TcpStack)
    → rx ≢ []
    → let n = min (length buf) (length rx) in
      recv_buffered i s rx buf st ≡ (
        ok n,
        take n rx ++ drop n buf,
        record st { sockets = set st.sockets i (record s { rx_buffer = drop n rx }) },
      )
unfolding recv_buffered
recv_buffered_lem i s [] buf st h = absurd (h refl)
recv_buffered_lem i s (byte ∷ rx) buf st h = ground (arith, fill_buffer_lem buf (byte ∷ rx))

-- With bytes buffered and no error pending, `recv` reads as many as fit the caller's buffer, puts
-- them at its front and leaves the rest of it as it was, and keeps exactly the other bytes in the
-- socket, whatever the state; nothing else of the stack changes.
pub recv-buffered :
    (i : ℕ) (buf : List ℕ) (st : TcpStack) (s : TcpSocket)
    → get_elem? st.sockets i ≡ some s
    → s.error ≡ none
    → s.rx_buffer ≢ []
    → let n = min (length buf) (length s.rx_buffer) in
      recv i buf st ≡ (
        ok n,
        take n s.rx_buffer ++ drop n buf,
        record st { sockets = set st.sockets i (record s { rx_buffer = drop n s.rx_buffer }) },
      )
unfolding recv
recv-buffered i buf st s e none_pending some_bytes =
    ground (arith, recv_buffered_lem i s s.rx_buffer buf st)
