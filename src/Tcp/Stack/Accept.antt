-- ===== src/Tcp/Stack/Accept.antt =====
-- `accept`: which peer a listener gets.
use ristux.Common.{
  ℕ, ◌≡◌, ◌⊎◌, inl, inr, refl, ap, true, none, some, List, [], ◌∷◌, ◌++◌, length, get_elem?, arith,
}
use ristux.Common.Results.{ok}
use ristux.Tcp.{TcpSocket, TcpStack, is_listen}
use ristux.Tcp.Stack.{pop_last, accept}

pub pop_last-snoc {ℓ} :
    {A : Type ℓ} (ys : List A) (y : A) → pop_last (ys ++ (y ∷ [])) ≡ some (y, ys)
unfolding pop_last
pop_last-snoc [] y = refl
pop_last-snoc (z ∷ zs) y = rw (pop_last-snoc zs y)

-- A list is empty, or its last element and the rest are what `pop_last` gives.
pub pop_last-cases {ℓ} :
    {A : Type ℓ} (xs : List A)
    → (pop_last xs ≡ none)
      ⊎ ((y : A) × (ys : List A) × (xs ≡ ys ++ (y ∷ [])) × (pop_last xs ≡ some (y, ys)))
unfolding pop_last
pop_last-cases [] = inl refl
pop_last-cases (x ∷ []) = inr (x, [], refl, refl)
pop_last-cases (x ∷ x' ∷ xs) = elim (pop_last-cases (x' ∷ xs)) [
  | inl e ↦ absurd (ground arith)
  | inr (y, ys, e, m) ↦ inr (y, x ∷ ys, ap (λ t. x ∷ t) e, rw (m, pop_last))
]

-- `accept` on any listening socket hands out the peer that was queued last, whatever local port that
-- peer was created for, and leaves the earlier ones queued: the queue is one stack for all listeners.
pub accept-last :
    (i : ℕ) (st : TcpStack) (listener peer : TcpSocket) (queue : List TcpSocket)
    → get_elem? st.sockets i ≡ some listener
    → is_listen listener.state ≡ true
    → st.accept_queue ≡ queue ++ (peer ∷ [])
    → accept i st ≡ (
      ok (length st.sockets),
      record st { sockets = st.sockets ++ (peer ∷ []); accept_queue = queue },
    )
unfolding accept
accept-last i st listener peer queue e l q = ground (arith, pop_last-snoc queue peer, ap pop_last q)
