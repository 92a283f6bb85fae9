-- ===== src/Vfs/Stream.antt =====
-- A pipe of kernel/src/fs/vfs.rs is a first-in first-out stream of bytes.
use ristux.Common.{
  ℕ, zero, suc, ◌≤◌, ◌==◌, ◌≡◌, ◌∙◌, refl, sym, ap, Bool, true, ◌&&◌, ltb, Bool-cases, inl, inr,
  List, [], ◌∷◌, ◌++◌, length, take, length-append, ==_iff, arith,
}
use mathlib.Core.List.{append-nil, append_assoc}
use ristux.Common.Results.{Result, ok, err}
use ristux.Vfs.{VfsError, PipeState}
use ristux.Vfs.Pipe.{is_empty, pop_bytes, push_bytes, read, write}

pub data Call : Type 0 where
  reads : ℕ → Call
  writes : List ℕ → Call

abbrev pub bytes_of : Result (List ℕ) VfsError → List ℕ
bytes_of (ok bytes) = bytes
bytes_of (err e) = []

-- The part of the input that a write accepted.
abbrev pub accepted : Result ℕ VfsError → List ℕ → List ℕ
accepted (ok n) input = take n input
accepted (err e) input = []

-- The bytes written and the bytes read by these calls, and the pipe after them.
abbrev pub run : List Call → PipeState → List ℕ × List ℕ × PipeState
run [] p = ([], [], p)
run (reads len ∷ calls) p =
    let (result, q) = read len p in
    let (written, got, r) = run calls q in (written, bytes_of result ++ got, r)
run (writes input ∷ calls) p =
    let (result, q) = write input p in
    let (written, got, r) = run calls q in (accepted result input ++ written, got, r)

pop-append : (n : ℕ) (queue : List ℕ) → (pop_bytes n queue).0 ++ (pop_bytes n queue).1 ≡ queue
unfolding pop_bytes
pop-append zero queue = refl
pop-append (suc n) [] = refl
pop-append (suc n) (x ∷ queue) = ap (λ t. x ∷ t) (pop-append n queue)

push-append :
    (capacity : ℕ) (input buffer : List ℕ)
    → (push_bytes capacity input buffer).1
      ≡ buffer ++ take (push_bytes capacity input buffer).0 input
unfolding push_bytes
push-append capacity [] buffer = sym (append-nil buffer)
push-append capacity (x ∷ input) buffer = elim (Bool-cases (length buffer == capacity)) [
  | inl e ↦ rw e (sym (append-nil buffer))
  | inr e ↦
      let (n, rest) = push_bytes capacity input (buffer ++ (x ∷ [])) in
      rw e (
        push-append capacity input (buffer ++ (x ∷ []))
        ∙ append_assoc buffer (x ∷ []) (take n input))
]

push-bounded :
    (capacity : ℕ) (input buffer : List ℕ)
    → length buffer ≤ capacity
    → length (push_bytes capacity input buffer).1 ≤ capacity
unfolding push_bytes
push-bounded capacity [] buffer h = h
push-bounded capacity (x ∷ input) buffer h = elim (Bool-cases (length buffer == capacity)) [
  | inl e ↦ rw e h
  | inr e ↦ rw e (
      push-bounded capacity input (buffer ++ (x ∷ []))
        (ground (arith, h, e, length-append buffer (x ∷ []))))
]

pop-length : (n : ℕ) (queue : List ℕ) → length (pop_bytes n queue).1 ≤ length queue
unfolding pop_bytes
pop-length zero queue = omega arith
pop-length (suc n) [] = omega arith
pop-length (suc n) (x ∷ queue) = omega (arith, pop-length n queue)

empty-nil : (xs : List ℕ) → is_empty xs ≡ true → xs ≡ []
empty-nil [] h = refl
empty-nil (x ∷ xs) h = cc

both_left : (a b : Bool) → (a && b) ≡ true → a ≡ true
both_left a b h = ground (arith, h)

read-append :
    (len : ℕ) (p : PipeState) → bytes_of (read len p).0 ++ (read len p).1.buffer ≡ p.buffer
unfolding read
read-append len p =
    let (bytes, rest) = pop_bytes len p.buffer in
    elim (Bool-cases (is_empty bytes && ltb 0 p.writers)) [
      | inr e ↦ rw e (pop-append len p.buffer)
      | inl e ↦ rw e (
          ap (λ t. t ++ rest)
            (sym (empty-nil bytes (both_left (is_empty bytes) (ltb 0 p.writers) e)))
          ∙ pop-append len p.buffer)
    ]

write-append :
    (input : List ℕ) (p : PipeState)
    → (write input p).1.buffer ≡ p.buffer ++ accepted (write input p).0 input
unfolding write
write-append input p =
    let (n, rest) = push_bytes p.capacity input p.buffer in
    elim (Bool-cases (is_empty input)) [
      | inl e ↦ rw e (sym (append-nil p.buffer))
      | inr e ↦ elim (Bool-cases (p.readers == 0)) [
        | inl f ↦ rw (e, f) (sym (append-nil p.buffer))
        | inr f ↦ elim (Bool-cases (n == 0)) [
          | inr g ↦ rw (e, f, g) (push-append p.capacity input p.buffer)
          | inl g ↦
              rw (e, f, g)
                (push-append p.capacity input p.buffer
                  ∙ ap (λ m. p.buffer ++ take m input) ((==_iff n 0).0 g))
        ]
      ]
    ]

read-bounded :
    (len : ℕ) (p : PipeState)
    → length p.buffer ≤ p.capacity
    → length (read len p).1.buffer ≤ (read len p).1.capacity
unfolding read
read-bounded len p h =
    let l = pop-length len p.buffer in
    elim (Bool-cases (is_empty (pop_bytes len p.buffer).0 && ltb 0 p.writers)) [
      | inl e ↦ rw e (omega (arith, h, l))
      | inr e ↦ rw e (omega (arith, h, l))
    ]

write-bounded :
    (input : List ℕ) (p : PipeState)
    → length p.buffer ≤ p.capacity
    → length (write input p).1.buffer ≤ (write input p).1.capacity
unfolding write
write-bounded input p h =
    let l = push-bounded p.capacity input p.buffer h in
    elim (Bool-cases (is_empty input)) [
      | inl e ↦ rw e h
      | inr e ↦ elim (Bool-cases (p.readers == 0)) [
        | inl f ↦ rw (e, f) h
        | inr f ↦ elim (Bool-cases ((push_bytes p.capacity input p.buffer).0 == 0)) [
          | inr g ↦ rw (e, f, g) l
          | inl g ↦ rw (e, f, g) l
        ]
      ]
    ]

-- After any reads and writes of a pipe whose buffer is within its capacity, in any order: the bytes
-- read, followed by the bytes in the buffer, are the bytes that were in the buffer followed by those
-- that the writes accepted, and the buffer is within the capacity.
pub run-fifo :
    (calls : List Call) (p : PipeState)
    → length p.buffer ≤ p.capacity
    → ((run calls p).1 ++ (run calls p).2.buffer ≡ p.buffer ++ (run calls p).0)
      × (length (run calls p).2.buffer ≤ (run calls p).2.capacity)
run-fifo [] p h = (sym (append-nil p.buffer), h)
run-fifo (reads len ∷ calls) p h =
    let (result, q) = read len p in
    let (written, got, r) = run calls q in
    let (e, b) = run-fifo calls q (read-bounded len p h) in
    (
      append_assoc (bytes_of result) got r.buffer
          ∙ ap (λ t. bytes_of result ++ t) e
          ∙ sym (append_assoc (bytes_of result) q.buffer written)
          ∙ ap (λ t. t ++ written) (read-append len p),
      b,
    )
run-fifo (writes input ∷ calls) p h =
    let (result, q) = write input p in
    let (written, got, r) = run calls q in
    let (e, b) = run-fifo calls q (write-bounded input p h) in
    (
      e
          ∙ ap (λ t. t ++ written) (write-append input p)
          ∙ append_assoc p.buffer (accepted result input) written,
      b,
    )
