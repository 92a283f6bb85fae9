-- ===== src/Vfs/Counts/Changes.antt =====
-- How the steps of the open-file table change the counts and the open files.
use mathlib.Core.Option.{some-injective}
use ristux.Common.{
  ℕ, zero, suc, ◌+◌, ◌≤◌, ◌==◌, ◌≡◌, refl, sym, ap, Bool-cases, Option-cases, inl, inr,
  if◌then◌else◌, Option, none, some, List, [], ◌∷◌, get_elem?, set, get_elem?-set_self,
  get_elem?-set_ne, ==_iff, arith,
}
use ristux.Vfs.{OpenHandle, PipeState, PtyState, Vfs}
use ristux.Vfs.Open.{place, handle_at, with_pipe, with_pty}
use ristux.Vfs.Counts.{
  Role, one, pipe_count, pty_count, count_of, count_at, pipe_ends, pty_ends, on_pipe, on_pty, held,
  IsCounted,
}

module _ {ℓ} {A : Type ℓ} where
  pub count_at-found :
      (count : A → ℕ) (xs : List A) (i : ℕ) (x : A)
      → get_elem? xs i ≡ some x
      → count_at count xs i ≡ count x
  count_at-found count xs i x e = rw e refl

  -- A change of one element changes one count.
  count_at-set :
      (count : A → ℕ) (xs : List A) (k i a b : ℕ) (x y : A)
      → get_elem? xs k ≡ some x
      → count y + a ≡ count x + b
      → count_at count (set xs k y) i + (if k == i then a else 0)
        ≡ count_at count xs i + (if k == i then b else 0)
  count_at-set count xs k i a b x y h e = elim (Bool-cases (k == i)) [
    | inl f ↦
        let m = (==_iff k i).0 f in
        let new = count_at-found count (set xs k y) k y (get_elem?-set_self xs k y x h) in
        let old = count_at-found count xs k x h in rw (f, sym m) (omega (arith, new, old, e))
    | inr f ↦ rw f (
        ap (λ o. count_of count o + 0)
          (get_elem?-set_ne xs k i y (λ m. absurd (ground (arith, f, m)))))
  ]

  -- Where something is counted, there is an element.
  counted_element :
      (count : A → ℕ) (xs : List A) (k : ℕ)
      → 1 ≤ count_at count xs k
      → (x : A) × (get_elem? xs k ≡ some x) × (1 ≤ count x)
  counted_element count xs k h = elim (Option-cases (get_elem? xs k)) [
    | inl e ↦ absurd (ground (arith, h, e))
    | inr (x, e) ↦ (x, e, omega (arith, count_at-found count xs k x e))
  ]

pub place-held :
    (f : OpenHandle → ℕ) (handle : OpenHandle) (slots : List (Option OpenHandle))
    → held f (place handle slots).1 ≡ f handle + held f slots
unfolding held place
place-held f handle [] = refl
place-held f handle (none ∷ slots) = refl
place-held f handle (some other ∷ slots) = omega (arith, place-held f handle slots)

pub free-held :
    (f : OpenHandle → ℕ) (slots : List (Option OpenHandle)) (fd : ℕ) (handle : OpenHandle)
    → handle_at slots fd ≡ some handle
    → f handle + held f (set slots fd none) ≡ held f slots
unfolding held
free-held f [] fd handle h = cc
free-held f (none ∷ slots) zero handle h = cc
free-held f (some other ∷ slots) zero handle h =
    ap (λ g. f g + held f slots) (some-injective _ _ (sym h))
free-held f (none ∷ slots) (suc fd) handle h = free-held f slots fd handle h
free-held f (some other ∷ slots) (suc fd) handle h = omega (arith, free-held f slots fd handle h)

pub with_pipe-found :
    (f : PipeState → PipeState) (k : ℕ) (v : Vfs) (p : PipeState)
    → get_elem? v.pipes k ≡ some p
    → with_pipe f k v ≡ some (record v { pipes = set v.pipes k (f p) })
unfolding with_pipe
with_pipe-found f k v p e = rw (with_pipe, e) refl

pub with_pty-found :
    (f : PtyState → PtyState) (k : ℕ) (v : Vfs) (p : PtyState)
    → get_elem? v.ptys k ≡ some p
    → with_pty f k v ≡ some (record v { ptys = set v.ptys k (f p) })
unfolding with_pty
with_pty-found f k v p e = rw (with_pty, e) refl

pub held-positive :
    (f : OpenHandle → ℕ) (slots : List (Option OpenHandle)) (fd : ℕ) (handle : OpenHandle)
    → handle_at slots fd ≡ some handle
    → f handle ≤ held f slots
held-positive f slots fd handle h = omega (arith, free-held f slots fd handle h)

pub found_pipe :
    (role : Role) (v : Vfs) (k fd : ℕ) (handle : OpenHandle)
    → IsCounted v
    → handle_at v.open_files fd ≡ some handle
    → 1 ≤ on_pipe role k handle
    → (p : PipeState) × (get_elem? v.pipes k ≡ some p) × (1 ≤ pipe_count role p)
unfolding pipe_ends
found_pipe role v k fd handle c h e = counted_element (pipe_count role) v.pipes k (
    omega (arith, c.pipes_count role k, held-positive (on_pipe role k) v.open_files fd handle h, e))

pub found_pty :
    (role : Role) (v : Vfs) (k fd : ℕ) (handle : OpenHandle)
    → IsCounted v
    → handle_at v.open_files fd ≡ some handle
    → 1 ≤ on_pty role k handle
    → (p : PtyState) × (get_elem? v.ptys k ≡ some p) × (1 ≤ pty_count role p)
unfolding pty_ends
found_pty role v k fd handle c h e =
    counted_element (pty_count role) v.ptys k (
      omega (arith, c.ptys_count role k, held-positive (on_pty role k) v.open_files fd handle h, e))

pub self : (k n : ℕ) → 1 ≤ n → 1 ≤ (if k == k then n else 0)
self k n h = ground arith

-- `w` has the ends of `v` and `handle`.
pub record More (handle : OpenHandle) (v w : Vfs) : Type 0 where
  pub pipe_more :
      (role : Role) (i : ℕ) → pipe_ends role i w ≡ pipe_ends role i v + on_pipe role i handle
  pub pty_more :
      (role : Role) (i : ℕ) → pty_ends role i w ≡ pty_ends role i v + on_pty role i handle

pub nothing_more : (n : ℕ) → n ≡ n + 0
nothing_more n = omega arith

-- One pipe has one end more in the one role.
abbrev pub OneMore {ℓ} : {A : Type ℓ} → (Role → A → ℕ) → Role → A → A → Type 0
OneMore count r x y = (role : Role) → count role y ≡ count role x + one r role

pub pipe-more :
    (r : Role) (k : ℕ) (v : Vfs) (p q : PipeState)
    → get_elem? v.pipes k ≡ some p
    → OneMore pipe_count r p q
    → (role : Role) (i : ℕ)
    → pipe_ends role i (record v { pipes = set v.pipes k q })
      ≡ pipe_ends role i v + (if k == i then one r role else 0)
unfolding pipe_ends
pipe-more r k v p q e h role i =
    let c =
      count_at-set (pipe_count role) v.pipes k i 0 (one r role) p q e (omega (arith, h role)) in
    ground (arith, c)

pub pipe-less :
    (r : Role) (k : ℕ) (v : Vfs) (p q : PipeState)
    → get_elem? v.pipes k ≡ some p
    → OneMore pipe_count r q p
    → (role : Role) (i : ℕ)
    → pipe_ends role i v
      ≡ pipe_ends role i (record v { pipes = set v.pipes k q }) + (if k == i then one r role else 0)
unfolding pipe_ends
pipe-less r k v p q e h role i =
    let c =
      count_at-set (pipe_count role) v.pipes k i (one r role) 0 p q e (omega (arith, h role)) in
    ground (arith, c)

pub pty-more :
    (r : Role) (k : ℕ) (v : Vfs) (p q : PtyState)
    → get_elem? v.ptys k ≡ some p
    → OneMore pty_count r p q
    → (role : Role) (i : ℕ)
    → pty_ends role i (record v { ptys = set v.ptys k q })
      ≡ pty_ends role i v + (if k == i then one r role else 0)
unfolding pty_ends
pty-more r k v p q e h role i =
    let c = count_at-set (pty_count role) v.ptys k i 0 (one r role) p q e (omega (arith, h role)) in
    ground (arith, c)

pub pty-less :
    (r : Role) (k : ℕ) (v : Vfs) (p q : PtyState)
    → get_elem? v.ptys k ≡ some p
    → OneMore pty_count r q p
    → (role : Role) (i : ℕ)
    → pty_ends role i v
      ≡ pty_ends role i (record v { ptys = set v.ptys k q }) + (if k == i then one r role else 0)
unfolding pty_ends
pty-less r k v p q e h role i =
    let c = count_at-set (pty_count role) v.ptys k i (one r role) 0 p q e (omega (arith, h role)) in
    ground (arith, c)
