-- ===== src/Process/Ids/Confined.antt =====
-- Without root's number among its own a process never gets another number.
use ristux.Common.{
  ℕ, ◌≡◌, ◌≢◌, ◌∙◌, ◌⊎◌, inl, inr, refl, true, false, ◌||◌, ◌==◌, Option, none, some, List, [], ◌∷◌,
  Bool-cases, arith,
}
use ristux.Security.{Credentials, is_superuser}
use ristux.Process.Ids.{
  set_current_uid, set_current_gid, set_current_resuid, set_current_resgid, set_current_groups,
  allowed_if, given_or, allowed_uid, allowed_gid, IdCall, sets_uid, sets_gid, sets_resuid,
  sets_resgid, sets_groups, call, calls,
}

-- One of the three.
abbrev Among : ℕ → ℕ → ℕ → ℕ → Type 0
Among n a b c = (n ≡ a) ⊎ ((n ≡ b) ⊎ (n ≡ c))

-- Each number is one that the process has or had, and the groups are the same.
pub record IsConfined (old now : Credentials) : Type 0 where
  pub uid_known : Among now.uid old.uid old.euid old.suid
  pub euid_known : Among now.euid old.uid old.euid old.suid
  pub suid_known : Among now.suid old.uid old.euid old.suid
  pub gid_known : Among now.gid old.gid old.egid old.sgid
  pub egid_known : Among now.egid old.gid old.egid old.sgid
  pub sgid_known : Among now.sgid old.gid old.egid old.sgid
  pub same_groups : now.groups ≡ old.groups
  pub same_count : now.group_count ≡ old.group_count

Confined-refl : (c : Credentials) → IsConfined c c
Confined-refl c = record {
  uid_known = inl refl;
  euid_known = inr (inl refl);
  suid_known = inr (inr refl);
  gid_known = inl refl;
  egid_known = inr (inl refl);
  sgid_known = inr (inr refl);
  same_groups = refl;
  same_count = refl;
}

among :
    {n x y z a b c : ℕ}
    → Among n x y z
    → Among x a b c
    → Among y a b c
    → Among z a b c
    → Among n a b c
among p q r s = ground (arith, p, q, r, s)

Confined-trans : {c d e : Credentials} → IsConfined c d → IsConfined d e → IsConfined c e
Confined-trans x y = record {
  uid_known = among y.uid_known x.uid_known x.euid_known x.suid_known;
  euid_known = among y.euid_known x.uid_known x.euid_known x.suid_known;
  suid_known = among y.suid_known x.uid_known x.euid_known x.suid_known;
  gid_known = among y.gid_known x.gid_known x.egid_known x.sgid_known;
  egid_known = among y.egid_known x.gid_known x.egid_known x.sgid_known;
  sgid_known = among y.sgid_known x.gid_known x.egid_known x.sgid_known;
  same_groups = y.same_groups ∙ x.same_groups;
  same_count = y.same_count ∙ x.same_count;
}

nonzero : {n a b c : ℕ} → Among n a b c → a ≢ 0 → b ≢ 0 → c ≢ 0 → n ≢ 0
nonzero h x y z = λ e. absurd (ground (arith, h, x, y, z, e))

given_uid_known :
    (o : Option ℕ) (n : ℕ) (c : Credentials)
    → is_superuser c ≡ false
    → allowed_if (allowed_uid c) o ≡ true
    → Among n c.uid c.euid c.suid
    → Among (given_or o n) c.uid c.euid c.suid
given_uid_known none n c f h k = k
given_uid_known (some m) n c f h k = ground (arith, h, f)

given_gid_known :
    (o : Option ℕ) (n : ℕ) (c : Credentials)
    → is_superuser c ≡ false
    → allowed_if (allowed_gid c) o ≡ true
    → Among n c.gid c.egid c.sgid
    → Among (given_or o n) c.gid c.egid c.sgid
given_gid_known none n c f h k = k
given_gid_known (some m) n c f h k = ground (arith, h, f)

either : (n a b : ℕ) → (n == a || n == b) ≡ true → (n ≡ a) ⊎ (n ≡ b)
either n a b h = ground (arith, h)

uid-Confined :
    (uid : ℕ) (c : Credentials) → is_superuser c ≡ false → IsConfined c (call (sets_uid uid) c)
unfolding set_current_uid
uid-Confined uid c f = elim (Bool-cases (uid == c.uid || uid == c.suid)) [
  | inl e ↦
      rw (f, e)
        (record {
          uid_known = inl refl;
          euid_known = elim (either uid c.uid c.suid e) [ inl g ↦ inl g | inr g ↦ inr (inr g) ];
          suid_known = inr (inr refl);
          gid_known = inl refl;
          egid_known = inr (inl refl);
          sgid_known = inr (inr refl);
          same_groups = refl;
          same_count = refl;
        })
  | inr e ↦ rw (f, e) (Confined-refl c)
]

gid-Confined :
    (gid : ℕ) (c : Credentials) → is_superuser c ≡ false → IsConfined c (call (sets_gid gid) c)
unfolding set_current_gid
gid-Confined gid c f = elim (Bool-cases (gid == c.gid || gid == c.sgid)) [
  | inl e ↦
      rw (f, e)
        (record {
          uid_known = inl refl;
          euid_known = inr (inl refl);
          suid_known = inr (inr refl);
          gid_known = inl refl;
          egid_known = elim (either gid c.gid c.sgid e) [ inl g ↦ inl g | inr g ↦ inr (inr g) ];
          sgid_known = inr (inr refl);
          same_groups = refl;
          same_count = refl;
        })
  | inr e ↦ rw (f, e) (Confined-refl c)
]

resuid-Confined :
    (r e s : Option ℕ) (c : Credentials)
    → is_superuser c ≡ false
    → IsConfined c (call (sets_resuid r e s) c)
unfolding set_current_resuid
resuid-Confined r e s c f = elim (Bool-cases (allowed_if (allowed_uid c) r)) [
  | inr g ↦ rw g (Confined-refl c)
  | inl g ↦ elim (Bool-cases (allowed_if (allowed_uid c) e)) [
    | inr h ↦ rw (g, h) (Confined-refl c)
    | inl h ↦ elim (Bool-cases (allowed_if (allowed_uid c) s)) [
      | inr i ↦ rw (g, h, i) (Confined-refl c)
      | inl i ↦
          rw (g, h, i)
            (record {
              uid_known = given_uid_known r c.uid c f g (inl refl);
              euid_known = given_uid_known e c.euid c f h (inr (inl refl));
              suid_known = given_uid_known s c.suid c f i (inr (inr refl));
              gid_known = inl refl;
              egid_known = inr (inl refl);
              sgid_known = inr (inr refl);
              same_groups = refl;
              same_count = refl;
            })
    ]
  ]
]

resgid-Confined :
    (r e s : Option ℕ) (c : Credentials)
    → is_superuser c ≡ false
    → IsConfined c (call (sets_resgid r e s) c)
unfolding set_current_resgid
resgid-Confined r e s c f = elim (Bool-cases (allowed_if (allowed_gid c) r)) [
  | inr g ↦ rw g (Confined-refl c)
  | inl g ↦ elim (Bool-cases (allowed_if (allowed_gid c) e)) [
    | inr h ↦ rw (g, h) (Confined-refl c)
    | inl h ↦ elim (Bool-cases (allowed_if (allowed_gid c) s)) [
      | inr i ↦ rw (g, h, i) (Confined-refl c)
      | inl i ↦
          rw (g, h, i)
            (record {
              uid_known = inl refl;
              euid_known = inr (inl refl);
              suid_known = inr (inr refl);
              gid_known = given_gid_known r c.gid c f g (inl refl);
              egid_known = given_gid_known e c.egid c f h (inr (inl refl));
              sgid_known = given_gid_known s c.sgid c f i (inr (inr refl));
              same_groups = refl;
              same_count = refl;
            })
    ]
  ]
]

call-Confined : (x : IdCall) (c : Credentials) → is_superuser c ≡ false → IsConfined c (call x c)
unfolding set_current_groups
call-Confined (sets_uid uid) c f = uid-Confined uid c f
call-Confined (sets_gid gid) c f = gid-Confined gid c f
call-Confined (sets_resuid r e s) c f = resuid-Confined r e s c f
call-Confined (sets_resgid r e s) c f = resgid-Confined r e s c f
call-Confined (sets_groups groups) c f = rw f (Confined-refl c)

-- If none of a process's real, effective and saved user numbers is root's: after any calls that set
-- user numbers, group numbers or supplementary groups, in any order and whatever their answers, each
-- of its user and group numbers is one of the three it had, its supplementary groups are the same,
-- and it is not the superuser.
pub calls-IsConfined :
    (xs : List IdCall) (c : Credentials)
    → c.uid ≢ 0
    → c.euid ≢ 0
    → c.suid ≢ 0
    → IsConfined c (calls xs c) × (is_superuser (calls xs c) ≡ false)
unfolding is_superuser
calls-IsConfined [] c u e s = (Confined-refl c, ground (arith, e))
calls-IsConfined (x ∷ xs) c u e s =
    let i = call-Confined x c (ground (arith, e)) in
    let (j, f) =
      calls-IsConfined xs (call x c) (nonzero i.uid_known u e s) (nonzero i.euid_known u e s)
        (nonzero i.suid_known u e s) in
    (Confined-trans i j, f)
