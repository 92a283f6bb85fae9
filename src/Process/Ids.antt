-- ===== src/Process/Ids.antt =====
-- The calls of kernel/src/process/mod.rs that set user and group numbers, on the credentials of the
-- current process. None is the error, which changes nothing.
pub mod Confined
use ristux.Common.{
  ℕ, zero, suc, ◌≡◌, ◌≢◌, ◌∙◌, ◌⊎◌, inl, inr, refl, Bool, true, false, ◌&&◌, ◌||◌, not, ◌==◌, ltb,
  if◌then◌else◌, Option, none, some, List, [], ◌∷◌, length, set, Bool-cases, arith,
}
use ristux.Security.{Credentials, is_superuser}

unfoldable pub set_current_uid : ℕ → Credentials → Option Credentials
set_current_uid uid c =
    if is_superuser c
    then some (record c { uid = uid; euid = uid; suid = uid })
    else if uid == c.uid || uid == c.suid
    then some (record c { euid = uid })
    else none

unfoldable pub set_current_gid : ℕ → Credentials → Option Credentials
set_current_gid gid c =
    if is_superuser c
    then some (record c {
      gid = gid;
      egid = gid;
      sgid = gid;
      groups = set c.groups 0 gid;
      group_count = 1;
    })
    else if gid == c.gid || gid == c.sgid
    then some (record c { egid = gid })
    else none

-- A number that is given must be allowed.
abbrev pub allowed_if : (ℕ → Bool) → Option ℕ → Bool
allowed_if allowed none = true
allowed_if allowed (some n) = allowed n

abbrev pub given_or : Option ℕ → ℕ → ℕ
given_or none old = old
given_or (some n) old = n

abbrev pub allowed_uid : Credentials → ℕ → Bool
allowed_uid old uid = is_superuser old || (uid == old.uid || (uid == old.euid || uid == old.suid))

abbrev pub allowed_gid : Credentials → ℕ → Bool
allowed_gid old gid = is_superuser old || (gid == old.gid || (gid == old.egid || gid == old.sgid))

unfoldable pub set_current_resuid :
    Option ℕ → Option ℕ → Option ℕ → Credentials → Option Credentials
set_current_resuid ruid euid suid c =
    if not (allowed_if (allowed_uid c) ruid)
    then none
    else if not (allowed_if (allowed_uid c) euid)
    then none
    else if not (allowed_if (allowed_uid c) suid)
    then none
    else some (record c {
      uid = given_or ruid c.uid;
      euid = given_or euid c.euid;
      suid = given_or suid c.suid;
    })

unfoldable pub set_current_resgid :
    Option ℕ → Option ℕ → Option ℕ → Credentials → Option Credentials
set_current_resgid rgid egid sgid c =
    if not (allowed_if (allowed_gid c) rgid)
    then none
    else if not (allowed_if (allowed_gid c) egid)
    then none
    else if not (allowed_if (allowed_gid c) sgid)
    then none
    else some (record c {
      gid = given_or rgid c.gid;
      egid = given_or egid c.egid;
      sgid = given_or sgid c.sgid;
    })

-- The first eight entries, zeros after the given ones.
abbrev pub padded : ℕ → List ℕ → List ℕ
padded zero groups = []
padded (suc n) [] = 0 ∷ padded n []
padded (suc n) (g ∷ groups) = g ∷ padded n groups

unfoldable pub set_current_groups : List ℕ → Credentials → Option Credentials
set_current_groups groups c =
    if not (is_superuser c) || ltb (length c.groups) (length groups)
    then none
    else some (record c { groups = padded 8 groups; group_count = length groups })

pub data IdCall : Type 0 where
  sets_uid sets_gid : ℕ → IdCall
  sets_resuid sets_resgid : Option ℕ → Option ℕ → Option ℕ → IdCall
  sets_groups : List ℕ → IdCall

abbrev pub or_same : Credentials → Option Credentials → Credentials
or_same c none = c
or_same c (some d) = d

abbrev pub call : IdCall → Credentials → Credentials
call (sets_uid uid) c = or_same c (set_current_uid uid c)
call (sets_gid gid) c = or_same c (set_current_gid gid c)
call (sets_resuid r e s) c = or_same c (set_current_resuid r e s c)
call (sets_resgid r e s) c = or_same c (set_current_resgid r e s c)
call (sets_groups groups) c = or_same c (set_current_groups groups c)

abbrev pub calls : List IdCall → Credentials → Credentials
calls [] c = c
calls (first ∷ rest) c = calls rest (call first c)
