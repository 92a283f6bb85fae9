-- ===== src/Security.antt =====
-- kernel/src/security/mod.rs: credentials, file modes and the permission check.
mod Permission
mod Tests
use ristux.Common.{
  ℕ, ◌*◌, ◌^◌, Bool, true, false, ◌==◌, List, [], ◌∷◌, length, take, any, min, if◌then◌else◌,
  has_flag,
}

abbrev pub root_uid : ℕ
root_uid = 0

abbrev pub root_gid : ℕ
root_gid = 0

-- `groups` is an array of eight entries, of which the first `group_count` are in use.
pub record Credentials : Type 0 where
  pub uid : ℕ
  pub gid : ℕ
  pub euid : ℕ
  pub egid : ℕ
  pub suid : ℕ
  pub sgid : ℕ
  pub groups : List ℕ
  pub group_count : ℕ

-- The `FileMode` is its bits.
pub record FileMetadata : Type 0 where
  pub owner : ℕ
  pub group : ℕ
  pub mode : ℕ

pub data Access : Type 0 where
  read write execute : Access

abbrev pub root : Credentials
root = record {
  uid = root_uid;
  gid = root_gid;
  euid = root_uid;
  egid = root_gid;
  suid = root_uid;
  sgid = root_gid;
  groups = root_gid ∷ 0 ∷ 0 ∷ 0 ∷ 0 ∷ 0 ∷ 0 ∷ 0 ∷ [];
  group_count = 1;
}

abbrev pub user : ℕ → ℕ → Credentials
user uid gid = record {
  uid = uid;
  gid = gid;
  euid = uid;
  egid = gid;
  suid = uid;
  sgid = gid;
  groups = gid ∷ 0 ∷ 0 ∷ 0 ∷ 0 ∷ 0 ∷ 0 ∷ 0 ∷ [];
  group_count = 1;
}

unfoldable pub is_superuser : Credentials → Bool
is_superuser c = c.euid == root_uid

unfoldable pub in_group : Credentials → ℕ → Bool
in_group c group =
    if c.egid == group
    then true
    else any (λ candidate. candidate == group) (take (min c.group_count (length c.groups)) c.groups)

abbrev pub access_bit : Access → ℕ
access_bit read = 4
access_bit write = 2
access_bit execute = 1

-- `self.0 & (bit << shift) != 0`.
unfoldable pub bit : ℕ → Access → ℕ → Bool
bit mode access shift = has_flag mode (access_bit access * 2 ^ shift)

unfoldable pub can_access : FileMetadata → Credentials → Access → Bool
unfolding is_superuser
can_access m c access =
    if is_superuser c
    then true
    else if c.euid == m.owner
    then bit m.mode access 6
    else if in_group c m.group
    then bit m.mode access 3
    else bit m.mode access 0
