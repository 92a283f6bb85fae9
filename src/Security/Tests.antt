-- ===== src/Security/Tests.antt =====
-- The self-test of kernel/src/security/mod.rs, and the permission theorem at its inputs.
use ristux.Common.{◌≡◌, ◌↔◌, refl, true, false}
use ristux.Security.{FileMetadata, read, write, execute, root, user, can_access, in_group, bit}
use ristux.Security.Permission.{Permitted, can_access_iff}

abbrev private_file : FileMetadata
private_file = record { owner = 0; group = 0; mode = 0o600 }

abbrev executable : FileMetadata
executable = record { owner = 1000; group = 1000; mode = 0o755 }

self_test :
    (can_access private_file (user 1000 1000) read ≡ false)
    × (can_access private_file root write ≡ true)
    × (can_access executable (user 1000 1000) execute ≡ true)
unfolding can_access bit in_group
self_test = (refl, refl, refl)

can_access_iff_example :
    (can_access executable (user 7 1000) write ≡ true) ↔ Permitted executable (user 7 1000) write
can_access_iff_example = can_access_iff executable (user 7 1000) write
