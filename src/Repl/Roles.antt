-- ===== src/Repl/Roles.antt =====
-- src/repl/replicator.cpp: the names of the roles and of the replication modes.
use key_value_store.Common.{
  Option, none, some, Bytes, codes, bytes_eq, ◌||◌, if◌then◌else◌, ◌≡◌, refl,
}

pub data Role : Type 0 where
  standalone leader follower : Role

pub data ReplMode : Type 0 where
  async synchronous : ReplMode

unfoldable pub parse_role : Bytes → Option Role
parse_role text =
    if bytes_eq text (codes "standalone") || bytes_eq text (codes "none")
    then some standalone
    else if bytes_eq text (codes "leader")
        || (bytes_eq text (codes "primary") || bytes_eq text (codes "master"))
    then some leader
    else if bytes_eq text (codes "follower")
        || (bytes_eq text (codes "replica") || bytes_eq text (codes "slave"))
    then some follower
    else none

unfoldable pub role_name : Role → Bytes
role_name standalone = codes "standalone"
role_name leader = codes "leader"
role_name follower = codes "follower"

unfoldable pub parse_repl_mode : Bytes → Option ReplMode
parse_repl_mode text =
    if bytes_eq text (codes "async")
    then some async
    else if bytes_eq text (codes "sync")
    then some synchronous
    else none

unfoldable pub repl_mode_name : ReplMode → Bytes
repl_mode_name async = codes "async"
repl_mode_name synchronous = codes "sync"

-- A role and a mode are read back from their names.
pub parse_role-role_name : (r : Role) → parse_role (role_name r) ≡ some r
unfolding parse_role role_name bytes_eq
parse_role-role_name standalone = refl
parse_role-role_name leader = refl
parse_role-role_name follower = refl
