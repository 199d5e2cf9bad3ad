-- ===== src/Group/Online.antt =====
-- src/group/{member_mgr_base,online_msg_member_mgr}.{h,cpp}: which of the users that are connected to
-- this server are in which group, and the group channels that are subscribed for them. The answers of
-- the database are arguments (`none` is an error code). A handler runs to its end before the next.
-- `undefine` and `subscriber` are the numbers of `ROLE_UNDEFINE` and `ROLE_SUBSCRIBER`.
use bcm_server.Base.{
  Bool, List, Map, Option, Str, [], add, add_all, elem, if◌then◌else◌, insert, is_empty, is_some,
  lookup, ltb, none, not, or_else, remove, some, ℕ, ◌&&◌, ◌++◌, ◌∷◌, str_key, nat_key,
}
use bcm_server.Group.Sets.{all_leave, join, leave_all}
use bcm_server.Dispatch.Address.{DispatchAddress, address_key}

-- `wired` says that `m_groupSub` is set; `channels` are the groups that it has been told to subscribe.
pub record Online : Type 0 where
  pub online_users : Map Str (List DispatchAddress)
  pub groups : Map ℕ (List DispatchAddress)
  pub wired : Bool
  pub channels : List ℕ

-- `dao::UserGroupDetail`, as far as it is read here.
pub record GroupDetail : Type 0 where
  pub gid : ℕ
  pub role : ℕ

unfoldable pub exists_group : Online → ℕ → Bool
exists_group o gid = is_some (lookup gid o.groups)

unfoldable pub online_of : Online → Str → List DispatchAddress
online_of o uid = or_else (lookup uid o.online_users) []

-- `subscribeGids` and `unsubcribeGids`, called only for a list that is not empty.
unfoldable pub subscribe : List ℕ → Online → Online
subscribe gids o =
    if not (is_empty gids) && o.wired then record o { channels = add_all gids o.channels } else o

unfoldable pub remove_all : List ℕ → List ℕ → List ℕ
remove_all [] out = out
remove_all (g ∷ gs) out = remove_all gs (remove g out)

unfoldable pub unsubscribe : List ℕ → Online → Online
unfolding remove_all
unsubscribe gids o =
    if not (is_empty gids) && o.wired then record o { channels = remove_all gids o.channels } else o

-- The groups of `gids` that are not there any more.
unfoldable pub vanished : Map ℕ (List DispatchAddress) → List ℕ → List ℕ
vanished groups [] = []
vanished groups (g ∷ gs) =
    let rest = vanished groups gs in if is_some (lookup g groups) then rest else g ∷ rest

module _ (undefine subscriber : ℕ) where
  abbrev pub plays : ℕ → Bool
  plays role = ltb undefine role && ltb role subscriber

  -- The loop over the groups that the user has joined.
  unfoldable pub enlist :
      DispatchAddress
      → List GroupDetail
      → Map ℕ (List DispatchAddress)
      → List ℕ
      → Map ℕ (List DispatchAddress) × List ℕ
  enlist user [] groups chans = (groups, chans)
  enlist user (d ∷ ds) groups chans =
      enlist user ds (if plays d.role then join user d.gid groups else groups)
        (if is_some (lookup d.gid groups) then chans else chans ++ d.gid ∷ [])

  unfoldable pub user_online : Online → DispatchAddress → Option (List GroupDetail) → Online
  user_online o user details =
      let users = online_of o user.uid in
      let seen = record o { online_users = insert user.uid (add user users) o.online_users } in
      if elem user users then o else elim details [
        | none ↦ seen
        | some ds ↦
            let (groups, chans) = enlist user ds seen.groups [] in
            subscribe chans (record seen { groups = groups })
      ]

  unfoldable pub user_offline : Online → DispatchAddress → Option (List ℕ) → Online
  user_offline o user gids =
      let users = online_of o user.uid in
      let left =
        if elem user users
        then record o { online_users = insert user.uid (remove user users) o.online_users }
        else o in
      elim gids [
        | none ↦ left
        | some gs ↦
            let groups = leave_all user gs left.groups in
            unsubscribe (vanished groups gs) (record left { groups = groups })
      ]

  unfoldable pub join_all :
      List DispatchAddress → ℕ → Map ℕ (List DispatchAddress) → Map ℕ (List DispatchAddress)
  join_all [] gid groups = groups
  join_all (a ∷ as') gid groups = join_all as' gid (join a gid groups)

  unfoldable pub enter_group : Online → Str → ℕ → Option GroupDetail → Online
  unfolding join_all
  enter_group o uid gid none = o
  enter_group o uid gid (some d) =
      let users = online_of o uid in
      let chans = if exists_group o gid then [] else gid ∷ [] in
      if is_empty users
      then o
      else (if plays d.role
          then subscribe chans (record o { groups = join_all users gid o.groups })
          else o)

  unfoldable pub leave_group : Online → Str → ℕ → Online
  leave_group o uid gid =
      let users = online_of o uid in
      let left = record o { groups = all_leave users gid o.groups } in
      if is_empty users
      then o
      else (if exists_group left gid then left else unsubscribe (gid ∷ []) left)
