-- ===== src/Group/Offline.antt =====
-- src/program/offline-server/{offline_member_mgr,group_member_mgr}.{h,cpp}: the offline server's copy
-- of who is in which group, who only subscribes, and who has muted the group. The answers of the
-- database are arguments (`none` is an error code), and so is the clock in seconds. The handlers run
-- one at a time. `subscriber` is the number of `GroupUser::ROLE_SUBSCRIBER`, and `flag` the test of a
-- status for `GroupUser::STATUS_MUTED`; both come from a protocol file.
use bcm_server.Base.{
  Bool, List, Map, Option, Str, [], add, add_all, elem, eqb, erase, false, if◌then◌else◌, insert,
  is_some, lookup, ltb, none, some, true, ℕ, ◌%◌, ◌-◌, ◌||◌, ◌∷◌, str_key, nat_key,
}
use bcm_server.Group.Sets.{has, join, leave, leave_all, members_of}

pub record Members : Type 0 where
  pub members : Map ℕ (List Str)
  pub subscribers : Map ℕ (List Str)
  pub muted : Map ℕ (List Str)
  pub reload_times : Map ℕ ℕ

-- `class GroupUser`, as far as it is read here.
pub record GroupUser : Type 0 where
  pub uid : Str
  pub role : ℕ
  pub status : ℕ

unfoldable pub is_group_exist : Members → ℕ → Bool
is_group_exist m gid = is_some (lookup gid m.members) || is_some (lookup gid m.subscribers)

unfoldable pub is_member_exists : Members → Str → ℕ → Bool
unfolding has
is_member_exists m uid gid = has uid gid m.members || has uid gid m.subscribers

abbrev pub reload_interval : ℕ
reload_interval = 10

-- `getGroupMembers` and `getGroupSubscribers` into a set.
unfoldable pub get_group_members : Members → ℕ → List Str → List Str
get_group_members m gid out = add_all (members_of gid m.members) out

unfoldable pub get_group_subscribers : Members → ℕ → List Str → List Str
get_group_subscribers m gid out = add_all (members_of gid m.subscribers) out

unfoldable pub remove_group_member : Members → Str → ℕ → Members
remove_group_member m uid gid = record m { members = leave uid gid m.members }

unfoldable pub remove_group_subscriber : Members → Str → ℕ → Members
remove_group_subscriber m uid gid = record m { subscribers = leave uid gid m.subscribers }

unfoldable pub remove_member_for_groups : Members → Str → List ℕ → Members
remove_member_for_groups m uid gids = record m { members = leave_all uid gids m.members }

unfoldable pub remove_subscriber_for_groups : Members → Str → List ℕ → Members
remove_subscriber_for_groups m uid gids = record m {
  subscribers = leave_all uid gids m.subscribers;
}

unfoldable pub remove_muted_member : Members → Str → ℕ → Members
remove_muted_member m uid gid = record m { muted = leave uid gid m.muted }

-- The members of `from` who are not in `silent`, put into a set.
unfoldable pub unmuted : List Str → List Str → List Str → List Str
unmuted silent [] out = out
unmuted silent (u ∷ from) out = unmuted silent from (if elem u silent then out else add u out)

unfoldable pub get_unmute_group_members : Members → ℕ → List Str → List Str
get_unmute_group_members m gid out = unmuted (members_of gid m.muted) (members_of gid m.members) out

unfoldable pub get_unmute_group_subscribers : Members → ℕ → List Str → List Str
get_unmute_group_subscribers m gid out =
    unmuted (members_of gid m.muted) (members_of gid m.subscribers) out

-- `status & GroupStatus::MUTED`, the lowest bit.
abbrev pub is_muted : ℕ → Bool
is_muted status = eqb (status % 2) 1

abbrev pub recent : Option ℕ → ℕ → Bool
recent none now = false
recent (some t) now = ltb (now - t) reload_interval

module _ (subscriber : ℕ) (flag : ℕ → Bool) where
  -- The loop of the reload over the rows of the database.
  unfoldable pub load_row : ℕ → Members → GroupUser → Members
  load_row gid m u =
      let m' = if flag u.status then record m { muted = join u.uid gid m.muted } else m in
      if eqb subscriber u.role
      then record m' { subscribers = join u.uid gid m'.subscribers }
      else record m' { members = join u.uid gid m'.members }

  unfoldable pub load_rows : ℕ → Members → List GroupUser → Members
  load_rows gid m [] = m
  load_rows gid m (u ∷ us) = load_rows gid (load_row gid m u) us

  -- `syncReloadGroupMembersFromDb`: the time is noted before the database answers.
  unfoldable pub sync_reload : Members → ℕ → ℕ → Option (List GroupUser) → Members × Bool
  sync_reload m gid now rows =
      let noted = record m { reload_times = insert gid now m.reload_times } in
      let empty = record noted {
        members = erase gid m.members;
        subscribers = erase gid m.subscribers;
        muted = erase gid m.muted;
      } in
      if recent (lookup gid m.reload_times) now
      then (m, true)
      else elim rows [ none ↦ (noted, false) | some us ↦ (load_rows gid empty us, true) ]

  unfoldable pub load_group_members : Members → ℕ → ℕ → Option (List GroupUser) → Members × Bool
  load_group_members m gid now rows =
      if is_group_exist m gid then (m, true) else sync_reload m gid now rows

  -- The branches on the role, under the lock.
  unfoldable pub place : Members → Str → ℕ → ℕ → Members
  place m uid gid role =
      if eqb role subscriber
      then record m { subscribers = join uid gid m.subscribers; members = leave uid gid m.members }
      else record m { members = join uid gid m.members; subscribers = leave uid gid m.subscribers }

  unfoldable pub user_enter_group : Members → Str → ℕ → Option GroupUser → Members
  user_enter_group m uid gid none = m
  user_enter_group m uid gid (some u) =
      let placed = place m uid gid u.role in
      if is_group_exist m gid
      then (if is_muted u.status
          then record placed { muted = join uid gid placed.muted }
          else placed)
      else m

  unfoldable pub user_leave_group : Members → Str → ℕ → ℕ → Option (List GroupUser) → Members
  user_leave_group m uid gid now rows =
      let reloaded = (sync_reload m gid now rows).0 in
      if is_group_exist m gid
      then (if is_member_exists m uid gid
          then record m {
            members = leave uid gid m.members;
            subscribers = leave uid gid m.subscribers;
            muted = leave uid gid m.muted;
          }
          else reloaded)
      else m

  unfoldable pub user_mute_group : Members → Str → ℕ → ℕ → Option (List GroupUser) → Members
  user_mute_group m uid gid now rows =
      let reloaded = (sync_reload m gid now rows).0 in
      if is_group_exist m gid
      then (if is_member_exists m uid gid
          then record m { muted = join uid gid m.muted }
          else reloaded)
      else m

  unfoldable pub user_unmute_group : Members → Str → ℕ → ℕ → Option (List GroupUser) → Members
  user_unmute_group m uid gid now rows =
      let reloaded = (sync_reload m gid now rows).0 in
      if is_group_exist m gid
      then (if is_member_exists m uid gid then remove_muted_member m uid gid else reloaded)
      else m
