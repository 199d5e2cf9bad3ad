-- ===== src/Group/OfflineQueries.antt =====
-- Queries of the offline server's groups, users who leave, and failed reloads.
use bcm_server.Base.{
  Bool, List, Option, Str, [], add, arith, elem, elem-add, eqb, false, if◌then◌else◌, lookup,
  lookup-insert, none, not, str_eq, str_eq_iff, true, ℕ, ◌&&◌, ◌+◌, ◌<◌, ◌||◌, ◌∷◌, ◌≡◌, str_key,
  nat_key,
}
use bcm_server.Group.Sets.{has, has-leave}
use bcm_server.Group.Offline.{
  GroupUser, Members, get_unmute_group_members, get_unmute_group_subscribers, is_group_exist,
  is_member_exists, load_group_members, recent, reload_interval, sync_reload, unmuted,
  user_leave_group,
}

elem-unmuted :
    (u : Str) (silent from out : List Str)
    → elem u (unmuted silent from out) ≡ (elem u out || (elem u from && not (elem u silent)))
unfolding unmuted elem
elem-unmuted u silent [] out = ground arith
elem-unmuted u silent (x ∷ from) out = ground (
  arith,
  elem-unmuted u silent from out,
  elem-unmuted u silent from (add x out),
  elem-add x u out,
  str_eq_iff x u,
)

-- The answers with the mute setting applied add exactly the members, or the subscribers, that have
-- not muted the group.
unmute_answers :
    (m : Members) (gid : ℕ) (u : Str) (out : List Str)
    → (elem u (get_unmute_group_members m gid out)
        ≡ (elem u out || (has u gid m.members && not (has u gid m.muted))))
      × (elem u (get_unmute_group_subscribers m gid out)
          ≡ (elem u out || (has u gid m.subscribers && not (has u gid m.muted))))
unfolding get_unmute_group_members get_unmute_group_subscribers has
unmute_answers m gid u out = (elem-unmuted u _ _ out, elem-unmuted u _ _ out)

-- When a member or subscriber of a group in memory leaves it, the user is gone from the three tables of
-- that group, and nothing else changes in them.
pub user_leave_group_lem :
    (subscriber : ℕ) (flag : ℕ → Bool) (m : Members) (u : Str) (gid now : ℕ)
    (rows : Option (List GroupUser))
    → is_group_exist m gid ≡ true
    → is_member_exists m u gid ≡ true
    → (w : Str) (h : ℕ)
    → let m' = user_leave_group subscriber flag m u gid now rows in
      let hit = eqb gid h && str_eq u w in
      (has w h m'.members ≡ (if hit then false else has w h m.members))
      × (has w h m'.subscribers ≡ (if hit then false else has w h m.subscribers))
      × (has w h m'.muted ≡ (if hit then false else has w h m.muted))
unfolding user_leave_group
user_leave_group_lem subscriber flag m u gid now rows e i w h =
    rw (e, i)
      (
        has-leave u w gid h m.members,
        has-leave u w gid h m.subscribers,
        has-leave u w gid h m.muted,
      )

-- A group is not in memory and was not loaded of late, and the database fails its load. Then a second
-- load within the interval reports success whatever the database would answer, changes nothing, and the
-- group is still not there.
pub load_after_failure :
    (subscriber : ℕ) (flag : ℕ → Bool) (m : Members) (gid now later : ℕ)
    (rows : Option (List GroupUser))
    → is_group_exist m gid ≡ false
    → recent (lookup gid m.reload_times) now ≡ false
    → later < now + reload_interval
    → let (m', done) = load_group_members subscriber flag m gid now none in
      (done ≡ false)
      × (load_group_members subscriber flag m' gid later rows ≡ (m', true))
      × (is_group_exist m' gid ≡ false)
unfolding load_group_members sync_reload is_group_exist
load_after_failure subscriber flag m gid now later rows e r l =
    let again = lookup-insert gid gid now m.reload_times in
    (ground arith, ground (arith, again), ground arith)
