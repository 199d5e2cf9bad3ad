-- ===== src/Group/OfflineEvents.antt =====
-- The events of the offline server's groups, as one step, and their invariant.
use bcm_server.Base.{
  Bool, Bool-cases, List, Option, Str, arith, eqb, if◌then◌else◌, inl, inr, none, some, str_eq_iff,
  true, ℕ, ◌≡◌, str_key, nat_key,
}
use bcm_server.Group.Sets.{has-join, has-leave, join, join-NoEmpty, leave, leave-NoEmpty}
use bcm_server.Group.Offline.{
  GroupUser, Members, is_group_exist, is_member_exists, is_muted, load_group_members, place,
  remove_muted_member, sync_reload, user_enter_group, user_leave_group, user_mute_group,
  user_unmute_group,
}
use bcm_server.Group.OfflineInv.{Inv, RowsOk, sync_reload-Inv}

subscribe-Inv :
    (m : Members) (u : Str) (g : ℕ)
    → Inv m
    → Inv (record m { subscribers = join u g m.subscribers; members = leave u g m.members })
subscribe-Inv m u g v = record {
  members_full = leave-NoEmpty u g m.members v.members_full;
  subscribers_full = join-NoEmpty u g m.subscribers v.subscribers_full;
  muted_full = v.muted_full;
  one_role = λ w h p.
      ground (arith, has-join u w g h m.subscribers, has-leave u w g h m.members, v.one_role w h);
  muted_inside = λ w h p.
      ground
        (arith, has-join u w g h m.subscribers, has-leave u w g h m.members, v.muted_inside w h);
}

enrol-Inv :
    (m : Members) (u : Str) (g : ℕ)
    → Inv m
    → Inv (record m { members = join u g m.members; subscribers = leave u g m.subscribers })
enrol-Inv m u g v = record {
  members_full = join-NoEmpty u g m.members v.members_full;
  subscribers_full = leave-NoEmpty u g m.subscribers v.subscribers_full;
  muted_full = v.muted_full;
  one_role = λ w h p.
      ground (arith, has-leave u w g h m.subscribers, has-join u w g h m.members, v.one_role w h);
  muted_inside = λ w h p.
      ground
        (arith, has-leave u w g h m.subscribers, has-join u w g h m.members, v.muted_inside w h);
}

mute-Inv :
    (m : Members) (u : Str) (g : ℕ)
    → is_member_exists m u g ≡ true
    → Inv m
    → Inv (record m { muted = join u g m.muted })
unfolding is_member_exists
mute-Inv m u g e v = record {
  members_full = v.members_full;
  subscribers_full = v.subscribers_full;
  muted_full = join-NoEmpty u g m.muted v.muted_full;
  one_role = v.one_role;
  muted_inside =
      λ w h p. ground (arith, has-join u w g h m.muted, v.muted_inside w h, str_eq_iff u w);
}

unmute-Inv : (m : Members) (u : Str) (g : ℕ) → Inv m → Inv (remove_muted_member m u g)
unfolding remove_muted_member
unmute-Inv m u g v = record {
  members_full = v.members_full;
  subscribers_full = v.subscribers_full;
  muted_full = leave-NoEmpty u g m.muted v.muted_full;
  one_role = v.one_role;
  muted_inside = λ w h p. ground (arith, has-leave u w g h m.muted, v.muted_inside w h);
}

quit-Inv :
    (m : Members) (u : Str) (g : ℕ)
    → Inv m
    → Inv (record m {
      members = leave u g m.members;
      subscribers = leave u g m.subscribers;
      muted = leave u g m.muted;
    })
quit-Inv m u g v = record {
  members_full = leave-NoEmpty u g m.members v.members_full;
  subscribers_full = leave-NoEmpty u g m.subscribers v.subscribers_full;
  muted_full = leave-NoEmpty u g m.muted v.muted_full;
  one_role = λ w h p.
      ground (arith, has-leave u w g h m.members, has-leave u w g h m.subscribers, v.one_role w h);
  muted_inside = λ w h p. ground (
    arith,
    has-leave u w g h m.members,
    has-leave u w g h m.subscribers,
    has-leave u w g h m.muted,
    v.muted_inside w h,
  );
}

-- The events that the server handles, and the two calls by which it loads a group, with the clock and the
-- answer of the database.
pub data Event : Type 0 where
  enters : Str → ℕ → Option GroupUser → Event
  leaves mutes unmutes : Str → ℕ → ℕ → Option (List GroupUser) → Event
  loads reloads : ℕ → ℕ → Option (List GroupUser) → Event

abbrev pub EventOk : Event → Type 0
EventOk (enters u g row) = Unit {0}
EventOk (leaves u g now rows) = RowsOk rows
EventOk (mutes u g now rows) = RowsOk rows
EventOk (unmutes u g now rows) = RowsOk rows
EventOk (loads g now rows) = RowsOk rows
EventOk (reloads g now rows) = RowsOk rows

module _ (subscriber : ℕ) (flag : ℕ → Bool) where
  unfoldable pub step : Members → Event → Members
  step m (enters u g row) = user_enter_group subscriber flag m u g row
  step m (leaves u g now rows) = user_leave_group subscriber flag m u g now rows
  step m (mutes u g now rows) = user_mute_group subscriber flag m u g now rows
  step m (unmutes u g now rows) = user_unmute_group subscriber flag m u g now rows
  step m (loads g now rows) = (load_group_members subscriber flag m g now rows).0
  step m (reloads g now rows) = (sync_reload subscriber flag m g now rows).0

  place-Inv :
      (m : Members) (u : Str) (g role : ℕ)
      → Inv m
      → Inv (place subscriber flag m u g role)
        × (is_member_exists (place subscriber flag m u g role) u g ≡ true)
  unfolding place is_member_exists
  place-Inv m u g role v = elim (Bool-cases (eqb role subscriber)) [
    | inl yea ↦
        rw yea
          (subscribe-Inv m u g v, ground (arith, has-join u u g g m.subscribers, str_eq_iff u u))
    | inr nay ↦
        rw nay (enrol-Inv m u g v, ground (arith, has-join u u g g m.members, str_eq_iff u u))
  ]

  enter-Inv :
      (m : Members) (u : Str) (g : ℕ) (row : Option GroupUser)
      → Inv m
      → Inv (user_enter_group subscriber flag m u g row)
  unfolding user_enter_group
  enter-Inv m u g none v = v
  enter-Inv m u g (some r) v = elim (Bool-cases (is_group_exist m g)) [
    | inr gone ↦ rw gone v
    | inl there ↦
        let (placed, inside) = place-Inv m u g r.role v in
        elim (Bool-cases (is_muted r.status)) [
          | inl yea ↦
              rw (there, yea) (mute-Inv (place subscriber flag m u g r.role) u g inside placed)
          | inr nay ↦ rw (there, nay) placed
        ]
  ]

  -- The three handlers that fall back on a reload when they do not know the user.
  guarded-Inv :
      (m act : Members) (u : Str) (g now : ℕ) (rows : Option (List GroupUser))
      → RowsOk rows
      → Inv m
      → (is_member_exists m u g ≡ true → Inv act)
      → Inv (
          if is_group_exist m g
          then (if is_member_exists m u g
              then act
              else (sync_reload subscriber flag m g now rows).0)
          else m)
  guarded-Inv m act u g now rows d v h = elim (Bool-cases (is_group_exist m g)) [
    | inr gone ↦ rw gone v
    | inl there ↦ elim (Bool-cases (is_member_exists m u g)) [
      | inl yea ↦ rw (there, yea) (h yea)
      | inr nay ↦ rw (there, nay) (sync_reload-Inv subscriber flag m g now rows d v)
    ]
  ]

  load-Inv :
      (m : Members) (g now : ℕ) (rows : Option (List GroupUser))
      → RowsOk rows
      → Inv m
      → Inv (load_group_members subscriber flag m g now rows).0
  unfolding load_group_members
  load-Inv m g now rows d v = elim (Bool-cases (is_group_exist m g)) [
    | inl yea ↦ rw yea v
    | inr nay ↦ rw nay (sync_reload-Inv subscriber flag m g now rows d v)
  ]

  -- Every event keeps the invariant, if the rows that the database answers name each user once.
  pub step-Inv : (m : Members) (e : Event) → EventOk e → Inv m → Inv (step m e)
  unfolding step user_leave_group user_mute_group user_unmute_group
  step-Inv m (enters u g row) d v = enter-Inv m u g row v
  step-Inv m (leaves u g now rows) d v = guarded-Inv m _ u g now rows d v (λ _. quit-Inv m u g v)
  step-Inv m (mutes u g now rows) d v = guarded-Inv m _ u g now rows d v (λ e. mute-Inv m u g e v)
  step-Inv m (unmutes u g now rows) d v = guarded-Inv m _ u g now rows d v (λ _. unmute-Inv m u g v)
  step-Inv m (loads g now rows) d v = load-Inv m g now rows d v
  step-Inv m (reloads g now rows) d v = sync_reload-Inv subscriber flag m g now rows d v
