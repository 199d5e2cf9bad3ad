-- ===== src/Group/Subscribed.antt =====
-- The channels that are subscribed for the groups of connected users.
use bcm_server.Base.{
  Bool-cases, List, Map, Option, Str, [], add, add_all, arith, elem, elem-add, elem-append,
  elem-remove, eqb, eqb_iff, false, if◌then◌else◌, inl, inr, insert, is_empty, is_some, lookup,
  none, not, refl, remove, some, true, ℕ, ◌&&◌, ◌++◌, ◌||◌, ◌∙◌, ◌∷◌, ◌≡◌, str_key, nat_key,
}
use bcm_server.Group.Sets.{all_leave, join, leave_all, there-all_leave, there-join, there-leave_all}
use bcm_server.Dispatch.Address.{DispatchAddress, address_key}
use bcm_server.Group.Online.{
  GroupDetail, Online, enlist, enter_group, exists_group, join_all, leave_group, online_of, plays,
  remove_all, subscribe, unsubscribe, user_offline, user_online, vanished,
}

-- The channel of every group in memory is subscribed, once the subscriber is there.
abbrev pub Subscribed : Online → Type 0
Subscribed o = (g : ℕ) → is_some (lookup g o.groups) ≡ true → elem g o.channels ≡ true

-- What one of the events needs to be known of.
pub data Event : Type 0 where
  comes : DispatchAddress → Option (List GroupDetail) → Event
  goes : DispatchAddress → Option (List ℕ) → Event
  enters : Str → ℕ → Option GroupDetail → Event
  quits : Str → ℕ → Event

elem-remove_all :
    (h : ℕ) (gs out : List ℕ) → elem h (remove_all gs out) ≡ (not (elem h gs) && elem h out)
unfolding remove_all elem
elem-remove_all h [] out = ground arith
elem-remove_all h (g ∷ gs) out =
    ground (arith, elem-remove_all h gs (remove g out), elem-remove g h out)

elem-add_all : (h : ℕ) (gs out : List ℕ) → elem h (add_all gs out) ≡ (elem h gs || elem h out)
unfolding add_all elem
elem-add_all h [] out = refl
elem-add_all h (g ∷ gs) out = ground (arith, elem-add_all h gs (add g out), elem-add g h out)

elem-vanished :
    (h : ℕ) (groups : Map ℕ (List DispatchAddress)) (gs : List ℕ)
    → elem h (vanished groups gs) ≡ true
    → is_some (lookup h groups) ≡ false
unfolding vanished elem
elem-vanished h groups [] p = cc
elem-vanished h groups (g ∷ gs) p = ground (arith, elem-vanished h groups gs)

subscribe-Subscribed :
    (gids : List ℕ) (o : Online)
    → o.wired ≡ true
    → ((g : ℕ) → is_some (lookup g o.groups) ≡ true → (elem g gids || elem g o.channels) ≡ true)
    → Subscribed (subscribe gids o)
unfolding subscribe
subscribe-Subscribed [] o w h g q = unfold elem in h g q
subscribe-Subscribed (x ∷ gids) o w h g q =
    rw w (elem-add_all g (x ∷ gids) o.channels ∙ h g (rw (w, subscribe) at q))

unsubscribe-Subscribed :
    (gids : List ℕ) (o : Online)
    → ((g : ℕ) → elem g gids ≡ true → is_some (lookup g o.groups) ≡ false)
    → Subscribed o
    → Subscribed (unsubscribe gids o)
unfolding unsubscribe
unsubscribe-Subscribed [] o gone h g q = h g q
unsubscribe-Subscribed (x ∷ gids) o gone h g q =
    ground (arith, elem-remove_all g (x ∷ gids) o.channels, gone g, h g)

-- The loop of a user who comes: a group that is new in memory is in the list to subscribe.
enlist_covers :
    (undefine subscriber : ℕ) (a : DispatchAddress) (ds : List GroupDetail)
    (groups : Map ℕ (List DispatchAddress)) (chans : List ℕ) (g : ℕ)
    → let (groups', chans') = enlist undefine subscriber a ds groups chans in
      (elem g chans ≡ true → elem g chans' ≡ true)
      × (is_some (lookup g groups') ≡ true → (elem g chans' || is_some (lookup g groups)) ≡ true)
unfolding enlist elem
enlist_covers undefine subscriber a [] groups chans g = (λ h. h, λ h. ground arith)
enlist_covers undefine subscriber a (d ∷ ds) groups chans g =
    let groups1 = if plays undefine subscriber d.role then join a d.gid groups else groups in
    let chans1 = if is_some (lookup d.gid groups) then chans else chans ++ d.gid ∷ [] in
    let ih = enlist_covers undefine subscriber a ds groups1 chans1 g in
    let more = elem-append g chans (d.gid ∷ []) in
    (
      λ h. ground (arith, ih.0, more),
      λ h. ground (arith, ih.0, ih.1, more, there-join a d.gid g groups),
    )

module _ (undefine subscriber : ℕ) where
  unfoldable pub step : Online → Event → Online
  step o (comes a details) = user_online undefine subscriber o a details
  step o (goes a gids) = user_offline undefine subscriber o a gids
  step o (enters uid gid detail) = enter_group undefine subscriber o uid gid detail
  step o (quits uid gid) = leave_group undefine subscriber o uid gid

  abbrev pub Ready : Online → Type 0
  Ready o = (o.wired ≡ true) × Subscribed o

  wired-subscribe : (gids : List ℕ) (o : Online) → (subscribe gids o).wired ≡ o.wired
  unfolding subscribe
  wired-subscribe gids o = ground arith

  wired-unsubscribe : (gids : List ℕ) (o : Online) → (unsubscribe gids o).wired ≡ o.wired
  unfolding unsubscribe
  wired-unsubscribe gids o = ground arith

  subscribe-Ready :
      (gids : List ℕ) (o : Online)
      → o.wired ≡ true
      → ((g : ℕ) → is_some (lookup g o.groups) ≡ true → (elem g gids || elem g o.channels) ≡ true)
      → Ready (subscribe gids o)
  subscribe-Ready gids o w h = (wired-subscribe gids o ∙ w, subscribe-Subscribed gids o w h)

  unsubscribe-Ready :
      (gids : List ℕ) (o : Online)
      → ((g : ℕ) → elem g gids ≡ true → is_some (lookup g o.groups) ≡ false)
      → Ready o
      → Ready (unsubscribe gids o)
  unsubscribe-Ready gids o gone v =
      (wired-unsubscribe gids o ∙ v.0, unsubscribe-Subscribed gids o gone v.1)

  comes_details-Ready :
      (o : Online) (a : DispatchAddress) (ds : List GroupDetail)
      → Ready o
      → let (groups, chans) = enlist undefine subscriber a ds o.groups [] in
        Ready (subscribe chans (record o { groups = groups }))
  comes_details-Ready o a ds v =
      let (groups, chans) = enlist undefine subscriber a ds o.groups [] in
      subscribe-Ready chans (record o { groups = groups }) v.0
        (λ g q. ground (arith, (enlist_covers undefine subscriber a ds o.groups [] g).1, v.1 g))

  comes-Ready :
      (o : Online) (a : DispatchAddress) (details : Option (List GroupDetail))
      → Ready o
      → Ready (user_online undefine subscriber o a details)
  unfolding user_online
  comes-Ready o a none v = elim (Bool-cases (elem a (online_of o a.uid))) [
    | inl seen ↦ rw seen v
    | inr new ↦ rw new v
  ]
  comes-Ready o a (some ds) v = elim (Bool-cases (elem a (online_of o a.uid))) [
    | inl seen ↦ rw seen v
    | inr new ↦ rw new (
        comes_details-Ready
          (record o { online_users = insert a.uid (add a (online_of o a.uid)) o.online_users }) a ds
          v)
  ]

  goes_groups-Ready :
      (o : Online) (a : DispatchAddress) (gs : List ℕ)
      → Ready o
      → let groups = leave_all a gs o.groups in
        Ready (unsubscribe (vanished groups gs) (record o { groups = groups }))
  goes_groups-Ready o a gs v =
      let groups = leave_all a gs o.groups in
      unsubscribe-Ready (vanished groups gs) (record o { groups = groups })
        (λ g q. elem-vanished g groups gs q) (v.0, λ g q. v.1 g (there-leave_all a gs g o.groups q))

  goes-Ready :
      (o : Online) (a : DispatchAddress) (gids : Option (List ℕ))
      → Ready o
      → Ready (user_offline undefine subscriber o a gids)
  unfolding user_offline
  goes-Ready o a none v = elim (Bool-cases (elem a (online_of o a.uid))) [
    | inl seen ↦ rw seen v
    | inr new ↦ rw new v
  ]
  goes-Ready o a (some gs) v = elim (Bool-cases (elem a (online_of o a.uid))) [
    | inl seen ↦ rw seen (
        goes_groups-Ready
          (record o { online_users = insert a.uid (remove a (online_of o a.uid)) o.online_users }) a
          gs v)
    | inr new ↦ rw new (goes_groups-Ready o a gs v)
  ]

  there-join_all :
      (us : List DispatchAddress) (g h : ℕ) (m : Map ℕ (List DispatchAddress))
      → is_some (lookup h (join_all undefine subscriber us g m)) ≡ true
      → (eqb g h || is_some (lookup h m)) ≡ true
  unfolding join_all
  there-join_all [] g h m q = ground arith
  there-join_all (u ∷ us) g h m q =
      ground (arith, there-join_all us g h (join u g m), there-join u g h m)

  enters_covers :
      (o : Online) (users : List DispatchAddress) (gid g : ℕ)
      → Ready o
      → is_some (lookup g (join_all undefine subscriber users gid o.groups)) ≡ true
      → (elem g (if exists_group o gid then [] else gid ∷ []) || elem g o.channels) ≡ true
  unfolding elem exists_group
  enters_covers o users gid g v q =
      let there = there-join_all users gid g o.groups q in
      elim (Bool-cases (exists_group o gid)) [
        | inl old ↦ rw old (ground (arith, there, v.1 g, v.1 gid old))
        | inr new ↦ rw new (ground (arith, there, v.1 g))
      ]

  enters-Ready :
      (o : Online) (uid : Str) (gid : ℕ) (detail : Option GroupDetail)
      → Ready o
      → Ready (enter_group undefine subscriber o uid gid detail)
  unfolding enter_group
  enters-Ready o uid gid none v = v
  enters-Ready o uid gid (some d) v =
      let users = online_of o uid in
      elim (Bool-cases (is_empty users)) [
        | inl idle ↦ rw idle v
        | inr busy ↦ rw busy (elim (Bool-cases (plays undefine subscriber d.role)) [
          | inl yea ↦ rw yea (
              subscribe-Ready (if exists_group o gid then [] else gid ∷ [])
                (record o { groups = join_all undefine subscriber users gid o.groups }) v.0
                (λ g q. enters_covers o users gid g v q))
          | inr nay ↦ rw nay v
        ])
      ]

  only_gone :
      (gid : ℕ) (groups : Map ℕ (List DispatchAddress))
      → is_some (lookup gid groups) ≡ false
      → (g : ℕ) → elem g (gid ∷ []) ≡ true
      → is_some (lookup g groups) ≡ false
  unfolding elem
  only_gone gid groups h g q = ground (arith, eqb_iff gid g)

  quits-Ready :
      (o : Online) (uid : Str) (gid : ℕ)
      → Ready o
      → Ready (leave_group undefine subscriber o uid gid)
  unfolding leave_group exists_group
  quits-Ready o uid gid v =
      let users = online_of o uid in
      let left = record o { groups = all_leave users gid o.groups } in
      let stays : Ready left = (v.0, λ g q. v.1 g (there-all_leave users gid g o.groups q)) in
      elim (Bool-cases (is_empty users)) [
        | inl idle ↦ rw idle v
        | inr busy ↦ rw busy (elim (Bool-cases (exists_group left gid)) [
          | inl there ↦ rw there stays
          | inr gone ↦
              rw gone (unsubscribe-Ready (gid ∷ []) left (only_gone gid left.groups gone) stays)
        ])
      ]

  -- When the subscriber is there and every group in memory has its channel subscribed, the same holds
  -- after a user comes, goes, enters a group or leaves one, whatever the database answers.
  pub step-Ready : (o : Online) (e : Event) → Ready o → Ready (step o e)
  unfolding step
  step-Ready o (comes a details) v = comes-Ready o a details v
  step-Ready o (goes a gids) v = goes-Ready o a gids v
  step-Ready o (enters uid gid detail) v = enters-Ready o uid gid detail v
  step-Ready o (quits uid gid) v = quits-Ready o uid gid v
