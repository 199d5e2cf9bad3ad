-- ===== src/Group/OfflineInv.antt =====
-- The invariant of the offline server's groups, and reloads.
use bcm_server.Base.{
  Bool, Bool-cases, List, Map, Option, Str, [], arith, eqb, erase, false, inl, inr, insert, lookup,
  none, not, some, str_eq, str_eq_iff, true, ℕ, ◌&&◌, ◌||◌, ◌∷◌, ◌≡◌, str_key, nat_key,
}
use bcm_server.Group.Sets.{NoEmpty, erase-NoEmpty, has, has-erase, has-join, join-NoEmpty}
use bcm_server.Group.Offline.{GroupUser, Members, load_row, load_rows, recent, sync_reload}

-- No group has an empty set; nobody is a member and a subscriber of one group; whoever has muted a
-- group is in it.
pub record Inv (m : Members) : Type 0 where
  pub members_full : NoEmpty m.members
  pub subscribers_full : NoEmpty m.subscribers
  pub muted_full : NoEmpty m.muted
  pub one_role : (u : Str) (g : ℕ) → has u g m.members ≡ true → has u g m.subscribers ≡ false
  pub muted_inside :
      (u : Str) (g : ℕ)
      → has u g m.muted ≡ true
      → (has u g m.members || has u g m.subscribers) ≡ true

noted-Inv : (m : Members) (t : Map ℕ ℕ) → Inv m → Inv (record m { reload_times = t })
noted-Inv m t v = record {
  members_full = v.members_full;
  subscribers_full = v.subscribers_full;
  muted_full = v.muted_full;
  one_role = v.one_role;
  muted_inside = v.muted_inside;
}

-- The rows of one group name each user once.
abbrev pub Apart : Str → List GroupUser → Type 0
Apart u [] = Unit {0}
Apart u (r ∷ rs) = (str_eq r.uid u ≡ false) × Apart u rs

abbrev pub DistinctRows : List GroupUser → Type 0
DistinctRows [] = Unit {0}
DistinctRows (r ∷ rs) = Apart r.uid rs × DistinctRows rs

-- A database answer is an error, or rows that name each user once.
abbrev pub RowsOk : Option (List GroupUser) → Type 0
RowsOk none = Unit {0}
RowsOk (some rs) = DistinctRows rs

-- What a row does to each of the three tables.
module _ (subscriber : ℕ) (flag : ℕ → Bool) where
  load_row-has :
      (gid : ℕ) (m : Members) (r : GroupUser) (u : Str) (g : ℕ)
      → let m' = load_row subscriber flag gid m r in
        let hit = eqb gid g && str_eq r.uid u in
        (has u g m'.members ≡ ((hit && not (eqb subscriber r.role)) || has u g m.members))
        × (has u g m'.subscribers ≡ ((hit && eqb subscriber r.role) || has u g m.subscribers))
        × (has u g m'.muted ≡ ((hit && flag r.status) || has u g m.muted))
  unfolding load_row
  load_row-has gid m r u g = ground (
    arith,
    has-join r.uid u gid g m.members,
    has-join r.uid u gid g m.subscribers,
    has-join r.uid u gid g m.muted,
  )

  load_row-NoEmpty :
      (gid : ℕ) (m : Members) (r : GroupUser)
      → Inv m
      → let m' = load_row subscriber flag gid m r in
        NoEmpty m'.members × NoEmpty m'.subscribers × NoEmpty m'.muted
  unfolding load_row
  load_row-NoEmpty gid m r v =
      let ms = join-NoEmpty r.uid gid m.members v.members_full in
      let ss = join-NoEmpty r.uid gid m.subscribers v.subscribers_full in
      let us = join-NoEmpty r.uid gid m.muted v.muted_full in
      elim (Bool-cases (flag r.status)) [
        | inl loud ↦ elim (Bool-cases (eqb subscriber r.role)) [
          | inl yea ↦ rw (loud, yea) (v.members_full, ss, us)
          | inr nay ↦ rw (loud, nay) (ms, v.subscribers_full, us)
        ]
        | inr quiet ↦ elim (Bool-cases (eqb subscriber r.role)) [
          | inl yea ↦ rw (quiet, yea) (v.members_full, ss, v.muted_full)
          | inr nay ↦ rw (quiet, nay) (ms, v.subscribers_full, v.muted_full)
        ]
      ]

  load_row-Inv :
      (gid : ℕ) (m : Members) (r : GroupUser)
      → has r.uid gid m.members ≡ false
      → has r.uid gid m.subscribers ≡ false
      → Inv m
      → Inv (load_row subscriber flag gid m r)
  load_row-Inv gid m r a b v = record {
    members_full = (load_row-NoEmpty gid m r v).0;
    subscribers_full = (load_row-NoEmpty gid m r v).1;
    muted_full = (load_row-NoEmpty gid m r v).2;
    one_role =
        λ u g h. ground (arith, load_row-has gid m r u g, v.one_role u g, str_eq_iff r.uid u, a, b);
    muted_inside = λ u g h. ground (arith, load_row-has gid m r u g, v.muted_inside u g);
  }

  -- Nobody that the rows to come name is in the group yet.
  abbrev Fresh : ℕ → Members → List GroupUser → Type 0
  Fresh gid m [] = Unit {0}
  Fresh gid m (r ∷ rs) =
      (has r.uid gid m.members ≡ false) × (has r.uid gid m.subscribers ≡ false) × Fresh gid m rs

  load_row-Fresh :
      (gid : ℕ) (m : Members) (r : GroupUser) (rs : List GroupUser)
      → Apart r.uid rs
      → Fresh gid m rs
      → Fresh gid (load_row subscriber flag gid m r) rs
  load_row-Fresh gid m r [] a f = tt
  load_row-Fresh gid m r (s ∷ rs) a f = (
    ground (arith, load_row-has gid m r s.uid gid, str_eq_iff s.uid r.uid, str_eq_iff r.uid s.uid),
    ground (arith, load_row-has gid m r s.uid gid, str_eq_iff s.uid r.uid, str_eq_iff r.uid s.uid),
    load_row-Fresh gid m r rs a.1 f.2,
  )

  load_rows-Inv :
      (gid : ℕ) (m : Members) (rs : List GroupUser)
      → DistinctRows rs
      → Fresh gid m rs
      → Inv m
      → Inv (load_rows subscriber flag gid m rs)
  unfolding load_rows
  load_rows-Inv gid m [] d f v = v
  load_rows-Inv gid m (r ∷ rs) d f v =
      load_rows-Inv gid (load_row subscriber flag gid m r) rs d.1
        (load_row-Fresh gid m r rs d.0 f.2) (load_row-Inv gid m r f.0 f.1 v)

  emptied : ℕ → ℕ → Members → Members
  emptied gid now m = record {
    members = erase gid m.members;
    subscribers = erase gid m.subscribers;
    muted = erase gid m.muted;
    reload_times = insert gid now m.reload_times;
  }

  emptied-Inv : (gid now : ℕ) (m : Members) → Inv m → Inv (emptied gid now m)
  unfolding emptied
  emptied-Inv gid now m v = record {
    members_full = erase-NoEmpty gid m.members v.members_full;
    subscribers_full = erase-NoEmpty gid m.subscribers v.subscribers_full;
    muted_full = erase-NoEmpty gid m.muted v.muted_full;
    one_role = λ u g h.
        ground
          (arith, has-erase u gid g m.members, has-erase u gid g m.subscribers, v.one_role u g);
    muted_inside = λ u g h. ground (
      arith,
      has-erase u gid g m.members,
      has-erase u gid g m.subscribers,
      has-erase u gid g m.muted,
      v.muted_inside u g,
    );
  }

  emptied-Fresh :
      (gid now : ℕ) (m : Members) (rs : List GroupUser) → Fresh gid (emptied gid now m) rs
  unfolding emptied
  emptied-Fresh gid now m [] = tt
  emptied-Fresh gid now m (r ∷ rs) = (
    ground (arith, has-erase r.uid gid gid m.members),
    ground (arith, has-erase r.uid gid gid m.subscribers),
    emptied-Fresh gid now m rs,
  )

  pub sync_reload-Inv :
      (m : Members) (gid now : ℕ) (rows : Option (List GroupUser))
      → RowsOk rows
      → Inv m
      → Inv (sync_reload subscriber flag m gid now rows).0
  unfolding sync_reload emptied
  sync_reload-Inv m gid now none d v = elim (Bool-cases (recent (lookup gid m.reload_times) now)) [
    | inl yea ↦ rw yea v
    | inr nay ↦ rw nay (noted-Inv m (insert gid now m.reload_times) v)
  ]
  sync_reload-Inv m gid now (some rs) d v =
      elim (Bool-cases (recent (lookup gid m.reload_times) now)) [
        | inl yea ↦ rw yea v
        | inr nay ↦ rw nay (
            load_rows-Inv gid (emptied gid now m) rs d (emptied-Fresh gid now m rs)
              (emptied-Inv gid now m v))
      ]
