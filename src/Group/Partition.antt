-- ===== src/Group/Partition.antt =====
-- src/program/offline-server/group_partition_mgr.h: the last message of each group that the offline server
-- has seen.
use bcm_server.Base.{
  Bool, List, Map, Option, Option-cases, [], ap, eqb, if◌then◌else◌, inl, inr, insert, is_some,
  lookup, lookup-insert, none, refl, some, ℕ, ◌∙◌, ◌∷◌, ◌≡◌, str_key, nat_key,
}

-- `GroupMessageSeqInfo`.
pub record SeqInfo : Type 0 where
  pub timestamp : ℕ
  pub last_mid : ℕ

unfoldable pub update_mid : Map ℕ SeqInfo → ℕ → ℕ → ℕ → Map ℕ SeqInfo
update_mid m gid tm last_mid = elim (lookup gid m) [
  | some old ↦ insert gid (record old { timestamp = tm; last_mid = last_mid }) m
  | none ↦ insert gid (record { timestamp = tm; last_mid = last_mid }) m
]

unfoldable pub get_group_push_info : Map ℕ SeqInfo → ℕ → Option SeqInfo
get_group_push_info m gid = lookup gid m

unfoldable pub is_exist_group : Map ℕ SeqInfo → ℕ → Bool
is_exist_group m gid = is_some (lookup gid m)

-- Updates of groups, in order.
unfoldable pub update_all : Map ℕ SeqInfo → List (ℕ × SeqInfo) → Map ℕ SeqInfo
update_all m [] = m
update_all m ((gid, i) ∷ us) = update_all (update_mid m gid i.timestamp i.last_mid) us

-- The last update of `gid` among them, or `start`.
unfoldable pub latest : ℕ → Option SeqInfo → List (ℕ × SeqInfo) → Option SeqInfo
latest gid start [] = start
latest gid start ((g, i) ∷ us) = latest gid (if eqb g gid then some i else start) us

lookup-update_mid :
    (m : Map ℕ SeqInfo) (g gid : ℕ) (i : SeqInfo)
    → lookup gid (update_mid m g i.timestamp i.last_mid)
      ≡ (if eqb g gid then some i else lookup gid m)
unfolding update_mid
lookup-update_mid m g gid i = elim (Option-cases (lookup g m)) [
  | inl absent ↦ rw (absent, update_mid) (lookup-insert g gid i m)
  | inr (old, there) ↦ rw (there, update_mid) (lookup-insert g gid i m)
]

lookup-update_all :
    (us : List (ℕ × SeqInfo)) (m : Map ℕ SeqInfo) (gid : ℕ)
    → lookup gid (update_all m us) ≡ latest gid (lookup gid m) us
unfolding update_all latest
lookup-update_all [] m gid = refl
lookup-update_all ((g, i) ∷ us) m gid =
    lookup-update_all us (update_mid m g i.timestamp i.last_mid) gid
    ∙ ap (λ o. latest gid o us) (lookup-update_mid m g gid i)
