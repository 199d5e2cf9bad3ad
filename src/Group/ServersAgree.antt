-- ===== src/Group/ServersAgree.antt =====
-- src/group/im_server_mgr.cpp: two managers, and which of them handles a group.
use bcm_server.Utils.Ring.{get_server}
use bcm_server.Base.{
  Bool-cases, List, Str, [], ap, elem, false, inl, inr, is_empty, refl, str_eq, str_eq_iff, subst,
  sym, true, ℕ, ◌<◌, ◌∙◌, ◌∷◌, ◌≡◌, str_key, nat_key,
}
use bcm_server.Group.Servers.{ImServerMgr, get_server_by_group, is_self, should_handle_group}
use bcm_server.Group.ServersKnown.{Event, get_server_by_group-elem, new_manager, run, with_servers}

-- Of the servers of a list, the keys of a manager hold the address `own` and no other one.
abbrev pub AllOwn : Str → ImServerMgr → List Str → Type 0
AllOwn own m [] = Unit
AllOwn own m (s ∷ ss) = (is_self m s ≡ str_eq s own) × AllOwn own m ss

is_self-elem :
    (own : Str) (m : ImServerMgr) (ss : List Str) (s : Str)
    → AllOwn own m ss
    → elem s ss ≡ true
    → is_self m s ≡ str_eq s own
unfolding elem
is_self-elem own m [] s h e = cc
is_self-elem own m (t ∷ ss) s h e = elim (Bool-cases (str_eq t s)) [
  | inl f ↦ subst (λ u. is_self m u ≡ str_eq u own) ((str_eq_iff t s).0 f) h.0
  | inr f ↦ is_self-elem own m ss s h.1 (rw f at e)
]

elem-not_empty :
    (ss : List Str) (s : Str) → elem [] ss ≡ false → elem s ss ≡ true → is_empty s ≡ false
elem-not_empty ss [] e f = cc
elem-not_empty ss (x ∷ s) e f = refl

should_handle_lem :
    (own : Str) (m : ImServerMgr) (gid : ℕ)
    → AllOwn own m m.imsvrs
    → elem [] m.imsvrs ≡ false
    → elem (get_server_by_group m gid) m.imsvrs ≡ true
    → should_handle_group m gid ≡ str_eq (get_server_by_group m gid) own
unfolding should_handle_group get_server_by_group
should_handle_lem own m gid h e f =
    rw (elem-not_empty m.imsvrs (get_server m.consistent_hash gid) e f)
      (is_self-elem own m m.imsvrs (get_server m.consistent_hash gid) h f)

-- Two managers that have read the same list of servers, after whatever they have read before, send every
-- group to the same server. When the list has a server and no empty name, the ring has replicas, and the
-- keys of the first manager hold its own address and no other one of the list, it handles a
-- group if and only if the second sends the group to that address.
pub should_handle_group-get_server_by_group :
    (split : Str → List Str) (n : ℕ) (es es' : List Event) (own : Str) (gid : ℕ)
    → 0 < n
    → (run split (new_manager n) es).imsvrs ≡ (run split (new_manager n) es').imsvrs
    → is_empty (run split (new_manager n) es).imsvrs ≡ false
    → elem [] (run split (new_manager n) es).imsvrs ≡ false
    → AllOwn own (run split (new_manager n) es) (run split (new_manager n) es).imsvrs
    → (get_server_by_group (run split (new_manager n) es) gid
        ≡ get_server_by_group (run split (new_manager n) es') gid)
      × (should_handle_group (run split (new_manager n) es) gid
          ≡ str_eq (get_server_by_group (run split (new_manager n) es') gid) own)
unfolding get_server_by_group
should_handle_group-get_server_by_group split n es es' own gid h same known named own_keys =
    let m = run split (new_manager n) es in
    let m' = run split (new_manager n) es' in
    let a = get_server_by_group-elem split n es gid 0 h known in
    let b =
      get_server_by_group-elem split n es' gid 0 h (subst (λ ss. is_empty ss ≡ false) same known) in
    let ring : m.consistent_hash ≡ m'.consistent_hash =
      a.0.0
      ∙ ap (with_servers (record { number_of_replicas = n; server_circle = [] })) same
      ∙ sym b.0.0 in
    let owner : get_server_by_group m gid ≡ get_server_by_group m' gid =
      ap (λ r. get_server r gid) ring in
    (owner, should_handle_lem own m gid own_keys named a.1 ∙ ap (λ s. str_eq s own) owner)
