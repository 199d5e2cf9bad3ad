-- ===== src/Group/ServersKnown.antt =====
-- src/group/im_server_mgr.cpp: the list of servers and the ring through all updates.
use bcm_server.Utils.Fnv.{fnv_hash, fnv_hash_u64}
use bcm_server.Base.{
  Bool-cases, List, Option-cases, Str, [], ap, arith, elem, elem-append, false, get_or, inl, inr,
  insert, is_empty, length, refl, str_eq_iff, subst, suc, sym, true, zero, ℕ, ◌%◌, ◌++◌, ◌<◌, ◌∙◌,
  ◌∷◌, ◌≡◌, ◌⊎◌, str_key, nat_key,
}
use bcm_server.Utils.Ring.{
  Ring, add_buffer, add_replicas, add_server, clear, first, get_server, lower_bound, server_of,
}
use bcm_server.Utils.RingMoves.{get_server-add_server, server_of-add_replicas}
use bcm_server.Group.Servers.{
  ChannelsReply, ImServerMgr, Known, add_known, add_reg_key, channels, get_server_by_group,
  get_server_randomly, ip_port, read_descriptors, unexpected, update_im_server_list,
}

pub data Event : Type 0 where
  reg_key : Str → Event
  reply : ChannelsReply → Event

unfoldable pub step : (Str → List Str) → ImServerMgr → Event → ImServerMgr
unfolding add_reg_key update_im_server_list
step split m (reg_key k) = add_reg_key m k
step split m (reply c) = (update_im_server_list split m c).0

unfoldable pub run : (Str → List Str) → ImServerMgr → List Event → ImServerMgr
unfolding step
run split m [] = m
run split m (e ∷ es) = run split (step split m e) es

-- A manager as it is built, where the ring takes `n` replicas of each server.
unfoldable pub new_manager : ℕ → ImServerMgr
new_manager n = record {
  imsvrs = [];
  consistent_hash = record { number_of_replicas = n; server_circle = [] };
  reg_keys = [];
}

-- The ring with all servers of a list, in its order.
unfoldable pub with_servers : Ring → List Str → Ring
unfolding add_server
with_servers r [] = r
with_servers r (s ∷ ss) = with_servers (add_server r s) ss

-- No server stands twice.
abbrev pub AllDistinct : List Str → Type 0
AllDistinct [] = Unit
AllDistinct (s ∷ ss) = (elem s ss ≡ false) × AllDistinct ss

abbrev pub Sound : ℕ → List Str → Ring → Type 0
Sound n ss r =
    (r ≡ with_servers (record { number_of_replicas = n; server_circle = [] }) ss) × AllDistinct ss

with_servers-append :
    (r : Ring) (ss : List Str) (s : Str)
    → with_servers r (ss ++ s ∷ []) ≡ add_server (with_servers r ss) s
unfolding with_servers
with_servers-append r [] s = refl
with_servers-append r (t ∷ ss) s = with_servers-append (add_server r t) ss s

append-AllDistinct :
    (ss : List Str) (s : Str) → AllDistinct ss → elem s ss ≡ false → AllDistinct (ss ++ s ∷ [])
unfolding elem
append-AllDistinct [] s h e = (refl, tt)
append-AllDistinct (t ∷ ss) s h e = (
  ground (arith, e, h.0, elem-append t ss (s ∷ []), str_eq_iff t s, str_eq_iff s t),
  append-AllDistinct ss s h.1 (ground (arith, e)),
)

add_known-Sound :
    (n : ℕ) (k : Known) (s : Str)
    → Sound n k.servers k.ring
    → Sound n (add_known k s).servers (add_known k s).ring
unfolding add_known
add_known-Sound n k s h = elim (Bool-cases (elem s k.servers)) [
  | inl e ↦ rw e h
  | inr e ↦ rw e (
    ap (λ r. add_server r s) h.0 ∙ sym (with_servers-append _ k.servers s),
    append-AllDistinct k.servers s h.1 e,
  )
]

read_descriptors-Sound :
    (split : Str → List Str) (n : ℕ) (ds : List Str) (k : Known)
    → Sound n k.servers k.ring
    → Sound n (read_descriptors split ds k).servers (read_descriptors split ds k).ring
unfolding read_descriptors
read_descriptors-Sound split n [] k h = h
read_descriptors-Sound split n (d ∷ ds) k h = elim (Option-cases (ip_port (split d))) [
  | inl e ↦ rw (e, read_descriptors) (read_descriptors-Sound split n ds k h)
  | inr (s, e) ↦
      rw (e, read_descriptors)
        (read_descriptors-Sound split n ds (add_known k s) (add_known-Sound n k s h))
]

number_of_replicas-with_servers :
    (r : Ring) (ss : List Str) → (with_servers r ss).number_of_replicas ≡ r.number_of_replicas
unfolding with_servers add_server
number_of_replicas-with_servers r [] = refl
number_of_replicas-with_servers r (s ∷ ss) = number_of_replicas-with_servers (add_server r s) ss

clear-Sound : (n : ℕ) (ss : List Str) (r : Ring) → Sound n ss r → Sound n [] (clear r)
unfolding clear with_servers
clear-Sound n ss r h = (
  ap (λ k. record { number_of_replicas = k; server_circle = [] })
      (ap (λ q. q.number_of_replicas) h.0 ∙ number_of_replicas-with_servers _ ss),
  tt,
)

step-Sound :
    (split : Str → List Str) (n : ℕ) (m : ImServerMgr) (e : Event)
    → Sound n m.imsvrs m.consistent_hash
    → Sound n (step split m e).imsvrs (step split m e).consistent_hash
unfolding step add_reg_key update_im_server_list
step-Sound split n m (reg_key k) h = elim (Bool-cases (elem k m.reg_keys)) [
  | inl e ↦ rw (e, add_reg_key) h
  | inr e ↦ rw (e, add_reg_key) h
]
step-Sound split n m (reply unexpected) h = h
step-Sound split n m (reply (channels [])) h = h
step-Sound split n m (reply (channels (d ∷ ds))) h =
    read_descriptors-Sound split n (d ∷ ds) _ (clear-Sound n m.imsvrs m.consistent_hash h)

-- A group goes to one of the servers, or where it went before.
get_server-with_servers :
    (r : Ring) (ss : List Str) (gid : ℕ)
    → (elem (get_server (with_servers r ss) gid) ss ≡ true)
      ⊎ (get_server (with_servers r ss) gid ≡ get_server r gid)
unfolding with_servers elem
get_server-with_servers r [] gid = inr refl
get_server-with_servers r (s ∷ ss) gid = elim (get_server-with_servers (add_server r s) ss gid) [
  | inl e ↦ inl (ground (arith, e))
  | inr e ↦ elim (get_server-add_server r s gid []).0 [
    | inl f ↦
        inl (ground (arith, str_eq_iff s (get_server (with_servers (add_server r s) ss) gid), e, f))
    | inr f ↦ inr (e ∙ f)
  ]
]

server_of-one : (h k : ℕ) (s : Str) → server_of h ((k, s) ∷ []) ≡ s
unfolding server_of lower_bound first
server_of-one h k s = ground arith

-- The first server of an empty ring has every group.
get_server-first :
    (n : ℕ) (s : Str) (gid : ℕ)
    → 0 < n
    → get_server (add_server (record { number_of_replicas = n; server_circle = [] }) s) gid ≡ s
unfolding get_server add_server add_replicas insert
get_server-first zero s gid h = elim h [ ]
get_server-first (suc n) s gid h =
    elim (server_of-add_replicas (fnv_hash_u64 gid) n 1 s ((fnv_hash (add_buffer s 0), s) ∷ [])) [
      | inl e ↦ e
      | inr e ↦ e ∙ server_of-one (fnv_hash_u64 gid) (fnv_hash (add_buffer s 0)) s
    ]

get_server-with_servers_some :
    (n : ℕ) (ss : List Str) (gid : ℕ)
    → 0 < n
    → is_empty ss ≡ false
    → elem
        (get_server (with_servers (record { number_of_replicas = n; server_circle = [] }) ss) gid)
        ss
      ≡ true
unfolding with_servers elem
get_server-with_servers_some n [] gid h e = cc
get_server-with_servers_some n (s ∷ ss) gid h e =
    let r = add_server (record { number_of_replicas = n; server_circle = [] }) s in
    let f = get_server-first n s gid h in
    elim (get_server-with_servers r ss gid) [
      | inl g ↦ ground (arith, g)
      | inr g ↦ ground (arith, str_eq_iff s (get_server (with_servers r ss) gid), f, g)
    ]

elem-get_or : (ss : List Str) (i : ℕ) → i < length ss → elem (get_or ss i []) ss ≡ true
unfolding elem
elem-get_or [] i h = elim h [ ]
elem-get_or (s ∷ ss) zero h = ground (arith, str_eq_iff s s)
elem-get_or (s ∷ ss) (suc i) h = ground (arith, elem-get_or ss i (omega arith))

run-Sound :
    (split : Str → List Str) (n : ℕ) (m : ImServerMgr) (es : List Event)
    → Sound n m.imsvrs m.consistent_hash
    → Sound n (run split m es).imsvrs (run split m es).consistent_hash
unfolding run
run-Sound split n m [] h = h
run-Sound split n m (e ∷ es) h = run-Sound split n (step split m e) es (step-Sound split n m e h)

some_index : (ss : List Str) (r : ℕ) → is_empty ss ≡ false → r % length ss < length ss
some_index [] r e = cc
some_index (s ∷ ss) r e = omega arith

random_elem :
    (m : ImServerMgr) (r : ℕ)
    → is_empty m.imsvrs ≡ false
    → elem (get_server_randomly m r) m.imsvrs ≡ true
unfolding get_server_randomly
random_elem m r e =
    rw (e, get_server_randomly)
      (elem-get_or m.imsvrs (r % length m.imsvrs) (some_index m.imsvrs r e))

group_elem :
    (m : ImServerMgr) (n gid : ℕ)
    → 0 < n
    → Sound n m.imsvrs m.consistent_hash
    → is_empty m.imsvrs ≡ false
    → elem (get_server_by_group m gid) m.imsvrs ≡ true
unfolding get_server_by_group
group_elem m n gid h sound e =
    subst (λ r. elem (get_server r gid) m.imsvrs ≡ true) (sym sound.0)
      (get_server-with_servers_some n m.imsvrs gid h e)

-- After any answers of redis, however a manager splits them, its ring is that of its list, in which no
-- server stands twice.
-- When the list has a server and the ring has replicas, every group goes to a server of the list, and a
-- server that is taken at random is one of it.
pub get_server_by_group-elem :
    (split : Str → List Str) (n : ℕ) (es : List Event) (gid r : ℕ)
    → 0 < n
    → is_empty (run split (new_manager n) es).imsvrs ≡ false
    → let m = run split (new_manager n) es in
      Sound n m.imsvrs m.consistent_hash
      × (elem (get_server_by_group m gid) m.imsvrs ≡ true)
      × (elem (get_server_randomly m r) m.imsvrs ≡ true)
unfolding new_manager with_servers
get_server_by_group-elem split n es gid r h e =
    let m = run split (new_manager n) es in
    let sound = run-Sound split n (new_manager n) es (refl, tt) in
    (sound, group_elem m n gid h sound e, random_elem m r e)
