-- ===== src/Group/Servers.antt =====
-- src/group/im_server_mgr.cpp: ImServerMgr, which server handles which group. The two locks of an
-- update are taken together; an update is one step. `split` is `boost::split` at each "_".
use bcm_server.Base.{
  Bool, List, Option, Str, [], elem, eqb, false, get_or, if◌then◌else◌, is_empty, keys, length,
  none, some, true, ℕ, ◌%◌, ◌&&◌, ◌++◌, ◌||◌, ◌∷◌, str_key, nat_key,
}
use bcm_server.Utils.Ring.{Ring, add_server, clear, get_server}

pub record ImServerMgr : Type 0 where
  pub imsvrs : List Str
  pub consistent_hash : Ring
  pub reg_keys : List Str

unfoldable pub add_reg_key : ImServerMgr → Str → ImServerMgr
add_reg_key m key =
    if elem key m.reg_keys then m else record m { reg_keys = m.reg_keys ++ key ∷ [] }

-- What redis comes back with: `getStringList` of an array, or anything that is refused.
pub data ChannelsReply : Type 0 where
  channels : List Str → ChannelsReply
  unexpected : ChannelsReply

-- `m_imsvrs` and `m_consistentHash`.
pub record Known : Type 0 where
  pub servers : List Str
  pub ring : Ring

-- The second token of a descriptor.
unfoldable pub ip_port : List Str → Option Str
ip_port [] = none
ip_port (t ∷ []) = none
ip_port (t ∷ s ∷ rest) = some s

unfoldable pub add_known : Known → Str → Known
unfolding add_server
add_known k s =
    if elem s k.servers
    then k
    else record { servers = k.servers ++ s ∷ []; ring = add_server k.ring s }

unfoldable pub read_descriptors : (Str → List Str) → List Str → Known → Known
unfolding ip_port add_known
read_descriptors split [] k = k
read_descriptors split (d ∷ rest) k = elim (ip_port (split d)) [
  | none ↦ read_descriptors split rest k
  | some s ↦ read_descriptors split rest (add_known k s)
]

-- The callback of `updateImServerList`, and whether the listener is told.
unfoldable pub update_im_server_list :
    (Str → List Str) → ImServerMgr → ChannelsReply → ImServerMgr × Bool
unfolding read_descriptors clear
update_im_server_list split m unexpected = (m, false)
update_im_server_list split m (channels []) = (m, false)
update_im_server_list split m (channels (d ∷ rest)) =
    let k =
      read_descriptors split (d ∷ rest) (record { servers = []; ring = clear m.consistent_hash }) in
    (record m { imsvrs = k.servers; consistent_hash = k.ring }, true)

unfoldable pub starts_with : Str → Str → Bool
starts_with s [] = true
starts_with [] (y ∷ ys) = false
starts_with (x ∷ xs) (y ∷ ys) = eqb x y && starts_with xs ys

-- `s.find(t) != npos`.
unfoldable pub finds : Str → Str → Bool
unfolding starts_with
finds [] t = starts_with [] t
finds (x ∷ xs) t = starts_with (x ∷ xs) t || finds xs t

unfoldable pub any_finds : List Str → Str → Bool
unfolding finds
any_finds [] addr = false
any_finds (key ∷ keys) addr = if finds key addr then true else any_finds keys addr

unfoldable pub is_self : ImServerMgr → Str → Bool
unfolding any_finds
is_self m addr = any_finds m.reg_keys addr

unfoldable pub get_server_by_group : ImServerMgr → ℕ → Str
get_server_by_group m gid = get_server m.consistent_hash gid

unfoldable pub should_handle_group : ImServerMgr → ℕ → Bool
unfolding is_self
should_handle_group m gid =
    let addr = get_server m.consistent_hash gid in if is_empty addr then false else is_self m addr

-- `rand()` yields `r`.
unfoldable pub get_server_randomly : ImServerMgr → ℕ → Str
get_server_randomly m r = if is_empty m.imsvrs then [] else get_or m.imsvrs (r % length m.imsvrs) []
