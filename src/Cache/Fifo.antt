-- ===== src/Cache/Fifo.antt =====
-- src/dao/dao_cache/fifo_cache.h: `set` and `get`, each under its lock. `weight` is `ByteSizeLong` of a
-- value. The list of pointers `m_sequence` is the list of the keys they point to.
use bcm_server.Base.{
  Bool, Key, List, Map, Option, [], emplace, erase, false, if◌then◌else◌, is_empty, is_some, leb,
  lookup, ltb, none, some, true, ℕ, ◌++◌, ◌+◌, ◌-◌, ◌||◌, ◌∷◌, str_key, nat_key,
}

pub record FifoCache {ℓ} (K V : Type ℓ) : Type ℓ where
  pub limit : ℕ
  pub size : ℕ
  pub caches : Map K V
  pub sequence : List K

module _ {ℓ} {K V : Type ℓ} ⦃e : Key K⦄ (weight : V → ℕ) where
  unfoldable pub new_cache : ℕ → FifoCache K V
  new_cache limit = record { limit = limit; size = 0; caches = []; sequence = [] }

  cleared : FifoCache K V → FifoCache K V
  cleared s = record s { size = 0; caches = []; sequence = [] }

  -- One round of the loop takes the oldest entry `k` out; `ks` are the other keys.
  unfoldable pub take_out : K → List K → Option V → FifoCache K V → FifoCache K V
  unfolding cleared
  take_out k ks none s = cleared s
  take_out k ks (some v) s =
      if ltb s.size (weight v)
      then cleared s
      else record s { size = s.size - weight v; caches = erase k s.caches; sequence = ks }

  -- The loop, on the keys of `m_sequence`: it ends when nothing is left or `need` bytes fit.
  unfoldable pub make_room : ℕ → List K → FifoCache K V → FifoCache K V
  unfolding take_out
  make_room need [] s = s
  make_room need (k ∷ ks) s =
      let out = take_out k ks (lookup k s.caches) s in
      let rest = make_room need ks out in
      if is_empty out.sequence || leb (need + out.size) out.limit then out else rest

  unfoldable pub set_cache : K → V → FifoCache K V → Bool × FifoCache K V
  unfolding make_room
  set_cache k v s =
      let need = weight v in
      let room = if ltb s.limit (need + s.size) then make_room need s.sequence s else s in
      let put = record room {
        size = room.size + need;
        caches = emplace k v room.caches;
        sequence = room.sequence ++ k ∷ [];
      } in
      if ltb s.limit need
      then (false, s)
      else (if is_some (lookup k s.caches) then (true, s) else (true, put))

  unfoldable pub get_cache : K → FifoCache K V → Option V
  get_cache k s = lookup k s.caches
