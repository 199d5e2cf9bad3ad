-- ===== src/Redis/Partition.antt =====
-- src/redis/online_redis_manager.cpp: RedisPartition, whose connections are known by their priorities.
-- Handlers are numbers; of the connections for publications only the priorities are kept. The two locks of an operation are taken one after the other; each operation is
-- one step here.
use bcm_server.Base.{
  Bool, List, Map, Option, Str, [], add, add_all, codes, erase, false, if◌then◌else◌, insert,
  is_empty, is_some, keys, lookup, none, not, remove, some, str_eq, true, ℕ, ◌∷◌, str_key, nat_key,
}

-- A connection that is up, with the channels and patterns that it was told to subscribe since.
pub record Link : Type 0 where
  pub channels : List Str
  pub patterns : List Str

pub record RedisPartition : Type 0 where
  pub sub_chans : Map Str ℕ
  pub psub_chans : Map Str ℕ
  pub available_subs : Map ℕ Link
  pub available_pubs : List ℕ

abbrev pub keep_alive_channel : Str
keep_alive_channel = codes "onlineRedis:keepAlive"

-- A command to every connection that is up.
unfoldable pub tell_all : (Link → Link) → Map ℕ Link → Map ℕ Link
tell_all f [] = []
tell_all f ((p, l) ∷ rest) = (p, f l) ∷ tell_all f rest

unfoldable pub subscribe : RedisPartition → Str → ℕ → RedisPartition × Bool
unfolding tell_all
subscribe r chan handler = (
  record r {
    sub_chans = insert chan handler r.sub_chans;
    available_subs = tell_all (λ l. record l { channels = add chan l.channels }) r.available_subs;
  },
  not (is_empty r.available_subs),
)

unfoldable pub psubscribe : RedisPartition → Str → ℕ → RedisPartition × Bool
unfolding tell_all
psubscribe r chan handler = (
  record r {
    psub_chans = insert chan handler r.psub_chans;
    available_subs = tell_all (λ l. record l { patterns = add chan l.patterns }) r.available_subs;
  },
  not (is_empty r.available_subs),
)

unfoldable pub unsubscribe : RedisPartition → Str → RedisPartition × Bool
unfolding tell_all
unsubscribe r chan = if str_eq chan keep_alive_channel then (r, true) else (
  record r {
    sub_chans = erase chan r.sub_chans;
    available_subs =
        tell_all (λ l. record l { channels = remove chan l.channels }) r.available_subs;
  },
  not (is_empty r.available_subs),
)

unfoldable pub punsubscribe : RedisPartition → Str → RedisPartition × Bool
unfolding tell_all
punsubscribe r chan = (
  record r {
    psub_chans = erase chan r.psub_chans;
    available_subs =
        tell_all (λ l. record l { patterns = remove chan l.patterns }) r.available_subs;
  },
  not (is_empty r.available_subs),
)

unfoldable pub is_subscribed : RedisPartition → Str → Bool
is_subscribed r chan = is_some (lookup chan r.sub_chans)

-- A connection comes up, at the start or again: it is told all channels and patterns.
unfoldable pub on_sub_connect : RedisPartition → ℕ → Bool → RedisPartition
on_sub_connect r priority ok =
    let fresh : Link = record {
      channels = add_all (keys r.sub_chans) [];
      patterns = add_all (keys r.psub_chans) [];
    } in
    if ok then record r { available_subs = insert priority fresh r.available_subs } else r

unfoldable pub on_sub_disconnect : RedisPartition → ℕ → RedisPartition
on_sub_disconnect r priority = record r { available_subs = erase priority r.available_subs }

unfoldable pub on_pub_connect : RedisPartition → ℕ → Bool → RedisPartition
on_pub_connect r priority ok =
    if ok then record r { available_pubs = add priority r.available_pubs } else r

unfoldable pub on_pub_disconnect : RedisPartition → ℕ → RedisPartition
on_pub_disconnect r priority = record r { available_pubs = remove priority r.available_pubs }

-- The first connection in the order of the priorities, which `tryPublish` takes.
unfoldable pub publisher : List ℕ → Option ℕ
publisher [] = none
publisher (p ∷ rest) = some p

-- `Reply`, as far as a publication reads it: an integer, which is no negative one, or something else.
pub data Reply : Type 0 where
  integer : ℕ → Reply
  other : Reply

-- What is passed to the handler of a publication: a status that is REDIS_OK or not, and the reply.
pub data Answer : Type 0 where
  answer : Bool → Reply → Answer

-- `tryPublish`, where redis comes back with `status` and `reply`: the connection that is taken, what the
-- handler is called with, if it is called, and the result.
unfoldable pub try_publish : RedisPartition → Bool → Reply → Option ℕ × Option Answer × Bool
unfolding publisher
try_publish r status reply = elim (publisher r.available_pubs) [
  | none ↦ (none, some (answer false other), false)
  | some p ↦ (some p, if status then some (answer true reply) else none, true)
]
