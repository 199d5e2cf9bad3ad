-- ===== src/Utils/Ring.antt =====
-- src/utils/consistent_hash.h: UserConsistentFnvHash. Its lock makes every operation one step.
use bcm_server.Base.{
  Map, Option, Str, [], eqb, erase, if◌then◌else◌, insert, leb, length, min, none, or_else, some,
  suc, zero, ℕ, ◌&&◌, ◌++◌, ◌+◌, ◌||◌, ◌∷◌, str_key, nat_key,
}
use bcm_server.Utils.Fnv.{fnv_hash, fnv_hash_u64, little_endian}

pub record Ring : Type 0 where
  pub number_of_replicas : ℕ
  pub server_circle : Map ℕ Str

-- What `%s` copies of a text: up to its first byte 0.
unfoldable pub until_nul : Str → Str
until_nul [] = []
until_nul (c ∷ s) = if eqb c 0 then [] else c ∷ until_nul s

unfoldable pub take : ℕ → Str → Str
take zero s = []
take (suc n) [] = []
take (suc n) (c ∷ s) = c ∷ take n s

unfoldable pub drop : ℕ → Str → Str
drop zero s = s
drop (suc n) [] = []
drop (suc n) (c ∷ s) = drop n s

-- `size` bytes, with zeros behind the text.
unfoldable pub padded : ℕ → Str → Str
padded zero s = []
padded (suc n) [] = 0 ∷ padded n []
padded (suc n) (c ∷ s) = c ∷ padded n s

-- `memcpy(buffer + at, &i, sizeof(i))`.
unfoldable pub write_index : Str → ℕ → ℕ → Str
unfolding take drop
write_index buffer at i = take at buffer ++ (little_endian 4 i ++ drop (at + 4) buffer)

-- The buffer of 50 bytes that `AddServer` hashes for a replica.
unfoldable pub add_buffer : Str → ℕ → Str
unfolding until_nul padded write_index
add_buffer server i =
    write_index (padded 50 (take 49 (until_nul server))) (min (length server) 46) i

-- The replicas from `i` on, of which there are `n`.
unfoldable pub add_replicas : ℕ → ℕ → Str → Map ℕ Str → Map ℕ Str
unfolding add_buffer
add_replicas zero i server circle = circle
add_replicas (suc n) i server circle =
    add_replicas n (i + 1) server (insert (fnv_hash (add_buffer server i)) server circle)

unfoldable pub add_server : Ring → Str → Ring
unfolding add_replicas
add_server r server = record r {
  server_circle = add_replicas r.number_of_replicas 0 server r.server_circle;
}

-- The buffer of `RemoveServer`, which is written past its end by a name of more than 46 bytes.
unfoldable pub remove_buffer : Str → ℕ → Str
unfolding padded write_index
remove_buffer server i = write_index (padded 50 server) (length server) i

unfoldable pub remove_replicas : ℕ → ℕ → Str → Map ℕ Str → Map ℕ Str
unfolding remove_buffer
remove_replicas zero i server circle = circle
remove_replicas (suc n) i server circle =
    remove_replicas n (i + 1) server (erase (fnv_hash (remove_buffer server i)) circle)

-- `none` is the overrun of the buffer, after which nothing is defined.
unfoldable pub remove_server : Ring → Str → Option Ring
unfolding remove_replicas
remove_server r server =
    if leb (length server) 46 || eqb r.number_of_replicas 0 && leb (length server) 50
    then some
        (record r { server_circle = remove_replicas r.number_of_replicas 0 server r.server_circle })
    else none

-- `lower_bound`: the first entry whose key is not below.
unfoldable pub lower_bound : ℕ → Map ℕ Str → Option Str
lower_bound h [] = none
lower_bound h ((k, s) ∷ rest) = if leb h k then some s else lower_bound h rest

unfoldable pub first : Map ℕ Str → Option Str
first [] = none
first ((k, s) ∷ rest) = some s

-- The server of a hash: an empty text when there is none.
unfoldable pub server_of : ℕ → Map ℕ Str → Str
unfolding lower_bound first
server_of h circle = elim (lower_bound h circle) [ some s ↦ s | none ↦ or_else (first circle) [] ]

unfoldable pub get_server : Ring → ℕ → Str
unfolding server_of
get_server r group_id = server_of (fnv_hash_u64 group_id) r.server_circle

unfoldable pub get_server_by_key : Ring → Str → Str
unfolding server_of
get_server_by_key r key = server_of (fnv_hash key) r.server_circle

unfoldable pub clear : Ring → Ring
clear r = record r { server_circle = [] }
