-- ===== src/Utils/Tests.antt =====
-- The ring of consistent hashing at concrete inputs.
use bcm_server.Base.{[], arith, codes, insert, refl, some, ◌∷◌, ◌≡◌, ◌⊎◌, str_key, nat_key}
use bcm_server.Utils.Fnv.{fnv_hash, fnv_hash_u64}
use bcm_server.Utils.Ring.{
  Ring, add_server, get_server, get_server_by_key, remove_buffer, remove_server,
}
use bcm_server.Utils.RingMoves.{get_server-add_server, get_server-remove_server}

fnv_of_nothing : fnv_hash [] ≡ 1493338014
unfolding fnv_hash
fnv_of_nothing = refl

fnv_of_a : fnv_hash (codes "a") ≡ 3645546703
unfolding fnv_hash
fnv_of_a = refl

abbrev one_server : Ring
one_server = record { number_of_replicas = 3; server_circle = (5, codes "b:1") ∷ [] }

get_server-add_server_example :
    ((get_server (add_server one_server (codes "a:1")) 77 ≡ codes "a:1")
      ⊎ (get_server (add_server one_server (codes "a:1")) 77 ≡ get_server one_server 77))
    × ((get_server_by_key (add_server one_server (codes "a:1")) (codes "u") ≡ codes "a:1")
        ⊎ (get_server_by_key (add_server one_server (codes "a:1")) (codes "u")
            ≡ get_server_by_key one_server (codes "u")))
get_server-add_server_example = get_server-add_server one_server (codes "a:1") 77 (codes "u")

-- Two servers, of which one has a point at the hash of group 77 and the other three replicas.
abbrev two_servers : Ring
two_servers =
    add_server (record one_server { server_circle = (fnv_hash_u64 77, codes "b:1") ∷ [] })
      (codes "a:1")

a_is_there : get_server two_servers 5 ≡ codes "a:1"
unfolding get_server fnv_hash fnv_hash_u64 add_server insert
a_is_there = refl

get_server-remove_server_example :
    (r' : Ring) × (remove_server two_servers (codes "a:1") ≡ some r')
    × (get_server r' 77 ≡ get_server two_servers 77)
unfolding get_server fnv_hash fnv_hash_u64 remove_buffer add_server insert
get_server-remove_server_example =
    get_server-remove_server two_servers (codes "a:1") 77 (omega arith)
      (
        (refl, (refl, (refl, (refl, tt)))),
        ((refl, (refl, (refl, (refl, tt)))), ((refl, (refl, (refl, (refl, tt)))), tt)),
      )
      refl
