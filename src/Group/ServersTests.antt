-- ===== src/Group/ServersTests.antt =====
-- Two servers that read the same list.
use bcm_server.Base.{
  List, Str, [], arith, codes, elem, eqb, if◌then◌else◌, refl, str_eq, true, ◌++◌, ◌∷◌, ◌≡◌,
  str_key, nat_key,
}
use bcm_server.Group.Servers.{
  ChannelsReply, add_known, add_reg_key, any_finds, channels, finds, get_server_by_group,
  get_server_randomly, ip_port, is_self, read_descriptors, should_handle_group, starts_with,
  unexpected, update_im_server_list,
}
use bcm_server.Group.ServersKnown.{
  Event, Sound, get_server_by_group-elem, new_manager, reg_key, reply, run, step,
}
use bcm_server.Group.ServersAgree.{should_handle_group-get_server_by_group}

-- The parts of a text between its underscores.
unfoldable underscores_from : Str → Str → List Str
underscores_from [] part = part ∷ []
underscores_from (c ∷ s) part =
    let closed = part ∷ underscores_from s [] in
    let open_part = underscores_from s (part ++ c ∷ []) in if eqb c 95 then closed else open_part

abbrev underscores : Str → List Str
underscores s = underscores_from s []

abbrev two_servers : ChannelsReply
two_servers = channels (codes "imserver_a:1" ∷ codes "imserver_b:1" ∷ codes "imserver_a:1" ∷ [])

abbrev first_events : List Event
first_events = reg_key (codes "imserver_a:1") ∷ reply two_servers ∷ []

abbrev second_events : List Event
second_events =
    reply (channels (codes "imserver_c:1" ∷ codes "other" ∷ []))
    ∷ reply unexpected
    ∷ reply two_servers
    ∷ []

two_servers_known :
    (run underscores (new_manager 2) first_events).imsvrs ≡ codes "a:1" ∷ codes "b:1" ∷ []
unfolding run step new_manager add_reg_key update_im_server_list read_descriptors ip_port add_known
    elem underscores_from
two_servers_known = refl

-- A server at port 80 takes the groups of this one at port 8080 for its own ones.
short_port :
    is_self
      (record {
        imsvrs = [];
        consistent_hash = record { number_of_replicas = 1; server_circle = [] };
        reg_keys = codes "imserver_h:8080" ∷ [];
      })
      (codes "h:80")
    ≡ true
unfolding is_self any_finds finds starts_with
short_port = refl

get_server_by_group-elem_example :
    Sound 2
      (run underscores (new_manager 2) first_events).imsvrs
      (run underscores (new_manager 2) first_events).consistent_hash
    × (elem
          (get_server_by_group (run underscores (new_manager 2) first_events) 5)
          (run underscores (new_manager 2) first_events).imsvrs
        ≡ true)
    × (elem
          (get_server_randomly (run underscores (new_manager 2) first_events) 9)
          (run underscores (new_manager 2) first_events).imsvrs
        ≡ true)
unfolding run step new_manager add_reg_key update_im_server_list read_descriptors ip_port add_known
    elem underscores_from
get_server_by_group-elem_example =
    get_server_by_group-elem underscores 2 first_events 5 9 (omega arith) refl

should_handle_group-get_server_by_group_example :
    (get_server_by_group (run underscores (new_manager 2) first_events) 5
      ≡ get_server_by_group (run underscores (new_manager 2) second_events) 5)
    × (should_handle_group (run underscores (new_manager 2) first_events) 5
        ≡ str_eq
            (get_server_by_group (run underscores (new_manager 2) second_events) 5)
            (codes "a:1"))
unfolding run step new_manager add_reg_key update_im_server_list read_descriptors ip_port add_known
    elem underscores_from is_self any_finds finds starts_with
should_handle_group-get_server_by_group_example =
    should_handle_group-get_server_by_group underscores 2 first_events second_events (codes "a:1") 5
      (omega arith) refl refl refl (refl, (refl, tt))
