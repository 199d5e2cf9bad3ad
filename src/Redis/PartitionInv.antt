-- ===== src/Redis/PartitionInv.antt =====
-- src/redis/online_redis_manager.cpp: every connection of a partition has the same subscriptions.
use bcm_server.Base.{
  Bool, Bool-cases, List, Map, Str, [], add_all, ap, arith, elem, elem-add, elem-add_all, elem-keys,
  elem-remove, eqb, erase, false, inl, inr, insert, is_some, keys, lookup, lookup-erase,
  lookup-insert, ltb, or_else, refl, remove, some, str_eq, subst, sym, true, ℕ, ◌∙◌, ◌∷◌, ◌≡◌,
  str_key, nat_key,
}
use bcm_server.Redis.Partition.{
  Link, RedisPartition, is_subscribed, keep_alive_channel, on_pub_connect, on_pub_disconnect,
  on_sub_connect, on_sub_disconnect, psubscribe, punsubscribe, subscribe, tell_all, unsubscribe,
}

-- A connection has been told of exactly the channels and the patterns of the partition.
abbrev pub IsTold : RedisPartition → Str → Link → Type 0
IsTold r c l =
    (elem c l.channels ≡ is_some (lookup c r.sub_chans))
    × (elem c l.patterns ≡ is_some (lookup c r.psub_chans))

abbrev pub AllTold : RedisPartition → Str → Map ℕ Link → Type 0
AllTold r c [] = Unit
AllTold r c ((p, l) ∷ links) = IsTold r c l × AllTold r c links

abbrev pub Inv : RedisPartition → Type 0
Inv r = (c : Str) → AllTold r c r.available_subs

-- What a partition may be asked to do, and what its connections do.
pub data Event : Type 0 where
  subscribes psubscribes : Str → ℕ → Event
  unsubscribes punsubscribes : Str → Event
  sub_up pub_up : ℕ → Bool → Event
  sub_down pub_down : ℕ → Event

unfoldable pub step : RedisPartition → Event → RedisPartition
step r (subscribes c h) = (subscribe r c h).0
step r (psubscribes c h) = (psubscribe r c h).0
step r (unsubscribes c) = (unsubscribe r c).0
step r (punsubscribes c) = (punsubscribe r c).0
step r (sub_up p ok) = on_sub_connect r p ok
step r (pub_up p ok) = on_pub_connect r p ok
step r (sub_down p) = on_sub_disconnect r p
step r (pub_down p) = on_pub_disconnect r p

unfoldable pub run : RedisPartition → List Event → RedisPartition
run r [] = r
run r (e ∷ es) = run (step r e) es

tell_all-AllTold :
    (r r' : RedisPartition) (c : Str) (f : Link → Link) (links : Map ℕ Link)
    → ((l : Link) → IsTold r c l → IsTold r' c (f l))
    → AllTold r c links
    → AllTold r' c (tell_all f links)
unfolding tell_all
tell_all-AllTold r r' c f [] h k = tt
tell_all-AllTold r r' c f ((p, l) ∷ links) h k = (h l k.0, tell_all-AllTold r r' c f links h k.1)

insert-AllTold :
    (r : RedisPartition) (c : Str) (p : ℕ) (l : Link) (links : Map ℕ Link)
    → IsTold r c l
    → AllTold r c links
    → AllTold r c (insert p l links)
unfolding insert
insert-AllTold r c p l [] h k = (h, tt)
insert-AllTold r c p l ((i, x) ∷ links) h k = elim (Bool-cases (eqb i p)) [
  | inl e ↦ rw e (h, k.1)
  | inr e ↦ elim (Bool-cases (ltb p i)) [
    | inl f ↦ rw (e, f) (h, k)
    | inr f ↦ rw (e, f) (k.0, insert-AllTold r c p l links h k.1)
  ]
]

erase-AllTold :
    (r : RedisPartition) (c : Str) (p : ℕ) (links : Map ℕ Link)
    → AllTold r c links
    → AllTold r c (erase p links)
unfolding erase
erase-AllTold r c p [] k = tt
erase-AllTold r c p ((i, x) ∷ links) k = elim (Bool-cases (eqb i p)) [
  | inl e ↦ rw e (erase-AllTold r c p links k.1)
  | inr e ↦ rw e (k.0, erase-AllTold r c p links k.1)
]

-- What does not touch the channels.
same_chans :
    (r r' : RedisPartition) (c : Str) (links : Map ℕ Link)
    → r'.sub_chans ≡ r.sub_chans
    → r'.psub_chans ≡ r.psub_chans
    → AllTold r c links
    → AllTold r' c links
same_chans r r' c [] e f k = tt
same_chans r r' c ((p, l) ∷ links) e f k = (rw (e, f) k.0, same_chans r r' c links e f k.1)

all_keys_of : (c : Str) (m : Map Str ℕ) → elem c (add_all (keys m) []) ≡ is_some (lookup c m)
unfolding elem
all_keys_of c m = elem-add_all c (keys m) [] ∙ ground (arith, elem-keys c m)

module _ (r : RedisPartition) (c : Str) where
  subscribe-AllTold :
      (chan : Str) (h : ℕ)
      → AllTold r c r.available_subs
      → AllTold (subscribe r chan h).0 c (subscribe r chan h).0.available_subs
  unfolding subscribe
  subscribe-AllTold chan h = tell_all-AllTold r (subscribe r chan h).0 c _ r.available_subs (λ l k.
      (ground (arith, elem-add chan c l.channels, lookup-insert chan c h r.sub_chans, k.0), k.1))

  psubscribe-AllTold :
      (chan : Str) (h : ℕ)
      → AllTold r c r.available_subs
      → AllTold (psubscribe r chan h).0 c (psubscribe r chan h).0.available_subs
  unfolding psubscribe
  psubscribe-AllTold chan h =
      tell_all-AllTold r (psubscribe r chan h).0 c _ r.available_subs (λ l k.
        (k.0, ground (arith, elem-add chan c l.patterns, lookup-insert chan c h r.psub_chans, k.1)))

  -- Outside the channel that keeps the connections alive.
  unsubscribe-AllTold :
      (chan : Str)
      → AllTold r c r.available_subs
      → AllTold (unsubscribe r chan).0 c (unsubscribe r chan).0.available_subs
  unfolding unsubscribe
  unsubscribe-AllTold chan k = elim (Bool-cases (str_eq chan keep_alive_channel)) [
    | inl e ↦ rw (e, unsubscribe) k
    | inr e ↦
        rw (e, unsubscribe)
          (tell_all-AllTold r (record r { sub_chans = erase chan r.sub_chans }) c
            (λ l. record l { channels = remove chan l.channels }) r.available_subs
            (λ l j. (
              ground (arith, elem-remove chan c l.channels, lookup-erase chan c r.sub_chans, j.0),
              j.1,
            ))
            k)
  ]

  punsubscribe-AllTold :
      (chan : Str)
      → AllTold r c r.available_subs
      → AllTold (punsubscribe r chan).0 c (punsubscribe r chan).0.available_subs
  unfolding punsubscribe
  punsubscribe-AllTold chan =
      tell_all-AllTold r (punsubscribe r chan).0 c _ r.available_subs (λ l k.
        (k.0, ground (arith, elem-remove chan c l.patterns, lookup-erase chan c r.psub_chans, k.1)))

  -- A connection that comes up is told everything.
  on_sub_connect-AllTold :
      (p : ℕ) (ok : Bool)
      → AllTold r c r.available_subs
      → AllTold (on_sub_connect r p ok) c (on_sub_connect r p ok).available_subs
  unfolding on_sub_connect
  on_sub_connect-AllTold p false k = k
  on_sub_connect-AllTold p true k =
      let fresh : Link = record {
        channels = add_all (keys r.sub_chans) [];
        patterns = add_all (keys r.psub_chans) [];
      } in
      let r' = on_sub_connect r p true in
      same_chans r r' c r'.available_subs refl refl (
        insert-AllTold r c p fresh r.available_subs
          (all_keys_of c r.sub_chans, all_keys_of c r.psub_chans) k)

step-Inv : (r : RedisPartition) (e : Event) → Inv r → Inv (step r e)
unfolding step on_pub_connect on_pub_disconnect on_sub_disconnect
step-Inv r (subscribes chan h) v c = subscribe-AllTold r c chan h (v c)
step-Inv r (psubscribes chan h) v c = psubscribe-AllTold r c chan h (v c)
step-Inv r (unsubscribes chan) v c = unsubscribe-AllTold r c chan (v c)
step-Inv r (punsubscribes chan) v c = punsubscribe-AllTold r c chan (v c)
step-Inv r (sub_up p ok) v c = on_sub_connect-AllTold r c p ok (v c)
step-Inv r (pub_up p true) v c =
    same_chans r (on_pub_connect r p true) c r.available_subs refl refl (v c)
step-Inv r (pub_up p false) v c = v c
step-Inv r (sub_down p) v c =
    same_chans r (on_sub_disconnect r p) c (erase p r.available_subs) refl refl
      (erase-AllTold r c p r.available_subs (v c))
step-Inv r (pub_down p) v c =
    same_chans r (on_pub_disconnect r p) c r.available_subs refl refl (v c)

run-Inv : (r : RedisPartition) (es : List Event) → Inv r → Inv (run r es)
unfolding run
run-Inv r [] v = v
run-Inv r (e ∷ es) v = run-Inv (step r e) es (step-Inv r e v)

IsTold-link :
    (r : RedisPartition) (c : Str) (p : ℕ) (l : Link) (links : Map ℕ Link)
    → AllTold r c links
    → lookup p links ≡ some l
    → IsTold r c l
unfolding lookup
IsTold-link r c p l [] k e = cc
IsTold-link r c p l ((i, x) ∷ links) k e = elim (Bool-cases (eqb i p)) [
  | inl f ↦ subst (IsTold r c) (ap (λ o. or_else o x) (rw f at e)) k.0
  | inr f ↦ IsTold-link r c p l links k.1 (rw f at e)
]

-- From a partition with no connections, after any operations and any connections that came up, went down
-- and came up again, in any order: a connection that is up has been told of exactly those channels that
-- the partition says are subscribed, and of exactly the patterns that are.
pub run_told :
    (r : RedisPartition) (es : List Event) (p : ℕ) (l : Link) (c : Str)
    → r.available_subs ≡ []
    → lookup p (run r es).available_subs ≡ some l
    → (elem c l.channels ≡ is_subscribed (run r es) c)
      × (elem c l.patterns ≡ is_some (lookup c (run r es).psub_chans))
unfolding is_subscribed
run_told r es p l c e up =
    IsTold-link (run r es) c p l (run r es).available_subs
      (run-Inv r es (λ d. subst (AllTold r d) (sym e) tt) c) up
