-- ===== src/Limiter/Slots.antt =====
-- The distributed limiter within one slot of time.
use bcm_server.Base.Int.{negsuc, pos, succ_ℤ, ℤ}
use bcm_server.Base.{
  ==_refl, Bool, Bool-cases, Str, [], arith, if◌then◌else◌, inl, inr, is_some, lookup,
  lookup-emplace, lookup-insert, or_else, refl, some, suc, true, zero, ℕ, ◌&&◌, ◌≡◌, str_key,
  nat_key,
}
use bcm_server.Limiter.{LimitRule, good, limited}
use bcm_server.Limiter.Distributed.{
  DistributedLimiter, Item, Reply, acquire_slot, incr_switch, is_slot_limited, known_over, new_item,
  over_count, redis_key, seconds, slot,
}

unfoldable pub item_of : DistributedLimiter → Str → Item
item_of l uid = or_else (lookup uid l.status) new_item

-- A count that is over stays so when it grows.
pub over_count-succ_ℤ :
    (rule : LimitRule) (count : ℤ)
    → over_count rule count ≡ true
    → over_count rule (succ_ℤ count) ≡ true
over_count-succ_ℤ rule (pos n) h = ground arith
over_count-succ_ℤ rule (negsuc zero) h = ground arith
over_count-succ_ℤ rule (negsuc (suc n)) h = ground arith

-- The local copy after a request.
module _ (decimal : ℕ → Str) (l : DistributedLimiter) (uid : Str) (now : ℕ) (r : Reply) where
  abbrev test : Bool
  test = is_some (lookup uid l.status) && known_over l.rule (item_of l uid) now

  unfoldable pub kept : Item
  kept = if test then record (item_of l uid) { count = succ_ℤ (item_of l uid).count } else record {
    time_slot = slot l.rule now;
    count = (incr_switch (redis_key decimal l uid (slot l.rule now)) (seconds l.rule) r).0;
  }

  pub acquire_slot-kept :
      (lookup uid (acquire_slot decimal l uid now r).0.status ≡ some kept)
      × ((acquire_slot decimal l uid now r).1
          ≡ (if known_over l.rule kept now then limited else good))
      × ((acquire_slot decimal l uid now r).0.rule ≡ l.rule)
  unfolding acquire_slot kept item_of
  acquire_slot-kept = elim (Bool-cases test) [
    | inl yea ↦ (
      simp (lookup-emplace, lookup-insert, ==_refl, yea) refl,
      simp (lookup-emplace, ==_refl, yea)
          (ground (arith, yea, over_count-succ_ℤ l.rule (item_of l uid).count)),
      simp (lookup-emplace, ==_refl, yea) refl,
    )
    | inr nay ↦ (
      simp (lookup-emplace, lookup-insert, ==_refl, nay) refl,
      simp (lookup-emplace, ==_refl, nay) (ground arith),
      simp (lookup-emplace, ==_refl, nay) refl,
    )
  ]

pub acquire_slot-known :
    (decimal : ℕ → Str) (l : DistributedLimiter) (uid : Str) (now : ℕ) (r : Reply) (item : Item)
    → lookup uid l.status ≡ some item
    → known_over l.rule item now ≡ true
    → ((acquire_slot decimal l uid now r).1 ≡ limited) × ((acquire_slot decimal l uid now r).2 ≡ [])
unfolding acquire_slot
acquire_slot-known decimal l uid now r item h k =
    (simp (lookup-emplace, ==_refl, h, k), simp (lookup-emplace, ==_refl, h, k))

-- Right after a request, a query within the same slot answers what the request was answered.
is_slot_limited-acquire_slot :
    (decimal : ℕ → Str) (l : DistributedLimiter) (uid : Str) (now later : ℕ) (r : Reply)
    → slot l.rule later ≡ slot l.rule now
    → is_slot_limited (acquire_slot decimal l uid now r).0 uid later
      ≡ (acquire_slot decimal l uid now r).1
unfolding is_slot_limited
is_slot_limited-acquire_slot decimal l uid now later r h =
    ground (arith, acquire_slot-kept decimal l uid now r)

-- When a request has been refused, the next one of the same user in the same slot is refused too, and no
-- command is sent for it, whatever redis would reply.
pub acquire_slot_over :
    (decimal : ℕ → Str) (l : DistributedLimiter) (uid : Str) (now later : ℕ) (r r' : Reply)
    → slot l.rule later ≡ slot l.rule now
    → (acquire_slot decimal l uid now r).1 ≡ limited
    → ((acquire_slot decimal (acquire_slot decimal l uid now r).0 uid later r').1 ≡ limited)
      × ((acquire_slot decimal (acquire_slot decimal l uid now r).0 uid later r').2 ≡ [])
acquire_slot_over decimal l uid now later r r' h e =
    let k = acquire_slot-kept decimal l uid now r in
    acquire_slot-known decimal (acquire_slot decimal l uid now r).0 uid later r'
      (kept decimal l uid now r) k.0 (ground (arith, k))
