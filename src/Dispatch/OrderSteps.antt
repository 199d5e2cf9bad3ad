-- ===== src/Dispatch/OrderSteps.antt =====
-- src/dispatcher/dispatch_manager.cpp: the operations on other addresses leave the channel of one alone.
use bcm_server.Base.{
  Bool-cases, List, Map, Option-cases, Str, [], ap, arith, eqb, eqb_iff, erase, false, inl, inr,
  insert, lookup, lookup-erase, lookup-insert, refl, some, true, ℕ, ◌++◌, ◌==◌, ◌∙◌, ◌≡◌, str_key,
  nat_key,
}
use mathlib.Core.List.{append-nil}
use bcm_server.Dispatch.Address.{DispatchAddress, address_key, address_key}
use bcm_server.Dispatch.Channel.{Action, Channel}
use bcm_server.Dispatch.Manager.{Call, DispatchManager, on_channel, on_user_status_change}
use bcm_server.Dispatch.Presence.{dismissed, taken}
use bcm_server.Dispatch.Order.{
  Serves, is_open, pending, puts, puts-acts_ne, puts-append, puts-change, texts,
}

-- After an operation the channel serves the address, and what it has put to its connection, with what
-- still waits, is what waited before with what was added.
abbrev pub Keeps :
    DispatchAddress → ℕ → DispatchManager → List Str → DispatchManager × List Call → Type 0
Keeps a d m added r =
    Serves a d r.0 × (puts d r.1 ++ texts a (pending r.0) ≡ texts a (pending m) ++ added)

module _ (a : DispatchAddress) (d : ℕ) where
  -- A change of the objects only.
  pub same_channel :
      (m : DispatchManager) (X : Map ℕ Channel)
      → is_open (lookup d X) ≡ true
      → Serves a d m
      → Serves a d (record m { objects = X })
  same_channel m X e v = record { has = v.has; sole = v.sole; opened = e; plain = v.plain }

  -- A change of the table at another address.
  pub same_table :
      (m : DispatchManager) (t : Map DispatchAddress ℕ)
      → lookup a t ≡ lookup a m.dispatchers
      → ((b : DispatchAddress) → lookup b t ≡ some d → lookup b m.dispatchers ≡ some d)
      → Serves a d m
      → Serves a d (record m { dispatchers = t })
  same_table m t e h v = record {
    has = e ∙ v.has;
    sole = λ b p. v.sole b (h b p);
    opened = v.opened;
    plain = v.plain;
  }

  pub erase-Serves :
      (m : DispatchManager) (b : DispatchAddress)
      → (a == b) ≡ false
      → Serves a d m
      → Serves a d (taken m b)
  erase-Serves m b n v =
      same_table m (erase b m.dispatchers)
        (lookup-erase b a m.dispatchers
          ∙ ground (arith, address_key.beq_iff a b, address_key.beq_iff b a, n))
        (λ c p. ground (arith, lookup-erase b c m.dispatchers, p)) v

  pub insert-Serves :
      (m : DispatchManager) (b : DispatchAddress) (k : ℕ)
      → (a == b) ≡ false
      → eqb k d ≡ false
      → Serves a d m
      → Serves a d (record m { dispatchers = insert b k m.dispatchers })
  insert-Serves m b k n o v =
      same_table m (insert b k m.dispatchers)
        (lookup-insert b a k m.dispatchers
          ∙ ground (arith, address_key.beq_iff a b, address_key.beq_iff b a, n))
        (λ c p. ground (arith, lookup-insert b c k m.dispatchers, p, o)) v

  -- The channel of another address is another channel.
  pub other_channel :
      (m : DispatchManager) (b : DispatchAddress) (k : ℕ)
      → (a == b) ≡ false
      → lookup b m.dispatchers ≡ some k
      → Serves a d m
      → eqb k d ≡ false
  other_channel m b k n e v = elim (Bool-cases (eqb k d)) [
    | inr o ↦ o
    | inl s ↦ absurd (ground (arith, v.sole b (e ∙ ap some ((eqb_iff k d).0 s)), n))
  ]

  -- An operation of another channel.
  pub on_channel-Serves :
      (m : DispatchManager) (k : ℕ) (f : Channel → Channel × List Action)
      → eqb k d ≡ false
      → Serves a d m
      → Serves a d (on_channel m k f).0
        × (puts d (on_channel m k f).1 ≡ [])
        × (pending (on_channel m k f).0 ≡ pending m)
  unfolding on_channel puts
  on_channel-Serves m k f n v = elim (Option-cases (lookup k m.objects)) [
    | inl e ↦ rw (e, on_channel) (v, refl, refl)
    | inr (c, e) ↦
        rw (e, on_channel)
          (
            same_channel m (insert k (f c).0 m.objects)
                (ap is_open {y = lookup d m.objects}
                    (lookup-insert k d (f c).0 m.objects ∙ rw n refl)
                  ∙ v.opened)
                v,
            puts-acts_ne d k (f c).1 n,
            refl,
          )
  ]

  pub dismissed-Keeps :
      (m : DispatchManager) (b : DispatchAddress) (k : ℕ) (f : Channel → Channel × List Action)
      → (a == b) ≡ false
      → lookup b m.dispatchers ≡ some k
      → Serves a d m
      → Keeps a d m [] (dismissed b (on_channel (taken m b) k f))
  unfolding puts on_user_status_change
  dismissed-Keeps m b k f n e v =
      let r = on_channel (taken m b) k f in
      let u =
        on_channel-Serves (taken m b) k f (other_channel m b k n e v) (erase-Serves m b n v) in
      (
        u.0,
        rw
            (
              puts-append d r.1 (on_user_status_change r.0 b false),
              u.1,
              puts-change d b false r.0.listeners,
              u.2,
              append-nil,
            )
            refl,
      )
