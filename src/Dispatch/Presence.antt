-- ===== src/Dispatch/Presence.antt =====
-- src/dispatcher/dispatch_manager.cpp: the listeners, redis and the table of channels agree.
use bcm_server.Base.{
  Bool, List, Option, Option-cases, [], arith, elem, eqb, erase, false, if◌then◌else◌, inl, inr,
  is_some, lookup, lookup-erase, map, none, or_else, refl, some, true, ℕ, ◌&&◌, ◌++◌, ◌==◌, ◌∙◌,
  ◌∷◌, ◌≡◌, str_key, nat_key,
}
use bcm_server.Dispatch.Address.{DispatchAddress, address_key}
use bcm_server.Dispatch.Channel.{Action, Channel}
use bcm_server.Dispatch.Manager.{
  Call, DispatchManager, acts, delete_badge, on_channel, on_user_status_change, publish,
  publish_online, subscribes, unsubscribes, user_offline, user_online,
}
use bcm_server.Dispatch.Channel.{Action, Channel}

-- What a listener was told last of an address, or what redis was asked last for it; `b` stands for
-- what came before.
unfoldable pub last : (Call → Option Bool) → Bool → List Call → Bool
last g b [] = b
last g b (c ∷ cs) = last g (or_else (g c) b) cs

unfoldable pub notice : ℕ → DispatchAddress → Call → Option Bool
notice l a (user_online k b) = if eqb k l && b == a then some true else none
notice l a (user_offline k b) = if eqb k l && b == a then some false else none
notice l a (publish b s) = none
notice l a (publish_online b s) = none
notice l a (delete_badge u) = none
notice l a (subscribes b) = none
notice l a (unsubscribes b) = none
notice l a (acts d x) = none

unfoldable pub request : DispatchAddress → Call → Option Bool
request a (subscribes b) = if b == a then some true else none
request a (unsubscribes b) = if b == a then some false else none
request a (user_online k b) = none
request a (user_offline k b) = none
request a (publish b s) = none
request a (publish_online b s) = none
request a (delete_badge u) = none
request a (acts d x) = none

unfoldable pub present : DispatchAddress → DispatchManager → Bool
present a m = is_some (lookup a m.dispatchers)

pub last-append :
    (g : Call → Option Bool) (b : Bool) (xs ys : List Call)
    → last g b (xs ++ ys) ≡ last g (last g b xs) ys
unfolding last
last-append g b [] ys = refl
last-append g b (x ∷ xs) ys = last-append g (or_else (g x) b) xs ys

-- What a channel asks for is no notice.
pub last-acts :
    (g : Call → Option Bool) (b : Bool) (d : ℕ) (xs : List Action)
    → ((x : Action) → g (acts d x) ≡ none)
    → last g b (map (acts d) xs) ≡ b
unfolding last
last-acts g b d [] h = refl
last-acts g b d (x ∷ xs) h = rw (h x, last) (last-acts g b d xs h)

module _ (m : DispatchManager) (d : ℕ) (f : Channel → Channel × List Action) where
  pub on_channel-dispatchers : (on_channel m d f).0.dispatchers ≡ m.dispatchers
  unfolding on_channel
  on_channel-dispatchers = ground arith

  pub on_channel-listeners : (on_channel m d f).0.listeners ≡ m.listeners
  unfolding on_channel
  on_channel-listeners = ground arith

  pub last-on_channel :
      (g : Call → Option Bool) (b : Bool)
      → ((k : ℕ) (x : Action) → g (acts k x) ≡ none)
      → last g b (on_channel m d f).1 ≡ b
  unfolding on_channel last
  last-on_channel g b h = elim (Option-cases (lookup d m.objects)) [
    | inl e ↦ rw (e, on_channel) refl
    | inr (c, e) ↦ rw (e, on_channel) (last-acts g b d (f c).1 (h d))
  ]

module _ (l : ℕ) (a a' : DispatchAddress) where
  notice_change :
      (online : Bool) (k : ℕ)
      → notice l a' (if online then user_online k a else user_offline k a)
        ≡ (if eqb k l && a == a' then some online else none)
  unfolding notice
  notice_change true k = refl
  notice_change false k = refl

  pub told_all :
      (online b : Bool) (ls : List ℕ)
      → last (notice l a') b (map (λ k. if online then user_online k a else user_offline k a) ls)
        ≡ (if elem l ls && a == a' then online else b)
  unfolding last elem
  told_all online b [] = refl
  told_all online b (k ∷ ls) =
      let c : Bool =
        or_else (notice l a' (if online then user_online k a else user_offline k a)) b in
      told_all online c ls ∙ ground (arith, notice_change online k)

  pub asked_none :
      (online b : Bool) (ls : List ℕ)
      → last (request a') b (map (λ k. if online then user_online k a else user_offline k a) ls) ≡ b
  unfolding last request
  asked_none online b [] = refl
  asked_none true b (k ∷ ls) = asked_none true b ls
  asked_none false b (k ∷ ls) = asked_none false b ls

-- The calls and the table after an operation agree for an address, if they did before.
abbrev pub Told : ℕ → DispatchAddress → DispatchManager → DispatchManager × List Call → Type 0
Told l a m r = last (notice l a) (present a m) r.1 ≡ present a r.0

abbrev pub Asked : DispatchAddress → DispatchManager → DispatchManager × List Call → Type 0
Asked a m r = last (request a) (present a m) r.1 ≡ present a r.0

pub notice-acts : (l : ℕ) (a : DispatchAddress) (k : ℕ) (x : Action) → notice l a (acts k x) ≡ none
unfolding notice
notice-acts l a k x = refl

pub request-acts : (a : DispatchAddress) (k : ℕ) (x : Action) → request a (acts k x) ≡ none
unfolding request
request-acts a k x = refl

-- Only the table matters.
pub present-of :
    (a : DispatchAddress) (m m' : DispatchManager)
    → m'.dispatchers ≡ m.dispatchers
    → present a m' ≡ present a m
unfolding present
present-of a m m' e = rw e refl

-- An address whose channel has been taken out of the table, as `unsubscribe` and `kick` go on.
abbrev pub taken : DispatchManager → DispatchAddress → DispatchManager
taken m a = record m { dispatchers = erase a m.dispatchers }

abbrev pub dismissed : DispatchAddress → DispatchManager × List Call → DispatchManager × List Call
dismissed a r = (r.0, unsubscribes a ∷ (r.1 ++ on_user_status_change r.0 a false))

present-taken :
    (a a' : DispatchAddress) (m : DispatchManager)
    → present a' (taken m a) ≡ (if a == a' then false else present a' m)
unfolding present
present-taken a a' m = ground (arith, lookup-erase a a' m.dispatchers)

module _ (l : ℕ) (a a' : DispatchAddress) (m : DispatchManager) (d : ℕ)
    (f : Channel → Channel × List Action) where
  pub dismissed-Told :
      elem l m.listeners ≡ true → Told l a' m (dismissed a (on_channel (taken m a) d f))
  unfolding last notice on_user_status_change
  dismissed-Told here =
      let r = on_channel (taken m a) d f in
      let b = present a' m in
      last-append (notice l a') b r.1 (on_user_status_change r.0 a false)
      ∙ told_all l a a' false (last (notice l a') b r.1) r.0.listeners
      ∙ ground (
        arith,
        on_channel-listeners (taken m a) d f,
        here,
        last-on_channel (taken m a) d f (notice l a') b (notice-acts l a'),
        present-of a' (taken m a) r.0 (on_channel-dispatchers (taken m a) d f),
        present-taken a a' m,
      )

  pub dismissed-Asked : Asked a' m (dismissed a (on_channel (taken m a) d f))
  unfolding last request on_user_status_change
  dismissed-Asked =
      let r = on_channel (taken m a) d f in
      let b = or_else (if a == a' then some false else none) (present a' m) in
      last-append (request a') b r.1 (on_user_status_change r.0 a false)
      ∙ asked_none l a a' false (last (request a') b r.1) r.0.listeners
      ∙ ground (
        arith,
        last-on_channel (taken m a) d f (request a') b (request-acts a'),
        present-of a' (taken m a) r.0 (on_channel-dispatchers (taken m a) d f),
        present-taken a a' m,
      )
