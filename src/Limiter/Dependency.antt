-- ===== src/Limiter/Dependency.antt =====
-- src/limiters/dependency_limiter.{h,cpp}: a limiter that asks others first. `ILimiter` is a section's
-- parameter: a state, and its operations.
use bcm_server.Base.{
  Bool, List, Str, [], arith, false, if◌then◌else◌, inl, inr, refl, true, ℕ, ◌∷◌, ◌≡◌, ◌⊎◌, str_key,
  nat_key,
}
use bcm_server.Limiter.{LimitLevel, good, limited}

-- `ILimiter` over a state `S`.
pub record ILimiter (S : Type 0) : Type 0 where
  pub acquires : S → Str → ℕ → S × LimitLevel
  pub limits : S → Str → ℕ → LimitLevel

any_limited : {S : Type 0} → ILimiter S → List S → Str → ℕ → Bool
any_limited i [] id now = false
any_limited i (d ∷ ds) id now =
    let rest = any_limited i ds id now in elim (i.limits d id now) [ limited ↦ true | good ↦ rest ]

-- The dependencies are read only; the limiter is charged only when none of them is over.
pub acquire_dependent :
    {S D : Type 0} → ILimiter S → ILimiter D → S → List D → Str → ℕ → S × LimitLevel
unfolding any_limited
acquire_dependent i j s ds id now =
    if any_limited j ds id now then (s, limited) else i.acquires s id now

LimitLevel-cases : (a : LimitLevel) → (a ≡ limited) ⊎ (a ≡ good)
LimitLevel-cases limited = inl refl
LimitLevel-cases good = inr refl

pub data AnyOf {A : Type 0} (P : A → Type 0) : List A → Type 0 where
  here : {a : A} {as' : List A} → P a → AnyOf P (a ∷ as')
  there : {a : A} {as' : List A} → AnyOf P as' → AnyOf P (a ∷ as')

any_limited_sound :
    {D : Type 0} (j : ILimiter D) (ds : List D) (id : Str) (now : ℕ)
    → any_limited j ds id now ≡ true
    → AnyOf (λ d. j.limits d id now ≡ limited) ds
unfolding any_limited
any_limited_sound j [] id now h = cc
any_limited_sound j (d ∷ ds) id now h = elim (LimitLevel-cases (j.limits d id now)) [
  | inl over ↦ here over
  | inr under ↦ there (any_limited_sound j ds id now (rw (under, any_limited) at h))
]

any_limited_complete :
    {D : Type 0} (j : ILimiter D) (id : Str) (now : ℕ) (ds : List D)
    → AnyOf (λ d. j.limits d id now ≡ limited) ds
    → any_limited j ds id now ≡ true
unfolding any_limited
any_limited_complete j id now ds (here {a = d} {as' = r} over) = ground arith
any_limited_complete j id now ds (there {a = d} {as' = r} t) =
    ground (arith, any_limited_complete j id now r t)
