-- ===== src/Limiter/ApiFollow.antt =====
-- The rules of the API limiter after reloads of the configuration.
use bcm_server.Base.{
  Bool-cases, IsMap, List, Map, Option, Str, [], add, ap, arith, elem, elem-add, emplace-IsMap,
  erase, false, if◌then◌else◌, inl, inr, insert, is_empty, is_some, lookup, lookup-emplace,
  lookup-erase, lookup-insert, none, not, refl, some, str_eq, str_eq_iff, subst, ◌&&◌, ◌++◌, ◌||◌,
  ◌∙◌, ◌∷◌, ◌≡◌, str_key,
}
use bcm_server.Limiter.Follow.{same_rule→eq}
use bcm_server.Limiter.Configuration.{elem-gone, gone}
use bcm_server.Limiter.{LimitRule, UpdateEvent}
use bcm_server.Limiter.ApiQps.{
  ApiQpsLimiter, api_qps_rule_key_prefix, assign_all, changed, default_api_qps_rule_key, differs,
  erase_all, put_changed, put_removed, removed, rule_name, strip, update_api,
}

strip-append : (p s : Str) → strip p (p ++ s) ≡ some s
unfolding strip
strip-append [] s = refl
strip-append (x ∷ p) s = ground (arith, strip-append p s)

strip-some : (p s r : Str) → strip p s ≡ some r → s ≡ p ++ r
unfolding strip
strip-some [] s r h = ground arith
strip-some (x ∷ p) [] r h = cc
strip-some (x ∷ p) (y ∷ s) r h = ground (arith, strip-some p s r)

abbrev first : Option LimitRule → Option LimitRule → Option LimitRule
first none b = b
first (some a) b = some a

-- What a loaded rule changes at a name.
pub news : Option LimitRule → Option LimitRule → Option LimitRule
news old none = none
news old (some r) = if differs old r then some r else none

pub key_of : Str → Str
key_of n = api_qps_rule_key_prefix ++ n

put_changed_self :
    (rules : Map Str LimitRule) (n : Str) (r : LimitRule) (out : Map Str LimitRule)
    → lookup n (put_changed rules (some n) r out)
      ≡ first (lookup n out) (news (lookup n rules) (some r))
unfolding put_changed news
put_changed_self rules n r out = ground (arith, lookup-emplace n n r out, str_eq_iff n n)

put_changed_other :
    (rules : Map Str LimitRule) (n name : Str) (r : LimitRule) (out : Map Str LimitRule)
    → str_eq name n ≡ false
    → lookup n (put_changed rules (some name) r out) ≡ lookup n out
unfolding put_changed
put_changed_other rules n name r out h = ground (arith, lookup-emplace name n r out)

lookup-assign_all :
    (n : Str) (cs rules : Map Str LimitRule)
    → IsMap cs
    → lookup n (assign_all cs rules) ≡ first (lookup n cs) (lookup n rules)
unfolding assign_all lookup
lookup-assign_all n [] rules h = refl
lookup-assign_all n ((k, r) ∷ cs) rules h = ground (
  arith,
  lookup-assign_all n cs (insert k r rules) h.1,
  lookup-insert k n r rules,
  str_eq_iff k n,
)

lookup-erase_all :
    (n : Str) (ks : List Str) (rules : Map Str LimitRule)
    → lookup n (erase_all ks rules) ≡ (if elem n ks then none else lookup n rules)
unfolding erase_all elem
lookup-erase_all n [] rules = refl
lookup-erase_all n (k ∷ ks) rules =
    ground (arith, lookup-erase_all n ks (erase k rules), lookup-erase k n rules)

rule_name-key_of : (n : Str) → rule_name (key_of n) ≡ some n
unfolding rule_name key_of
rule_name-key_of n = strip-append api_qps_rule_key_prefix n

rule_name-some :
    (k n : Str) → rule_name k ≡ some n → str_eq default_api_qps_rule_key n ≡ false → k ≡ key_of n
unfolding rule_name key_of
rule_name-some k n h d = elim (Bool-cases (str_eq k default_api_qps_rule_key)) [
  | inl yea ↦ ground (arith, str_eq_iff default_api_qps_rule_key n)
  | inr nay ↦ strip-some api_qps_rule_key_prefix k n (rw nay at h)
]

put_changed-IsMap :
    (rules : Map Str LimitRule) (o : Option Str) (r : LimitRule) (out : Map Str LimitRule)
    → IsMap out
    → IsMap (put_changed rules o r out)
unfolding put_changed
put_changed-IsMap rules none r out h = h
put_changed-IsMap rules (some name) r out h = elim (Bool-cases (differs (lookup name rules) r)) [
  | inl yea ↦ rw yea (emplace-IsMap name r out h)
  | inr nay ↦ rw nay h
]

changed-IsMap : (rules cs out : Map Str LimitRule) → IsMap out → IsMap (changed rules cs out)
unfolding changed
changed-IsMap rules [] out h = h
changed-IsMap rules ((k, r) ∷ cs) out h =
    changed-IsMap rules cs (put_changed rules (rule_name k) r out)
      (put_changed-IsMap rules (rule_name k) r out h)

-- One round writes at `n` exactly when the key is the one of `n`.
round_other :
    (rules : Map Str LimitRule) (n : Str) (o : Option Str) (r : LimitRule) (out : Map Str LimitRule)
    → (o ≡ some n → ⊥)
    → lookup n (put_changed rules o r out) ≡ lookup n out
unfolding put_changed
round_other rules n none r out d = refl
round_other rules n (some name) r out d = elim (Bool-cases (str_eq name n)) [
  | inl yea ↦ absurd (d (ap some ((str_eq_iff name n).0 yea)))
  | inr nay ↦ put_changed_other rules n name r out nay
]

not_named :
    (k n : Str)
    → str_eq default_api_qps_rule_key n ≡ false
    → rule_name k ≡ some n
    → str_eq k (key_of n) ≡ false
    → ⊥
not_named k n d e nay = ground (arith, rule_name-some k n e d, str_eq_iff k (key_of n))

first-none : (a : Option LimitRule) → first a none ≡ a
first-none none = refl
first-none (some r) = refl

lookup-changed :
    (rules cs out : Map Str LimitRule) (n : Str)
    → str_eq default_api_qps_rule_key n ≡ false
    → IsMap cs
    → lookup n (changed rules cs out)
      ≡ first (lookup n out) (news (lookup n rules) (lookup (key_of n) cs))
unfolding changed lookup news
lookup-changed rules [] out n d h = ground arith
lookup-changed rules ((k, r) ∷ cs) out n d h =
    let rest = lookup-changed rules cs (put_changed rules (rule_name k) r out) n d h.1 in
    elim (Bool-cases (str_eq k (key_of n))) [
      | inl yea ↦
          let k≡ : k ≡ key_of n = (str_eq_iff k (key_of n)).0 yea in
          let absent : lookup (key_of n) cs ≡ none = subst (λ j. lookup j cs ≡ none) k≡ h.0 in
          let named : rule_name k ≡ some n = rw k≡ (rule_name-key_of n) in
          let wrote = put_changed_self rules n r out in
          rest ∙ rw (absent, named, yea) (first-none _ ∙ wrote)
      | inr nay ↦
          let kept = round_other rules n (rule_name k) r out (λ e. not_named k n d e nay) in
          rest ∙ rw (nay, kept)
    ]

elem-put_removed :
    (rules : Map Str LimitRule) (k n : Str) (o : Option Str) (out : List Str)
    → strip api_qps_rule_key_prefix k ≡ o
    → elem n (put_removed rules o out)
      ≡ (elem n out || (str_eq k (key_of n) && is_some (lookup n rules)))
unfolding put_removed key_of
elem-put_removed rules k n none out e =
    ground
      (arith, str_eq_iff k (api_qps_rule_key_prefix ++ n), strip-append api_qps_rule_key_prefix n)
elem-put_removed rules k n (some name) out e = ground (
  arith,
  elem-add name n out,
  str_eq_iff name n,
  str_eq_iff k (api_qps_rule_key_prefix ++ n),
  strip-append api_qps_rule_key_prefix n,
  strip-some api_qps_rule_key_prefix k name e,
)

elem-removed :
    (rules : Map Str LimitRule) (ks : List Str) (n : Str) (out : List Str)
    → str_eq default_api_qps_rule_key n ≡ false
    → elem n (removed rules ks out)
      ≡ (elem n out || (elem (key_of n) ks && is_some (lookup n rules)))
unfolding removed elem
elem-removed rules [] n out d = ground arith
elem-removed rules (k ∷ ks) n out d = ground (
  arith,
  elem-removed rules ks n
      (put_removed rules (strip api_qps_rule_key_prefix k)
        (if str_eq k default_api_qps_rule_key then add default_api_qps_rule_key out else out))
      d,
  elem-put_removed rules k n (strip api_qps_rule_key_prefix k)
      (if str_eq k default_api_qps_rule_key then add default_api_qps_rule_key out else out) refl,
  elem-add default_api_qps_rule_key n out,
)

written :
    (l : ApiQpsLimiter) (ch : Map Str LimitRule) (rm : List Str) (n : Str)
    → IsMap ch
    → lookup n
        (if is_empty ch && is_empty rm
          then l
          else record l { rules = erase_all rm (assign_all ch l.rules) }).rules
      ≡ (if elem n rm then none else first (lookup n ch) (lookup n l.rules))
unfolding lookup elem
written l [] [] n h = refl
written l [] (k ∷ rm) n h =
    lookup-erase_all n (k ∷ rm) (assign_all [] l.rules) ∙ rw (lookup-assign_all n [] l.rules tt)
written l (c ∷ ch) rm n h =
    lookup-erase_all n rm (assign_all (c ∷ ch) l.rules)
    ∙ rw (lookup-assign_all n (c ∷ ch) l.rules h)

settled :
    (a b : Option LimitRule)
    → (if (false || is_some a && not (is_some b)) && is_some a
        then none
        else first (first none (news a b)) a)
      ≡ b
unfolding news
settled none none = refl
settled (some x) none = refl
settled none (some y) = refl
settled (some x) (some y) = ground (arith, same_rule→eq x y)

-- The rule of `n` after an event, when nothing is written too.
lookup-update_api :
    (l : ApiQpsLimiter) (e : UpdateEvent) (n : Str)
    → IsMap e.configs
    → str_eq default_api_qps_rule_key n ≡ false
    → lookup n (update_api l e).rules ≡ (
        if elem (key_of n) e.removed && is_some (lookup n l.rules)
        then none
        else first (news (lookup n l.rules) (lookup (key_of n) e.configs)) (lookup n l.rules))
unfolding update_api lookup elem news
lookup-update_api l e n h d =
    let ch = changed l.rules e.configs [] in
    let rm = removed l.rules e.removed [] in
    written l ch rm n (changed-IsMap l.rules e.configs [] tt)
    ∙ rw (elem-removed l.rules e.removed n [] d, lookup-changed l.rules e.configs [] n d h) refl

-- Each rule but the default one is the one configured under its key.
abbrev pub FollowsApi : Map Str LimitRule → ApiQpsLimiter → Type 0
FollowsApi configs l =
    (n : Str)
    → str_eq default_api_qps_rule_key n ≡ false
    → lookup n l.rules ≡ lookup (key_of n) configs

-- When the limiter's rules, the default one aside, are those that `old` configures, then the event of a
-- reload from `old` to `new` makes them those that `new` configures. No key of `new` stands twice.
pub update_api-FollowsApi :
    (l : ApiQpsLimiter) (old new : Map Str LimitRule)
    → IsMap new
    → FollowsApi old l
    → FollowsApi new (update_api l (record { configs = new; removed = gone new old [] }))
unfolding elem lookup
update_api-FollowsApi l old new h f n d =
    lookup-update_api l (record { configs = new; removed = gone new old [] }) n h d
    ∙ rw (elem-gone (key_of n) new old [], f n d)
        (settled (lookup (key_of n) old) (lookup (key_of n) new))
