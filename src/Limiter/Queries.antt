-- ===== src/Limiter/Queries.antt =====
-- The answers of the configuration manager and of the limiters to those who ask for some keys.
use bcm_server.Base.Int.{pos, ℤ}
use bcm_server.Base.{
  Bool-cases, List, Map, Option, Option-cases, Str, [], arith, elem, emplace, if◌then◌else◌, inl,
  inr, is_empty, is_some, lookup, lookup-emplace, lookup-insert, none, refl, some, str_eq_iff, true,
  ◌∷◌, ◌≡◌, str_key, nat_key,
}
use bcm_server.Limiter.{LimitState, Status}
use bcm_server.Limiter.Configuration.{Manager, get_configuration}
use bcm_server.Limiter.UserQps.{UserQpsLimiter, collect, current_state}

-- The manager answers with exactly those of the keys asked for that it has a rule for, and the rule.
lookup-get_configuration :
    (m : Manager) (ks : List Str) (k : Str)
    → lookup k (get_configuration m ks) ≡ (if elem k ks then lookup k m.configs else none)
unfolding get_configuration elem
lookup-get_configuration m [] k = unfold lookup in refl
lookup-get_configuration m (j ∷ ks) k =
    let rest = get_configuration m ks in
    elim (Option-cases (lookup j m.configs)) [
      | inl absent ↦ ground (arith, lookup-get_configuration m ks k, str_eq_iff j k)
      | inr (r, there) ↦
          ground (arith, lookup-get_configuration m ks k, lookup-insert j k r rest, str_eq_iff j k)
    ]

unfoldable pub counted : Option Status → Option ℤ
counted none = none
counted (some s) = some (pos s.counter)

lookup-collect :
    (status : Map Str Status) (ks : List Str) (out : Map Str ℤ) (k : Str)
    → lookup k (collect status ks out) ≡ (
        if is_some (lookup k out)
        then lookup k out
        else (if elem k ks then counted (lookup k status) else none))
unfolding collect elem counted
lookup-collect status [] out k = ground arith
lookup-collect status (j ∷ ks) out k = elim (Option-cases (lookup j status)) [
  | inl absent ↦ rw absent (ground (arith, lookup-collect status ks out k, str_eq_iff j k, absent))
  | inr (s, there) ↦ rw there (
      ground (
        arith,
        lookup-collect status ks (emplace j (pos s.counter) out) k,
        lookup-emplace j k (pos s.counter) out,
        str_eq_iff j k,
        there,
      ))
]

unasked :
    (k : Str) (ks : List Str) (out : Map Str ℤ) (o : Option ℤ)
    → is_empty ks ≡ true
    → lookup k out
      ≡ (if is_some (lookup k out) then lookup k out else (if elem k ks then o else none))
unfolding elem
unasked k [] out o h = ground arith
unasked k (j ∷ ks) out o h = cc

-- A user limiter that is asked for the counters of some keys keeps those that stand in the state already,
-- adds those of the users that it knows among the keys, and no others.
lookup-current_state :
    (l : UserQpsLimiter) (st : LimitState) (k : Str)
    → lookup k (current_state l st).counters ≡ (
        if is_some (lookup k st.counters)
        then lookup k st.counters
        else (if elem k st.keys then counted (lookup k l.status) else none))
unfolding current_state
lookup-current_state l st k = elim (Bool-cases (is_empty st.keys)) [
  | inl nothing ↦ rw nothing (unasked k st.keys st.counters (counted (lookup k l.status)) nothing)
  | inr something ↦ rw something (lookup-collect l.status st.keys st.counters k)
]
