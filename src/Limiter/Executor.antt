-- ===== src/Limiter/Executor.antt =====
-- src/limiters/{uid_checker,api_checker,limiter_executor}.cpp: the checks that a request passes before
-- it is routed. A request comes with the user that `AuthorizationHeader::parse` finds in its header.
-- `split` and `verb_name` stand for `boost::split` by "/" and `http::to_string`.
use bcm_server.Base.{
  Bool, List, Option, Str, [], codes, eqb, false, if◌then◌else◌, is_empty, none, or_else, some,
  true, ℕ, ◌||◌, ◌∷◌,
}
use bcm_server.Limiter.{LimitLevel, good, limited}
use bcm_server.Limiter.ApiMatcher.{Api, match, match_and_fetch_api, match_api, to_string}
use bcm_server.Limiter.UserQps.{UserQpsLimiter, acquire_access}
use bcm_server.Limiter.ApiQps.{ApiQpsLimiter, acquire_api_access}

pub data CheckResult : Type 0 where
  passed failed abort : CheckResult

pub record CheckArgs : Type 0 where
  pub api : Api
  pub uid : Str
  pub origin : Str

pub record Request : Type 0 where
  pub method : ℕ
  pub target : Str
  pub auth_uid : Option Str
  pub from : Str

-- The limiters that the checkers find in the `LimiterManager`, and the APIs that are not limited.
pub record Limiters : Type 0 where
  pub users : UserQpsLimiter
  pub apis : ApiQpsLimiter
  pub ignored : List Api

-- The numbers of `http::verb::delete_` and `http::verb::get`.
abbrev pub verb_delete : ℕ
verb_delete = 1

abbrev pub verb_get : ℕ
verb_get = 2

abbrev uid_patterns : List Api
uid_patterns =
    record { method = verb_get; name = codes "/v1/accounts/challenge/:uid" }
    ∷ record { method = verb_delete; name = codes "/v1/accounts/:uid/:signature" }
    ∷ []

-- Both uses of `find('?')`: the text before the first '?', or all of it.
unfoldable pub before_query : Str → Str
before_query [] = []
before_query (c ∷ s) = if eqb c b'?' then [] else c ∷ before_query s

abbrev level_result : LimitLevel → CheckResult
level_result good = passed
level_result limited = failed

module _ (split : Str → List Str) (verb_name : ℕ → Str) where
  -- The loop of `preProcessing` over the patterns; the last line sets an empty user.
  fetch_uid : List Api → Api → Str
  fetch_uid [] api = []
  fetch_uid (p ∷ ps) api = elim (match_and_fetch_api split p api (codes ":uid") []) [
    | some uid ↦ uid
    | none ↦ fetch_uid ps api
  ]

  unfoldable pub pre_process : CheckArgs → CheckArgs
  unfolding fetch_uid
  pre_process a = if is_empty a.uid then record a { uid = fetch_uid uid_patterns a.api } else a

  unfoldable pub check_uid : Limiters → CheckArgs → ℕ → Limiters × CheckArgs × CheckResult
  check_uid l a now =
      let a' = pre_process a in
      let (users, level) = acquire_access l.users a'.uid now in
      if is_empty a'.uid
      then (l, a', passed)
      else (record l { users = users }, a', level_result level)

  unfoldable pub check_api : Limiters → CheckArgs → ℕ → Limiters × CheckResult
  check_api l a now =
      let id = to_string verb_name a.api in
      let (apis, level) = acquire_api_access (match split) l.apis id now in
      if is_empty id then (l, passed) else (record l { apis = apis }, level_result level)

  unfoldable pub is_ignored : List Api → Api → Bool
  is_ignored [] api = false
  is_ignored (p ∷ ps) api = match_api split p api || is_ignored ps api

  unfoldable pub args_of : Request → CheckArgs
  args_of r = record {
    api = record { method = r.method; name = before_query r.target };
    uid = or_else r.auth_uid [];
    origin = r.from;
  }

  -- The loop over the two checkers; `now` and `later` are the clock readings of the two limiters.
  unfoldable pub run_checkers : Limiters → CheckArgs → ℕ → ℕ → Limiters × Bool
  run_checkers l a now later =
      let (l1, a1, r1) = check_uid l a now in
      let (l2, r2) = check_api l1 a1 later in
      elim r1 [
        | abort ↦ (l1, true)
        | failed ↦ (l1, false)
        | passed ↦ elim r2 [ abort ↦ (l2, true) | failed ↦ (l2, false) | passed ↦ (l2, true) ]
      ]

  -- `none` is the null request. The result false comes with the status `limiter_rejected`.
  unfoldable pub validate : Limiters → Option Request → ℕ → ℕ → Limiters × Bool
  unfolding is_ignored run_checkers args_of
  validate l none now later = (l, true)
  validate l (some r) now later =
      if is_ignored l.ignored (args_of r).api
      then (l, true)
      else run_checkers l (args_of r) now later
