-- ===== src/Session/Gate.antt =====
-- The gate before every page, and the route that refreshes the tokens (typescript/heino/src/proxy.ts and
-- app/api/auth/refresh/route.ts).
pub mod Passing
use bachelor_thesis.Prelude.{
  begins, String, Bool, false, ◌||◌, Option, none, some, if◌then◌else◌, is_some, is_empty,
}
use bachelor_thesis.Errors.{Failure, is_transient_error}
use bachelor_thesis.Session.{
  Claims, Tokens, Answer, verify_access_jwt, RefreshOutcome, silent_refresh, cookie_secure,
}

pub record PageRequest : Type 0 where
  pub pathname : String
  pub access_cookie : Option String
  pub refresh_cookie : Option String
  pub forwarded_proto : Option String

-- The cookies that a response sets, with their `Secure` flag.
pub record SetCookies : Type 0 where
  pub tokens : Tokens
  pub secure : Bool

-- The page is served, with new cookies or the old ones; or the browser is sent to the log-in page with the
-- path to come back to, and its cookies are deleted.
pub data PageResponse : Type 0 where
  pass_through : Option SetCookies → PageResponse
  to_login : String → PageResponse

abbrev pub is_protected : String → Bool
is_protected pathname = begins "/admin" pathname || begins "/dashboard" pathname

-- A cookie that is missing or empty is no token.
abbrev pub present : Option String → Option String
present none = none
present (some t) = if is_empty t then none else some t

-- The environment of the server: production or not, lower-casing, the verification and the service.
pub record Environment : Type 0 where
  pub production : Bool
  pub lower : String → String
  pub decode : String → Option Claims
  pub service : String → Answer Tokens

unfoldable pub has_session : Environment → Option String → Bool
unfolding verify_access_jwt
has_session env none = false
has_session env (some t) = is_some (verify_access_jwt env.decode t)

unfoldable pub after_refresh : Environment → PageRequest → RefreshOutcome → PageResponse
unfolding cookie_secure is_transient_error
after_refresh env r (RefreshOutcome.refreshed t c) =
    pass_through
      (some (record { tokens = t; secure = cookie_secure env.production r.forwarded_proto }))
after_refresh env r RefreshOutcome.rejected = to_login r.pathname
after_refresh env r (RefreshOutcome.thrown e) =
    if is_transient_error env.lower e then pass_through none else to_login r.pathname

unfoldable pub try_refresh : Environment → PageRequest → Option String → PageResponse
unfolding silent_refresh after_refresh
try_refresh env r none = to_login r.pathname
try_refresh env r (some t) = after_refresh env r (silent_refresh env.lower env.decode env.service t)

unfoldable pub proxy : Environment → PageRequest → PageResponse
unfolding try_refresh has_session begins
proxy env r =
    if is_protected r.pathname
    then if has_session env (present r.access_cookie)
      then pass_through none
      else try_refresh env r (present r.refresh_cookie)
    else pass_through none

-- What the route answers: the new access token with its cookies; a refusal, which deletes the cookies; or
-- the failure, which the framework reports.
pub data RouteResponse : Type 0 where
  renewed : String → SetCookies → RouteResponse
  refused : String → RouteResponse
  errored : Failure → RouteResponse

route_outcome : Environment → Option String → RefreshOutcome → RouteResponse
unfolding cookie_secure
route_outcome env proto (RefreshOutcome.refreshed t c) =
    renewed t.access_token (record { tokens = t; secure = cookie_secure env.production proto })
route_outcome env proto RefreshOutcome.rejected = refused "refresh failed"
route_outcome env proto (RefreshOutcome.thrown e) = errored e

refresh_with : Environment → Option String → Option String → RouteResponse
unfolding silent_refresh route_outcome
refresh_with env proto none = refused "no refresh token"
refresh_with env proto (some t) =
    route_outcome env proto (silent_refresh env.lower env.decode env.service t)

unfoldable pub refresh_route : Environment → Option String → Option String → RouteResponse
unfolding refresh_with
refresh_route env cookie proto = refresh_with env proto (present cookie)
