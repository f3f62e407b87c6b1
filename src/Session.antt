-- ===== src/Session.antt =====
-- Sessions: the tokens, their cookies and their silent refresh (typescript/heino/src/lib/auth.ts and
-- lib/refresh.ts). The verification of a token, the service and the runtime's lower-casing are parameters.
pub mod Gate
pub mod Access
pub mod WebClient
use bachelor_thesis.Prelude.{
  trim, begins, before_comma, String, Bool, true, false, ◌||◌, Option, none, some, str_eq,
  if◌then◌else◌, is_empty,
}
use bachelor_thesis.Errors.{Failure, is_transient_error}

pub data UserRole : Type 0 where
  unspecified normal admin : UserRole

pub data TokenType : Type 0 where
  unspecified access refresh : TokenType

pub record Claims : Type 0 where
  pub sub : String
  pub role : UserRole
  pub token_type : TokenType
  pub first_name : String
  pub middle_name : String
  pub last_name : String

pub record Tokens : Type 0 where
  pub access_token : String
  pub refresh_token : String

-- The answer of a call.
pub data Answer (A : Type 0) : Type 0 where
  ok : A → Answer A
  failed : Failure → Answer A

abbrev pub is_access : TokenType → Bool
is_access TokenType.access = true
is_access _ = false

abbrev check_type : Option Claims → Option Claims
check_type none = none
check_type (some c) = if is_access c.token_type then some c else none

-- `verifyAccessJwt`, where `decode` verifies the signature, the issuer, the audience and the expiry, and
-- reads the claims.
unfoldable pub verify_access_jwt : (String → Option Claims) → String → Option Claims
verify_access_jwt decode token = check_type (decode token)

pub data RefreshOutcome : Type 0 where
  refreshed : Tokens → Claims → RefreshOutcome
  rejected : RefreshOutcome
  thrown : Failure → RefreshOutcome

abbrev pub checked_tokens : Tokens → Option Claims → RefreshOutcome
checked_tokens t none = rejected
checked_tokens t (some c) = refreshed t c

unfoldable pub refresh_answer :
    (String → String) → (String → Option Claims) → Answer Tokens → RefreshOutcome
unfolding verify_access_jwt is_transient_error
refresh_answer lower decode (ok t) = checked_tokens t (verify_access_jwt decode t.access_token)
refresh_answer lower decode (failed e) = if is_transient_error lower e then thrown e else rejected

-- `silentRefresh`: `service` is the call that exchanges a refresh token.
unfoldable pub silent_refresh :
    (String → String)
    → (String → Option Claims)
    → (String → Answer Tokens)
    → String
    → RefreshOutcome
unfolding refresh_answer
silent_refresh lower decode service token = refresh_answer lower decode (service token)

-- Whether the cookies are marked `Secure`; the flag is whether the program runs in production.
unfoldable pub cookie_secure : Bool → Option String → Bool
unfolding trim before_comma
cookie_secure production none = production
cookie_secure production (some proto) =
    if is_empty proto then production else str_eq (trim (before_comma proto)) "https"

-- A path that a log-in may go on to.
abbrev pub is_allowed : String → Bool
is_allowed next =
    str_eq next "/admin"
    || begins "/admin/" next
    || str_eq next "/dashboard"
    || begins "/dashboard/" next

unfoldable pub safe_next : Option String → Option String
unfolding begins
safe_next none = none
safe_next (some next) = if is_allowed next then some next else none
