-- ===== src/Session/WebClient.antt =====
-- The client of the service in the browser, which tries a call again once
-- (typescript/heino/src/lib/connect-webclient.ts).
pub mod Attempts
use bachelor_thesis.Prelude.{
  ℕ, String, Bool, true, false, ◌&&◌, not, Option, none, some, if◌then◌else◌, is_some,
}
use bachelor_thesis.Errors.{Code, Failure, is_transient_error}
use bachelor_thesis.Session.Gate.{present}
use bachelor_thesis.Session.{Answer}

-- What a call ended with: its answer, how often it was sent, the token that is kept from then on, and
-- whether the browser was sent to the log-in page.
pub record CallResult (R : Type 0) : Type 0 where
  pub answer : Answer R
  pub attempts : ℕ
  pub token : Option String
  pub sent_to_login : Bool

abbrev pub is_unauthenticated : Failure → Bool
is_unauthenticated (Failure.connect Code.unauthenticated raw message cause) = true
is_unauthenticated _ = false

-- `refreshAccessToken`: the answer of the route, `none` where it failed. Calls that overlap share one
-- request; `pending` is the request that is under way.
unfoldable pub refresh_access_token : Option (Option String) → Option String → Option String
refresh_access_token (some pending) fresh = pending
refresh_access_token none fresh = fresh

module _ {R : Type 0} (lower : String → String) (server : ℕ → Option String → Answer R)
    (fresh : Option String) (on_login_page : Bool) where
  abbrev pub first_error : Failure → Answer R → Answer R
  first_error e (Answer.ok r) = Answer.ok r
  first_error e (Answer.failed e2) = Answer.failed e

  -- The second try, with the new token, which may fail as well.
  abbrev pub with_new_token : Failure → Option String → Option String → CallResult R
  with_new_token e token (some t) = record {
    answer = server 1 (some t);
    attempts = 2;
    token = some t;
    sent_to_login = false;
  }
  with_new_token e token none = record {
    answer = Answer.failed e;
    attempts = 1;
    token = token;
    sent_to_login = not on_login_page;
  }

  unfoldable pub recover : Option String → Failure → CallResult R
  unfolding is_transient_error
  recover token e =
      if is_transient_error lower e
      then record {
        answer = first_error e (server 1 token);
        attempts = 2;
        token = token;
        sent_to_login = false;
      }
      else if is_unauthenticated e && is_some (present token)
      then with_new_token e token (present fresh)
      else record { answer = Answer.failed e; attempts = 1; token = token; sent_to_login = false }

  abbrev pub once : Option String → Answer R → CallResult R
  once token a = record { answer = a; attempts = 1; token = token; sent_to_login = false }

  unfoldable pub after_first : Option String → Answer R → CallResult R
  unfolding recover
  after_first token (Answer.ok r) = once token (Answer.ok r)
  after_first token (Answer.failed e) = recover token e

  -- The interceptor. A stream is not tried again.
  unfoldable pub intercept : Bool → Option String → CallResult R
  unfolding after_first
  intercept is_stream token =
      if is_stream then once token (server 0 token) else after_first token (server 0 token)
