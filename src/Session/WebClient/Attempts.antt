-- ===== src/Session/WebClient/Attempts.antt =====
-- A call is sent at most twice, and what it answers is what the server answered.
use bachelor_thesis.Session.Gate.{present}
use bachelor_thesis.Prelude.{
  ℕ, ◌-◌, ◌≤◌, String, ◌≡◌, refl, ◌∙◌, Bool, true, false, ◌&&◌, not, Option, none, some, arith,
  is_some, if-elim,
}
use bachelor_thesis.Errors.{Failure, is_transient_error}
use bachelor_thesis.Session.{Answer}
use bachelor_thesis.Session.WebClient.{
  CallResult, is_unauthenticated, first_error, with_new_token, recover, once, after_first,
  intercept,
}

module _ {R : Type 0} (lower : String → String) (server : ℕ → Option String → Answer R)
    (fresh : Option String) (on_login_page : Bool) where
  -- A call that was sent once or twice. An answer is the server's last one, to the token that is kept, and
  -- the browser is sent to the log-in page only with the first failure, and not from that page.
  pub record IsSound (token : Option String) (c : CallResult R) : Type 0 where
    pub at_most_twice : c.attempts ≤ 2
    pub at_least_once : 1 ≤ c.attempts
    pub answered : (r : R) → c.answer ≡ Answer.ok r → server (c.attempts - 1) c.token ≡ Answer.ok r
    pub away : c.sent_to_login ≡ true → (on_login_page ≡ false) × (c.attempts ≡ 1)

  failed_once-IsSound :
      (e : Failure) (token : Option String) (away : Bool)
      → (away ≡ true → on_login_page ≡ false)
      → IsSound token
          (record { answer = Answer.failed e; attempts = 1; token = token; sent_to_login = away })
  failed_once-IsSound e token away h = record {
    at_most_twice = omega arith;
    at_least_once = omega arith;
    answered = λ r k. cc;
    away = λ k. (h k, refl);
  }

  not-true : (b : Bool) → not b ≡ true → b ≡ false
  not-true true h = cc
  not-true false h = refl

  with_new_token-IsSound :
      (e : Failure) (token t : Option String)
      → IsSound token (with_new_token lower server fresh on_login_page e token t)
  with_new_token-IsSound e token none =
      failed_once-IsSound e token (not on_login_page) (not-true on_login_page)
  with_new_token-IsSound e token (some t) = record {
    at_most_twice = omega arith;
    at_least_once = omega arith;
    answered = λ r k. k;
    away = λ k. cc;
  }

  first_error-ok :
      (e : Failure) (a : Answer R) (r : R)
      → first_error lower server fresh on_login_page e a ≡ Answer.ok r
      → a ≡ Answer.ok r
  first_error-ok e (Answer.ok x) r h = h
  first_error-ok e (Answer.failed e2) r h = cc

  recover-IsSound :
      (token : Option String) (e : Failure)
      → IsSound token (recover lower server fresh on_login_page token e)
  unfolding recover
  recover-IsSound token e =
      if-elim (IsSound token) (is_transient_error lower e)
        (record {
          at_most_twice = omega arith;
          at_least_once = omega arith;
          answered = λ r k. first_error-ok e (server 1 token) r k;
          away = λ k. cc;
        })
        (if-elim (IsSound token) (is_unauthenticated e && is_some (present token))
          (with_new_token-IsSound e token (present fresh))
          (failed_once-IsSound e token false (λ k. cc)))

  once-IsSound :
      (token : Option String) (a : Answer R)
      → server 0 token ≡ a
      → IsSound token (once lower server fresh on_login_page token a)
  once-IsSound token a h = record {
    at_most_twice = omega arith;
    at_least_once = omega arith;
    answered = λ r k. h ∙ k;
    away = λ k. cc;
  }

  -- Whatever the server answers, a call is sent once or twice; an answer that it gives is the server's
  -- answer to the last time it was sent, with the token that is kept from then on; and the browser is
  -- sent to the log-in page only after one try, and never from that page.
  pub intercept-IsSound :
      (is_stream : Bool) (token : Option String)
      → IsSound token (intercept lower server fresh on_login_page is_stream token)
  unfolding intercept after_first
  intercept-IsSound is_stream token =
      if-elim (IsSound token) is_stream (once-IsSound token (server 0 token) refl)
        (first (server 0 token) refl)
    where
      first :
          (a : Answer R)
          → server 0 token ≡ a
          → IsSound token (after_first lower server fresh on_login_page token a)
      first (Answer.ok r) h = once-IsSound token (Answer.ok r) h
      first (Answer.failed e) h = recover-IsSound token e
