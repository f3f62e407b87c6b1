-- ===== src/Session/Gate/Passing.antt =====
-- When the gate sends the browser to the log-in page, and which cookies it sets.
use bachelor_thesis.Prelude.{
  String, subst, ◌≡◌, refl, ◌↔◌, ◌⊎◌, inl, inr, Bool, true, false, Option, none, some,
  if◌then◌else◌, Bool-cases,
}
use bachelor_thesis.Errors.{Failure, is_transient_error}
use bachelor_thesis.Session.{
  Claims, Tokens, Answer, verify_access_jwt, RefreshOutcome, checked_tokens, refresh_answer,
  silent_refresh,
}
use bachelor_thesis.Session.Gate.{
  PageRequest, pass_through, to_login, is_protected, present, Environment, has_session,
  after_refresh, try_refresh, proxy,
}

-- The service refuses a refresh: its access token is not valid, or it fails for good.
abbrev pub Refuses : Environment → Answer Tokens → Type 0
Refuses env (Answer.ok t) = verify_access_jwt env.decode t.access_token ≡ none
Refuses env (Answer.failed e) = is_transient_error env.lower e ≡ false

-- A protected page, no valid access token, and no refresh token that the service takes or may take later.
pub record IsExpired (env : Environment) (r : PageRequest) : Type 0 where
  pub protected : is_protected r.pathname ≡ true
  pub no_session : has_session env (present r.access_cookie) ≡ false
  pub no_refresh :
      (present r.refresh_cookie ≡ none)
      ⊎ ((t : String) × (present r.refresh_cookie ≡ some t) × Refuses env (env.service t))

checked_lem :
    (env : Environment) (r : PageRequest) (t : Tokens) (o : Option Claims)
    → (after_refresh env r (checked_tokens t o) ≡ to_login r.pathname) ↔ (o ≡ none)
unfolding after_refresh
checked_lem env r t none = (λ h. refl, λ h. refl)
checked_lem env r t (some c) = (λ h. cc, λ h. cc)

after_failed :
    (env : Environment) (r : PageRequest) (e : Failure) (b : Bool)
    → is_transient_error env.lower e ≡ b
    → after_refresh env r (if b then RefreshOutcome.thrown e else RefreshOutcome.rejected)
      ≡ (if b then pass_through none else to_login r.pathname)
unfolding after_refresh
after_failed env r e true h = rw h refl
after_failed env r e false h = refl

refused_iff :
    (r : PageRequest) (b : Bool)
    → ((if b then pass_through none else to_login r.pathname) ≡ to_login r.pathname) ↔ (b ≡ false)
refused_iff r true = (λ h. cc, λ h. cc)
refused_iff r false = (λ h. refl, λ h. refl)

after_refresh_lem :
    (env : Environment) (r : PageRequest) (a : Answer Tokens)
    → (after_refresh env r (refresh_answer env.lower env.decode a) ≡ to_login r.pathname)
      ↔ Refuses env a
unfolding refresh_answer
after_refresh_lem env r (Answer.ok t) =
    checked_lem env r t (verify_access_jwt env.decode t.access_token)
after_refresh_lem env r (Answer.failed e) =
    rw (after_failed env r e (is_transient_error env.lower e) refl)
      (refused_iff r (is_transient_error env.lower e))

try_refresh_lem :
    (env : Environment) (r : PageRequest) (o : Option String)
    → (try_refresh env r o ≡ to_login r.pathname)
      ↔ ((o ≡ none) ⊎ ((t : String) × (o ≡ some t) × Refuses env (env.service t)))
unfolding try_refresh silent_refresh
try_refresh_lem env r none = (λ h. inl refl, λ h. refl)
try_refresh_lem env r (some t) =
    let k = after_refresh_lem env r (env.service t) in
    (λ h. inr (t, refl, k.0 h), λ h. k.1 (refusal h))
  where
    refusal :
        (some t ≡ none) ⊎ ((u : String) × (some t ≡ some u) × Refuses env (env.service u))
        → Refuses env (env.service t)
    refusal (inl e) = cc
    refusal (inr (u, e, q)) =
        let same : u ≡ t = cc in subst (λ v. Refuses env (env.service v)) same q

-- The gate sends the browser to the log-in page exactly when the session has expired: never while a token
-- is valid, and never because the service cannot be reached.
pub proxy-login_iff :
    (env : Environment) (r : PageRequest) → (proxy env r ≡ to_login r.pathname) ↔ IsExpired env r
unfolding proxy
proxy-login_iff env r = elim (Bool-cases (is_protected r.pathname)) [
  | inl p ↦ elim (Bool-cases (has_session env (present r.access_cookie))) [
    | inl k ↦ rw (p, k) (λ h. absurd (served h), λ x. cc)
    | inr k ↦
        rw (p, k)
          (
            λ h. record {
              protected = p;
              no_session = k;
              no_refresh = (try_refresh_lem env r (present r.refresh_cookie)).0 h;
            },
            λ x. (try_refresh_lem env r (present r.refresh_cookie)).1 x.no_refresh,
          )
  ]
  | inr p ↦ rw p (λ h. absurd (served h), λ x. cc)
]
  where
    served : pass_through none ≡ to_login r.pathname → ⊥
    served h = cc
