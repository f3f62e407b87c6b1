-- ===== src/Errors/Transient.antt =====
-- Which failures count as a service that cannot be reached, and what the user is told.
use bachelor_thesis.Prelude.{
  ℕ, zero, suc, String, ◌≡◌, refl, ◌↔◌, ◌⊎◌, inl, inr, Bool, true, false, ◌||◌, arith,
  if◌then◌else◌, Bool-cases, is_empty, or_text,
}
use bachelor_thesis.Errors.{
  Code, Failure, connect, type_error, error, value, includes, connect_error_to_message,
  error_to_message, to_user_message, looks_transient, transient_chain, is_transient_error,
}

-- The message of a failure, or of one of its first causes, names a connection problem.
pub data Names (lower : String → String) : ℕ → Failure → Type 0 where
  here_connect :
      {n : ℕ} {code : Code} {raw message : String} {cause : Failure}
      → looks_transient lower message ≡ true
      → Names lower (suc n) (connect code raw message cause)
  here_type :
      {n : ℕ} {message : String} {cause : Failure}
      → looks_transient lower message ≡ true
      → Names lower (suc n) (type_error message cause)
  here_error :
      {n : ℕ} {message : String} {cause : Failure}
      → looks_transient lower message ≡ true
      → Names lower (suc n) (error message cause)
  in_connect :
      {n : ℕ} {code : Code} {raw message : String} {cause : Failure}
      → Names lower n cause
      → Names lower (suc n) (connect code raw message cause)
  in_type :
      {n : ℕ} {message : String} {cause : Failure}
      → Names lower n cause
      → Names lower (suc n) (type_error message cause)
  in_error :
      {n : ℕ} {message : String} {cause : Failure}
      → Names lower n cause
      → Names lower (suc n) (error message cause)

Names-sound :
    (lower : String → String) (n : ℕ) (e : Failure)
    → transient_chain lower n e ≡ true
    → Names lower n e
unfolding transient_chain
Names-sound lower zero e h = cc
Names-sound lower (suc n) (connect code raw message cause) h =
    elim (Bool-cases (looks_transient lower message)) [
      | inl t ↦ here_connect t
      | inr f ↦ in_connect (Names-sound lower n cause (rw f at h))
    ]
Names-sound lower (suc n) (type_error message cause) h =
    elim (Bool-cases (looks_transient lower message)) [
      | inl t ↦ here_type t
      | inr f ↦ in_type (Names-sound lower n cause (rw f at h))
    ]
Names-sound lower (suc n) (error message cause) h =
    elim (Bool-cases (looks_transient lower message)) [
      | inl t ↦ here_error t
      | inr f ↦ in_error (Names-sound lower n cause (rw f at h))
    ]
Names-sound lower (suc n) value h = cc

Names-complete :
    {lower : String → String} {n : ℕ} {e : Failure}
    → Names lower n e
    → transient_chain lower n e ≡ true
unfolding transient_chain
Names-complete (here_connect t) = ground arith
Names-complete (here_type t) = ground arith
Names-complete (here_error t) = ground arith
Names-complete (in_connect r) = ground (arith, Names-complete r)
Names-complete (in_type r) = ground (arith, Names-complete r)
Names-complete (in_error r) = ground (arith, Names-complete r)

-- The RPC library says that the service did not answer.
abbrev pub IsUnanswered : Failure → Type 0
IsUnanswered (connect code raw message cause) =
    (code ≡ Code.unavailable) ⊎ (code ≡ Code.deadline_exceeded)
IsUnanswered _ = ⊥

abbrev pub IsLocal : Failure → Type 0
IsLocal (connect code raw message cause) = ⊥
IsLocal _ = Unit

connect_transient :
    (lower : String → String) (code : Code) (raw message : String) (cause : Failure)
    → (is_transient_error lower (connect code raw message cause) ≡ true)
      ↔ ((code ≡ Code.unavailable) ⊎ (code ≡ Code.deadline_exceeded))
unfolding is_transient_error
connect_transient lower Code.unavailable raw message cause = ground arith
connect_transient lower Code.deadline_exceeded raw message cause = ground arith
connect_transient lower _ raw message cause = ground arith

-- A failure counts as transient exactly when it is an RPC error with the code Unavailable or
-- DeadlineExceeded, or another error that names a connection problem in its own message or in that of
-- one of its first four causes.
pub is_transient_error_iff :
    (lower : String → String) (e : Failure)
    → (is_transient_error lower e ≡ true) ↔ (IsUnanswered e ⊎ (IsLocal e × Names lower 5 e))
unfolding is_transient_error
is_transient_error_iff lower (connect code raw message cause) =
    let (to, from) = connect_transient lower code raw message cause in
    (λ h. inl (to h), λ s. elim s [ inl u ↦ from u | inr r ↦ absurd r.0 ])
is_transient_error_iff lower (type_error message cause) = (
  λ h. inr (tt, Names-sound lower 5 (type_error message cause) h),
  λ s. elim s [ inl u ↦ absurd u | inr r ↦ Names-complete r.1 ],
)
is_transient_error_iff lower (error message cause) = (
  λ h. inr (tt, Names-sound lower 5 (error message cause) h),
  λ s. elim s [ inl u ↦ absurd u | inr r ↦ Names-complete r.1 ],
)
is_transient_error_iff lower value =
    (λ h. cc, λ s. elim s [ inl u ↦ absurd u | inr r ↦ Names-complete r.1 ])

shown_if :
    (b : Bool) (s t : String)
    → is_empty s ≡ false
    → is_empty t ≡ false
    → is_empty (if b then s else t) ≡ false
shown_if true s t h k = h
shown_if false s t h k = k

shown_or_text : (s t : String) → is_empty t ≡ false → is_empty (or_text s t) ≡ false
shown_or_text s t h = elim (Bool-cases (is_empty s)) [ inl e ↦ rw e h | inr e ↦ rw e e ]

shown_by_code :
    (code : Code) (raw fallback : String)
    → is_empty fallback ≡ false
    → is_empty (connect_error_to_message code raw fallback) ≡ false
unfolding connect_error_to_message
shown_by_code Code.failed_precondition raw fallback h = shown_or_text raw _ refl
shown_by_code Code.invalid_argument raw fallback h = shown_or_text raw _ refl
shown_by_code Code.unavailable raw fallback h = refl
shown_by_code Code.deadline_exceeded raw fallback h = refl
shown_by_code Code.unauthenticated raw fallback h = refl
shown_by_code Code.permission_denied raw fallback h = refl
shown_by_code Code.not_found raw fallback h = refl
shown_by_code Code.already_exists raw fallback h = refl
shown_by_code Code.resource_exhausted raw fallback h = refl
shown_by_code Code.internal raw fallback h = refl
shown_by_code Code.aborted raw fallback h = refl
shown_by_code _ raw fallback h = h

shown_by_message :
    (message fallback : String)
    → is_empty fallback ≡ false
    → is_empty (error_to_message message fallback) ≡ false
unfolding error_to_message
shown_by_message message fallback h =
    shown_if (includes message "ECONNREFUSED" || includes message "connect ECONNREFUSED") _ _ refl
      (shown_if (includes message "timeout" || includes message "Timeout") _ _ refl h)

-- Whatever fails, the user is shown a text, where the fallback is one.
pub to_user_message_shown :
    (e : Failure) (fallback : String)
    → is_empty fallback ≡ false
    → is_empty (to_user_message e fallback) ≡ false
unfolding to_user_message
to_user_message_shown (connect code raw message cause) fallback h =
    shown_by_code code raw fallback h
to_user_message_shown (type_error message cause) fallback h =
    shown_if
      (includes message "fetch" || includes message "ECONNREFUSED" || includes message "network") _
      _ refl (shown_by_message message fallback h)
to_user_message_shown (error message cause) fallback h = shown_by_message message fallback h
to_user_message_shown value fallback h = h
