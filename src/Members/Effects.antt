-- ===== src/Members/Effects.antt =====
-- What an action on members does and what it returns.
use bachelor_thesis.Prelude.{
  String, ◌≡◌, refl, inl, inr, Bool, true, false, Option, none, some, Option-cases, any, All,
}
use bachelor_thesis.Members.{
  MemberRequest, MemberEffect, sends, revalidates, MemberResult, succeeded, denied, MemberService,
  answered_by, member_action,
}

abbrev is_revalidation : MemberEffect → Bool
is_revalidation (sends token r) = false
is_revalidation (revalidates path) = true

abbrev is_success : MemberResult → Bool
is_success succeeded = true
is_success (denied msg) = false

-- An effect for the user of the session: the request of the action, or its page.
abbrev IsOf : Option String → MemberRequest → String → MemberEffect → Type 0
IsOf token r path (sends t q) = (token ≡ some t) × (q ≡ r)
IsOf token r path (revalidates p) = p ≡ path

-- The page is drawn again exactly where the action succeeds.
pub member_action_revalidates :
    (service : MemberService) (path fallback : String) (r : MemberRequest) (token : Option String)
    → any is_revalidation (member_action service path fallback r token).0
      ≡ is_success (member_action service path fallback r token).1
unfolding member_action answered_by any
member_action_revalidates service path fallback r none = refl
member_action_revalidates service path fallback r (some t) = elim (Option-cases (service t r)) [
  | inl e ↦ rw e refl
  | inr (x, e) ↦ rw e refl
]

-- Whatever the service answers, an action sends its own request for the user of the session alone.
pub member_action_sends :
    (service : MemberService) (path fallback : String) (r : MemberRequest) (token : Option String)
    → All (IsOf token r path) (member_action service path fallback r token).0
unfolding member_action answered_by
member_action_sends service path fallback r none = tt
member_action_sends service path fallback r (some t) = elim (Option-cases (service t r)) [
  | inl e ↦ rw e ((refl, refl), (refl, tt))
  | inr (x, e) ↦ rw e ((refl, refl), tt)
]
