-- ===== src/Examples/Sessions.antt =====
-- Sessions, the gate, the calls and the pages opened last, at concrete inputs.
use bachelor_thesis.Session.Access.Targets.{IsLocal, login_target-IsLocal}
use bachelor_thesis.Session.WebClient.{intercept}
use bachelor_thesis.Session.Gate.Passing.{IsExpired, proxy-login_iff}
use bachelor_thesis.Session.Access.Members.{IsAdmitted, require_org_member-IsAdmitted}
use bachelor_thesis.Recent.{Area, RecentAccessEntry}
use bachelor_thesis.Session.Access.{
  OrganizationRole, MemberStatus, OrganizationMember, UserSession, Guarded, granted, check_roles,
  check_status, check_member, require_org_member, login_target,
}
use bachelor_thesis.Session.WebClient.Attempts.{IsSound, intercept-IsSound}
use bachelor_thesis.Session.Gate.{
  PageRequest, to_login, Environment, has_session, try_refresh, proxy,
}
use bachelor_thesis.Recent.Cookie.{
  serialize_recent_access, IsLongest, serialize_recent_access-IsLongest,
}
use bachelor_thesis.Prelude.{
  first_chars, begins, utf16_length, ℕ, String, ◌≡◌, refl, ◌↔◌, true, false, Option, none, some,
  List, [], ◌∷◌, str_eq, if◌then◌else◌, any,
}
use bachelor_thesis.Errors.{Code, Failure}
use bachelor_thesis.Session.{UserRole, TokenType, Claims, Answer, verify_access_jwt}
use bachelor_thesis.Examples.Exercises.{same_text}

abbrev teacher_claims : Claims
teacher_claims = record {
  sub = "u1";
  role = UserRole.normal;
  token_type = TokenType.access;
  first_name = "A";
  middle_name = "";
  last_name = "B";
}

abbrev decode_good : String → Option Claims
decode_good t = if str_eq t "good" then some teacher_claims else none

abbrev renewing : Environment
renewing = record {
  production = true;
  lower = same_text;
  decode = decode_good;
  service = λ t. Answer.ok (record { access_token = "good"; refresh_token = t });
}

abbrev dashboard_request : PageRequest
dashboard_request = record {
  pathname = "/dashboard/profile";
  access_cookie = some "old";
  refresh_cookie = none;
  forwarded_proto = some "https";
}

proxy-login_iff_example :
    (proxy renewing dashboard_request ≡ to_login "/dashboard/profile")
    ↔ IsExpired renewing dashboard_request
proxy-login_iff_example = proxy-login_iff renewing dashboard_request

-- Without a token that can be refreshed, the browser is sent to log in.
dashboard_expired : proxy renewing dashboard_request ≡ to_login "/dashboard/profile"
unfolding proxy begins has_session verify_access_jwt try_refresh
dashboard_expired = refl

abbrev flaky : ℕ → Option String → Answer ℕ
flaky ℕ.zero token = Answer.failed (Failure.connect Code.unauthenticated "" "" Failure.value)
flaky (ℕ.suc n) token = Answer.ok n

intercept-IsSound_example :
    IsSound same_text flaky
      (some "new")
      false
      (some "old")
      (intercept same_text flaky (some "new") false false (some "old"))
intercept-IsSound_example = intercept-IsSound same_text flaky (some "new") false false (some "old")

abbrev active_member : OrganizationMember
active_member = record {
  user_id = "u1";
  role = OrganizationRole.teacher;
  status = MemberStatus.active;
}

abbrev teacher_session : UserSession
teacher_session = record { claims = teacher_claims; token = "good" }

abbrev one_member : String → Answer (Option OrganizationMember)
one_member id = Answer.ok (some active_member)

require_org_member-IsAdmitted_example :
    (◌≡◌ {A = Guarded UserSession} (granted teacher_session) (granted teacher_session))
    × IsAdmitted one_member (OrganizationRole.teacher ∷ []) teacher_session active_member
unfolding require_org_member check_member check_status check_roles any
require_org_member-IsAdmitted_example =
    require_org_member-IsAdmitted one_member (OrganizationRole.teacher ∷ [])
      (granted teacher_session) teacher_session active_member refl

login_target-IsLocal_example : IsLocal (login_target decode_good (some "//evil.example") "good")
login_target-IsLocal_example = login_target-IsLocal decode_good (some "//evil.example") "good"

abbrev course_entry : RecentAccessEntry
course_entry = record {
  user_id = "u1";
  id = "c1";
  kind = "course";
  area = Area.dashboard;
  org_slug = some "org";
  title = "Course";
  href = "/dashboard/organizations/org/courses/c1";
  accessed_at = 5;
  subtitle = none;
}

abbrev titles : List RecentAccessEntry → String
titles [] = "[]"
titles (e ∷ es) = e.title

serialize_recent_access-IsLongest_example :
    IsLongest titles utf16_length
      (course_entry ∷ course_entry ∷ [])
      2
      (serialize_recent_access titles utf16_length (course_entry ∷ course_entry ∷ []))
serialize_recent_access-IsLongest_example =
    serialize_recent_access-IsLongest titles utf16_length (course_entry ∷ course_entry ∷ [])

-- A character of two units is kept where both fit.
cut_texts : (first_chars 3 "a😀b" ≡ "a😀") × (first_chars 2 "a😀b" ≡ "a")
unfolding first_chars
cut_texts = (refl, refl)
