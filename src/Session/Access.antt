-- ===== src/Session/Access.antt =====
-- Who may see a page, and logging in, registering and logging out (typescript/heino/src/lib/auth.ts and
-- app/actions/auth.ts).
pub mod Members
pub mod Targets
use bachelor_thesis.Prelude.{
  trim, utf16_length, String, Bool, true, false, ◌&&◌, ◌||◌, not, Option, none, some, List, ltb,
  if◌then◌else◌, get_or, is_empty, length, any,
}
use bachelor_thesis.Errors.{Code, Failure}
use bachelor_thesis.Session.{UserRole, Claims, Tokens, Answer, verify_access_jwt, safe_next}

pub data OrganizationRole : Type 0 where
  unspecified owner admin teacher student : OrganizationRole

pub data MemberStatus : Type 0 where
  unspecified active invited suspended : MemberStatus

pub record OrganizationMember : Type 0 where
  pub user_id : String
  pub role : OrganizationRole
  pub status : MemberStatus

pub record UserSession : Type 0 where
  pub claims : Claims
  pub token : String

-- What a page gets: a value, a redirection, or a failure that is thrown on.
pub data Guarded (A : Type 0) : Type 0 where
  granted : A → Guarded A
  redirected : String → Guarded A
  thrown : Failure → Guarded A

abbrev session_of : String → Option Claims → Option UserSession
session_of token none = none
session_of token (some c) = some (record { claims = c; token = token })

unfoldable pub get_session : (String → Option Claims) → Option String → Option UserSession
unfolding verify_access_jwt
get_session decode none = none
get_session decode (some token) =
    if is_empty token then none else session_of token (verify_access_jwt decode token)

abbrev login_path : (String → String) → Option String → String
login_path login_with none = "/login"
login_path login_with (some path) = login_with path

-- `requireSession`; `login_with` builds the log-in address that comes back to a path.
unfoldable pub require_session :
    (String → String) → Option String → Option UserSession → Guarded UserSession
unfolding safe_next
require_session login_with pathname (some s) = granted s
require_session login_with pathname none = redirected (login_path login_with (safe_next pathname))

abbrev pub same_user_role : UserRole → UserRole → Bool
same_user_role UserRole.unspecified UserRole.unspecified = true
same_user_role UserRole.normal UserRole.normal = true
same_user_role UserRole.admin UserRole.admin = true
same_user_role _ _ = false

unfoldable pub require_role : List UserRole → Guarded UserSession → Guarded UserSession
unfolding any
require_role roles (granted s) =
    if any (same_user_role s.claims.role) roles then granted s else redirected "/unauthorized"
require_role roles g = g

abbrev pub same_role : OrganizationRole → OrganizationRole → Bool
same_role OrganizationRole.unspecified OrganizationRole.unspecified = true
same_role OrganizationRole.owner OrganizationRole.owner = true
same_role OrganizationRole.admin OrganizationRole.admin = true
same_role OrganizationRole.teacher OrganizationRole.teacher = true
same_role OrganizationRole.student OrganizationRole.student = true
same_role _ _ = false

abbrev pub is_not_found : Failure → Bool
is_not_found (Failure.connect Code.not_found raw message cause) = true
is_not_found _ = false

unfoldable pub check_roles :
    List OrganizationRole
    → UserSession
    → OrganizationMember
    → Guarded (UserSession × OrganizationMember)
unfolding any
check_roles roles s m =
    if ltb 0 (length roles) && not (any (same_role m.role) roles)
    then redirected "/unauthorized"
    else granted (s, m)

unfoldable pub check_status :
    List OrganizationRole
    → UserSession
    → OrganizationMember
    → MemberStatus
    → Guarded (UserSession × OrganizationMember)
unfolding check_roles
check_status roles s m MemberStatus.invited = redirected "/dashboard/organizations"
check_status roles s m MemberStatus.active = check_roles roles s m
check_status roles s m _ = redirected "/unauthorized"

unfoldable pub check_member :
    List OrganizationRole
    → UserSession
    → Answer (Option OrganizationMember)
    → Guarded (UserSession × OrganizationMember)
unfolding check_status
check_member roles s (Answer.ok none) = redirected "/unauthorized"
check_member roles s (Answer.ok (some m)) = check_status roles s m m.status
check_member roles s (Answer.failed e) =
    if is_not_found e then redirected "/unauthorized" else thrown e

-- `requireOrgMember`; `service` looks the user up in the organization.
unfoldable pub require_org_member :
    (String → Answer (Option OrganizationMember))
    → List OrganizationRole
    → Guarded UserSession
    → Guarded (UserSession × OrganizationMember)
unfolding check_member
require_org_member service roles (granted s) = check_member roles s (service s.claims.sub)
require_org_member service roles (redirected path) = redirected path
require_org_member service roles (thrown e) = thrown e

-- What an action answers: an error for the form, success, or a redirection.
pub data ActionResult : Type 0 where
  form_error : String → ActionResult
  success : ActionResult
  redirect_to : String → ActionResult

abbrev login_error : Failure → String
login_error (Failure.connect Code.permission_denied raw message cause) =
    "Tài khoản chưa được kích hoạt"
login_error _ = "Email hoặc mật khẩu không đúng"

abbrev pub is_normal : Option Claims → Bool
is_normal (some c) = same_user_role c.role UserRole.normal
is_normal none = false

unfoldable pub login_target : (String → Option Claims) → Option String → String → String
unfolding safe_next verify_access_jwt
login_target decode next token =
    get_or (safe_next next)
      (if is_normal (verify_access_jwt decode token) then "/dashboard" else "/admin/users")

-- `login`, with the tokens that it stores.
logged_in : (String → Option Claims) → Option String → Answer Tokens → ActionResult × Option Tokens
unfolding login_target
logged_in decode next (Answer.ok t) =
    (redirect_to (login_target decode next t.access_token), some t)
logged_in decode next (Answer.failed e) = (form_error (login_error e), none)

abbrev field : Option String → String
field none = ""
field (some s) = s

unfoldable pub login :
    (String → Option Claims)
    → (String → String → Answer Tokens)
    → Option String
    → Option String
    → Option String
    → ActionResult × Option Tokens
unfolding logged_in trim
login decode service email password next =
    if is_empty (trim (field email)) || is_empty (field password)
    then (form_error "Vui lòng nhập email và mật khẩu", none)
    else logged_in decode next (service (trim (field email)) (field password))

pub record Registration : Type 0 where
  pub email : String
  pub password : String
  pub first_name : String
  pub last_name : String
  pub middle_name : Option String

abbrev is_taken : Failure → Bool
is_taken (Failure.connect Code.already_exists raw message cause) = true
is_taken _ = false

registered : Answer Unit → ActionResult
registered (Answer.ok u) = success
registered (Answer.failed e) =
    form_error (if is_taken e then "Email đã được đăng ký" else "Không thể đăng ký tài khoản")

abbrev optional : String → Option String
optional s = if is_empty s then none else some s

unfoldable pub register_user :
    (Registration → Answer Unit)
    → Option String
    → Option String
    → Option String
    → Option String
    → Option String
    → ActionResult
unfolding registered trim
register_user service email password first last middle =
    if is_empty (trim (field email))
      || is_empty (field password)
      || is_empty (trim (field first))
      || is_empty (trim (field last))
    then form_error "Vui lòng điền đầy đủ thông tin"
    else if ltb (utf16_length (field password)) 8
    then form_error "Mật khẩu phải có ít nhất 8 ký tự"
    else registered (
        service (record {
          email = trim (field email);
          password = field password;
          first_name = trim (field first);
          last_name = trim (field last);
          middle_name = optional (trim (field middle));
        }))
