-- ===== src/Members.antt =====
-- The server actions on the members of a course and of an organization (app/actions/course-members.ts and
-- organization-members.ts), and the teacher's list of join requests (join-requests-tab.tsx of
-- app/dashboard/organizations/[slug]/courses/[courseId]/). What the service answers is a parameter.
pub mod Effects
use bachelor_thesis.Prelude.{
  join_text, String, Bool, true, false, ◌&&◌, Option, none, some, List, [], ◌∷◌, str_eq,
  if◌then◌else◌, is_empty,
}
use bachelor_thesis.Errors.{Failure, to_user_message}
use bachelor_thesis.Session.Access.{UserSession}
use bachelor_thesis.Course.{CourseRole}

-- What an action asks the service for.
pub data MemberRequest : Type 0 where
  create_join_request : String → CourseRole → MemberRequest
  enroll_self : String → CourseRole → MemberRequest
  review_join_request : String → String → Bool → MemberRequest
  respond_to_invitation : String → Bool → MemberRequest

-- What an action does: a call for the user of a token, and the page that is to be drawn again.
pub data MemberEffect : Type 0 where
  sends : String → MemberRequest → MemberEffect
  revalidates : String → MemberEffect

pub data MemberResult : Type 0 where
  succeeded : MemberResult
  denied : String → MemberResult

-- The service: what it throws for a token and a request, where it throws.
abbrev pub MemberService : Type 0
MemberService = String → MemberRequest → Option Failure

-- The token of a session, where it has one.
abbrev pub token_of : Option UserSession → Option String
token_of none = none
token_of (some s) = if is_empty s.token then none else some s.token

answered_by : String → String → Option Failure → List MemberEffect × MemberResult
unfolding to_user_message
answered_by path fallback none = (revalidates path ∷ [], succeeded)
answered_by path fallback (some e) = ([], denied (to_user_message e fallback))

-- The steps that the four actions share, with the page and the message for failures of each.
unfoldable pub member_action :
    MemberService
    → String
    → String
    → MemberRequest
    → Option String
    → List MemberEffect × MemberResult
unfolding answered_by
member_action service path fallback r none = ([], denied "Bạn chưa đăng nhập")
member_action service path fallback r (some token) =
    let (effects, result) = answered_by path fallback (service token r) in
    (sends token r ∷ effects, result)

-- `/dashboard/organizations/${slug}/courses/${courseId}`.
course_path : String → String → String
unfolding join_text
course_path slug course =
    join_text "/dashboard/organizations/" (join_text slug (join_text "/courses/" course))

unfoldable pub create_join_request_action :
    MemberService
    → Option UserSession
    → String
    → String
    → CourseRole
    → List MemberEffect × MemberResult
unfolding member_action course_path
create_join_request_action service session slug course role =
    member_action service (course_path slug course) "Không thể gửi yêu cầu tham gia khóa học"
      (create_join_request course role) (token_of session)

unfoldable pub enroll_self_action :
    MemberService
    → Option UserSession
    → String
    → String
    → CourseRole
    → List MemberEffect × MemberResult
unfolding member_action course_path
enroll_self_action service session slug course role =
    member_action service (course_path slug course) "Không thể tham gia khóa học"
      (enroll_self course role) (token_of session)

abbrev review_fallback : Bool → String
review_fallback true = "Không thể phê duyệt yêu cầu"
review_fallback false = "Không thể từ chối yêu cầu"

unfoldable pub review_join_request_action :
    MemberService
    → Option UserSession
    → String
    → String
    → String
    → Bool
    → List MemberEffect × MemberResult
unfolding member_action course_path
review_join_request_action service session slug course user approve =
    member_action service (course_path slug course) (review_fallback approve)
      (review_join_request course user approve) (token_of session)

abbrev respond_fallback : Bool → String
respond_fallback true = "Không thể chấp nhận lời mời"
respond_fallback false = "Không thể từ chối lời mời"

unfoldable pub respond_to_org_invitation_action :
    MemberService → Option UserSession → String → Bool → List MemberEffect × MemberResult
unfolding member_action
respond_to_org_invitation_action service session org accept =
    member_action service "/dashboard/organizations" (respond_fallback accept)
      (respond_to_invitation org accept) (token_of session)

-- The state of the list of join requests.
pub record JoinRequestsTab : Type 0 where
  pub is_pending : Bool
  pub processing_user : Option String

-- `handleReview` up to the call; the buttons of every row are disabled while one is pending.
unfoldable pub handle_review : String → JoinRequestsTab → JoinRequestsTab
handle_review user s =
    if s.is_pending then s else record { is_pending = true; processing_user = some user }

-- Its `finally`, whatever the action returned.
abbrev pub review_ended : MemberResult → JoinRequestsTab → JoinRequestsTab
review_ended result s = record { is_pending = false; processing_user = none }

abbrev is_user : String → Option String → Bool
is_user user none = false
is_user user (some u) = str_eq u user

-- Whether a row shows that it is being processed.
abbrev pub is_loading : JoinRequestsTab → String → Bool
is_loading s user = s.is_pending && is_user user s.processing_user
