-- ===== src/Course.antt =====
-- The pages of a course and of a lesson: who manages them, and the modes that they are shown in
-- (courses/[courseId]/page.tsx and courses/[courseId]/lessons/[lessonId]/page.tsx).
pub mod Overview
pub mod Access
pub mod Scores
pub mod Progress
use bachelor_thesis.Session.Access.{OrganizationRole, same_role}
use bachelor_thesis.Prelude.{
  ℕ, suc, String, Bool, true, false, ◌&&◌, ◌||◌, not, Option, none, some, List, [], ◌∷◌, ◌++◌,
  str_eq, leb, if◌then◌else◌, get_elem?, filter, any, insert_by, sort_by,
}
use bachelor_thesis.Chunks.{find_index}

pub data CourseRole : Type 0 where
  unspecified teacher student : CourseRole

-- The user's own membership of the course, where the service said one.
pub record Membership : Type 0 where
  pub is_member : Bool
  pub role : CourseRole

-- Who looks at a course: the user, the role in the organization, the owner of the course, and the
-- membership, `none` where it could not be resolved.
pub record Visitor : Type 0 where
  pub user_id : String
  pub org_role : OrganizationRole
  pub owner_id : String
  pub membership : Option Membership

abbrev is_teacher : CourseRole → Bool
is_teacher CourseRole.teacher = true
is_teacher _ = false

abbrev pub is_manager_member : Option Membership → Bool
is_manager_member none = false
is_manager_member (some m) = m.is_member && is_teacher m.role

abbrev can_manage_org_roles : List OrganizationRole
can_manage_org_roles = OrganizationRole.owner ∷ OrganizationRole.admin ∷ []

abbrev can_request_manager_org_roles : List OrganizationRole
can_request_manager_org_roles =
    OrganizationRole.owner ∷ OrganizationRole.admin ∷ OrganizationRole.teacher ∷ []

unfoldable pub can_manage_via_org : Visitor → Bool
unfolding any
can_manage_via_org v = any (same_role v.org_role) can_manage_org_roles

unfoldable pub can_request_manager : Visitor → Bool
unfolding any
can_request_manager v = any (same_role v.org_role) can_request_manager_org_roles

abbrev pub is_course_owner : Visitor → Bool
is_course_owner v = str_eq v.owner_id v.user_id

-- `canManage` of the course's page.
unfoldable pub can_manage_course : Visitor → Bool
unfolding can_manage_via_org
can_manage_course v = is_course_owner v || can_manage_via_org v || is_manager_member v.membership

-- `canManage` of the lesson's page.
unfoldable pub can_manage_lesson : Visitor → Bool
unfolding any
can_manage_lesson v =
    any (same_role v.org_role)
      (OrganizationRole.owner ∷ OrganizationRole.admin ∷ OrganizationRole.teacher ∷ [])

abbrev is_learn : Option String → Bool
is_learn none = false
is_learn (some mode) = str_eq mode "learn"

abbrev is_one : Option String → Bool
is_one none = false
is_one (some preview) = str_eq preview "1"

-- How a page is shown, for its parameters `mode` and `preview`.
unfoldable pub learn_mode : Bool → Option String → Bool
learn_mode manages mode = manages && is_learn mode

unfoldable pub render_as_manager : Bool → Option String → Bool
unfolding learn_mode
render_as_manager manages mode = manages && not (learn_mode manages mode)

unfoldable pub is_preview : Bool → Option String → Option String → Bool
unfolding learn_mode
is_preview manages mode preview = not (learn_mode manages mode) && is_one preview && manages

unfoldable pub effective_can_manage : Bool → Option String → Option String → Bool
unfolding learn_mode is_preview
effective_can_manage manages mode preview =
    manages && not (is_preview manages mode preview) && not (learn_mode manages mode)

pub data TeacherTab : Type 0 where
  content processing results : TeacherTab

unfoldable pub normalize_tab : Option String → TeacherTab
normalize_tab none = TeacherTab.content
normalize_tab (some raw) =
    if str_eq raw "exercises"
    then TeacherTab.processing
    else if str_eq raw "processing"
    then TeacherTab.processing
    else if str_eq raw "results"
    then TeacherTab.results
    else TeacherTab.content

pub record CourseModule : Type 0 where
  pub id : String
  pub title : String
  pub order_index : ℕ

pub record Lesson : Type 0 where
  pub id : String
  pub module_id : String
  pub title : String
  pub duration_seconds : ℕ
  pub order_index : ℕ

abbrev module_before : CourseModule → CourseModule → Bool
module_before a b = leb a.order_index b.order_index

abbrev lesson_before : Lesson → Lesson → Bool
lesson_before a b = leb a.order_index b.order_index

abbrev pub is_of_module : CourseModule → Lesson → Bool
is_of_module m l = str_eq l.module_id m.id

abbrev lessons_in : List Lesson → List CourseModule → List Lesson
unfolding filter insert_by sort_by
lessons_in lessons [] = []
lessons_in lessons (m ∷ ms) =
    sort_by lesson_before (filter (is_of_module m) lessons) ++ lessons_in lessons ms

-- The lessons of a course in the order that they are shown in.
unfoldable pub ordered_lessons : List CourseModule → List Lesson → List Lesson
unfolding insert_by sort_by lessons_in
ordered_lessons modules lessons = lessons_in lessons (sort_by module_before modules)

abbrev lesson_at : Option ℕ → List Lesson → Option Lesson
lesson_at none ordered = none
lesson_at (some i) ordered = get_elem? ordered (suc i)

-- The lesson after the one that is shown.
unfoldable pub next_lesson_after : String → List CourseModule → List Lesson → Option Lesson
unfolding ordered_lessons find_index
next_lesson_after id modules lessons =
    let ordered = ordered_lessons modules lessons in
    lesson_at (find_index (λ l. str_eq l.id id) ordered) ordered
