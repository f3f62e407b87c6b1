-- ===== src/Course/Access.antt =====
-- Who is shown the manager's view of a course and of its lessons.
use bachelor_thesis.Prelude.{◌≡◌, Bool, true, false, ◌&&◌, ◌||◌, not, arith, if◌then◌else◌, any}
use bachelor_thesis.Session.Access.{OrganizationRole}
use bachelor_thesis.Course.{
  Visitor, is_manager_member, can_manage_via_org, is_course_owner, can_manage_course,
  can_manage_lesson,
}

abbrev pub is_org_teacher : OrganizationRole → Bool
is_org_teacher OrganizationRole.teacher = true
is_org_teacher _ = false

-- The visitor manages the course by owning it or by a membership of it.
abbrev pub manages_by_course : Visitor → Bool
manages_by_course v = is_course_owner v || is_manager_member v.membership

abbrev pub differ : Bool → Bool → Bool
differ true b = not b
differ false b = b

by_role :
    (role : OrganizationRole) (v : Visitor)
    → differ
        (can_manage_course (record v { org_role = role }))
        (can_manage_lesson (record v { org_role = role }))
      ≡ (if is_org_teacher role
          then not (manages_by_course v)
          else not (can_manage_via_org (record v { org_role = role })) && manages_by_course v)
unfolding can_manage_course can_manage_lesson can_manage_via_org any
by_role OrganizationRole.unspecified v = ground arith
by_role OrganizationRole.owner v = ground arith
by_role OrganizationRole.admin v = ground arith
by_role OrganizationRole.teacher v = ground arith
by_role OrganizationRole.student v = ground arith

-- The pages of a course and of its lessons disagree on who manages it exactly for a teacher of the
-- organization who neither owns the course nor is a manager member of it, and for an owner or a manager
-- member of the course who is neither an owner, an administrator nor a teacher of the organization.
pub can_manage_course-differ :
    (v : Visitor)
    → differ (can_manage_course v) (can_manage_lesson v) ≡ (
        if is_org_teacher v.org_role
        then not (manages_by_course v)
        else not (can_manage_via_org v) && manages_by_course v)
can_manage_course-differ v = by_role v.org_role v
