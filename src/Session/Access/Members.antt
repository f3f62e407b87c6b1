-- ===== src/Session/Access/Members.antt =====
-- Only active members with one of the roles see the pages of an organization.
use bachelor_thesis.Errors.{Failure}
use bachelor_thesis.Prelude.{
  String, ◌≡◌, refl, ap, inl, inr, Bool, true, false, ◌&&◌, not, Option, none, some, List, arith,
  ltb, if◌then◌else◌, Bool-cases, length, any,
}
use bachelor_thesis.Session.{Answer}
use bachelor_thesis.Session.Access.{
  OrganizationRole, MemberStatus, OrganizationMember, UserSession, Guarded, granted, redirected,
  same_role, is_not_found, check_roles, check_status, check_member, require_org_member,
}

-- What the service and the roles must say of a member who is let in.
pub record IsAdmitted (service : String → Answer (Option OrganizationMember))
    (roles : List OrganizationRole) (s : UserSession) (m : OrganizationMember) : Type 0 where
  pub found : service s.claims.sub ≡ Answer.ok (some m)
  pub active : m.status ≡ MemberStatus.active
  pub allowed : ltb 0 (length roles) ≡ true → any (same_role m.role) roles ≡ true

-- What passing the roles says.
RolesPass :
    List OrganizationRole
    → UserSession
    → OrganizationMember
    → UserSession
    → OrganizationMember
    → Type 0
RolesPass roles s n t m =
    (s ≡ t) × (n ≡ m) × (ltb 0 (length roles) ≡ true → any (same_role n.role) roles ≡ true)

not_refused : (a b : Bool) → (a && not b) ≡ false → a ≡ true → b ≡ true
not_refused a b h k = ground arith

check_roles_lem :
    (roles : List OrganizationRole) (s t : UserSession) (n m : OrganizationMember)
    → check_roles roles s n ≡ granted (t, m)
    → RolesPass roles s n t m
unfolding check_roles RolesPass
check_roles_lem roles s t n m h =
    elim (Bool-cases (ltb 0 (length roles) && not (any (same_role n.role) roles))) [
      | inl r ↦ absurd (clash (rw r at h))
      | inr r ↦
          let e : ◌≡◌ {A = Guarded (UserSession × OrganizationMember)} (granted (s, n))
              (granted (t, m)) =
            rw r at h in
          (cc, cc, not_refused _ _ r)
    ]
  where
    clash :
        ◌≡◌ {A = Guarded (UserSession × OrganizationMember)}
          (redirected "/unauthorized")
          (granted (t, m))
        → ⊥
    clash e = cc

check_status_lem :
    (roles : List OrganizationRole) (s t : UserSession) (n m : OrganizationMember)
    (st : MemberStatus)
    → check_status roles s n st ≡ granted (t, m)
    → (st ≡ MemberStatus.active) × RolesPass roles s n t m
unfolding check_status
check_status_lem roles s t n m MemberStatus.unspecified h = cc
check_status_lem roles s t n m MemberStatus.active h = (refl, check_roles_lem roles s t n m h)
check_status_lem roles s t n m MemberStatus.invited h = cc
check_status_lem roles s t n m MemberStatus.suspended h = cc

status_pass :
    (roles : List OrganizationRole) (s t : UserSession) (n m : OrganizationMember)
    → check_status roles s n n.status ≡ granted (t, m)
    → (n.status ≡ MemberStatus.active)
      × (s ≡ t)
      × (n ≡ m)
      × (ltb 0 (length roles) ≡ true → any (same_role n.role) roles ≡ true)
unfolding RolesPass
status_pass roles s t n m h =
    let (st, p) = check_status_lem roles s t n m n.status h in
    let (same, who, allowed) = p in (st, same, who, allowed)

not_granted :
    (b : Bool) (path : String) (e : Failure) (p : UserSession × OrganizationMember)
    → (if b then redirected path else Guarded.thrown e) ≡ granted p
    → ⊥
not_granted true path e p h = cc
not_granted false path e p h = cc

check_member_lem :
    (service : String → Answer (Option OrganizationMember)) (roles : List OrganizationRole)
    (s t : UserSession) (m : OrganizationMember) (a : Answer (Option OrganizationMember))
    → service s.claims.sub ≡ a
    → check_member roles s a ≡ granted (t, m)
    → (s ≡ t) × IsAdmitted service roles t m
unfolding check_member
check_member_lem service roles s t m (Answer.ok none) q h = cc
check_member_lem service roles s t m (Answer.ok (some n)) q h =
    let (st, same, who, allowed) = status_pass roles s t n m h in
    (
      same,
      record { found = rw (same, who) at q; active = rw who at st; allowed = rw who at allowed },
    )
check_member_lem service roles s t m (Answer.failed e) q h =
    absurd (not_granted (is_not_found e) "/unauthorized" e (t, m) h)

-- Whoever is let in has a session, and is an active member with one of the roles that are asked for.
pub require_org_member-IsAdmitted :
    (service : String → Answer (Option OrganizationMember)) (roles : List OrganizationRole)
    (g : Guarded UserSession) (s : UserSession) (m : OrganizationMember)
    → require_org_member service roles g ≡ granted (s, m)
    → (g ≡ granted s) × IsAdmitted service roles s m
unfolding require_org_member
require_org_member-IsAdmitted service roles (granted t) s m h =
    let (same, k) = check_member_lem service roles t s m (service t.claims.sub) refl h in
    (ap granted same, k)
require_org_member-IsAdmitted service roles (redirected path) s m h = cc
require_org_member-IsAdmitted service roles (Guarded.thrown e) s m h = cc
