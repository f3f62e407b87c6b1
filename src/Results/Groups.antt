-- ===== src/Results/Groups.antt =====
-- The groups of the scatter chart.
use mathlib.Core.List.{append_assoc, append-nil}
use bachelor_thesis.Prelude.{
  subst, ◌≡◌, refl, sym, ap, ◌∙◌, inl, inr, Bool, true, false, ◌&&◌, List, [], ◌∷◌, ◌++◌, arith,
  ◌==◌, Bool-cases, filter, any, All, All-append,
}
use bachelor_thesis.Results.{
  ResultRow, attempted, Group, same_group, new_group, with_member, add_to_group, add_points,
  scatter_groups,
}

abbrev pub same_place : Group → Group → Bool
same_place g h = g.engagement == h.engagement && g.score == h.score

-- No two groups stand at the same place.
abbrev pub Distinct : List Group → Type 0
Distinct [] = Unit
Distinct (g ∷ gs) = All (λ h. same_place g h ≡ false) gs × Distinct gs

-- The members of a group are exactly the rows that stand at its place, in their order.
abbrev pub IsExact : List ResultRow → Group → Type 0
IsExact rows g = g.members ≡ filter (λ r. same_group r g) rows

filter-append :
    (p : ResultRow → Bool) (xs ys : List ResultRow)
    → filter p (xs ++ ys) ≡ filter p xs ++ filter p ys
unfolding filter
filter-append p [] ys = refl
filter-append p (x ∷ xs) ys = elim (Bool-cases (p x)) [
  | inl h ↦ rw (h, filter-append p xs ys) refl
  | inr h ↦ rw (h, filter-append p xs ys) refl
]

filter-snoc_in :
    (p : ResultRow → Bool) (xs : List ResultRow) (r : ResultRow)
    → p r ≡ true
    → filter p (xs ++ r ∷ []) ≡ filter p xs ++ r ∷ []
unfolding filter
filter-snoc_in p xs r h = rw (filter-append p xs (r ∷ []), h) refl

filter-snoc_out :
    (p : ResultRow → Bool) (xs : List ResultRow) (r : ResultRow)
    → p r ≡ false
    → filter p (xs ++ r ∷ []) ≡ filter p xs
unfolding filter
filter-snoc_out p xs r h = rw (filter-append p xs (r ∷ []), h) (append-nil (filter p xs))

-- A row that stands at the place of `g` stands at that of no group apart from it.
elsewhere :
    (r : ResultRow) (g h : Group)
    → same_group r g ≡ true
    → same_place g h ≡ false
    → same_group r h ≡ false
elsewhere r g h e k = ground arith

IsExact-elsewhere :
    (rows : List ResultRow) (r : ResultRow) (g : Group) (gs : List Group)
    → same_group r g ≡ true
    → All (λ h. same_place g h ≡ false) gs
    → All (IsExact rows) gs
    → All (IsExact (rows ++ r ∷ [])) gs
IsExact-elsewhere rows r g [] e a x = tt
IsExact-elsewhere rows r g (h ∷ hs) e a x = (
  x.0 ∙ sym (filter-snoc_out (λ q. same_group q h) rows r (elsewhere r g h e a.0)),
  IsExact-elsewhere rows r g hs e a.1 x.1,
)

-- A row at a place where no group stands is at the place of no row of the groups.
no_group :
    (r q : ResultRow) (gs : List Group)
    → any (same_group r) gs ≡ false
    → any (same_group q) gs ≡ true
    → same_group q (new_group r) ≡ false
unfolding any
no_group r q [] h k = cc
no_group r q (g ∷ gs) h k = ground (arith, no_group r q gs)

none_before :
    (r : ResultRow) (gs : List Group) (rows : List ResultRow)
    → any (same_group r) gs ≡ false
    → All (λ q. any (same_group q) gs ≡ true) rows
    → filter (λ q. same_group q (new_group r)) rows ≡ []
unfolding filter
none_before r gs [] h a = refl
none_before r gs (q ∷ rows) h a = rw (no_group r q gs h a.0) (none_before r gs rows h a.1)

at_new : (r : ResultRow) → same_group r (new_group r) ≡ true
at_new r = ground arith

IsExact-new :
    (r : ResultRow) (rows : List ResultRow)
    → filter (λ q. same_group q (new_group r)) rows ≡ []
    → IsExact (rows ++ r ∷ []) (new_group r)
IsExact-new r rows h = sym (
    filter-snoc_in (λ q. same_group q (new_group r)) rows r (at_new r)
    ∙ ap (λ (xs : List ResultRow). xs ++ r ∷ []) h)

IsExact-with :
    (r : ResultRow) (g : Group) (rows : List ResultRow)
    → same_group r g ≡ true
    → IsExact rows g
    → IsExact (rows ++ r ∷ []) (with_member r g)
IsExact-with r g rows e x =
    ap (λ (xs : List ResultRow). xs ++ r ∷ []) x
    ∙ sym (filter-snoc_in (λ q. same_group q g) rows r e)

-- Where no group stands at the place of `r`, no row before it does.
abbrev IsFresh : ResultRow → List ResultRow → List Group → Type 0
IsFresh r rows gs =
    any (same_group r) gs ≡ false → filter (λ q. same_group q (new_group r)) rows ≡ []

add_to_group-IsExact :
    (r : ResultRow) (rows : List ResultRow) (gs : List Group)
    → Distinct gs
    → IsFresh r rows gs
    → All (IsExact rows) gs
    → All (IsExact (rows ++ r ∷ [])) (add_to_group r gs)
unfolding add_to_group any
add_to_group-IsExact r rows [] d f x = (IsExact-new r rows (f refl), tt)
add_to_group-IsExact r rows (g ∷ gs) d f x = elim (Bool-cases (same_group r g)) [
  | inl e ↦ rw e (IsExact-with r g rows e x.0, IsExact-elsewhere rows r g gs e d.0 x.1)
  | inr e ↦
      let rest : IsFresh r rows gs = λ k. f (rw (e, k) refl) in
      rw e (
        x.0 ∙ sym (filter-snoc_out (λ q. same_group q g) rows r e),
        add_to_group-IsExact r rows gs d.1 rest x.1,
      )
]

-- A row that has a group keeps one, and the row that is added gets one.
add_to_group-keeps :
    (r q : ResultRow) (gs : List Group)
    → any (same_group q) gs ≡ true
    → any (same_group q) (add_to_group r gs) ≡ true
unfolding add_to_group any
add_to_group-keeps r q [] h = cc
add_to_group-keeps r q (g ∷ gs) h = elim (Bool-cases (same_group r g)) [
  | inl e ↦ rw e h
  | inr e ↦ rw e (ground (arith, add_to_group-keeps r q gs))
]

add_to_group-holds :
    (r : ResultRow) (gs : List Group) → any (same_group r) (add_to_group r gs) ≡ true
unfolding add_to_group any
add_to_group-holds r [] = rw (at_new r) refl
add_to_group-holds r (g ∷ gs) = elim (Bool-cases (same_group r g)) [
  | inl e ↦ rw (e, e) refl
  | inr e ↦ rw (e, e) (add_to_group-holds r gs)
]

All-kept :
    (r : ResultRow) (gs : List Group) (rows : List ResultRow)
    → All (λ q. any (same_group q) gs ≡ true) rows
    → All (λ q. any (same_group q) (add_to_group r gs) ≡ true) rows
All-kept r gs [] h = tt
All-kept r gs (q ∷ rows) h = (add_to_group-keeps r q gs h.0, All-kept r gs rows h.1)

apart_after :
    (g : Group) (r : ResultRow) (gs : List Group)
    → same_group r g ≡ false
    → All (λ h. same_place g h ≡ false) gs
    → All (λ h. same_place g h ≡ false) (add_to_group r gs)
unfolding add_to_group
apart_after g r [] e k = (ground arith, tt)
apart_after g r (h ∷ gs) e k = elim (Bool-cases (same_group r h)) [
  | inl i ↦ rw i k
  | inr i ↦ rw i (k.0, apart_after g r gs e k.1)
]

add_to_group-Distinct :
    (r : ResultRow) (gs : List Group) → Distinct gs → Distinct (add_to_group r gs)
unfolding add_to_group
add_to_group-Distinct r [] d = (tt, tt)
add_to_group-Distinct r (g ∷ gs) d = elim (Bool-cases (same_group r g)) [
  | inl e ↦ rw e d
  | inr e ↦ rw e (apart_after g r gs e d.0, add_to_group-Distinct r gs d.1)
]

-- Each row has a group, the members of a group are exactly the rows at its place, and no two groups stand
-- at the same place.
pub record IsGrouping (rows : List ResultRow) (gs : List Group) : Type 0 where
  pub covered : All (λ r. any (same_group r) gs ≡ true) rows
  pub exact : All (IsExact rows) gs
  pub distinct : Distinct gs

add_to_group-IsGrouping :
    (r : ResultRow) (rows : List ResultRow) (gs : List Group)
    → IsGrouping rows gs
    → IsGrouping (rows ++ r ∷ []) (add_to_group r gs)
add_to_group-IsGrouping r rows gs k = record {
  covered =
      All-append (λ q. any (same_group q) (add_to_group r gs) ≡ true) rows (r ∷ [])
        (All-kept r gs rows k.covered) (add_to_group-holds r gs, tt);
  exact =
      add_to_group-IsExact r rows gs k.distinct (λ h. none_before r gs rows h k.covered) k.exact;
  distinct = add_to_group-Distinct r gs k.distinct;
}

add_points-IsGrouping :
    (before rows : List ResultRow) (gs : List Group)
    → IsGrouping before gs
    → IsGrouping (before ++ rows) (add_points gs rows)
unfolding add_points
add_points-IsGrouping before [] gs k = subst (λ xs. IsGrouping xs gs) (sym (append-nil before)) k
add_points-IsGrouping before (r ∷ rows) gs k =
    subst (λ xs. IsGrouping xs (add_points (add_to_group r gs) rows))
      (append_assoc before (r ∷ []) rows)
      (add_points-IsGrouping (before ++ r ∷ []) rows (add_to_group r gs)
        (add_to_group-IsGrouping r before gs k))

-- Each student who has answered has a group; the members of a group are exactly the students who have
-- answered, with all their figures and in their order, whose rounded engagement and score are those of the
-- group; and no two groups stand at the same place.
pub scatter_groups-IsGrouping :
    (rows : List ResultRow) → IsGrouping (filter attempted rows) (scatter_groups rows)
unfolding scatter_groups
scatter_groups-IsGrouping rows =
    add_points-IsGrouping [] (filter attempted rows) []
      (record { covered = tt; exact = tt; distinct = tt })
