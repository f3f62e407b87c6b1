-- ===== src/Course/Progress.antt =====
-- The progress of a student.
use bachelor_thesis.Prelude.{
  ℕ, ◌+◌, ◌≤◌, String, ◌≡◌, refl, sym, ap, ◌∙◌, inl, inr, true, Option, none, some, List, [], ◌∷◌,
  ◌++◌, map, arith, str_eq, eq_iff, ltb, if◌then◌else◌, ltb→lt, Bool-cases, get_or, if-elim, length,
  filter, All, Ids, add, get, set, get-set, percent, percent_le,
}
use bachelor_thesis.Course.{CourseModule, Lesson}
use bachelor_thesis.Course.Overview.{
  group_lessons, with_lessons, modules_with_lessons, Attempt, Totals, no_totals, add_score,
  add_attempt, collect, total_lessons, my_progress_pct,
}

append_assoc {ℓ} : {A : Type ℓ} (xs ys zs : List A) → (xs ++ ys) ++ zs ≡ xs ++ (ys ++ zs)
append_assoc [] ys zs = refl
append_assoc (x ∷ xs) ys zs = ap (λ r. x ∷ r) (append_assoc xs ys zs)

append_nil {ℓ} : {A : Type ℓ} (xs : List A) → xs ++ [] ≡ xs
append_nil [] = refl
append_nil (x ∷ xs) = ap (λ r. x ∷ r) (append_nil xs)

abbrev of_id : String → List Lesson → List Lesson
of_id k = filter (λ l. str_eq l.module_id k)

abbrev grouped : List (String × List Lesson) → String → List Lesson
grouped groups k = get_or (get groups k) []

grouped-set :
    (groups : List (String × List Lesson)) (k j : String) (ls : List Lesson)
    → grouped (set groups k ls) j ≡ (if str_eq k j then ls else grouped groups j)
grouped-set groups k j ls = rw (get-set groups k j ls) (ground arith)

added :
    (groups : List (String × List Lesson)) (l : Lesson) (rest : List Lesson) (k : String)
    → str_eq l.module_id k ≡ true
    → (grouped groups l.module_id ++ l ∷ []) ++ rest ≡ grouped groups k ++ l ∷ rest
added groups l rest k e =
    let moved : grouped groups l.module_id ++ l ∷ rest ≡ grouped groups k ++ l ∷ rest =
      ap (λ (j : String). grouped groups j ++ l ∷ rest) ((eq_iff l.module_id k).0 e) in
    let first : (grouped groups l.module_id ++ l ∷ []) ++ rest
        ≡ grouped groups l.module_id ++ l ∷ rest =
      append_assoc (grouped groups l.module_id) (l ∷ []) rest in
    first ∙ moved

-- The groups hold the lessons of each module, in their order.
group_lessons-of_id :
    (groups : List (String × List Lesson)) (ls : List Lesson) (k : String)
    → grouped (group_lessons groups ls) k ≡ grouped groups k ++ of_id k ls
unfolding group_lessons filter
group_lessons-of_id groups [] k = sym (append_nil (grouped groups k))
group_lessons-of_id groups (l ∷ ls) k =
    let more = set groups l.module_id (grouped groups l.module_id ++ l ∷ []) in
    group_lessons-of_id more ls k
    ∙ ap (λ xs. xs ++ of_id k ls)
        (grouped-set groups l.module_id k (grouped groups l.module_id ++ l ∷ []))
    ∙ elim (Bool-cases (str_eq l.module_id k)) [
      | inl e ↦ rw e (added groups l (of_id k ls) k e)
      | inr e ↦ rw e refl
    ]

-- How many of the modules a lesson is in.
abbrev pub places : List CourseModule → Lesson → ℕ
places [] l = 0
places (m ∷ ms) l = (if str_eq l.module_id m.id then 1 else 0) + places ms l

abbrev in_modules : List CourseModule → List Lesson → ℕ
in_modules [] ls = 0
in_modules (m ∷ ms) ls = length (of_id m.id ls) + in_modules ms ls

in_modules-cons :
    (ms : List CourseModule) (l : Lesson) (ls : List Lesson)
    → in_modules ms (l ∷ ls) ≡ places ms l + in_modules ms ls
unfolding filter
in_modules-cons [] l ls = refl
in_modules-cons (m ∷ ms) l ls = ground (arith, in_modules-cons ms l ls)

in_modules-nil : (ms : List CourseModule) → in_modules ms [] ≡ 0
unfolding filter
in_modules-nil [] = refl
in_modules-nil (m ∷ ms) = omega (arith, in_modules-nil ms)

in_modules-once :
    (ms : List CourseModule) (ls : List Lesson)
    → All (λ l. places ms l ≡ 1) ls
    → in_modules ms ls ≡ length ls
in_modules-once ms [] h = in_modules-nil ms
in_modules-once ms (l ∷ ls) h =
    omega (arith, in_modules-cons ms l ls, in_modules-once ms ls h.1, h.0)

total_lessons-in_modules :
    (ms : List CourseModule) (ls : List Lesson)
    → total_lessons (map (with_lessons (group_lessons [] ls)) ms) ≡ in_modules ms ls
unfolding total_lessons group_lessons filter
total_lessons-in_modules [] ls = refl
total_lessons-in_modules (m ∷ ms) ls = omega (
  arith,
  ap (λ (xs : List Lesson). length xs) (group_lessons-of_id [] ls m.id),
  total_lessons-in_modules ms ls,
)

length-add_le : (s : Ids) (k : String) → length (add s k) ≤ length s + 1
unfolding add
length-add_le [] k = omega arith
length-add_le (j ∷ s) k = ground (arith, length-add_le s k)

completed-add_attempt :
    (l : Lesson) (a : Option Attempt) (t : Totals)
    → length (add_attempt l a t).completed ≤ length t.completed + 1
unfolding add_attempt add_score
completed-add_attempt l none t = omega arith
completed-add_attempt l (some a) t =
    if-elim (λ (u : Totals). length u.completed ≤ length t.completed + 1) (ltb 0 a.max_score)
      (length-add_le t.completed l.id) (length-add_le t.completed l.id)

completed-collect :
    (answers : List (Lesson × Option Attempt)) (t : Totals)
    → length (collect answers t).completed ≤ length t.completed + length answers
unfolding collect
completed-collect [] t = omega arith
completed-collect ((l, a) ∷ answers) t =
    omega (arith, completed-collect answers (add_attempt l a t), completed-add_attempt l a t)

progress_le : (d n : ℕ) → d ≤ n → (if ltb 0 n then percent d n else 0) ≤ 100
progress_le d n h = elim (Bool-cases (ltb 0 n)) [
  | inl e ↦ rw e (percent_le d n (ltb→lt 0 n e) h)
  | inr e ↦ rw e (omega arith)
]

-- Where each lesson of a course is in one of its modules and one answer came for each, in whatever order and
-- whether or not there was an attempt, the page counts every lesson once and the progress is at most a
-- hundred per cent.
pub my_progress_pct_bounded :
    (modules : List CourseModule) (lessons : List Lesson) (answers : List (Lesson × Option Attempt))
    → All (λ l. places modules l ≡ 1) lessons
    → length answers ≡ length lessons
    → (total_lessons (modules_with_lessons modules lessons) ≡ length lessons)
      × (my_progress_pct (modules_with_lessons modules lessons) (collect answers no_totals) ≤ 100)
unfolding modules_with_lessons my_progress_pct
my_progress_pct_bounded modules lessons answers h k =
    let total : total_lessons (modules_with_lessons modules lessons) ≡ length lessons =
      total_lessons-in_modules modules lessons ∙ in_modules-once modules lessons h in
    let done : length (collect answers no_totals).completed
        ≤ total_lessons (modules_with_lessons modules lessons) =
      omega (arith, completed-collect answers no_totals, total, k) in
    (total, progress_le _ _ done)
