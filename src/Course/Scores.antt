-- ===== src/Course/Scores.antt =====
-- The scores of a student, by the course, by its modules and by its lessons.
use bachelor_thesis.Prelude.{
  ℕ, ◌+◌, String, subst, ◌≡◌, refl, sym, ap, ◌∙◌, inl, inr, Bool, true, false, Option, none, some,
  List, [], ◌∷◌, arith, str_eq, eq_iff, ltb, if◌then◌else◌, Bool-cases, get_or, if-false, if-true,
  add, get, set, get-set,
}
use bachelor_thesis.Course.{Lesson}
use bachelor_thesis.Course.Overview.{Attempt, Totals, add_score, add_attempt, collect}

-- A number of the answer to a lesson's call, where its attempt has a maximum.
abbrev pub counted : (Attempt → ℕ) → Option Attempt → ℕ
counted f none = 0
counted f (some a) = if ltb 0 a.max_score then f a else 0

-- The sum of such a number over the lessons that pass a test.
abbrev pub sum_over : (Lesson → Bool) → (Attempt → ℕ) → List (Lesson × Option Attempt) → ℕ
sum_over p f [] = 0
sum_over p f ((l, a) ∷ answers) = (if p l then counted f a else 0) + sum_over p f answers

abbrev pub any_lesson : Lesson → Bool
any_lesson l = true

abbrev pub is_of : String → Lesson → Bool
is_of k l = str_eq l.module_id k

-- What is kept for a module.
abbrev pub module_total : String → Totals → ℕ × ℕ
unfolding get
module_total k t = get_or (get t.module_score k) (0, 0)

-- The student's score and maximum grow by those of all lessons, and those of the module `k` by those of
-- its lessons.
pub record IsBalanced (k : String) (answers : List (Lesson × Option Attempt)) (t u : Totals)
    : Type 0 where
  pub score : u.score_sum ≡ t.score_sum + sum_over any_lesson (λ a. a.total_score) answers
  pub maximum : u.max_sum ≡ t.max_sum + sum_over any_lesson (λ a. a.max_score) answers
  pub module_score :
      (module_total k u).0 ≡ (module_total k t).0 + sum_over (is_of k) (λ a. a.total_score) answers
  pub module_maximum :
      (module_total k u).1 ≡ (module_total k t).1 + sum_over (is_of k) (λ a. a.max_score) answers

module_total-set :
    (f : ℕ × ℕ → ℕ) (k j : String) (v : ℕ × ℕ) (m : List (String × (ℕ × ℕ)))
    → f (get_or (get (set m j v) k) (0, 0))
      ≡ (if str_eq j k then f v else f (get_or (get m k) (0, 0)))
unfolding get set
module_total-set f k j v m = rw (get-set m j k v) (either (str_eq j k))
  where
    either :
        (b : Bool)
        → f (get_or (if b then some v else get m k) (0, 0))
          ≡ (if b then f v else f (get_or (get m k) (0, 0)))
    either true = refl
    either false = refl

-- The total at the lesson's module, under the test of its name.
at_module :
    (f : ℕ × ℕ → ℕ) (k j : String) (m : List (String × (ℕ × ℕ))) (n : ℕ)
    → (if str_eq j k then f (get_or (get m j) (0, 0)) + n else f (get_or (get m k) (0, 0)))
      ≡ f (get_or (get m k) (0, 0)) + (if str_eq j k then n else 0)
unfolding get
at_module f k j m n = elim (Bool-cases (str_eq j k)) [
  | inl e ↦
      let same : f (get_or (get m j) (0, 0)) ≡ f (get_or (get m k) (0, 0)) =
        ap (λ i. f (get_or (get m i) (0, 0))) ((eq_iff j k).0 e) in
      rw e (omega (arith, same))
  | inr e ↦ rw e (omega arith)
]

add_score-IsBalanced :
    (k : String) (l : Lesson) (a : Attempt) (t : Totals)
    → ltb 0 a.max_score ≡ true
    → IsBalanced k ((l, some a) ∷ []) t (add_score l a t)
unfolding add_score
add_score-IsBalanced k l a t h = record {
  score = rw h (omega arith);
  maximum = rw h (omega arith);
  module_score =
      module_total-set (λ v. v.0) k l.module_id _ t.module_score
      ∙ at_module (λ v. v.0) k l.module_id t.module_score a.total_score
      ∙ rw h (omega arith);
  module_maximum =
      module_total-set (λ v. v.1) k l.module_id _ t.module_score
      ∙ at_module (λ v. v.1) k l.module_id t.module_score a.max_score
      ∙ rw h (omega arith);
}

nothing_more : (n x : ℕ) (b : Bool) → x ≡ 0 → n ≡ n + ((if b then x else 0) + 0)
nothing_more n x b h = ground arith

unscored-IsBalanced :
    (k : String) (l : Lesson) (a : Attempt) (t : Totals)
    → ltb 0 a.max_score ≡ false
    → IsBalanced k ((l, some a) ∷ []) t (record t { completed = add t.completed l.id })
unfolding module_total
unscored-IsBalanced k l a t h = record {
  score = nothing_more t.score_sum _ true (if-false (ltb 0 a.max_score) _ _ h);
  maximum = nothing_more t.max_sum _ true (if-false (ltb 0 a.max_score) _ _ h);
  module_score =
      nothing_more (module_total k t).0 _ (is_of k l) (if-false (ltb 0 a.max_score) _ _ h);
  module_maximum =
      nothing_more (module_total k t).1 _ (is_of k l) (if-false (ltb 0 a.max_score) _ _ h);
}

add_attempt-IsBalanced :
    (k : String) (l : Lesson) (a : Option Attempt) (t : Totals)
    → IsBalanced k ((l, a) ∷ []) t (add_attempt l a t)
unfolding add_attempt add
add_attempt-IsBalanced k l none t = record {
  score = omega arith;
  maximum = omega arith;
  module_score = ground arith;
  module_maximum = ground arith;
}
add_attempt-IsBalanced k l (some a) t = elim (Bool-cases (ltb 0 a.max_score)) [
  | inl h ↦
      let b = add_score-IsBalanced k l a (record t { completed = add t.completed l.id }) h in
      subst (IsBalanced k ((l, some a) ∷ []) t) (sym (if-true (ltb 0 a.max_score) _ _ h)) (record {
        score = b.score;
        maximum = b.maximum;
        module_score = b.module_score;
        module_maximum = b.module_maximum;
      })
  | inr h ↦
      subst (IsBalanced k ((l, some a) ∷ []) t) (sym (if-false (ltb 0 a.max_score) _ _ h))
        (unscored-IsBalanced k l a t h)
]

-- In whatever order the answers to the calls for a student's attempts come, the student's score and maximum
-- grow by the sums of those of all attempts that have a maximum, and the score and maximum that are kept
-- for any module grow by the sums of those of its own lessons.
pub collect-IsBalanced :
    (k : String) (answers : List (Lesson × Option Attempt)) (t : Totals)
    → IsBalanced k answers t (collect answers t)
unfolding collect
collect-IsBalanced k [] t = record {
  score = omega arith;
  maximum = omega arith;
  module_score = omega arith;
  module_maximum = omega arith;
}
collect-IsBalanced k ((l, a) ∷ answers) t =
    let first = add_attempt-IsBalanced k l a t in
    let rest = collect-IsBalanced k answers (add_attempt l a t) in
    record {
      score = omega (arith, first.score, rest.score);
      maximum = omega (arith, first.maximum, rest.maximum);
      module_score = omega (arith, first.module_score, rest.module_score);
      module_maximum = omega (arith, first.module_maximum, rest.module_maximum);
    }
