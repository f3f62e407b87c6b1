-- ===== src/Examples/Boards.antt =====
-- The heatmap of a lesson and the actions on members, at concrete inputs.
use bachelor_thesis.Prelude.{ℕ, String, ◌≡◌, refl, true, false, none, some, List, [], ◌∷◌}
use bachelor_thesis.Errors.{Failure}
use bachelor_thesis.Session.{UserRole, TokenType}
use bachelor_thesis.Session.Access.{UserSession}
use bachelor_thesis.Course.{CourseRole}
use bachelor_thesis.Members.{
  enroll_self, sends, revalidates, succeeded, denied, enroll_self_action,
  review_join_request_action, JoinRequestsTab, handle_review,
}
use bachelor_thesis.Heatmap.Tiling.{IsTiled, lesson_heatmap-IsTiled}
use bachelor_thesis.Heatmap.{
  ChunkScoreCell, ChunkStudentScore, format_mm_ss, HeatBand, cell_bg, segment_cell, segment_cells,
  HeatmapView, lesson_heatmap, centers, drill_down,
}

abbrev cell : String → ℕ → ℕ → ℕ → ℕ → ChunkScoreCell
cell id i from to n = record {
  chunk_id = id;
  chunk_index = i;
  start_seconds = from;
  end_seconds = to;
  summary = "";
  avg_score = 795;
  response_count = n;
  student_count = n;
  is_gap = false;
}

abbrev number : ℕ → String
number n = "0"

abbrev score : String → ℕ → ChunkStudentScore
score id frac = record {
  user_id = id;
  display_name = "";
  email = "";
  score_frac = frac;
  answered = 2;
}

abbrev two_cells : List ChunkScoreCell
two_cells = cell "b" 1 60000 60000 0 ∷ cell "a" 0 0 60000 3 ∷ []

-- The segments stand in the order of the lesson; one of no length is a millisecond wide.
tiles : centers 0 (segment_cells number [] two_cells) ≡ 60000 ∷ 120001 ∷ []
unfolding centers segment_cells
tiles = refl

lesson_heatmap-IsTiled_example : IsTiled (lesson_heatmap number false two_cells [] [])
lesson_heatmap-IsTiled_example = lesson_heatmap-IsTiled number false two_cells [] []

-- A share of 79.5 % is rounded to 80 %, and so to the best band.
bands :
    (cell_bg (segment_cell number [] (cell "a" 0 0 60000 3)) ≡ HeatBand.emerald)
    × (cell_bg (segment_cell number [] (cell "a" 0 0 60000 0)) ≡ HeatBand.muted)
    × (format_mm_ss 59500 ≡ (1, 0))
unfolding cell_bg segment_cell format_mm_ss
bands = (refl, refl, refl)

-- The last breakdown of a segment counts, with the weakest student first.
drills :
    drill_down (some 0) (
      segment_cells number
        (record { chunk_id = "a"; students = [] }
          ∷ record { chunk_id = "a"; students = score "u" 900 ∷ score "v" 100 ∷ [] }
          ∷ [])
        two_cells)
    ≡ some (score "v" 100 ∷ score "u" 900 ∷ [])
unfolding drill_down segment_cells
drills = refl

remarks :
    (lesson_heatmap number true two_cells [] [] ≡ HeatmapView.not_loaded)
    × (lesson_heatmap number false (cell "a" 0 0 1 0 ∷ []) [] [] ≡ HeatmapView.no_scores)
    × (lesson_heatmap number false [] [] [] ≡ HeatmapView.no_answers)
unfolding lesson_heatmap
remarks = (refl, refl, refl)

abbrev session : String → UserSession
session token = record {
  claims = record {
    sub = "u";
    role = UserRole.normal;
    token_type = TokenType.access;
    first_name = "";
    middle_name = "";
    last_name = "";
  };
  token = token;
}

-- A session with no token sends nothing; one with a token sends, and the page is drawn again.
enrolls :
    (enroll_self_action (λ t r. none) (some (session "")) "s" "c" CourseRole.teacher
      ≡ ([], denied "Bạn chưa đăng nhập"))
    × (enroll_self_action (λ t r. none) (some (session "t")) "s" "c" CourseRole.teacher ≡ (
      sends "t" (enroll_self "c" CourseRole.teacher)
          ∷ revalidates "/dashboard/organizations/s/courses/c"
          ∷ [],
      succeeded,
    ))
unfolding enroll_self_action
enrolls = (refl, refl)

-- A review that failed is answered by a message alone.
reviews :
    (review_join_request_action
      (λ t r. some Failure.value)
      (some (session "t"))
      "s"
      "c"
      "v"
      false).1
    ≡ denied "Không thể từ chối yêu cầu"
unfolding review_join_request_action
reviews = refl

-- While one request is reviewed, the others stay as they are.
one_review : (s : JoinRequestsTab) → s.is_pending ≡ true → handle_review "v" s ≡ s
unfolding handle_review
one_review s h = rw h refl
