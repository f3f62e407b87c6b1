-- ===== src/Lesson/Draft/Reload.antt =====
-- A reload keeps the answers of an attempt that is not submitted.
use bachelor_thesis.Prelude.{
  ℕ, ◌<◌, String, ◌≡◌, refl, false, Option, none, some, arith, ◌==◌, lt→ltb, if-false, length,
}
use bachelor_thesis.Lesson.State.{Video, Props, Draft, LessonState, mount}
use bachelor_thesis.Lesson.Draft.{hydrate, persist}

-- What the storage gives back of a draft: `stringify` writes its text, and `parse` reads a text, `none`
-- where that throws.
abbrev pub read_back : (Draft → String) → (String → Option Draft) → Option Draft → Option Draft
read_back stringify parse none = none
read_back stringify parse (some d) = parse (stringify d)

-- The view after a reload of the page, in the same session.
abbrev pub reload :
    (Draft → String) → (String → Option Draft) → Props → Option Video → LessonState → LessonState
reload stringify parse props video s =
    hydrate props (mount props video (read_back stringify parse (persist props s).stored_draft))

abbrev pub draft_of : LessonState → Draft
draft_of s = record { responses = s.responses; passed_ids = s.passed_ids }

persisted :
    (props : Props) (s : LessonState)
    → props.is_preview ≡ false
    → s.submitted ≡ false
    → 0 < length s.responses
    → (persist props s).stored_draft ≡ some (draft_of s)
unfolding persist
persisted props s p u n = rw (p, u, lt→ltb 0 (length s.responses) n) refl

not_zero : (n : ℕ) → 0 < n → (n == 0) ≡ false
not_zero n h = ground arith

-- Outside a preview, where an attempt is not submitted, holds an answer and has passed a question, and its
-- draft is read back from the text that was written, a reload brings back its answers and its passed
-- questions, reopens the lesson, and has the answers ready to be submitted.
pub reload-persist :
    (stringify : Draft → String) (parse : String → Option Draft) (props : Props)
    (video : Option Video) (s : LessonState)
    → parse (stringify (draft_of s)) ≡ some (draft_of s)
    → props.is_preview ≡ false
    → s.submitted ≡ false
    → 0 < length s.responses
    → 0 < length s.passed_ids
    → let r = reload stringify parse props video s in
      (r.responses ≡ s.responses)
      × (r.passed_ids ≡ s.passed_ids)
      × (r.submitted ≡ false)
      × (r.auto_submit_draft ≡ some s.responses)
unfolding hydrate mount
reload-persist stringify parse props video s j p u n m =
    rw (persisted props s p u n, j, p, not_zero (length s.responses) n)
      (refl, if-false (length s.passed_ids == 0) _ _ (not_zero (length s.passed_ids) m), refl, refl)
