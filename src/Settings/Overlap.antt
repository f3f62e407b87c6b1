-- ===== src/Settings/Overlap.antt =====
-- Saves of different settings that overlap.
use bachelor_thesis.Settings.{
  LessonInfo, Settings, Setting, of_feedback_mode, of_language, of_audio_language, of_max_attempts,
  put, Save, change, finish_save,
}
use bachelor_thesis.Actions.{ActionResult}
use bachelor_thesis.Prelude.{◌≡◌, refl, ap, ◌∙◌}

-- Two values of different settings.
abbrev pub AreApart : Setting → Setting → Type 0
AreApart (of_feedback_mode x) (of_feedback_mode y) = ⊥
AreApart (of_language x) (of_language y) = ⊥
AreApart (of_audio_language x) (of_audio_language y) = ⊥
AreApart (of_max_attempts x) (of_max_attempts y) = ⊥
AreApart _ _ = Unit

-- The settings with a change that is kept where its own save was done.
abbrev pub with_answer : Setting → ActionResult → Settings → Settings
with_answer v ActionResult.done s = put v s
with_answer v (ActionResult.refused msg) s = s

-- Different settings may be put in either order.
put-commute : (v w : Setting) (s : Settings) → AreApart v w → put v (put w s) ≡ put w (put v s)
put-commute (of_feedback_mode x) (of_feedback_mode y) s h = absurd h
put-commute (of_feedback_mode x) (of_language y) s h = refl
put-commute (of_feedback_mode x) (of_audio_language y) s h = refl
put-commute (of_feedback_mode x) (of_max_attempts y) s h = refl
put-commute (of_language x) (of_feedback_mode y) s h = refl
put-commute (of_language x) (of_language y) s h = absurd h
put-commute (of_language x) (of_audio_language y) s h = refl
put-commute (of_language x) (of_max_attempts y) s h = refl
put-commute (of_audio_language x) (of_feedback_mode y) s h = refl
put-commute (of_audio_language x) (of_language y) s h = refl
put-commute (of_audio_language x) (of_audio_language y) s h = absurd h
put-commute (of_audio_language x) (of_max_attempts y) s h = refl
put-commute (of_max_attempts x) (of_feedback_mode y) s h = refl
put-commute (of_max_attempts x) (of_language y) s h = refl
put-commute (of_max_attempts x) (of_audio_language y) s h = refl
put-commute (of_max_attempts x) (of_max_attempts y) s h = absurd h

change-put : (lesson : LessonInfo) (v : Setting) (s : Settings) → (change lesson v s).0 ≡ put v s
unfolding change
change-put lesson (of_feedback_mode x) s = refl
change-put lesson (of_language x) s = refl
change-put lesson (of_audio_language x) s = refl
change-put lesson (of_max_attempts x) s = refl

-- The value before a change takes it back, also after another change in between.
put-previous :
    (lesson : LessonInfo) (v : Setting) (s : Settings)
    → put (change lesson v s).1.previous (put v s) ≡ s
unfolding change
put-previous lesson (of_feedback_mode x) s = refl
put-previous lesson (of_language x) s = refl
put-previous lesson (of_audio_language x) s = refl
put-previous lesson (of_max_attempts x) s = refl

previous-AreApart :
    (lesson : LessonInfo) (v w : Setting) (s : Settings)
    → AreApart v w
    → AreApart (change lesson v s).1.previous w
unfolding change
previous-AreApart lesson (of_feedback_mode x) (of_feedback_mode y) s h = absurd h
previous-AreApart lesson (of_feedback_mode x) (of_language y) s h = tt
previous-AreApart lesson (of_feedback_mode x) (of_audio_language y) s h = tt
previous-AreApart lesson (of_feedback_mode x) (of_max_attempts y) s h = tt
previous-AreApart lesson (of_language x) (of_feedback_mode y) s h = tt
previous-AreApart lesson (of_language x) (of_language y) s h = absurd h
previous-AreApart lesson (of_language x) (of_audio_language y) s h = tt
previous-AreApart lesson (of_language x) (of_max_attempts y) s h = tt
previous-AreApart lesson (of_audio_language x) (of_feedback_mode y) s h = tt
previous-AreApart lesson (of_audio_language x) (of_language y) s h = tt
previous-AreApart lesson (of_audio_language x) (of_audio_language y) s h = absurd h
previous-AreApart lesson (of_audio_language x) (of_max_attempts y) s h = tt
previous-AreApart lesson (of_max_attempts x) (of_feedback_mode y) s h = tt
previous-AreApart lesson (of_max_attempts x) (of_language y) s h = tt
previous-AreApart lesson (of_max_attempts x) (of_audio_language y) s h = tt
previous-AreApart lesson (of_max_attempts x) (of_max_attempts y) s h = absurd h

-- The answer to a save takes back its own change alone.
finish_first :
    (lesson : LessonInfo) (v w : Setting) (a : ActionResult) (s : Settings)
    → AreApart v w
    → (finish_save (change lesson v s).1 a (put w (put v s))).0 ≡ put w (with_answer v a s)
unfolding finish_save
finish_first lesson v w ActionResult.done s h = refl
finish_first lesson v w (ActionResult.refused msg) s h =
    put-commute _ w (put v s) (previous-AreApart lesson v w s h)
    ∙ ap (put w) (put-previous lesson v s)

finish_second :
    (lesson : LessonInfo) (w : Setting) (b : ActionResult) (s t : Settings)
    → (change lesson w s).1.previous ≡ (change lesson w t).1.previous
    → (finish_save (change lesson w s).1 b (put w t)).0 ≡ with_answer w b t
unfolding finish_save
finish_second lesson w ActionResult.done s t e = refl
finish_second lesson w (ActionResult.refused msg) s t e =
    ap (λ p. put p (put w t)) e ∙ put-previous lesson w t

previous-put :
    (lesson : LessonInfo) (v w : Setting) (s : Settings)
    → AreApart v w
    → (change lesson w (put v s)).1.previous ≡ (change lesson w s).1.previous
unfolding change
previous-put lesson (of_feedback_mode x) (of_feedback_mode y) s h = absurd h
previous-put lesson (of_feedback_mode x) (of_language y) s h = refl
previous-put lesson (of_feedback_mode x) (of_audio_language y) s h = refl
previous-put lesson (of_feedback_mode x) (of_max_attempts y) s h = refl
previous-put lesson (of_language x) (of_feedback_mode y) s h = refl
previous-put lesson (of_language x) (of_language y) s h = absurd h
previous-put lesson (of_language x) (of_audio_language y) s h = refl
previous-put lesson (of_language x) (of_max_attempts y) s h = refl
previous-put lesson (of_audio_language x) (of_feedback_mode y) s h = refl
previous-put lesson (of_audio_language x) (of_language y) s h = refl
previous-put lesson (of_audio_language x) (of_audio_language y) s h = absurd h
previous-put lesson (of_audio_language x) (of_max_attempts y) s h = refl
previous-put lesson (of_max_attempts x) (of_feedback_mode y) s h = refl
previous-put lesson (of_max_attempts x) (of_language y) s h = refl
previous-put lesson (of_max_attempts x) (of_audio_language y) s h = refl
previous-put lesson (of_max_attempts x) (of_max_attempts y) s h = absurd h

previous-answered :
    (lesson : LessonInfo) (v w : Setting) (a : ActionResult) (s : Settings)
    → AreApart v w
    → (change lesson w (put v s)).1.previous ≡ (change lesson w (with_answer v a s)).1.previous
previous-answered lesson v w ActionResult.done s h = refl
previous-answered lesson v w (ActionResult.refused msg) s h = previous-put lesson v w s h

-- The settings after two changes, before their answers.
abbrev pub changed : LessonInfo → Setting → Setting → Settings → Settings
changed lesson v w s = (change lesson w (change lesson v s).0).0

-- The saves of the two changes.
abbrev pub first_save : LessonInfo → Setting → Settings → Save
first_save lesson v s = (change lesson v s).1

abbrev pub second_save : LessonInfo → Setting → Setting → Settings → Save
second_save lesson v w s = (change lesson w (change lesson v s).0).1

in_order :
    (lesson : LessonInfo) (v w : Setting) (a b : ActionResult) (s t u : Settings)
    → AreApart v w
    → t ≡ put v s
    → u ≡ put w t
    → (finish_save (change lesson w t).1 b (finish_save (change lesson v s).1 a u).0).0
      ≡ with_answer w b (with_answer v a s)
in_order lesson v w a b s t u h e f =
    rw (f, e, finish_first lesson v w a s h)
      (finish_second lesson w b (put v s) (with_answer v a s) (previous-answered lesson v w a s h))

answered_second :
    (lesson : LessonInfo) (v w : Setting) (a b : ActionResult) (s : Settings)
    → AreApart v w
    → (finish_save (first_save lesson v s) a (with_answer w b (put v s))).0
      ≡ with_answer w b (with_answer v a s)
answered_second lesson v w a ActionResult.done s h = finish_first lesson v w a s h
answered_second lesson v w a (ActionResult.refused msg) s h = finish_second lesson v a s s refl

out_of_order :
    (lesson : LessonInfo) (v w : Setting) (a b : ActionResult) (s t u : Settings)
    → AreApart v w
    → t ≡ put v s
    → u ≡ put w t
    → (finish_save (change lesson v s).1 a (finish_save (change lesson w t).1 b u).0).0
      ≡ with_answer w b (with_answer v a s)
out_of_order lesson v w a b s t u h e f =
    rw (f, e, finish_second lesson w b (put v s) (put v s) refl)
      (answered_second lesson v w a b s h)

-- Where two different settings are changed one after the other and both saves are answered after that, in
-- either order, the page shows in the end the settings before, with each change kept exactly where its own
-- save was done.
pub finish_save-overlapped :
    (lesson : LessonInfo) (v w : Setting) (a b : ActionResult) (s : Settings)
    → AreApart v w
    → ((finish_save
          (second_save lesson v w s)
          b
          (finish_save (first_save lesson v s) a (changed lesson v w s)).0).0
        ≡ with_answer w b (with_answer v a s))
      × ((finish_save
            (first_save lesson v s)
            a
            (finish_save (second_save lesson v w s) b (changed lesson v w s)).0).0
          ≡ with_answer w b (with_answer v a s))
finish_save-overlapped lesson v w a b s h =
    let e = change-put lesson v s in
    let f = change-put lesson w (change lesson v s).0 in
    (in_order lesson v w a b s _ _ h e f, out_of_order lesson v w a b s _ _ h e f)
