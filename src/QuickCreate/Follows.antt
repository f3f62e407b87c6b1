-- ===== src/QuickCreate/Follows.antt =====
-- Calls that follow a plan, over the steps that an action is made of.
use bachelor_thesis.Errors.{Failure}
use bachelor_thesis.Session.{Answer}
use bachelor_thesis.Prelude.{
  String, subst, ◌≡◌, refl, sym, ◌∙◌, Bool, true, false, ◌&&◌, not, Option, none, some, List, [],
  ◌∷◌, ◌++◌, map, is_some, get_or,
}
use mathlib.Core.List.{map-append, append_assoc}
use bachelor_thesis.QuickCreate.Calls.{
  QuickCall, creates, updates, updates_feedback, asks_url, puts, registers, starts, QuickEnd,
  went_on, stopped, Act, ◌>>=◌, give, guard, required, ask, send, note, allow,
}

-- What a call is for, with the lesson that it names.
pub data Stage : Type 0 where
  creating sending : Stage
  saving saving_feedback asking_url registering starting : String → Stage

abbrev pub stage_of : QuickCall → Stage
stage_of (creates m t d n) = creating
stage_of (updates u) = saving u.id
stage_of (updates_feedback id mode) = saving_feedback id
stage_of (asks_url id key kind) = asking_url id
stage_of (puts id url kind) = sending
stage_of (registers id key n) = registering id
stage_of (starts id kinds n d f) = starting id

-- The calls of an action run through the stages `p` and give `v` where `b` holds; otherwise they are the
-- beginning of these stages.
abbrev pub Follows : {A : Type 0} → List Stage → Bool → A → Act A → Type 0
Follows p b v (calls, went_on a) = (map stage_of calls ≡ p) × (a ≡ v) × (b ≡ true)
Follows p b v (calls, stopped e) =
    ((rest : List Stage) × (map stage_of calls ++ rest ≡ p)) × (b ≡ false)

then-Follows :
    {B : Type 0} (p q : List Stage) (c : Bool) (w : B) (calls : List QuickCall) (m : Act B)
    → map stage_of calls ≡ p
    → Follows q c w m
    → Follows (p ++ q) c w (calls ++ m.0, m.1)
then-Follows p q c w calls (more, went_on b) e (h, same, on) =
    (map-append stage_of calls more ∙ rw (e, h) refl, same, on)
then-Follows p q c w calls (more, stopped end) e ((rest, h), off) = (
  (
    rest,
    rw (map-append stage_of calls more)
        (append_assoc (map stage_of calls) (map stage_of more) rest ∙ rw (e, h) refl),
  ),
  off,
)

pub bind-Follows :
    {A B : Type 0} (p q : List Stage) (b c : Bool) (v : A) (w : B) (m : Act A) (f : A → Act B)
    → Follows p b v m
    → Follows q c w (f v)
    → Follows (p ++ q) (b && c) w (m >>= f)
bind-Follows p q b c v w (calls, went_on a) f (e, same, on) k =
    let next = subst (λ x. Follows q c w (f x)) (sym same) k in
    subst (λ x. Follows (p ++ q) (x && c) w (calls ++ (f a).0, (f a).1)) (sym on)
      (then-Follows p q c w calls (f a) e next)
bind-Follows p q b c v w (calls, stopped end) f ((rest, h), off) k =
    ((rest ++ q, sym (append_assoc (map stage_of calls) rest q) ∙ rw h refl), rw off refl)

pub guard-Follows : (b : Bool) (e : QuickEnd) → Follows [] b tt (guard b e)
guard-Follows true e = (refl, refl, refl)
guard-Follows false e = (([], refl), refl)

abbrev pub is_ok : {A : Type 0} → Answer A → Bool
is_ok (Answer.ok a) = true
is_ok (Answer.failed e) = false

abbrev pub or_default : {A : Type 0} → A → Answer A → A
or_default d (Answer.ok a) = a
or_default d (Answer.failed e) = d

pub ask-Follows :
    {A : Type 0} (call : QuickCall) (caught : Failure → QuickEnd) (answer : Answer A) (d : A)
    → Follows (stage_of call ∷ []) (is_ok answer) (or_default d answer) (ask call caught answer)
ask-Follows call caught (Answer.ok a) d = (refl, refl, refl)
ask-Follows call caught (Answer.failed e) d = (([], refl), refl)

pub send-Follows :
    (call : QuickCall) (caught : Failure → QuickEnd) (failure : Option Failure)
    → Follows (stage_of call ∷ []) (not (is_some failure)) tt (send call caught failure)
send-Follows call caught none = (refl, refl, refl)
send-Follows call caught (some e) = (([], refl), refl)

pub allow-Follows :
    (refusal : Option String) (caught : String → QuickEnd)
    → Follows [] (not (is_some refusal)) tt (allow refusal caught)
allow-Follows none caught = (refl, refl, refl)
allow-Follows (some msg) caught = (([], refl), refl)

pub required-Follows :
    {A : Type 0} (o : Option A) (d : A) (e : QuickEnd)
    → Follows [] (is_some o) (get_or o d) (required o e)
required-Follows none d e = (([], refl), refl)
required-Follows (some a) d e = (refl, refl, refl)

pub note-Follows : (call : QuickCall) → Follows (stage_of call ∷ []) true tt (note call)
note-Follows call = (refl, refl, refl)

pub send_last-Follows :
    {A : Type 0} (call : QuickCall) (caught : Failure → QuickEnd) (failure : Option Failure) (a : A)
    → Follows
        (stage_of call ∷ [])
        (not (is_some failure))
        a
        (send call caught failure >>= λ _. give a)
send_last-Follows call caught none a = (refl, refl, refl)
send_last-Follows call caught (some e) a = (([], refl), refl)

pub guard_last-Follows :
    {A : Type 0} (b : Bool) (e : QuickEnd) (a : A) → Follows [] b a (guard b e >>= λ _. give a)
guard_last-Follows true e a = (refl, refl, refl)
guard_last-Follows false e a = (([], refl), refl)
