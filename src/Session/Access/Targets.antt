-- ===== src/Session/Access/Targets.antt =====
-- A log-in goes on to a page of the site.
use Prim.Native.Char.{Char}
use bachelor_thesis.Prelude.{
  begins, String, subst, ◌≡◌, refl, sym, inl, inr, Bool, true, false, ◌&&◌, Option, none, some,
  arith, str_eq, eq_iff, Bool-cases, get_or, if-elim,
}
use bachelor_thesis.Session.{Claims, verify_access_jwt, is_allowed, safe_next}
use bachelor_thesis.Session.Access.{is_normal, login_target}

-- A path from the root of the site, and no address of another host.
abbrev pub IsLocal : String → Type 0
IsLocal t = (begins "/" t ≡ true) × (begins "//" t ≡ false)

-- A path that starts with a slash and another letter than a slash.
second_char :
    (x c d : Char) (a rest : Bool)
    → str_eq (String.◌∷◌ x "") "/" ≡ false
    → (a && (str_eq (String.◌∷◌ x "") (String.◌∷◌ d "") && rest)) ≡ true
    → (a ≡ true) × (str_eq "/" (String.◌∷◌ d "") ≡ false)
second_char x c d a rest n h = ground (
  arith,
  eq_iff (String.◌∷◌ x "") (String.◌∷◌ d ""),
  eq_iff "/" (String.◌∷◌ d ""),
  eq_iff (String.◌∷◌ x "") "/",
)

begins-IsLocal :
    (x : Char) (p t : String)
    → str_eq (String.◌∷◌ x "") "/" ≡ false
    → begins (String.◌∷◌ "/" (String.◌∷◌ x p)) t ≡ true
    → IsLocal t
unfolding begins
begins-IsLocal x p String.[] n h = cc
begins-IsLocal x p (String.◌∷◌ c String.[]) n h = ground arith
begins-IsLocal x p (String.◌∷◌ c (String.◌∷◌ d s)) n h =
    let (a, b) = second_char x c d (str_eq "/" (String.◌∷◌ c "")) (begins p s) n h in ground arith

allowed-IsLocal : (t : String) → is_allowed t ≡ true → IsLocal t
unfolding begins
allowed-IsLocal t h = elim (Bool-cases (str_eq t "/admin")) [
  | inl e ↦ subst IsLocal (sym ((eq_iff t "/admin").0 e)) (refl, refl)
  | inr e ↦ elim (Bool-cases (begins "/admin/" t)) [
    | inl b ↦ begins-IsLocal "a" "dmin/" t refl b
    | inr b ↦ elim (Bool-cases (str_eq t "/dashboard")) [
      | inl f ↦ subst IsLocal (sym ((eq_iff t "/dashboard").0 f)) (refl, refl)
      | inr f ↦ begins-IsLocal "d" "ashboard/" t refl (rw (e, b, f) at h)
    ]
  ]
]

safe_next-IsLocal :
    (next : Option String) (t : String) → IsLocal t → IsLocal (get_or (safe_next next) t)
unfolding safe_next
safe_next-IsLocal none t k = k
safe_next-IsLocal (some n) t k = elim (Bool-cases (is_allowed n)) [
  | inl h ↦ rw h (allowed-IsLocal n h)
  | inr h ↦ rw h k
]

-- Whatever path a log-in is asked to go on to, it goes on to a page of the site.
pub login_target-IsLocal :
    (decode : String → Option Claims) (next : Option String) (token : String)
    → IsLocal (login_target decode next token)
unfolding login_target begins
login_target-IsLocal decode next token =
    safe_next-IsLocal next _
      (if-elim IsLocal (is_normal (verify_access_jwt decode token)) (refl, refl) (refl, refl))
