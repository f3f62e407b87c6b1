-- ===== src/Recent/Listed.antt =====
-- The list that is kept: at most twenty entries, the latest first, each accepted by the tests of an entry.
use bachelor_thesis.Prelude.{
  ℕ, zero, suc, ◌≤◌, subst, ◌≡◌, refl, true, Option, none, some, List, [], ◌∷◌, map, arith, if-some,
  length, take, filter, length-take_le, All, All-take, IsSorted, All-sort_by, sort_by-IsSorted,
}
use bachelor_thesis.Recent.{
  is_recent_access_type, RecentAccessEntry, JsonValue, missing, other, text, number, JsonObject,
  either_field, is_acceptable, cleaned, if_acceptable, normalize_kind, normalize_entry, with_entry,
  normalize_all, latest_first, listed, object_of, other_key, upsert_recent_access,
}

-- At most twenty, the latest first, and each passes the tests of an entry.
pub record IsListed (es : List RecentAccessEntry) : Type 0 where
  pub short : length es ≤ 20
  pub sorted : IsSorted latest_first es
  pub accepted : All (λ e. is_acceptable e ≡ true) es

IsSorted-take :
    (n : ℕ) (es : List RecentAccessEntry)
    → IsSorted latest_first es
    → IsSorted latest_first (take n es)
IsSorted-take zero es h = tt
IsSorted-take (suc n) [] h = tt
IsSorted-take (suc n) (e ∷ es) h =
    (All-take (λ y. latest_first e y ≡ true) n es h.0, IsSorted-take n es h.1)

if_acceptable-lem : (x e : RecentAccessEntry) → if_acceptable x ≡ some e → is_acceptable e ≡ true
unfolding if_acceptable
if_acceptable-lem x e h =
    let (t, s) = if-some (is_acceptable x) (some x) e h in
    let same : x ≡ e = cc in subst (λ y. is_acceptable y ≡ true) same t

normalize_entry-lem :
    (number_of : JsonValue → ℕ) (o : JsonObject) (e : RecentAccessEntry)
    → normalize_entry number_of o ≡ some e
    → is_acceptable e ≡ true
unfolding normalize_entry normalize_kind
normalize_entry-lem number_of o e h = go (either_field (o "type") (o "t")) h
  where
    go : (v : JsonValue) → normalize_kind number_of o v ≡ some e → is_acceptable e ≡ true
    go missing k = cc
    go other k = cc
    go (number n) k = cc
    go (text kind) k =
        if_acceptable-lem (cleaned number_of o kind) e
          (if-some (is_recent_access_type kind) (if_acceptable (cleaned number_of o kind)) e k).1

normalize_all-accepted :
    (number_of : JsonValue → ℕ) (os : List JsonObject)
    → All (λ e. is_acceptable e ≡ true) (normalize_all number_of os)
unfolding normalize_all
normalize_all-accepted number_of [] = tt
normalize_all-accepted number_of (o ∷ os) =
    go (normalize_entry number_of o) refl (normalize_all-accepted number_of os)
  where
    go :
        (r : Option RecentAccessEntry)
        → normalize_entry number_of o ≡ r
        → All (λ e. is_acceptable e ≡ true) (normalize_all number_of os)
        → All (λ e. is_acceptable e ≡ true) (with_entry r (normalize_all number_of os))
    go none q h = h
    go (some e) q h = (normalize_entry-lem number_of o e q, h)

listed-IsListed :
    (number_of : JsonValue → ℕ) (os : List JsonObject) → IsListed (listed number_of os)
unfolding listed
listed-IsListed number_of os = record {
  short = length-take_le 20 _;
  sorted = IsSorted-take 20 _ (
      sort_by-IsSorted latest_first (λ x y h. ground arith) (λ x y z h k. ground arith)
        (normalize_all number_of os));
  accepted = All-take _ 20 _ (All-sort_by latest_first _ _ (normalize_all-accepted number_of os));
}

-- Whatever entries the cookie held, opening a page leaves at most twenty, the latest first, each accepted
-- by the tests of an entry.
pub upsert_recent_access-IsListed :
    (number_of : JsonValue → ℕ) (now : ℕ) (entries : List RecentAccessEntry)
    (entry : RecentAccessEntry)
    → IsListed (upsert_recent_access number_of now entries entry)
unfolding upsert_recent_access
upsert_recent_access-IsListed number_of now entries entry =
    listed-IsListed number_of
      (map object_of (record entry { accessed_at = now } ∷ filter (other_key entry) entries))
