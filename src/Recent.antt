-- ===== src/Recent.antt =====
-- The pages that a user opened last, kept in a cookie (typescript/heino/src/lib/recent-access.ts).
pub mod Listed
pub mod Cookie
use bachelor_thesis.Prelude.{
  trim, first_chars, begins, join_text, ℕ, String, Bool, true, ◌&&◌, ◌||◌, not, Option, none, some,
  List, [], ◌∷◌, map, str_eq, leb, if◌then◌else◌, is_empty, take, filter, insert_by, sort_by,
}

pub data Area : Type 0 where
  dashboard admin : Area

abbrev pub area_text : Area → String
area_text Area.dashboard = "dashboard"
area_text Area.admin = "admin"

-- The type is one of the names below.
unfoldable pub is_recent_access_type : String → Bool
is_recent_access_type t =
    str_eq t "organization"
    || str_eq t "dashboard-organizations"
    || str_eq t "dashboard-profile"
    || str_eq t "organization-courses"
    || str_eq t "organization-members"
    || str_eq t "course"
    || str_eq t "lesson"
    || str_eq t "admin-users"
    || str_eq t "admin-user"
    || str_eq t "admin-organizations"
    || str_eq t "admin-organization"
    || str_eq t "admin-organization-members"
    || str_eq t "admin-organization-courses"
    || str_eq t "admin-course"
    || str_eq t "admin-module"

pub record RecentAccessEntry : Type 0 where
  pub user_id : String
  pub id : String
  pub kind : String
  pub area : Area
  pub org_slug : Option String
  pub title : String
  pub href : String
  pub accessed_at : ℕ
  pub subtitle : Option String

-- A field of a parsed object. Numbers are natural; a number that is not finite is `other`.
pub data JsonValue : Type 0 where
  missing other : JsonValue
  text : String → JsonValue
  number : ℕ → JsonValue

-- A parsed object, by the names of its fields.
abbrev pub JsonObject : Type 0
JsonObject = String → JsonValue

-- The operator `??`.
abbrev either_field : JsonValue → JsonValue → JsonValue
either_field missing b = b
either_field a b = a

abbrev recent_access_key : RecentAccessEntry → String
unfolding join_text
recent_access_key e =
    join_text (area_text e.area) (join_text ":" (join_text e.kind (join_text ":" e.id)))

unfoldable pub default_recent_access_area : String → Area
unfolding begins
default_recent_access_area kind = if begins "admin-" kind then Area.admin else Area.dashboard

clean_area_text : String → String → Area
unfolding default_recent_access_area
clean_area_text value kind =
    if str_eq value "admin"
    then Area.admin
    else if str_eq value "dashboard"
    then Area.dashboard
    else default_recent_access_area kind

clean_area : JsonValue → String → Area
unfolding clean_area_text default_recent_access_area
clean_area (text v) kind = clean_area_text v kind
clean_area _ kind = default_recent_access_area kind

unfoldable pub is_safe_relative_href : String → Bool
unfolding begins
is_safe_relative_href href = begins "/" href && not (begins "//" href)

unfoldable pub clean_string : JsonValue → ℕ → String
unfolding trim first_chars
clean_string (text s) max_length = first_chars max_length (trim s)
clean_string _ max_length = ""

abbrev optional : String → Option String
optional s = if is_empty s then none else some s

-- `Number`, and 0 where that is not finite; `number_of` is what it gives for a value that is no number.
abbrev accessed_of : (JsonValue → ℕ) → JsonValue → ℕ
accessed_of number_of (number n) = n
accessed_of number_of v = number_of v

in_organization : Option String → String → Bool
unfolding begins join_text
in_organization none href = true
in_organization (some slug) href = begins (join_text "/dashboard/organizations/" slug) href

-- Whether the address belongs to the area, and to the organization where there is one.
in_area : Area → Option String → String → Bool
unfolding begins in_organization
in_area Area.admin slug href = begins "/admin" href
in_area Area.dashboard slug href = begins "/dashboard" href && in_organization slug href

-- The tests at the end of `normalizeEntry`.
unfoldable pub is_acceptable : RecentAccessEntry → Bool
unfolding is_safe_relative_href in_area
is_acceptable e =
    not (is_empty e.user_id)
    && not (is_empty e.id)
    && not (is_empty e.title)
    && is_safe_relative_href e.href
    && in_area e.area e.org_slug e.href

cleaned : (JsonValue → ℕ) → JsonObject → String → RecentAccessEntry
unfolding clean_string clean_area
cleaned number_of o kind = record {
  user_id = clean_string (either_field (o "userId") (o "u")) 160;
  id = clean_string (either_field (o "id") (o "i")) 160;
  kind = kind;
  area = clean_area (either_field (o "area") (o "a")) kind;
  org_slug = optional (clean_string (either_field (o "orgSlug") (o "o")) 120);
  title = clean_string (either_field (o "title") (o "l")) 160;
  href = clean_string (either_field (o "href") (o "h")) 320;
  accessed_at = accessed_of number_of (either_field (o "accessedAt") (o "at"));
  subtitle = optional (clean_string (either_field (o "subtitle") (o "s")) 220);
}

abbrev if_acceptable : RecentAccessEntry → Option RecentAccessEntry
unfolding is_acceptable
if_acceptable e = if is_acceptable e then some e else none

normalize_kind : (JsonValue → ℕ) → JsonObject → JsonValue → Option RecentAccessEntry
unfolding is_recent_access_type cleaned if_acceptable
normalize_kind number_of o (text kind) =
    if is_recent_access_type kind then if_acceptable (cleaned number_of o kind) else none
normalize_kind number_of o _ = none

unfoldable pub normalize_entry : (JsonValue → ℕ) → JsonObject → Option RecentAccessEntry
unfolding normalize_kind
normalize_entry number_of o = normalize_kind number_of o (either_field (o "type") (o "t"))

-- A filter keeps what is an entry.
abbrev pub with_entry : Option RecentAccessEntry → List RecentAccessEntry → List RecentAccessEntry
with_entry none es = es
with_entry (some e) es = e ∷ es

unfoldable pub normalize_all : (JsonValue → ℕ) → List JsonObject → List RecentAccessEntry
unfolding normalize_entry
normalize_all number_of [] = []
normalize_all number_of (o ∷ os) =
    with_entry (normalize_entry number_of o) (normalize_all number_of os)

abbrev pub latest_first : RecentAccessEntry → RecentAccessEntry → Bool
latest_first a b = leb b.accessed_at a.accessed_at

abbrev pub recent_access_limit : ℕ
recent_access_limit = 20

unfoldable pub listed : (JsonValue → ℕ) → List JsonObject → List RecentAccessEntry
unfolding normalize_all sort_by insert_by
listed number_of os = take recent_access_limit (sort_by latest_first (normalize_all number_of os))

-- `parseRecentAccessCookie`: `parse` decodes the text and parses it, `none` where that throws or gives
-- no array.
unfoldable pub parse_recent_access_cookie :
    (JsonValue → ℕ) → (String → Option (List JsonObject)) → Option String → List RecentAccessEntry
unfolding listed
parse_recent_access_cookie number_of parse none = []
parse_recent_access_cookie number_of parse (some value) =
    if is_empty value then [] else elim (parse value) [ none ↦ [] | some os ↦ listed number_of os ]

abbrev text_or_missing : Option String → JsonValue
text_or_missing none = missing
text_or_missing (some s) = text s

-- An entry as an object.
unfoldable pub object_of : RecentAccessEntry → JsonObject
object_of e key =
    if str_eq key "userId"
    then text e.user_id
    else if str_eq key "id"
    then text e.id
    else if str_eq key "type"
    then text e.kind
    else if str_eq key "area"
    then text (area_text e.area)
    else if str_eq key "orgSlug"
    then text_or_missing e.org_slug
    else if str_eq key "title"
    then text e.title
    else if str_eq key "href"
    then text e.href
    else if str_eq key "accessedAt"
    then number e.accessed_at
    else if str_eq key "subtitle"
    then text_or_missing e.subtitle
    else missing

abbrev other_key : RecentAccessEntry → RecentAccessEntry → Bool
unfolding recent_access_key
other_key e item = not (str_eq (recent_access_key item) (recent_access_key e))

unfoldable pub upsert_recent_access :
    (JsonValue → ℕ) → ℕ → List RecentAccessEntry → RecentAccessEntry → List RecentAccessEntry
unfolding listed object_of filter other_key
upsert_recent_access number_of now entries entry =
    listed number_of
      (map object_of (record entry { accessed_at = now } ∷ filter (other_key entry) entries))
