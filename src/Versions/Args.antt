-- ===== src/Versions/Args.antt =====
-- internal/versions/args.go and internal/routens/routens.go: the loosely typed inputs, slugs, notes
-- and ids. `Value` is a Go `any`: a JSON value that is none of the listed shapes carries the text
-- that `jsString` gives for it, and the truth value and SQL text are read from the same text.
use pages.Common.{
  Bool, List, Option, Text, [], codes, false, if◌then◌else◌, leb, ltb, map, none, not, some, suc,
  text_eq, true, zero, ℕ, ◌%◌, ◌&&◌, ◌*◌, ◌+◌, ◌-◌, ◌/◌, ◌==◌, ◌||◌, ◌∷◌,
}
use pages.Jsstr.{trim, utf16_len}
use mathlib.Core.List.{reverse}

pub data Value : Type 0 where
  omitted null : Value
  bool : Bool → Value
  str : Text → Value
  int : ℕ → Value
  other : Text → Value

-- The codes of the `*apierror.Error` values.
pub data Error : Type 0 where
  slug_required bad_slug reserved_slug bad_boolean bad_note note_too_long bad_workspace_id : Error
  workspace_not_found slug_exists page_not_found version_not_found version_id_required : Error
  stale_version disabled_takedown approval_required admin_only organizer_only : Error
  not_draft not_approved not_pending not_rejectable no_rollback_target rejected_terminal : Error
  html_required bad_render_mode bad_source unknown_theme bad_password password_too_long : Error
  title_required slug_taken slug_race deck_base_version_required deck_session_unavailable : Error
  stale_deck_version managed_parse_failed hash_failed null_title : Error
  managed_block_invalid : Text → Error

-- A value, or the `*apierror.Error` that the caller is told.
pub data Result {κ} (X : Type κ) : Type κ where
  err : Error → Result X
  ok : X → Result X

-- `if err != nil { return nil, err }`
infixl 5 ◌>>=◌ ◌>>◌
abbrev pub ◌>>=◌ {κ μ} : {X : Type κ} {Y : Type μ} → Result X → (X → Result Y) → Result Y
err reason >>= rest = err reason
ok x >>= rest = rest x

abbrev pub ◌>>◌ {μ} : {Y : Type μ} → Result (Unit {0}) → Result Y → Result Y
check >> rest = check >>= λ _. rest

-- `if !test { return nil, e }`
abbrev pub require : Bool → Error → Result (Unit {0})
require true e = ok tt
require false e = err e

-- A row, or the error of `db.IsNoRows`.
abbrev pub found_or : {A : Type 0} → Option A → Error → Result A
found_or (some a) e = ok a
found_or none e = err e

abbrev digits_from : ℕ → ℕ → Text → Text
digits_from zero n acc = acc
digits_from (suc f) n acc =
    let more = digits_from f (n / 10) ((48 + n % 10) ∷ acc) in
    if ltb n 10 then (48 + n) ∷ acc else more

-- `strconv.FormatInt`; a number has fewer digits than `n + 1`.
unfoldable pub decimal : ℕ → Text
decimal n = digits_from (suc n) n []

unfoldable pub is_nullish : Value → Bool
is_nullish omitted = true
is_nullish null = true
is_nullish _ = false

-- `jsString`
unfoldable pub js_string : Value → Text
unfolding decimal
js_string omitted = codes "undefined"
js_string null = codes "null"
js_string (bool true) = codes "true"
js_string (bool false) = codes "false"
js_string (str s) = s
js_string (int n) = decimal n
js_string (other s) = s

-- `sameDBID`
unfoldable pub same_db_id : Value → ℕ → Bool
unfolding is_nullish js_string text_eq
same_db_id a b = not (is_nullish a) && not (b == 0) && text_eq (js_string a) (decimal b)

-- `pgText`; `none` is SQL NULL.
unfoldable pub pg_text : Value → Option Text
unfolding js_string
pg_text omitted = none
pg_text null = none
pg_text v = some (js_string v)

-- `jsTruthy`
unfoldable pub js_truthy : Value → Bool
js_truthy omitted = false
js_truthy null = false
js_truthy (bool b) = b
js_truthy (str []) = false
js_truthy (str (_ ∷ _)) = true
js_truthy (int n) = not (n == 0)
js_truthy (other _) = true

-- `boolArg`
unfoldable pub bool_arg : Value → Bool → Result Bool
bool_arg omitted default = ok default
bool_arg (bool b) default = ok b
bool_arg _ default = err bad_boolean

abbrev pub is_alnum : ℕ → Bool
is_alnum c = leb b'a' c && leb c b'z' || leb b'0' c && leb c b'9'

abbrev pub is_separator : ℕ → Bool
is_separator c = c == b'-' || c == b'_' || c == b'/'

-- `slugRE`: runs of letters and digits, with one separator between two runs. The flag says that
-- the last character was a letter or digit.
unfoldable pub slug_matches : Bool → Text → Bool
slug_matches inside [] = inside
slug_matches inside (c ∷ cs) =
    let rest = slug_matches (is_alnum c) cs in
    if is_alnum c || inside && is_separator c then rest else false

unfoldable pub contains : ℕ → Text → Bool
contains c [] = false
contains c (x ∷ xs) = x == c || contains c xs

-- `NormalizeSlug`; `to_lower` is `unicode.ToLower`.
unfoldable pub normalize_slug : (ℕ → ℕ) → Value → Result Text
unfolding slug_matches contains
normalize_slug to_lower (str raw) =
    let s = trim raw in
    let lowered = map to_lower s in
    if contains 0x130 s
    then err bad_slug
    else if slug_matches false lowered
    then ok lowered
    else err bad_slug
normalize_slug to_lower _ = err slug_required

-- `strings.Split(slug, "/")`, with the segment read so far, reversed.
segments : Text → Text → List Text
segments acc [] = reverse acc ∷ []
segments acc (c ∷ cs) =
    let ends = reverse acc ∷ segments [] cs in
    let goes_on = segments (c ∷ acc) cs in if c == b'/' then ends else goes_on

-- `ReservedSlugSegments`
abbrev pub reserved_slug_segments : List Text
reserved_slug_segments =
    codes "raw"
    ∷ codes "raw-template"
    ∷ codes "assets"
    ∷ codes "healthz"
    ∷ codes "readyz"
    ∷ codes "welcome"
    ∷ codes "versions"
    ∷ codes "publish"
    ∷ codes "rollback"
    ∷ codes "approve"
    ∷ codes "reject"
    ∷ codes "approval"
    ∷ codes "password"
    ∷ codes "title"
    ∷ codes "theme"
    ∷ codes "disable"
    ∷ codes "enable"
    ∷ codes "delete"
    ∷ codes "restore"
    ∷ codes "preview-token"
    ∷ codes "edit-token"
    ∷ codes "deploy-source"
    ∷ codes "preflight"
    ∷ codes "workspace"
    ∷ codes "templates"
    ∷ codes "portal"
    ∷ codes "portals"
    ∷ []

unfoldable pub text_member : Text → List Text → Bool
unfolding text_eq
text_member s [] = false
text_member s (x ∷ xs) = text_eq x s || text_member s xs

abbrev any_reserved : List Text → Bool
any_reserved [] = false
any_reserved (s ∷ ss) = text_member s reserved_slug_segments || any_reserved ss

-- `AssertSlugNotReserved`
unfoldable pub assert_slug_not_reserved : Text → Result (Unit {0})
unfolding segments text_member
assert_slug_not_reserved slug = require (not (any_reserved (segments [] slug))) reserved_slug

abbrev max_safe_integer : ℕ
max_safe_integer = 9007199254740991

abbrev pub max_bigint : ℕ
max_bigint = 9223372036854775807

abbrev is_digit : ℕ → Bool
is_digit c = leb b'0' c && leb c b'9'

all_digits : Text → Bool
all_digits [] = true
all_digits (c ∷ cs) = is_digit c && all_digits cs

-- `strconv.ParseInt` on digits.
unfoldable pub digits_value : ℕ → Text → ℕ
digits_value acc [] = acc
digits_value acc (c ∷ cs) = digits_value (acc * 10 + (c - 48)) cs

-- `decimalIDRE`: a first digit from 1 to 9, then digits.
unfoldable pub is_decimal_id : Text → Bool
unfolding all_digits
is_decimal_id [] = false
is_decimal_id (c ∷ cs) = leb b'1' c && leb c b'9' && all_digits cs

-- `parsePositiveID`
unfoldable pub parse_positive_id : Value → Option ℕ
unfolding is_decimal_id digits_value
parse_positive_id (int n) = if ltb 0 n && leb n max_safe_integer then some n else none
parse_positive_id (str s) =
    if is_decimal_id s && leb (digits_value 0 s) max_bigint then some (digits_value 0 s) else none
parse_positive_id _ = none

-- `NormalizeWorkspaceID`
unfoldable pub normalize_workspace_id : Value → Result ℕ
normalize_workspace_id v = found_or (parse_positive_id v) bad_workspace_id

-- `normalizeNote`
unfoldable pub normalize_note : Value → Result (Option Text)
unfolding utf16_len
normalize_note omitted = ok none
normalize_note null = ok none
normalize_note (str s) = if ltb 500 (utf16_len s) then err note_too_long else ok (some s)
normalize_note _ = err bad_note
