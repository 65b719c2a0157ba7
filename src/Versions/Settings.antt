-- ===== src/Versions/Settings.antt =====
-- internal/versions/mutations.go, "admin-only page settings": flags, theme, password and title.
-- They move no pointer and touch no version.
use pages.Common.{
  Bool, Option, Text, [], codes, false, if◌then◌else◌, leb, none, some, text_eq, true, ℕ, ◌||◌, ◌∷◌,
}
use pages.Common.Table.{select}
use pages.Jsstr.{slice, trim, utf16_len}
use pages.Versions.Args.{
  Result, Value, bad_boolean, bad_password, bool, err, found_or, is_nullish, ok, password_too_long,
  require, str, title_required, unknown_theme, ◌>>=◌, ◌>>◌,
}
use pages.Versions.Guards.{assert_admin_action, lock_page}
use pages.Versions.Prepare.{Platform, is_some}
use pages.Versions.Store.{
  Actor, PageRow, Store, approval_set, clear_password, disable, enable, no_metadata,
  reveal_available, reveal_password, set_approval, set_password, set_theme, set_title, theme_set,
  title_set, update_page, write_audit,
}

unfoldable pub strict_bool : Value → Result Bool
strict_bool (bool b) = ok b
strict_bool _ = err bad_boolean

abbrev pub set_disabled_flag : Bool → ℕ → PageRow → PageRow
set_disabled_flag b now p = record p { disabled = b; updated_at = now }

-- `SetDisabled`
unfoldable pub set_disabled :
    Platform → Text → Value → Actor → Store → Result ((Text × Bool) × Store)
unfolding strict_bool
set_disabled env slug given a s = do
  assert_admin_action a
  value ← strict_bool given
  page ← lock_page env.to_lower (str slug) s
  let updated = update_page page.id (set_disabled_flag value s.now) s
  ok (
    (page.slug, value),
    write_audit a (if value then disable else enable) page.id 0 no_metadata updated,
  )

abbrev pub set_approval_flag : Bool → ℕ → PageRow → PageRow
set_approval_flag b now p = record p { require_approval = b; updated_at = now }

-- `SetApproval`
unfoldable pub set_approval_gate :
    Platform → Text → Value → Actor → Store → Result ((Text × Bool) × Store)
unfolding strict_bool
set_approval_gate env slug given a s = do
  assert_admin_action a
  value ← strict_bool given
  page ← lock_page env.to_lower (str slug) s
  let updated = update_page page.id (set_approval_flag value s.now) s
  ok ((page.slug, value), write_audit a set_approval page.id 0 (approval_set value) updated)

-- The row of the theme; the default theme is NULL.
unfoldable pub theme_row : Text → Store → Result ℕ
unfolding text_eq select
theme_row theme s =
    if text_eq theme [] || text_eq theme (codes "flag")
    then ok 0
    else (found_or (select (λ t. text_eq t.name theme) s.themes) unknown_theme >>= λ t. ok t.id)

abbrev pub theme_name : Text → Text
theme_name [] = codes "flag"
theme_name (c ∷ cs) = c ∷ cs

abbrev pub set_theme_id : ℕ → ℕ → PageRow → PageRow
set_theme_id id now p = record p { theme_id = id; updated_at = now }

-- `SetTheme`
unfoldable pub set_page_theme :
    Platform → Text → Text → Actor → Store → Result ((Text × Text) × Store)
unfolding theme_row
set_page_theme env slug theme a s = do
  assert_admin_action a
  page ← lock_page env.to_lower (str slug) s
  id ← theme_row theme s
  let updated = update_page page.id (set_theme_id id s.now) s
  ok (
    (page.slug, theme_name theme),
    write_audit a set_theme page.id 0 (theme_set (theme_name theme)) updated,
  )

-- nil, null and the empty string clear the password.
unfoldable pub is_clearing : Value → Bool
unfolding is_nullish
is_clearing (str []) = true
is_clearing v = is_nullish v

-- The hash of a new password, with its sealed copy.
unfoldable pub password_columns : Platform → Value → Result (Text × Option Text)
unfolding utf16_len
password_columns env (str pw) = do
  require (leb (utf16_len pw) 512) password_too_long
  hash ← env.hash_password pw
  ok (hash, elim (env.seal pw hash) [ [] ↦ none | _ ↦ some (env.seal pw hash) ])
password_columns env _ = err bad_password

abbrev pub set_password_columns : Option Text → Option Text → ℕ → PageRow → PageRow
set_password_columns hash sealed now p = record p {
  password_hash = hash;
  password_ciphertext = sealed;
  updated_at = now;
}

unfoldable pub store_password :
    Platform → Text → Option Text → Option Text → Actor → Store → Result ((Text × Bool) × Store)
store_password env slug hash sealed a s = do
  page ← lock_page env.to_lower (str slug) s
  let updated = update_page page.id (set_password_columns hash sealed s.now) s
  ok (
    (page.slug, is_some hash),
    write_audit a (if is_some hash then set_password else clear_password) page.id 0 no_metadata
        updated,
  )

unfoldable pub new_password :
    Platform → Text → Value → Actor → Store → Result ((Text × Bool) × Store)
unfolding password_columns store_password
new_password env slug given a s = do
  columns ← password_columns env given
  store_password env slug (some columns.0) columns.1 a s

-- `SetPassword`: an agent may set one, and only a person may clear it.
unfoldable pub set_page_password :
    Platform → Text → Value → Actor → Store → Result ((Text × Bool) × Store)
unfolding is_clearing new_password store_password
set_page_password env slug given a s =
    if is_clearing given
    then (assert_admin_action a >> store_password env slug none none a s)
    else new_password env slug given a s

-- `RevealedPassword`
pub record RevealedPassword : Type 0 where
  pub slug : Text
  pub has_password : Bool
  pub available : Bool
  pub password : Option Text

no_password : PageRow → RevealedPassword
no_password page = record {
  slug = page.slug;
  has_password = false;
  available = false;
  password = none;
}

open_password : Platform → PageRow → Text → Actor → Store → RevealedPassword × Store
open_password env page hash a s =
    let opened = env.unseal (elim page.password_ciphertext [ none ↦ [] | some c ↦ c ]) hash in
    (
      record {
        slug = page.slug;
        has_password = true;
        available = is_some opened;
        password = opened;
      },
      write_audit a reveal_password page.id 0 (reveal_available (is_some opened)) s,
    )

unfoldable pub revealed :
    Platform → PageRow → Option Text → Actor → Store → RevealedPassword × Store
unfolding no_password open_password
revealed env page none a s = (no_password page, s)
revealed env page (some []) a s = (no_password page, s)
revealed env page (some (c ∷ cs)) a s = open_password env page (c ∷ cs) a s

-- `RevealPassword`
unfoldable pub reveal_page_password :
    Platform → Text → Actor → Store → Result (RevealedPassword × Store)
unfolding revealed
reveal_page_password env slug a s = do
  assert_admin_action a
  page ← lock_page env.to_lower (str slug) s
  ok (revealed env page page.password_hash a s)

unfoldable pub clean_title : Value → Result Text
unfolding trim slice
clean_title (str t) = elim (trim t) [ [] ↦ err title_required | _ ↦ ok (slice (trim t) 0 200) ]
clean_title _ = err title_required

abbrev pub set_title_text : Text → ℕ → PageRow → PageRow
set_title_text t now p = record p { title = t; updated_at = now }

-- `SetTitle`: an unchanged title writes nothing.
unfoldable pub set_page_title :
    Platform → Text → Value → Actor → Store → Result ((Text × Text) × Store)
unfolding clean_title text_eq
set_page_title env slug given a s = do
  clean ← clean_title given
  page ← lock_page env.to_lower (str slug) s
  let updated = update_page page.id (set_title_text clean s.now) s
  ok (
      if text_eq page.title clean
      then ((page.slug, clean), s)
      else ((page.slug, clean), write_audit a set_title page.id 0 (title_set clean) updated))
