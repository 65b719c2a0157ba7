-- ===== src/Versions/Lifecycle.antt =====
-- Pages come and go: `CreatePage`, `DeletePage` and `RestorePage` of internal/versions/mutations.go
-- and `CreateAndDeployWithTx` of deploy.go. A transaction is one step, so no other transaction
-- commits while one waits on the unique index of the live slugs.
use pages.Common.{
  Bool, Option, Text, [], false, if◌then◌else◌, ltb, none, not, some, text_eq, true, ℕ, ◌&&◌, ◌==◌,
}
use pages.Common.Table.{find}
use pages.Versions.Args.{
  Result, Value, assert_slug_not_reserved, bool_arg, found_or, is_nullish, normalize_slug,
  normalize_workspace_id, null_title, ok, omitted, page_not_found, pg_text, require, slug_exists,
  slug_taken, stale_version, str, workspace_not_found, ◌>>=◌, ◌>>◌,
}
use pages.Versions.Deploy.{DeployResult, deploy_locked}
use pages.Versions.Guards.{
  assert_admin_action, assert_agent_may_move_pointer, assert_workspace_organizer, lock_page,
}
use pages.Versions.Prepare.{DeployInput, Platform, Prepared, is_some, prepare_deploy}
use pages.Versions.Store.{
  Actor, Metadata, PageRow, Store, create_page, delete_page, first_by, had_published, in_workspace,
  insert_page, is_live_row, live_page, no_metadata, restore_page, update_page, where_rows,
  write_audit,
}

-- `CreatePageInput`
pub record CreatePageInput : Type 0 where
  pub slug : Value
  pub title : Value
  pub client_id : Value
  pub workspace_id : Value
  pub require_approval : Value

-- The title column is NOT NULL, so the INSERT fails on an explicit null.
unfoldable pub title_text : Value → Result Text
unfolding pg_text
title_text omitted = ok []
title_text v = found_or (pg_text v) null_title

-- A given workspace id, 0 for none.
unfoldable pub workspace_ref : Value → Actor → Result ℕ
unfolding is_nullish
workspace_ref v a =
    if is_nullish v then ok 0 else (assert_workspace_organizer a >> normalize_workspace_id v)

abbrev pub assert_workspace_exists : ℕ → Store → Result (Unit {0})
assert_workspace_exists id s =
    if id == 0
    then ok tt
    else (found_or (find (λ w. w.id) id s.workspaces) workspace_not_found >>= λ _. ok tt)

-- The row to insert; the insertion sets its id and times.
unfoldable pub new_page : Text → Text → Option Text → ℕ → Bool → PageRow
new_page slug title client workspace gate = record {
  id = 0;
  slug = slug;
  title = title;
  client_id = client;
  workspace_id = workspace;
  theme_id = 0;
  password_hash = none;
  password_ciphertext = none;
  require_approval = gate;
  disabled = false;
  published_version_id = 0;
  created_at = 0;
  updated_at = 0;
  deleted_at = none;
}

abbrev pub workspace_metadata : ℕ → Metadata
workspace_metadata id = if id == 0 then no_metadata else in_workspace id

-- The INSERT and its audit entry.
unfoldable pub add_page : PageRow → Actor → Store → PageRow × Store
unfolding insert_page write_audit
add_page row a s =
    let (page, stored) = insert_page row s in
    (page, write_audit a create_page page.id 0 (workspace_metadata page.workspace_id) stored)

-- `CreatePage`
unfoldable pub create_empty_page :
    Platform → CreatePageInput → Actor → Store → Result (PageRow × Store)
unfolding workspace_ref new_page
create_empty_page env req a s = do
  gate ← bool_arg req.require_approval false
  slug ← normalize_slug env.to_lower req.slug
  assert_slug_not_reserved slug
  workspace ← workspace_ref req.workspace_id a
  assert_workspace_exists workspace s
  require (not (is_some (live_page slug s))) slug_exists
  title ← title_text req.title
  ok (add_page (new_page slug title (pg_text req.client_id) workspace gate) a s)

abbrev pub delete_row : ℕ → PageRow → PageRow
delete_row now p = record p { published_version_id = 0; deleted_at = some now; updated_at = now }

-- `DeletePage`
unfoldable pub delete_live_page : Platform → Text → Actor → Store → Result (Text × Store)
delete_live_page env slug a s = do
  page ← lock_page env.to_lower (str slug) s
  assert_agent_may_move_pointer page a
  ok (
    page.slug,
    write_audit a delete_page page.id 0 (had_published page.published_version_id)
        (update_page page.id (delete_row s.now) s),
  )

abbrev pub deleted_time : PageRow → ℕ
deleted_time p = elim p.deleted_at [ none ↦ 0 | some t ↦ t ]

-- `WHERE slug = $1 AND deleted_at IS NOT NULL ORDER BY deleted_at DESC LIMIT 1`
unfoldable pub last_deleted : Text → Store → Option PageRow
unfolding first_by where_rows text_eq
last_deleted slug s =
    first_by (λ p q. ltb (deleted_time q) (deleted_time p))
      (where_rows (λ p. not (is_live_row p) && text_eq p.slug slug) s.pages)

abbrev pub restore_row : ℕ → PageRow → PageRow
restore_row now p = record p { deleted_at = none; updated_at = now }

-- `RestorePage`
unfoldable pub restore_deleted_page : Platform → Text → Actor → Store → Result (Text × Store)
restore_deleted_page env raw_slug a s = do
  assert_admin_action a
  slug ← normalize_slug env.to_lower (str raw_slug)
  assert_slug_not_reserved slug
  require (not (is_some (live_page slug s))) slug_taken
  page ← found_or (last_deleted slug s) page_not_found
  ok (
    slug,
    write_audit a restore_page page.id 0 no_metadata (update_page page.id (restore_row s.now) s),
  )

-- `CreateAndDeployInput`
pub record CreateAndDeployInput : Type 0 where
  pub deploy_input : DeployInput
  pub title : Value
  pub client_id : Value
  pub workspace_id : Value
  pub require_approval : Value

-- The page of the slug: the live one, or a new one. The flag says that it was created.
unfoldable pub lock_or_create :
    Store → CreateAndDeployInput → Prepared → Bool → ℕ → Actor → Result (PageRow × Bool × Store)
lock_or_create s req p gate workspace a = elim (live_page p.slug s) [
  | some page ↦ ok (page, false, s)
  | none ↦ do
    assert_slug_not_reserved p.slug
    assert_workspace_exists workspace s
    title ← title_text req.title
    require (is_nullish p.expected_version) stale_version
    let row = new_page p.slug title (pg_text req.client_id) workspace gate
    let (page, stored) = add_page row a s
    ok (page, true, stored)
]

-- `CreateAndDeployWithTx`; `check` is `AssertExistingPage`.
unfoldable pub create_and_deploy :
    Platform
    → (PageRow → Result (Unit {0}))
    → CreateAndDeployInput
    → Actor
    → Store
    → Result ((Bool × DeployResult) × Store)
unfolding lock_or_create workspace_ref
create_and_deploy env check req a s = do
  gate ← bool_arg req.require_approval false
  workspace ← workspace_ref req.workspace_id a
  p ← prepare_deploy env req.deploy_input a
  (page, created, stored) ← lock_or_create s req p gate workspace a
  if created then ok tt else check page
  (r, after) ← deploy_locked stored page p a 0
  ok ((created, record r { config_schema_generated = p.config_schema_generated }), after)
