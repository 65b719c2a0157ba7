-- ===== src/Versions/Guards.antt =====
-- internal/versions/deploy.go, "locking and authority": the locks, the checks on the actor and on
-- `expected_version`, and the one statement that changes what is live.
use pages.Common.{Bool, Option, Text, false, if◌then◌else◌, true, ℕ, ◌==◌, ◌||◌}
use pages.Versions.Args.{
  Result, Value, admin_only, approval_required, disabled_takedown, err, found_or, is_nullish,
  normalize_slug, ok, organizer_only, page_not_found, require, same_db_id, stale_version,
  version_not_found, ◌>>=◌, ◌>>◌,
}
use pages.Versions.Store.{
  Action, Actor, PageRow, Store, VersionRow, find_version, live_page, pointer_moved, system,
  update_page, user, write_audit,
}

-- `LockPage`. The row lock serializes the writers of a page: a transaction is one step of the
-- model.
unfoldable pub lock_page : (ℕ → ℕ) → Value → Store → Result PageRow
lock_page to_lower slug s = do
  wanted ← normalize_slug to_lower slug
  found_or (live_page wanted s) page_not_found

-- `lockVersion`: `WHERE id = $1 AND page_id = $2`
unfoldable pub lock_version : Store → ℕ → ℕ → Result VersionRow
lock_version s page_id version_id = do
  v ← found_or (find_version version_id s) version_not_found
  require (v.page_id == page_id) version_not_found
  ok v

-- `AssertExpectedVersion`
unfoldable pub assert_expected_version : PageRow → Value → Result (Unit {0})
assert_expected_version page expected =
    require (is_nullish expected || same_db_id expected page.published_version_id) stale_version

unfoldable pub is_user : Actor → Bool
is_user a = elim a.actor_type [ user ↦ true | _ ↦ false ]

-- `AssertAgentMayMovePointer`
unfoldable pub assert_agent_may_move_pointer : PageRow → Actor → Result (Unit {0})
unfolding is_user
assert_agent_may_move_pointer page a =
    if is_user a
    then ok tt
    else if page.disabled
    then err disabled_takedown
    else if page.require_approval
    then err approval_required
    else ok tt

-- `AssertAdminAction`
unfoldable pub assert_admin_action : Actor → Result (Unit {0})
unfolding is_user
assert_admin_action a = require (is_user a) admin_only

-- `assertWorkspaceOrganizer`
unfoldable pub assert_workspace_organizer : Actor → Result (Unit {0})
assert_workspace_organizer a = elim a.actor_type [ system ↦ err organizer_only | _ ↦ ok tt ]

abbrev pub point_at : ℕ → ℕ → PageRow → PageRow
point_at version now p = record p { published_version_id = version; updated_at = now }

-- `movePointer`
unfoldable pub move_pointer :
    Store → PageRow → ℕ → Value → Actor → Action → Option Text → Result Store
move_pointer s page version expected a action note = do
  assert_expected_version page expected
  let moved = update_page page.id (point_at version s.now) s
  ok (
      write_audit a action page.id version (pointer_moved page.published_version_id version note)
        moved)
