-- ===== src/Versions/Review.antt =====
-- internal/versions/mutations.go, "publish / rollback / approve / reject".
use pages.Common.{Bool, Option, Text, [], if◌then◌else◌, none, not, some, ℕ, ◌&&◌, ◌==◌, ◌||◌, ◌∷◌}
use pages.Versions.Args.{
  Result, Value, found_or, no_rollback_target, normalize_note, not_approved, not_draft, not_pending,
  not_rejectable, ok, require, str, version_id_required, ◌>>=◌, ◌>>◌,
}
use pages.Versions.Deploy.{with_status}
use pages.Versions.Guards.{
  assert_admin_action, assert_agent_may_move_pointer, lock_page, lock_version, move_pointer,
}
use pages.Versions.Prepare.{Platform}
use pages.Versions.Store.{
  Actor, Metadata, PageRow, Status, Store, VersionRow, approve, approved, draft, first_by,
  newer_version, no_metadata, pending, publish, reject, rejected, rejected_with, rollback,
  status_eq, update_version, where_rows, write_audit,
}

-- `Publish`
unfoldable pub publish_draft :
    Platform → Text → ℕ → Value → Actor → Store → Result (VersionRow × Store)
publish_draft env slug version_id expected a s = do
  require (not (version_id == 0)) version_id_required
  page ← lock_page env.to_lower (str slug) s
  assert_agent_may_move_pointer page a
  v ← lock_version s page.id version_id
  require (status_eq v.status draft) not_draft
  let stamped = update_version version_id (with_status approved) s
  moved ← move_pointer stamped page version_id expected a publish none
  ok (with_status approved v, moved)

-- The most recent approved version of the page that is not live.
unfoldable pub rollback_candidate : PageRow → VersionRow → Bool
unfolding status_eq
rollback_candidate page v =
    v.page_id == page.id && status_eq v.status approved && not (v.id == page.published_version_id)

unfoldable pub rollback_target : Store → PageRow → ℕ → Result ℕ
unfolding rollback_candidate where_rows first_by
rollback_target s page version_id =
    if version_id == 0
    then (found_or (first_by newer_version (where_rows (rollback_candidate page) s.versions))
          no_rollback_target
        >>= λ v. ok v.id)
    else ok version_id

-- `Rollback`
unfoldable pub rollback_page :
    Platform → Text → ℕ → Value → Value → Actor → Store → Result (VersionRow × Store)
rollback_page env slug version_id expected given_note a s = do
  note ← normalize_note given_note
  page ← lock_page env.to_lower (str slug) s
  assert_agent_may_move_pointer page a
  target ← rollback_target s page version_id
  v ← lock_version s page.id target
  require (status_eq v.status approved) not_approved
  moved ← move_pointer s page target expected a rollback note
  ok (v, moved)

abbrev pub reviewed : Status → Actor → ℕ → VersionRow → VersionRow
reviewed st a now v = record v { status = st; reviewed_by = some a.name; reviewed_at = some now }

abbrev pub shown_review : Status → Actor → VersionRow → VersionRow
shown_review st a v = record v { status = st; reviewed_by = some a.name }

-- `Approve`
unfoldable pub approve_pending :
    Platform → Text → ℕ → Value → Actor → Store → Result (VersionRow × Store)
approve_pending env slug version_id expected a s = do
  assert_admin_action a
  require (not (version_id == 0)) version_id_required
  page ← lock_page env.to_lower (str slug) s
  v ← lock_version s page.id version_id
  require (status_eq v.status pending) not_pending
  let stamped = update_version version_id (reviewed approved a s.now) s
  moved ← move_pointer stamped page version_id expected a approve none
  ok (shown_review approved a v, moved)

abbrev pub note_metadata : Option Text → Metadata
note_metadata none = no_metadata
note_metadata (some []) = no_metadata
note_metadata (some (c ∷ cs)) = rejected_with (c ∷ cs)

-- `Reject`
unfoldable pub reject_version :
    Platform → Text → ℕ → Value → Actor → Store → Result (VersionRow × Store)
reject_version env slug version_id given_note a s = do
  assert_admin_action a
  require (not (version_id == 0)) version_id_required
  note ← normalize_note given_note
  page ← lock_page env.to_lower (str slug) s
  v ← lock_version s page.id version_id
  require (status_eq v.status pending || status_eq v.status draft) not_rejectable
  let stamped = update_version version_id (reviewed rejected a s.now) s
  ok (
    shown_review rejected a v,
    write_audit a reject page.id version_id (note_metadata note) stamped,
  )
