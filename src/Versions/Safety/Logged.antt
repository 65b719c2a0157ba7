-- ===== src/Versions/Safety/Logged.antt =====
-- The reviews, the settings, and pages that come and go: each change goes with an audit entry.
use pages.Common.{
  Bool-cases, Option, Text, [], false, inl, inr, none, not, refl, some, text_eq, ℕ, ◌==◌, ◌||◌, ◌∷◌,
  ◌≡◌,
}
use pages.Versions.Args.{
  Value, assert_slug_not_reserved, bool_arg, found_or, normalize_note, normalize_slug, not_approved,
  not_draft, not_pending, not_rejectable, page_not_found, slug_exists, slug_taken, str,
  version_id_required,
}
use pages.Versions.Deploy.{with_status}
use pages.Versions.Guards.{assert_admin_action, assert_agent_may_move_pointer}
use pages.Versions.Lifecycle.{
  CreatePageInput, add_page, assert_workspace_exists, create_empty_page, delete_live_page,
  delete_row, last_deleted, restore_deleted_page, restore_row, title_text, workspace_ref,
}
use pages.Versions.Prepare.{Platform, is_some}
use pages.Versions.Review.{
  approve_pending, note_metadata, publish_draft, reject_version, reviewed, rollback_page,
  rollback_target,
}
use pages.Versions.Safety.Audit.{
  Audited, Logs, moved_store-Audited, unchanged-Audited, update_page-Audited, written-Audited,
}
use pages.Versions.Settings.{
  clean_title, is_clearing, new_password, password_columns, reveal_page_password, revealed,
  set_approval_flag, set_approval_gate, set_disabled, set_disabled_flag, set_page_password,
  set_page_theme, set_page_title, set_password_columns, set_theme_id, set_title_text,
  store_password, strict_bool, theme_row,
}
use pages.Versions.Spec.Invert.{
  Ensures, after_bind, after_check, after_lock_page, after_lock_version, after_move_pointer,
  after_require, returns,
}
use pages.Versions.Store.{
  Actor, PageRow, Store, VersionRow, approve, approved, create_page, draft, insert_page, live_page,
  pending, publish, reject, rejected, rollback, status_eq, update_version,
}

abbrev Always : Type 0
Always = Unit {0}

stamped-log :
    (id : ℕ) (f : VersionRow → VersionRow) (s : Store)
    → (update_version id f s).audit_log ≡ s.audit_log
unfolding update_version
stamped-log id f s = refl

pub publish_draft-Logs :
    (env : Platform) (slug : Text) (id : ℕ) (expected : Value) (a : Actor) (s : Store)
    → Ensures (Logs Always a s) (publish_draft env slug id expected a s)
unfolding publish_draft
publish_draft-Logs env slug id expected a s =
    after_require (not (id == 0)) version_id_required _ λ _.
      after_lock_page env.to_lower (str slug) s _ λ page _.
        after_check (assert_agent_may_move_pointer page a) _ λ _.
          after_lock_version s page.id id _ λ v _ _.
            after_require (status_eq v.status draft) not_draft _ λ _.
              let t = update_version id (with_status approved) s in
              after_move_pointer t page id expected a publish none _ (
                returns (
                  moved_store-Audited Always s t page id publish none
                    (stamped-log id (with_status approved) s)))

pub rollback_page-Logs :
    (env : Platform) (slug : Text) (id : ℕ) (expected why : Value) (a : Actor) (s : Store)
    → Ensures (Logs Always a s) (rollback_page env slug id expected why a s)
unfolding rollback_page
rollback_page-Logs env slug id expected why a s = after_bind (normalize_note why) _ λ reason _.
    after_lock_page env.to_lower (str slug) s _ λ page _.
      after_check (assert_agent_may_move_pointer page a) _ λ _.
        after_bind (rollback_target s page id) _ λ target _.
          after_lock_version s page.id target _ λ v _ _.
            after_require (status_eq v.status approved) not_approved _ λ _.
              after_move_pointer s page target expected a rollback reason _
                (returns (moved_store-Audited Always s s page target rollback reason refl))

pub approve_pending-Logs :
    (env : Platform) (slug : Text) (id : ℕ) (expected : Value) (a : Actor) (s : Store)
    → Ensures (Logs Always a s) (approve_pending env slug id expected a s)
unfolding approve_pending
approve_pending-Logs env slug id expected a s = after_check (assert_admin_action a) _ λ _.
    after_require (not (id == 0)) version_id_required _ λ _.
      after_lock_page env.to_lower (str slug) s _ λ page _.
        after_lock_version s page.id id _ λ v _ _.
          after_require (status_eq v.status pending) not_pending _ λ _.
            let t = update_version id (reviewed approved a s.now) s in
            after_move_pointer t page id expected a approve none _ (
              returns (
                moved_store-Audited Always s t page id approve none
                  (stamped-log id (reviewed approved a s.now) s)))

pub reject_version-Logs :
    (env : Platform) (slug : Text) (id : ℕ) (why : Value) (a : Actor) (s : Store)
    → Ensures (Logs Always a s) (reject_version env slug id why a s)
unfolding reject_version
reject_version-Logs env slug id why a s = after_check (assert_admin_action a) _ λ _.
    after_require (not (id == 0)) version_id_required _ λ _.
      after_bind (normalize_note why) _ λ reason _.
        after_lock_page env.to_lower (str slug) s _ λ page _.
          after_lock_version s page.id id _ λ v _ _.
            after_require (status_eq v.status pending || status_eq v.status draft) not_rejectable _
              λ _. returns (
                written-Audited Always s (update_version id (reviewed rejected a s.now) s) reject
                  page.id id (note_metadata reason) (stamped-log id (reviewed rejected a s.now) s))

pub set_disabled-Logs :
    (env : Platform) (slug : Text) (v : Value) (a : Actor) (s : Store)
    → Ensures (Logs Always a s) (set_disabled env slug v a s)
unfolding set_disabled
set_disabled-Logs env slug v a s = after_check (assert_admin_action a) _ λ _.
    after_bind (strict_bool v) _ λ b _.
      after_lock_page env.to_lower (str slug) s _
        λ page _. returns (update_page-Audited s page.id (set_disabled_flag b s.now) _ _)

pub set_approval_gate-Logs :
    (env : Platform) (slug : Text) (v : Value) (a : Actor) (s : Store)
    → Ensures (Logs Always a s) (set_approval_gate env slug v a s)
unfolding set_approval_gate
set_approval_gate-Logs env slug v a s = after_check (assert_admin_action a) _ λ _.
    after_bind (strict_bool v) _ λ b _.
      after_lock_page env.to_lower (str slug) s _
        λ page _. returns (update_page-Audited s page.id (set_approval_flag b s.now) _ _)

pub set_page_theme-Logs :
    (env : Platform) (slug theme : Text) (a : Actor) (s : Store)
    → Ensures (Logs Always a s) (set_page_theme env slug theme a s)
unfolding set_page_theme
set_page_theme-Logs env slug theme a s = after_check (assert_admin_action a) _ λ _.
    after_lock_page env.to_lower (str slug) s _ λ page _.
      after_bind (theme_row theme s) _
        λ id _. returns (update_page-Audited s page.id (set_theme_id id s.now) _ _)

store_password-Logs :
    (env : Platform) (slug : Text) (hash sealed : Option Text) (a : Actor) (s : Store)
    → Ensures (Logs Always a s) (store_password env slug hash sealed a s)
unfolding store_password
store_password-Logs env slug hash sealed a s =
    after_lock_page env.to_lower (str slug) s _
      λ page _. returns (update_page-Audited s page.id (set_password_columns hash sealed s.now) _ _)

new_password-Logs :
    (env : Platform) (slug : Text) (v : Value) (a : Actor) (s : Store)
    → Ensures (Logs Always a s) (new_password env slug v a s)
unfolding new_password
new_password-Logs env slug v a s =
    after_bind (password_columns env v) _
      λ columns _. store_password-Logs env slug (some columns.0) columns.1 a s

pub set_page_password-Logs :
    (env : Platform) (slug : Text) (v : Value) (a : Actor) (s : Store)
    → Ensures (Logs Always a s) (set_page_password env slug v a s)
unfolding set_page_password
set_page_password-Logs env slug v a s = elim (Bool-cases (is_clearing v)) [
  | inl clears ↦
      rw clears
        (after_check (assert_admin_action a) _ λ _. store_password-Logs env slug none none a s)
  | inr sets ↦ rw sets (new_password-Logs env slug v a s)
]

revealed-Audited :
    (env : Platform) (page : PageRow) (hash : Option Text) (a : Actor) (s : Store)
    → Audited Always a s (revealed env page hash a s).1
unfolding revealed
revealed-Audited env page none a s = unchanged-Audited Always s
revealed-Audited env page (some []) a s = unchanged-Audited Always s
revealed-Audited env page (some (c ∷ cs)) a s = written-Audited Always s s _ page.id 0 _ refl

pub reveal_page_password-Logs :
    (env : Platform) (slug : Text) (a : Actor) (s : Store)
    → Ensures (Logs Always a s) (reveal_page_password env slug a s)
unfolding reveal_page_password
reveal_page_password-Logs env slug a s = after_check (assert_admin_action a) _ λ _.
    after_lock_page env.to_lower (str slug) s _
      λ page _. returns (revealed-Audited env page page.password_hash a s)

pub set_page_title-Logs :
    (env : Platform) (slug : Text) (v : Value) (a : Actor) (s : Store)
    → Ensures (Logs Always a s) (set_page_title env slug v a s)
unfolding set_page_title
set_page_title-Logs env slug v a s = after_bind (clean_title v) _ λ clean _.
    after_lock_page env.to_lower (str slug) s _ λ page _.
      elim (Bool-cases (text_eq page.title clean)) [
        | inl same ↦ rw same (returns (unchanged-Audited Always s))
        | inr differs ↦
            rw differs (returns (update_page-Audited s page.id (set_title_text clean s.now) _ _))
      ]

pub delete_live_page-Logs :
    (env : Platform) (slug : Text) (a : Actor) (s : Store)
    → Ensures (Logs Always a s) (delete_live_page env slug a s)
unfolding delete_live_page
delete_live_page-Logs env slug a s = after_lock_page env.to_lower (str slug) s _ λ page _.
    after_check (assert_agent_may_move_pointer page a) _
      λ _. returns (update_page-Audited s page.id (delete_row s.now) _ _)

pub restore_deleted_page-Logs :
    (env : Platform) (slug : Text) (a : Actor) (s : Store)
    → Ensures (Logs Always a s) (restore_deleted_page env slug a s)
unfolding restore_deleted_page
restore_deleted_page-Logs env raw_slug a s = after_check (assert_admin_action a) _ λ _.
    after_bind (normalize_slug env.to_lower (str raw_slug)) _ λ slug _.
      after_check (assert_slug_not_reserved slug) _ λ _.
        after_require (not (is_some (live_page slug s))) slug_taken _ λ _.
          after_bind (found_or (last_deleted slug s) page_not_found) _
            λ page _. returns (update_page-Audited s page.id (restore_row s.now) _ _)

pub add_page-Audited :
    (row : PageRow) (a : Actor) (s : Store) → Audited Always a s (add_page row a s).1
unfolding add_page insert_page
add_page-Audited row a s = written-Audited Always s _ create_page _ 0 _ refl

pub create_empty_page-Logs :
    (env : Platform) (req : CreatePageInput) (a : Actor) (s : Store)
    → Ensures (Logs Always a s) (create_empty_page env req a s)
unfolding create_empty_page
create_empty_page-Logs env req a s = after_bind (bool_arg req.require_approval false) _ λ gate _.
    after_bind (normalize_slug env.to_lower req.slug) _ λ slug _.
      after_check (assert_slug_not_reserved slug) _ λ _.
        after_bind (workspace_ref req.workspace_id a) _ λ workspace _.
          after_check (assert_workspace_exists workspace s) _ λ _.
            after_require (not (is_some (live_page slug s))) slug_exists _
              λ _. after_bind (title_text req.title) _ λ title _. returns (add_page-Audited _ a s)
