-- ===== src/Versions/Spec/Review.antt =====
-- Publish, Rollback, Approve and Reject run permitted statements only.
use pages.Common.{
  Option, Text, arith, inl, none, not, refl, some, sym, true, ℕ, ◌==◌, ◌||◌, ◌∙◌, ◌≡◌,
}
use pages.Common.Rows.{find-modify_self}
use pages.Versions.Args.{
  Value, normalize_note, not_approved, not_draft, not_pending, not_rejectable, ok, str,
  version_id_required,
}
use pages.Versions.Deploy.{with_status}
use pages.Versions.Guards.{assert_admin_action, assert_agent_may_move_pointer, is_user}
use pages.Versions.Prepare.{Platform}
use pages.Versions.Review.{
  approve_pending, note_metadata, publish_draft, reject_version, reviewed, rollback_page,
  rollback_target,
}
use pages.Versions.Spec.Invert.{
  Ensures, after_bind, after_check, after_lock_page, after_lock_version, after_move_pointer,
  after_require, assert_agent_may_move_pointer-MayMove, moved_store, returns,
}
use pages.Versions.Spec.Rules.{
  IsLive, KeepsContent, MayMove, Trace, Transition, approves, done, logs, next, points, publishes,
  rejects_draft, rejects_pending, stamps,
}
use pages.Versions.Store.{
  Action, Actor, PageRow, Status, Store, VersionRow, approve, approved, draft, find_version,
  live_page, pending, pointer_moved, publish, reject, rejected, rollback, status_eq, update_version,
}
use mathlib.Core.Path.{subst}

pub status_eq→≡ : (x y : Status) → status_eq x y ≡ true → x ≡ y
unfolding status_eq
status_eq→≡ draft draft h = refl
status_eq→≡ pending pending h = refl
status_eq→≡ approved approved h = refl
status_eq→≡ rejected rejected h = refl
status_eq→≡ _ _ h = cc

pub with_status-KeepsContent : (st : Status) → KeepsContent (with_status st)
with_status-KeepsContent st = record {
  same_id = λ v. refl;
  same_page = λ v. refl;
  same_html = λ v. refl;
  same_sha = λ v. refl;
  same_mode = λ v. refl;
  same_time = λ v. refl;
  same_author = λ v. refl;
  same_source = λ v. refl;
  same_note = λ v. refl;
  same_managed = λ v. refl;
  same_template = λ v. refl;
  same_config = λ v. refl;
  same_gaps = λ v. refl;
}

reviewed-KeepsContent : (st : Status) (a : Actor) (now : ℕ) → KeepsContent (reviewed st a now)
reviewed-KeepsContent st a now = record {
  same_id = λ v. refl;
  same_page = λ v. refl;
  same_html = λ v. refl;
  same_sha = λ v. refl;
  same_mode = λ v. refl;
  same_time = λ v. refl;
  same_author = λ v. refl;
  same_source = λ v. refl;
  same_note = λ v. refl;
  same_managed = λ v. refl;
  same_template = λ v. refl;
  same_config = λ v. refl;
  same_gaps = λ v. refl;
}

pub find_version-update :
    (id : ℕ) (f : VersionRow → VersionRow) (s : Store) {v : VersionRow}
    → KeepsContent f
    → find_version id s ≡ some v
    → find_version id (update_version id f s) ≡ some (f v)
unfolding find_version update_version
find_version-update id f s {v} k h = find-modify_self (λ v. v.id) f k.same_id id s.versions v h

live_page-update_version :
    (slug : Text) (id : ℕ) (f : VersionRow → VersionRow) (s : Store)
    → live_page slug (update_version id f s) ≡ live_page slug s
unfolding live_page update_version
live_page-update_version slug id f s = refl

module _ {a : Actor} where
  -- A version is stamped `approved`, and the pointer moves to it.
  pub stamp_and_point :
      (s : Store) (page : PageRow) (id : ℕ) (v : VersionRow) (f : VersionRow → VersionRow)
      (act : Action) (why : Option Text)
      → IsLive page s
      → find_version id s ≡ some v
      → v.page_id ≡ page.id
      → KeepsContent f
      → (f v).status ≡ approved
      → Transition a page v.status (f v).status
      → MayMove a page
      → Trace a s (moved_store (update_version id f s) page id a act why)
  stamp_and_point s page id v f act why (slug, live) found belongs keeps stamped moves may =
      next
        (next (next done (stamps page id v f (slug, live) found belongs keeps moves)) (
          points page id (f v) (slug, live_page-update_version slug id f s ∙ live)
            (find_version-update id f s keeps found) (keeps.same_page v ∙ belongs) stamped may))
        (logs act page.id id (pointer_moved page.published_version_id id why))

  pub point_only :
      (s : Store) (page : PageRow) (id : ℕ) (v : VersionRow) (act : Action) (why : Option Text)
      → IsLive page s
      → find_version id s ≡ some v
      → v.page_id ≡ page.id
      → v.status ≡ approved
      → MayMove a page
      → Trace a s (moved_store s page id a act why)
  point_only s page id v act why live found belongs ready may =
      next (next done (points page id v live found belongs ready may))
        (logs act page.id id (pointer_moved page.published_version_id id why))

-- What every operation is shown to ensure: the store that it returns is reached by permitted
-- statements.
abbrev pub Traced : {A : Type 0} → Actor → Store → A × Store → Type 0
Traced a s r = Trace a s r.1

pub publish_draft-Traced :
    (env : Platform) (slug : Text) (id : ℕ) (expected : Value) (a : Actor) (s : Store)
    → Ensures (Traced a s) (publish_draft env slug id expected a s)
unfolding publish_draft
publish_draft-Traced env slug id expected a s =
    after_require (not (id == 0)) version_id_required _ λ _.
      after_lock_page env.to_lower (str slug) s _ λ page live.
        after_check (assert_agent_may_move_pointer page a) _ λ allowed.
          after_lock_version s page.id id _ λ v found belongs.
            after_require (status_eq v.status draft) not_draft _ λ is_draft.
              after_move_pointer (update_version id (with_status approved) s) page id expected a
                publish none _
                (returns (
                  let may = assert_agent_may_move_pointer-MayMove page a allowed in
                  stamp_and_point s page id v (with_status approved) publish none live found belongs
                    (with_status-KeepsContent approved) refl
                    (subst (λ st. Transition a page st approved)
                      (sym (status_eq→≡ v.status draft is_draft)) (publishes may))
                    may))

pub rollback_page-Traced :
    (env : Platform) (slug : Text) (id : ℕ) (expected why : Value) (a : Actor) (s : Store)
    → Ensures (Traced a s) (rollback_page env slug id expected why a s)
unfolding rollback_page
rollback_page-Traced env slug id expected why a s = after_bind (normalize_note why) _ λ reason _.
    after_lock_page env.to_lower (str slug) s _ λ page live.
      after_check (assert_agent_may_move_pointer page a) _ λ allowed.
        after_bind (rollback_target s page id) _ λ target _.
          after_lock_version s page.id target _ λ v found belongs.
            after_require (status_eq v.status approved) not_approved _ λ ready.
              after_move_pointer s page target expected a rollback reason _ (
                returns (
                  point_only s page target v rollback reason live found belongs
                    (status_eq→≡ v.status approved ready)
                    (assert_agent_may_move_pointer-MayMove page a allowed)))

pub assert_admin_action-is_user : (a : Actor) → assert_admin_action a ≡ ok tt → is_user a ≡ true
unfolding assert_admin_action
assert_admin_action-is_user a h = ground arith

pub approve_pending-Traced :
    (env : Platform) (slug : Text) (id : ℕ) (expected : Value) (a : Actor) (s : Store)
    → Ensures (Traced a s) (approve_pending env slug id expected a s)
unfolding approve_pending
approve_pending-Traced env slug id expected a s = after_check (assert_admin_action a) _ λ admin.
    after_require (not (id == 0)) version_id_required _ λ _.
      after_lock_page env.to_lower (str slug) s _ λ page live.
        after_lock_version s page.id id _ λ v found belongs.
          after_require (status_eq v.status pending) not_pending _ λ is_pending.
            after_move_pointer (update_version id (reviewed approved a s.now) s) page id expected a
              approve none _
              (returns (
                let person = assert_admin_action-is_user a admin in
                stamp_and_point s page id v (reviewed approved a s.now) approve none live found
                  belongs (reviewed-KeepsContent approved a s.now) refl
                  (subst (λ st. Transition a page st approved)
                    (sym (status_eq→≡ v.status pending is_pending)) (approves person))
                  (inl person)))

rejects :
    {a : Actor} {page : PageRow} (st : Status)
    → (status_eq st pending || status_eq st draft) ≡ true
    → is_user a ≡ true
    → Transition a page st rejected
unfolding status_eq
rejects draft h person = rejects_draft person
rejects pending h person = rejects_pending person
rejects approved h person = cc
rejects rejected h person = cc

pub reject_version-Traced :
    (env : Platform) (slug : Text) (id : ℕ) (why : Value) (a : Actor) (s : Store)
    → Ensures (Traced a s) (reject_version env slug id why a s)
unfolding reject_version
reject_version-Traced env slug id why a s = after_check (assert_admin_action a) _ λ admin.
    after_require (not (id == 0)) version_id_required _ λ _.
      after_bind (normalize_note why) _ λ reason _.
        after_lock_page env.to_lower (str slug) s _ λ page live.
          after_lock_version s page.id id _ λ v found belongs.
            after_require (status_eq v.status pending || status_eq v.status draft) not_rejectable _
              λ open_review. returns (
                next
                  (next done (
                    stamps page id v (reviewed rejected a s.now) live found belongs
                      (reviewed-KeepsContent rejected a s.now)
                      (rejects v.status open_review (assert_admin_action-is_user a admin))))
                  (logs reject page.id id (note_metadata reason)))
