-- ===== src/Versions/Spec/Lifecycle.antt =====
-- Creating, deleting and restoring pages run permitted statements only.
use pages.Common.{
  Bool, Option, Option-cases, Text, arith, false, if◌then◌else◌, inl, inr, none, not, refl, some,
  text_eq_refl, true, ℕ, ◌≡◌,
}
use pages.Versions.Args.{
  Result, assert_slug_not_reserved, bool_arg, found_or, is_nullish, normalize_slug, ok,
  page_not_found, slug_exists, slug_taken, stale_version, str,
}
use pages.Versions.Deploy.{deploy_locked}
use pages.Versions.Guards.{assert_admin_action, assert_agent_may_move_pointer}
use pages.Versions.Lifecycle.{
  CreateAndDeployInput, CreatePageInput, add_page, assert_workspace_exists, create_and_deploy,
  create_empty_page, delete_live_page, last_deleted, lock_or_create, new_page, restore_deleted_page,
  title_text, workspace_ref,
}
use pages.Versions.Prepare.{Platform, Prepared, is_some, prepare_deploy}
use pages.Versions.Spec.Deploys.{HasVersionIds, Trace-append, deploy_locked-Traced}
use pages.Versions.Spec.Invert.{
  Ensures, Ensures-bind, after_bind, after_check, after_lock_page, after_require,
  assert_agent_may_move_pointer-MayMove, found_or-eq-ok, returns,
}
use pages.Versions.Spec.Review.{Traced, assert_admin_action-is_user}
use pages.Versions.Spec.Rules.{IsLive, Trace, creates, deletes, done, logs, next, restores}
use pages.Versions.Store.{Actor, PageRow, Store, live_page}

is_none : {A : Type 0} (o : Option A) → not (is_some o) ≡ true → o ≡ none
is_none none h = refl
is_none (some x) h = cc

module _ {a : Actor} where
  add_page-Trace :
      (s : Store) (slug title : Text) (client : Option Text) (workspace : ℕ) (gate : Bool)
      → live_page slug s ≡ none
      → Trace a s (add_page (new_page slug title client workspace gate) a s).1
  unfolding add_page
  add_page-Trace s slug title client workspace gate free =
      next (next done (creates slug title client workspace gate free)) (logs _ _ _ _)

pub create_empty_page-Traced :
    (env : Platform) (req : CreatePageInput) (a : Actor) (s : Store)
    → Ensures (Traced a s) (create_empty_page env req a s)
unfolding create_empty_page
create_empty_page-Traced env req a s = after_bind (bool_arg req.require_approval false) _ λ gate _.
    after_bind (normalize_slug env.to_lower req.slug) _ λ slug _.
      after_check (assert_slug_not_reserved slug) _ λ _.
        after_bind (workspace_ref req.workspace_id a) _ λ workspace _.
          after_check (assert_workspace_exists workspace s) _ λ _.
            after_require (not (is_some (live_page slug s))) slug_exists _ λ free.
              after_bind (title_text req.title) _ λ title _.
                returns (add_page-Trace s slug _ _ workspace gate (is_none (live_page slug s) free))

pub delete_live_page-Traced :
    (env : Platform) (slug : Text) (a : Actor) (s : Store)
    → Ensures (Traced a s) (delete_live_page env slug a s)
unfolding delete_live_page
delete_live_page-Traced env slug a s = after_lock_page env.to_lower (str slug) s _ λ page live.
    after_check (assert_agent_may_move_pointer page a) _ λ allowed. returns (
      next (next done (deletes page live (assert_agent_may_move_pointer-MayMove page a allowed)))
        (logs _ _ _ _))

pub restore_deleted_page-Traced :
    (env : Platform) (slug : Text) (a : Actor) (s : Store)
    → Ensures (Traced a s) (restore_deleted_page env slug a s)
unfolding restore_deleted_page
restore_deleted_page-Traced env raw_slug a s = after_check (assert_admin_action a) _ λ admin.
    after_bind (normalize_slug env.to_lower (str raw_slug)) _ λ slug _.
      after_check (assert_slug_not_reserved slug) _ λ _.
        after_require (not (is_some (live_page slug s))) slug_taken _ λ free.
          after_bind (found_or (last_deleted slug s) page_not_found) _ λ page found. returns (
            next
              (next done (
                restores slug page (is_none (live_page slug s) free)
                  (found_or-eq-ok (last_deleted slug s) page_not_found found)
                  (assert_admin_action-is_user a admin)))
              (logs _ _ _ _))

-- The page that a create-or-deploy goes on with.
abbrev Locked : Actor → Store → PageRow × Bool × Store → Type 0
Locked a s r = Trace a s r.2 × IsLive r.0 r.2 × HasVersionIds r.2

add_page-IsLive :
    (s : Store) (a : Actor) (slug title : Text) (client : Option Text) (workspace : ℕ) (gate : Bool)
    → let r = add_page (new_page slug title client workspace gate) a s in IsLive r.0 r.1
unfolding add_page live_page new_page
add_page-IsLive s a slug title client workspace gate = (slug, ground (arith, text_eq_refl slug))

lock_or_create-Locked :
    (s : Store) (req : CreateAndDeployInput) (p : Prepared) (gate : Bool) (workspace : ℕ)
    (a : Actor)
    → HasVersionIds s
    → Ensures (Locked a s) (lock_or_create s req p gate workspace a)
unfolding lock_or_create add_page
lock_or_create-Locked s req p gate workspace a ids = elim (Option-cases (live_page p.slug s)) [
  | inr (page, live) ↦ rw (live, lock_or_create) (returns (done, (p.slug, live), ids))
  | inl free ↦
      rw (free, lock_or_create)
        (after_check (assert_slug_not_reserved p.slug) _ λ _.
          after_check (assert_workspace_exists workspace s) _ λ _.
            after_bind (title_text req.title) _ λ title _.
              after_require (is_nullish p.expected_version) stale_version _ λ _. returns (
                add_page-Trace s p.slug _ _ workspace gate free,
                add_page-IsLive s a p.slug _ _ workspace gate,
                ids,
              ))
]

pub create_and_deploy-Traced :
    (env : Platform) (check : PageRow → Result (Unit {0})) (req : CreateAndDeployInput) (a : Actor)
    (s : Store)
    → HasVersionIds s
    → Ensures (Traced a s) (create_and_deploy env check req a s)
unfolding create_and_deploy
create_and_deploy-Traced env check req a s ids =
    after_bind (bool_arg req.require_approval false) _ λ gate _.
      after_bind (workspace_ref req.workspace_id a) _ λ workspace _.
        after_bind (prepare_deploy env req.deploy_input a) _ λ p _.
          Ensures-bind (lock_or_create s req p gate workspace a) _
            (lock_or_create-Locked s req p gate workspace a ids)
            λ locked known. after_check (if locked.1 then ok tt else check locked.0) _ λ _.
              Ensures-bind (deploy_locked locked.2 locked.0 p a 0) _
                (deploy_locked-Traced a locked.2 locked.0 p 0 known.2 known.1)
                λ r rest. returns (Trace-append known.0 rest)
