-- ===== src/Versions/Spec/Refine.antt =====
-- Every operation refines the permitted statements.
use pages.Versions.Args.{Result, ok}
use pages.Versions.Prepare.{Platform}
use pages.Versions.Spec.Deploys.{HasVersionIds, deploy_page-Traced, save_deck-Traced}
use pages.Versions.Spec.Invert.{Ensures, fails, returns}
use pages.Versions.Spec.Lifecycle.{
  create_and_deploy-Traced, create_empty_page-Traced, delete_live_page-Traced,
  restore_deleted_page-Traced,
}
use pages.Versions.Spec.Review.{
  Traced, approve_pending-Traced, publish_draft-Traced, reject_version-Traced, rollback_page-Traced,
}
use pages.Versions.Spec.Rules.{Trace}
use pages.Versions.Spec.Settings.{
  reveal_page_password-Traced, set_approval_gate-Traced, set_disabled-Traced,
  set_page_password-Traced, set_page_theme-Traced, set_page_title-Traced,
}
use pages.Versions.Step.{
  Op, approves_pending, creates_and_deploys, creates_page, deletes_page, deploys, publishes_draft,
  rejects_version, restores_page, reveals_password, rolls_back, run, saves_deck, sets_approval,
  sets_disabled, sets_password, sets_theme, sets_title, store_of,
}
use pages.Versions.Store.{Actor, Store}

store_of-Trace :
    {A : Type 0} {a : Actor} {s : Store} (r : Result (A × Store))
    → Ensures (Traced a s) r
    → Ensures (Trace a s) (store_of r)
store_of-Trace r (returns h) = returns h
store_of-Trace r fails = fails

-- Whatever an operation commits, it gets there by statements that the specification permits to its
-- actor. The ids of the versions are below the next one.
pub run-Trace :
    (env : Platform) (a : Actor) (op : Op) (s : Store)
    → HasVersionIds s
    → Ensures (Trace a s) (run env a op s)
unfolding run
run-Trace env a (deploys req) s ids = store_of-Trace _ (deploy_page-Traced env req a s ids)
run-Trace env a (saves_deck req) s ids = store_of-Trace _ (save_deck-Traced env req a s ids)
run-Trace env a (creates_page req) s ids = store_of-Trace _ (create_empty_page-Traced env req a s)
run-Trace env a (creates_and_deploys req) s ids =
    store_of-Trace _ (create_and_deploy-Traced env (λ _. ok tt) req a s ids)
run-Trace env a (publishes_draft slug id expected) s ids =
    store_of-Trace _ (publish_draft-Traced env slug id expected a s)
run-Trace env a (rolls_back slug id expected why) s ids =
    store_of-Trace _ (rollback_page-Traced env slug id expected why a s)
run-Trace env a (approves_pending slug id expected) s ids =
    store_of-Trace _ (approve_pending-Traced env slug id expected a s)
run-Trace env a (rejects_version slug id why) s ids =
    store_of-Trace _ (reject_version-Traced env slug id why a s)
run-Trace env a (sets_disabled slug v) s ids = store_of-Trace _ (set_disabled-Traced env slug v a s)
run-Trace env a (sets_approval slug v) s ids =
    store_of-Trace _ (set_approval_gate-Traced env slug v a s)
run-Trace env a (sets_password slug v) s ids =
    store_of-Trace _ (set_page_password-Traced env slug v a s)
run-Trace env a (sets_title slug v) s ids = store_of-Trace _ (set_page_title-Traced env slug v a s)
run-Trace env a (sets_theme slug theme) s ids =
    store_of-Trace _ (set_page_theme-Traced env slug theme a s)
run-Trace env a (reveals_password slug) s ids =
    store_of-Trace _ (reveal_page_password-Traced env slug a s)
run-Trace env a (deletes_page slug) s ids = store_of-Trace _ (delete_live_page-Traced env slug a s)
run-Trace env a (restores_page slug) s ids =
    store_of-Trace _ (restore_deleted_page-Traced env slug a s)
