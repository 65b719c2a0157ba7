-- ===== src/Versions/Safety/Accounted.antt =====
-- No operation changes a page or a version without an audit entry.
use pages.Common.{All, List, [], refl, ℕ, ◌++◌, ◌≡◌}
use pages.Versions.Args.{Result, ok}
use pages.Versions.Invariant.Steps.{at_time-Inv}
use pages.Versions.Invariant.Writes.{Inv}
use pages.Versions.Prepare.{Platform}
use pages.Versions.Safety.Audit.{Audited, Logs}
use pages.Versions.Safety.Deployed.{
  HasIds, create_and_deploy-Logs, deploy_page-Logs, save_deck-Logs,
}
use pages.Versions.Safety.Logged.{
  approve_pending-Logs, create_empty_page-Logs, delete_live_page-Logs, publish_draft-Logs,
  reject_version-Logs, restore_deleted_page-Logs, reveal_page_password-Logs, rollback_page-Logs,
  set_approval_gate-Logs, set_disabled-Logs, set_page_password-Logs, set_page_theme-Logs,
  set_page_title-Logs,
}
use pages.Versions.Spec.Invert.{Ensures, fails, returns}
use pages.Versions.Step.{
  Op, approves_pending, commit, creates_and_deploys, creates_page, deletes_page, deploys,
  publishes_draft, rejects_version, restores_page, reveals_password, rolls_back, run, saves_deck,
  sets_approval, sets_disabled, sets_password, sets_theme, sets_title, step, store_of,
}
use pages.Versions.Store.{Actor, Entry, Store}

Logs-store_of :
    {A : Type 0} {a : Actor} {s : Store} (r : Result (A × Store))
    → Ensures (Logs Unit a s) r
    → Ensures (Audited Unit a s) (store_of r)
Logs-store_of r (returns h) = returns h
Logs-store_of r fails = fails

run-Audited :
    (env : Platform) (a : Actor) (op : Op) (s : Store)
    → Inv s
    → HasIds s
    → Ensures (Audited Unit a s) (run env a op s)
unfolding run
run-Audited env a (deploys req) s i ids = Logs-store_of _ (deploy_page-Logs env req a s i ids)
run-Audited env a (saves_deck req) s i ids = Logs-store_of _ (save_deck-Logs env req a s i ids)
run-Audited env a (creates_page req) s i ids = Logs-store_of _ (create_empty_page-Logs env req a s)
run-Audited env a (creates_and_deploys req) s i ids =
    Logs-store_of _ (create_and_deploy-Logs env (λ _. ok tt) req a s i ids)
run-Audited env a (publishes_draft slug id expected) s i ids =
    Logs-store_of _ (publish_draft-Logs env slug id expected a s)
run-Audited env a (rolls_back slug id expected why) s i ids =
    Logs-store_of _ (rollback_page-Logs env slug id expected why a s)
run-Audited env a (approves_pending slug id expected) s i ids =
    Logs-store_of _ (approve_pending-Logs env slug id expected a s)
run-Audited env a (rejects_version slug id why) s i ids =
    Logs-store_of _ (reject_version-Logs env slug id why a s)
run-Audited env a (sets_disabled slug v) s i ids =
    Logs-store_of _ (set_disabled-Logs env slug v a s)
run-Audited env a (sets_approval slug v) s i ids =
    Logs-store_of _ (set_approval_gate-Logs env slug v a s)
run-Audited env a (sets_password slug v) s i ids =
    Logs-store_of _ (set_page_password-Logs env slug v a s)
run-Audited env a (sets_title slug v) s i ids = Logs-store_of _ (set_page_title-Logs env slug v a s)
run-Audited env a (sets_theme slug theme) s i ids =
    Logs-store_of _ (set_page_theme-Logs env slug theme a s)
run-Audited env a (reveals_password slug) s i ids =
    Logs-store_of _ (reveal_page_password-Logs env slug a s)
run-Audited env a (deletes_page slug) s i ids = Logs-store_of _ (delete_live_page-Logs env slug a s)
run-Audited env a (restores_page slug) s i ids =
    Logs-store_of _ (restore_deleted_page-Logs env slug a s)

-- An operation, at any time and whoever runs it, adds to the audit log in front and takes nothing
-- from it; each new entry names its actor; and where it adds none, whether it is refused or has
-- nothing to do, it leaves the pages and the versions as they were. The tables satisfy the invariant,
-- and every version has an id.
pub step-entries :
    (env : Platform) (now : ℕ) (a : Actor) (op : Op) (s : Store)
    → Inv s
    → HasIds s
    → let t = step env (now, a, op) s in
      (new : List Entry) × (t.audit_log ≡ new ++ s.audit_log)
      × All (λ e. e.actor ≡ a) new
      × (new ≡ [] → (t.pages ≡ s.pages) × (t.versions ≡ s.versions))
unfolding step
step-entries env now a op s i ids =
    commits (run env a op at_now) (run-Audited env a op at_now (at_time-Inv s now i) ids)
  where
    at_now : Store
    at_now = record s { now = now }

    commits :
        (r : Result Store)
        → Ensures (Audited Unit a at_now) r
        → (new : List Entry) × ((commit at_now r).audit_log ≡ new ++ s.audit_log)
          × All (λ e. e.actor ≡ a) new
          × (new ≡ []
              → ((commit at_now r).pages ≡ s.pages) × ((commit at_now r).versions ≡ s.versions))
    commits r (returns h) = (h.new, h.grown, h.by_actor, h.silent tt)
    commits r fails = ([], refl, tt, λ _. (refl, refl))
