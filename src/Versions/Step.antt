-- ===== src/Versions/Step.antt =====
-- The operations of internal/versions as one step function. A failed transaction is rolled back, so
-- it leaves the store as it was.
use pages.Common.{List, Text, [], ℕ, ◌∷◌}
use pages.Versions.Args.{Result, Value, err, ok, ◌>>=◌}
use pages.Versions.Deploy.{SaveDeckInput, deploy_page, save_deck}
use pages.Versions.Lifecycle.{
  CreateAndDeployInput, CreatePageInput, create_and_deploy, create_empty_page, delete_live_page,
  restore_deleted_page,
}
use pages.Versions.Prepare.{DeployInput, Platform}
use pages.Versions.Review.{approve_pending, publish_draft, reject_version, rollback_page}
use pages.Versions.Settings.{
  reveal_page_password, set_approval_gate, set_disabled, set_page_password, set_page_theme,
  set_page_title,
}
use pages.Versions.Store.{Actor, Store}

pub data Op : Type 0 where
  deploys : DeployInput → Op
  saves_deck : SaveDeckInput → Op
  creates_page : CreatePageInput → Op
  creates_and_deploys : CreateAndDeployInput → Op
  publishes_draft : Text → ℕ → Value → Op
  rolls_back : Text → ℕ → Value → Value → Op
  approves_pending : Text → ℕ → Value → Op
  rejects_version : Text → ℕ → Value → Op
  sets_disabled sets_approval sets_password sets_title : Text → Value → Op
  sets_theme : Text → Text → Op
  reveals_password deletes_page restores_page : Text → Op

abbrev pub store_of : {A : Type 0} → Result (A × Store) → Result Store
store_of r = r >>= λ x. ok x.1

-- The store that an operation commits.
unfoldable pub run : Platform → Actor → Op → Store → Result Store
run env a (deploys req) s = store_of (deploy_page env req a s)
run env a (saves_deck req) s = store_of (save_deck env req a s)
run env a (creates_page req) s = store_of (create_empty_page env req a s)
run env a (creates_and_deploys req) s = store_of (create_and_deploy env (λ _. ok tt) req a s)
run env a (publishes_draft slug id expected) s = store_of (publish_draft env slug id expected a s)
run env a (rolls_back slug id expected why) s =
    store_of (rollback_page env slug id expected why a s)
run env a (approves_pending slug id expected) s =
    store_of (approve_pending env slug id expected a s)
run env a (rejects_version slug id why) s = store_of (reject_version env slug id why a s)
run env a (sets_disabled slug v) s = store_of (set_disabled env slug v a s)
run env a (sets_approval slug v) s = store_of (set_approval_gate env slug v a s)
run env a (sets_password slug v) s = store_of (set_page_password env slug v a s)
run env a (sets_title slug v) s = store_of (set_page_title env slug v a s)
run env a (sets_theme slug theme) s = store_of (set_page_theme env slug theme a s)
run env a (reveals_password slug) s = store_of (reveal_page_password env slug a s)
run env a (deletes_page slug) s = store_of (delete_live_page env slug a s)
run env a (restores_page slug) s = store_of (restore_deleted_page env slug a s)

abbrev pub commit : Store → Result Store → Store
commit s (ok t) = t
commit s (err _) = s

-- One transaction, at the time `now`.
unfoldable pub step : Platform → ℕ × Actor × Op → Store → Store
unfolding run
step env (now, a, op) s = let s' = record s { now = now } in commit s' (run env a op s')

-- A history.
unfoldable pub run_all : Platform → List (ℕ × Actor × Op) → Store → Store
unfolding step
run_all env [] s = s
run_all env (c ∷ cs) s = run_all env cs (step env c s)
