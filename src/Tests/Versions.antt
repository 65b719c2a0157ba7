-- ===== src/Tests/Versions.antt =====
-- internal/versions on a small site.
use pages.Common.{
  All, List, [], arith, codes, false, if◌then◌else◌, inr, leb, none, refl, some, suc, true, ℕ, ◌&&◌,
  ◌++◌, ◌+◌, ◌∷◌, ◌≡◌,
}
use pages.Common.Table.{find, select}
use pages.Jsstr.{is_space, trim}
use pages.Versions.Args.{
  bool, bool_arg, int, normalize_note, normalize_slug, ok, omitted, same_db_id,
}
use pages.Versions.Deploy.{deploy_locked, deploy_page, publish_version, store_version}
use pages.Versions.Guards.{assert_expected_version, is_user, lock_page}
use pages.Versions.Invariant.Steps.{run_all-Inv}
use pages.Versions.Invariant.Writes.{Inv}
use pages.Versions.Prepare.{
  DeployInput, Platform, assert_managed_blocks_deployable, prepare_deploy, refused, render_mode_of,
  source_of,
}
use pages.Versions.Safety.Accounted.{step-entries}
use pages.Versions.Safety.Agents.{SameFlags, Unmoved, agent_keeps_flags, agent_keeps_held_page}
use pages.Versions.Spec.Invert.{Ensures}
use pages.Versions.Spec.Refine.{run-Trace}
use pages.Versions.Spec.Rules.{Trace}
use pages.Versions.Step.{
  Op, approves_pending, deletes_page, deploys, run, run_all, sets_disabled, step,
}
use pages.Versions.Store.{
  Actor, Entry, PageRow, Store, VersionRow, agent, approved, find_page, live_page, themed, user,
}

abbrev pub env : Platform
env = record {
  to_lower = λ c. if leb 65 c && leb c 90 then c + 32 else c;
  sha256 = λ t. t;
  hash_password = λ t. ok t;
  seal = λ t h. t;
  unseal = λ c h. some c;
  is_bento_deck = λ t. false;
  ensure_config_schema = λ t. ok (t, false);
  strip_injected_nav = λ t. t;
  strip_deck_host_adaptation = λ t. t;
  parse_managed_html = λ t. refused (codes "page_not_data_managed");
  coverage_gaps = λ m. [];
}

abbrev pub person : Actor
person = record { name = codes "staff"; actor_type = user; token_id = 0; ip = [] }

abbrev pub robot : Actor
robot = record { name = codes "bot"; actor_type = agent; token_id = 7; ip = [] }

abbrev pub live_version : VersionRow
live_version = record {
  id = 1;
  page_id = 1;
  html = codes "<p>";
  content_sha256 = codes "<p>";
  status = approved;
  render_mode = themed;
  author = codes "staff";
  source = codes "api";
  note = none;
  reviewed_by = none;
  reviewed_at = none;
  created_at = 5;
  managed = none;
  template_version_id = 0;
  config_sha256 = none;
  coverage_gaps = none;
}

abbrev pub gated_page : PageRow
gated_page = record {
  id = 1;
  slug = codes "a";
  title = codes "A";
  client_id = none;
  workspace_id = 0;
  theme_id = 0;
  password_hash = none;
  password_ciphertext = none;
  require_approval = true;
  disabled = false;
  published_version_id = 1;
  created_at = 4;
  updated_at = 5;
  deleted_at = none;
}

abbrev pub site : Store
site = record {
  pages = gated_page ∷ [];
  versions = live_version ∷ [];
  audit_log = [];
  workspaces = [];
  themes = [];
  next_page = 2;
  next_version = 2;
  now = 10;
}

pub site-Inv : Inv site
unfolding find select
site-Inv = record {
  version_ids = (omega arith, tt);
  page_ids = (omega arith, tt);
  pointers = (inr (live_version, refl, refl, refl), tt);
  slugs = ((λ _. refl), tt);
  unpublished = ((λ dead. cc), tt);
}

abbrev pub new_html : DeployInput
new_html = record {
  slug = codes "a";
  html = codes "<b>";
  render_mode = omitted;
  note = omitted;
  author = omitted;
  source = [];
  publish = bool true;
  expected_version = int 1;
  data_metadata = none;
  template_binding = none;
}

-- An agent deploys to the gated page, and a person approves.
abbrev history : List (ℕ × Actor × Op)
history =
    (11, robot, deploys new_html)
    ∷ (12, robot, deletes_page (codes "a"))
    ∷ (13, person, approves_pending (codes "a") 2 omitted)
    ∷ []

pointer_of : Store → ℕ
unfolding find_page
pointer_of s = elim (find_page 1 s) [ none ↦ 0 | some p ↦ p.published_version_id ]

-- A deploy to the gated page leaves the pointer where it is.
agent_pointer : pointer_of (step env (11, robot, deploys new_html) site) ≡ 1
unfolding pointer_of step deploy_page prepare_deploy bool_arg render_mode_of source_of
    normalize_note assert_managed_blocks_deployable normalize_slug trim is_space lock_page live_page
    deploy_locked assert_expected_version same_db_id publish_version store_version
agent_pointer = refl

run-Trace_example : Ensures (Trace robot site) (run env robot (deploys new_html) site)
run-Trace_example = run-Trace env robot (deploys new_html) site site-Inv.version_ids

run_all-Inv_example : Inv (run_all env history site)
run_all-Inv_example = run_all-Inv env history site site-Inv

agent_keeps_held_page_example :
    (q : PageRow) × (find_page 1 (step env (11, robot, deletes_page (codes "a")) site) ≡ some q)
    × Unmoved gated_page q
agent_keeps_held_page_example =
    agent_keeps_held_page env 11 robot (deletes_page (codes "a")) site 1 gated_page site-Inv
      (unfold is_user in refl) (unfold find_page in refl) refl

agent_keeps_flags_example :
    (q : PageRow) × (find_page 1 (step env (11, robot, sets_disabled (codes "a") (bool true)) site)
      ≡ some q)
    × SameFlags gated_page q
agent_keeps_flags_example =
    agent_keeps_flags env 11 robot (sets_disabled (codes "a") (bool true)) site 1 gated_page
      site-Inv (unfold is_user in refl) (unfold find_page in refl)

step-entries_example :
    let t = step env (11, robot, deploys new_html) site in
    (new : List Entry) × (t.audit_log ≡ new ++ site.audit_log)
    × All (λ e. e.actor ≡ robot) new
    × (new ≡ [] → (t.pages ≡ site.pages) × (t.versions ≡ site.versions))
step-entries_example =
    step-entries env 11 robot (deploys new_html) site site-Inv ((λ e. omega (arith, e)), tt)

-- The deploy wrote an entry.
entries_after : List Entry → ℕ
entries_after [] = 0
entries_after (_ ∷ es) = suc (entries_after es)

deploy_is_logged : entries_after (step env (11, robot, deploys new_html) site).audit_log ≡ 1
unfolding entries_after step deploy_page prepare_deploy bool_arg render_mode_of source_of
    normalize_note assert_managed_blocks_deployable normalize_slug trim is_space lock_page live_page
    deploy_locked assert_expected_version same_db_id publish_version store_version
deploy_is_logged = refl
