-- ===== src/Tests/Deploys.antt =====
-- Deploys and reviews on the small site.
use pages.Common.{
  Bool, [], arith, codes, false, inl, inr, none, not, refl, some, text_eq, true, ◌&&◌, ◌==◌, ◌↔◌,
  ◌∷◌, ◌≡◌, ◌≢◌,
}
use pages.Common.Table.{select}
use pages.Jsstr.{is_space, trim}
use pages.Tests.Versions.{env, gated_page, live_version, new_html, person, robot, site, site-Inv}
use pages.Versions.Args.{
  bool_arg, contains, decimal, int, is_nullish, js_string, normalize_note, normalize_slug, ok,
  omitted, same_db_id,
}
use pages.Versions.Deploy.{
  DeployResult, dedupes_onto, deploy_locked, deploy_page, publish_version, same_identity,
  store_version,
}
use pages.Versions.Effects.Access.{Expects, NamesPage}
use pages.Versions.Effects.Again.{deploy_page_retry}
use pages.Versions.Effects.Approvals.{ApprovedAs, approve_pending_iff}
use pages.Versions.Effects.Deploys.{deploy_locked-gated, deploy_locked-live}
use pages.Versions.Effects.Reviews.{PublishedAs, made_live, publish_draft_iff}
use pages.Versions.Effects.Slugs.{stops}
use pages.Versions.Guards.{assert_expected_version, is_user, lock_page}
use pages.Versions.Prepare.{
  Prepared, assert_managed_blocks_deployable, author_of, metadata_of, prepare_deploy,
  render_mode_of, source_of,
}
use pages.Versions.Review.{approve_pending, publish_draft}
use pages.Versions.Spec.Rules.{IsLive}
use pages.Versions.Store.{
  PageRow, Store, VersionRow, approve, approved, deploy, deployed, draft, find_page, find_version,
  live_page, mode_eq, pending, publish, status_eq, themed,
}

abbrev same_again : Prepared
same_again = record {
  slug = codes "a";
  html = codes "<p>";
  config_schema_generated = false;
  render_mode = themed;
  note = none;
  version_author = codes "bot";
  source = codes "api";
  publish = false;
  expected_version = omitted;
  content_sha = codes "<p>";
  dedupe_by_data = false;
  data_metadata = none;
  template_binding = none;
  coverage_gaps = [];
}

deploy_result : Bool → DeployResult
deploy_result deduped = record {
  version = live_version;
  deduped = deduped;
  published = false;
  gated = true;
  live = true;
  config_schema_generated = false;
}

-- The content of the live version deduplicates onto it, and nothing is written.
deploy_again : deploy_locked site gated_page same_again robot 0 ≡ ok (deploy_result true, site)
unfolding deploy_locked assert_expected_version is_nullish store_version select dedupes_onto
    same_identity text_eq mode_eq status_eq publish_version deploy_result
deploy_again = refl

site-IsLive : IsLive gated_page site
site-IsLive = (codes "a", unfold live_page in refl)

-- What the first deploy of new content by an agent stores on the gated page.
abbrev proposed : VersionRow
proposed = record live_version {
  id = 2;
  html = codes "<b>";
  content_sha256 = codes "<b>";
  status = pending;
  author = codes "bot";
  created_at = 10;
}

abbrev proposal_result : DeployResult
proposal_result = record {
  version = proposed;
  deduped = false;
  published = false;
  gated = true;
  live = false;
  config_schema_generated = false;
}

abbrev proposal_site : Store
proposal_site = record site {
  versions = proposed ∷ live_version ∷ [];
  next_version = 3;
  audit_log =
      record {
        actor = robot;
        action = deploy (codes "deploy");
        page_id = 1;
        version_id = 2;
        metadata = deployed pending themed none none;
      }
      ∷ [];
}

first_deploy : deploy_page env new_html robot site ≡ ok (proposal_result, proposal_site)
unfolding deploy_page prepare_deploy bool_arg render_mode_of source_of normalize_note
    assert_managed_blocks_deployable normalize_slug trim is_space lock_page live_page deploy_locked
    assert_expected_version same_db_id publish_version store_version author_of metadata_of
first_deploy = refl

deploy_page_retry_example :
    deploy_page env new_html robot proposal_site
    ≡ ok (record proposal_result { deduped = true }, proposal_site)
deploy_page_retry_example =
    deploy_page_retry env new_html robot site proposal_result proposal_site (inr refl) first_deploy

deploy_locked-gated_example :
    (site.pages ≡ site.pages)
    × ((deploy_result true).published ≡ false)
    × ((deploy_result true).gated ≡ true)
deploy_locked-gated_example =
    deploy_locked-gated site gated_page same_again robot 0 (deploy_result true) site refl
      deploy_again

has_version_id : (deploy_result true).version.id ≢ 0
unfolding deploy_result
has_version_id e = omega (arith, e)

deploy_locked-live_example :
    (q : PageRow) × (find_page 1 site ≡ some q)
    × ((deploy_result true).live
        ≡ not q.disabled && q.published_version_id == (deploy_result true).version.id)
deploy_locked-live_example =
    deploy_locked-live site gated_page same_again robot 0 (deploy_result true) site site-Inv
      site-IsLive deploy_again has_version_id

abbrev waiting : VersionRow
waiting = record live_version {
  id = 2;
  status = pending;
  html = codes "<b>";
  content_sha256 = codes "<b>";
}

abbrev drafted : VersionRow
drafted = record live_version {
  id = 3;
  status = draft;
  html = codes "<i>";
  content_sha256 = codes "<i>";
}

abbrev review_site : Store
review_site = record site { versions = drafted ∷ waiting ∷ live_version ∷ []; next_version = 4 }

-- "A " names the page `a`.
NamesPage-a : NamesPage env (codes "A ") review_site gated_page
unfolding trim is_space contains
NamesPage-a = record { no_dotted = refl; shape = (refl, stops); on_site = inl ((refl, refl), refl) }

Expects-live : Expects (int 1) gated_page
unfolding js_string decimal
Expects-live = inr (inr (tt, (λ e. omega (arith, e)), refl))

after_approval : VersionRow × Store
after_approval = (
  record waiting { status = approved; reviewed_by = some person.name },
  made_live review_site gated_page 2 person approve
      (λ v. record v { status = approved; reviewed_by = some person.name; reviewed_at = some 10 }),
)

approve_pending_iff_example :
    (approve_pending env (codes "A ") 2 (int 1) person review_site ≡ ok after_approval)
    ↔ ApprovedAs env (codes "A ") 2 (int 1) person review_site after_approval
approve_pending_iff_example =
    approve_pending_iff env (codes "A ") 2 (int 1) person review_site after_approval

-- The approval succeeds, with that outcome.
approval_goes_through :
    approve_pending env (codes "A ") 2 (int 1) person review_site ≡ ok after_approval
approval_goes_through =
    (approve_pending_iff env (codes "A ") 2 (int 1) person review_site after_approval).1 (record {
      page = gated_page;
      version = waiting;
      by_person = refl;
      granted = record {
        has_id = λ e. omega (arith, e);
        named = NamesPage-a;
        found = unfold find_version in refl;
        belongs = refl;
        status = refl;
        expected_holds = Expects-live;
      };
      shown = unfold after_approval in refl;
      stored = unfold after_approval in refl;
    })

after_publish : VersionRow × Store
after_publish = (
  record drafted { status = approved },
  made_live review_site gated_page 3 person publish (λ v. record v { status = approved }),
)

publish_draft_iff_example :
    (publish_draft env (codes "A ") 3 (int 1) person review_site ≡ ok after_publish)
    ↔ PublishedAs env (codes "A ") 3 (int 1) person review_site after_publish
publish_draft_iff_example =
    publish_draft_iff env (codes "A ") 3 (int 1) person review_site after_publish

-- The draft is published, with that outcome.
publish_goes_through :
    publish_draft env (codes "A ") 3 (int 1) person review_site ≡ ok after_publish
publish_goes_through =
    (publish_draft_iff env (codes "A ") 3 (int 1) person review_site after_publish).1 (record {
      page = gated_page;
      version = drafted;
      may_move = inl (unfold is_user in refl);
      granted = record {
        has_id = λ e. omega (arith, e);
        named = NamesPage-a;
        found = unfold find_version in refl;
        belongs = refl;
        status = refl;
        expected_holds = Expects-live;
      };
      shown = unfold after_publish in refl;
      stored = unfold after_publish in refl;
    })
