-- ===== src/Versions/Deploy.antt =====
-- internal/versions/deploy.go, "deploy" and "deck saves": the version state machine.
use pages.Common.{
  Bool, Option, Text, [], codes, false, if◌then◌else◌, leb, length, none, not, some, text_eq, true,
  ℕ, ◌&&◌, ◌==◌, ◌||◌,
}
use pages.Common.Table.{select}
use pages.Versions.Args.{
  Result, admin_only, bool, deck_base_version_required, deck_session_unavailable, digits_value,
  found_or, is_decimal_id, max_bigint, ok, omitted, rejected_terminal, require, stale_deck_version,
  str, ◌>>=◌, ◌>>◌,
}
use pages.Versions.Guards.{
  assert_agent_may_move_pointer, assert_expected_version, is_user, lock_page, move_pointer,
}
use pages.Versions.Prepare.{
  DeployInput, Platform, Prepared, is_some, managed_action, prepare_deploy,
}
use pages.Versions.Store.{
  Action, Actor, DataColumns, DataMetadata, PageRow, Status, Store, VersionRow, approved, deploy,
  deployed, draft, find_version, first_by, insert_version, mode_eq, newer_version, pending, publish,
  rejected, status_eq, update_version, where_rows, write_audit,
}

-- `DeployResult`
pub record DeployResult : Type 0 where
  pub version : VersionRow
  pub deduped : Bool
  pub published : Bool
  pub gated : Bool
  pub live : Bool
  pub config_schema_generated : Bool

abbrev pub binding_id : Prepared → ℕ
binding_id p = elim p.template_binding [ none ↦ 0 | some b ↦ b.template_version_id ]

unfoldable pub same_data : DataMetadata → Option DataColumns → Bool
unfolding text_eq
same_data m none = false
same_data m (some c) =
    text_eq c.data_sha256 m.data_sha
    && text_eq c.data_template_sha256 m.template_sha
    && c.source_as_of == m.source_as_of

-- The identity that the two dedupe queries compare: the data, or the bytes.
unfoldable pub same_identity : Prepared → VersionRow → Bool
unfolding same_data text_eq
same_identity p v =
    if p.dedupe_by_data
    then elim p.data_metadata [ none ↦ false | some m ↦ same_data m v.managed ]
    else text_eq v.content_sha256 p.content_sha

-- The status that a new version has; and the one that the dedupe skips on such a page.
abbrev pub new_status : PageRow → Status
new_status page = if page.require_approval then pending else draft

abbrev pub skipped_status : PageRow → Status
skipped_status page = if page.require_approval then draft else pending

-- The `WHERE` clause of the dedupe queries.
unfoldable pub dedupes_onto : PageRow → Prepared → ℕ → VersionRow → Bool
unfolding same_identity status_eq mode_eq
dedupes_onto page p only v =
    v.page_id == page.id
    && same_identity p v
    && mode_eq v.render_mode p.render_mode
    && (only == 0 || v.id == only)
    && v.template_version_id == binding_id p
    && not (status_eq v.status rejected)
    && not (status_eq v.status (skipped_status page))

abbrev columns_of : Option DataMetadata → Option DataColumns
columns_of none = none
columns_of (some m) = some (record {
  data_sha256 = m.data_sha;
  data_template_sha256 = m.template_sha;
  source_as_of = m.source_as_of;
  refreshed_at = m.refreshed_at;
})

-- The row to insert; the insertion sets its id and time.
unfoldable pub new_version : PageRow → Prepared → VersionRow
new_version page p = record {
  id = 0;
  page_id = page.id;
  html = p.html;
  content_sha256 = p.content_sha;
  status = new_status page;
  render_mode = p.render_mode;
  author = p.version_author;
  source = p.source;
  note = p.note;
  reviewed_by = none;
  reviewed_at = none;
  created_at = 0;
  managed = columns_of p.data_metadata;
  template_version_id = binding_id p;
  config_sha256 = elim p.template_binding [ none ↦ none | some b ↦ some b.config_sha ];
  coverage_gaps = elim p.coverage_gaps [ [] ↦ none | _ ↦ some p.coverage_gaps ];
}

abbrev pub deploy_action : Option DataMetadata → Action
deploy_action none = deploy (codes "deploy")
deploy_action (some m) = deploy (managed_action (some m))

-- The existing version that the deploy dedupes onto, or a new row and its audit entry.
unfoldable pub store_version : Store → PageRow → Prepared → Actor → ℕ → VersionRow × Bool × Store
unfolding dedupes_onto new_version insert_version write_audit select managed_action
store_version s page p a only = elim (select (dedupes_onto page p only) s.versions) [
  | some v ↦ (v, true, s)
  | none ↦
      let (v, stored) = insert_version (new_version page p) s in
      let meta = deployed (new_status page) p.render_mode p.data_metadata p.template_binding in
      (v, false, write_audit a (deploy_action p.data_metadata) page.id v.id meta stored)
]

abbrev pub with_status : Status → VersionRow → VersionRow
with_status st v = record v { status = st }

-- The pointer moves, but for an exact data retry against the version that is already live.
unfoldable pub move_unless_retry :
    Store → PageRow → Prepared → Actor → VersionRow → Result (VersionRow × Bool × Store)
move_unless_retry s page p a v =
    if is_some p.data_metadata && page.published_version_id == v.id
    then ok (v, false, s)
    else (move_pointer s page v.id p.expected_version a publish none >>= λ moved.
        ok (v, true, moved))

abbrev pub stamp_approved : VersionRow → Store → Store
stamp_approved v s =
    if status_eq v.status approved then s else update_version v.id (with_status approved) s

unfoldable pub publish_open :
    Store → PageRow → Prepared → Actor → VersionRow → Result (VersionRow × Bool × Store)
unfolding status_eq move_unless_retry
publish_open s page p a v = do
  assert_agent_may_move_pointer page a
  require (not (status_eq v.status rejected)) rejected_terminal
  move_unless_retry (stamp_approved v s) page p a (with_status approved v)

-- The fast-path publish: on open pages only.
unfoldable pub publish_version :
    Store → PageRow → Prepared → Actor → VersionRow → Result (VersionRow × Bool × Store)
unfolding publish_open
publish_version s page p a v =
    if p.publish && not page.require_approval then publish_open s page p a v else ok (v, false, s)

-- `DeployLocked`; `only` is `DedupeVersionID`, 0 for none.
unfoldable pub deploy_locked :
    Store → PageRow → Prepared → Actor → ℕ → Result (DeployResult × Store)
deploy_locked s page p a only = do
  assert_expected_version page p.expected_version
  let (v, deduped, stored) = store_version s page p a only
  (shown, published, after) ← publish_version stored page p a v
  ok (
    record {
      version = shown;
      deduped = deduped;
      published = published;
      gated = page.require_approval;
      live =
          not page.disabled
          && (published
              || not (page.published_version_id == 0) && page.published_version_id == shown.id);
      config_schema_generated = false;
    },
    after,
  )

-- `Deploy`
unfoldable pub deploy_page : Platform → DeployInput → Actor → Store → Result (DeployResult × Store)
deploy_page env req a s = do
  p ← prepare_deploy env req a
  page ← lock_page env.to_lower (str p.slug) s
  (r, after) ← deploy_locked s page p a 0
  ok (record r { config_schema_generated = p.config_schema_generated }, after)

-- `SaveDeckInput`
pub record SaveDeckInput : Type 0 where
  pub slug : Text
  pub page_id : ℕ
  pub base_version : Text
  pub html : Text

-- `baseVersionRE` and `bigOver`
unfoldable pub is_base_version : Text → Bool
unfolding is_decimal_id digits_value
is_base_version t = is_decimal_id t && leb (length t) 19 && leb (digits_value 0 t) max_bigint

abbrev pub deck_input : SaveDeckInput → DeployInput
deck_input req = record {
  slug = req.slug;
  html = req.html;
  render_mode = str (codes "raw");
  note = str (codes "Saved from the Bento editor");
  author = omitted;
  source = codes "admin";
  publish = bool false;
  expected_version = omitted;
  data_metadata = none;
  template_binding = none;
}

-- The version that the save continues from may still be deduped onto.
unfoldable pub same_snapshot : PageRow → Prepared → VersionRow → Bool
unfolding text_eq mode_eq status_eq
same_snapshot page p latest =
    text_eq latest.content_sha256 p.content_sha
    && mode_eq latest.render_mode p.render_mode
    && not (status_eq latest.status rejected)
    && not (status_eq latest.status (skipped_status page))

-- `SELECT 1 FROM page_versions WHERE page_id = $1 AND id = $2`
abbrev pub is_version_of : PageRow → ℕ → Store → Bool
is_version_of page id s = elim (find_version id s) [ none ↦ false | some v ↦ v.page_id == page.id ]

-- `SaveDeck`
unfoldable pub save_deck : Platform → SaveDeckInput → Actor → Store → Result (DeployResult × Store)
unfolding same_snapshot
save_deck env req a s = do
  require (is_user a) admin_only
  require (is_base_version req.base_version) deck_base_version_required
  p ← prepare_deploy env (deck_input req) a
  let base = digits_value 0 req.base_version
  page ← lock_page env.to_lower (str p.slug) s
  require (page.id == req.page_id && not page.disabled) deck_session_unavailable
  latest ←
      found_or (first_by newer_version (where_rows (λ v. v.page_id == page.id) s.versions))
        deck_session_unavailable
  require (env.is_bento_deck latest.html && env.is_bento_deck p.html) deck_session_unavailable
  let base_exists = is_version_of page base s
  require (base_exists && (latest.id == base || same_snapshot page p latest)) stale_deck_version
  deploy_locked s page p a latest.id
