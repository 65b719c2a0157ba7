-- ===== src/Versions/Prepare.antt =====
-- internal/versions/deploy.go, "prepare": a deploy request is validated and normalized before any
-- transaction. What the document is (a deck, a managed page) is read by internal/render and
-- internal/pagedata, which are parameters here.
use pages.Common.{
  Bool, Option, Text, [], codes, false, if◌then◌else◌, none, not, some, text_eq, true, ℕ, ◌&&◌,
  ◌||◌,
}
use pages.Versions.Args.{
  Result, Value, bad_render_mode, bad_source, bool_arg, err, html_required, is_nullish, js_truthy,
  managed_block_invalid, managed_parse_failed, normalize_note, normalize_slug, ok, pg_text, require,
  str, ◌>>=◌, ◌>>◌,
}
use pages.Versions.Store.{Actor, DataMetadata, RenderMode, TemplateBinding, mode_eq, raw, themed}

-- `pagedata.Managed`, as far as the state machine reads it.
pub record Managed : Type 0 where
  pub data_sha : Text
  pub schema_sha : Text
  pub template_sha : Text
  pub source_as_of : ℕ
  pub refreshed_at : ℕ

-- What `pagedata.ParseManagedHTML` answers: a value, an error with its code, or another error.
pub data ManagedParse : Type 0 where
  parsed : Managed → ManagedParse
  refused : Text → ManagedParse
  broken : ManagedParse

-- The code that the state machine calls and that is not modelled: `unicode.ToLower`, SHA-256,
-- scrypt and the password vault, and the parsers of internal/render and internal/pagedata.
pub record Platform : Type 0 where
  pub to_lower : ℕ → ℕ
  pub sha256 : Text → Text
  pub hash_password : Text → Result Text
  pub seal : Text → Text → Text
  pub unseal : Text → Text → Option Text
  pub is_bento_deck : Text → Bool
  pub ensure_config_schema : Text → Result (Text × Bool)
  pub strip_injected_nav : Text → Text
  pub strip_deck_host_adaptation : Text → Text
  pub parse_managed_html : Text → ManagedParse
  pub coverage_gaps : Option Managed → Text

-- `DeployInput`
pub record DeployInput : Type 0 where
  pub slug : Text
  pub html : Text
  pub render_mode : Value
  pub note : Value
  pub author : Value
  pub source : Text
  pub publish : Value
  pub expected_version : Value
  pub data_metadata : Option DataMetadata
  pub template_binding : Option TemplateBinding

-- `Prepared`
pub record Prepared : Type 0 where
  pub slug : Text
  pub html : Text
  pub config_schema_generated : Bool
  pub render_mode : RenderMode
  pub note : Option Text
  pub version_author : Text
  pub source : Text
  pub publish : Bool
  pub expected_version : Value
  pub content_sha : Text
  pub dedupe_by_data : Bool
  pub data_metadata : Option DataMetadata
  pub template_binding : Option TemplateBinding
  pub coverage_gaps : Text

-- `assertManagedBlocksDeployable`
unfoldable pub assert_managed_blocks_deployable : Platform → Text → Result (Option Managed)
unfolding text_eq
assert_managed_blocks_deployable env html = elim (env.parse_managed_html html) [
  | parsed m ↦ ok (some m)
  | broken ↦ err managed_parse_failed
  | refused code ↦
      if text_eq code []
      then err managed_parse_failed
      else if text_eq code (codes "page_not_data_managed")
          || text_eq code (codes "page_not_template_managed")
      then ok none
      else err (managed_block_invalid code)
]

-- An explicit `render_mode`.
mode_named : Value → Result RenderMode
unfolding text_eq
mode_named (str s) =
    if text_eq s (codes "themed")
    then ok themed
    else if text_eq s (codes "raw")
    then ok raw
    else err bad_render_mode
mode_named _ = err bad_render_mode

-- The render mode of a document: a deck is served raw.
unfoldable pub render_mode_of : Bool → Value → Result RenderMode
unfolding is_nullish mode_named mode_eq
render_mode_of deck given = do
  mode ← if is_nullish given then ok (if deck then raw else themed) else mode_named given
  require (not deck || mode_eq mode raw) bad_render_mode
  ok mode

unfoldable pub source_of : Text → Result Text
unfolding text_eq
source_of [] = ok (codes "api")
source_of s =
    if text_eq s (codes "api") || text_eq s (codes "mcp") || text_eq s (codes "admin")
    then ok s
    else err bad_source

-- The action of a managed write: what the caller names, `data_update` if it names none, and
-- `deploy` where the caller gave no metadata.
unfoldable pub managed_action : Option DataMetadata → Text
managed_action none = codes "deploy"
managed_action (some m) = elim m.action [ [] ↦ codes "data_update" | _ ↦ m.action ]

unfoldable pub metadata_of : Option DataMetadata → Option Managed → Option DataMetadata
unfolding managed_action
metadata_of given none = none
metadata_of given (some m) = some (record {
  action = managed_action given;
  data_sha = m.data_sha;
  schema_sha = m.schema_sha;
  template_sha = m.template_sha;
  source_as_of = m.source_as_of;
  refreshed_at = m.refreshed_at;
})

abbrev pub is_some {ℓ} : {A : Type ℓ} → Option A → Bool
is_some none = false
is_some (some _) = true

unfoldable pub author_of : Actor → Value → Text
unfolding js_truthy pg_text
author_of a given =
    if js_truthy given then elim (pg_text given) [ none ↦ [] | some t ↦ t ] else a.name

-- `PrepareDeploy`
unfoldable pub prepare_deploy : Platform → DeployInput → Actor → Result Prepared
unfolding metadata_of
prepare_deploy env req a = do
  publish ← bool_arg req.publish false
  require (elim req.html [ [] ↦ false | _ ↦ true ]) html_required
  mode ← render_mode_of (env.is_bento_deck req.html) req.render_mode
  source ← source_of req.source
  note ← normalize_note req.note
  normalized ← env.ensure_config_schema req.html
  let html = env.strip_deck_host_adaptation (env.strip_injected_nav normalized.0)
  managed ← assert_managed_blocks_deployable env html
  slug ← normalize_slug env.to_lower (str req.slug)
  ok (record {
    slug = slug;
    html = html;
    config_schema_generated = normalized.1;
    render_mode = mode;
    note = note;
    version_author = author_of a req.author;
    source = source;
    publish = publish;
    expected_version = req.expected_version;
    content_sha = env.sha256 html;
    dedupe_by_data = is_some req.data_metadata && is_some managed;
    data_metadata = metadata_of req.data_metadata managed;
    template_binding = req.template_binding;
    coverage_gaps = env.coverage_gaps managed;
  })
