-- ===== src/Versions/Safety/History.antt =====
-- What every history keeps: the content of a version and the final reviews.
use pages.Common.{some, ℕ, ◌≡◌}
use pages.Versions.Store.{Store, VersionRow, approved, draft, find_version, pending, rejected}

abbrev pub SameReview : VersionRow → VersionRow → Type 0
SameReview v w =
    (w.status ≡ v.status) × (w.reviewed_by ≡ v.reviewed_by) × (w.reviewed_at ≡ v.reviewed_at)

-- Everything but the review of a version is the same, and a final review is too; how far an open one
-- may have gone since.
pub record Later (v w : VersionRow) : Type 0 where
  pub same_id : w.id ≡ v.id
  pub same_page : w.page_id ≡ v.page_id
  pub same_html : w.html ≡ v.html
  pub same_sha : w.content_sha256 ≡ v.content_sha256
  pub same_mode : w.render_mode ≡ v.render_mode
  pub same_time : w.created_at ≡ v.created_at
  pub same_author : w.author ≡ v.author
  pub same_source : w.source ≡ v.source
  pub same_note : w.note ≡ v.note
  pub same_managed : w.managed ≡ v.managed
  pub same_template : w.template_version_id ≡ v.template_version_id
  pub same_config : w.config_sha256 ≡ v.config_sha256
  pub same_gaps : w.coverage_gaps ≡ v.coverage_gaps
  pub stays_approved : v.status ≡ approved → SameReview v w
  pub stays_rejected : v.status ≡ rejected → SameReview v w
  pub was_draft : w.status ≡ draft → v.status ≡ draft
  pub was_pending : w.status ≡ pending → v.status ≡ pending

abbrev HasLater : VersionRow → ℕ → Store → Type 0
HasLater v id t = (w : VersionRow) × (find_version id t ≡ some w) × Later v w
