-- ===== src/Versions/Spec/Rules.antt =====
-- The permitted statements. A transaction is a sequence of them.
use pages.Common.{Bool, Option, Text, false, none, some, true, ℕ, ◌≡◌, ◌⊎◌}
use pages.Versions.Deploy.{new_status}
use pages.Versions.Guards.{is_user, point_at}
use pages.Versions.Lifecycle.{delete_row, last_deleted, new_page, restore_row}
use pages.Versions.Store.{
  Action, Actor, Metadata, PageRow, Status, Store, VersionRow, approved, draft, find_version,
  insert_page, insert_version, live_page, pending, rejected, update_page, update_version,
  write_audit,
}

-- A person may always change what is live; an agent on an open page that is not taken down.
abbrev pub MayMove : Actor → PageRow → Type 0
MayMove a page = (is_user a ≡ true) ⊎ ((page.disabled ≡ false) × (page.require_approval ≡ false))

-- An update of a page that leaves its name, its pointer and its deletion alone.
pub record KeepsPointer (f : PageRow → PageRow) : Type 0 where
  pub same_id : (p : PageRow) → (f p).id ≡ p.id
  pub same_slug : (p : PageRow) → (f p).slug ≡ p.slug
  pub same_pointer : (p : PageRow) → (f p).published_version_id ≡ p.published_version_id
  pub same_deletion : (p : PageRow) → (f p).deleted_at ≡ p.deleted_at

-- One that leaves the takedown and the approval gate alone too.
pub record KeepsFlags (f : PageRow → PageRow) : Type 0 where
  pub same_disabled : (p : PageRow) → (f p).disabled ≡ p.disabled
  pub same_gate : (p : PageRow) → (f p).require_approval ≡ p.require_approval

-- An update of a version that leaves everything but its status and its review alone.
pub record KeepsContent (f : VersionRow → VersionRow) : Type 0 where
  pub same_id : (v : VersionRow) → (f v).id ≡ v.id
  pub same_page : (v : VersionRow) → (f v).page_id ≡ v.page_id
  pub same_html : (v : VersionRow) → (f v).html ≡ v.html
  pub same_sha : (v : VersionRow) → (f v).content_sha256 ≡ v.content_sha256
  pub same_mode : (v : VersionRow) → (f v).render_mode ≡ v.render_mode
  pub same_time : (v : VersionRow) → (f v).created_at ≡ v.created_at
  pub same_author : (v : VersionRow) → (f v).author ≡ v.author
  pub same_source : (v : VersionRow) → (f v).source ≡ v.source
  pub same_note : (v : VersionRow) → (f v).note ≡ v.note
  pub same_managed : (v : VersionRow) → (f v).managed ≡ v.managed
  pub same_template : (v : VersionRow) → (f v).template_version_id ≡ v.template_version_id
  pub same_config : (v : VersionRow) → (f v).config_sha256 ≡ v.config_sha256
  pub same_gaps : (v : VersionRow) → (f v).coverage_gaps ≡ v.coverage_gaps

-- The review lifecycle: what status may follow what, and on whose word.
pub data Transition (a : Actor) (page : PageRow) : Status → Status → Type 0 where
  publishes : MayMove a page → Transition a page draft approved
  approves : is_user a ≡ true → Transition a page pending approved
  rejects_draft : is_user a ≡ true → Transition a page draft rejected
  rejects_pending : is_user a ≡ true → Transition a page pending rejected

abbrev pub IsLive : PageRow → Store → Type 0
IsLive page s = (slug : Text) × (live_page slug s ≡ some page)

pub data Write (a : Actor) (s : Store) : Store → Type 0 where
  logs :
      (act : Action) (page version : ℕ) (meta : Metadata)
      → Write a s (write_audit a act page version meta s)
  describes :
      (id : ℕ) (f : PageRow → PageRow)
      → KeepsPointer f
      → KeepsFlags f
      → Write a s (update_page id f s)
  flags :
      (id : ℕ) (f : PageRow → PageRow)
      → KeepsPointer f
      → is_user a ≡ true
      → Write a s (update_page id f s)
  points :
      (page : PageRow) (id : ℕ) (v : VersionRow)
      → IsLive page s
      → find_version id s ≡ some v
      → v.page_id ≡ page.id
      → v.status ≡ approved
      → MayMove a page
      → Write a s (update_page page.id (point_at id s.now) s)
  deletes :
      (page : PageRow)
      → IsLive page s
      → MayMove a page
      → Write a s (update_page page.id (delete_row s.now) s)
  restores :
      (slug : Text) (page : PageRow)
      → live_page slug s ≡ none
      → last_deleted slug s ≡ some page
      → is_user a ≡ true
      → Write a s (update_page page.id (restore_row s.now) s)
  creates :
      (slug title : Text) (client : Option Text) (workspace : ℕ) (gate : Bool)
      → live_page slug s ≡ none
      → Write a s (insert_page (new_page slug title client workspace gate) s).1
  stores :
      (page : PageRow) (row : VersionRow)
      → IsLive page s
      → row.page_id ≡ page.id
      → row.status ≡ new_status page
      → Write a s (insert_version row s).1
  stamps :
      (page : PageRow) (id : ℕ) (v : VersionRow) (f : VersionRow → VersionRow)
      → IsLive page s
      → find_version id s ≡ some v
      → v.page_id ≡ page.id
      → KeepsContent f
      → Transition a page v.status (f v).status
      → Write a s (update_version id f s)

pub data Trace (a : Actor) (s : Store) : Store → Type 0 where
  done : Trace a s s
  next : {t u : Store} → Trace a s t → Write a t u → Trace a s u
