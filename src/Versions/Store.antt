-- ===== src/Versions/Store.antt =====
-- The tables that internal/versions reads and writes (migrations/001_init.sql and later, and
-- internal/audit/audit.go), and its SQL statements as functions on them. An id or a bigint column
-- that is NULL is 0, as in `jsx.ID`; a nullable text is an option; a time is a number of
-- milliseconds. Rows stand newest first.
use pages.Common.{
  Bool, List, Option, Text, [], false, if◌then◌else◌, ltb, none, some, text_eq, true, ℕ, ◌&&◌, ◌+◌,
  ◌==◌, ◌||◌, ◌∷◌,
}
use pages.Common.Table.{find, modify, select}

-- `version_status`
pub data Status : Type 0 where
  draft pending approved rejected : Status

pub data RenderMode : Type 0 where
  themed raw : RenderMode

pub data ActorType : Type 0 where
  user agent system : ActorType

-- `Actor`
pub record Actor : Type 0 where
  pub name : Text
  pub actor_type : ActorType
  pub token_id : ℕ
  pub ip : Text

-- `DataMetadata`, its stamps parsed.
pub record DataMetadata : Type 0 where
  pub action : Text
  pub data_sha : Text
  pub schema_sha : Text
  pub template_sha : Text
  pub source_as_of : ℕ
  pub refreshed_at : ℕ

-- `TemplateBinding`
pub record TemplateBinding : Type 0 where
  pub template_name : Text
  pub template_version_id : ℕ
  pub revision : Option ℕ
  pub config_sha : Text

pub record PageRow : Type 0 where
  pub id : ℕ
  pub slug : Text
  pub title : Text
  pub client_id : Option Text
  pub workspace_id : ℕ
  pub theme_id : ℕ
  pub password_hash : Option Text
  pub password_ciphertext : Option Text
  pub require_approval : Bool
  pub disabled : Bool
  pub published_version_id : ℕ
  pub created_at : ℕ
  pub updated_at : ℕ
  pub deleted_at : Option ℕ

-- The columns of a managed version; a CHECK makes them all NULL or all set.
pub record DataColumns : Type 0 where
  pub data_sha256 : Text
  pub data_template_sha256 : Text
  pub source_as_of : ℕ
  pub refreshed_at : ℕ

pub record VersionRow : Type 0 where
  pub id : ℕ
  pub page_id : ℕ
  pub html : Text
  pub content_sha256 : Text
  pub status : Status
  pub render_mode : RenderMode
  pub author : Text
  pub source : Text
  pub note : Option Text
  pub reviewed_by : Option Text
  pub reviewed_at : Option ℕ
  pub created_at : ℕ
  pub managed : Option DataColumns
  pub template_version_id : ℕ
  pub config_sha256 : Option Text
  pub coverage_gaps : Option Text

-- The audit metadata, one constructor for each shape that the code builds.
pub data Metadata : Type 0 where
  no_metadata : Metadata
  in_workspace : ℕ → Metadata
  pointer_moved : ℕ → ℕ → Option Text → Metadata
  rejected_with : Text → Metadata
  approval_set : Bool → Metadata
  theme_set : Text → Metadata
  reveal_available : Bool → Metadata
  title_set : Text → Metadata
  had_published : ℕ → Metadata
  deployed : Status → RenderMode → Option DataMetadata → Option TemplateBinding → Metadata

pub data Action : Type 0 where
  create_page publish rollback approve reject disable enable set_approval set_theme : Action
  set_password clear_password reveal_password set_title delete_page restore_page : Action
  deploy : Text → Action

-- `audit.Entry`
pub record Entry : Type 0 where
  pub actor : Actor
  pub action : Action
  pub page_id : ℕ
  pub version_id : ℕ
  pub metadata : Metadata

pub record Named : Type 0 where
  pub id : ℕ
  pub name : Text

pub record Store : Type 0 where
  pub pages : List PageRow
  pub versions : List VersionRow
  pub audit_log : List Entry
  pub workspaces : List Named
  pub themes : List Named
  pub next_page : ℕ
  pub next_version : ℕ
  pub now : ℕ

unfoldable pub status_eq : Status → Status → Bool
status_eq draft draft = true
status_eq pending pending = true
status_eq approved approved = true
status_eq rejected rejected = true
status_eq _ _ = false

unfoldable pub mode_eq : RenderMode → RenderMode → Bool
mode_eq themed themed = true
mode_eq raw raw = true
mode_eq _ _ = false

abbrev pub is_live_row : PageRow → Bool
is_live_row p = elim p.deleted_at [ none ↦ true | some _ ↦ false ]

-- `WHERE slug = $1 AND deleted_at IS NULL`
unfoldable pub live_page : Text → Store → Option PageRow
unfolding text_eq select
live_page slug s = select (λ p. is_live_row p && text_eq p.slug slug) s.pages

unfoldable pub find_page : ℕ → Store → Option PageRow
unfolding find
find_page id s = find (λ p. p.id) id s.pages

unfoldable pub find_version : ℕ → Store → Option VersionRow
unfolding find
find_version id s = find (λ v. v.id) id s.versions

unfoldable pub update_page : ℕ → (PageRow → PageRow) → Store → Store
unfolding modify
update_page id f s = record s { pages = modify (λ p. p.id) id f s.pages }

unfoldable pub update_version : ℕ → (VersionRow → VersionRow) → Store → Store
unfolding modify
update_version id f s = record s { versions = modify (λ v. v.id) id f s.versions }

-- `audit.Write`
unfoldable pub write_audit : Actor → Action → ℕ → ℕ → Metadata → Store → Store
write_audit a action page version meta s = record s {
  audit_log =
      record { actor = a; action = action; page_id = page; version_id = version; metadata = meta }
      ∷ s.audit_log;
}

-- `INSERT INTO page_versions`: the row takes the next id and the transaction's time.
unfoldable pub insert_version : VersionRow → Store → VersionRow × Store
insert_version v s =
    let row = record v { id = s.next_version; created_at = s.now } in
    (row, record s { versions = row ∷ s.versions; next_version = s.next_version + 1 })

-- `INSERT INTO pages`
unfoldable pub insert_page : PageRow → Store → PageRow × Store
insert_page p s =
    let row = record p { id = s.next_page; created_at = s.now; updated_at = s.now } in
    (row, record s { pages = row ∷ s.pages; next_page = s.next_page + 1 })

-- `ORDER BY … DESC LIMIT 1`, where `newer a b` says that `a` sorts before `b`.
unfoldable pub first_by : {A : Type 0} → (A → A → Bool) → List A → Option A
first_by newer [] = none
first_by newer (x ∷ xs) = elim (first_by newer xs) [
  | none ↦ some x
  | some y ↦ if newer y x then some y else some x
]

unfoldable pub where_rows : {A : Type 0} → (A → Bool) → List A → List A
where_rows p [] = []
where_rows p (x ∷ xs) = let rest = where_rows p xs in if p x then x ∷ rest else rest

-- `ORDER BY created_at DESC, id DESC`
abbrev pub newer_version : VersionRow → VersionRow → Bool
newer_version a b = ltb b.created_at a.created_at || a.created_at == b.created_at && ltb b.id a.id
