-- ===== src/Versions/Effects/Retry.antt =====
-- A deploy of the same content again (the dedupe queries of `DeployLocked`).
use pages.Common.{
  Bool, Bool-cases, Option, Option-cases, arith, false, if◌then◌else◌, inl, inr, none, refl, some,
  sym, text_eq_refl, true, ◌≡◌,
}
use pages.Common.Table.{select}
use pages.Versions.Deploy.{
  dedupes_onto, deploy_action, new_status, new_version, same_data, same_identity, store_version,
}
use pages.Versions.Prepare.{Prepared, is_some}
use pages.Versions.Store.{
  Actor, DataMetadata, PageRow, RenderMode, Store, VersionRow, deployed, draft, insert_version,
  mode_eq, pending, raw, rejected, status_eq, themed, write_audit,
}
use mathlib.Core.Path.{subst}

-- What `PrepareDeploy` makes sure of: data is compared only where there is data.
abbrev pub HasIdentity : Prepared → Type 0
HasIdentity p = p.dedupe_by_data ≡ true → is_some p.data_metadata ≡ true

-- The row that `DeployLocked` inserts.
abbrev stored_row : Store → PageRow → Prepared → VersionRow
stored_row s page p = record (new_version page p) { id = s.next_version; created_at = s.now }

abbrev stored_after : Store → PageRow → Prepared → Actor → Store
stored_after s page p a =
    write_audit a (deploy_action p.data_metadata) page.id s.next_version
      (deployed (new_status page) p.render_mode p.data_metadata p.template_binding)
      (insert_version (new_version page p) s).1

same_identity-stored_row :
    (s : Store) (page : PageRow) (p : Prepared)
    → HasIdentity p
    → same_identity p (stored_row s page p) ≡ true
unfolding same_identity new_version same_data
same_identity-stored_row s page p h = elim (Bool-cases p.dedupe_by_data) [
  | inr bytes ↦ rw (same_identity, bytes) (text_eq_refl p.content_sha)
  | inl data_only ↦ elim (Option-cases p.data_metadata) [
    | inl nothing ↦ absurd (no_data p.data_metadata nothing (h data_only))
    | inr (m, given) ↦
        rw (same_identity, data_only, given)
          (ground (arith, text_eq_refl m.data_sha, text_eq_refl m.template_sha))
  ]
]
  where
    no_data : (o : Option DataMetadata) → o ≡ none → is_some o ≡ true → ⊥
    no_data o e i = cc

mode_eq_refl : (m : RenderMode) → mode_eq m m ≡ true
unfolding mode_eq
mode_eq_refl themed = refl
mode_eq_refl raw = refl

-- The status of a new version is not one that the dedupe skips.
status_kept :
    (gate : Bool)
    → (status_eq (if gate then pending else draft) rejected ≡ false)
      × (status_eq (if gate then pending else draft) (if gate then draft else pending) ≡ false)
unfolding status_eq
status_kept true = (refl, refl)
status_kept false = (refl, refl)

dedupes_onto-stored_row :
    (s : Store) (page : PageRow) (p : Prepared)
    → HasIdentity p
    → dedupes_onto page p 0 (stored_row s page p) ≡ true
unfolding dedupes_onto new_version
dedupes_onto-stored_row s page p h =
    let same = same_identity-stored_row s page p h in
    let (open_status, kept) = status_kept page.require_approval in
    let mode = mode_eq_refl p.render_mode in rw (same, mode, open_status, kept) (ground arith)

retry_fresh :
    (s : Store) (page : PageRow) (p : Prepared) (a b : Actor)
    → HasIdentity p
    → store_version (stored_after s page p a) page p b 0
      ≡ (stored_row s page p, true, stored_after s page p a)
unfolding store_version insert_version write_audit select
retry_fresh s page p a b h =
    let again = dedupes_onto-stored_row s page p h in rw (store_version, again) refl

first_fresh :
    (s : Store) (page : PageRow) (p : Prepared) (a : Actor)
    → select (dedupes_onto page p 0) s.versions ≡ none
    → store_version s page p a 0 ≡ (stored_row s page p, false, stored_after s page p a)
unfolding store_version insert_version
first_fresh s page p a fresh = rw (store_version, fresh) refl

first_found :
    (s : Store) (page : PageRow) (p : Prepared) (a : Actor) (w : VersionRow)
    → select (dedupes_onto page p 0) s.versions ≡ some w
    → store_version s page p a 0 ≡ (w, true, s)
unfolding store_version
first_found s page p a w found = rw (store_version, found) refl

-- Storing the same prepared content again answers the version that the first time stored, or
-- deduped onto, and writes nothing. Data is compared only where there is data.
pub store_version_retry :
    (s : Store) (page : PageRow) (p : Prepared) (a b : Actor)
    → HasIdentity p
    → store_version (store_version s page p a 0).2 page p b 0
      ≡ ((store_version s page p a 0).0, true, (store_version s page p a 0).2)
store_version_retry s page p a b h =
    elim (Option-cases (select (dedupes_onto page p 0) s.versions)) [
      | inl fresh ↦
          again (stored_row s page p, false, stored_after s page p a) (first_fresh s page p a fresh)
            (retry_fresh s page p a b h)
      | inr (w, found) ↦
          again (w, true, s) (first_found s page p a w found) (first_found s page p b w found)
    ]
  where
    again :
        (q : VersionRow × Bool × Store)
        → store_version s page p a 0 ≡ q
        → store_version q.2 page p b 0 ≡ (q.0, true, q.2)
        → store_version (store_version s page p a 0).2 page p b 0
          ≡ ((store_version s page p a 0).0, true, (store_version s page p a 0).2)
    again q e r = subst (λ x. store_version x.2 page p b 0 ≡ (x.0, true, x.2)) (sym e) r
