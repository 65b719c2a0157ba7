-- ===== src/Versions/Invariant/Writes.antt =====
-- What holds of the tables at all times, and that each permitted statement keeps it.
use pages.Common.{
  All, All-map, Bool, List, Option, Text, ap, arith, false, inl, inr, none, refl, some, sym, true,
  ℕ, ◌∙◌, ◌∷◌, ◌≡◌, ◌⊎◌,
}
use pages.Common.Rows.{
  All-modify, All-zip, find-lt, find-modify_ne, key_unique, modify-Below, select-find, select-holds,
}
use pages.Common.Table.{Below, find, modify}
use pages.Versions.Guards.{point_at}
use pages.Versions.Invariant.Slugs.{NotReviving, UniqueSlugs, holds_slug, modify-UniqueSlugs}
use pages.Versions.Lifecycle.{delete_row, new_page}
use pages.Versions.Spec.Deploys.{HasVersionIds}
use pages.Versions.Spec.Rules.{
  IsLive, KeepsContent, KeepsPointer, Transition, approves, publishes, rejects_draft,
  rejects_pending,
}
use pages.Versions.Store.{
  Actor, PageRow, Status, Store, VersionRow, approved, draft, find_version, insert_page,
  insert_version, is_live_row, live_page, pending, rejected, update_page, update_version,
}
use mathlib.Core.Path.{subst}
use native.Mathlib.Decide.{ℕ_discrete}

-- The pointer of a page is NULL, or names an approved version of the page.
abbrev pub PointsWell : List VersionRow → PageRow → Type 0
PointsWell vs p =
    (p.published_version_id ≡ 0)
    ⊎ ((v : VersionRow) × (find (λ w. w.id) p.published_version_id vs ≡ some v)
        × (v.page_id ≡ p.id)
        × (v.status ≡ approved))

-- A deleted page has no live version.
abbrev pub IsTidy : PageRow → Type 0
IsTidy p = is_live_row p ≡ false → p.published_version_id ≡ 0

pub record Inv (s : Store) : Type 0 where
  pub version_ids : HasVersionIds s
  pub page_ids : Below (λ p. p.id) s.next_page s.pages
  pub pointers : All (PointsWell s.versions) s.pages
  pub slugs : UniqueSlugs s.pages
  pub unpublished : All IsTidy s.pages

-- An update of one page keeps the invariant if it keeps the id, brings no second page to a slug,
-- and leaves the pointer well. `K` is what else is known of the rows.
pub update_page-Inv :
    (s : Store) (id : ℕ) (f : PageRow → PageRow) (K : PageRow → Type 0)
    → All K s.pages
    → ((p : PageRow) → (f p).id ≡ p.id)
    → UniqueSlugs (modify (λ p. p.id) id f s.pages)
    → ((p : PageRow) → K p → PointsWell s.versions p → p.id ≡ id → PointsWell s.versions (f p))
    → ((p : PageRow) → K p → IsTidy p → p.id ≡ id → IsTidy (f p))
    → Inv s
    → Inv (update_page id f s)
unfolding update_page
update_page-Inv s id f K known same_id unique well tidy i = record {
  version_ids = i.version_ids;
  page_ids = modify-Below (λ p. p.id) f same_id s.next_page id s.pages i.page_ids;
  pointers =
      All-modify (λ p. p.id) f id s.pages (λ p h. h.1) (λ p h e. well p h.0 h.1 e)
        (All-zip K (PointsWell s.versions) s.pages known i.pointers);
  slugs = unique;
  unpublished =
      All-modify (λ p. p.id) f id s.pages (λ p h. h.1) (λ p h e. tidy p h.0 h.1 e)
        (All-zip K IsTidy s.pages known i.unpublished);
}

KeepsPointer-NotReviving : {f : PageRow → PageRow} → KeepsPointer f → NotReviving f
KeepsPointer-NotReviving k = record {
  same_slug = k.same_slug;
  was_live = λ p live.
      subst (λ d. elim d [ none ↦ true | some _ ↦ false ] ≡ true) (k.same_deletion p) live;
}

pub settings-Inv :
    (s : Store) (id : ℕ) (f : PageRow → PageRow) → KeepsPointer f → Inv s → Inv (update_page id f s)
settings-Inv s id f k i =
    update_page-Inv s id f IsTidy i.unpublished k.same_id
      (modify-UniqueSlugs f id s.pages (KeepsPointer-NotReviving k) i.slugs)
      (λ p _ h _. rw (k.same_pointer p, k.same_id p) h)
      (λ p _ h _ dead. k.same_pointer p ∙ h (rw (k.same_deletion p) at dead)) i

-- A live page is the one row of its id.
IsLive-unique :
    (s : Store) (page : PageRow)
    → Inv s
    → IsLive page s
    → All (λ p. p.id ≡ page.id → p ≡ page) s.pages × (is_live_row page ≡ true)
unfolding live_page
IsLive-unique s page i (slug, live) = (
  key_unique (λ p. p.id) s.next_page page.id s.pages page i.page_ids
      (select-find (λ p. p.id) (holds_slug slug) s.next_page s.pages page i.page_ids live),
  let h = select-holds (holds_slug slug) s.pages page live in ground arith,
)

pub points-Inv :
    (s : Store) (page : PageRow) (id : ℕ) (v : VersionRow)
    → IsLive page s
    → find_version id s ≡ some v
    → v.page_id ≡ page.id
    → v.status ≡ approved
    → Inv s
    → Inv (update_page page.id (point_at id s.now) s)
unfolding find_version
points-Inv s page id v live found belongs ready i =
    let (one, is_live) = IsLive-unique s page i live in
    update_page-Inv s page.id (point_at id s.now) (λ p. p.id ≡ page.id → p ≡ page) one (λ p. refl)
      (modify-UniqueSlugs (point_at id s.now) page.id s.pages
        (record { same_slug = λ p. refl; was_live = λ p h. h }) i.slugs)
      (λ p _ _ e. inr (v, found, belongs ∙ sym e, ready))
      (λ p k h e dead. absurd (alive p (k e) is_live dead)) i
  where
    alive : (p : PageRow) → p ≡ page → is_live_row page ≡ true → is_live_row p ≡ false → ⊥
    alive p e l d = cc (ap (λ (q : PageRow). is_live_row q) e)

pub deletes-Inv : (s : Store) (id : ℕ) → Inv s → Inv (update_page id (delete_row s.now) s)
deletes-Inv s id i =
    update_page-Inv s id (delete_row s.now) IsTidy i.unpublished (λ p. refl)
      (modify-UniqueSlugs (delete_row s.now) id s.pages
        (record { same_slug = λ p. refl; was_live = λ p h. cc }) i.slugs)
      (λ p _ _ _. inl refl) (λ p _ _ _ _. refl) i

pub stores-Inv : (s : Store) (row : VersionRow) → Inv s → Inv (insert_version row s).1
unfolding insert_version
stores-Inv s row i = record {
  version_ids = (omega arith, i.version_ids);
  page_ids = i.page_ids;
  pointers = All-map s.pages (λ p h. still p h) i.pointers;
  slugs = i.slugs;
  unpublished = i.unpublished;
}
  where
    new : VersionRow
    new = record row { id = s.next_version; created_at = s.now }

    still : (p : PageRow) → PointsWell s.versions p → PointsWell (new ∷ s.versions) p
    still p (inl e) = inl e
    still p (inr (v, found, belongs, ready)) = inr (
      v,
      unfold find in
          (ground (
            arith,
            find-lt (λ w. w.id) s.next_version p.published_version_id s.versions v i.version_ids
                found,
          )),
      belongs,
      ready,
    )

pub creates-Inv :
    (s : Store) (slug title : Text) (client : Option Text) (workspace : ℕ) (gate : Bool)
    → live_page slug s ≡ none
    → Inv s
    → Inv (insert_page (new_page slug title client workspace gate) s).1
unfolding insert_page new_page live_page
creates-Inv s slug title client workspace gate free i = record {
  version_ids = i.version_ids;
  page_ids = (omega arith, i.page_ids);
  pointers = (inl refl, i.pointers);
  slugs = (λ _. free, i.slugs);
  unpublished = ((λ _. refl), i.unpublished);
}

no_way_on :
    {a : Actor} {page : PageRow} {to : Status} (st : Status)
    → st ≡ approved
    → Transition a page st to
    → ⊥
no_way_on draft e (publishes _) = cc
no_way_on pending e (approves _) = cc
no_way_on draft e (rejects_draft _) = cc
no_way_on pending e (rejects_pending _) = cc
no_way_on approved e m = elim m [ ]
no_way_on rejected e m = elim m [ ]

pub stamps-Inv :
    {a : Actor} (s : Store) (page : PageRow) (id : ℕ) (v : VersionRow) (f : VersionRow → VersionRow)
    → find_version id s ≡ some v
    → KeepsContent f
    → Transition a page v.status (f v).status
    → Inv s
    → Inv (update_version id f s)
unfolding update_version find_version
stamps-Inv s page id v f found k moves i = record {
  version_ids = modify-Below (λ w. w.id) f k.same_id s.next_version id s.versions i.version_ids;
  page_ids = i.page_ids;
  pointers = All-map s.pages (λ p h. still p h) i.pointers;
  slugs = i.slugs;
  unpublished = i.unpublished;
}
  where
    still :
        (p : PageRow) → PointsWell s.versions p → PointsWell (modify (λ w. w.id) id f s.versions) p
    still p (inl e) = inl e
    still p (inr (w, pointed, belongs, ready)) = elim (ℕ_discrete p.published_version_id id) [
      | yes same ↦ absurd (
          no_way_on v.status (ground (arith, ap (λ (j : ℕ). find (λ x. x.id) j s.versions) same))
            moves)
      | no other_id ↦ inr (
        w,
        find-modify_ne (λ x. x.id) f k.same_id p.published_version_id id s.versions other_id
            ∙ pointed,
        belongs,
        ready,
      )
    ]
