-- ===== src/Versions/Effects/Deploys.antt =====
-- What a deploy does to the page (`DeployLocked`).
use pages.Common.{
  Bool, Bool-cases, Option-cases, ap, arith, false, inl, inr, none, not, refl, some, sym, true, ℕ,
  ◌&&◌, ◌==◌, ◌||◌, ◌∙◌, ◌≡◌, ◌≢◌, ◌⊎◌,
}
use pages.Common.Rows.{find-modify_self}
use pages.Common.Table.{find, modify, select}
use pages.Versions.Args.{ok, rejected_terminal}
use pages.Versions.Deploy.{
  DeployResult, dedupes_onto, deploy_locked, move_unless_retry, publish_open, publish_version,
  stamp_approved, store_version, with_status,
}
use pages.Versions.Guards.{assert_agent_may_move_pointer, assert_expected_version, point_at}
use pages.Versions.Invariant.Writes.{Inv}
use pages.Versions.Prepare.{Prepared, is_some}
use pages.Versions.Safety.Rows.{IsLive-find_page}
use pages.Versions.Spec.Invert.{
  >>-eq-ok, Ensures, Ensures-bind, Ensures-eq_ok, after_check, after_move_pointer, after_require,
  ok_inj, returns,
}
use pages.Versions.Spec.Rules.{IsLive}
use pages.Versions.Store.{
  Actor, PageRow, Store, VersionRow, approved, find_page, insert_version, publish, rejected,
  status_eq, update_page, update_version, write_audit,
}

pub store_version-pages :
    (s : Store) (page : PageRow) (p : Prepared) (a : Actor) (only : ℕ)
    → (store_version s page p a only).2.pages ≡ s.pages
unfolding store_version insert_version write_audit
store_version-pages s page p a only =
    elim (Option-cases (select (dedupes_onto page p only) s.versions)) [
      | inl fresh ↦ rw (store_version, fresh) refl
      | inr (w, found) ↦ rw (store_version, found) refl
    ]

publish_version-gated :
    (s : Store) (page : PageRow) (p : Prepared) (a : Actor) (v : VersionRow)
    → page.require_approval ≡ true
    → publish_version s page p a v ≡ ok (v, false, s)
unfolding publish_version
publish_version-gated s page p a v gated = elim (Bool-cases p.publish) [
  | inl asked ↦ rw (asked, gated) refl
  | inr silent ↦ rw silent refl
]

-- A deploy to an approval-gated page, whoever asks and whatever it asks, leaves the pages as they
-- were and says so.
pub deploy_locked-gated :
    (s : Store) (page : PageRow) (p : Prepared) (a : Actor) (only : ℕ) (r : DeployResult)
    (t : Store)
    → page.require_approval ≡ true
    → deploy_locked s page p a only ≡ ok (r, t)
    → (t.pages ≡ s.pages) × (r.published ≡ false) × (r.gated ≡ true)
unfolding deploy_locked
deploy_locked-gated s page p a only r t gated e =
    let (_, stored) = >>-eq-ok (assert_expected_version page p.expected_version) _ e in
    let q = store_version s page p a only in
    let skipped : publish_version q.2 page p a q.0 ≡ ok (q.0, false, q.2) =
      publish_version-gated q.2 page p a q.0 gated in
    let eq = ok_inj (rw skipped at stored) in
    (
      sym (ap (λ (x : DeployResult × Store). x.1.pages) eq) ∙ store_version-pages s page p a only,
      sym (ap (λ (x : DeployResult × Store). x.0.published) eq),
      sym (ap (λ (x : DeployResult × Store). x.0.gated) eq) ∙ gated,
    )

-- What the fast-path publish of the version `v` comes to: nothing, or a move of the pointer to it.
record Published (s : Store) (page : PageRow) (v : VersionRow) (r : VersionRow × Bool × Store)
    : Type 0 where
  pub same_id : r.0.id ≡ v.id
  pub pages :
      ((r.1 ≡ false) × (r.2.pages ≡ s.pages))
      ⊎ ((r.1 ≡ true) × (r.2.pages ≡ modify (λ p. p.id) page.id (point_at v.id s.now) s.pages))

stamp_approved-tables :
    (v : VersionRow) (s : Store)
    → ((stamp_approved v s).pages ≡ s.pages) × ((stamp_approved v s).now ≡ s.now)
unfolding update_version
stamp_approved-tables v s = elim (Bool-cases (status_eq v.status approved)) [
  | inl already ↦ rw already (refl, refl)
  | inr fresh ↦ rw fresh (refl, refl)
]

moved_pages :
    (id v : ℕ) (t s : Store)
    → t.pages ≡ s.pages
    → t.now ≡ s.now
    → modify (λ (p : PageRow). p.id) id (point_at v t.now) t.pages
      ≡ modify (λ (p : PageRow). p.id) id (point_at v s.now) s.pages
moved_pages id v t s e n = rw (e, n) refl

move_unless_retry-Published :
    (s : Store) (page : PageRow) (p : Prepared) (a : Actor) (v : VersionRow)
    → Ensures
        (Published s page v)
        (move_unless_retry (stamp_approved v s) page p a (with_status approved v))
unfolding move_unless_retry update_page write_audit
move_unless_retry-Published s page p a v =
    let (same_pages, same_now) = stamp_approved-tables v s in
    elim (Bool-cases (is_some p.data_metadata && page.published_version_id == v.id)) [
      | inl retry ↦
          rw (move_unless_retry, retry)
            (returns (record { same_id = refl; pages = inl (refl, same_pages) }))
      | inr moves ↦
          rw (move_unless_retry, moves)
            (after_move_pointer (stamp_approved v s) page v.id p.expected_version a publish none _ (
              returns (record {
                same_id = refl;
                pages =
                    inr (refl, moved_pages page.id v.id (stamp_approved v s) s same_pages same_now);
              })))
    ]

publish_version-Published :
    (s : Store) (page : PageRow) (p : Prepared) (a : Actor) (v : VersionRow)
    → Ensures (Published s page v) (publish_version s page p a v)
unfolding publish_version publish_open move_unless_retry
publish_version-Published s page p a v =
    elim (Bool-cases (p.publish && not page.require_approval)) [
      | inr silent ↦
          rw (publish_version, silent)
            (returns (record { same_id = refl; pages = inl (refl, refl) }))
      | inl asked ↦
          rw (publish_version, asked)
            (after_check (assert_agent_may_move_pointer page a) _ λ _.
              after_require (not (status_eq v.status rejected)) rejected_terminal _
                λ _. move_unless_retry-Published s page p a v)
    ]

-- How the result of a deploy relates to the page and to the tables after it.
record Told (s : Store) (page : PageRow) (out : DeployResult × Store) : Type 0 where
  pub says_live :
      out.0.live
      ≡ not page.disabled
        && (out.0.published
            || not (page.published_version_id == 0)
              && page.published_version_id == out.0.version.id)
  pub does :
      ((out.0.published ≡ false) × (out.1.pages ≡ s.pages))
      ⊎ ((out.0.published ≡ true)
          × (now : ℕ) × (out.1.pages
              ≡ modify (λ p. p.id) page.id (point_at out.0.version.id now) s.pages))

deploy_locked-Told :
    (s : Store) (page : PageRow) (p : Prepared) (a : Actor) (only : ℕ)
    → Ensures (Told s page) (deploy_locked s page p a only)
unfolding deploy_locked
deploy_locked-Told s page p a only =
    after_check (assert_expected_version page p.expected_version) _ λ _.
      let stored = store_version s page p a only in
      let same = store_version-pages s page p a only in
      Ensures-bind (publish_version stored.2 page p a stored.0) _
        (publish_version-Published stored.2 page p a stored.0)
        λ w done_well. returns (record {
          says_live = refl;
          does = elim done_well.pages [
            | inl (silent, kept) ↦ inl (silent, kept ∙ same)
            | inr (loud, moved) ↦
                inr (loud, stored.2.now, moved ∙ rw (done_well.same_id, same) refl)
          ];
        })

live_unmoved :
    (disabled published : Bool) (pointer version : ℕ)
    → published ≡ false
    → version ≢ 0
    → (not disabled && (published || not (pointer == 0) && pointer == version))
      ≡ (not disabled && pointer == version)
live_unmoved true published pointer version silent filled = refl
live_unmoved false published pointer version silent filled = rw silent (ground arith)

live_moved :
    (disabled published : Bool) (pointer version : ℕ)
    → published ≡ true
    → (not disabled && (published || not (pointer == 0) && pointer == version))
      ≡ (not disabled && version == version)
live_moved disabled published pointer version loud = rw loud (ground arith)

-- What `DeployResult.live` says is true of the page: after a deploy to a live page, `live` holds
-- where the page is not taken down and its pointer names the version. The tables satisfy the
-- invariant, and the version has an id.
pub deploy_locked-live :
    (s : Store) (page : PageRow) (p : Prepared) (a : Actor) (only : ℕ) (r : DeployResult)
    (t : Store)
    → Inv s
    → IsLive page s
    → deploy_locked s page p a only ≡ ok (r, t)
    → r.version.id ≢ 0
    → (q : PageRow) × (find_page page.id t ≡ some q)
      × (r.live ≡ not q.disabled && q.published_version_id == r.version.id)
unfolding find_page
deploy_locked-live s page p a only r t i live e filled =
    let told = Ensures-eq_ok (deploy_locked-Told s page p a only) (r, t) e in
    let at = IsLive-find_page s page i live in
    elim told.does [
      | inl (silent, kept) ↦ (
        page,
        ap (λ ps. find (λ (x : PageRow). x.id) page.id ps) kept ∙ at,
        told.says_live
            ∙ live_unmoved page.disabled r.published page.published_version_id r.version.id silent
                filled,
      )
      | inr (loud, now, moved) ↦ (
        point_at r.version.id now page,
        ap (λ ps. find (λ (x : PageRow). x.id) page.id ps) moved
            ∙ find-modify_self (λ (x : PageRow). x.id) (point_at r.version.id now) (λ x. refl)
                page.id s.pages page at,
        told.says_live
            ∙ live_moved page.disabled r.published page.published_version_id r.version.id loud,
      )
    ]
