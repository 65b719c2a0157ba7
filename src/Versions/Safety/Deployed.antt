-- ===== src/Versions/Safety/Deployed.antt =====
-- Each deploy goes with an audit entry.
use pages.Common.{
  All, Bool, Option-cases, [], ap, false, if◌then◌else◌, inl, inr, not, refl, sym, ℕ, ◌&&◌, ◌==◌,
  ◌||◌, ◌∙◌, ◌≡◌, ◌≢◌, ◌⊎◌,
}
use pages.Common.Rows.{All-find, select-find, some_inj}
use pages.Common.Table.{find}
use pages.Versions.Args.{
  Result, admin_only, assert_slug_not_reserved, bool_arg, deck_base_version_required,
  deck_session_unavailable, digits_value, found_or, is_nullish, ok, stale_deck_version,
  stale_version, str,
}
use pages.Versions.Deploy.{
  SaveDeckInput, deck_input, dedupes_onto, deploy_locked, deploy_page, is_base_version,
  is_version_of, same_snapshot, save_deck,
}
use pages.Versions.Guards.{is_user}
use pages.Versions.Invariant.Writes.{Inv, PointsWell}
use pages.Versions.Lifecycle.{
  CreateAndDeployInput, add_page, assert_workspace_exists, create_and_deploy, lock_or_create,
  title_text, workspace_ref,
}
use pages.Versions.Prepare.{DeployInput, Platform, Prepared, prepare_deploy}
use pages.Versions.Safety.Audit.{
  Audited, Audited-then, Audited-weaken, Logs, unchanged-Audited, written-new,
}
use pages.Versions.Safety.Rows.{IsLive-find_page}
use pages.Versions.Safety.Trail.{FindsSettled, deploy_locked-Logs}
use pages.Versions.Spec.Invert.{
  Ensures, Ensures-bind, Ensures-map, after_bind, after_check, after_lock_page, after_require,
  returns,
}
use pages.Versions.Spec.Rules.{IsLive}
use pages.Versions.Store.{
  Actor, PageRow, Store, VersionRow, create_page, find_page, first_by, insert_page, live_page,
  newer_version, where_rows,
}
use mathlib.Core.Path.{subst}

-- Every version has an id: the identity column starts at 1.
abbrev pub HasIds : Store → Type 0
HasIds s = All (λ v. v.id ≢ 0) s.versions

Inv-FindsSettled :
    (s : Store) (page : PageRow) (p : Prepared) (only : ℕ)
    → Inv s
    → HasIds s
    → IsLive page s
    → FindsSettled s page p only
unfolding find_page
Inv-FindsSettled s page p only i ids live v found here =
    let at = IsLive-find_page s page i live in
    let well =
      All-find (λ (q : PageRow). q.id) (PointsWell s.versions) page.id s.pages page i.pointers at in
    let of_id =
      select-find (λ (w : VersionRow). w.id) (dedupes_onto page p only) s.next_version s.versions v
        i.version_ids found in
    let has_id = All-find (λ (w : VersionRow). w.id) (λ w. w.id ≢ 0) v.id s.versions v ids of_id in
    elim well [
      | inl nothing ↦ absurd (has_id (sym here ∙ nothing))
      | inr (w, pointed, _, ready) ↦
          let same : w ≡ v = some_inj (
            sym pointed
            ∙ (ap (λ (k : ℕ). find (λ (x : VersionRow). x.id) k s.versions) here ∙ of_id)) in
          sym (ap (λ (x : VersionRow). x.status) same) ∙ ready
    ]

deploy_live-Logs :
    (s : Store) (page : PageRow) (p : Prepared) (a : Actor) (only : ℕ)
    → Inv s
    → HasIds s
    → IsLive page s
    → Ensures (Logs Unit a s) (deploy_locked s page p a only)
deploy_live-Logs s page p a only i ids live =
    Ensures-map (λ r h. Audited-weaken (λ _. Inv-FindsSettled s page p only i ids live) h)
      (deploy_locked-Logs s page p only)

pub deploy_page-Logs :
    (env : Platform) (req : DeployInput) (a : Actor) (s : Store)
    → Inv s
    → HasIds s
    → Ensures (Logs Unit a s) (deploy_page env req a s)
unfolding deploy_page
deploy_page-Logs env req a s i ids = after_bind (prepare_deploy env req a) _ λ p _.
    after_lock_page env.to_lower (str p.slug) s _ λ page live.
      Ensures-bind (deploy_locked s page p a 0) _ (deploy_live-Logs s page p a 0 i ids live)
        λ r h. returns h

pub save_deck-Logs :
    (env : Platform) (req : SaveDeckInput) (a : Actor) (s : Store)
    → Inv s
    → HasIds s
    → Ensures (Logs Unit a s) (save_deck env req a s)
unfolding save_deck
save_deck-Logs env req a s i ids = after_require (is_user a) admin_only _ λ _.
    after_require (is_base_version req.base_version) deck_base_version_required _ λ _.
      after_bind (prepare_deploy env (deck_input req) a) _ λ p _.
        after_lock_page env.to_lower (str p.slug) s _ λ page live.
          after_require (page.id == req.page_id && not page.disabled) deck_session_unavailable _
            λ _.
              after_bind
                (found_or
                  (first_by newer_version (where_rows (λ v. v.page_id == page.id) s.versions))
                  deck_session_unavailable)
                _
                λ latest _.
                  after_require (env.is_bento_deck latest.html && env.is_bento_deck p.html)
                    deck_session_unavailable _
                    λ _.
                      after_require
                        (is_version_of page (digits_value 0 req.base_version) s
                          && (latest.id == digits_value 0 req.base_version
                              || same_snapshot page p latest))
                        stale_deck_version _ λ _. deploy_live-Logs s page p a latest.id i ids live

-- The page that a create-or-deploy goes on with: a live one as it is, or a new one with its entry.
abbrev Opened : Actor → Store → PageRow × Bool × Store → Type 0
Opened a s r = (h : Audited Unit a s r.2) × ((r.2 ≡ s) × IsLive r.0 s ⊎ (h.new ≢ []))

lock_or_create-Opened :
    (s : Store) (req : CreateAndDeployInput) (p : Prepared) (gate : Bool) (workspace : ℕ)
    (a : Actor)
    → Ensures (Opened a s) (lock_or_create s req p gate workspace a)
unfolding lock_or_create add_page insert_page
lock_or_create-Opened s req p gate workspace a = elim (Option-cases (live_page p.slug s)) [
  | inr (page, live) ↦
      rw (live, lock_or_create) (returns (unchanged-Audited Unit s, inl (refl, (p.slug, live))))
  | inl free ↦
      rw (free, lock_or_create)
        (after_check (assert_slug_not_reserved p.slug) _ λ _.
          after_check (assert_workspace_exists workspace s) _ λ _.
            after_bind (title_text req.title) _ λ title _.
              after_require (is_nullish p.expected_version) stale_version _ λ _.
                returns (
                  let (h, filled) = written-new Unit s _ create_page _ 0 _ refl in (h, inr filled)))
]

pub create_and_deploy-Logs :
    (env : Platform) (check : PageRow → Result (Unit {0})) (req : CreateAndDeployInput) (a : Actor)
    (s : Store)
    → Inv s
    → HasIds s
    → Ensures (Logs Unit a s) (create_and_deploy env check req a s)
unfolding create_and_deploy
create_and_deploy-Logs env check req a s i ids =
    after_bind (bool_arg req.require_approval false) _ λ gate _.
      after_bind (workspace_ref req.workspace_id a) _ λ workspace _.
        after_bind (prepare_deploy env req.deploy_input a) _ λ p _.
          Ensures-bind (lock_or_create s req p gate workspace a) _
            (lock_or_create-Opened s req p gate workspace a)
            λ locked (h, opened). after_check (if locked.1 then ok tt else check locked.0) _ λ _.
              Ensures-bind (deploy_locked locked.2 locked.0 p a 0) _
                (deploy_locked-Logs locked.2 locked.0 p 0)
                λ r rest. returns (
                  Audited-then h rest (λ _. tt)
                    (λ _ nothing. elim opened [
                      | inr filled ↦ absurd (filled nothing)
                      | inl (same, live) ↦
                          subst (λ t. FindsSettled t locked.0 p 0) (sym same)
                            (Inv-FindsSettled s locked.0 p 0 i ids live)
                    ]))
