-- ===== src/Versions/Effects/Again.antt =====
-- The same deploy request, sent again (`Deploy`).
use pages.Common.{
  Bool, Option, [], ap, arith, false, inl, inr, none, not, refl, some, sym, true, ℕ, ◌&&◌, ◌==◌,
  ◌||◌, ◌∙◌, ◌≡◌, ◌⊎◌,
}
use pages.Versions.Args.{
  Value, bool, bool_arg, html_required, normalize_note, normalize_slug, ok, omitted, str,
}
use pages.Versions.Deploy.{DeployResult, deploy_locked, deploy_page, publish_version, store_version}
use pages.Versions.Effects.Deploys.{store_version-pages}
use pages.Versions.Effects.Retry.{HasIdentity, store_version_retry}
use pages.Versions.Guards.{assert_expected_version, lock_page}
use pages.Versions.Prepare.{
  DeployInput, Managed, Platform, Prepared, assert_managed_blocks_deployable, is_some, metadata_of,
  prepare_deploy, render_mode_of, source_of,
}
use pages.Versions.Spec.Invert.{
  >>-eq-ok, >>=-eq-ok, Ensures, Ensures-eq_ok, after_bind, after_check, after_require, ok_inj,
  returns,
}
use pages.Versions.Store.{Actor, DataMetadata, PageRow, Store, VersionRow, live_page}
use mathlib.Core.Path.{subst}

-- What `PrepareDeploy` makes sure of.
record Ready (req : DeployInput) (p : Prepared) : Type 0 where
  pub identity : HasIdentity p
  pub asked : bool_arg req.publish false ≡ ok p.publish

metadata_of-is_some :
    (given : Option DataMetadata) (managed : Option Managed)
    → is_some given && is_some managed ≡ true
    → is_some (metadata_of given managed) ≡ true
unfolding metadata_of
metadata_of-is_some given none h = ground arith
metadata_of-is_some given (some m) h = refl

prepare_deploy-Ready :
    (env : Platform) (req : DeployInput) (a : Actor)
    → Ensures (Ready req) (prepare_deploy env req a)
unfolding prepare_deploy
prepare_deploy-Ready env req a = after_bind (bool_arg req.publish false) _ λ wanted asked.
    after_require (elim req.html [ [] ↦ false | _ ↦ true ]) html_required _
      λ _. after_bind (render_mode_of (env.is_bento_deck req.html) req.render_mode) _ λ mode _.
        after_bind (source_of req.source) _ λ source _.
          after_bind (normalize_note req.note) _ λ note _.
            after_bind (env.ensure_config_schema req.html) _ λ normalized _.
              let html = env.strip_deck_host_adaptation (env.strip_injected_nav normalized.0) in
              after_bind (assert_managed_blocks_deployable env html) _ λ managed _.
                after_bind (normalize_slug env.to_lower (str req.slug)) _ λ slug _.
                  returns (record {
                    identity = metadata_of-is_some req.data_metadata managed;
                    asked = asked;
                  })

-- The result of a deploy that moves no pointer.
abbrev unmoved : PageRow → VersionRow → Bool → DeployResult
unmoved page v deduped = record {
  version = v;
  deduped = deduped;
  published = false;
  gated = page.require_approval;
  live =
      not page.disabled
      && (false || not (page.published_version_id == 0) && page.published_version_id == v.id);
  config_schema_generated = false;
}

deploy_locked-unmoved :
    (s : Store) (page : PageRow) (p : Prepared) (a : Actor)
    → assert_expected_version page p.expected_version ≡ ok tt
    → p.publish && not page.require_approval ≡ false
    → let (v, deduped, t) = store_version s page p a 0 in
      deploy_locked s page p a 0 ≡ ok (unmoved page v deduped, t)
unfolding deploy_locked publish_version
deploy_locked-unmoved s page p a fresh silent = rw (deploy_locked, fresh, silent) refl

lock_page-pages :
    (low : ℕ → ℕ) (slug : Value) (s t : Store)
    → t.pages ≡ s.pages
    → lock_page low slug t ≡ lock_page low slug s
unfolding lock_page live_page
lock_page-pages low slug s t same = rw same refl

deploy_locked-gate :
    (s : Store) (page : PageRow) (p : Prepared) (a : Actor)
    → Ensures
        (λ (out : DeployResult × Store). out.0.gated ≡ page.require_approval)
        (deploy_locked s page p a 0)
unfolding deploy_locked
deploy_locked-gate s page p a = after_check (assert_expected_version page p.expected_version) _ λ _.
    let stored = store_version s page p a 0 in
    after_bind (publish_version stored.2 page p a stored.0) _ λ w _. returns refl

-- The request does not ask to publish.
abbrev pub IsSilent : DeployInput → Type 0
IsSilent req = (req.publish ≡ omitted) ⊎ (req.publish ≡ bool false)

silent-publish :
    (req : DeployInput) (wanted : Bool)
    → IsSilent req
    → bool_arg req.publish false ≡ ok wanted
    → wanted ≡ false
unfolding bool_arg
silent-publish req wanted (inl e) h = sym (ok_inj (rw e at h))
silent-publish req wanted (inr e) h = sym (ok_inj (rw e at h))

no_pointer_moves :
    (req : DeployInput) (page : PageRow) (wanted : Bool)
    → bool_arg req.publish false ≡ ok wanted
    → IsSilent req ⊎ (page.require_approval ≡ true)
    → wanted && not page.require_approval ≡ false
no_pointer_moves req page wanted asked (inl silent) =
    rw (silent-publish req wanted silent asked) refl
no_pointer_moves req page wanted asked (inr gated) = rw gated (ground arith)

-- The second of two equal deploys, once the first is known to have moved no pointer.
deploy_again :
    (env : Platform) (req : DeployInput) (a : Actor) (s : Store) (p : Prepared) (page : PageRow)
    → prepare_deploy env req a ≡ ok p
    → lock_page env.to_lower (str p.slug) s ≡ ok page
    → assert_expected_version page p.expected_version ≡ ok tt
    → p.publish && not page.require_approval ≡ false
    → let (v, _, t) = store_version s page p a 0 in
      deploy_page env req a t
      ≡ ok (record (unmoved page v true) { config_schema_generated = p.config_schema_generated }, t)
unfolding deploy_page
deploy_again env req a s p page ready locked fresh silent =
    let q = store_version s page p a 0 in
    let identity = (Ensures-eq_ok (prepare_deploy-Ready env req a) p ready).identity in
    let same = store_version-pages s page p a 0 in
    let found = lock_page-pages env.to_lower (str p.slug) s q.2 same ∙ locked in
    let stored = store_version_retry s page p a a identity in
    let second : deploy_locked q.2 page p a 0 ≡ ok (unmoved page q.0 true, q.2) =
      subst (λ x. deploy_locked q.2 page p a 0 ≡ ok (unmoved page x.0 x.1, x.2)) stored
        (deploy_locked-unmoved q.2 page p a fresh silent) in
    rw (ready, found, second) refl

-- A deploy that succeeds, sent again as it is by the same caller, answers the same version, says that
-- it was there already, and leaves the tables as they are: no version, no entry in the audit log and
-- no change of the page is made. The request does not ask to publish, or the page is gated.
pub deploy_page_retry :
    (env : Platform) (req : DeployInput) (a : Actor) (s : Store) (r : DeployResult) (t : Store)
    → IsSilent req ⊎ (r.gated ≡ true)
    → deploy_page env req a s ≡ ok (r, t)
    → deploy_page env req a t ≡ ok (record r { deduped = true }, t)
unfolding deploy_page deploy_locked
deploy_page_retry env req a s r t no_move e =
    let (p, ready, e1) = >>=-eq-ok (prepare_deploy env req a) _ e in
    let (page, locked, e2) = >>=-eq-ok (lock_page env.to_lower (str p.slug) s) _ e1 in
    let (d, done_once, e3) = >>=-eq-ok (deploy_locked s page p a 0) _ e2 in
    let told = ok_inj e3 in
    let (fresh, _) = >>-eq-ok (assert_expected_version page p.expected_version) _ done_once in
    let asked = (Ensures-eq_ok (prepare_deploy-Ready env req a) p ready).asked in
    let gate = Ensures-eq_ok (deploy_locked-gate s page p a) d done_once in
    let says_gate : r.gated ≡ page.require_approval =
      sym (ap (λ (x : DeployResult × Store). x.0.gated) told) ∙ gate in
    let silent =
      no_pointer_moves req page p.publish asked
        (elim no_move [ inl quiet ↦ inl quiet | inr gated ↦ inr (sym says_gate ∙ gated) ]) in
    let q = store_version s page p a 0 in
    let once : (unmoved page q.0 q.1, q.2) ≡ d =
      ok_inj (sym (deploy_locked-unmoved s page p a fresh silent) ∙ done_once) in
    let outcome : DeployResult × Store → DeployResult × Store =
      λ x. (record x.0 { config_schema_generated = p.config_schema_generated }, x.1) in
    subst (λ x. deploy_page env req a x.1 ≡ ok (record x.0 { deduped = true }, x.1))
      (ap outcome once ∙ told) (deploy_again env req a s p page ready locked fresh silent)
