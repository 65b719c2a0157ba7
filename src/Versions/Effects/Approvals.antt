-- ===== src/Versions/Effects/Approvals.antt =====
-- `Approve`: when it succeeds, and what it brings about.
use pages.Common.{
  Bool, Text, ap, arith, false, none, not, refl, some, sym, true, ℕ, ◌==◌, ◌↔◌, ◌∙◌, ◌≡◌,
}
use pages.Versions.Args.{Value, not_pending, ok, str, version_id_required}
use pages.Versions.Effects.Access.{assert_expected_version_iff, lock_page_iff}
use pages.Versions.Effects.Reviews.{
  Granted, has_id-test, lock_version_ok, made_live, made_live-moved, move_pointer_ok, pair_path,
  status_eq_iff,
}
use pages.Versions.Guards.{assert_admin_action, is_user, lock_page, lock_version, move_pointer}
use pages.Versions.Prepare.{Platform}
use pages.Versions.Review.{approve_pending, reviewed}
use pages.Versions.Spec.Invert.{
  >>-eq-ok, >>=-eq-ok, lock_version_found, move_pointer_moved, ok_inj, require-eq-ok,
}
use pages.Versions.Spec.Review.{assert_admin_action-is_user}
use pages.Versions.Store.{
  Actor, ActorType, PageRow, Store, VersionRow, agent, approve, approved, pending, status_eq,
  system, update_version, user,
}

is_user_iff : (a : Actor) → (is_user a ≡ true) ↔ (a.actor_type ≡ user)
unfolding is_user
is_user_iff a = by_type a.actor_type
  where
    by_type :
        (t : ActorType) → ((elim t as (λ _. Bool) [ user ↦ true | _ ↦ false ]) ≡ true) ↔ (t ≡ user)
    by_type user = (λ _. refl, λ _. refl)
    by_type agent = (λ e. cc, λ e. cc)
    by_type system = (λ e. cc, λ e. cc)

-- The page and the pending version, and the outcome: the reviewer is on it, it is approved, the
-- pointer moves to it, and the move is in the audit log.
pub record ApprovedAs (env : Platform) (slug : Text) (id : ℕ) (expected : Value) (a : Actor)
    (s : Store) (outcome : VersionRow × Store) : Type 0 where
  pub page : PageRow
  pub version : VersionRow
  pub by_person : a.actor_type ≡ user
  pub granted : Granted env slug id expected pending s page version
  pub shown : outcome.0 ≡ record version { status = approved; reviewed_by = some a.name }
  pub stored :
      outcome.1
      ≡ made_live s page id a approve
          (λ v. record v { status = approved; reviewed_by = some a.name; reviewed_at = some s.now })

-- A version is approved exactly where a person asks, its id is given, it is a pending version of the
-- page that is live under the slug, and the expected version, if one is given, is the number of the
-- live one. It is then approved under the person's name and the present time and nothing else of it
-- changes, the page's pointer moves to it, and the audit log has the person's approval as its new
-- entry.
pub approve_pending_iff :
    (env : Platform) (slug : Text) (id : ℕ) (expected : Value) (a : Actor) (s : Store)
    (outcome : VersionRow × Store)
    → (approve_pending env slug id expected a s ≡ ok outcome)
      ↔ ApprovedAs env slug id expected a s outcome
unfolding approve_pending
approve_pending_iff env slug id expected a s outcome = (sound, complete)
  where
    sound :
        approve_pending env slug id expected a s ≡ ok outcome
        → ApprovedAs env slug id expected a s outcome
    sound e =
        let (admin, e0) = >>-eq-ok (assert_admin_action a) _ e in
        let (given, e1) = require-eq-ok (not (id == 0)) version_id_required _ e0 in
        let (page, locked, e2) = >>=-eq-ok (lock_page env.to_lower (str slug) s) _ e1 in
        let (v, locked_v, e4) = >>=-eq-ok (lock_version s page.id id) _ e2 in
        let (is_pending, e5) = require-eq-ok (status_eq v.status pending) not_pending _ e4 in
        let (moved, e6, e7) = >>=-eq-ok (move_pointer _ page id expected a approve none) _ e5 in
        let (found, belongs) = lock_version_found s page.id id locked_v in
        let (holds, after) = move_pointer_moved _ page id expected a approve none e6 in
        record {
          page = page;
          version = v;
          by_person = (is_user_iff a).0 (assert_admin_action-is_user a admin);
          granted = record {
            has_id = λ z. ground arith;
            named = (lock_page_iff env slug s page).0 locked;
            found = found;
            belongs = belongs;
            status = (status_eq_iff v.status pending).0 is_pending;
            expected_holds = (assert_expected_version_iff page expected).0 holds;
          };
          shown = sym (ap (λ (r : VersionRow × Store). r.0) (ok_inj e7));
          stored = sym (
              sym (made_live-moved s page id a approve (reviewed approved a s.now))
              ∙ (after ∙ ap (λ (r : VersionRow × Store). r.1) (ok_inj e7)));
        }

    complete :
        ApprovedAs env slug id expected a s outcome
        → approve_pending env slug id expected a s ≡ ok outcome
    complete h =
        let g = h.granted in
        let admin : assert_admin_action a ≡ ok tt =
          unfold assert_admin_action in rw ((is_user_iff a).1 h.by_person) refl in
        let given = has_id-test id g.has_id in
        let locked_v = lock_version_ok s h.page.id id h.version g.found g.belongs in
        let is_pending = (status_eq_iff h.version.status pending).1 g.status in
        let moved =
          move_pointer_ok (update_version id (reviewed approved a s.now) s) h.page id expected a
            approve none ((assert_expected_version_iff h.page expected).1 g.expected_holds) in
        let locked = (lock_page_iff env slug s h.page).1 g.named in
        let stored =
          h.stored ∙ sym (made_live-moved s h.page id a approve (reviewed approved a s.now)) in
        rw (approve_pending, admin, given, locked, locked_v, is_pending, moved)
          (pair_path outcome _ _ h.shown stored)
