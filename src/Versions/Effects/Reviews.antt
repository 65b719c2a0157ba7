-- ===== src/Versions/Effects/Reviews.antt =====
-- `Publish`: when it succeeds, and what it brings about.
use pages.Common.{
  ==_iff, Bool-cases, Option, Text, ap, arith, inl, inr, none, not, refl, some, sym, true, ℕ, ◌==◌,
  ◌↔◌, ◌∙◌, ◌∷◌, ◌≡◌, ◌≢◌,
}
use pages.Common.Table.{modify}
use pages.Versions.Args.{Value, not_draft, ok, str, version_id_required}
use pages.Versions.Deploy.{with_status}
use pages.Versions.Effects.Access.{Expects, NamesPage, assert_expected_version_iff, lock_page_iff}
use pages.Versions.Guards.{
  assert_agent_may_move_pointer, assert_expected_version, is_user, lock_page, lock_version,
  move_pointer,
}
use pages.Versions.Prepare.{Platform}
use pages.Versions.Review.{publish_draft}
use pages.Versions.Spec.Invert.{
  >>-eq-ok, >>=-eq-ok, assert_agent_may_move_pointer-MayMove, lock_version_found,
  move_pointer_moved, moved_store, ok_inj, require-eq-ok,
}
use pages.Versions.Spec.Rules.{MayMove}
use pages.Versions.Store.{
  Action, Actor, PageRow, Status, Store, VersionRow, approved, draft, find_version, pending,
  pointer_moved, publish, rejected, status_eq, update_page, update_version, write_audit,
}

-- Where a request to make the version `id` live is granted: the page of the slug, the version, a
-- draft or pending one as asked, and an expectation that holds.
pub record Granted (env : Platform) (slug : Text) (id : ℕ) (expected : Value) (before : Status)
    (s : Store) (page : PageRow) (v : VersionRow) : Type 0 where
  pub has_id : id ≢ 0
  pub named : NamesPage env slug s page
  pub found : find_version id s ≡ some v
  pub belongs : v.page_id ≡ page.id
  pub status : v.status ≡ before
  pub expected_holds : Expects expected page

MayMove-assert :
    (page : PageRow) (a : Actor) → MayMove a page → assert_agent_may_move_pointer page a ≡ ok tt
unfolding assert_agent_may_move_pointer
MayMove-assert page a (inl person) = rw person refl
MayMove-assert page a (inr (up, open_page)) = elim (Bool-cases (is_user a)) [
  | inl person ↦ rw person refl
  | inr robot ↦ rw (robot, up, open_page) refl
]

pub lock_version_ok :
    (s : Store) (page id : ℕ) (v : VersionRow)
    → find_version id s ≡ some v
    → v.page_id ≡ page
    → lock_version s page id ≡ ok v
unfolding lock_version
lock_version_ok s page id v found belongs = rw (found, (==_iff v.page_id page).1 belongs) refl

pub status_eq_iff : (a b : Status) → (status_eq a b ≡ true) ↔ (a ≡ b)
unfolding status_eq
status_eq_iff draft draft = (λ _. refl, λ _. refl)
status_eq_iff pending pending = (λ _. refl, λ _. refl)
status_eq_iff approved approved = (λ _. refl, λ _. refl)
status_eq_iff rejected rejected = (λ _. refl, λ _. refl)
status_eq_iff _ _ = (λ e. cc, λ e. cc)

pub has_id-test : (id : ℕ) → id ≢ 0 → not (id == 0) ≡ true
has_id-test id h = ground arith

pub move_pointer_ok :
    (s : Store) (page : PageRow) (version : ℕ) (expected : Value) (a : Actor) (act : Action)
    (why : Option Text)
    → assert_expected_version page expected ≡ ok tt
    → move_pointer s page version expected a act why ≡ ok (moved_store s page version a act why)
unfolding move_pointer
move_pointer_ok s page version expected a act why holds = rw holds refl

-- The tables after `stamp` on the version, the move of the page's pointer to it, and the entry in
-- the audit log, which names the version that was live.
abbrev pub made_live : Store → PageRow → ℕ → Actor → Action → (VersionRow → VersionRow) → Store
made_live s page id a act stamp = record s {
  versions = modify (λ v. v.id) id stamp s.versions;
  pages =
      modify (λ p. p.id) page.id (λ p. record p { published_version_id = id; updated_at = s.now })
        s.pages;
  audit_log =
      record {
        actor = a;
        action = act;
        page_id = page.id;
        version_id = id;
        metadata = pointer_moved page.published_version_id id none;
      }
      ∷ s.audit_log;
}

pub made_live-moved :
    (s : Store) (page : PageRow) (id : ℕ) (a : Actor) (act : Action)
    (stamp : VersionRow → VersionRow)
    → moved_store (update_version id stamp s) page id a act none ≡ made_live s page id a act stamp
unfolding write_audit update_page update_version
made_live-moved s page id a act stamp = refl

pub pair_path :
    (o : VersionRow × Store) (v : VersionRow) (u : Store) → o.0 ≡ v → o.1 ≡ u → ok (v, u) ≡ ok o
pair_path (w, t) v u p q = cc

-- The page and the draft, and the outcome: it is approved, the pointer moves to it, and the move is
-- in the audit log.
pub record PublishedAs (env : Platform) (slug : Text) (id : ℕ) (expected : Value) (a : Actor)
    (s : Store) (outcome : VersionRow × Store) : Type 0 where
  pub page : PageRow
  pub version : VersionRow
  pub may_move : MayMove a page
  pub granted : Granted env slug id expected draft s page version
  pub shown : outcome.0 ≡ record version { status = approved }
  pub stored : outcome.1 ≡ made_live s page id a publish (λ v. record v { status = approved })

-- A version is published exactly where its id is given, it is a draft of the page that is live under
-- the slug, the caller may change what is live there, and the expected version, if one is given, is
-- the number of the live one. It is then approved and nothing else of it changes, the page's pointer
-- moves to it at the present time, and the audit log has the caller's move as its new entry.
pub publish_draft_iff :
    (env : Platform) (slug : Text) (id : ℕ) (expected : Value) (a : Actor) (s : Store)
    (outcome : VersionRow × Store)
    → (publish_draft env slug id expected a s ≡ ok outcome)
      ↔ PublishedAs env slug id expected a s outcome
unfolding publish_draft
publish_draft_iff env slug id expected a s outcome = (sound, complete)
  where
    sound :
        publish_draft env slug id expected a s ≡ ok outcome
        → PublishedAs env slug id expected a s outcome
    sound e =
        let (given, e1) = require-eq-ok (not (id == 0)) version_id_required _ e in
        let (page, locked, e2) = >>=-eq-ok (lock_page env.to_lower (str slug) s) _ e1 in
        let (allowed, e3) = >>-eq-ok (assert_agent_may_move_pointer page a) _ e2 in
        let (v, locked_v, e4) = >>=-eq-ok (lock_version s page.id id) _ e3 in
        let (is_draft, e5) = require-eq-ok (status_eq v.status draft) not_draft _ e4 in
        let (moved, e6, e7) = >>=-eq-ok (move_pointer _ page id expected a publish none) _ e5 in
        let (found, belongs) = lock_version_found s page.id id locked_v in
        let (holds, after) = move_pointer_moved _ page id expected a publish none e6 in
        record {
          page = page;
          version = v;
          may_move = assert_agent_may_move_pointer-MayMove page a allowed;
          granted = record {
            has_id = λ z. ground arith;
            named = (lock_page_iff env slug s page).0 locked;
            found = found;
            belongs = belongs;
            status = (status_eq_iff v.status draft).0 is_draft;
            expected_holds = (assert_expected_version_iff page expected).0 holds;
          };
          shown = sym (ap (λ (r : VersionRow × Store). r.0) (ok_inj e7));
          stored = sym (
              sym (made_live-moved s page id a publish (with_status approved))
              ∙ (after ∙ ap (λ (r : VersionRow × Store). r.1) (ok_inj e7)));
        }

    complete :
        PublishedAs env slug id expected a s outcome
        → publish_draft env slug id expected a s ≡ ok outcome
    complete h =
        let g = h.granted in
        let given = has_id-test id g.has_id in
        let allowed = MayMove-assert h.page a h.may_move in
        let locked_v = lock_version_ok s h.page.id id h.version g.found g.belongs in
        let is_draft = (status_eq_iff h.version.status draft).1 g.status in
        let moved =
          move_pointer_ok (update_version id (with_status approved) s) h.page id expected a publish
            none ((assert_expected_version_iff h.page expected).1 g.expected_holds) in
        let locked = (lock_page_iff env slug s h.page).1 g.named in
        let stored =
          h.stored ∙ sym (made_live-moved s h.page id a publish (with_status approved)) in
        rw (publish_draft, given, locked, allowed, locked_v, is_draft, moved)
          (pair_path outcome _ _ h.shown stored)
