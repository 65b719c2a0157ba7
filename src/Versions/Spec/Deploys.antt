-- ===== src/Versions/Spec/Deploys.antt =====
-- DeployLocked, Deploy and SaveDeck run permitted statements only.
use pages.Common.{
  Bool, Bool-cases, Option-cases, ap, arith, false, if◌then◌else◌, inl, inr, none, not, refl, some,
  sym, true, ℕ, ◌&&◌, ◌==◌, ◌||◌, ◌∙◌, ◌≡◌, ◌⊎◌,
}
use pages.Common.Rows.{select-find, select-holds}
use pages.Common.Table.{Below, select}
use pages.Versions.Args.{
  admin_only, deck_base_version_required, deck_session_unavailable, digits_value, found_or,
  rejected_terminal, stale_deck_version, str,
}
use pages.Versions.Deploy.{
  SaveDeckInput, deck_input, dedupes_onto, deploy_locked, deploy_page, is_base_version,
  is_version_of, move_unless_retry, new_status, new_version, publish_open, publish_version,
  same_snapshot, save_deck, stamp_approved, store_version, with_status,
}
use pages.Versions.Guards.{assert_agent_may_move_pointer, assert_expected_version, is_user}
use pages.Versions.Prepare.{DeployInput, Platform, Prepared, is_some, prepare_deploy}
use pages.Versions.Spec.Invert.{
  Ensures, Ensures-bind, Ensures-map, after_bind, after_check, after_lock_page, after_move_pointer,
  after_require, assert_agent_may_move_pointer-MayMove, returns,
}
use pages.Versions.Spec.Review.{Traced, find_version-update, point_only, with_status-KeepsContent}
use pages.Versions.Spec.Rules.{
  IsLive, MayMove, Trace, Transition, done, logs, next, publishes, stamps, stores,
}
use pages.Versions.Store.{
  Actor, PageRow, Status, Store, VersionRow, approved, draft, find_version, first_by, live_page,
  newer_version, pending, publish, rejected, status_eq, update_version, where_rows,
}
use mathlib.Core.Path.{subst}

-- The ids of the versions fall along the table.
abbrev pub HasVersionIds : Store → Type 0
HasVersionIds s = Below (λ v. v.id) s.next_version s.versions

pub Trace-append : {a : Actor} {s t u : Store} → Trace a s t → Trace a t u → Trace a s u
Trace-append r done = r
Trace-append r (next q w) = next (Trace-append r q) w

-- What is known of the version that a deploy goes on with.
pub record Stored (s t : Store) (page : PageRow) (v : VersionRow) : Type 0 where
  pub same_pages : t.pages ≡ s.pages
  pub found : find_version v.id t ≡ some v
  pub belongs : v.page_id ≡ page.id
  pub status_is : (v.status ≡ approved) ⊎ (v.status ≡ new_status page)

IsLive-same_pages :
    (s t : Store) (page : PageRow) → t.pages ≡ s.pages → IsLive page s → IsLive page t
unfolding live_page
IsLive-same_pages s t page e (slug, live) = (slug, rw e live)

dedupes_onto_status :
    (page : PageRow) (p : Prepared) (only : ℕ) (v : VersionRow)
    → dedupes_onto page p only v ≡ true
    → (v.page_id ≡ page.id) × ((v.status ≡ approved) ⊎ (v.status ≡ new_status page))
unfolding dedupes_onto
dedupes_onto_status page p only v h =
    (ground arith, status_left v.status page.require_approval (ground arith) (ground arith))
  where
    status_left :
        (st : Status) (gate : Bool)
        → not (status_eq st rejected) ≡ true
        → not (status_eq st (if gate then draft else pending)) ≡ true
        → (st ≡ approved) ⊎ (st ≡ (if gate then pending else draft))
    status_left draft true h k = cc
    status_left draft false h k = inr refl
    status_left pending true h k = inr refl
    status_left pending false h k = cc
    status_left approved gate h k = inl refl
    status_left rejected gate h k = cc

draft_on_open :
    (page : PageRow) (v : VersionRow)
    → page.require_approval ≡ false
    → (v.status ≡ approved) ⊎ (v.status ≡ new_status page)
    → (v.status ≡ approved) ⊎ (v.status ≡ draft)
draft_on_open page v e (inl h) = inl h
draft_on_open page v e (inr h) = inr (rw e at h)

stamp_approved-IsLive :
    (s : Store) (page : PageRow) (v : VersionRow) → IsLive page s → IsLive page (stamp_approved v s)
unfolding live_page update_version
stamp_approved-IsLive s page v (slug, live) = (slug, ground arith)

module _ (a : Actor) where
  store_version-Stored :
      (s : Store) (page : PageRow) (p : Prepared) (only : ℕ)
      → HasVersionIds s
      → Stored s (store_version s page p a only).2 page (store_version s page p a only).0
  unfolding store_version find_version
  store_version-Stored s page p only ids =
      elim (Option-cases (select (dedupes_onto page p only) s.versions)) [
        | inl fresh ↦
            rw (fresh, store_version)
              (record {
                same_pages = refl;
                found = ground arith;
                belongs = refl;
                status_is = inr refl;
              })
        | inr (v, old) ↦
            rw (old, store_version)
              (let (belongs, status_is) =
                  dedupes_onto_status page p only v
                    (select-holds (dedupes_onto page p only) s.versions v old) in
                record {
                  same_pages = refl;
                  found =
                      select-find (λ w. w.id) (dedupes_onto page p only) s.next_version s.versions v
                        ids old;
                  belongs = belongs;
                  status_is = status_is;
                })
      ]

  store_version-Trace :
      (s : Store) (page : PageRow) (p : Prepared) (only : ℕ)
      → IsLive page s
      → Trace a s (store_version s page p a only).2
  unfolding store_version new_version
  store_version-Trace s page p only live =
      elim (Option-cases (select (dedupes_onto page p only) s.versions)) [
        | inl fresh ↦
            rw (fresh, store_version)
              (next (next done (stores page (new_version page p) live refl refl)) (logs _ _ _ _))
        | inr (v, old) ↦ rw (old, store_version) done
      ]

  with_status_same : (v : VersionRow) → v.status ≡ approved → with_status approved v ≡ v
  with_status_same v e = λ i. record v { status = sym e i }

  stamp_approved-Trace :
      (s : Store) (page : PageRow) (v : VersionRow)
      → IsLive page s
      → find_version v.id s ≡ some v
      → v.page_id ≡ page.id
      → (v.status ≡ approved) ⊎ (v.status ≡ draft)
      → MayMove a page
      → Trace a s (stamp_approved v s)
        × (find_version v.id (stamp_approved v s) ≡ some (with_status approved v))
  unfolding status_eq
  stamp_approved-Trace s page v live found belongs (inl e) may =
      rw e (done, found ∙ ap some (sym (with_status_same v e)))
  stamp_approved-Trace s page v live found belongs (inr e) may = rw e (
    next done (
        stamps page v.id v (with_status approved) live found belongs
          (with_status-KeepsContent approved)
          (subst (λ st. Transition a page st approved) (sym e) (publishes may))),
    find_version-update v.id (with_status approved) s (with_status-KeepsContent approved) found,
  )

  move_unless_retry-Traced :
      (s : Store) (page : PageRow) (p : Prepared) (v : VersionRow)
      → IsLive page s
      → find_version v.id s ≡ some v
      → v.page_id ≡ page.id
      → v.status ≡ approved
      → MayMove a page
      → Ensures (λ r. Trace a s r.2) (move_unless_retry s page p a v)
  unfolding move_unless_retry
  move_unless_retry-Traced s page p v live found belongs ready may =
      elim (Bool-cases (is_some p.data_metadata && page.published_version_id == v.id)) [
        | inl retry ↦ rw retry (returns done)
        | inr new ↦ rw new (
            after_move_pointer s page v.id p.expected_version a publish none _
              (returns (point_only s page v.id v publish none live found belongs ready may)))
      ]

  publish_open-Traced :
      (s : Store) (page : PageRow) (p : Prepared) (v : VersionRow)
      → IsLive page s
      → find_version v.id s ≡ some v
      → v.page_id ≡ page.id
      → (v.status ≡ approved) ⊎ (v.status ≡ draft)
      → Ensures (λ r. Trace a s r.2) (publish_open s page p a v)
  unfolding publish_open
  publish_open-Traced s page p v live found belongs status_is =
      after_check (assert_agent_may_move_pointer page a) _ λ allowed.
        after_require (not (status_eq v.status rejected)) rejected_terminal _ λ _.
          let may = assert_agent_may_move_pointer-MayMove page a allowed in
          let (stamping, found') = stamp_approved-Trace s page v live found belongs status_is may in
          Ensures-map (λ r rest. Trace-append stamping rest)
            (move_unless_retry-Traced (stamp_approved v s) page p (with_status approved v)
              (stamp_approved-IsLive s page v live) found' belongs refl may)

  publish_version-Traced :
      (s : Store) (page : PageRow) (p : Prepared) (v : VersionRow)
      → IsLive page s
      → find_version v.id s ≡ some v
      → v.page_id ≡ page.id
      → (v.status ≡ approved) ⊎ (v.status ≡ new_status page)
      → Ensures (λ r. Trace a s r.2) (publish_version s page p a v)
  unfolding publish_version
  publish_version-Traced s page p v live found belongs status_is =
      elim (Bool-cases (p.publish && not page.require_approval)) [
        | inl open_page ↦ rw open_page (
            publish_open-Traced s page p v live found belongs
              (draft_on_open page v (ground arith) status_is))
        | inr later ↦ rw later (returns done)
      ]

  pub deploy_locked-Traced :
      (s : Store) (page : PageRow) (p : Prepared) (only : ℕ)
      → HasVersionIds s
      → IsLive page s
      → Ensures (Traced a s) (deploy_locked s page p a only)
  unfolding deploy_locked
  deploy_locked-Traced s page p only ids live =
      after_check (assert_expected_version page p.expected_version) _ λ _.
        let known = store_version-Stored s page p only ids in
        let t = (store_version s page p a only).2 in
        let v = (store_version s page p a only).0 in
        Ensures-bind (publish_version t page p a v) _
          (publish_version-Traced t page p v (IsLive-same_pages s t page known.same_pages live)
            known.found known.belongs known.status_is)
          λ r rest. returns (Trace-append (store_version-Trace s page p only live) rest)

pub deploy_page-Traced :
    (env : Platform) (req : DeployInput) (a : Actor) (s : Store)
    → HasVersionIds s
    → Ensures (Traced a s) (deploy_page env req a s)
unfolding deploy_page
deploy_page-Traced env req a s ids = after_bind (prepare_deploy env req a) _ λ p _.
    after_lock_page env.to_lower (str p.slug) s _ λ page live.
      Ensures-bind (deploy_locked s page p a 0) _ (deploy_locked-Traced a s page p 0 ids live)
        λ r h. returns h

pub save_deck-Traced :
    (env : Platform) (req : SaveDeckInput) (a : Actor) (s : Store)
    → HasVersionIds s
    → Ensures (Traced a s) (save_deck env req a s)
unfolding save_deck
save_deck-Traced env req a s ids = after_require (is_user a) admin_only _ λ _.
    after_require (is_base_version req.base_version) deck_base_version_required _ λ _.
      after_bind (prepare_deploy env (deck_input req) a) _ λ p _.
        after_lock_page env.to_lower (str p.slug) s _ λ page live.
          after_require (page.id == req.page_id && not page.disabled) deck_session_unavailable _
            λ _.
              after_bind
                (found_or
                  (first_by newer_version (where_rows (λ v. v.page_id == page.id) s.versions))
                  deck_session_unavailable)
                _
                λ latest _.
                  after_require (env.is_bento_deck latest.html && env.is_bento_deck p.html)
                    deck_session_unavailable _
                    λ _.
                      after_require
                        (is_version_of page (digits_value 0 req.base_version) s
                          && (latest.id == digits_value 0 req.base_version
                              || same_snapshot page p latest))
                        stale_deck_version _ λ _. deploy_locked-Traced a s page p latest.id ids live
