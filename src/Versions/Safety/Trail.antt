-- ===== src/Versions/Safety/Trail.antt =====
-- What a deploy does to a page goes with an audit entry (`DeployLocked`).
use pages.Common.{
  Bool-cases, Option-cases, [], arith, inl, inr, none, not, refl, some, true, ℕ, ◌&&◌, ◌==◌, ◌≡◌,
  ◌≢◌,
}
use pages.Common.Table.{select}
use pages.Versions.Args.{rejected_terminal}
use pages.Versions.Deploy.{
  dedupes_onto, deploy_action, deploy_locked, move_unless_retry, new_status, new_version,
  publish_open, publish_version, stamp_approved, store_version, with_status,
}
use pages.Versions.Guards.{assert_agent_may_move_pointer, assert_expected_version}
use pages.Versions.Prepare.{Prepared, is_some}
use pages.Versions.Safety.Audit.{
  Audited, Audited-then, Logs, moved_store-Audited, unchanged-Audited, written-new,
}
use pages.Versions.Spec.Invert.{
  Ensures, Ensures-bind, after_check, after_move_pointer, after_require, returns,
}
use pages.Versions.Store.{
  Action, Actor, Metadata, PageRow, Store, VersionRow, approved, deployed, insert_version, publish,
  rejected, status_eq, update_version, write_audit,
}

-- A version that the page points at is approved.
abbrev pub Settled : PageRow → VersionRow → Type 0
Settled page v = page.published_version_id ≡ v.id → v.status ≡ approved

stamp_approved-log : (v : VersionRow) (s : Store) → (stamp_approved v s).audit_log ≡ s.audit_log
unfolding update_version
stamp_approved-log v s = elim (Bool-cases (status_eq v.status approved)) [
  | inl already ↦ rw already refl
  | inr fresh ↦ rw fresh refl
]

-- A version that the deploy finds is settled.
abbrev pub FindsSettled : Store → PageRow → Prepared → ℕ → Type 0
FindsSettled s page p only =
    (v : VersionRow) → select (dedupes_onto page p only) s.versions ≡ some v → Settled page v

module _ {a : Actor} where
  stamp_approved-Audited :
      (page : PageRow) (v : VersionRow) (s : Store)
      → page.published_version_id ≡ v.id
      → Audited (Settled page v) a s (stamp_approved v s)
  unfolding status_eq
  stamp_approved-Audited page v s here = record {
    new = [];
    grown = stamp_approved-log v s;
    by_actor = tt;
    silent = λ settled _.
        let already : status_eq v.status approved ≡ true = rw (settled here) refl in
        rw already (refl, refl);
  }

  move_unless_retry-Logs :
      (s : Store) (page : PageRow) (p : Prepared) (v : VersionRow)
      → Ensures
          (λ r. Audited (Settled page v) a s r.2)
          (move_unless_retry (stamp_approved v s) page p a (with_status approved v))
  unfolding move_unless_retry
  move_unless_retry-Logs s page p v =
      elim (Bool-cases (is_some p.data_metadata && page.published_version_id == v.id)) [
        | inl retry ↦
            let here : page.published_version_id ≡ v.id = ground arith in
            rw (move_unless_retry, retry) (returns (stamp_approved-Audited page v s here))
        | inr moves ↦
            rw (move_unless_retry, moves)
              (after_move_pointer (stamp_approved v s) page v.id p.expected_version a publish none _
                (returns (
                  moved_store-Audited (Settled page v) s (stamp_approved v s) page v.id publish none
                    (stamp_approved-log v s))))
      ]

  publish_version-Logs :
      (s : Store) (page : PageRow) (p : Prepared) (v : VersionRow)
      → Ensures (λ r. Audited (Settled page v) a s r.2) (publish_version s page p a v)
  unfolding publish_version publish_open
  publish_version-Logs s page p v = elim (Bool-cases (p.publish && not page.require_approval)) [
    | inr silent ↦ rw (publish_version, silent) (returns (unchanged-Audited (Settled page v) s))
    | inl asked ↦
        rw (publish_version, asked)
          (after_check (assert_agent_may_move_pointer page a) _ λ _.
            after_require (not (status_eq v.status rejected)) rejected_terminal _
              λ _. move_unless_retry-Logs s page p v)
  ]

  store_version-Audited :
      (s : Store) (page : PageRow) (p : Prepared) (only : ℕ)
      → (h : Audited Unit a s (store_version s page p a only).2) × (FindsSettled s page p only
          → h.new ≡ []
          → Settled page (store_version s page p a only).0)
  unfolding store_version insert_version
  store_version-Audited s page p only =
      elim (Option-cases (select (dedupes_onto page p only) s.versions)) [
        | inl fresh ↦
            let (h, filled) =
              logged (deploy_action p.data_metadata)
                (deployed (new_status page) p.render_mode p.data_metadata p.template_binding) in
            rw (store_version, fresh) (h, λ _ nothing. absurd (filled nothing))
        | inr (v, found) ↦
            rw (store_version, found) (unchanged-Audited Unit s, λ settled _. settled v refl)
      ]
    where
      stored : Store
      stored = (insert_version (new_version page p) s).1

      logged :
          (act : Action) (meta : Metadata)
          → (h : Audited Unit a s (write_audit a act page.id s.next_version meta stored)) × (h.new
              ≢ [])
      logged act meta = written-new Unit s stored act page.id s.next_version meta refl

  pub deploy_locked-Logs :
      (s : Store) (page : PageRow) (p : Prepared) (only : ℕ)
      → Ensures (Logs (FindsSettled s page p only) a s) (deploy_locked s page p a only)
  unfolding deploy_locked
  deploy_locked-Logs s page p only =
      after_check (assert_expected_version page p.expected_version) _ λ _.
        let q = store_version s page p a only in
        let (stored, settled) = store_version-Audited s page p only in
        Ensures-bind (publish_version q.2 page p a q.0) _ (publish_version-Logs q.2 page p q.0)
          λ w rest. returns (Audited-then stored rest (λ _. tt) settled)
