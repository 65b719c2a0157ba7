-- ===== src/Versions/Safety/Rows.antt =====
-- How one permitted statement touches the row of one page, and induction over statements.
use pages.Common.{arith, some, sym, ℕ, ◌∙◌, ◌≡◌}
use pages.Common.Rows.{find-lt, find-modify_ne, find-modify_self, select-find}
use pages.Common.Table.{find, modify}
use pages.Versions.Args.{Result}
use pages.Versions.Invariant.Slugs.{holds_slug}
use pages.Versions.Invariant.Steps.{Trace-Inv, at_time-Inv}
use pages.Versions.Invariant.Writes.{Inv}
use pages.Versions.Prepare.{Platform}
use pages.Versions.Spec.Invert.{Ensures, fails, returns}
use pages.Versions.Spec.Refine.{run-Trace}
use pages.Versions.Spec.Rules.{IsLive, Trace, Write, done, next}
use pages.Versions.Step.{Op, commit, run, step}
use pages.Versions.Store.{Actor, PageRow, Store, find_page, insert_page, live_page, update_page}
use mathlib.Core.Path.{subst}
use native.Mathlib.Decide.{ℕ_discrete}

-- The page of an id is there, and satisfies `R`.
abbrev pub Has : (PageRow → Type 0) → ℕ → Store → Type 0
Has R id t = (q : PageRow) × (find_page id t ≡ some q) × R q

pub update_page-Has :
    (R : PageRow → Type 0) (id j : ℕ) (f : PageRow → PageRow) (s : Store)
    → ((p : PageRow) → (f p).id ≡ p.id)
    → ((q : PageRow) → find_page id s ≡ some q → j ≡ id → R q → R (f q))
    → Has R id s
    → Has R id (update_page j f s)
unfolding find_page update_page
update_page-Has R id j f s keeps change (q, at, h) = elim (ℕ_discrete j id) [
  | yes same ↦ (
    f q,
    (subst (λ k. find (λ p. p.id) id (modify (λ p. p.id) k f s.pages) ≡ some (f q)) (sym same)
        (find-modify_self (λ p. p.id) f keeps id s.pages q at)),
    change q at same h,
  )
  | no differs ↦ (q, find-modify_ne (λ p. p.id) f keeps id j s.pages (λ e. differs (sym e)) ∙ at, h)
]

-- A live page is the row of its id.
pub IsLive-find_page :
    (s : Store) (page : PageRow) → Inv s → IsLive page s → find_page page.id s ≡ some page
unfolding live_page find_page
IsLive-find_page s page i (slug, live) =
    select-find (λ p. p.id) (holds_slug slug) s.next_page s.pages page i.page_ids live

pub insert_page-Has :
    (R : PageRow → Type 0) (id : ℕ) (row : PageRow) (s : Store)
    → Inv s
    → Has R id s
    → Has R id (insert_page row s).1
unfolding find_page insert_page find
insert_page-Has R id row s i (q, at, h) =
    let below = find-lt (λ p. p.id) s.next_page id s.pages q i.page_ids at in
    (q, ground (arith, at), h)

-- What every permitted statement keeps is kept by an operation.
pub step_induction :
    (P : Store → Type 0) (env : Platform) (now : ℕ) (a : Actor) (op : Op) (s : Store)
    → ((t u : Store) → Inv t → Write a t u → P t → P u)
    → Inv s
    → P (record s { now = now })
    → P (step env (now, a, op) s)
unfolding step
step_induction P env now a op s keeps i start =
    commits (run env a op at_now) (run-Trace env a op at_now (at_time-Inv s now i).version_ids)
  where
    at_now : Store
    at_now = record s { now = now }

    traces : (u : Store) → Trace a at_now u → P u
    traces u done = start
    traces u (next {t} r w) = keeps t u (Trace-Inv r (at_time-Inv s now i)) w (traces t r)

    commits : (r : Result Store) → Ensures (Trace a at_now) r → P (commit at_now r)
    commits r (returns h) = traces _ h
    commits r fails = start
