-- ===== src/Versions/Invariant/Steps.antt =====
-- The invariant of the tables over whole transactions and histories.
use pages.Common.{
  All, All-map, Bool, Bool-cases, List, Option-cases, Text, [], ap, arith, false, inl, inr, none,
  refl, some, text_eq_iff, true, ℕ, ◌∙◌, ◌∷◌, ◌≡◌,
}
use pages.Common.Rows.{find-lt, key_unique, some_inj}
use pages.Common.Table.{Below, find}
use pages.Versions.Args.{Result}
use pages.Versions.Invariant.Slugs.{restore-UniqueSlugs}
use pages.Versions.Invariant.Writes.{
  Inv, IsTidy, creates-Inv, deletes-Inv, points-Inv, settings-Inv, stamps-Inv, stores-Inv,
  update_page-Inv,
}
use pages.Versions.Lifecycle.{last_deleted, restore_row}
use pages.Versions.Prepare.{Platform}
use pages.Versions.Spec.Invert.{Ensures, fails, returns}
use pages.Versions.Spec.Refine.{run-Trace}
use pages.Versions.Spec.Rules.{
  Trace, Write, creates, deletes, describes, done, flags, logs, next, points, restores, stamps,
  stores,
}
use pages.Versions.Step.{Op, commit, run, run_all, step}
use pages.Versions.Store.{
  Actor, PageRow, Store, first_by, live_page, update_page, where_rows, write_audit,
}
use mathlib.Core.Path.{subst}

-- The row of a key stays so under a row of a higher key.
find-under :
    {A : Type 0} (key : A → ℕ) (y : A) (ys : List A) (z : A)
    → Below key (key y) ys
    → find key (key z) ys ≡ some z
    → find key (key z) (y ∷ ys) ≡ some z
unfolding find
find-under key y ys z b at = let below = find-lt key (key y) (key z) ys z b at in ground (arith, at)

-- A row that an ordered query answers is the row of its key, and satisfies the `WHERE` clause.
first_by-found :
    {A : Type 0} (key : A → ℕ) (newer : A → A → Bool) (p : A → Bool) (n : ℕ) (xs : List A) (x : A)
    → Below key n xs
    → first_by newer (where_rows p xs) ≡ some x
    → (find key (key x) xs ≡ some x) × (p x ≡ true)
unfolding first_by where_rows find
first_by-found key newer p n [] x b h = cc
first_by-found key newer p n (y ∷ ys) x b h =
    let rec = first_by-found key newer p (key y) ys x b.1 in
    elim (Bool-cases (p y)) [
      | inl hit ↦ elim (Option-cases (first_by newer (where_rows p ys))) [
        | inl nothing ↦
            let e : y ≡ x = some_inj (rw (hit, nothing) at h) in
            (ground (arith, e), subst (λ w. p w ≡ true) e hit)
        | inr (z, later) ↦ elim (Bool-cases (newer z y)) [
          | inl yes_newer ↦
              let (at, holds) = rec (later ∙ (rw (hit, later, yes_newer) at h)) in
              (find-under key y ys x b.1 at, holds)
          | inr no_newer ↦
              let e : y ≡ x = some_inj (rw (hit, later, no_newer) at h) in
              (ground (arith, e), subst (λ w. p w ≡ true) e hit)
        ]
      ]
      | inr miss ↦ let (at, holds) = rec (rw miss at h) in (find-under key y ys x b.1 at, holds)
    ]

true≢false : true ≡ false → ⊥
true≢false e = cc

pub restores-Inv :
    (s : Store) (slug : Text) (page : PageRow)
    → live_page slug s ≡ none
    → last_deleted slug s ≡ some page
    → Inv s
    → Inv (update_page page.id (restore_row s.now) s)
unfolding live_page last_deleted
restores-Inv s slug page free found i =
    let (at, holds) =
      first_by-found (λ (p : PageRow). p.id) _ _ s.next_page s.pages page i.page_ids found in
    let one = key_unique (λ p. p.id) s.next_page page.id s.pages page i.page_ids at in
    let named : page.slug ≡ slug = (text_eq_iff page.slug slug).0 (ground arith) in
    let slugs : All (λ q. q.id ≡ page.id → q.slug ≡ slug) s.pages =
      All-map s.pages (λ q k e. ap (λ (r : PageRow). r.slug) (k e) ∙ named) one in
    update_page-Inv s page.id (restore_row s.now) IsTidy i.unpublished (λ p. refl)
      (restore-UniqueSlugs s.now page.id slug s.next_page s.pages i.page_ids slugs free i.slugs)
      (λ p _ h _. h) (λ p _ _ _ dead. absurd (true≢false dead)) i

-- A permitted statement keeps the invariant.
pub Write-Inv : {a : Actor} {s t : Store} → Write a s t → Inv s → Inv t
unfolding write_audit
Write-Inv (logs act page version meta) i = record {
  version_ids = i.version_ids;
  page_ids = i.page_ids;
  pointers = i.pointers;
  slugs = i.slugs;
  unpublished = i.unpublished;
}
Write-Inv (describes id f k _) i = settings-Inv _ id f k i
Write-Inv (flags id f k _) i = settings-Inv _ id f k i
Write-Inv (points page id v live found belongs ready _) i =
    points-Inv _ page id v live found belongs ready i
Write-Inv (deletes page _ _) i = deletes-Inv _ page.id i
Write-Inv (restores slug page free found _) i = restores-Inv _ slug page free found i
Write-Inv (creates slug title client workspace gate free) i =
    creates-Inv _ slug title client workspace gate free i
Write-Inv (stores page row _ _ _) i = stores-Inv _ row i
Write-Inv (stamps page id v f _ found _ k moves) i = stamps-Inv _ page id v f found k moves i

pub Trace-Inv : {a : Actor} {s t : Store} → Trace a s t → Inv s → Inv t
Trace-Inv done i = i
Trace-Inv (next r w) i = Write-Inv w (Trace-Inv r i)

pub at_time-Inv : (s : Store) (now : ℕ) → Inv s → Inv (record s { now = now })
at_time-Inv s now i = record {
  version_ids = i.version_ids;
  page_ids = i.page_ids;
  pointers = i.pointers;
  slugs = i.slugs;
  unpublished = i.unpublished;
}

commit-Inv :
    {a : Actor} (s : Store) (r : Result Store) → Ensures (Trace a s) r → Inv s → Inv (commit s r)
commit-Inv s r (returns h) i = Trace-Inv h i
commit-Inv s r fails i = i

-- An operation keeps the invariant, whether it succeeds or fails.
pub step-Inv : (env : Platform) (c : ℕ × Actor × Op) (s : Store) → Inv s → Inv (step env c s)
unfolding step
step-Inv env (now, a, op) s i =
    let at_now = at_time-Inv s now i in
    let t = record s { now = now } in
    commit-Inv t (run env a op t) (run-Trace env a op t at_now.version_ids) at_now

-- From any state of the tables that satisfies the invariant, every history leads to one that does.
pub run_all-Inv :
    (env : Platform) (cs : List (ℕ × Actor × Op)) (s : Store) → Inv s → Inv (run_all env cs s)
unfolding run_all
run_all-Inv env [] s i = i
run_all-Inv env (c ∷ cs) s i = run_all-Inv env cs (step env c s) (step-Inv env c s i)
