-- ===== src/Refresh/Rules.antt =====
-- internal/versions/refreshhealth.go: what each rule of `HealthOf` finds, and when.
use pages.Common.{
  Bool, List, Option, Text, [], ap, arith, false, if◌then◌else◌, inl, inr, ltb, ltb→lt, lt→ltb,
  none, not, refl, some, sym, true, ℕ, ◌&&◌, ◌+◌, ◌-◌, ◌<◌, ◌∙◌, ◌∷◌, ◌≡◌, ◌≢◌, ◌⊎◌,
}
use pages.Common.Rows.{some_inj}
use pages.Cron.Schedule.{Calendar, Schedule}
use pages.Jsstr.{trim}
use pages.Refresh.Freshness.{Stamp, after}
use pages.Refresh.Health.{
  Gaps, Health, blocked, coverage_gap, covers, expected_never, expected_since, first_missed,
  is_failed_outcome, next_at, no_later, no_source, not_advanced, overdue, refresh_stale_slack,
  source_stale,
}
use pages.Refresh.Verdict.{
  Found, check_reason, find_blocked, find_gap, find_overdue, find_stale, ◌orelse◌,
}
use mathlib.Core.Path.{subst}

-- What a rule finds, and what it means that it finds nothing.
abbrev pub Finds : Option Found → Health → Type 0 → Type 0
Finds none h P = P → ⊥
Finds (some found) h P = (found.verdict ≡ h) × P

-- A rule that tests a condition.
Finds-if :
    (b : Bool) (found : Found) (h : Health) (P : Type 0)
    → found.verdict ≡ h
    → (b ≡ true → P)
    → (P → b ≡ true)
    → Finds (if b then some found else none) h P
Finds-if true found h P e f g = (e, f refl)
Finds-if false found h P e f g = λ p. let no : false ≡ true = g p in cc

both_true : (a b : Bool) → (a && b) ≡ true → (a ≡ true) × (b ≡ true)
both_true true true e = (refl, refl)
both_true true false e = cc
both_true false b e = cc

not-true : (b : Bool) → not b ≡ true → b ≡ false
not-true false e = refl
not-true true e = cc

pub blocked-Finds :
    (outcome detail : Text) (refresh check : Stamp)
    → Finds (find_blocked outcome detail refresh check) blocked (
        (t : ℕ) × (check ≡ some t)
        × (after refresh (some t) ≡ false)
        × (is_failed_outcome outcome ≡ true))
unfolding find_blocked
blocked-Finds outcome detail refresh none = λ (t, q, r, f). cc
blocked-Finds outcome detail refresh (some c) =
    Finds-if (not (after refresh (some c)) && is_failed_outcome outcome)
      (record { verdict = blocked; why = check_reason (trim detail) outcome c; since = some c })
      blocked
      ((t : ℕ) × (some c ≡ some t)
        × (after refresh (some t) ≡ false)
        × (is_failed_outcome outcome ≡ true))
      refl
      (λ e.
        let (a, k) = both_true (not (after refresh (some c))) (is_failed_outcome outcome) e in
        (c, refl, not-true (after refresh (some c)) a, k))
      (λ (t, q, r, f).
        let same : after refresh (some c) ≡ false = ap (λ x. after refresh x) q ∙ r in
        rw (same, f) refl)

-- A fire that the activity does not answer, or that a page without activity has seen pass.
abbrev pub Late : Calendar → Schedule → Stamp → Stamp → ℕ → Type 0
Late cal s created activity fire =
    ((a : ℕ) × (activity ≡ some a) × (covers cal s (some a) fire ≡ false))
    ⊎ ((activity ≡ none) × ((c : ℕ) × (created ≡ some c) × (c < fire)))

some-none : {a : ℕ} → some a ≡ none → ⊥
some-none e = cc

not-Late :
    (cal : Calendar) (s : Schedule) (a due : ℕ) (created : Stamp)
    → (fire : ℕ) × (some due ≡ some fire) × Late cal s created (some a) fire
    → not (covers cal s (some a) due) ≡ true
not-Late cal s a due created (fire, q, inl (b, r, e)) =
    ap not (ap (λ x. covers cal s (some a) x) (some_inj q) ∙ ap (λ x. covers cal s x fire) r ∙ e)
not-Late cal s a due created (fire, q, inr (r, c)) = absurd (some-none r)

not_created :
    (cal : Calendar) (s : Schedule) (due : ℕ) (created : Stamp)
    → (fire : ℕ) × (some due ≡ some fire) × Late cal s created none fire
    → (c : ℕ) × (created ≡ some c) × (c < due)
not_created cal s due created (fire, q, inl (b, r, e)) = absurd (some-none (sym r))
not_created cal s due created (fire, q, inr (r, (c, e, l))) =
    let same : due ≡ fire = some_inj q in (c, e, omega arith)

pub overdue-Finds :
    (cal : Calendar) (s : Schedule) (created activity due : Stamp)
    → Finds
        (find_overdue cal s created activity due)
        overdue
        ((fire : ℕ) × (due ≡ some fire) × Late cal s created activity fire)
unfolding find_overdue
overdue-Finds cal s created activity none = λ (fire, q, r). cc
overdue-Finds cal s created (some a) (some due) =
    Finds-if (not (covers cal s (some a) due))
      (record {
        verdict = overdue;
        why = expected_since due a;
        since = some (first_missed cal s a due);
      })
      overdue ((fire : ℕ) × (some due ≡ some fire) × Late cal s created (some a) fire) refl
      (λ e. (due, refl, inl (a, refl, not-true (covers cal s (some a) due) e)))
      (not-Late cal s a due created)
overdue-Finds cal s none none (some due) =
    λ p. let (c, e, l) = not_created cal s due none p in some-none (sym e)
overdue-Finds cal s (some c) none (some due) =
    Finds-if (ltb c due)
      (record {
        verdict = overdue;
        why = expected_never due;
        since = some (no_later (next_at cal s c) due);
      })
      overdue ((fire : ℕ) × (some due ≡ some fire) × Late cal s (some c) none fire) refl
      (λ e. (due, refl, inr (refl, (c, refl, ltb→lt c due e))))
      (λ p.
        let (b, e, l) = not_created cal s due (some c) p in
        let same : c ≡ b = some_inj e in lt→ltb c due (omega arith))

pub stale-Finds :
    (waiting : Bool) (since activity : Stamp) (gap now : ℕ)
    → Finds
        (find_stale waiting since activity gap now)
        source_stale
        ((t : ℕ) × (since ≡ some t) × (0 < gap) × (gap + refresh_stale_slack < now - t))
unfolding find_stale
stale-Finds waiting none activity gap now = λ (t, q, r, f). cc
stale-Finds waiting (some t) activity gap now =
    Finds-if (ltb 0 gap && ltb (gap + refresh_stale_slack) (now - t))
      (record {
        verdict = source_stale;
        why = if waiting then no_source t activity else not_advanced t activity;
        since = some t;
      })
      source_stale ((u : ℕ) × (some t ≡ some u) × (0 < gap) × (gap + refresh_stale_slack < now - u))
      refl
      (λ e.
        let (a, k) = both_true (ltb 0 gap) (ltb (gap + refresh_stale_slack) (now - t)) e in
        (t, refl, ltb→lt 0 gap a, ltb→lt (gap + refresh_stale_slack) (now - t) k))
      (λ (u, q, r, f).
        let same : t ≡ u = some_inj q in
        rw (lt→ltb 0 gap r, lt→ltb (gap + refresh_stale_slack) (now - t) (omega arith)) refl)

pub gap-Finds :
    {Gap : Type 0} (reader : Gaps Gap) (gaps : List Gap)
    → Finds (find_gap reader gaps) coverage_gap (gaps ≢ [])
unfolding find_gap
gap-Finds reader [] = λ p. p refl
gap-Finds reader (g ∷ gs) = (refl, λ e. cc)

-- The first rule that finds something, or else the rest.
pub first_of :
    (o : Option Found) (more : Found) (h : Health) (P : Type 0) (R : Health → Type 0)
    → Finds o h P
    → (P → R h)
    → ((P → ⊥) → R more.verdict)
    → R ((o orelse more).verdict)
first_of none more h P R f g k = k f
first_of (some found) more h P R f g k = subst R (sym f.0) (g f.1)
