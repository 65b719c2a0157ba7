-- ===== src/Refresh/Alarms.antt =====
-- internal/versions/refreshhealth.go: what a verdict says of the fires of the schedule, and how it
-- agrees with the freshness block.
use pages.Common.{
  Bool, Bool-cases, Option, Text, [], arith, false, inl, inr, ltb, ltb→lt, none, not, refl, some,
  sym, text_eq, text_eq_iff, true, ℕ, ◌&&◌, ◌*◌, ◌+◌, ◌/◌, ◌<◌, ◌↔◌, ◌∙◌, ◌≡◌, ◌≤◌, ◌⊎◌,
}
use pages.Common.Rows.{some_inj}
use pages.Cron.Parse.{Failure, failed, parse, parsed}
use pages.Cron.Schedule.{Calendar, Schedule, matches, search_days}
use pages.Cron.Values.{Parsed-cases}
use pages.Refresh.Fires.{covers-false, covers-true, prev_ago-fire, prev_ago-reaches}
use pages.Refresh.Freshness.{
  Freshness, FreshnessInput, Stamp, after, day_ms, freshness_of, is_zero, refresh_is_latest,
  source_stamp, str_ptr,
}
use pages.Refresh.Health.{
  Gaps, Health, HealthInput, blocked, covers, healthy, is_failed_outcome, latest, minute_ms,
  overdue, refresh_early, refresh_grace, unscheduled,
}
use pages.Refresh.Precedence.{
  FailedCheck, Rule, Unanswered, by_age, by_check, by_fire, by_gap, by_none, judge-Rule,
}
use pages.Refresh.Rules.{Late}
use pages.Refresh.Verdict.{health_of, judge, judged, last_activity, last_refresh, not_judged}
use mathlib.Core.Path.{subst}

-- A freshness block is there, with this latest outcome.
abbrev pub Says : Option Freshness → Option Text → Type 0
Says none outcome = ⊥
Says (some f) outcome = f.latest_outcome ≡ outcome

module _ {Gap : Type 0} (reader : Gaps Gap) (cal : Calendar) (s : Schedule) where
  Rule-Unanswered :
      (input : HealthInput Gap) (now : ℕ)
      → Rule reader cal s input now overdue
      → Unanswered reader cal s input now
  Rule-Unanswered input now (by_fire c u) = u

  Rule-healthy :
      (input : HealthInput Gap) (now : ℕ)
      → Rule reader cal s input now healthy
      → Unanswered reader cal s input now
      → ⊥
  Rule-healthy input now (by_none c f a g) = f

  Rule-FailedCheck :
      (input : HealthInput Gap) (now : ℕ)
      → Rule reader cal s input now blocked
      → FailedCheck reader cal s input
  Rule-FailedCheck input now (by_check c) = c

  -- A verdict of overdue is never a false alarm: there is a fire at least the grace old that comes
  -- after all activity and, on a page without any, after its creation.
  pub overdue-fire :
      (input : HealthInput Gap) (now : ℕ)
      → (judge reader cal s input now).verdict ≡ overdue
      → (u : ℕ) × (matches cal s u ≡ true)
        × (u * minute_ms + refresh_grace ≤ now)
        × ((a : ℕ) → last_activity reader cal input ≡ some a → a < u * minute_ms)
        × (last_activity reader cal input ≡ none
            → (c : ℕ) × (input.created_at ≡ some c) × (c < u * minute_ms))
  overdue-fire input now e =
      let (due, q, late) =
        Rule-Unanswered input now
          (subst (Rule reader cal s input now) e (judge-Rule reader cal s input now)) in
      let (u, at, fires, old, quiet) = prev_ago-fire cal s refresh_grace now due q in
      (u, fires, omega arith, before u due at late, created u due at late)
    where
      before :
          (u due : ℕ)
          → due ≡ u * minute_ms
          → Late cal s input.created_at (last_activity reader cal input) due
          → (a : ℕ) → last_activity reader cal input ≡ some a
          → a < u * minute_ms
      before u due at (inl (b, r, c)) a k =
          let same : a ≡ b = some_inj (sym k ∙ r) in
          let l = covers-false cal s b due c in omega arith
      before u due at (inr (r, c)) a k = let no : some a ≡ none = sym k ∙ r in cc

      created :
          (u due : ℕ)
          → due ≡ u * minute_ms
          → Late cal s input.created_at (last_activity reader cal input) due
          → last_activity reader cal input ≡ none
          → (c : ℕ) × (input.created_at ≡ some c) × (c < u * minute_ms)
      created u due at (inl (b, r, c)) k = let no : some b ≡ none = sym r ∙ k in cc
      created u due at (inr (r, (c, f, l))) k = (c, f, omega arith)

  -- A verdict of ok on a page with activity misses no alarm: the latest activity comes at most an hour
  -- before, or after, every fire of the last eight years that is at least the grace old.
  pub healthy-answered :
      (input : HealthInput Gap) (now a w : ℕ)
      → (judge reader cal s input now).verdict ≡ healthy
      → last_activity reader cal input ≡ some a
      → matches cal s w ≡ true
      → w * minute_ms + refresh_grace ≤ now
      → now / day_ms < w / 1440 + search_days
      → w * minute_ms ≤ a + refresh_early
  healthy-answered input now a w e k fires old near =
      let (u, q, low) = prev_ago-reaches cal s refresh_grace now w fires old near in
      let none_late =
        Rule-healthy input now
          (subst (Rule reader cal s input now) e (judge-Rule reader cal s input now)) in
      elim (Bool-cases (covers cal s (some a) (u * minute_ms))) [
        | inl c ↦ let l = covers-true cal s a (u * minute_ms) c in omega arith
        | inr c ↦ absurd (none_late (u * minute_ms, q, inl (a, k, c)))
      ]

module _ {Gap : Type 0} (reader : Gaps Gap) (cal : Calendar) where
  -- The stamps of the freshness block of the same page.
  abbrev pub fresh_input : HealthInput Gap → Stamp → FreshnessInput
  fresh_input input check_source = record {
    source_as_of = input.source_as_of;
    refreshed_at = input.refreshed_at;
    last_check_at = input.last_check_at;
    last_check_outcome = input.last_check_outcome;
    last_check_detail = input.last_check_detail;
    last_check_source_as_of = check_source;
  }

  -- No refresh of the published version is after a time when none at all is.
  latest-after :
      (refreshed newest : Stamp) (check : ℕ)
      → after (latest refreshed newest) (some check) ≡ false
      → after refreshed (some check) ≡ false
  unfolding latest
  latest-after none newest check e = refl
  latest-after (some r) none check e = e
  latest-after (some r) (some n) check e = elim (Bool-cases (ltb r n)) [
    | inl k ↦ let l = ltb→lt r n k in let m : ltb check n ≡ false = rw k at e in ground arith
    | inr k ↦ rw k at e
  ]

  not_all_zero : (a b : Bool) → (a && b && false) ≡ false
  not_all_zero true true = refl
  not_all_zero true false = refl
  not_all_zero false b = refl

  not-Latest : (b : Bool) → (not b && false) ≡ false
  not-Latest true = refl
  not-Latest false = refl

  freshness_of-Says :
      (input : FreshnessInput) (now check : ℕ)
      → input.last_check_at ≡ some check
      → after input.refreshed_at (some check) ≡ false
      → Says (freshness_of input now) (str_ptr input.last_check_outcome)
  unfolding freshness_of refresh_is_latest
  freshness_of-Says input now check at quiet =
      let stale : refresh_is_latest input.last_check_at input.refreshed_at ≡ false =
        rw (at, quiet) (not-Latest (is_zero input.refreshed_at)) in
      let there : (is_zero (source_stamp input.source_as_of)
            && is_zero input.refreshed_at
            && is_zero input.last_check_at)
          ≡ false =
        rw at
          (not_all_zero (is_zero (source_stamp input.source_as_of)) (is_zero input.refreshed_at)) in
      rw (there, stale) refl

  -- A page that is blocked says so in its freshness block too: there is one, and its latest outcome is
  -- that of the failed check, not "updated".
  pub blocked-Says :
      (s : Schedule) (input : HealthInput Gap) (check_source : Stamp) (now : ℕ)
      → (judge reader cal s input now).verdict ≡ blocked
      → Says (freshness_of (fresh_input input check_source) now) (str_ptr input.last_check_outcome)
        × (is_failed_outcome input.last_check_outcome ≡ true)
  unfolding last_refresh
  blocked-Says s input check_source now e =
      let (check, at, last, failure) =
        Rule-FailedCheck reader cal s input now
          (subst (Rule reader cal s input now) e (judge-Rule reader cal s input now)) in
      let quiet = latest-after input.refreshed_at input.newest_refresh_at check last in
      (freshness_of-Says (fresh_input input check_source) now check at quiet, failure)

  -- A verdict of a page that is judged.
  abbrev Judged : Health → Type 0
  Judged unscheduled = ⊥
  Judged _ = Unit

  Rule-Judged :
      (s : Schedule) (input : HealthInput Gap) (now : ℕ) (h : Health)
      → Rule reader cal s input now h
      → Judged h
  Rule-Judged s input now _ (by_check c) = tt
  Rule-Judged s input now _ (by_fire c f) = tt
  Rule-Judged s input now _ (by_age c f a) = tt
  Rule-Judged s input now _ (by_gap c f a g) = tt
  Rule-Judged s input now _ (by_none c f a g) = tt

  -- `health_of` gives no verdict exactly when there is no schedule or the stored one does not parse.
  pub health_of-unscheduled_iff :
      (start : ℕ) (input : HealthInput Gap) (now : ℕ)
      → ((health_of reader cal start input now).health ≡ unscheduled)
        ↔ ((input.schedule ≡ []) ⊎ ((e : Failure) × (parse cal start input.schedule ≡ failed e)))
  unfolding health_of not_judged judged
  health_of-unscheduled_iff start input now = elim (Bool-cases (text_eq input.schedule [])) [
    | inl e ↦ rw e (λ x. inl ((text_eq_iff input.schedule []).0 e), λ x. refl)
    | inr e ↦ elim (Parsed-cases (parse cal start input.schedule)) [
      | inr (f, p) ↦ rw (e, p) (λ x. inr (f, refl), λ x. refl)
      | inl (s, p) ↦ rw (e, p) (λ x. absurd (never s x), λ x. absurd (neither s e x))
    ]
  ]
    where
      never : (s : Schedule) → (judged reader cal s input now).health ≡ unscheduled → ⊥
      never s x = subst Judged x (
          Rule-Judged s input now (judge reader cal s input now).verdict
            (judge-Rule reader cal s input now))

      neither :
          (s : Schedule)
          → text_eq input.schedule [] ≡ false
          → (input.schedule ≡ []) ⊎ ((f : Failure) × (parsed s ≡ failed f))
          → ⊥
      neither s e (inl q) =
          let no : true ≡ false = sym ((text_eq_iff input.schedule []).1 q) ∙ e in cc
      neither s e (inr (f, q)) = cc
