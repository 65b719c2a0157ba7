-- ===== src/Gate/Delay.antt =====
-- internal/passwordgate/passwordgate.go: the counters of failed attempts and the delay they cause.
-- Times are milliseconds.
use pages.Common.{
  Bool-cases, List, Option, [], ap, arith, false, if◌then◌else◌, inl, inr, ltb, ltb→lt, min, none,
  refl, some, suc, ℕ, ◌*◌, ◌+◌, ◌-◌, ◌==◌, ◌^◌, ◌∷◌, ◌≡◌, ◌≤◌,
}
use native.Mathlib.Nat.{pow-le-pow_right}

abbrev pub failure_window : ℕ
failure_window = 15 * 60000

abbrev pub base_delay : ℕ
base_delay = 500

abbrev pub max_delay : ℕ
max_delay = 8000

-- `DelayForFailures`, of a count that is not negative; a shift is a product with a power of two.
unfoldable pub delay_for_failures : ℕ → ℕ
delay_for_failures failures =
    if failures == 0
    then 0
    else (if ltb 5 failures then max_delay else min max_delay (base_delay * 2 ^ (failures - 1)))

-- A row of `page_password_failures` or `portal_password_failures`.
pub record Failures : Type 0 where
  pub fail_count : ℕ
  pub window_start : ℕ
  pub last_fail_at : ℕ

-- `recordSQL`, on the row of its key.
unfoldable pub record_failure : ℕ → Option Failures → Failures
record_failure now none = record { fail_count = 1; window_start = now; last_fail_at = now }
record_failure now (some row) =
    if ltb (row.last_fail_at + failure_window) now
    then record { fail_count = 1; window_start = now; last_fail_at = now }
    else record {
      fail_count = row.fail_count + 1;
      window_start = row.window_start;
      last_fail_at = now;
    }

-- `record`: the row, and the delay of the answer.
unfoldable pub record_attempt : ℕ → Option Failures → Failures × ℕ
unfolding record_failure delay_for_failures
record_attempt now row =
    let counted = record_failure now row in (counted, delay_for_failures counted.fail_count)

-- The delays of failures at the times listed, after those of the row.
unfoldable pub delays : List ℕ → Option Failures → List ℕ
unfolding record_attempt
delays [] row = []
delays (now ∷ times) row =
    let (counted, delay) = record_attempt now row in delay ∷ delays times (some counted)

-- Each time is at most the window after the one before.
abbrev pub Close : ℕ → List ℕ → Type 0
Close last [] = Unit
Close last (now ∷ times) = (now ≤ last + failure_window) × Close now times

-- The delays of the curve, from the failure `n`.
abbrev pub curve : ℕ → List ℕ → List ℕ
curve n [] = []
curve n (now ∷ times) = min 8000 (500 * 2 ^ n) ∷ curve (suc n) times

pub delay_for_failures-suc : (n : ℕ) → delay_for_failures (suc n) ≡ min 8000 (500 * 2 ^ n)
unfolding delay_for_failures
delay_for_failures-suc n =
    let same : suc n - 1 ≡ n = omega arith in
    let failure : (suc n == 0) ≡ false = ground arith in
    elim (Bool-cases (ltb 5 (suc n))) [
      | inl e ↦
          let many = ltb→lt 5 (suc n) e in
          let wide : 2 ^ 5 ≤ 2 ^ n =
            pow-le-pow_right {n = 2} (omega arith) {i = 5} {j = n} (omega arith) in
          rw (failure, e) (omega arith)
      | inr e ↦ rw (failure, e, same) refl
    ]

delays-row :
    (times : List ℕ) (row : Failures)
    → Close row.last_fail_at times
    → delays times (some row) ≡ curve row.fail_count times
unfolding delays record_attempt record_failure
delays-row [] row h = refl
delays-row (now ∷ times) row h =
    let near = h.0 in
    let same : row.fail_count + 1 ≡ suc row.fail_count = omega arith in
    let kept : ltb (row.last_fail_at + failure_window) now ≡ false = ground arith in
    let next_row : Failures = record {
      fail_count = suc row.fail_count;
      window_start = row.window_start;
      last_fail_at = now;
    } in
    rw (kept, same, delay_for_failures-suc row.fail_count)
      (ap (◌∷◌ (min 8000 (500 * 2 ^ row.fail_count))) (delays-row times next_row h.1))

-- While the failures come at most fifteen minutes apart, the delay of the n-th is 500 milliseconds
-- doubled n - 1 times, and eight seconds at most.
pub delays-curve :
    (first : ℕ) (times : List ℕ)
    → Close first times
    → delays (first ∷ times) none ≡ curve 0 (first ∷ times)
unfolding delays record_attempt record_failure
delays-curve first times h =
    let row : Failures = record { fail_count = 1; window_start = first; last_fail_at = first } in
    ap (◌∷◌ 500) (delays-row times row h)
