-- ===== src/Cron/Values.antt =====
-- internal/cron/cron.go: the values of a field's items and the bounds of a parsed schedule.
use pages.Common.{
  ==_iff, All, Bool, Bool-cases, List, arith, false, inl, inr, leb, leb→gt, leb→le, refl, suc, true,
  zero, ℕ, ◌*◌, ◌+◌, ◌<◌, ◌==◌, ◌||◌, ◌↔◌, ◌≡◌, ◌≤◌, ◌⊎◌,
}
use pages.Cron.Parse.{Failure, Field, Parsed, failed, parsed, stepped, ◌>>=◌}
use pages.Cron.Schedule.{has_bit}

-- In bounds, as `fields` lists them.
abbrev pub InField : Field → List ℕ → Type 0
InField f = All (λ v. (f.low ≤ v) × (v ≤ f.high))

step_more : (k step : ℕ) → suc k * step ≡ step + k * step
step_more k step = omega arith

no_steps : (step : ℕ) → 0 * step ≡ 0
no_steps step = omega arith

or_true : (b : Bool) → (b || true) ≡ true
or_true true = refl
or_true false = refl

-- The loop of an item sets exactly the bits from `v` to `hi` in steps of `step`, however the steps
-- fall; a round for each value is enough.
pub stepped_iff :
    (n v hi step x : ℕ)
    → hi < v + n
    → 1 ≤ step
    → (has_bit x (stepped n v hi step) ≡ true) ↔ ((k : ℕ) × (x ≡ v + k * step) × (x ≤ hi))
unfolding stepped has_bit
stepped_iff zero v hi step x h p = (λ e. cc, λ (k, e, l). absurd (omega arith))
stepped_iff (suc n) v hi step x h p =
    let more = stepped_iff n (v + step) hi step x (omega arith) p in
    elim (Bool-cases (leb v hi)) [
      | inl e ↦ rw e (
        λ b. elim (Bool-cases (x == v)) [
          | inl same ↦
              let here = (==_iff x v).0 same in
              let low = leb→le v hi e in let nil = no_steps step in (0, omega arith, omega arith)
          | inr other ↦
              let (k, q, l) = more.0 (rw other at b) in
              let one = step_more k step in (suc k, omega arith, l)
        ],
        λ (k, q, l). placed k q l more.1,
      )
      | inr e ↦ rw e (λ no. cc, λ (k, q, l). let o = leb→gt v hi e in absurd (omega arith))
    ]
  where
    placed :
        (k : ℕ)
        → x ≡ v + k * step
        → x ≤ hi
        → ((j : ℕ) × (x ≡ v + step + j * step) × (x ≤ hi)
            → has_bit x (stepped n (v + step) hi step) ≡ true)
        → (x == v || has_bit x (stepped n (v + step) hi step)) ≡ true
    placed zero q l more = let nil = no_steps step in rw ((==_iff x v).1 (omega arith)) refl
    placed (suc k) q l more =
        let one = step_more k step in rw (more (k, omega arith, l)) (or_true (x == v))

pub stepped-InField :
    (f : Field) (n v hi step : ℕ) → f.low ≤ v → hi ≤ f.high → InField f (stepped n v hi step)
unfolding stepped
stepped-InField f zero v hi step a b = tt
stepped-InField f (suc n) v hi step a b = elim (Bool-cases (leb v hi)) [
  | inl e ↦ rw e (
    (a, (let l = leb→le v hi e in omega arith)),
    stepped-InField f n (v + step) hi step (omega arith) b,
  )
  | inr e ↦ rw e tt
]

pub parsed_inj : {A : Type 0} {x y : A} → parsed x ≡ parsed y → x ≡ y
parsed_inj e = cc

-- What a step of the parser that succeeded has returned.
pub >>=-parsed :
    {A B : Type 0} (m : Parsed A) (k : A → Parsed B) (y : B)
    → (m >>= k) ≡ parsed y
    → (x : A) × (m ≡ parsed x) × (k x ≡ parsed y)
>>=-parsed (parsed x) k y e = (x, refl, e)
>>=-parsed (failed r) k y e = cc

pub Parsed-cases :
    {A : Type 0} (m : Parsed A) → ((x : A) × (m ≡ parsed x)) ⊎ ((r : Failure) × (m ≡ failed r))
Parsed-cases (parsed x) = inl (x, refl)
Parsed-cases (failed r) = inr (r, refl)
