-- ===== src/Cron/Search.antt =====
-- internal/cron/cron.go: what a search over an interval finds, and how the loops' intervals join.
use pages.Common.{
  Bool, Bool-cases, Option, ap, arith, false, if◌then◌else◌, inl, inr, leb, leb→le, ltb, ltb→lt,
  none, some, suc, sym, true, ℕ, ◌+◌, ◌-◌, ◌<◌, ◌∙◌, ◌≡◌, ◌≤◌,
}
use pages.Cron.Schedule.{or_else, shifted}

-- The last time from `lo` to before `hi` that passes, or that none does.
abbrev pub Latest : (ℕ → Bool) → ℕ → ℕ → Option ℕ → Type 0
Latest p lo hi none = (x : ℕ) → lo ≤ x → x < hi → p x ≡ false
Latest p lo hi (some u) =
    (lo ≤ u) × (u < hi) × (p u ≡ true) × ((x : ℕ) → u < x → x < hi → p x ≡ false)

-- The first time from `lo` to before `hi` that passes, or that none does.
abbrev pub Earliest : (ℕ → Bool) → ℕ → ℕ → Option ℕ → Type 0
Earliest p lo hi none = (x : ℕ) → lo ≤ x → x < hi → p x ≡ false
Earliest p lo hi (some u) =
    (lo ≤ u) × (u < hi) × (p u ≡ true) × ((x : ℕ) → lo ≤ x → x < u → p x ≡ false)

module _ (p : ℕ → Bool) where
  -- The same interval, written otherwise.
  pub Latest-at :
      (lo lo2 hi hi2 : ℕ) (o : Option ℕ)
      → lo ≡ lo2
      → hi ≡ hi2
      → Latest p lo hi o
      → Latest p lo2 hi2 o
  Latest-at lo lo2 hi hi2 o a b f = rw (sym a, sym b) f

  pub Earliest-at :
      (lo lo2 hi hi2 : ℕ) (o : Option ℕ)
      → lo ≡ lo2
      → hi ≡ hi2
      → Earliest p lo hi o
      → Earliest p lo2 hi2 o
  Earliest-at lo lo2 hi hi2 o a b f = rw (sym a, sym b) f

  pub Latest-empty : (lo hi : ℕ) → hi ≤ lo → Latest p lo hi none
  Latest-empty lo hi h x a b = absurd (omega arith)

  pub Latest-or_else :
      (lo mid hi : ℕ) (o o2 : Option ℕ)
      → lo ≤ mid
      → mid ≤ hi
      → Latest p mid hi o
      → Latest p lo mid o2
      → Latest p lo hi (or_else o o2)
  Latest-or_else lo mid hi (some u) o2 a b f g = (omega (arith, f.0), f.1, f.2, f.3)
  Latest-or_else lo mid hi none none a b f g = λ x h k. elim (Bool-cases (leb mid x)) [
    | inl e ↦ f x (leb→le mid x e) k
    | inr e ↦ g x h (ground arith)
  ]
  Latest-or_else lo mid hi none (some u) a b f g = (
    g.0,
    omega (arith, g.1),
    g.2,
    λ x h k. elim (Bool-cases (leb mid x)) [
      | inl e ↦ f x (leb→le mid x e) k
      | inr e ↦ g.3 x h (ground arith)
    ],
  )

  pub Earliest-or_else :
      (lo mid hi : ℕ) (o o2 : Option ℕ)
      → lo ≤ mid
      → mid ≤ hi
      → Earliest p lo mid o
      → Earliest p mid hi o2
      → Earliest p lo hi (or_else o o2)
  Earliest-or_else lo mid hi (some u) o2 a b f g = (f.0, omega (arith, f.1), f.2, f.3)
  Earliest-or_else lo mid hi none none a b f g = λ x h k. elim (Bool-cases (leb mid x)) [
    | inl e ↦ g x (leb→le mid x e) k
    | inr e ↦ f x h (ground arith)
  ]
  Earliest-or_else lo mid hi none (some u) a b f g = (
    omega (arith, g.0),
    g.1,
    g.2,
    λ x h k. elim (Bool-cases (leb mid x)) [
      | inl e ↦ g.3 x (leb→le mid x e) k
      | inr e ↦ f x h (ground arith)
    ],
  )

  -- One time more.
  pub Latest-one :
      (lo u hi : ℕ) (o : Option ℕ)
      → lo ≤ u
      → hi ≡ suc u
      → Latest p lo u o
      → Latest p lo hi (or_else (if p u then some u else none) o)
  Latest-one lo u hi o a b f =
      Latest-or_else lo u hi (if p u then some u else none) o a (omega arith) one f
    where
      one : Latest p u hi (if p u then some u else none)
      one = elim (Bool-cases (p u)) [
        | inl e ↦ rw e (omega arith, omega arith, e, λ x h k. absurd (omega arith))
        | inr e ↦ rw e (λ x h k. let here : x ≡ u = omega arith in ap p here ∙ e)
      ]

  pub Earliest-one :
      (u mid hi : ℕ) (o : Option ℕ)
      → mid ≡ suc u
      → mid ≤ hi
      → Earliest p mid hi o
      → Earliest p u hi (or_else (if p u then some u else none) o)
  Earliest-one u mid hi o a b f =
      Earliest-or_else u mid hi (if p u then some u else none) o (omega arith) b one f
    where
      one : Earliest p u mid (if p u then some u else none)
      one = elim (Bool-cases (p u)) [
        | inl e ↦ rw e (omega arith, omega arith, e, λ x h k. absurd (omega arith))
        | inr e ↦ rw e (λ x h k. let here : x ≡ u = omega arith in ap p here ∙ e)
      ]

  -- A search of shifted times.
  module _ (q : ℕ → Bool) (b m n : ℕ) (same : (x : ℕ) → x < n → p (b + x) ≡ q x) where
    -- At a time that is `b` later than one of them.
    at_shift : (x : ℕ) → b ≤ x → x < b + n → p x ≡ q (x - b)
    at_shift x h k =
        let y : b + (x - b) ≡ x = omega arith in ap p (sym y) ∙ same (x - b) (omega arith)

    pub Latest-shifted : (o : Option ℕ) → Latest q m n o → Latest p (b + m) (b + n) (shifted b o)
    Latest-shifted none f =
        λ x h k. at_shift x (omega arith) k ∙ f (x - b) (omega arith) (omega arith)
    Latest-shifted (some u) f = (
      omega (arith, f.0),
      omega (arith, f.1),
      same u f.1 ∙ f.2,
      λ x h k. at_shift x (omega arith) k ∙ f.3 (x - b) (omega arith) (omega arith),
    )

    pub Earliest-shifted :
        (o : Option ℕ) → Earliest q m n o → Earliest p (b + m) (b + n) (shifted b o)
    Earliest-shifted none f =
        λ x h k. at_shift x (omega arith) k ∙ f (x - b) (omega arith) (omega arith)
    Earliest-shifted (some u) f = (
      omega (arith, f.0),
      omega (arith, f.1),
      same u f.1 ∙ f.2,
      λ x h k.
          at_shift x (omega arith) (omega (arith, k, f.1))
          ∙ f.3 (x - b) (omega arith) (omega arith),
    )

-- A search that a later limit cuts off.
module _ (p q : ℕ → Bool) (lo n m : ℕ) (short : n ≤ m) where
  pub Latest-narrow :
      (o : Option ℕ)
      → ((x : ℕ) → x < n → q x ≡ p x)
      → ((x : ℕ) → n ≤ x → x < m → q x ≡ false)
      → Latest q lo m o
      → Latest p lo n o
  Latest-narrow none same over f = λ x h k. sym (same x k) ∙ f x h (omega arith)
  Latest-narrow (some u) same over f = elim (Bool-cases (ltb u n)) [
    | inl e ↦
        let low = ltb→lt u n e in
        (f.0, low, sym (same u low) ∙ f.2, λ x h k. sym (same x k) ∙ f.3 x h (omega arith))
    | inr e ↦ let no : true ≡ false = sym f.2 ∙ over u (ground arith) f.1 in cc
  ]

-- A search from a floor that cuts off its start.
module _ (p q : ℕ → Bool) (lo mid hi : ℕ) (start : lo ≤ mid) where
  pub Earliest-narrow :
      (o : Option ℕ)
      → ((x : ℕ) → mid ≤ x → q x ≡ p x)
      → ((x : ℕ) → x < mid → q x ≡ false)
      → Earliest q lo hi o
      → Earliest p mid hi o
  Earliest-narrow none same under f = λ x h k. sym (same x h) ∙ f x (omega arith) k
  Earliest-narrow (some u) same under f = elim (Bool-cases (leb mid u)) [
    | inl e ↦
        let high = leb→le mid u e in
        (high, f.1, sym (same u high) ∙ f.2, λ x h k. sym (same x h) ∙ f.3 x (omega arith) k)
    | inr e ↦ let no : true ≡ false = sym f.2 ∙ under u (ground arith) in cc
  ]

-- What passes, with nothing that passes nearer to the end, is what was found.
module _ (p : ℕ → Bool) (lo hi u : ℕ) where
  pub Latest-unique :
      (o : Option ℕ)
      → lo ≤ u
      → u < hi
      → p u ≡ true
      → ((x : ℕ) → u < x → x < hi → p x ≡ false)
      → Latest p lo hi o
      → o ≡ some u
  Latest-unique none a b e f g = let no : true ≡ false = sym e ∙ g u a b in cc
  Latest-unique (some v) a b e f g = elim (Bool-cases (ltb u v)) [
    | inl l ↦ let no : true ≡ false = sym g.2 ∙ f v (ltb→lt u v l) g.1 in cc
    | inr l ↦ elim (Bool-cases (ltb v u)) [
      | inl k ↦ let no : true ≡ false = sym e ∙ g.3 u (ltb→lt v u k) b in cc
      | inr k ↦ let same : v ≡ u = ground arith in ap some same
    ]
  ]

  pub Earliest-unique :
      (o : Option ℕ)
      → lo ≤ u
      → u < hi
      → p u ≡ true
      → ((x : ℕ) → lo ≤ x → x < u → p x ≡ false)
      → Earliest p lo hi o
      → o ≡ some u
  Earliest-unique none a b e f g = let no : true ≡ false = sym e ∙ g u a b in cc
  Earliest-unique (some v) a b e f g = elim (Bool-cases (ltb v u)) [
    | inl l ↦ let no : true ≡ false = sym g.2 ∙ f v g.0 (ltb→lt v u l) in cc
    | inr l ↦ elim (Bool-cases (ltb u v)) [
      | inl k ↦ let no : true ≡ false = sym e ∙ g.3 u a (ltb→lt u v k) in cc
      | inr k ↦ let same : v ≡ u = ground arith in ap some same
    ]
  ]
