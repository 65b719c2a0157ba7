-- ===== src/Versions/Spec/Invert.antt =====
-- What the success of a check or of a statement says, as rules for `do` blocks.
use pages.Common.{
  Bool, Bool-cases, Option, Text, arith, false, inl, inr, none, refl, some, true, ℕ, ◌==◌, ◌≡◌,
}
use pages.Versions.Args.{
  Error, Result, Value, err, found_or, normalize_slug, ok, page_not_found, require,
  version_not_found, ◌>>=◌, ◌>>◌,
}
use pages.Versions.Guards.{
  assert_agent_may_move_pointer, assert_expected_version, is_user, lock_page, lock_version,
  move_pointer, point_at,
}
use pages.Versions.Spec.Rules.{IsLive, MayMove}
use pages.Versions.Store.{
  Action, Actor, PageRow, Store, VersionRow, find_version, live_page, pointer_moved, update_page,
  write_audit,
}
use mathlib.Core.Path.{subst}

-- A chain that succeeds has a first value, and succeeds from it.
pub >>=-eq-ok {κ μ} :
    {X : Type κ} {Y : Type μ} {y : Y} (first : Result X) (rest : X → Result Y)
    → (first >>= rest) ≡ ok y
    → (x : X) × (first ≡ ok x) × (rest x ≡ ok y)
>>=-eq-ok (err e) rest h = cc
>>=-eq-ok (ok x) rest h = (x, refl, h)

pub ok_inj : {A : Type 0} {a b : A} → ok a ≡ ok b → a ≡ b
ok_inj h = cc

pub require-eq-ok {ℓ} :
    {B : Type ℓ} (test : Bool) (e : Error) (k : Result B) {b : B}
    → (require test e >> k) ≡ ok b
    → (test ≡ true) × (k ≡ ok b)
require-eq-ok true e k h = (refl, h)
require-eq-ok false e k h = cc

pub >>-eq-ok {ℓ} :
    {B : Type ℓ} (m : Result (Unit {0})) (k : Result B) {b : B}
    → (m >> k) ≡ ok b
    → (m ≡ ok tt) × (k ≡ ok b)
>>-eq-ok (ok x) k h = (refl, h)
>>-eq-ok (err e) k h = cc

pub found_or-eq-ok :
    {A : Type 0} (o : Option A) (e : Error) {x : A} → found_or o e ≡ ok x → o ≡ some x
found_or-eq-ok none e h = cc
found_or-eq-ok (some y) e h = cc

-- The result is an error, or its value satisfies `P`.
pub data Ensures {A : Type 0} (P : A → Type 0) : Result A → Type 0 where
  returns : {x : A} → P x → Ensures P (ok x)
  fails : {e : Error} → Ensures P (err e)

pub Ensures-eq_ok :
    {A : Type 0} {P : A → Type 0} {r : Result A} → Ensures P r → (x : A) → r ≡ ok x → P x
Ensures-eq_ok {P} (returns h) x e = subst P (ok_inj e) h
Ensures-eq_ok fails x e = cc

pub Ensures-map :
    {A : Type 0} {P Q : A → Type 0} {r : Result A}
    → ((x : A) → P x → Q x)
    → Ensures P r
    → Ensures Q r
Ensures-map f (returns h) = returns (f _ h)
Ensures-map f fails = fails

pub Ensures-bind :
    {A B : Type 0} {P : A → Type 0} {Q : B → Type 0} (m : Result B) (f : B → Result A)
    → Ensures Q m
    → ((x : B) → Q x → Ensures P (f x))
    → Ensures P (m >>= f)
Ensures-bind m f (returns h) k = k _ h
Ensures-bind m f fails k = fails

module _ {A : Type 0} {P : A → Type 0} where
  pub after_require :
      (test : Bool) (e : Error) (k : Result A)
      → (test ≡ true → Ensures P k)
      → Ensures P (require test e >> k)
  after_require true e k h = h refl
  after_require false e k h = fails

  pub after_check :
      (m : Result (Unit {0})) (k : Result A) → (m ≡ ok tt → Ensures P k) → Ensures P (m >> k)
  after_check (ok x) k h = h refl
  after_check (err e) k h = fails

  pub after_bind :
      {B : Type 0} (m : Result B) (f : B → Result A)
      → ((x : B) → m ≡ ok x → Ensures P (f x))
      → Ensures P (m >>= f)
  after_bind (ok x) f h = h x refl
  after_bind (err e) f h = fails

pub lock_page-IsLive :
    (low : ℕ → ℕ) (slug : Value) (s : Store) {page : PageRow}
    → lock_page low slug s ≡ ok page
    → IsLive page s
unfolding lock_page
lock_page-IsLive low slug s h =
    let (wanted, _, found) = >>=-eq-ok (normalize_slug low slug) _ h in
    (wanted, found_or-eq-ok (live_page wanted s) page_not_found found)

pub lock_version_found :
    (s : Store) (page id : ℕ) {v : VersionRow}
    → lock_version s page id ≡ ok v
    → (find_version id s ≡ some v) × (v.page_id ≡ page)
unfolding lock_version
lock_version_found s page id h =
    let (v, found, rest) = >>=-eq-ok (found_or (find_version id s) version_not_found) _ h in
    let (same, e) = require-eq-ok (v.page_id == page) version_not_found (ok v) rest in
    let q = found_or-eq-ok (find_version id s) version_not_found found in
    (ground arith, ground arith)

pub assert_agent_may_move_pointer-MayMove :
    (page : PageRow) (a : Actor) → assert_agent_may_move_pointer page a ≡ ok tt → MayMove a page
unfolding assert_agent_may_move_pointer
assert_agent_may_move_pointer-MayMove page a h = elim (Bool-cases (is_user a)) [
  | inl person ↦ inl person
  | inr agent_actor ↦ inr (ground arith)
]

-- The store behind a successful move of the pointer.
abbrev pub moved_store : Store → PageRow → ℕ → Actor → Action → Option Text → Store
moved_store s page version a act why =
    write_audit a act page.id version (pointer_moved page.published_version_id version why)
      (update_page page.id (point_at version s.now) s)

pub move_pointer_moved :
    (s : Store) (page : PageRow) (version : ℕ) (expected : Value) (a : Actor) (act : Action)
    (why : Option Text) {t : Store}
    → move_pointer s page version expected a act why ≡ ok t
    → (assert_expected_version page expected ≡ ok tt) × (moved_store s page version a act why ≡ t)
unfolding move_pointer
move_pointer_moved s page version expected a act why h =
    let (fresh, rest) = >>-eq-ok (assert_expected_version page expected) _ h in (fresh, cc rest)

module _ {A : Type 0} {P : A → Type 0} where
  pub after_lock_page :
      (low : ℕ → ℕ) (slug : Value) (s : Store) (f : PageRow → Result A)
      → ((page : PageRow) → IsLive page s → Ensures P (f page))
      → Ensures P (lock_page low slug s >>= f)
  after_lock_page low slug s f h =
      after_bind (lock_page low slug s) f λ page e. h page (lock_page-IsLive low slug s e)

  pub after_lock_version :
      (s : Store) (page id : ℕ) (f : VersionRow → Result A)
      → ((v : VersionRow) → find_version id s ≡ some v → v.page_id ≡ page → Ensures P (f v))
      → Ensures P (lock_version s page id >>= f)
  after_lock_version s page id f h =
      after_bind (lock_version s page id) f
        λ v e. let (found, belongs) = lock_version_found s page id e in h v found belongs

  pub after_move_pointer :
      (s : Store) (page : PageRow) (version : ℕ) (expected : Value) (a : Actor) (act : Action)
      (why : Option Text) (f : Store → Result A)
      → Ensures P (f (moved_store s page version a act why))
      → Ensures P (move_pointer s page version expected a act why >>= f)
  after_move_pointer s page version expected a act why f h =
      after_bind (move_pointer s page version expected a act why) f λ t e.
        subst (λ x. Ensures P (f x)) (move_pointer_moved s page version expected a act why e).1 h
