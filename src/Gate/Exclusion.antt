-- ===== src/Gate/Exclusion.antt =====
-- internal/passwordgate/passwordgate.go: no credential has two turns at once.
use pages.Common.{
  Bool, Bool-cases, List, Option-cases, Text, [], ap, arith, false, inl, inr, not, refl, some, sym,
  text_eq, text_eq_iff, true, ℕ, ◌&&◌, ◌++◌, ◌==◌, ◌||◌, ◌∙◌, ◌∷◌, ◌≡◌,
}
use pages.Common.Rows.{some_inj}
use pages.Gate.Turns.{
  Attempt, Holder, Turns, acquire, acquire_turns, act, act_all, busy, compact, delete_key,
  drop_holder, give, has_key, keys_of, no_turns, release, release_turns, sort_keys, try_take,
}

-- An attempt that has not released holds the key.
unfoldable pub held_by : Text → List Holder → Bool
unfolding has_key
held_by x [] = false
held_by x (h ∷ hs) = has_key x h.1 || held_by x hs

-- No two attempts hold one key.
abbrev pub Disjoint : List Holder → Type 0
Disjoint [] = Unit
Disjoint (h ∷ hs) = ((x : Text) → has_key x h.1 ≡ true → held_by x hs ≡ false) × Disjoint hs

-- The held keys are those of the attempts that have not released, which share none.
abbrev pub Exclusive : Turns → Type 0
Exclusive t = ((x : Text) → has_key x t.held ≡ held_by x t.holders) × Disjoint t.holders

text_eq_sym : (a b : Text) → text_eq a b ≡ text_eq b a
unfolding text_eq
text_eq_sym [] [] = refl
text_eq_sym [] (y ∷ b) = refl
text_eq_sym (x ∷ a) [] = refl
text_eq_sym (x ∷ a) (y ∷ b) = let more = text_eq_sym a b in rw more (ground arith)

has_key-append : (x : Text) (a b : List Text) → has_key x (a ++ b) ≡ (has_key x a || has_key x b)
unfolding has_key
has_key-append x [] b = refl
has_key-append x (y ∷ a) b = elim (Bool-cases (text_eq x y)) [
  | inl e ↦ rw e refl
  | inr e ↦ rw e (has_key-append x a b)
]

busy-free :
    (x : Text) (held keys : List Text)
    → busy held keys ≡ false
    → has_key x keys ≡ true
    → has_key x held ≡ false
unfolding busy has_key
busy-free x held [] e f = cc
busy-free x held (k ∷ ks) e f = elim (Bool-cases (has_key k held)) [
  | inl h ↦ let no : true ≡ false = rw h at e in cc
  | inr h ↦ elim (Bool-cases (text_eq x k)) [
    | inl q ↦ let same = (text_eq_iff x k).0 q in ap (λ y. has_key y held) same ∙ h
    | inr q ↦ busy-free x held ks (rw h at e) (rw q at f)
  ]
]

has_key-delete_key :
    (x k : Text) (held : List Text)
    → has_key x (delete_key k held) ≡ (not (text_eq x k) && has_key x held)
unfolding delete_key has_key
has_key-delete_key x k [] = none_left (text_eq x k)
  where
    none_left : (b : Bool) → false ≡ (not b && false)
    none_left true = refl
    none_left false = refl
has_key-delete_key x k (y ∷ held) =
    let more = has_key-delete_key x k held in
    elim (Bool-cases (text_eq k y)) [
      | inl e ↦
          let same = (text_eq_iff k y).0 e in
          rw e (
            more
            ∙ skip (text_eq x k) (has_key x held)
            ∙ ap (λ z. not (text_eq x k) && (text_eq x z || has_key x held)) same)
      | inr e ↦ elim (Bool-cases (text_eq x y)) [
        | inl q ↦
            let other : text_eq x k ≡ false =
              ap (λ z. text_eq z k) ((text_eq_iff x y).0 q) ∙ text_eq_sym y k ∙ e in
            rw (e, q, other) refl
        | inr q ↦ rw (e, q) more
      ]
    ]
  where
    skip : (b d : Bool) → (not b && d) ≡ (not b && (b || d))
    skip true d = refl
    skip false d = refl

has_key-give :
    (x : Text) (keys held : List Text)
    → has_key x (give keys held) ≡ (not (has_key x keys) && has_key x held)
unfolding give has_key
has_key-give x [] held = refl
has_key-give x (k ∷ ks) held =
    has_key-give x ks (delete_key k held)
    ∙ ap (λ b. not (has_key x ks) && b) (has_key-delete_key x k held)
    ∙ either (has_key x ks) (text_eq x k) (has_key x held)
  where
    either : (b c d : Bool) → (not b && (not c && d)) ≡ (not (c || b) && d)
    either true true d = refl
    either true false d = refl
    either false true d = refl
    either false false d = refl

keys_of-held_by :
    (x : Text) (id : ℕ) (hs : List Holder) (keys : List Text)
    → keys_of id hs ≡ some keys
    → held_by x hs ≡ false
    → has_key x keys ≡ false
unfolding keys_of held_by
keys_of-held_by x id [] keys e f = cc
keys_of-held_by x id (h ∷ hs) keys e f = elim (Bool-cases (has_key x h.1)) [
  | inl q ↦ let no : true ≡ false = rw q at f in cc
  | inr q ↦ elim (Bool-cases (h.0 == id)) [
    | inl k ↦ let same : h.1 ≡ keys = some_inj (rw k at e) in ap (has_key x) (sym same) ∙ q
    | inr k ↦ keys_of-held_by x id hs keys (rw k at e) (rw q at f)
  ]
]

alone : (b d : Bool) → (b ≡ true → d ≡ false) → d ≡ (not b && (b || d))
alone true d f = f refl
alone false d f = refl

beside :
    (b c d e : Bool) → (b ≡ true → c ≡ false) → e ≡ (not c && d) → (b || e) ≡ (not c && (b || d))
beside true c d e f g = rw (f refl) refl
beside false c d e f g = g

-- What the others hold.
held_by-drop_holder :
    (x : Text) (id : ℕ) (hs : List Holder) (keys : List Text)
    → Disjoint hs
    → keys_of id hs ≡ some keys
    → held_by x (drop_holder id hs) ≡ (not (has_key x keys) && held_by x hs)
unfolding keys_of held_by drop_holder
held_by-drop_holder x id [] keys d e = cc
held_by-drop_holder x id (h ∷ hs) keys d e = elim (Bool-cases (h.0 == id)) [
  | inl k ↦
      let same : h.1 ≡ keys = some_inj (rw k at e) in
      rw (k, sym same) (alone (has_key x h.1) (held_by x hs) (d.0 x))
  | inr k ↦
      let rest = rw k at e in
      rw k (
        beside (has_key x h.1) (has_key x keys) (held_by x hs) (held_by x (drop_holder id hs))
          (λ q. keys_of-held_by x id hs keys rest (d.0 x q))
          (held_by-drop_holder x id hs keys d.1 rest))
]

drop_holder-free :
    (x : Text) (id : ℕ) (hs : List Holder)
    → held_by x hs ≡ false
    → held_by x (drop_holder id hs) ≡ false
unfolding held_by drop_holder
drop_holder-free x id [] e = refl
drop_holder-free x id (h ∷ hs) e = elim (Bool-cases (has_key x h.1)) [
  | inl q ↦ let no : true ≡ false = rw q at e in cc
  | inr q ↦ elim (Bool-cases (h.0 == id)) [
    | inl k ↦ rw k (rw q at e)
    | inr k ↦ rw (k, q) (drop_holder-free x id hs (rw q at e))
  ]
]

drop_holder-Disjoint : (id : ℕ) (hs : List Holder) → Disjoint hs → Disjoint (drop_holder id hs)
unfolding drop_holder
drop_holder-Disjoint id [] d = tt
drop_holder-Disjoint id (h ∷ hs) d = elim (Bool-cases (h.0 == id)) [
  | inl k ↦ rw k d.1
  | inr k ↦ rw k ((λ x q. drop_holder-free x id hs (d.0 x q)), drop_holder-Disjoint id hs d.1)
]

acquire_turns-Exclusive :
    (id : ℕ) (keys : List Text) (t : Turns) → Exclusive t → Exclusive (acquire_turns id keys t)
unfolding acquire_turns try_take held_by
acquire_turns-Exclusive id keys t i =
    let set = compact (sort_keys keys) in
    elim (Bool-cases (busy t.held set)) [
      | inl e ↦ rw (e, acquire_turns) i
      | inr e ↦
          rw (e, acquire_turns)
            (
              λ x. has_key-append x set t.held ∙ ap (λ b. has_key x set || b) (i.0 x),
              ((λ x q. sym (i.0 x) ∙ busy-free x t.held set e q), i.1),
            )
    ]

release_turns-Exclusive : (id : ℕ) (t : Turns) → Exclusive t → Exclusive (release_turns id t)
unfolding release_turns
release_turns-Exclusive id t i = elim (Option-cases (keys_of id t.holders)) [
  | inl e ↦ rw (e, release_turns) i
  | inr (keys, e) ↦
      rw (e, release_turns)
        (
          λ x.
              has_key-give x keys t.held
              ∙ ap (λ b. not (has_key x keys) && b) (i.0 x)
              ∙ sym (held_by-drop_holder x id t.holders keys i.1 e),
          drop_holder-Disjoint id t.holders i.1,
        )
]

act-Exclusive : (a : Attempt) (t : Turns) → Exclusive t → Exclusive (act a t)
unfolding act
act-Exclusive (acquire id keys) t i = acquire_turns-Exclusive id keys t i
act-Exclusive (release id) t i = release_turns-Exclusive id t i

act_all-Exclusive :
    (actions : List Attempt) (t : Turns) → Exclusive t → Exclusive (act_all actions t)
unfolding act_all
act_all-Exclusive [] t i = i
act_all-Exclusive (a ∷ more) t i = act_all-Exclusive more (act a t) (act-Exclusive a t i)

-- In every history of attempts that acquire their turns and release them, once or more, a key is held
-- exactly when an attempt that acquired it has not released, and no two such attempts share a key.
pub no_turns-Exclusive : (actions : List Attempt) → Exclusive (act_all actions no_turns)
unfolding has_key held_by
no_turns-Exclusive actions = act_all-Exclusive actions no_turns (λ x. refl, tt)
