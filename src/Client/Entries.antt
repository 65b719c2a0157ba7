-- ===== src/Client/Entries.antt =====
-- internal/clientip/clientip.go: what `ForwardedFor` reads.
use pages.Client.Forwarded.{forwarded_for, keep, rev_onto, scan, spaces}
use pages.Common.{
  ==_iff, Bool-cases, List, Text, [], ap, false, if◌then◌else◌, inl, inr, refl, suc, sym, zero, ℕ,
  ◌++◌, ◌==◌, ◌∙◌, ◌∷◌, ◌≡◌,
}
use pages.Common.Strings.{split_at}
use mathlib.Core.Path.{subst}

-- The text without the spaces at its start, and at its end.
unfoldable pub strip_start : Text → Text
strip_start [] = []
strip_start (c ∷ cs) = let rest = strip_start cs in if c == 32 then rest else c ∷ cs

abbrev stripped : ℕ → Text → Text
stripped c [] = if c == 32 then [] else c ∷ []
stripped c (d ∷ ds) = c ∷ d ∷ ds

unfoldable pub strip_end : Text → Text
strip_end [] = []
strip_end (c ∷ cs) = stripped c (strip_end cs)

-- An entry that stands backwards.
abbrev pub trimmed : Text → Text
trimmed piece = rev_onto (strip_end (strip_start piece)) []

unfoldable pub entries : List Text → List Text
entries [] = []
entries (p ∷ ps) = keep (trimmed p) (entries ps)

-- All the pieces of a split.
abbrev pub pieces : Text × List Text → List Text
pieces (piece, more) = piece ∷ more

spaces-shift : (g : ℕ) (e : Text) → 32 ∷ (spaces g ++ e) ≡ spaces g ++ 32 ∷ e
spaces-shift zero e = refl
spaces-shift (suc g) e = ap (◌∷◌ 32) (spaces-shift g e)

stripped-spaces : (g c : ℕ) (x : Text) → stripped 32 (spaces g ++ c ∷ x) ≡ 32 ∷ (spaces g ++ c ∷ x)
stripped-spaces zero c x = refl
stripped-spaces (suc g) c x = refl

stripped-kept : (c : ℕ) (x : Text) → (c == 32) ≡ false → stripped c x ≡ c ∷ x
stripped-kept c [] e = rw e refl
stripped-kept c (d ∷ ds) e = refl

strip_end-spaces : (g : ℕ) → strip_end (spaces g ++ []) ≡ []
unfolding strip_end
strip_end-spaces zero = refl
strip_end-spaces (suc g) = rw (strip_end-spaces g) refl

strip_end-entry :
    (g c : ℕ) (p : Text)
    → (c == 32) ≡ false
    → strip_end (spaces g ++ c ∷ p) ≡ spaces g ++ c ∷ strip_end p
unfolding strip_end
strip_end-entry zero c p e = stripped-kept c (strip_end p) e
strip_end-entry (suc g) c p e =
    ap (stripped 32) (strip_end-entry g c p e) ∙ stripped-spaces g c (strip_end p)

rev_onto-spaces :
    (g c : ℕ) (x e : Text) → rev_onto (spaces g ++ c ∷ x) e ≡ rev_onto x (c ∷ (spaces g ++ e))
rev_onto-spaces zero c x e = refl
rev_onto-spaces (suc g) c x e =
    rev_onto-spaces g c x (32 ∷ e) ∙ ap (λ y. rev_onto x (c ∷ y)) (sym (spaces-shift g e))

-- The rest of a header, backwards, after an entry and a gap.
abbrev Running : Text → Type 0
Running cs =
    (x : ℕ) (e : Text) (gap : ℕ)
    → scan cs (x ∷ e) gap
      ≡ keep (rev_onto (strip_end (spaces gap ++ (split_at 44 cs).0)) (x ∷ e))
          (entries (split_at 44 cs).1)

-- The rest of a header, backwards, between entries.
abbrev Waiting : Text → Type 0
Waiting cs = scan cs [] 0 ≡ entries (pieces (split_at 44 cs))

scan-space : (cs : Text) → Running cs → Waiting cs → Running (32 ∷ cs) × Waiting (32 ∷ cs)
unfolding scan split_at entries strip_start
scan-space cs run wait = (
  λ x e gap.
      run x e (suc gap)
      ∙ ap (λ t. keep (rev_onto (strip_end t) (x ∷ e)) (entries (split_at 44 cs).1))
          (spaces-shift gap (split_at 44 cs).0),
  wait,
)

scan-comma : (cs : Text) → Waiting cs → Running (44 ∷ cs) × Waiting (44 ∷ cs)
unfolding scan split_at entries strip_start strip_end
scan-comma cs wait = (
  λ x e gap.
      ap (◌∷◌ (x ∷ e)) wait
      ∙ ap (λ t. keep (rev_onto t (x ∷ e)) (entries (pieces (split_at 44 cs))))
          (sym (strip_end-spaces gap)),
  wait,
)

strip_start-entry : (c : ℕ) (p : Text) → (c == 32) ≡ false → strip_start (c ∷ p) ≡ c ∷ p
unfolding strip_start
strip_start-entry c p e = rw e refl

scan-other :
    (c : ℕ) (cs : Text)
    → (c == 32) ≡ false
    → (c == 44) ≡ false
    → Running cs
    → Running (c ∷ cs) × Waiting (c ∷ cs)
unfolding scan split_at entries strip_start
scan-other c cs e f run =
    let piece = (split_at 44 cs).0 in
    let more = entries (split_at 44 cs).1 in
    (
      λ x t gap.
          rw (e, f)
            (run c (spaces gap ++ x ∷ t) 0
              ∙ ap (λ y. keep y more)
                  (sym (rev_onto-spaces gap c (strip_end piece) (x ∷ t))
                    ∙ ap (λ y. rev_onto y (x ∷ t)) (sym (strip_end-entry gap c piece e)))),
      rw (e, f)
          (run c [] 0
            ∙ ap (λ y. keep (rev_onto y []) more) (sym (strip_end-entry 0 c piece e))
            ∙ ap (λ y. keep (rev_onto (strip_end y) []) more) (sym (strip_start-entry c piece e))),
    )

scan-entries : (cs : Text) → Running cs × Waiting cs
unfolding scan split_at entries strip_start strip_end
scan-entries [] =
    (λ x e gap. ap (λ t. keep (rev_onto t (x ∷ e)) []) (sym (strip_end-spaces gap)), refl)
scan-entries (c ∷ cs) =
    let (run, wait) = scan-entries cs in
    elim (Bool-cases (c == 32)) [
      | inl e ↦
          subst (λ x. Running (x ∷ cs) × Waiting (x ∷ cs)) (sym ((==_iff c 32).0 e))
            (scan-space cs run wait)
      | inr e ↦ elim (Bool-cases (c == 44)) [
        | inl f ↦
            subst (λ x. Running (x ∷ cs) × Waiting (x ∷ cs)) (sym ((==_iff c 44).0 f))
              (scan-comma cs wait)
        | inr f ↦ scan-other c cs e f run
      ]
    ]

-- `forwarded_for` returns the pieces of the header between commas, the last one first, each without
-- the spaces at its ends, and leaves out those that are empty.
pub forwarded_for-entries :
    (header : Text) → forwarded_for header ≡ entries (pieces (split_at 44 (rev_onto header [])))
unfolding forwarded_for
forwarded_for-entries header = (scan-entries (rev_onto header [])).1
