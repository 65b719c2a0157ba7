-- ===== src/Patch/Edits.antt =====
-- What `ApplyEdits` promises, told by the pieces of the document between the matches.
use pages.Common.{
  ==_iff, All, Bool, Bool-cases, List, Text, [], ap, arith, false, if◌then◌else◌, inl, inr, length,
  ltb, max, not, refl, suc, sym, true, ℕ, ◌&&◌, ◌↔◌, ◌∙◌, ◌∷◌, ◌≡◌, ◌≢◌, ◌≤◌,
}
use pages.Jsstr.{utf16_len, utf8_len}
use pages.Patch.Apply.{
  Applied, Edit, Outcome, Refusal, all_valid, apply_edit, apply_edits, apply_from,
  count_occurrences, expected_of, first_line_of, grown_to, patched, refused, valid_edit,
  valid_edits, ◌>>=◌,
}
use pages.Patch.Bounds.{grown_to-len}
use pages.Patch.Pieces.{count_from-length, replace_from-join}
use pages.Patch.Strings.{join, split_from}
use mathlib.Core.Path.{subst}

-- The document after the edits: each cuts the document at the matches of its anchor, and joins the
-- pieces by its replacement.
abbrev pub edit_once : Edit → Text → Text
edit_once e html = join e.replace (split_from e.find 0 html)

unfoldable pub edited : List Edit → Text → Text
unfolding split_from
edited [] html = html
edited (e ∷ es) html = edited es (edit_once e html)

-- Each edit meets the number of matches that it expects, in the document as the edits before it
-- leave it, and does not grow the document beyond the limit.
abbrev pub Fits : ℕ → List Edit → Text → Type 0
Fits limit [] html = Unit
Fits limit (e ∷ es) html =
    (length (split_from e.find 0 html).1 ≡ expected_of e)
    × (utf8_len (edit_once e html) ≤ max limit (utf8_len html))
    × Fits limit es (edit_once e html)

abbrev pub Anchored : List Edit → Type 0
Anchored es = All (λ (e : Edit). e.find ≢ []) es

count_occurrences-length :
    (html needle : Text)
    → needle ≢ []
    → count_occurrences html needle ≡ length (split_from needle 0 html).1
unfolding count_occurrences
count_occurrences-length html [] filled = absurd (filled refl)
count_occurrences-length html (n ∷ ns) filled = count_from-length (n ∷ ns) 0 html

guards_passed :
    {A : Type 0} (fits large : Bool) (e d : Refusal) (x r : A)
    → (if not fits then refused e else if large then refused d else patched x) ≡ patched r
    → (fits ≡ true) × (large ≡ false) × (x ≡ r)
guards_passed true false e d x r h = (refl, refl, cc)
guards_passed true true e d x r h = cc
guards_passed false large e d x r h = cc

within : (limit n grown : ℕ) → ltb limit grown && ltb n grown ≡ false → grown ≤ max limit n
within limit n grown h = ground arith

within_iff : (limit n grown : ℕ) → grown ≤ max limit n → ltb limit grown && ltb n grown ≡ false
within_iff limit n grown h = ground arith

-- One round: it succeeds exactly where the edit fits, with the joined pieces.
apply_edit_sound :
    (limit index : ℕ) (e : Edit) (html : Text) (r : Text × Applied)
    → e.find ≢ []
    → apply_edit limit index e html ≡ patched r
    → (length (split_from e.find 0 html).1 ≡ expected_of e)
      × (utf8_len (edit_once e html) ≤ max limit (utf8_len html))
      × (r.0 ≡ edit_once e html)
unfolding apply_edit
apply_edit_sound limit index e html r filled h =
    let count = count_occurrences-length html e.find filled in
    let size = grown_to-len e html filled in
    let after = replace_from-join e.find e.replace 0 html in
    let len = ap (λ (t : Text). utf8_len t) after in
    let (same, small, e_r) = guards_passed _ _ _ _ _ r h in
    (
      sym count ∙ (==_iff _ _).0 same,
      subst (λ n. n ≤ max limit (utf8_len html)) (size ∙ len) (within _ _ _ small),
      sym (ap (λ (x : Text × Applied). x.0) e_r) ∙ after,
    )

apply_edit_complete :
    (limit index : ℕ) (e : Edit) (html : Text)
    → e.find ≢ []
    → length (split_from e.find 0 html).1 ≡ expected_of e
    → utf8_len (edit_once e html) ≤ max limit (utf8_len html)
    → (one : Applied) × (apply_edit limit index e html ≡ patched (edit_once e html, one))
unfolding apply_edit
apply_edit_complete limit index e html filled fits small =
    let count = count_occurrences-length html e.find filled in
    let size = grown_to-len e html filled in
    let after = replace_from-join e.find e.replace 0 html in
    let len = ap (λ (t : Text). utf8_len t) after in
    let same = (==_iff (count_occurrences html e.find) (expected_of e)).1 (count ∙ fits) in
    let room =
      within_iff limit (utf8_len html) (grown_to html e (count_occurrences html e.find))
        (subst (λ n. n ≤ max limit (utf8_len html)) (sym (size ∙ len)) small) in
    (
      record {
        index = index;
        count = count_occurrences html e.find;
        first_line = first_line_of html e.find;
        bytes_before = utf8_len html;
        bytes_after = utf8_len (edit_once e html);
      },
      rw (same, room, after) refl,
    )

bind-patched :
    {A B : Type 0} (m : Outcome A) (f : A → Outcome B) (b : B)
    → (m >>= f) ≡ patched b
    → (x : A) × (m ≡ patched x) × (f x ≡ patched b)
bind-patched (patched x) f b h = (x, refl, h)
bind-patched (refused e) f b h = cc

apply_from_sound :
    (limit index : ℕ) (es : List Edit) (html : Text) (r : Text × List Applied)
    → Anchored es
    → apply_from limit index es html ≡ patched r
    → Fits limit es html × (r.0 ≡ edited es html)
unfolding apply_from edited
apply_from_sound limit index [] html r anchors h = (tt, cc)
apply_from_sound limit index (e ∷ es) html r anchors h =
    let (one, first, rest) = bind-patched (apply_edit limit index e html) _ r h in
    let (q, more, e_r) = bind-patched (apply_from limit (suc index) es one.0) _ r rest in
    let (count, small, after) = apply_edit_sound limit index e html one anchors.0 first in
    let (fits, doc) = apply_from_sound limit (suc index) es one.0 q anchors.1 more in
    (
      (count, small, subst (λ t. Fits limit es t) after fits),
      cc e_r ∙ doc ∙ ap (λ t. edited es t) after,
    )

apply_from_complete :
    (limit index : ℕ) (es : List Edit) (html : Text)
    → Anchored es
    → Fits limit es html
    → (log : List Applied) × (apply_from limit index es html ≡ patched (edited es html, log))
unfolding apply_from edited
apply_from_complete limit index [] html anchors fits = ([], refl)
apply_from_complete limit index (e ∷ es) html anchors (count, small, fits) =
    let (one, first) = apply_edit_complete limit index e html anchors.0 count small in
    let (log, more) = apply_from_complete limit (suc index) es (edit_once e html) anchors.1 fits in
    (one ∷ log, rw (first, more) refl)

valid_edits-Anchored : (es : List Edit) → valid_edits es ≡ true → Anchored es
unfolding valid_edits
valid_edits-Anchored es h = go es (ground arith)
  where
    filled : (e : Edit) → valid_edit e ≡ true → e.find ≢ []
    filled e v empty =
        unfold valid_edit utf16_len in
        (let n = ap (λ (t : Text). utf16_len t) empty in ground (arith, n))

    go : (ds : List Edit) → all_valid ds ≡ true → Anchored ds
    go [] v = tt
    go (d ∷ ds) v = unfold all_valid in (filled d (ground arith), go ds (ground arith))

-- A patch succeeds exactly where the edits are valid and fit, and then it answers the document in
-- which each edit's matches are replaced in turn.
pub apply_edits_iff :
    (limit : ℕ) (source : Text) (es : List Edit) (html : Text)
    → ((log : List Applied) × (apply_edits limit source es ≡ patched (html, log)))
      ↔ ((valid_edits es ≡ true) × Fits limit es source × (html ≡ edited es source))
unfolding apply_edits
apply_edits_iff limit source es html = elim (Bool-cases (valid_edits es)) [
  | inl valid ↦
      let anchors = valid_edits-Anchored es valid in
      (
        (λ (log, h).
            let (fits, doc) =
              apply_from_sound limit 0 es source (html, log) anchors (rw valid at h) in
            (valid, fits, doc)),
        (λ (_, fits, doc).
            let (log, h) = apply_from_complete limit 0 es source anchors fits in
            (log, rw (valid, doc) h)),
      )
  | inr bad ↦ ((λ (log, h). cc), (λ (valid, _, _). cc))
]

Fits-len :
    (limit : ℕ) (es : List Edit) (html : Text)
    → Fits limit es html
    → utf8_len (edited es html) ≤ max limit (utf8_len html)
unfolding edited
Fits-len limit [] html fits = omega arith
Fits-len limit (e ∷ es) html (_, small, fits) =
    omega (arith, Fits-len limit es (edit_once e html) fits)

-- A patched document has no more bytes than the limit, or than the source had.
pub apply_edits-len :
    (limit : ℕ) (source : Text) (es : List Edit) (html : Text) (log : List Applied)
    → apply_edits limit source es ≡ patched (html, log)
    → utf8_len html ≤ max limit (utf8_len source)
apply_edits-len limit source es html log h =
    let (_, fits, doc) = (apply_edits_iff limit source es html).0 (log, h) in
    subst (λ t. utf8_len t ≤ max limit (utf8_len source)) (sym doc) (Fits-len limit es source fits)
