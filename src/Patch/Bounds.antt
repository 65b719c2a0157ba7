-- ===== src/Patch/Bounds.antt =====
-- The size of an edited document.
use pages.Common.{
  List, Text, [], ap, arith, length, refl, ℕ, ◌*◌, ◌++◌, ◌+◌, ◌-◌, ◌∙◌, ◌∷◌, ◌≡◌, ◌≢◌,
}
use pages.Jsstr.{utf8_len}
use pages.Patch.Apply.{Edit, count_occurrences, grown_to}
use pages.Patch.Pieces.{count_from-length, join-split, replace_from-join}
use pages.Patch.Strings.{count_from, join, join_more, replace_from, split_from}

utf8_len-append : (s t : Text) → utf8_len (s ++ t) ≡ utf8_len s + utf8_len t
unfolding utf8_len
utf8_len-append [] t = omega arith
utf8_len-append (r ∷ rs) t = omega (arith, utf8_len-append rs t)

pieces_len : List Text → ℕ
pieces_len [] = 0
pieces_len (p ∷ ps) = utf8_len p + pieces_len ps

join_more-len :
    (sep : Text) (ps : List Text)
    → utf8_len (join_more sep ps) ≡ length ps * utf8_len sep + pieces_len ps
unfolding utf8_len pieces_len
join_more-len sep [] = omega arith
join_more-len sep (p ∷ ps) =
    utf8_len-append sep (p ++ join_more sep ps)
    ∙ ap (λ n. utf8_len sep + n) (utf8_len-append p (join_more sep ps))
    ∙ omega (arith, join_more-len sep ps)

join-len :
    (sep : Text) (q : Text × List Text)
    → utf8_len (join sep q) ≡ length q.1 * utf8_len sep + (utf8_len q.0 + pieces_len q.1)
join-len sep (p, ps) = utf8_len-append p (join_more sep ps) ∙ omega (arith, join_more-len sep ps)

-- Replacing every match of a needle that is not empty changes the size by the difference of needle
-- and replacement, once for each match.
pub replace_from-len :
    (n : ℕ) (ns new s : Text)
    → utf8_len (replace_from (n ∷ ns) new 0 s) + count_from (n ∷ ns) 0 s * utf8_len (n ∷ ns)
      ≡ utf8_len s + count_from (n ∷ ns) 0 s * utf8_len new
replace_from-len n ns new s =
    let q = split_from (n ∷ ns) 0 s in
    let whole = ap (λ (t : Text). utf8_len t) (join-split n ns 0 s) in
    let after = ap (λ (t : Text). utf8_len t) (replace_from-join (n ∷ ns) new 0 s) in
    rw (after, count_from-length (n ∷ ns) 0 s)
      (omega (arith, join-len new q, join-len (n ∷ ns) q, whole))

-- The size that the loop checks before it replaces is the size of the result.
pub grown_to-len :
    (e : Edit) (html : Text)
    → e.find ≢ []
    → grown_to html e (count_occurrences html e.find)
      ≡ utf8_len (replace_from e.find e.replace 0 html)
unfolding count_occurrences
grown_to-len e html filled = go e.find filled
  where
    go :
        (needle : Text)
        → needle ≢ []
        → utf8_len html
            + count_occurrences html needle * utf8_len e.replace
            - count_occurrences html needle * utf8_len needle
          ≡ utf8_len (replace_from needle e.replace 0 html)
    go [] filled = absurd (filled refl)
    go (n ∷ ns) filled = omega (arith, replace_from-len n ns e.replace html)
