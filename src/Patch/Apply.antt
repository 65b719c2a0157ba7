-- ===== src/Patch/Apply.antt =====
-- internal/pagepatch/pagepatch.go: the bounds of an edit list, and its application. A count is not
-- negative here. The byte counts are far below 2^63, so they do not wrap.
use pages.Common.{
  Bool, List, Text, [], if◌then◌else◌, leb, length, ltb, not, suc, true, ℕ, ◌&&◌, ◌*◌, ◌+◌, ◌-◌,
  ◌==◌, ◌∷◌,
}
use pages.Jsstr.{utf16_len, utf8_len}
use pages.Patch.Strings.{before_first, count_from, replace_from}

-- `Edit`
pub record Edit : Type 0 where
  pub find : Text
  pub replace : Text
  pub count : ℕ

-- `Applied`, with the sizes whose difference is `BytesDelta`.
pub record Applied : Type 0 where
  pub index : ℕ
  pub count : ℕ
  pub first_line : ℕ
  pub bytes_before : ℕ
  pub bytes_after : ℕ

-- `Limits`
pub record Limits : Type 0 where
  pub edits : ℕ
  pub find_chars : ℕ
  pub replace_chars : ℕ
  pub expected_count : ℕ

-- `MaxEdits`, `MaxFindChars`, `MaxReplaceChars`, `MaxExpectedCount`
abbrev pub limits : Limits
limits = record {
  edits = 100;
  find_chars = 64 * 1024;
  replace_chars = 1024 * 1024;
  expected_count = 1000;
}

pub data Refusal : Type 0 where
  edits_invalid : Refusal
  anchor_mismatch : ℕ → ℕ → ℕ → Refusal
  result_too_large : ℕ → ℕ → ℕ → Refusal

pub data Outcome (A : Type 0) : Type 0 where
  patched : A → Outcome A
  refused : Refusal → Outcome A

infixr 12 ◌>>=◌
abbrev pub ◌>>=◌ : {A B : Type 0} → Outcome A → (A → Outcome B) → Outcome B
patched a >>= f = f a
refused e >>= f = refused e

-- `validateEdit`
unfoldable pub valid_edit : Edit → Bool
unfolding utf16_len
valid_edit e =
    not (utf16_len e.find == 0)
    && leb (utf16_len e.find) limits.find_chars
    && leb (utf16_len e.replace) limits.replace_chars
    && leb e.count limits.expected_count

unfoldable pub all_valid : List Edit → Bool
unfolding valid_edit
all_valid [] = true
all_valid (e ∷ es) = valid_edit e && all_valid es

-- `ValidateEdits`
unfoldable pub valid_edits : List Edit → Bool
unfolding all_valid
valid_edits es = not (length es == 0) && leb (length es) limits.edits && all_valid es

-- `CountOccurrences`
unfoldable pub count_occurrences : Text → Text → ℕ
unfolding count_from
count_occurrences haystack [] = 0
count_occurrences haystack (n ∷ ns) = count_from (n ∷ ns) 0 haystack

unfoldable pub newlines : Text → ℕ
newlines [] = 0
newlines (c ∷ cs) = (if c == 10 then 1 else 0) + newlines cs

-- `lineOf` of the first match.
unfoldable pub first_line_of : Text → Text → ℕ
unfolding before_first newlines
first_line_of text needle = 1 + newlines (before_first needle text)

abbrev pub expected_of : Edit → ℕ
expected_of e = if e.count == 0 then 1 else e.count

-- The size that the document would grow to.
abbrev pub grown_to : Text → Edit → ℕ → ℕ
grown_to html e found = utf8_len html + found * utf8_len e.replace - found * utf8_len e.find

-- One round of the loop of `ApplyEdits`.
unfoldable pub apply_edit : ℕ → ℕ → Edit → Text → Outcome (Text × Applied)
unfolding count_occurrences replace_from first_line_of utf8_len
apply_edit max_bytes index e html =
    let found = count_occurrences html e.find in
    let grown = grown_to html e found in
    let after = replace_from e.find e.replace 0 html in
    if not (found == expected_of e)
    then refused (anchor_mismatch index (expected_of e) found)
    else if ltb max_bytes grown && ltb (utf8_len html) grown
    then refused (result_too_large index grown max_bytes)
    else patched (
      after,
      record {
        index = index;
        count = found;
        first_line = first_line_of html e.find;
        bytes_before = utf8_len html;
        bytes_after = utf8_len after;
      },
    )

unfoldable pub apply_from : ℕ → ℕ → List Edit → Text → Outcome (Text × List Applied)
unfolding apply_edit
apply_from max_bytes index [] html = patched (html, [])
apply_from max_bytes index (e ∷ es) html = apply_edit max_bytes index e html >>= λ one.
    apply_from max_bytes (suc index) es one.0 >>= λ rest. patched (rest.0, one.1 ∷ rest.1)

-- `ApplyEdits`
unfoldable pub apply_edits : ℕ → Text → List Edit → Outcome (Text × List Applied)
unfolding valid_edits apply_from
apply_edits max_bytes source es =
    if valid_edits es then apply_from max_bytes 0 es source else refused edits_invalid
