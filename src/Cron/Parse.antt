-- ===== src/Cron/Parse.antt =====
-- internal/cron/cron.go: the parser of expressions. A text is its code points.
use pages.Common.{
  Bool, List, Option, Text, [], false, if◌then◌else◌, leb, ltb, none, not, some, suc, zero, ℕ, ◌&&◌,
  ◌++◌, ◌+◌, ◌==◌, ◌||◌, ◌∷◌,
}
use pages.Common.Strings.{
  only_digits, byte_len, has_char, cut_at, decimal_value, fields_from, split_at,
}
use pages.Cron.Schedule.{Calendar, Schedule, has_bit, next}

-- `field`, without its name.
pub record Field : Type 0 where
  pub low : ℕ
  pub high : ℕ

abbrev pub minutes_field : Field
minutes_field = record { low = 0; high = 59 }

abbrev pub hours_field : Field
hours_field = record { low = 0; high = 23 }

abbrev pub days_field : Field
days_field = record { low = 1; high = 31 }

abbrev pub months_field : Field
months_field = record { low = 1; high = 12 }

abbrev pub weekdays_field : Field
weekdays_field = record { low = 0; high = 7 }

-- `Error`: which of the messages.
pub data Failure : Type 0 where
  too_long field_count empty_item bad_step lone_step not_a_number out_of_range never_fires : Failure

pub data Parsed (A : Type 0) : Type 0 where
  parsed : A → Parsed A
  failed : Failure → Parsed A

-- `if err != nil { return 0, err }`
infixl 5 ◌>>=◌
abbrev pub ◌>>=◌ : {A B : Type 0} → Parsed A → (A → Parsed B) → Parsed B
parsed x >>= k = k x
failed e >>= k = failed e

-- `number`
unfoldable pub number : Text → Option ℕ
unfolding byte_len only_digits decimal_value
number s =
    if byte_len s == 0 || ltb 2 (byte_len s)
    then none
    else (if only_digits s then some (decimal_value 0 s) else none)

-- The values of the loop `for v := lo; v <= hi; v += step`, of at most `n` rounds.
unfoldable pub stepped : ℕ → ℕ → ℕ → ℕ → List ℕ
stepped zero v hi step = []
stepped (suc n) v hi step =
    let rest = stepped n (v + step) hi step in if leb v hi then v ∷ rest else []

-- `rangePart != "*"`
abbrev pub is_star : Text → Bool
is_star (c ∷ []) = c == 42
is_star _ = false

-- The step of an item that has one.
unfoldable pub check_step : Field → Text → Option ℕ → Parsed ℕ
unfolding has_char
check_step f range none = failed bad_step
check_step f range (some n) =
    if ltb n 1 || ltb f.high n
    then failed bad_step
    else (if not (is_star range) && not (has_char 45 range) then failed lone_step else parsed n)

-- The range and the step of an item.
unfoldable pub step_of : Field → Text → Parsed (Text × ℕ)
unfolding cut_at number check_step
step_of f item =
    let (range, after) = cut_at 47 item in
    elim after [
      | none ↦ parsed (item, 1)
      | some text ↦ check_step f range (number text) >>= λ n. parsed (range, n)
    ]

-- The bounds of a range whose ends are numbers.
unfoldable pub check_range : Field → Option ℕ → Option ℕ → Parsed (ℕ × ℕ)
check_range f (some a) (some b) =
    if ltb a f.low || ltb f.high b || ltb b a then failed out_of_range else parsed (a, b)
check_range f _ _ = failed not_a_number

-- The bounds of an item.
unfoldable pub range_of : Field → Text → Parsed (ℕ × ℕ)
unfolding cut_at number check_range
range_of f range =
    let (a, after) = cut_at 45 range in
    if is_star range then parsed (f.low, f.high) else elim after [
      | none ↦ check_range f (number a) (number a)
      | some b ↦ check_range f (number a) (number b)
    ]

-- One item of a list: the bits that it sets.
unfoldable pub parse_item : Field → Text → Parsed (List ℕ)
unfolding step_of range_of stepped
parse_item f [] = failed empty_item
parse_item f (c ∷ cs) = step_of f (c ∷ cs) >>= λ cut.
    range_of f cut.0 >>= λ ends. parsed (stepped (suc ends.1) ends.0 ends.1 cut.1)

unfoldable pub parse_items : Field → List Text → Parsed (List ℕ)
unfolding parse_item
parse_items f [] = parsed []
parse_items f (item ∷ items) =
    parse_item f item >>= λ bits. parse_items f items >>= λ more. parsed (bits ++ more)

-- `parseField`
unfoldable pub parse_field : Field → Text → Parsed (List ℕ)
unfolding split_at parse_items
parse_field f text = let (item, items) = split_at 44 text in parse_items f (item ∷ items)

-- `(s.dow | 1) &^ (1 << 7)`, and nothing without that bit.
unfoldable pub drop_seven : List ℕ → List ℕ
drop_seven [] = []
drop_seven (d ∷ ds) = let rest = drop_seven ds in if d == 7 then rest else d ∷ rest

unfoldable pub sunday_too : List ℕ → List ℕ
unfolding has_bit drop_seven
sunday_too days = if has_bit 7 days then 0 ∷ drop_seven days else days

-- `strings.HasPrefix(part, "*")`
abbrev pub starts_star : Text → Bool
starts_star (c ∷ cs) = c == 42
starts_star _ = false

-- The schedule of five fields.
unfoldable pub parse_parts : List Text → Parsed Schedule
unfolding parse_field sunday_too
parse_parts (a ∷ b ∷ c ∷ d ∷ e ∷ []) = parse_field minutes_field a >>= λ minute.
    parse_field hours_field b >>= λ hour. parse_field days_field c >>= λ dom.
    parse_field months_field d >>= λ month. parse_field weekdays_field e >>= λ dow. parsed (record {
      minute = minute;
      hour = hour;
      dom = dom;
      month = month;
      dow = sunday_too dow;
      dom_star = starts_star c;
      dow_star = starts_star e;
    })
parse_parts _ = failed field_count

-- Refuse a schedule that does not fire in the years after the minute `start`.
unfoldable pub check_fires : Calendar → ℕ → Schedule → Parsed Schedule
unfolding next
check_fires cal start s = elim (next cal s start) [ none ↦ failed never_fires | some t ↦ parsed s ]

-- `Parse`; `start` is the first minute of the year 2000.
unfoldable pub parse : Calendar → ℕ → Text → Parsed Schedule
unfolding byte_len fields_from parse_parts check_fires
parse cal start expr =
    if ltb 100 (byte_len expr)
    then failed too_long
    else parse_parts (fields_from [] expr) >>= check_fires cal start
