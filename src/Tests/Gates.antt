-- ===== src/Tests/Gates.antt =====
-- internal/passwordgate with two attempts on a page and a portal.
use pages.Common.{List, Text, [], arith, codes, none, refl, ◌∷◌, ◌≡◌}
use pages.Gate.Delay.{curve, delay_for_failures, delays, delays-curve}
use pages.Gate.Exclusion.{Exclusive, no_turns-Exclusive}
use pages.Gate.Turns.{Attempt, acquire, act_all, no_turns, release}

abbrev page_key : Text
page_key = codes "page:1"

abbrev portal_key : Text
portal_key = codes "portal:2"

abbrev attempts : List Attempt
attempts =
    acquire 1 (page_key ∷ portal_key ∷ [])
    ∷ acquire 2 (portal_key ∷ [])
    ∷ release 1
    ∷ release 1
    ∷ acquire 3 (portal_key ∷ [])
    ∷ release 1
    ∷ []

-- The second attempt is refused, and the later calls of the first release change nothing.
held_at_end : (act_all attempts no_turns).held ≡ portal_key ∷ []
unfolding act_all
held_at_end = refl

no_turns-Exclusive_example : Exclusive (act_all attempts no_turns)
no_turns-Exclusive_example = no_turns-Exclusive attempts

delays-curve_example : delays (10 ∷ 600 ∷ 900000 ∷ []) none ≡ curve 0 (10 ∷ 600 ∷ 900000 ∷ [])
delays-curve_example = delays-curve 10 (600 ∷ 900000 ∷ []) (omega arith, (omega arith, tt))

fresh_window : delays (10 ∷ 600 ∷ 900601 ∷ []) none ≡ 500 ∷ 1000 ∷ 500 ∷ []
unfolding delays
fresh_window = refl

eight_seconds : delay_for_failures 1000 ≡ 8000
unfolding delay_for_failures
eight_seconds = refl
