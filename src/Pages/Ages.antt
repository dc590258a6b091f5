-- ===== src/Pages/Ages.antt =====
-- ferr/src/app/stream/page.tsx and agents/[id]/page.tsx: `timeAgo`; control/page.tsx:
-- `timeAgoOrFuture`. The text is made from an age.
use trokk.Prelude.{
  ℕ, ◌+◌, ◌-◌, ◌*◌, ◌/◌, ◌≤◌, ◌<◌, ◌≡◌, ◌++◌, Option, none, some, if◌then◌else◌, ltb, leb, arith,
}
use trokk.Text.{Str, str, truthy}
use trokk.Text.Digits.{decimal}
use trokk.Runtime.{Dates}

pub data Age : Type 0 where
  now : Age
  minutes : ℕ → Age
  hours : ℕ → Age
  days : ℕ → Age

-- The branches of `timeAgo`, by the milliseconds that have passed. A time in the future gives a
-- negative number of minutes in the source, and so "just now"; the difference stops at 0 here.
unfoldable pub age_of : ℕ → Age
age_of diff =
    let mins = diff / 60000 in
    let hrs = mins / 60 in
    if ltb mins 1
    then now
    else if ltb mins 60
    then minutes mins
    else if ltb hrs 24
    then hours hrs
    else days (hrs / 24)

abbrev pub age_text : Age → Str
age_text now = str "just now"
age_text (minutes n) = decimal n ++ str "m ago"
age_text (hours n) = decimal n ++ str "h ago"
age_text (days n) = decimal n ++ str "d ago"

unfoldable pub time_ago : Dates → ℕ → Str → Str
unfolding age_of
time_ago d clock iso = age_text (age_of (clock - d.get_time iso))

-- The whole number that an age shows is the number of whole units that have passed, and the unit is
-- the largest of which there is at least one.
abbrev pub IsAgeOf : ℕ → Age → Type 0
IsAgeOf diff now = diff < 60000
IsAgeOf diff (minutes n) = (1 ≤ n) × (n < 60) × (n * 60000 ≤ diff) × (diff < (n + 1) * 60000)
IsAgeOf diff (hours n) = (1 ≤ n) × (n < 24) × (n * 3600000 ≤ diff) × (diff < (n + 1) * 3600000)
IsAgeOf diff (days n) = (1 ≤ n) × (n * 86400000 ≤ diff) × (diff < (n + 1) * 86400000)

-- Whatever time has passed, the age that is shown is right: the largest unit of which a whole one
-- has passed, with the number of whole units.
pub age_of-IsAgeOf : (diff : ℕ) → IsAgeOf diff (age_of diff)
unfolding age_of
age_of-IsAgeOf diff = ground arith

pub data Distance : Type 0 where
  in_seconds : ℕ → Distance
  in_minutes : ℕ → Distance
  in_hours : ℕ → Distance

-- `Math.abs(Math.floor(diff / 1000))`: `floor` rounds a time in the past away from zero.
abbrev pub abs_seconds : ℕ → ℕ → ℕ
abs_seconds clock t = if leb clock t then (t - clock) / 1000 else (clock - t + 999) / 1000

unfoldable pub distance_of : ℕ → Distance
distance_of secs =
    if ltb secs 60
    then in_seconds secs
    else if ltb secs 3600
    then in_minutes (secs / 60)
    else in_hours (secs / 3600)

abbrev distance_text : Distance → Str
distance_text (in_seconds n) = decimal n ++ str "s"
distance_text (in_minutes n) = decimal n ++ str "m"
distance_text (in_hours n) = decimal n ++ str "h"

abbrev distance_or_dash : Dates → ℕ → Str → Str
distance_or_dash d clock iso =
    if truthy iso then distance_text (distance_of (abs_seconds clock (d.get_time iso))) else str "—"

unfoldable pub time_ago_or_future : Dates → ℕ → Option Str → Str
unfolding distance_of
time_ago_or_future d clock none = str "—"
time_ago_or_future d clock (some iso) = distance_or_dash d clock iso

abbrev pub IsDistanceOf : ℕ → Distance → Type 0
IsDistanceOf secs (in_seconds n) = (n ≡ secs) × (n < 60)
IsDistanceOf secs (in_minutes n) = (1 ≤ n) × (n < 60) × (n * 60 ≤ secs) × (secs < (n + 1) * 60)
IsDistanceOf secs (in_hours n) = (1 ≤ n) × (n * 3600 ≤ secs) × (secs < (n + 1) * 3600)
