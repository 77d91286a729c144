-- ===== src/Api/Schedule/Format.antt =====
-- When a time of day gives a cron schedule, and which.
use Prim.Native.Char.{Char, code}
use kube_green.Base.{ℕ, suc, String, ◌<>◌, ◌==◌, ◌≡◌, ◌≢◌, refl, not, ◌&&◌, ap, ◌∙◌}
use kube_green.Base.{List, [], ◌∷◌, ok, is_ok, arith, nat_eq, if◌then◌else◌, length, eq_iff}
use text.Mathlib.TextLemmas.{nil-append, cons-append}
use kube_green.Base.Text.{split, onto_first}
use kube_green.Api.{SleepInfo}
use kube_green.Api.Schedule.{schedule_from_parts, get_schedule_from_weekday_and_time}

-- How often a character stands in a text.
abbrev pub occurrences : ℕ → String → ℕ
occurrences sep String.[] = 0
occurrences sep (String.◌∷◌ c s) =
    if nat_eq (code c) sep then suc (occurrences sep s) else occurrences sep s

length-onto_first :
    (c : Char) (ps : List String) (n : ℕ) → length ps ≡ suc n → length (onto_first c ps) ≡ suc n
length-onto_first c [] n h = omega arith
length-onto_first c (p ∷ ps) n h = h

-- `split` cuts at each separator.
length-split : (sep : ℕ) (s : String) → length (split sep s) ≡ suc (occurrences sep s)
unfolding split
length-split sep String.[] = refl
length-split sep (String.◌∷◌ c s) =
    ground (arith, length-split sep s, length-onto_first c (split sep s) (occurrences sep s))

is_ok-schedule_from_parts :
    (s : SleepInfo) (t : String) (ps : List String)
    → is_ok (schedule_from_parts s t ps) ≡ nat_eq (length ps) 2
unfolding schedule_from_parts
is_ok-schedule_from_parts s t [] = ground arith
is_ok-schedule_from_parts s t (p ∷ []) = ground arith
is_ok-schedule_from_parts s t (p ∷ q ∷ []) = ground arith
is_ok-schedule_from_parts s t (p ∷ q ∷ r ∷ ps) = ground arith

-- A schedule comes out exactly when weekdays are given and the time of day has one colon.
pub is_ok-get_schedule :
    (s : SleepInfo) (t : String)
    → is_ok (get_schedule_from_weekday_and_time s t)
      ≡ not (s.spec.weekdays == "") && nat_eq (occurrences b':' t) 1
unfolding get_schedule_from_weekday_and_time
is_ok-get_schedule s t =
    ground (arith, is_ok-schedule_from_parts s t (split b':' t), length-split b':' t)

-- What holds no separator stays whole.
split_whole : (sep : ℕ) (s : String) → occurrences sep s ≡ 0 → split sep s ≡ s ∷ []
unfolding split
split_whole sep String.[] k = refl
split_whole sep (String.◌∷◌ d s) k = ground (arith, split_whole sep s)

split-append :
    (sep : ℕ) (c : Char) (s t : String)
    → code c ≡ sep
    → occurrences sep s ≡ 0
    → split sep (s <> (String.◌∷◌ c t)) ≡ s ∷ split sep t
unfolding split
split-append sep c String.[] t h k = rw nil-append (ground arith)
split-append sep c (String.◌∷◌ d s) t h k =
    rw cons-append (ground (arith, split-append sep c s t h))

split_at_colon :
    (hour minute : String)
    → occurrences b':' hour ≡ 0
    → occurrences b':' minute ≡ 0
    → split b':' (hour <> (":" <> minute)) ≡ hour ∷ minute ∷ []
split_at_colon hour minute h k =
    rw (cons-append ":" "" minute, nil-append)
      (split-append b':' ":" hour minute refl h ∙ ap (λ ps. hour ∷ ps) (split_whole b':' minute k))

-- With weekdays given, `hour:minute` becomes the cron schedule `minute hour * * weekdays`, behind
-- the time zone if there is one.
pub get_schedule-hour_minute :
    (s : SleepInfo) (hour minute : String)
    → s.spec.weekdays ≢ ""
    → occurrences b':' hour ≡ 0
    → occurrences b':' minute ≡ 0
    → get_schedule_from_weekday_and_time s (hour <> (":" <> minute))
      ≡ ok (
          let schedule = minute <> (" " <> (hour <> (" * * " <> s.spec.weekdays))) in
          if s.spec.time_zone == ""
          then schedule
          else "CRON_TZ=" <> (s.spec.time_zone <> (" " <> schedule)))
unfolding get_schedule_from_weekday_and_time
get_schedule-hour_minute s hour minute w h k =
    ground (arith, split_at_colon hour minute h k, eq_iff s.spec.weekdays "")
