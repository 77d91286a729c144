-- ===== src/Tests/Sample.antt =====
-- Libraries that can be run: a daily cron, documents `name:replicas:version`, and encodings that read
-- back.
use kube_green.Base.{
  ℕ, zero, suc, ◌+◌, ◌*◌, ◌/◌, ◌%◌, ◌<◌, ◌≤◌, ◌≡◌, ◌≢◌, false, inr, refl, ap, false, ◌&&◌, String,
  ◌<>◌, ◌==◌, List, [], ◌∷◌, arith,
}
use kube_green.Base.{failure, Result, ok, err, eq_iff, if◌then◌else◌}
use kube_green.Base.Int.{pos}
use kube_green.Base.Dict.{Dict}
use kube_green.Base.Text.{split}
use kube_green.Base.Clock.{Time}
use kube_green.Libraries.{Cron, JsonLib, Codec, NextIsLater, RestorePatches}
use kube_green.JsonPatch.Saved.RoundTrip.{patch_of}
use kube_green.Sleepinfo.Schedule.Due.{FindsFirst}
use kube_green.Sleepinfo.Schedule.Requeue.{FindsNext}
use kube_green.Sleepinfo.Secrets.RoundTrip.{ReadsBack}

pub distinct : (s t : String) → (s == t) ≡ false → s ≢ t
distinct s t h e = absurd (ground (arith, h, e, eq_iff s t))

-- An hour of every day.
pub data Daily : Type 0 where
  evening morning : Daily

abbrev pub offset : Daily → ℕ
offset evening = 72000000000000
offset morning = 28800000000000

abbrev pub Fires : Daily → Time → Type 0
Fires s t = t % 86400000000000 ≡ offset s

abbrev next_daily : Daily → Time → Time
next_daily evening t = (t + 14400000000000) / 86400000000000 * 86400000000000 + 72000000000000
next_daily morning t = (t + 57600000000000) / 86400000000000 * 86400000000000 + 28800000000000

abbrev parse_daily : String → Result Daily
parse_daily text =
    if text == "00 20 * * 1-5"
    then ok evening
    else if text == "00 08 * * 1-5"
    then ok morning
    else err (failure "not a schedule")

abbrev pub daily : Cron Daily
daily = record { parse_standard = parse_daily; next = next_daily }

next_daily_later : (s : Daily) (t : Time) → t < next_daily s t
next_daily_later evening t = omega arith
next_daily_later morning t = omega arith

pub daily_later : NextIsLater daily
daily_later = record { later = λ s t. inr (next_daily_later s t) }

next_daily_first : (s : Daily) (t fire : Time) → Fires s fire → t < fire → next_daily s t ≤ fire
next_daily_first evening t fire fires after = omega arith
next_daily_first morning t fire fires after = omega arith

pub daily_first : FindsFirst daily Fires
daily_first = record {
  first = λ s t fire fires after. (next_daily_later s t, next_daily_first s t fire fires after);
}

next_daily-Fires : (s : Daily) (t : Time) → Fires s (next_daily s t)
next_daily-Fires evening t = omega arith
next_daily-Fires morning t = omega arith

pub daily_next : FindsNext daily Fires
daily_next = record {
  first = daily_first;
  later = daily_later;
  fires = λ s t. inr (next_daily-Fires s t);
}

-- Documents: the name, the replicas and the version. Every patch sets the replicas to 0, a merge patch
-- is the replicas that it sets.
abbrev pub shown_parts : List String → String
shown_parts (name ∷ replicas ∷ version ∷ []) = replicas
shown_parts _ = ""

-- The replicas of a document.
abbrev pub shown : String → String
shown document = shown_parts (split b':' document)

-- A document that reads as it was written: no part of it has a colon.
abbrev pub readable : String → String → Result String
readable replicas document =
    if shown document == replicas then ok document else err (failure "not a document")

abbrev pub with_replicas : String → List String → Result String
with_replicas replicas (name ∷ _ ∷ version ∷ []) =
    readable replicas (name <> (":" <> (replicas <> (":" <> version))))
with_replicas replicas _ = err (failure "not a document")

abbrev pub difference : String → String → Result String
difference from to =
    if from == to
    then ok "{}"
    else if shown to == "{}"
    then err (failure "not a number")
    else ok (shown to)

abbrev pub merge : String → String → Result String
merge document patch =
    if patch == "{}" then ok document else with_replicas patch (split b':' document)

abbrev decode_operations : String → Result String
decode_operations text = if text == "" then err (failure "no operations") else ok text

abbrev pub documents : JsonLib String
documents = record {
  yaml_to_json = λ text. ok text;
  decode_patch = decode_operations;
  apply_with_options = λ _ _ document. with_replicas "0" (split b':' document);
  equal = λ a b. a == b;
  create_merge_patch = difference;
  merge_patch = merge;
}

-- Strokes for an instant.
abbrev strokes : ℕ → String
strokes zero = ""
strokes (suc n) = String.◌∷◌ "|" (strokes n)

abbrev count_strokes : String → ℕ
count_strokes String.[] = 0
count_strokes (String.◌∷◌ c s) = suc (count_strokes s)

pub count_strokes_lem : (n : ℕ) → count_strokes (strokes n) ≡ n
count_strokes_lem zero = refl
count_strokes_lem (suc n) = ap (λ k. suc k) (count_strokes_lem n)

-- The patches of one Deployment are all that this encoding takes.
abbrev marshal_one : Dict RestorePatches → Result String
marshal_one ((shown, (name, patch) ∷ []) ∷ []) =
    if shown == "Deployment.apps" && name == "web" then ok patch else err (failure "not supported")
marshal_one _ = err (failure "not supported")

abbrev unmarshal_one : String → Result (Dict RestorePatches)
unmarshal_one text = ok (("Deployment.apps", ("web", text) ∷ []) ∷ [])

abbrev pub encodings : Codec
encodings = record {
  format_rfc3339 = strokes;
  parse_rfc3339 = λ text. ok (count_strokes text);
  marshal_patches = marshal_one;
  unmarshal_patches = unmarshal_one;
  unmarshal_replicas = λ text. ok (record { name = "web"; replicas = pos 3 } ∷ []);
  unmarshal_cron_jobs = λ text. err (failure "not supported");
}

marshal_one_single :
    (shown name patch text : String)
    → marshal_one ((shown, (name, patch) ∷ []) ∷ []) ≡ ok text
    → ◌≡◌ {A = Dict RestorePatches}
        (("Deployment.apps", ("web", text) ∷ []) ∷ [])
        ((shown, (name, patch) ∷ []) ∷ [])
marshal_one_single shown name patch text h =
    ground (arith, eq_iff shown "Deployment.apps", eq_iff name "web")

pub unmarshal_one-marshal_one :
    (saved : Dict RestorePatches) (text : String)
    → marshal_one saved ≡ ok text
    → (restored : Dict RestorePatches) × (unmarshal_one text ≡ ok restored)
      × ((shown name : String) → patch_of shown name restored ≡ patch_of shown name saved)
unmarshal_one-marshal_one [] text h = absurd (ground arith)
unmarshal_one-marshal_one ((shown, []) ∷ []) text h = absurd (ground arith)
unmarshal_one-marshal_one ((shown, (name, patch) ∷ []) ∷ []) text h = (
  ("Deployment.apps", ("web", text) ∷ []) ∷ [],
  refl,
  λ a b. rw (marshal_one_single shown name patch text h) refl,
)
unmarshal_one-marshal_one ((shown, (name, patch) ∷ more ∷ patches) ∷ []) text h =
    absurd (ground arith)
unmarshal_one-marshal_one ((shown, []) ∷ more ∷ saved) text h = absurd (ground arith)
unmarshal_one-marshal_one ((shown, one ∷ patches) ∷ more ∷ saved) text h = absurd (ground arith)

abbrev pub encodings_read_back : ReadsBack encodings
encodings_read_back = record {
  truncated = λ t. t;
  parse-format = λ t. ap ok (count_strokes_lem t);
  patches = record { unmarshal-marshal = unmarshal_one-marshal_one };
}
