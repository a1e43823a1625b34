-- ===== src/Captures.antt =====
-- The view of captured requests, web/src/views/CapturesView.tsx: its buttons, which of them a user
-- has, and what they call, in order. A handler is one step, which sees the view as it was when the
-- button was pressed, as its closure does.
pub mod Permitted
pub mod Minutes
mod Tests
use relay_lifeline.Prelude.{
  is_empty, is_none, ℕ, Bool, true, false, not, ◌&&◌, ◌||◌, List, [], ◌∷◌, ◌++◌, Option, none, some,
  String, Outcome, ok, throw, if◌then◌else◌, ◌==◌, String_keys, leb, ◌+◌, ◌/◌, ◌%◌, ◌-◌, nat_eq,
  suc, ◌<>◌,
}
use relay_lifeline.Json.{Value, Thrown}
use relay_lifeline.Numbers.{Number, ratio, whole, num_lt}
use relay_lifeline.Settings.Durations.{DurationUnit, begin, sum_matches}

pub record CaptureStatus : Type 0 where
  pub available : Bool
  pub active : Bool

pub record CapturePreview : Type 0 where
  pub id : String
  pub parts : Value

-- A question, or a call of the API.
pub data CaptureCall : Type 0 where
  ask_raw : CaptureCall
  ask_delete : CaptureCall
  ask_rewrap : CaptureCall
  ask_cleanup : CaptureCall
  start_capture : Number → String → CaptureCall
  stop_capture : CaptureCall
  download_capture : String → Bool → CaptureCall
  delete_capture : String → CaptureCall
  rewrap_keys : CaptureCall
  delete_expired : CaptureCall
  read_preview : String → CaptureCall
  read_all : CaptureCall

-- The answers: to a question, to a start or a stop, to a call that changes or downloads something, to
-- the three reads of a load at once, and to the read of a preview.
pub record CaptureWorld : Type 0 where
  pub agreed : Bool
  pub switched : CaptureCall → Outcome Thrown CaptureStatus
  pub done : CaptureCall → Outcome Thrown (Unit {0})
  pub loaded : Outcome Thrown (CaptureStatus × List String × Value)
  pub previewed : String → Outcome Thrown CapturePreview

-- `records` are the identifiers of the captures that are listed.
pub record CaptureView : Type 0 where
  pub status : Option CaptureStatus
  pub records : List String
  pub keys : Option Value
  pub preview : Option CapturePreview
  pub request_limit : Number
  pub timeout_text : String
  pub busy : Bool
  pub errors : List Thrown

abbrev pub CaptureRun : Type 0
CaptureRun = List CaptureCall × CaptureView

abbrev pub wrong : Thrown → CaptureView → CaptureView
wrong reason v = record v { errors = reason ∷ v.errors }

unfoldable pub load_captures : CaptureWorld → CaptureView → CaptureView
load_captures world v = elim world.loaded [
  | throw reason ↦ wrong reason v
  | ok (status, records, keys) ↦ record v {
    status = some status;
    records = records;
    keys = some keys;
  }
]

unfoldable pub switch_capture : CaptureWorld → CaptureCall → CaptureView → CaptureRun
switch_capture world call v = (
  call ∷ [],
  elim (world.switched call) [
    | throw reason ↦ wrong reason v
    | ok status ↦ record v { status = some status }
  ],
)

unfoldable pub start : CaptureWorld → CaptureView → CaptureRun
unfolding switch_capture
start world v = switch_capture world (start_capture v.request_limit (v.timeout_text <> "m")) v

unfoldable pub stop : CaptureWorld → CaptureView → CaptureRun
unfolding switch_capture
stop world v = switch_capture world stop_capture v

unfoldable pub fetch_file : CaptureWorld → List CaptureCall → CaptureCall → CaptureView → CaptureRun
fetch_file world before call v =
    (before ++ call ∷ [], elim (world.done call) [ throw reason ↦ wrong reason v | ok _ ↦ v ])

unfoldable pub download : CaptureWorld → String → Bool → CaptureView → CaptureRun
unfolding fetch_file
download world id raw v =
    if not raw
    then fetch_file world [] (download_capture id false) v
    else if world.agreed
    then fetch_file world (ask_raw ∷ []) (download_capture id true) v
    else (ask_raw ∷ [], v)

-- A change that the user agreed to, `then_show`, and a load.
unfoldable pub change :
    CaptureWorld
    → CaptureCall
    → CaptureCall
    → (CaptureView → CaptureView)
    → CaptureView
    → CaptureRun
unfolding load_captures
change world asked call then_show v = elim (world.done call) [
  | throw reason ↦ (asked ∷ call ∷ [], wrong reason v)
  | ok _ ↦ (asked ∷ call ∷ read_all ∷ [], load_captures world (then_show v))
]

unfoldable pub agreed_change :
    CaptureWorld
    → CaptureCall
    → CaptureCall
    → (CaptureView → CaptureView)
    → CaptureView
    → CaptureRun
unfolding change
agreed_change world asked call then_show v =
    if world.agreed then change world asked call then_show v else (asked ∷ [], v)

-- The preview is closed if it is of the capture.
abbrev pub preview_without : String → Option CapturePreview → Option CapturePreview
preview_without id none = none
preview_without id (some preview) = if preview.id == id then none else some preview

abbrev pub close_preview : String → CaptureView → CaptureView
close_preview id v = record v { preview = preview_without id v.preview }

abbrev pub unchanged : CaptureView → CaptureView
unchanged v = v

unfoldable pub remove : CaptureWorld → String → CaptureView → CaptureRun
unfolding agreed_change
remove world id v = agreed_change world ask_delete (delete_capture id) (close_preview id) v

unfoldable pub rewrap : CaptureWorld → CaptureView → CaptureRun
unfolding agreed_change
rewrap world v = agreed_change world ask_rewrap rewrap_keys unchanged v

unfoldable pub clean_expired : CaptureWorld → CaptureView → CaptureRun
unfolding agreed_change
clean_expired world v = agreed_change world ask_cleanup delete_expired unchanged v

unfoldable pub open_preview : CaptureWorld → String → CaptureView → CaptureRun
open_preview world id v = (
  read_preview id ∷ [],
  elim (world.previewed id) [
    | throw reason ↦ wrong reason v
    | ok preview ↦ record v { preview = some preview }
  ],
)

pub data CaptureButton : Type 0 where
  start_button : CaptureButton
  stop_button : CaptureButton
  filtered_button : String → CaptureButton
  raw_button : String → CaptureButton
  delete_button : String → CaptureButton
  preview_button : String → CaptureButton
  rewrap_button : CaptureButton
  cleanup_button : CaptureButton
  reload_button : CaptureButton

pub record Rights : Type 0 where
  pub can_operate : Bool
  pub can_sensitive : Bool

abbrev is_active : Option CaptureStatus → Bool
is_active none = false
is_active (some status) = status.active

abbrev is_unavailable : Option CaptureStatus → Bool
is_unavailable none = false
is_unavailable (some status) = not status.available

-- The button is there, and not disabled.
unfoldable pub offers : Rights → CaptureView → CaptureButton → Bool
offers rights v start_button =
    rights.can_operate && (not (is_active v.status) && not (v.busy || is_unavailable v.status))
offers rights v stop_button = rights.can_operate && (is_active v.status && not v.busy)
offers rights v (filtered_button id) = true
offers rights v (raw_button id) = rights.can_sensitive
offers rights v (delete_button id) = rights.can_operate
offers rights v (preview_button id) = true
offers rights v rewrap_button = rights.can_operate && not (v.busy || is_none v.keys)
offers rights v cleanup_button = rights.can_operate && not (v.busy || is_empty v.records)
offers rights v reload_button = true

unfoldable pub handle : CaptureWorld → CaptureButton → CaptureView → CaptureRun
unfolding start stop download remove rewrap clean_expired open_preview load_captures
handle world start_button v = start world v
handle world stop_button v = stop world v
handle world (filtered_button id) v = download world id false v
handle world (raw_button id) v = download world id true v
handle world (delete_button id) v = remove world id v
handle world (preview_button id) v = open_preview world id v
handle world rewrap_button v = rewrap world v
handle world cleanup_button v = clean_expired world v
handle world reload_button v = (read_all ∷ [], load_captures world v)

unfoldable pub press_capture : CaptureWorld → Rights → CaptureButton → CaptureView → CaptureRun
unfolding offers handle
press_capture world rights button v =
    if offers rights v button then handle world button v else ([], v)

-- `Math.ceil` of an amount that is not negative.
unfoldable pub num_ceil : Number → Number
num_ceil (ratio false p q) = whole ((p + q) / suc q)
num_ceil n = n

unfoldable pub clamp_minutes : Number → Number
clamp_minutes n =
    if num_lt n (whole 1) then whole 1 else if num_lt (whole 60) n then whole 60 else n

-- `factor` multiplies by the minutes of the unit, and `plus` adds, both as the doubles of the language do.
unfoldable pub duration_minutes :
    (Number → Number → Number) → (DurationUnit → Number → Number) → String → Number
unfolding num_ceil clamp_minutes
duration_minutes plus factor raw = elim (sum_matches plus factor (whole 0) begin raw) [
  | none ↦ whole 10
  | some minutes ↦ clamp_minutes (num_ceil minutes)
]
