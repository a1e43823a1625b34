-- ===== src/Captures/Permitted.antt =====
-- What the buttons of the captures may call.
use relay_lifeline.Prelude.{if-P, and_left, ◌≡◌, inl, inr, true, String, All, Outcome-cases}
use relay_lifeline.Captures.{
  CaptureCall, start_capture, stop_capture, download_capture, delete_capture, rewrap_keys,
  delete_expired, read_all, CaptureWorld, CaptureView, CaptureRun, switch_capture, start, stop,
  fetch_file, download, change, agreed_change, close_preview, unchanged, remove, rewrap,
  clean_expired, open_preview, CaptureButton, start_button, stop_button, filtered_button,
  raw_button, delete_button, preview_button, rewrap_button, cleanup_button, reload_button, Rights,
  offers, handle, press_capture,
}

-- A start or a stop needs the right to operate; so does a deletion, of one capture or of those that have
-- expired, and a rewrapping of the keys, and besides the user must have agreed to it; a raw download
-- needs the right to sensitive data, and the agreement.
abbrev pub IsPermitted : Rights → CaptureWorld → CaptureCall → Type 0
IsPermitted rights world (start_capture _ _) = rights.can_operate ≡ true
IsPermitted rights world stop_capture = rights.can_operate ≡ true
IsPermitted rights world (download_capture id true) =
    (rights.can_sensitive ≡ true) × (world.agreed ≡ true)
IsPermitted rights world (delete_capture _) = (rights.can_operate ≡ true) × (world.agreed ≡ true)
IsPermitted rights world rewrap_keys = (rights.can_operate ≡ true) × (world.agreed ≡ true)
IsPermitted rights world delete_expired = (rights.can_operate ≡ true) × (world.agreed ≡ true)
IsPermitted rights world _ = Unit

module _ (rights : Rights) (world : CaptureWorld) where
  agreed_change-All :
      (P : CaptureCall → Type 0) (asked call : CaptureCall) (then_show : CaptureView → CaptureView)
      (v : CaptureView)
      → P asked
      → (world.agreed ≡ true → P call)
      → P read_all
      → All P (agreed_change world asked call then_show v).0
  unfolding agreed_change change
  agreed_change-All P asked call then_show v a c l =
      if-P (λ (run : CaptureRun). All P run.0) world.agreed
        (λ agreed. elim (Outcome-cases (world.done call)) [
          | inl (why, e) ↦ rw (e, change) (a, (c agreed, tt))
          | inr (_, e) ↦ rw (e, change) (a, (c agreed, (l, tt)))
        ])
        (λ _. (a, tt))

  download_raw-All :
      (id : String) (v : CaptureView)
      → rights.can_sensitive ≡ true
      → All (IsPermitted rights world) (download world id true v).0
  unfolding download fetch_file
  download_raw-All id v sensitive =
      if-P (λ (run : CaptureRun). All (IsPermitted rights world) run.0) world.agreed
        (λ agreed. (tt, ((sensitive, agreed), tt))) (λ _. (tt, tt))

  handle-All :
      (button : CaptureButton) (v : CaptureView)
      → offers rights v button ≡ true
      → All (IsPermitted rights world) (handle world button v).0
  unfolding offers handle start stop switch_capture remove rewrap clean_expired open_preview
      fetch_file
  handle-All start_button v e = (and_left rights.can_operate _ e, tt)
  handle-All stop_button v e = (and_left rights.can_operate _ e, tt)
  handle-All (filtered_button id) v e = (tt, tt)
  handle-All (raw_button id) v e = download_raw-All id v e
  handle-All (delete_button id) v e =
      agreed_change-All (IsPermitted rights world) _ (delete_capture id) (close_preview id) v tt
        (λ agreed. (e, agreed)) tt
  handle-All (preview_button id) v e = (tt, tt)
  handle-All rewrap_button v e =
      agreed_change-All (IsPermitted rights world) _ rewrap_keys unchanged v tt
        (λ agreed. (and_left rights.can_operate _ e, agreed)) tt
  handle-All cleanup_button v e =
      agreed_change-All (IsPermitted rights world) _ delete_expired unchanged v tt
        (λ agreed. (and_left rights.can_operate _ e, agreed)) tt
  handle-All reload_button v e = (tt, tt)

-- Whatever button of the captures is pressed: captures are started and stopped only by users who may
-- operate, captures are deleted and keys rewrapped only by these and after they agreed, and a capture is
-- downloaded raw only by users who may see sensitive data, and after they agreed.
pub press_capture-IsPermitted :
    (world : CaptureWorld) (rights : Rights) (button : CaptureButton) (v : CaptureView)
    → All (IsPermitted rights world) (press_capture world rights button v).0
unfolding press_capture
press_capture-IsPermitted world rights button v =
    if-P (λ (run : CaptureRun). All (IsPermitted rights world) run.0) (offers rights v button)
      (handle-All rights world button v) (λ _. tt)
