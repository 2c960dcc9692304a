-- ===== src/Gateway/Failures.antt =====
-- Which event the submission of a message gives.
use Prim.Native.String.{String}
use ota_platform.Prelude.{
  ℕ, suc, lt→ltb, ◌+◌, ◌≡◌, ◌∙◌, ap, refl, List, [], ◌∷◌, ◌++◌, arith, length, All, if◌then◌else◌,
}
use ota_platform.Prelude.Results.{ok, err}
use ota_platform.Executor.Types.{
  SmsPart, SmsMessage, DlrStatus, failed_submit, failed_partial_submit, card_dlr_received,
  CardEvent,
}
use ota_platform.Gateway.Tables.{Tables}
use ota_platform.Gateway.Submit.{
  Line, context_done, submit_status, handle_submit_failure, correlate, submit_parts,
  handle_send_sms, track,
}

abbrev pub Accepts : Line → SmsPart → Type 0
Accepts line part = (id : String) × (line.submit part ≡ ok id)

submit_parts-accepted :
    (line : Line) (msg : SmsMessage) (n : ℕ) (parts : List SmsPart) (tables : Tables)
    → All (Accepts line) parts
    → (submit_parts line msg n parts tables).1 ≡ ([], ok tt)
unfolding submit_parts
submit_parts-accepted line msg n [] tables h = refl
submit_parts-accepted line msg n (p ∷ ps) tables ((id, e), hs) =
    rw (e, submit_parts)
      (submit_parts-accepted line msg (n + 1) ps (correlate line msg p id tables) hs)

submit_parts-refused :
    (line : Line) (msg : SmsMessage) (n : ℕ) (before : List SmsPart) (part : SmsPart)
    (later : List SmsPart) (tables : Tables) (error : String)
    → All (Accepts line) before
    → line.submit part ≡ err error
    → (submit_parts line msg n (before ++ part ∷ later) tables).1
      ≡ handle_submit_failure line msg (n + length before) error
unfolding submit_parts
submit_parts-refused line msg n [] part later tables error h e =
    rw (e, submit_parts) (ap (λ k. handle_submit_failure line msg k error) (omega arith))
submit_parts-refused line msg n (p ∷ ps) part later tables error ((id, a), hs) e =
    rw (a, submit_parts)
      (submit_parts-refused line msg (n + 1) ps part later (correlate line msg p id tables) error hs
          e
        ∙ ap (λ k. handle_submit_failure line msg k error) (omega arith))

-- The status of a refusal after the parts that were accepted.
abbrev pub refusal_status : List SmsPart → DlrStatus
refusal_status [] = failed_submit
refusal_status (part ∷ before) = failed_partial_submit

-- The event of a refusal.
abbrev pub refusal : Line → SmsMessage → List SmsPart → String → CardEvent
refusal line msg before error = record {
  event_type = card_dlr_received;
  event_id = line.event_id;
  card_id = msg.card_id;
  campaign_id = msg.campaign_id;
  step = 0;
  retry_count = 0;
  msg_id = msg.msg_id;
  smpp_message_id = "";
  dlr_status = refusal_status before;
  error_code = error;
  source_msisdn = "";
  payload_hex = [];
}

handle_submit_failure_lem :
    (line : Line) (msg : SmsMessage) (before : List SmsPart) (error : String)
    → handle_submit_failure line msg (length before) error ≡ (
        if line.channel_takes
        then (refusal line msg before error ∷ [], ok tt)
        else ([], err context_done))
unfolding handle_submit_failure submit_status
handle_submit_failure_lem line msg [] error = refl
handle_submit_failure_lem line msg (part ∷ before) error =
    rw (lt→ltb 0 (suc (length before)) (omega arith)) refl

-- Where a part is refused after all the parts before it were accepted, the submission puts one event
-- on the channel, a receipt for the message of the card with the text of the error, and its status is
-- a total failure if that part is the first, and a partial one if not; the parts after it do not
-- matter. Where the context ends before the channel takes the event, there is no event and an error.
pub handle_send_sms-refused :
    (line : Line) (msg : SmsMessage) (before : List SmsPart) (part : SmsPart) (later : List SmsPart)
    (tables : Tables) (error : String)
    → msg.parts ≡ before ++ part ∷ later
    → All (Accepts line) before
    → line.submit part ≡ err error
    → (handle_send_sms line msg tables).1 ≡ (
        if line.channel_takes
        then (refusal line msg before error ∷ [], ok tt)
        else ([], err context_done))
unfolding handle_send_sms
handle_send_sms-refused line msg before part later tables error same h e =
    ap (λ ps. (submit_parts line msg 0 ps (track msg tables)).1) same
    ∙ submit_parts-refused line msg 0 before part later (track msg tables) error h e
    ∙ ap (λ k. handle_submit_failure line msg k error) (omega arith)
    ∙ handle_submit_failure_lem line msg before error
