-- ===== src/Examples/Cards.antt =====
-- internal/executor at a small campaign: two steps that expect no response.
use ota_platform.Prelude.{
  ◌<◌, ◌⊎◌, ◌++◌, length, ℕ, ◌≤◌, ◌≡◌, inl, inr, refl, true, false, [], ◌∷◌, none, some, arith,
}
use ota_platform.Prelude.Results.{ok}
use ota_platform.Executor.Types.{
  Status, awaiting_dlr, completed, DlrStatus, delivrd, undeliv, CardState, CardEvent,
  CampaignCommand, CampaignContext,
}
use ota_platform.Executor.Actions.{World, done, ◌>>◌, emit_event, set_card_state}
use ota_platform.Executor.Advance.{activate_event, publish}
use ota_platform.Executor.Activate.{tar_bytes, counter_bytes, handle_activate, command_by_step}
use ota_platform.Executor.Retry.{is_terminal}
use ota_platform.Executor.Delivery.{handle_dlr, report_dlr, awaits_dlr, expects_response}
use ota_platform.Executor.Answer.{handle_mo}
use ota_platform.Executor.Sequence.{Always, HasSeq, handlers_count_up}
use ota_platform.Executor.Terminal.{terminal_absorbs}
use ota_platform.Executor.Profile.{parse_certification_mode}
use ota_platform.Gsm0348.Command.{assemble_packet, build_header, padded_data}
use ota_platform.Gsm0348.Crypto.{compute_crc}
use ota_platform.Gsm0348.Header.{signature_length}
use ota_platform.Executor.Order.{set_before_send, set_before_send-handle_activate}
use ota_platform.Executor.Forgets.{activation_forgets_seq}
use ota_platform.Executor.Failing.{
  reported, again, given_up, after_failure, failed_delivery_outcome,
}
use ota_platform.Executor.Retries.{is_failure, delivered_step_restarts}
use ota_platform.Gateway.Tables.{Correlation}
use ota_platform.Gateway.Receipts.{Receipt, dlr_event}

abbrev pub command_at : ℕ → CampaignCommand
command_at sequence = record {
  sequence = sequence;
  application_id = "app";
  script = 0xA0 ∷ 0xA4 ∷ [];
  expect_response = false;
  tar = 0xB0 ∷ 0x00 ∷ 0x10 ∷ [];
  kic_algo = "DES";
  kic_mode = "DES_CBC";
  kic_keyset_id = 1;
  kid_algo = "DES";
  kid_mode = "DES_CBC";
  kid_keyset_id = 1;
  cert_mode = "RC";
  ciphered = false;
  counter_mode = "COUNTER_NO_REPLAY";
  por_mode = "NO_REPLY";
  por_protocol = "SMS_SUBMIT";
  por_ciphered = false;
  por_cert_mode = "NONE";
}

abbrev campaign : CampaignContext
campaign = record {
  commands = command_at 1 ∷ command_at 2 ∷ [];
  params = record { max_concat_override = none; throttle_sms_per_sec = none; max_retries = 3 };
}

abbrev state_with : Status → ℕ → CardState
state_with status step = record {
  campaign_id = "campaign";
  current_step = step;
  status = status;
  retry_count = 1;
  last_msg_id = "msg";
  last_event_id = "event";
  transition_seq = 4;
}

-- A world in which every call succeeds, and the card is in the state given.
abbrev world_with : CardState → World
world_with state = record {
  ciphers = record { des_encrypt = λ k b. b; des_decrypt = λ k b. b; aes_encrypt = λ k b. b };
  crypto_provider = none;
  is_new_event = λ id. ok true;
  campaign_running = λ id. ok true;
  campaign_context = λ id. ok campaign;
  card_keys = λ id. ok (record { enc_key = []; auth_key = []; msisdn = "49"; profile_id = "p" });
  counter_value = λ card app. ok 5;
  counter_incremented = λ card app. ok tt;
  card_profile =
      λ id. ok (record { buffer_size = 140; max_concat_sms = 5; dcs = 0xF6; pid = 0x7F });
  acquire_throttle = λ id rate. ok true;
  stored_state = λ id. ok (some state);
  sms_published = λ m. ok tt;
  event_published = λ e. ok tt;
  change_written = λ c. ok tt;
  retry_slot_free = true;
  has_card_state_writer = true;
  has_web_socket = true;
  new_concat_ref = 7;
  new_msg_id = "msg2";
  new_event_id = "event2";
}

abbrev world : World
world = world_with (state_with awaiting_dlr 2)

abbrev corr : Correlation
corr = record {
  msg_id = "msg";
  campaign_id = "campaign";
  card_id = "card";
  msisdn = "49";
  expires_at = 1000;
}

abbrev receipt_of : DlrStatus → Receipt
receipt_of status = record { message_id = "smpp"; status = status; error_code = "000" }

abbrev event_of : DlrStatus → CardEvent
event_of status = dlr_event "event3" corr (receipt_of status)

handlers_count_up_example :
    Always (HasSeq 5) (handle_dlr world (event_of undeliv))
    × Always (HasSeq 5) (handle_mo world (event_of undeliv))
handlers_count_up_example =
    handlers_count_up world (event_of undeliv) (state_with awaiting_dlr 2) refl

failed_delivery_outcome_example :
    ((2 < 3)
      × ((handle_dlr world (event_of undeliv)).actions
          ≡ reported world (event_of undeliv)
            ++ emit_event (again world (event_of undeliv) (state_with awaiting_dlr 2)) ∷ []))
    ⊎ ((3 ≤ 2)
        × ((handle_dlr world (event_of undeliv)).actions
            ≡ reported world (event_of undeliv)
              ++ set_card_state "card" (given_up (event_of undeliv) (state_with awaiting_dlr 2))
                ∷ after_failure world (event_of undeliv) (state_with awaiting_dlr 2)))
unfolding is_failure dlr_event
failed_delivery_outcome_example =
    failed_delivery_outcome world (event_of undeliv) (state_with awaiting_dlr 2) campaign refl refl
      (inl refl) refl

delivered_step_restarts_example :
    (next : ℕ) × (next ≤ 2)
    × (handle_dlr world (event_of delivrd)
        ≡ report_dlr world (event_of delivrd)
          >> publish world (activate_event "event2" "card" "campaign" next 0))
unfolding awaits_dlr command_by_step expects_response
delivered_step_restarts_example =
    delivered_step_restarts world "event3" corr (receipt_of delivrd) (state_with awaiting_dlr 2)
      campaign refl refl refl refl refl (omega arith) (inr (inl refl))

terminal_absorbs_example :
    (handle_dlr (world_with (state_with completed 2)) (event_of delivrd) ≡ done)
    × (handle_mo (world_with (state_with completed 2)) (event_of delivrd) ≡ done)
unfolding is_terminal
terminal_absorbs_example =
    terminal_absorbs (world_with (state_with completed 2)) (event_of delivrd)
      (state_with completed 2) refl refl

activation_forgets_seq_example :
    Always (HasSeq 1) (handle_activate world (activate_event "event4" "card" "campaign" 2 0))
activation_forgets_seq_example =
    activation_forgets_seq world (activate_event "event4" "card" "campaign" 2 0) refl

set_before_send-handle_activate_example :
    set_before_send
      (activate_event "event4" "card" "campaign" 2 0)
      none
      (handle_activate world (activate_event "event4" "card" "campaign" 2 0)).actions
    ≡ true
set_before_send-handle_activate_example =
    set_before_send-handle_activate world (activate_event "event4" "card" "campaign" 2 0)

-- The activation gets as far as the message: the counter, the state, the message, its log, the
-- change and the broadcast.
handle_activate-actions :
    length (handle_activate world (activate_event "event4" "card" "campaign" 2 0)).actions ≡ 6
unfolding handle_activate parse_certification_mode assemble_packet build_header tar_bytes
    counter_bytes compute_crc padded_data signature_length
handle_activate-actions = refl
