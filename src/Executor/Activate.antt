-- ===== src/Executor/Activate.antt =====
-- internal/executor/worker.go, handleActivate.
use Prim.Native.String.{String}
use ota_platform.Prelude.{
  ℕ, ◌+◌, ◌/◌, ◌%◌, ◌++◌, Bool, true, List, [], ◌∷◌, Option, some, none, ltb, ◌==◌, if◌then◌else◌,
  ◌^◌, length, take, replicate,
}
use ota_platform.Prelude.Bits.{Bytes, byte}
use ota_platform.Prelude.Results.{ok, err}
use ota_platform.Gsm0348.Types.{CommandPacketInput}
use ota_platform.Gsm0348.Command.{build_command_packet}
use ota_platform.SmsFrame.Split.{split_for_concat}
use ota_platform.Executor.Types.{
  pending, in_progress, awaiting_dlr, no_error, CardState, CardEvent, CardStateChange,
  CampaignCommand, CampaignParams, CampaignContext, SmsPart, SmsMessage, send_failed, sent,
  get_campaign_status, load_campaign_context, no_command_at, get_card_keys, get_counter,
  incr_counter, build_command, load_profile, split_for_concat_failed, publish_sms,
}
use ota_platform.Executor.Actions.{
  Done, CardKeys, CardProfile, World, Run, ◌>>=◌, ◌>>◌, return, refuse, act, act_if, get,
  invalidate_campaign, increment_counter, set_card_state, send_sms, log_mt, broadcast_status,
}
use ota_platform.Executor.Profile.{build_sec_profile}
use ota_platform.Executor.Retry.{throttle_backoff, schedule_activate_retry}
use ota_platform.Executor.Advance.{activate_event, write_card_change}

-- commandByStep, a map that the commands are written to in order: the last of a step stays.
unfoldable pub command_by_step : List CampaignCommand → ℕ → Option CampaignCommand
command_by_step [] step = none
command_by_step (cmd ∷ cmds) step =
    let later = command_by_step cmds step in
    elim later [ some c ↦ some c | none ↦ if cmd.sequence == step then some cmd else none ]

unfoldable pub require_command : ℕ → Option CampaignCommand → Run CampaignCommand
require_command step none = refuse (no_command_at step)
require_command step (some cmd) = return cmd

-- Five bytes, the highest first: the highest is byte(v >> 32), the others are uint32(v).
unfoldable pub counter_bytes : ℕ → Bytes
counter_bytes v =
    byte (v / 2 ^ 32)
    ∷ byte (v % 2 ^ 32 / 2 ^ 24)
    ∷ byte (v % 2 ^ 32 / 2 ^ 16)
    ∷ byte (v % 2 ^ 32 / 2 ^ 8)
    ∷ byte (v % 2 ^ 32)
    ∷ []

-- copy(tar[:], cmd.TAR) into three zero bytes
unfoldable pub tar_bytes : Bytes → Bytes
tar_bytes tar = take 3 (tar ++ replicate 3 0)

unfoldable pub command_input : World → String → CardKeys → CampaignCommand → ℕ → CommandPacketInput
command_input w card_id keys cmd counter_value = elim w.crypto_provider [
  | some p ↦ record {
    tar = tar_bytes cmd.tar;
    counter = counter_bytes counter_value;
    ciphering_key = [];
    signing_key = [];
    user_data = cmd.script;
    crypto_provider = some p;
    card_id = card_id;
  }
  | none ↦ record {
    tar = tar_bytes cmd.tar;
    counter = counter_bytes counter_value;
    ciphering_key = keys.enc_key;
    signing_key = keys.auth_key;
    user_data = cmd.script;
    crypto_provider = none;
    card_id = "";
  }
]

-- True where the campaign's rate lets the message through.
unfoldable pub throttle_allows : World → String → CampaignParams → Bool
throttle_allows w campaign_id params = elim params.throttle_sms_per_sec [
  | none ↦ true
  | some rate ↦
      if ltb 0 rate
      then elim (w.acquire_throttle campaign_id rate) [ err e ↦ true | ok allowed ↦ allowed ]
      else true
]

unfoldable pub number_parts : ℕ → ℕ → List Bytes → List SmsPart
number_parts total i [] = []
number_parts total i (p ∷ ps) =
    (record { sequence = i + 1; total = total; ref_num = 0; payload = p })
    ∷ number_parts total (i + 1) ps

unfoldable pub sms_message : World → CardEvent → CardKeys → CardProfile → List Bytes → SmsMessage
unfolding number_parts
sms_message w event keys profile parts = record {
  msg_id = w.new_msg_id;
  campaign_id = event.campaign_id;
  card_id = event.card_id;
  msisdn = keys.msisdn;
  ton = 1;
  npi = 1;
  data_coding = byte profile.dcs;
  protocol_id = byte profile.pid;
  esm_class = 0x40;
  parts = number_parts (length parts) 0 parts;
}

-- The command, built and cut into the payloads of its messages.
unfoldable pub build_parts :
    World
    → CardEvent
    → CampaignContext
    → CardKeys
    → CampaignCommand
    → ℕ
    → Run (Bytes × (CardProfile × List Bytes))
unfolding build_command_packet command_input build_sec_profile split_for_concat
build_parts w event context keys cmd counter_value = do
  packet ← get build_command (
      build_command_packet w.ciphers (build_sec_profile cmd)
        (command_input w event.card_id keys cmd counter_value))
  profile ← get load_profile (w.card_profile keys.profile_id)
  parts ← get split_for_concat_failed (
      split_for_concat packet profile.buffer_size
        (elim context.params.max_concat_override [ none ↦ profile.max_concat_sms | some n ↦ n ])
        w.new_concat_ref)
  return (packet, (profile, parts))

unfoldable pub activated_state : World → CardEvent → CardState
activated_state w event = record {
  campaign_id = event.campaign_id;
  current_step = event.step;
  status = awaiting_dlr;
  retry_count = event.retry_count;
  last_msg_id = w.new_msg_id;
  last_event_id = event.event_id;
  transition_seq = 1;
}

unfoldable pub activated_change : World → CardEvent → CardStateChange
activated_change w event = record {
  campaign_id = event.campaign_id;
  card_id = event.card_id;
  status = in_progress;
  current_step = event.step;
  retry_count = event.retry_count;
  last_msg_id = w.new_msg_id;
  last_error = no_error;
  transition_seq = 1;
  stats_from = pending;
  stats_to = in_progress;
}

-- The publication of the message, with the log entry of its outcome.
unfoldable pub publish_message : World → CardEvent → SmsMessage → Bytes → Bytes → Run Done
publish_message w event message script packet = elim (w.sms_published message) [
  | err e ↦ do
    act (send_sms message)
    act (log_mt w.new_msg_id send_failed script packet)
    refuse (publish_sms e)
  | ok published ↦ do act (send_sms message); act (log_mt w.new_msg_id sent script packet)
]

-- Steps 12 to the end: the state is set before the message is published.
unfoldable pub send_command :
    World → CardEvent → CardKeys → CampaignCommand → Bytes → CardProfile → List Bytes → Run Done
unfolding activated_state activated_change publish_message sms_message write_card_change
send_command w event keys cmd packet profile parts = do
  act (set_card_state event.card_id (activated_state w event))
  publish_message w event (sms_message w event keys profile parts) cmd.script packet
  write_card_change w (activated_change w event)
  act_if w.has_web_socket (broadcast_status event.card_id in_progress)

-- A throttled event is scheduled again as it was, with a new identity.
unfoldable pub retry_throttled : World → CardEvent → Run Done
unfolding activate_event throttle_backoff schedule_activate_retry
retry_throttled w event =
    schedule_activate_retry w
      (activate_event w.new_event_id event.card_id event.campaign_id event.step event.retry_count)
      (throttle_backoff event.retry_count)

-- What is known once the command is built.
pub record Prepared : Type 0 where
  pub context : CampaignContext
  pub keys : CardKeys
  pub cmd : CampaignCommand
  pub packet : Bytes
  pub profile : CardProfile
  pub parts : List Bytes

-- Steps 2 to 10. The counter is used up before the command is built.
unfoldable pub prepare_command : World → CardEvent → Run Prepared
unfolding command_by_step require_command build_parts
prepare_command w event = do
  context ← get load_campaign_context (w.campaign_context event.campaign_id)
  cmd ← require_command event.step (command_by_step context.commands event.step)
  keys ← get get_card_keys (w.card_keys event.card_id)
  counter_value ← get get_counter (w.counter_value event.card_id cmd.application_id)
  get incr_counter (w.counter_incremented event.card_id cmd.application_id)
  act (increment_counter event.card_id cmd.application_id)
  (packet, built) ← build_parts w event context keys cmd counter_value
  return (record {
    context = context;
    keys = keys;
    cmd = cmd;
    packet = packet;
    profile = built.0;
    parts = built.1;
  })

-- Step 11 and on.
unfoldable pub launch : World → CardEvent → Prepared → Run Done
unfolding throttle_allows retry_throttled send_command
launch w event p =
    if throttle_allows w event.campaign_id p.context.params
    then send_command w event p.keys p.cmd p.packet p.profile p.parts
    else retry_throttled w event

unfoldable pub activate_running : World → CardEvent → Run Done
unfolding prepare_command launch
activate_running w event = prepare_command w event >>= (λ p. launch w event p)

unfoldable pub handle_activate : World → CardEvent → Run Done
unfolding activate_running
handle_activate w event = do
  running ← get get_campaign_status (w.campaign_running event.campaign_id)
  if running then activate_running w event else act (invalidate_campaign event.campaign_id)
