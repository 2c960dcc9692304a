-- ===== src/Executor/Actions.antt =====
-- What a handler does to the world, as a list in the order of the calls, and the world as it
-- answers. The stores, producers and caches that a worker is given are parameters: what they answer
-- at each call, an error of theirs being known by a number.
use Prim.Native.String.{String}
use ota_platform.Prelude.{ℕ, Bool, true, false, List, [], ◌∷◌, ◌++◌, Option}
use ota_platform.Prelude.Bits.{Bytes}
use ota_platform.Prelude.Results.{Result, ok, err}
use ota_platform.Gsm0348.Types.{CryptoProvider}
use ota_platform.Gsm0348.Crypto.{BlockCiphers}
use ota_platform.Executor.Types.{
  Status, DlrStatus, CardState, CardEvent, CardStateChange, CampaignContext, SmsMessage, LogStatus,
  ExecError,
}

pub data Action : Type 0 where
  invalidate_campaign : String → Action
  increment_counter : String → String → Action
  -- the call of SetCardState, whose error is only logged
  set_card_state : String → CardState → Action
  send_sms : SmsMessage → Action
  log_mt : String → LogStatus → Bytes → Bytes → Action
  log_mo : String → Bytes → Action
  log_dlr : String → DlrStatus → String → Action
  log_por : String → ℕ → Bytes → Action
  write_change : CardStateChange → Action
  broadcast_status : String → Status → Action
  broadcast_dlr : String → DlrStatus → Action
  broadcast_por : String → ℕ → Bytes → Action
  emit_event : CardEvent → Action
  -- an event to publish after a delay in milliseconds
  emit_later : CardEvent → ℕ → Action
  evict_card : String → Action

abbrev pub Done : Type 0
Done = Unit

pub record CardKeys : Type 0 where
  pub enc_key : Bytes
  pub auth_key : Bytes
  pub msisdn : String
  pub profile_id : String

pub record CardProfile : Type 0 where
  pub buffer_size : ℕ
  pub max_concat_sms : ℕ
  pub dcs : ℕ
  pub pid : ℕ

pub record World : Type 0 where
  pub ciphers : BlockCiphers
  pub crypto_provider : Option CryptoProvider
  pub is_new_event : String → Result ℕ Bool
  pub campaign_running : String → Result ℕ Bool
  pub campaign_context : String → Result ℕ CampaignContext
  pub card_keys : String → Result ℕ CardKeys
  pub counter_value : String → String → Result ℕ ℕ
  pub counter_incremented : String → String → Result ℕ Done
  pub card_profile : String → Result ℕ CardProfile
  pub acquire_throttle : String → ℕ → Result ℕ Bool
  pub stored_state : String → Result ℕ (Option CardState)
  pub sms_published : SmsMessage → Result ℕ Done
  pub event_published : CardEvent → Result ℕ Done
  pub change_written : CardStateChange → Result ℕ Done
  pub retry_slot_free : Bool
  pub has_card_state_writer : Bool
  pub has_web_socket : Bool
  -- the random reference of SplitForConcat
  pub new_concat_ref : ℕ
  -- uuid.New() of the run, for the message and for the event that the handler makes
  pub new_msg_id : String
  pub new_event_id : String

-- A run of a handler: the actions so far, and its result.
pub record Run {ℓ} (A : Type ℓ) : Type ℓ where
  pub actions : List Action
  pub result : Result ExecError A

abbrev pub after {ℓ} : {A : Type ℓ} → List Action → Run A → Run A
after before r = record { actions = before ++ r.actions; result = r.result }

infixl 5 ◌>>=◌ ◌>>◌
abbrev pub ◌>>=◌ {ℓ κ} : {A : Type ℓ} {B : Type κ} → Run A → (A → Run B) → Run B
m >>= f = elim m.result [
  | ok a ↦ after m.actions (f a)
  | err e ↦ record { actions = m.actions; result = err e }
]

abbrev pub ◌>>◌ {ℓ κ} : {A : Type ℓ} {B : Type κ} → Run A → Run B → Run B
m >> k = m >>= (λ _. k)

abbrev pub return {ℓ} : {A : Type ℓ} → A → Run A
return a = record { actions = []; result = ok a }

-- A handler's `return nil`.
abbrev pub done : Run Done
done = return tt

abbrev pub refuse {ℓ} : {A : Type ℓ} → ExecError → Run A
refuse e = record { actions = []; result = err e }

-- An action whose error, if any, is only logged.
abbrev pub act : Action → Run Done
act a = record { actions = a ∷ []; result = ok tt }

abbrev pub act_if : Bool → Action → Run Done
act_if true a = act a
act_if false a = done

-- The answer of a call, its error wrapped.
abbrev pub get {ℓ κ} : {E : Type ℓ} {A : Type κ} → (E → ExecError) → Result E A → Run A
get wrap (ok a) = return a
get wrap (err e) = refuse (wrap e)
