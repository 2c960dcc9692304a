-- ===== src/Examples/Recoveries.antt =====
-- internal/pgstore/recovery.go after a start of the small campaign, and the two security profiles.
use Prim.Native.String.{String}
use ota_platform.Prelude.{
  ℕ, ◌≡◌, refl, ap, true, List, [], ◌∷◌, take, drop, some, All, All-take, All-drop, arith,
}
use ota_platform.Prelude.Results.{ok}
use ota_platform.Executor.Types.{CardEvent, awaiting_dlr, completed, pending}
use ota_platform.Executor.Profile.{build_sec_profile}
use ota_platform.Campaign.{Plane, CardRow, activation}
use ota_platform.Campaign.Profile.{Application, CommandRow, cache_command, build_security_profile}
use ota_platform.Campaign.Profile.Equivalence.{build_sec_profile-cache_command}
use ota_platform.Store.Recovery.{recovered_events, recover_campaign}
use ota_platform.Store.Recovery.Exactness.{open_events, ReadsParts, recover_campaign_lem}
use ota_platform.Examples.Campaigns.{
  plane, campaign, table, code, decode, unmarshal, card_text, card_code,
}

abbrev row : String → ℕ → CardRow
row card step = record {
  card_id = card;
  status = awaiting_dlr;
  current_step = step;
  retry_count = 0;
}

-- Two cards on their way, at the second step and before the first one, and one that is done.
abbrev rows : List CardRow
rows =
    row "card-a" 2
    ∷ record (row "card-b" 2) { status = completed }
    ∷ record (row "card-b" 0) { status = pending }
    ∷ []

abbrev after_crash : Plane
after_crash = record plane { cards = ok rows }

abbrev Coded : CardEvent → Type 0
Coded e = activation plane "campaign" e.step 0 (card_text (card_code e.card_id)) ≡ e

decode-code-Coded : (events : List CardEvent) → All Coded events → decode (code events) ≡ events
decode-code-Coded [] h = refl
decode-code-Coded (e ∷ events) (c, cs) = rw (c, decode-code-Coded events cs) refl

rows-Coded : All Coded (recovered_events after_crash campaign rows)
unfolding recovered_events activation
rows-Coded = (refl, (refl, tt))

after_crash-ReadsParts :
    ReadsParts unmarshal "campaign" after_crash (recovered_events after_crash campaign rows)
unfolding ReadsParts
after_crash-ReadsParts m n items e =
    let events = take n (drop m (recovered_events after_crash campaign rows)) in
    let same : code events ≡ items = cc e in
    rw (← same) (
      ap (λ t. some t)
        (decode-code-Coded events (All-take Coded n _ (All-drop Coded m _ rows-Coded))))

-- The three shards that were open before are replaced by one.
recover_campaign_lem_example :
    open_events unmarshal "campaign" (recover_campaign after_crash 5 campaign table).0
    ≡ recovered_events after_crash campaign rows
unfolding recovered_events recover_campaign
recover_campaign_lem_example =
    recover_campaign_lem unmarshal after_crash 5 campaign table rows (omega arith) refl
      (omega arith) after_crash-ReadsParts refl

abbrev app : Application
app = record {
  id = "app";
  tar = 0xB0 ∷ 0x00 ∷ 0x10 ∷ [];
  kic_algo = "DES";
  kic_mode = "TRIPLE_DES_CBC_2_KEYS";
  kic_keyset_id = 1;
  kid_algo = "AES";
  kid_mode = "AES_CBC";
  kid_keyset_id = 258;
  certification_mode = "CC";
  ciphered = true;
  counter_mode = "COUNTER_REPLAY_OR_CHECK";
  por_mode = "REPLY_ALWAYS";
  por_protocol = "SMS_SUBMIT";
  por_ciphered = true;
  por_cert_mode = "NO_SECURITY";
}

abbrev command : CommandRow
command = record { sequence = 1; application = app; script = 0xA0 ∷ []; expect_response = true }

build_sec_profile-cache_command_example :
    build_sec_profile (cache_command command) ≡ build_security_profile app
build_sec_profile-cache_command_example = build_sec_profile-cache_command command
