-- ===== src/Lib.antt =====
-- Verification library of the OTA platform, which sends remote commands to SIM cards: a control
-- plane plans campaigns, workers build the commands of each card and follow it from step to step, a
-- gateway exchanges short messages with an SMSC. This library models the codecs, the worker's
-- handlers, the gateway's tables, the life of a campaign from its start over the planner to its end,
-- and the stores of counters and card states.
--
-- Prelude: lists, tests, bytes and results over the native numbers.
-- Hex: pkg/hexutil/hex.go (Encode, Decode, BERLength).
-- SmsFrame: pkg/smsframe. Frame and Split are frame.go (FrameOTASMS, SplitForConcat), Udh and
--   Reassembly are reassemble.go (ParseUDH, AddPart). Split/Parts, Reassembly/Loop,
--   Reassembly/Sessions, Reassembly/Orders and RoundTrip are proofs.
-- Gsm0348: pkg/gsm0348. Types is types.go; Header, Crypto and Command are builder.go
--   (BuildCommandPacket and its helpers); Response is response.go (ParseResponsePacket,
--   decryptData). Header/Fields, Crypto/Padding, Crypto/Cbc, Command/Layout,
--   Command/Outcome, Response/Safety and Response/RoundTrip are proofs.
-- Executor: internal/executor. Profile is helpers.go and buildSecProfileFromCache; Types has the
--   records of internal/redis/state.go and internal/pipeline/types.go; Advance, Retry, Activate,
--   Delivery, Answer and Dispatch are worker.go (advanceOrComplete, scheduleActivateRetry,
--   handleActivate, handleDLR, handleMO, HandleCardEvent). Counter, Steps, Sequence, Forgets,
--   Order, Terminal, Retries and Failing are proofs.
-- Gateway: internal/transport/inprocess_gateway.go. Tables has the correlations and the multipart
--   tracking (recordPartDLR) and the clean-up (cleanupCorrelations), Submit is HandleSendSMS and
--   handleSubmitFailure, Receipts is handleDLR and handleMO. Aggregation and Failures are proofs.
-- GlobalPlatform: pkg/globalplatform/apdu.go (DELETE, INSTALL, LOAD and toolkit parameters). Reading
--   and Blocks are a card that reads them.
-- Shards: the table of campaign shards, internal/db/models.go.
-- Planner: internal/planner/service.go (publishBatch, publishClaimedShards, Run). Outcomes, Orders,
--   Ticks, Draining and Logging are proofs.
-- Campaign: internal/controlplane/campaign.go. Targets is forEachCampaignTargetBatch, the parent
--   StartCampaign, Resuming has PauseCampaign, ResumeCampaign, AbortCampaign and runCompletionChecker
--   of cmd/ota-engine/main.go, Retrying is RetryFailedCards of
--   internal/controlplane/api_campaigns.go, Profile the cached commands and buildSecurityProfile.
--   Starting, Stalling, Publishing, Life and Profile/Equivalence are proofs.
-- Store: internal/pgstore. Counters is counter_store.go, Writer is card_state_writer.go
--   (its loop in Writer/Loop), Recovery is recovery.go, Coordination is coordination.go, Multipart
--   is gateway_coordination.go.
--   Counters/Index, Counters/Eviction, Recovery/Exactness, Coordination/Staleness,
--   Multipart/Agreement and the other children of Writer are proofs.
-- Examples: small inputs, with toy block functions and a world in which calls succeed.
--
-- How the parts meet: the worker calls the builder and the splitter when it activates a card and the
-- response parser when a card answers; it hands its message to the gateway, whose events (Receipts)
-- come back to the worker's handlers. A campaign that is started writes its targets into shards, the
-- planner publishes the shards' events to the workers, and the workers' state changes go through the
-- writer into the statistics that the completion checker reads.
--
-- Correspondence. A byte is a number below 256; where the code narrows to a byte, the model takes
-- the remainder. A slice out of range is an error value of its own. A fallible function returns a
-- Result, a handler of the worker the list of its actions in order and its Result; what the stores,
-- producers, clocks and random numbers answer is a parameter (World, Line). The block functions of
-- DES and AES are parameters (BlockCiphers), triple DES and CBC are written out over them. Statuses
-- and event types, strings in the code, are data types with a constructor for any other text. Steps,
-- retry counts and transition numbers, which count up from small values, are not bounded.
--
-- Fuel. The walk over a message header takes as many rounds as the header has bytes, which is
-- enough as each round moves on by two bytes; the loops of AddPart take a number of rounds, where
-- any number above the count of parts is enough, except for 255 parts, where none is. The loop over
-- the targets of a campaign takes a round for each target and one more, the loops over load blocks,
-- INSERTs and resumed events a round for each byte, row and event, since each round takes one or more.
--
-- Not modelled: CAP files, which are ZIP archives, and the loading of cards and keys from PostgreSQL;
-- the worker's caches; the HTTP interface, connections, metrics, tools, tests and the web client,
-- which are input and output.
pub mod Prelude
pub mod Hex
pub mod SmsFrame
pub mod Gsm0348
pub mod Executor
pub mod Gateway
pub mod GlobalPlatform
pub mod Shards
pub mod Planner
pub mod Campaign
pub mod Store
pub mod Examples
