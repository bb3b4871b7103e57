-- ===== src/Lib.antt =====
-- Models of the Go packages of this repository: clients of Azure blob storage (azblob) and of
-- Azure service bus (azbus), signed COSE messages (cose) with their encoding (cbor), the keys
-- and secrets of key vaults (azkeys), the set-up of tracing (tracing), the logger (logger), the
-- reading of secrets (secrets) and connections of gRPC (grpcclient).
--
-- The parts, and where they are:
-- - Prelude: shared types and lemmas. A Go call returns an Outcome (a value, an error or a
--   panic). A call that acts on a world outside the program is an Exec, a function of that
--   world, which comes back beside an error too. Maps are association lists (Dict), and int64
--   arithmetic wraps.
-- - Azblob, for azblob/: Error (error.go), Options (options.go), Conditions
--   (accessconditions.go), HashingReader (hashingreader.go), Service (the SDK, below), Response
--   (readresponse.go and writeresponse.go), Upload (upload.go, put.go, delete.go), Multipart
--   (WriteStream and streamReader of upload.go), Download (download.go), with DownloadToWriter
--   in Download.Copy, Listing (list.go), Lease (lease.go) and Clients (reader.go,
--   readeroptions.go, storer.go, storerazurite.go and credentials.go). A method of Storer is a
--   function of the service that its container client speaks to. ReadBack puts WriteStream and
--   Reader together.
-- - Azbus, for azbus/: Error (error.go), Bus (the SDK, with azclient.go and azadmin.go), Sender
--   (sender.go), Disposition (disposition.go), Receiver (receiver.go, message.go), Pool
--   (receiveMessages of receiver.go), Batch (batchreceiver.go) and Messages (outmessage.go,
--   receivedmessage.go, tracing.go); Protocol says in which order a connection of the SDK may be
--   used, and Protocol.Keeps how an object's methods keep to it, with Protocol.Changes. A method
--   acts on its object's state and on the bus.
-- - Cose, for cose/: Value (a header's decoded values, and what cose.go reads from it), Key
--   (key.go, ec_key.go, ec_cose_alg.go), Rsa (rsa_key.go), Claims (cwt_claims.go, the claims of
--   cose.go, and cwtpublickeyprovider.go), NewClaim (cnfclaim.go), Verify (verification in
--   cose.go, and publickeyprovider.go) and Message (the making and signing of messages in
--   cose.go, options.go and signature.go), Sent (from signing to the reading of what is sent),
--   Texts (the texts of errors.go), with the options of Cbor, for cbor/.
-- - Azkeys, for azkeys/: KeyVault (keyvault.go), with the paging of versions in KeyVault.Pages,
--   Secrets and Authorizer (secretvault.go), Token (aad.go), Signing (the signatures of
--   keyvault.go, and coseSigner.go) and TestSigner (testCoseSigner.go).
-- - Tracing, for tracing/: Pod (trimPodName), Headers (HeaderMatcher), Context (spans, and New)
--   and Setup (NewTracer, NewFromEnv and environment.go).
-- - Logger, for logger/, with New and OnExit in Logger.Setup, and Secrets, for secrets/.
-- - Grpcclient, for grpcclient/client.go.
-- A child module Laws holds what is proved of its parent; where there is more, the children are
-- named for it: Multipart.Content, Multipart.Described, Multipart.Once, Multipart.Limit,
-- Pool.Account, Pool.Stuck, Sender.Protocol, Sender.Trace, Receiver.Rounds, Receiver.Protocol,
-- Receiver.Window, Receiver.Locks, Batch.Protocol, Claims.Made, Secrets.Listed.
-- Scenarios, Transfers, Accounts, Memory, Deliveries, Signing and Journey of Cose, and Signers
-- hold the concrete services and runs.
--
-- The Azure SDK is not part of this repository. It is a parameter, the record Service of
-- Azblob.Service and the record Bus of Azbus.Bus: the reply to a call is any function of the
-- calls made before it. So are the COSE and CBOR libraries (CoseLibrary of Cose.Verify,
-- SignLibrary of Cose.Message, with KeyPairs and Sending, Cbor of Cose.NewClaim.Laws, CborModes
-- of Cbor), the key vault's client (Vault of Azkeys.KeyVault, SigningVault, SecretClient),
-- AzureSdk of Azblob.Clients, Zipkin in Tracing.Setup and Tracing.Context, Zap and ZapLibrary of
-- Logger, Http and Json of Azkeys.Token, and the gRPC library in Grpcclient. The calls of the
-- first two and of the gRPC library are recorded in order with their arguments, and so are the
-- opening, closing and calling of message handlers, which are the users' code.
--
-- Goroutines: Azbus.Pool is a step relation of the receiving loop, the workers and the caller of
-- Shutdown, in which a channel is a bounded list and a WaitGroup a counter. Receiver.Protocol and
-- Batch.Protocol take the parts of Listen and of its workers in any order with open, close_ and
-- Shutdown, of which each runs to its end before the next part: a use of a receiver that is nil
-- then panics. In the program close_ does not wait for the loop, and Receiver.Window is about the
-- time between the closing of the SDK's receiver and r.receiver = nil.
--
-- Fuel: Count of azblob/list.go loops until the service names no next page, which it may never
-- do; count has fuel for the pages it asks for, and fuel above the number of the later pages is
-- enough. Reading a reader to its end has fuel for one call more than the reader has results,
-- which is enough. receive_batches has fuel for the batches, as its loop only ends by an error.
-- The pages of a key's versions are a finite list.
--
-- Not modelled: what is logged, but for the lines that the logger makes of its arguments and the
-- warnings about a message's lock; how contexts end what runs under them; texts made by formats,
-- but for the errors of cose and the names of receivers; the packages of aliases and mocks.
mod Prelude
pub mod Azblob
pub mod Azbus
pub mod Cbor
pub mod Cose
pub mod Azkeys
pub mod Tracing
pub mod Grpcclient
pub mod Logger
pub mod Secrets
