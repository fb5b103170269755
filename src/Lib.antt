-- ===== src/Lib.antt =====
-- FireFly Transaction Manager: a model of the program and the theorems about it.
--
-- The manager submits blockchain transactions through a connector and follows each of them until
-- it is confirmed. A transaction is stored by the persistence; the transaction handler keeps the
-- pending ones in flight, runs its policy over each of them in a loop, and hands every transaction
-- hash to the confirmations manager, which calls back with receipts and confirmations.
--
-- The files follow the program:
--   * Tx: pkg/apitypes/managed_tx.go, the managed transaction, its partial updates and their merge
--     (TXUpdates.Merge), and UpdateTransaction of internal/persistence/leveldb. Tx/External is
--     ApplyExternalTxUpdates, the update that a client asks for through the API.
--   * Handler: pkg/txhandler/simple. Handler/Submit is simple_transaction_handler.go (getGasPrice,
--     submitTX, processTransaction); Handler/Snapshot is pendingToRunContext, Handler/Policy is
--     execPolicy and flushChanges, and Handler/Loop is updateInflightSet, with
--     policyLoopCycle, processPolicyAPIRequests and the notifications in Handler/Loop/Requests, all of
--     policyloop.go.
--   * Confirmations: internal/confirmations. Blocks is the view of the chain that one round has
--     (getByNumber), Walk is walkChainForItem, Dispatch is dispatchConfirmations, Extend is what
--     processBlock does to an item, Height is light chain tracking, Receipts is dispatchReceipt,
--     Manager holds the pending items and the receipt queue, Listener is Notify and
--     processNotifications, and Rounds is processBlockHashes and a round of confirmationsListener.
--   * ConfirmedBlocks: internal/confirmations/confirmed_block_listener.go. Notified is
--     processBlockNotification, and Dispatcher the goroutine that reads and dispatches blocks, whose
--     steps between two releases of the lock interleave with notifications.
--   * Events: internal/events. Feed is eventLoop, Poll is batchPoll, Deliver is
--     performActionsWithRetry with the acknowledgements of websockets.go and the addresses of
--     webhooks.go, Checkpoints is generateCheckpoint, BatchLoop is batchLoop; Config is mergeValidateEsConfig and the CheckUpdate
--     functions of pkg/apitypes; Lifecycle is the start, the stop and the deletion of a stream, and the
--     updates of its listeners (Lifecycle/Update is UpdateSpec, Lifecycle/Options is
--     VerifyListenerOptions); Managed is PollAPIMangedStream.
--   * Nonces: internal/persistence/leveldb/nonces.go and the insertions of leveldb_persistence.go.
--     Nonces/Sequence is calcNextNonceFromTxs and a sequence of insertions of a signer; Nonces is
--     the locks of concurrent insertions, as steps of goroutines under a schedule.
--   * Writer: internal/persistence/postgres/transaction_writer.go. Writer is mergeTxUpdates, and
--     Writer/Nonces is assignNonces over the batches of a signer.
--   * BlockBuffer: internal/blocklistener, the goroutine of BufferChannel.
--   * Prelude: tests on numbers, lists and signed integers.
--
-- A run of the policy is an action of a monad over a Run, which holds the pending state, the run
-- context, the gas price cache and the calls made so far. The calls to the toolkit are recorded in
-- their order, and their answers are a parameter, a Toolkit for each run: nothing is supposed of
-- them unless a theorem says so. A panic of Go is an outcome of its own. A pointer to a structure
-- is an Option. Locks of the handler are left out, since only the loop changes a pending state
-- while it runs; metrics and logging are left out as pure output.
--
-- An item of the confirmations manager is known by its index in a heap, as by a pointer: the map of
-- pending items and the notifications share it. What the connector answers is a parameter, by how
-- many steps were made before the call, and sort.Sort is one as well. A block number is a uint64,
-- whose increment wraps around.
--
-- The one loop without a bound in the source is the walk up the chain. It has as fuel the number of
-- confirmations that are required, since each time round it ends or adds one of them. All other
-- functions run over lists that they are given.
--
-- An event stream keeps its listeners in the order of a list, in place of a map, each with its own
-- ID. Its checkpoints are texts of which only the connector knows the order. The loops of the stream
-- run over lists of what they meet, and say so where they wait for more. What a stop meets is an
-- argument of it: whether a goroutine that it waits for is blocked on the full batch channel.
--
-- A nonce is a uint64, and is stored as int64: where a store would take a negative one, its model
-- ends with `none`. A panic, a send on a nil channel and a call of a nil callback are outcomes too.
--
-- Not modelled: the REST API, the websocket server, the SQL persistence apart from its writer,
-- metrics, configuration and commands.
pub mod Prelude
pub mod Tx
pub mod Handler
pub mod Confirmations
pub mod Nonces
pub mod ConfirmedBlocks
pub mod Events
pub mod BlockBuffer
pub mod Writer
