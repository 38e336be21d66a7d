-- ===== src/Lib.antt =====
-- The controller side of the Surface Export plugin, which moves space platforms between Factorio
-- instances of a Clusterio cluster. The code is in
-- docker/seed-data/external_plugins/surface_export/, and the paths below start there.
--
-- A platform is exported and locked on its source instance, imported on its destination, validated
-- there, and then deleted on the source (success) or unlocked (failure). The controller carries this
-- out: lib/transfer-orchestrator.ts holds the handlers, which keep their records in the maps of
-- controller.ts, send requests to the instances, write what happened to lib/transaction-logger.ts and
-- to the audit ledger (lib/audit-ledger.ts), and tell the web pages through
-- lib/subscription-manager.ts. The pages use shared/live-status.ts and shared/revision-gate.ts.
--
-- Which file models which part:
--   CanonicalId     shared/utils.ts: makeCanonicalTransferId, parseCanonicalTransferId
--   Cluster         lib/platform-tree.ts: resolveInstanceName, resolveTargetInstance;
--                   controller.ts: isInstanceOnline
--   Transfer        messages.ts and shared/dto.ts: the records
--     World         the controller's maps, and a trace of messages and calls; updateTransfer,
--                   broadcastTransferStatus, startPhase, endPhase
--     Unlock        sendUnlockRequest, tryUnlockSource; helpers.ts: isBenignUnlockError
--     Operation     lib/operation-record.ts: createOperationRecord
--     Pending       controller.ts: persistPendingTransfer, prunePendingTransfersInMemory; Restart:
--                   persistPendingTransfers, loadPendingTransfers
--     Start         transferPlatform, handleImportFailure, enterAwaitingValidation,
--                   getValidationTimeoutMs, scheduleValidationTimeout
--     Verdict       handleTransferValidation, handleValidationSuccess, handleValidationFailure,
--                   pruneOldTransfers, also in Retained, Stored, Pruned and Written;
--                   controller.ts: removePendingTransfer
--     Timeout       the callback of scheduleValidationTimeout; Settles: the launch and the timer
--     Escrow        runs of verdicts and timeouts, and the abstract view that they follow
--     Request       handleStartPlatformTransferRequest, handleTransferPlatformRequest
--   InstancePlugin  instance.ts, with the remote calls of lib/lua-interface.ts
--     Exports       exportPlatform, getExportData, waitForExportData, handleExportPlatformRequest
--     Transfers     handleExportComplete, startControllerTransfer, handleTransferRequest
--     Verdict       handleImportCompleteValidation
--     Source        the requests about a source platform; lib/source-lock-state.ts
--     Imports       importPlatform, importPlatformFromFile; Setup: onStart and what it calls
--     Events        what init registers
--   Ledger          lib/audit-ledger.ts: buildAuditRow, foldAuditRows, countRevisions
--     Rotation      rotateIfNeeded, appendAuditRow, readLedgerFile, loadAuditLedger
--     Index         controller.ts: loadAuditIndex, migrateAuditLedger, recordAuditRow
--   Detail          lib/detail-retention.ts: selectRetainedDetail; lib/transaction-logger.ts:
--                   applyDetailRetention
--   Log             lib/transaction-logger.ts: logTransactionEvent, getLastEventTimestamp,
--                   archiveRecycledTransferId, pruneTransactionLogsMap
--     Persist       persistTransactionLog, loadTransactionLogs
--   Subscriptions   lib/subscription-manager.ts
--   Gateways        shared/dto.ts: names, parseGatewayMode, checkMultiModeLink; controller.ts:
--                   gatewayKey, parseGatewayKey, resolveGateways
--     Set           handleSetGatewayLinkRequest, persistGatewayConfig, pushGatewayConfigToInstance
--     Load          loadGatewayConfig
--     Read          handleGetGatewaysRequest, handleGetGatewayConfigRequest
--   Graph           web/gateway/gateway-graph.ts: applyConnect, applyDisconnect, editsFromLinks,
--                   directedLinks; Edges: buildEdges, gatewayUsage, dirtyKeys; Nodes: buildGraph,
--                   preservePositions
--   Ships           shared/transfer-status.ts
--   PlatformTree    lib/platform-tree.ts: instanceAddress, requestInstancePlatforms,
--                   applyActiveTransferState, buildPlatformTree
--   LogView         lib/transaction-logger.ts: getTransferSummaries and what it calls; controller.ts:
--                   handleListTransactionLogsRequest, handleGetTransactionLog
--   Storage         controller.ts: handlePlatformExport, cleanupOldExports, persistStorage,
--                   loadStorage, canonicalizeStoredExport, and the views of stored exports
--   Operations      controller.ts: createOperationRecord, failOperation,
--                   handleImportUploadedExportRequest, handleImportOperationCompleteEvent
--     Download      handleExportPlatformForDownloadRequest
--   Payload         helpers.ts: toAsciiJson, simpleChecksum, bracketWrap, chunkify
--     Session       lib/lua-interface.ts: configureGateways
--     Import        helpers.ts: sendChunkedJson
--   Timeline        shared/transfer-timeline.ts: mergeIntervals, gapsWithin
--     Rows          the end of buildTransferTimeline: trimming, attributed and residual time
--   Messages        messages.ts: jsonSchema, constructor, fromJSON and toJSON of each class
--     Classes       index.ts: the classes registered with the link
--   Comparison      web/utils.ts: buildExpectedActualRows
--   Live            shared/live-status.ts, shared/revision-gate.ts
-- Prelude and JsMap are shared: numbers, lists, sorting, and the `Map` objects as lists of entries.
--
-- How state and effects are modelled. A handler is a function from a World to a World. The answer of
-- an instance and the clock are functions of the trace so far, so an answer may depend on all that
-- was done. While a start request waits for its export, other handlers may change the stored
-- exports; at the other awaits a handler is not interrupted by another one. A call that throws is a
-- constructor of its result. A `Map` is a list of entries in insertion order.
--
-- The loops of the code are over lists, or over the generations of the ledger, but for three: chunkify
-- runs on fuel, the length of the text, which is enough since each turn advances by the size of a
-- chunk; waitForExportData on its timeout, since each turn passes a millisecond or more; and
-- bracketWrap tries nine levels, as the code does.
--
-- Not modelled: metrics, item and fluid counts and the phase made of them, which no decision reads;
-- the wording of log lines and refusals; JSON texts, of which a ledger line keeps its row; writes that
-- stop half way; the payload of an export but for its size; the schemas of nested objects and of
-- answers; the detailed summary of a transfer and the roster of controller.ts; control.ts, index.ts but
-- for its list of messages, and the React pages of web/; the Lua module, which runs inside the game.
mod Prelude
pub mod JsMap
pub mod CanonicalId
pub mod Cluster
pub mod Comparison
pub mod Messages
pub mod Detail
pub mod InstancePlugin
pub mod Graph
pub mod Ledger
pub mod Live
pub mod Gateways
pub mod Log
pub mod LogView
pub mod Operations
pub mod Payload
pub mod PlatformTree
pub mod Ships
pub mod Storage
pub mod Subscriptions
pub mod Timeline
pub mod Transfer
