-- ===== src/Lib.antt =====
-- TeamIndex, a backend that runs pools of capital for football clubs: investors hold shares of a
-- vault contract, the backend reads the vaults' events, trades the capital on prediction markets
-- (Limitless, Polymarket) and publishes a price per share. This library models the parts of the
-- backend in TypeScript that decide about money and about what was read of the chain.
--
-- Parts and files, with the files of the repository that they model:
--   * Onchain (src/onchain): Onchain/RpcError and Onchain/LogChunks model ethersLogChunks.ts.
--     `error_text` is errorText, `chunks` the loop of queryFilterInBlockChunks, `retry` that of
--     queryFilterWithRateLimitRetry. Onchain/Failover models rpc.ts, `url_loop` and `urls_loop` the
--     two loops of withBaseRpcRetry. Onchain/PoolSync models poolSync.ts over those retries:
--     its children Logs, Booking (`deposits_loop`, `withdraws_loop`) and Touched
--     (`touched_holders`) are the loops of syncVaultEventsToDb, `balances_pass` reads the
--     balances of the holders.
--   * Workers (src/workers): Workers/EventCursor models chainEventCursor.ts, claim_, complete_ and
--     fail_chain_event_cursor on the table chain_event_cursors; Workers/VaultSync models
--     vaultSyncTicker.ts, `tick` with its loop `pools_loop`, which uses the cursors and the test for
--     rate limits of Onchain.
--   * Limitless (src/limitless): Limitless/Amounts, Config, OrderResult and Posting model
--     limitlessOrderClient.ts, `post_limitless_order` with the attempts of signAndPost.
--     Limitless/Book is its order book, with simulateMarketBuy, and OrderResult/Fill extractLimitlessFill.
--     Limitless/TokenId and Discovery model limitlessDiscoveryService.ts.
--     Limitless/Executor models limitlessExecutor.ts: Calls is a call that may stop, Wallet
--     ensurePoolLimitlessServerWallet, Checks the gates before the order, Trade the body of the `try`, Rows
--     the rows that it ends with, and `execute_limitless_tranche` claims the row and runs them. It uses the
--     rows of Services/Scheduler, which fills the same queue, and Services/RiskEngine.
--     Limitless/PositionSync models limitlessPositionSync.ts, `position_turn` a round of its loop.
--   * Polymarket (src/polymarket): Polymarket/TradeExecutor models tradeExecutor.ts,
--     `execute_claimed_trade_intent` with returnIdlePusdToVault, where the amounts of money.ts are numbers.
--     Polymarket/Allocation models allocationEngine.ts: Series, Edge and Correlation are the features
--     of markets, Sizing the linear algebra and the weights, Projection is projectConstraints,
--     Report the proposal, and Engine is runAllocationEngine. Polymarket/Accounting models
--     accountingService.ts: Pages is fetchDataApiPositions, Reconcile reconcilePoolPolymarket.
--     Polymarket/TradeIntents models splitAmount of tradeIntentService.ts, Polymarket/StableJson
--     stableJson.ts, Polymarket/Money the texts of money.ts, and Polymarket/DirectDeposit
--     directVaultDeposit.ts, which writes the rows of Onchain/PoolSync/Booking too.
--   * Services (src/services): Services/Scheduler models scheduler.ts and addMatchExecutionJob of
--     src/queues/bull.ts, `schedule_match_tranches` on the table club_match_queue, and
--     Services/RiskEngine models riskEngine.ts. Services/PriceEngine models priceEngine.ts,
--     `push` the part of recalculateOfficialPriceForPool that writes to the vault.
--   * Base: shared names, Boolean tests on numbers, lists, texts and the results of calls that throw.
-- Proofs stand in the children of a model (Coverage, Requests, Locking, Turns, Once, Outcomes,
-- Budget, ...), runs at concrete inputs in a module Tests of each part.
--
-- How state and outside services are modelled. A table of the database is a function from its key to
-- a row, or a list; a database call is one atomic step on it, and interleavings of workers are lists
-- of such calls, or calls of services that return a changed table. A database call does not fail,
-- but for the unique columns that a model names. The node, the exchanges, the relayer, the timer, the
-- clock and random numbers are records of functions on a state `W` (Rpc, Node, Api, Trading, Services,
-- Queue, Exchange, Venue, Polymarket, Polygon), arguments of the code that uses them; nothing is
-- assumed of their answers unless a theorem says so.
-- A theorem on the calls made runs the code with services that also keep them (`traced`). A call
-- that throws returns `throw`. Error texts that carry values are kept as their fixed part.
--
-- Numbers. Blocks, times and counts are natural numbers. Prices and amounts that the code computes in
-- floating point are whole numbers of a small unit, each file says which, with exact arithmetic.
-- The allocation engine is modelled over a record of operations on numbers (Allocation/Number), so that
-- its definitions are the source's for floating point too; its theorems use the laws of
-- Allocation/Laws, which are those of exact arithmetic, and Allocation/Fixed has an instance. NaN and
-- infinite values are left out.
-- Fuel: the retry loop of LogChunks has the retries and one round more, the chunk loop a round for
-- each block of the window and one more; a chunk has a block at least, so both are enough. The loop
-- over pages has 22 rounds, one for each offset up to 10000 and one in which the test fails. The fuel
-- of splitAmount is an argument, as its loop need not end; that of `digits` is more than the number.
--
-- Not modelled: HTTP routes and authentication, the clients' requests and their JSON, WebSocket
-- feeds, logging, the Solidity contracts (src/contracts has only their ABIs) and scripts; the copies of
-- markets and portfolios of the Limitless API (limitlessPortfolio.ts, limitlessSyncService.ts), which are
-- mostly the parsing of its JSON; refreshPoolAccounting, which adds up rows in floating point and sends
-- the value to the vault; and code behind a first line that throws (createPoolDepositIntent,
-- executeNextTradeIntent, activateAllocationProposalV2).
pub mod Base
pub mod Onchain
pub mod Workers
pub mod Limitless
pub mod Polymarket
pub mod Services
