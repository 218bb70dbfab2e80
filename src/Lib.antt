-- ===== src/Lib.antt =====
-- The trading back end of arc-smart-orders (the folder arc-intel): a Telegram bot and a small web
-- server that keep users' signed orders, keepers that submit them on chain, the approval of trades,
-- positions and exits, and the money around them (fees, tiers, referrals).
--
-- Orders live in the table `preorders` of arc-intel/bot/store.py. A wallet hands in a signature over
-- `POST /sign` (arc-intel/bot/sign_server.py), which makes an order `signed`; a pass of the keeper
-- (arc-intel/execution/keeper.py) claims each signed order that is due, submits it, and marks it
-- executed or puts it back. Its owner may cancel it at any time. Confirmed trades become fills, which
-- update the positions by average cost (arc-intel/execution/positions.py) and earn the buyer's
-- referrer a commission (arc-intel/monetization/referrals.py). The copy engine
-- (arc-intel/execution/copy_keeper.py) mirrors the trades of other wallets, block by block. The
-- session keeper (arc-intel/execution/session_keeper.py) signs armed orders with a user's session key.
--
-- Files:
--   Prelude     names of the library, Boolean tests, lists, texts, integers
--   Sql         UPDATE, DELETE and count with a WHERE, on a list of rows
--   Orders      bot/store.py, the table preorders; a method is the function of its name, with the
--               table last. Below it: Lookup (what a row becomes under an update), Claim, Valid, Due,
--               Reached, Cancel, and Sample for the tests
--   Keeper      execution/keeper.py; `submit` and `on_executed` are parameters, and `submit` returns
--               the table as other connections have left it. Below it: Pass, Race
--   SignServer  bot/sign_server.py, `POST /sign`. Below it: Revive
--   Float       Python's floats as an interface, with the laws of IEEE 754 that are used. Below it:
--               Exact, whole numbers as an instance
--   Permissions security/permissions.py. Below it: Story (histories), TwoFactor
--   Strategy    execution/strategy.py. Below it: HighWater
--   Positions   execution/positions.py. Below it: Bounds
--   Fills       bot/store.py, record_fill and the referral tables. Below it: Once, Credits
--   Tiers       monetization/tiers.py and fees.py. Below it: Bounds
--   Copy        execution/copy.py. Below it: Limits
--   CopyEngine  execution/copy_keeper.py, the loop over a leader's trades, and copy_wallets. Below it:
--               Pass (the loop over the wallets, and Pass/DryRun), Advance, Retry, Wallets
--               (who follows whom)
--   AntiWash    monetization/antiwash.py. Below it: Pairs, RoundTrips, Small
--   Contest     monetization/contest.py. Below it: Rounds, Prizes, Winner,
--               Ledger (the contest of bot/store.py), Straddle,
--               Publish (bot/contest_publish.py) and Publish/Once
--   SessionKeeper
--               execution/session_keeper.py and the table sessions of bot/store.py; the
--               JSON parser, and signing with submission, are parameters. Below it: Guards,
--               Overlap, Revoked
--   ApprovalService
--               bot/approvals.py over the table approvals of bot/store.py. Below it: Simulation
--   Backfill    indexer/backfill.py, the fetching of logs and the search for the launch block, with
--               the gaps of indexer/storage.py. Below it: Coverage, Launch,
--               Rows, and Runs (the runs over chunks, with Runs/Stored, Runs/Ends, Runs/Safe and
--               Runs/Safe/Cursor)
--   Abi         words of the ABI, read as in indexer/processor.py and written as in
--               execution/sessions.py. Below it: Words, Join
--   Keccak      the hash and the selectors of indexer/token_risk.py
--   Calldata    the calldata of execution/sessions.py. Below it: Arguments
--   Events      indexer/models.py and the decoding of indexer/processor.py. Below it: RoundTrip
--   EventStore  indexer/storage.py, the tables that the event processor writes
--   Processor   indexer/processor.py, the class EventProcessor. Below it: Replay (Replay/Keys,
--               Replay/Inserts), Raises, Idempotent, Trades
--   State       the table state of bot/store.py. Below it: RoundTrip
--   Custody     the tables of custody of bot/store.py. Below it: Addresses
--   CustodyServer
--               the custody handlers of bot/sign_server.py. Below it: Factor, Withdraw (the handler of
--               withdrawals, with Withdraw/Allowed and Withdraw/Cap)
--   Subscriptions
--               the tables of subscriptions of bot/store.py. Below it: Auto (linked wallets, with
--               Auto/Unlink)
--   TokenMeta   indexer/tokenmeta.py
--   Pnl         indexer/pnl.py, from swaps to closed trades. Below it: Ledger
--   Holdings    holdings and exit plans of bot/store.py
--   AutoProtect execution/autoprotect.py, with two queries of bot/miniapp_data.py. Below it:
--               Sales, Complete
--   Sender      bot/sender.py. Below it: Drops
--   Throttle    bot/throttle.py. Below it: Pace
--   Alerts      the alert tables of bot/store.py. Below it: Spacing
--   Detect      indexer/alerts.py, the rules on sales of creators, collapses of volume and
--               withdrawals of liquidity
--   Stream      indexer/stream_alerts.py, the class IncrementalState. Below it: Apply (apply_leg), Feed
--               (the loop of bot/telegram.py over it), Creators with Creators/Signals, Creators/Legs and
--               Creators/Swaps
--   Tests       every theorem with hypotheses at a concrete input. Below it: Money,
--               Copying, Rounds, Sessions, Approvals,
--               Indexing, Custodial, Ledgers, Events, Protecting,
--               Backfilling, Streaming
--
-- State is passed explicitly: a table is a list of rows in the order of their row numbers, a
-- method that writes returns the new one. Each SQL statement is atomic, as sqlite makes it; what
-- several connections do is a sequence of statements. Loops run over lists, but for three of Backfill,
-- which run on fuel: the splitting of a range of blocks, for which Coverage says how much is enough;
-- the chunks of a run, whose rounds are the blocks that are left and which does not end well if they
-- are spent before the blocks are; and the binary search, which is given the head's number and ends
-- within it (Launch).
-- Times are natural numbers and arguments; readings of the clock that follow each other at once, with
-- no call between them that waits, are one argument. Exceptions are values: `raised` of the keeper's Outcome,
-- `raise` of Positions.Result, an Answer of Sender that is not `sent`, `false` of a call of AutoProtect's
-- Chain that signs, `none` of an Option elsewhere. Texts are compared and put in lower case as ASCII.
--
-- Not modelled: HTTP, JSON and Telegram plumbing, HTML and messages; cryptography, RPC and the
-- program `cast`, which are not part of this repository; the loggers, which only print;
-- of the indexer, what the files above do not name; rankings and scores; the Python SDKs.
pub mod Prelude
pub mod Sql
pub mod Orders
pub mod Keeper
pub mod SignServer
pub mod Float
pub mod Permissions
pub mod Strategy
pub mod Positions
pub mod Fills
pub mod Tiers
pub mod Copy
pub mod CopyEngine
pub mod AntiWash
pub mod Contest
pub mod State
pub mod Custody
pub mod CustodyServer
pub mod Throttle
pub mod Alerts
pub mod Subscriptions
pub mod TokenMeta
pub mod Pnl
pub mod SessionKeeper
pub mod ApprovalService
pub mod Backfill
pub mod Abi
pub mod Keccak
pub mod Calldata
pub mod Events
pub mod EventStore
pub mod Processor
pub mod Holdings
pub mod AutoProtect
pub mod Sender
pub mod Detect
pub mod Stream
pub mod Tests
