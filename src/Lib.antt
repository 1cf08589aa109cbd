-- ===== src/Lib.antt =====
-- A market-making bot for a stablecoin pool on Uniswap V3. A price loop reads the pool, a rebalance
-- loop decides under the control of a risk engine and sells or buys to move the price back, a monitor
-- loop stops the bot when the circuit breaker is active, and an HTTP API reads and controls all of it.
--
-- Which file models which part (paths from the repository's root):
-- - Config: config/config.go, the configuration that every part holds.
-- - Risk: pkg/risk/engine.go; `check_risk` is CheckRisk, `record_trade` RecordTrade, and so on. The
--   clock's reading is an argument. Below it Breaker, Verdict and Counters hold the proofs.
-- - Ticks: PriceToTick, AlignTickToSpacing and CalculateTickRange of pkg/executor/service.go, and the
--   like functions of pkg/uniswap/client.go and pkg/position/manager.go.
-- - Amounts: calculateTokenAmounts of pkg/executor/service.go, on big integers.
-- - Chain: what the program asks of go-ethereum, of its generated bindings (pkg/contracts), of the clock
--   and of the network: the parameter `Chain W`, over any type W of worlds. Chain/Carried is a chain
--   that carries a record of its calls, Chain/Watched one that keeps what could move the bot's funds.
-- - Erc20: pkg/executor/erc20.go. Executor/Core, Trades and Tiers: pkg/executor/service.go. A Go pair of
--   a result and an error is `Returned`. Receipts, Reports, Mined, Live, Completes and View hold the
--   proofs; `IsLive` of Executor/Live says that the library's calls come back with a value or an error,
--   and that every transaction is mined after fewer fruitless polls than the fuel.
-- - Position: pkg/position/service.go, and Position/Manager: pkg/position/manager.go. Position/Book is the
--   map of layers as a quotient that forgets the order of its entries.
-- - Uniswap: pkg/uniswap/client.go and pkg/oracle/service.go.
-- - Rebalancer/Core, Rules and Actions: pkg/rebalancer/service.go. Its state holds the risk engine,
--   which it shares with the API and the monitor, and the world. Race takes ExecuteStabilization apart
--   into a decision and what is done about it, for two callers side by side. Keeps, Held, Rests, Live
--   and the other modules below it hold the proofs.
-- - Monitor: pkg/monitor/service.go. Monitor/Profit is about the profit that it reports.
-- - Api/Server, Handlers, Liquidity, SwapHandler and Routes: pkg/api/service.go. A handler is a call on
--   the server's state that answers a code and a body; Routes is the table of setupRoutes. Effects,
--   Codes and the other modules below it hold the proofs.
-- - Bot/Core: main.go, the construction of the bot and the ticks of its loops. Bot/Machine takes the
--   ticks and the requests that control the rebalancer as events, in any order, Bot/Moves adds the
--   starts and the background rebalances, and Bot/Inputs every request of the API. Its `IsClosed` is
--   what a property must bear to hold after all inputs; Sound, Reach, Average, Unfed, Stopped, Stale,
--   Hands and Served are about the runs. Bot/Loops is main itself: its
--   turns are the cases of the loops' selects, the signal, and what the API brings about; Quiet and
--   Shutdown are about them.
-- - Cli: main.go, handleCreatePool and handleAddLiquidity. `log.Fatalf` is an error, and what a command
--   prints of the receipt is its value. Cli/Encode is the call data, over go-ethereum's functions as a
--   parameter `Codec`, whose laws `IsCodec` state what those functions document. Cli/Recording is a
--   chain that keeps what it signs, Executor/Sells one that keeps the swaps.
-- - Scripts/Root: the helper sqrt of scripts/deploy_vault.go.
-- - Base: integers with Go's wrap-around, instants in nanoseconds, Go's errors and panics as outcomes,
--   decimal numbers; Base/Settles is about calls that come back. Sample and the modules named Examples
--   run the theorems on concrete inputs.
--
-- Numbers: `int` and `int64` wrap to 64 bits where the source computes with them, big integers do not.
-- Floating-point numbers are the interfaces of Base/Float; a theorem that needs a law of them names it,
-- and Base/Fixed meets the laws with fixed-point numbers.
--
-- Fuel: the poll for a receipt repeats without a bound in the source. Here it takes fuel, and any fuel
-- above the number of the polls that find nothing is enough. The retries of a stabilization are three,
-- as in the source. `bytes_with` takes the number itself as fuel, which is more than its digits, and
-- `sqrt` two rounds, of which one is used. All other loops are recursion on their data.
--
-- Not modelled: the generated bindings, gin's matching of paths and JSON, logging, the timers of the
-- loops, the deadlines of contexts (a call that runs into one fails), the values of `big.Float` that are
-- not finite, on which some of its operations panic, the getters that hand out a field
-- or pass a call on, the main functions of the scripts, which do not compile, the web front end and the
-- Solidity sources.
-- Calls are whole steps, but for those of Rebalancer/Race: the source guards the metrics by a lock, and
-- shares the rest without one. A handler that panics is recovered by gin: the state that it had reached
-- is kept.
pub mod Base
pub mod Config
pub mod Risk
pub mod Ticks
pub mod Amounts
pub mod Chain
pub mod Erc20
pub mod Executor
pub mod Position
pub mod Uniswap
pub mod Rebalancer
pub mod Monitor
pub mod Api
pub mod Bot
pub mod Cli
pub mod Scripts
pub mod Sample
