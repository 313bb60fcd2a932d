-- ===== src/Lib.antt =====
-- pump-swap-sdk, a Rust client library for pump.fun's constant-product pools, the pump-amm program.
-- It decodes the program's accounts, prices swaps with the program's own rounding and fees, builds
-- its instructions, and wraps both in a client that reads accounts over RPC.
--
-- Parts and files:
-- * src/constants.rs is Constants. A public key is the number of its 32 little-endian bytes.
-- * src/state.rs is State. State/Reader is the struct `Reader` as a decoder on the bytes that are
--   left; `u64_array` and `pubkey_array` are `array` over the element's decoder. State/Pool holds
--   `Pool`, `TokenSide` and `PoolInfo`; State/Fees `Fees`, `FeeTier` and `FeeConfig`; State/Config
--   `GlobalConfig`; State/Volume the two volume accumulators; State/Sharing `SharingConfig` and
--   `bonding_curve_creator_fee`. `read_…` is what a `from_account_data` does behind the
--   discriminator.
-- * src/math.rs is Math: Math/Curve the curve, its inverse and the market cap, Math/Quote the quotes,
--   Math/Binary64 the arithmetic of `f64`.
-- * src/util.rs is Util: Util/Seeds and Util/Pda the derived addresses, Util/Recipients the random
--   choice of fee recipients, Util/Load the loading of a pool, Util/Jito the round robin, the retry
--   loop and the sending of a bundle.
-- * src/instruction.rs is Instruction: Instruction/Args the argument structs and their bytes, and
--   Swap, Liquidity, Volume and Creator the builders by subject.
-- * src/client.rs is Client: Client/Chain the reads and the quotes from them, Client/Balance the token
--   balances, Client/Trade the swap builders, Client/Creator the builders for incentives and creator
--   fees, Client/Volume the single-instruction builders, and Client/Send the methods that sign. A
--   method gives the transactions that it delivers, `Sent.delivered`, and its result; `Calls` names
--   the methods as one type, `perform` runs one.
-- * examples/ holds the programs that run the library, in Examples: Examples/Settings reads the
--   environment, BatchBuy is examples/batch_buy.rs, Runner examples/creator_fees_runner.rs, Layout
--   examples/verify_layout.rs, Simulations examples/sim_trade_flow.rs, and Loads
--   examples/load_pool.rs and examples/simulate_buy.rs. A `main` gives the transactions that it
--   delivers or simulates, and its result.
-- The children of a module hold its theorems. Prelude has what all parts share: machine words, lists
-- measured by native numbers, integers, little-endian bytes, and results with an error for each
-- message. Tests has concrete runs.
--
-- How the code is modelled:
-- * A `u64`, `u128` or `i64` is a number with its saturation or its wrap written out. An unchecked
--   sum or difference wraps, as in a release build; a debug build panics there.
-- * `anyhow::Result` is `Result`, and `?` its bind. The builders that return `Result` and never fail
--   are `ok`.
-- * `f64` is the interface `Float` of Math/Float. Math/Binary64 fills it: a significand below 2^53
--   times a power of two in units of 2^-1074, two infinities and NaN; each operation gives the number
--   nearest to its exact value, the even one of two. The search for the exponent runs over the 2046
--   exponents of the format and ends in infinity past the last one. `IsIeee` of Math/Float lists the
--   facts that the theorems on slippage use, and Math/Binary64/Laws has them of binary64.
-- * solana_sdk, spl_token, spl_associated_token_account and bs58 are the parameter `Solana`.
-- * What the random generator gives is an argument, `Draws` or `Randomness`.
-- * The answer of the RPC node to each call is a function argument. Times are numbers, and the passes
--   of the Jito round robin are a list in the order in which the tasks take the lock.
-- * A text is its list of code points; a balance is parsed by `parse_u64`, as `str::parse` does.
-- * `fetch_ui_pooled_amounts` counts the milliseconds that it sleeps.
-- * An attempt of `send_bundle_with_retry` takes its client from the pool, which it passes on, and each
--   rest is a step of the run. `Awakes` says that a sleep lasts at least as long as it is asked for.
-- * `send_loop` runs on fuel of one more than `max_retries`; the attempt starts at 1 and grows with
--   each failure until it reaches `max_retries`, so that this is enough.
--
-- Not modelled: the RPC and JSON-RPC transports, the signatures and the serialization of transactions,
-- which are I/O or belong to the libraries and are arguments; logging and printing; the clock inside
-- tokio's `sleep`; the tests, which call the library.
pub mod Prelude
pub mod Constants
pub mod State
pub mod Math
pub mod Solana
pub mod Util
pub mod Instruction
pub mod Client
pub mod Examples
pub mod Tests
