-- ===== src/Lib.antt =====
-- Mirror Vault chain, the Go code under chain/: the commands that set up testnets, the export of
-- the state, the tables of accounts, and the assembly of the application and of its commands.
--
-- The parts and their files.
-- MultiNode: chain/cmd/mirrorvaultd/cmd/testnet_multi_node.go. Args is `initArgs` and the flags
--   that `RunE` reads; Services and Config the ports and the configuration of a node; Files
--   `writeFile`, `copyFile` and `isSubDir`; Random `generateRandomString`; Genesis `initGenFiles`;
--   Collect `collectGenFiles`; Init `initTestnetFiles`, with one round of its loop in Init/Node and
--   the copying of the transactions in Init/Copies. Sdk holds what the command calls.
-- Testnet: chain/cmd/mirrorvaultd/cmd/testnet.go. Args is `getCommandArgs`, Init
--   `initAppForTestnet` and `newTestnetApp`, Keepers what they call. Removal, Single and Funding hold
--   what is proved of the store's keys and of the balances.
-- Export: chain/app/export.go, with `prepForZeroHeightGenesis` in ZeroHeight and
--   `ExportAppStateAndValidators` in State; Command is `appExport` of
--   chain/cmd/mirrorvaultd/cmd/commands.go. Keepers is what they call.
-- Accounts: `GenesisAccount.Validate` of chain/app/genesis_account.go, and `GetMaccPerms` and
--   `BlockedAddresses` of chain/app/app.go with their tables in chain/app/app_config.go.
-- App: chain/app/app.go, app_config.go and config.go. Prefixes is the constants and the two `init`;
--   Modules `appConfig`; New is `New`, over the dependency injection, the base application and the
--   constructors of the EVM's keepers, which Wiring holds; Methods `GetKey` and `RegisterAPIRoutes`.
-- Docs: chain/docs/docs.go.
-- Command: chain/cmd/mirrorvaultd/main.go and, in its cmd/, root.go (Root), config.go (Configs), the
--   rest of commands.go (Children, NewApp), and the commands of the two testnets with their flags and
--   what `RunE` reads of them (Testnets). Cobra holds the calls of cobra and the SDK's commands.
-- Base: Go strings as lists of bytes with `strings.Split` and `strconv.Itoa`, int and int64 as
--   integers that wrap around, cleaned file paths, and calls with effects.
--
-- A child module of a component holds what is proved of it: MultiNode/Init/Loop the invariant of the
-- loop over the nodes with its rounds in Init/Stages, Init/Copied the copies of the transactions over
-- the contents of Files/Contents, Init/Total and Init/Cleanup the ends of the command,
-- MultiNode/Collect/Canonical the invariant of `collectGenFiles`, and the children of
-- Export/ZeroHeight one loop each, with the loops on the staking state together in
-- ZeroHeight/Refined and the whole preparation in ZeroHeight/Whole; Command/Testnets/Ends joins the
-- flags to the command. Tests has the theorems at concrete inputs, and runs.
--
-- The Cosmos SDK, CometBFT and the operating system are not in the repository: each is a record of
-- calls that a definition takes as an argument, and what a theorem needs of it is a record of laws.
-- Such a call takes and returns the world, and returns a value, an error, a panic or the end of the
-- process (Base/Effect). `Returns E Q` says that a call ends in `Q` if it returns a value and in `E`
-- otherwise; a theorem with `E` free holds for `E` the empty type too, where the laws say that the
-- calls succeed, and it then says that the whole succeeds. An iteration of a keeper is the list of
-- the values that it visits; a loop that deletes the keys of the iterator it runs on visits the keys
-- that were there when the iterator was opened. A call that takes a context takes its block height.
--
-- No definition needs fuel but the one that writes a number in decimal: each round divides by ten, so
-- one round more than the number itself is enough.
--
-- Not modelled: the long texts, examples and help of commands and flags; the values that are only
-- passed to the dependency injection; that the pre-run of a second execution starts from the context
-- that the first one left; tests and samples, which are not the program; and the contracts, which
-- call a precompile that is not in the repository. Error values are their texts; the bytes that a
-- codec or a JSON encoder gives are opaque.
pub mod Base
pub mod MultiNode
pub mod Export
pub mod Accounts
pub mod Testnet
pub mod Docs
pub mod App
pub mod Command
pub mod Tests
