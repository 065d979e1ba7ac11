-- ===== src/Lib.antt =====
-- Tulip Accounting: a household ledger with double entry, envelope budgeting and reconciliation against
-- bank statements: its domain core, the repositories of its two ledgers, the requests that create and void
-- transactions in both, the service that reconciles, the runner of its scheduled jobs with the job that
-- refills envelopes, the gate before calls of language models, and the paths of accounts.
--
-- The parts and their files, with the paths of the repository:
--   Currency, Money: packages/tulip-core/src/tulip_core/currency/currency.py and money/money.py.
--   `from_code` checks a code; `plus`, `minus`, `negate`, `times` and `quantize_to_currency` are the
--   methods of `Money`.
--   Decimal: Python's `decimal.Decimal`, as the code uses it: a coefficient and a number of places.
--   Account, Periods: account/account.py and periods/period.py, with the checks of the constructors.
--   Transactions: transactions/posting.py and transaction.py. `tally` is the loop of
--   `balance_per_currency`; `check_transaction` is `__post_init__`.
--   Accounting: accounting/engine.py, `post_transaction`, `build_reversal` and
--   `balance_with_fx_postings`; one child for the laws of each.
--   Allocation: allocation/pool.py, envelope.py, sinking_fund.py and refill_rule.py; its child Refill
--   is refill_engine.py (with `to_dict` and `from_dict` of the rules in Json), and Shadow is the shadow
--   ledger with shadow_posting.py, shadow_transaction.py and engine.py. The pairing reads a transaction of
--   the main ledger and writes one of the shadow ledger.
--   Reconciliation: reconciliation/matcher.py with match_confidence.py and candidate_match.py,
--   statement_line.py, and categorizer.py: its registry, and in the child Answers what a categorizer
--   answers. The matcher reads statement lines and
--   transactions of the main ledger.
--   Insights: insights/anomaly.py. `turns` is the loop of `find_anomalies`, and Windows cuts the series
--   at a sample and its window.
--   Storage: packages/tulip-storage/src/tulip_storage. Tables has the SQL statements over lists of rows,
--   Rows the models, Triggers the balance triggers of migrations/_triggers.py. Ledger is
--   repositories/transaction.py: `save`, `save_balanced`, `persist_reversal` and `delete_pending`, with
--   `update_pending` and `rectify_posted` in Edits; Calls runs sequences of writes, Rules and Kept carry
--   a property through all of them, and Invariant, Immutable, Tenancy and Saved are about what they keep.
--   Queries is the reading side, `list_headers` to `trial_balance`. Reconciliations is
--   repositories/reconciliation.py and reconciliation_match.py, with statement_line.py in Lines;
--   Reachable has the step relation of their writes.
--   Storage/Budget: the tables of the shadow ledger and of pools, a state of its own beside `Db`. Triggers
--   has the triggers that guard them; Shadow is repositories/shadow_transaction.py (`save_shadow` is
--   `save_balanced`, `void_shadow` is `void`), with Book, the list of entries that it implements, and
--   Refines, the proof of that; Queries is its reading side; Pools is repositories/allocation_pool.py and
--   envelope.py, with one turn of `get_or_create_system_pools` in Turns.
--   Services: packages/tulip-api/src/tulip_api/services/reconciliation_match.py. The child AutoMatch
--   hands the rows to the matcher of the core and stores its candidates; Requests is what the endpoints
--   of routers/reconciliations.py do around the service: fetch, call, commit.
--   Services/Transactions: packages/tulip-api/src/tulip_api/routers/transactions.py, `create_transaction`
--   and `void_transaction` over a `Session` of both ledgers: the checks, the pools, the core's engine, and
--   the two repositories in the order of the code. Ledgers runs sequences of such requests.
--   Runner: packages/tulip-storage/src/tulip_storage/runner/runner.py with models/scheduled_job.py; Keys
--   is how jobs are scheduled, Stuck the loop between polls. EnvelopeRefill is
--   runner/handlers/envelope_refill.py: `envelope_refill` is `handle`, and `refill_by_rule` the steps 2
--   to 6 of `_process`; TopUp and Twice are about a rule that fills to an amount.
--   Ai: packages/tulip-ai/src/tulip_ai/cost.py, the gate before calls of language models; RateLimit runs
--   sequences of calls, each gated on its acting user and then recorded without one, as `categorize` of
--   categorize.py does.
--   Cli/AccountPath: packages/tulip-cli/src/tulip_cli/_account_path.py; a text is its code points there.
--   Prelude: shared names, integers, results, dictionaries. Tests: evaluations and examples.
--
-- How the code is modelled: a value object is a record and its `__post_init__` a function `check_…`
-- that returns the record or the error that the code raises (`Result`); `replace` is a record update
-- followed by that check. A UUID is a number, a date its ordinal, and `uuid4` a function that gives the
-- k-th identifier that a call draws. A dictionary is a list of entries in insertion order, and a
-- mapping that the code is handed is a function into `Option`. Type checks against values of other
-- Python types are the types here. Every loop of the code is over a list or
-- a range of indices, but two: the runner's, which never ends by itself (`loop` is given a number of
-- rounds), and the walk up the parents of an account, whose fuel is the number of accounts and one:
-- every step but the last sees an account that was not seen before.
-- A database session is a value (`Db`, `Budget`, `Session`, `Store`) that a call is given and returns; a
-- call that raises returns none, as a session that is rolled back. A statement is atomic and calls come one after the other.
-- Timestamps are numbers, and `uuid4` and the clock of a repository are arguments.
--
-- Bounds: decimals have no positive exponent and no negative zero, and their arithmetic is exact.
-- Python's default context gives the same results while they have at most 28 digits, and
-- `Decimal.quantize` raises beyond that, which the model does not. A column of `SqliteDecimal`
-- (models/base.py) keeps eight places, or six for the costs of calls: `stored` (Storage/Rows) is the
-- rounding, half to even, that every write of an amount makes there, and rows hold the rounded amounts.
-- The stored integers are taken as unbounded, and sums over them as exact. A row that is returned by
-- the call that writes it is the row as it is read back. A query without ORDER BY gives its rows in the
-- order of the table, which stands for whichever order comes. The scores of the package rapidfuzz
-- are a parameter (`Similarity`) whose comparison is a total order. Division and the square root of
-- decimals, and their texts, are parameters of the functions that use them.
--
-- The encryption of notes and the next occurrence of a rule rest on packages and are parameters; of the
-- latter only one thing is assumed, where it is named: an occurrence is after the time it is asked for.
-- Of a job's handler the runner sees only whether it raises; the one that refills envelopes is modelled
-- apart, with `json.loads` and `Decimal` of a text as parameters.
--
-- Not modelled: the cache of currencies, hashes, sessions of categorizers; the primary key of postings and
-- the foreign keys of the main ledger, and those to households and users (for shadow postings the
-- primary key and the foreign keys to their transaction and pool are modelled); the triggers on updates
-- and deletions of postings (the repository replaces and deletes those
-- of pending transactions only), reading notes back; starting and stopping the runner's task; opening
-- and listing reconciliations over HTTP, the audit log; tags, and the other endpoints of transactions; and
-- the other repositories and packages (importers, reports, the other services and endpoints, the rest of
-- the AI package and of the CLI, and the TUI).
pub mod Ai
pub mod Prelude
pub mod Decimal
pub mod Currency
pub mod Money
pub mod Transactions
pub mod Account
pub mod Periods
pub mod Accounting
pub mod Allocation
pub mod Reconciliation
pub mod Tests
pub mod Insights
pub mod Storage
pub mod Services
pub mod Runner
pub mod Cli
