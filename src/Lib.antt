-- ===== src/Lib.antt =====
-- The decision and accounting core of the perpetual-futures carry study: the Python package
-- python/perpcarry, modelled function by function, with what makes it correct.
--
-- Parts, and the files that model them:
--   Fees        python/perpcarry/strategy/fees.py: dated taker fees. FeePeriod, FeeSchedule and
--               their __post_init__ are check_period and check_schedule; FeeSchedule.quote is quote.
--   Accounting  python/perpcarry/strategy/accounting.py: the immutable ledger. Leg (Leg.trade is
--               trade), State (records, _event, start), Fills (fill), Payments (settle, finance) and
--               Valuing (value) are the code; Steps puts events in sequence; Cash, Balance, Order,
--               Boundaries, Replay and Sides prove what holds after any sequence.
--   Carry       python/perpcarry/strategy/carry.py: the records with their checks (Types) and
--               CarryStrategy.decide (Decide); Evidence and Grounds prove on what a decision rests.
--   Rolling     python/perpcarry/models/rolling_funding.py: History is RollingFundingModel.__init__,
--               update and _selection; Forecast is predict_cumulative_funding, and from_model of
--               python/perpcarry/strategy/funding.py; Regular, Update, Selection and Admissible prove.
--   Costs       python/perpcarry/strategy/costs.py: ImpactCurve, its checks and from_curve; Admitted
--               proves what decide makes of the estimate.
--   Impact      python/perpcarry/models/impact_model_io.py: the records of an artifact, Fits
--               (_validate_fit), Validate (validate) and Loading (load, law, and load_curve and
--               from_artifact of costs.py); Chronology, Corpus, Lookup, Loaded and Estimate prove
--               on what a curve and an estimate rest.
--   Sizing      python/perpcarry/strategy/sizing.py: the records and their checks; Market is the
--               limits and quote, Search the binary search over lots, Choice and Position the rest of
--               size_position; Sized and Limits prove what a size rests on.
--   Execution   python/perpcarry/strategy/execution.py: InferredExecutor.fills is inferred_fills and
--               BookExecutor.fills is book_fills; the market events are those of
--               python/perpcarry/strategy/walk_forward.py. Paired proves what a pair of fills is.
--   WalkForward python/perpcarry/strategy/walk_forward.py: the file itself has the records, Runner (the
--               attributes of _Runner) and Config.__post_init__; Trading is reserve, admit, charges and
--               trade, Decisions is enter and held, Reports is record, Stream is __init__, the arrival
--               of an event and the funding branch of process, Market is its market branch, Process is
--               process and iter_backtest, Executors the two backends. Keeps, Booked, Balance and Safe
--               prove what trading keeps, Steps and FundingSteps what a branch does, Run, Schedule,
--               Sealed and Observed what holds after any sequence of events.
--   FundingSeries
--               rows of settlements: validate of python/perpcarry/ingestion/funding_series.py is
--               validate_series; Month is settlement_gaps, interval_changes, expected_settlements and
--               check_month of python/perpcarry/ingestion/fetch_funding.py; Coverage proves what they
--               exclude.
--   SymbolMeta  decimal_gcd of python/perpcarry/ingestion/derive_symbol_meta.py, from which tick and step
--               sizes come; Divisors and Grid have the proofs.
--   Calendar    months_between and month_bounds of python/perpcarry/ingestion/calendar.py, fold_start
--               of walk_forward.py and utc_ms of python/perpcarry/ingestion/funding_series.py; Months
--               and Folds have the proofs.
--   Checks      decimal, timestamp, integer and number, which the modules above share.
--   Number      the interface of decimal.Decimal and float; Laws states what proofs assume of it,
--               Linear and Products are the algebra, Whole, Points and Counts instances for examples.
--   Base        tests, lists, texts and results of code that may raise.
--
-- How they interact: Rolling makes the forecast and Costs the estimate on which Carry decides;
-- Sizing quotes lots by Costs and Carry to find the size of a position; Execution turns a size into
-- a pair of fills, which Accounting books at the rates that it asks Fees for. WalkForward runs them
-- on a stream of events: a settlement is booked and then observed by the model, a market event is
-- financed, valued and, when due, decided on, and Calendar gives the month that its costs are sealed
-- in.
--
-- Numbers. An integer of the code (a time in milliseconds, a count of settlements) is a natural
-- number: the code refuses negative ones where it checks its arguments, and every difference that it
-- takes is of a later and an earlier time, or is tested against zero. A Decimal or a float is a
-- value of a type parameter with an instance of Number, whose division is total: a quotient by zero,
-- or a float that overflows, is left to that type. Nothing is assumed of the arithmetic except where
-- a theorem takes IsExact (sums and products do not round, as within the digits of the decimal
-- context), IsOrdered (comparisons are a linear order) or IsMonotone (a floor is at most its value
-- and counts no lots of a negative one; counting and a positive factor keep the order). NumPy's means are parameters, and so are the paths that the
-- regression of a forecast samples, their summary, the digest of a model, the seed of a forecast,
-- the source of book snapshots, the C++ simulator of market orders, math.isclose, the content and the
-- digests of an artifact file, and round of a quotient in settlement_gaps.
--
-- Errors. Code that raises returns a Result; its error is the class of the exception, without the
-- message. Checks of dynamic types (isinstance, type(x) is not int) are carried by the model's types,
-- and so are the fields and types of decoded JSON; a date in the ISO format is its day since 1970.
-- Where the code walks a collection the model recurs on the list, so no fuel is needed. The binary
-- search runs on fuel, the number of lots above the first: each step leaves out one of them at least.
-- The month of a day is found on fuel, the day itself, of which each month passes 28 at least; so is
-- the list of months up to a date. Euclid's algorithm runs on fuel one above its second number, which
-- each step lowers. The digits of a number beyond the decimal context are counted on fuel, the number
-- itself, of which each digit takes one. An exception ends a run, so that what a method had assigned
-- before it is not in the model of a run.
--
-- Not modelled: the C++ core, downloads, Parquet and TOML files, regressions and sampling in NumPy
-- and SciPy, reports and command lines, which call other programs and libraries throughout; and the
-- validation of market data frames and the pooling of grids over windows, which are yet to come.
pub mod Base
pub mod Number
pub mod Checks
pub mod Fees
pub mod Accounting
pub mod Carry
pub mod Rolling
pub mod Calendar
pub mod Costs
pub mod Sizing
pub mod Execution
pub mod WalkForward
pub mod Impact
pub mod FundingSeries
pub mod SymbolMeta
