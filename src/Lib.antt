-- ===== src/Lib.antt =====
-- Price intelligence for Indian retailers: the deterministic core of the backend, as executable
-- definitions with their properties.
--
-- Parts and files (paths from the repository's root):
-- * Domain.antt, Money.antt: the enumerations of backend/app/domain/enums.py and
--   backend/app/pricing/enums.py, and the rounding of backend/app/pricing/money.py.
-- * Pricing/Models, Effective, Freshness, Ranking, Engine: the comparison engine of
--   backend/app/pricing. `PriceComparisonEngine._build_offer` is `build_offer`: it collects the
--   adjustments of an offer, computes its verified price and its unverified estimate, and
--   classifies its age and its confidence. `compare_variant` ranks the built offers by
--   `ranking_sort_key`, selects the lowest verified one and explains the selection; the summary of
--   the ages is `aggregate_freshness`. Proofs: Effective/Price, Freshness/Status, Freshness/Groups,
--   Ranking/Order, Ranking/Selection, Ranking/Winner, Engine/Offers, Engine/Variants.
-- * Pricing/History, all files: backend/app/pricing/history.py and history_models.py. Points
--   holds the records and which observations are used, Metrics the averages, extrema, percentile
--   and volatility, Changes the change, the drop and the trend, Engine `compute_variant` and
--   `compute_product`. Proofs: Bounds, Order, Variance, Deviation, Drops.
-- * Matching, all files: backend/app/matching. Identifiers normalizes one identifier and
--   Identifiers/Comparison is `compare_identifiers`; Attributes is `compare_attributes` of what
--   is extracted from two listings; Stages are the four stages, Score the combined score,
--   Decision is `decide`, and Engine the comparison of two listings and `find_best_match`.
--   Proofs: Identifiers/Isbn, Identifiers/Barcode, Identifiers/Symmetry, Decision/Merging,
--   Decision/Bands, Engine/Pipeline, Engine/Best.
-- * Recommendation/Models, Rules and its children, Confidence, Engine: the engine of
--   backend/app/recommendation. The gates, the signals and the use of a prediction are the functions
--   of rules.py; `recommend` composes them as engine.py does, and Projection makes its input from a
--   price history. Proofs: Engine/Decision, Engine/Evidence, Engine/Sales, Engine/Citations,
--   Engine/Thresholds, Unverified.
-- * Collection/Models, Retry, Jobs, Rounds, Rows, Orchestrator: backend/app/collectors. The retry
--   loop `_execute_with_policy` is `execute_with_policy`, one job of one retailer
--   `run_one_retailer`, the loop over the retailers `run_retailers`; the store holds the rows of
--   jobs and errors. The refresh loops of jobs.py are `run_refresh` over the answers of the adapter
--   and the ingestor. Proofs: Policy, Jobs, Orchestrator/Attempts, Orchestrator/Lifecycle,
--   Orchestrator/Idempotency.
-- * Adapters/RateLimit, Retry, Execution: backend/app/retailer_adapters/base. `acquire` is a call of
--   the limiter that none interrupts; `Step` is what overlapping calls may do in any order.
--   `delay_for` is the wait of `RetryPolicy`, and `execute` the retry loop of `AdapterExecutor`.
--   Proofs: RateLimit/Overlap, RateLimit/Budget, Execution/Attempts, and the end of Retry.
-- * Adapters/Models, Interface, Registry, Fleet: the payloads and capabilities of an adapter, the
--   calls around its hooks (`call_hook` is `_ensure_operable`, the executor and
--   `_assert_own_payload`), the registry with its errors, and `search` of the fleet over the capable
--   adapters. `run_command` is any operation that changes the registry and `Specifies` what it does
--   to a map. Proofs: Interface/Calls, Registry/Checks, Registry/Refinement, Registry/Consistent,
--   Fleet/Isolation.
-- * Sales, all files: backend/app/sales. Models, Lifecycle and Applicability are the files of these
--   names, Lifecycle with the views of engine.py; History/Metrics and History/Engine are history.py,
--   Detection/Drops and Detection/Windows detection.py. Proofs: History/Counts, History/Partition,
--   History/Bounds, History/Total, Detection/Thresholds, Detection/Median, Detection/Closed,
--   Detection/Accepted, Detection/Valid, Detection/Clusters.
-- * Validation, all files: backend/app/domain/validation.py and exceptions.py. Slugs and Slugify are
--   the checks of slugs and codes, Attributes the variant attributes and their key, SaleEvents the
--   checks of a sale event, which the sales use. Proofs: the end of Slugs and Slugify, VariantKeys.
-- * Base and its children: Boolean tests on native numbers, integers, lists, comparisons, and
--   Python's stable `sorted`.
--
-- How values are represented. An amount of money is its number of paise: the validators of the
-- comparison and of the stored observations quantize every amount to 0.01 and refuse a negative one,
-- and the recommendation reads such amounts. A total that may go below zero is an integer. Percents,
-- ratios and confidences are whole ten-thousandths, to which the code quantizes them; thresholds and
-- prediction confidences of more than four decimals are not represented. `ROUND_HALF_UP` is
-- `round_half_up` of the exact quotient: the quotient of two amounts below 10^12 paise that is first
-- rounded to the 28 digits of a `Decimal` rounds to the same quantum. A `datetime` is its distance in
-- microseconds from `datetime.min`, an age an integer of microseconds. A `UUID` is a number; a string
-- that the code compares is its list of code points, and any other string is a `String`. A sentence
-- that explains a decision is data: which sentence, with the values in it, or only the rule that is
-- cited. Clocks are arguments. Metrics and log records are left out.
--
-- In the price history the quotients, the slope and the root are exact before they are rounded, where
-- the code keeps 28 digits. The root of a variance is searched bit by bit below 2 ^ 40, which is
-- enough for a deviation of less than 2 ^ 40 paise. In the matching the scores, weights and thresholds
-- are floats, taken for the decimals that they stand for, in ten-thousandths, to which the code rounds
-- every score; a tie is rounded to the even number. Unicode's upper case and decimal digits,
-- SequenceMatcher, the similarity of titles and the similarity of embeddings are parameters.
--
-- The body of a collection job is a parameter, which says for each attempt what it returns or raises;
-- it stands for the adapter, the limiter and the timeouts. The key of a job, the redaction of its
-- messages and the clocks' readings are parameters too. A wait is an exact fraction of microseconds.
--
-- The limiter counts time in microseconds and tokens in the 60 000 000th part of a token, so that its
-- refill is exact; a wait of the adapters is a fraction. What an adapter's attempt gives is a parameter.
--
-- The hooks of an adapter are parameters, and so are `str.lower` and the clocks of the registry. The
-- adapters of a registry are changed through it only, and the calls of a search do not disturb each
-- other: the answers are taken in the order of the adapters, as the code gathers them. A health check
-- raises only if its hook returns a detail that is too long. The sales' clock may have no timezone,
-- and a percentage of a price of zero raises there as in the code. In the sales
-- a median is kept as its double, and thresholds of drops are ten-thousandths of a percent.
--
-- All recursion is structural. A retry loop counts the attempts that are left, and starts with
-- as many as the configuration allows.
--
-- Not modelled: the web frontend and the infrastructure code (other languages); migrations, the
-- database models other than the rows of collection jobs and their errors, sessions and repositories
-- (calls of SQLAlchemy); routers, authentication and
-- workers (calls of FastAPI, Clerk and Celery); the training and serving of the prediction model;
-- and, so far, the extraction of attributes by regular expressions, the similarity of titles,
-- ingestion, the services, the environment's overrides of settings, and the single retailers.
pub mod Base
pub mod Domain
pub mod Money
pub mod Pricing
pub mod Matching
pub mod Recommendation
pub mod Adapters
pub mod Collection
pub mod Validation
pub mod Sales
