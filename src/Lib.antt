-- ===== src/Lib.antt =====
-- The forecast loop produces forecasts of an asset's regime, scores them, gathers research evidence,
-- and turns forecast and evidence into a paper-only strategy decision; operator controls and gates
-- stand between a decision, a paper order and a broker order. No part trades live.
--
-- All Python files named here stand in src/forecast_loop/. The parts meet in one place, the artifact
-- repository: an operation reads lists of artifacts, and what it returns it also appends. So every
-- operation is a function from the repository (and its arguments) to a result and the repository
-- after it; an exception is the value `err` of `Result`.
--
--   Prelude             lists, texts, options, results, arithmetic
--   Runtime             what Python provides and the program does not implement: binary floating
--                       point, the text of numbers and times, the hash of a JSON payload. It is the
--                       parameter `rt`; the laws of the IEEE order are hypotheses where they are
--                       used. Runtime/Fixed is a concrete one, on which the tests run
--   Models              models.py: the artifacts as records, and their `build_id`
--   Storage             storage.py, JsonFileRepository: the repository as a record of lists, and
--                       `_append_unique`
--   Coding              models.py and storage.py: artifacts as dictionaries, and JSONL files. What Python
--                       provides (json, datetime.fromisoformat, float) is the parameter `codec`, its
--                       documented behaviour the hypothesis IsCodec. Trading: to_dict and from_dict;
--                       RoundTrip: one after the other; File: append and load; Refinement: a file
--                       against a list; Stored, ControlLog: the file of control events
--   Candles             the selection of candles that backtest.py and walk_forward.py share. Increasing:
--                       ordered lists and their slices; Selected: what a point in time lets through
--   Backtest            backtest.py. Simulation: the loop over the candles and the metrics; NoLookAhead:
--                       what the loop sees
--   WalkForward         walk_forward.py. Windows: the loop over the windows; Rolling: its end and its
--                       windows; Validated: what is returned
--   Control             control.py: operator controls. State: the state computed from the log; Guards:
--                       when it holds an order back; Events: what is recorded
--   Orders              orders.py: paper orders from decisions
--   BrokerLifecycle     broker_lifecycle.py: broker orders from paper orders
--   Baselines           baselines.py: scores against the naive baseline, and the grade of the evidence
--   ResearchGates       research_gates.py: when the evidence allows a direction
--   Decision            decision.py and research_artifact_selection.py: the strategy decision
--   Experiments         experiment_registry.py: strategy cards, trials and their budget
--   LockedEvaluation    locked_evaluation.py: the locked protocol and the leaderboard gate. Gate: the
--                       blocking reasons; Metrics: the score; Clear, Aligned: what holds without a
--                       reason; Rankable: what an entry stands on
--   ExecutionSafety     execution_safety.py: the gate before an external paper order. Checks: its checks;
--                       Subjects, Passed: what an allowed gate stands on. The outcome of run_health_check and
--                       the trading day of market_calendar.py are arguments
--   Reconciliation      broker_reconciliation.py: the ledger against an external account. Matching: the
--                       orders; Accounts: the portfolio; Matched, Reconciled: what a reconciliation
--                       without findings stands on
--   Assets              assets.py: the registry of assets
--   PaperShadow         paper_shadow.py: the outcome of a shadow window; Promotion: what a
--                       recommended promotion stands on
--   Risk                risk.py: the risk check of a portfolio. Drawdown: what the current drawdown
--                       measures; Status: what the status says and holds
--   Portfolio           portfolio.py: the fill of an order and the portfolio after it. Marks: snapshots;
--                       Fills: sizes and positions; Filled: what becomes of the orders; Shorts: sales
--   Tests               the definitions and theorems at concrete artifacts
--
-- A datetime is a natural number of microseconds and a timedelta a difference of those, so
-- `now - t > delta` is written `t + delta < now`. A float is an element of the parameter type F, NaN
-- included. `str.upper` and `str.lower` map ASCII letters and keep other characters, which the texts of the statuses
-- and modes do not hold. A number of hours, trials or samples is a natural number, as the callers pass it. The
-- operations run one after the other: two processes on one directory are not modelled. The loops of
-- the modelled files are loops over lists and so recursions on the list, but for the loop of
-- run_walk_forward_validation, whose offset grows by the step: it has fuel, one more than there are
-- candles, which is enough since the step is positive.
--
-- Outside Coding an operation reads and appends lists of artifacts; Coding shows for the control events
-- that a file of lines implements such a list. A payload field of another type than its dataclass
-- declares, which Python would keep, is an error in Coding.
--
-- Not modelled: `to_dict` and `from_dict` of the artifacts other than control events, paper orders and
-- broker orders, the SQLite repository, the command line,
-- the dashboard and the operator console, the health checks, the candle store, the market data
-- providers, the statistics of events (event_*.py), the broker adapters, autopilot.py, and the research planning chains
-- (lineage_*, revision_retest*, decision_research_*). They meet the modelled parts through the
-- artifacts of the repository only.
pub mod Prelude
pub mod Runtime
pub mod Models
pub mod Candles
pub mod Storage
pub mod Backtest
pub mod WalkForward
pub mod Coding
pub mod PaperShadow
pub mod Assets
pub mod Reconciliation
pub mod ExecutionSafety
pub mod Control
pub mod Orders
pub mod BrokerLifecycle
pub mod ResearchGates
pub mod Baselines
pub mod Decision
pub mod Experiments
pub mod LockedEvaluation
pub mod Risk
pub mod Portfolio
pub mod Tests
