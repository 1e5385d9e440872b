-- ===== src/Lib.antt =====
-- QuantConnect Research Lab: the trading laboratory, the runner of its campaigns, and parts of its
-- execution evidence.
--
-- Parts of the program and their files here:
--   Lab/Entry.antt and its children: entry_models.py, the models that answer with a direction. A sum
--     type stands for the classes; `get_direction` answers with the direction and the model after
--     the bar.
--   Lab/Filter.antt and its children: filter_models.py, the filters that allow or refuse a trade.
--   Lab/Regime.antt: regime_models.py, the observer of the market regime.
--   Lab/Stake.antt, Lab/Risk.antt, Lab/Stats.antt: stake_models.py, risk_models.py, stats_models.py.
--   Lab/Engine.antt: main.py. `initialize` makes the components as `Initialize` does with the
--     factories, `on_bar` is `OnPolymarketBar`: a bar before the evaluation warms the models up, and
--     every other bar is counted, asked for a direction, filtered, staked, and settled.
--   Replay.antt and its children: execution_truth/taker_replay.py, `_replay`. Replay/Asks is the loop
--     over the asks, Replay/Search the binary search for the quantity, Replay/Rounding the fee.
--   Receive.antt and its children: execution_truth/receive_path.py and receive_recovery.py, the v3
--     tracker. Receive/Frames is `observe_frame`, Receive/Delivery is `deliver`.
--   Segments.antt and its children: execution_truth/stream_segments.py. Segments/Writing is
--     `SegmentedStreamLog`, Segments/Verify is `verify_segments`; a caller's session is a list of
--     appends and syncs (Segments/Session).
--   Watchdog.antt: execution_truth/stream_resilience.py. Freshness.antt: connection_freshness.py.
--   BookSequence.antt: execution_truth/book_sequence.py, over bundles of any type.
--   Campaign.antt and its children: qcrl_campaign.py. Campaign/Parameters is `validate_parameters`,
--     Campaign/Expansion is `expand_cases`, Campaign/Policy the policy of submissions, Campaign/Runs
--     the state with `load_state`, Campaign/Runner is `run_campaign`, Campaign/Collection is
--     `collect_campaign`, Campaign/Validation is `validate_campaign`.
--   Prelude.antt, Num.antt: shared names, calls that raise, and number systems. Tests.antt: runs at
--     concrete inputs.
--
-- Conventions. The laboratory computes with floats: `Num` is any number system with the operations
-- that the code uses, and a theorem that needs laws takes `IsOrdered` (the order of finite doubles,
-- with the monotony of rounded addition and subtraction) or `IsSigned` (signs of sums, products and
-- quotients). Num/Integers shows that the laws can hold. A power may overflow, as Python's `**` does, and
-- the wager of a martingale with it. The seconds of a policy are finite numbers, infinity or nan, as
-- `float` reads them; their arithmetic is exact, which doubling is, and a sleep of infinity or nan
-- raises. Integer parameters such as periods, streak
-- lengths and `max_steps` are natural numbers, and the names of models and modes are in lower case,
-- as `Initialize` makes them. A dict is a list of pairs in insertion order. An exception is a value of
-- `Error`; where a call that raises keeps what it changed, a step answers with the state and the
-- result. Objects that the code mutates are passed on as values: no two components share one.
--
-- The decimals of the replay are whole numbers of a fixed last place, since each has at most twelve
-- places; a quotient by the tick is exact in them. The context's fifty digits and the rounding to five
-- places are written out for the fee. Times are microseconds there and nanoseconds in the tracker,
-- whose readings the code takes as floats of seconds. `datetime`, `hashlib` and the bundle that
-- bundle.py normalizes are arguments.
--
-- The log of segments writes lines and flushes; a file is the list of them. The sizes and hashes of
-- lines, files and objects are the record `Library`, of which nothing is assumed but that no line is
-- empty: that a hash does not collide is nowhere needed. A campaign's environment is a function
-- from the number of a submission to its execution; the API, the hashes, the sort and the reading of
-- texts are arguments. Metrics and parameters have twelve decimal places. Its file is what
-- the last save wrote.
--
-- Recursion: the binary search runs on fuel of one more than the maximum, and each step shrinks the
-- range, so that the fuel is enough (Replay/Search). The rounding to fifty digits drops one digit at a
-- time, with fuel for ten, which is enough below 10^59, and every fee is below that. The attempts of a
-- run have fuel for each retry of the policy and one more, with which they end
-- (Campaign/Runner/Attempts).
--
-- Not modelled: charts, debug lines, name and summary texts, parameter reading and the engine's own
-- calls in main.py; the quantiles of stats_models.py; the hashes and texts of the replay's result; the
-- v1 and v2 trackers and the audits of archived records; the checks that later versions of the
-- specification add to the rows of a segment; the rankings, the comparison of pairs, the printing, the
-- searches in output texts, and the directional and stability commands of qcrl_campaign.py;
-- the capture and the summaries of a book sequence; the snapshots of freshness and the causes of a close;
-- the discovery engines, the reports, and all network and file access.
pub mod Prelude
pub mod Num
pub mod Lab
pub mod Replay
pub mod Receive
pub mod Segments
pub mod Campaign
pub mod Watchdog
pub mod Freshness
pub mod BookSequence
mod Tests
