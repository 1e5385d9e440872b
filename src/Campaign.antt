-- ===== src/Campaign.antt =====
-- qcrl_campaign.py: the cases of a campaign, the state of their runs, and the labels of results. A
-- metric's number counts units of a fixed last place of twelve digits; times are texts. The
-- times but the collection's, the git revision, the log file and the printed lines are left out.
pub mod Policy
pub mod Runs
pub mod Runner
pub mod Collection
pub mod Validation
pub mod Parameters
pub mod Expansion
use quantconnect.Prelude.{ℕ, Bool, true, false, Option, none, some, List, String}
use quantconnect.Prelude.Int.{ℤ}

-- A value of JSON other than an array and an object.
pub data Scalar : Type 0 where
  number : ℤ → Scalar
  boolean : Bool → Scalar
  string : String → Scalar
  null : Scalar

abbrev pub Dict : Type 0
Dict = List (String × Scalar)

pub record Case : Type 0 where
  pub case_id : String
  pub parameter_hash : String
  pub parameters : Dict

pub data Status : Type 0 where
  pending running rate_limited completed failed collected : Status

pub data Source : Type 0 where
  quantconnect_api lean_cli : Source

-- The texts of `collection_error`, with the fields that they name.
pub data CollectionError : Type 0 where
  awaiting_collection terminal_complete no_statistics : CollectionError
  missing_metrics terminal_omitted api_lacks : List String → CollectionError

-- `error_type` and `error`.
pub data RunError : Type 0 where
  rate_limit_exhausted : ℕ → RunError
  lean_exited : ℤ → RunError
  no_backtest_id : RunError

-- A float of seconds that is not negative, in units of a fixed last place; `undefined` is nan.
pub data Seconds : Type 0 where
  finite : ℕ → Seconds
  infinite : Seconds
  undefined : Seconds

pub record RateLimitEvent : Type 0 where
  pub attempt : ℕ
  pub retry_number : ℕ
  pub backoff_seconds : Seconds

-- A run; a list or a dict that is empty stands for a key that is not there.
pub record Run : Type 0 where
  pub case_id : String
  pub parameter_hash : String
  pub parameters : Dict
  pub status : Status
  pub attempts : ℕ
  pub backtest_id : Option String
  pub backtest_url : Option String
  pub return_code : Option ℤ
  pub metrics : Dict
  pub metrics_source : Option Source
  pub collected_at_utc : Option String
  pub collection_error : Option CollectionError
  pub error : Option RunError
  pub rate_limit_events : List RateLimitEvent
  pub rate_limit_retries : ℕ

pub record Revision : Type 0 where
  pub previous_manifest_hash : String
  pub manifest_hash : String
  pub case_set_hash : String

-- The file of the campaign's state; files of an old version have no hash of the cases.
pub record State : Type 0 where
  pub manifest_hash : String
  pub case_set_hash : Option String
  pub manifest_revisions : List Revision
  pub runs : List Run

pub data ScoreModel : Type 0 where
  flat_profit_drawdown martingale_recovery_risk : ScoreModel

pub record Ranking : Type 0 where
  pub score_model : ScoreModel
  pub display_fields : List String

pub record PairValidation : Type 0 where
  pub dimension : String
  pub expected_values : List Scalar
  pub group_by : List String
  pub invariants : List String

-- The parts of a manifest that the runner reads, with the field of its objective and the additional
-- metrics of its directional analysis.
pub record Manifest : Type 0 where
  pub manifest_hash : String
  pub objective : Option String
  pub pair_validation : Option PairValidation
  pub cohort_rankings : List Ranking
  pub pair_comparison : Bool
  pub directional_analysis : Option (List String)

abbrev pub is_completed : Status → Bool
is_completed completed = true
is_completed _ = false

abbrev pub is_collected : Status → Bool
is_collected collected = true
is_collected _ = false

abbrev pub is_failed : Status → Bool
is_failed failed = true
is_failed _ = false
