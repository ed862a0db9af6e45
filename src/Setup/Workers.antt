-- ===== src/Setup/Workers.antt =====
-- The three workers before their goroutines start. `strconv` is a parameter: `none` is an error.
use tf_man.Prelude.{String, Bool, Option, ℤ, int64, times, or_else}
use tf_man.Setup.{
  load_config_failed, invalid_threshold, invalid_window, Start, ready, ◌>>=◌, ◌>>◌, check, or_exit,
}
use tf_man.Worker.Start.{worker_concurrency}

-- `F` is the type of floats.
pub record Env (F : Type 0) : Type 0 where
  pub getenv : String → String
  pub loads_config : Bool
  pub atoi : String → Option ℤ
  pub parse_int : String → Option ℤ
  pub parse_float : String → Option F

-- What `main` hands to `sqsconsumer.New`, with the addresses that it takes from the environment.
pub record Queue : Type 0 where
  pub redis_addr : String
  pub queue_url : String
  pub concurrency : ℤ

pub record PaymentWorker (F : Type 0) : Type 0 where
  pub queue : Queue
  pub topic_arn : String
  pub failure_rate : F

-- `window`: a duration in nanoseconds.
pub record FraudDetector : Type 0 where
  pub queue : Queue
  pub topic_arn : String
  pub threshold : ℤ
  pub window : ℤ

module _ {F : Type 0} (env : Env F) where
  open env use {getenv, loads_config, atoi, parse_int, parse_float}

  pub queue_setup : Queue
  queue_setup = record {
    redis_addr = getenv "REDIS_ADDR";
    queue_url = getenv "SQS_QUEUE_URL";
    concurrency = worker_concurrency atoi (getenv "CONCURRENCY");
  }

  -- A rate that cannot be parsed is `zero`.
  pub payment_worker_setup : F → Start (PaymentWorker F)
  payment_worker_setup zero_rate = do
    check loads_config load_config_failed
    ready (record {
      queue = queue_setup;
      topic_arn = getenv "SNS_TOPIC_ARN";
      failure_rate = or_else (parse_float (getenv "SIMULATED_FAILURE_RATE")) zero_rate;
    })

  pub notification_worker_setup : Start Queue
  notification_worker_setup = do check loads_config load_config_failed; ready queue_setup

  -- `time.Duration(windowSeconds) * time.Second` wraps at 64 bits.
  unfoldable pub fraud_detector_setup : Start FraudDetector
  fraud_detector_setup = do
    check loads_config load_config_failed
    threshold ← or_exit (parse_int (getenv "FRAUD_THRESHOLD")) invalid_threshold
    window_seconds ← or_exit (atoi (getenv "FRAUD_WINDOW_SECONDS")) invalid_window
    ready (record {
      queue = queue_setup;
      topic_arn = getenv "SNS_TOPIC_ARN";
      threshold = threshold;
      window = int64 (times 1000000000 window_seconds);
    })
