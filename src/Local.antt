-- ===== src/Local.antt =====
-- internal/local/runner.go: the local mode, which watches a file and applies it. The notices of the
-- watcher and of the context are a list, in the order in which the loop receives them. Log lines
-- are left out. Durations are in milliseconds.
pub mod Keeps
pub mod Laws
pub mod Stops
pub mod Serves
use haproxy_operator.Base.{
  ℕ, zero, suc, ◌*◌, String, Text, codes, text_eq, not, Bool, ◌&&◌, ◌||◌, Option, none, some, List,
  [], ◌∷◌, ◌++◌, ◌===◌, ◌<>◌, ◌==◌, if◌then◌else◌,
}
use haproxy_operator.Haproxy.Errors.{Cause, Error, foreign, wrap, message, Result, ok, err}
use haproxy_operator.Haproxy.Client.{apply_raw_configuration}
use haproxy_operator.Platform.{Client, Platform}
use haproxy_operator.Act.{
  Act, pure, gets, ◌>>=◌, ◌>>◌, on_error, or_error, caused, when, sleep, until_done, new_watcher,
  add_watch,
}
use haproxy_operator.Config.{hash_bytes, load_from_file}

-- `Runner`; `PollEvery` is set to a default and then read by nothing.
pub record Runner : Type 0 where
  pub cfg_path : String
  pub client : Client
  pub watch : Bool

abbrev pub max_apply_attempts : ℕ
max_apply_attempts = 5

abbrev pub initial_retry_backoff : ℕ
initial_retry_backoff = 200

abbrev pub debounce_delay : ℕ
debounce_delay = 150

-- `fsnotify.Op`
pub record Op : Type 0 where
  pub create : Bool
  pub write : Bool
  pub remove : Bool
  pub rename : Bool
  pub chmod : Bool

-- What the select of the loop receives.
pub data Notice : Type 0 where
  done : Cause → Notice
  event : String → Op → Notice
  watch_error : Cause → Notice

-- How `Run` stands after the notices: returned, or in its loop with that `lastHash`.
pub data Exit : Type 0 where
  returned : Error → Exit
  running : Text → Exit

-- `lastErr` after the attempts; a nil one goes with the empty hash.
abbrev pub gave_up : Option Error → Result Text
gave_up none = ok []
gave_up (some e) = err e

-- The two tests that an event has to pass.
abbrev pub is_change : Runner → String → Op → Bool
is_change r name op = name === r.cfg_path && (op.write || (op.create || op.rename))

-- What `lastHash` is after the retries.
abbrev pub kept : Text → Result Text → Text
kept last (ok h) = h
kept last (err e) = last

-- `addWatches`, on what the two calls of Add return
unfoldable pub watch_failure : String → String → Option Error → Option Error → Option Error
watch_failure path dir none second = none
watch_failure path dir (some e) none = none
watch_failure path dir (some e) (some d) = some (
    wrap ("watch " <> (path <> ": ")) e
      (codes (" (directory " <> (dir <> ": ")) ++ (message d ++ codes ")")))

module _ {p : Platform} where
  -- `applyOnce`
  unfoldable pub apply_once : Runner → Act p (Result Text)
  apply_once r = do
    file ← load_from_file r.cfg_path
    or_error file (λ e. pure (err e))
        λ b. do
          failure ← apply_raw_configuration r.client b
          on_error failure (λ e. pure (err e)) (pure (ok (hash_bytes p b)))

  -- The loop of `applyWithRetry`, by the attempts that are left.
  unfoldable pub apply_attempts : ℕ → Runner → ℕ → Option Error → Act p (Result Text)
  apply_attempts zero r backoff last = pure (gave_up last)
  apply_attempts (suc left) r backoff last = do
    stop ← gets (λ s. p.ended s.world)
    on_error (caused stop) (λ e. pure (err e))
        (do
          applied ← apply_once r
          or_error applied
              (λ e. do
                when (not (left == 0)) (sleep backoff)
                apply_attempts left r (backoff * 2) (some e))
              (λ h. pure (ok h)))

  -- `applyWithRetry`
  unfoldable pub apply_with_retry : Runner → Act p (Result Text)
  apply_with_retry r = apply_attempts max_apply_attempts r initial_retry_backoff none

  -- `fileHash`
  unfoldable pub file_hash : String → Act p (Result Text)
  file_hash path = do
    file ← load_from_file path
    or_error file (λ e. pure (err e)) (λ b. pure (ok (hash_bytes p b)))

  -- A change of the watched file: the next `lastHash`.
  unfoldable pub on_change : Runner → Text → Act p Text
  on_change r last = do
    sleep debounce_delay
    seen ← file_hash r.cfg_path
    or_error seen (λ e. pure last)
        (λ h.
          if text_eq h last then pure last else (do new ← apply_with_retry r; pure (kept last new)))

  -- An event: the next `lastHash`.
  unfoldable pub on_event : Runner → Text → String → Op → Act p Text
  on_event r last name op = if is_change r name op then on_change r last else pure last

  -- The loop of `Run`
  unfoldable pub run_loop : Runner → Text → List Notice → Act p Exit
  run_loop r last [] = pure (running last)
  run_loop r last (done c ∷ notices) = pure (returned (foreign c))
  run_loop r last (event name op ∷ notices) = do
    next ← on_event r last name op
    run_loop r next notices
  run_loop r last (watch_error c ∷ notices) = run_loop r last notices

  -- `addWatches`
  unfoldable pub add_watches : Runner → Act p (Option Error)
  add_watches r = do
    file_error ← add_watch r.cfg_path
    dir_error ← add_watch (p.directory r.cfg_path)
    pure (watch_failure r.cfg_path (p.directory r.cfg_path) file_error dir_error)

  -- `Run` after the first application
  unfoldable pub run_watch : Runner → Text → List Notice → Act p Exit
  run_watch r h notices =
      if not r.watch then (do c ← until_done; pure (returned (foreign c))) else (do
        unwatched ← new_watcher
        on_error unwatched (λ e. pure (returned e))
            (do
              failure ← add_watches r
              on_error failure (λ e. pure (returned e)) (run_loop r h notices)))

  -- `Run`
  unfoldable pub run : Runner → List Notice → Act p Exit
  run r notices = do
    first ← apply_with_retry r
    or_error first (λ e. pure (returned e)) (λ h. run_watch r h notices)
