-- ===== src/Act.antt =====
-- Stateful code: an action takes the state to a result and the next state. The state is the
-- reconciler's fields, the log of effects (newest first) and the world.
pub mod Keeps
use haproxy_operator.Base.{
  ℕ, String, Text, Bool, true, false, Option, none, some, List, ◌∷◌, ◌⊎◌, inl, inr,
}
use haproxy_operator.Base.Map.{Map}
use haproxy_operator.Haproxy.Errors.{Cause, Error, foreign, Result, ok, err}
use haproxy_operator.Platform.{
  ApiConfig, Client, HttpRequest, Answer, Secret, Effect, exchanged, patched, Platform,
}

-- `SecretReconciler`. `haproxyClient` and `clientReady` are set together, and are one field here;
-- `spireSource` and `Recorder` are only ever tested for nil.
pub record Reconciler : Type 0 where
  pub secret_name : String
  pub secret_key : String
  pub api_config : ApiConfig
  pub spire_socket_path : String
  pub recorder : Bool
  pub certs_secret_names : List String
  pub drift_remediate : Bool
  pub haproxy_client : Option Client
  pub spire_source : Bool
  pub transient_failures : ℕ
  pub last_desired_hash : Text
  pub last_metric_hash : Text
  pub last_metric_state : String
  pub cert_sync_hashes : Option (Map Text)

pub record State (p : Platform) : Type 0 where
  pub reconciler : Reconciler
  pub log : List Effect
  pub world : p.World

abbrev pub Act : Platform → Type 0 → Type 0
Act p A = State p → A × State p

module _ {p : Platform} {A : Type 0} where
  unfoldable pub pure : A → Act p A
  pure a s = (a, s)

  -- A read of the state, the world's clock or a file.
  unfoldable pub gets : (State p → A) → Act p A
  gets f s = (f s, s)

module _ {p : Platform} {A B : Type 0} where
  infixl 5 ◌>>=◌
  unfoldable pub ◌>>=◌ : Act p A → (A → Act p B) → Act p B
  unfolding pure gets
  ◌>>=◌ m f s = let (a, s') = m s in f a s'

  -- `if err != nil { … }` on a call that returns a value too.
  unfoldable pub or_error : Result A → (Error → Act p B) → (A → Act p B) → Act p B
  or_error (ok a) handler rest = rest a
  or_error (err e) handler rest = handler e

module _ {p : Platform} {B : Type 0} where
  infixl 5 ◌>>◌
  abbrev pub ◌>>◌ : Act p (Unit {0}) → Act p B → Act p B
  m >> n = m >>= λ _. n

  -- `if err != nil { … }` on a call that only returns an error.
  unfoldable pub on_error : Option Error → (Error → Act p B) → Act p B → Act p B
  on_error none handler rest = rest
  on_error (some e) handler rest = handler e

abbrev pub lifted {ℓ} : {A : Type ℓ} → Cause ⊎ A → Result A
lifted (inl c) = err (foreign c)
lifted (inr a) = ok a

abbrev pub caused : Option Cause → Option Error
caused none = none
caused (some c) = some (foreign c)

module _ {p : Platform} where
  -- An `if` with no `else`.
  unfoldable pub when : Bool → Act p (Unit {0}) → Act p (Unit {0})
  unfolding pure
  when true m = m
  when false m = pure tt

  unfoldable pub perform : Effect → Act p (Unit {0})
  perform e s = (tt, record s { log = e ∷ s.log })

  unfoldable pub modify : (Reconciler → Reconciler) → Act p (Unit {0})
  modify f s = (tt, record s { reconciler = f s.reconciler })

  -- `c.httpClient.Do(req)`
  unfoldable pub exchange : Client → HttpRequest → Act p Answer
  exchange c request s =
      let (answer, w) = p.round_trip c request s.world in
      (answer, record s { log = exchanged request answer ∷ s.log; world = w })

  -- `r.Get`
  unfoldable pub get_secret : String → String → Act p (Result Secret)
  get_secret namespace name s =
      let (answer, w) = p.get_secret namespace name s.world in
      (lifted answer, record s { world = w })

  -- `r.Patch`, with the object that it leaves
  unfoldable pub patch_secret : Secret → Secret → Act p (Option Error × Secret)
  patch_secret before after s =
      let (outcome, w) = p.patch_secret before after s.world in
      (
        (caused outcome.failure, outcome.object),
        record s { log = patched before after outcome.failure ∷ s.log; world = w },
      )

  -- A wait that the end of the context cuts short.
  unfoldable pub pause : ℕ → Act p (Option Error)
  pause ms s = let (ended, w) = p.pause ms s.world in (caused ended, record s { world = w })

  -- `workloadapi.NewX509Source`
  unfoldable pub open_source : String → Act p (Option Error)
  open_source path s =
      let (failure, w) = p.open_source path s.world in (caused failure, record s { world = w })

  -- `r.spireSource.Close`
  unfoldable pub close_source : Act p (Option Error)
  close_source s =
      let (failure, w) = p.close_source s.world in (caused failure, record s { world = w })

  -- `time.Sleep`
  unfoldable pub sleep : ℕ → Act p (Unit {0})
  sleep ms s = (tt, record s { world = p.sleep ms s.world })

  -- `<-ctx.Done()`, and the error of the context
  unfoldable pub until_done : Act p Cause
  until_done s = let (c, w) = p.until_done s.world in (c, record s { world = w })

  -- `fsnotify.NewWatcher`
  unfoldable pub new_watcher : Act p (Option Error)
  new_watcher s =
      let (failure, w) = p.new_watcher s.world in (caused failure, record s { world = w })

  -- `w.Add`
  unfoldable pub add_watch : String → Act p (Option Error)
  add_watch path s =
      let (failure, w) = p.add_watch path s.world in (caused failure, record s { world = w })
