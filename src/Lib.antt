-- ===== src/Lib.antt =====
-- The HAProxy operator: a Kubernetes controller that takes haproxy.cfg from a Secret, validates and
-- applies it through the HAProxy Dataplane API, checks the gateway for drift, and pushes TLS Secrets to
-- the gateway's certificate storage.
--
-- The parts and their files. The source paths are from the repository's root.
--   Base             shared names, Boolean tests, texts as lists of bytes; Base/Map is Go's maps as
--                    logs of their writes, Base/Split is strings.Split and strings.Join.
--   Platform         the records of the program (APIConfig, Client, the parts of corev1.Secret that are
--                    read), the effects that a property can speak of, and `Platform`: the functions of
--                    the surroundings (HTTP transport, Kubernetes API, clocks, files, codecs), which
--                    every stateful definition takes as a parameter.
--   Act              state passing: `State` is the fields of SecretReconciler, the log of effects with
--                    the newest first, and the world. Act/Keeps has one rule for each way to build an
--                    action.
--   Haproxy/Errors   internal/haproxy/errors.go: Classify over chains of wrapped errors.
--   Haproxy/Client   internal/haproxy/dataplane_client.go: do, the version read, waitForReady, the
--                    validation and application of a raw configuration, its read-back, Ping and Info.
--   Haproxy/Target   resolveURL of the same file, on path segments: what Go's path.Join, path.Clean and
--                    the trims of strings do is written out. Target/Segments and Target/Resolved are
--                    about it.
--   Haproxy/Certificates   SyncSSLCertificate, createSSLCertificate and leafSerial of the same file.
--   Haproxy/Verify   the two TLS callbacks of the transport that NewClient builds, and loadCAPool;
--                    Verify/Trust says which chains are accepted. Haproxy/Results is for such chains of
--                    calls.
--   Haproxy/Ready, Leaf, Push, Healthy   what is proved of the two loops, of a push, and of the
--                    requests to a gateway that answers all of them.
--   Spire            internal/spire/transport.go: TLSTransport and its callbacks; Spire/Trust says
--                    which chains are accepted.
--   Status           internal/status/reporter.go: SanitizeMessage, EmitEvent and, in Status/Reasons,
--                    the reasons of Events.
--   Config           internal/config: LoadFromFile, HashBytes, Validate.
--   Controller/Backoff, Controller/Annotations   backoffForFailure, the operator's annotations,
--                    patchAnnotations, failWithStatus and the event filter isRelevantUpdate of
--                    internal/controller/secret_controller.go.
--   Controller/Connect     NewClient, NewClientWithTransport, getOrCreateClient and DataplaneReady.
--   Controller/Certs       internal/controller/certs.go: pushCertSecret and its two callers.
--   Controller/Reconcile   Reconcile, one definition for each phase of its body: Ends has the ways in
--                    which it ends, Apply the validation and application, Drift the drift check, and
--                    the file itself the handling of certificate events and the entry.
--   Controller/Protocol    the protocol that a reconciliation follows, as a step relation on states;
--                    Protocol/Run shows that `reconcile` keeps every invariant of it.
--   Controller/Ledger      an abstract specification of the operator, and its implementation by the
--                    reconciler.
--   Controller/Manager     SetupWithManager, its event filter, Close and the SPIRE closer.
--   Controller/Stable, Front   predicates of the state that the bookkeeping leaves alone, and the way
--                    from a request to the contents of the configuration Secret.
--   Controller/Settles     repeated reconciliations on a gateway and a cluster that keep what they are
--                    given; Settles/Storage states what that means, as a record of laws.
--   Controller/Safety, Events, Noticed, Series, Timely, Converges, Waits, Alert, Pushed
--                    the theorems on reconciliations, on the event filter and on certificate pushes.
--   Metrics          internal/metrics/cert_expiry.go: the expiry of a certificate file, and its watcher;
--                    Metrics/Ends is about the loop over its PEM blocks.
--   Local            internal/local/runner.go: the local mode, on the list of notices that its loop
--                    receives; Local/Keeps, Laws, Stops and Serves are about it. Local/Laws has a loop
--                    without the tests on events, for comparison.
--   Setup            main.go: flags, environment and what they start; Setup/Process is main from the
--                    parsed flags to its exit status, on what controller-runtime answers.
--   Tests            a concrete platform, runs on it, and the theorems at concrete inputs.
--
-- How they interact: `reconcile` reads a Secret, asks `get_or_create_client` for the client, sends its
-- requests with `request`, which logs each exchange, classifies the errors with `classify`, and records
-- the outcome with `patch_annotations`. A property of the log is an invariant of the protocol's steps.
--
-- Bounds. waitForReady is given a round for each poll interval of its timeout and two more; leafSerial
-- and certFileNotAfter are given one for each byte of the text and one more, and these two loops have a
-- result of their own for rounds that are used up; the rounds are proved to be enough, on a clock that
-- waits move on and for a decoder that takes a byte at least. The local mode makes the five attempts of
-- the source. The certificate watcher runs until the context ends, and is given any number of ticks. The
-- digits of a number are written with as many rounds as its value and one more. Delays are numbers of
-- nanoseconds, and the shift of the backoff is one of 64-bit words.
--
-- Simplifications. The digest, the JSON, PEM, X.509 and multipart codecs and the URL parser are
-- parameters. A request's query is a map, which `Encode` orders. Log lines are left out. A
-- reconciliation runs alone: the controller is registered with the default of one worker, and the
-- client's mutex is held throughout getOrCreateClient. The reflection of maps in the event filter compares
-- them key by key. A version is a natural number. A request that cannot be built has the
-- answer `unreachable` of the transport: the methods are constants, so the error is that of url.Parse on
-- the address, a url.Error as those of the transport are.
--
-- A tick of the certificate watcher is a wait of its interval that the end of the context cuts short,
-- and a notice of the file watcher is an element of a list.
--
-- Not modelled: the JSON bodies of doRequest, which no call passes; the log lines, with the warning loop
-- of main.go, which only logs; the logger's own flags; the chart, the manifests and the build files.
-- They are input and output, or strings that only the surroundings read.
pub mod Base
pub mod Metrics
pub mod Platform
pub mod Act
pub mod Haproxy
pub mod Status
pub mod Config
pub mod Spire
pub mod Local
pub mod Setup
pub mod Controller
pub mod Tests
