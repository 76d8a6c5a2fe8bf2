-- ===== src/Setup/Started.antt =====
-- What the manager of main.go is started with.
use haproxy_operator.Base.{
  String, false, ◌≡◌, sym, ap, subst, ◌∙◌, ◌≢◌, some, ◌===◌, eq_iff, if◌then◌else◌, arith,
  Bool-cases, inl, inr,
}
use haproxy_operator.Platform.{Platform}
use haproxy_operator.Act.{Reconciler, State, pure, gets, ◌>>=◌}
use haproxy_operator.Controller.Reconcile.{finished, is_managed_cert, reconcile}
use haproxy_operator.Controller.Manager.{Manager, set_up_with_manager}
use haproxy_operator.Setup.{
  Flags, manager, fill_in, new_reconciler, manager_options, launch, unless_empty, insecure_active,
}
use haproxy_operator.Base.Split.{IsCons}

reconcile-other :
    {p : Platform} (namespace name : String) (s : State p)
    → s.reconciler.secret_name ≢ ""
    → name ≢ s.reconciler.secret_name
    → is_managed_cert s.reconciler name ≡ false
    → reconcile namespace name s ≡ (finished, s)
unfolding reconcile ◌>>=◌ gets pure
reconcile-other namespace name s named other unmanaged = ground (
  arith,
  eq_iff s.reconciler.secret_name "",
  eq_iff name s.reconciler.secret_name,
  named,
  other,
  unmanaged,
)

-- A name that is never empty.
default_named : (n d : String) → d ≢ "" → (if n === "" then d else n) ≢ ""
default_named n d h = elim (Bool-cases (n === "")) [
  | inl e ↦ rw e h
  | inr e ↦ rw e (λ same. ground (arith, eq_iff n ""))
]

fill_in_named :
    (f : Flags)
    → f.mode ≡ "k8s"
    → ((fill_in f).secret_name ≢ "") × ((fill_in f).watch_namespace ≢ "")
unfolding fill_in
fill_in_named f k8s = rw k8s (
  default_named f.secret_name "haproxy-config" (λ e. subst IsCons e tt),
  default_named f.watch_namespace "haproxy-operator" (λ e. subst IsCons e tt),
)

unless_empty-some : (n : String) → n ≢ "" → unless_empty n ≡ some n
unless_empty-some n h = elim (Bool-cases (n === "")) [
  | inl e ↦ absurd (h ((eq_iff n "").0 e))
  | inr e ↦ rw e
]

launch-k8s :
    (p : Platform) (f : Flags)
    → f.mode ≡ "k8s"
    → launch p f
      ≡ manager
          (manager_options (fill_in f))
          (new_reconciler (fill_in f))
          (insecure_active f)
          (unless_empty f.dataplane_client_cert)
unfolding launch
launch-k8s p f k8s = rw k8s

-- For all flags with the mode k8s, and every manager: it is started for one namespace; and in every
-- state that holds the reconciler as SetupWithManager leaves it, the reconciliation of a Secret which
-- is neither the configured one nor a managed certificate ends at once and changes nothing.
pub launch-watches_one :
    (p : Platform) (f : Flags) (mgr : Manager) (namespace name : String) (s : State p)
    → f.mode ≡ "k8s"
    → s.reconciler ≡ (set_up_with_manager mgr (new_reconciler (fill_in f))).1
    → name ≢ s.reconciler.secret_name
    → is_managed_cert s.reconciler name ≡ false
    → ((n : String) × ((manager_options (fill_in f)).default_namespace ≡ some n))
      × (launch p f
          ≡ manager
              (manager_options (fill_in f))
              (new_reconciler (fill_in f))
              (insecure_active f)
              (unless_empty f.dataplane_client_cert))
      × (reconcile namespace name s ≡ (finished, s))
unfolding set_up_with_manager
launch-watches_one p f mgr namespace name s k8s built other unmanaged = (
  (
    (fill_in f).watch_namespace,
    unless_empty-some (fill_in f).watch_namespace (fill_in_named f k8s).1,
  ),
  launch-k8s p f k8s,
  reconcile-other namespace name s
      (λ e. (fill_in_named f k8s).0 (sym (ap (λ (r : Reconciler). r.secret_name) built) ∙ e)) other
      unmanaged,
)
