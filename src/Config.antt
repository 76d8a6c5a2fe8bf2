-- ===== src/Config.antt =====
-- internal/config: the loader, the hash and the validator.
use haproxy_operator.Base.{
  codes, Text, Option, some, [], ◌∷◌, String, ◌===◌, if◌then◌else◌, inl, inr,
}
use haproxy_operator.Haproxy.Errors.{Error, local_rejection, wrap, fail, foreign, Result, ok, err}
use haproxy_operator.Haproxy.Client.{validate_raw_configuration}
use haproxy_operator.Platform.{Client, Platform}
use haproxy_operator.Act.{Act, pure, gets, ◌>>=◌}

module _ (p : Platform) where
  -- `HashBytes`
  abbrev pub hash_bytes : Text → Text
  hash_bytes cfg = p.sha256_hex cfg

module _ {p : Platform} where
  -- `LoadFromFile`
  unfoldable pub load_from_file : String → Act p (Result Text)
  load_from_file path = if path === "" then pure (err (fail "config path is required")) else (do
    file ← gets (λ s. p.read_file path s.world)
    elim file [
      | inl c ↦ pure (err (wrap "read config file: " (foreign c) []))
      | inr b ↦ pure (ok b)
    ])

  -- `Validate`; an empty configuration is rejected here, with no request.
  unfoldable pub validate : Client → Text → Act p (Option Error)
  validate c [] = pure (some (wrap "empty configuration (" local_rejection (codes ")")))
  validate c (b ∷ raw) = validate_raw_configuration c (b ∷ raw)
