-- ===== src/Status.antt =====
-- internal/status/reporter.go: the sanitizing of messages and the Events on a Secret.
pub mod Reasons
pub mod Sanitize
use haproxy_operator.Status.Reasons
use haproxy_operator.Base.{
  ℕ, zero, suc, String, Text, codes, length, take, Bool, true, false, ◌&&◌, ◌||◌, [], ◌∷◌, ◌++◌,
  ◌===◌, ◌==◌, ltb, leb, any, if◌then◌else◌,
}
use haproxy_operator.Platform.{EventType, normal, warning, emitted, Platform}
use haproxy_operator.Act.{Act, pure, ◌>>=◌, gets, perform}

abbrev between : ℕ → ℕ → ℕ → Bool
between lo hi b = leb lo b && leb b hi

-- A continuation byte of UTF-8.
abbrev continues : ℕ → Bool
continues b = between 0x80 0xbf b

-- The bytes that may follow the first byte of a sequence, as `for range` decodes a Go string.
abbrev follows : ℕ → ℕ → Bool
follows b c =
    if b == 0xe0
    then between 0xa0 0xbf c
    else if b == 0xed
    then between 0x80 0x9f c
    else if b == 0xf0
    then between 0x90 0xbf c
    else if b == 0xf4
    then between 0x80 0x8f c
    else continues c

-- The continuation bytes of a multi-byte sequence with that first byte.
abbrev trailing : ℕ → ℕ
trailing b =
    if between 0xc2 0xdf b
    then 1
    else if between 0xe0 0xef b
    then 2
    else if between 0xf0 0xf4 b
    then 3
    else 0

-- Whether the text goes on with that many continuation bytes.
unfoldable pub all_continue : ℕ → Text → Bool
all_continue zero s = true
all_continue (suc n) [] = false
all_continue (suc n) (c ∷ s) = continues c && all_continue n s

-- How many bytes after `b` belong to its rune; 0 for a byte that is alone or invalid.
unfoldable pub rune_rest : ℕ → Text → ℕ
unfolding all_continue
rune_rest b [] = 0
rune_rest b (c ∷ s) = if follows b c && all_continue (trailing b) (c ∷ s) then trailing b else 0

-- U+FFFD, which stands for an invalid byte.
abbrev replacement : Text
replacement = 0xef ∷ 0xbf ∷ 0xbd ∷ []

-- What the loop of `SanitizeMessage` writes for the rune that begins with byte `b`, except the
-- other `rest` bytes of a valid sequence.
unfoldable pub rewritten : ℕ → ℕ → Text
rewritten b rest =
    if b == 0x0a || b == 0x0d
    then codes " | "
    else if ltb b 0x20 || b == 0x7f
    then []
    else if ltb b 0x80
    then b ∷ []
    else if rest == 0
    then replacement
    else b ∷ []

-- The loop; the first argument counts the bytes of the current rune that are still to be copied.
unfoldable pub clean : ℕ → Text → Text
clean pending [] = []
clean (suc pending) (b ∷ s) = b ∷ clean pending s
clean zero (b ∷ s) = rewritten b (rune_rest b s) ++ clean (rune_rest b s) s

abbrev pub max_event_message : ℕ
max_event_message = 512

-- "…"
abbrev pub ellipsis : Text
ellipsis = 0xe2 ∷ 0x80 ∷ 0xa6 ∷ []

unfoldable pub truncate : Text → Text
truncate out =
    if ltb max_event_message (length out) then take max_event_message out ++ ellipsis else out

-- `SanitizeMessage`
unfoldable pub sanitize_message : Text → Text
unfolding truncate
sanitize_message msg = truncate (clean zero msg)

-- `warningReasons`
unfoldable pub is_warning : String → Bool
is_warning reason =
    any (λ r. reason === r)
      (Reasons.config_rejected ∷ Reasons.validation_failed ∷ Reasons.apply_failed
        ∷ Reasons.auth_error ∷ Reasons.tls_connection_err ∷ Reasons.connection_error
        ∷ Reasons.conflict_error ∷ Reasons.transient_error ∷ Reasons.cert_sync_failed
        ∷ Reasons.config_drift ∷ [])

unfoldable pub event_type : String → EventType
unfolding is_warning
event_type reason = if is_warning reason then warning else normal

-- An empty message stands for the reason.
abbrev event_text : String → Text → Text
event_text reason [] = codes reason
event_text reason (c ∷ s) = c ∷ s

-- `EmitEvent`; `obj` is the name of the Secret.
unfoldable pub emit_event : {p : Platform} → String → String → Text → Act p (Unit {0})
emit_event obj reason message = do
  recorder ← gets (λ s. s.reconciler.recorder)
  if recorder
      then perform
          (emitted obj (event_type reason) reason (sanitize_message (event_text reason message)))
      else pure tt
