-- ===== src/Status/Sanitize.antt =====
-- What a sanitized message looks like.
use haproxy_operator.Base.{
  and_right, ℕ, zero, suc, ◌≤◌, ◌<◌, Text, length, take, ◌≡◌, refl, ◌≢◌, inl, inr, Bool, true,
  false, ◌&&◌, ◌||◌, codes, ap, ltb, if◌then◌else◌, ◌==◌, [], ◌∷◌, ◌++◌, arith, Bool-cases,
  length-append, length-take-le,
}
use haproxy_operator.Status.{
  all_continue, rune_rest, rewritten, clean, truncate, max_event_message, ellipsis,
  sanitize_message, follows, trailing, replacement,
}

-- A byte that is no ASCII control character.
abbrev pub IsPrintable : ℕ → Type 0
IsPrintable b = (32 ≤ b) × (b ≢ 127)

abbrev pub AllPrintable : Text → Type 0
AllPrintable [] = Unit {0}
AllPrintable (b ∷ s) = IsPrintable b × AllPrintable s

AllPrintable-append : (s t : Text) → AllPrintable s → AllPrintable t → AllPrintable (s ++ t)
AllPrintable-append [] t hs ht = ht
AllPrintable-append (b ∷ s) t hs ht = (hs.0, AllPrintable-append s t hs.1 ht)

AllPrintable-take : (n : ℕ) (s : Text) → AllPrintable s → AllPrintable (take n s)
AllPrintable-take zero s h = tt
AllPrintable-take (suc n) [] h = tt
AllPrintable-take (suc n) (b ∷ s) h = (h.0, AllPrintable-take n s h.1)

AllPrintable-if :
    (b : Bool) (s t : Text)
    → (b ≡ true → AllPrintable s)
    → (b ≡ false → AllPrintable t)
    → AllPrintable (if b then s else t)
AllPrintable-if true s t hs ht = hs refl
AllPrintable-if false s t hs ht = ht refl

all_continue-rune_rest : (b : ℕ) (s : Text) → all_continue (rune_rest b s) s ≡ true
unfolding rune_rest
all_continue-rune_rest b [] = refl
all_continue-rune_rest b (c ∷ s) =
    elim (Bool-cases (follows b c && all_continue (trailing b) (c ∷ s))) [
      | inl valid ↦ rw valid (and_right (follows b c) _ valid)
      | inr invalid ↦ rw invalid
    ]

AllPrintable-rewritten : (b rest : ℕ) → AllPrintable (rewritten b rest)
unfolding rewritten
AllPrintable-rewritten b rest =
    AllPrintable-if (b == 10 || b == 13) (codes " | ") _ (λ _. omega arith)
      λ _.
        AllPrintable-if (ltb b 32 || b == 127) [] _ (λ _. tt)
          λ h.
            AllPrintable-if (ltb b 128) (b ∷ []) _ (λ _. (ground arith, tt))
              λ _.
                AllPrintable-if (rest == 0) replacement (b ∷ []) (λ _. omega arith)
                  (λ _. (ground arith, tt))

AllPrintable-clean : (k : ℕ) (s : Text) → all_continue k s ≡ true → AllPrintable (clean k s)
unfolding clean all_continue
AllPrintable-clean zero [] h = tt
AllPrintable-clean (suc k) [] h = tt
AllPrintable-clean (suc k) (b ∷ s) h = (ground arith, AllPrintable-clean k s (ground arith))
AllPrintable-clean zero (b ∷ s) h =
    AllPrintable-append (rewritten b (rune_rest b s)) _ (AllPrintable-rewritten b (rune_rest b s))
      (AllPrintable-clean (rune_rest b s) s (all_continue-rune_rest b s))

AllPrintable-truncate : (out : Text) → AllPrintable out → AllPrintable (truncate out)
unfolding truncate
AllPrintable-truncate out h =
    AllPrintable-if (ltb 512 (length out)) (take 512 out ++ ellipsis) out
      (λ _. AllPrintable-append (take 512 out) ellipsis (AllPrintable-take 512 out h) (omega arith))
      (λ _. h)

length-truncate-le : (out : Text) → length (truncate out) ≤ 515
unfolding truncate
length-truncate-le out = elim (Bool-cases (ltb max_event_message (length out))) [
  | inl long ↦
      rw long (omega (arith, length-append (take 512 out) ellipsis, length-take-le 512 out))
  | inr short ↦ rw short (ground arith)
]

-- Whatever bytes the message has, the sanitized one has no ASCII control character and at most
-- 515 bytes, those of the ellipsis included.
pub sanitize_message-safe :
    (msg : Text) → AllPrintable (sanitize_message msg) × (length (sanitize_message msg) ≤ 515)
unfolding sanitize_message
sanitize_message-safe msg = (
  AllPrintable-truncate _ (AllPrintable-clean zero msg (unfold all_continue in refl)),
  length-truncate-le (clean zero msg),
)

-- Printable ASCII only.
abbrev pub AllPlain : Text → Type 0
AllPlain [] = Unit {0}
AllPlain (b ∷ s) = (32 ≤ b) × (b < 127) × AllPlain s

rewritten_plain : (b rest : ℕ) → 32 ≤ b → b < 127 → rewritten b rest ≡ b ∷ []
unfolding rewritten
rewritten_plain b rest lo hi = ground arith

rune_rest_plain : (b : ℕ) (s : Text) → b < 127 → rune_rest b s ≡ 0
unfolding rune_rest
rune_rest_plain b [] h = refl
rune_rest_plain b (c ∷ s) h = ground arith

clean_plain : (s : Text) → AllPlain s → clean zero s ≡ s
unfolding clean
clean_plain [] h = refl
clean_plain (b ∷ s) (lo, hi, h) =
    rw (rune_rest_plain b s hi, rewritten_plain b 0 lo hi) (ap (λ t. b ∷ t) (clean_plain s h))

-- A message of printable ASCII with at most 512 bytes is left as it is.
pub sanitize_message-eq_self :
    (msg : Text) → AllPlain msg → length msg ≤ 512 → sanitize_message msg ≡ msg
unfolding sanitize_message
sanitize_message-eq_self msg plain fits = rw (clean_plain msg plain) (ground arith)
