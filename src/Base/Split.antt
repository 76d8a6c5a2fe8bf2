-- ===== src/Base/Split.antt =====
-- Texts that are cut at a character, `strings.Split`, and joined by it again, `strings.Join`.
use Prim.Native.Char.{Char, code}
use haproxy_operator.Base.{
  String, true, false, ◌≡◌, refl, subst, ◌∙◌, List, [], ◌∷◌, ◌++◌, ◌===◌, eq_iff, ◌==◌,
  if◌then◌else◌, Bool-cases, inl, inr, arith,
}

abbrev pub first : Char → List String → List String
first c [] = String.◌∷◌ c "" ∷ []
first c (x ∷ xs) = String.◌∷◌ c x ∷ xs

-- `strings.Split(s, sep)`, for a separator of one character
unfoldable pub split : Char → String → List String
split sep String.[] = "" ∷ []
split sep (String.◌∷◌ c s) =
    let rest = split sep s in if code c == code sep then "" ∷ rest else first c rest

-- `s + sep + t`
unfoldable pub separated : Char → String → String → String
separated sep String.[] t = String.◌∷◌ sep t
separated sep (String.◌∷◌ c s) t = String.◌∷◌ c (separated sep s t)

-- `strings.Join(parts, sep)`
unfoldable pub join : Char → List String → String
unfolding separated
join sep [] = ""
join sep (n ∷ []) = n
join sep (n ∷ m ∷ ns) = separated sep n (join sep (m ∷ ns))

-- The character is not in the text.
abbrev pub Lacks : Char → String → Type 0
Lacks sep String.[] = Unit {0}
Lacks sep (String.◌∷◌ c s) = ((code c == code sep) ≡ false) × Lacks sep s

abbrev pub AllLack : Char → List String → Type 0
AllLack sep [] = Unit {0}
AllLack sep (n ∷ ns) = Lacks sep n × AllLack sep ns

abbrev pub IsCons : String → Type 0
IsCons String.[] = ⊥
IsCons (String.◌∷◌ c s) = Unit {0}

pub cons_not_empty : (c : Char) (s : String) → (String.◌∷◌ c s === "") ≡ false
cons_not_empty c s = elim (Bool-cases (String.◌∷◌ c s === "")) [
  | inl e ↦ absurd (subst IsCons ((eq_iff (String.◌∷◌ c s) "").0 e) tt)
  | inr e ↦ e
]

code_refl : (c : Char) → (code c == code c) ≡ true
code_refl c = ground arith

-- A split is never empty.
split-cons : (sep : Char) (s : String) → (x : String) × (xs : List String) × (split sep s ≡ x ∷ xs)
unfolding split
split-cons sep String.[] = ("", [], refl)
split-cons sep (String.◌∷◌ c s) =
    let (x, xs, e) = split-cons sep s in
    elim (Bool-cases (code c == code sep)) [
      | inl cut ↦ ("", x ∷ xs, rw (cut, e) refl)
      | inr same ↦ (String.◌∷◌ c x, xs, rw (same, e) refl)
    ]

first-append :
    (sep c : Char) (s : String) (ys : List String)
    → first c (split sep s ++ ys) ≡ first c (split sep s) ++ ys
first-append sep c s ys = let (x, xs, e) = split-cons sep s in rw e refl

pub split-separated :
    (sep : Char) (s t : String) → split sep (separated sep s t) ≡ split sep s ++ split sep t
unfolding split separated
split-separated sep String.[] t = rw (code_refl sep) refl
split-separated sep (String.◌∷◌ c s) t = elim (Bool-cases (code c == code sep)) [
  | inl cut ↦ rw (cut, split-separated sep s t) refl
  | inr same ↦ rw (same, split-separated sep s t) (first-append sep c s (split sep t))
]

pub split_lacking : (sep : Char) (s : String) → Lacks sep s → split sep s ≡ s ∷ []
unfolding split
split_lacking sep String.[] h = refl
split_lacking sep (String.◌∷◌ c s) h = rw (h.0, split_lacking sep s h.1) refl

-- Parts that lack the separator, one at least, are read back as they were.
pub split-join :
    (sep : Char) (n : String) (ns : List String)
    → AllLack sep (n ∷ ns)
    → split sep (join sep (n ∷ ns)) ≡ n ∷ ns
unfolding join
split-join sep n [] h = split_lacking sep n h.0
split-join sep n (m ∷ ns) h =
    split-separated sep n (join sep (m ∷ ns))
    ∙ rw (split_lacking sep n h.0, split-join sep m ns h.1) refl
