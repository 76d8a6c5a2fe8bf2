-- ===== src/Setup/Names.antt =====
-- The list of certificate Secrets that main.go reads from a flag.
use Prim.Native.Char.{code}
use haproxy_operator.Base.{String, false, ◌≡◌, refl, ap, List, [], ◌∷◌, ◌===◌, ◌==◌}
use haproxy_operator.Base.Split.{split, join, split-join, Lacks, AllLack, cons_not_empty}
use haproxy_operator.Setup.Split.{
  is_space, trim_left, trimmed, trim_right, trim_space, keep_names, certs_secret_names_of,
}

-- Neither white space nor a comma in it.
abbrev IsPlain : String → Type 0
IsPlain String.[] = Unit {0}
IsPlain (String.◌∷◌ c s) = (is_space c ≡ false) × ((code c == code ",") ≡ false) × IsPlain s

-- A plain text that is not empty.
abbrev pub IsName : String → Type 0
IsName String.[] = ⊥
IsName (String.◌∷◌ c s) = IsPlain (String.◌∷◌ c s)

abbrev pub AllNames : List String → Type 0
AllNames [] = Unit {0}
AllNames (n ∷ ns) = IsName n × AllNames ns

trim_right_plain : (s : String) → IsPlain s → trim_right s ≡ s
unfolding trim_right
trim_right_plain String.[] h = refl
trim_right_plain (String.◌∷◌ c s) h = rw (trim_right_plain s h.2) (last s)
  where
    last : (t : String) → trimmed c t ≡ String.◌∷◌ c t
    last String.[] = rw h.0
    last (String.◌∷◌ d t) = refl

trim_space_name : (n : String) → IsName n → trim_space n ≡ n
unfolding trim_space trim_left
trim_space_name String.[] h = absurd h
trim_space_name (String.◌∷◌ c s) h = rw h.0 (trim_right_plain (String.◌∷◌ c s) h)

IsPlain-of_IsName : (n : String) → IsName n → IsPlain n
IsPlain-of_IsName String.[] h = absurd h
IsPlain-of_IsName (String.◌∷◌ c s) h = h

name_not_empty : (n : String) → IsName n → (n === "") ≡ false
name_not_empty String.[] h = absurd h
name_not_empty (String.◌∷◌ c s) h = cons_not_empty c s

Lacks-of_IsPlain : (n : String) → IsPlain n → Lacks "," n
Lacks-of_IsPlain String.[] h = tt
Lacks-of_IsPlain (String.◌∷◌ c s) h = (h.1, Lacks-of_IsPlain s h.2)

AllLack-of_AllNames : (ns : List String) → AllNames ns → AllLack "," ns
AllLack-of_AllNames [] h = tt
AllLack-of_AllNames (n ∷ ns) h =
    (Lacks-of_IsPlain n (IsPlain-of_IsName n h.0), AllLack-of_AllNames ns h.1)

keep_names_names : (ns : List String) → AllNames ns → keep_names ns ≡ ns
unfolding keep_names
keep_names_names [] h = refl
keep_names_names (n ∷ ns) h =
    rw (trim_space_name n h.0, name_not_empty n h.0) (ap (λ l. n ∷ l) (keep_names_names ns h.1))

-- For every list of names that are not empty and have neither white space nor commas: joined by
-- commas, they are read back as they are, in their order.
pub certs_secret_names_of-join :
    (ns : List String) → AllNames ns → certs_secret_names_of (join "," ns) ≡ ns
unfolding certs_secret_names_of
certs_secret_names_of-join [] h =
    unfold join split keep_names trim_space trim_left trim_right in refl
certs_secret_names_of-join (n ∷ ns) h =
    rw (split-join "," n ns (AllLack-of_AllNames (n ∷ ns) h)) (keep_names_names (n ∷ ns) h)
