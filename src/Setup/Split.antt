-- ===== src/Setup/Split.antt =====
-- The list of certificate Secrets that main.go reads from a flag: strings.Split, strings.TrimSpace
-- and the loop over the parts.
use Prim.Native.Char.{Char, code}
use haproxy_operator.Base.Split.{split}
use haproxy_operator.Base.{
  ℕ, String, Bool, not, ◌&&◌, ◌||◌, List, [], ◌∷◌, ◌===◌, ◌==◌, leb, if◌then◌else◌,
}

-- `strings.Split(s, ",")`
abbrev pub split_commas : String → List String
split_commas s = split "," s

abbrev between : ℕ → ℕ → ℕ → Bool
between lo hi n = leb lo n && leb n hi

-- `unicode.IsSpace`
unfoldable pub is_space : Char → Bool
is_space c =
    between 9 13 (code c)
    || (code c == 32
        || (code c == 0x85
            || (code c == 0xa0
                || (code c == 0x1680
                    || (between 0x2000 0x200a (code c)
                        || (between 0x2028 0x2029 (code c)
                            || (code c == 0x202f || (code c == 0x205f || code c == 0x3000))))))))

unfoldable pub trim_left : String → String
trim_left String.[] = ""
trim_left (String.◌∷◌ c s) = let rest = trim_left s in if is_space c then rest else String.◌∷◌ c s

abbrev pub trimmed : Char → String → String
trimmed c String.[] = if is_space c then "" else String.◌∷◌ c ""
trimmed c (String.◌∷◌ d s) = String.◌∷◌ c (String.◌∷◌ d s)

unfoldable pub trim_right : String → String
trim_right String.[] = ""
trim_right (String.◌∷◌ c s) = trimmed c (trim_right s)

-- `strings.TrimSpace`
unfoldable pub trim_space : String → String
unfolding trim_left trim_right
trim_space s = trim_right (trim_left s)

-- The loop over the parts.
unfoldable pub keep_names : List String → List String
unfolding trim_space
keep_names [] = []
keep_names (n ∷ ns) =
    let rest = keep_names ns in if not (trim_space n === "") then trim_space n ∷ rest else rest

-- The value of `CertsSecretNames`
unfoldable pub certs_secret_names_of : String → List String
unfolding split keep_names
certs_secret_names_of s = keep_names (split_commas s)
