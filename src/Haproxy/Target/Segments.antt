-- ===== src/Haproxy/Target/Segments.antt =====
-- Where a request path leads, segment by segment.
use mathlib.Core.List.{append-nil, tail-eq_of_cons-eq}
use haproxy_operator.Base.{
  String, true, false, ◌≡◌, refl, ap, sym, subst, ◌∙◌, List, [], ◌∷◌, ◌++◌, ◌===◌, Bool-cases, inl,
  inr, Bool,
}
use haproxy_operator.Base.Split.{
  split, separated, join, Lacks, AllLack, split-separated, split-join, cons_not_empty, IsCons,
}
use haproxy_operator.Haproxy.Target.{
  slash, trim_prefix, trim_suffix, is_rooted, reverse_onto, clean_segments, path_clean, path_join,
  resolve_path,
}

-- A segment as it stands in a path that is clean already.
abbrev pub IsSegment : String → Type 0
IsSegment s = ((s === "") ≡ false) × ((s === ".") ≡ false) × ((s === "..") ≡ false) × Lacks slash s

abbrev pub AllSegments : List String → Type 0
AllSegments [] = Unit {0}
AllSegments (s ∷ ss) = IsSegment s × AllSegments ss

-- The absolute path of the segments, without a slash at its end.
abbrev pub absolute : List String → String
absolute [] = ""
absolute (s ∷ ss) = String.◌∷◌ slash (join slash (s ∷ ss))

AllLack-of_AllSegments : (ss : List String) → AllSegments ss → AllLack slash ss
AllLack-of_AllSegments [] h = tt
AllLack-of_AllSegments (s ∷ ss) h = (h.0.3, AllLack-of_AllSegments ss h.1)

pub AllSegments-append :
    (ss ts : List String) → AllSegments ss → AllSegments ts → AllSegments (ss ++ ts)
AllSegments-append [] ts h k = k
AllSegments-append (s ∷ ss) ts h k = (h.0, AllSegments-append ss ts h.1 k)

clean_segments_lem :
    (rooted : Bool) (kept ss : List String)
    → AllSegments ss
    → clean_segments rooted kept ss ≡ reverse_onto kept ss
unfolding clean_segments
clean_segments_lem rooted kept [] h = refl
clean_segments_lem rooted kept (s ∷ ss) h =
    rw (h.0.0, h.0.1, h.0.2) (clean_segments_lem rooted (s ∷ kept) ss h.1)

-- An empty segment goes.
clean_segments-empty :
    (rooted : Bool) (kept ss : List String)
    → AllSegments ss
    → clean_segments rooted kept (ss ++ ("" ∷ [])) ≡ reverse_onto kept ss
unfolding clean_segments
clean_segments-empty rooted kept [] h = refl
clean_segments-empty rooted kept (s ∷ ss) h =
    rw (h.0.0, h.0.1, h.0.2) (clean_segments-empty rooted (s ∷ kept) ss h.1)

-- A first empty segment goes, and so does a last one.
clean_segments-rooted : (ss : List String) → AllSegments ss → clean_segments true [] ("" ∷ ss) ≡ ss
unfolding clean_segments
clean_segments-rooted ss h = clean_segments_lem true [] ss h

clean_segments-slash :
    (ss : List String) → AllSegments ss → clean_segments true [] ("" ∷ ss ++ ("" ∷ [])) ≡ ss
unfolding clean_segments
clean_segments-slash ss h = clean_segments-empty true [] ss h

split-absolute :
    (s : String) (ss : List String)
    → AllSegments (s ∷ ss)
    → split slash (absolute (s ∷ ss)) ≡ "" ∷ s ∷ ss
unfolding split
split-absolute s ss h = rw (split-join slash s ss (AllLack-of_AllSegments (s ∷ ss) h)) refl

trim_prefix-absolute : (ss : List String) → trim_prefix (absolute ss) ≡ join slash ss
unfolding trim_prefix join
trim_prefix-absolute [] = refl
trim_prefix-absolute (s ∷ ss) = refl

separated_not_empty : (s t : String) → (separated slash s t === "") ≡ false
unfolding separated
separated_not_empty String.[] t = cons_not_empty slash t
separated_not_empty (String.◌∷◌ c s) t = cons_not_empty c (separated slash s t)

-- A slash at the end goes.
trim_suffix-separated : (s : String) → trim_suffix (separated slash s "") ≡ s
unfolding trim_suffix separated
trim_suffix-separated String.[] = refl
trim_suffix-separated (String.◌∷◌ c s) = rw (separated_not_empty s "", trim_suffix-separated s) refl

join_not_empty :
    (s : String) (ss : List String) → IsSegment s → (join slash (s ∷ ss) === "") ≡ false
unfolding join
join_not_empty s [] h = h.0
join_not_empty s (t ∷ ts) h = separated_not_empty s (join slash (t ∷ ts))

trim_suffix_lacking : (s : String) → Lacks slash s → trim_suffix s ≡ s
unfolding trim_suffix
trim_suffix_lacking String.[] h = refl
trim_suffix_lacking (String.◌∷◌ c s) h = elim (Bool-cases (s === "")) [
  | inl e ↦ rw (e, h.0, trim_suffix_lacking s h.1) refl
  | inr e ↦ rw (e, trim_suffix_lacking s h.1) refl
]

trim_suffix-separated_cons :
    (s t : String)
    → (t === "") ≡ false
    → trim_suffix (separated slash s t) ≡ separated slash s (trim_suffix t)
unfolding trim_suffix separated
trim_suffix-separated_cons String.[] t h = rw h refl
trim_suffix-separated_cons (String.◌∷◌ c s) t h =
    rw (separated_not_empty s t, trim_suffix-separated_cons s t h) refl

trim_suffix-join :
    (s : String) (ss : List String)
    → AllSegments (s ∷ ss)
    → trim_suffix (join slash (s ∷ ss)) ≡ join slash (s ∷ ss)
unfolding join
trim_suffix-join s [] h = trim_suffix_lacking s h.0.3
trim_suffix-join s (t ∷ ts) h =
    trim_suffix-separated_cons s (join slash (t ∷ ts)) (join_not_empty t ts h.1.0)
    ∙ ap (λ x. separated slash s x) (trim_suffix-join t ts h.1)

trim_suffix-absolute :
    (s : String) (ss : List String)
    → AllSegments (s ∷ ss)
    → trim_suffix (absolute (s ∷ ss)) ≡ absolute (s ∷ ss)
unfolding trim_suffix
trim_suffix-absolute s ss h = rw (join_not_empty s ss h.0, trim_suffix-join s ss h) refl

path_clean-rooted :
    (p : String) (ss : List String)
    → is_rooted p ≡ true
    → clean_segments true [] (split slash p) ≡ ss
    → path_clean p ≡ String.◌∷◌ slash (join slash ss)
unfolding path_clean
path_clean-rooted p ss rooted e = rw (rooted, e) refl

split-nothing : split slash (join slash []) ≡ "" ∷ []
unfolding split join
split-nothing = refl

-- The segments of two joined paths, cleaned.
cleaned :
    (b : String) (bs es : List String)
    → AllSegments (b ∷ bs)
    → AllSegments es
    → clean_segments true [] (split slash (separated slash (absolute (b ∷ bs)) (join slash es)))
      ≡ (b ∷ bs) ++ es
cleaned b bs [] h k =
    ap (clean_segments true []) (
      split-separated slash (absolute (b ∷ bs)) (join slash [])
      ∙ ap (λ l. l ++ split slash (join slash [])) (split-absolute b bs h))
    ∙ ap (λ l. clean_segments true [] ("" ∷ (b ∷ bs) ++ l)) split-nothing
    ∙ clean_segments-slash (b ∷ bs) h
    ∙ sym (append-nil (b ∷ bs))
cleaned b bs (e ∷ es) h k =
    ap (clean_segments true []) (
      split-separated slash (absolute (b ∷ bs)) (join slash (e ∷ es))
      ∙ ap (λ l. l ++ split slash (join slash (e ∷ es))) (split-absolute b bs h)
      ∙ ap (λ l. ("" ∷ b ∷ bs) ++ l) (split-join slash e es (AllLack-of_AllSegments (e ∷ es) k)))
    ∙ clean_segments-rooted ((b ∷ bs) ++ (e ∷ es)) (AllSegments-append (b ∷ bs) (e ∷ es) h k)

path_clean-separated :
    (b : String) (bs es : List String)
    → AllSegments (b ∷ bs)
    → AllSegments es
    → path_clean (separated slash (absolute (b ∷ bs)) (join slash es)) ≡ absolute ((b ∷ bs) ++ es)
path_clean-separated b bs es h k =
    path_clean-rooted _ ((b ∷ bs) ++ es) (unfold separated in refl) (cleaned b bs es h k)

path_join-absolute :
    (b : String) (bs es : List String)
    → AllSegments (b ∷ bs)
    → AllSegments es
    → path_join (absolute (b ∷ bs)) (join slash es) ≡ absolute ((b ∷ bs) ++ es)
unfolding path_join
path_join-absolute b bs es h k =
    rw (cons_not_empty slash (join slash (b ∷ bs))) (path_clean-separated b bs es h k)

pub resolve_path-absolute :
    (b : String) (bs es : List String)
    → AllSegments (b ∷ bs)
    → AllSegments es
    → resolve_path (absolute (b ∷ bs)) (absolute es) ≡ absolute ((b ∷ bs) ++ es)
unfolding resolve_path
resolve_path-absolute b bs es h k =
    ap (λ t. path_join t (trim_prefix (absolute es))) (trim_suffix-absolute b bs h)
    ∙ ap (path_join (absolute (b ∷ bs))) (trim_prefix-absolute es)
    ∙ path_join-absolute b bs es h k

pub resolve_path-slash :
    (b : String) (bs es : List String)
    → AllSegments (b ∷ bs)
    → AllSegments es
    → resolve_path (separated slash (absolute (b ∷ bs)) "") (absolute es)
      ≡ absolute ((b ∷ bs) ++ es)
unfolding resolve_path
resolve_path-slash b bs es h k =
    ap (λ t. path_join t (trim_prefix (absolute es))) (trim_suffix-separated (absolute (b ∷ bs)))
    ∙ ap (path_join (absolute (b ∷ bs))) (trim_prefix-absolute es)
    ∙ path_join-absolute b bs es h k

-- Absolute paths tell their segments apart.
pub absolute-injective :
    (ss ts : List String) → AllSegments ss → AllSegments ts → absolute ss ≡ absolute ts → ss ≡ ts
absolute-injective [] [] h k e = refl
absolute-injective [] (t ∷ ts) h k e = absurd (subst IsCons (sym e) tt)
absolute-injective (s ∷ ss) [] h k e = absurd (subst IsCons e tt)
absolute-injective (s ∷ ss) (t ∷ ts) h k e =
    tail-eq_of_cons-eq (sym (split-absolute s ss h) ∙ ap (split slash) e ∙ split-absolute t ts k)
