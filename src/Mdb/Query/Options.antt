-- ===== src/Mdb/Query/Options.antt =====
-- What `ParseQueryOpts` of internal/mdb/query.go takes for a filter, and the limit that QueryTable
-- works with.
use mdbapi.Base.{
  ℕ, ◌<◌, ◌≡◌, refl, ap, ◌∙◌, true, Option, none, some, List, [], ◌∷◌, arith, if◌then◌else◌,
  Bool-cases, inl, inr,
}
use mdbapi.Base.Int.{ℤ, pos, negsuc, leb_ℤ}
use mdbapi.Base.Assoc.{lookup, lookup-insert, lookup-nil, lookup-cons}
use mdbapi.Strings.{Bytes, str_eq, str_eq_iff, bytes_eq}
use mdbapi.Mdb.Query.{
  Values, is_reserved, add_filter, collect_filters, parse_query_opts, effective_limit,
}

-- no key stands twice, as in a map
abbrev pub DistinctKeys : Values → Type 0
DistinctKeys [] = Unit
DistinctKeys ((key, vals) ∷ q) = (lookup key q ≡ none) × DistinctKeys q

abbrev pub first : Option (List Bytes) → Option Bytes
first none = none
first (some []) = none
first (some (v ∷ vs)) = some v

-- the filter on a column that a request asks for
abbrev pub wanted : Bytes → Values → Option Bytes
wanted key q = if is_reserved key then none else first (lookup key q)

abbrev or_else : Option Bytes → Option Bytes → Option Bytes
or_else (some v) o = some v
or_else none o = o

or_else-none : (o : Option Bytes) → or_else o none ≡ o
or_else-none none = refl
or_else-none (some v) = refl

lookup-add_filter :
    (k key : Bytes) (vals : List Bytes) (fs : List (Bytes × Bytes))
    → lookup k (add_filter key vals fs)
      ≡ or_else
          (if str_eq key k then (if is_reserved k then none else first (some vals)) else none)
          (lookup k fs)
unfolding add_filter
lookup-add_filter k key [] fs = ground arith
lookup-add_filter k key (v ∷ vs) fs = ground (arith, lookup-insert key k v fs, str_eq_iff key k)

-- a parameter in front of the others, if its key is not among them
wanted-cons :
    (k key : Bytes) (vals : List Bytes) (q : Values) (o : Option Bytes)
    → lookup key q ≡ none
    → or_else (wanted k q) (
        or_else
          (if str_eq key k then (if is_reserved k then none else first (some vals)) else none)
          o)
      ≡ or_else (wanted k ((key, vals) ∷ q)) o
wanted-cons k key vals q o new = elim (Bool-cases (str_eq key k)) [
  | inl same ↦
      let here : key ≡ k = (str_eq_iff key k).0 same in
      let gone : lookup k q ≡ none = rw here at new in
      rw (lookup-cons k key vals q, same, gone)
        (elim (Bool-cases (is_reserved k)) [ inl res ↦ rw res | inr free ↦ rw free ])
  | inr other ↦ rw (lookup-cons k key vals q, other)
]

lookup-collect_filters :
    (k : Bytes) (q : Values) (fs : List (Bytes × Bytes))
    → DistinctKeys q
    → lookup k (collect_filters q fs) ≡ or_else (wanted k q) (lookup k fs)
unfolding collect_filters
lookup-collect_filters k [] fs h =
    rw (lookup-nil k) (elim (Bool-cases (is_reserved k)) [ inl res ↦ rw res | inr free ↦ rw free ])
lookup-collect_filters k ((key, vals) ∷ q) fs (new, h) =
    lookup-collect_filters k q (add_filter key vals fs) h
    ∙ ap (or_else (wanted k q)) (lookup-add_filter k key vals fs)
    ∙ wanted-cons k key vals q (lookup k fs) new

-- If its parameters have distinct names, the filters of a request are those that are not reserved and
-- have a value, each with its first value; a reserved parameter is never a filter.
pub parse_query_opts-filters :
    (q : Values) (k : Bytes) → DistinctKeys q → lookup k (parse_query_opts q).filters ≡ wanted k q
unfolding parse_query_opts
parse_query_opts-filters q k h =
    rw (lookup-collect_filters k q [] h, lookup-nil k) (or_else-none (wanted k q))

-- With a positive cap, the limit in force is positive and at most the cap, whatever was asked for;
-- a limit asked for in that range is kept.
pub effective_limit_bounds :
    (limit : ℤ) (m : ℕ)
    → 0 < m
    → (leb_ℤ (pos 1) (effective_limit limit (pos m)) ≡ true)
      × (leb_ℤ (effective_limit limit (pos m)) (pos m) ≡ true)
      × (leb_ℤ (pos 1) limit ≡ true
          → leb_ℤ limit (pos m) ≡ true
          → effective_limit limit (pos m) ≡ limit)
unfolding effective_limit
effective_limit_bounds (pos n) m h = (ground arith, ground arith, λ p q. ground arith)
effective_limit_bounds (negsuc n) m h = (ground arith, ground arith, λ p q. ground arith)
