-- ===== src/Mdb/Sql/TopN.antt =====
-- The row cap that `enforceTopN` of internal/mdb/query.go writes into a statement.
use mdbapi.Base.{ℕ, ◌≡◌, refl, Bool, true, false, ◌||◌, ◌∷◌, ◌++◌, drop, Bool-cases, inl, inr, ap}
use mdbapi.Base.Int.{ℤ}
use mdbapi.Strings.{Bytes, codes, contains, has_prefix, trim_end, is_space, trim_space, to_upper}
use mdbapi.Strings.Decimal.{itoa_ℤ}
use mdbapi.Strings.Trim.{trim_space-cons, trim_space_blank, trim_end-append, to_upper-append}
use mdbapi.Strings.Search.{has_prefix_self}
use mdbapi.Mdb.Sql.{enforce_top_n}

-- the statement has a TOP clause, as far as `enforceTopN` sees
abbrev pub has_top : Bytes → Bool
has_top query =
    contains (to_upper (trim_space query)) (codes " TOP ")
    || has_prefix (to_upper (trim_space query)) (codes "SELECT TOP")

abbrev pub is_select : Bytes → Bool
is_select query = has_prefix (to_upper (trim_space query)) (codes "SELECT")

pub enforce_top_n-has_top : (q : Bytes) (n : ℤ) → has_top q ≡ true → enforce_top_n q n ≡ q
unfolding enforce_top_n
enforce_top_n-has_top q n h = rw h

enforce_top_n_other : (q : Bytes) (n : ℤ) → is_select q ≡ false → enforce_top_n q n ≡ q
unfolding enforce_top_n
enforce_top_n_other q n h = elim (Bool-cases (has_top q)) [
  | inl top ↦ rw top
  | inr plain ↦ rw (plain, h)
]

pub enforce_top_n_capped :
    (q : Bytes) (n : ℤ)
    → has_top q ≡ false
    → is_select q ≡ true
    → enforce_top_n q n ≡ codes "SELECT TOP " ++ (itoa_ℤ n ++ drop 6 q)
unfolding enforce_top_n
enforce_top_n_capped q n h k = rw (h, k)

or_true : (b : Bool) → (b || true) ≡ true
or_true true = refl
or_true false = refl

trim_top : (r : Bytes) → trim_space (codes "SELECT TOP" ++ r) ≡ codes "SELECT TOP" ++ trim_end r
trim_top r =
    rw (trim_space-cons b'S' (codes "ELECT TOP" ++ r) refl refl)
      (ap (λ (t : Bytes). b'S' ∷ t) (trim_end-append (codes "ELECT TO") b'P' r refl refl))

-- A statement that begins with SELECT TOP has a TOP clause.
has_top_prefix : (r : Bytes) → has_top (codes "SELECT TOP" ++ r) ≡ true
has_top_prefix r =
    rw
      (
        trim_top r,
        to_upper-append (codes "SELECT TOP") (trim_end r) refl,
        has_prefix_self (codes "SELECT TOP") (to_upper (trim_end r)),
      )
      (or_true _)

-- Writing the cap a second time changes nothing, for every statement and any two caps.
pub enforce_top_n_idem :
    (q : Bytes) (n m : ℤ) → enforce_top_n (enforce_top_n q n) m ≡ enforce_top_n q n
enforce_top_n_idem q n m = elim (Bool-cases (has_top q)) [
  | inl top ↦ rw (enforce_top_n-has_top q n top, enforce_top_n-has_top q m top)
  | inr plain ↦ elim (Bool-cases (is_select q)) [
    | inl select ↦
        rw (enforce_top_n_capped q n plain select)
          (enforce_top_n-has_top _ m (has_top_prefix (b' ' ∷ (itoa_ℤ n ++ drop 6 q))))
    | inr other ↦ rw (enforce_top_n_other q n other, enforce_top_n_other q m other)
  ]
]

is_select_blank :
    (c : ℕ) (r : Bytes) → is_space c ≡ true → is_select (c ∷ codes "SELECT" ++ r) ≡ true
is_select_blank c r blank = rw (
  trim_space_blank c (codes "SELECT" ++ r) blank,
  trim_space-cons b'S' (codes "ELECT" ++ r) refl refl,
  trim_end-append (codes "ELEC") b'T' r refl refl,
  to_upper-append (codes "SELECT") (trim_end r) refl,
  has_prefix_self (codes "SELECT") (to_upper (trim_end r)),
)

-- With a blank in front of SELECT and no TOP clause, the cap is written in front of the last letter
-- of SELECT.
pub enforce_top_n_blank :
    (c : ℕ) (r : Bytes) (n : ℤ)
    → is_space c ≡ true
    → has_top (c ∷ codes "SELECT" ++ r) ≡ false
    → enforce_top_n (c ∷ codes "SELECT" ++ r) n ≡ codes "SELECT TOP " ++ (itoa_ℤ n ++ b'T' ∷ r)
enforce_top_n_blank c r n blank plain =
    enforce_top_n_capped (c ∷ codes "SELECT" ++ r) n plain (is_select_blank c r blank)
