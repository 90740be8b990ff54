-- ===== src/Integration/Rows/Comparing.antt =====
-- What `validateRowsAgainstSchema` of cmd/integration/main.go accepts.
use mdbapi.Base.{
  suc, ◌≤◌, ◌≡◌, ◌↔◌, ◌∙◌, refl, sym, true, false, ◌||◌, List, [], ◌∷◌, ◌==◌, arith, All, is_nil,
  if◌then◌else◌, length, Bool-cases, inl, inr,
}
use mdbapi.Strings.{Bytes, str_eq, str_eq_iff}
use mdbapi.Mdb.Errors.{ok, Result-cases}
use mdbapi.Integration.Rows.{
  member, add_all, check_keys, check_row, check_rows, validate_rows_against_schema,
}

-- no key twice
abbrev pub Distinct : List Bytes → Type 0
Distinct [] = Unit {0}
Distinct (k ∷ ks) = (member k ks ≡ false) × Distinct ks

abbrev Within : List Bytes → List Bytes → Type 0
Within xs ys = (k : Bytes) → member k xs ≡ true → member k ys ≡ true

-- without the first occurrence
erase : Bytes → List Bytes → List Bytes
erase x [] = []
erase x (y ∷ ys) = let rest = erase x ys in if str_eq x y then ys else y ∷ rest

length-erase :
    (x : Bytes) (ys : List Bytes) → member x ys ≡ true → length ys ≡ suc (length (erase x ys))
unfolding erase
length-erase x [] h = absurd (cc)
length-erase x (y ∷ ys) h = ground (arith, length-erase x ys)

member-erase :
    (k x : Bytes) (ys : List Bytes) → str_eq k x ≡ false → member k (erase x ys) ≡ member k ys
unfolding erase
member-erase k x [] h = refl
member-erase k x (y ∷ ys) h =
    ground (arith, member-erase k x ys h, str_eq_iff k x, str_eq_iff x y, str_eq_iff k y)

-- a key of the tail is not the head
tail-ne :
    (k x : Bytes) (xs : List Bytes) → member x xs ≡ false → member k xs ≡ true → str_eq k x ≡ false
tail-ne k x xs none_twice there = elim (Bool-cases (str_eq k x)) [
  | inr e ↦ e
  | inl e ↦ absurd (cc ((str_eq_iff k x).0 e, there, none_twice))
]

Within-erase :
    (x : Bytes) (xs ys : List Bytes)
    → Distinct (x ∷ xs)
    → Within (x ∷ xs) ys
    → Within xs (erase x ys)
Within-erase x xs ys (new, d) w k there =
    let other = tail-ne k x xs new there in
    rw (member-erase k x ys other) (w k (ground (arith, there)))

member_self : (x : Bytes) (xs : List Bytes) → member x (x ∷ xs) ≡ true
member_self x xs = ground (arith, str_eq_iff x x)

-- Distinct keys that all lie in a list are no more than its length.
length-le : (xs ys : List Bytes) → Distinct xs → Within xs ys → length xs ≤ length ys
length-le [] ys d w = omega arith
length-le (x ∷ xs) ys (new, d) w = omega (
  arith,
  length-erase x ys (w x (member_self x xs)),
  length-le xs (erase x ys) d (Within-erase x xs ys (new, d) w),
)

-- If they are as many, they are all of it.
Within-back :
    (xs ys : List Bytes) → Distinct xs → Within xs ys → length ys ≤ length xs → Within ys xs
Within-back [] [] d w le k there = there
Within-back [] (y ∷ ys) d w le k there = absurd (omega arith)
Within-back (x ∷ xs) ys (new, d) w le k there = elim (Bool-cases (str_eq k x)) [
  | inl e ↦ rw e
  | inr e ↦
      let one_less = length-erase x ys (w x (member_self x xs)) in
      let rest =
        Within-back xs (erase x ys) d (Within-erase x xs ys (new, d) w) (omega arith) k
          (member-erase k x ys e ∙ there) in
      rw (e, rest)
]

member-add_all :
    (k : Bytes) (cs set : List Bytes) → member k (add_all cs set) ≡ (member k set || member k cs)
unfolding add_all
member-add_all k [] set = ground arith
member-add_all k (c ∷ cs) set = elim (Bool-cases (member c set)) [
  | inl old ↦ rw (old, member-add_all k cs set) (ground (arith, str_eq_iff k c))
  | inr new ↦ rw (new, member-add_all k cs (c ∷ set)) (ground arith)
]

Distinct-add_all : (cs set : List Bytes) → Distinct set → Distinct (add_all cs set)
unfolding add_all
Distinct-add_all [] set d = d
Distinct-add_all (c ∷ cs) set d = elim (Bool-cases (member c set)) [
  | inl old ↦ rw old (Distinct-add_all cs set d)
  | inr new ↦ rw new (Distinct-add_all cs (c ∷ set) (new, d))
]

check_keys-Within : (set ks : List Bytes) → (check_keys set ks ≡ ok tt) ↔ Within ks set
unfolding check_keys
check_keys-Within set [] = ((λ e k there. absurd (cc)), λ w. refl)
check_keys-Within set (k ∷ ks) = elim (Bool-cases (member k set)) [
  | inl good ↦ rw good (
      let (there, back) = check_keys-Within set ks in
      (
        (λ e j in_ks. elim (Bool-cases (str_eq j k)) [
          | inl same ↦ rw ((str_eq_iff j k).0 same) good
          | inr other ↦ there e j (ground (arith, in_ks, other))
        ]),
        λ w. back (λ j in_ks. w j (ground (arith, in_ks))),
      ))
  | inr bad ↦ rw bad ((λ e. absurd (cc)), λ w. absurd (let m = w k (member_self k ks) in cc))
]

-- a row has the keys of the schema, in any order
abbrev pub SameKeys : List Bytes → List Bytes → Type 0
SameKeys row cols = (k : Bytes) → member k row ≡ member k cols

both_ways : (xs ys : List Bytes) → Within xs ys → Within ys xs → SameKeys xs ys
both_ways xs ys w v k = elim (Bool-cases (member k xs)) [
  | inl yes_x ↦ rw yes_x (sym (w k yes_x))
  | inr no_x ↦ elim (Bool-cases (member k ys)) [
    | inl yes_y ↦ absurd (let e = v k yes_y in cc)
    | inr no_y ↦ rw (no_x, no_y)
  ]
]

check_row-SameKeys :
    (set row : List Bytes)
    → Distinct set
    → Distinct row
    → (check_row set row ≡ ok tt) ↔ SameKeys row set
unfolding check_row
check_row-SameKeys set row ds dr = elim (Bool-cases (length row == length set)) [
  | inl even ↦ rw even (
    (λ e.
        let w = (check_keys-Within set row).0 e in
        both_ways row set w (Within-back row set dr w (ground (arith, even)))),
    λ same. (check_keys-Within set row).1 (λ k there. sym (same k) ∙ there),
  )
  | inr odd ↦ rw odd (
    (λ e. absurd (cc)),
    λ same.
        let a = length-le row set dr (λ k there. sym (same k) ∙ there) in
        let b = length-le set row ds (λ k there. same k ∙ there) in
        absurd (ground (arith, odd, a, b)),
  )
]

check_rows-SameKeys :
    (set : List Bytes) (rows : List (List Bytes))
    → Distinct set
    → All Distinct rows
    → (check_rows set rows ≡ ok tt) ↔ All (λ row. SameKeys row set) rows
unfolding check_rows
check_rows-SameKeys set [] ds dr = ((λ e. tt), λ h. refl)
check_rows-SameKeys set (row ∷ rows) ds (d, dr) =
    let (a, b) = check_row-SameKeys set row ds d in
    let (c, e) = check_rows-SameKeys set rows ds dr in
    elim (Result-cases (check_row set row)) [
      | inl (_, good) ↦ rw good ((λ h. (a good, c h)), λ h. e h.1)
      | inr (x, bad) ↦ rw bad ((λ h. absurd (cc)), λ h. absurd (let g = b h.0 in cc))
    ]

All-SameKeys :
    (xs ys : List Bytes) (rows : List (List Bytes))
    → SameKeys xs ys
    → All (λ row. SameKeys row xs) rows
    → All (λ row. SameKeys row ys) rows
All-SameKeys xs ys [] same h = tt
All-SameKeys xs ys (row ∷ rows) same (h, hs) =
    ((λ k. h k ∙ same k), All-SameKeys xs ys rows same hs)

-- The comparison by number and by membership accepts exactly the rows that have the columns of the
-- schema, no one less and no one more, in any order; a schema without columns is refused.
pub validate_rows_against_schema-SameKeys :
    (rows : List (List Bytes)) (expected : List Bytes)
    → All Distinct rows
    → (validate_rows_against_schema rows expected ≡ ok tt)
      ↔ ((is_nil expected ≡ false) × All (λ row. SameKeys row expected) rows)
unfolding validate_rows_against_schema
validate_rows_against_schema-SameKeys rows [] d = ((λ e. absurd (cc)), λ h. absurd (cc (h.0)))
validate_rows_against_schema-SameKeys [] (c ∷ cs) d = ((λ e. (refl, tt)), λ h. refl)
validate_rows_against_schema-SameKeys (row ∷ rows) (c ∷ cs) d =
    let set = add_all (c ∷ cs) [] in
    let same : SameKeys set (c ∷ cs) = λ k. member-add_all k (c ∷ cs) [] in
    let (a, b) = check_rows-SameKeys set (row ∷ rows) (Distinct-add_all (c ∷ cs) [] tt) d in
    (
      (λ e. (refl, All-SameKeys set (c ∷ cs) (row ∷ rows) same (a e))),
      λ h. b (All-SameKeys (c ∷ cs) set (row ∷ rows) (λ k. sym (same k)) h.1),
    )
