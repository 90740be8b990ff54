-- ===== src/Mdb/Probe/Contains.antt =====
-- The search of internal/mdb/probe.go is that of Go's package strings.
use mdbapi.Base.{
  ℕ, zero, suc, ◌+◌, ◌-◌, ◌≤◌, ◌<◌, ◌≡◌, refl, ap, ◌∙◌, sym, true, false, ◌&&◌, [], ◌∷◌,
  if◌then◌else◌, ltb, leb, length, take, is_some, arith, Bool-cases, Option-cases, inl, inr, ◌==◌,
}
use mdbapi.Strings
use mdbapi.Strings.{Bytes, str_eq, str_eq_iff, has_prefix, index}
use mdbapi.Strings.Search.{index_bound}
use mdbapi.Mdb.Probe.{contains_rounds, contains_str, contains}

prefix_taken : (s p : Bytes) → str_eq (take (length p) s) p ≡ has_prefix s p
unfolding str_eq has_prefix
prefix_taken s [] = refl
prefix_taken [] (d ∷ p) = refl
prefix_taken (c ∷ s) (d ∷ p) = ap (λ b. c == d && b) (prefix_taken s p)

index_short : (s p : Bytes) → length s < length p → is_some (index s p) ≡ false
index_short s p h = elim (Option-cases (index s p)) [
  | inl e ↦ rw e
  | inr (i, e) ↦ absurd (omega (arith, index_bound s p i e))
]

index-cons :
    (c : ℕ) (s p : Bytes)
    → is_some (index (c ∷ s) p) ≡ (if has_prefix (c ∷ s) p then true else is_some (index s p))
unfolding index
index-cons c s p = elim (Bool-cases (has_prefix (c ∷ s) p)) [
  | inl here ↦ rw here
  | inr later ↦ rw later (elim (Option-cases (index s p)) [ inl e ↦ rw e | inr (i, e) ↦ rw e ])
]

rounds-index :
    (k : ℕ) (s p : Bytes)
    → k + length p ≡ suc (length s)
    → contains_rounds k s p ≡ is_some (index s p)
unfolding contains_rounds
rounds-index zero s p h = sym (index_short s p (omega arith))
rounds-index (suc k) [] [] h = unfold str_eq index has_prefix in refl
rounds-index (suc k) [] (d ∷ p) h = absurd (omega arith)
rounds-index (suc k) (c ∷ s) p h = rw (prefix_taken (c ∷ s) p) (
    ap (λ b. if has_prefix (c ∷ s) p then true else b) (rounds-index k s p (omega arith))
    ∙ sym (index-cons c s p))

prefix_self : (s : Bytes) → has_prefix s s ≡ true
unfolding has_prefix
prefix_self [] = refl
prefix_self (c ∷ s) = ground (arith, prefix_self s)

index_self : (s : Bytes) → is_some (index s s) ≡ true
index_self [] = unfold index has_prefix in refl
index_self (c ∷ s) = rw (index-cons c s (c ∷ s), prefix_self (c ∷ s))

same_found : (s p : Bytes) → str_eq s p ≡ true → is_some (index s p) ≡ true
same_found s p h = rw⁻¹ ((str_eq_iff s p).0 h) (index_self s)

both_empty : (s p : Bytes) → length p ≤ length s → ltb 0 (length s) ≡ false → str_eq s p ≡ true
both_empty [] [] h none_there = unfold str_eq in refl
both_empty [] (d ∷ p) h none_there = absurd (omega arith)
both_empty (c ∷ s) p h none_there = absurd (ground arith)

-- The hand-written search agrees with `strings.Contains` on all texts.
pub contains-contains : (s p : Bytes) → contains s p ≡ Strings.contains s p
unfolding contains contains_str Strings.contains
contains-contains s p = elim (Bool-cases (leb (length p) (length s))) [
  | inr short ↦ rw short (sym (index_short s p (ground arith)))
  | inl fits ↦
      let rounds = rounds-index (suc (length s - length p)) s p (ground arith) in
      elim (Bool-cases (str_eq s p)) [
        | inl same ↦ rw (fits, same) (sym (same_found s p same))
        | inr differ ↦ elim (Bool-cases (ltb 0 (length s))) [
          | inl some_text ↦ rw (fits, differ, some_text) rounds
          | inr no_text ↦ absurd (cc (differ, both_empty s p (ground arith) no_text))
        ]
      ]
]
