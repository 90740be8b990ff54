-- ===== src/Mdb/Types/Hyperlinks.antt =====
-- The address that `stripHyperlinkMeta` of internal/mdb/types.go takes out of an Access hyperlink.
use mdbapi.Base.{
  ℕ, zero, suc, ◌≡◌, refl, inl, inr, true, false, List, [], ◌∷◌, ◌++◌, arith, ◌==◌, Bool-cases, ◌≢◌,
  ==_refl,
}
use mdbapi.Strings.{Bytes, split_cuts}
use mdbapi.Strings.Search.{Off}
use mdbapi.Mdb.Types.{pick_address, strip_hyperlink_meta}

split_on :
    (c : ℕ) (s : Bytes) (sep n : ℕ) (p : Bytes) (ps : List Bytes)
    → (c == sep) ≡ false
    → split_cuts s sep (suc n) ≡ p ∷ ps
    → split_cuts (c ∷ s) sep (suc n) ≡ (c ∷ p) ∷ ps
unfolding split_cuts
split_on c s sep n p ps off e = rw (off, e)

split_at :
    (c : ℕ) (s : Bytes) (sep n : ℕ)
    → (c == sep) ≡ true
    → split_cuts (c ∷ s) sep (suc n) ≡ [] ∷ split_cuts s sep n
unfolding split_cuts
split_at c s sep n e = rw e

split_nil : (sep n : ℕ) → split_cuts [] sep n ≡ [] ∷ []
unfolding split_cuts
split_nil sep zero = refl
split_nil sep (suc n) = refl

-- how a split with a cut left goes on
data Cut (s : Bytes) (sep n : ℕ) : Type 0 where
  whole : Off sep s → split_cuts s sep (suc n) ≡ s ∷ [] → Cut s sep n
  part : (p t : Bytes) → Off sep p → split_cuts s sep (suc n) ≡ p ∷ split_cuts t sep n → Cut s sep n

Cut-cons : (c : ℕ) (s : Bytes) (sep n : ℕ) → (c == sep) ≡ false → Cut s sep n → Cut (c ∷ s) sep n
Cut-cons c s sep n off (whole h e) = whole (ground arith) (split_on c s sep n s [] off e)
Cut-cons c s sep n off (part p t h e) =
    part (c ∷ p) t (ground arith) (split_on c s sep n p (split_cuts t sep n) off e)

cut : (s : Bytes) (sep n : ℕ) → Cut s sep n
cut [] sep n = whole refl (split_nil sep (suc n))
cut (c ∷ s) sep n = elim (Bool-cases (c == sep)) [
  | inl at ↦ part [] s refl (split_at c s sep n at)
  | inr off ↦ Cut-cons c s sep n off (cut s sep n)
]

-- with no cut left there is one part
split_rest : (t : Bytes) (sep : ℕ) → split_cuts t sep 0 ≡ t ∷ []
unfolding split_cuts
split_rest [] sep = refl
split_rest (c ∷ t) sep = refl

pick_address-Off :
    (s p q : Bytes) (ps : List Bytes)
    → Off b'#' p
    → Off b'#' q
    → Off b'#' (pick_address s (p ∷ q ∷ ps))
unfolding pick_address
pick_address-Off s p [] ps hp hq = hp
pick_address-Off s p (c ∷ q) ps hp hq = hq

pick_second :
    (s p t : Bytes)
    → Off b'#' p
    → Cut t b'#' 0
    → Off b'#' (pick_address s (p ∷ split_cuts t b'#' 1))
pick_second s p t hp (whole h e) = rw e (pick_address-Off s p t [] hp h)
pick_second s p t hp (part q u h e) = rw e (pick_address-Off s p q (split_cuts u b'#' 0) hp h)

pick_first : (s : Bytes) → Cut s b'#' 1 → Off b'#' (pick_address s (split_cuts s b'#' 2))
pick_first s (whole h e) = rw e (unfold pick_address in h)
pick_first s (part p t h e) = rw e (pick_second s p t h (cut t b'#' 0))

-- The stripped text of a hyperlink column never holds the delimiter #.
pub strip_hyperlink_meta-Off : (s : Bytes) → Off b'#' (strip_hyperlink_meta s)
unfolding strip_hyperlink_meta
strip_hyperlink_meta-Off s = pick_first s (cut s b'#' 1)

split_exact :
    (p t : Bytes) (sep n : ℕ)
    → Off sep p
    → split_cuts (p ++ sep ∷ t) sep (suc n) ≡ p ∷ split_cuts t sep n
split_exact [] t sep n h = split_at sep t sep n (==_refl sep)
split_exact (c ∷ p) t sep n h =
    split_on c (p ++ sep ∷ t) sep n p (split_cuts t sep n) (ground arith)
      (split_exact p t sep n (ground arith))

-- Of "text#address#tip" with an address, the address is left.
pub strip_hyperlink_meta-address :
    (text address tip : Bytes)
    → Off b'#' text
    → Off b'#' address
    → address ≢ []
    → strip_hyperlink_meta (text ++ b'#' ∷ (address ++ b'#' ∷ tip)) ≡ address
unfolding strip_hyperlink_meta
strip_hyperlink_meta-address text [] tip ht ha some_address = absurd (some_address refl)
strip_hyperlink_meta-address text (c ∷ a) tip ht ha some_address =
    rw (split_exact text ((c ∷ a) ++ b'#' ∷ tip) b'#' 1 ht, split_exact (c ∷ a) tip b'#' 0 ha)

no_cut : (s : Bytes) → Off b'#' s → split_cuts s b'#' 2 ≡ s ∷ []
no_cut [] h = split_nil b'#' 2
no_cut (c ∷ s) h = split_on c s b'#' 1 s [] (ground arith) (no_cut s (ground arith))

-- Stripping twice is stripping once.
pub strip_hyperlink_meta_idem :
    (s : Bytes) → strip_hyperlink_meta (strip_hyperlink_meta s) ≡ strip_hyperlink_meta s
strip_hyperlink_meta_idem s =
    let t = strip_hyperlink_meta s in unchanged t (strip_hyperlink_meta-Off s)
  where
    unchanged : (t : Bytes) → Off b'#' t → strip_hyperlink_meta t ≡ t
    unchanged t h = unfold strip_hyperlink_meta in rw (no_cut t h)
