-- ===== src/Strings/Lines.antt =====
-- Laws of `split` and `join` for a separator of one byte.
use mdbapi.Base.{
  ℕ, ◌≡◌, ◌∙◌, refl, ap, false, List, [], ◌∷◌, ◌++◌, ◌==◌, arith, All, Bool-cases, inl, inr,
  ==_refl,
}
use mdbapi.Strings.{Bytes, split, join, push}
use mdbapi.Strings.Search.{Off}

pub Off-append : (d : ℕ) (s t : Bytes) → Off d s → Off d t → Off d (s ++ t)
Off-append d [] t h k = k
Off-append d (c ∷ s) t h k = ground (arith, Off-append d s t)

-- A text without the separator is one part.
pub split-Off : (s : Bytes) (sep : ℕ) → Off sep s → split s sep ≡ s ∷ []
unfolding split
split-Off [] sep h = refl
split-Off (c ∷ s) sep h = elim (Bool-cases (c == sep)) [
  | inl e ↦ absurd (ground (arith, e, h))
  | inr e ↦ rw (e, split-Off s sep (ground arith))
]

-- A part ends at the first separator.
pub split-part :
    (s rest : Bytes) (sep : ℕ) → Off sep s → split (s ++ sep ∷ rest) sep ≡ s ∷ split rest sep
unfolding split
split-part [] rest sep h = rw (==_refl sep)
split-part (c ∷ s) rest sep h = elim (Bool-cases (c == sep)) [
  | inl e ↦ absurd (ground (arith, e, h))
  | inr e ↦ rw (e, split-part s rest sep (ground arith))
]

-- Joined parts without the separator are split again.
pub split-join :
    (p : Bytes) (ps : List Bytes) (sep : ℕ)
    → All (Off sep) (p ∷ ps)
    → split (join (p ∷ ps) (sep ∷ [])) sep ≡ p ∷ ps
unfolding join
split-join p [] sep (h, _) = split-Off p sep h
split-join p (q ∷ ps) sep (h, hs) =
    split-part p (join (q ∷ ps) (sep ∷ [])) sep h
    ∙ ap (λ (l : List Bytes). p ∷ l) (split-join q ps sep hs)

push-Off :
    (c sep : ℕ) (ps : List Bytes)
    → (c == sep) ≡ false
    → All (Off sep) ps
    → All (Off sep) (push c ps)
push-Off c sep [] e h = (ground (arith, e), tt)
push-Off c sep (p ∷ ps) e (h, hs) = (ground (arith, e), hs)

-- No part has the separator.
pub All-split : (s : Bytes) (sep : ℕ) → All (Off sep) (split s sep)
unfolding split
All-split [] sep = (refl, tt)
All-split (c ∷ s) sep = elim (Bool-cases (c == sep)) [
  | inl e ↦ rw e (refl, All-split s sep)
  | inr e ↦ rw e (push-Off c sep (split s sep) e (All-split s sep))
]
