-- ===== src/Command/Keys/Appended.antt =====
-- What `appendKeyToConfig` of cmd/mdbapi/main.go does to the file.
use mdbapi.Base.{
  ℕ, zero, suc, ◌≡◌, ◌≢◌, ◌∙◌, ◌⊎◌, refl, sym, ap, any, is_some, ◌>>=◌, true, false, Option, none,
  some, List, [], ◌∷◌, ◌++◌, All, Bool-cases, Option-cases, inl, inr,
}
use mdbapi.Strings.{Bytes, codes, split, join, index}
use mdbapi.Strings.Search.{Off}
use mdbapi.Strings.Lines.{Off-append, split-join, All-split}
use mdbapi.Mdb.Errors.{Error, Result, ok}
use mdbapi.Command.Keys.{
  spaces, indent_of, new_line, is_keys_line, add_line, written, append_key_to_config,
}

-- the line behind the first line of keys, and nothing else, is new
abbrev pub IsAdded : Bytes → List Bytes → List Bytes → Type 0
IsAdded key lines out =
    (before : List Bytes) × (line : Bytes) × (behind : List Bytes) × (lines
      ≡ before ++ line ∷ behind)
    × (out ≡ before ++ line ∷ new_line key line ∷ behind)
    × (is_keys_line line ≡ true)
    × All (λ l. is_keys_line l ≡ false) before

add_line-IsAdded :
    (key : Bytes) (lines out : List Bytes) → add_line key lines ≡ some out → IsAdded key lines out
unfolding add_line
add_line-IsAdded key [] out h = absurd (cc)
add_line-IsAdded key (line ∷ lines) out h = elim (Bool-cases (is_keys_line line)) [
  | inl here ↦
      let k = rw here at h in
      let e : out ≡ line ∷ new_line key line ∷ lines = cc in
      rw e ([], line, lines, refl, refl, here, tt)
  | inr other ↦ elim (Option-cases (add_line key lines)) [
    | inl no_line ↦ absurd (let k = rw (other, no_line) at h in cc)
    | inr (more, found) ↦
        let k = rw (other, found) at h in
        let e : out ≡ line ∷ more = cc in
        let (before, l, behind, a, b, is_keys, none_before) =
          add_line-IsAdded key lines more found in
        rw e (
          line ∷ before,
          l,
          behind,
          ap (λ (x : List Bytes). line ∷ x) a,
          ap (λ (x : List Bytes). line ∷ x) b,
          is_keys,
          (other, none_before),
        )
  ]
]

spaces-Off : (n : ℕ) → Off 10 (spaces n)
unfolding spaces
spaces-Off zero = refl
spaces-Off (suc n) = spaces-Off n

new_line-Off : (key line : Bytes) → Off 10 key → Off 10 (new_line key line)
unfolding new_line
new_line-Off key line h =
    Off-append 10 (spaces (indent_of (index line (codes "k")))) _ (spaces-Off _)
      (Off-append 10 key (codes "\"") h refl)

-- the new lines have no line break inside, and there are some
abbrev AreLines : Option (List Bytes) → Type 0
AreLines none = Unit {0}
AreLines (some []) = ⊥
AreLines (some (l ∷ ls)) = All (Off 10) (l ∷ ls)

cons-AreLines :
    (line : Bytes) (o : Option (List Bytes))
    → Off 10 line
    → AreLines o
    → AreLines (o >>= λ more. some (line ∷ more))
cons-AreLines line none h ls = tt
cons-AreLines line (some []) h ls = absurd ls
cons-AreLines line (some (m ∷ more)) h ls = (h, ls)

add_line-AreLines :
    (key : Bytes) (lines : List Bytes)
    → Off 10 key
    → All (Off 10) lines
    → AreLines (add_line key lines)
unfolding add_line
add_line-AreLines key [] k h = tt
add_line-AreLines key (line ∷ lines) k (h, hs) = elim (Bool-cases (is_keys_line line)) [
  | inl here ↦ rw here (h, (new_line-Off key line k, hs))
  | inr other ↦
      rw other (cons-AreLines line (add_line key lines) h (add_line-AreLines key lines k hs))
]

is_some-bind :
    (line : Bytes) (o : Option (List Bytes))
    → is_some (o >>= λ more. some (line ∷ more)) ≡ is_some o
is_some-bind line none = refl
is_some-bind line (some more) = refl

add_line-none :
    (key : Bytes) (lines : List Bytes) → is_some (add_line key lines) ≡ any is_keys_line lines
unfolding add_line
add_line-none key [] = refl
add_line-none key (line ∷ lines) = elim (Bool-cases (is_keys_line line)) [
  | inl here ↦ rw here
  | inr other ↦ rw other (is_some-bind line (add_line key lines) ∙ add_line-none key lines)
]

-- what became of the file with the lines `lines`
abbrev pub IsAppended : Bytes → Bytes → Result (Unit {0}) → Bytes → Type 0
IsAppended key old r file =
    ((any is_keys_line (split old 10) ≡ true)
      × (r ≡ ok tt)
      × IsAdded key (split old 10) (split file 10))
    ⊎ ((any is_keys_line (split old 10) ≡ false) × (r ≢ ok tt) × (file ≡ old))

-- For a key without a line break, and a file that can be read and written: if a line of the file
-- starts with `keys:`, white space apart, then behind the first such line stands a new line with
-- the key and all else is as before, and if there is none, an error is returned and the file stays
-- as it was.
pub append_key_to_config-IsAppended :
    (write : Bytes → Option Error) (key old : Bytes)
    → ((content : Bytes) → write content ≡ none)
    → Off 10 key
    → let (r, file) = append_key_to_config write none key old in IsAppended key old r file
unfolding append_key_to_config
append_key_to_config-IsAppended write key old writes one_line =
    by_lines (add_line key (split old 10)) refl
      (add_line-AreLines key (split old 10) one_line (All-split old 10))
  where
    by_lines :
        (o : Option (List Bytes))
        → add_line key (split old 10) ≡ o
        → AreLines o
        → let (r, file) = written write old o in IsAppended key old r file
    by_lines none e lines =
        inr (sym (add_line-none key (split old 10)) ∙ ap is_some e, (λ k. cc), refl)
    by_lines (some []) e lines = absurd lines
    by_lines (some (l ∷ ls)) e lines = inl (
      sym (add_line-none key (split old 10)) ∙ ap is_some e,
      rw (writes (join (l ∷ ls) (10 ∷ []))),
      rw (writes (join (l ∷ ls) (10 ∷ [])), split-join l ls 10 lines)
          (add_line-IsAdded key (split old 10) (l ∷ ls) e),
    )
