-- ===== src/Mdb/Sql/Comments.antt =====
-- What `stripSQLComments` of internal/mdb/query.go leaves: its loop ends by its own test, and no
-- line comment survives.
use mdbapi.Base.{
  ℕ, zero, suc, ◌+◌, ◌≤◌, ◌<◌, ◌≡◌, refl, none, some, List, [], ◌∷◌, ◌++◌, map, arith, take, drop,
  length, length-append, length-take, length-drop, All, Option-cases, inl, inr, ap, false,
}
use mdbapi.Strings.{Bytes, codes, index, has_prefix, split, join}
use mdbapi.Strings.Search.{
  Absent, Absent-nil, Absent-take, Absent-tail, Absent-head, Absent-cons, index_bound,
}
use mdbapi.Strings.Trim.{Absent-trim_space}
use mdbapi.Mdb.Sql.{
  block_open, block_close, line_mark, strip_block, strip_blocks, strip_line, strip_sql_comments,
}

pub strip_block_parts :
    (s s' : Bytes)
    → strip_block s ≡ some s'
    → (i j : ℕ) × (index s block_open ≡ some i)
      × (index (drop i s) block_close ≡ some j)
      × (s' ≡ take i s ++ b' ' ∷ drop (i + j + 2) s)
strip_block_parts s s' h = elim (Option-cases (index s block_open)) [
  | inl e ↦ absurd (unfold strip_block in ground arith)
  | inr (i, e) ↦ elim (Option-cases (index (drop i s) block_close)) [
    | inl e' ↦ absurd (unfold strip_block in ground arith)
    | inr (j, e') ↦ (i, j, e, e', unfold strip_block in ground arith)
  ]
]

strip_block_shorter : (s s' : Bytes) → strip_block s ≡ some s' → length s' < length s
strip_block_shorter s s' h =
    let (i, j, ei, ej, e) = strip_block_parts s s' h in
    let tail = drop (i + j + 2) s in
    omega (
      arith,
      ap length e,
      index_bound s block_open i ei,
      index_bound (drop i s) block_close j ej,
      length-append (take i s) (b' ' ∷ tail),
      length-take i s,
      length-drop i s,
      length-drop (i + j + 2) s,
    )

pub strip_blocks_stop : (f : ℕ) (s : Bytes) → strip_block s ≡ none → strip_blocks f s ≡ s
unfolding strip_blocks
strip_blocks_stop zero s e = refl
strip_blocks_stop (suc f) s e = rw (e, strip_blocks)

pub strip_blocks_step :
    (f : ℕ) (s s' : Bytes) → strip_block s ≡ some s' → strip_blocks (suc f) s ≡ strip_blocks f s'
unfolding strip_blocks
strip_blocks_step f s s' e = rw (e, strip_blocks)

-- With the length of the text as fuel, the loop that removes block comments ends by its break.
pub strip_blocks_done : (f : ℕ) (s : Bytes) → length s ≤ f → strip_block (strip_blocks f s) ≡ none
strip_blocks_done zero [] h = unfold strip_blocks strip_block index has_prefix in refl
strip_blocks_done zero (c ∷ s) h = elim h [ ]
strip_blocks_done (suc f) s h = elim (Option-cases (strip_block s)) [
  | inl e ↦ rw (strip_blocks_stop (suc f) s e) e
  | inr (s', e) ↦
      rw (strip_blocks_step f s s' e)
        (strip_blocks_done f s' (omega (arith, strip_block_shorter s s' e)))
]

strip_line-Absent : (line : Bytes) → Absent line_mark (strip_line line)
unfolding strip_line
strip_line-Absent line = elim (Option-cases (index line line_mark)) [
  | inl e ↦ rw (e, strip_line) e
  | inr (i, e) ↦ rw (e, strip_line) (Absent-take line b'-' (b'-' ∷ []) i e)
]

head_not_mark :
    (c : ℕ) (s t : Bytes)
    → has_prefix (c ∷ s) line_mark ≡ false
    → has_prefix (c ∷ (s ++ b' ' ∷ t)) line_mark ≡ false
unfolding has_prefix
head_not_mark c [] t h = ground arith
head_not_mark c (d ∷ s) t h = h

Absent-join-two :
    (s t : Bytes) → Absent line_mark s → Absent line_mark t → Absent line_mark (s ++ b' ' ∷ t)
Absent-join-two [] t hs ht = Absent-cons b' ' t line_mark (unfold has_prefix in refl) ht
Absent-join-two (c ∷ s) t hs ht =
    Absent-cons c _ line_mark (head_not_mark c s t (Absent-head c s line_mark hs))
      (Absent-join-two s t (Absent-tail c s line_mark hs) ht)

Absent-join : (ps : List Bytes) → All (Absent line_mark) ps → Absent line_mark (join ps (codes " "))
unfolding join
Absent-join [] h = Absent-nil b'-' (b'-' ∷ [])
Absent-join (p ∷ []) (hp, _) = hp
Absent-join (p ∷ q ∷ ps) (hp, hps) = Absent-join-two p _ hp (Absent-join (q ∷ ps) hps)

strip_lines-Absent : (ps : List Bytes) → All (Absent line_mark) (map strip_line ps)
strip_lines-Absent [] = tt
strip_lines-Absent (p ∷ ps) = (strip_line-Absent p, strip_lines-Absent ps)

-- The result of `stripSQLComments` has no line comment mark, whatever the statement.
pub strip_sql_comments-Absent : (s : Bytes) → Absent line_mark (strip_sql_comments s)
unfolding strip_sql_comments
strip_sql_comments-Absent s =
    let lines : List Bytes = split (strip_blocks (length s) s) b'\n' in
    Absent-trim_space b'-' (b'-' ∷ []) (join (map strip_line lines) (codes " "))
      (Absent-join (map strip_line lines) (strip_lines-Absent lines))
