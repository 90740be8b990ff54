-- ===== src/Mdb/Sql/Keyword.antt =====
-- The read-only test looks at the first keyword only: what stands in front of the first comment
-- mark survives the removal of comments.
use mdbapi.Base.{
  ℕ, zero, suc, ◌+◌, ◌≡◌, refl, sym, ◌∙◌, ap, true, false, ◌||◌, some, List, [], ◌∷◌, ◌++◌,
  append_assoc, map, arith, ◌==◌, take, drop, length, Option-cases, Bool-cases, inl, inr,
}
use mdbapi.Strings.{Bytes, codes, index, has_prefix, split, join, trim_space, to_upper, trim_end}
use mdbapi.Strings.Search.{Off, shift, index-append-Off, has_prefix_self}
use mdbapi.Strings.Trim.{trim_space-cons, trim_space_blank, trim_end-append, to_upper-append}
use mdbapi.Mdb.Errors.{ok}
use mdbapi.Mdb.Sql.{
  block_open, line_mark, strip_block, strip_blocks, strip_line, strip_sql_comments,
  validate_read_only_sql,
}
use mdbapi.Mdb.Sql.Comments.{strip_blocks_stop, strip_blocks_step, strip_block_parts}
use mdbapi.Mdb.Sql.Line.{strip_line-none, strip_line-some}

take-length_add {ℓ} :
    {A : Type ℓ} (w u : List A) (i : ℕ) → take (length w + i) (w ++ u) ≡ w ++ take i u
take-length_add [] u i = let e : 0 + i ≡ i = omega arith in ap (λ k. take k u) e
take-length_add {A} (x ∷ w) u i =
    let e : suc (length w) + i ≡ suc (length w + i) = omega arith in
    ap (λ k. take k (x ∷ (w ++ u))) e ∙ ap (λ (l : List A). x ∷ l) (take-length_add w u i)

split_shape : (u : Bytes) (sep : ℕ) → (u' : Bytes) × (rest : List Bytes) × (split u sep ≡ u' ∷ rest)
unfolding split
split_shape [] sep = ([], [], refl)
split_shape (c ∷ u) sep =
    let (u', rest, e) = split_shape u sep in
    elim (Bool-cases (c == sep)) [
      | inl cut ↦ ([], u' ∷ rest, rw (cut, e))
      | inr on ↦ (c ∷ u', rest, rw (on, e))
    ]

split_on :
    (c : ℕ) (s : Bytes) (sep : ℕ) (p : Bytes) (ps : List Bytes)
    → (c == sep) ≡ false
    → split s sep ≡ p ∷ ps
    → split (c ∷ s) sep ≡ (c ∷ p) ∷ ps
unfolding split
split_on c s sep p ps off e = rw (off, e)

split-Off :
    (w u : Bytes) (sep : ℕ)
    → Off sep w
    → (u' : Bytes) × (rest : List Bytes) × (split (w ++ u) sep ≡ (w ++ u') ∷ rest)
split-Off [] u sep h = split_shape u sep
split-Off (c ∷ w) u sep h =
    let (u', rest, e) = split-Off w u sep (ground arith) in
    (u', rest, split_on c (w ++ u) sep (w ++ u') rest (ground arith) e)

-- the text between the two loops and the last trim
abbrev pub cleaned : ℕ → Bytes → Bytes
cleaned f s = join (map strip_line (split (strip_blocks f s) b'\n')) (codes " ")

-- `w` holds no slash, dash or newline
module _ (w : Bytes) (slash : Off b'/' w) (dash : Off b'-' w) (newline : Off b'\n' w) where
  strip_block_keeps : (u s : Bytes) → strip_block (w ++ u) ≡ some s → (u' : Bytes) × (s ≡ w ++ u')
  strip_block_keeps u s h =
      let (i, j, ei, ej, e) = strip_block_parts (w ++ u) s h in
      let tail = b' ' ∷ drop (i + j + 2) (w ++ u) in
      let found = sym ei ∙ index-append-Off w u b'/' (b'*' ∷ []) slash in
      elim (Option-cases (index u block_open)) [
        | inl none_there ↦ absurd (cc (found, none_there))
        | inr (i', there) ↦
            let at : i ≡ length w + i' = cc (found, there) in
            (
              take i' u ++ tail,
              e
                  ∙ ap (λ k. take k (w ++ u) ++ tail) at
                  ∙ ap (λ (l : Bytes). l ++ tail) (take-length_add w u i')
                  ∙ append_assoc w (take i' u) tail,
            )
      ]

  strip_blocks_keep : (f : ℕ) (u : Bytes) → (u' : Bytes) × (strip_blocks f (w ++ u) ≡ w ++ u')
  strip_blocks_keep zero u = (u, strip_blocks_zero)
    where
      strip_blocks_zero : strip_blocks zero (w ++ u) ≡ w ++ u
      strip_blocks_zero = unfold strip_blocks in refl
  strip_blocks_keep (suc f) u = elim (Option-cases (strip_block (w ++ u))) [
    | inl e ↦ (u, strip_blocks_stop (suc f) (w ++ u) e)
    | inr (s, e) ↦
        let (u', e') = strip_block_keeps u s e in
        let (u'', e'') = strip_blocks_keep f u' in
        (u'', strip_blocks_step f (w ++ u) s e ∙ ap (strip_blocks f) e' ∙ e'')
  ]

  strip_line_keeps : (u : Bytes) → (u' : Bytes) × (strip_line (w ++ u) ≡ w ++ u')
  strip_line_keeps u = elim (Option-cases (index u line_mark)) [
    | inl e ↦ (
      u,
      strip_line-none (w ++ u)
          (index-append-Off w u b'-' (b'-' ∷ []) dash ∙ ap (shift (length w)) e),
    )
    | inr (i, e) ↦ (
      take i u,
      strip_line-some (w ++ u) (length w + i)
            (index-append-Off w u b'-' (b'-' ∷ []) dash ∙ ap (shift (length w)) e)
          ∙ take-length_add w u i,
    )
  ]

  join_keeps :
      (u : Bytes) (rest : List Bytes) (sep : Bytes)
      → (u' : Bytes) × (join ((w ++ u) ∷ rest) sep ≡ w ++ u')
  unfolding join
  join_keeps u [] sep = (u, refl)
  join_keeps u (p ∷ ps) sep = (u ++ (sep ++ join (p ∷ ps) sep), append_assoc w u _)

  pub cleaned_keeps : (f : ℕ) (u : Bytes) → (u' : Bytes) × (cleaned f (w ++ u) ≡ w ++ u')
  cleaned_keeps f u =
      let (a, ea) = strip_blocks_keep f u in
      let (b, rest, eb) = split-Off w a b'\n' newline in
      let (c, ec) = strip_line_keeps b in
      let (d, ed) = join_keeps c (map strip_line rest) (codes " ") in (d, rw (ea, eb, ec) ed)

trim_select : (t : Bytes) → trim_space (codes "SELECT" ++ t) ≡ codes "SELECT" ++ trim_end t
trim_select t =
    trim_space-cons b'S' (codes "ELECT" ++ t) refl refl
    ∙ ap (λ (s : Bytes). b'S' ∷ s) (trim_end-append (codes "ELEC") b'T' t refl refl)

select_accepted :
    (u : Bytes)
    → (has_prefix (to_upper (codes "SELECT" ++ u)) (codes "SELECT")
        || has_prefix (to_upper (codes "SELECT" ++ u)) (codes "WITH"))
      ≡ true
select_accepted u =
    rw (to_upper-append (codes "SELECT") u refl, has_prefix_self (codes "SELECT") (to_upper u))

-- A text that begins with SELECT is accepted, whatever stands behind these six letters.
pub validate_read_only_sql-select :
    (t : Bytes) → validate_read_only_sql (codes "SELECT" ++ t) ≡ ok tt
unfolding validate_read_only_sql strip_sql_comments
validate_read_only_sql-select t =
    let s = trim_end t in
    let (u, e) = cleaned_keeps (codes "SELECT") refl refl refl (length (codes "SELECT" ++ s)) s in
    rw (trim_select t, e, trim_select u, select_accepted (trim_end u))

unclosed_round : (u : Bytes) → strip_block (codes "/*/ SELECT" ++ u) ≡ some (codes "  SELECT" ++ u)
unfolding strip_block index has_prefix
unclosed_round u = refl

trim_unclosed :
    (t : Bytes) → trim_space (codes "/*/ SELECT" ++ t) ≡ codes "/*/ SELECT" ++ trim_end t
trim_unclosed t =
    trim_space-cons b'/' (codes "*/ SELECT" ++ t) refl refl
    ∙ ap (λ (s : Bytes). b'/' ∷ s) (trim_end-append (codes "*/ SELEC") b'T' t refl refl)

trim_blanks : (u : Bytes) → trim_space (codes "  SELECT" ++ u) ≡ trim_space (codes "SELECT" ++ u)
trim_blanks u =
    trim_space_blank b' ' (codes " SELECT" ++ u) refl
    ∙ trim_space_blank b' ' (codes "SELECT" ++ u) refl

-- A text that begins with `/*/ SELECT` is accepted, though `/*/` opens a comment and does not close
-- it, whatever follows.
pub validate_read_only_sql-unclosed :
    (t : Bytes) → validate_read_only_sql (codes "/*/ SELECT" ++ t) ≡ ok tt
unfolding validate_read_only_sql strip_sql_comments
validate_read_only_sql-unclosed t =
    let s = trim_end t in
    let (u, e) =
      cleaned_keeps (codes "  SELECT") refl refl refl (length (codes "*/ SELECT" ++ s)) s in
    rw (
      trim_unclosed t,
      strip_blocks_step (length (codes "*/ SELECT" ++ s)) (codes "/*/ SELECT" ++ s) _
          (unclosed_round s),
      e,
      trim_blanks u,
      trim_select u,
      select_accepted (trim_end u),
    )
