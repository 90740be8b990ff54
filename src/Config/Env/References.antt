-- ===== src/Config/Env/References.antt =====
-- Which text `expandEnv` of internal/config/config.go replaces.
use mdbapi.Base.{
  ℕ, zero, suc, ◌+◌, ◌≡◌, ◌≢◌, refl, ap, ◌∙◌, sym, false, not, Option, some, List, [], ◌∷◌, ◌++◌,
  ◌==◌, append_assoc, length, length-append, drop, arith,
}
use mdbapi.Strings.{Bytes}
use mdbapi.Strings.Search.{Off}
use mdbapi.Config.Env.{prefix_of, reference, value_of, expand_from, expand_env}

expand_plain :
    (env : Bytes → Option Bytes) (w s : Bytes)
    → Off b'$' w
    → expand_from env 0 (w ++ s) ≡ w ++ expand_from env 0 s
unfolding expand_from
expand_plain env [] s h = refl
expand_plain env (c ∷ w) s h =
    let off : (c == b'$') ≡ false = ground arith in
    rw (off, expand_from) (ap (λ (t : Bytes). c ∷ t) (expand_plain env w s (ground arith)))

skip_all :
    (env : Bytes → Option Bytes) (w s : Bytes) (k : ℕ)
    → k ≡ length w
    → expand_from env k (w ++ s) ≡ expand_from env 0 s
unfolding expand_from
skip_all env [] s zero h = refl
skip_all env [] s (suc k) h = absurd (omega arith)
skip_all env (c ∷ w) s zero h = absurd (omega arith)
skip_all env (c ∷ w) s (suc k) h = skip_all env w s k (omega arith)

name_part :
    (name s : Bytes) → Off b'}' name → prefix_of (λ d. not (d == b'}')) (name ++ b'}' ∷ s) ≡ name
unfolding prefix_of
name_part [] s h = refl
name_part (c ∷ name) s h =
    let off : (c == b'}') ≡ false = ground arith in
    rw off (ap (λ (t : Bytes). c ∷ t) (name_part name s (ground arith)))

drop-length_append {ℓ} : {A : Type ℓ} (xs ys : List A) → drop (length xs) (xs ++ ys) ≡ ys
drop-length_append [] ys = refl
drop-length_append (x ∷ xs) ys = drop-length_append xs ys

braced_reference :
    (c : ℕ) (name s : Bytes)
    → Off b'}' (c ∷ name)
    → reference (b'{' ∷ ((c ∷ name) ++ b'}' ∷ s)) ≡ some (c ∷ name, length name + 3)
unfolding reference
braced_reference c name s h =
    rw (name_part (c ∷ name) s h, drop-length_append (c ∷ name) (b'}' ∷ s))

skip_braced :
    (env : Bytes → Option Bytes) (c : ℕ) (name s : Bytes)
    → expand_from env (length name + 3) (b'{' ∷ ((c ∷ name) ++ b'}' ∷ s)) ≡ expand_from env 0 s
skip_braced env c name s =
    ap (λ (t : Bytes). expand_from env (length name + 3) (b'{' ∷ c ∷ t))
      (sym (append_assoc name (b'}' ∷ []) s))
    ∙ skip_all env (b'{' ∷ c ∷ (name ++ b'}' ∷ [])) s (length name + 3)
        (omega (arith, length-append name (b'}' ∷ [])))

-- Text in front of the first dollar stays, ${NAME} becomes the variable's value, or the mark of an
-- unset variable, and the text behind it is expanded in the same way: a value is not expanded again.
pub expand_env-braced :
    (env : Bytes → Option Bytes) (w name s : Bytes)
    → Off b'$' w
    → Off b'}' name
    → name ≢ []
    → expand_env env (w ++ b'$' ∷ (b'{' ∷ (name ++ b'}' ∷ s)))
      ≡ w ++ (value_of env name ++ expand_env env s)
unfolding expand_env expand_from
expand_env-braced env w [] s hw hn some_name = absurd (some_name refl)
expand_env-braced env w (c ∷ name) s hw hn some_name =
    expand_plain env w (b'$' ∷ (b'{' ∷ ((c ∷ name) ++ b'}' ∷ s))) hw
    ∙ ap (λ (t : Bytes). w ++ t)
        (rw (braced_reference c name s hn, expand_from)
          (ap (λ (t : Bytes). value_of env (c ∷ name) ++ t) (skip_braced env c name s)))
