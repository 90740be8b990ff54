-- ===== src/Mdb/Schema/Grows.antt =====
-- Rules for actions on a session of internal/mdb that forget no column: the state grows, and a
-- result has a postcondition.
use mdbapi.Base.{◌≡◌, refl, subst, List, true}
use mdbapi.Strings.{Bytes}
use mdbapi.Mdb.Errors.{Context, Result, ok, err, wrapping}
use mdbapi.Mdb.Exec.{Exec, continue, lift, in_context, pure, ◌>>=◌}
use mdbapi.Mdb.Types.{Value}
use mdbapi.Mdb.Schema.{Db, Session, query_context, validate_column}
use mdbapi.Mdb.Schema.Laws.{knows, Extends, Extends-refl, Extends-trans, validate_column_laws}

pub record Grows {A : Type 0} (m : Exec Session A) (s : Session) (Q : A → Session → Type 0)
    : Type 0 where
  pub grows : Extends s (m s).1
  pub result : (a : A) → (m s).0 ≡ ok a → Q a (m s).1

module _ {A B : Type 0} {Q : B → Session → Type 0} where
  bind_step :
      (r : Result A) (f : A → Exec Session B) (s s' : Session)
      → Extends s s'
      → ((a : A) → r ≡ ok a → Grows (f a) s' Q)
      → Extends s (continue r f s').1
        × ((b : B) → (continue r f s').0 ≡ ok b → Q b (continue r f s').1)
  bind_step (ok a) f s s' e h = (Extends-trans e (h a refl).grows, (h a refl).result)
  bind_step (err x) f s s' e h = (e, λ b bad. cc)

  pub Grows-bind :
      {P : A → Session → Type 0} (m : Exec Session A) (f : A → Exec Session B) (s : Session)
      → Grows m s P
      → ((a : A) (s' : Session) → Extends s s' → P a s' → Grows (f a) s' Q)
      → Grows (m >>= f) s Q
  Grows-bind m f s g h =
      let (grows, result) =
        bind_step (m s).0 f s (m s).1 g.grows (λ a e. h a (m s).1 g.grows (g.result a e)) in
      record { grows = grows; result = result }

in_context_step :
    {A : Type 0} (P : A → Type 0) (c : Context) (r : Result A)
    → ((a : A) → r ≡ ok a → P a)
    → (a : A) → wrapping c r ≡ ok a
    → P a
in_context_step P c (ok b) h a e = h a e
in_context_step P c (err x) h a e = absurd (cc)

module _ {A : Type 0} {Q : A → Session → Type 0} where
  pub Grows-pure : (a : A) (s : Session) → Q a s → Grows (pure a) s Q
  Grows-pure a s q = record { grows = Extends-refl s; result = λ b e. subst (λ x. Q x s) (cc) q }

  pub Grows-in_context :
      (c : Context) (m : Exec Session A) (s : Session) → Grows m s Q → Grows (in_context c m) s Q
  Grows-in_context c m s g = record {
    grows = g.grows;
    result = in_context_step (λ a. Q a (m s).1) c (m s).0 g.result;
  }

  pub Grows-lift : (r : Result A) (s : Session) → ((a : A) → Q a s) → Grows (lift r) s Q
  Grows-lift r s h = record { grows = Extends-refl s; result = λ a e. h a }

pub Grows-query_context :
    (db : Db) (text : Bytes) (args : List Value) (s : Session)
    → Grows (query_context db text args) s (λ _ _. Unit {0})
unfolding query_context
Grows-query_context db text args s = record {
  grows = record { same_db = refl; at = λ t n h. h };
  result = λ a e. tt;
}

pub Grows-validate_column :
    (table name : Bytes) (s : Session)
    → Grows (validate_column table name) s (λ _ s'. knows s' table name ≡ true)
Grows-validate_column table name s =
    let (grows, known) = validate_column_laws table name s in
    record { grows = grows; result = λ a e. known e }
