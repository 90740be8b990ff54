-- ===== src/Mdb/Query/Passthrough.antt =====
-- What `ExecuteSQL` of internal/mdb/query.go sends to the database.
use mdbapi.Base.{◌≡◌, refl, ap, ◌⊎◌, inl, inr, List, [], ◌∷◌, ◌++◌, Bool-cases, Bool, ◌||◌}
use mdbapi.Base.Int.{ℤ}
use mdbapi.Strings.{Bytes, codes, has_prefix, to_upper, trim_space}
use mdbapi.Mdb.Errors.{Result, ok, err, wrapping, execute_sql, write_not_allowed}
use mdbapi.Mdb.Exec.{continue, lift}
use mdbapi.Mdb.Sql.{strip_sql_comments, validate_read_only_sql, enforce_top_n}
use mdbapi.Mdb.Types.{Value}
use mdbapi.Mdb.Schema.{Rows, Statement, Db, Session, query_context}
use mdbapi.Mdb.Query.{QueryResult, run_execute_sql}

-- the two outcomes of the read-only test
pub verdict :
    (q : Bytes)
    → (validate_read_only_sql q ≡ ok tt) ⊎ (validate_read_only_sql q ≡ err write_not_allowed)
unfolding validate_read_only_sql
verdict q =
    let upper = to_upper (strip_sql_comments (trim_space q)) in
    elim (Bool-cases (has_prefix upper (codes "SELECT") || has_prefix upper (codes "WITH"))) [
      | inl e ↦ inl (rw e)
      | inr e ↦ inr (rw e)
    ]

-- what the database has been sent after the call
abbrev pub sent_after : Result (Unit {0}) → Bytes → List Value → ℤ → List Statement → List Statement
sent_after (ok _) q params m sent = sent ++ record { text = enforce_top_n q m; args = params } ∷ []
sent_after (err _) q params m sent = sent

abbrev pub Refused : Result (Unit {0}) → Result QueryResult → Type 0
Refused (ok _) r = Unit
Refused (err e) r = (e ≡ write_not_allowed) × (r ≡ err write_not_allowed)

-- reading the rows sends nothing
continue-lift :
    (r : Result Rows) (f : Rows → Result QueryResult) (s : Session)
    → (continue (wrapping execute_sql r) (λ rows. lift (f rows)) s).1 ≡ s
continue-lift (ok rows) f s = refl
continue-lift (err e) f s = refl

-- ExecuteSQL sends exactly one statement, the query with its cap and its parameters, if the query
-- passes the read-only test; otherwise it sends none and returns ErrWriteNotAllowed.
pub run_execute_sql_sent :
    (db : Db) (q : Bytes) (params : List Value) (m : ℤ) (trim : Bool) (s : Session)
    → ((run_execute_sql db q params m trim s).1.sent
        ≡ sent_after (validate_read_only_sql q) q params m s.sent)
      × Refused (validate_read_only_sql q) (run_execute_sql db q params m trim s).0
unfolding run_execute_sql query_context
run_execute_sql_sent db q params m trim s = elim (verdict q) [
  | inl pass ↦ rw pass (ap (λ (z : Session). z.sent) (continue-lift (db.answer s.sent _) _ _), tt)
  | inr stop ↦ rw stop (refl, (refl, refl))
]
