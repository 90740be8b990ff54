-- ===== src/Integration/Served/Refusing.antt =====
-- The last check of a database in cmd/integration/main.go, against the model of internal/api.
use mdbapi.Base.{
  ◌≡◌, refl, ◌∙◌, true, false, some, none, List, [], ◌∷◌, ◌++◌, is_nil, leb, length, arith,
}
use mdbapi.Base.Assoc.{lookup}
use mdbapi.Strings.{Bytes, codes, str_eq_iff, bytes_eq, running_strings}
use mdbapi.Mdb.Errors.{ok, err, write_not_allowed}
use mdbapi.Mdb.Sql.{validate_read_only_sql}
use mdbapi.Mdb.Sql.Refused.{validate_read_only_sql-refused}
use mdbapi.Mdb.Schema.{Db}
use mdbapi.Mdb.Store.{PoolStore}
use mdbapi.Api.{Body, forbidden}
use mdbapi.Api.Access.{Addresses, extract_key, is_valid_key, with_ip_allow}
use mdbapi.Api.Rate.{Buckets, with_rate_limit}
use mdbapi.Api.Handlers.{Server}
use mdbapi.Api.Codes.{handle_execute_sql-forbidden}
use mdbapi.Api.Wrapping.{
  with_headers, with_header, security_headers, request_id, with_recovery, with_security_headers,
  with_logging, with_request_timeout, with_max_body,
}
use mdbapi.Api.Serving.{outer_posts}
use mdbapi.Api.Chain.{handler, chain, outer}
use mdbapi.Integration.Quoting.{quote_ident}
use mdbapi.Integration.Client.{Decoder, Request, Runner, pass, asked, post}
use mdbapi.Integration.Database.{check_sql_delete_forbidden}
use mdbapi.Integration.Served.{test_api_key, server_of, handler_config, Wire, sent_request, served}

abbrev pub only_select : Bytes
only_select = codes "only SELECT statements are allowed"

abbrev pub refusal : Body
refusal = Body.error (codes "forbidden") only_select

abbrev pub delete_from : Bytes → Bytes
delete_from table = codes "DELETE FROM " ++ quote_ident table

-- package encoding/json, on the two texts of the check, which it brings over if they are UTF-8: the
-- answer of the server, and the statement, which arrives without parameters
pub record WireLaws (wire : Wire) (outside : Server) (table : Bytes) : Type 0 where
  pub answered :
      wire.unmarshal (wire.written refusal)
      ≡ ok (record {
        body = [];
        error = some (record { code = codes "forbidden"; message = only_select });
      })
  pub written : is_nil (wire.written refusal) ≡ false
  pub arrives :
      outside.unmarshal (wire.marshal_sql (delete_from table))
      ≡ some (record { sql = delete_from table; params = []; trim_whitespace = none })

abbrev pub delete_request : Bytes → Bytes → Request
delete_request db table = post (codes "v1" ∷ db ∷ codes "query" ∷ []) (delete_from table)

delete_refused :
    (table : Bytes) → validate_read_only_sql (delete_from table) ≡ err write_not_allowed
delete_refused table =
    validate_read_only_sql-refused b'D' (codes "ELETE FROM " ++ quote_ident table)
      (record { ascii = refl; visible = refl; no_block = refl; no_line = refl }) refl refl

key_accepted :
    (sha256 : Bytes → Bytes) (wire : Wire) (db table : Bytes)
    → is_valid_key sha256
        (test_api_key ∷ [])
        (extract_key (sent_request wire (delete_request db table)))
      ≡ true
unfolding is_valid_key extract_key sent_request running_strings
key_accepted sha256 wire db table =
    ground (arith, str_eq_iff (sha256 test_api_key) (sha256 test_api_key))

module _ {Ip B : Type 0} (net : Addresses Ip) (buckets : Buckets B) (outside : Server)
    (sha256 : Bytes → Bytes) (wire : Wire) (db table : Bytes) (laws : WireLaws wire outside table)
    (named : is_nil db ≡ false)
    (small : leb (length (wire.marshal_sql (delete_from table))) 1048576 ≡ true) (conn : Db)
    (s : PoolStore) (there : lookup db s.pool.dbs ≡ some conn) where
  outer_forbids :
      outer
        (server_of outside)
        (handler_config sha256)
        (sent_request wire (delete_request db table))
        s
      ≡ (some (forbidden (codes "only SELECT statements are allowed")), s)
  unfolding sent_request handler_config server_of
  outer_forbids =
      outer_posts (server_of outside) (handler_config sha256)
        (sent_request wire (delete_request db table)) db s refl refl named
        (key_accepted sha256 wire db table)
      ∙ handle_execute_sql-forbidden (server_of outside) db
          (sent_request wire (delete_request db table)) (wire.marshal_sql (delete_from table))
          (record { sql = delete_from table; params = []; trim_whitespace = none }) conn s there
          refl (laws.arrives) refl (delete_refused table)

  handler_forbids :
      (handler net buckets
        (server_of outside)
        (handler_config sha256)
        (sent_request wire (delete_request db table))
        ((s, []), [])).0
      ≡ with_headers security_headers (
          with_header
            (request_id (sent_request wire (delete_request db table)))
            (forbidden (codes "only SELECT statements are allowed")))
  unfolding handler chain with_recovery with_security_headers with_logging with_ip_allow
      with_rate_limit with_request_timeout with_max_body handler_config sent_request
  handler_forbids = rw (small, outer_forbids)

-- The check that a DELETE is forbidden passes against the modelled server, for every table name,
-- with whatever quotes and comment marks, every database that the pool has, and whatever state the
-- requests before have led to, as long as the body is within the limit and JSON brings this
-- statement and the answer to it over unchanged.
pub delete_check_passes :
    {Ip B : Type 0} (net : Addresses Ip) (buckets : Buckets B) (outside : Server)
    (sha256 : Bytes → Bytes) (wire : Wire) (decoder : Decoder) (at : List Request → PoolStore)
    (db table : Bytes) (r : Runner) (conn : Db)
    → WireLaws wire outside table
    → is_nil db ≡ false
    → leb (length (wire.marshal_sql (delete_from table))) 1048576 ≡ true
    → lookup db (at r.sent).pool.dbs ≡ some conn
    → check_sql_delete_forbidden (served net buckets outside sha256 wire decoder at) db table r
      ≡ pass (asked (delete_request db table) r)
unfolding check_sql_delete_forbidden served running_strings
delete_check_passes net buckets outside sha256 wire decoder at db table r conn laws named small
      there =
    rw (
      handler_forbids net buckets outside sha256 wire db table laws named small conn (at r.sent)
          there,
      laws.written,
      laws.answered,
    )
