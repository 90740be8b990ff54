-- ===== src/Mdb/Errors.antt =====
-- Go's (value, error) results, and the errors of internal/mdb and internal/config.
use mdbapi.Base.{◌≡◌, refl, ◌⊎◌, inl, inr, List}
use mdbapi.Strings.{Bytes}

-- The formats that the packages wrap an error with, and their arguments.
pub data Context : Type 0 where
  describe_table : Bytes → Context
  describe_table_types : Bytes → Context
  invalid_filter : Context
  invalid_sort_column : Context
  query_table : Bytes → Context
  execute_sql : Context
  scan_row : Context
  open_database : Bytes → Bytes → Context
  probe_open probe_ping : Context
  utf16_conn_str : Context
  tsnet_funnel_listen tsnet_listen tunnel_init : Context
  listen_on : Bytes → Context
  create_service install_service connect_scm : Context
  open_service : Bytes → Context
  set_recovery_actions enable_non_crash : Context
  create_directory : Bytes → Context
  icacls : List Bytes → Context
  create_log_directory : Context
  list_tables_query : Context
  glob_pattern : Bytes → Context
  glob_alias : Bytes → Bytes → Context
  expand : Context
  read_config parse_config : Bytes → Context

pub data Error : Type 0 where
  -- ErrUnknownAlias{Alias: alias}
  unknown_alias : Bytes → Error
  -- ErrWriteNotAllowed
  write_not_allowed : Error
  -- "unknown column %q in table %q"
  unknown_column : Bytes → Bytes → Error
  -- "column %q not found in table %q"
  column_not_found : Bytes → Bytes → Error
  -- "unknown tunnel provider %q"
  unknown_tunnel : Bytes → Error
  -- an error of the driver or of the operating system, with its text
  external : Bytes → Error
  -- fmt.Errorf("...: %w", err)
  wrap : Context → Error → Error

pub data Result {ℓ} (A : Type ℓ) : Type ℓ where
  ok : A → Result A
  err : Error → Result A

-- if err != nil { return ..., fmt.Errorf("...: %w", err) }
abbrev pub wrapping {ℓ} : {A : Type ℓ} → Context → Result A → Result A
wrapping what (ok a) = ok a
wrapping what (err e) = err (wrap what e)

pub Result-cases {ℓ} :
    {A : Type ℓ} (r : Result A) → ((a : A) × (r ≡ ok a)) ⊎ ((e : Error) × (r ≡ err e))
Result-cases (ok a) = inl (a, refl)
Result-cases (err e) = inr (e, refl)
