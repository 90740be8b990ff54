-- ===== src/Integration/Database/Tests.antt =====
-- A run of all the checks and of `main` against a server of one database, as instances of the
-- theorems.
use mdbapi.Base.{◌≡◌, ◌⊎◌, refl, Bool, true, false, none, some, [], ◌∷◌, if◌then◌else◌}
use mdbapi.Strings.{codes, str_eq}
use mdbapi.Mdb.Errors.{ok}
use mdbapi.Mdb.Schema.{Db}
use mdbapi.Mdb.Types.{ColumnType}
use mdbapi.Mdb.Pool.{DbConfig, Pool}
use mdbapi.Integration.Client.{Reply, Request, Client, Decoder}
use mdbapi.Mdb.Errors.{external}
use mdbapi.Config.Glob.{FilePath}
use mdbapi.Integration.Waiting.{Attempt}
use mdbapi.Integration.Program.{Outside, main}
use mdbapi.Integration.Program.Exiting.{enough, IsClean, main-outcome}

abbrev column_id : ColumnType
column_id = record { name = codes "id"; database_type_name = codes "INTEGER"; nullable = false }

abbrev one_column : Db
one_column = record {
  answer = λ sent stmt. ok (record {
    columns = ok (codes "id" ∷ []);
    column_types = ok (column_id ∷ []);
    scans = [];
    failure = none;
  });
}

abbrev pool : Pool
pool = record {
  dbs = (codes "shop", one_column) ∷ [];
  paths = (codes "shop", codes "s.mdb") ∷ [];
  conn_strs = [];
}

abbrev shop : DbConfig
shop = record { alias = codes "shop"; path = codes "s.mdb"; driver = [] }

abbrev decoder : Decoder
decoder = record {
  status = λ body. ok (codes "ok");
  databases =
      λ body. ok (record { alias = codes "shop"; path = codes "s.mdb"; status = codes "ok" } ∷ []);
  tables = λ body. ok (codes "t" ∷ []);
  rows = λ body. ok (some ((codes "id" ∷ []) ∷ []));
}

abbrev data_reply : Reply
data_reply = record { envelope = record { body = codes "{}"; error = none }; status = 200 }

abbrev refusal : Reply
refusal = record {
  envelope = record {
    body = [];
    error = some (record { code = codes "forbidden"; message = codes "no" });
  };
  status = 403;
}

abbrev is_delete : Request → Bool
is_delete r = elim r.sql [ none ↦ false | some s ↦ str_eq s (codes "DELETE FROM [t]") ]

abbrev good_server : Client
good_server = record {
  answer = λ sent r. ok (if is_delete r then refusal else data_reply);
  decoder = decoder;
}

abbrev paths : FilePath
paths = record {
  clean = λ p. p;
  volume_name = λ p. codes "C:";
  base = λ p. codes "shop.mdb";
  dir = λ p. codes "C:\\d";
  abs = λ p. p;
  rel = λ base p. ok p;
  matches = λ pattern p. some true;
  glob = λ p. ok [];
  walk = λ dir.
      record {
        path = codes "C:\\d\\shop.mdb";
        name = codes "shop.mdb";
        is_dir = false;
        failed = false;
      }
      ∷ [];
  bad_pattern = external (codes "syntax error in pattern");
}

abbrev healthy : Attempt
healthy = record { takes = 3; answer = ok data_reply }

abbrev outside : Outside
outside = record {
  paths = paths;
  walk_error = external (codes "access denied");
  odbc = record { open_conn = λ conn. ok one_column; ping = λ db. none; registry = none };
  listens = true;
  health = λ time. healthy;
  start = 0;
  client = λ p. good_server;
  serve_fails = false;
}

-- without a directory the program ends at once
no_directory : main outside enough [] ≡ some 1
unfolding main
no_directory = refl

main-outcome_example :
    (main outside enough (codes "C:\\d" ∷ []) ≡ some 1)
    ⊎ ((main outside enough (codes "C:\\d" ∷ []) ≡ some 0) × IsClean outside (codes "C:\\d" ∷ []))
main-outcome_example = main-outcome outside (codes "C:\\d" ∷ [])
