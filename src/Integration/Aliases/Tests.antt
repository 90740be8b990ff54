-- ===== src/Integration/Aliases/Tests.antt =====
-- Instances of the theorems on the aliases, for three files in two directories.
use mdbapi.Base.{◌≡◌, refl, true, some, List, [], ◌∷◌}
use mdbapi.Strings.{Bytes, codes, running_strings}
use mdbapi.Mdb.Errors.{ok, external}
use mdbapi.Config.Glob.{FilePath, dotted, ext, rune_rest, safe_runes}
use mdbapi.Integration.Aliases.{sanitize_alias, base_alias, config_at, make_db_configs}
use mdbapi.Integration.Aliases.Naming.{make_db_configs_collide}

-- the base is what stands behind a directory of one letter
abbrev base_name : Bytes → Bytes
base_name (d ∷ sep ∷ s) = s
base_name s = s

abbrev paths : FilePath
paths = record {
  clean = λ p. p;
  volume_name = λ p. [];
  base = base_name;
  dir = λ p. p;
  abs = λ p. p;
  rel = λ base p. ok p;
  matches = λ pattern p. some true;
  glob = λ p. ok [];
  walk = λ base. [];
  bad_pattern = external (codes "syntax error in pattern");
}

abbrev files : List Bytes
files = codes "x\\Or ders.mdb" ∷ codes "y\\Or ders.mdb" ∷ codes "z\\or_ders_2.mdb" ∷ []

make_db_configs_collide_example :
    make_db_configs paths files
    ≡ config_at (codes "or_ders") (codes "x\\Or ders.mdb")
      ∷ config_at (codes "or_ders_2") (codes "y\\Or ders.mdb")
      ∷ config_at (codes "or_ders_2") (codes "z\\or_ders_2.mdb")
      ∷ []
unfolding running_strings dotted ext rune_rest safe_runes sanitize_alias base_alias
make_db_configs_collide_example =
    make_db_configs_collide paths (codes "x\\Or ders.mdb") (codes "y\\Or ders.mdb")
      (codes "z\\or_ders_2.mdb") (codes "or_ders") refl refl refl
