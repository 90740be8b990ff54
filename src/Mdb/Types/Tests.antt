-- ===== src/Mdb/Types/Tests.antt =====
-- Runs on the inputs of internal/mdb/types_test.go, and instances of the theorems.
use mdbapi.Base.{◌≡◌, refl, true, none, some, [], ◌∷◌}
use mdbapi.Base.Int.{negsuc}
use mdbapi.Strings.{codes}
use mdbapi.Mdb.Types.{Value, Cell, running_types, normalize_value}

yes_no : normalize_value none (Value.int16 (negsuc 0)) ≡ Cell.bool true
unfolding running_types
yes_no = refl

binary : normalize_value none (Value.bytes (0xff ∷ 0xfe ∷ 1 ∷ [])) ≡ Cell.str (codes "//4B")
unfolding running_types
binary = refl

date :
    normalize_value none (
      Value.time (record {
        year = 2024;
        month = 1;
        day = 5;
        hour = 9;
        minute = 30;
        second = 0;
        nanosecond = 7;
      }))
    ≡ Cell.str (codes "2024-01-05T09:30:00Z")
unfolding running_types
date = refl

link :
    normalize_value
      (some (record { name = codes "Home_URL"; database_type_name = []; nullable = true }))
      (Value.str (codes "#http://x#"))
    ≡ Cell.str (codes "http://x")
unfolding running_types
link = refl
