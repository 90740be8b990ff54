-- ===== src/Updater/Swap.antt =====
-- The end of `downloadAndVerify` of internal/updater/updater.go: the running binary is replaced, and
-- put back if that fails. The disk is seen at two paths.
use mdbapi.Base.{◌≡◌, refl, ◌∙◌, Bool, true, false, Option, none, some, if◌then◌else◌}
use mdbapi.Strings.{Bytes}

-- exePath and exePath.old
pub record Disk : Type 0 where
  pub exe : Option Bytes
  pub old : Option Bytes

-- which calls fail; a copy that fails leaves something, or nothing, at its target
pub record Faults : Type 0 where
  pub first_remove_fails : Bool
  pub last_remove_fails : Bool
  pub rename_fails : Bool
  pub copy_fails : Option (Option Bytes)
  pub restore_fails : Bool

-- os.Remove(oldPath), whose error is dropped
abbrev pub remove_old : Bool → Disk → Disk
remove_old true d = d
remove_old false d = record d { old = none }

-- os.Rename(oldPath, exePath), whose error is dropped
abbrev pub restore : Bool → Disk → Disk
restore true d = d
restore false d = record { exe = d.old; old = none }

abbrev pub install : Faults → Bytes → Disk → Option (Option Bytes) → Bool × Disk
install faults new d none =
    (true, remove_old faults.last_remove_fails (record d { exe = some new }))
install faults new d (some left) = (false, restore faults.restore_fails (record d { exe = left }))

-- os.Rename(exePath, oldPath) fails without a file too
abbrev pub moved : Faults → Bytes → Disk → Option Bytes → Bool × Disk
moved faults new d none = (false, d)
moved faults new d (some running) =
    if faults.rename_fails
    then (false, d)
    else install faults new (record { exe = none; old = some running }) faults.copy_fails

-- true is a return without an error
unfoldable pub swap : Faults → Bytes → Disk → Bool × Disk
swap faults new d = let d' = remove_old faults.first_remove_fails d in moved faults new d' d'.exe

-- the new binary after success, the running one after failure
abbrev pub IsSettled : Bytes → Bytes → Bool × Disk → Type 0
IsSettled running new (true, d) = d.exe ≡ some new
IsSettled running new (false, d) = d.exe ≡ some running

remove_old-exe : (b : Bool) (d : Disk) → (remove_old b d).exe ≡ d.exe
remove_old-exe true d = refl
remove_old-exe false d = refl

install-IsSettled :
    (faults : Faults) (running new : Bytes) (o : Option (Option Bytes))
    → faults.restore_fails ≡ false
    → IsSettled running new (install faults new (record { exe = none; old = some running }) o)
install-IsSettled faults running new none h =
    remove_old-exe faults.last_remove_fails (record { exe = some new; old = some running })
install-IsSettled faults running new (some left) h = rw h

renamed-IsSettled :
    (faults : Faults) (running new : Bytes) (d : Disk) (stuck : Bool)
    → d.exe ≡ some running
    → faults.restore_fails ≡ false
    → IsSettled running new (
        if stuck
        then (false, d)
        else install faults new (record { exe = none; old = some running }) faults.copy_fails)
renamed-IsSettled faults running new d true there h = there
renamed-IsSettled faults running new d false there h =
    install-IsSettled faults running new faults.copy_fails h

moved-IsSettled :
    (faults : Faults) (running new : Bytes) (d : Disk) (o : Option Bytes)
    → o ≡ some running
    → d.exe ≡ some running
    → faults.restore_fails ≡ false
    → IsSettled running new (moved faults new d o)
moved-IsSettled faults running new d none e there h = absurd (cc)
moved-IsSettled faults running new d (some r) e there h =
    let same : r ≡ running = cc in
    rw same (renamed-IsSettled faults running new d faults.rename_fails there h)

-- If only the last rename cannot fail, then whatever else fails, the binary is afterwards the new
-- one, and success is reported, or the one that ran, and an error is reported.
pub swap-IsSettled :
    (faults : Faults) (running new : Bytes) (d : Disk)
    → d.exe ≡ some running
    → faults.restore_fails ≡ false
    → IsSettled running new (swap faults new d)
unfolding swap
swap-IsSettled faults running new d there h =
    let e = remove_old-exe faults.first_remove_fails d ∙ there in
    moved-IsSettled faults running new (remove_old faults.first_remove_fails d) _ e e h
