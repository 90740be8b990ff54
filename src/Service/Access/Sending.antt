-- ===== src/Service/Access/Sending.antt =====
-- Which runs of icacls `FixACL` of internal/winservice/acl.go makes.
use mdbapi.Base.{
  ◌≡◌, ◌≢◌, ◌∙◌, refl, sym, ap, none, List, [], ◌∷◌, ◌++◌, append_assoc, append-nil, All,
  Option-cases, inl, inr,
}
use mdbapi.Strings.{Bytes}
use mdbapi.Mdb.Errors.{Result, ok, err}
use mdbapi.Service.Access.{Command, Shell, commands, run_all, ensure_dir, fix_acl}

-- all the commands ran, or all up to one that failed
abbrev pub Ran : Shell → List Command → List Command → Result (Unit {0}) → Type 0
Ran sh cmds sent (ok _) = (sent ≡ cmds) × All (λ c. sh.icacls c ≡ none) cmds
Ran sh cmds sent (err _) =
    (before : List Command) × (c : Command) × (behind : List Command) × (cmds
      ≡ before ++ c ∷ behind)
    × (sent ≡ before ++ c ∷ [])
    × (sh.icacls c ≢ none)
    × All (λ c'. sh.icacls c' ≡ none) before

Ran-cons :
    (sh : Shell) (c : Command) (cmds sent : List Command) (r : Result (Unit {0}))
    → sh.icacls c ≡ none
    → Ran sh cmds sent r
    → Ran sh (c ∷ cmds) (c ∷ sent) r
Ran-cons sh c cmds sent (ok _) h (all_sent, fine) =
    (ap (λ (l : List Command). c ∷ l) all_sent, (h, fine))
Ran-cons sh c cmds sent (err _) h (before, bad, behind, a, b, fails, fine) = (
  c ∷ before,
  bad,
  behind,
  ap (λ (l : List Command). c ∷ l) a,
  ap (λ (l : List Command). c ∷ l) b,
  fails,
  (h, fine),
)

-- the runs are added behind those made before
run_all-Ran :
    (sh : Shell) (cmds before : List Command)
    → (sent : List Command) × ((run_all sh cmds before).1 ≡ before ++ sent)
      × Ran sh cmds sent (run_all sh cmds before).0
unfolding run_all
run_all-Ran sh [] before = ([], sym (append-nil before), (refl, tt))
run_all-Ran sh (c ∷ cmds) before = elim (Option-cases (sh.icacls c)) [
  | inr (e, bad) ↦ (c ∷ [], rw bad, rw bad ([], c, cmds, refl, refl, (λ k. cc (k, bad)), tt))
  | inl fine ↦
      let (sent, added, ran) = run_all-Ran sh cmds (before ++ c ∷ []) in
      (
        c ∷ sent,
        rw fine (added ∙ append_assoc before (c ∷ []) sent),
        rw fine (Ran-cons sh c cmds sent _ fine ran),
      )
]

-- If the directory is there or can be made, `FixACL` hands icacls its seven commands, in order and
-- each once, up to the first that fails: it returns an error exactly if one failed, and makes no
-- run behind that.
pub fix_acl-Ran :
    (sh : Shell) (dir svc_name : Bytes)
    → ensure_dir sh dir ≡ ok tt
    → let (r, sent) = fix_acl sh dir svc_name [] in Ran sh (commands dir svc_name) sent r
unfolding fix_acl
fix_acl-Ran sh dir svc_name there =
    let (sent, added, ran) = run_all-Ran sh (commands dir svc_name) [] in rw (there, added) ran
