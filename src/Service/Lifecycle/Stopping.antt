-- ===== src/Service/Lifecycle/Stopping.antt =====
-- What a Program of internal/winservice/service.go gives back, and a start without tsnet.
use mdbapi.Base.{
  ◌≡◌, ◌≢◌, ◌⊎◌, refl, ap, true, false, some, none, List, [], ◌∷◌, ◌++◌, map, append-nil, inl, inr,
  Option, Bool-cases, is_nil, not, ◌&&◌, if◌then◌else◌,
}
use mdbapi.Strings.{Bytes, codes, str_eq}
use mdbapi.Mdb.Errors.{Error, Result, ok, err, listen_on, Result-cases}
use mdbapi.Mdb.Pool
use mdbapi.Config.{Config}
use mdbapi.Config.Load.{System, loaded, load}
use mdbapi.Updater.Swap.{Disk, Faults, remove_old, install, moved, swap}
use mdbapi.Tunnel
use mdbapi.Tunnel.{Provider, none_provider, Bind, tcp, new_provider, listen}
use mdbapi.Tunnel.Choice.{new_provider-loaded}
use mdbapi.Service.{open_databases}
use mdbapi.Service.Lifecycle.{
  Outside, new_program, Effect, cancel, shutdown, close_db, close_tunnel, run, start_serving, stop,
  Serve, plain, tls, ServeError, server_closed, failed, serving, filter_serve_error,
  cleanup_old_binary,
}

-- the connections that are opened for a configuration
abbrev pub opened_dbs : Outside → Config → List Effect
opened_dbs out cfg = map close_db (map (λ entry. entry.1) (open_databases out.odbc cfg).dbs)

-- what is released, by what was had: in each case the databases are closed, and the server is shut
-- down before them
abbrev pub by_listener : List Effect → Provider → Result Bytes → List Effect
by_listener dbs prov (err e) = cancel ∷ (dbs ++ close_tunnel (Tunnel.close prov) ∷ [])
by_listener dbs prov (ok addr) = cancel ∷ shutdown ∷ (dbs ++ close_tunnel (Tunnel.close prov) ∷ [])

abbrev pub by_provider : Outside → Config → List Effect → Result Provider → List Effect
by_provider out cfg dbs (err e) = cancel ∷ dbs
by_provider out cfg dbs (ok prov) = by_listener dbs prov (listen out.bind prov cfg.server.listen)

-- Whether `run` serves or fails on the way, `Stop` releases what it had taken and nothing else: it
-- cancels the context, shuts down the server if there is one, then closes every database that was
-- opened, then the tunnel provider if there is one, and the pool has no connection left.
pub stop-run :
    (out : Outside) (cfg : Config) (disk : Disk)
    → let p = (run out cfg (new_program disk)).1 in
      ((stop p).0 ≡ by_provider out cfg (opened_dbs out cfg) (new_provider out.tagged cfg.tunnel))
      × ((stop p).1.pool ≡ some (record (open_databases out.odbc cfg) { dbs = [] }))
unfolding run start_serving stop Pool.close
stop-run out cfg disk = elim (Result-cases (new_provider out.tagged cfg.tunnel)) [
  | inr (e, bad) ↦
      rw bad (ap (λ (l : List Effect). cancel ∷ l) (append-nil (opened_dbs out cfg)), refl)
  | inl (prov, got) ↦ rw got (elim (Result-cases (listen out.bind prov cfg.server.listen)) [
    | inr (e, bad) ↦ rw bad (refl, refl)
    | inl (addr, got') ↦ rw got' (refl, refl)
  ])
]

-- ServeTLS with both files, and Serve if one is not set
abbrev pub IsServing : Bytes → Bytes → Serve → Type 0
IsServing cert key plain = (cert ≡ []) ⊎ (key ≡ [])
IsServing cert key (tls cert' key') = ((cert' ≡ cert) × (cert ≢ [])) × ((key' ≡ key) × (key ≢ []))

-- how serving ends, and what `run` makes of it
abbrev pub IsServed : ServeError → Result (Unit {0}) → Type 0
IsServed server_closed r = r ≡ ok tt
IsServed (failed e) r = r ≡ err e

chosen-IsServing :
    (cert key : Bytes)
    → IsServing cert key (if not (is_nil cert) && not (is_nil key) then tls cert key else plain)
chosen-IsServing [] key = inl refl
chosen-IsServing (c ∷ cert) [] = inr refl
chosen-IsServing (c ∷ cert) (k ∷ key) = ((refl, λ e. cc), (refl, λ e. cc))

filtered-IsServed : (e : ServeError) → IsServed e (filter_serve_error e)
unfolding filter_serve_error
filtered-IsServed server_closed = refl
filtered-IsServed (failed e) = refl

-- A loaded configuration without tsnet, in any build, listens on its own address with plain TCP. If
-- that fails, `run` fails with the error of the listener. If not, it serves, with TLS just if both
-- files are set, and ends as that does: without an error after a shutdown, which is
-- ErrServerClosed, and with any other error as it is.
pub run-loaded :
    (sys : System) (path : Bytes) (cfg : Config) (out : Outside) (disk : Disk)
    → load sys path ≡ loaded cfg
    → str_eq cfg.tunnel.provider (codes "tsnet") ≡ false
    → ((e : Error) × (out.bind (tcp cfg.server.listen) ≡ err e)
        × ((run out cfg (new_program disk)).0 ≡ err (Error.wrap (listen_on cfg.server.listen) e)))
      ⊎ ((addr : Bytes) × (how : Serve) × (out.bind (tcp cfg.server.listen) ≡ ok addr)
          × IsServing cfg.server.tls_cert cfg.server.tls_key how
          × IsServed (out.serve how addr) (run out cfg (new_program disk)).0)
unfolding run start_serving listen
run-loaded sys path cfg out disk h no_tsnet =
    rw (new_provider-loaded sys path cfg out.tagged h, no_tsnet)
      (elim (Result-cases (out.bind (tcp cfg.server.listen))) [
        | inl (addr, got) ↦ inr (
          addr,
          serving cfg.server,
          got,
          chosen-IsServing cfg.server.tls_cert cfg.server.tls_key,
          rw got (filtered-IsServed (out.serve (serving cfg.server) addr)),
        )
        | inr (e, bad) ↦ inl (e, bad, rw bad)
      ])

installed-cleanup :
    (faults : Faults) (new running : Bytes) (o : Option (Option Bytes))
    → let r = install faults new (record { exe = none; old = some running }) o in
      r.0 ≡ true → cleanup_old_binary true false r.1 ≡ record { exe = some new; old = none }
unfolding cleanup_old_binary
installed-cleanup faults new running (some left) h = absurd (cc)
installed-cleanup faults new running none h = elim (Bool-cases faults.last_remove_fails) [
  | inl stuck ↦ rw stuck
  | inr gone ↦ rw gone
]

moved-cleanup :
    (faults : Faults) (new : Bytes) (d : Disk) (o : Option Bytes)
    → (moved faults new d o).0 ≡ true
    → cleanup_old_binary true false (moved faults new d o).1 ≡ record { exe = some new; old = none }
moved-cleanup faults new d none h = absurd (cc)
moved-cleanup faults new d (some running) h = elim (Bool-cases faults.rename_fails) [
  | inl stuck ↦ absurd (let k = rw stuck at h in cc)
  | inr renamed ↦
      rw renamed (installed-cleanup faults new running faults.copy_fails (rw renamed at h))
]

-- The restart behind an update that was applied removes the binary that ran before, if the removal
-- succeeds: only the new binary is left.
pub cleanup_old_binary-swap :
    (faults : Faults) (new : Bytes) (d : Disk)
    → (swap faults new d).0 ≡ true
    → cleanup_old_binary true false (swap faults new d).1 ≡ record { exe = some new; old = none }
unfolding swap
cleanup_old_binary-swap faults new d h =
    moved-cleanup faults new (remove_old faults.first_remove_fails d) _ h
