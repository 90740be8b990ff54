-- ===== src/Tunnel/Choice.antt =====
-- Which providers `New` of internal/tunnel/tunnel.go makes from a loaded configuration.
use mdbapi.Base.{◌≡◌, Bool, true, false, inl, inr, [], ◌||◌, if◌then◌else◌}
use mdbapi.Strings.{Bytes, codes, str_eq}
use mdbapi.Mdb.Errors.{ok, err, unknown_tunnel}
use mdbapi.Config.{Config, TsnetConfig}
use mdbapi.Config.Load.{System, loaded, load}
use mdbapi.Config.Load.Laws.{IsProvider, load-IsUsable}
use mdbapi.Tunnel.{none_provider, new_tsnet, new_provider, Bind, tcp, funnel, tailnet}

-- where the service listens for a provider, if that can be had
abbrev pub bound_to : TsnetConfig → Bytes → Bool → Bind
bound_to cfg addr false = tcp addr
bound_to cfg addr true = if cfg.funnel then funnel (codes ":443") else tailnet addr

known :
    (tagged : Bool) (tsnet : TsnetConfig) (p : Bytes)
    → IsProvider p
    → (if str_eq p (codes "none") || str_eq p []
        then ok none_provider
        else (if str_eq p (codes "tsnet") then new_tsnet tagged tsnet else err (unknown_tunnel p)))
      ≡ (if str_eq p (codes "tsnet") then new_tsnet tagged tsnet else ok none_provider)
unfolding str_eq
known tagged tsnet p (inl e) = rw e
known tagged tsnet p (inr e) = rw e

-- A loaded configuration asks for no provider that `New` does not know: it gives the plain
-- listener, or that of tsnet, which can fail for want of the build tag or of a host name alone.
pub new_provider-loaded :
    (sys : System) (path : Bytes) (cfg : Config) (tagged : Bool)
    → load sys path ≡ loaded cfg
    → new_provider tagged cfg.tunnel ≡ (
        if str_eq cfg.tunnel.provider (codes "tsnet")
        then new_tsnet tagged cfg.tunnel.tsnet
        else ok none_provider)
unfolding new_provider
new_provider-loaded sys path cfg tagged h =
    known tagged cfg.tunnel.tsnet cfg.tunnel.provider (load-IsUsable sys path cfg h).provider
