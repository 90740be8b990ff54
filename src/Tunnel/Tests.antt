-- ===== src/Tunnel/Tests.antt =====
-- Instances of the theorem on the tunnel provider, and its errors.
use mdbapi.Base.{◌≡◌, refl, true, false, []}
use mdbapi.Strings.{codes, str_eq}
use mdbapi.Mdb.Errors.{err, external, unknown_tunnel}
use mdbapi.Config.{TsnetConfig}
use mdbapi.Tunnel.{not_built_in, new_tsnet, new_provider}

abbrev no_tsnet : TsnetConfig
no_tsnet = record { hostname = []; auth_key = []; state_dir = []; funnel = false }

misspelt_provider :
    new_provider true (record { provider = codes "tsnat"; tsnet = no_tsnet })
    ≡ err (unknown_tunnel (codes "tsnat"))
unfolding new_provider str_eq
misspelt_provider = refl

no_host_name :
    new_provider true (record { provider = codes "tsnet"; tsnet = no_tsnet })
    ≡ err (external (codes "tsnet: hostname is required"))
unfolding new_provider new_tsnet str_eq
no_host_name = refl

no_build_tag :
    new_provider false (record { provider = codes "tsnet"; tsnet = no_tsnet })
    ≡ err (
        external (
          codes
            "tunnel provider \"tsnet\" requires build tag \"tsnet\": rebuild with 'go build -tags tsnet'"))
unfolding new_provider new_tsnet not_built_in str_eq
no_build_tag = refl
