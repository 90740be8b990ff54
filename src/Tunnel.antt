-- ===== src/Tunnel.antt =====
-- internal/tunnel: the provider of the listener. Package net and tailscale.com/tsnet are parameters.
pub mod Choice
mod Tests
use mdbapi.Base.{Bool, true, false, ◌||◌, List, [], ◌∷◌, ◌++◌, if◌then◌else◌, is_nil}
use mdbapi.Strings.{Bytes, codes, str_eq}
use mdbapi.Mdb.Errors.{
  Error, Result, ok, err, wrapping, external, unknown_tunnel, tsnet_funnel_listen, tsnet_listen,
}
use mdbapi.Config.{TsnetConfig, TunnelConfig}

-- noneProvider, and tsnetProvider with the settings of its tsnet.Server
pub data Provider : Type 0 where
  none_provider : Provider
  tsnet_provider : Bytes → Bytes → Bytes → Bool → Provider

-- ErrProviderNotBuiltIn.Error()
unfoldable pub not_built_in : Bytes → Bytes → Bytes
not_built_in provider tag =
    codes "tunnel provider \""
    ++ (provider
        ++ (codes "\" requires build tag \""
            ++ (tag ++ (codes "\": rebuild with 'go build -tags " ++ (tag ++ codes "'")))))

-- newTsnet: of tsnet_impl.go in a build with the tag tsnet, of tsnet_stub.go in any other
unfoldable pub new_tsnet : Bool → TsnetConfig → Result Provider
new_tsnet false cfg = err (external (not_built_in (codes "tsnet") (codes "tsnet")))
new_tsnet true cfg =
    if is_nil cfg.hostname
    then err (external (codes "tsnet: hostname is required"))
    else ok (tsnet_provider cfg.hostname cfg.auth_key cfg.state_dir cfg.funnel)

-- New
unfoldable pub new_provider : Bool → TunnelConfig → Result Provider
new_provider tagged cfg =
    if str_eq cfg.provider (codes "none") || str_eq cfg.provider []
    then ok none_provider
    else (if str_eq cfg.provider (codes "tsnet")
        then new_tsnet tagged cfg.tsnet
        else err (unknown_tunnel cfg.provider))

-- net.Listen, and the two methods of tsnet.Server
pub data Bind : Type 0 where
  tcp : Bytes → Bind
  tailnet : Bytes → Bind
  funnel : Bytes → Bind

-- Provider.Listen, with the listener by its address
unfoldable pub listen : (Bind → Result Bytes) → Provider → Bytes → Result Bytes
listen bind none_provider addr = bind (tcp addr)
listen bind (tsnet_provider hostname auth_key state_dir true) addr =
    wrapping tsnet_funnel_listen (bind (funnel (codes ":443")))
listen bind (tsnet_provider hostname auth_key state_dir false) addr =
    wrapping tsnet_listen (bind (tailnet addr))

-- Provider.Close, by what it calls
pub data Closing : Type 0 where
  nothing : Closing
  close_tsnet : Closing

unfoldable pub close : Provider → Closing
close none_provider = nothing
close (tsnet_provider hostname auth_key state_dir funnel_on) = close_tsnet
