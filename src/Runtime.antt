-- ===== src/Runtime.antt =====
-- src/gateway_runtime.rs: the router of a configuration beside the configuration it was built from.
-- The shared state `Arc<ArcSwap<GatewayRuntime>>` is one `GatewayRuntime`, replaced as a whole by a
-- reload (Reload.antt); the cursors inside its registry move with the requests.
pub mod Consistent
pub mod Routes
mod Tests
use portiq.Base.{Exec, returned, ◌>>=◌}
use portiq.Config.{GatewayConfig}
use portiq.Service
use portiq.Router
use portiq.Router.{Router}

pub record GatewayRuntime : Type 0 where
  pub router : Router
  pub applied_config : GatewayConfig

unfoldable pub new : GatewayConfig → Exec GatewayRuntime
new gateway_config = do
  service_registry ← Service.init gateway_config
  returned (record {
    router = Router.new gateway_config service_registry;
    applied_config = gateway_config;
  })
