-- ===== src/Gateway.antt =====
-- The gateway as a whole: what `main` (src/main.rs) starts, and what its tasks then do to the state they
-- share, `Arc<ArcSwap<GatewayRuntime>>` and the middlewares' own. Requests (src/server/http.rs), TCP
-- connections (src/server/tcp.rs) and reloads (src/api.rs) come in any order.
pub mod Sound
pub mod Connections
pub mod Answered
pub mod Flight
pub mod Split
pub mod Origins
pub mod Overlaps
pub mod Order
pub mod Tally
pub mod Landing
pub mod Tests
mod FlightTests
mod OrderTests
use portiq.Base.{[], Bool, Option, Str, returned, Result, ◌≡◌}
use portiq.Config.{GatewayConfig, IpAddr}
use portiq.Runtime.{GatewayRuntime}
use portiq.Reload.{ApiResponse, reload_config_from_file}
use portiq.Reload.Steps.{ReadsFit}
use portiq.Middleware.Extern.{Crates}
use portiq.Middleware.{Request, Response, World}
use portiq.Server.{handle_client}
use portiq.Server.Tcp.{Network, Copied, handle_tcp_client}

module _ (ext : Crates) where
  pub record State : Type 0 where
    pub runtime : GatewayRuntime
    pub world : World ext

  -- Nothing is counted, logged or sent yet.
  abbrev pub first_world : World ext
  first_world = record { store = []; access_log = []; sent = []; instants = 0; ids = 0 }

  -- An answered request, a handled TCP connection, a reload. `path` is set once; what the file reads as
  -- and what the network answers may differ every time.
  pub data Step (path : Option Str) (s : State) (t : State) : Type 1 where
    serves :
        (ip_addr : IpAddr) (listener : Str) (req : Request ext) (r : Response ext)
        → handle_client ext ip_addr listener s.runtime req s.world
          ≡ returned (r, t.runtime, t.world)
        → Step path s t
    proxies :
        (network : Network) (listener : Str) (tls_acceptor : Bool)
        (result : Result (Unit {0}) Str × Copied network)
        → handle_tcp_client network listener tls_acceptor s.runtime ≡ returned (result, t.runtime)
        → t.world ≡ s.world
        → Step path s t
    reloads :
        (read : Str → Result GatewayConfig Str) (answer : ApiResponse (Unit {0}))
        → ReadsFit read
        → reload_config_from_file path read s.runtime ≡ returned (answer, t.runtime)
        → t.world ≡ s.world
        → Step path s t

  pub data Reach (path : Option Str) (start : State) : State → Type 1 where
    started : Reach path start start
    then_step : {s t : State} → Reach path start s → Step path s t → Reach path start t
