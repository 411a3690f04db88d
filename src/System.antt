-- ===== src/System.antt =====
-- message_broker.go with lib/go/qdp.go: what the connection handler that the broker gives to a transport
-- passes to the main thread. A transport calls its handler as its `notices` say.
pub mod Standing
pub mod Following
pub mod Returning
pub mod Relaying
mod Runs
use qdp.Base.{ℕ, List, [], ◌∷◌, ◌++◌, Option, none, some}
use qdp.Result.{Error}
use qdp.TcpClient.{Notice, on_connect, on_disconnect}
use qdp.Broker.Jobs.{Job, connect, disconnect}

-- ConnectionHandlerFunc: its two functions, which may be nil, by what they pass on.
pub record ConnectionHandlerFunc (J : Type 0) : Type 0 where
  pub on_connect_func : Option J
  pub on_disconnect_func : Option (Option Error → J)

pub connect_jobs : {J : Type 0} → Option J → List J
connect_jobs none = []
connect_jobs (some job) = job ∷ []

pub disconnect_jobs : {J : Type 0} → Option Error → Option (Option Error → J) → List J
disconnect_jobs e none = []
disconnect_jobs e (some f) = f e ∷ []

-- ConnectionHandlerFunc.OnConnect and OnDisconnect
pub hears : {J : Type 0} → ConnectionHandlerFunc J → Notice → List J
hears h on_connect = connect_jobs h.on_connect_func
hears h (on_disconnect e) = disconnect_jobs e h.on_disconnect_func

pub hears_all : {J : Type 0} → ConnectionHandlerFunc J → List Notice → List J
hears_all h [] = []
hears_all h (n ∷ ns) = hears h n ++ hears_all h ns

-- The connection handler that setupTcpTransport and setupFtdiTransport make for an entity.
pub connection_handler : ℕ → ConnectionHandlerFunc Job
connection_handler entity = record {
  on_connect_func = some (connect entity);
  on_disconnect_func = some (disconnect entity);
}
