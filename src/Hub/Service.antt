-- ===== src/Hub/Service.antt =====
-- `HubService` of apps/hub-api/src/service.rs over the memory repository and the memory token store:
-- what a request changes, and its errors. An operation in a child is one request; it takes the
-- times that it reads and the random ids that it draws as arguments.
pub mod Nodes
pub mod Tokens
pub mod Bindings
pub mod Releases
pub mod Requests
pub mod Validation
pub mod Publish
pub mod Switch
pub mod Operations
pub mod Codes
pub mod Sites
use pingora_mesh.Base.{ℕ, String, Exec, modify}
use pingora_mesh.Domain.{Uuid, DateTime}
use pingora_mesh.Hub.Memory.{MemoryState}
use pingora_mesh.Hub.Tokens.{MemoryTokenState}

-- `AppError` of error.rs by its constructors, with the message.
pub data AppError : Type 0 where
  bad_request not_found conflict unauthorized internal : String → AppError

-- What the service takes from libraries: the text of a `Uuid`, a time by `%Y%m%d%H%M%S`, and
-- lowercasing by Unicode.
pub record Texts : Type 0 where
  pub uuid_text : Uuid → String
  pub timestamp : DateTime → String
  pub to_lowercase : String → String

-- The state behind the service.
pub record HubState : Type 0 where
  pub repo : MemoryState
  pub tokens : MemoryTokenState
  pub release_counter : ℕ

abbrev pub Handler : Type 0 → Type 0
Handler = Exec HubState AppError

abbrev pub in_repo : (MemoryState → MemoryState) → HubState → HubState
in_repo f hub = record hub { repo = f hub.repo }

abbrev pub in_tokens : (MemoryTokenState → MemoryTokenState) → HubState → HubState
in_tokens f hub = record hub { tokens = f hub.tokens }

abbrev pub write : (MemoryState → MemoryState) → Handler (Unit {0})
write f = modify (in_repo f)
