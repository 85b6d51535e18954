-- ===== src/Hub.antt =====
-- src/hub.rs: the connection to the Hub. The HTTP client is a function from a URL and what was asked
-- before to its reply; serde's parsers and the digits of a number are parameters.
pub mod Routes
pub mod Snapshot
pub mod Requests
use hub_kubernetes_agent.Prelude.{ℕ, String, List, Bool}

pub record Reply : Type 0 where
  pub status : ℕ
  -- what `StatusCode::is_success` and `StatusCode::is_client_error` say of it
  pub is_success : Bool
  pub is_client_error : Bool
  pub body : String

pub data Sent : Type 0 where
  asked : String → Sent
  slept : ℕ → Sent

-- The newest first.
abbrev pub Log : Type 0
Log = List Sent
