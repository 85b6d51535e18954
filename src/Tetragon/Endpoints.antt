-- ===== src/Tetragon/Endpoints.antt =====
-- tetragon.rs: `discover_tetragon_endpoints`, from the endpoint slices on. A `BTreeSet` is a list in
-- which nothing repeats; its order is not kept, and matters to no caller.
use hub_kubernetes_agent.Prelude.{
  ℕ, ◌≤◌, ◌≡◌, String, Option, none, some, List, [], ◌∷◌, Bool, true, false, leb, ◌&&◌, is_text,
  if◌then◌else◌, ◌<>◌, length, contains, unwrap_or, and_then, arith, Bool-cases, Option-cases, inl,
  inr,
}

pub record EndpointAddress : Type 0 where
  -- `conditions.ready`
  pub ready : Option Bool
  -- the kind of `targetRef`, where there is one
  pub target_kind : Option (Option String)
  pub addresses : List String

-- An EndpointSlice: its ports, of which each may have a number; a number is what the cast to u16
-- leaves of it.
pub record EndpointSlice : Type 0 where
  pub ports : Option (List (Option ℕ))
  pub endpoints : List EndpointAddress

abbrev pub max_discovered_endpoints : ℕ
max_discovered_endpoints = 16

abbrev pub set_insert : String → List String → List String
set_insert x xs = if contains xs x then xs else x ∷ xs

-- `ports.iter().find_map(|port| port.port)`
abbrev pub first_port : List (Option ℕ) → Option ℕ
first_port [] = none
first_port (none ∷ rest) = first_port rest
first_port (some port ∷ rest) = some port

-- An endpoint that is used: not one that is not ready, and of a pod if it says of what.
unfoldable pub is_usable : EndpointAddress → Bool
is_usable endpoint =
    elim endpoint.ready [ some ready ↦ ready | none ↦ true ]
    && elim endpoint.target_kind [ some kind ↦ is_text kind "Pod" | none ↦ true ]

-- The set so far, and whether the cap has ended the search.
pub record Found : Type 0 where
  pub addresses : List String
  pub capped : Bool

-- `normalize_discovered_address`, which is the parser of IP addresses of the standard library, and
-- the decimal digits of a port.
module _ (normalize : String → Option String) (show : ℕ → String) (grpc_port : ℕ) where
  unfoldable pub add_addresses : ℕ → List String → List String → Found
  add_addresses port [] found = record { addresses = found; capped = false }
  add_addresses port (address ∷ rest) found =
      let skip = add_addresses port rest found in
      if leb max_discovered_endpoints (length found)
      then record { addresses = found; capped = true }
      else elim (normalize address) [
        | none ↦ skip
        | some ip ↦ add_addresses port rest (set_insert (ip <> ":" <> show port) found)
      ]

  unfoldable pub add_endpoints : ℕ → List EndpointAddress → List String → Found
  unfolding add_addresses is_usable
  add_endpoints port [] found = record { addresses = found; capped = false }
  add_endpoints port (endpoint ∷ rest) found =
      let skip = add_endpoints port rest found in
      let here = add_addresses port endpoint.addresses found in
      let later = add_endpoints port rest here.addresses in
      if is_usable endpoint then (if here.capped then here else later) else skip

  unfoldable pub add_slices : List EndpointSlice → List String → Found
  unfolding add_endpoints
  add_slices [] found = record { addresses = found; capped = false }
  add_slices (slice ∷ rest) found =
      let port = unwrap_or (and_then slice.ports first_port) grpc_port in
      let here = add_endpoints port slice.endpoints found in
      let later = add_slices rest here.addresses in if here.capped then here else later

  unfoldable pub discover_tetragon_endpoints : List EndpointSlice → List String
  unfolding add_slices
  discover_tetragon_endpoints slices = (add_slices slices []).addresses

abbrev Capped : List String → Type 0
Capped found = length found ≤ max_discovered_endpoints

set_insert-Capped :
    (x : String) (found : List String)
    → leb max_discovered_endpoints (length found) ≡ false
    → Capped (set_insert x found)
set_insert-Capped x found room = elim (Bool-cases (contains found x)) [
  | inl there ↦ rw there (ground arith)
  | inr new ↦ rw new (ground arith)
]

module _ (normalize : String → Option String) (show : ℕ → String) (grpc_port : ℕ) where
  add_addresses-Capped :
      (port : ℕ) (addresses found : List String)
      → Capped found
      → Capped (add_addresses normalize show grpc_port port addresses found).addresses
  unfolding add_addresses
  add_addresses-Capped port [] found bound = bound
  add_addresses-Capped port (address ∷ rest) found bound =
      elim (Bool-cases (leb max_discovered_endpoints (length found))) [
        | inl full ↦ rw full bound
        | inr room ↦ elim (Option-cases (normalize address)) [
          | inl not_ip ↦ rw (room, not_ip) (add_addresses-Capped port rest found bound)
          | inr (ip, parsed) ↦
              rw (room, parsed)
                (add_addresses-Capped port rest (set_insert (ip <> ":" <> show port) found)
                  (set_insert-Capped (ip <> ":" <> show port) found room))
        ]
      ]

  add_endpoints-Capped :
      (port : ℕ) (endpoints : List EndpointAddress) (found : List String)
      → Capped found
      → Capped (add_endpoints normalize show grpc_port port endpoints found).addresses
  unfolding add_endpoints
  add_endpoints-Capped port [] found bound = bound
  add_endpoints-Capped port (endpoint ∷ rest) found bound =
      let here = add_addresses normalize show grpc_port port endpoint.addresses found in
      let bound' = add_addresses-Capped port endpoint.addresses found bound in
      elim (Bool-cases (is_usable endpoint)) [
        | inr unusable ↦ rw unusable (add_endpoints-Capped port rest found bound)
        | inl usable ↦ elim (Bool-cases here.capped) [
          | inl full ↦ rw (usable, full) bound'
          | inr room ↦ rw (usable, room) (add_endpoints-Capped port rest here.addresses bound')
        ]
      ]

  add_slices-Capped :
      (slices : List EndpointSlice) (found : List String)
      → Capped found
      → Capped (add_slices normalize show grpc_port slices found).addresses
  unfolding add_slices
  add_slices-Capped [] found bound = bound
  add_slices-Capped (slice ∷ rest) found bound =
      let port = unwrap_or (and_then slice.ports first_port) grpc_port in
      let here = add_endpoints normalize show grpc_port port slice.endpoints found in
      let bound' = add_endpoints-Capped port slice.endpoints found bound in
      elim (Bool-cases here.capped) [
        | inl full ↦ rw full bound'
        | inr room ↦ rw room (add_slices-Capped rest here.addresses bound')
      ]

  -- At most sixteen endpoints are discovered, whatever slices there are and whatever they hold.
  pub discover_tetragon_endpoints-Capped :
      (slices : List EndpointSlice)
      → length (discover_tetragon_endpoints normalize show grpc_port slices)
        ≤ max_discovered_endpoints
  unfolding discover_tetragon_endpoints
  discover_tetragon_endpoints-Capped slices = add_slices-Capped slices [] (omega arith)
