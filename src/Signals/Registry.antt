-- ===== src/Signals/Registry.antt =====
-- `BridgeRegistry` of packages/domain-signals/src/bridge-registry.ts. Of a bridge, the registry reads
-- its source type and its capabilities; the map is the list of its entries.
use operaia_lab.Common.{
  String, Bool, false, not, ◌||◌, List, [], ◌∷◌, ◌++◌, map, Option, none, some, ◌==◌, string_same,
  if◌then◌else◌, trim,
}
use operaia_lab.Common.Effects.{Result, ok, err}

pub record BridgeCapabilities : Type 0 where
  pub source_type : String
  pub requires_hmac : Bool
  pub supports_replay_skew : Bool
  pub supports_redaction : Bool
  pub trusted_internal : Bool

pub record SourceBridge : Type 0 where
  pub source_type : String
  pub capabilities : BridgeCapabilities

pub data Capability : Type 0 where
  hmac : Capability
  replay_skew : Capability
  redaction : Capability
  internal_trust : Capability

abbrev pub capability_of : Capability → BridgeCapabilities → Bool
capability_of hmac c = c.requires_hmac
capability_of replay_skew c = c.supports_replay_skew
capability_of redaction c = c.supports_redaction
capability_of internal_trust c = c.trusted_internal

abbrev pub BridgeRegistry : Type 0
BridgeRegistry = List (String × SourceBridge)

pub data RegistryError : Type 0 where
  no_source_type : RegistryError
  duplicate_source_type : String → RegistryError
  diverging_source_type : String → String → RegistryError
  unknown_bridge : String → RegistryError
  undeclared_capability : String → Capability → RegistryError

unfoldable pub get : String → BridgeRegistry → Option SourceBridge
get source_type [] = none
get source_type ((k, bridge) ∷ bridges) =
    if k == source_type then some bridge else get source_type bridges

unfoldable pub has : String → BridgeRegistry → Bool
has source_type [] = false
has source_type ((k, bridge) ∷ bridges) = k == source_type || has source_type bridges

abbrev pub list : BridgeRegistry → List SourceBridge
list bridges = map (λ entry. entry.1) bridges

unfoldable pub register : SourceBridge → BridgeRegistry → Result RegistryError BridgeRegistry
register bridge bridges =
    let key = trim bridge.source_type in
    if key == ""
    then err no_source_type
    else if has key bridges
    then err (duplicate_source_type key)
    else if not (bridge.capabilities.source_type == key)
    then err (diverging_source_type bridge.capabilities.source_type key)
    else ok (bridges ++ ((key, bridge) ∷ []))

abbrev assert_of : String → Capability → Option SourceBridge → Result RegistryError (Unit {0})
assert_of source_type capability none = err (unknown_bridge source_type)
assert_of source_type capability (some bridge) =
    if capability_of capability bridge.capabilities
    then ok tt
    else err (undeclared_capability source_type capability)

unfoldable pub assert_capability :
    String → Capability → BridgeRegistry → Result RegistryError (Unit {0})
assert_capability source_type capability bridges =
    assert_of source_type capability (get source_type bridges)

abbrev pub register_next :
    SourceBridge → Result RegistryError BridgeRegistry → Result RegistryError BridgeRegistry
register_next bridge (err e) = err e
register_next bridge (ok bridges) = register bridge bridges

-- Registrations in turn, up to one that throws.
unfoldable pub register_all :
    List SourceBridge → Result RegistryError BridgeRegistry → Result RegistryError BridgeRegistry
register_all [] r = r
register_all (b ∷ bs) r = register_all bs (register_next b r)

abbrev pub create_default_bridge_registry : SourceBridge → Result RegistryError BridgeRegistry
create_default_bridge_registry internal_bridge = register_all (internal_bridge ∷ []) (ok [])

abbrev pub create_platform_bridge_registry :
    SourceBridge → SourceBridge → Result RegistryError BridgeRegistry
create_platform_bridge_registry internal github = register_all (internal ∷ github ∷ []) (ok [])
