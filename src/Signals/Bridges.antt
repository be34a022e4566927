-- ===== src/Signals/Bridges.antt =====
-- Tests of the registry of bridges.
use operaia_lab.Common.{String, Bool, true, false, not, [], ◌∷◌, ◌≡◌, refl, string_same, trim}
use operaia_lab.Common.Effects.{ok}
use operaia_lab.Signals.Registry.{
  SourceBridge, BridgeRegistry, create_platform_bridge_registry, register_all, register, has,
}
use operaia_lab.Signals.Registered.{is_sound, register_all-is_sound}

-- The bridges of the platform.
abbrev bridge_of : String → Bool → SourceBridge
bridge_of source_type signed = record {
  source_type = source_type;
  capabilities = record {
    source_type = source_type;
    requires_hmac = signed;
    supports_replay_skew = signed;
    supports_redaction = true;
    trusted_internal = not signed;
  };
}

abbrev platform : BridgeRegistry
platform = ("INTERNAL", bridge_of "INTERNAL" false) ∷ ("GITHUB", bridge_of "GITHUB" true) ∷ []

platform_accepted :
    create_platform_bridge_registry (bridge_of "INTERNAL" false) (bridge_of "GITHUB" true)
    ≡ ok platform
unfolding register_all register has trim
platform_accepted = refl

register_all-is_sound_example : is_sound platform ≡ true
register_all-is_sound_example =
    register_all-is_sound (bridge_of "INTERNAL" false ∷ bridge_of "GITHUB" true ∷ []) platform
      platform_accepted
