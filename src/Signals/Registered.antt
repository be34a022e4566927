-- ===== src/Signals/Registered.antt =====
-- The bridges that a registry holds.
use operaia_lab.Common.{
  String, Bool, true, false, not, ◌&&◌, ◌||◌, List, [], ◌∷◌, ◌++◌, ◌≡◌, refl, ◌==◌, string_same,
  str_iff, trim, arith,
}
use operaia_lab.Common.Effects.{Result, ok, err}
use operaia_lab.Signals.Registry.{
  SourceBridge, BridgeRegistry, RegistryError, has, register, register_all,
}

-- Each entry has its bridge's trimmed source type as its key, which is not empty and which the
-- bridge's capabilities repeat; and no key comes twice.
abbrev pub is_sound : BridgeRegistry → Bool
is_sound [] = true
is_sound ((key, bridge) ∷ bridges) =
    not (key == "")
    && (trim bridge.source_type == key
        && (bridge.capabilities.source_type == key && (not (has key bridges) && is_sound bridges)))

has-append :
    (k key : String) (bridge : SourceBridge) (bridges : BridgeRegistry)
    → has k (bridges ++ ((key, bridge) ∷ [])) ≡ (has k bridges || key == k)
unfolding has
has-append k key bridge [] = ground arith
has-append k key bridge ((j, b) ∷ bridges) = ground (arith, has-append k key bridge bridges)

is_sound-append :
    (key : String) (bridge : SourceBridge) (bridges : BridgeRegistry)
    → is_sound bridges ≡ true
    → has key bridges ≡ false
    → key == "" ≡ false
    → trim bridge.source_type ≡ key
    → bridge.capabilities.source_type == key ≡ true
    → is_sound (bridges ++ ((key, bridge) ∷ [])) ≡ true
unfolding has
is_sound-append key bridge [] h n e t c =
    ground (arith, e, c, str_iff (trim bridge.source_type) key, t)
is_sound-append key bridge ((j, b) ∷ bridges) h n e t c = ground (
  arith,
  h,
  n,
  has-append j key bridge bridges,
  str_iff key j,
  str_iff j key,
  is_sound-append key bridge bridges ground arith ground arith e t c,
)

register-is_sound :
    (bridge : SourceBridge) (bridges after : BridgeRegistry)
    → is_sound bridges ≡ true
    → register bridge bridges ≡ ok after
    → is_sound after ≡ true
unfolding register
register-is_sound bridge bridges after h r =
    grind (arith, h, r, is_sound-append (trim bridge.source_type) bridge bridges)

err-register_all : (bs : List SourceBridge) (e : RegistryError) → register_all bs (err e) ≡ err e
unfolding register_all
err-register_all [] e = refl
err-register_all (b ∷ bs) e = err-register_all bs e

register_all-is_sound_from :
    (bs : List SourceBridge) (r : Result RegistryError BridgeRegistry) (after : BridgeRegistry)
    → ((bridges : BridgeRegistry) → r ≡ ok bridges → is_sound bridges ≡ true)
    → register_all bs r ≡ ok after
    → is_sound after ≡ true
unfolding register_all
register_all-is_sound_from [] r after h e = h after e
register_all-is_sound_from (b ∷ bs) (err x) after h e = cc (err-register_all bs x, e)
register_all-is_sound_from (b ∷ bs) (ok bridges) after h e =
    register_all-is_sound_from bs (register b bridges) after
      (λ next k. register-is_sound b bridges next (h bridges refl) k) e

abbrev empty : Result RegistryError BridgeRegistry
empty = ok []

empty-is_sound : (bridges : BridgeRegistry) → empty ≡ ok bridges → is_sound bridges ≡ true
empty-is_sound [] k = refl
empty-is_sound (b ∷ bridges) k = cc k

-- After any registrations that are all accepted, from the empty registry, each entry has its
-- bridge's trimmed source type as its key, which is not empty and which the bridge's capabilities
-- repeat, and no key comes twice.
pub register_all-is_sound :
    (bs : List SourceBridge) (after : BridgeRegistry)
    → register_all bs (ok []) ≡ ok after
    → is_sound after ≡ true
register_all-is_sound bs after e =
    register_all-is_sound_from bs (ok []) after (λ bridges k. empty-is_sound bridges k) e
