-- ===== src/Registry/Pins.antt =====
-- `PinSet` (src/registry/store.rs): tenant or reference to pinned digest.
use ember_edge.Prelude.{
  ◌≡◌, Bool, true, false, ◌&&◌, Option, none, some, List, [], arith, if◌then◌else◌, lookup, insert,
  remove, lookup-insert, lookup-remove,
}
use ember_edge.Text.Basic.{Str, str_eq, str_Eq, str_eq_iff}

pub record PinSet : Type 0 where
  pub pins : List (Str × Str)

abbrev pub default_pins : PinSet
default_pins = record { pins = [] }

unfoldable pub pin : PinSet → Str → Str → PinSet
pin set key digest = record { pins = insert key digest set.pins }

unfoldable pub resolve : PinSet → Str → Option Str
resolve set key = lookup key set.pins

abbrev pub is_pinned_to : Option Str → Str → Bool
is_pinned_to none digest = false
is_pinned_to (some d) digest = str_eq d digest

unfoldable pub unpin : PinSet → Str → Str → PinSet × Bool
unfolding resolve
unpin set key digest =
    if is_pinned_to (resolve set key) digest
    then (record { pins = remove key set.pins }, true)
    else (set, false)

-- A pin is what its key resolves to until the next pin of that key, and other keys are not touched.
pub resolve-pin :
    (set : PinSet) (key other digest : Str)
    → resolve (pin set key digest) other
      ≡ (if str_eq key other then some digest else resolve set other)
unfolding resolve pin
resolve-pin set key other digest = lookup-insert key other digest set.pins

-- `unpin` takes the pin of its key away, and says so, exactly when the key is pinned to the given
-- digest; otherwise, as after a newer pin, nothing changes. Other keys are never touched.
pub resolve-unpin :
    (set : PinSet) (key other digest : Str)
    → ((unpin set key digest).1 ≡ is_pinned_to (resolve set key) digest)
      × (resolve (unpin set key digest).0 other ≡ (
          if str_eq key other && is_pinned_to (resolve set key) digest
          then none
          else resolve set other))
unfolding resolve unpin
resolve-unpin set key other digest =
    (ground arith, ground (arith, lookup-remove key other set.pins, str_eq_iff key other))
