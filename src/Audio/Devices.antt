-- ===== src/Audio/Devices.antt =====
-- audio/devices.py: the default devices and the pause on built-in output. The two callbacks are
-- recorded as effects in the order in which they are awaited.
pub mod Safety
use text.Mathlib.Text.{◌==◌ as str_eq}
use Prim.Native.String.{String}
use lune_voice_companion.Prelude.{
  ◌+◌, Bool, true, false, not, ◌&&◌, Option, none, some, List, [], ◌∷◌, ◌++◌, if◌then◌else◌,
}

pub data DeviceState : Type 0 where
  mic_off listening paused_unsafe_output : DeviceState

pub record DeviceInfo : Type 0 where
  pub uid : String
  pub name : String
  pub is_builtin : Bool

pub record DeviceSnapshot : Type 0 where
  pub input : DeviceInfo
  pub output : DeviceInfo

pub record DeviceTransition : Type 0 where
  pub changed : Bool
  pub cancelled_generation : Bool
  pub rebuilt_streams : Bool
  pub state : DeviceState

pub data Effect : Type 0 where
  cancel_generation : Effect
  rebuild_streams : DeviceSnapshot → Effect

pub record Machine : Type 0 where
  pub snapshot : Option DeviceSnapshot
  pub microphone_requested : Bool
  pub state : DeviceState

unfoldable pub new_machine : Machine
new_machine = record { snapshot = none; microphone_requested = false; state = mic_off }

abbrev same_bool : Bool → Bool → Bool
same_bool true b = b
same_bool false b = not b

-- The equality of the frozen dataclasses, field by field.
abbrev same_device : DeviceInfo → DeviceInfo → Bool
same_device a b =
    str_eq a.uid b.uid && (str_eq a.name b.name && same_bool a.is_builtin b.is_builtin)

abbrev same_snapshot : DeviceSnapshot → DeviceSnapshot → Bool
same_snapshot a b = same_device a.input b.input && same_device a.output b.output

abbrev pub is_same : DeviceSnapshot → Option DeviceSnapshot → Bool
is_same s none = false
is_same s (some t) = same_snapshot s t

abbrev pub is_unsafe : Option DeviceSnapshot → Bool
is_unsafe none = false
is_unsafe (some s) = s.output.is_builtin

-- The state for an output and a request for the microphone.
abbrev pub resting : Bool → Bool → DeviceState
resting true requested = paused_unsafe_output
resting false requested = if requested then listening else mic_off

unfoldable pub set_microphone : Machine → Bool → Machine
set_microphone m enabled = record m {
  microphone_requested = enabled;
  state = resting (is_unsafe m.snapshot) enabled;
}

abbrev is_present : Option DeviceSnapshot → Bool
is_present none = false
is_present (some _) = true

-- Where a callback raises, its exception leaves the method: `raises` says which do. The state is
-- written only behind both.
unfoldable pub apply_default_devices :
    (Effect → Bool) → Machine → DeviceSnapshot → Option DeviceTransition × List Effect × Machine
apply_default_devices raises m snapshot =
    if is_same snapshot m.snapshot
    then (
      some (record {
        changed = false;
        cancelled_generation = false;
        rebuilt_streams = false;
        state = m.state;
      }),
      [],
      m,
    )
    else let had_previous = is_present m.snapshot in
      let cancels = if had_previous then cancel_generation ∷ [] else [] in
      let state = resting snapshot.output.is_builtin m.microphone_requested in
      if had_previous && raises cancel_generation
      then (none, cancels, m)
      else if raises (rebuild_streams snapshot)
      then (none, cancels ++ rebuild_streams snapshot ∷ [], m)
      else (
        some (record {
          changed = true;
          cancelled_generation = had_previous;
          rebuilt_streams = true;
          state = state;
        }),
        cancels ++ rebuild_streams snapshot ∷ [],
        record m { snapshot = some snapshot; state = state },
      )
