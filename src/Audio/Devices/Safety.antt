-- ===== src/Audio/Devices/Safety.antt =====
-- The pause on built-in output of audio/devices.py, over any calls.
use lune_voice_companion.Prelude.{
  ◌≡◌, refl, ◌↔◌, ◌⊎◌, Bool, true, false, ◌&&◌, Option, none, some, List, [], ◌∷◌, ◌++◌, arith,
  if◌then◌else◌,
}
use lune_voice_companion.Audio.Devices.{
  DeviceSnapshot, DeviceTransition, Effect, Machine, listening, cancel_generation, rebuild_streams,
  new_machine, set_microphone, apply_default_devices, is_unsafe, is_same, resting,
}

pub data Call : Type 0 where
  microphone : Bool → Call
  devices : (Effect → Bool) → DeviceSnapshot → Call

unfoldable pub step : Machine → Call → Machine
step m (microphone enabled) = set_microphone m enabled
step m (devices raises snapshot) = (apply_default_devices raises m snapshot).2

unfoldable pub steps : Machine → List Call → Machine
steps m [] = m
steps m (c ∷ cs) = steps (step m c) cs

-- The state is always the one for the current output and the last request.
pub IsSettled : Machine → Type 0
IsSettled m = m.state ≡ resting (is_unsafe m.snapshot) m.microphone_requested

step-IsSettled : (m : Machine) (c : Call) → IsSettled m → IsSettled (step m c)
unfolding IsSettled step set_microphone apply_default_devices
step-IsSettled m (microphone enabled) h = refl
step-IsSettled m (devices raises snapshot) h = ground arith

steps-IsSettled : (m : Machine) (cs : List Call) → IsSettled m → IsSettled (steps m cs)
unfolding steps
steps-IsSettled m [] h = h
steps-IsSettled m (c ∷ cs) h = steps-IsSettled (step m c) cs (step-IsSettled m c h)

-- After any calls, also where callbacks raise, a new machine listens exactly while the output is known not to be
-- built in or no device is known yet, and the microphone was requested last.
pub listening_iff :
    (cs : List Call)
    → let m = steps new_machine cs in
      (m.state ≡ listening) ↔ ((is_unsafe m.snapshot ≡ false) × (m.microphone_requested ≡ true))
unfolding IsSettled new_machine
listening_iff cs =
    let h = steps-IsSettled new_machine cs refl in (λ e. ground arith, λ e. ground arith)

-- Whether a device was known.
abbrev pub had_devices : Option DeviceSnapshot → Bool
had_devices none = false
had_devices (some d) = true

-- What becomes of new devices: the transition, the effects in their order, and the machine.
abbrev pub Transitions :
    Machine
    → DeviceSnapshot
    → (Effect → Bool)
    → Option DeviceTransition × List Effect × Machine
    → Type 0
Transitions m s raises out =
    let cancels = if had_devices m.snapshot then cancel_generation ∷ [] else [] in
    let stops = had_devices m.snapshot && raises cancel_generation in
    ((is_same s m.snapshot ≡ true)
      × (out.1 ≡ [])
      × (out.2 ≡ m)
      × ((t : DeviceTransition) × (out.0 ≡ some t) × (t.changed ≡ false)))
    ⊎ ((is_same s m.snapshot ≡ false)
        × (stops ≡ true)
        × (out.0 ≡ none)
        × (out.1 ≡ cancels)
        × (out.2 ≡ m))
    ⊎ ((is_same s m.snapshot ≡ false)
        × (stops ≡ false)
        × (raises (rebuild_streams s) ≡ true)
        × (out.0 ≡ none)
        × (out.1 ≡ cancels ++ rebuild_streams s ∷ [])
        × (out.2 ≡ m))
    ⊎ ((is_same s m.snapshot ≡ false)
        × (stops ≡ false)
        × (raises (rebuild_streams s) ≡ false)
        × (out.1 ≡ cancels ++ rebuild_streams s ∷ [])
        × (out.2.snapshot ≡ some s)
        × (out.2.microphone_requested ≡ m.microphone_requested)
        × ((t : DeviceTransition) × (out.0 ≡ some t)
            × (t.changed ≡ true)
            × (t.rebuilt_streams ≡ true)
            × (t.cancelled_generation ≡ had_devices m.snapshot)
            × (t.state ≡ out.2.state)))

-- Whatever the callbacks do, devices that are known already have no effect and change nothing. Others
-- cancel the generation first, exactly when a device was known before, and then rebuild the streams;
-- where a callback raises, the machine stays as it was and no later effect follows; and where none
-- does, the machine has the new devices and the transition reports the two effects as they were.
pub apply_default_devices_effects :
    (m : Machine) (s : DeviceSnapshot) (raises : Effect → Bool)
    → Transitions m s raises (apply_default_devices raises m s)
unfolding apply_default_devices
apply_default_devices_effects m s raises = ground arith
