-- ===== src/Device/Tests.antt =====
-- kernel/device.c: the first device.
use my_os.Prelude.{ℕ, ◌+◌, ◌<◌, refl, true, List, [], ◌∷◌, some, length, u32_mod, arith}
use my_os.Registry.{Distinct}
use my_os.Device.{DeviceType, DeviceState, device_init, device_register}
use my_os.Device.Find.{IsValid, Outcome, device_register-Registers}

init-IsValid : IsValid device_init
unfolding device_init Distinct
init-IsValid = record { distinct = tt; numbered = tt; next = refl; counted = refl }

init_small : length device_init.devices + 2 < u32_mod
unfolding device_init
init_small = omega arith

abbrev rtc_name : List ℕ
rtc_name = 114 ∷ 116 ∷ 99 ∷ 48 ∷ []

device_register-Registers_example :
    IsValid
      (device_register true true true
        (some rtc_name)
        DeviceType.timer
        DeviceState.ready
        (some [])
        device_init).1
    × Outcome device_init
        (record {
          id = 1;
          name = rtc_name;
          driver = [];
          device_type = DeviceType.timer;
          state = DeviceState.ready;
        })
        (device_register true true true
          (some rtc_name)
          DeviceType.timer
          DeviceState.ready
          (some [])
          device_init)
unfolding device_init
device_register-Registers_example =
    device_register-Registers rtc_name [] DeviceType.timer DeviceState.ready device_init
      init-IsValid init_small true true true
