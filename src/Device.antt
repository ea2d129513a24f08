-- ===== src/Device.antt =====
-- kernel/device.c: the registry of devices, in the order in which they were registered. A pointer to
-- a device is the device.
pub mod Find
mod Tests
use my_os.Prelude.{
  ℕ, ◌+◌, Bool, true, false, not, ◌||◌, List, [], ◌∷◌, ◌++◌, Option, none, some, add32,
  if◌then◌else◌,
}
use my_os.Vfs.{str_equal}

-- `device_type_t` and `device_state_t`.
pub data DeviceType : Type 0 where
  unknown display input timer tty storage network virtual : DeviceType

pub data DeviceState : Type 0 where
  unknown registered ready failed : DeviceState

-- `device_t`.
pub record Device : Type 0 where
  pub id : ℕ
  pub name : List ℕ
  pub driver : List ℕ
  pub device_type : DeviceType
  pub state : DeviceState

-- The static variables; the list runs from `device_head` to `device_tail`.
pub record Devices : Type 0 where
  pub devices : List Device
  pub next_device_id : ℕ
  pub registered_device_count : ℕ
  pub device_initialized : Bool

unfoldable pub device_init : Devices
device_init = record {
  devices = [];
  next_device_id = 1;
  registered_device_count = 0;
  device_initialized = true;
}

-- The loop of `device_find`.
unfoldable pub find_in : List ℕ → List Device → Option Device
find_in name [] = none
find_in name (current ∷ later) =
    let rest = find_in name later in if str_equal current.name name then some current else rest

abbrev pub device_find : Devices → List ℕ → Option Device
device_find r name = find_in name r.devices

-- `device_register`; the flags tell whether the three allocations succeed.
unfoldable pub device_register :
    Bool
    → Bool
    → Bool
    → Option (List ℕ)
    → DeviceType
    → DeviceState
    → Option (List ℕ)
    → Devices
    → Option Device × Devices
device_register has_node has_name has_driver none device_type state driver r = (none, r)
device_register has_node has_name has_driver (some name) device_type state none r = (none, r)
device_register has_node has_name has_driver (some name) device_type state (some driver) r =
    let dev : Device = record {
      id = r.next_device_id;
      name = name;
      driver = driver;
      device_type = device_type;
      state = state;
    } in
    if not r.device_initialized then (none, r) else elim (find_in name r.devices) [
      | some duplicate ↦ (none, r)
      | none ↦
          if not has_node
          then (none, r)
          else if not has_name || not has_driver
          then (none, r)
          else (
            some dev,
            record r {
              devices = r.devices ++ (dev ∷ []);
              next_device_id = add32 r.next_device_id 1;
              registered_device_count = add32 r.registered_device_count 1;
            },
          )
    ]

abbrev pub device_count : Devices → ℕ
device_count r = r.registered_device_count
