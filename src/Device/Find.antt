-- ===== src/Device/Find.antt =====
-- kernel/device.c: device_find of what device_register registered.
use my_os.Prelude.{
  ℕ, suc, ◌+◌, ◌<◌, ◌≡◌, ◌⊎◌, refl, ap, sym, subst, Bool, true, false, List, [], ◌∷◌, ◌++◌, map,
  Option, none, some, add32, if◌then◌else◌, Bool-cases, Option-cases, inl, inr, arith, length,
  length-append, u32_mod, ==_refl,
}
use my_os.Vfs.{str_equal}
use my_os.Registry.{Distinct, Lacks, Distinct-snoc}
use my_os.Device.{Device, Devices, DeviceType, DeviceState, find_in, device_find, device_register}

abbrev names : List Device → List (List ℕ)
names devices = map (λ (d : Device). d.name) devices

-- The devices are numbered from a number on.
abbrev Numbered : ℕ → List Device → Type 0
Numbered n [] = Unit
Numbered n (d ∷ devices) = (d.id ≡ n) × Numbered (suc n) devices

-- The names differ from each other, and the devices are numbered from 1 in their order.
pub record IsValid (r : Devices) : Type 0 where
  pub distinct : Distinct (names r.devices)
  pub numbered : Numbered 1 r.devices
  pub next : r.next_device_id ≡ length r.devices + 1
  pub counted : r.registered_device_count ≡ length r.devices

find-Lacks :
    (name : List ℕ) (devices : List Device)
    → find_in name devices ≡ none
    → Lacks (names devices) name
unfolding find_in
find-Lacks name [] h = tt
find-Lacks name (d ∷ devices) h = elim (Bool-cases (str_equal d.name name)) [
  | inl same ↦ absurd (let never = rw same at h in cc)
  | inr apart ↦ (apart, find-Lacks name devices (rw apart at h))
]

names-end :
    (devices : List Device) (dev : Device)
    → names (devices ++ (dev ∷ [])) ≡ names devices ++ (dev.name ∷ [])
names-end [] dev = refl
names-end (d ∷ devices) dev = ap (λ rest. d.name ∷ rest) (names-end devices dev)

Numbered-end :
    (n : ℕ) (devices : List Device) (dev : Device)
    → Numbered n devices
    → dev.id ≡ n + length devices
    → Numbered n (devices ++ (dev ∷ []))
Numbered-end n [] dev all e = (omega arith, tt)
Numbered-end n (d ∷ devices) dev all e =
    (all.0, Numbered-end (suc n) devices dev all.1 (omega arith))

str_equal_refl : (name : List ℕ) → str_equal name name ≡ true
unfolding str_equal
str_equal_refl [] = refl
str_equal_refl (c ∷ name) = rw (==_refl c) (str_equal_refl name)

-- A search goes on behind the end exactly if it finds nothing.
find-end :
    (name : List ℕ) (devices : List Device) (dev : Device)
    → find_in name (devices ++ (dev ∷ [])) ≡ (elim (find_in name devices) [
      | none ↦ if str_equal dev.name name then some dev else none
      | some d ↦ some d
    ])
unfolding find_in
find-end name [] dev = refl
find-end name (d ∷ devices) dev = elim (Bool-cases (str_equal d.name name)) [
  | inl same ↦ rw same refl
  | inr apart ↦ rw apart (find-end name devices dev)
]

-- What the registration of a device may do: fail and change nothing, or enter the device.
abbrev pub Outcome : Devices → Device → Option Device × Devices → Type 0
Outcome r dev after =
    ((after.0 ≡ none) × (after.1 ≡ r))
    ⊎ ((after.0 ≡ some dev)
        × (device_find r dev.name ≡ none)
        × (device_find after.1 dev.name ≡ some dev)
        × (length after.1.devices ≡ length r.devices + 1))

module _ (name driver : List ℕ) (device_type : DeviceType) (state : DeviceState) (r : Devices)
    (valid : IsValid r) (small : length r.devices + 2 < u32_mod) where
  abbrev dev : Device
  dev = record {
    id = r.next_device_id;
    name = name;
    driver = driver;
    device_type = device_type;
    state = state;
  }

  abbrev added : Devices
  added = record r {
    devices = r.devices ++ (dev ∷ []);
    next_device_id = add32 r.next_device_id 1;
    registered_device_count = add32 r.registered_device_count 1;
  }

  added-IsValid : find_in name r.devices ≡ none → IsValid added
  added-IsValid new =
      let len = length-append r.devices (dev ∷ []) in
      let next = valid.next in
      let count = valid.counted in
      record {
        distinct =
            rw (names-end r.devices dev)
              (Distinct-snoc (names r.devices) name valid.distinct (find-Lacks name r.devices new));
        numbered = Numbered-end 1 r.devices dev valid.numbered (omega arith);
        next = omega arith;
        counted = omega arith;
      }

  added-Finds : find_in name r.devices ≡ none → device_find added name ≡ some dev
  added-Finds new = rw (find-end name r.devices dev, new, str_equal_refl name) refl

  -- The two ends of `device_register`.
  register-ends :
      (has_node has_name has_driver : Bool)
      → (device_register has_node has_name has_driver (some name) device_type state (some driver) r
          ≡ (none, r))
        ⊎ ((find_in name r.devices ≡ none)
            × (device_register has_node has_name has_driver
                  (some name)
                  device_type
                  state
                  (some driver)
                  r
                ≡ (some dev, added)))
  unfolding device_register
  register-ends has_node has_name has_driver = elim (Bool-cases r.device_initialized) [
    | inr off ↦ inl (simp off)
    | inl on ↦ elim (Option-cases (find_in name r.devices)) [
      | inr (d, e) ↦ inl (simp (on, e))
      | inl new ↦ memory_ends has_node has_name has_driver on new
    ]
  ]
    where
      memory_ends :
          (has_node has_name has_driver : Bool)
          → r.device_initialized ≡ true
          → find_in name r.devices ≡ none
          → (device_register has_node has_name has_driver
                (some name)
                device_type
                state
                (some driver)
                r
              ≡ (none, r))
            ⊎ ((find_in name r.devices ≡ none)
                × (device_register has_node has_name has_driver
                      (some name)
                      device_type
                      state
                      (some driver)
                      r
                    ≡ (some dev, added)))
      memory_ends false has_name has_driver on new = inl (simp (on, new))
      memory_ends true false has_driver on new = inl (simp (on, new))
      memory_ends true true false on new = inl (simp (on, new))
      memory_ends true true true on new = inr (new, simp (on, new))

  -- While fewer than 2 ^ 32 - 2 devices are registered, under names that differ from each other and
  -- numbered from 1 on in their order, device_register keeps this so, with memory or without. It
  -- returns no device and changes nothing, or there was no device of this name, it returns one with
  -- the next number, and device_find finds this one under the name afterwards.
  pub device_register-Registers :
      (has_node has_name has_driver : Bool)
      → IsValid
          (device_register has_node has_name has_driver
            (some name)
            device_type
            state
            (some driver)
            r).1
        × Outcome r dev (
            device_register has_node has_name has_driver
              (some name)
              device_type
              state
              (some driver)
              r)
  device_register-Registers has_node has_name has_driver =
      elim (register-ends has_node has_name has_driver) [
        | inl e ↦ subst (λ o. IsValid o.1 × Outcome r dev o) (sym e) (valid, inl (refl, refl))
        | inr (new, e) ↦
            subst (λ o. IsValid o.1 × Outcome r dev o) (sym e)
              (
                added-IsValid new,
                inr (refl, new, added-Finds new, length-append r.devices (dev ∷ [])),
              )
      ]
