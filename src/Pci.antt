-- ===== src/Pci.antt =====
-- kernel-core/src/pci.rs: the enumeration of PCI devices. The configuration space is a function of
-- bus, device, function and offset, which the ports of the hardware stand for.
pub mod Found
mod Tests
use open_kernel.Prelude.{
  ℕ, zero, suc, ◌+◌, ◌-◌, ◌*◌, ◌/◌, ◌%◌, ◌^◌, Bool, true, false, not, ◌&&◌, ◌||◌, if◌then◌else◌,
  ◌==◌, Option, none, some, has_value, List, [], ◌∷◌, ◌++◌, bit_and, bit_or,
}

pub record PciDevice : Type 0 where
  pub bus : ℕ
  pub device : ℕ
  pub function : ℕ
  pub vendor_id : ℕ
  pub device_id : ℕ
  pub class : ℕ
  pub subclass : ℕ
  pub programming_interface : ℕ

pub record AhciController : Type 0 where
  pub device : PciDevice
  pub abar : ℕ

pub record VirtioRngDevice : Type 0 where
  pub device : PciDevice
  pub io_base : ℕ

-- The 32-bit registers of the configuration space.
abbrev pub Config : Type 0
Config = ℕ → ℕ → ℕ → ℕ → ℕ

-- `x & !(2^k - 1)` on `u32`
abbrev pub cleared : ℕ → ℕ → ℕ
cleared k x = x / 2 ^ k * 2 ^ k

unfoldable pub read_device : Config → ℕ → ℕ → ℕ → Option PciDevice
read_device read_config bus device function =
    let identification = read_config bus device function 0 in
    let vendor_id = identification % 2 ^ 16 in
    let class = read_config bus device function 8 in
    if vendor_id == 2 ^ 16 - 1
    then none
    else some (record {
      bus = bus;
      device = device;
      function = function;
      vendor_id = vendor_id;
      device_id = identification / 2 ^ 16 % 2 ^ 16;
      class = class / 2 ^ 24 % 2 ^ 8;
      subclass = class / 2 ^ 16 % 2 ^ 8;
      programming_interface = class / 2 ^ 8 % 2 ^ 8;
    })

unfoldable pub is_multifunction : Config → ℕ → ℕ → Bool
is_multifunction read_config bus device =
    not (bit_and (read_config bus device 0 0x0C) (2 ^ 23) == 0)

-- `for function in function..function + n`: the devices that are there.
unfoldable pub functions_from : Config → ℕ → ℕ → ℕ → ℕ → List PciDevice
functions_from c bus device function zero = []
functions_from c bus device function (suc n) =
    let rest = functions_from c bus device (function + 1) n in
    elim (read_device c bus device function) [ none ↦ rest | some found ↦ found ∷ rest ]

-- The visits for one device.
unfoldable pub visits : Config → ℕ → ℕ → List PciDevice
visits c bus device = elim (read_device c bus device 0) [
  | none ↦ []
  | some function_zero ↦
      function_zero
      ∷ (if not (is_multifunction c bus device) then [] else functions_from c bus device 1 7)
]

-- `for device in device..device + n`
unfoldable pub devices_from : Config → ℕ → ℕ → ℕ → List PciDevice
devices_from c bus device zero = []
devices_from c bus device (suc n) = visits c bus device ++ devices_from c bus (device + 1) n

-- `for bus in bus..bus + n`
unfoldable pub buses_from : Config → ℕ → ℕ → List PciDevice
buses_from c bus zero = []
buses_from c bus (suc n) = devices_from c bus 0 32 ++ buses_from c (bus + 1) n

-- The devices that `enumerate` visits, in order.
unfoldable pub enumerate : Config → List PciDevice
enumerate c = buses_from c 0 256

-- `enumerate` with a closure over a state.
unfoldable pub visit_all : {A : Type 0} → (A → PciDevice → A) → A → List PciDevice → A
visit_all visit a [] = a
visit_all visit a (d ∷ ds) = visit_all visit (visit a d) ds

unfoldable pub device_count : Config → ℕ
device_count c = visit_all (λ count d. count + 1) 0 (enumerate c)

abbrev pub visit_ahci : Config → Option AhciController → PciDevice → Option AhciController
visit_ahci read_config controller device =
    let abar = cleared 4 (read_config device.bus device.device device.function 0x24) in
    if not (has_value controller) && (device.class == 0x01 && device.subclass == 0x06)
    then if not (abar == 0) then some (record { device = device; abar = abar }) else controller
    else controller

unfoldable pub find_ahci_controller : Config → Option AhciController
find_ahci_controller c = visit_all (visit_ahci c) none (enumerate c)

abbrev pub visit_rng : Config → Option VirtioRngDevice → PciDevice → Option VirtioRngDevice
visit_rng read_config result device =
    let bar = read_config device.bus device.device device.function 0x10 in
    if has_value result || (not (device.vendor_id == 0x1AF4) || not (device.device_id == 0x1005))
    then result
    else if not (bit_and bar 1 == 0)
    then some (record { device = device; io_base = cleared 2 bar % 2 ^ 16 })
    else result

unfoldable pub find_virtio_rng : Config → Option VirtioRngDevice
find_virtio_rng c = visit_all (visit_rng c) none (enumerate c)

-- `write_config`
abbrev pub write_config : ℕ → ℕ → ℕ → ℕ → ℕ → Config → Config
write_config bus device function offset value c b d f o =
    if (b == bus && d == device) && (f == function && o == offset) then value else c b d f o

unfoldable pub enable_memory_and_bus_master : PciDevice → Config → Config
enable_memory_and_bus_master d c =
    let command = c d.bus d.device d.function 0x04 in
    write_config d.bus d.device d.function 0x04 (bit_or (bit_or command (2 ^ 1)) (2 ^ 2)) c
