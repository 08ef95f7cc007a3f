-- ===== src/Pci/Tests.antt =====
-- A bus of kernel-core/src/pci.rs with one controller of two functions.
use open_kernel.Prelude.{ℕ, refl, inr, if◌then◌else◌, ◌==◌, ◌&&◌, ◌||◌, arith}
use open_kernel.Pci.{PciDevice, Config, read_device, is_multifunction, enumerate}
use open_kernel.Pci.Found.{Among, enumerate-finds}

-- Device 3 of bus 0: function 0 is a bridge, function 1 an AHCI controller.
abbrev machine : Config
machine bus device function offset =
    if (bus == 0 && device == 3) && (function == 0 || function == 1)
    then (if offset == 0
        then 0x29228086
        else if offset == 8
        then if function == 1 then 0x01060102 else 0x06010002
        else if offset == 0x0C
        then 0x00800000
        else 0xFEBF1000)
    else 0xFFFFFFFF

abbrev device_at : ℕ → ℕ → ℕ → PciDevice
device_at function class subclass = record {
  bus = 0;
  device = 3;
  function = function;
  vendor_id = 0x8086;
  device_id = 0x2922;
  class = class;
  subclass = subclass;
  programming_interface = if function == 1 then 1 else 0;
}

enumerate-finds_example : Among (device_at 1 1 6) (enumerate machine)
unfolding read_device is_multifunction
enumerate-finds_example =
    enumerate-finds machine 0 3 1 (device_at 1 1 6) (device_at 0 6 1) (omega arith) (omega arith)
      (omega arith) refl (inr refl) refl
