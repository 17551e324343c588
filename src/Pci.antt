-- ===== src/Pci.antt =====
-- kernel/src/pci.c: PCI configuration space. `config` is what each configuration address reads as, which
-- does not change while the code searches.
pub mod Search
use choco_os.Base.{
  ℕ, zero, suc, ◌+◌, ◌*◌, ◌/◌, ◌^◌, Bool, true, false, not, ◌&&◌, ◌||◌, ◌==◌, if◌then◌else◌, Option,
  none, some, bit_and, bit_or,
}

pub record PciDevice : Type 0 where
  pub bus : ℕ
  pub slot : ℕ
  pub func : ℕ
  pub vendor_id : ℕ
  pub device_id : ℕ

unfoldable pub config_address : (bus slot func offset : ℕ) → ℕ
config_address bus slot func offset =
    bit_or (bit_or (bit_or (bit_or 0x80000000 (bus * 2 ^ 16)) (slot * 2 ^ 11)) (func * 2 ^ 8))
      (bit_and offset 0xfc)

unfoldable pub pci_read32 : (config : ℕ → ℕ) → (bus slot func offset : ℕ) → ℕ
pci_read32 config bus slot func offset = config (config_address bus slot func offset)

-- Configuration space after a write.
pub pci_write32 : (config : ℕ → ℕ) → (bus slot func offset value : ℕ) → (ℕ → ℕ)
pci_write32 config bus slot func offset value =
    λ a. if a == config_address bus slot func offset then value else config a

-- `(id & 0xFFFF) == 0xFFFF`: no function answers.
unfoldable pub is_absent : (config : ℕ → ℕ) → (bus slot func : ℕ) → Bool
is_absent config bus slot func = bit_and (pci_read32 config bus slot func 0) 0xffff == 0xffff

unfoldable pub is_device : (config : ℕ → ℕ) → (vendor device bus slot func : ℕ) → Bool
is_device config vendor device bus slot func =
    let id = pci_read32 config bus slot func 0 in
    (bit_and id 0xffff == vendor) && (id / 2 ^ 16 == device)

-- `pci_read32(bus, slot, 0, 0x0C) & 0x800000`.
unfoldable pub is_multi_function : (config : ℕ → ℕ) → (bus slot : ℕ) → Bool
is_multi_function config bus slot = not (bit_and (pci_read32 config bus slot 0 0x0c) 0x800000 == 0)

pub found : (vendor device bus slot func : ℕ) → PciDevice
found vendor device bus slot func = record {
  bus = bus;
  slot = slot;
  func = func;
  vendor_id = vendor;
  device_id = device;
}

-- The loop over `n` functions from `func`.
unfoldable pub find_func : (config : ℕ → ℕ) → (vendor device bus slot func n : ℕ) → Option PciDevice
find_func config vendor device bus slot func zero = none
find_func config vendor device bus slot func (suc n) =
    let rest = find_func config vendor device bus slot (func + 1) n in
    if is_absent config bus slot func
    then (if func == 0 then none else rest)
    else if is_device config vendor device bus slot func
    then some (found vendor device bus slot func)
    else if (func == 0) && not (is_multi_function config bus slot)
    then none
    else rest

-- The loop over `n` slots from `slot`.
unfoldable pub find_slot : (config : ℕ → ℕ) → (vendor device bus slot n : ℕ) → Option PciDevice
find_slot config vendor device bus slot zero = none
find_slot config vendor device bus slot (suc n) =
    elim (find_func config vendor device bus slot 0 8) [
      | none ↦ find_slot config vendor device bus (slot + 1) n
      | some d ↦ some d
    ]

-- The loop over `n` buses from `bus`.
unfoldable pub find_bus : (config : ℕ → ℕ) → (vendor device bus n : ℕ) → Option PciDevice
find_bus config vendor device bus zero = none
find_bus config vendor device bus (suc n) = elim (find_slot config vendor device bus 0 32) [
  | none ↦ find_bus config vendor device (bus + 1) n
  | some d ↦ some d
]

unfoldable pub pci_find : (config : ℕ → ℕ) → (vendor device : ℕ) → Option PciDevice
pci_find config vendor device = find_bus config vendor device 0 256

-- The part of `pci_bar0` behind the test of a 64-bit BAR.
pub bar_address : (config : ℕ → ℕ) → PciDevice → (bar : ℕ) → ℕ
bar_address config dev bar =
    let addr = bit_and bar 0xfffffffffffffff0 in
    if bit_and (bar / 2) 3 == 2
    then bit_or addr (pci_read32 config dev.bus dev.slot dev.func 0x14 * 2 ^ 32)
    else addr

pub pci_bar0 : (config : ℕ → ℕ) → PciDevice → ℕ
pci_bar0 config dev =
    let bar = pci_read32 config dev.bus dev.slot dev.func 0x10 in
    if bit_and bar 1 == 0 then bar_address config dev bar else 0

pub pci_enable_bus_master : (config : ℕ → ℕ) → PciDevice → (ℕ → ℕ)
pci_enable_bus_master config dev =
    let cmd = pci_read32 config dev.bus dev.slot dev.func 0x04 in
    pci_write32 config dev.bus dev.slot dev.func 0x04 (bit_or cmd 0x7)
