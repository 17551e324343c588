-- ===== src/Tests/PciRuns.antt =====
-- kernel/src/pci.c on concrete data.
use choco_os.Base.{ℕ, ◌≡◌, refl, ◌==◌, if◌then◌else◌, some}
use choco_os.Pci.{
  pci_find, find_bus, find_slot, find_func, config_address, pci_read32, is_absent, is_device,
  is_multi_function, found,
}
use choco_os.Pci.Search.{search, candidate, pci_find-search}

-- A network card in slot 3 of bus 0, and nothing else.
abbrev one_card : ℕ → ℕ
one_card a = if a == 0x80001800 then 0x100e8086 else 0xffffffff

pci_find-search_example :
    pci_find one_card 0x8086 0x100e
    ≡ search (λ b. search (λ s. search (candidate one_card 0x8086 0x100e b s) 0 8) 0 32) 0 256
pci_find-search_example = pci_find-search one_card 0x8086 0x100e

card_run : find_func one_card 0x8086 0x100e 0 3 0 8 ≡ some (found 0x8086 0x100e 0 3 0)
unfolding find_func config_address pci_read32 is_absent is_device is_multi_function
card_run = refl

-- The search ends in its first bus.
card_found : pci_find one_card 0x8086 0x100e ≡ some (found 0x8086 0x100e 0 3 0)
unfolding pci_find find_bus find_slot find_func config_address pci_read32 is_absent is_device
    is_multi_function
card_found = refl
