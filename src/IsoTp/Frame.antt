-- ===== src/IsoTp/Frame.antt =====
-- The frames of src/isotp.c and what the process reads from the bus. `struct can_frame`, the mask
-- of its identifier and the calls of src/can_io.c belong to Linux: each call's answer is an input.
use vecu_uds.Base.{ℕ, ◌-◌, List, ◌++◌, u8, ◌>>>◌, length, get_or, replicate}

-- ISOTP_MAX_PAYLOAD, ISOTP_PADDING, ISOTP_N_CR_MS
abbrev pub max_payload : ℕ
max_payload = 4095

abbrev pub padding : ℕ
padding = 0x00

abbrev pub n_cr_ms : ℕ
n_cr_ms = 1000

-- CAN_SFF_MASK
abbrev pub can_sff_mask : ℕ
can_sff_mask = 0x7FF

-- PCI_SF, PCI_FF, PCI_CF, PCI_FC
abbrev pub pci_sf : ℕ
pci_sf = 0x0

abbrev pub pci_ff : ℕ
pci_ff = 0x1

abbrev pub pci_cf : ℕ
pci_cf = 0x2

abbrev pub pci_fc : ℕ
pci_fc = 0x3

-- FC_FS_CTS, FC_FS_WAIT
abbrev pub fc_fs_cts : ℕ
fc_fs_cts = 0x0

abbrev pub fc_fs_wait : ℕ
fc_fs_wait = 0x1

-- `struct can_frame`; every frame has its eight data bytes. `can_dlc` is left out: frame_pad makes it
-- 8, and the receiver does not look at it.
pub record CanFrame : Type 0 where
  pub can_id : ℕ
  pub payload : List ℕ

-- `isotp_addr_t`
pub record Addr : Type 0 where
  pub rx_id : ℕ
  pub tx_id : ℕ

-- What one call of `can_io_recv` gives. With a frame come the clock readings that follow it: the
-- one that is tested against a deadline, and the one that a new deadline is made of.
pub data Event : Type 0 where
  arrived : CanFrame → (now later : ℕ) → Event
  interrupted : Event
  broken : Event

-- PCI_TYPE
abbrev pub pci_type : ℕ → ℕ
pci_type b = u8 (b >>> 4)

abbrev pub data_at : CanFrame → ℕ → ℕ
data_at f i = get_or f.payload i 0

-- frame_pad over the bytes that are in use
abbrev pub frame_pad : List ℕ → List ℕ
frame_pad used = used ++ replicate (8 - length used) padding
