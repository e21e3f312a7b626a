-- ===== src/Xhci/Regs.antt =====
-- The registers of src/xhci.rs: capability, operational and runtime registers, the ports, the doorbells
-- and the table of device contexts.
pub mod Laws
pub mod Reset
pub mod Sample
mod Examples
use mushix.Prelude.{
  ℕ, zero, suc, ◌+◌, ◌-◌, ◌*◌, ◌/◌, ◌%◌, ◌^◌, max, bit_and, bit_or, Bool, true, false, ◌&&◌, ◌||◌,
  not, List, [], ◌∷◌, length, get_elem?, set, replicate, Option, none, some, and_then, ltb, leb,
  ◌==◌, if◌then◌else◌, Result, ok, err, panic, ok_or, ◌>>=◌, ◌>>◌,
}
use mushix.Word.{shl, bit_not, u32, u64}
use mushix.Bits.{extract_bits}
use mushix.Xhci.Context.{UsbMode, unknown, full_speed, low_speed, high_speed, super_speed}
use mushix.Xhci.Event
use mushix.Xhci.Event.{EventRing}

pub record CapabilityRegisters : Type 0 where
  pub caplength : ℕ
  pub hcsparams1 : ℕ
  pub hcsparams2 : ℕ
  pub dboff : ℕ
  pub rtsoff : ℕ

pub num_of_device_slots : CapabilityRegisters → ℕ
num_of_device_slots r = extract_bits 32 r.hcsparams1 0 8

pub num_scratchpad_bufs : CapabilityRegisters → ℕ
num_scratchpad_bufs r =
    bit_or (shl 32 (extract_bits 32 r.hcsparams2 21 5) 5) (extract_bits 32 r.hcsparams2 27 5)

pub num_of_ports : CapabilityRegisters → ℕ
num_of_ports r = extract_bits 32 r.hcsparams1 24 8

pub record OperationalRegisters : Type 0 where
  pub usbcmd : ℕ
  pub usbsts : ℕ
  pub pagesize : ℕ
  pub crcr : ℕ
  pub dcbaap : ℕ
  pub config : ℕ

abbrev status_hc_halted : ℕ
status_hc_halted = 1

abbrev cmd_run_stop : ℕ
cmd_run_stop = 1

abbrev cmd_hc_reset : ℕ
cmd_hc_reset = 2

-- `count_ones` and `trailing_zeros` of a word of `n` bits.
abbrev pub count_ones : ℕ → ℕ → ℕ
count_ones zero x = 0
count_ones (suc n) x = x % 2 + count_ones n (x / 2)

abbrev pub trailing_zeros : ℕ → ℕ → ℕ
trailing_zeros zero x = 0
trailing_zeros (suc n) x = let rest = trailing_zeros n (x / 2) in if x % 2 == 0 then suc rest else 0

pub page_size : OperationalRegisters → Result ℕ
page_size r =
    let page_size_bits = bit_and r.pagesize 0xffff in
    if not (count_ones 32 page_size_bits == 1)
    then err "Invalid page size bits"
    else ok (shl 64 1 (trailing_zeros 32 page_size_bits + 12))

pub set_command_bits : OperationalRegisters → ℕ → OperationalRegisters
set_command_bits r bits = record r { usbcmd = bit_or r.usbcmd bits }

pub clear_command_bits : OperationalRegisters → ℕ → OperationalRegisters
clear_command_bits r bits = record r { usbcmd = bit_and r.usbcmd (bit_not 32 bits) }

-- A loop that reads the status until a test holds: `reads` is what the register says at each read,
-- and the result is the number of the last read.
pub wait_until : (fuel : ℕ) → (ℕ → ℕ) → (ℕ → Bool) → ℕ → Option ℕ
wait_until zero reads stop n = none
wait_until (suc fuel) reads stop n =
    let rest = wait_until fuel reads stop (n + 1) in if stop (reads n) then some n else rest

abbrev pub halted : ℕ → Bool
halted status = not (bit_and status status_hc_halted == 0)

abbrev pub reset_done : ℕ → Bool
reset_done status = bit_and status cmd_hc_reset == 0

-- `reset_xhc`: the number of the last read of the status, and the registers. What a read says
-- depends on the command register at that time.
pub reset_xhc :
    (fuel : ℕ) → ((usbcmd : ℕ) → ℕ → ℕ) → OperationalRegisters → Option (ℕ × OperationalRegisters)
reset_xhc fuel reads r =
    let stopped = clear_command_bits r cmd_run_stop in
    and_then (wait_until fuel (reads stopped.usbcmd) halted 0) λ n.
      let reset = set_command_bits stopped cmd_hc_reset in
      and_then (wait_until fuel (reads reset.usbcmd) reset_done (n + 1)) λ m. some (m, reset)

pub start_xhc :
    (fuel : ℕ) → ((usbcmd : ℕ) → ℕ → ℕ) → OperationalRegisters → Option (ℕ × OperationalRegisters)
start_xhc fuel reads r =
    let started = set_command_bits r cmd_run_stop in
    and_then (wait_until fuel (reads started.usbcmd) (λ s. not (halted s)) 0) λ n. some (n, started)

pub set_cmd_ring_ctrl : OperationalRegisters → ℕ → OperationalRegisters
set_cmd_ring_ctrl r ring_phys_addr = record r { crcr = bit_or ring_phys_addr 1 }

pub set_num_device_slots : OperationalRegisters → ℕ → OperationalRegisters
set_num_device_slots r num = record r { config = bit_or (bit_and r.config (bit_not 64 0xff)) num }

pub record InterrupterRegisterSet : Type 0 where
  pub management : ℕ
  pub moderation : ℕ
  pub erst_size : ℕ
  pub erst_base : ℕ
  pub erdp : ℕ

-- `init_irs`, for the 1024 register sets: the sets and the ring behind it.
pub init_irs :
    List InterrupterRegisterSet
    → ℕ
    → (erst_phys_addr : ℕ) → EventRing
    → Result (List InterrupterRegisterSet × EventRing)
init_irs irs index erst_phys_addr ring = do
  _ ← ok_or (get_elem? irs index) "Index out of range"
  ok (
    set irs index (record {
      management = 1;
      moderation = 0;
      erst_size = 1;
      erst_base = erst_phys_addr;
      erdp = ring.ring.base;
    }),
    Event.set_erdp ring ring.ring.base,
  )

-- `PortScEntry`, as the value of its register.
pub bit : ℕ → ℕ → Bool
bit portsc pos = not (bit_and portsc (shl 32 1 pos) == 0)

abbrev preserve_mask : ℕ
preserve_mask = 0x4f01ffe9

-- The value that `assert_bit` writes.
pub assert_bit : ℕ → ℕ → ℕ
assert_bit old pos = bit_or (bit_and old preserve_mask) (shl 32 1 pos)

pub is_enabled : ℕ → Bool
is_enabled portsc = bit portsc 9 && bit portsc 0 && bit portsc 1 && not (bit portsc 4)

-- The cases of `port_speed`.
abbrev speed_of : ℕ → UsbMode
speed_of v =
    if v == 1
    then full_speed
    else if v == 2
    then low_speed
    else if v == 3
    then high_speed
    else if v == 4
    then super_speed
    else unknown v

pub port_speed : ℕ → UsbMode
port_speed portsc = speed_of (extract_bits 32 portsc 10 4)

abbrev packet_size : UsbMode → Result ℕ
packet_size full_speed = ok 8
packet_size low_speed = ok 8
packet_size high_speed = ok 64
packet_size super_speed = ok 512
packet_size (unknown id) = err "unknown Protocol Speed ID"

pub max_packet_size : ℕ → Result ℕ
max_packet_size portsc = packet_size (port_speed portsc)

-- `PortSc::new`: the addresses of the port registers, four words apart.
abbrev port_addresses : ℕ → ℕ → List ℕ
port_addresses base zero = []
port_addresses base (suc n) = base ∷ port_addresses (base + 16) n

pub port_registers : ℕ → CapabilityRegisters → List ℕ
port_registers bar0 r = port_addresses (bar0 + r.caplength + 0x400) (num_of_ports r)

-- `entries.get(port.wrapping_sub(1))`
pub get_port : List ℕ → ℕ → Option ℕ
get_port entries port = if port == 0 then none else get_elem? entries (port - 1)

-- The doorbells of `setup_xhc_registers`: one more than there are ports.
abbrev doorbell_addresses : ℕ → ℕ → List ℕ
doorbell_addresses base zero = []
doorbell_addresses base (suc n) = base ∷ doorbell_addresses (base + 4) n

pub doorbell_registers : ℕ → CapabilityRegisters → List ℕ
doorbell_registers bar0 r = doorbell_addresses (bar0 + r.dboff) (num_of_ports r + 1)

-- `Doorbell::notify`: the value that is written.
pub notify : ℕ → ℕ → ℕ
notify target task = bit_or target (shl 32 task 16)

-- `notify_ep`: the doorbell's address and value, and the status that is written.
pub notify_ep : List ℕ → ℕ → ℕ → ℕ → Result (ℕ × ℕ × ℕ)
notify_ep doorbells slot dci usbsts = do
  db ← ok_or (get_elem? doorbells slot) "Invalid slot"
  if ltb dci 256
      then ok (db, notify dci 0, bit_and usbsts (bit_not 32 0x1c))
      else err "dci out of range"

-- `set_output_context` of the table of 255 contexts: `slot - 1` underflows at 0.
pub set_output_context : List ℕ → ℕ → ℕ → Result (List ℕ)
set_output_context context slot output_context =
    if slot == 0
    then panic "attempt to subtract with overflow"
    else if ltb (slot - 1) (length context)
    then ok (set context (slot - 1) output_context)
    else panic "index out of bounds"

-- `supports`, for the vendor and the device.
pub supports : ℕ → ℕ → Bool
supports vendor device =
    vendor == 0x1b36 && device == 0x000d
    || vendor == 0x8086 && device == 0x31a8
    || vendor == 0x8086 && device == 0x02ed
    || vendor == 0x8086 && device == 0x9d2f
