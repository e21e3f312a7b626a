-- ===== src/Xhci/Regs/Laws.antt =====
-- What the register operations of src/xhci.rs come to.
use mushix.Prelude.{
  ℕ, zero, suc, ◌≤◌, List, length, get_or, get_elem?-eq-get_or, get_elem?_of_le, lt→ltb, ◌+◌, ◌-◌,
  ◌*◌, ◌^◌, ◌<◌, ◌≡◌, ◌∙◌, ap, refl, arith, bit_and, get_elem?, none, some, AllBelow, below, ltb,
  leb, ◌==◌, if◌then◌else◌, set, ok, err, panic,
}
use mushix.Word.{bit_not}
use mushix.Xhci.Regs.{
  CapabilityRegisters, num_of_ports, OperationalRegisters, page_size, port_addresses,
  port_registers, get_port, notify, notify_ep, max_packet_size, packet_size, port_speed,
  set_output_context,
}
use mushix.Xhci.Context.{UsbMode, unknown, full_speed, low_speed, high_speed, super_speed, psi}

abbrev SizeAt : OperationalRegisters → ℕ → Type 0
SizeAt r k = page_size (record r { pagesize = 2 ^ k }) ≡ ok (2 ^ (k + 12))

-- The page size of a register with exactly one of the low sixteen bits set, bit k, is 2 ^ k times
-- 4096.
page_size_lem :
    (r : OperationalRegisters) (k : ℕ)
    → k < 16
    → r.pagesize ≡ 2 ^ k
    → page_size r ≡ ok (2 ^ (k + 12))
unfolding page_size
page_size_lem r k h e = rw (ap (λ p. page_size (record r { pagesize = p })) e) (each k h)
  where
    all : AllBelow 16 (SizeAt r)
    all = (
      refl,
      (
        refl,
        (
          refl,
          (
            refl,
            (
              refl,
              (
                refl,
                (refl, (refl, (refl, (refl, (refl, (refl, (refl, (refl, (refl, (refl, tt)))))))))),
              ),
            ),
          ),
        ),
      ),
    )

    each : (k : ℕ) → k < 16 → SizeAt r k
    each k h = below 16 (SizeAt r) all k h

module _ (doorbells : List ℕ) (slot dci usbsts : ℕ) where
  pub notify_ep-found :
      slot < length doorbells
      → dci < 256
      → notify_ep doorbells slot dci usbsts
        ≡ ok (get_or doorbells slot 0, notify dci 0, bit_and usbsts (bit_not 32 0x1c))
  unfolding notify_ep
  notify_ep-found h hd = rw (get_elem?-eq-get_or doorbells slot 0 h, lt→ltb dci 256 hd) refl

  pub notify_ep-err :
      length doorbells ≤ slot → notify_ep doorbells slot dci usbsts ≡ err "Invalid slot"
  unfolding notify_ep
  notify_ep-err h = rw (get_elem?_of_le doorbells slot h) refl

port_at :
    (base n i : ℕ)
    → get_elem? (port_addresses base n) i ≡ (if ltb i n then some (base + 16 * i) else none)
port_at base zero i = ground arith
port_at base (suc n) zero = ground arith
port_at base (suc n) (suc i) = port_at (base + 16) n i ∙ ground arith

-- Port numbers run from 1 to the number of ports: the register of port `p` is `p - 1` times sixteen
-- bytes into the port registers, and 0 or a number above them has none.
get_port_lem :
    (bar0 : ℕ) (r : CapabilityRegisters) (port : ℕ)
    → get_port (port_registers bar0 r) port ≡ (
        if port == 0
        then none
        else if leb port (num_of_ports r)
        then some (bar0 + r.caplength + 0x400 + 16 * (port - 1))
        else none)
unfolding get_port port_registers
get_port_lem bar0 r port =
    rw (port_at (bar0 + r.caplength + 0x400) (num_of_ports r) (port - 1)) (ground arith)

-- A speed with a packet size is one of the four known ones.
pub max_packet_size-known :
    (portsc : ℕ) {size : ℕ}
    → max_packet_size portsc ≡ ok size
    → (psi (port_speed portsc) < 16) × (size < 2 ^ 16)
unfolding max_packet_size
max_packet_size-known portsc {size} h = known (port_speed portsc) h
  where
    known : (mode : UsbMode) → packet_size mode ≡ ok size → (psi mode < 16) × (size < 2 ^ 16)
    known (unknown id) h = cc
    known full_speed h = ground arith
    known low_speed h = ground arith
    known high_speed h = ground arith
    known super_speed h = ground arith

-- The table of 255 contexts has a place for each slot but 0.
pub set_output_context_lem :
    (contexts : List ℕ) (slot output_context : ℕ)
    → length contexts ≡ 255
    → slot < 256
    → set_output_context contexts slot output_context ≡ (
        if slot == 0
        then panic "attempt to subtract with overflow"
        else ok (set contexts (slot - 1) output_context))
unfolding set_output_context
set_output_context_lem contexts slot output_context h hs = ground (arith, h)
