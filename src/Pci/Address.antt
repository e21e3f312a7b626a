-- ===== src/Pci/Address.antt =====
-- Bus-device-function numbers.
use mushix.Prelude.{
  ℕ, ◌+◌, ◌*◌, ◌/◌, ◌%◌, ◌^◌, ◌<◌, ◌≤◌, ◌≡◌, refl, arith, bit_or, ◌&&◌, ◌⊎◌, inl, inr, dec_lt,
  panic, ltb, if◌then◌else◌, none, some, Result, ok, err, lt→ltb, ge→ltb,
}
use mushix.Word.{shl}
use mushix.Word.Split.{
  bit_and-split, bit_or-split, bit_and-zero, bit_and-ones, bit_or-zero, zero-bit_or,
}
use mushix.Pci.{new, bus, device, function, next}

id_lem :
    (b d f : ℕ)
    → b < 256
    → d < 32
    → f < 8
    → bit_or (bit_or (shl 64 b 8) (shl 64 d 3)) (shl 64 f 0) ≡ b * 256 + d * 8 + f
id_lem b d f hb hd hf = ground (
  arith,
  bit_or-split 8 b 0 0 (d * 8),
  bit_or-split 3 (b * 32 + d) 0 0 f,
  bit_or-zero b,
  zero-bit_or (d * 8),
  bit_or-zero (b * 32 + d),
  zero-bit_or f,
)

bus_lem : (id : ℕ) → id < 2 ^ 16 → bus id ≡ id / 256
unfolding bus
bus_lem id h = ground (
  arith,
  bit_and-split 8 (id / 256) (id % 256) 255 0,
  bit_and-ones 8 (id / 256),
  bit_and-zero (id % 256),
)

device_lem : (id : ℕ) → id < 2 ^ 16 → device id ≡ id % 256 / 8
unfolding device
device_lem id h = ground (
  arith,
  bit_and-split 8 (id / 256) (id % 256) 0 0xf8,
  bit_and-zero (id / 256),
  bit_and-split 3 (id % 256 / 8) (id % 256 % 8) 31 0,
  bit_and-ones 5 (id % 256 / 8),
  bit_and-zero (id % 256 % 8),
)

function_lem : (id : ℕ) → function id ≡ id % 8
unfolding function
function_lem id =
    ground
      (arith, bit_and-split 3 (id / 8) (id % 8) 0 7, bit_and-zero (id / 8), bit_and-ones 3 (id % 8))

new-eq :
    (b d f : ℕ)
    → new b d f ≡ (
        if ltb b 256 && ltb d 32 && ltb f 8
        then ok (b * 256 + d * 8 + f)
        else err "PCI bus device functikon out of range")
unfolding new
new-eq b d f = ground (arith, id_lem b d f)

-- What `BusDeviceFunction::new` gives: an id of 16 bits that gives the arguments back.
abbrev pub IsId : ℕ → ℕ → ℕ → Result ℕ → Type 0
IsId b d f (ok id) =
    (b < 256)
    × (d < 32)
    × (f < 8)
    × (id < 2 ^ 16)
    × (bus id ≡ b)
    × (device id ≡ d)
    × (function id ≡ f)
IsId b d f (err e) = (256 ≤ b) ⊎ (32 ≤ d) ⊎ (8 ≤ f)
IsId b d f (panic e) = ◌≡◌ {A = ℕ} 0 1

-- `BusDeviceFunction::new` fails only for a bus from 256, a device from 32 or a function from 8 on,
-- and otherwise gives an id of 16 bits whose bus, device and function are the arguments.
pub new_lem : (b d f : ℕ) → IsId b d f (new b d f)
new_lem b d f = rw (new-eq b d f) (by_ranges (dec_lt b 256) (dec_lt d 32) (dec_lt f 8))
  where
    in_range : b < 256 → d < 32 → f < 8 → IsId b d f (ok (b * 256 + d * 8 + f))
    in_range hb hd hf = (
      hb,
      hd,
      hf,
      omega (arith, hb, hd, hf),
      omega (arith, bus_lem (b * 256 + d * 8 + f), hb, hd, hf),
      omega (arith, device_lem (b * 256 + d * 8 + f), hb, hd, hf),
      omega (arith, function_lem (b * 256 + d * 8 + f), hb, hd, hf),
    )

    by_ranges :
        Dec (b < 256)
        → Dec (d < 32)
        → Dec (f < 8)
        → IsId b d f (
            if ltb b 256 && ltb d 32 && ltb f 8
            then ok (b * 256 + d * 8 + f)
            else err "PCI bus device functikon out of range")
    by_ranges (yes hb) (yes hd) (yes hf) =
        rw (lt→ltb b 256 hb, lt→ltb d 32 hd, lt→ltb f 8 hf) (in_range hb hd hf)
    by_ranges (no hb) yd yf = rw (ge→ltb b 256 hb) (inl (omega (arith, hb)))
    by_ranges (yes hb) (no hd) yf =
        rw (lt→ltb b 256 hb, ge→ltb d 32 hd) (inr (inl (omega (arith, hd))))
    by_ranges (yes hb) (yes hd) (no hf) =
        rw (lt→ltb b 256 hb, lt→ltb d 32 hd, ge→ltb f 8 hf) (inr (inr (omega (arith, hf))))

-- The iterator gives each id of 16 bits as it is and moves on by one, and ends behind the last.
pub next_lem : (n : ℕ) → n < 2 ^ 16 → (next n ≡ (some n, n + 1)) × (next (2 ^ 16) ≡ (none, 2 ^ 16))
unfolding next
next_lem n h = (ground (arith, h), refl)
