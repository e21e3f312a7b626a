-- ===== src/Xhci/Descriptor/Iterate.antt =====
-- `DescriptorIterator` on a buffer of whole descriptors, and the endpoints that are picked.
use mushix.Prelude.{
  ℕ, zero, suc, ◌+◌, ◌<◌, ◌≤◌, ◌≡◌, ◌≢◌, ◌∙◌, ap, ap₂, sym, refl, arith, true, false, List, [], ◌∷◌,
  ◌++◌, length, length-append, drop, get_or, get_or-append_left, none, some, ltb, leb, ◌==◌,
  if◌then◌else◌, All, ok,
}
use mathlib.Core.List.{append_assoc}
use mushix.Xhci.Descriptor.{
  UsbDescriptor, unknown, copy_from_slice, read_config, read_interface, read_endpoint, describe,
  next, collect, byte,
}

-- The bytes of one descriptor: its length in front, and not shorter than its type asks for.
pub record IsDescriptor (c : List ℕ) : Type 0 where
  pub header : 2 ≤ length c
  pub len : get_or c 0 0 ≡ length c
  pub config_len : get_or c 1 0 ≡ 2 → 9 ≤ length c
  pub interface_len : get_or c 1 0 ≡ 4 → 9 ≤ length c
  pub endpoint_len : get_or c 1 0 ≡ 5 → 7 ≤ length c

-- The descriptor that the bytes hold.
abbrev pub descriptor_of : List ℕ → UsbDescriptor
descriptor_of c =
    let desc_type = byte c 1 in
    if desc_type == 2
    then read_config c
    else if desc_type == 4
    then read_interface c
    else if desc_type == 5
    then read_endpoint c
    else unknown (byte c 0) desc_type

abbrev pub concat : List (List ℕ) → List ℕ
concat [] = []
concat (c ∷ cs) = c ++ concat cs

abbrev pub descriptors_of : List (List ℕ) → List UsbDescriptor
descriptors_of [] = []
descriptors_of (c ∷ cs) = descriptor_of c ∷ descriptors_of cs

drop-append : (xs ys : List ℕ) → drop (length xs) (xs ++ ys) ≡ ys
drop-append [] ys = refl
drop-append (x ∷ xs) ys = drop-append xs ys

module _ (c more : List ℕ) where
  same_byte : (n i : ℕ) → n ≤ length c → i < n → get_or (c ++ more) i 0 ≡ get_or c i 0
  same_byte n i h hi = get_or-append_left c more i 0 (omega (arith, h, hi))

  long_enough : (n : ℕ) → n ≤ length c → ltb (length (c ++ more)) n ≡ false
  long_enough n h = ground (arith, length-append c more)

  config_lem : 9 ≤ length c → copy_from_slice 9 read_config (c ++ more) ≡ some (read_config c)
  config_lem h =
      rw
        (
          long_enough 9 h,
          same_byte 9 2 h (omega arith),
          same_byte 9 3 h (omega arith),
          same_byte 9 4 h (omega arith),
          same_byte 9 5 h (omega arith),
          same_byte 9 6 h (omega arith),
          same_byte 9 7 h (omega arith),
          same_byte 9 8 h (omega arith),
        )
        refl

  interface_lem :
      9 ≤ length c → copy_from_slice 9 read_interface (c ++ more) ≡ some (read_interface c)
  interface_lem h =
      rw
        (
          long_enough 9 h,
          same_byte 9 2 h (omega arith),
          same_byte 9 3 h (omega arith),
          same_byte 9 4 h (omega arith),
          same_byte 9 5 h (omega arith),
          same_byte 9 6 h (omega arith),
          same_byte 9 7 h (omega arith),
          same_byte 9 8 h (omega arith),
        )
        refl

  endpoint_lem : 7 ≤ length c → copy_from_slice 7 read_endpoint (c ++ more) ≡ some (read_endpoint c)
  endpoint_lem h =
      rw
        (
          long_enough 7 h,
          same_byte 7 2 h (omega arith),
          same_byte 7 3 h (omega arith),
          same_byte 7 4 h (omega arith),
          same_byte 7 5 h (omega arith),
          same_byte 7 6 h (omega arith),
        )
        refl

  -- More bytes behind a descriptor change nothing.
  describe_lem : IsDescriptor c → describe (c ++ more) ≡ some (descriptor_of c)
  unfolding describe
  describe_lem v =
      rw (same_byte 2 1 v.header (omega arith), same_byte 2 0 v.header (omega arith))
        (ground (arith, as_config, as_interface, as_endpoint))
    where
      as_config :
          get_or c 1 0 ≡ 2 → copy_from_slice 9 read_config (c ++ more) ≡ some (read_config c)
      as_config e = config_lem (v.config_len e)

      as_interface :
          get_or c 1 0 ≡ 4 → copy_from_slice 9 read_interface (c ++ more) ≡ some (read_interface c)
      as_interface e = interface_lem (v.interface_len e)

      as_endpoint :
          get_or c 1 0 ≡ 5 → copy_from_slice 7 read_endpoint (c ++ more) ≡ some (read_endpoint c)
      as_endpoint e = endpoint_lem (v.endpoint_len e)

-- With two bytes left the item is what they describe, and the index moves by the first of them.
next_at :
    (before rest : List ℕ) (d : UsbDescriptor)
    → 2 ≤ length rest
    → describe rest ≡ some d
    → next (before ++ rest) (length before) ≡ ok (some d, length before + get_or rest 0 0)
unfolding next
next_at before rest d h e =
    rw (first, second, drop-append before rest, e)
      (ap (λ b. ok (some d, length before + get_or b 0 0)) (drop-append before rest))
  where
    first : leb (length (before ++ rest)) (length before) ≡ false
    first = ground (arith, length-append before rest)

    second : leb (length (before ++ rest)) (length before + 1) ≡ false
    second = ground (arith, length-append before rest)

next_lem :
    (before c more : List ℕ)
    → IsDescriptor c
    → next (before ++ (c ++ more)) (length before)
      ≡ ok (some (descriptor_of c), length before + length c)
next_lem before c more v =
    next_at before (c ++ more) (descriptor_of c) (omega (arith, length-append c more, v.header))
      (describe_lem c more v)
    ∙ ap (λ n. ok (some (descriptor_of c), length before + n))
        (same_byte c more 2 0 v.header (omega arith) ∙ v.len)

next_end : (before : List ℕ) → next (before ++ []) (length before) ≡ ok (none, length before)
unfolding next
next_end before = rw over refl
  where
    over : leb (length (before ++ [])) (length before) ≡ true
    over = ground (arith, length-append before [])

-- From the index at which whole descriptors start, to the end of the buffer, the iterator gives
-- each of them in order, as its type says, and then ends: one more step than there are
-- descriptors is enough.
pub collect_lem :
    (fuel : ℕ) (before : List ℕ) (cs : List (List ℕ))
    → All IsDescriptor cs
    → length cs < fuel
    → collect fuel (before ++ concat cs) (length before) ≡ ok (some (descriptors_of cs))
unfolding collect
collect_lem zero before cs v h = absurd (omega (arith, h))
collect_lem (suc fuel) before [] v h = rw (next_end before) refl
collect_lem (suc fuel) before (c ∷ cs) v h =
    let rest : collect fuel (before ++ (c ++ concat cs)) (length before + length c)
        ≡ ok (some (descriptors_of cs)) =
      ap₂ (λ buf n. collect fuel buf n) (sym (append_assoc before c (concat cs)))
        (sym (length-append before c))
      ∙ collect_lem fuel (before ++ c) cs v.1 (omega (arith, h)) in
    rw (next_lem before c (concat cs) v.0, rest) refl

of_no_type :
    (t : ℕ) (more : List ℕ) → t ≢ 2 → t ≢ 4 → t ≢ 5 → describe (0 ∷ t ∷ more) ≡ some (unknown 0 t)
unfolding describe
of_no_type t more h2 h4 h5 = ground arith

-- A descriptor of length 0 and of no known type is given again and again: the iterator does not
-- end, whatever the fuel.
pub collect-stuck :
    (fuel : ℕ) (before more : List ℕ)
    → (desc_type : ℕ) → desc_type ≢ 2
    → desc_type ≢ 4
    → desc_type ≢ 5
    → collect fuel (before ++ (0 ∷ desc_type ∷ more)) (length before) ≡ ok none
unfolding collect
collect-stuck zero before more t h2 h4 h5 = refl
collect-stuck (suc fuel) before more t h2 h4 h5 =
    rw (stays, collect-stuck fuel before more t h2 h4 h5) refl
  where
    stays : next (before ++ (0 ∷ t ∷ more)) (length before) ≡ ok (some (unknown 0 t), length before)
    stays =
        next_at before (0 ∷ t ∷ more) (unknown 0 t) (omega arith) (of_no_type t more h2 h4 h5)
        ∙ ap (λ n. ok (some (unknown 0 t), n)) (omega arith)
