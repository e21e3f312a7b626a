-- ===== src/Xhci/Identify/Reads.antt =====
-- What each request of src/xhci.rs gives against a device that answers with its descriptors.
use mushix.Prelude.{
  ℕ, zero, suc, ◌+◌, ◌*◌, ◌^◌, ◌<◌, ◌≤◌, ◌≡◌, ◌≢◌, refl, ap, ap₂, ◌∙◌, inl, inr, Bool-cases, arith,
  List, [], ◌∷◌, ◌++◌, length, take, drop, get_or, replicate, Option, none, some, All, ◌==◌,
  if◌then◌else◌, ok,
}
use mushix.Bytes.{from_le_16}
use mushix.Xhci.Descriptor.Iterate.{IsDescriptor, concat, descriptors_of, collect_lem}
use mushix.Xhci.Command.Push.{IsCommandRing}
use mushix.Xhci.Control.{Xhc, Endpoint, device, config, string, received}
use mushix.Xhci.Identify.{
  read_device, request_device_descriptor, without_zeroes, words, request_string_descriptor,
  request_string_descriptor_zero, request_config_descriptor_and_rest, optional_string,
}
use mushix.Xhci.Identify.Served.{IsServed, request-IsServed, get_or-received, received_whole}

-- The descriptor of a string: ASCII characters in UTF-16.
abbrev pub utf_16 : List ℕ → List ℕ
utf_16 [] = []
utf_16 (c ∷ cs) = c ∷ 0 ∷ utf_16 cs

abbrev pub string_bytes : List ℕ → List ℕ
string_bytes text = (2 + 2 * length text) ∷ 3 ∷ utf_16 text

no_zeroes : (n m : ℕ) → without_zeroes (take n (replicate m 0)) ≡ []
no_zeroes zero m = refl
no_zeroes (suc n) zero = refl
no_zeroes (suc n) (suc m) = no_zeroes n m

without_zeroes-utf_16 :
    (n m : ℕ) (text : List ℕ)
    → All (λ c. (0 < c) × (c < 128)) text
    → 2 * length text ≤ n
    → without_zeroes (take n (utf_16 text ++ replicate m 0)) ≡ text
without_zeroes-utf_16 n m [] plain h = no_zeroes n m
without_zeroes-utf_16 zero m (c ∷ cs) plain h = absurd (omega (arith, h))
without_zeroes-utf_16 (suc zero) m (c ∷ cs) plain h = absurd (omega (arith, h))
without_zeroes-utf_16 (suc (suc n)) m (c ∷ cs) plain h =
    ground (arith, plain.0.0, without_zeroes-utf_16 n m cs plain.1 (omega (arith, h)))

received-string_bytes :
    (n : ℕ) (text : List ℕ)
    → All (λ c. (0 < c) × (c < 128)) text
    → 2 * length text ≤ n
    → without_zeroes (drop 2 (received (suc (suc n)) (string_bytes text))) ≡ text
received-string_bytes n text plain h = without_zeroes-utf_16 n (suc (suc n)) text plain h

-- The descriptors of a device: its own `b`, its strings by their numbers, in the language whose number
-- has the bytes `l0` and `l1`, and the descriptors `cs` of its configuration, whose first holds
-- their total length.
pub record Describes (content : ℕ → ℕ → ℕ → List ℕ) (b : List ℕ) (text : ℕ → List ℕ) (l0 l1 : ℕ)
    (cs : List (List ℕ)) : Type 0 where
  pub device_bytes : content 1 0 0 ≡ b
  pub device_size : length b ≡ 18
  pub vendor : get_or b 14 0 < 2 ^ 8
  pub product : get_or b 15 0 < 2 ^ 8
  pub serial : get_or b 16 0 < 2 ^ 8
  pub languages : content 3 0 0 ≡ 4 ∷ 3 ∷ l0 ∷ l1 ∷ []
  pub language : l0 + l1 * 2 ^ 8 < 2 ^ 16
  pub strings : (i : ℕ) → i ≢ 0 → i < 2 ^ 8 → content 3 i (l0 + l1 * 2 ^ 8) ≡ string_bytes (text i)
  pub plain : (i : ℕ) → All (λ c. (0 < c) × (c < 128)) (text i)
  pub short : (i : ℕ) → length (text i) ≤ 63
  pub config_bytes : content 2 0 0 ≡ concat cs
  pub whole : All IsDescriptor cs
  pub total : from_le_16 (concat cs) 2 ≡ length (concat cs)
  pub total_size : length (concat cs) < 2 ^ 16

-- A string by its number, where 0 is none.
abbrev pub named : (ℕ → List ℕ) → ℕ → Option (List ℕ)
named text i = if i == 0 then none else some (text i)

module _ {content : ℕ → ℕ → ℕ → List ℕ} {b : List ℕ} {text : ℕ → List ℕ} {l0 l1 : ℕ}
    {cs : List (List ℕ)} (d : Describes content b text l0 l1 cs) (xhc : Xhc) (slot : ℕ)
    (s : IsServed xhc slot content) (e : Endpoint) (v : IsCommandRing e.ring) where
  pub request_device_descriptor_lem :
      (buf : ℕ)
      → (e' : Endpoint) × (request_device_descriptor xhc slot buf e ≡ (ok (read_device b), e'))
        × IsCommandRing e'.ring
  unfolding request_device_descriptor
  request_device_descriptor_lem buf =
      let (e', runs, good) =
        request-IsServed xhc slot content s e v device 0 0 buf 18 (omega arith) (omega arith)
          (omega arith) in
      (
        e',
        rw runs (
            ap (λ (bytes : List ℕ). (ok (read_device bytes), e'))
              (ap (received 18) d.device_bytes ∙ received_whole 18 b d.device_size)),
        good,
      )

  pub request_string_descriptor_zero_lem :
      (buf : ℕ)
      → (e' : Endpoint) × (zero_words : List ℕ) × (request_string_descriptor_zero xhc slot buf e
          ≡ (ok zero_words, e'))
        × (get_or zero_words 1 0 ≡ l0 + l1 * 2 ^ 8)
        × IsCommandRing e'.ring
  unfolding request_string_descriptor_zero
  request_string_descriptor_zero_lem buf =
      let (e', runs, good) =
        request-IsServed xhc slot content s e v string 0 0 buf 16 (omega arith) (omega arith)
          (omega arith) in
      (e', words (received 16 (content 3 0 0)), rw runs refl, rw d.languages refl, good)

  pub optional_string_lem :
      (buf i : ℕ)
      → i < 2 ^ 8
      → (e' : Endpoint) × (optional_string xhc slot buf (l0 + l1 * 2 ^ 8) i e
          ≡ (ok (named text i), e'))
        × IsCommandRing e'.ring
  unfolding optional_string request_string_descriptor
  optional_string_lem buf i hi = elim (Bool-cases (i == 0)) [
    | inl no_text ↦ (e, rw no_text refl, v)
    | inr has_text ↦
        let (e', runs, good) =
          request-IsServed xhc slot content s e v string i (l0 + l1 * 2 ^ 8) buf 128 hi d.language
            (omega arith) in
        (
          e',
          rw (has_text, runs)
              (ap (λ (t : List ℕ). (ok (some t), e'))
                (ap (λ (bytes : List ℕ). without_zeroes (drop 2 (received 128 bytes)))
                    (d.strings i (ground arith) hi)
                  ∙ received-string_bytes 126 (text i) (d.plain i) (omega (arith, d.short i)))),
          good,
        )
  ]

  -- Against a device that answers requests with its descriptors, the driver reads the whole
  -- configuration of the total length that the first nine bytes hold, and gets the descriptors
  -- that the device has, in their order; one more step of the iterator than there are descriptors
  -- is enough, and the ring stays well formed.
  pub request_config_descriptor_and_rest_lem :
      (fuel config_buf buf : ℕ)
      → length cs < fuel
      → (e' : Endpoint) × (request_config_descriptor_and_rest fuel xhc slot config_buf buf e
          ≡ (ok (some (descriptors_of cs)), e'))
        × IsCommandRing e'.ring
  unfolding request_config_descriptor_and_rest
  request_config_descriptor_and_rest_lem fuel config_buf buf h =
      let (e1, first, good1) =
        request-IsServed xhc slot content s e v config 0 0 config_buf 9 (omega arith) (omega arith)
          (omega arith) in
      let size : from_le_16 (received 9 (content 2 0 0)) 2 ≡ length (concat cs) =
        ap₂ (λ (x y : ℕ). x + y * 2 ^ 8) (get_or-received 9 2 (content 2 0 0) (omega arith))
          (get_or-received 9 3 (content 2 0 0) (omega arith))
        ∙ ap (λ (bytes : List ℕ). from_le_16 bytes 2) d.config_bytes
        ∙ d.total in
      let (e2, second, good2) =
        request-IsServed xhc slot content s e1 good1 config 0 0 buf (length (concat cs))
          (omega arith) (omega arith) d.total_size in
      (
        e2,
        rw (first, size, second, d.config_bytes, received_whole _ (concat cs) refl)
            (rw (collect_lem fuel [] cs d.whole h) refl),
        good2,
      )
