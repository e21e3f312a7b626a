-- ===== src/Xhci/Identify/Served.antt =====
-- A device that answers each GET_DESCRIPTOR with the bytes of its descriptor.
use mushix.Prelude.{
  ℕ, zero, suc, ◌^◌, ◌<◌, ◌≡◌, refl, sym, ap, ◌∙◌, arith, List, [], ◌∷◌, ◌++◌, length, take, get_or,
  replicate, get_or-replicate, lt→ltb, ok,
}
use mushix.Xhci.Trb.{transfer_result_ok}
use mushix.Xhci.Command.Push.{IsCommandRing}
use mushix.Xhci.Command.Ahead.{slot_ahead}
use mushix.Xhci.Control.{
  Xhc, Endpoint, UsbDescriptorType, desc_number, received, request_descriptor,
}
use mushix.Xhci.Control.Requests.{request_descriptor_lem, descriptor_sent}

-- The slot has a doorbell, and the device answers a request with a success and with the first
-- bytes of its descriptor, at most as many as were asked for. `content` takes the type, the index
-- and the language.
pub record IsServed (xhc : Xhc) (slot : ℕ) (content : ℕ → ℕ → ℕ → List ℕ) : Type 0 where
  pub bell : slot < length xhc.doorbell_regs
  pub succeeds :
      (e : Endpoint) (t : UsbDescriptorType) (i lang buf len : ℕ)
      → i < 2 ^ 8
      → lang < 2 ^ 16
      → len < 2 ^ 16
      → transfer_result_ok
          (xhc.device (descriptor_sent e t i lang buf len) (slot_ahead e.ring 1)).event
        ≡ ok tt
  pub brings :
      (e : Endpoint) (t : UsbDescriptorType) (i lang buf len : ℕ)
      → i < 2 ^ 8
      → lang < 2 ^ 16
      → len < 2 ^ 16
      → (xhc.device (descriptor_sent e t i lang buf len) (slot_ahead e.ring 1)).incoming
        ≡ take len (content (desc_number t) i lang)

take-take-append : (n : ℕ) (xs ys : List ℕ) → take n (take n xs ++ ys) ≡ take n (xs ++ ys)
take-take-append zero xs ys = refl
take-take-append (suc n) [] ys = refl
take-take-append (suc n) (x ∷ xs) ys = ap (λ zs. x ∷ zs) (take-take-append n xs ys)

pub received_whole : (n : ℕ) (xs : List ℕ) → length xs ≡ n → received n xs ≡ xs
received_whole n xs h =
    ap (λ (k : ℕ). take k (xs ++ replicate n 0)) (sym h) ∙ all xs (replicate n 0)
  where
    all : (xs ys : List ℕ) → take (length xs) (xs ++ ys) ≡ xs
    all [] ys = refl
    all (x ∷ xs) ys = ap (λ zs. x ∷ zs) (all xs ys)

pub get_or-received : (n i : ℕ) (xs : List ℕ) → i < n → get_or (received n xs) i 0 ≡ get_or xs i 0
get_or-received n i xs h = get_or-take n i (xs ++ replicate n 0) h ∙ padded i xs
  where
    get_or-take : (n i : ℕ) (xs : List ℕ) → i < n → get_or (take n xs) i 0 ≡ get_or xs i 0
    get_or-take zero i xs h = absurd (omega (arith, h))
    get_or-take (suc n) i [] h = refl
    get_or-take (suc n) zero (x ∷ xs) h = refl
    get_or-take (suc n) (suc i) (x ∷ xs) h = get_or-take n i xs (omega (arith, h))

    padded : (i : ℕ) (xs : List ℕ) → get_or (xs ++ replicate n 0) i 0 ≡ get_or xs i 0
    padded i [] = get_or-replicate n i 0
    padded zero (x ∷ xs) = refl
    padded (suc i) (x ∷ xs) = padded i xs

module _ (xhc : Xhc) (slot : ℕ) (content : ℕ → ℕ → ℕ → List ℕ) (s : IsServed xhc slot content)
    (e : Endpoint) (v : IsCommandRing e.ring) where
  -- The state behind a request, and what it gave.
  pub request-IsServed :
      (t : UsbDescriptorType) (i lang buf len : ℕ)
      → i < 2 ^ 8
      → lang < 2 ^ 16
      → len < 2 ^ 16
      → (e' : Endpoint) × (request_descriptor xhc slot t i lang buf len e
          ≡ (ok (received len (content (desc_number t) i lang)), e'))
        × IsCommandRing e'.ring
  request-IsServed t i lang buf len hi hl hn =
      let (ring, runs, ahead) = request_descriptor_lem xhc slot e v t i lang buf len in
      (
        record { ring = ring; sent = descriptor_sent e t i lang buf len },
        rw
            (
              runs,
              lt→ltb slot (length xhc.doorbell_regs) s.bell,
              s.succeeds e t i lang buf len hi hl hn,
              s.brings e t i lang buf len hi hl hn,
            )
            (ap
              (λ (bytes : List ℕ).
                (ok bytes, record { ring = ring; sent = descriptor_sent e t i lang buf len }))
              (take-take-append len (content (desc_number t) i lang) (replicate len 0))),
        ahead.good,
      )
