-- ===== src/Console/Line.antt =====
-- One line of the hex dump of src/print.rs.
use mathlib.Core.List.{map, append_assoc, append-nil}
use mushix.Prelude.{
  ℕ, zero, suc, ◌+◌, ◌<◌, ◌≡◌, refl, sym, ap, ap₂, subst, ◌∙◌, arith, true, false, List, [], ◌∷◌,
  ◌++◌, length, take, set, length-append, length-set, ◌==◌, if◌then◌else◌,
}
use mushix.Console.{Dump, full_char, spaced, address, feed, feed_all}

abbrev pub hex_bytes : List ℕ → List ℕ
hex_bytes [] = []
hex_bytes (v ∷ vs) = spaced v ++ hex_bytes vs

-- A line of sixteen bytes.
abbrev pub full_line : ℕ → List ℕ → List ℕ
full_line offset bytes =
    address offset
    ++ hex_bytes bytes
    ++ (b' ' ∷ b'|' ∷ b' ' ∷ [])
    ++ map full_char bytes
    ++ (b'|' ∷ 10 ∷ [])

pub feed_all-append :
    (d : Dump) (xs ys : List ℕ) → feed_all d (xs ++ ys) ≡ feed_all (feed_all d xs) ys
unfolding feed_all
feed_all-append d [] ys = refl
feed_all-append d (x ∷ xs) ys = feed_all-append (feed d x) xs ys

hex_bytes-append : (xs ys : List ℕ) → hex_bytes (xs ++ ys) ≡ hex_bytes xs ++ hex_bytes ys
hex_bytes-append [] ys = refl
hex_bytes-append (x ∷ xs) ys =
    ap (λ (t : List ℕ). spaced x ++ t) (hex_bytes-append xs ys)
    ∙ sym (append_assoc (spaced x) (hex_bytes xs) (hex_bytes ys))

-- What is printed of a line that has begun with some bytes.
abbrev pub begun : ℕ → List ℕ → List ℕ
begun offset [] = []
begun offset (v ∷ vs) = address offset ++ hex_bytes (v ∷ vs)

begun-append :
    (offset : ℕ) (done : List ℕ) (v : ℕ)
    → address offset ++ hex_bytes (done ++ (v ∷ [])) ≡ begun offset (done ++ (v ∷ []))
begun-append offset [] v = refl
begun-append offset (d ∷ ds) v = refl

-- The loop within a line, behind the bytes `done`.
pub record At (d : Dump) (offset : ℕ) (out done : List ℕ) : Type 0 where
  pub index : d.i ≡ length done
  pub line_at : d.offset ≡ offset
  pub text : d.out ≡ out ++ begun offset done
  pub kept : take (length done) d.ascii ≡ done
  pub size : length d.ascii ≡ 16

take-set :
    (xs : List ℕ) (i v : ℕ) → i < length xs → take (i + 1) (set xs i v) ≡ take i xs ++ (v ∷ [])
take-set [] i v h = absurd (omega (arith, h))
take-set (x ∷ xs) zero v h = refl
take-set (x ∷ xs) (suc i) v h =
    ap (λ k. take k (x ∷ set xs i v)) {y = suc (i + 1)} (omega arith)
    ∙ ap (λ (zs : List ℕ). x ∷ zs) (take-set xs i v (omega (arith, h)))

take_all : (xs : List ℕ) (n : ℕ) → length xs ≡ n → take n xs ≡ xs
take_all [] zero h = refl
take_all [] (suc n) h = refl
take_all (x ∷ xs) zero h = absurd (omega (arith, h))
take_all (x ∷ xs) (suc n) h = ap (λ (zs : List ℕ). x ∷ zs) (take_all xs n (omega (arith, h)))

-- One more byte of a line.
text_next :
    (dout out : List ℕ) (i at offset : ℕ) (done : List ℕ) (v : ℕ)
    → dout ≡ out ++ begun offset done
    → i ≡ length done
    → at ≡ offset
    → dout ++ (if i == 0 then address at else []) ++ spaced v
      ≡ out ++ (address offset ++ hex_bytes (done ++ (v ∷ [])))
text_next dout out i at offset [] v p q r =
    let zero_index : (i == 0) ≡ true = ground arith in
    simp (zero_index, p, r, append_assoc, append-nil) refl
text_next dout out i at offset (d ∷ ds) v p q r =
    let later : (i == 0) ≡ false = ground arith in
    simp (later, p, append_assoc, append-nil, hex_bytes-append) refl

kept_next :
    (ascii : List ℕ) (i : ℕ) (done : List ℕ) (v : ℕ)
    → take (length done) ascii ≡ done
    → i ≡ length done
    → i < length ascii
    → take (length (done ++ (v ∷ []))) (set ascii i v) ≡ done ++ (v ∷ [])
kept_next ascii i done v p q h =
    ap (λ (k : ℕ). take k (set ascii i v)) {y = i + 1}
      (omega (arith, length-append done (v ∷ []), q))
    ∙ take-set ascii i v h
    ∙ ap (λ (k : ℕ). take k ascii ++ (v ∷ [])) q
    ∙ ap (λ (t : List ℕ). t ++ (v ∷ [])) p

feed-At :
    (d : Dump) (offset : ℕ) (out done : List ℕ) (v : ℕ)
    → At d offset out done
    → length done < 15
    → At (feed d v) offset out (done ++ (v ∷ []))
unfolding feed
feed-At d offset out done v a h =
    let open_line : (d.i + 1 == 16) ≡ false = ground (arith, a.index) in
    rw open_line (record {
      index = omega (arith, length-append done (v ∷ []), a.index);
      line_at = a.line_at;
      text =
          text_next d.out out d.i d.offset offset done v a.text a.index a.line_at
          ∙ ap (λ (t : List ℕ). out ++ t) (begun-append offset done v);
      kept = kept_next d.ascii d.i done v a.kept a.index (omega (arith, a.index, a.size));
      size = length-set d.ascii d.i v ∙ a.size;
    })

feed-full :
    (d : Dump) (offset : ℕ) (out done : List ℕ) (v : ℕ)
    → At d offset out done
    → length done ≡ 15
    → At (feed d v) (offset + 16) (out ++ full_line offset (done ++ (v ∷ []))) []
unfolding feed
feed-full d offset out done v a h =
    let closed_line : (d.i + 1 == 16) ≡ true = ground (arith, a.index) in
    let sixteen : length (done ++ (v ∷ [])) ≡ 16 = omega (arith, length-append done (v ∷ [])) in
    let line : set d.ascii d.i v ≡ done ++ (v ∷ []) =
      sym (take_all (set d.ascii d.i v) _ (length-set d.ascii d.i v ∙ a.size ∙ sym sixteen))
      ∙ kept_next d.ascii d.i done v a.kept a.index (omega (arith, a.index, a.size)) in
    rw closed_line (record {
      index = refl;
      line_at = omega (arith, a.line_at);
      text =
          ap₂
            (λ (t bytes : List ℕ).
              t ++ (b' ' ∷ b'|' ∷ b' ' ∷ []) ++ map full_char bytes ++ (b'|' ∷ 10 ∷ []))
            (text_next d.out out d.i d.offset offset done v a.text a.index a.line_at) line
          ∙ simp (append_assoc, append-nil) refl;
      kept = refl;
      size = length-set d.ascii d.i v ∙ a.size;
    })

pub feed_all-At :
    (d : Dump) (offset : ℕ) (out done vs : List ℕ)
    → At d offset out done
    → length done + length vs < 16
    → At (feed_all d vs) offset out (done ++ vs)
unfolding feed_all
feed_all-At d offset out done [] a h = rw (append-nil done) a
feed_all-At d offset out done (v ∷ vs) a h =
    subst (At (feed_all (feed d v) vs) offset out) (append_assoc done (v ∷ []) vs) (
      feed_all-At (feed d v) offset out (done ++ (v ∷ [])) vs
        (feed-At d offset out done v a (omega (arith, h)))
        (omega (arith, h, length-append done (v ∷ []))))

pub feed_all-full :
    (d : Dump) (offset : ℕ) (out done : List ℕ) (v : ℕ) (vs : List ℕ)
    → At d offset out done
    → length done + length (v ∷ vs) ≡ 16
    → At (feed_all d (v ∷ vs)) (offset + 16) (out ++ full_line offset (done ++ (v ∷ vs))) []
unfolding feed_all
feed_all-full d offset out done v [] a h = feed-full d offset out done v a (omega (arith, h))
feed_all-full d offset out done v (w ∷ vs) a h =
    subst
      (λ (line : List ℕ).
        At (feed_all (feed d v) (w ∷ vs)) (offset + 16) (out ++ full_line offset line) [])
      (append_assoc done (v ∷ []) (w ∷ vs))
      (feed_all-full (feed d v) offset out (done ++ (v ∷ [])) w vs
        (feed-At d offset out done v a (omega (arith, h)))
        (omega (arith, h, length-append done (v ∷ []))))

pub At-cast :
    {d d' : Dump} {offset offset' : ℕ} {out out' done : List ℕ}
    → d ≡ d'
    → offset ≡ offset'
    → out ≡ out'
    → At d offset out done
    → At d' offset' out' done
At-cast {d} {d'} {offset} {offset'} {out} {out'} {done} p q r a =
    subst (λ (e : Dump). At e offset' out' done) p
      (subst (λ (n : ℕ). At d n out' done) q (subst (λ (o : List ℕ). At d offset o done) r a))
