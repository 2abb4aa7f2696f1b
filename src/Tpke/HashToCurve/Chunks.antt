-- ===== src/Tpke/HashToCurve/Chunks.antt =====
-- The loops of hash_to_field2_bls12381 against the chunks of the expanded message
-- (tpke/src/hash_to_curve.rs).
use Prim.Native.Nat.{◌+◌, ◌*◌}
use nucypher_ferveo.Base.{
  ℕ, zero, suc, ◌<◌, ◌≤◌, ◌≡◌, refl, sym, ap, ◌∙◌, some, List, [], ◌∷◌, ◌++◌, arith,
}
use mathlib.Core.List.{reverse, append-nil}
use nucypher_ferveo.Base.Tests.{eq→==}
use nucypher_ferveo.Base.Lists.{
  length, get_elem?, get_elem?-lt, take, drop, replicate, length-drop, length-append,
}
use nucypher_ferveo.Subproduct.Circulant.{set?}
use nucypher_ferveo.Tpke.HashToCurve.{
  Curve, copy_bytes, element_length, fill_elements, hash_to_field2_bls12381, reverse_halves,
  htp_bls12381_g2,
}

-- Setting the element after the first ones.
set?-take :
    (j b : ℕ) (xs : List ℕ)
    → j < length xs
    → (ys : List ℕ) × (set? j b xs ≡ some ys)
      × (length ys ≡ length xs)
      × ((rest : List ℕ) → take (suc j) ys ++ rest ≡ take j xs ++ b ∷ rest)
unfolding set?
set?-take j b [] h = absurd (omega arith)
set?-take zero b (x ∷ xs) h = (b ∷ xs, refl, refl, λ rest. refl)
set?-take (suc j) b (x ∷ xs) h =
    let (ys, e, size, front) = set?-take j b xs (omega arith) in
    (x ∷ ys, rw e refl, ap suc size, λ rest. ap (◌∷◌ x) (front rest))

take-suc-drop :
    (o n : ℕ) (xs : List ℕ) {b : ℕ}
    → get_elem? xs o ≡ some b
    → take (suc n) (drop o xs) ≡ b ∷ take n (drop (suc o) xs)
take-suc-drop o n [] h = cc
take-suc-drop zero n (x ∷ xs) h = cc
take-suc-drop (suc o) n (x ∷ xs) h = take-suc-drop o n xs h

take-drop-append :
    (o n : ℕ) (xs ys : List ℕ) → o + n ≤ length xs → take n (drop o (xs ++ ys)) ≡ take n (drop o xs)
take-drop-append zero zero xs ys h = refl
take-drop-append zero (suc n) [] ys h = absurd (omega arith)
take-drop-append zero (suc n) (x ∷ xs) ys h =
    ap (◌∷◌ x) (take-drop-append zero n xs ys (omega arith))
take-drop-append (suc o) n [] ys h = absurd (omega arith)
take-drop-append (suc o) n (x ∷ xs) ys h = take-drop-append o n xs ys (omega arith)

copy_bytes-take :
    (okm : List ℕ) (offset : ℕ) (fd : List ℕ) (j left : ℕ)
    → j + left ≤ length fd
    → offset + j + left ≤ length okm
    → (fd' : List ℕ) × (copy_bytes okm offset fd j left ≡ some fd')
      × (length fd' ≡ length fd)
      × (take (j + left) fd' ≡ take j fd ++ take left (drop (offset + j) okm))
unfolding copy_bytes
copy_bytes-take okm offset fd j zero h g =
    (fd, refl, refl, ap (λ n. take n fd) {y = j} (omega arith) ∙ sym (append-nil (take j fd)))
copy_bytes-take okm offset fd j (suc left) h g =
    let (b, e) = get_elem?-lt okm (offset + j) (omega (arith, g)) in
    let (fd1, s, size1, front) = set?-take j b fd (omega (arith, h)) in
    let (fd', c, size, content) =
      copy_bytes-take okm offset fd1 (suc j) left (omega (arith, h, size1)) (omega (arith, g)) in
    (
      fd',
      rw (e, s) c,
      size ∙ size1,
      ap (λ n. take n fd') (omega arith)
          ∙ content
          ∙ front _
          ∙ ap (λ r. take j fd ++ r)
              (ap (λ o. b ∷ take left (drop o okm)) {y = suc (offset + j)} (omega arith)
                ∙ sym (take-suc-drop (offset + j) left okm e)),
    )

module _ (C : Curve) where
  open C use {Fp, Fp2, Point, ArkPoint, fp_of, new_fps, map2point}

  -- One of the two copies of the loop, at a chunk of the expanded bytes.
  copied :
      (bytes rest fd : List ℕ) (offset l : ℕ)
      → offset + l ≤ length bytes
      → l ≤ length fd
      → (fd' : List ℕ) × (copy_bytes (bytes ++ rest) offset fd 0 l ≡ some fd')
        × (length fd' ≡ length fd)
        × (take l fd' ≡ take l (drop offset bytes))
  copied bytes rest fd offset l h g =
      let (fd', c, size, content) =
        copy_bytes-take (bytes ++ rest) offset fd 0 l (omega (arith, g))
          (omega (arith, h, length-append bytes rest)) in
      (
        fd',
        c,
        size,
        ap (λ n. take n fd') {y = 0 + l} (omega arith)
            ∙ content
            ∙ ap (λ o. take l (drop o (bytes ++ rest))) {y = offset} (omega arith)
            ∙ take-drop-append offset l bytes rest h,
      )

  -- The field element of a chunk of l bytes, and the element of the extension of two chunks.
  abbrev pub chunk : ℕ → List ℕ → ℕ → Fp
  chunk l bytes offset = fp_of (take l (drop offset bytes))

  -- The elements that RFC 9380 takes from the expanded message, with chunks of `element_length` bytes.
  abbrev pub element : List ℕ → List ℕ → ℕ → Fp2
  element dst msg i =
      let l = element_length C in
      let bytes : List ℕ = C.expanded (2 * l * 2) dst msg in
      new_fps (chunk l bytes (2 * i * l)) (chunk l bytes ((2 * i + 1) * l))

  hash_to_field2_bls12381-element :
      (dst msg : List ℕ)
      → 2 * element_length C * 2 ≤ 512
      → hash_to_field2_bls12381 C dst msg 2 ≡ some (element dst msg 0 ∷ element dst msg 1 ∷ [])
  unfolding hash_to_field2_bls12381 fill_elements set?
  hash_to_field2_bls12381-element dst msg small =
      let l : ℕ = element_length C in
      let bytes : List ℕ = C.expanded (2 * l * 2) dst msg in
      let rest : List ℕ = drop (2 * l * 2) (replicate 512 0) in
      let size : length bytes ≡ 2 * l * 2 = C.length-expanded (2 * l * 2) dst msg in
      let (fd1, e1, s1, c1) =
        copied bytes rest (replicate 256 0) (2 * 0 * l) l (omega (arith, size))
          (omega (arith, small)) in
      let (fd2, e2, s2, c2) =
        copied bytes rest fd1 ((2 * 0 + 1) * l) l (omega (arith, size))
          (omega (arith, small, s1)) in
      let (fd3, e3, s3, c3) =
        copied bytes rest fd2 (2 * 1 * l) l (omega (arith, size)) (omega (arith, small, s1, s2)) in
      let (fd4, e4, s4, c4) =
        copied bytes rest fd3 ((2 * 1 + 1) * l) l (omega (arith, size))
          (omega (arith, small, s1, s2, s3)) in
      rw
        (
          C.xmd_expand_lem (replicate 512 0) (2 * l * 2) dst msg small,
          e1,
          c1,
          e2,
          c2,
          e3,
          c3,
          e4,
          c4,
        )
        refl

  -- The point of a message: the sum of the two mapped elements.
  abbrev pub point : List ℕ → Point
  point msg =
      C.affine (C.cfp (C.add (map2point (element C.dst msg 0)) (map2point (element C.dst msg 1))))

  -- Where the expanded message for two elements fits in the buffer of 512 bytes, the hash ends without
  -- an index out of bounds, and is the reading by ark_bls12_381 of the bytes of the sum of the points
  -- to which the two field elements of the message map, each made from two chunks of the expanded
  -- message: of these bytes the first is cut off and both halves of the others are reversed.
  pub htp_bls12381_g2-element :
      (msg : List ℕ)
      → 2 * element_length C * 2 ≤ 512
      → htp_bls12381_g2 C msg
        ≡ C.ark_deserialize (
            reverse (take 48 (drop 1 (C.to_bytes (point msg))))
            ++ reverse (drop 48 (drop 1 (C.to_bytes (point msg)))))
  unfolding htp_bls12381_g2 reverse_halves
  htp_bls12381_g2-element msg small =
      rw (hash_to_field2_bls12381-element C.dst msg small, eq→== _ _ size) refl
    where
      size : length (drop 1 (C.to_bytes (point msg))) ≡ 96
      size = omega (
        arith,
        C.length-to_bytes (point msg),
        length-drop 1 (C.to_bytes (point msg)) (omega (arith, C.length-to_bytes (point msg))),
      )
