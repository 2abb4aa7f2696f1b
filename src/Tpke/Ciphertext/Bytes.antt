-- ===== src/Tpke/Ciphertext/Bytes.antt =====
-- The byte form of a ciphertext, tpke/src/ciphertext.rs.
use nucypher_ferveo.Base.{ℕ, ◌≤◌, ◌≡◌, refl, true, List, [], ◌++◌, arith}
use nucypher_ferveo.Base.Tests.{leb, le→leb}
use nucypher_ferveo.Base.Lists.{length, length-append, take-append, drop-append, take_all, drop_all}
use nucypher_ferveo.Base.Outcome.{ok}
use nucypher_ferveo.Algebra.Engine.{Engine}
use nucypher_ferveo.Tpke.Interface.{Primitives}
use nucypher_ferveo.Tpke.Ciphertext.{Ciphertext, to_bytes, from_bytes}

module _ (E : Engine) (P : Primitives E) where
  -- `to_bytes` writes the commitment and the tag and leaves out the payload: reading the bytes back
  -- succeeds and gives the ciphertext with an empty payload, whatever the payload was.
  pub from_bytes-to_bytes :
      (c : Ciphertext E) → from_bytes E P (to_bytes E P c) ≡ ok (record c { ciphertext = [] })
  unfolding from_bytes to_bytes
  from_bytes-to_bytes c =
      rw (enough 97 (omega arith), take-append 97 u w (P.length-write_g1 c.commitment))
        (rw (P.read-write_g1 c.commitment, enough 290 (omega arith))
          (rw (drop-append 97 u w (P.length-write_g1 c.commitment), take_all 193 w length-w)
            (rw (P.read-write_g2 c.auth_tag, drop_all 290 (u ++ w) length-both) refl)))
    where
      u : List ℕ
      u = P.write_g1 c.commitment

      w : List ℕ
      w = P.write_g2 c.auth_tag

      length-w : length w ≡ 193
      length-w = P.length-write_g2 c.auth_tag

      length-both : length (u ++ w) ≡ 290
      length-both = omega (arith, length-append u w, P.length-write_g1 c.commitment, length-w)

      enough : (n : ℕ) → n ≤ 290 → leb n (length (u ++ w)) ≡ true
      enough n h = le→leb n (length (u ++ w)) (omega (arith, length-both))
