-- ===== src/Ferveo/Threshold/Shares.antt =====
-- The decryption shares that the validators of a session create from an aggregate that holds the
-- shares of one polynomial (ferveo/src/lib.rs, ferveo/src/vss/pvss.rs).
use Prim.Native.Nat.{◌+◌}
use nucypher_ferveo.Base.{
  ℕ, zero, suc, ◌≡◌, ◌≢◌, ◌<◌, ◌≤◌, refl, sym, ap, ◌∙◌, none, some, List, [], ◌∷◌, arith,
}
use nucypher_ferveo.Base.Lists.{length, get_elem?, get_elem?-map, take}
use nucypher_ferveo.Base.Outcome.{ok}
use mathlib.Core.Option.{some-injective}
use nucypher_ferveo.Algebra.Field.{Field}
use nucypher_ferveo.Algebra.Field.Inverse.{inv, inverse-inv}
use nucypher_ferveo.Algebra.Space.{Group, Space, ◌•◌, inv-smul, smul_comm}
use nucypher_ferveo.Algebra.Engine.{Engine}
use nucypher_ferveo.Algebra.Poly.{eval}
use nucypher_ferveo.Tpke.Interface.{Primitives}
use nucypher_ferveo.Tpke.Ciphertext.{Ciphertext, check_ciphertext_validity}
use nucypher_ferveo.Tpke.Decryption.{DecryptionShareSimple}
use nucypher_ferveo.Tpke.Decryption.Simple.{create-ok}
use nucypher_ferveo.Tpke.Combine.Simple.{IsShareOf}
use nucypher_ferveo.Ferveo.Common.{Validator, Keypair, public}
use nucypher_ferveo.Ferveo.Session.{AggregatedPvss, PubliclyVerifiableDkg}
use nucypher_ferveo.Ferveo.Pvss.{DkgResult}
use nucypher_ferveo.Ferveo.Pvss.Dealing.{Msm}
use nucypher_ferveo.Ferveo.Pvss.Shares.{make_decryption_share_simple, decrypt_private_key_share}
use nucypher_ferveo.Ferveo.Threshold.{collect_shares}
use nucypher_ferveo.Ferveo.Threshold.Keys.{AreKeysOf, length-keys}
use nucypher_ferveo.Ferveo.Threshold.Joint.{share_for, shares_for}

module _ (E : Engine) (dkg : PubliclyVerifiableDkg E) where
  open E use {Fr, G1, G2, gen2, pairing}

  instance abbrev fr : Field Fr
  fr = E.field

  instance abbrev g2 : Group G2
  g2 = E.group2

  instance abbrev s2 : Space Fr G2
  s2 = E.space2

  -- What is created for a validator is the share of its element of the domain.
  abbrev pub IsCreated :
      List Fr → G1 → (ℕ → Keypair E → DkgResult (DecryptionShareSimple E)) → Type 0
  IsCreated phi u create =
      (i : ℕ) (v : Validator E) (k : Keypair E)
      → get_elem? dkg.validators i ≡ some v
      → v.share_index ≡ i
      → v.validator.public_key ≡ public E k
      → k.decryption_key ≢ fr.zero
      → (share : DecryptionShareSimple E) × (create i k ≡ ok share)
        × (share.decryption_share ≡ pairing u (eval phi (dkg.domain.element i) • gen2))

  -- The validators from an index on, with their keypairs and the elements of the domain.
  pub collect_shares-IsShareOf :
      (phi : List Fr) (u : G1) (create : ℕ → Keypair E → DkgResult (DecryptionShareSimple E))
      → IsCreated phi u create
      → (i : ℕ) (validators : List (Validator E)) (keypairs : List (Keypair E)) (xs : List Fr)
      → AreKeysOf E i validators keypairs
      → ((j : ℕ) (v : Validator E)
          → get_elem? validators j ≡ some v
          → get_elem? dkg.validators (j + i) ≡ some v)
      → ((j : ℕ) → j < length keypairs → get_elem? xs j ≡ some (dkg.domain.element (j + i)))
      → (shares : List (DecryptionShareSimple E)) × (collect_shares E create i keypairs ≡ ok shares)
        × (length shares ≡ length keypairs)
        × IsShareOf E phi u (take (length keypairs) xs) shares
  unfolding collect_shares
  collect_shares-IsShareOf phi u create made i [] [] xs keys here nodes = ([], refl, refl, tt)
  collect_shares-IsShareOf phi u create made i [] (k ∷ keypairs) xs keys here nodes = absurd keys
  collect_shares-IsShareOf phi u create made i (v ∷ validators) [] xs keys here nodes = absurd keys
  collect_shares-IsShareOf phi u create made i (v ∷ validators) (k ∷ keypairs) [] keys here nodes =
      absurd (unreachable (nodes zero (omega arith)))
    where
      unreachable : {x : Fr} → none ≡ some x → ⊥
      unreachable e = cc
  collect_shares-IsShareOf phi u create made i (v ∷ validators) (k ∷ keypairs) (x ∷ xs)
        ((index, key, nonzero), keys) here nodes =
      let node : dkg.domain.element i ≡ x = sym (
        some-injective _ _
          (nodes zero (omega arith) ∙ ap (λ a. some (dkg.domain.element a)) (omega arith))) in
      let (share, created, value) =
        made i v k (ap (get_elem? dkg.validators) (omega arith) ∙ here zero v refl) index key
          nonzero in
      let (shares, e, size, s) =
        collect_shares-IsShareOf phi u create made (suc i) validators keypairs xs keys
          (λ j w h. ap (get_elem? dkg.validators) (omega arith) ∙ here (suc j) w h)
          (λ j lt.
            nodes (suc j) (omega (arith, lt))
            ∙ ap (λ a. some (dkg.domain.element a)) (omega arith)) in
      (
        share ∷ shares,
        rw (created, e) refl,
        ap suc size,
        (value ∙ ap (λ a. pairing u (eval phi a • gen2)) node, s),
      )

  -- All validators, at the first elements of the domain.
  pub collect_shares-ok :
      (phi : List Fr) (u : G1) (create : ℕ → Keypair E → DkgResult (DecryptionShareSimple E))
      (keypairs : List (Keypair E))
      → IsCreated phi u create
      → length dkg.validators ≤ dkg.domain.size
      → AreKeysOf E 0 dkg.validators keypairs
      → (shares : List (DecryptionShareSimple E)) × (collect_shares E create 0 keypairs ≡ ok shares)
        × (length shares ≡ length keypairs)
        × IsShareOf E phi u (take (length keypairs) dkg.domain.elements) shares
  collect_shares-ok phi u create keypairs made fit keys =
      collect_shares-IsShareOf phi u create made 0 dkg.validators keypairs dkg.domain.elements keys
        (λ j v h. ap (get_elem? dkg.validators) (omega arith) ∙ h)
        (λ j lt.
          dkg.domain.get_elem?-elements j
            (omega (arith, lt, length-keys E 0 dkg.validators keypairs keys, fit))
          ∙ ap (λ a. some (dkg.domain.element a)) (omega arith))

module _ (E : Engine) (M : Msm E) (dkg : PubliclyVerifiableDkg E) where
  open E use {Fr, G1, G2, gen2, pairing}

  instance abbrev field_of : Field Fr
  field_of = E.field

  instance abbrev group1_of : Group G1
  group1_of = E.group1

  instance abbrev group2_of : Group G2
  group2_of = E.group2

  instance abbrev space1_of : Space Fr G1
  space1_of = E.space1

  instance abbrev space2_of : Space Fr G2
  space2_of = E.space2

  module _ (phi : List Fr) (pvss : AggregatedPvss E)
      (hold : pvss.shares ≡ shares_for E M dkg (eval phi)) where
    -- The private key share of a validator.
    pub decrypt_private_key_share-eval :
        (i : ℕ) (v : Validator E) (k : Keypair E)
        → get_elem? dkg.validators i ≡ some v
        → v.share_index ≡ i
        → v.validator.public_key ≡ public E k
        → k.decryption_key ≢ E.field.zero
        → decrypt_private_key_share E pvss k.decryption_key i
          ≡ ok (record { private_key_share = eval phi (dkg.domain.element i) • gen2 })
    unfolding decrypt_private_key_share public
    decrypt_private_key_share-eval i v k hv index key nonzero =
        rw
          (
            hold,
            get_elem?-map dkg.validators (share_for E M dkg (eval phi)) i hv,
            inverse-inv k.decryption_key nonzero,
            undo,
          )
          (ap (λ a. ok (record { private_key_share = eval phi (dkg.domain.element a) • gen2 }))
            index)
      where
        y : Fr
        y = eval phi (dkg.domain.element v.share_index)

        undo : inv k.decryption_key • y • v.validator.public_key.encryption_key ≡ y • gen2
        undo =
            smul_comm (inv k.decryption_key) y v.validator.public_key.encryption_key
            ∙ ap (λ p. y • inv k.decryption_key • p.encryption_key) key
            ∙ ap (◌•◌ y) (inv-smul k.decryption_key gen2 nonzero)

    pub make_decryption_share_simple-IsCreated :
        (P : Primitives E) (c : Ciphertext E) (aad : List ℕ) (inverse : G1)
        → check_ciphertext_validity E P c aad inverse ≡ ok tt
        → IsCreated E dkg phi c.commitment
            (λ i k. make_decryption_share_simple E P pvss c aad k.decryption_key i inverse)
    unfolding make_decryption_share_simple
    make_decryption_share_simple-IsCreated P c aad inverse valid i v k hv index key nonzero = (
      record {
        decrypter_index = i;
        decryption_share = pairing c.commitment (eval phi (dkg.domain.element i) • gen2);
        validator_checksum = inv k.decryption_key • c.commitment;
      },
      rw
          (
            decrypt_private_key_share-eval i v k hv index key nonzero,
            create-ok E P i k.decryption_key
                (record { private_key_share = eval phi (dkg.domain.element i) • gen2 }) c aad
                inverse valid nonzero,
          )
          refl,
      refl,
    )
