-- ===== src/Examples/Fast.antt =====
-- The combination of the fast variant (tpke/src/combine.rs) at a concrete input.
use nucypher_ferveo.Base.{ℕ, ◌≡◌, ◌≢◌, refl, List, [], ◌∷◌, arith}
use nucypher_ferveo.Base.Lists.{All, Distinct}
use nucypher_ferveo.Base.Outcome.{ok}
use nucypher_ferveo.Algebra.Field.{◌+◌, neg}
use nucypher_ferveo.Algebra.Field.Inverse.{inv}
use nucypher_ferveo.Algebra.Space.{◌•◌}
use nucypher_ferveo.Algebra.Poly.{eval}
use nucypher_ferveo.Toy.F5.{F5, one, two, three, four, field, group, space}
use nucypher_ferveo.Toy.Instances.{engine}
use nucypher_ferveo.Toy.Polynomials.{dense, batch}
use nucypher_ferveo.Tpke.Context.{PublicDecryptionContextFast}
use nucypher_ferveo.Tpke.Decryption.{DecryptionShareFast}
use nucypher_ferveo.Tpke.Combine.{share_combine_fast}
use nucypher_ferveo.Tpke.Combine.Sign.{sign}
use nucypher_ferveo.Tpke.Combine.Fast.{prepare_combine_fast}
use nucypher_ferveo.Subproduct.Tree.Regular.{AreRegular}
use nucypher_ferveo.Tpke.Combine.Fast.Keys.{AreFastShares, share_combine_fast-prepare_combine_fast}

abbrev line : List F5
line = two ∷ three ∷ []

-- The context of the decrypter at a node, blinded by two.
abbrev context_at : F5 → PublicDecryptionContextFast engine
context_at x = record {
  domain = x;
  public_key_share = record { public_key_share = eval line x • one };
  blinded_key_share = record {
    blinding_key = two • one;
    blinded_key_share = neg (inv x) • (two • (eval line x • one));
    blinding_key_prepared = two • one;
  };
  lagrange_n_0 = x;
  h_inv = four;
}

abbrev contexts : List (PublicDecryptionContextFast engine)
contexts = context_at one ∷ context_at two ∷ context_at four ∷ []

abbrev share_of : ℕ → DecryptionShareFast engine
share_of i = record { decrypter_index = i; decryption_share = inv two • three }

abbrev shares : List (DecryptionShareFast engine)
shares = share_of 2 ∷ share_of 0 ∷ []

abbrev nodes : List F5
nodes = four ∷ one ∷ []

shares-AreFastShares : AreFastShares engine line three contexts nodes shares
shares-AreFastShares = (
  (context_at four, two, refl, refl, refl, (λ e. cc), refl, refl),
  ((context_at one, two, refl, refl, refl, (λ e. cc), refl, refl), tt),
)

Distinct-nodes : Distinct nodes
Distinct-nodes = (((λ e. cc), tt), (tt, tt))

nonzero-nodes : All (λ x. x ≢ F5.zero) nodes
nonzero-nodes = ((λ e. cc), ((λ e. cc), tt))

nodes-AreRegular : AreRegular nodes
nodes-AreRegular xs vs ys e pos k j exact lt = absurd (omega (arith, pos, lt))

two_ne_zero : dense.from 2 ≢ F5.zero
unfolding ◌+◌
two_ne_zero e = cc

share_combine_fast-prepare_combine_fast_example :
    (keys : List F5) × (prepare_combine_fast engine dense batch contexts shares ≡ ok keys)
    × (share_combine_fast engine shares keys
        ≡ sign {F = F5} 2 • engine.pairing three (eval line F5.zero • one))
share_combine_fast-prepare_combine_fast_example =
    share_combine_fast-prepare_combine_fast engine dense batch line nodes three contexts shares
      (omega arith) Distinct-nodes nodes-AreRegular nonzero-nodes two_ne_zero (omega arith)
      shares-AreFastShares
