-- ===== src/Lib.antt =====
-- Ferveo: a distributed key generation with publicly verifiable secret sharing, and threshold
-- decryption with the keys that it generates.
--
-- The parts and how they interact. Validators (ferveo-common) deal transcripts: each shares a random
-- polynomial f by commitments to its coefficients in the first group and encrypted values f(w_i) in
-- the second (ferveo/src/vss/pvss.rs). A session (ferveo/src/dkg/pv.rs) is a state machine that
-- collects transcripts, from Sharing through Dealt to Success. The transcripts are aggregated, and
-- each validator decrypts its share of the private key. A message is encrypted to the public key
-- (tpke/src/ciphertext.rs), holders of key shares create decryption shares (tpke/src/decryption.rs,
-- tpke/src/context.rs), and enough of them are combined by Lagrange interpolation to the secret that
-- opens the ciphertext (tpke/src/combine.rs). Key shares are recovered and refreshed
-- (tpke/src/refresh.rs).
--
-- The files.
-- Base: tests on numbers, lists over native numbers, the outcome of a fallible function (a value, an
--   error or a panic), the map of the standard library as a sorted list, and wrapping u32 arithmetic.
-- Algebra: what the program takes from ark-ec, ark-ff and ark-poly as records of operations and laws:
--   the prime field, its vector spaces, a pairing engine, evaluation domains; and the algebra of
--   polynomials with Lagrange interpolation. Affine, projective and prepared forms of a point are one
--   element of the group, written additively, Fqk included.
-- Subproduct: subproductdomain/src/lib.rs. Multiexp is fast_multiexp, Division the inverse of a power
--   series and the division by a monic polynomial, Tree the subproduct tree with the operations over
--   it, Domain SubproductDomain, Circulant build_circulant and Toeplitz toeplitz_mul.
-- Tpke: tpke/src. Interface holds the byte forms, the hashes and the cipher of other crates;
--   KeyShare, Ciphertext, Context, Decryption, Combine and Refresh model the files of those names,
--   Setup is setup_simple and setup_fast of tpke/src/lib.rs, Threshold and
--   ThresholdFast join them from end to end, Api is api.rs, and HashToCurve hash_to_curve.rs.
-- TpkeWasm: tpke-wasm/src/lib.rs, over Api and the fast variant. Ciphertext has the keys, encryption and
--   decryption, Payload the bytes of contexts, shares and payloads, Setup and SharedSecret the types
--   of those names with the builder, and Threshold joins them from end to end.
-- Ferveo: Common is ferveo-common/src; Session holds the types of ferveo/src/dkg.rs, dkg/pv.rs and
--   vss/pvss.rs; Pvss and its children are vss/pvss.rs; Dkg is dkg/pv.rs and dkg/common.rs, with the
--   abstract protocol of a session in Dkg/Protocol and its end in Dkg/Progress; Threshold is the
--   threshold decryption with the key of a session in ferveo/src/lib.rs, with the verification of the
--   shares in Threshold/Verify and refreshing in Threshold/Refresh, Recovery the recovery of a share;
--   StateBytes is the byte form of the state in ferveo/src/dkg.rs.
-- Toy and Examples: an engine with five elements, and the theorems at concrete inputs.
--
-- Randomness is an argument of the function that draws it. A function that updates its receiver
-- returns the new value. An index out of bounds, a failed assertion and an unwrapped absence are
-- the outcome `panic`. A map with keys that differ is the list of its values where their order does
-- not matter. Counters of type u32 and the difference of shares_num and security_threshold wrap as
-- in a release build. Loops are structural recursion, but for SubproductTree::new, whose fuel is
-- the number of nodes: each half has fewer nodes, and a single node ends the recursion.
--
-- The sum and the difference of two polynomials of ark-poly panic where an operand ends with a
-- zero coefficient, since `degree` asserts that it does not; products take any lists, up to the
-- size of the evaluation domains of the field, which is taken to be large enough. The iteration of
-- inverse_mod_xl can cut its list after a zero and then panics at the next sum (Division/Cut), so
-- what rests on it has a condition on the nodes (Tree/Regular), that no coefficient at which it
-- cuts is zero. The nodes of the fast variant meet it: they are powers of a root of unity
-- (Tree/Powers, and Tpke/Combine/Fast/Nodes).
--
-- Not modelled: what miracl_core computes, which is a parameter of the hash to the curve;
-- serialization glue; the bindings to Python, benchmarks and examples.
pub mod Base
pub mod Algebra
pub mod Subproduct
pub mod Tpke
pub mod TpkeWasm
pub mod Ferveo
pub mod Toy
pub mod Examples
