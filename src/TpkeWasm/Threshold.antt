-- ===== src/TpkeWasm/Threshold.antt =====
-- Threshold decryption through tpke-wasm/src/lib.rs: every participant is sent its payload as bytes and
-- sends its share back as bytes, and a builder combines the shares.
pub mod EndToEnd
use Prim.Native.Nat.{◌+◌ as ◌+ℕ◌, ◌^◌}
use mathlib.Core.List.{append-nil, append_assoc}
use nucypher_ferveo.Base.{
  ℕ, zero, suc, ◌≤◌, ◌<◌, ◌≡◌, ◌≢◌, refl, sym, ap, ◌∙◌, Option, some, List, [], ◌∷◌, ◌++◌, map,
  arith,
}
use nucypher_ferveo.Base.Tests.{eq→==}
use nucypher_ferveo.Base.Lists.{length, get_elem?}
use nucypher_ferveo.Base.Panics.{◌>>=◌}
use nucypher_ferveo.Algebra.Field.{Field}
use nucypher_ferveo.Algebra.Space.{Group, Space, ◌•◌}
use nucypher_ferveo.Algebra.Engine.{Engine}
use nucypher_ferveo.Tpke.Interface.{Primitives}
use nucypher_ferveo.Tpke.Context.{PrivateDecryptionContextFast, PublicDecryptionContextFast}
use nucypher_ferveo.Tpke.Setup.FastParticipants.{AreFast}
use nucypher_ferveo.Tpke.Combine.Fast.Keys.{AreFastShares}
use nucypher_ferveo.Tpke.Combine.Fast.Checked.{AreUnblinded}
use nucypher_ferveo.Tpke.Api.Limbs.{Representation}
use nucypher_ferveo.Tpke.Api.Context as Context
use nucypher_ferveo.Tpke.Api.Context.{PrivateDecryptionContext}
use nucypher_ferveo.Tpke.Api.Payload as Api
use nucypher_ferveo.Tpke.Api.Payload.{DecryptionShare}
use nucypher_ferveo.TpkeWasm.Ciphertext.{Ciphertext}
use nucypher_ferveo.TpkeWasm.Payload.{
  new, to_bytes, from_bytes, to_decryption_share, share_to_bytes, share_from_bytes,
  from_bytes-to_bytes, share_from_bytes-share_to_bytes,
}
use nucypher_ferveo.TpkeWasm.Setup.{Setup, api_context, private_context_at}
use nucypher_ferveo.TpkeWasm.SharedSecret.{SharedSecretBuilder, add_decryption_share}

module _ (E : Engine) (P : Primitives E) (R : Representation E) where
  open E use {Fr, G1, G2}

  instance abbrev fr : Field Fr
  fr = E.field

  instance abbrev g1 : Group G1
  g1 = E.group1

  instance abbrev g2 : Group G2
  g2 = E.group2

  instance abbrev s1 : Space Fr G1
  s1 = E.space1

  instance abbrev s2 : Space Fr G2
  s2 = E.space2

  -- The participant with an index is sent its payload, and its share is sent back.
  unfoldable pub exchange : Setup E → Ciphertext E → ℕ → Option (DecryptionShare E)
  exchange setup ciphertext index = do
    context ← private_context_at E P R setup index
    payload ← from_bytes E P R (to_bytes E P R (new E P R context ciphertext))
    share_from_bytes E P R (share_to_bytes E P R (to_decryption_share E P R payload))

  unfoldable pub exchange_all : Setup E → Ciphertext E → List ℕ → Option (List (DecryptionShare E))
  unfolding exchange
  exchange_all setup ciphertext [] = some []
  exchange_all setup ciphertext (index ∷ indexes) = do
    share ← exchange setup ciphertext index
    shares ← exchange_all setup ciphertext indexes
    some (share ∷ shares)

  abbrev pub add_all : SharedSecretBuilder E → List (DecryptionShare E) → SharedSecretBuilder E
  add_all builder [] = builder
  add_all builder (share ∷ shares) = add_all (add_decryption_share E builder share) shares

  -- The shares that are added stand in the builder in order.
  pub add_all-append :
      (builder : SharedSecretBuilder E) (shares : List (DecryptionShare E))
      → add_all builder shares
        ≡ record builder { shares = builder.shares ++ map (λ s. s.share) shares }
  unfolding add_decryption_share
  add_all-append builder [] =
      ap (λ (all : List _). record builder { shares = all }) (sym (append-nil builder.shares))
  add_all-append builder (share ∷ shares) =
      add_all-append (add_decryption_share E builder share) shares
      ∙ ap (λ (all : List _). record builder { shares = all })
          (append_assoc builder.shares (share.share ∷ []) (map (λ s. s.share) shares))

  -- The share of the participant at an index.
  abbrev pub share_of : PrivateDecryptionContext E → G1 → DecryptionShare E
  share_of context u = record {
    share = record {
      decrypter_index = context.decrypter_index;
      decryption_share = context.b_inv • u;
    };
  }

  exchange-share_of :
      (setup : Setup E) (c : Ciphertext E) (index : ℕ) (context : PrivateDecryptionContext E)
      → get_elem? setup.private_contexts index ≡ some context
      → context.decrypter_index ≡ index
      → index < 2 ^ 64
      → exchange setup c index ≡ some (share_of context c.ciphertext.commitment)
  unfolding exchange private_context_at new Api.new to_decryption_share Api.to_decryption_share
  exchange-share_of setup c index context found at h =
      rw
        (
          found,
          eq→== context.decrypter_index index at,
          from_bytes-to_bytes E P R
              (record { decryption_context = context; ciphertext = c.ciphertext }) (omega arith),
        )
        (share_from_bytes-share_to_bytes E P R (share_of context c.ciphertext.commitment)
          (omega arith))

  -- The participants at the nodes, from a position on, send back shares of the fast variant.
  pub exchange_all-AreFastShares :
      (setup : Setup E) (c : Ciphertext E) (cs : List Fr) (b : ℕ → Fr) (i : ℕ) (xs : List Fr)
      (contexts : List (PrivateDecryptionContextFast E))
      (known publics : List (PublicDecryptionContextFast E))
      → ((i : ℕ) → b i ≢ fr.zero)
      → ((j : ℕ)
          → get_elem? setup.private_contexts (i +ℕ j)
            ≡ get_elem? (map (api_context E P R) contexts) j)
      → ((j : ℕ) → get_elem? known (i +ℕ j) ≡ get_elem? publics j)
      → i +ℕ length xs ≤ 2 ^ 64
      → AreFast E cs b i xs contexts publics
      → (shares : List (DecryptionShare E)) × (exchange_all setup c
            (map (λ x. x.decrypter_index) (map (api_context E P R) contexts))
          ≡ some shares)
        × AreFastShares E cs c.ciphertext.commitment known xs (map (λ s. s.share) shares)
        × AreUnblinded E c.ciphertext.commitment known (map (λ s. s.share) shares)
        × (length (map (λ s. s.share) shares) ≡ length publics)
  unfolding exchange_all api_context Context.new
  exchange_all-AreFastShares setup c cs b i [] [] known [] nonzero own at fits p =
      ([], refl, tt, tt, refl)
  exchange_all-AreFastShares setup c cs b i [] [] known (q ∷ publics) nonzero own at fits p =
      absurd p
  exchange_all-AreFastShares setup c cs b i [] (context ∷ contexts) known [] nonzero own at fits p =
      absurd p
  exchange_all-AreFastShares setup c cs b i [] (context ∷ contexts) known (q ∷ publics) nonzero own
        at fits p =
      absurd p
  exchange_all-AreFastShares setup c cs b i (x ∷ xs) [] known [] nonzero own at fits p = absurd p
  exchange_all-AreFastShares setup c cs b i (x ∷ xs) [] known (q ∷ publics) nonzero own at fits p =
      absurd p
  exchange_all-AreFastShares setup c cs b i (x ∷ xs) (context ∷ contexts) known [] nonzero own at
        fits p =
      absurd p
  exchange_all-AreFastShares setup c cs b i (x ∷ xs) (context ∷ contexts) known (q ∷ publics)
        nonzero own at fits
        (((index, key, b_inv, g_inv), (domain, n_0, public, blinding, blinded, h_inv)), p) =
      let (shares, exchanged, fast, unblinded, count) =
        exchange_all-AreFastShares setup c cs b (suc i) xs contexts known publics nonzero
          (λ j.
            ap (get_elem? setup.private_contexts) {x = suc i +ℕ j} {y = i +ℕ suc j} (omega arith)
            ∙ own (suc j))
          (λ j. ap (get_elem? known) {x = suc i +ℕ j} {y = i +ℕ suc j} (omega arith) ∙ at (suc j))
          (omega arith) p in
      let found : get_elem? known context.index ≡ some q =
        ap (get_elem? known) (index ∙ omega arith) ∙ at zero in
      let share = ap (λ t. t • c.ciphertext.commitment) b_inv in
      (
        share_of (api_context E P R context) c.ciphertext.commitment ∷ shares,
        rw
            (
              exchange-share_of setup c context.index (api_context E P R context)
                  (ap (get_elem? setup.private_contexts) (index ∙ omega arith) ∙ own zero) refl
                  (omega (arith, index)),
              exchanged,
            )
            refl,
        ((q, b i, found, domain, n_0, nonzero i, blinded, share), fast),
        ((q, b i, found, nonzero i, blinding, share), unblinded),
        ap suc count,
      )
