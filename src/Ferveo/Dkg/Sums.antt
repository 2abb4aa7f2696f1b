-- ===== src/Ferveo/Dkg/Sums.antt =====
-- What aggregation and its verification compute over the transcripts of a session
-- (ferveo/src/vss/pvss.rs).
use Prim.Native.Nat.{◌+◌}
use nucypher_ferveo.Base.{
  ℕ, suc, ◌<◌, ◌≤◌, ◌≡◌, refl, sym, ap, ◌∙◌, Bool, true, false, Option, none, some, List, [], ◌∷◌,
  arith,
}
use mathlib.Core.Path.{ap₂, subst}
use nucypher_ferveo.Base.Tests.{is_yes, if◌then◌else◌}
use nucypher_ferveo.Base.Outcome.{Outcome, ok, unwrap, >>=-eq-ok, ok_injective}
use nucypher_ferveo.Base.Lists.{length, get_elem?, get_elem?-lt, All, length-map}
use nucypher_ferveo.Base.Words.{u32_mod, incr_u32}
use nucypher_ferveo.Base.BTreeMap.{BTreeMap}
use nucypher_ferveo.Algebra.Field.{Field}
use nucypher_ferveo.Algebra.Space.{Group, Space, ◌⊕◌, add_assoc, add-zero}
use nucypher_ferveo.Algebra.Engine.{Engine}
use nucypher_ferveo.Ferveo.Common.{Validator}
use nucypher_ferveo.Ferveo.Session.{Pvss, AggregatedPvss, PubliclyVerifiableDkg}
use nucypher_ferveo.Ferveo.Pvss.{
  DkgResult, add_points, check_shares, verify_full, sum_first_coeffs, aggregate_from,
  aggregate_transcripts,
}
use nucypher_ferveo.Ferveo.Dkg.{sum_keys}

some_injective {ℓ} : {A : Type ℓ} {a b : A} → some a ≡ some b → a ≡ b
some_injective h = cc

consed {ℓ} :
    {A : Type ℓ} (o : Option (List A)) (z : A) {zs : List A}
    → elim o [ none ↦ none | some ws ↦ some (z ∷ ws) ] ≡ some zs
    → (ws : List A) × (o ≡ some ws) × (zs ≡ z ∷ ws)
consed none z h = cc
consed (some ws) z h = (ws, refl, cc)

module _ {G : Type 0} ⦃g : Group G⦄ where
  add_points-cons :
      (x y : G) (xs ys : List G) {zs : List G}
      → add_points (x ∷ xs) (y ∷ ys) ≡ some zs
      → (ws : List G) × (add_points xs ys ≡ some ws) × (zs ≡ (x ⊕ y) ∷ ws)
  unfolding add_points
  add_points-cons x y xs ys h = consed (add_points xs ys) (x ⊕ y) h

  -- The head of a sum of two lists of points.
  pub add_points-head :
      (xs ys : List G) {zs : List G} {x y : G}
      → add_points xs ys ≡ some zs
      → get_elem? xs 0 ≡ some x
      → get_elem? ys 0 ≡ some y
      → get_elem? zs 0 ≡ some (x ⊕ y)
  unfolding add_points
  add_points-head [] ys h hx hy = cc
  add_points-head (x ∷ xs) [] h hx hy = cc
  add_points-head (x ∷ xs) (y ∷ ys) h hx hy =
      let (ws, e, z) = add_points-cons x y xs ys h in
      ap (λ l. get_elem? l 0) z ∙ ap₂ (λ a b. some (a ⊕ b)) (some_injective hx) (some_injective hy)

  pub length-add_points :
      (xs ys : List G) {zs : List G} → add_points xs ys ≡ some zs → length zs ≡ length xs
  unfolding add_points
  length-add_points [] [] h = ap length (sym (some_injective h))
  length-add_points [] (y ∷ ys) h = cc
  length-add_points (x ∷ xs) [] h = cc
  length-add_points (x ∷ xs) (y ∷ ys) h =
      let (ws, e, z) = add_points-cons x y xs ys h in
      ap length z ∙ ap suc (length-add_points xs ys e)

module _ {G : Type 0} ⦃g : Group G⦄ where
  pub add_points_total :
      (xs ys : List G) → length xs ≡ length ys → (zs : List G) × (add_points xs ys ≡ some zs)
  unfolding add_points
  add_points_total [] [] h = ([], refl)
  add_points_total [] (y ∷ ys) h = absurd (omega arith)
  add_points_total (x ∷ xs) [] h = absurd (omega arith)
  add_points_total (x ∷ xs) (y ∷ ys) h =
      let (zs, e) = add_points_total xs ys (omega arith) in ((x ⊕ y) ∷ zs, rw e refl)

pub unwrap-some {ℓ κ} :
    {X : Type κ} {A : Type ℓ} (o : Option A) {a : A}
    → ◌≡◌ {A = Outcome X A} (unwrap o) (ok a)
    → o ≡ some a
unwrap-some none h = cc
unwrap-some (some a) h = cc

module _ (E : Engine) where
  open E use {Fr, G1, G2}

  instance abbrev fr : Field Fr
  fr = E.field

  instance abbrev g1 : Group G1
  g1 = E.group1

  instance abbrev g2 : Group G2
  g2 = E.group2

  instance abbrev s1 : Space Fr G1
  s1 = E.space1

  pub sum_keys-cons :
      (i : ℕ) (v : Pvss E) (vss : BTreeMap (Pvss E)) {key : G1}
      → sum_keys E ((i, v) ∷ vss) ≡ ok key
      → (f_0 : G1) × (rest : G1) × (get_elem? v.coeffs 0 ≡ some f_0)
        × (sum_keys E vss ≡ ok rest)
        × (key ≡ f_0 ⊕ rest)
  unfolding sum_keys
  sum_keys-cons i v vss h =
      let (f_0, e, later) = >>=-eq-ok (unwrap (get_elem? v.coeffs 0)) _ h in
      let (rest, f, last) = >>=-eq-ok (sum_keys E vss) _ later in
      (f_0, rest, unwrap-some (get_elem? v.coeffs 0) e, f, sym (ok_injective last))

  -- `verify_aggregation` sums the same coefficients as `final_key`, and counts the transcripts.
  pub sum_first_coeffs-sum_keys :
      (y : G1) (n : ℕ) (vss : BTreeMap (Pvss E)) {key : G1}
      → sum_keys E vss ≡ ok key
      → n + length vss < u32_mod
      → sum_first_coeffs E y n vss ≡ ok (y ⊕ key, n + length vss)
  unfolding sum_first_coeffs sum_keys
  sum_first_coeffs-sum_keys y n [] {key} h few =
      rw (← ok_injective h, add-zero y) (ap (λ m. ok (y, m)) (omega arith))
  sum_first_coeffs-sum_keys y n ((i, v) ∷ vss) {key} h few =
      let (f_0, rest, e, f, k) = sum_keys-cons i v vss h in
      rw (e, sum_first_coeffs-sum_keys (y ⊕ f_0) (incr_u32 n) vss f (omega (arith, few)))
        (rw (k, add_assoc y f_0 rest) (ap (λ m. ok (y ⊕ (f_0 ⊕ rest), m)) (omega (arith, few))))

  aggregate_from-head :
      (coeffs : List G1) (shares : List G2) (sigma : G2) (vss : BTreeMap (Pvss E)) {c key : G1}
      {pvss : AggregatedPvss E}
      → aggregate_from E coeffs shares sigma vss ≡ ok pvss
      → get_elem? coeffs 0 ≡ some c
      → sum_keys E vss ≡ ok key
      → (get_elem? pvss.coeffs 0 ≡ some (c ⊕ key)) × (length pvss.coeffs ≡ length coeffs)
  unfolding aggregate_from sum_keys
  aggregate_from-head coeffs shares sigma [] h hc k =
      rw (← ok_injective h, ← ok_injective k, add-zero) (hc, refl)
  aggregate_from-head coeffs shares sigma ((i, v) ∷ vss) h hc k =
      let (f_0, rest, e, f, sum) = sum_keys-cons i v vss k in
      let (coeffs', added, later) = >>=-eq-ok (unwrap (add_points coeffs v.coeffs)) _ h in
      let (shares', _, last) = >>=-eq-ok (unwrap (add_points shares v.shares)) _ later in
      let (head, size) =
        aggregate_from-head coeffs' shares' (sigma ⊕ v.sigma) vss last
          (add_points-head coeffs v.coeffs (unwrap-some _ added) hc e) f in
      (
        head ∙ ap some (add_assoc _ f_0 rest ∙ ap (◌⊕◌ _) (sym sum)),
        size ∙ length-add_points coeffs v.coeffs (unwrap-some _ added),
      )

  -- The first coefficient of an aggregate is the sum of those of the transcripts.
  pub aggregate_transcripts-head :
      (vss : BTreeMap (Pvss E)) {key : G1} {pvss : AggregatedPvss E}
      → aggregate_transcripts E vss ≡ ok pvss
      → sum_keys E vss ≡ ok key
      → get_elem? pvss.coeffs 0 ≡ some key
  unfolding aggregate_transcripts
  aggregate_transcripts-head [] h k = cc
  aggregate_transcripts-head ((i, v) ∷ vss) h k =
      let (f_0, rest, e, f, sum) = sum_keys-cons i v vss k in
      (aggregate_from-head v.coeffs v.shares v.sigma vss h e f).0 ∙ ap some (sym sum)

  pub length-aggregate_transcripts :
      (n : ℕ) (vss : BTreeMap (Pvss E)) {key : G1} {pvss : AggregatedPvss E}
      → All (λ e. length e.1.coeffs ≤ n) vss
      → aggregate_transcripts E vss ≡ ok pvss
      → sum_keys E vss ≡ ok key
      → length pvss.coeffs ≤ n
  unfolding aggregate_transcripts
  length-aggregate_transcripts n [] short h k = cc
  length-aggregate_transcripts n ((i, v) ∷ vss) short h k =
      let (f_0, rest, e, f, _) = sum_keys-cons i v vss k in
      let (_, size) = aggregate_from-head v.coeffs v.shares v.sigma vss h e f in
      omega (arith, size, short.0)

  -- Transcripts with the same numbers of coefficients and of shares.
  abbrev pub Uniform : ℕ → ℕ → BTreeMap (Pvss E) → Type 0
  Uniform n m vss = All (λ e. (length e.1.coeffs ≡ suc n) × (length e.1.shares ≡ m)) vss

  pub sum_keys_total :
      (n m : ℕ) (vss : BTreeMap (Pvss E)) → Uniform n m vss → (key : G1) × (sum_keys E vss ≡ ok key)
  unfolding sum_keys
  sum_keys_total n m [] u = (g1.zero, refl)
  sum_keys_total n m ((i, v) ∷ vss) u =
      let (f_0, e) = get_elem?-lt v.coeffs 0 (omega (arith, u.0.0)) in
      let (rest, f) = sum_keys_total n m vss u.1 in (f_0 ⊕ rest, rw (e, f) refl)

  aggregate_from_total :
      (n m : ℕ) (coeffs : List G1) (shares : List G2) (sigma : G2) (vss : BTreeMap (Pvss E))
      → length coeffs ≡ suc n
      → length shares ≡ m
      → Uniform n m vss
      → (pvss : AggregatedPvss E) × (aggregate_from E coeffs shares sigma vss ≡ ok pvss)
  unfolding aggregate_from
  aggregate_from_total n m coeffs shares sigma [] hc hs u =
      (record { coeffs = coeffs; shares = shares; sigma = sigma }, refl)
  aggregate_from_total n m coeffs shares sigma ((i, v) ∷ vss) hc hs u =
      let (coeffs', e) = add_points_total coeffs v.coeffs (omega (arith, u.0.0)) in
      let (shares', f) = add_points_total shares v.shares (omega (arith, u.0.1)) in
      let (pvss, h) =
        aggregate_from_total n m coeffs' shares' (sigma ⊕ v.sigma) vss
          (omega (arith, length-add_points coeffs v.coeffs e))
          (omega (arith, length-add_points shares v.shares f)) u.1 in
      (pvss, rw (e, f) h)

  pub aggregate_transcripts_total :
      (n m : ℕ) (vss : BTreeMap (Pvss E))
      → 0 < length vss
      → Uniform n m vss
      → (pvss : AggregatedPvss E) × (aggregate_transcripts E vss ≡ ok pvss)
  unfolding aggregate_transcripts
  aggregate_transcripts_total n m [] lt u = absurd (omega arith)
  aggregate_transcripts_total n m ((i, v) ∷ vss) lt u =
      aggregate_from_total n m v.coeffs v.shares v.sigma vss u.0.0 u.0.1 u.1

  either_ok :
      (p b : Bool)
      → ◌≡◌ {A = DkgResult Bool} (if p then ok b else ok false) (ok (if p then b else false))
  either_ok true b = refl
  either_ok false b = refl

  check_shares_total :
      (g : G1) (commitment : List G1) (validators : List (Validator E)) (shares : List G2)
      → All (λ v. v.share_index < length commitment) validators
      → (b : Bool) × (check_shares E g commitment validators shares ≡ ok b)
  unfolding check_shares
  check_shares_total g commitment [] shares below = (true, refl)
  check_shares_total g commitment (v ∷ validators) [] below = (true, refl)
  check_shares_total g commitment (v ∷ validators) (y_i ∷ shares) below =
      let (a_i, e) = get_elem?-lt commitment v.share_index below.0 in
      let (b, f) = check_shares_total g commitment validators shares below.1 in
      let passes =
        is_yes (
          E.groupt.dec_eq (E.pairing g y_i)
            (E.pairing a_i v.validator.public_key.encryption_key)) in
      ((if passes then b else false), rw (e, f) (either_ok passes b))

  -- The indices of the validators are those of elements of the domain.
  abbrev pub FitDomain : PubliclyVerifiableDkg E → Type 0
  FitDomain dkg = All (λ v. v.share_index < dkg.domain.size) dkg.validators

  -- The full verification of a transcript ends without a panic.
  pub verify_full_total :
      (pvss : AggregatedPvss E) (dkg : PubliclyVerifiableDkg E)
      → FitDomain dkg
      → length pvss.coeffs ≤ dkg.domain.size
      → (b : Bool) × (verify_full E pvss dkg ≡ ok b)
  unfolding verify_full
  verify_full_total pvss dkg fit short =
      check_shares_total dkg.pvss_params.g (dkg.domain.fft_in_place pvss.coeffs) dkg.validators
        pvss.shares (subst (λ n. All (λ v. v.share_index < n) dkg.validators) (sym size) fit)
    where
      size : length (dkg.domain.fft_in_place pvss.coeffs) ≡ dkg.domain.size
      size =
          ap length (dkg.domain.fft_in_place_lem pvss.coeffs short)
          ∙ length-map dkg.domain.elements _
          ∙ dkg.domain.length-elements
