-- ===== src/Subproduct/Tree/Lagrange.antt =====
-- The values at the nodes of the derivative of the product and of a linear combination, which the
-- operations of a subproduct tree compute (subproductdomain/src/lib.rs).
use nucypher_ferveo.Base.{suc, ◌≡◌, ◌≢◌, refl, sym, ap, ◌∙◌, some, List, [], ◌∷◌, map, arith}
use mathlib.Core.Path.{ap₂}
use mathlib.Core.Logic.{ite, if_pos, if_neg}
use nucypher_ferveo.Base.Lists.{length, All, Distinct}
use nucypher_ferveo.Base.Predicates.{All-imp, All-both}
use nucypher_ferveo.Algebra.Field.{Field, ◌+◌, ◌*◌, ◌-◌, mul-zero, zero-add, one-mul}
use nucypher_ferveo.Algebra.Field.Ring.{ring}
use nucypher_ferveo.Algebra.Field.Inverse.{inv, inverse-inv, mul-inv, mul_cancel, sub-ne-zero}
use nucypher_ferveo.Algebra.Space.Sums.{product}
use nucypher_ferveo.Subproduct.Tree.{divide_values}
use nucypher_ferveo.Subproduct.Tree.Product.{vanishing, vanishing_slope, combination}
use nucypher_ferveo.Subproduct.Tree.Evaluate.{vanishing-All}

module _ {F : Type 0} ⦃f : Field F⦄ where
  -- The factor of `b` in the denominator of the basis polynomial of `a`.
  unfoldable pub difference : F → F → F
  difference a b = ite (f.dec_eq a b) f.one (a - b)

  -- The product of a - b over the other nodes b.
  unfoldable pub cofactor : List F → F → F
  cofactor us a = product (map (difference a) us)

  pub difference_eq : (a b : F) → a ≡ b → difference a b ≡ f.one
  unfolding difference
  difference_eq a b h = if_pos (f.dec_eq a b) h _ _

  pub difference_ne : (a b : F) → a ≢ b → difference a b ≡ a - b
  unfolding difference
  difference_ne a b h = if_neg (f.dec_eq a b) h _ _

  pub mul-ne-zero : (a b : F) → a ≢ f.zero → b ≢ f.zero → a * b ≢ f.zero
  mul-ne-zero a b ha hb e = hb (mul_cancel a b f.zero ha (e ∙ sym (mul-zero a)))

  pub cofactor-ne-zero : (us : List F) (a : F) → cofactor us a ≢ f.zero
  unfolding cofactor product
  cofactor-ne-zero [] a = f.one-ne-zero
  cofactor-ne-zero (u ∷ us) a =
      mul-ne-zero (difference a u) (product (map (difference a) us)) (nonzero (f.dec_eq a u))
        (cofactor-ne-zero us a)
    where
      nonzero : Dec (a ≡ u) → difference a u ≢ f.zero
      nonzero (yes e) z = f.one-ne-zero (sym (difference_eq a u e) ∙ z)
      nonzero (no h) z = sub-ne-zero a u h (sym (difference_ne a u h) ∙ z)

  cofactor-vanishing : (us : List F) (a : F) → All (λ u. a ≢ u) us → cofactor us a ≡ vanishing us a
  unfolding cofactor vanishing product
  cofactor-vanishing [] a h = refl
  cofactor-vanishing (u ∷ us) a h = ap₂ ◌*◌ (difference_ne a u h.0) (cofactor-vanishing us a h.1)

  -- The cofactors for one more node: of that node, and of the others.
  cofactor_head : (u : F) (us : List F) → All (λ v. u ≢ v) us → cofactor (u ∷ us) u ≡ vanishing us u
  unfolding cofactor product
  cofactor_head u us h =
      ap₂ ◌*◌ (difference_eq u u refl) (cofactor-vanishing us u h) ∙ one-mul (vanishing us u)

  pub cofactor_self : (u : F) → cofactor (u ∷ []) u ≡ f.one
  cofactor_self u = cofactor_head u [] tt ∙ unfold vanishing in refl

  cofactor_tail : (u v : F) (us : List F) → u ≢ v → cofactor (u ∷ us) v ≡ (v - u) * cofactor us v
  unfolding cofactor product
  cofactor_tail u v us h =
      ap (λ t. t * product (map (difference v) us)) (difference_ne v u (λ e. h (sym e)))

  head_value : (p u q : F) → p + (u - u) * q ≡ p
  head_value p u q = simp ring

  -- At a node the derivative of the product is the product of the other factors.
  pub vanishing_slope-cofactor :
      (us : List F) → Distinct us → All (λ u. vanishing_slope us u ≡ cofactor us u) us
  unfolding vanishing_slope
  vanishing_slope-cofactor [] d = tt
  vanishing_slope-cofactor (u ∷ us) d = (
    head_value (vanishing us u) u (vanishing_slope us u) ∙ sym (cofactor_head u us d.0),
    All-imp _ _ us (λ v (e, (z, ne)). step v e z ne)
        (All-both (λ v. vanishing_slope us v ≡ cofactor us v) _ us (vanishing_slope-cofactor us d.1)
          (All-both (λ v. vanishing us v ≡ f.zero) (λ v. u ≢ v) us (vanishing-All us) d.0)),
  )
    where
      step :
          (v : F)
          → vanishing_slope us v ≡ cofactor us v
          → vanishing us v ≡ f.zero
          → u ≢ v
          → vanishing us v + (v - u) * vanishing_slope us v ≡ cofactor (u ∷ us) v
      step v e z ne = rw (z, e) (zero-add ((v - u) * cofactor us v)) ∙ sym (cofactor_tail u v us ne)

-- Two lists of one length, element by element.
abbrev pub Pointwise : {F : Type 0} → (F → F → Type 0) → List F → List F → Type 0
Pointwise R [] [] = Unit
Pointwise R (u ∷ us) (c ∷ cs) = R u c × Pointwise R us cs
Pointwise R _ _ = ⊥

Pointwise-imp :
    {F : Type 0} (P : F → Type 0) (Q R : F → F → Type 0) (us cs : List F)
    → ((u c : F) → P u → Q u c → R u c)
    → All P us
    → Pointwise Q us cs
    → Pointwise R us cs
Pointwise-imp P Q R [] [] h p q = tt
Pointwise-imp P Q R (u ∷ us) (c ∷ cs) h p q = (h u c p.0 q.0, Pointwise-imp P Q R us cs h p.1 q.1)
Pointwise-imp P Q R [] (c ∷ cs) h p q = absurd q
Pointwise-imp P Q R (u ∷ us) [] h p q = absurd q

module _ {F : Type 0} ⦃f : Field F⦄ where
  -- A linear combination at a node is the coefficient of the node times its cofactor.
  pub combination-cofactor :
      (us cs : List F)
      → Distinct us
      → length cs ≡ length us
      → Pointwise (λ u c. combination us cs u ≡ c * cofactor us u) us cs
  unfolding combination
  combination-cofactor [] [] d h = tt
  combination-cofactor [] (c ∷ cs) d h = absurd (omega arith)
  combination-cofactor (u ∷ us) [] d h = absurd (omega arith)
  combination-cofactor (u ∷ us) (c ∷ cs) d h = (
    head_value (c * vanishing us u) u (combination us cs u)
        ∙ ap (◌*◌ c) (sym (cofactor_head u us d.0)),
    Pointwise-imp (λ v. (vanishing us v ≡ f.zero) × (u ≢ v)) _ _ us cs
        (λ v b (z, ne) e. step v b z ne e)
        (All-both (λ v. vanishing us v ≡ f.zero) (λ v. u ≢ v) us (vanishing-All us) d.0)
        (combination-cofactor us cs d.1 (omega arith)),
  )
    where
      step :
          (v b : F)
          → vanishing us v ≡ f.zero
          → u ≢ v
          → combination us cs v ≡ b * cofactor us v
          → c * vanishing us v + (v - u) * combination us cs v ≡ b * cofactor (u ∷ us) v
      step v b z ne e =
          rw (z, e) (gather c (v - u) b (cofactor us v))
          ∙ ap (◌*◌ b) (sym (cofactor_tail u v us ne))
        where
          gather : (c t b k : F) → c * f.zero + t * (b * k) ≡ b * (t * k)
          gather c t b k = simp ring

  -- What `divide_values` leaves, times the divisors, are the values.
  pub divide_values-Pointwise :
      (h : F → F) (us vs : List F)
      → ((u : F) → h u ≢ f.zero)
      → length vs ≡ length us
      → (cs : List F) × (divide_values (map h us) vs ≡ some cs)
        × (length cs ≡ length us)
        × ((g : F → F) → Pointwise (λ u c. g u ≡ c * h u) us cs → map g us ≡ vs)
  unfolding divide_values
  divide_values-Pointwise h [] [] nonzero e = ([], refl, refl, λ g p. refl)
  divide_values-Pointwise h [] (v ∷ vs) nonzero e = absurd (omega arith)
  divide_values-Pointwise h (u ∷ us) [] nonzero e = absurd (omega arith)
  divide_values-Pointwise h (u ∷ us) (v ∷ vs) nonzero e =
      let (cs, divided, same, values) = divide_values-Pointwise h us vs nonzero (omega arith) in
      (
        inv (h u) * v ∷ cs,
        rw (inverse-inv (h u) (nonzero u), divided) refl,
        ap suc same,
        λ g p.
            ap₂ ◌∷◌ (p.0 ∙ cancel (h u) (inv (h u)) v (mul-inv (h u) (nonzero u))) (values g p.1),
      )
    where
      cancel : (a i v : F) → a * i ≡ f.one → i * v * a ≡ v
      cancel a i v e = regroup a i v ∙ rw e (one-mul v)
        where
          regroup : (a i v : F) → i * v * a ≡ a * i * v
          regroup a i v = simp ring
