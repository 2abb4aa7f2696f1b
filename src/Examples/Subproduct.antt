-- ===== src/Examples/Subproduct.antt =====
-- Polynomial arithmetic and the subproduct domain (subproductdomain/src/lib.rs) at concrete inputs.
use nucypher_ferveo.Base.{ℕ, ◌≤◌, ◌≡◌, ◌≢◌, refl, inl, inr, none, some, List, [], ◌∷◌, map, arith}
use nucypher_ferveo.Base.Lists.{length, All, Distinct}
use nucypher_ferveo.Algebra.Field.{◌+◌, ◌*◌, neg}
use nucypher_ferveo.Algebra.Series.{unit, conv}
use nucypher_ferveo.Algebra.Series.Agree.{Agree}
use nucypher_ferveo.Algebra.Poly.{eval}
use nucypher_ferveo.Algebra.Poly.Coefficients.{coeff, IsTrimmed}
use nucypher_ferveo.Toy.F5.{F5, one, two, three, four, field}
use nucypher_ferveo.Toy.Polynomials.{dense}
use nucypher_ferveo.Subproduct.Division.{inverse_mod_xl, fast_divide_monic}
use nucypher_ferveo.Subproduct.Division.Inverse.{IsRegular, inverse_mod_xl-unit}
use nucypher_ferveo.Subproduct.Division.Cut.{inverse_mod_xl-panic}
use nucypher_ferveo.Subproduct.Tree.Regular.{complete, factors-complete, reverse-m, AreRegular}
use nucypher_ferveo.Subproduct.Tree.Powers.{complete-ne-zero}
use nucypher_ferveo.Tpke.Combine.Fast.Nodes.{take-AreRegular, pow-ne-one}
use nucypher_ferveo.Toy.Instances.{engine, domain}
use mathlib.Core.Path.{ap, ◌∙◌, fun_ext}
use nucypher_ferveo.Subproduct.Tree.Product.{is_leaf}
use nucypher_ferveo.Subproduct.Division.Remainder.{fast_divide_monic-remainder}
use nucypher_ferveo.Subproduct.Tree.Product.{combination, vanishing}
use nucypher_ferveo.Subproduct.Tree.Lagrange.{cofactor}
use nucypher_ferveo.Subproduct.Domain.{
  SubproductDomain, new, evaluate, inverse_lagrange_coefficients, linear_combine, interpolate,
  new-evaluate, new-inverse_lagrange_coefficients, new-linear_combine, new-interpolate,
  new-evaluate-none,
}
use nucypher_ferveo.Base.Predicates.{Any}
use nucypher_ferveo.Subproduct.Circulant.{build_circulant}
use nucypher_ferveo.Subproduct.Circulant.Entries.{IsCirculantOf, build_circulant-IsCirculantOf}
use nucypher_ferveo.Subproduct.Tree as Tree
use nucypher_ferveo.Subproduct.Tree.{SubproductTree, m}
use nucypher_ferveo.Subproduct.Tree.Termination.{new_terminates}

abbrev nodes : List F5
nodes = one ∷ two ∷ four ∷ []

Distinct-nodes : Distinct nodes
Distinct-nodes = (((λ e. cc), ((λ e. cc), tt)), (((λ e. cc), tt), (tt, tt)))

nonzero_at_nodes : All (λ u. eval (two ∷ one ∷ []) u ≢ F5.zero) nodes
unfolding eval ◌+◌ ◌*◌
nonzero_at_nodes = ((λ e. cc), ((λ e. cc), ((λ e. cc), tt)))

three_ne_zero : dense.from 3 ≢ F5.zero
unfolding ◌+◌
three_ne_zero e = cc

-- The polynomial 1 - x, and the inverse 1 + x + x^2 + ... of its series.
unit_series : (i : ℕ) → conv (coeff (one ∷ four ∷ [])) (complete (one ∷ [])) i ≡ unit i
unfolding m neg
unit_series i =
    ap (λ s. conv s (complete (one ∷ [])) i) (fun_ext (reverse-m dense (is_leaf {u = one})))
    ∙ factors-complete (one ∷ []) i

IsRegular-series : (length : ℕ) → length ≤ 5 → IsRegular length (complete (one ∷ []))
IsRegular-series length le k j e lt =
    complete-ne-zero one two 0 j 4 (λ z. cc) (pow-ne-one engine domain) (omega (arith, le, lt))

inverse_mod_xl-unit_example :
    (inverse : List F5) × (inverse_mod_xl dense (one ∷ four ∷ []) 5 ≡ some (some inverse))
    × Agree 5 (conv (coeff (one ∷ four ∷ [])) (coeff inverse)) unit
inverse_mod_xl-unit_example =
    inverse_mod_xl-unit dense one (four ∷ []) 5 (complete (one ∷ [])) unit_series
      (IsRegular-series 5 (omega arith))

inverse_mod_xl-panic_example : inverse_mod_xl dense (one ∷ F5.zero ∷ one ∷ []) 3 ≡ none
inverse_mod_xl-panic_example =
    inverse_mod_xl-panic dense one one [] 3 (λ e. cc) (λ e. cc) (omega arith)

nodes-AreRegular : AreRegular nodes
nodes-AreRegular = take-AreRegular engine domain 3 (omega arith)

fast_divide_monic-remainder_example :
    (quotient remainder : List F5) × (fast_divide_monic dense
        (one ∷ two ∷ three ∷ [])
        (four ∷ one ∷ [])
      ≡ some (quotient, remainder))
    × ((i : ℕ)
        → coeff (one ∷ two ∷ three ∷ []) i
          ≡ conv (coeff (four ∷ one ∷ [])) (coeff quotient) i + coeff remainder i)
    × IsTrimmed remainder
    × (length remainder ≤ 1)
fast_divide_monic-remainder_example =
    fast_divide_monic-remainder dense (one ∷ two ∷ three ∷ []) (four ∷ one ∷ []) 1
      (complete (one ∷ [])) (λ e. cc) refl refl unit_series (IsRegular-series 2 (omega arith))

new-evaluate_example :
    (domain : SubproductDomain F5) × (new dense nodes ≡ some domain)
    × (evaluate dense domain (two ∷ one ∷ []) ≡ some (map (eval (two ∷ one ∷ [])) nodes))
new-evaluate_example =
    new-evaluate dense nodes (two ∷ one ∷ []) (omega arith) nodes-AreRegular (λ e. cc) (omega arith)
      nonzero_at_nodes

new-inverse_lagrange_coefficients_example :
    (domain : SubproductDomain F5) × (new dense nodes ≡ some domain)
    × (inverse_lagrange_coefficients dense domain ≡ some (map (cofactor nodes) nodes))
new-inverse_lagrange_coefficients_example =
    new-inverse_lagrange_coefficients dense nodes (omega arith) Distinct-nodes nodes-AreRegular
      three_ne_zero

new-linear_combine_example :
    (domain : SubproductDomain F5) × (poly : List F5) × (new dense nodes ≡ some domain)
    × (linear_combine dense domain (four ∷ one ∷ two ∷ []) ≡ some poly)
    × ((x : F5) → eval poly x ≡ combination nodes (four ∷ one ∷ two ∷ []) x)
new-linear_combine_example =
    new-linear_combine dense nodes (four ∷ one ∷ two ∷ []) (omega arith) refl

new-interpolate_example :
    (domain : SubproductDomain F5) × (poly : List F5) × (new dense nodes ≡ some domain)
    × (interpolate dense domain (four ∷ one ∷ two ∷ []) ≡ some poly)
    × (map (eval poly) nodes ≡ four ∷ one ∷ two ∷ [])
new-interpolate_example =
    new-interpolate dense nodes (four ∷ one ∷ two ∷ []) (omega arith) Distinct-nodes
      nodes-AreRegular three_ne_zero refl

new_terminates_example :
    (nodes ≡ [] → (fuel : ℕ) → Tree.new dense fuel nodes ≡ none)
    × (1 ≤ length nodes
        → (tree : SubproductTree F5) × ((fuel : ℕ)
            → length nodes ≤ fuel
            → Tree.new dense fuel nodes ≡ some tree)
          × ((x : F5) → eval (m tree) x ≡ vanishing nodes x)
          × (length (m tree) ≡ 4))
new_terminates_example = new_terminates dense nodes

root_at_two : Any (λ u. eval (three ∷ one ∷ []) u ≡ F5.zero) nodes
unfolding eval ◌+◌ ◌*◌
root_at_two = inr (inl refl)

new-evaluate-none_example :
    (domain : SubproductDomain F5) × (new dense nodes ≡ some domain)
    × (evaluate dense domain (three ∷ one ∷ []) ≡ none)
new-evaluate-none_example =
    new-evaluate-none dense nodes (three ∷ one ∷ []) (omega arith) (λ e. cc) (omega arith)
      root_at_two

build_circulant-IsCirculantOf_example :
    (v : List F5) × (build_circulant dense (four ∷ one ∷ two ∷ three ∷ []) 3 ≡ some v)
    × IsCirculantOf (four ∷ one ∷ two ∷ three ∷ []) 3 v
build_circulant-IsCirculantOf_example =
    build_circulant-IsCirculantOf dense four (one ∷ two ∷ three ∷ []) 3 (omega arith) (omega arith)
      (λ e. cc)
