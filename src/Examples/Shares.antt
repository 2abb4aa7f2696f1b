-- ===== src/Examples/Shares.antt =====
-- Recovery and refreshing of shares (tpke/src/refresh.rs) at concrete inputs.
use nucypher_ferveo.Base.{◌≡◌, refl, some, List, [], ◌∷◌, arith}
use nucypher_ferveo.Base.Lists.{Distinct}
use nucypher_ferveo.Algebra.Field.{◌+◌, ◌*◌}
use nucypher_ferveo.Algebra.Space.{◌•◌}
use nucypher_ferveo.Algebra.Poly.{eval}
use nucypher_ferveo.Toy.F5.{F5, one, two, three, four, field, group, space}
use nucypher_ferveo.Toy.Instances.{engine}
use nucypher_ferveo.Tpke.KeyShare.{PrivateKeyShare}
use nucypher_ferveo.Tpke.Refresh.{recover_share_from_updated_private_shares}
use nucypher_ferveo.Tpke.Refresh.Recovery.{recover_share-update_share_for_recovery, update_all}

abbrev shared : List F5
shared = two ∷ three ∷ []

abbrev nodes : List F5
nodes = one ∷ two ∷ []

Distinct-nodes : Distinct nodes
Distinct-nodes = (((λ e. cc), tt), (tt, tt))

abbrev share_at : F5 → PrivateKeyShare engine
share_at x = record { private_key_share = eval shared x • one }

-- x - 4, which is one at zero.
abbrev update : List F5
update = one ∷ one ∷ []

vanishes : eval update four ≡ F5.zero
unfolding eval ◌+◌ ◌*◌
vanishes = refl

recover_share-update_share_for_recovery_example :
    recover_share_from_updated_private_shares engine four nodes
      (update_all engine (update ∷ []) nodes (share_at one ∷ share_at two ∷ []))
    ≡ some (record { private_key_share = eval shared four • one })
recover_share-update_share_for_recovery_example =
    recover_share-update_share_for_recovery engine shared (update ∷ []) four nodes
      (share_at one ∷ share_at two ∷ []) Distinct-nodes (omega arith) ((omega arith, vanishes), tt)
      (refl, (refl, tt))
