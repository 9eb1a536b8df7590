-- ===== src/Tests/Accepting.antt =====
-- What the checks of include/pvss/pvss.hpp accept, at a sharing and an aggregate.
use random_beacon.Prelude.{
  at, ℕ, ◌+◌, ◌≤◌, ◌<◌, ◌≡◌, ◌↔◌, refl, List, [], ◌∷◌, true, some, ok, length, tabulate, get_or,
}
use random_beacon.Random.{Supply}
use random_beacon.Poly.Spec.{eval, constant}
use random_beacon.Dleq.{DleqDual, verify_dual, verify}
use random_beacon.Pvss.Deal.{verify_sharing}
use random_beacon.Pvss.Deal.Sound.{verify_sharing_iff}
use random_beacon.Pvss.Aggregate.{sum_decomposition, verify_aggregation}
use random_beacon.Pvss.Aggregate.Sound.{verify_aggregation_iff}
use random_beacon.Tests.Five.{
  Five, f0, f1, f2, f3, f4, five_field, five_group, five_scalars, five_codec, number_codec,
  five_hasher, five_pairing,
}
use random_beacon.Tests.Sharing.{ctx, ctx-IsWellFormed, first_sharing, two_aggregate, two-ne-zero}

-- Every element is a multiple of 2.
pub generates : (x : Five) → (c : Five) × (x ≡ five_field.mul c f2)
generates f0 = (f0, refl)
generates f1 = (f3, refl)
generates f2 = (f1, refl)
generates f3 = (f4, refl)
generates f4 = (f2, refl)

verify_sharing_iff_example :
    ((supply : Supply Five)
      → (rest : Supply Five) × (verify_sharing ctx first_sharing supply ≡ ok (true, rest)))
    ↔ ((length first_sharing.encryptions ≡ 3)
        × (length first_sharing.dleq_proofs ≡ 3)
        × (p : List Five) × (length p ≤ 2)
        × (first_sharing.commitments
            ≡ tabulate 3 (λ i. five_field.mul (eval p (five_field.of_long (i + 1))) f2))
        × ((i : ℕ)
            → i < 3
            → (proof : DleqDual Five Five Five) × (at first_sharing.dleq_proofs i ≡ ok proof)
              × (verify_dual proof
                    (get_or (f2 ∷ f3 ∷ f4 ∷ []) i f0)
                    (get_or first_sharing.encryptions i f0)
                    f2
                    (five_field.mul (eval p (five_field.of_long (i + 1))) f2)
                  ≡ true))
        × (first_sharing.decomp_pi.gs ≡ five_field.mul (constant p) f2)
        × (verify first_sharing.decomp_pi.pi f2 (five_field.mul (constant p) f2) ≡ true))
verify_sharing_iff_example =
    verify_sharing_iff ctx first_sharing ctx-IsWellFormed two-ne-zero generates

verify_aggregation_iff_example :
    ((supply : Supply Five)
      → (rest : Supply Five) × (verify_aggregation five_pairing ctx two_aggregate supply
          ≡ ok (true, rest)))
    ↔ ((1 ≤ length two_aggregate.id_vec)
        × (p : List Five) × (length p ≤ 2)
        × (two_aggregate.encryptions
            ≡ tabulate 3 (λ i.
              five_field.mul
                (eval p (five_field.of_long (i + 1)))
                (get_or (f2 ∷ f3 ∷ f4 ∷ []) i f0)))
        × (two_aggregate.commitments
            ≡ tabulate 3 (λ i. five_field.mul (eval p (five_field.of_long (i + 1))) f2))
        × (sum_decomposition f2 two_aggregate.decomposition f0
            ≡ some (five_field.mul (constant p) f2))
        × (length two_aggregate.decomposition ≡ length two_aggregate.id_vec))
verify_aggregation_iff_example =
    verify_aggregation_iff five_pairing ctx two_aggregate ctx-IsWellFormed two-ne-zero generates
