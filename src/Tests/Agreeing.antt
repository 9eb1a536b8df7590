-- ===== src/Tests/Agreeing.antt =====
-- Two pairs of three replicas reconstruct the beacon of an aggregate.
use random_beacon.Prelude.{ℕ, ◌≡◌, ◌≢◌, ◌↔◌, refl, sym, ap, ◌∙◌, [], ◌∷◌, true, ok, arith, length}
use random_beacon.Random.{Supply}
use random_beacon.Poly.Spec.{sum_poly}
use random_beacon.Pvss.Defs.{Context, Decryption, Beacon}
use random_beacon.Pvss.Aggregate.{verify_aggregation}
use random_beacon.Pvss.Aggregate.Accepted.{IsAggregate, verify_aggregation-accepts}
use random_beacon.Pvss.Reconstruct.{decrypt, reconstruct, verify_beacon}
use random_beacon.Pvss.Reconstruct.Decrypt.{HoldsKey, decrypt-verify_decryption}
use random_beacon.Pvss.Reconstruct.Agreed.{reconstruct-agreed}
use random_beacon.Tests.Five.{
  Five, f2, f3, f4, five_field, five_group, five_scalars, five_codec, number_codec, five_hasher,
  five_pairing, counting,
}
use random_beacon.Tests.Accepting.{generates}
use random_beacon.Tests.Sharing.{
  ctx, ctx-IsWellFormed, two_lines, two_aggregate, two_aggregate-IsAggregate, two-ne-zero,
  two_identifiers,
}

-- The context of a replica and its key.
abbrev replica : ℕ → Five → Context Five Five Five
replica id key = record ctx { secret_key = key; my_id = id }

replica-IsAggregate :
    (id : ℕ) (key : Five) → IsAggregate (replica id key) (sum_poly [] two_lines) two_aggregate
replica-IsAggregate id key =
    let sums = two_aggregate-IsAggregate in
    record {
      degree = sums.degree;
      encryptions_eq = sums.encryptions_eq;
      commitments_eq = sums.commitments_eq;
      decomposition_eq = sums.decomposition_eq;
      decomposition_length = sums.decomposition_length;
    }

-- A decryption as `decrypt` returns it.
abbrev Made : ℕ → Type 0
Made id =
    (d : Decryption Five Five) × (d.origin ≡ id)
    × (key : Five) × (supply rest : Supply Five) × HoldsKey (replica id key)
    × (decrypt (replica id key) two_aggregate supply ≡ ok (d, rest))

made : (id : ℕ) (key : Five) → HoldsKey (replica id key) → Made id
made id key holds =
    let (d, rest, returned, value, origin, verified) =
      decrypt-verify_decryption (replica id key) (sum_poly [] two_lines) two_aggregate counting
        (replica-IsAggregate id key) holds in
    (d, origin, key, counting, rest, holds, returned)

first-HoldsKey : HoldsKey (replica 0 f2)
first-HoldsKey = record { inside = omega arith; pair = refl; nonzero = λ e. cc }

abbrev first : Made 0
first = made 0 f2 first-HoldsKey

second-HoldsKey : HoldsKey (replica 1 f3)
second-HoldsKey = record { inside = omega arith; pair = refl; nonzero = λ e. cc }

abbrev second : Made 1
second = made 1 f3 second-HoldsKey

third-HoldsKey : HoldsKey (replica 2 f4)
third-HoldsKey = record { inside = omega arith; pair = refl; nonzero = λ e. cc }

abbrev third : Made 2
third = made 2 f4 third-HoldsKey

apart : (i k : ℕ) (x : Made i) (y : Made k) → i ≢ k → x.0.origin ≢ y.0.origin
apart i k x y ne e = ne (sym x.1 ∙ e ∙ y.1)

accepted :
    (supply : Supply Five)
    → (rest : Supply Five) × (verify_aggregation five_pairing ctx two_aggregate supply
        ≡ ok (true, rest))
accepted supply =
    verify_aggregation-accepts five_pairing ctx (sum_poly [] two_lines) two_aggregate supply
      ctx-IsWellFormed two_aggregate-IsAggregate (omega (arith, ap length two_identifiers))

reconstruct-agreed_example :
    (beacon : Beacon Five Five) × (reconstruct five_pairing ctx (first.0 ∷ second.0 ∷ [])
      ≡ ok beacon)
    × (reconstruct five_pairing ctx (third.0 ∷ first.0 ∷ []) ≡ ok beacon)
    × ((other : Beacon Five Five)
        → (verify_beacon five_pairing ctx two_aggregate other ≡ true) ↔ (other ≡ beacon))
reconstruct-agreed_example =
    reconstruct-agreed five_pairing ctx two_aggregate (first.0 ∷ second.0 ∷ [])
      (third.0 ∷ first.0 ∷ []) ctx-IsWellFormed two-ne-zero generates accepted
      (of 0 first, (of 1 second, tt)) ((apart 0 1 first second (λ e. omega arith), tt), (tt, tt))
      (omega arith) (of 2 third, (of 0 first, tt))
      ((apart 2 0 third first (λ e. omega arith), tt), (tt, tt)) (omega arith)
  where
    of :
        (id : ℕ) (x : Made id)
        → (id' : ℕ) × (key : Five) × (supply rest : Supply Five) × HoldsKey
            (record ctx { secret_key = key; my_id = id' })
          × (decrypt (record ctx { secret_key = key; my_id = id' }) two_aggregate supply
              ≡ ok (x.0, rest))
    of id x = (id, x.2, x.3, x.4, x.5, x.6)
