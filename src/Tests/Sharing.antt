-- ===== src/Tests/Sharing.antt =====
-- The theorems about include/pvss/ at three replicas, one of which may be faulty.
use random_beacon.Prelude.{
  zero, ◌⊎◌, ℕ, suc, ◌+◌, ◌*◌, ◌≤◌, ◌<◌, ◌^◌, ◌≡◌, ◌≢◌, ◌↔◌, refl, List, [], ◌∷◌, true, ok, err,
  arith, length, tabulate, get_or, get_or-tabulate, length_error,
}
use random_beacon.Random.{Supply}
use random_beacon.Config.{from_num_replicas, is_valid}
use random_beacon.Config.Proofs.{from_num_replicas-is_valid}
use random_beacon.Poly.Defs.{evaluate, lagrange_interpolation}
use random_beacon.Poly.Check.{ensure_degree}
use random_beacon.Poly.Spec.{eval, constant, sum_poly}
use random_beacon.Poly.Loops.{evaluate_lem}
use random_beacon.Poly.Recover.{lagrange_interpolation-recovers}
use random_beacon.Poly.Line.{ensure_degree_line}
use random_beacon.Poly.Accepts.{ensure_degree-throws, share_point}
use random_beacon.Dleq.{Hasher, dual_challenge, DleqDual, prove_dual, verify_dual}
use random_beacon.Dleq.Proofs.{prove_dual-verify, verify_dual_sound}
use random_beacon.Pvss.Defs.{Context, Sharing, Aggregate, Decryption, generate_decryption}
use random_beacon.Pvss.Deal.{create_sharing, verify_sharing}
use random_beacon.Pvss.Deal.Dealt.{IsDealt, IsWellFormed, create_sharing-IsDealt}
use random_beacon.Pvss.Deal.Accepted.{create_sharing-verify_sharing}
use random_beacon.Pvss.Deal.Hidden.{LookAlike, create_sharing-LookAlike}
use random_beacon.Pvss.Aggregate.{aggregate, verify_aggregation}
use random_beacon.Pvss.Aggregate.Sums.{AllDealt}
use random_beacon.Pvss.Aggregate.Accepted.{
  IsAggregate, aggregate-IsAggregate, aggregate-verify_aggregation,
}
use random_beacon.Pvss.Reconstruct.{decrypt, verify_decryption, reconstruct, verify_beacon}
use random_beacon.Pvss.Reconstruct.Decrypt.{
  HoldsKey, verify_decryption-any_key, decrypt-verify_decryption,
}
use random_beacon.Pvss.Reconstruct.Unique.{beacon_of, reconstruct-shares, verify_beacon_unique}
use random_beacon.Tests.Five.{
  Five, f0, f1, f2, f3, f4, five_field, five_group, five_scalars, five_codec, number_codec,
  five_hasher, five_pairing, counting,
}

-- 2 + 3 x, and its values at 1, 2, 3 times 2.
abbrev pub line : List Five
line = f2 ∷ f3 ∷ []

abbrev line_value : ℕ → Five
line_value i = five_field.mul (eval line (share_point i)) f2

abbrev line_values : List Five
line_values = tabulate 3 line_value

evaluate_lem_example : evaluate (record { coeffs = line }) f4 ≡ ok (eval line f4)
evaluate_lem_example = evaluate_lem (record { coeffs = line }) f4

lagrange_interpolation-recovers_example :
    lagrange_interpolation Five 1 line_values ≡ ok (five_field.mul (constant line) f2)
lagrange_interpolation-recovers_example =
    lagrange_interpolation-recovers 1 line_values line f2 (omega arith) (omega arith) (omega arith)
      (omega arith) (λ j h. get_or-tabulate 3 line_value j f0 (omega arith))

abbrev pub ctx : Context Five Five Five
ctx = record {
  pk_map = f2 ∷ f3 ∷ f4 ∷ [];
  config = record { num_replicas = 3; num_faults = 1 };
  g1 = f1;
  g2 = f2;
  h1 = f2;
  h2 = f3;
  secret_key = f3;
  my_id = 1;
}

pub ctx-IsWellFormed : IsWellFormed ctx
ctx-IsWellFormed = record {
  keys = refl;
  faults = omega arith;
  order = omega arith;
  room = omega arith;
}

-- Values of no polynomial of degree 1, and their quotients by 2.
abbrev no_values : List Five
no_values = f1 ∷ f0 ∷ f0 ∷ []

abbrev no_log : ℕ → Five
no_log zero = f3
no_log (suc i) = f0

no_values-no_log : (i : ℕ) → i < 3 → get_or no_values i f0 ≡ five_field.mul (no_log i) f2
no_values-no_log zero less = refl
no_values-no_log (suc zero) less = refl
no_values-no_log (suc (suc zero)) less = refl
no_values-no_log (suc (suc (suc i))) less = absurd (omega arith)

ensure_degree_line_example :
    ((p : List Five) × (length p ≤ 2)
      × ((i : ℕ)
          → i < 3
          → get_or no_values i f0 ≡ five_field.mul (eval p (five_field.of_long (i + 1))) f2)
      × ((supply : Supply Five)
          → (rest : Supply Five) × (ensure_degree Five no_values 1 supply ≡ ok (true, rest))))
    ⊎ ((direction : Supply Five) × ((supply : Supply Five) (c d : Five) (rest rest' : Supply Five)
          → ensure_degree Five no_values 1
              (λ i. five_field.add (supply i) (five_field.mul c (direction i)))
            ≡ ok (true, rest)
          → ensure_degree Five no_values 1
              (λ i. five_field.add (supply i) (five_field.mul d (direction i)))
            ≡ ok (true, rest')
          → c ≡ d))
ensure_degree_line_example =
    ensure_degree_line no_values 1 no_log f2 (omega arith) (omega arith) (omega arith) (λ e. cc)
      no_values-no_log

ensure_degree-throws_example : ensure_degree Five (f1 ∷ []) 0 counting ≡ err length_error
ensure_degree-throws_example = ensure_degree-throws (f1 ∷ []) 0 counting (omega arith) (omega arith)

from_num_replicas-is_valid_example :
    ((is_valid (from_num_replicas 4) ≡ true) ↔ (0 < 4))
    × ((f : ℕ)
        → 2 * f < 2 ^ 64
        → 0 < 4
        → is_valid (record { num_replicas = 4; num_faults = f }) ≡ true
        → f ≤ (from_num_replicas 4).num_faults)
from_num_replicas-is_valid_example = from_num_replicas-is_valid 4 (omega arith)

prove_dual-verify_example :
    (proof : DleqDual Five Five Five) × (prove_dual f1 f3 f2 f1 f3 counting
      ≡ ok (proof, λ i. counting (suc i)))
    × (verify_dual proof f1 f3 f2 f1 ≡ true)
prove_dual-verify_example = prove_dual-verify f1 f3 f2 f1 f3 counting refl refl

create_sharing-IsDealt_example :
    (sharing : Sharing Five Five Five) × (rest : Supply Five) × (create_sharing ctx counting
      ≡ ok (sharing, rest))
    × (sharing.secret ≡ f2)
    × IsDealt ctx (f2 ∷ f3 ∷ []) sharing
unfolding constant
create_sharing-IsDealt_example = create_sharing-IsDealt ctx counting refl (omega arith)

create_sharing-verify_sharing_example :
    (sharing : Sharing Five Five Five) × (rest rest' : Supply Five) × (create_sharing ctx counting
      ≡ ok (sharing, rest))
    × (verify_sharing ctx sharing counting ≡ ok (true, rest'))
create_sharing-verify_sharing_example =
    create_sharing-verify_sharing ctx counting counting ctx-IsWellFormed

-- The replica at index 2 is corrupted, and the other sharing has the secret 4.
create_sharing-LookAlike_example :
    (supply' : Supply Five) × (sharing other : Sharing Five Five Five) × (rest rest' : Supply Five)
    × (create_sharing ctx counting ≡ ok (sharing, rest))
    × (create_sharing ctx supply' ≡ ok (other, rest'))
    × (other.secret ≡ f4)
    × ((k : ℕ) → k < 1 → LookAlike 2 sharing other)
create_sharing-LookAlike_example =
    create_sharing-LookAlike ctx counting f4 1 (λ _. 2) refl (omega arith) (omega arith)
      (omega arith) (λ k less. omega arith)

-- Two sharings of the context, drawn from one supply.
abbrev pub first_sharing : Sharing Five Five Five
first_sharing = (create_sharing-IsDealt ctx counting refl (omega arith)).0

abbrev pub two_lines : List (List Five)
two_lines = (f2 ∷ f3 ∷ []) ∷ (f2 ∷ f3 ∷ []) ∷ []

abbrev pub two_sharings : List (Sharing Five Five Five)
two_sharings = first_sharing ∷ first_sharing ∷ []

pub two_sharings-AllDealt : AllDealt ctx two_lines two_sharings
two_sharings-AllDealt =
    let dealt = (create_sharing-IsDealt ctx counting refl (omega arith)).4 in (dealt, (dealt, tt))

aggregate-verify_aggregation_example :
    (agg : Aggregate Five Five Five) × (rest : Supply Five) × (aggregate two_sharings (0 ∷ 1 ∷ [])
      ≡ ok agg)
    × (verify_aggregation five_pairing ctx agg counting ≡ ok (true, rest))
aggregate-verify_aggregation_example =
    aggregate-verify_aggregation five_pairing ctx two_lines two_sharings (0 ∷ 1 ∷ []) counting
      ctx-IsWellFormed two_sharings-AllDealt (omega arith) refl (omega arith)

aggregate-IsAggregate_example :
    (agg : Aggregate Five Five Five) × (aggregate two_sharings (0 ∷ 1 ∷ []) ≡ ok agg)
    × (agg.id_vec ≡ 0 ∷ 1 ∷ [])
    × IsAggregate ctx (sum_poly [] two_lines) agg
aggregate-IsAggregate_example =
    aggregate-IsAggregate ctx two_lines two_sharings (0 ∷ 1 ∷ []) two_sharings-AllDealt
      (omega arith) refl

abbrev pub two_aggregate : Aggregate Five Five Five
two_aggregate =
    (aggregate-IsAggregate ctx two_lines two_sharings (0 ∷ 1 ∷ []) two_sharings-AllDealt
      (omega arith) refl).0

pub two_identifiers : two_aggregate.id_vec ≡ 0 ∷ 1 ∷ []
two_identifiers =
    (aggregate-IsAggregate ctx two_lines two_sharings (0 ∷ 1 ∷ []) two_sharings-AllDealt
      (omega arith) refl).2

pub two_aggregate-IsAggregate : IsAggregate ctx (sum_poly [] two_lines) two_aggregate
two_aggregate-IsAggregate =
    (aggregate-IsAggregate ctx two_lines two_sharings (0 ∷ 1 ∷ []) two_sharings-AllDealt
      (omega arith) refl).3

three-ne-zero : f3 ≢ f0
three-ne-zero e = cc

pub two-ne-zero : f2 ≢ f0
two-ne-zero e = cc

pub ctx-HoldsKey : HoldsKey ctx
ctx-HoldsKey = record { inside = omega arith; pair = refl; nonzero = three-ne-zero }

decrypt-verify_decryption_example :
    (d : Decryption Five Five) × (rest : Supply Five) × (decrypt ctx two_aggregate counting
      ≡ ok (d, rest))
    × (d.dec ≡ five_field.mul (eval (sum_poly [] two_lines) (share_point 1)) f1)
    × (d.origin ≡ 1)
    × (verify_decryption two_aggregate d ≡ ok true)
decrypt-verify_decryption_example =
    decrypt-verify_decryption ctx (sum_poly [] two_lines) two_aggregate counting
      two_aggregate-IsAggregate ctx-HoldsKey

abbrev pub plain_aggregate : Aggregate Five Five Five
plain_aggregate = record {
  encryptions = f4 ∷ f2 ∷ f1 ∷ [];
  commitments = f1 ∷ f1 ∷ f1 ∷ [];
  decomposition = [];
  id_vec = [];
  secret = f0;
}

-- The replica at index 2 has the key 4, and the proof is made with 3.
verify_decryption-any_key_example :
    (d : Decryption Five Five) × (rest : Supply Five) × (generate_decryption f1 f3 2 counting
      ≡ ok (d, rest))
    × (five_field.mul f3 d.dec ≡ f1)
    × (d.origin ≡ 2)
    × (verify_decryption plain_aggregate d ≡ ok true)
verify_decryption-any_key_example =
    verify_decryption-any_key plain_aggregate 2 f3 counting (omega arith) three-ne-zero

abbrev pub share_of : ℕ → Decryption Five Five
share_of i = record {
  dec = five_field.mul (eval line (share_point i)) f1;
  pi = record { gr = f0; pi = f0 };
  origin = i;
}

abbrev two_shares : List (Decryption Five Five)
two_shares = share_of 2 ∷ share_of 0 ∷ []

reconstruct-shares_example :
    reconstruct five_pairing ctx two_shares ≡ ok (beacon_of five_pairing ctx line)
reconstruct-shares_example =
    reconstruct-shares five_pairing ctx line two_shares ctx-IsWellFormed (omega arith)
      (omega arith, refl, (omega arith, refl, tt)) (((λ e. absurd (omega arith)), tt), (tt, tt))
      (omega arith)

verify_beacon_unique_example :
    (verify_beacon five_pairing ctx two_aggregate (record { recon = f4; beacon = f2 }) ≡ true)
    ↔ (record { recon = f4; beacon = f2 } ≡ beacon_of five_pairing ctx (sum_poly [] two_lines))
verify_beacon_unique_example =
    verify_beacon_unique five_pairing ctx (sum_poly [] two_lines) two_aggregate
      (record { recon = f4; beacon = f2 }) two_aggregate-IsAggregate two-ne-zero

-- Two hash functions, and proofs that answer them from the same commitments.
abbrev hash_one : Hasher Five
hash_one = record { hash256_hex_string = λ text. text; field_of_hex = λ text. f1 }

abbrev hash_two : Hasher Five
hash_two = record { hash256_hex_string = λ text. text; field_of_hex = λ text. f2 }

abbrev answer : Five → DleqDual Five Five Five
answer pi = record { gra = f2; grb = f4; pi = pi }

accepted_one : verify_dual ⦃h = hash_one⦄ (answer f0) f1 f3 f2 f1 ≡ true
unfolding verify_dual
accepted_one = refl

accepted_two : verify_dual ⦃h = hash_two⦄ (answer f3) f1 f3 f2 f1 ≡ true
unfolding verify_dual
accepted_two = refl

challenges_differ :
    dual_challenge ⦃h = hash_one⦄ f1 f3 f2 f1 f2 f4
    ≢ dual_challenge ⦃h = hash_two⦄ f1 f3 f2 f1 f2 f4
unfolding dual_challenge
challenges_differ e = cc

verify_dual_sound_example : (x : Five) × (five_field.mul x f1 ≡ f3) × (five_field.mul x f2 ≡ f1)
verify_dual_sound_example =
    verify_dual_sound hash_one hash_two (answer f0) (answer f3) f1 f3 f2 f1 refl refl
      challenges_differ accepted_one accepted_two
