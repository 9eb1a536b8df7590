-- ===== src/Pvss/Deal/Hidden.antt =====
-- What the encryptions and commitments that `create_sharing` of include/pvss/pvss.hpp makes for a
-- few replicas say of the secret.
use random_beacon.Prelude.{
  ℕ, suc, ◌+◌, ◌≤◌, ◌<◌, ◌≡◌, ◌≢◌, sym, ap, ◌∙◌, List, ok, arith, length, length-tabulate, at,
  tabulate,
}
use random_beacon.Random.{Supply}
use random_beacon.Stream.{Codec}
use random_beacon.Algebra.Field.{Field}
use random_beacon.Algebra.Group.{Group, Scalars, ◌•◌}
use random_beacon.Poly.Spec.{eval, constant}
use random_beacon.Poly.Loops.{at-tabulate}
use random_beacon.Poly.Accepts.{share_point}
use random_beacon.Poly.Ambiguous.{ambiguous}
use random_beacon.Dleq.{Hasher}
use random_beacon.Pvss.Defs.{Context, Sharing}
use random_beacon.Pvss.Deal.{create_sharing}
use random_beacon.Pvss.Deal.Dealt.{IsDealt, key, create_sharing-IsDealt}

module _ {F G1 G2 : Type 0} ⦃f : Field F⦄ ⦃a : Group G1⦄ ⦃b : Group G2⦄ ⦃sa : Scalars F G1⦄
    ⦃sb : Scalars F G2⦄ ⦃ca : Codec G1⦄ ⦃cb : Codec G2⦄ ⦃h : Hasher F⦄ where
  -- Two sharings have the same encryption and the same commitment for a replica.
  pub record LookAlike (i : ℕ) (sharing other : Sharing F G1 G2) : Type 0 where
    pub encryption : at sharing.encryptions i ≡ at other.encryptions i
    pub commitment : at sharing.commitments i ≡ at other.commitments i

  IsDealt-LookAlike :
      (ctx : Context F G1 G2) (p q : List F) (sharing other : Sharing F G1 G2) (i : ℕ)
      → IsDealt ctx p sharing
      → IsDealt ctx q other
      → i < ctx.config.num_replicas
      → eval p (share_point i) ≡ eval q (share_point i)
      → LookAlike i sharing other
  IsDealt-LookAlike ctx p q sharing other i dealt dealt' h same =
      let n = ctx.config.num_replicas in
      record {
        encryption =
            ap (λ es. at es i) dealt.encryptions_eq
            ∙ at-tabulate n (λ k. eval p (share_point k) • key ctx k) i h
            ∙ ap (λ v. ok (v • key ctx i)) same
            ∙ sym (
                ap (λ es. at es i) dealt'.encryptions_eq
                ∙ at-tabulate n (λ k. eval q (share_point k) • key ctx k) i h);
        commitment =
            ap (λ cs. at cs i) dealt.commitments_eq
            ∙ at-tabulate n (λ k. eval p (share_point k) • ctx.h1) i h
            ∙ ap (λ v. ok (v • ctx.h1)) same
            ∙ sym (
                ap (λ cs. at cs i) dealt'.commitments_eq
                ∙ at-tabulate n (λ k. eval q (share_point k) • ctx.h1) i h);
      }

  -- In a context with a key for each replica, fewer replicas than scalars and fewer faults than the
  -- largest size of a vector, for at most as many replicas as faults, for every supply and for every
  -- secret, some other supply makes `create_sharing` deal that secret with the same encryptions and
  -- commitments for these replicas.
  pub create_sharing-LookAlike :
      (ctx : Context F G1 G2) (supply : Supply F) (secret : F) (n : ℕ) (corrupted : ℕ → ℕ)
      → length ctx.pk_map ≡ ctx.config.num_replicas
      → ctx.config.num_replicas < f.order
      → ctx.config.num_faults < f.max_size
      → n ≤ ctx.config.num_faults
      → ((k : ℕ) → k < n → corrupted k < ctx.config.num_replicas)
      → (supply' : Supply F) × (sharing other : Sharing F G1 G2) × (rest rest' : Supply F)
        × (create_sharing ctx supply ≡ ok (sharing, rest))
        × (create_sharing ctx supply' ≡ ok (other, rest'))
        × (other.secret ≡ secret)
        × ((k : ℕ) → k < n → LookAlike (corrupted k) sharing other)
  create_sharing-LookAlike ctx supply secret n corrupted keys order room few inside =
      let d = ctx.config.num_faults in
      let p = tabulate (d + 1) supply in
      let (supply', same, hidden) =
        ambiguous d n (λ k. share_point (corrupted k)) p secret few
          (omega (arith, length-tabulate (d + 1) supply))
          (λ k less e. point-ne-zero (corrupted k) (omega (arith, inside k less)) e) in
      let (sharing, rest, created, own, dealt) = create_sharing-IsDealt ctx supply keys room in
      let (other, rest', created', own', dealt') = create_sharing-IsDealt ctx supply' keys room in
      let count : d + 1 ≡ suc d = omega arith in
      (
        supply',
        sharing,
        other,
        rest,
        rest',
        created,
        created',
        own' ∙ ap (λ m. constant (tabulate m supply')) count ∙ hidden,
        λ k less.
            IsDealt-LookAlike ctx p _ sharing other (corrupted k) dealt dealt' (inside k less) (
              sym (same k less)
              ∙ ap (λ m. eval (tabulate m supply') (share_point (corrupted k))) (sym count)),
      )
    where
      point-ne-zero : (i : ℕ) → i < ctx.config.num_replicas → share_point i ≢ f.zero
      point-ne-zero i less e = absurd (
          omega (
            arith,
            f.of_long_injective (i + 1) 0 (omega arith) (omega arith) (e ∙ sym f.of_long-zero),
          ))
