-- ===== src/Drg/Shares/Collected.antt =====
-- What `on_receive_share` of src/DrgCore.cpp has collected after a run of messages.
use random_beacon.Prelude.{
  ℕ, ◌+◌, ◌≤◌, ◌<◌, ◌^◌, ◌≡◌, refl, sym, ap, ◌∙◌, List, [], ◌∷◌, ◌++◌, map, append_assoc,
  append-nil, Result, ok, err, assertion, ◌>>=◌, length, length-append, lt→ltb, le→ltb, ==_refl,
  ne→==, arith, fold_list, ◌==◌,
}
use random_beacon.Stream.{Codec}
use random_beacon.Algebra.Field.{Field}
use random_beacon.Algebra.Group.{Group, Scalars, Pairing}
use random_beacon.Config.{SyncSystemConfig, from_num_replicas}
use random_beacon.Drg.Replicas.{ReplicaConfig, on_init}
use random_beacon.Pvss.Defs.{Context, Decryption}
use random_beacon.Pvss.Reconstruct.{reconstruct}
use random_beacon.Pvss.Reconstruct.Unique.{
  reconstruct-few, reconstruct-shares, beacon_of, AllShares, DistinctOrigins,
}
use random_beacon.Pvss.Deal.Dealt.{IsWellFormed}
use random_beacon.Dleq.{Hasher}
use random_beacon.Pvss.Streams.{put_decryption}
use random_beacon.Pvss.Streams.Proofs.{get_decryption-put_decryption}
use random_beacon.Drg.Shares.{Share, Collector, hold, on_receive_share, receive_shares}

module _ {F G1 : Type 0} ⦃cf : Codec F⦄ ⦃ca : Codec G1⦄ ⦃cn : Codec ℕ⦄ where
  -- The message that carries a decryption, as `on_receive_shareChunk` prints it.
  abbrev pub message : Decryption F G1 → Share
  message d = record { replica_id = d.origin; bt = put_decryption d [] }

module _ {F G1 G2 GT : Type 0} ⦃f : Field F⦄ ⦃a : Group G1⦄ ⦃b : Group G2⦄ ⦃sa : Scalars F G1⦄
    ⦃sb : Scalars F G2⦄ (e : Pairing F G1 G2 GT) ⦃cf : Codec F⦄ ⦃ca : Codec G1⦄ ⦃cn : Codec ℕ⦄ where
  pub on_receive_share_early :
      (d : Decryption F G1) (self : Collector F G1 G2)
      → length self.dec_share_vec + 1 < self.nreconthres
      → on_receive_share e (message d) self ≡ ok (hold self (self.dec_share_vec ++ d ∷ []))
  unfolding on_receive_share
  on_receive_share_early d self h = rw (
    lt→ltb (length self.dec_share_vec) self.nreconthres (omega arith),
    get_decryption-put_decryption d [],
    ne→== (length self.dec_share_vec + 1) self.nreconthres (λ q. omega arith),
  )

  on_receive_share_last :
      (d : Decryption F G1) (self : Collector F G1 G2)
      → length self.dec_share_vec + 1 ≡ self.nreconthres
      → on_receive_share e (message d) self ≡ (
          reconstruct e self.pvss_context (self.dec_share_vec ++ d ∷ []) >>= λ beacon.
          ok (hold self (self.dec_share_vec ++ d ∷ [])))
  unfolding on_receive_share
  on_receive_share_last d self h = rw (
    lt→ltb (length self.dec_share_vec) self.nreconthres (omega arith),
    get_decryption-put_decryption d [],
    ap (λ k. (length self.dec_share_vec + 1) == k) (sym h)
        ∙ ==_refl (length self.dec_share_vec + 1),
  )

  on_receive_share_late :
      (share : Share) (self : Collector F G1 G2)
      → self.nreconthres ≤ length self.dec_share_vec
      → on_receive_share e share self ≡ ok self
  unfolding on_receive_share
  on_receive_share_late share self h =
      rw (le→ltb (length self.dec_share_vec) self.nreconthres (omega arith))

  receive_shares_late :
      (shares : List Share) (self : Collector F G1 G2)
      → self.nreconthres ≤ length self.dec_share_vec
      → receive_shares e shares self ≡ ok self
  unfolding receive_shares fold_list
  receive_shares_late [] self h = refl
  receive_shares_late (share ∷ shares) self h =
      rw (on_receive_share_late share self h) (receive_shares_late shares self h)

  -- Up to the message before the threshold, every share is kept in the order of arrival.
  pub receive_shares-early :
      (decs : List (Decryption F G1)) (self : Collector F G1 G2)
      → length self.dec_share_vec + length decs < self.nreconthres
      → receive_shares e (map message decs) self ≡ ok (hold self (self.dec_share_vec ++ decs))
  unfolding receive_shares fold_list
  receive_shares-early [] self h = ap (λ v. ok (hold self v)) (sym (append-nil self.dec_share_vec))
  receive_shares-early (d ∷ decs) self h = rw (on_receive_share_early d self (omega arith)) (
      receive_shares-early decs (hold self (self.dec_share_vec ++ d ∷ []))
        (omega (arith, length-append self.dec_share_vec (d ∷ [])))
      ∙ ap (λ v. ok (hold self v)) (append_assoc self.dec_share_vec (d ∷ []) decs))

  -- A message that reaches the threshold reconstructs from all the shares, and what comes after
  -- it is ignored.
  receive_shares_full :
      (d : Decryption F G1) (decs : List (Decryption F G1)) (more : List Share)
      (self : Collector F G1 G2)
      → length self.dec_share_vec + length (d ∷ decs) ≡ self.nreconthres
      → receive_shares e (map message (d ∷ decs) ++ more) self ≡ (
          reconstruct e self.pvss_context (self.dec_share_vec ++ d ∷ decs) >>= λ beacon.
          ok (hold self (self.dec_share_vec ++ d ∷ decs)))
  unfolding receive_shares fold_list
  receive_shares_full d [] more self h =
      rw (on_receive_share_last d self h)
        (dropped (reconstruct e self.pvss_context (self.dec_share_vec ++ d ∷ [])))
    where
      next : Collector F G1 G2
      next = hold self (self.dec_share_vec ++ d ∷ [])

      dropped :
          {B : Type 0} (r : Result B)
          → (r >>= (λ beacon. ok next) >>= λ x. receive_shares e more x) ≡ (r >>= λ beacon. ok next)
      dropped (err x) = refl
      dropped (ok beacon) =
          receive_shares_late more next (omega (arith, length-append self.dec_share_vec (d ∷ [])))
  receive_shares_full d (d' ∷ decs) more self h = rw (on_receive_share_early d self (omega arith)) (
      receive_shares_full d' decs more (hold self (self.dec_share_vec ++ d ∷ []))
        (omega (arith, length-append self.dec_share_vec (d ∷ [])))
      ∙ ap (λ v. reconstruct e self.pvss_context v >>= λ beacon. ok (hold self v))
          (append_assoc self.dec_share_vec (d ∷ []) (d' ∷ decs)))

  -- The collector that has received nothing, with the threshold of `on_init`.
  abbrev pub ready : {A : Type 0} → ReplicaConfig A → Context F G1 G2 → Collector F G1 G2
  ready config ctx = record {
    nreconthres = (on_init config).nreconthres;
    pvss_context = ctx;
    dec_share_vec = [];
  }

  module _ ⦃cb : Codec G2⦄ ⦃h : Hasher F⦄ where
    -- With at least five replicas and fewer than 2^53, and the faults of `FromNumReplicas`, the
    -- threshold of `on_init` is too low: the message that reaches it ends in the failed assertion
    -- of `reconstruct`, whatever the decryptions are and whatever comes after them.
    pub receive_shares-on_init :
        {A : Type 0} (config : ReplicaConfig A) (ctx : Context F G1 G2)
        (decs : List (Decryption F G1)) (more : List Share)
        → 5 ≤ config.nreplicas
        → config.nreplicas < 2 ^ 53
        → ctx.config ≡ from_num_replicas config.nreplicas
        → length decs ≡ (on_init config).nreconthres
        → receive_shares e (map message decs ++ more) (ready config ctx) ≡ err assertion
    unfolding on_init from_num_replicas
    receive_shares-on_init config ctx [] more five small faults full = absurd (omega arith)
    receive_shares-on_init config ctx (d ∷ decs) more five small faults full =
        receive_shares_full d decs more (ready config ctx) (omega (arith, full))
        ∙ ap (λ r. r >>= λ beacon. ok (hold (ready config ctx) (d ∷ decs)))
            (reconstruct-few e ctx (d ∷ decs)
              (omega (arith, full, ap (λ (c : SyncSystemConfig). c.num_faults) faults)))

    -- A collector that holds nothing, and whose threshold is above the number of faults, ends with
    -- the first shares that reach the threshold when these are shares, in a well-formed context, of
    -- one polynomial of a degree of at most the number of faults, from
    -- different replicas. The beacon reconstructed from them is the polynomial's, and what comes
    -- after them is ignored.
    pub receive_shares-honest :
        (self : Collector F G1 G2) (p : List F) (decs : List (Decryption F G1)) (more : List Share)
        → self.dec_share_vec ≡ []
        → length decs ≡ self.nreconthres
        → self.pvss_context.config.num_faults < self.nreconthres
        → IsWellFormed self.pvss_context
        → length p ≤ self.pvss_context.config.num_faults + 1
        → AllShares self.pvss_context p decs
        → DistinctOrigins decs
        → (receive_shares e (map message decs ++ more) self ≡ ok (hold self decs))
          × (reconstruct e self.pvss_context decs ≡ ok (beacon_of e self.pvss_context p))
    receive_shares-honest self p [] more fresh full enough well short shares distinct =
        absurd (omega arith)
    receive_shares-honest self p (d ∷ decs) more fresh full enough well short shares distinct =
        let found =
          reconstruct-shares e self.pvss_context p (d ∷ decs) well short shares distinct
            (omega (arith, full)) in
        (
          receive_shares_full d decs more self
                (omega (arith, full, ap (λ (v : List (Decryption F G1)). length v) fresh))
              ∙ ap
                  (λ v. reconstruct e self.pvss_context (v ++ d ∷ decs) >>= λ beacon.
                    ok (hold self (v ++ d ∷ decs)))
                  fresh
              ∙ ap (λ r. r >>= λ beacon. ok (hold self (d ∷ decs))) found,
          found,
        )
