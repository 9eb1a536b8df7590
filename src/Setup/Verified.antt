-- ===== src/Setup/Verified.antt =====
-- What `main` of src/pvss_setup.cpp writes.
use random_beacon.Prelude.{
  ℕ, suc, ◌+◌, ◌-◌, ◌*◌, ◌/◌, ◌%◌, ◌^◌, ◌≤◌, ◌<◌, ◌≡◌, refl, sym, ap, subst, ◌∙◌, List, [], ◌∷◌,
  true, ok, map, at, arith, length, length-map, length-tabulate, tabulate, map-tabulate, collect,
  ◌>>=◌, collect-ok, ok_injective, le→ltb, lt→ltb,
}
use random_beacon.Random.{Supply, after, draws, draws-each}
use random_beacon.Stream.{Codec, put_vector}
use random_beacon.Config.{SyncSystemConfig, from_num_replicas}
use random_beacon.Algebra.Field.{Field}
use random_beacon.Algebra.Group.{Group, Scalars, Pairing}
use random_beacon.Dleq.{Hasher}
use random_beacon.Poly.Loops.{at-tabulate}
use random_beacon.Pvss.Defs.{Context, Sharing, Aggregate}
use random_beacon.Pvss.Deal.Dealt.{IsWellFormed, IsDealt, create_sharing-IsDealt}
use random_beacon.Pvss.Aggregate.{verify_aggregation}
use random_beacon.Pvss.Aggregate.Sums.{AllDealt}
use random_beacon.Pvss.Aggregate.Accepted.{aggregate-verify_aggregation}
use random_beacon.Pvss.Factory.{get_context}
use random_beacon.Pvss.Factory.Keys.{setup_of, get_context_lem}
use random_beacon.Pvss.Streams.{put_context, put_aggregate}
use random_beacon.Setup.{
  int_add, int_mul, deal_from, buffer_aggregate, buffer_aggregates, pvss_setup,
}

-- Numbers that an `int` holds.
pub int_add-ok : (x y : ℕ) → x + y < 2 ^ 31 → int_add x y ≡ ok (x + y)
unfolding int_add
int_add-ok x y small = rw (lt→ltb (x + y) (2 ^ 31) small)

pub int_mul-ok : (x y : ℕ) → x * y < 2 ^ 31 → int_mul x y ≡ ok (x * y)
unfolding int_mul
int_mul-ok x y small = rw (lt→ltb (x * y) (2 ^ 31) small)

pub rounds : (i faults : ℕ) → i + faults + 1 - i ≡ faults + 1
rounds i faults = omega arith

module _ {A B : Type 0} where
  pub collect-map :
      (n : ℕ) (f : ℕ → A) (g : A → B)
      → collect n (λ i. at (tabulate n f) i >>= λ x. ok (g x)) ≡ ok (map g (tabulate n f))
  collect-map n f g =
      collect-ok n (λ i. at (tabulate n f) i >>= λ x. ok (g x)) (λ i. g (f i))
        (λ i less. rw (at-tabulate n f i less))
      ∙ ap ok (sym (map-tabulate n g f))

module _ {F G1 G2 GT : Type 0} ⦃f : Field F⦄ ⦃a : Group G1⦄ ⦃b : Group G2⦄ ⦃sa : Scalars F G1⦄
    ⦃sb : Scalars F G2⦄ (e : Pairing F G1 G2 GT) ⦃ca : Codec G1⦄ ⦃cb : Codec G2⦄ ⦃h : Hasher F⦄
    (config : SyncSystemConfig) (g1 g2 : G1) (h1 h2 : G2) (keys : Supply F) where
  abbrev pub context : ℕ → Context F G1 G2
  context k = setup_of config g1 g2 h1 h2 keys k

  -- The sharing deals one polynomial for the contexts of all replicas.
  abbrev pub IsShared : Sharing F G1 G2 → Type 0
  IsShared sharing = (p : List F) × ((k : ℕ) → IsDealt (context k) p sharing)

  pub deal_from-IsShared :
      (j : ℕ) (supply : Supply F)
      → 0 < config.num_replicas
      → config.num_faults < f.max_size
      → (dealt : Sharing F G1 G2 × ℕ) × (rest : Supply F) × (deal_from e
            (tabulate config.num_replicas context)
            config.num_replicas
            j
            supply
          ≡ ok (dealt, rest))
        × IsShared dealt.0
  unfolding deal_from
  deal_from-IsShared j supply some_replica room =
      let n = config.num_replicas in
      let (sharing, rest, created, secret, deals) =
        create_sharing-IsDealt (context (j % n)) supply (length-tabulate n _) room in
      (
        (sharing, j % n),
        rest,
        rw (at-tabulate n context (j % n) (omega arith), created),
        (
          tabulate (config.num_faults + 1) supply,
          λ k. record {
            degree = deals.degree;
            encryptions_eq = deals.encryptions_eq;
            commitments_eq = deals.commitments_eq;
            proofs_length = deals.proofs_length;
            proofs_accepted = deals.proofs_accepted;
            gs_eq = deals.gs_eq;
            pi_accepted = deals.pi_accepted;
          },
        ),
      )

  pub all_dealt :
      (dealt : List (Sharing F G1 G2 × ℕ)) (k : ℕ)
      → ((i : ℕ)
          → i < length dealt
          → (x : Sharing F G1 G2 × ℕ) × (at dealt i ≡ ok x) × IsShared x.0)
      → (ps : List (List F)) × AllDealt
          (context k)
          ps
          (map (λ (x : Sharing F G1 G2 × ℕ). x.0) dealt)
  all_dealt [] k each = ([], tt)
  all_dealt (x ∷ xs) k each =
      let (y, first, shared) = each 0 (omega arith) in
      let here : IsShared x.0 =
        subst (λ (z : Sharing F G1 G2 × ℕ). IsShared z.0) (sym (ok_injective first)) shared in
      let (ps, others) = all_dealt xs k (λ i h. each (suc i) (omega arith)) in
      (here.0 ∷ ps, (here.1 k, others))

  -- Every replica accepts the aggregate, whatever it draws.
  abbrev IsAccepted : Aggregate F G1 G2 → Type 0
  IsAccepted agg =
      (k : ℕ) (supply : Supply F)
      → k < config.num_replicas
      → (rest : Supply F) × (verify_aggregation e (context k) agg supply ≡ ok (true, rest))

  module _ (faults : config.num_faults + 2 ≤ config.num_replicas)
      (order : config.num_replicas < f.order) (room : config.num_replicas ≤ f.max_size) where
    context-IsWellFormed : (k : ℕ) → IsWellFormed (context k)
    context-IsWellFormed k = record {
      keys = length-tabulate config.num_replicas _;
      faults = faults;
      order = order;
      room = room;
    }

    buffer_aggregate-IsAccepted :
        (i : ℕ) (supply : Supply F)
        → i + config.num_faults + 1 < 2 ^ 31
        → (agg : Aggregate F G1 G2) × (rest : Supply F) × (buffer_aggregate e
              (tabulate config.num_replicas context)
              config.num_replicas
              config.num_faults
              i
              supply
            ≡ ok (agg, rest))
          × IsAccepted agg
    unfolding buffer_aggregate
    buffer_aggregate-IsAccepted i supply small =
        let n = config.num_replicas in
        let (dealt, s1, drawn, count, each) =
          draws-each (config.num_faults + 1) (λ j. deal_from e (tabulate n context) n (i + j))
            (λ j x. IsShared x.0)
            (λ j less s. deal_from-IsShared (i + j) s (omega arith) (omega arith)) supply in
        let shared = λ (j : ℕ) (less : j < length dealt). each j (omega arith) in
        let pvec = map (λ (x : Sharing F G1 G2 × ℕ). x.0) dealt in
        let ids = map (λ (x : Sharing F G1 G2 × ℕ). x.1) dealt in
        let sizes : length pvec ≡ config.num_faults + 1 = length-map dealt _ ∙ count in
        let same : length pvec ≡ length ids = length-map dealt _ ∙ sym (length-map dealt _) in
        let accepted = λ (k : ℕ) (s : Supply F).
          let (ps, deals) = all_dealt dealt k shared in
          aggregate-verify_aggregation e (context k) ps pvec ids s (context-IsWellFormed k) deals
            (omega arith) same (omega arith) in
        let (agg, s2, returned, verified) = accepted (i % n) s1 in
        (
          agg,
          s2,
          rw (
            int_add-ok i config.num_faults (omega arith),
            int_add-ok (i + config.num_faults) 1 small,
            rounds i config.num_faults,
            drawn,
            at-tabulate n context (i % n) (omega arith),
            returned,
            verified,
          ),
          λ k s less.
              let (agg', rest, again, verifies) = accepted k s in
              (
                rest,
                subst (λ x. verify_aggregation e (context k) x s ≡ ok (true, rest))
                    (ok_injective (sym again ∙ returned)) verifies,
              ),
        )

    buffer_aggregates-IsAccepted :
        (supply : Supply F)
        → (config.num_replicas - 1) / 2 ≡ config.num_faults
        → 2 * config.num_replicas + config.num_faults < 2 ^ 31
        → (aggs : List (Aggregate F G1 G2)) × (rest : Supply F) × (buffer_aggregates e
              (tabulate config.num_replicas context)
              config.num_replicas
              supply
            ≡ ok (aggs, rest))
          × (length aggs ≡ 2 * config.num_replicas)
          × ((i : ℕ)
              → i < 2 * config.num_replicas
              → (agg : Aggregate F G1 G2) × (at aggs i ≡ ok agg) × IsAccepted agg)
    unfolding buffer_aggregates
    buffer_aggregates-IsAccepted supply half small =
        let n = config.num_replicas in
        let body = buffer_aggregate e (tabulate n context) n in
        let (aggs, rest, buffered, count, each) =
          draws-each (2 * n) (body config.num_faults) (λ i. IsAccepted)
            (λ i less s. buffer_aggregate-IsAccepted i s (omega arith)) supply in
        (
          aggs,
          rest,
          rw (int_mul-ok 2 n (omega arith))
              (ap (λ faults. draws (2 * n) (body faults) supply) half ∙ buffered),
          count,
          each,
        )

module _ {F G1 G2 GT : Type 0} ⦃f : Field F⦄ ⦃a : Group G1⦄ ⦃b : Group G2⦄ ⦃sa : Scalars F G1⦄
    ⦃sb : Scalars F G2⦄ (e : Pairing F G1 G2 GT) ⦃ca : Codec G1⦄ ⦃cb : Codec G2⦄ ⦃h : Hasher F⦄
    ⦃cf : Codec F⦄ ⦃cn : Codec ℕ⦄ where
  -- For 2 ≤ n such that 2 n + (n - 1) / 2 fits an `int`, with fewer replicas than scalars and at
  -- most the largest size of a vector, the setup program ends without an exception, whatever it draws: it writes the contexts that the
  -- factory makes, in order, and 2 n aggregates, each of which every one of these contexts accepts,
  -- whatever the check draws.
  pub pvss_setup-accepted :
      (n : ℕ) (g1 g2 : G1) (h1 h2 : G2) (supply : Supply F)
      → 2 ≤ n
      → 2 * n + (n - 1) / 2 < 2 ^ 31
      → n < f.order
      → n ≤ f.max_size
      → (setup : List (Context F G1 G2)) × (rest : Supply F) × (get_context
            (from_num_replicas n)
            g1
            g2
            h1
            h2
            supply
          ≡ ok (setup, rest))
        × (aggs : List (Aggregate F G1 G2)) × (rest' : Supply F) × (pvss_setup e n g1 g2 h1 h2
              supply
            ≡ ok ((map (λ c. put_context c []) setup, put_vector put_aggregate aggs []), rest'))
        × (length aggs ≡ 2 * n)
        × ((i k : ℕ) (s : Supply F)
            → i < 2 * n
            → k < n
            → (agg : Aggregate F G1 G2) × (ctx : Context F G1 G2) × (s' : Supply F) × (at aggs i
                ≡ ok agg)
              × (at setup k ≡ ok ctx)
              × (verify_aggregation e ctx agg s ≡ ok (true, s')))
  unfolding pvss_setup from_num_replicas
  pvss_setup-accepted n g1 g2 h1 h2 supply two small order room =
      let config = from_num_replicas n in
      let context = setup_of config g1 g2 h1 h2 supply in
      let half : config.num_faults ≡ (n - 1) / 2 = omega arith in
      let made = get_context_lem config g1 g2 h1 h2 supply in
      let texts = collect-map n context (λ c. put_context c []) in
      let (aggs, rest, buffered, count, each) =
        buffer_aggregates-IsAccepted e config g1 g2 h1 h2 supply (omega (arith, half)) order room
          (after n supply) (sym half) (omega (arith, half)) in
      (
        tabulate n context,
        after n supply,
        made,
        aggs,
        rest,
        rw (le→ltb n 1 (omega arith), made, texts, buffered) refl,
        count,
        λ i k s less inside.
            let (agg, found, accepts) = each i less in
            let (s', verified) = accepts k s inside in
            (agg, context k, s', found, at-tabulate n context k inside, verified),
      )
