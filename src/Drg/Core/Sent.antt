-- ===== src/Drg/Core/Sent.antt =====
-- Which messages `deliver_chunk` of src/DrgCore.cpp sends.
use random_beacon.Prelude.{
  ℕ, zero, suc, ◌+◌, ◌-◌, ◌*◌, ◌%◌, ◌^◌, ◌≤◌, ◌<◌, ◌≡◌, ◌≢◌, refl, sym, ap, ◌∙◌, List, [], ◌∷◌, map,
  true, false, Bool-cases, inl, inr, ◌⊎◌, ◌==◌, ==_iff, some, ok, ◌>>=◌, length, length-map,
  get_elem?, get_or, take, arith, collect, ok_injective, get_elem?-get_or, collect-ok, map-tabulate,
  append-nil, take-append,
}
use random_beacon.Stream.{Codec}
use random_beacon.Erasure.{Bytes, Chunk, Jerasure, chunk_at}
use random_beacon.Erasure.Recovered.{chunks_of, Decodes, decode-encode, tabulate-get_or}
use random_beacon.Drg.Messages.{put_bytes}
use random_beacon.Wire.{DataStream}
use random_beacon.Pvss.Defs.{Sharing}
use random_beacon.Drg.Core.{Merkle, Core, Event, sharechunk}
use random_beacon.Drg.Core.Dealer.{deal_message, send_chunks, cut_sharing, deal_sharing}
use random_beacon.Drg.Core.Gathered.{erased}
use random_beacon.Drg.Core.Opened.{sharing_text}

-- The element is somewhere in the list.
abbrev pub Among : {A : Type 0} → A → List A → Type 0
Among x xs = (pos : ℕ) × (get_elem? xs pos ≡ some x)

module _ ⦃t : Merkle⦄ where
  -- What a loop over the indices from i on, with n of them, sends.
  record Sends (id : ℕ) (leaves : List Bytes) (chunks : List Chunk) (i n : ℕ) (events : List Event)
      : Type 0 where
    each :
        (k : ℕ) (c : Chunk)
        → i ≤ k
        → k < i + n
        → k ≢ id
        → chunk_at chunks k ≡ ok c
        → Among (sharechunk (deal_message id leaves k c) (k % 2 ^ 16)) events
    others : id < i → length events ≡ n
    skipped : i ≤ id → id < i + n → length events + 1 ≡ n

  module _ (id : ℕ) (leaves : List Bytes) (chunks : List Chunk) where
    Sends-skip :
        (i n : ℕ) (events : List Event)
        → i ≡ id
        → Sends id leaves chunks (i + 1) n events
        → Sends id leaves chunks i (suc n) events
    Sends-skip i n events same rest = record {
      each = λ k c low high other found.
          rest.each k c (omega (arith, below k low other)) (omega arith) other found;
      others = λ less. absurd (omega arith);
      skipped = λ low high. omega (arith, rest.others (omega arith));
    }
      where
        below : (k : ℕ) → i ≤ k → k ≢ id → i < k
        below k low other = ground arith

    Sends-cons :
        (i n : ℕ) (events : List Event) (c : Chunk)
        → i ≢ id
        → chunk_at chunks i ≡ ok c
        → Sends id leaves chunks (i + 1) n events
        → Sends id leaves chunks i
            (suc n)
            (sharechunk (deal_message id leaves i c) (i % 2 ^ 16) ∷ events)
    Sends-cons i n events c other here rest = record {
      each =
          λ k c' low high differs found. at_index k c' found (Bool-cases (i == k)) low high differs;
      others = λ less. ap suc (rest.others (omega arith));
      skipped = λ low high. omega (arith, rest.skipped (above low) (omega arith));
    }
      where
        above : i ≤ id → i + 1 ≤ id
        above low = ground arith

        at_index :
            (k : ℕ) (c' : Chunk)
            → chunk_at chunks k ≡ ok c'
            → ((i == k) ≡ true) ⊎ ((i == k) ≡ false)
            → i ≤ k
            → k < i + suc n
            → k ≢ id
            → Among
                (sharechunk (deal_message id leaves k c') (k % 2 ^ 16))
                (sharechunk (deal_message id leaves i c) (i % 2 ^ 16) ∷ events)
        at_index k c' found (inl e) low high differs =
            let same : i ≡ k = (==_iff i k).0 e in
            let one : c ≡ c' = ok_injective (sym here ∙ ap (chunk_at chunks) same ∙ found) in
            (
              0,
              ap some (
                  ap (λ m. sharechunk (deal_message id leaves m c) (m % 2 ^ 16)) same
                  ∙ ap (λ x. sharechunk (deal_message id leaves k x) (k % 2 ^ 16)) one),
            )
        at_index k c' found (inr e) low high differs =
            let (pos, there) = rest.each k c' (ground arith) (omega arith) differs found in
            (suc pos, there)

    send_chunks-Sends :
        (i n : ℕ)
        → i + n ≤ length chunks
        → (events : List Event) × (send_chunks id leaves chunks i n ≡ ok events)
          × Sends id leaves chunks i n events
    unfolding send_chunks
    send_chunks-Sends i zero room = (
      [],
      refl,
      record {
        each = λ k c low high other found. absurd (omega arith);
        others = λ less. refl;
        skipped = λ low high. absurd (omega arith);
      },
    )
    send_chunks-Sends i (suc n) room =
        let (events, sent, sends) = send_chunks-Sends (i + 1) n (omega arith) in
        let c = get_or chunks i (record { size = 0; bytes = [] }) in
        let here : chunk_at chunks i ≡ ok c =
          rw (chunk_at, get_elem?-get_or chunks i (record { size = 0; bytes = [] }) (omega arith))
            refl in
        branch events c here sent sends (Bool-cases (i == id))
      where
        branch :
            (events : List Event) (c : Chunk)
            → chunk_at chunks i ≡ ok c
            → send_chunks id leaves chunks (i + 1) n ≡ ok events
            → Sends id leaves chunks (i + 1) n events
            → ((i == id) ≡ true) ⊎ ((i == id) ≡ false)
            → (events' : List Event) × (send_chunks id leaves chunks i (suc n) ≡ ok events')
              × Sends id leaves chunks i (suc n) events'
        branch events c here sent sends (inl e) =
            (events, rw (here, sent, e) refl, Sends-skip i n events ((==_iff i id).0 e) sends)
        branch events c here sent sends (inr e) = (
          sharechunk (deal_message id leaves i c) (i % 2 ^ 16) ∷ events,
          rw (here, sent, e) refl,
          Sends-cons i n events c (λ same. cc (e, (==_iff i id).1 same)) here sends,
        )

abbrev no_chunk : Chunk
no_chunk = record { size = 0; bytes = [] }

leaves_lem :
    (chunks : List Chunk)
    → collect (length chunks) (λ i. chunk_at chunks i >>= λ c. ok c.bytes)
      ≡ ok (map (λ (c : Chunk). c.bytes) chunks)
leaves_lem chunks =
    let n = length chunks in
    collect-ok n (λ i. chunk_at chunks i >>= λ c. ok c.bytes)
      (λ i. (get_or chunks i no_chunk).bytes)
      (λ i less. rw (chunk_at, get_elem?-get_or chunks i no_chunk less))
    ∙ ap ok (
        sym (map-tabulate n (λ (c : Chunk). c.bytes) (λ i. get_or chunks i no_chunk))
        ∙ ap (map (λ (c : Chunk). c.bytes)) (
            tabulate-get_or n chunks no_chunk (omega arith)
            ∙ ap (take n) (sym (append-nil chunks))
            ∙ take-append chunks []))

module _ {F G1 G2 : Type 0} ⦃cf : Codec F⦄ ⦃ca : Codec G1⦄ ⦃cb : Codec G2⦄ ⦃cn : Codec ℕ⦄
    ⦃j : Jerasure⦄ ⦃d : DataStream⦄ ⦃t : Merkle⦄ where
  -- A dealer among n replicas with a threshold k, 0 < k ≤ n, a sharing whose text is shorter than
  -- 2^31 by more than 64 k bytes, and a code that decodes the erasure of all the coding chunks: the
  -- text is cut into n chunks, and `deliver_chunk` sends n - 1 messages, among them one for every
  -- replica but the dealer, which carries the replica's own chunk with the root and the path of the
  -- tree of the chunks.
  pub deal_sharing-sends :
      (self : Core F G1 G2) (sharing : Sharing F G1 G2)
      → 0 < self.collector.nreconthres
      → self.collector.nreconthres ≤ self.nreplicas
      → length (sharing_text sharing) + self.collector.nreconthres * 8 * 8 < 2 ^ 31
      → Decodes self.collector.nreconthres
          (self.nreplicas - self.collector.nreconthres)
          8
          (erased self.collector.nreconthres (self.nreplicas - self.collector.nreconthres))
      → self.id < self.nreplicas
      → (chunks : List Chunk) × (events : List Event) × (cut_sharing self.collector.nreconthres
            self.nreplicas sharing
          ≡ ok chunks)
        × (length chunks ≡ self.nreplicas)
        × (deal_sharing self sharing ≡ ok events)
        × (length events + 1 ≡ self.nreplicas)
        × ((i : ℕ) (c : Chunk)
            → i < self.nreplicas
            → i ≢ self.id
            → chunk_at chunks i ≡ ok c
            → Among
                (sharechunk
                  (record {
                    replica_id = self.id % 2 ^ 16;
                    idx = i % 2 ^ 32;
                    round = 0;
                    chunk = c;
                    merkle_root = t.root (map (λ x. x.bytes) chunks);
                    merkle_proof = t.path (map (λ x. x.bytes) chunks) i;
                  })
                  (i % 2 ^ 16))
                events)
  unfolding deal_sharing cut_sharing put_bytes
  deal_sharing-sends self sharing hk room small code inside =
      let k = self.collector.nreconthres in
      let m = self.nreplicas - k in
      let text : Bytes = sharing_text sharing in
      let (sent, cut, count, decodes) =
        decode-encode k m 8 (erased k m) text [] hk (omega arith) small code in
      let chunks = chunks_of (length text) sent in
      let as_many : length chunks ≡ length sent = length-map sent _ in
      let total : length chunks ≡ self.nreplicas = omega (arith, as_many, count) in
      let leaves = map (λ (x : Chunk). x.bytes) chunks in
      let collected : collect self.nreplicas (λ i. chunk_at chunks i >>= λ c. ok c.bytes)
          ≡ ok leaves =
        ap (λ n. collect n (λ i. chunk_at chunks i >>= λ c. ok c.bytes)) (sym total)
        ∙ leaves_lem chunks in
      let (events, dealt, sends) =
        send_chunks-Sends self.id leaves chunks 0 self.nreplicas (omega (arith, total)) in
      (
        chunks,
        events,
        cut,
        total,
        rw (cut, collected, dealt) refl,
        sends.skipped (omega arith) (omega arith),
        λ i c less other found. sends.each i c (omega arith) (omega arith) other found,
      )
