-- ===== src/Streaming/Offering/Sent.antt =====
-- What `send_offer` of streaming.c sends, and what it leaves of the transactions.
use mathlib.Core.Path.{subst, subst⁻¹}
use streamers.Common.{
  ℕ, suc, ◌+◌, ◌≤◌, ◌<◌, ◌^◌, ◌≡◌, ◌≢◌, refl, Bool, false, Option, none, some, List, [], ◌∷◌, arith,
  length, get_elem?, All, All-mono,
}
use streamers.Chunk.{Chunk}
use streamers.Grapes.{ChunkIdSets, ChunkBuffers, Schedulers}
use streamers.Transaction.Heap.{null, Store, done}
use streamers.Transaction.Chain.{Cells, has, IsList}
use streamers.Transaction.Laws.{pending, checked}
use streamers.Transaction.Create.{new_service, transaction_create-cons, next_trans_id_bounds}
use streamers.Transaction.{transaction_create, next_trans_id}
use streamers.Streaming.Needs.{Peer, needs}
use streamers.Streaming.Offer.{compose_offer_cset}
use streamers.Streaming.Push.{latest_first}
use streamers.Streaming.Offering.{
  Offered, offer_max_deliver, OfferConfig, System, offer_each, selected_peers, send_offer,
}

length-pending : (now : ℕ) (xs : Cells) → length (pending now xs) ≤ length xs
length-pending now [] = omega arith
length-pending now ((p, st) ∷ xs) = ground (arith, length-pending now xs)

length-checked : (now : ℕ) (xs : Cells) → length (checked now xs) ≤ length xs
length-checked now [] = omega arith
length-checked now ((p, st) ∷ xs) = ground (arith, length-pending now xs)

-- With a chunk in the buffer there is an offer.
composed :
    (ids : ChunkIdSets) (rtt : Option ℕ) (src : Bool) (c : Chunk) (cs : List Chunk)
    → (cset : ChunkIdSets.ChunkIdSet ids) × (compose_offer_cset ids rtt src (c ∷ cs) ≡ some cset)
unfolding compose_offer_cset
composed ids rtt src c cs = (_, refl)

module _ (sys : System) where
  -- The transactions, newest first, when offers to these peers were made from round `i` on, `t` being the last
  -- transaction id.
  abbrev pub after : ℕ → ℕ → List ℕ → Cells → Cells
  after i t [] xs = xs
  after i t (p ∷ ps) xs =
      after (suc i) (next_trans_id t) ps
        ((sys.fresh i, new_service (next_trans_id t) (sys.sent i) p) ∷ checked (sys.now i) xs)

  -- Each address that `malloc` returns is one that the list does not use then.
  abbrev pub IsFresh : ℕ → ℕ → List ℕ → Cells → Type 0
  IsFresh i t [] xs = Unit
  IsFresh i t (p ∷ ps) xs =
      (sys.fresh i ≢ null)
      × (has (sys.fresh i) (checked (sys.now i) xs) ≡ false)
      × IsFresh (suc i) (next_trans_id t) ps
          ((sys.fresh i, new_service (next_trans_id t) (sys.sent i) p) ∷ checked (sys.now i) xs)

-- The ids of the neighbours at these places.
abbrev pub ids_at : {ids : ChunkIdSets} → List (Peer ids) → List ℕ → List ℕ
ids_at neighbours [] = []
ids_at neighbours (k ∷ ks) = elim (get_elem? neighbours k) [
  | none ↦ ids_at neighbours ks
  | some p ↦ p.id ∷ ids_at neighbours ks
]

module _ (ids : ChunkIdSets) (cfg : OfferConfig) (sys : System) (fuel : ℕ) where
  -- An offer to the neighbour with the chunks that `compose_offer_cset` puts together for it, under a
  -- transaction id that is not 0.
  abbrev pub IsOffer : List Chunk → ℕ → Offered ids → Type 0
  IsOffer buff id o =
      (o.to ≡ id)
      × (compose_offer_cset ids (cfg.rtt id) cfg.is_source buff ≡ some o.offer_cset)
      × (0 < o.transid)
      × (o.transid < 2 ^ 16)
      × (o.max_deliver ≡ offer_max_deliver cfg.heuristics_distance_maxdeliver (cfg.hops id))

  -- One offer for each, the newest first, before those that were there.
  abbrev pub AreOffers : List Chunk → List ℕ → List (Offered ids) → List (Offered ids) → Type 0
  AreOffers buff [] before offers = offers ≡ before
  AreOffers buff (p ∷ ps) before offers =
      (o : Offered ids) × IsOffer buff p o × AreOffers buff ps (o ∷ before) offers

  created :
      (now sent fresh id t : ℕ) (s : Store) (xs : Cells)
      → s.trans_id ≡ t
      → IsList s xs
      → length xs < fuel
      → fresh ≢ null
      → has fresh (checked now xs) ≡ false
      → (s' : Store) × (transaction_create now sent fuel fresh id s ≡ done (next_trans_id t) s')
        × IsList s' ((fresh, new_service (next_trans_id t) sent id) ∷ checked now xs)
        × (s'.trans_id ≡ next_trans_id t)
  created now sent fresh id t s xs e is f ne out =
      subst
        (λ t.
          (s' : Store) × (transaction_create now sent fuel fresh id s ≡ done (next_trans_id t) s')
          × IsList s' ((fresh, new_service (next_trans_id t) sent id) ∷ checked now xs)
          × (s'.trans_id ≡ next_trans_id t))
        e (transaction_create-cons now sent fuel fresh id s xs is f ne out)

  offer_each-AreOffers :
      (neighbours : List (Peer ids)) (c : Chunk) (cs : List Chunk) (i t : ℕ) (ks : List ℕ)
      → (before : List (Offered ids)) (s : Store) (xs : Cells) → s.trans_id ≡ t
      → All (λ k. (p : Peer ids) × (get_elem? neighbours k ≡ some p)) ks
      → IsList s xs
      → length xs + length ks < fuel
      → IsFresh sys i t (ids_at neighbours ks) xs
      → (offers : List (Offered ids)) × (s' : Store) × (offer_each ids cfg sys fuel neighbours
            (c ∷ cs)
            i
            ks
            before
            s
          ≡ done offers s')
        × IsList s' (after sys i t (ids_at neighbours ks) xs)
        × AreOffers (c ∷ cs) (ids_at neighbours ks) before offers
  unfolding offer_each
  offer_each-AreOffers neighbours c cs i t [] before s xs e a is f fr = (before, s, refl, is, refl)
  offer_each-AreOffers neighbours c cs i t (k ∷ ks) before s xs e ((p, g), a) is f fr =
      let (cset, offered) = composed ids (cfg.rtt p.id) cfg.is_source c cs in
      let at : ids_at neighbours (k ∷ ks) ≡ p.id ∷ ids_at neighbours ks = rw (g, ids_at) refl in
      let (ne, out, fr') = subst (λ l. IsFresh sys i t l xs) at fr in
      let (s1, run, is1, t1) =
        created (sys.now i) (sys.sent i) (sys.fresh i) p.id t s xs e is (omega arith) ne out in
      let o : Offered ids = record {
        to = p.id;
        offer_cset = cset;
        max_deliver = offer_max_deliver cfg.heuristics_distance_maxdeliver (cfg.hops p.id);
        transid = next_trans_id t;
      } in
      let f' = length-checked (sys.now i) xs in
      let (offers, s', run', is', all) =
        offer_each-AreOffers neighbours c cs (suc i) (next_trans_id t) ks (o ∷ before) s1 _ t1 a is1
          (omega arith) fr' in
      let bounds = next_trans_id_bounds t in
      (
        offers,
        s',
        rw (g, offer_each) (rw (run) (rw (offered) run')),
        subst⁻¹ (λ l. IsList s' (after sys i t l xs)) at is',
        subst⁻¹ (λ l. AreOffers (c ∷ cs) l before offers) at
            (o, (refl, offered, bounds.0, bounds.1, refl), all),
      )

  module _ (buffers : ChunkBuffers) (schedulers : Schedulers (Peer ids)) (cb_size_time : ℕ) where
    -- With neighbours and chunks, and unless the losses on the way make it skip: on a well-formed list of
    -- transactions, with rounds enough and addresses from `malloc` that the list does not use, `send_offer` ends
    -- without a fault. Of the peers selected, offer_per_tick at most, each gets one offer, of the chunks that
    -- compose_offer_cset puts together for it, under a transaction id of 16 bits that is not 0; and for each
    -- offer there is a transaction created, in order, as `transaction_create` does it.
    pub send_offer-AreOffers :
        (now : ℕ) (q : Peer ids) (ps : List (Peer ids)) (c : Chunk) (cs : List Chunk) (s : Store)
        → (xs : Cells)
        → let ks =
            selected_peers ids cfg sys fuel buffers schedulers cb_size_time now (q ∷ ps) (c ∷ cs) in
          IsList s xs
          → length xs + cfg.offer_per_tick < fuel
          → IsFresh sys 0 s.trans_id (ids_at (q ∷ ps) ks) xs
          → (offers : List (Offered ids)) × (s' : Store) × (send_offer ids cfg sys fuel buffers
                schedulers cb_size_time false now
                (q ∷ ps)
                (c ∷ cs)
                s
              ≡ done offers s')
            × IsList s' (after sys 0 s.trans_id (ids_at (q ∷ ps) ks) xs)
            × AreOffers (c ∷ cs) (ids_at (q ∷ ps) ks) [] offers
            × (length ks ≤ cfg.offer_per_tick)
    unfolding send_offer selected_peers
    send_offer-AreOffers now q ps c cs s xs is f fr =
        let ids_given = latest_first (c ∷ cs) in
        let filter = needs ids buffers cb_size_time now now (c ∷ cs) in
        let ks = schedulers.select_peers (q ∷ ps) ids_given cfg.offer_per_tick filter in
        let sound =
          All-mono ks (λ k h. let (p, g, n) = h in (p, g))
            (schedulers.peers_sound (q ∷ ps) ids_given cfg.offer_per_tick filter) in
        let bound = schedulers.peers_bounded (q ∷ ps) ids_given cfg.offer_per_tick filter in
        let (offers, s', run, is', all) =
          offer_each-AreOffers (q ∷ ps) c cs 0 s.trans_id ks [] s xs refl sound is (omega arith)
            fr in
        (offers, s', run, is', all, bound)
