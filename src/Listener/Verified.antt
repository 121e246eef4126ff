-- ===== src/Listener/Verified.antt =====
-- What the processing of a range publishes and quarantines.
pub mod Terms
unfoldable pub use Terms.*
use decentralized_claims_reg.Prelude.{
  ℕ, String, Bool, true, false, Option, none, some, List, [], ◌∷◌, ◌++◌, ◌≡◌, refl, sym, ap, ◌∙◌,
  subst, ◌⊎◌, inl, inr, Bool-cases, if◌then◌else◌,
}
use decentralized_claims_reg.Prelude.Text.{str_eq, eq_iff}
use decentralized_claims_reg.Prelude.Lists.{
  All, All-append, Some, Some-left, Some-last, append-nil, append_assoc,
}
use decentralized_claims_reg.Postgres.{Result, ok, err, continue, when◌run◌otherwise◌, ◌>>◌, pure}
use decentralized_claims_reg.Index.Tables as Tables
use decentralized_claims_reg.Index.Tables.{Index, at_or_before, claim_submitted, claim_assessed}
use decentralized_claims_reg.Index.Write.{index_claim_submitted, index_claim_assessed}
use decentralized_claims_reg.Listener.Events.{
  ChainLog, Event, submitted, assessed, Message, DeadLetter, ListenerError, permanent, ipfs_failed,
  not_acknowledged, index_failed, World, Services, Effect, from_index, in_index, event_log,
  check_hash, check_download, verified_payload, message, publish, handle_claim_submitted,
  handle_claim_assessed, handle, dead_letter, quarantine, recover, dispatch, dispatch_all,
  place_event, in_chain_order, entries, process_range, IpfsError, invalid_pointer, download_failed,
}

module _ (v : Services) where
  index_Ends :
      (w : World) (out : Result Tables.Error (Unit {0}) × Index)
      → Ends v w (λ _. Unit) (from_index w out)
  index_Ends w (ok a, s) = (Grew-same v w _ refl refl, tt)
  index_Ends w (err e, s) = Grew-same v w _ refl refl

  indexed_Ends :
      (w : World) (b : Bool) (m : Index → Result Tables.Error (Unit {0}) × Index)
      → Ends v w (λ _. Unit) ((when b run in_index m otherwise pure tt) w)
  indexed_Ends w true m = index_Ends w (m w.index)
  indexed_Ends w false m = (Grew-same v w w refl refl, tt)

  check_Ends :
      (w : World) (pointer hash : String) (out : Result IpfsError String)
      → v.download_pointer pointer ≡ out
      → Ends v w (λ _. Valid v pointer hash) (check_download v hash out w)
  unfolding check_download check_hash
  check_Ends w pointer hash (ok payload) e = elim (Bool-cases (str_eq (v.keccak payload) hash)) [
    | inl t ↦ rw t (Grew-same v w w refl refl, (payload, e, (eq_iff (v.keccak payload) hash).0 t))
    | inr t ↦ rw t (Grew-same v w w refl refl)
  ]
  check_Ends w pointer hash (err invalid_pointer) e = Grew-same v w w refl refl
  check_Ends w pointer hash (err download_failed) e = Grew-same v w w refl refl

  module _ (c : ChainLog) (claimant hash pointer : String) where
    publish-Ends :
        (w : World) (p : Option (List Message → Message → Bool))
        → v.publisher ≡ p
        → Valid v pointer hash
        → Ends v w
            (λ x. Settled v x (submitted c claimant hash pointer))
            (publish p (message v c claimant hash pointer) w)
    unfolding publish message
    publish-Ends w none e h = (Grew-same v w w refl refl, inl (h, inl e))
    publish-Ends w (some acknowledges) e h =
        elim (Bool-cases (acknowledges w.topic (message v c claimant hash pointer))) [
          | inl t ↦ rw t (
            record {
              new = message v c claimant hash pointer ∷ [];
              dead = [];
              topic_grows = refl;
              dead_grows = sym (append-nil w.dead_letters);
              new_verified = (h, tt);
            },
            inl (h, inr (Some-last _ w.topic (message v c claimant hash pointer) refl)),
          )
          | inr t ↦ rw t (Grew-same v w w refl refl)
        ]

  handle-Ends : (w : World) (now : ℕ) (e : Event) → Ends v w (λ x. Settled v x e) (handle v now e w)
  unfolding handle handle_claim_submitted handle_claim_assessed verified_payload
  handle-Ends w now (submitted c claimant hash pointer) =
      let check : Effect (Unit {0}) = check_download v hash (v.download_pointer pointer) in
      let send : Effect (Unit {0}) = publish v.publisher (message v c claimant hash pointer) in
      let write : Index → Result Tables.Error (Unit {0}) × Index =
        index_claim_submitted (event_log v c) claimant hash pointer now in
      Ends-bind v w (λ _. Unit) (λ x. Settled v x (submitted c claimant hash pointer))
        (when v.has_indexer run in_index write otherwise pure tt) (check >> send)
        (indexed_Ends w v.has_indexer write)
        λ x _.
          Ends-bind v x (λ _. Valid v pointer hash)
            (λ y. Settled v y (submitted c claimant hash pointer)) check send
            (check_Ends x pointer hash (v.download_pointer pointer) refl)
            λ y h. publish-Ends c claimant hash pointer y v.publisher refl h
  handle-Ends w now (assessed c status score) =
      indexed_Ends w v.has_indexer (index_claim_assessed (event_log v c) status score now)

  buried :
      (x : World) (e : Event) (reason : String)
      → Settled v (record x { dead_letters = x.dead_letters ++ dead_letter e reason ∷ [] }) e
  buried x (submitted c claimant hash pointer) reason =
      inr (Some-last _ x.dead_letters _ (reason, refl))
  buried x (assessed c status score) reason = tt

  quarantine-Ends :
      (w x : World) (e : Event) (reason : String) (b : Bool)
      → Grew v w x
      → Ends v w (λ y. Settled v y e) (quarantine b e reason x)
  unfolding quarantine
  quarantine-Ends w x e reason true g = (
    Grew-trans v w x _ g (record {
      new = [];
      dead = dead_letter e reason ∷ [];
      topic_grows = sym (append-nil x.topic);
      dead_grows = refl;
      new_verified = tt;
    }),
    buried x e reason,
  )
  quarantine-Ends w x e reason false g = g

  recover-Ends :
      (w : World) (e : Event) (out : Result ListenerError (Unit {0}) × World)
      → Ends v w (λ x. Settled v x e) out
      → Ends v w (λ x. Settled v x e) (recover v e out)
  unfolding recover
  recover-Ends w e (ok a, x) h = h
  recover-Ends w e (err (permanent reason), x) h = quarantine-Ends w x e reason v.has_dead_letter h
  recover-Ends w e (err ipfs_failed, x) h = h
  recover-Ends w e (err not_acknowledged, x) h = h
  recover-Ends w e (err (index_failed i), x) h = h

  dispatch_all-Ends :
      (now : ℕ) (es : List Event) (w : World)
      → Ends v w (λ x. All (Settled v x) es) (dispatch_all v now es w)
  unfolding dispatch_all dispatch
  dispatch_all-Ends now [] w = (Grew-same v w w refl refl, tt)
  dispatch_all-Ends now (e ∷ rest) w =
      Ends-bind v w (λ x. Settled v x e) (λ x. All (Settled v x) (e ∷ rest)) (dispatch v now e)
        (dispatch_all v now rest) (recover-Ends w e (handle v now e w) (handle-Ends w now e))
        λ x h. kept x h (dispatch_all v now rest x) (dispatch_all-Ends now rest x)
    where
      kept :
          (x : World)
          → Settled v x e
          → (out : Result ListenerError (Unit {0}) × World)
          → Ends v x (λ y. All (Settled v y) rest) out
          → Ends v x (λ y. All (Settled v y) (e ∷ rest)) out
      kept x h (ok a, y) k = (k.0, (Settled-Grew v x y e k.0 h, k.1))
      kept x h (err i, y) k = k

  module _ (P : Event → Type 0) where
    placed :
        (e f : Event) (es further : List Event) (b : Bool)
        → (All P further → P e × All P es)
        → All P (if b then e ∷ f ∷ es else f ∷ further)
        → P e × All P (f ∷ es)
    placed e f es further true k h = h
    placed e f es further false k h = let l : P e × All P es = k h.1 in (l.0, (h.0, l.1))

    All-place : (e : Event) (es : List Event) → All P (place_event e es) → P e × All P es
    unfolding place_event
    All-place e [] h = h
    All-place e (f ∷ es) h = placed e f es (place_event e es) _ (All-place e es) h

    All-order : (es : List Event) → All P (in_chain_order es) → All P es
    unfolding in_chain_order
    All-order [] h = tt
    All-order (e ∷ es) h =
        let k : P e × All P (in_chain_order es) = All-place e (in_chain_order es) h in
        (k.0, All-order es k.1)

  -- How a range ends.
  pub data RangeEnds (w : World) (from to : ℕ)
      : Result ListenerError (Unit {0}) × World → Type 0 where
    completes :
        {x : World}
        → Grew v w x
        → All (Settled v x) (entries v from to)
        → RangeEnds w from to (ok tt, x)
    stops : {x : World} {e : ListenerError} → Grew v w x → RangeEnds w from to (err e, x)

  range_ends :
      (w : World) (from to : ℕ) (out : Result ListenerError (Unit {0}) × World)
      → Ends v w (λ x. All (Settled v x) (in_chain_order (entries v from to))) out
      → RangeEnds w from to out
  range_ends w from to (ok tt, x) h =
      completes h.0 (All-order (Settled v x) (entries v from to) h.1)
  range_ends w from to (err e, x) h = stops h

  -- A range appends to the topic only messages whose document hashes to the anchored hash, and
  -- takes nothing from the topic or the dead letters, also where it raises. Where it succeeds,
  -- each submission of the range is verified and on the topic (if there is a publisher), or it is
  -- in the dead-letter file.
  pub process_range_settles :
      (now : ℕ) (w : World) (from to : ℕ) → RangeEnds w from to (process_range v now from to w)
  unfolding process_range
  process_range_settles now w from to =
      range_ends w from to _ (dispatch_all-Ends now (in_chain_order (entries v from to)) w)
