-- ===== src/Listener/Keeping.antt =====
-- The processing of a range leaves the checkpoints of the index as they are.
use decentralized_claims_reg.Prelude.{
  ℕ, String, Bool, true, false, Option, none, some, List, [], ◌∷◌, ◌≡◌, refl, ◌∙◌, inl, inr,
  Bool-cases, arith, ap,
}
use decentralized_claims_reg.Prelude.Lists.{find}
use decentralized_claims_reg.Postgres.{
  Result, ok, err, continue, finish, when◌run◌otherwise◌, ◌>>◌, pure,
}
use decentralized_claims_reg.Index.Tables as Tables
use decentralized_claims_reg.Index.Tables.{Index, Log, ClaimRow, CheckpointRow}
use decentralized_claims_reg.Index.Write.{
  index_claim_submitted, index_claim_assessed, after_update, check_claim, not_after, is_claim,
}
use decentralized_claims_reg.Listener.Events.{
  Event, submitted, assessed, Message, ListenerError, permanent, ipfs_failed, not_acknowledged,
  index_failed, World, Services, Effect, IpfsError, invalid_pointer, download_failed, from_index,
  in_index, event_log, check_hash, check_download, verified_payload, message, publish,
  handle_claim_submitted, handle_claim_assessed, handle, quarantine, recover, dispatch,
  dispatch_all, process_range, in_chain_order, entries,
}

submitted_checkpoints :
    (l : Log) (claimant hash pointer : String) (now : ℕ) (s : Index)
    → (index_claim_submitted l claimant hash pointer now s).1.checkpoints ≡ s.checkpoints
unfolding index_claim_submitted
submitted_checkpoints l claimant hash pointer now s = refl

check_claim_state : (o : Option ClaimRow) (t : Index) → (check_claim o t).1 ≡ t
unfolding check_claim
check_claim_state none t = refl
check_claim_state (some r) t = refl

after_update_state : (l : Log) (o : Option ClaimRow) (t : Index) → (after_update l o t).1 ≡ t
unfolding after_update
after_update_state l none t = check_claim_state (find (is_claim l) t.claims) t
after_update_state l (some r) t = refl

-- What a transaction from `s` leaves.
finished :
    (s : Index) (cs : List CheckpointRow) (out : Result Tables.Error (Unit {0}) × Index)
    → s.checkpoints ≡ cs
    → out.1.checkpoints ≡ cs
    → (finish (λ e. e) s out).1.checkpoints ≡ cs
finished s cs (ok a, t) h k = k
finished s cs (err e, t) h k = h

assessed_checkpoints :
    (l : Log) (status score now : ℕ) (s : Index)
    → (index_claim_assessed l status score now s).1.checkpoints ≡ s.checkpoints
unfolding index_claim_assessed
assessed_checkpoints l status score now s =
    finished s s.checkpoints _ refl
      (ap (λ (t : Index). t.checkpoints) (after_update_state l (find (not_after l) s.claims) _))

abbrev Kept : World → Result ListenerError (Unit {0}) × World → Type 0
Kept w out = out.1.index.checkpoints ≡ w.index.checkpoints

abbrev Keeps : Effect (Unit {0}) → Type 0
Keeps m = (w : World) → Kept w (m w)

Keeps-then : (m f : Effect (Unit {0})) → Keeps m → Keeps f → Keeps (m >> f)
Keeps-then m f h k w = continued (m w) (h w)
  where
    continued :
        (out : Result ListenerError (Unit {0}) × World)
        → Kept w out
        → Kept w (continue out (λ _. f))
    continued (ok a, x) e = k x ∙ e
    continued (err i, x) e = e

Keeps-when :
    (b : Bool) (m n : Effect (Unit {0})) → Keeps m → Keeps n → Keeps (when b run m otherwise n)
Keeps-when true m n h k w = h w
Keeps-when false m n h k w = k w

index_Kept :
    (w : World) (out : Result Tables.Error (Unit {0}) × Index)
    → out.1.checkpoints ≡ w.index.checkpoints
    → Kept w (from_index w out)
index_Kept w (ok a, s) e = e
index_Kept w (err i, s) e = e

module _ (v : Services) where
  check_Kept : (hash : String) (out : Result IpfsError String) → Keeps (check_download v hash out)
  unfolding check_download check_hash
  check_Kept hash (ok payload) w = ground arith
  check_Kept hash (err invalid_pointer) w = refl
  check_Kept hash (err download_failed) w = refl

  publish-Keeps : (p : Option (List Message → Message → Bool)) (m : Message) → Keeps (publish p m)
  unfolding publish
  publish-Keeps none m w = refl
  publish-Keeps (some acknowledges) m w = elim (Bool-cases (acknowledges w.topic m)) [
    | inl e ↦ rw e refl
    | inr e ↦ rw e refl
  ]

  handle-Keeps : (now : ℕ) (e : Event) → Keeps (handle v now e)
  unfolding handle handle_claim_submitted handle_claim_assessed verified_payload
  handle-Keeps now (submitted c claimant hash pointer) =
      let write : Effect (Unit {0}) =
        in_index (index_claim_submitted (event_log v c) claimant hash pointer now) in
      let check : Effect (Unit {0}) = check_download v hash (v.download_pointer pointer) in
      let send : Effect (Unit {0}) = publish v.publisher (message v c claimant hash pointer) in
      Keeps-then (when v.has_indexer run write otherwise pure tt) (check >> send)
        (Keeps-when v.has_indexer write (pure tt)
          (λ w.
            index_Kept w _
              (submitted_checkpoints (event_log v c) claimant hash pointer now w.index))
          (λ w. refl))
        (Keeps-then check send (check_Kept hash (v.download_pointer pointer))
          (publish-Keeps v.publisher (message v c claimant hash pointer)))
  handle-Keeps now (assessed c status score) =
      Keeps-when v.has_indexer (in_index (index_claim_assessed (event_log v c) status score now))
        (pure tt)
        (λ w. index_Kept w _ (assessed_checkpoints (event_log v c) status score now w.index))
        (λ w. refl)

  recover-Kept :
      (w : World) (e : Event) (out : Result ListenerError (Unit {0}) × World)
      → Kept w out
      → Kept w (recover v e out)
  unfolding recover quarantine
  recover-Kept w e (ok a, x) h = h
  recover-Kept w e (err (permanent reason), x) h = ground (arith, h)
  recover-Kept w e (err ipfs_failed, x) h = h
  recover-Kept w e (err not_acknowledged, x) h = h
  recover-Kept w e (err (index_failed i), x) h = h

  dispatch_all-Keeps : (now : ℕ) (es : List Event) → Keeps (dispatch_all v now es)
  unfolding dispatch_all dispatch
  dispatch_all-Keeps now [] = λ w. refl
  dispatch_all-Keeps now (e ∷ rest) =
      Keeps-then (dispatch v now e) (dispatch_all v now rest)
        (λ w. recover-Kept w e (handle v now e w) (handle-Keeps now e w))
        (dispatch_all-Keeps now rest)

  pub process_range_checkpoints :
      (now from to : ℕ) (w : World)
      → (process_range v now from to w).1.index.checkpoints ≡ w.index.checkpoints
  unfolding process_range
  process_range_checkpoints now from to =
      dispatch_all-Keeps now (in_chain_order (entries v from to))
