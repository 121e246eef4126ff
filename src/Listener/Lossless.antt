-- ===== src/Listener/Lossless.antt =====
-- What holds of the listener's loop and the claim index after any polls, failures and restarts.
use decentralized_claims_reg.Prelude.{
  ℕ, Option, none, some, List, [], ◌∷◌, ◌≡◌, refl, sym, ap, subst, ◌+◌, ◌≤◌, max, arith,
}
use decentralized_claims_reg.Prelude.Lists.{All, All-imp, All-trivial, keep}
use decentralized_claims_reg.Postgres.{Result, ok, err}
use decentralized_claims_reg.Index.Write.{block_or}
use decentralized_claims_reg.Listener.Poller.{range_end}
use decentralized_claims_reg.Listener.Events.{Event, ListenerError, World}
use decentralized_claims_reg.Listener.Verified.{Grew, process_range_settles}
use decentralized_claims_reg.Listener.Drain.{
  HasRange, Covers, none_yet, range, Outcome, returns, range_fails, save_fails,
  process_to_safe_head-Outcome,
}
use decentralized_claims_reg.Listener.Delivery.{
  up_to, kept_if, keep_if, Delivered, ok_ends, err_ends,
}
use decentralized_claims_reg.Listener.Loop.{
  Config, Round, Happening, polls, restarts, Listener, services, poller, poll, after_poll, step,
  run,
}
use decentralized_claims_reg.Listener.Ranges.{
  stored, bound, Answers, Held, saved_bounds, save_bound, save_returns, range_bound, Held-Grew,
  Held-advance,
}

module _ (c : Config) where
  module _ (chain : List Event) where
    abbrev pub IsSound : Happening → Type 0
    IsSound (polls r) = Answers c chain r
    IsSound restarts = Unit

    -- The process is not ahead of the checkpoint, and every submission up to the checkpoint was
    -- delivered.
    pub record IsLossless (l : Listener) : Type 0 where
      pub behind : l.last_processed ≤ bound c l.world
      pub delivered : All (Delivered c l.world) (keep (up_to c.origin (bound c l.world)) chain)

    module _ (r : Round) where
      module _ (latest : ℕ) (known : r.latest ≡ some latest) (sound : Answers c chain r) (a : ℕ)
          (s : World) where
        -- Where the ranges up to block `n` are done.
        record Done (n : ℕ) (w : World) : Type 0 where
          from_here : a ≤ n
          reached : n ≤ bound c w
          held : Held c chain (bound c w) w

        Covers-Done : {n : ℕ} {w : World} → Done a s → Covers (poller c r) latest a s n w → Done n w
        Covers-Done d none_yet = d
        Covers-Done d (range {b} {t} {u} {v} before more safe processed saved_) =
            let end : ℕ = range_end (poller c r) latest b in
            let done = Covers-Done d before in
            let kept = range_bound c r (b + 1) end t u (ok tt) processed in
            let (settled_grew, settled) =
              ok_ends c r t u (b + 1) end _
                (process_range_settles (services c r) r.now t (b + 1) end) processed in
            let (put, same) = save_bound c r end u v saved_ in
            let (most, least) = saved_bounds c end (stored c u) in
            let far : bound c v ≤ max (bound c u) end = omega (arith, put, most) in
            record {
              from_here = omega (arith, done.from_here, more);
              reached = omega (arith, put, least);
              held = Held-Grew c chain r (bound c v) u v same (
                  Held-advance c chain r (bound c u) (bound c v) b end u
                    (omega (arith, done.reached, kept)) far
                    (Held-Grew c chain r (bound c u) t u settled_grew
                      (subst (λ n. Held c chain n t) (sym kept) done.held))
                    settled (sound latest (b + 1) end known safe));
            }

        Done-IsLossless :
            {n : ℕ} {w : World} → Done n w → IsLossless (record { last_processed = n; world = w })
        Done-IsLossless {n} {w} d = record {
          behind = d.reached;
          delivered = keep_if (up_to c.origin (bound c w)) (Delivered c w) chain d.held;
        }

        -- After a failure the loop goes on from where the poll began.
        failed-IsLossless :
            {n : ℕ} {w x : World}
            → Done n w
            → bound c x ≡ bound c w
            → Grew (services c r) w x
            → IsLossless (record { last_processed = a; world = x })
        failed-IsLossless {n} {w} {x} d same g = record {
          behind = omega (arith, d.from_here, d.reached, same);
          delivered = keep_if (up_to c.origin (bound c x)) (Delivered c x) chain (
              Held-Grew c chain r (bound c x) w x g
                (subst (λ k. Held c chain k w) (sym same) d.held));
        }

        Outcome-IsLossless :
            (out : Result ListenerError ℕ × World)
            → Done a s
            → Outcome (poller c r) latest a s out
            → IsLossless (after_poll c a out)
        Outcome-IsLossless out d (returns {b} {t} before) = Done-IsLossless (Covers-Done d before)
        Outcome-IsLossless out d (range_fails {b} {t} {u} {e} before failed) =
            let end : ℕ = range_end (poller c r) latest b in
            failed-IsLossless (Covers-Done d before)
              (range_bound c r (b + 1) end t u (err e) failed)
              (err_ends c r t u (b + 1) end e _
                (process_range_settles (services c r) r.now t (b + 1) end) failed)
        Outcome-IsLossless out d (save_fails {b} {t} {u} {v} {e} before processed failed) =
            absurd (save_returns c r (range_end (poller c r) latest b) u v e failed)

    module _ (ranges : HasRange c.max_block_range) where
      poll-IsLossless :
          (r : Round) (latest : Option ℕ) (l : Listener)
          → r.latest ≡ latest
          → Answers c chain r
          → IsLossless l
          → IsLossless (poll c r latest l)
      poll-IsLossless r none l known sound h = h
      poll-IsLossless r (some latest) l known sound h =
          Outcome-IsLossless r latest known sound l.last_processed l.world _
            (record {
              from_here = omega arith;
              reached = h.behind;
              held =
                  kept_if (up_to c.origin (bound c l.world)) (Delivered c l.world) chain
                    h.delivered;
            })
            (process_to_safe_head-Outcome (poller c r) latest r.should_stop l.last_processed l.world
              ranges)

      step-IsLossless :
          (h : Happening) (l : Listener) → IsSound h → IsLossless l → IsLossless (step c h l)
      unfolding step
      step-IsLossless (polls r) l sound h = poll-IsLossless r r.latest l refl sound h
      step-IsLossless restarts l sound h = record { behind = omega arith; delivered = h.delivered }

      run_on :
          (history : List Happening) (l : Listener)
          → All IsSound history
          → IsLossless l
          → IsLossless (run c history l)
      unfolding run
      run_on [] l sound h = h
      run_on (x ∷ history) l sound h =
          run_on history (step c x l) sound.1 (step-IsLossless x l sound.0 h)

      -- The listener, with a Kafka publisher, is started on an index that has no checkpoint, and
      -- then polls, fails, is stopped and is started again in any order. Where the range limit
      -- is none or at least 1, and the node answers each query up to a confirmed block with
      -- every submission of the chain in it: the process is never ahead of the checkpoint, and
      -- of every submission after the origin and up to the checkpoint the message is on the
      -- topic or a line in the dead-letter file.
      pub run-IsLossless :
          (history : List Happening) (l : Listener)
          → stored c l.world ≡ none
          → All IsSound history
          → IsLossless (run c (restarts ∷ history) l)
      unfolding run step
      run-IsLossless history l empty sound =
          let none_yet_ : bound c l.world ≡ c.origin = ap (block_or c.origin) empty in
          run_on history _ sound (record {
            behind = omega arith;
            delivered = keep_if (up_to c.origin (bound c l.world)) (Delivered c l.world) chain (
                All-imp (λ _. Unit {0}) _ chain (λ e _ up. absurd (ground (arith, up, none_yet_)))
                  (All-trivial chain));
          })
