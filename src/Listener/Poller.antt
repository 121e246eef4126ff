-- ===== src/Listener/Poller.antt =====
-- ConfirmedBlockPoller. `S` is what its two collaborators change: the processor of a block range
-- and the checkpoint. A block number is a natural number, so the deployment is not at block 0.
use decentralized_claims_reg.Prelude.{
  ℕ, zero, suc, ◌+◌, ◌-◌, Bool, Option, none, some, ltb, leb, min,
}
use decentralized_claims_reg.Postgres.{Action, pure, when◌run◌otherwise◌, ◌>>=◌, ◌>>◌}

-- `BlockRangeProcessor`, `BlockCheckpoint` and the configuration.
pub record Poller (S E : Type 0) : Type 0 where
  pub process_range : ℕ → ℕ → Action S E (Unit {0})
  pub save : ℕ → Action S E (Unit {0})
  pub confirmation_blocks : ℕ
  pub max_block_range : Option ℕ

abbrev pub bounded : ℕ → ℕ → Option ℕ → ℕ
bounded safe last none = safe
bounded safe last (some n) = min safe (last + n)

module _ {S E : Type 0} where
  -- `latest_block - self.confirmation_blocks`; below 0 the poller does nothing, as at 0.
  abbrev pub safe_head : Poller S E → ℕ → ℕ
  safe_head p latest = latest - p.confirmation_blocks

  abbrev pub range_end : Poller S E → ℕ → ℕ → ℕ
  range_end p latest last = bounded (safe_head p latest) last p.max_block_range

  unfoldable pub process_latest : Poller S E → ℕ → ℕ → Action S E ℕ
  process_latest p latest last = when leb (safe_head p latest) last run pure last otherwise do
    p.process_range (last + 1) (range_end p latest last)
    p.save (range_end p latest last)
    pure (range_end p latest last)

  -- The loop of `process_to_safe_head` for at most `fuel` chunks; `should_stop k` is what
  -- `should_stop` answers before chunk `k`.
  unfoldable pub drain : Poller S E → (ℕ → Bool) → ℕ → ℕ → ℕ → ℕ → Action S E ℕ
  unfolding process_latest
  drain p should_stop latest zero k last = pure last
  drain p should_stop latest (suc fuel) k last =
      when ltb last (safe_head p latest)
      run (when should_stop k run pure last otherwise do
        next ← process_latest p latest last
        drain p should_stop latest fuel (k + 1) next)
      otherwise pure last

  -- Each chunk is a block or more, so there are no more chunks than blocks.
  unfoldable pub process_to_safe_head : Poller S E → (ℕ → Bool) → ℕ → ℕ → Action S E ℕ
  unfolding drain
  process_to_safe_head p should_stop latest last =
      drain p should_stop latest (safe_head p latest - last) 0 last
