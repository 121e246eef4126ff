-- ===== src/Listener/Drain.antt =====
-- What a run of `process_to_safe_head` has done, whether it returns or raises.
use decentralized_claims_reg.Prelude.{
  ℕ, zero, suc, ◌+◌, ◌-◌, Bool, false, Option, none, some, ltb, leb, max, ◌≤◌, ◌<◌, ◌≡◌, ◌≢◌, refl,
  ap, subst, arith, ltb→lt,
}
use decentralized_claims_reg.Postgres.{
  Action, Result, ok, err, pure, continue, when◌run◌otherwise◌, ◌>>=◌, ◌>>◌,
}
use decentralized_claims_reg.Postgres.Rules.{when_ends, bind_ends}
use decentralized_claims_reg.Listener.Poller.{
  Poller, bounded, safe_head, range_end, process_latest, drain, process_to_safe_head,
}

-- `max_block_range` is none or at least 1, as the constructor checks.
abbrev pub HasRange : Option ℕ → Type 0
HasRange none = Unit
HasRange (some n) = 0 < n

module _ {S E : Type 0} (p : Poller S E) (latest : ℕ) where
  -- From the checkpoint `a` in `s`, every block up to `b` was processed once and in order, range
  -- after range, each within the safe head, and saved as it was complete.
  pub data Covers (a : ℕ) (s : S) : ℕ → S → Type 0 where
    none_yet : Covers a s a s
    range :
        {b : ℕ} {t u v : S}
        → Covers a s b t
        → b < range_end p latest b
        → range_end p latest b ≤ safe_head p latest
        → p.process_range (b + 1) (range_end p latest b) t ≡ (ok tt, u)
        → p.save (range_end p latest b) u ≡ (ok tt, v)
        → Covers a s (range_end p latest b) v

  -- How a run ends: at the block it returns, or in the range or the save that raised.
  pub data Outcome (a : ℕ) (s : S) : Result E ℕ × S → Type 0 where
    returns : {b : ℕ} {t : S} → Covers a s b t → Outcome a s (ok b, t)
    range_fails :
        {b : ℕ} {t u : S} {e : E}
        → Covers a s b t
        → p.process_range (b + 1) (range_end p latest b) t ≡ (err e, u)
        → Outcome a s (err e, u)
    save_fails :
        {b : ℕ} {t u v : S} {e : E}
        → Covers a s b t
        → p.process_range (b + 1) (range_end p latest b) t ≡ (ok tt, u)
        → p.save (range_end p latest b) u ≡ (err e, v)
        → Outcome a s (err e, v)

  range_end_bounds :
      (n : Option ℕ) (b : ℕ)
      → HasRange n
      → b < safe_head p latest
      → (b < bounded (safe_head p latest) b n)
        × (bounded (safe_head p latest) b n ≤ safe_head p latest)
  range_end_bounds none b h k = (k, omega arith)
  range_end_bounds (some n) b h k = (omega arith, omega arith)

  module _ (a b : ℕ) (s t : S) (rest : ℕ → Action S E ℕ) (c : Covers a s b t)
      (bounds : (b < range_end p latest b) × (range_end p latest b ≤ safe_head p latest))
      (f : (v : S)
        → Covers a s (range_end p latest b) v
        → Outcome a s (rest (range_end p latest b) v)) where
    after_save :
        (u : S) (out : Result E (Unit {0}) × S)
        → p.process_range (b + 1) (range_end p latest b) t ≡ (ok tt, u)
        → p.save (range_end p latest b) u ≡ out
        → Outcome a s (continue (continue out (λ _. pure (range_end p latest b))) rest)
    after_save u (ok tt, v) done stored = f v (range c bounds.0 bounds.1 done stored)
    after_save u (err e, v) done refused = save_fails c done refused

    after_range :
        (out : Result E (Unit {0}) × S)
        → p.process_range (b + 1) (range_end p latest b) t ≡ out
        → Outcome a s (
            continue
              (continue out (λ _. do p.save (range_end p latest b); pure (range_end p latest b)))
              rest)
    after_range (ok tt, u) done = after_save u (p.save (range_end p latest b) u) done refl
    after_range (err e, u) refused = range_fails c refused

    chunk_Outcome :
        leb (safe_head p latest) b ≡ false → Outcome a s ((process_latest p latest b >>= rest) t)
    unfolding process_latest
    chunk_Outcome behind =
        rw behind (after_range (p.process_range (b + 1) (range_end p latest b) t) refl)

  drain-Outcome :
      (stop : ℕ → Bool) (fuel k a b : ℕ) (s t : S)
      → HasRange p.max_block_range
      → Covers a s b t
      → Outcome a s (drain p stop latest fuel k b t)
  unfolding drain
  drain-Outcome stop zero k a b s t h c = returns c
  drain-Outcome stop (suc fuel) k a b s t h c =
      let next : ℕ → Action S E ℕ = drain p stop latest fuel (k + 1) in
      let go : Action S E ℕ = process_latest p latest b >>= next in
      let unless_stopped : Action S E ℕ = when stop k run pure b otherwise go in
      when_ends (Outcome a s) (ltb b (safe_head p latest)) unless_stopped (pure b) t
        (λ more.
          when_ends (Outcome a s) (stop k) (pure b) go t (λ _. returns c)
            (λ _.
              let behind : b < safe_head p latest = ltb→lt b (safe_head p latest) more in
              chunk_Outcome a b s t next c (range_end_bounds p.max_block_range b h behind)
                (λ v d. drain-Outcome stop fuel (k + 1) a (range_end p latest b) s v h d)
                (ground arith)))
        (λ _. returns c)

  -- Where the range limit is none or at least 1, whatever the processor and the checkpoint do, the
  -- poller processes the blocks after its checkpoint in consecutive ranges up to the safe head at
  -- most, saves each range's end only after the whole range succeeded, and ends at the first range
  -- or save that raises.
  pub process_to_safe_head-Outcome :
      (stop : ℕ → Bool) (last : ℕ) (s : S)
      → HasRange p.max_block_range
      → Outcome last s (process_to_safe_head p stop latest last s)
  unfolding process_to_safe_head
  process_to_safe_head-Outcome stop last s h =
      drain-Outcome stop (safe_head p latest - last) 0 last last s s h none_yet

  -- The block that an action returns, where it returns one.
  abbrev Returns : ℕ → Result E ℕ × S → Type 0
  Returns n out = (b : ℕ) (t : S) → out ≡ (ok b, t) → b ≡ n

  Returns-err : (n : ℕ) (e : E) (u : S) → Returns n (err e, u)
  Returns-err n e u b t same = absurd cc

  Returns-ok : (n : ℕ) (u : S) → Returns n (ok n, u)
  Returns-ok n u b t same = ground arith

  pick : {m n : ℕ} {out : Result E ℕ × S} → m ≡ n → Returns m out → Returns n out
  pick {out = out} same h = subst (λ x. Returns x out) same h

  process_latest-Returns :
      (last : ℕ) (s : S)
      → leb (safe_head p latest) last ≡ false
      → Returns (range_end p latest last) (process_latest p latest last s)
  unfolding process_latest
  process_latest-Returns last s behind =
      let end : ℕ = range_end p latest last in
      let store : Action S E ℕ = (do p.save end; pure end) in
      rw behind (
        bind_ends (Returns end) (p.process_range (last + 1) end) (λ _. store) s
          (λ _ u _.
            bind_ends (Returns end) (p.save end) (λ _. pure end) u (λ _ v _. Returns-ok end v)
              (λ e v _. Returns-err end e v))
          (λ e u _. Returns-err end e u))

  drain-Returns :
      (fuel k last : ℕ) (s : S)
      → HasRange p.max_block_range
      → safe_head p latest ≤ last + fuel
      → Returns (max last (safe_head p latest)) (drain p (λ _. false) latest fuel k last s)
  unfolding drain
  drain-Returns zero k last s h enough = pick (omega arith) (Returns-ok last s)
  drain-Returns (suc fuel) k last s h enough =
      let end : ℕ = max last (safe_head p latest) in
      let next : ℕ → Action S E ℕ = drain p (λ _. false) latest fuel (k + 1) in
      let go : Action S E ℕ = process_latest p latest last >>= next in
      when_ends (Returns end) (ltb last (safe_head p latest)) go (pure last) s
        (λ more.
          bind_ends (Returns end) (process_latest p latest last) next s
            (λ b u e.
              let behind : last < safe_head p latest = ltb→lt last (safe_head p latest) more in
              let bounds : (last < range_end p latest last)
                  × (range_end p latest last ≤ safe_head p latest) =
                range_end_bounds p.max_block_range last h behind in
              let reached : b ≡ range_end p latest last =
                process_latest-Returns last s (ground arith) b u e in
              pick (omega arith) (drain-Returns fuel (k + 1) b u h (omega arith)))
            (λ e u _. Returns-err end e u))
        (λ caught_up. pick (ground arith) (Returns-ok last s))

  module _ (calm : (a b : ℕ) (u v : S) (e : E) → p.process_range a b u ≢ (err e, v))
      (stores : (b : ℕ) (u v : S) (e : E) → p.save b u ≢ (err e, v)) where
    reached :
        (n a : ℕ) (s : S) (out : Result E ℕ × S) → Outcome a s out → Returns n out → out.0 ≡ ok n
    reached n a s (ok b, t) o r = ap ok (r b t refl)
    reached n a s (err e, u) (range_fails {b} {t} c x) r =
        absurd (calm (b + 1) (range_end p latest b) t u e x)
    reached n a s (err e, v) (save_fails {b} {u = u} c x y) r =
        absurd (stores (range_end p latest b) u v e y)

    -- Where the range limit is none or at least 1, the processor and the checkpoint do not raise
    -- and nothing stops it, the poller returns the safe head, or its checkpoint where that is not
    -- behind: its chunks are as many as it takes.
    pub process_to_safe_head_reaches :
        (last : ℕ) (s : S)
        → HasRange p.max_block_range
        → (process_to_safe_head p (λ _. false) latest last s).0 ≡ ok (max last (safe_head p latest))
    unfolding process_to_safe_head
    process_to_safe_head_reaches last s h =
        reached (max last (safe_head p latest)) last s
          (process_to_safe_head p (λ _. false) latest last s)
          (process_to_safe_head-Outcome (λ _. false) last s h)
          (drain-Returns (safe_head p latest - last) 0 last s h (omega arith))
