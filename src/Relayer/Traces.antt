-- ===== src/Relayer/Traces.antt =====
-- Effects of the relayer that leave tables which calls of the repository make.
use decentralized_claims_reg.Prelude.{
  ℕ, String, Bool, true, false, List, [], ◌∷◌, ◌++◌, ◌≡◌, refl, sym, ap, ◌∙◌, subst, arith,
}
use decentralized_claims_reg.Prelude.Lists.{All, All-append}
use decentralized_claims_reg.Postgres.{Result, ok, err, continue, when◌run◌otherwise◌, ◌>>=◌}
use decentralized_claims_reg.Gasless.Records.{
  Submission, Outbox, state_eq, signed, confirmed, authorized,
}
use decentralized_claims_reg.Gasless.Records as Records
use decentralized_claims_reg.Gasless.Table.{Tx}
use decentralized_claims_reg.Gasless.Run.{
  Call, lists, signs, broadcasts, replaces, confirms, errs, step,
}
use decentralized_claims_reg.Gasless.Run as Run
use decentralized_claims_reg.Relayer.Worker.{
  WorkerError, blockchain, World, Effect, from_store, in_store, answered, ask,
}

-- Some call of the action returned this.
abbrev pub Ended : {A : Type 0} → Effect A → A → Type 0
Ended m a = (w x : World) × (m w ≡ (ok a, x))

answered_ok :
    {A : Type 0} (w x : World) (r : Result String A) (a : A) → answered w r ≡ (ok a, x) → r ≡ ok a
answered_ok w x (ok b) a e = ground (arith, e)
answered_ok w x (err m) a e = absurd (ground (arith, e))

-- What `ask` returned is what the chain answered.
pub ask_answer :
    {A : Type 0} (q : List String → Result String A) (a : A)
    → Ended (ask q) a
    → (sent : List String) × (q sent ≡ ok a)
ask_answer q a (w, x, e) = (w.sent, answered_ok w x (q w.sent) a e)

run-append :
    (s : Outbox) (cs ds : List (ℕ × Call)) → Run.run s (cs ++ ds) ≡ Run.run (Run.run s cs) ds
unfolding Run.run
run-append s [] ds = refl
run-append s (c ∷ cs) ds = run-append (step s c) cs ds

module _ (J : ℕ × Call → Type 0) where
  -- `t` is what some calls in `J` make of `s`.
  abbrev pub IsRun : Outbox → Outbox → Type 0
  IsRun s t = (cs : List (ℕ × Call)) × (t ≡ Run.run s cs) × All J cs

  pub IsRun-same : (s t : Outbox) → t ≡ s → IsRun s t
  unfolding Run.run
  IsRun-same s t e = ([], e, tt)

  pub IsRun-trans : (s t u : Outbox) → IsRun s t → IsRun t u → IsRun s u
  IsRun-trans s t u (cs, e, h) (ds, d, k) =
      (cs ++ ds, d ∙ ap (λ x. Run.run x ds) e ∙ sym (run-append s cs ds), All-append J cs ds h k)

  IsRun-step : (s t : Outbox) (c : ℕ × Call) → J c → t ≡ step s c → IsRun s t
  unfolding Run.run
  IsRun-step s t c j e = (c ∷ [], e, (j, tt))

  -- The effect leaves tables that some calls in `J` make of those before it.
  abbrev pub Traced : {A : Type 0} → World → Result WorkerError A × World → Type 0
  Traced w out = IsRun w.outbox out.1.outbox

  -- It does so from every world.
  abbrev pub Traces : {A : Type 0} → Effect A → Type 0
  Traces m = (w : World) → Traced w (m w)

  module _ {A B : Type 0} where
    continue-Traced :
        (w : World) (out : Result WorkerError A × World) (f : A → Effect B)
        → Traced w out
        → ((a : A) (x : World) → out ≡ (ok a, x) → Traces (f a))
        → Traced w (continue out f)
    continue-Traced w (ok a, x) f h k =
        IsRun-trans w.outbox x.outbox (f a x).1.outbox h (k a x refl x)
    continue-Traced w (err e, x) f h k = h

    pub bind_Traces :
        (m : Effect A) (f : A → Effect B)
        → Traces m
        → ((a : A) → Ended m a → Traces (f a))
        → Traces (m >>= f)
    bind_Traces m f h k w = continue-Traced w (m w) f (h w) (λ a x e. k a (w, x, e))

  module _ {A : Type 0} where
    pub when_Traces :
        (b : Bool) (m n : Effect A)
        → (b ≡ true → Traces m)
        → (b ≡ false → Traces n)
        → Traces (when b run m otherwise n)
    when_Traces true m n h k w = h refl w
    when_Traces false m n h k w = k refl w

    pub still : (out : Result WorkerError A) → Traces (λ w. (out, w))
    still out w = IsRun-same w.outbox w.outbox refl

    store_outbox :
        (w : World) (out : Result Records.Error A × Outbox) → (from_store w out).1.outbox ≡ out.1
    store_outbox w (ok a, s) = refl
    store_outbox w (err e, s) = refl

    pub store_Traces : (m : Tx A) → ((s : Outbox) → IsRun s (m s).1) → Traces (in_store m)
    store_Traces m h w = subst (IsRun w.outbox) (sym (store_outbox w (m w.outbox))) (h w.outbox)

    answer_Traced : (w : World) (r : Result String A) → Traced w (answered w r)
    answer_Traced w (ok a) = still (ok a) w
    answer_Traced w (err m) = still (err (blockchain m)) w

    pub ask-Traces : (q : List String → Result String A) → Traces (ask q)
    ask-Traces q w = answer_Traced w (q w.sent)

  pub call_Traces :
      {A : Type 0} (m : Tx A) (c : ℕ × Call)
      → J c
      → ((s : Outbox) → (m s).1 ≡ step s c)
      → Traces (in_store m)
  call_Traces m c j h = store_Traces m (λ s. IsRun-step s (m s).1 c j (h s))
