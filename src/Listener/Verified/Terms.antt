-- ===== src/Listener/Verified/Terms.antt =====
-- What it is for a submission to be settled, and how the outputs of the listener grow.
use decentralized_claims_reg.Prelude.{
  String, none, List, [], ◌++◌, ◌≡◌, sym, ap, ◌∙◌, subst, ◌⊎◌, inl, inr,
}
use decentralized_claims_reg.Prelude.Lists.{
  All, All-append, Some, Some-left, append-nil, append_assoc,
}
use decentralized_claims_reg.Postgres.{Result, ok, err, continue, ◌>>◌}
use decentralized_claims_reg.Listener.Events.{
  Event, submitted, assessed, Message, DeadLetter, ListenerError, World, Services, Effect, message,
  dead_letter,
}

module _ (v : Services) where
  -- The document at the pointer hashes to what the log says.
  abbrev pub Valid : String → String → Type 0
  Valid pointer hash =
      (payload : String) × (v.download_pointer pointer ≡ ok payload) × (v.keccak payload ≡ hash)

  abbrev pub Verified : Message → Type 0
  Verified m = Valid m.data_pointer m.claim_hash

  -- A submission is on the topic, if there is one, or in the dead-letter file.
  abbrev pub Settled : World → Event → Type 0
  Settled w (submitted c claimant hash pointer) =
      (Valid pointer hash
        × ((v.publisher ≡ none) ⊎ Some (λ m. m ≡ message v c claimant hash pointer) w.topic))
      ⊎ Some (λ d. (reason : String) × (d ≡ dead_letter (submitted c claimant hash pointer) reason))
          w.dead_letters
  Settled w (assessed c status score) = Unit

  -- Both outputs are only appended to, and what is new on the topic is verified.
  pub record Grew (w w' : World) : Type 0 where
    pub new : List Message
    pub dead : List DeadLetter
    pub topic_grows : w'.topic ≡ w.topic ++ new
    pub dead_grows : w'.dead_letters ≡ w.dead_letters ++ dead
    pub new_verified : All Verified new

  pub Grew-same : (w w' : World) → w'.topic ≡ w.topic → w'.dead_letters ≡ w.dead_letters → Grew w w'
  Grew-same w w' e d = record {
    new = [];
    dead = [];
    topic_grows = e ∙ sym (append-nil w.topic);
    dead_grows = d ∙ sym (append-nil w.dead_letters);
    new_verified = tt;
  }

  pub Grew-trans : (u w x : World) → Grew u w → Grew w x → Grew u x
  Grew-trans u w x g h = record {
    new = g.new ++ h.new;
    dead = g.dead ++ h.dead;
    topic_grows =
        h.topic_grows ∙ ap (λ t. t ++ h.new) g.topic_grows ∙ append_assoc u.topic g.new h.new;
    dead_grows =
        h.dead_grows
        ∙ ap (λ t. t ++ h.dead) g.dead_grows
        ∙ append_assoc u.dead_letters g.dead h.dead;
    new_verified = All-append Verified g.new h.new g.new_verified h.new_verified;
  }

  pub Settled-Grew : (w x : World) (e : Event) → Grew w x → Settled w e → Settled x e
  Settled-Grew w x (submitted c claimant hash pointer) g (inl (ok_, inl off)) = inl (ok_, inl off)
  Settled-Grew w x (submitted c claimant hash pointer) g (inl (ok_, inr on)) = inl (
    ok_,
    inr (
        subst (Some (λ m. m ≡ message v c claimant hash pointer)) (sym g.topic_grows)
          (Some-left _ w.topic g.new on)),
  )
  Settled-Grew w x (submitted c claimant hash pointer) g (inr buried) = inr (
      subst
        (Some
          (λ d. (reason : String) × (d ≡ dead_letter (submitted c claimant hash pointer) reason)))
        (sym g.dead_grows) (Some-left _ w.dead_letters g.dead buried))
  Settled-Grew w x (assessed c status score) g h = tt

  -- How an effect from `w` ends: its outputs grew, and on success `P` holds of the world.
  abbrev pub Ends : World → (World → Type 0) → Result ListenerError (Unit {0}) × World → Type 0
  Ends w P (ok a, x) = Grew w x × P x
  Ends w P (err e, x) = Grew w x

  pub Ends-bind :
      (w : World) (P Q : World → Type 0) (m f : Effect (Unit {0}))
      → Ends w P (m w)
      → ((x : World) → P x → Ends x Q (f x))
      → Ends w Q ((m >> f) w)
  Ends-bind w P Q m f h k = continued (m w) h
    where
      onward :
          (x : World) (out : Result ListenerError (Unit {0}) × World)
          → Grew w x
          → Ends x Q out
          → Ends w Q out
      onward x (ok a, y) g e = (Grew-trans w x y g e.0, e.1)
      onward x (err e, y) g d = Grew-trans w x y g d

      continued :
          (out : Result ListenerError (Unit {0}) × World)
          → Ends w P out
          → Ends w Q (continue out (λ _. f))
      continued (ok a, x) h = onward x (f x) h.0 (k x h.1)
      continued (err e, x) h = h
