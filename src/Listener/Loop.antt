-- ===== src/Listener/Loop.antt =====
-- The loop of `main` in claims_listener.py: polls, failures that it logs, and restarts, with the
-- checkpoint in the claim index (`PostgresClaimIndexCheckpoint`).
use decentralized_claims_reg.Prelude.{ℕ, String, Bool, Option, none, some, List, [], ◌∷◌}
use decentralized_claims_reg.Postgres.{Result, ok, err}
use decentralized_claims_reg.Index.Tables as Tables
use decentralized_claims_reg.Index.Tables.{EventType, Index}
use decentralized_claims_reg.Index.Write.{save_checkpoint, load_checkpoint}
use decentralized_claims_reg.Listener.Poller.{Poller, process_to_safe_head}
use decentralized_claims_reg.Listener.Events.{
  Event, Message, IpfsError, ListenerError, World, Services, in_index, process_range,
}

-- The deployment and the settings, which last, with a Kafka publisher; `origin` is one block before the configured start.
pub record Config : Type 0 where
  pub chain_id : ℕ
  pub contract_address : String
  pub keccak : String → String
  pub has_indexer : Bool
  pub has_dead_letter : Bool
  pub confirmation_blocks : ℕ
  pub max_block_range : Option ℕ
  pub origin : ℕ

-- What the adapters answer in one round of the loop. `latest` is none where the node raised, and
-- `should_stop k` is what the shutdown signal says before chunk `k`.
pub record Round : Type 0 where
  pub latest : Option ℕ
  pub should_stop : ℕ → Bool
  pub now : ℕ
  pub get_logs : EventType → ℕ → ℕ → List Event
  pub download_pointer : String → Result IpfsError String
  pub acknowledges : List Message → Message → Bool

-- A process that was ended or that died starts again.
pub data Happening : Type 0 where
  polls : Round → Happening
  restarts : Happening

-- The process's `last_processed`, and what it writes to.
pub record Listener : Type 0 where
  pub last_processed : ℕ
  pub world : World

module _ (c : Config) where
  abbrev pub services : Round → Services
  services r = record {
    chain_id = c.chain_id;
    contract_address = c.contract_address;
    get_logs = r.get_logs;
    download_pointer = r.download_pointer;
    keccak = c.keccak;
    has_indexer = c.has_indexer;
    has_dead_letter = c.has_dead_letter;
    publisher = some r.acknowledges;
  }

  abbrev pub poller : Round → Poller World ListenerError
  poller r = record {
    process_range = process_range (services r) r.now;
    save = λ block. in_index (save_checkpoint c.chain_id c.contract_address block r.now);
    confirmation_blocks = c.confirmation_blocks;
    max_block_range = c.max_block_range;
  }

  -- The assignment in the `try`: an exception leaves `last_processed` as it was.
  abbrev pub after_poll : ℕ → Result ListenerError ℕ × World → Listener
  after_poll last (ok block, w) = record { last_processed = block; world = w }
  after_poll last (err e, w) = record { last_processed = last; world = w }

  abbrev pub poll : Round → Option ℕ → Listener → Listener
  poll r none l = l
  poll r (some latest) l =
      after_poll l.last_processed
        (process_to_safe_head (poller r) r.should_stop latest l.last_processed l.world)

  -- `cursor.load`
  abbrev pub started : Listener → Result Tables.Error ℕ × Index → Listener
  started l (ok block, s) = record l { last_processed = block }
  started l (err e, s) = l

  unfoldable pub step : Happening → Listener → Listener
  unfolding process_to_safe_head process_range save_checkpoint load_checkpoint
  step (polls r) l = poll r r.latest l
  step restarts l = started l (load_checkpoint c.chain_id c.contract_address c.origin l.world.index)

  unfoldable pub run : List Happening → Listener → Listener
  unfolding step
  run [] l = l
  run (h ∷ history) l = run history (step h l)
