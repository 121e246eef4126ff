-- ===== src/Migrations.antt =====
-- packages/integrations/postgres/migrations/runner.py. What a migration's SQL does to the schema is a
-- parameter; an upgrade is one transaction under its advisory lock.
pub mod Upgrade
pub mod Tests
use decentralized_claims_reg.Prelude.{
  ℕ, String, Bool, true, false, Option, none, some, List, [], ◌∷◌, ◌++◌, ◌&&◌, ◌||◌, not,
  if◌then◌else◌,
}
use decentralized_claims_reg.Prelude.Lists.{find}
use decentralized_claims_reg.Prelude.Text.{str_eq}
use decentralized_claims_reg.Postgres.{Result, ok, err, Action, transaction}

pub record Migration : Type 0 where
  pub version : String
  pub name : String
  pub checksum : String
  pub sql : String

-- `claims_schema_migrations`
pub record AppliedRow : Type 0 where
  pub version : String
  pub name : String
  pub checksum : String

-- The table of applied migrations, if there is one, and the rest of the schema.
pub record Database (C : Type 0) : Type 0 where
  pub ledger : Option (List AppliedRow)
  pub schema : C

pub data MigrationError : Type 0 where
  no_migrations unknown_versions not_current : MigrationError
  invalid_filename duplicate_version checksum_changed : String → MigrationError
  statement_failed : String → MigrationError

pub record MigrationStatus : Type 0 where
  pub current : Bool
  pub applied : List String
  pub pending : List String

abbrev pub of_version : String → AppliedRow → Bool
of_version v r = str_eq r.version v

abbrev pub has_version : String → Migration → Bool
has_version v m = str_eq m.version v

abbrev pub is_some {ℓ} : {A : Type ℓ} → Option A → Bool
is_some none = false
is_some (some a) = true

-- `load_migrations`, from the sorted files with their texts; the pattern of a file's name gives its
-- version, and `sha256` is the digest in hexadecimal.
module _ (match : String → Option String) (sha256 : String → String) where
  abbrev pub loaded :
      String × String → Option String → List Migration → Result MigrationError Migration
  loaded (name, sql) none seen = err (invalid_filename name)
  loaded (name, sql) (some version) seen =
      if is_some (find (has_version version) seen)
      then err (duplicate_version version)
      else ok (record { version = version; name = name; checksum = sha256 sql; sql = sql })

  abbrev pub or_else :
      Result MigrationError Migration
      → (Migration → Result MigrationError (List Migration))
      → Result MigrationError (List Migration)
  or_else (err e) f = err e
  or_else (ok m) f = f m

  unfoldable pub load_files :
      List (String × String) → List Migration → Result MigrationError (List Migration)
  load_files [] seen = ok seen
  load_files ((name, sql) ∷ files) seen =
      or_else (loaded (name, sql) (match name) seen) (λ m. load_files files (seen ++ m ∷ []))

  abbrev pub some_found :
      Result MigrationError (List Migration) → Result MigrationError (List Migration)
  some_found (ok []) = err no_migrations
  some_found (ok (m ∷ ms)) = ok (m ∷ ms)
  some_found (err e) = err e

  unfoldable pub load_migrations : List (String × String) → Result MigrationError (List Migration)
  unfolding load_files
  load_migrations files = some_found (load_files files [])

-- Every row is of a known version.
unfoldable pub all_known : List Migration → List AppliedRow → Bool
all_known ms [] = true
all_known ms (r ∷ rows) = is_some (find (has_version r.version) ms) && all_known ms rows

abbrev pub applied_row : Migration → AppliedRow
applied_row m = record { version = m.version; name = m.name; checksum = m.checksum }

-- `CREATE TABLE IF NOT EXISTS`
abbrev pub existing : Option (List AppliedRow) → List AppliedRow
existing none = []
existing (some rows) = rows

module _ {C : Type 0} (run : String → C → Result String C) where
  abbrev pub Progress : Type 0
  Progress = Result MigrationError (List String × List AppliedRow × C)

  abbrev pub counted : String → Progress → Progress
  counted v (err e) = err e
  counted v (ok (versions, rows, c)) = ok (v ∷ versions, rows, c)

  -- the SQL of a migration, and its row
  abbrev pub executed :
      Migration → List AppliedRow → (List AppliedRow → C → Progress) → Result String C → Progress
  executed m rows next (err e) = err (statement_failed e)
  executed m rows next (ok c) =
      if is_some (find (of_version m.version) rows)
      then err (statement_failed "duplicate key")
      else counted m.version (next (rows ++ applied_row m ∷ []) c)

  abbrev pub considered :
      Migration
      → List AppliedRow
      → C
      → (List AppliedRow → C → Progress)
      → Option AppliedRow
      → Progress
  considered m rows c next (some r) =
      if str_eq r.checksum m.checksum then next rows c else err (checksum_changed m.version)
  considered m rows c next none = executed m rows next (run m.sql c)

  -- The `for` loop; `applied` is the table as it was read before it.
  unfoldable pub apply_all : List Migration → List AppliedRow → List AppliedRow → C → Progress
  apply_all [] applied rows c = ok ([], rows, c)
  apply_all (m ∷ ms) applied rows c =
      considered m rows c (apply_all ms applied) (find (of_version m.version) applied)

  module _ (migrations : List Migration) where
    abbrev pub upgraded : Database C → Progress → Result MigrationError (List String) × Database C
    upgraded d (err e) = (err e, d)
    upgraded d (ok (versions, rows, c)) = (ok versions, record { ledger = some rows; schema = c })

    unfoldable pub upgrade : Action (Database C) MigrationError (List String)
    unfolding all_known apply_all
    upgrade =
        transaction (λ e. e)
          λ d.
            let rows = existing d.ledger in
            if not (all_known migrations rows)
            then (err unknown_versions, d)
            else upgraded d (apply_all migrations rows rows d.schema)

-- the first migration whose row has another checksum
unfoldable pub changed : List Migration → List AppliedRow → Option String
changed [] rows = none
changed (m ∷ ms) rows =
    let rest = changed ms rows in
    elim (find (of_version m.version) rows) [
      | none ↦ rest
      | some r ↦ if str_eq r.checksum m.checksum then rest else some m.version
    ]

-- the versions of the migrations that have a row, or have none
unfoldable pub versions_where : Bool → List Migration → List AppliedRow → List String
versions_where b [] rows = []
versions_where b (m ∷ ms) rows =
    let rest = versions_where b ms rows in
    elim (is_some (find (of_version m.version) rows)) [
      | true ↦ if b then m.version ∷ rest else rest
      | false ↦ if b then rest else m.version ∷ rest
    ]

abbrev pub is_empty : List String → Bool
is_empty [] = true
is_empty (v ∷ vs) = false

module _ (migrations : List Migration) where
  abbrev pub compared : List AppliedRow → Option String → Result MigrationError MigrationStatus
  compared rows (some v) = err (checksum_changed v)
  compared rows none = ok (record {
    current = is_empty (versions_where false migrations rows);
    applied = versions_where true migrations rows;
    pending = versions_where false migrations rows;
  })

  abbrev pub status_of : Option (List AppliedRow) → Result MigrationError MigrationStatus
  status_of none =
      ok (record { current = false; applied = []; pending = versions_where false migrations [] })
  status_of (some rows) =
      if not (all_known migrations rows)
      then err unknown_versions
      else compared rows (changed migrations rows)

  unfoldable pub status : {C : Type 0} → Database C → Result MigrationError MigrationStatus
  unfolding all_known changed versions_where
  status d = status_of d.ledger

  abbrev pub required : Result MigrationError MigrationStatus → Result MigrationError (Unit {0})
  required (err e) = err e
  required (ok s) = if s.current then ok tt else err not_current

  unfoldable pub require_current : {C : Type 0} → Database C → Result MigrationError (Unit {0})
  unfolding status
  require_current d = required (status d)
