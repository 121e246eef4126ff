-- ===== src/Migrations/Tests.antt =====
-- Two migrations, of which one was applied before.
use decentralized_claims_reg.Prelude.{ℕ, String, true, false, some, List, [], ◌∷◌, ◌≡◌, refl, ◌+◌}
use decentralized_claims_reg.Prelude.Lists.{find}
use decentralized_claims_reg.Postgres.{Result, ok, err}
use decentralized_claims_reg.Migrations.{
  Migration, AppliedRow, Database, checksum_changed, existing, upgrade, versions_where, status,
  load_migrations, duplicate_version,
}
use decentralized_claims_reg.Migrations.Upgrade.{all_versions, upgrade-current}

abbrev first : Migration
first = record {
  version = "001";
  name = "001_initial.sql";
  checksum = "aa";
  sql = "CREATE TABLE a";
}

abbrev second : Migration
second = record { version = "002"; name = "002_index.sql"; checksum = "bb"; sql = "CREATE TABLE b" }

abbrev migrations : List Migration
migrations = first ∷ second ∷ []

-- The schema is the number of statements that ran.
abbrev run : String → ℕ → Result String ℕ
run sql n = ok (n + 1)

abbrev first_row : AppliedRow
first_row = record { version = "001"; name = "001_initial.sql"; checksum = "aa" }

abbrev second_row : AppliedRow
second_row = record { version = "002"; name = "002_index.sql"; checksum = "bb" }

abbrev one_applied : Database ℕ
one_applied = record { ledger = some (first_row ∷ []); schema = 1 }

abbrev after : Database ℕ
after = record { ledger = some (first_row ∷ second_row ∷ []); schema = 2 }

upgraded_once : upgrade run migrations one_applied ≡ (ok ("002" ∷ []), after)
unfolding upgrade find
upgraded_once = refl

upgrade-current_example :
    (status migrations after
      ≡ ok (record { current = true; applied = all_versions migrations; pending = [] }))
    × (("002" ∷ []) ≡ versions_where false migrations (existing one_applied.ledger))
    × (upgrade run migrations after ≡ (ok [], after))
upgrade-current_example =
    upgrade-current run migrations one_applied after ("002" ∷ []) upgraded_once

edited :
    upgrade run (record first { checksum = "cc" } ∷ second ∷ []) one_applied
    ≡ (err (checksum_changed "001"), one_applied)
unfolding upgrade find
edited = refl

twice :
    load_migrations (λ name. some "001") (λ sql. sql) (("001_a.sql", "a") ∷ ("001_b.sql", "b") ∷ [])
    ≡ err (duplicate_version "001")
unfolding load_migrations find
twice = refl
