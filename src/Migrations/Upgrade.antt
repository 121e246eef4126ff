-- ===== src/Migrations/Upgrade.antt =====
-- What an upgrade that returns has done.
use decentralized_claims_reg.Prelude.{
  String, true, false, none, some, List, [], ◌∷◌, ◌++◌, ◌≡◌, refl, sym, ap, ◌∙◌, subst, inl, inr,
  arith, Bool-cases, Option-cases,
}
use decentralized_claims_reg.Prelude.Lists.{
  find, All, find-append, find-append_found, append-nil, append_assoc,
}
use decentralized_claims_reg.Prelude.Text.{str_eq, str_eq_self}
use decentralized_claims_reg.Postgres.{Result, ok, err}
use decentralized_claims_reg.Postgres.Rules.{Result-cases}
use decentralized_claims_reg.Migrations.{
  Migration, AppliedRow, Database, of_version, has_version, is_some, all_known, applied_row,
  Progress, counted, apply_all, existing, upgrade, changed, versions_where, status,
}

-- The migration has its row, with its checksum.
pub record IsApplied (rows : List AppliedRow) (m : Migration) : Type 0 where
  pub row : AppliedRow
  pub found : find (of_version m.version) rows ≡ some row
  pub same : str_eq row.checksum m.checksum ≡ true

later-IsApplied :
    (rows more : List AppliedRow) (m : Migration) → IsApplied rows m → IsApplied (rows ++ more) m
later-IsApplied rows more m h = record {
  row = h.row;
  found = find-append_found (of_version m.version) rows more h.row h.found;
  same = h.same;
}

new-IsApplied :
    (rows : List AppliedRow) (m : Migration)
    → find (of_version m.version) rows ≡ none
    → IsApplied (rows ++ applied_row m ∷ []) m
unfolding find
new-IsApplied rows m e = record {
  row = applied_row m;
  found =
      find-append (of_version m.version) rows (applied_row m ∷ []) e
      ∙ rw (str_eq_self m.version) refl;
  same = str_eq_self m.checksum;
}

module _ {C : Type 0} (run : String → C → Result String C) where
  -- What the loop leaves when it ends: further rows, of its migrations.
  pub record Ends (all_ ms : List Migration) (applied rows : List AppliedRow)
      (versions : List String) (after : List AppliedRow) : Type 0 where
    pub more : List AppliedRow
    pub extends : after ≡ rows ++ more
    pub known : all_known all_ more ≡ true
    pub done : All (IsApplied after) ms
    pub counts : versions ≡ versions_where false ms applied

  -- The migrations of the loop are known.
  abbrev Known : List Migration → List Migration → Type 0
  Known all_ ms = All (λ m. is_some (find (has_version m.version) all_) ≡ true) ms

  abbrev EndsOf :
      List Migration → List Migration → List AppliedRow → List AppliedRow → Progress run → Type 0
  EndsOf all_ ms applied rows (err e) = Unit
  EndsOf all_ ms applied rows (ok (versions, after, c)) = Ends all_ ms applied rows versions after

  module _ (all_ : List Migration) where
    skipped_ends :
        (m : Migration) (ms : List Migration) (applied rows : List AppliedRow) (r : AppliedRow)
        (p : Progress run)
        → find (of_version m.version) applied ≡ some r
        → find (of_version m.version) rows ≡ some r
        → str_eq r.checksum m.checksum ≡ true
        → EndsOf all_ ms applied rows p
        → EndsOf all_ (m ∷ ms) applied rows p
    unfolding versions_where
    skipped_ends m ms applied rows r (err e) known here_ same h = tt
    skipped_ends m ms applied rows r (ok (versions, after, c)) known here_ same h = record {
      more = h.more;
      extends = h.extends;
      known = h.known;
      done = (
        subst (λ x. IsApplied x m) (sym h.extends)
            (later-IsApplied rows h.more m (record { row = r; found = here_; same = same })),
        h.done,
      );
      counts = h.counts ∙ rw (versions_where, known) refl;
    }

    counted_ends :
        (m : Migration) (ms : List Migration) (applied rows : List AppliedRow) (p : Progress run)
        → is_some (find (has_version m.version) all_) ≡ true
        → find (of_version m.version) applied ≡ none
        → find (of_version m.version) rows ≡ none
        → EndsOf all_ ms applied (rows ++ applied_row m ∷ []) p
        → EndsOf all_ (m ∷ ms) applied rows (counted run m.version p)
    unfolding versions_where all_known
    counted_ends m ms applied rows (err e) known new fresh h = tt
    counted_ends m ms applied rows (ok (versions, after, c)) known new fresh h = record {
      more = applied_row m ∷ h.more;
      extends = h.extends ∙ append_assoc rows (applied_row m ∷ []) h.more;
      known = ground (arith, known, h.known);
      done = (
        subst (λ x. IsApplied x m) (sym h.extends)
            (later-IsApplied (rows ++ applied_row m ∷ []) h.more m (new-IsApplied rows m fresh)),
        h.done,
      );
      counts = ap (◌∷◌ m.version) h.counts ∙ rw (versions_where, new) refl;
    }

    apply_all_ends :
        (ms : List Migration) (applied rows : List AppliedRow) (c : C)
        → Known all_ ms
        → ((v : String) (r : AppliedRow)
            → find (of_version v) applied ≡ some r
            → find (of_version v) rows ≡ some r)
        → EndsOf all_ ms applied rows (apply_all run ms applied rows c)
    unfolding apply_all versions_where all_known
    apply_all_ends [] applied rows c known keeps = record {
      more = [];
      extends = sym (append-nil rows);
      known = refl;
      done = tt;
      counts = refl;
    }
    apply_all_ends (m ∷ ms) applied rows c known keeps =
        elim (Option-cases (find (of_version m.version) applied)) [
          | inr (r, found) ↦ elim (Bool-cases (str_eq r.checksum m.checksum)) [
            | inr other ↦ simp (found, other) tt
            | inl same ↦
                simp (found, same)
                  (skipped_ends m ms applied rows r (apply_all run ms applied rows c) found
                    (keeps m.version r found) same (apply_all_ends ms applied rows c known.1 keeps))
          ]
          | inl new ↦ elim (Result-cases (run m.sql c)) [
            | inr (e, failed) ↦ simp (new, failed) tt
            | inl (c', ran) ↦ elim (Option-cases (find (of_version m.version) rows)) [
              | inr (r, taken) ↦ simp (new, ran, taken) tt
              | inl fresh ↦
                  simp (new, ran, fresh)
                    (counted_ends m ms applied rows
                      (apply_all run ms applied (rows ++ applied_row m ∷ []) c') known.0 new fresh
                      (apply_all_ends ms applied (rows ++ applied_row m ∷ []) c' known.1 (λ v r e.
                        find-append_found (of_version v) rows (applied_row m ∷ []) r
                          (keeps v r e))))
            ]
          ]
        ]

known_in :
    (m : Migration) (before after : List Migration)
    → is_some (find (has_version m.version) (before ++ m ∷ after)) ≡ true
unfolding find
known_in m [] after = rw (str_eq_self m.version) refl
known_in m (x ∷ before) after = elim (Bool-cases (has_version m.version x)) [
  | inl t ↦ rw t refl
  | inr f ↦ rw f (known_in m before after)
]

All-in :
    (before ms : List Migration)
    → All (λ m. is_some (find (has_version m.version) (before ++ ms)) ≡ true) ms
All-in before [] = tt
All-in before (m ∷ ms) = (
  known_in m before ms,
  subst (λ x. All (λ m'. is_some (find (has_version m'.version) x) ≡ true) ms)
      (append_assoc before (m ∷ []) ms) (All-in (before ++ m ∷ []) ms),
)

all_known-append :
    (ms : List Migration) (rows more : List AppliedRow)
    → all_known ms rows ≡ true
    → all_known ms more ≡ true
    → all_known ms (rows ++ more) ≡ true
unfolding all_known
all_known-append ms [] more h k = k
all_known-append ms (r ∷ rows) more h k =
    ground (arith, h, all_known-append ms rows more (ground (arith, h)) k)

abbrev pub all_versions : List Migration → List String
all_versions [] = []
all_versions (m ∷ ms) = m.version ∷ all_versions ms

module _ (rows : List AppliedRow) where
  changed-none : (ms : List Migration) → All (IsApplied rows) ms → changed ms rows ≡ none
  unfolding changed
  changed-none [] h = refl
  changed-none (m ∷ ms) h = rw (changed, h.0.found) (rw h.0.same (changed-none ms h.1))

  none_pending : (ms : List Migration) → All (IsApplied rows) ms → versions_where false ms rows ≡ []
  unfolding versions_where
  none_pending [] h = refl
  none_pending (m ∷ ms) h = rw (versions_where, h.0.found) (none_pending ms h.1)

  All-applied :
      (ms : List Migration)
      → All (IsApplied rows) ms
      → versions_where true ms rows ≡ all_versions ms
  unfolding versions_where
  All-applied [] h = refl
  All-applied (m ∷ ms) h = rw (versions_where, h.0.found) (ap (◌∷◌ m.version) (All-applied ms h.1))

  apply_all_done :
      {C : Type 0} (run : String → C → Result String C) (c : C) (ms : List Migration)
      → All (IsApplied rows) ms
      → apply_all run ms rows rows c ≡ ok ([], rows, c)
  unfolding apply_all
  apply_all_done run c [] h = refl
  apply_all_done run c (m ∷ ms) h = simp (h.0.found, h.0.same) (apply_all_done run c ms h.1)

module _ {C : Type 0} (run : String → C → Result String C) (migrations : List Migration) where
  -- After an upgrade that returns, whatever SQL does, the schema is current with every migration
  -- applied and none pending; the versions it returned are those that had no row; and a second upgrade
  -- applies nothing and changes nothing.
  pub upgrade-current :
      (d after : Database C) (versions : List String)
      → upgrade run migrations d ≡ (ok versions, after)
      → (status migrations after
          ≡ ok (record { current = true; applied = all_versions migrations; pending = [] }))
        × (versions ≡ versions_where false migrations (existing d.ledger))
        × (upgrade run migrations after ≡ (ok [], after))
  unfolding upgrade status all_known
  upgrade-current d after versions h =
      let rows : List AppliedRow = existing d.ledger in
      elim (Bool-cases (all_known migrations rows)) [
        | inr strange ↦ absurd (ground (arith, strange, h))
        | inl known ↦ elim (Result-cases (apply_all run migrations rows rows d.schema)) [
          | inr (e, failed) ↦ absurd (ground (arith, known, failed, h))
          | inl ((vs, rows', c), done) ↦
              let ends : Ends run migrations migrations rows rows vs rows' =
                subst (EndsOf run migrations migrations rows rows) done (
                  apply_all_ends run migrations migrations rows rows d.schema (All-in [] migrations)
                    (λ v r e. e)) in
              let final : all_known migrations rows' ≡ true =
                subst (λ x. all_known migrations x ≡ true) (sym ends.extends)
                  (all_known-append migrations rows ends.more known ends.known) in
              let same : versions ≡ vs = ground (arith, known, done, h) in
              let left : after ≡ record { ledger = some rows'; schema = c } =
                ground (arith, known, done, h) in
              (
                rw left (
                    simp
                      (
                        final,
                        changed-none rows' migrations ends.done,
                        none_pending rows' migrations ends.done,
                        All-applied rows' migrations ends.done,
                      )
                      refl),
                same ∙ ends.counts,
                rw left (simp (final, apply_all_done rows' run c migrations ends.done) refl),
              )
        ]
      ]
