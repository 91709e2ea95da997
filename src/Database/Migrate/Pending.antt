-- ===== src/Database/Migrate/Pending.antt =====
-- What evget/src/database/migrate.cpp applies: the migrations behind those that were applied before,
-- if these are the ones that are recorded.
use mathlib.Core.Path.{subst}
use evget.Prelude.{
  ℕ, ◌+◌, ◌<◌, ◌≡◌, refl, ap, ◌∙◌, String, true, false, Bool-cases, inl, inr, List, [], ◌∷◌, ◌++◌,
  append_assoc, append-nil, length, length-append, get_elem?, ltb, none, some, Option,
  if◌then◌else◌, arith,
}
use evget.Error.{Result, ok, err}
use evget.Database.Connection.{Connection, FiniteRows, Action, ◌>>=◌, ◌>>◌}
use evget.Database.Migrate.{
  Migration, AppliedMigration, mismatch, matches, apply_from, apply_migration, checksum_of,
  apply_migrations, or_rollback, migrate, sort_by_version, create_migrations_table,
  get_applied_migrations,
}

module _ {W Q : Type 0} (c : Connection W Q) (sha512_hex : String → String) where
  -- The migrations that are left to apply, or none when a recorded one differs in its version or its
  -- checksum from the one at its place.
  abbrev pub pending : List Migration → List AppliedMigration → Option (List Migration)
  pending ms [] = some ms
  pending [] (a ∷ as') = some []
  pending (m ∷ ms) (a ∷ as') = if matches c sha512_hex m a then pending ms as' else none

  -- Each migration, up to the first that fails.
  abbrev pub apply_each : List Migration → Action W (Unit {0})
  apply_each [] w = (ok tt, w)
  apply_each (m ∷ ms) w =
      (apply_migration c sha512_hex m (checksum_of c sha512_hex m) >> apply_each ms) w

  abbrev pub apply_pending : Option (List Migration) → Action W (Unit {0})
  apply_pending none w = (err mismatch, w)
  apply_pending (some ms) w = apply_each ms w

  get_elem?-at :
      (before : List AppliedMigration) (a : AppliedMigration) (rest : List AppliedMigration)
      → get_elem? (before ++ a ∷ rest) (length before) ≡ some a
  get_elem?-at [] a rest = refl
  get_elem?-at (b ∷ bs) a rest = get_elem?-at bs a rest

  ltb-at :
      (before : List AppliedMigration) (a : AppliedMigration) (rest : List AppliedMigration)
      → ltb (length before) (length (before ++ a ∷ rest)) ≡ true
  ltb-at before a rest = ground (arith, length-append before (a ∷ rest))

  ltb-past :
      (before : List AppliedMigration) (k : ℕ)
      → length before < k + 1
      → ltb k (length before) ≡ false
  ltb-past before k h = ground arith

  apply_from-past :
      (ms : List Migration) (applied : List AppliedMigration) (k : ℕ) (w : W)
      → length applied < k + 1
      → apply_from c sha512_hex applied k ms w ≡ apply_each ms w
  unfolding apply_from
  apply_from-past [] applied k w h = refl
  apply_from-past (m ∷ ms) applied k w h = rw (ltb-past applied k h) (
      ap (λ rest. (apply_migration c sha512_hex m (checksum_of c sha512_hex m) >> rest) w)
        (λ i w'. apply_from-past ms applied (k + 1) w' (omega (arith, h)) i))

  -- One recorded migration.
  matched :
      (m : Migration) (a : AppliedMigration) (ms : List Migration) (rest : List AppliedMigration)
      (w : W) (r : Result (Unit {0}) × W)
      → r ≡ apply_pending (pending ms rest) w
      → (if matches c sha512_hex m a then r else (err mismatch, w))
        ≡ apply_pending (if matches c sha512_hex m a then pending ms rest else none) w
  matched m a ms rest w r h = elim (Bool-cases (matches c sha512_hex m a)) [
    | inl y ↦ rw y h
    | inr n ↦ rw n refl
  ]

  apply_from-pending :
      (ms : List Migration) (before applied : List AppliedMigration) (w : W)
      → apply_from c sha512_hex (before ++ applied) (length before) ms w
        ≡ apply_pending (pending ms applied) w
  unfolding apply_from
  apply_from-pending ms before [] w =
      ap (λ xs. apply_from c sha512_hex xs (length before) ms w) (append-nil before)
      ∙ apply_from-past ms before (length before) w (omega arith)
  apply_from-pending [] before (a ∷ as') w = refl
  apply_from-pending (m ∷ ms) before (a ∷ as') w =
      let ih = apply_from-pending ms (before ++ a ∷ []) as' w in
      let same =
        subst
          (λ xs.
            apply_from c sha512_hex xs (length (before ++ a ∷ [])) ms w
            ≡ apply_pending (pending ms as') w)
          (append_assoc before (a ∷ []) as') ih in
      let next =
        subst
          (λ n.
            apply_from c sha512_hex (before ++ a ∷ as') n ms w ≡ apply_pending (pending ms as') w)
          (length-append before (a ∷ [])) same in
      rw (ltb-at before a as', get_elem?-at before a as') (matched m a ms as' w _ next)

  apply_migrations-pending :
      (finite : FiniteRows c) (ms : List Migration) (applied : List AppliedMigration) (w w1 : W)
      → (c.transaction
            >> create_migrations_table c sha512_hex
            >> get_applied_migrations c sha512_hex finite)
          w
        ≡ (ok applied, w1)
      → apply_migrations c sha512_hex finite ms w
        ≡ or_rollback c sha512_hex ((apply_pending (pending ms applied) >> c.commit) w1)
  unfolding apply_migrations
  apply_migrations-pending finite ms applied w w1 h =
      ap after h
      ∙ ap (λ r. or_rollback c sha512_hex (((λ u. r) >> c.commit) w1))
          (apply_from-pending ms [] applied w1)
    where
      after : Result (List AppliedMigration) × W → Result (Unit {0}) × W
      after r =
          or_rollback c sha512_hex
            ((((λ u. r) >>= λ recorded. apply_from c sha512_hex recorded 0 ms) >> c.commit) w1)

  -- Suppose that, for a Migrate that is constructed from migrations and applied, the transaction is
  -- begun and the recorded migrations are read. The migrations are taken in the order of the sort. If a recorded migration
  -- differs in version or checksum from the migration at its place, no migration is applied: the
  -- transaction is rolled back at once, with an error unless the rollback has its own. Otherwise
  -- exactly the migrations behind the recorded ones are applied, in order and up to the first that
  -- fails; then the transaction is committed, or rolled back after an error.
  pub migrate-pending :
      (finite : FiniteRows c) (ms : List Migration) (applied : List AppliedMigration) (w w1 : W)
      → (c.transaction
            >> create_migrations_table c sha512_hex
            >> get_applied_migrations c sha512_hex finite)
          w
        ≡ (ok applied, w1)
      → migrate c sha512_hex finite ms w
        ≡ or_rollback c sha512_hex
            ((apply_pending (pending (sort_by_version ms) applied) >> c.commit) w1)
  unfolding migrate
  migrate-pending finite ms applied w w1 h =
      apply_migrations-pending finite (sort_by_version ms) applied w w1 h
