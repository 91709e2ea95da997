-- ===== src/Database/Migrate/Rows.antt =====
-- The loop over the recorded migrations in evget/src/database/migrate.cpp ends.
use evget.Prelude.{
  below_zero, below_suc, ℕ, zero, suc, ◌<◌, ◌≡◌, refl, String, Bool, true, false, List, [], ◌∷◌,
  ◌++◌,
}
use evget.Error.{Error, Result, ok, err}
use evget.Database.Connection.{Connection, FiniteRows, ◌>>◌, pure}
use evget.Database.Migrate.{
  AppliedMigration, applied_row, calling, after_row, after_next, applied_from,
  get_applied_migrations,
}

module _ {W Q : Type 0} (c : Connection W Q) (sha512_hex : String → String) where
  -- The loop as a relation with no bound: with these migrations so far, and this query and
  -- connection, it ends with this result. A loop that goes on for ever has no derivation.
  pub data Reads : List AppliedMigration → Q → W → Result (List AppliedMigration) × W → Type 0 where
    ends :
        {ms : List AppliedMigration} {q : Q} {w : W}
        → (c.next q w).0 ≡ ok false
        → Reads ms q w ((calling c sha512_hex (c.reset (c.next q w).1) >> pure ms) (c.next q w).2)
    next_fails :
        {ms : List AppliedMigration} {q : Q} {w : W} (e : Error)
        → (c.next q w).0 ≡ err e
        → Reads ms q w (err e, (c.next q w).2)
    row_fails :
        {ms : List AppliedMigration} {q : Q} {w : W} (e : Error)
        → (c.next q w).0 ≡ ok true
        → applied_row
            (c.as_int 0 (c.next q w).1 (c.next q w).2)
            (c.as_string 1 (c.next q w).1 (c.next q w).2)
          ≡ err e
        → Reads ms q w (err e, (c.next q w).2)
    reads_row :
        {ms : List AppliedMigration} {q : Q} {w : W} {r : Result (List AppliedMigration) × W}
        (row : AppliedMigration)
        → (c.next q w).0 ≡ ok true
        → applied_row
            (c.as_int 0 (c.next q w).1 (c.next q w).2)
            (c.as_string 1 (c.next q w).1 (c.next q w).2)
          ≡ ok row
        → Reads (ms ++ row ∷ []) (c.next q w).1 (c.next q w).2 r
        → Reads ms q w r

  Loop : Q → W → Type 0
  Loop q w = (c.next q w).0 ≡ ok true → List AppliedMigration → Result (List AppliedMigration) × W

  after_row-Reads :
      (ms : List AppliedMigration) (q : Q) (w : W)
      (f : List AppliedMigration → Result (List AppliedMigration) × W) (r : Result AppliedMigration)
      → applied_row
          (c.as_int 0 (c.next q w).1 (c.next q w).2)
          (c.as_string 1 (c.next q w).1 (c.next q w).2)
        ≡ r
      → (c.next q w).0 ≡ ok true
      → ((xs : List AppliedMigration) → Reads xs (c.next q w).1 (c.next q w).2 (f xs))
      → Reads ms q w (after_row c sha512_hex f ms r (c.next q w).2)
  after_row-Reads ms q w f (ok row) e more h = reads_row row more e (h (ms ++ row ∷ []))
  after_row-Reads ms q w f (err x) e more h = row_fails x more e

  after_next-Reads :
      (ms : List AppliedMigration) (q : Q) (w : W) (r : Result Bool) (same : (c.next q w).0 ≡ r)
      (f : r ≡ ok true → List AppliedMigration → Result (List AppliedMigration) × W)
      → ((more : r ≡ ok true) (xs : List AppliedMigration)
          → Reads xs (c.next q w).1 (c.next q w).2 (f more xs))
      → Reads ms q w (after_next c sha512_hex ms r f (c.next q w).1 (c.next q w).2)
  after_next-Reads ms q w (ok true) same f h = after_row-Reads ms q w (f refl) _ refl same (h refl)
  after_next-Reads ms q w (ok false) same f h = ends same
  after_next-Reads ms q w (err e) same f h = next_fails e same

  applied_from-Reads :
      (finite : FiniteRows c) (bound : ℕ) (ms : List AppliedMigration) (q : Q) (w : W)
      (h : finite.rows_left q w < bound)
      → Reads ms q w (applied_from c sha512_hex finite bound ms q w h)
  unfolding applied_from
  applied_from-Reads finite zero ms q w h = elim (below_zero h) [ ]
  applied_from-Reads finite (suc bound) ms q w h =
      after_next-Reads ms q w (c.next q w).0 refl _
        λ more xs. applied_from-Reads finite bound xs (c.next q w).1 (c.next q w).2 _

  -- On a connection whose result sets are finite, the loop of GetAppliedMigrations ends from every
  -- state of the connection: as a relation that knows no bound, in which each round calls `Next`, it
  -- has a complete run from the new query on, to the result and the state that the function gives.
  pub get_applied_migrations-Reads :
      (finite : FiniteRows c) (w : W)
      → Reads []
          (c.build_query "select version, checksum from _migrations order by version;")
          w
          (get_applied_migrations c sha512_hex finite w)
  unfolding get_applied_migrations
  get_applied_migrations-Reads finite w =
      let q = c.build_query "select version, checksum from _migrations order by version;" in
      applied_from-Reads finite (suc (finite.rows_left q w)) [] q w
        (below_suc (finite.rows_left q w))
