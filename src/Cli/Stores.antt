-- ===== src/Cli/Stores.antt =====
-- `ToStores` of evget/src/cli.cpp: the stores of the outputs. A connection of SQLite for an output
-- is the parameter `connection`.
use Prim.Native.Char.{Char}
use mathlib.Core.Path.{subst}
use evget.Prelude.{◌≡◌, refl, ap, sym, ◌∙◌, String, List, [], ◌∷◌, map, str_eq, if◌then◌else◌}
use evget.Error.{Result, ok, err}
use evget.Database.Connection.{Connection, FiniteRows, Action, ◌>>=◌, ◌>>◌, pure}
use evget.Storage.Init.{init, IsDatabaseError, init-IsDatabaseError}
use evget.Cli.Text.{StorageType, sq_lite, json, get_storage_type}

-- The stores of an output: a database, JSON on the standard output, JSON at the end of a file.
pub data Opened : Type 0 where
  database appended : String → Opened
  console : Opened

abbrev pub json_store : String → Opened
json_store output = if str_eq output "-" then console else appended output

module _ {W Q : Type 0} (tolower : Char → Char) (connection : String → Connection W Q)
    (sha512_hex : String → String) (initialize : String)
    (finite : (output : String) → FiniteRows (connection output)) where
  -- The case of an output in the switch of ToStores.
  abbrev pub to_store : String → StorageType → Action W Opened
  to_store output sq_lite =
      init (connection output) sha512_hex initialize (finite output) output
      >> pure (database output)
  to_store output json = pure (json_store output)

  -- Cli::ToStores
  unfoldable pub to_stores : List String → Action W (List Opened)
  unfolding get_storage_type
  to_stores [] = pure []
  to_stores (output ∷ outputs) = to_store output (get_storage_type tolower output) >>= λ store.
      to_stores outputs >>= λ stores. pure (store ∷ stores)

  abbrev pub opened_as : String → StorageType → Opened
  opened_as output sq_lite = database output
  opened_as output json = json_store output

  unfoldable pub opened : String → Opened
  unfolding get_storage_type
  opened output = opened_as output (get_storage_type tolower output)

  abbrev pub with_database : String → StorageType → List String → List String
  with_database output sq_lite outputs = output ∷ outputs
  with_database output json outputs = outputs

  -- The outputs that are databases, and their set-up in order, up to the first that fails.
  unfoldable pub databases : List String → List String
  unfolding get_storage_type
  databases [] = []
  databases (output ∷ outputs) =
      with_database output (get_storage_type tolower output) (databases outputs)

  unfoldable pub init_all : List String → Action W (Unit {0})
  init_all [] = pure tt
  init_all (output ∷ outputs) =
      init (connection output) sha512_hex initialize (finite output) output >> init_all outputs

  -- The stores of ToStores: those of the outputs, in their order, once every database has been set
  -- up, in the same order; the first database whose set-up fails gives the error, and the databases
  -- behind it are not touched.
  pub to_stores-init_all :
      (outputs : List String) (w : W)
      → to_stores outputs w ≡ (init_all (databases outputs) >> pure (map opened outputs)) w
  unfolding to_stores databases init_all opened
  to_stores-init_all [] w = refl
  to_stores-init_all (output ∷ outputs) w =
      by_type (to_stores-init_all outputs) (get_storage_type tolower output)
    where
      Rest : Type 0
      Rest =
          (v : W)
          → to_stores outputs v ≡ (init_all (databases outputs) >> pure (map opened outputs)) v

      Tail : Type 0
      Tail = Result (List Opened) × W

      tail : Action W (Unit {0})
      tail = init_all (databases outputs)

      consed : Opened → Tail → Tail
      consed store r = ((λ v. r) >>= λ stores. pure (store ∷ stores)) w

      told :
          (store : Opened) (r : Result (Unit {0}) × W)
          → consed store (((λ v. r) >> pure (map opened outputs)) w)
            ≡ ((λ v. r) >> pure (store ∷ map opened outputs)) w
      told store (ok u, w') = refl
      told store (err e, w') = refl

      rest :
          Rest
          → (store : Opened) (v : W)
          → (to_stores outputs >>= λ stores. pure (store ∷ stores)) v
            ≡ (tail >> pure (store ∷ map opened outputs)) v
      rest ih store v = ap (consed store) (ih v) ∙ told store (tail v)

      set_up :
          Rest
          → (r : Result (Unit {0}) × W)
          → (((λ v. r) >> pure (database output)) >>= λ store.
                to_stores outputs >>= λ stores. pure (store ∷ stores))
              w
            ≡ (((λ v. r) >> tail) >> pure (database output ∷ map opened outputs)) w
      set_up ih (ok u, w') = rest ih (database output) w'
      set_up ih (err e, w') = refl

      by_type :
          Rest
          → (t : StorageType)
          → (to_store output t >>= λ store. to_stores outputs >>= λ stores. pure (store ∷ stores)) w
            ≡ (init_all (with_database output t (databases outputs))
                  >> pure (opened_as output t ∷ map opened outputs))
                w
      by_type ih json = rest ih (json_store output) w
      by_type ih sq_lite =
          set_up ih (init (connection output) sha512_hex initialize (finite output) output w)

  init_all-IsDatabaseError :
      (outputs : List String) (w : W) → IsDatabaseError (init_all outputs w).0
  unfolding init_all
  init_all-IsDatabaseError [] w = tt
  init_all-IsDatabaseError (output ∷ outputs) w =
      go (init (connection output) sha512_hex initialize (finite output) output w)
        (init-IsDatabaseError (connection output) sha512_hex initialize (finite output) output w)
        (init_all-IsDatabaseError outputs)
    where
      go :
          (r : Result (Unit {0}) × W)
          → IsDatabaseError r.0
          → ((v : W) → IsDatabaseError (init_all outputs v).0)
          → IsDatabaseError (((λ v. r) >> init_all outputs) w).0
      go (ok u, w') h ih = ih w'
      go (err e, w') h ih = h

  -- An error of ToStores is a database error.
  pub to_stores-IsDatabaseError :
      (outputs : List String) (w : W) → IsDatabaseError (to_stores outputs w).0
  to_stores-IsDatabaseError outputs w =
      subst (λ (r : Result (List Opened) × W). IsDatabaseError r.0)
        (sym (to_stores-init_all outputs w))
        (go (init_all (databases outputs) w) (init_all-IsDatabaseError (databases outputs) w))
    where
      go :
          (r : Result (Unit {0}) × W)
          → IsDatabaseError r.0
          → IsDatabaseError (((λ v. r) >> pure (map opened outputs)) w).0
      go (ok u, w') h = tt
      go (err e, w') h = h
