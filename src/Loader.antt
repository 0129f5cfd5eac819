-- ===== src/Loader.antt =====
-- internal/loader/loader.go: opening, creating and unloading one wallet. The file system, the
-- database driver and dcrwallet are the parameter `Host`: the world is passed from call to call.
-- The mutex is left out: each operation is one step. The options of the wallet's configuration do
-- not change and stay with the parameter, and an error's operation and text are left out.
pub mod Opened
pub mod Failed
pub mod Steps
mod Tests
use btclibwallet.Prelude.{
  ℕ, String, Bool, true, false, Option, none, some, List, [], ◌∷◌, ◌++◌, Result, ok, err,
  if◌then◌else◌,
}
use btclibwallet.Errors.{Kind, exist, invalid, other}

-- os.Stat: what is there, whether nothing is (`os.IsNotExist`), or another error.
pub data Stat : Type 0 where
  directory file missing : Stat
  stat_failed : Kind → Stat

pub record Host : Type 1 where
  pub World : Type 0
  pub Wallet : Type 0
  pub Db : Type 0
  pub Callback : Type 0
  pub run : Callback → Wallet → World → World
  -- os.Stat of the directory and of the database in it, os.MkdirAll, and os.Remove of the database,
  -- whose error is dropped
  pub stat_dir : World → Stat
  pub stat_db : World → Stat
  pub mkdir_all : World → Result Kind World
  pub remove_db : World → World
  -- wallet.CreateDB, wallet.OpenDB, wallet.Open and the database's Close
  pub create_db : World → Result Kind Db × World
  pub open_db : World → Result Kind Db × World
  pub open_wallet : Db → World → Result Kind Wallet × World
  pub close_db : Db → World → Option Kind × World

-- `fileExists`
unfoldable pub file_exists : Stat → Result Kind Bool
file_exists missing = ok false
file_exists (stat_failed k) = err k
file_exists directory = ok true
file_exists file = ok true

module _ (H : Host) where
  open H use {
    World, Wallet, Db, Callback, run, stat_dir, stat_db, mkdir_all, remove_db, create_db, open_db,
    open_wallet, close_db,
  }

  -- The pair of the wallet and its database are two fields that are set together.
  pub record Loader : Type 0 where
    pub callbacks : List Callback
    pub wallet : Option Wallet
    pub db : Option Db

  unfoldable pub run_all : List Callback → Wallet → World → World
  run_all [] w s = s
  run_all (c ∷ cs) w s = run_all cs w (run c w s)

  unfoldable pub on_loaded : Loader → Wallet → Db → World → Loader × World
  on_loaded l w db s =
      (record { callbacks = []; wallet = some w; db = some db }, run_all l.callbacks w s)

  unfoldable pub run_after_load : Loader → Callback → World → Loader × World
  run_after_load l fn s = elim l.wallet [
    | some w ↦ (l, run fn w s)
    | none ↦ (record l { callbacks = l.callbacks ++ fn ∷ [] }, s)
  ]

  -- The check of the network directory; the kind for a file there differs from caller to caller.
  unfoldable pub ensure_dir : Kind → World → Result Kind World
  ensure_dir not_dir s = elim (stat_dir s) [
    | missing ↦ mkdir_all s
    | stat_failed k ↦ err k
    | file ↦ err not_dir
    | directory ↦ ok s
  ]

  -- What a failure does after it is clear that there was no database: the file is removed. The
  -- database is not closed.
  abbrev undo : Loader → Kind → World → Result Kind Wallet × Loader × World
  undo l k s = (err k, l, remove_db s)

  -- The rest of a creation, from the wallet's own initialization on.
  unfoldable pub initialize :
      (Db → World → Option Kind × World) → Loader → Db → World → Result Kind Wallet × Loader × World
  initialize create l db s =
      let (e, s1) = create db s in
      elim e [
        | some k ↦ undo l k s1
        | none ↦
            (let (r, s2) = open_wallet db s1 in
              elim r [
                | err k ↦ undo l k s2
                | ok w ↦ (let (l', s3) = on_loaded l w db s2 in (ok w, l', s3))
              ])
      ]

  unfoldable pub make_database :
      (Db → World → Option Kind × World) → Loader → World → Result Kind Wallet × Loader × World
  make_database create l s = elim (mkdir_all s) [
    | err k ↦ undo l k s
    | ok s1 ↦
        (let (r, s2) = create_db s1 in
          elim r [ err k ↦ undo l k s2 | ok db ↦ initialize create l db s2 ])
  ]

  -- What `CreateNewWallet` and `CreateWatchingOnlyWallet` share: they differ in the kind of one
  -- error and in what initializes the database.
  unfoldable pub create_with :
      Kind
      → (Db → World → Option Kind × World)
      → Loader
      → World
      → Result Kind Wallet × Loader × World
  create_with not_dir create l s = elim l.wallet [
    | some w ↦ (err exist, l, s)
    | none ↦ elim (ensure_dir not_dir s) [
      | err k ↦ (err k, l, s)
      | ok s1 ↦ elim (file_exists (stat_db s1)) [
        | err k ↦ (err k, l, s1)
        | ok true ↦ (err exist, l, s1)
        | ok false ↦ make_database create l s1
      ]
    ]
  ]

  abbrev pub create_new_wallet :
      (Db → World → Option Kind × World) → Loader → World → Result Kind Wallet × Loader × World
  create_new_wallet create l s = create_with other create l s

  abbrev pub create_watching_only_wallet :
      (Db → World → Option Kind × World) → Loader → World → Result Kind Wallet × Loader × World
  create_watching_only_wallet create_watch_only l s = create_with invalid create_watch_only l s

  -- A failure after the database is open closes it, and drops the error of that.
  unfoldable pub open_existing_wallet : Loader → World → Result Kind Wallet × Loader × World
  open_existing_wallet l s = elim l.wallet [
    | some w ↦ (err exist, l, s)
    | none ↦
        (let (r, s1) = open_db s in
          elim r [
            | err k ↦ (err k, l, s1)
            | ok db ↦
                (let (r', s2) = open_wallet db s1 in
                  elim r' [
                    | err k ↦ (err k, l, (close_db db s2).1)
                    | ok w ↦ (let (l', s3) = on_loaded l w db s2 in (ok w, l', s3))
                  ])
          ])
  ]

  abbrev pub loaded_wallet : Loader → Option Wallet × Bool
  loaded_wallet l = (l.wallet, elim l.wallet [ some w ↦ true | none ↦ false ])

  abbrev pub wallet_exists : World → Result Kind Bool
  wallet_exists s = file_exists (stat_db s)

  -- A loaded wallet with no database is a panic, none.
  unfoldable pub unload_wallet : Loader → World → Option (Option Kind × Loader × World)
  unload_wallet l s = elim l.wallet [
    | none ↦ some (some invalid, l, s)
    | some w ↦ elim l.db [
      | none ↦ none
      | some db ↦
          (let (e, s1) = close_db db s in
            elim e [
              | some k ↦ some (some k, l, s1)
              | none ↦ some (none, record l { wallet = none; db = none }, s1)
            ])
    ]
  ]
