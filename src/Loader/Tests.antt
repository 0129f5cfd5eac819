-- ===== src/Loader/Tests.antt =====
-- A loader over a small host.
use btclibwallet.Prelude.{
  ℕ, ◌+◌, ◌≡◌, ◌≢◌, refl, Bool, true, false, Option, none, some, [], ◌∷◌, ok, err, ◌⊎◌, inl,
  if◌then◌else◌,
}
use btclibwallet.Errors.{Kind, exist, not_exist, io, other}
use btclibwallet.Loader.{
  Host, Loader, directory, missing, file_exists, ensure_dir, open_existing_wallet, create_with,
  create_new_wallet, create_watching_only_wallet, run_after_load, run_all, loaded_wallet,
  unload_wallet, on_loaded, initialize, make_database,
}
use btclibwallet.Loader.Opened.{IsPaired, loads_once}
use btclibwallet.Loader.Failed.{open_existing_wallet-failed, create_with-failed}
use btclibwallet.Loader.Steps.{done, then_step, by_open, Steps-IsPaired}

-- The world: is there a database, how many are open, how many callbacks ran, and is it damaged.
record Disk : Type 0 where
  present : Bool
  opened : ℕ
  ran : ℕ
  damaged : Bool

abbrev host : Host
host = record {
  World = Disk;
  Wallet = ℕ;
  Db = ℕ;
  Callback = ℕ;
  run = λ c w s. record s { ran = s.ran + 1 };
  stat_dir = λ s. directory;
  stat_db = λ s. if s.present then directory else missing;
  mkdir_all = λ s. ok s;
  remove_db = λ s. record s { present = false };
  create_db = λ s. (ok 0, record s { present = true; opened = s.opened + 1 });
  open_db =
      λ s. if s.present then (ok 0, record s { opened = s.opened + 1 }) else (err not_exist, s);
  open_wallet = λ db s. if s.damaged then (err io, s) else (ok 7, s);
  close_db = λ db s. (none, record s { opened = 0 });
}

abbrev empty : Loader host
empty = record { callbacks = 1 ∷ 2 ∷ []; wallet = none; db = none }

abbrev full : Loader host
full = record { callbacks = []; wallet = some 7; db = some 0 }

abbrev disk : Disk
disk = record { present = true; opened = 0; ran = 0; damaged = false }

abbrev bare : Disk
bare = record { present = false; opened = 0; ran = 0; damaged = true }

abbrev create : ℕ → Disk → Option Kind × Disk
create db s = (none, s)

loads_once_example :
    (empty.wallet ≡ none)
    × (loaded_wallet host full ≡ (some 7, true))
    × ((t : Disk) → open_existing_wallet host full t ≡ (err exist, full, t))
    × ((t : Disk) → create_new_wallet host create full t ≡ (err exist, full, t))
    × ((t : Disk) → create_watching_only_wallet host create full t ≡ (err exist, full, t))
    × ((c : ℕ) (t : Disk) → run_after_load host full c t ≡ (full, record t { ran = t.ran + 1 }))
unfolding open_existing_wallet on_loaded run_all
loads_once_example =
    loads_once host empty full 7 disk (record disk { opened = 1; ran = 2 }) other create (inl refl)

open_existing_wallet-failed_example :
    (empty ≡ empty)
    × (((w : ℕ) × (empty.wallet ≡ some w) × (bare ≡ bare))
        ⊎ ((host.open_db bare).0 ≡ err not_exist) × (bare ≡ (host.open_db bare).1)
        ⊎ ((db : ℕ) × ((host.open_db bare).0 ≡ ok db)
            × (bare ≡ (host.close_db db (host.open_wallet db (host.open_db bare).1).1).1)))
unfolding open_existing_wallet
open_existing_wallet-failed_example =
    open_existing_wallet-failed host empty empty not_exist bare bare refl

create_with-failed_example :
    (empty ≡ empty)
    × ((record bare { opened = 1 } ≡ bare)
        ⊎ ((ensure_dir host other bare ≡ ok (record bare { opened = 1 }))
            × (file_exists (host.stat_db (record bare { opened = 1 })) ≢ ok false))
        ⊎ ((s1 t : Disk) × (ensure_dir host other bare ≡ ok s1)
            × (file_exists (host.stat_db s1) ≡ ok false)
            × (record bare { opened = 1 } ≡ host.remove_db t)))
unfolding create_with ensure_dir file_exists make_database initialize
create_with-failed_example =
    create_with-failed host other create empty empty io bare (record bare { opened = 1 }) refl

-- The failed creation left its database open.
left_open : create_new_wallet host create empty bare ≡ (err io, empty, record bare { opened = 1 })
unfolding create_with ensure_dir file_exists make_database initialize
left_open = refl

Steps-IsPaired_example :
    IsPaired host full
    × ((s : Disk) → (r : Option Kind × Loader host × Disk) × (unload_wallet host full s ≡ some r))
unfolding open_existing_wallet on_loaded run_all
Steps-IsPaired_example =
    Steps-IsPaired host (empty, disk) (full, record disk { opened = 1; ran = 2 })
      (then_step (by_open empty disk) done) refl refl
