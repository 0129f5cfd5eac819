-- ===== src/Txindex/Complete.antt =====
-- What the index holds after a run of `IndexTransactions`.
use text.Mathlib.Text.{◌==◌ as str_eq}
use text.Mathlib.TextPositions.{eq_refl}
use btclibwallet.Prelude.{
  ◌+◌, String, ◌≡◌, refl, sym, ap, subst, ◌∙◌, Bool, true, false, Option, none, some, List, [], ◌∷◌,
  All, Result, ok, arith, Result-cases, Option-cases, Bool-cases, inl, inr,
}
use btclibwallet.Prelude.Int.{ℤ, pos, i32}
use btclibwallet.Errors.{Error}
use btclibwallet.Types.{Transaction}
use btclibwallet.Txindex.Store.{TxStore, IsTxStore, StormError}
use btclibwallet.Txindex.Save.{
  read_indexing_start_block, save_or_update, save_last_index_point, Indexed, one-save_or_update,
  end_block-save_or_update,
}
use btclibwallet.Txindex.Index.{
  Header, Block, Progress, IndexError, block_hash, index_txs, finish_block, range_fn, index_blocks,
  index_transactions,
}

module _ (S : TxStore) (Summary : Type 0)
    (decode : Summary → Option String → Result Error Transaction) (empty : Transaction) where
  open S use {Db, get_end_block}

  -- Everything that the one index holds, by hash, the other holds too.
  abbrev Keeps : Db → Db → Type 0
  Keeps a b = (h : String) → Indexed S a h → Indexed S b h

  -- Each transaction of the block decodes, and is in the index by its hash.
  abbrev pub TxsIndexed : Db → Option String → List Summary → Type 0
  TxsIndexed db hash = All (λ s. (t : Transaction) × (decode s hash ≡ ok t) × Indexed S db t.hash)

  abbrev pub BlockIndexed : Db → Block Summary × Bool → Type 0
  BlockIndexed db (b, done) = TxsIndexed db (block_hash b.header) b.transactions

  -- The stored height after a block: its own, if it has a header.
  abbrev pub next_end : Option Header → Result StormError ℤ → Result StormError ℤ
  next_end none old = old
  next_end (some h) old = ok (i32 (pos h.height))

  -- The stored height after some blocks.
  abbrev pub last_end : List (Block Summary × Bool) → Result StormError ℤ → Result StormError ℤ
  last_end [] old = old
  last_end ((b, done) ∷ bs) old = last_end bs (next_end b.header old)

  abbrev TxsDone : Option String → List Summary → Db → Db → Type 0
  TxsDone hash xs a b = TxsIndexed b hash xs × Keeps a b × (get_end_block b ≡ get_end_block a)

  abbrev BlockDone : Block Summary × Bool → Db → Progress Db × Bool × Option IndexError → Type 0
  BlockDone (b, done) a r =
      BlockIndexed r.0.db (b, done)
      × Keeps a r.0.db
      × (get_end_block r.0.db ≡ next_end b.header (get_end_block a))
      × (r.1 ≡ false)

  abbrev pub BlocksDone : List (Block Summary × Bool) → Db → Db → Type 0
  BlocksDone bs a b =
      All (BlockIndexed b) bs × Keeps a b × (get_end_block b ≡ last_end bs (get_end_block a))

  TxsIndexed-mono :
      (a b : Db) (hash : Option String) (xs : List Summary)
      → Keeps a b
      → TxsIndexed a hash xs
      → TxsIndexed b hash xs
  TxsIndexed-mono a b hash [] k h = tt
  TxsIndexed-mono a b hash (x ∷ xs) k ((t, d, i), r) =
      ((t, d, k t.hash i), TxsIndexed-mono a b hash xs k r)

  module _ (laws : IsTxStore S) (zero_time : empty.timestamp ≡ pos 0) where
    Keeps-save_or_update :
        (db : Db) (tx : Transaction)
        → (save_or_update S db empty tx).1 ≡ none
        → Keeps db (save_or_update S db empty tx).2
    Keeps-save_or_update db tx fine h (t, e) = elim (Bool-cases (str_eq tx.hash h)) [
      | inl same ↦ (tx, rw (one-save_or_update S laws db empty tx h zero_time fine, same))
      | inr other ↦ (t, rw (one-save_or_update S laws db empty tx h zero_time fine, other) e)
    ]

    Indexed-save_or_update :
        (db : Db) (tx : Transaction)
        → (save_or_update S db empty tx).1 ≡ none
        → Indexed S (save_or_update S db empty tx).2 tx.hash
    Indexed-save_or_update db tx fine =
        (tx, rw (one-save_or_update S laws db empty tx tx.hash zero_time fine, eq_refl))

    -- A block's loop that reports no error went on from a decoded and stored transaction.
    index_txs-cons :
        (hash : Option String) (x : Summary) (xs : List Summary) (p : Progress Db)
        → (index_txs S Summary decode empty hash (x ∷ xs) p).1 ≡ none
        → (tx : Transaction) × (decode x hash ≡ ok tx)
          × ((save_or_update S p.db empty tx).1 ≡ none)
          × (index_txs S Summary decode empty hash (x ∷ xs) p
              ≡ index_txs S Summary decode empty hash xs (record p {
                db = (save_or_update S p.db empty tx).2;
                total_index = p.total_index + 1;
              }))
    unfolding index_txs
    index_txs-cons hash x xs p h = elim (Result-cases (decode x hash)) [
      | inl (tx, d) ↦ elim (Option-cases (save_or_update S p.db empty tx).1) [
        | inl fine ↦ (tx, d, fine, ground (arith, d, fine))
        | inr (e, bad) ↦ absurd (ground (arith, d, bad))
      ]
      | inr (e, d) ↦ absurd (ground (arith, d))
    ]

    index_txs_complete :
        (hash : Option String) (xs : List Summary) (p : Progress Db)
        → (index_txs S Summary decode empty hash xs p).1 ≡ none
        → TxsDone hash xs p.db (index_txs S Summary decode empty hash xs p).0.db
    unfolding index_txs
    index_txs_complete hash [] p h = (tt, λ s i. i, refl)
    index_txs_complete hash (x ∷ xs) p h =
        let (tx, d, fine, step) = index_txs-cons hash x xs p h in
        let p' : Progress Db = record p {
          db = (save_or_update S p.db empty tx).2;
          total_index = p.total_index + 1;
        } in
        let (all, kept, same) = index_txs_complete hash xs p' (rw step at h) in
        subst (λ r. TxsDone hash (x ∷ xs) p.db r.0.db) (sym step)
          (
            ((tx, d, kept tx.hash (Indexed-save_or_update p.db tx fine)), all),
            λ s i. kept s (Keeps-save_or_update p.db tx fine s i),
            same ∙ end_block-save_or_update S laws p.db empty tx,
          )

    index_txs-end_block :
        (hash : Option String) (xs : List Summary) (p : Progress Db)
        → get_end_block (index_txs S Summary decode empty hash xs p).0.db ≡ get_end_block p.db
    unfolding index_txs
    index_txs-end_block hash [] p = refl
    index_txs-end_block hash (x ∷ xs) p =
        let same = end_block-save_or_update S laws p.db empty in
        elim (Result-cases (decode x hash)) [
          | inl (tx, d) ↦ ground (
            arith,
            d,
            same tx,
            index_txs-end_block hash xs (record p {
              db = (save_or_update S p.db empty tx).2;
              total_index = p.total_index + 1;
            }),
          )
          | inr (e, d) ↦ ground (arith, d)
        ]

    finish_block_complete :
        (header : Option Header) (done : Bool) (q : Progress Db)
        → (finish_block S Summary decode empty header done q).2 ≡ none
        → Keeps q.db (finish_block S Summary decode empty header done q).0.db
          × (get_end_block (finish_block S Summary decode empty header done q).0.db
              ≡ next_end header (get_end_block q.db))
          × ((finish_block S Summary decode empty header done q).1 ≡ false)
    unfolding finish_block save_last_index_point
    finish_block_complete none true q h = cc
    finish_block_complete none false q h = (λ s i. i, refl, refl)
    finish_block_complete (some hd) done q h =
        elim (Result-cases (S.set_end_block q.db (i32 (pos hd.height)))) [
          | inl (db', e) ↦ (
            λ s (t, i).
                (t, ground (arith, e, laws.one-set_end_block q.db db' (i32 (pos hd.height)) s)),
            ground (arith, e, laws.get_end_block-set_end_block q.db db' (i32 (pos hd.height))),
            ground (arith, e),
          )
          | inr (x, e) ↦ absurd (ground (arith, e))
        ]

    range_fn-step :
        (b : Block Summary) (done : Bool) (p : Progress Db)
        → (range_fn S Summary decode empty b done p).2 ≡ none
        → ((index_txs S Summary decode empty (block_hash b.header) b.transactions p).1 ≡ none)
          × (range_fn S Summary decode empty b done p
              ≡ finish_block S Summary decode empty b.header done
                  (index_txs S Summary decode empty (block_hash b.header) b.transactions p).0)
    unfolding range_fn
    range_fn-step b done p h =
        elim (Option-cases
          (index_txs S Summary decode empty (block_hash b.header) b.transactions p).1) [
            | inl fine ↦ (fine, ground (arith, fine))
            | inr (e, bad) ↦ absurd (ground (arith, bad))
          ]

    -- A block that reports no error is indexed, and moves the stored height to its own.
    range_fn_complete :
        (b : Block Summary) (done : Bool) (p : Progress Db)
        → (range_fn S Summary decode empty b done p).2 ≡ none
        → BlockDone (b, done) p.db (range_fn S Summary decode empty b done p)
    range_fn_complete b done p h =
        let (fine, step) = range_fn-step b done p h in
        let q : Progress Db =
          (index_txs S Summary decode empty (block_hash b.header) b.transactions p).0 in
        let (all, kept, same) = index_txs_complete (block_hash b.header) b.transactions p fine in
        let (kept', end', go) = finish_block_complete b.header done q (rw step at h) in
        subst (BlockDone (b, done) p.db) (sym step) (
          TxsIndexed-mono q.db _ (block_hash b.header) b.transactions kept' all,
          λ s i. kept' s (kept s i),
          end' ∙ ap (next_end b.header) same,
          go,
        )

    index_blocks-cons :
        (b : Block Summary) (done : Bool) (bs : List (Block Summary × Bool)) (p : Progress Db)
        → (index_blocks S Summary decode empty ((b, done) ∷ bs) p).1 ≡ none
        → ((range_fn S Summary decode empty b done p).2 ≡ none)
          × ((range_fn S Summary decode empty b done p).1 ≡ false
              → index_blocks S Summary decode empty ((b, done) ∷ bs) p
                ≡ index_blocks S Summary decode empty bs
                    (range_fn S Summary decode empty b done p).0)
    unfolding index_blocks
    index_blocks-cons b done bs p h =
        elim (Option-cases (range_fn S Summary decode empty b done p).2) [
          | inl fine ↦ (fine, λ go. ground (arith, fine, go))
          | inr (e, bad) ↦ absurd (ground (arith, bad))
        ]

    index_blocks_complete :
        (bs : List (Block Summary × Bool)) (p : Progress Db)
        → (index_blocks S Summary decode empty bs p).1 ≡ none
        → BlocksDone bs p.db (index_blocks S Summary decode empty bs p).0.db
    unfolding index_blocks
    index_blocks_complete [] p h = (tt, λ s i. i, refl)
    index_blocks_complete ((b, done) ∷ bs) p h =
        let (fine, next) = index_blocks-cons b done bs p h in
        let (here_all, kept, end', go) = range_fn_complete b done p fine in
        let q : Progress Db = (range_fn S Summary decode empty b done p).0 in
        let (all, kept', end'') = index_blocks_complete bs q (rw (next go) at h) in
        subst (λ (r : Progress Db × Option IndexError). BlocksDone ((b, done) ∷ bs) p.db r.0.db)
          (sym (next go))
          (
            (TxsIndexed-mono q.db _ (block_hash b.header) b.transactions kept' here_all, all),
            λ s i. kept' s (kept s i),
            end'' ∙ ap (last_end bs) end',
          )

    -- If `IndexTransactions` reports no error, where storm behaves as documented and the caller's
    -- empty transaction has timestamp 0, then there is a start height at which it began such that
    -- every transaction of every block from there on is in the index by its hash, whatever was in
    -- the index before still is, and the stored height is that of the last block with a header
    -- (or the old one, if no block had one).
    pub index_transactions_complete :
        (blocks : ℤ → ℤ → List (Block Summary × Bool)) (end_height : ℤ) (db : Db)
        → (index_transactions S Summary decode empty blocks end_height db).1 ≡ none
        → (start : ℤ) × (read_indexing_start_block S db ≡ ok start)
          × BlocksDone
              (blocks start end_height)
              db
              (index_transactions S Summary decode empty blocks end_height db).0
    unfolding index_transactions
    index_transactions_complete blocks end_height db h =
        elim (Result-cases (read_indexing_start_block S db)) [
          | inl (start, e) ↦
              let p : Progress Db = record { db = db; total_index = 0; tx_end_height = 0 } in
              let fine : (index_blocks S Summary decode empty (blocks start end_height) p).1
                  ≡ none =
                ground (arith, e) in
              let ran : (index_transactions S Summary decode empty blocks end_height db).0
                  ≡ (index_blocks S Summary decode empty (blocks start end_height) p).0.db =
                ground (arith, e) in
              (
                start,
                e,
                subst (BlocksDone (blocks start end_height) db) (sym ran)
                    (index_blocks_complete (blocks start end_height) p fine),
              )
          | inr (x, e) ↦ absurd (ground (arith, e))
        ]
