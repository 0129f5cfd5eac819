-- ===== src/Spv/Tests.antt =====
-- Runs of package spv at concrete inputs: two blocks, of which the first pays the wallet and the
-- second spends what it paid. The wallet's filter is a list of outpoints and one of addresses.
use btclibwallet.Prelude.{
  ℕ, ◌+◌, ◌*◌, ◌≡◌, refl, subst, none, some, List, [], ◌∷◌, map, Result, ok, Bool, false, ◌||◌,
  ◌==◌, Elem, Elem-cases, inl, inr, arith, if◌then◌else◌,
}
use btclibwallet.Errors.{Error}
use btclibwallet.Spv.{Hash, OutPoint, Tx, Block, out_point_eq}
use btclibwallet.Spv.Rescan.{
  Watch, IsWatch, other_stake, rescan_block, rescan_check_transactions, check_transaction,
  check_outputs, check_inputs, check_addrs, spent,
}
use btclibwallet.Spv.Scan.{
  Blocks, BlockNode, Found, scan_chain, node_matches, validate_block, filter_loop, fetch_matches,
  wanted, fill, fill_head, walk, slots_of,
}
use btclibwallet.Spv.Loaded.{
  Reached, IsIndexed, first_load, Reached-IsIndexed, load_tx_filter, load_addrs, load_out_points,
  start_filter,
}
use btclibwallet.Spv.Terminates.{scan_chain-terminates}
use btclibwallet.Spv.Full.{full_scan}
use btclibwallet.Spv.Fetch.{IsNode}
use btclibwallet.Spv.Complete.{IsScanned, scan_chain-IsScanned}

abbrev pub has_out_point : List OutPoint → OutPoint → Bool
has_out_point [] p = false
has_out_point (o ∷ os) p = out_point_eq o p || has_out_point os p

abbrev pub has_number : List ℕ → ℕ → Bool
has_number [] n = false
has_number (m ∷ ms) n = m == n || has_number ms n

abbrev pub list_watch : Watch
list_watch = record {
  Filter = List OutPoint × List ℕ;
  Address = ℕ;
  Entry = ℕ;
  exists_address = λ f a. has_number f.1 a;
  exists_unspent = λ f o. has_out_point f.0 o;
  add_unspent = λ f o. (o ∷ f.0, f.1);
  new_rescan_filter = ([], []);
  add_address = λ f a. (f.0, a ∷ f.1);
  out_point_entry = λ o. 2 * o.hash + 1;
  script_entry = λ a. some (2 * a);
  extract_addrs = λ v script. some script;
  determine_tx_type = λ tx. other_stake;
}

pub list_watch-IsWatch : IsWatch list_watch
list_watch-IsWatch = record {
  exists_unspent-add_unspent = λ f o p. refl;
  exists_address-add_unspent = λ f o a. refl;
  exists_unspent-new = λ o. refl;
  exists_address-new = λ a. refl;
  exists_unspent-add_address = λ f a o. refl;
  exists_address-add_address = λ f a b h. ground (arith, h);
  exists_address-added = λ f a. ground arith;
}

abbrev pub intersects : List ℕ → List ℕ → Bool
intersects [] d = false
intersects (x ∷ xs) d = has_number d x || intersects xs d

abbrev pub list_blocks : Blocks ℕ
list_blocks = record {
  CFilter = List ℕ;
  filter_n = λ f. elim f [ [] ↦ 0 | x ∷ xs ↦ 1 ];
  match_any = λ f h d. intersects f d;
  merkle_roots = λ b. none;
  dcp0005_merkle_root = λ b. none;
  regular_cfilter = λ b f. none;
}

abbrev pub coinbase : Tx
coinbase = record { hash = 10; tx_in = record { hash = 0; index = 0; tree = 0 } ∷ []; tx_out = [] }

abbrev pub paying : Tx
paying = record { hash = 11; tx_in = []; tx_out = record { version = 0; pk_script = 7 ∷ [] } ∷ [] }

abbrev pub spending : Tx
spending = record { hash = 12; tx_in = record { hash = 11; index = 0; tree = 0 } ∷ []; tx_out = [] }

abbrev pub first_block : Block
first_block = record { hash = 1; transactions = coinbase ∷ paying ∷ []; s_transactions = [] }

abbrev pub second_block : Block
second_block = record { hash = 2; transactions = coinbase ∷ spending ∷ []; s_transactions = [] }

abbrev pub block_of : Hash → Block
block_of h = if h == 1 then first_block else second_block

abbrev pub first_node : BlockNode (List ℕ)
first_node = record { hash = 1; filter = 14 ∷ [] }

abbrev pub second_node : BlockNode (List ℕ)
second_node = record { hash = 2; filter = 23 ∷ [] }

-- Elem in the data is has_number.
pub has_number-Elem : (d : List ℕ) (n : ℕ) → has_number d n ≡ false → ¬ Elem n d
has_number-Elem [] n h e = elim e [ ]
has_number-Elem (m ∷ ms) n h e = elim (Elem-cases e) [
  | inl same ↦ ground (arith, same, h)
  | inr later ↦ has_number-Elem ms n (ground (arith, h)) later
]

first_node-IsNode :
    IsNode list_watch list_blocks block_of (node_matches list_watch list_blocks) first_node
unfolding validate_block node_matches spent
first_node-IsNode = (
  refl,
  λ d h. (
    tt,
    (
      λ e s i.
          has_number-Elem d 14 (ground (arith, h)) (subst (λ x. Elem x d) (ground (arith, s)) i),
      tt,
    ),
  ),
)

second_node-IsNode :
    IsNode list_watch list_blocks block_of (node_matches list_watch list_blocks) second_node
unfolding validate_block node_matches spent
second_node-IsNode = (refl, λ d h. ((λ i. has_number-Elem d 23 (ground (arith, h)) i, tt), tt))

abbrev pub chain : List (BlockNode (List ℕ))
chain = first_node ∷ second_node ∷ []

abbrev pub peer : List Hash → Result Error (List Block)
peer hs = ok (map block_of hs)

pub peer_gives : (hs : List Hash) (bs : List Block) → peer hs ≡ ok bs → bs ≡ map block_of hs
peer_gives hs bs e = ground (arith, e)

pub loaded : Reached list_watch (([], 7 ∷ []), 14 ∷ [])
unfolding load_tx_filter load_addrs load_out_points start_filter
loaded = first_load false (7 ∷ []) []

Reached-IsIndexed_example : IsIndexed list_watch (([], 7 ∷ []), 14 ∷ [])
Reached-IsIndexed_example =
    Reached-IsIndexed list_watch list_watch-IsWatch (([], 7 ∷ []), 14 ∷ []) loaded

scan_chain-IsScanned_example :
    IsScanned list_watch list_blocks block_of list_watch-IsWatch
      (λ k. none)
      peer
      peer_gives
      (full_scan list_watch list_blocks block_of chain ([], 7 ∷ []) (14 ∷ []) [])
      (scan_chain list_watch list_blocks (λ k. none) peer chain (λ h. none) ([], 7 ∷ []) (14 ∷ []))
unfolding spent out_point_eq
scan_chain-IsScanned_example =
    scan_chain-IsScanned list_watch list_blocks block_of list_watch-IsWatch (λ k. none) peer
      peer_gives chain (λ h. none) ([], 7 ∷ []) (14 ∷ []) (λ h b e. absurd (cc e))
      (first_node-IsNode, (second_node-IsNode, tt)) loaded

scan_chain-terminates_example :
    (r : (List OutPoint × List ℕ) × List ℕ × Result Error Found) × (scan_chain list_watch
        list_blocks
        (λ k. none)
        peer
        chain
        (λ h. none)
        ([], 7 ∷ [])
        (14 ∷ [])
      ≡ some r)
scan_chain-terminates_example =
    scan_chain-terminates list_watch list_blocks (λ k. none) peer chain (λ h. none) ([], 7 ∷ [])
      (14 ∷ [])

-- Both blocks are found, the second by the outpoint that the first has added.
scan_chain-two_blocks :
    scan_chain list_watch list_blocks (λ k. none) peer chain (λ h. none) ([], 7 ∷ []) (14 ∷ [])
    ≡ some (
      (record { hash = 11; index = 0; tree = 0 } ∷ [], 7 ∷ []),
      14 ∷ 23 ∷ [],
      ok ((1, paying ∷ []) ∷ (2, spending ∷ []) ∷ []),
    )
unfolding scan_chain filter_loop fetch_matches wanted fill fill_head walk slots_of node_matches
    validate_block rescan_block rescan_check_transactions check_transaction check_outputs
    check_inputs check_addrs spent out_point_eq
scan_chain-two_blocks = refl
