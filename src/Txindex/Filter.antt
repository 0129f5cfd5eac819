-- ===== src/Txindex/Filter.antt =====
-- txindex/filter.go: the filter as a test of one transaction, and as a query for storm.
use Prim.Native.String.{String}
use text.Mathlib.Text.{◌==◌ as str_eq}
use btclibwallet.Prelude.{
  ℕ, ◌≤◌, ◌⊎◌, ◌≡◌, Bool, true, false, not, ◌&&◌, List, [], ◌∷◌, arith, if◌then◌else◌,
}
use btclibwallet.Prelude.Int.{ℤ, pos, ◌<ℤ◌, eqb_ℤ}
use btclibwallet.Txhelper.{
  tx_type_regular, tx_type_coin_base, tx_direction_sent, tx_direction_received,
  tx_direction_transferred,
}

abbrev pub tx_filter_all : ℤ
tx_filter_all = pos 0

abbrev pub tx_filter_sent : ℤ
tx_filter_sent = pos 1

abbrev pub tx_filter_received : ℤ
tx_filter_received = pos 2

abbrev pub tx_filter_transferred : ℤ
tx_filter_transferred = pos 3

abbrev pub tx_filter_staking : ℤ
tx_filter_staking = pos 4

abbrev pub tx_filter_coin_base : ℤ
tx_filter_coin_base = pos 5

abbrev pub tx_filter_regular : ℤ
tx_filter_regular = pos 6

unfoldable pub tx_matches_filter : String → ℤ → ℤ → Bool
tx_matches_filter tx_type tx_direction tx_filter =
    if eqb_ℤ tx_filter tx_filter_sent
    then str_eq tx_type tx_type_regular && eqb_ℤ tx_direction tx_direction_sent
    else if eqb_ℤ tx_filter tx_filter_received
    then str_eq tx_type tx_type_regular && eqb_ℤ tx_direction tx_direction_received
    else if eqb_ℤ tx_filter tx_filter_transferred
    then str_eq tx_type tx_type_regular && eqb_ℤ tx_direction tx_direction_transferred
    else if eqb_ℤ tx_filter tx_filter_staking
    then not (str_eq tx_type tx_type_regular) && not (str_eq tx_type tx_type_coin_base)
    else if eqb_ℤ tx_filter tx_filter_coin_base
    then str_eq tx_type tx_type_coin_base
    else if eqb_ℤ tx_filter tx_filter_regular
    then str_eq tx_type tx_type_regular
    else if eqb_ℤ tx_filter tx_filter_all
    then true
    else false

-- storm's matchers (package q), by what they say of a record with this type and this direction.
pub record Matchers : Type 1 where
  pub Matcher : Type 0
  pub eq_type : String → Matcher
  pub eq_direction : ℤ → Matcher
  pub q_not : Matcher → Matcher → Matcher
  pub q_true : Matcher
  pub matches : Matcher → String → ℤ → Bool

-- The documentation of package q: `Eq` compares the field, `Not` wants each of its matchers to
-- fail, `True` accepts all.
pub record IsMatchers (Q : Matchers) : Type 0 where
  pub matches-eq_type : (v t : String) (d : ℤ) → Q.matches (Q.eq_type v) t d ≡ str_eq t v
  pub matches-eq_direction :
      (v : ℤ) (t : String) (d : ℤ) → Q.matches (Q.eq_direction v) t d ≡ eqb_ℤ d v
  pub matches-q_not :
      (m n : Q.Matcher) (t : String) (d : ℤ)
      → Q.matches (Q.q_not m n) t d ≡ (not (Q.matches m t d) && not (Q.matches n t d))
  pub matches-q_true : (t : String) (d : ℤ) → Q.matches Q.q_true t d ≡ true

module _ (Q : Matchers) where
  open Q use {Matcher, eq_type, eq_direction, q_not, q_true, matches}

  -- The matchers that `Select` is given.
  unfoldable pub prepare_tx_query : ℤ → List Matcher
  prepare_tx_query tx_filter =
      if eqb_ℤ tx_filter tx_filter_sent
      then eq_type tx_type_regular ∷ eq_direction tx_direction_sent ∷ []
      else if eqb_ℤ tx_filter tx_filter_received
      then eq_type tx_type_regular ∷ eq_direction tx_direction_received ∷ []
      else if eqb_ℤ tx_filter tx_filter_transferred
      then eq_type tx_type_regular ∷ eq_direction tx_direction_transferred ∷ []
      else if eqb_ℤ tx_filter tx_filter_staking
      then q_not (eq_type tx_type_regular) (eq_type tx_type_coin_base) ∷ []
      else if eqb_ℤ tx_filter tx_filter_coin_base
      then eq_type tx_type_coin_base ∷ []
      else if eqb_ℤ tx_filter tx_filter_regular
      then eq_type tx_type_regular ∷ []
      else q_true ∷ []

  -- `Select` finds the records that all its matchers accept.
  abbrev pub selects : List Matcher → String → ℤ → Bool
  selects [] t d = true
  selects (m ∷ ms) t d = matches m t d && selects ms t d

  module _ (laws : IsMatchers Q) where
    -- For the seven filters that the package defines, the query finds exactly the transactions
    -- that the test accepts.
    pub selects-prepare_tx_query :
        (n : ℕ) (d : ℤ) (t : String)
        → n ≤ 6
        → selects (prepare_tx_query (pos n)) t d ≡ tx_matches_filter t d (pos n)
    unfolding prepare_tx_query tx_matches_filter
    selects-prepare_tx_query n d t h = ground (
      arith,
      laws.matches-eq_type tx_type_regular t d,
      laws.matches-eq_type tx_type_coin_base t d,
      laws.matches-eq_direction tx_direction_sent t d,
      laws.matches-eq_direction tx_direction_received t d,
      laws.matches-eq_direction tx_direction_transferred t d,
      laws.matches-q_not (eq_type tx_type_regular) (eq_type tx_type_coin_base) t d,
      laws.matches-q_true t d,
    )

    -- For any other number the two disagree: the query finds every transaction, the test none.
    pub unknown_filter_disagrees :
        (f d : ℤ) (t : String)
        → (pos 6 <ℤ f) ⊎ (f <ℤ pos 0)
        → (selects (prepare_tx_query f) t d ≡ true) × (tx_matches_filter t d f ≡ false)
    unfolding prepare_tx_query tx_matches_filter
    unknown_filter_disagrees f d t h = ground (arith, laws.matches-q_true t d)
