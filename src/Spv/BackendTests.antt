-- ===== src/Spv/BackendTests.antt =====
-- Runs of the network backend at the two blocks of Spv/Tests: the first peer that is tried fails.
use btclibwallet.Prelude.{
  ℕ, refl, subst, none, List, [], ◌∷◌, Result, ok, err, ◌==◌, arith, inl, inr, true, Elem, ap, ◌∙◌,
  if◌then◌else◌,
}
use btclibwallet.Errors.{Error, message}
use btclibwallet.Spv.{Hash, Block}
use btclibwallet.Spv.Rescan.{spent}
use btclibwallet.Spv.Scan.{validate_block}
use btclibwallet.Spv.Full.{full_scan}
use btclibwallet.Spv.Fetch.{IsNode}
use btclibwallet.Spv.Backend.{cfilter_matches, load_cfilters, Pick, rescan}
use btclibwallet.Spv.Saved.{IsTried, IsRescanned, rescan-IsRescanned}
use btclibwallet.Spv.Tests.{
  list_watch, list_watch-IsWatch, list_blocks, block_of, first_node, second_node, has_number-Elem,
  chain, peer, peer_gives, loaded,
}

abbrev tries : List (Pick list_watch list_blocks)
tries = ok (λ hs. err (message "timeout")) ∷ ok peer ∷ ok peer ∷ []

abbrev stored : Hash → Result Error (List ℕ)
stored h = if h == 1 then ok (14 ∷ []) else ok (23 ∷ [])

abbrev answer : Pick list_watch list_blocks → List Hash → Result Error (List Block)
answer (ok blocks) hs = blocks hs
answer (err e) hs = err e

first_node-stored :
    IsNode list_watch list_blocks block_of (cfilter_matches list_watch list_blocks) first_node
unfolding validate_block cfilter_matches spent
first_node-stored = (
  refl,
  λ d h. (
    tt,
    (
      λ e s i.
          has_number-Elem d 14 (ground (arith, h)) (subst (λ x. Elem x d) (ground (arith, s)) i),
      tt,
    ),
  ),
)

second_node-stored :
    IsNode list_watch list_blocks block_of (cfilter_matches list_watch list_blocks) second_node
unfolding validate_block cfilter_matches spent
second_node-stored = (refl, λ d h. ((λ i. has_number-Elem d 23 (ground (arith, h)) i, tt), tt))

rescan-IsRescanned_example :
    IsRescanned list_watch list_blocks block_of list_watch-IsWatch
      (IsTried list_watch list_blocks tries)
      (λ h. none)
      (λ h txs. none)
      (full_scan list_watch list_blocks block_of chain ([], 7 ∷ []) (14 ∷ []) [])
      (rescan list_watch list_blocks
        (λ h. none)
        (λ h txs. none)
        true
        stored
        tries
        (1 ∷ 2 ∷ [])
        ([], 7 ∷ [])
        (14 ∷ []))
unfolding load_cfilters
rescan-IsRescanned_example =
    rescan-IsRescanned list_watch list_blocks block_of list_watch-IsWatch (λ h. none)
      (λ h txs. none) stored tries (1 ∷ 2 ∷ []) chain ([], 7 ∷ []) (14 ∷ []) refl
      (
        (λ blocks hs bs p e. absurd (cc (ap (λ q. answer q hs) p ∙ e))),
        (
          (λ blocks hs bs p e. peer_gives hs bs (ap (λ q. answer q hs) p ∙ e)),
          ((λ blocks hs bs p e. peer_gives hs bs (ap (λ q. answer q hs) p ∙ e)), tt),
        ),
      )
      (inr (inl (inr (peer, refl, λ hs. refl), inl (inr (peer, refl, λ hs. refl), tt))))
      (first_node-stored, (second_node-stored, tt)) loaded
