-- ===== src/Spv/Peers.antt =====
-- spv/sync.go: the wallets' chain tips, the choice of a peer and of a peer's address. Wallets and
-- peers are in the order in which their maps are iterated.
use btclibwallet.Prelude.{
  ℕ, zero, suc, ◌+◌, ◌≡◌, ◌≤◌, ◌<◌, ◌⊎◌, inl, inr, refl, Bool, false, not, ◌&&◌, ◌||◌, Option, none,
  some, List, [], ◌∷◌, Result, ok, err, if◌then◌else◌, ltb, Bool-cases, Option-cases, arith, Elem,
  here, there, All, subst, sym,
}
use btclibwallet.Errors.{Error, message, with_kind, no_peers}
use btclibwallet.Spv.{Hash}

-- `lowestTip` is -1, here none, before the first wallet; a wallet's height is not negative.
unfoldable pub lowest_tip : Option (Hash × ℕ) → List (Hash × ℕ) → Option (Hash × ℕ)
lowest_tip best [] = best
lowest_tip none (t ∷ ts) = lowest_tip (some t) ts
lowest_tip (some b) (t ∷ ts) = lowest_tip (some (if ltb t.1 b.1 then t else b)) ts

unfoldable pub lowest_chain_tip : List (Hash × ℕ) → Option (Hash × ℕ)
lowest_chain_tip ts = lowest_tip none ts

unfoldable pub highest_tip : Option (Hash × ℕ) → List (Hash × ℕ) → Option (Hash × ℕ)
highest_tip best [] = best
highest_tip none (t ∷ ts) = highest_tip (some t) ts
highest_tip (some b) (t ∷ ts) = highest_tip (some (if ltb b.1 t.1 then t else b)) ts

unfoldable pub highest_chain_tip : List (Hash × ℕ) → Option (Hash × ℕ)
highest_chain_tip ts = highest_tip none ts

lowest_tip-bound :
    (b : Hash × ℕ) (ts : List (Hash × ℕ))
    → (t : Hash × ℕ) × (lowest_tip (some b) ts ≡ some t)
      × (t.1 ≤ b.1)
      × All (λ (u : Hash × ℕ). t.1 ≤ u.1) ts
      × ((t ≡ b) ⊎ Elem t ts)
unfolding lowest_tip
lowest_tip-bound b [] = (b, refl, omega arith, tt, inl refl)
lowest_tip-bound b (u ∷ ts) = elim (Bool-cases (ltb u.1 b.1)) [
  | inl y ↦
      let i = lowest_tip-bound u ts in
      (
        i.0,
        rw (lowest_tip, y) i.1,
        ground (arith, i.2, y),
        (i.2, i.3),
        inr (elim i.4 [ inl e ↦ subst (λ x. Elem x (u ∷ ts)) (sym e) here | inr e ↦ there e ]),
      )
  | inr n ↦
      let i = lowest_tip-bound b ts in
      (
        i.0,
        rw (lowest_tip, n) i.1,
        i.2,
        (ground (arith, i.2, n), i.3),
        elim i.4 [ inl e ↦ inl e | inr e ↦ inr (there e) ],
      )
]

-- The lowest chain tip is none without wallets, else it is a wallet's and no wallet's is lower.
pub lowest_chain_tip-least :
    (t : Hash × ℕ) (ts : List (Hash × ℕ))
    → (u : Hash × ℕ) × (lowest_chain_tip (t ∷ ts) ≡ some u)
      × Elem u (t ∷ ts)
      × All (λ (v : Hash × ℕ). u.1 ≤ v.1) (t ∷ ts)
unfolding lowest_chain_tip lowest_tip
lowest_chain_tip-least t ts =
    let i = lowest_tip-bound t ts in
    (
      i.0,
      i.1,
      elim i.4 [ inl e ↦ subst (λ x. Elem x (t ∷ ts)) (sym e) here | inr e ↦ there e ],
      (i.2, i.3),
    )

-- p2p.RemotePeer by its number.
unfoldable pub pick_remote : (ℕ → Bool) → List ℕ → Result Error ℕ
pick_remote pick [] = err (with_kind no_peers "")
pick_remote pick (rp ∷ rps) = let rest = pick_remote pick rps in if pick rp then ok rp else rest

-- The peers that f was called for, and the error.
unfoldable pub for_each_remote : (ℕ → Option Error) → List ℕ → List ℕ × Option Error
for_each_remote f [] = ([], none)
for_each_remote f (rp ∷ rps) = elim (f rp) [
  | some e ↦ (rp ∷ [], some e)
  | none ↦ (rp ∷ (for_each_remote f rps).0, (for_each_remote f rps).1)
]

unfoldable pub for_remotes : (ℕ → Option Error) → List ℕ → List ℕ × Option Error
for_remotes f [] = ([], some (with_kind no_peers ""))
for_remotes f (rp ∷ rps) = for_each_remote f (rp ∷ rps)

-- An address of the address manager: connected or connecting, the minutes since the last attempt,
-- and whether it has the services asked for.
pub record Candidate : Type 0 where
  pub address : ℕ
  pub is_connected : Bool
  pub last_attempt : ℕ
  pub has_services : Bool

unfoldable pub is_skipped : ℕ → Candidate → Bool
is_skipped tries c =
    c.is_connected
    || ((ltb tries 30 && ltb c.last_attempt 10) || (ltb tries 50 && not c.has_services))

-- `k` tries are left; the address manager gives an address for each try, or none.
unfoldable pub candidate_loop : ℕ → ℕ → (ℕ → Option Candidate) → Result Error ℕ
candidate_loop zero tries get_address = err (message "no addresses")
candidate_loop (suc k) tries get_address = elim (get_address tries) [
  | none ↦ err (message "no addresses")
  | some c ↦
      let rest = candidate_loop k (tries + 1) get_address in
      if is_skipped tries c then rest else ok c.address
]

unfoldable pub peer_candidate : (ℕ → Option Candidate) → Result Error ℕ
peer_candidate get_address = candidate_loop 100 0 get_address

candidate_loop-fit :
    (k tries : ℕ) (get_address : ℕ → Option Candidate) (a : ℕ)
    → candidate_loop k tries get_address ≡ ok a
    → (t : ℕ) × (c : Candidate) × (get_address t ≡ some c)
      × (c.address ≡ a)
      × (t < tries + k)
      × (c.is_connected ≡ false)
      × ((c.last_attempt < 10) → 30 ≤ t)
      × (c.has_services ≡ false → 50 ≤ t)
unfolding candidate_loop is_skipped
candidate_loop-fit zero tries g a h = absurd (cc h)
candidate_loop-fit (suc k) tries g a h = elim (Option-cases (g tries)) [
  | inl n ↦ absurd (ground (arith, h, n))
  | inr (c, e) ↦ elim (Bool-cases (is_skipped tries c)) [
    | inl y ↦
        let i = candidate_loop-fit k (tries + 1) g a (ground (arith, h, e, y)) in
        (i.0, i.1, i.2, i.3, omega (arith, i.4), i.5, i.6, i.7)
    | inr n ↦ (
      tries,
      c,
      e,
      ground (arith, h, e, n),
      omega arith,
      ground (arith, n),
      λ l. ground (arith, n, l),
      λ l. ground (arith, n, l),
    )
  ]
]

-- A peer's address that is handed out is one that the address manager gave within a hundred tries,
-- not connected; it was attempted within ten minutes only after thirty tries, and lacks the
-- services only after fifty.
pub peer_candidate-fit :
    (get_address : ℕ → Option Candidate) (a : ℕ)
    → peer_candidate get_address ≡ ok a
    → (t : ℕ) × (c : Candidate) × (get_address t ≡ some c)
      × (c.address ≡ a)
      × (t < 100)
      × (c.is_connected ≡ false)
      × ((c.last_attempt < 10) → 30 ≤ t)
      × (c.has_services ≡ false → 50 ≤ t)
unfolding peer_candidate
peer_candidate-fit get_address a h = candidate_loop-fit 100 0 get_address a h
