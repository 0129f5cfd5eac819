-- ===== src/Spv/Headers.antt =====
-- `getHeaders` of spv/sync.go: headers are fetched in rounds until the peer has no more. A round is
-- what the peer and the wallets answer in it.
use btclibwallet.Prelude.{
  ℕ, ◌+◌, ◌≡◌, ◌≤◌, ◌⊎◌, inl, inr, Bool, false, ◌&&◌, Option, none, some, List, [], ◌∷◌, ◌++◌,
  Result, ok, err, if◌then◌else◌, ltb, Bool-cases, Option-cases, Result-cases, List-cases, arith,
  Elem, here, there, ◌==◌,
}
use btclibwallet.Errors.{Error, with_kind, protocol}
use btclibwallet.Spv.{Hash}

-- The best chain's length with the new headers, its validation and the switch of chains.
pub record WalletRound : Type 0 where
  pub evaluate_best_chain : Result Error ℕ
  pub validate : Option Error
  pub chain_switch : Option Error

-- The heights of the headers that the peer sends, the fetch of their filters, the height of the
-- wallet's block of the first locator (none for an error), and the locators made after the round.
pub record Round : Type 0 where
  pub headers : Result Error (List ℕ)
  pub cfilters : Option Error
  pub own_height : Option ℕ
  pub wallets : List WalletRound
  pub block_locators : Result Error (List Hash)

-- `currentLocators` and `locatorGeneration`, and the heights notified as fetched.
pub record Locators : Type 0 where
  pub current : List Hash
  pub generation : ℕ
  pub progress : List ℕ

-- Progress is notified for a wallet whose chain grows by more than a block.
unfoldable pub connect_wallets : ℕ → List WalletRound → List ℕ → List ℕ × Option Error
connect_wallets h [] sent = (sent, none)
connect_wallets h (w ∷ ws) sent = elim w.evaluate_best_chain [
  | err e ↦ (sent, some e)
  | ok n ↦
      let skip = connect_wallets h ws sent in
      let on = connect_wallets h ws (sent ++ h ∷ []) in
      if n == 0 then skip else elim w.validate [
        | some e ↦ (sent, some e)
        | none ↦ elim w.chain_switch [
          | some e ↦ (sent, some e)
          | none ↦ if n == 1 then skip else on
        ]
      ]
]

unfoldable pub last_height : ℕ → List ℕ → ℕ
last_height h [] = h
last_height h (x ∷ xs) = last_height x xs

unfoldable pub set_locators : Locators → List Hash → Locators
set_locators l hs = record l { current = hs; generation = l.generation + 1 }

-- The peer ends before its advertised height: an error only if the own height is known.
unfoldable pub is_short : ℕ → ℕ → Option ℕ → Bool
is_short initial last own = ltb last initial && elim own [ none ↦ false | some h ↦ ltb h initial ]

unfoldable pub end_headers : ℕ → Option Error → ℕ → Option ℕ → Option Error
end_headers initial send_headers last own =
    if is_short initial last own
    then some (with_kind protocol "peer did not provide headers through advertised height")
    else send_headers

-- `lost` is the error of `rp.Headers` once the peer answers no more.
unfoldable pub headers_loop :
    ℕ → Option Error → Error → List Round → ℕ → Locators → Locators × Option Error
headers_loop initial send_headers lost [] last l = (l, some lost)
headers_loop initial send_headers lost (r ∷ rs) last l = elim r.headers [
  | err e ↦ (l, some e)
  | ok [] ↦ (l, end_headers initial send_headers last r.own_height)
  | ok (h ∷ hs) ↦ elim r.cfilters [
    | some e ↦ (l, some e)
    | none ↦
        let c = connect_wallets (last_height h hs) r.wallets l.progress in
        elim c.1 [
          | some e ↦ (record l { progress = c.0 }, some e)
          | none ↦ elim r.block_locators [
            | err e ↦ (record l { progress = c.0 }, some e)
            | ok ls ↦
                headers_loop initial send_headers lost rs (last_height h hs)
                  (set_locators (record l { progress = c.0 }) ls)
          ]
        ]
  ]
]

-- The locators are made anew where there are none.
unfoldable pub get_headers :
    ℕ
    → Option Error
    → Error
    → Result Error (List Hash)
    → List Round
    → Locators
    → Locators × Option Error
get_headers initial send_headers lost first rs l = elim l.current [
  | x ∷ xs ↦ headers_loop initial send_headers lost rs 0 l
  | [] ↦ elim first [
    | err e ↦ (l, some e)
    | ok ls ↦ headers_loop initial send_headers lost rs 0 (set_locators l ls)
  ]
]

-- A height that the peer has sent a header of.
abbrev pub IsSent : ℕ → List Round → Type 0
IsSent n rs = (r : Round) × Elem r rs × ((hs : List ℕ) × (r.headers ≡ ok hs) × Elem n hs)

last_height-Elem : (h : ℕ) (hs : List ℕ) → Elem (last_height h hs) (h ∷ hs)
unfolding last_height
last_height-Elem h [] = here
last_height-Elem h (x ∷ xs) = there (last_height-Elem x xs)

IsSent-later : (n : ℕ) (r : Round) (rs : List Round) → IsSent n rs → IsSent n (r ∷ rs)
IsSent-later n r rs (q, e, h) = (q, there e, h)

-- What a run that ends well says of the peer.
abbrev pub HasReached : ℕ → ℕ → List Round → Type 0
HasReached initial last rs =
    (initial ≤ last)
    ⊎ (((n : ℕ) × (initial ≤ n) × IsSent n rs)
        ⊎ ((r : Round) × Elem r rs × ((h : ℕ) → r.own_height ≡ some h → initial ≤ h)))

end_headers-reached :
    (initial : ℕ) (send_headers : Option Error) (last : ℕ) (own : Option ℕ)
    → end_headers initial send_headers last own ≡ none
    → (initial ≤ last) ⊎ ((h : ℕ) → own ≡ some h → initial ≤ h)
unfolding end_headers is_short
end_headers-reached initial send_headers last own e = elim (Bool-cases (ltb last initial)) [
  | inr n ↦ inl (ground (arith, n))
  | inl y ↦ inr (λ h o. elim (Bool-cases (ltb h initial)) [
    | inl z ↦ absurd (ground (arith, e, y, o, z))
    | inr z ↦ ground (arith, z)
  ])
]

HasReached-later :
    (initial last : ℕ) (r : Round) (rs : List Round) (h : ℕ) (hs : List ℕ)
    → r.headers ≡ ok (h ∷ hs)
    → HasReached initial (last_height h hs) rs
    → HasReached initial last (r ∷ rs)
HasReached-later initial last r rs h hs e (inl l) =
    inr (inl (last_height h hs, l, (r, here, (h ∷ hs, e, last_height-Elem h hs))))
HasReached-later initial last r rs h hs e (inr (inl (n, l, i))) =
    inr (inl (n, l, IsSent-later n r rs i))
HasReached-later initial last r rs h hs e (inr (inr (q, i, o))) = inr (inr (q, there i, o))

headers_loop-reached :
    (initial : ℕ) (send_headers : Option Error) (lost : Error) (rs : List Round) (last : ℕ)
    (l : Locators)
    → (headers_loop initial send_headers lost rs last l).1 ≡ none
    → HasReached initial last rs
unfolding headers_loop
headers_loop-reached initial send_headers lost [] last l = λ h. absurd (cc h)
headers_loop-reached initial send_headers lost (r ∷ rs) last l = λ done.
    elim (Result-cases r.headers) [
      | inr (e, x) ↦ absurd (ground (arith, done, x))
      | inl (hs, x) ↦ elim (List-cases hs) [
        | inl n ↦
            elim (end_headers-reached initial send_headers last r.own_height
              (ground (arith, done, x, n))) [ inl y ↦ inl y | inr y ↦ inr (inr (r, here, y)) ]
        | inr (h, hs', n) ↦ elim (Option-cases r.cfilters) [
          | inr (e, f) ↦ absurd (ground (arith, done, x, n, f))
          | inl f ↦
              elim (Option-cases (connect_wallets (last_height h hs') r.wallets l.progress).1) [
                | inr (e, c) ↦ absurd (ground (arith, done, x, n, f, c))
                | inl c ↦ elim (Result-cases r.block_locators) [
                  | inr (e, b) ↦ absurd (ground (arith, done, x, n, f, c, b))
                  | inl (ls, b) ↦ HasReached-later initial last r rs h hs' (ground (arith, x, n)) (
                      headers_loop-reached initial send_headers lost rs (last_height h hs')
                        (set_locators
                          (record l {
                            progress = (connect_wallets (last_height h hs') r.wallets l.progress).0;
                          })
                          ls)
                        (ground (arith, done, x, n, f, c, b)))
                ]
              ]
        ]
      ]
    ]

-- A fetch of headers that ends without an error has had a header of the peer at its advertised
-- height or above, or the height is zero, or at the end of a round the wallet's own block is that
-- high or its header cannot be read.
pub get_headers-HasReached :
    (initial : ℕ) (send_headers : Option Error) (lost : Error) (first : Result Error (List Hash))
    (rs : List Round) (l : Locators)
    → (get_headers initial send_headers lost first rs l).1 ≡ none
    → HasReached initial 0 rs
unfolding get_headers
get_headers-HasReached initial send_headers lost first rs l = elim (List-cases l.current) [
  | inr (x, xs, e) ↦ rw (get_headers, e) (headers_loop-reached initial send_headers lost rs 0 l)
  | inl e ↦ elim (Result-cases first) [
    | inr (b, f) ↦ rw (get_headers, e, f) (λ h. absurd (cc h))
    | inl (ls, f) ↦
        rw (get_headers, e, f)
          (headers_loop-reached initial send_headers lost rs 0 (set_locators l ls))
  ]
]
