-- ===== src/Sizing/Search.antt =====
-- The loop of `size_position` over whole lots: a binary search for the last lot that the gate passes.
--
-- The gate may raise, as the quote of a lot does. The fuel is the number of lots above the first,
-- of which every step leaves out one at least.
use perpetuals_carry_strateg.Base.{
  ◌∙◌, ap, sym, ℕ, zero, suc, ◌+◌, ◌-◌, ◌/◌, ◌≤◌, ◌<◌, Bool, true, false, ◌≡◌, refl, ◌⊎◌, inl, inr,
  arith, ltb, Bool-cases, if◌then◌else◌,
}
use perpetuals_carry_strateg.Base.Result.{Result, ok, ◌>>=◌, >>=-eq-ok, ok_injective}

-- `(low + high + 1) // 2`
abbrev pub middle : ℕ → ℕ → ℕ
middle low high = (low + high + 1) / 2

module _ (gate : ℕ → Result Bool) where
  -- `while low < high`
  unfoldable pub search : ℕ → ℕ → ℕ → Result ℕ
  search zero low high = ok low
  search (suc fuel) low high = elim (ltb low high) [
    | true ↦ gate (middle low high) >>= (λ enters.
        let low' : ℕ = if enters then middle low high else low in
        let high' : ℕ = if enters then high else middle low high - 1 in search fuel low' high')
    | false ↦ ok low
  ]

  -- The gate passes a lot and, unless it is the last one, not the next.
  pub IsEdge : ℕ → ℕ → Type 0
  IsEdge last lots = (gate lots ≡ ok true) × ((lots ≡ last) ⊎ (gate (suc lots) ≡ ok false))

  middle_between : (low high : ℕ) → low < high → (low < middle low high) × (middle low high ≤ high)
  middle_between low high h = omega arith

  search-IsEdge :
      (fuel low high last : ℕ)
      → low ≤ high
      → high ≤ low + fuel
      → ((k : ℕ) → low < k → k ≤ high → (b : Bool) × (gate k ≡ ok b))
      → gate low ≡ ok true
      → (high ≡ last) ⊎ (gate (suc high) ≡ ok false)
      → (r : ℕ) × (search fuel low high ≡ ok r) × (low ≤ r) × (r ≤ high) × IsEdge last r
  unfolding search IsEdge
  search-IsEdge zero low high last h f answers passes stops =
      let same : high ≡ low = omega arith in (low, refl, omega arith, h, (passes, rw same at stops))
  search-IsEdge (suc fuel) low high last h f answers passes stops =
      elim (Bool-cases (ltb low high)) [
        | inl lt ↦
            let below : low < high = ground arith in
            let (above, within) = middle_between low high below in
            let (enters, answer) = answers (middle low high) above within in
            elim (Bool-cases enters) [
              | inl taken ↦
                  let (r, found, from, to, edge) =
                    search-IsEdge fuel (middle low high) high last within (omega arith)
                      (λ k a b. answers k (omega arith) b) (answer ∙ ap ok taken) stops in
                  (r, rw (lt, answer, taken, search) found, omega arith, to, edge)
              | inr left ↦
                  let next : suc (middle low high - 1) ≡ middle low high = omega arith in
                  let (r, found, from, to, edge) =
                    search-IsEdge fuel low (middle low high - 1) last (omega arith) (omega arith)
                      (λ k a b. answers k a (omega arith)) passes
                      (inr (rw next (answer ∙ ap ok left))) in
                  (r, rw (lt, answer, left, search) found, from, omega arith, edge)
            ]
        | inr stop ↦
            let same : high ≡ low = ground arith in
            (low, rw (stop, search) refl, omega arith, h, (passes, rw same at stops))
      ]

  -- If the gate answers for every lot up to the last and passes the first, the search returns a lot
  -- between them that it passes and, unless it is the last, one whose next lot it does not pass.
  pub search-finds :
      (first last : ℕ)
      → first ≤ last
      → ((k : ℕ) → first ≤ k → k ≤ last → (b : Bool) × (gate k ≡ ok b))
      → gate first ≡ ok true
      → (r : ℕ) × (search (last - first) first last ≡ ok r)
        × (first ≤ r)
        × (r ≤ last)
        × IsEdge last r
  search-finds first last h answers passes =
      search-IsEdge (last - first) first last last h (omega arith)
        (λ k a b. answers k (omega arith) b) passes (inl refl)

  -- If the gate answers for every lot up to the last, passes the first and passes every lot below
  -- one that it passes, the lot that the search returns is the largest that it passes.
  pub search_largest :
      (first last r : ℕ)
      → first ≤ last
      → ((k : ℕ) → first ≤ k → k ≤ last → (b : Bool) × (gate k ≡ ok b))
      → gate first ≡ ok true
      → ((j k : ℕ) → first ≤ j → j ≤ k → k ≤ last → gate k ≡ ok true → gate j ≡ ok true)
      → search (last - first) first last ≡ ok r
      → (gate r ≡ ok true) × ((k : ℕ) → first ≤ k → k ≤ last → gate k ≡ ok true → k ≤ r)
  unfolding IsEdge
  search_largest first last r h answers passes mono found =
      let (r', found', from, to, (enters, edge)) = search-finds first last h answers passes in
      let same : r' ≡ r = ok_injective (sym found' ∙ found) in
      (
        rw same at enters,
        λ k a b pass. elim edge [
          | inl end ↦ omega arith
          | inr out ↦ elim (Bool-cases (ltb r' k)) [
            | inl beyond ↦
                let below : r' < k = ground arith in
                let passed : gate (suc r') ≡ ok true = mono (suc r') k (omega arith) below b pass in
                cc
            | inr within ↦ ground arith
          ]
        ],
      )

  -- Whatever the gate answers, a search that returns stays between its bounds.
  pub search_within :
      (fuel low high : ℕ) {r : ℕ}
      → low ≤ high
      → search fuel low high ≡ ok r
      → (low ≤ r) × (r ≤ high)
  unfolding search
  search_within zero low high h found = ground arith
  search_within (suc fuel) low high {r} h found = elim (Bool-cases (ltb low high)) [
    | inl lt ↦
        let below : low < high = ground arith in
        let (above, within) = middle_between low high below in
        let (enters, answer, rest) =
          >>=-eq-ok (gate (middle low high)) _ (rw (lt, search) at found) in
        elim (Bool-cases enters) [
          | inl taken ↦
              let (a, b) =
                search_within fuel (middle low high) high {r = r} within (rw taken at rest) in
              (omega arith, b)
          | inr left ↦
              let (a, b) =
                search_within fuel low (middle low high - 1) {r = r} (omega arith)
                  (rw left at rest) in
              (a, omega arith)
        ]
    | inr stop ↦
        let same : low ≡ r = ok_injective (rw (stop, search) at found) in (omega arith, omega arith)
  ]
