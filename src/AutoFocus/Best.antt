-- ===== src/AutoFocus/Best.antt =====
-- Which position the autofocus returns to.
use pre.AutoFocus.{Sharpness, Entry, scan_max, get_max_eig_pos}
use pre.Prelude.{
  ℕ, ◌≡◌, refl, ap, subst, Bool, true, false, ◌&&◌, some, List, [], ◌∷◌, ◌⊎◌, inl, inr,
  if◌then◌else◌, if_cases, ltb, ◌>>=◌, arith,
}

-- The entries whose position is larger than that of the entry before.
abbrev pub rising : (ops : Sharpness) → List (Entry ops) → List (Entry ops)
rising ops [] = []
rising ops (e ∷ []) = []
rising ops (e ∷ d ∷ es) =
    let rest = rising ops (d ∷ es) in if ltb d.return_pos e.return_pos then e ∷ rest else rest

-- The position of the first entry, which is the last of the list.
abbrev pub oldest_pos : (ops : Sharpness) → Entry ops → List (Entry ops) → ℕ
oldest_pos ops e [] = e.return_pos
oldest_pos ops e (d ∷ es) = oldest_pos ops d es

-- That no value of the entries is larger than a value.
abbrev pub AtLeast : (ops : Sharpness) → ops.F → List (Entry ops) → Type 0
AtLeast ops v [] = Unit
AtLeast ops v (e ∷ es) = (ops.lt v e.value ≡ false) × AtLeast ops v es

-- That an entry has a value and a position.
abbrev pub Has : (ops : Sharpness) → ops.F → ℕ → List (Entry ops) → Type 0
Has ops v x0 [] = ⊥
Has ops v x0 (e ∷ es) = ((e.value ≡ v) × (e.return_pos ≡ x0)) ⊎ Has ops v x0 es

-- What is chosen from rising entries: the first position where none exceeds the last value, and the
-- position of a largest one otherwise.
abbrev pub Chosen : (ops : Sharpness) → ops.F → ℕ → List (Entry ops) → ops.F → ℕ → Type 0
Chosen ops last oldest es v x0 =
    AtLeast ops v es × (((v ≡ last) × (x0 ≡ oldest)) ⊎ ((ops.lt last v ≡ true) × Has ops v x0 es))

module _ (ops : Sharpness) (irreflexive : (a : ops.F) → ops.lt a a ≡ false)
    (transitive : (a b c : ops.F) → ops.lt a b ≡ true → ops.lt b c ≡ true → ops.lt a c ≡ true) where
  AtLeast-larger :
      (v w : ops.F) (es : List (Entry ops))
      → ops.lt v w ≡ true
      → AtLeast ops v es
      → AtLeast ops w es
  AtLeast-larger v w [] h all = tt
  AtLeast-larger v w (e ∷ es) h (p, all) =
      (below (ops.lt w e.value) refl, AtLeast-larger v w es h all)
    where
      below : (b : Bool) → ops.lt w e.value ≡ b → ops.lt w e.value ≡ false
      below false q = q
      below true q = ground (arith, p, transitive v w e.value h q)

  Chosen-step :
      (last v : ops.F) (oldest x0 : ℕ) (es : List (Entry ops)) (e : Entry ops) (b : Bool)
      → Chosen ops last oldest es v x0
      → let r : ops.F × ℕ = if b && ops.lt v e.value then (e.value, e.return_pos) else (v, x0) in
        Chosen ops last oldest (if b then e ∷ es else es) r.0 r.1
  Chosen-step last v oldest x0 es e false h = h
  Chosen-step last v oldest x0 es e true (all, from) =
      if_cases {A = ops.F × ℕ} (λ r. Chosen ops last oldest (e ∷ es) r.0 r.1) (ops.lt v e.value)
        (e.value, e.return_pos) (v, x0)
        (λ more. (
          (irreflexive e.value, AtLeast-larger v e.value es more all),
          inr (larger from more, inl (refl, refl)),
        ))
        (λ no. ((no, all), kept from))
    where
      larger :
          ((v ≡ last) × (x0 ≡ oldest)) ⊎ ((ops.lt last v ≡ true) × Has ops v x0 es)
          → ops.lt v e.value ≡ true
          → ops.lt last e.value ≡ true
      larger (inl (p, q)) more = subst (λ a. ops.lt a e.value ≡ true) p more
      larger (inr (p, q)) more = transitive last v e.value p more

      kept :
          ((v ≡ last) × (x0 ≡ oldest)) ⊎ ((ops.lt last v ≡ true) × Has ops v x0 es)
          → ((v ≡ last) × (x0 ≡ oldest)) ⊎ ((ops.lt last v ≡ true) × Has ops v x0 (e ∷ es))
      kept (inl p) = inl p
      kept (inr (p, q)) = inr (p, inr q)

  scan_max_lem :
      (last : ops.F) (e : Entry ops) (es : List (Entry ops))
      → (v : ops.F) × (x0 : ℕ) × (scan_max ops last (e ∷ es) ≡ some (v, x0))
        × Chosen ops last (oldest_pos ops e es) (rising ops (e ∷ es)) v x0
  unfolding scan_max
  scan_max_lem last e [] = (last, e.return_pos, refl, (tt, inl (refl, refl)))
  scan_max_lem last e (d ∷ es) =
      let (v, x0, eq, chosen) = scan_max_lem last d es in
      let r : ops.F × ℕ =
        if ltb d.return_pos e.return_pos && ops.lt v e.value
        then (e.value, e.return_pos)
        else (v, x0) in
      (
        r.0,
        r.1,
        ap
            (λ o. o >>= λ (largest, x). some (
              if ltb d.return_pos e.return_pos && ops.lt largest e.value
              then (e.value, e.return_pos)
              else (largest, x)))
            eq,
        Chosen-step last v (oldest_pos ops d es) x0 (rising ops (d ∷ es)) e
            (ltb d.return_pos e.return_pos) chosen,
      )

  -- Where `<` of the values is irreflexive and transitive, which it is with NaN too, the best position
  -- exists once there is an entry. It is that of a largest value among the entries whose position
  -- rose, when one of those is larger than the newest value; and that of the first entry otherwise.
  pub get_max_eig_pos_lem :
      (e : Entry ops) (es : List (Entry ops))
      → (v : ops.F) × (x0 : ℕ) × (get_max_eig_pos ops (e ∷ es) ≡ some x0)
        × Chosen ops e.value (oldest_pos ops e es) (rising ops (e ∷ es)) v x0
  unfolding get_max_eig_pos
  get_max_eig_pos_lem e es =
      let (v, x0, eq, chosen) = scan_max_lem e.value e es in
      (v, x0, ap (λ o. o >>= λ (largest, x). some x) eq, chosen)
