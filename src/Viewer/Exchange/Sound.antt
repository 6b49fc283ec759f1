-- ===== src/Viewer/Exchange/Sound.antt =====
-- What the two programs keep while they go on: which bytes the memory and the reader hold.
use pre.Viewer.Exchange.{Writer, outside, copying, Reader, away, failed, reading, Exchange}
use pre.Prelude.{
  length, set, get_or, get_or-set_self, get_or-set_ne, ◌++◌, ℕ, zero, suc, ◌+◌, ◌<◌, ◌≤◌, ◌≡◌, refl,
  subst, ap₂, ◌∙◌, List, [], ◌∷◌, ◌⊎◌, inl, inr, All, arith, Bool-cases, ◌==◌,
}

-- Whether a picture is one that was sent, or the zeros of a new segment.
abbrev pub Known : List ℕ → List (List ℕ) → List ℕ → Type 0
Known zeros [] picture = picture ≡ zeros
Known zeros (p ∷ sent) picture = (picture ≡ p) ⊎ Known zeros sent picture

-- How many of the two programs are past their wait.
abbrev pub writes : Writer → ℕ
writes outside = 0
writes (copying picture k) = 1

abbrev pub reads : Reader → ℕ
reads away = 0
reads failed = 1
reads (reading bytes) = 1

-- The first bytes of two lists are the same.
abbrev pub Agree : ℕ → List ℕ → List ℕ → Type 0
Agree k xs ys = (i : ℕ) → i < k → get_or xs i 0 ≡ get_or ys i 0

-- What the memory holds: a known picture, or the part of one that is being sent.
abbrev pub Holds : ℕ → List ℕ → List (List ℕ) → List ℕ → Writer → Type 0
Holds n zeros sent memory outside = Known zeros sent memory
Holds n zeros sent memory (copying picture k) =
    (length picture ≡ n) × (k ≤ n) × Agree k memory picture

-- What the reader has: the first bytes of the memory.
abbrev pub HasRead : ℕ → List ℕ → Reader → Type 0
HasRead n memory away = Unit
HasRead n memory failed = Unit
HasRead n memory (reading bytes) = (length bytes ≤ n) × Agree (length bytes) bytes memory

pub record IsSound (n : ℕ) (zeros : List ℕ) (s : Exchange) : Type 0 where
  pub one_at_most : s.semaphore + writes s.writer + reads s.reader ≤ 1
  pub sized : length s.memory ≡ n
  pub holds : Holds n zeros s.sent s.memory s.writer
  pub has_read : HasRead n s.memory s.reader
  pub all_known : All (Known zeros s.sent) s.shown

pub ext_get_or : (xs ys : List ℕ) → length xs ≡ length ys → Agree (length xs) xs ys → xs ≡ ys
ext_get_or [] [] e h = refl
ext_get_or [] (y ∷ ys) e h = absurd (omega (arith, e))
ext_get_or (x ∷ xs) [] e h = absurd (omega (arith, e))
ext_get_or (x ∷ xs) (y ∷ ys) e h =
    ap₂ (λ a l. a ∷ l) (h 0 (omega arith))
      (ext_get_or xs ys (omega (arith, e)) (λ i lt. h (suc i) (omega (arith, lt))))

pub All-Known-cons :
    (zeros p : List ℕ) (sent shown : List (List ℕ))
    → All (Known zeros sent) shown
    → All (Known zeros (p ∷ sent)) shown
All-Known-cons zeros p sent [] all = tt
All-Known-cons zeros p sent (x ∷ shown) (k, all) = (inr k, All-Known-cons zeros p sent shown all)

get_or-snoc : (xs : List ℕ) (v i : ℕ) → i < length xs → get_or (xs ++ v ∷ []) i 0 ≡ get_or xs i 0
get_or-snoc [] v i h = absurd (omega (arith, h))
get_or-snoc (x ∷ xs) v zero h = refl
get_or-snoc (x ∷ xs) v (suc i) h = get_or-snoc xs v i (omega (arith, h))

get_or-snoc_self : (xs : List ℕ) (v : ℕ) → get_or (xs ++ v ∷ []) (length xs) 0 ≡ v
get_or-snoc_self [] v = refl
get_or-snoc_self (x ∷ xs) v = get_or-snoc_self xs v

pub Agree-snoc :
    (bytes memory : List ℕ)
    → Agree (length bytes) bytes memory
    → Agree (suc (length bytes)) (bytes ++ get_or memory (length bytes) 0 ∷ []) memory
Agree-snoc bytes memory h i lt = elim (Bool-cases (length bytes == i)) [
  | inl e ↦
      let here : length bytes ≡ i = ground (arith, e) in
      subst (λ j. get_or (bytes ++ get_or memory (length bytes) 0 ∷ []) j 0 ≡ get_or memory j 0)
        here (get_or-snoc_self bytes (get_or memory (length bytes) 0))
  | inr e ↦
      let before : i < length bytes = ground (arith, e, lt) in
      get_or-snoc bytes (get_or memory (length bytes) 0) i before ∙ h i before
]

pub Agree-set :
    (memory picture : List ℕ) (k : ℕ)
    → k < length memory
    → Agree k memory picture
    → Agree (k + 1) (set memory k (get_or picture k 0)) picture
Agree-set memory picture k in_range h i lt = elim (Bool-cases (k == i)) [
  | inl e ↦
      let here : k ≡ i = ground (arith, e) in
      subst (λ j. get_or (set memory k (get_or picture k 0)) j 0 ≡ get_or picture j 0) here
        (get_or-set_self memory k (get_or picture k 0) 0 in_range)
  | inr e ↦
      get_or-set_ne memory k i (get_or picture k 0) 0 (λ same. ground (arith, e, same))
      ∙ h i (ground (arith, e, lt))
]

pub away_of : (r : Reader) → reads r ≡ 0 → r ≡ away
away_of away h = refl
away_of failed h = absurd (omega (arith, h))
away_of (reading bytes) h = absurd (omega (arith, h))

pub outside_of : (w : Writer) → writes w ≡ 0 → w ≡ outside
outside_of outside h = refl
outside_of (copying picture k) h = absurd (omega (arith, h))
