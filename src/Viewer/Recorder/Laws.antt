-- ===== src/Viewer/Recorder/Laws.antt =====
-- What the recorder saves can be split into the pictures again.
use pre.Viewer.Recorder.{
  algo_size, sum_from, has_data_from, Printed, save_frame, Saved, Round, Recorder, record_loop,
  capture,
}
use pre.Prelude.{
  ltb, if◌then◌else◌, if_cases, length, get_or, get_elem?-eq-get_or, take, drop, take_all, ◌++◌,
  append-nil, append_assoc, ℕ, zero, suc, ◌+◌, ◌%◌, ◌^◌, ◌==◌, ◌≤◌, ◌≡◌, refl, sym, ap, ap₂, ◌∙◌,
  Bool-cases, Bool, true, false, ◌&&◌, some, List, [], ◌∷◌, All, inl, inr, arith,
}
use pre.Prelude.Int.{pos}

sum_there :
    (shm_algo : List ℕ) (left i sum : ℕ)
    → i + left ≤ length shm_algo
    → (v : ℕ) × (sum_from shm_algo left i sum ≡ some v)
unfolding sum_from
sum_there shm_algo zero i sum h = (sum, refl)
sum_there shm_algo (suc left) i sum h =
    let at = get_elem?-eq-get_or shm_algo i 0 (omega (arith, h)) in
    let (v, e) =
      sum_there shm_algo left (i + 1) ((sum + get_or shm_algo i 0) % 2 ^ 8) (omega (arith, h)) in
    (v, rw at e)

data_there :
    (shm_algo : List ℕ) (left i : ℕ)
    → i + left ≤ length shm_algo
    → (b : Bool) × (has_data_from shm_algo left i ≡ some b)
unfolding has_data_from
data_there shm_algo zero i h = (false, refl)
data_there shm_algo (suc left) i h =
    let at = get_elem?-eq-get_or shm_algo i 0 (omega (arith, h)) in
    let (b, e) = data_there shm_algo left (i + 1) (omega (arith, h)) in
    elim (Bool-cases (ltb 0 (get_or shm_algo i 0))) [
      | inl found ↦ (true, ground (arith, at, found))
      | inr black ↦ (b, ground (arith, at, black, e))
    ]

-- The pictures that the rounds of the loop save.
abbrev pub recorded : List Round → List (List ℕ)
recorded [] = []
recorded (r ∷ rounds) =
    let rest = recorded rounds in
    if r.running && r.wait_ok then r.shm_algo ∷ (if r.release_ok then rest else []) else []

abbrev pub concat : List (List ℕ) → List ℕ
concat [] = []
concat (p ∷ pictures) = p ++ concat pictures

-- A file in pieces of `n` bytes, as many as asked for.
abbrev pub split : ℕ → ℕ → List ℕ → List (List ℕ)
split n zero file = []
split n (suc k) file = take n file ∷ split n k (drop n file)

-- That the segment has `n` bytes in a round and `fwrite` writes all of them.
abbrev pub Whole : ℕ → Round → Type 0
Whole n r = (length r.shm_algo ≡ n) × (r.written ≡ n)

take-append : (n : ℕ) (xs ys : List ℕ) → length xs ≡ n → take n (xs ++ ys) ≡ xs
take-append zero [] ys h = refl
take-append zero (x ∷ xs) ys h = absurd (omega (arith, h))
take-append (suc n) [] ys h = absurd (omega (arith, h))
take-append (suc n) (x ∷ xs) ys h = ap (λ l. x ∷ l) (take-append n xs ys (omega (arith, h)))

drop-append : (n : ℕ) (xs ys : List ℕ) → length xs ≡ n → drop n (xs ++ ys) ≡ ys
drop-append zero [] ys h = refl
drop-append zero (x ∷ xs) ys h = absurd (omega (arith, h))
drop-append (suc n) [] ys h = absurd (omega (arith, h))
drop-append (suc n) (x ∷ xs) ys h = drop-append n xs ys (omega (arith, h))

split-concat :
    (n : ℕ) (pictures : List (List ℕ))
    → All (λ p. length p ≡ n) pictures
    → split n (length pictures) (concat pictures) ≡ pictures
split-concat n [] all = refl
split-concat n (p ∷ pictures) (len, all) =
    ap₂ (λ a l. a ∷ l) (take-append n p (concat pictures) len)
      (ap (λ f. split n (length pictures) f) (drop-append n p (concat pictures) len)
        ∙ split-concat n pictures all)

recorded_sized :
    (n : ℕ) (rounds : List Round) → All (Whole n) rounds → All (λ p. length p ≡ n) (recorded rounds)
recorded_sized n [] all = tt
recorded_sized n (r ∷ rounds) ((len, w), all) =
    let rest = recorded_sized n rounds all in
    if_cases (All (λ p. length p ≡ n)) (r.running && r.wait_ok)
      (r.shm_algo ∷ (if r.release_ok then recorded rounds else [])) []
      (λ e. (
        len,
        if_cases (All (λ p. length p ≡ n)) r.release_ok (recorded rounds) [] (λ e'. rest)
            (λ e'. tt),
      ))
      (λ e. tt)

save_frame_lem :
    (n : ℕ) (r : Round) (s : Saved)
    → 100 ≤ n
    → Whole n r
    → (printed : Printed) × (s' : Saved) × (save_frame n r.written r.shm_algo s
        ≡ some (pos 0, printed, s'))
      × (s'.file ≡ s.file ++ r.shm_algo)
unfolding save_frame
save_frame_lem n r s big (len, w) =
    let (sum, e) = sum_there r.shm_algo 100 0 0 (omega (arith, big, len)) in
    let (b, e') = data_there r.shm_algo n 0 (omega (arith, len)) in
    let whole : take r.written (take n r.shm_algo) ≡ r.shm_algo =
      ap (λ l. take r.written l) (take_all n r.shm_algo len)
      ∙ take_all r.written r.shm_algo (len ∙ sym w) in
    (
      record { duplicate = sum == s.last_frame_sum; has_algo_data = b },
      record { last_frame_sum = sum; file = s.file ++ take r.written (take n r.shm_algo) },
      ground (arith, e, e', len, w),
      ap (λ l. s.file ++ l) whole,
    )

recorded-fails :
    (r : Round) (rounds : List Round)
    → (r.running && r.wait_ok) ≡ true
    → r.release_ok ≡ false
    → recorded (r ∷ rounds) ≡ r.shm_algo ∷ []
recorded-fails r rounds goes fails = rw (goes, fails) refl

recorded-goes :
    (r : Round) (rounds : List Round)
    → (r.running && r.wait_ok) ≡ true
    → r.release_ok ≡ true
    → recorded (r ∷ rounds) ≡ r.shm_algo ∷ recorded rounds
recorded-goes r rounds goes released = rw (goes, released) refl

record_loop-file :
    (n : ℕ) (rounds : List Round) (s : Recorder)
    → 100 ≤ n
    → All (Whole n) rounds
    → (s' : Recorder) × (record_loop n rounds s ≡ some s')
      × (s'.saved.file ≡ s.saved.file ++ concat (recorded rounds))
unfolding record_loop
record_loop-file n [] s big all = (s, refl, sym (append-nil s.saved.file))
record_loop-file n (r ∷ rounds) s big (whole, all) =
    let (printed, saved, e, f) = save_frame_lem n r s.saved big whole in
    let kept : Recorder = record s { saved = saved; holds = true } in
    let (s', e', f') =
      record_loop-file n rounds (record kept { frame_count = s.frame_count + 1; holds = false }) big
        all in
    elim (Bool-cases (r.running && r.wait_ok)) [
      | inr stops ↦ (s, ground (arith, stops), rw stops (sym (append-nil s.saved.file)))
      | inl goes ↦ elim (Bool-cases r.release_ok) [
        | inr fails ↦ (
          kept,
          ground (arith, goes, fails, e),
          f
              ∙ ap (λ l. s.saved.file ++ l) (sym (append-nil r.shm_algo))
              ∙ ap (λ l. s.saved.file ++ concat l) (sym (recorded-fails r rounds goes fails)),
        )
        | inl released ↦ (
          s',
          ground (arith, goes, released, e, e'),
          f'
              ∙ ap (λ l. l ++ concat (recorded rounds)) f
              ∙ append_assoc s.saved.file r.shm_algo (concat (recorded rounds))
              ∙ ap (λ l. s.saved.file ++ concat l) (sym (recorded-goes r rounds goes released)),
        )
      ]
    ]

-- Of segments of ALGO_ALGO_SIZE bytes that `fwrite` writes whole, the main loop accesses nothing out of
-- range, and a file that it starts can be cut at that size into the pictures that were saved: one
-- for each round up to a SIGINT or a failed call on the semaphore, in order.
pub capture_lem :
    (rounds : List Round) (s : Recorder)
    → All (Whole algo_size) rounds
    → s.saved.file ≡ []
    → (s' : Recorder) × (capture rounds s ≡ some s')
      × (split algo_size (length (recorded rounds)) s'.saved.file ≡ recorded rounds)
unfolding capture
capture_lem rounds s all empty =
    let (s', e, f) = record_loop-file algo_size rounds s (omega arith) all in
    (
      s',
      e,
      ap (λ l. split algo_size (length (recorded rounds)) l)
            (f ∙ ap (λ l. l ++ concat (recorded rounds)) empty)
          ∙ split-concat algo_size (recorded rounds) (recorded_sized algo_size rounds all),
    )
