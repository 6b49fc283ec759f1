-- ===== src/Viewer/Exchange/Safety.antt =====
-- No picture is shown that was not sent whole.
use pre.Viewer.Exchange.Sound.{
  Known, writes, reads, Agree, Holds, HasRead, IsSound, ext_get_or, All-Known-cons, Agree-snoc,
  Agree-set, away_of, outside_of,
}
use pre.Viewer.Exchange.{
  copying, reading, Exchange, created, Step, send_waits, send_copies, send_releases,
  send_release_fails, show_waits, show_copies, failed, push_fails, failed_releases,
  failed_release_fails, show_releases, show_release_fails, Reach, begin, next,
}
use pre.Prelude.{
  length, length-set, set, get_or, length-append, ◌++◌, ℕ, suc, ◌+◌, ◌≤◌, ◌≡◌, refl, sym, subst,
  ◌∙◌, List, [], ◌∷◌, inl, All, arith,
}

module _ {n : ℕ} {zeros : List ℕ} {s : Exchange} (v : IsSound n zeros s) where
  -- While a picture is sent nothing is read.
  module _ (picture : List ℕ) (k : ℕ) (w : s.writer ≡ copying picture k) where
    sending : (s.semaphore ≡ 0) × (reads s.reader ≡ 0)
    sending =
        let one : s.semaphore + 1 + reads s.reader ≤ 1 =
          subst (λ z. s.semaphore + writes z + reads s.reader ≤ 1) w v.one_at_most in
        (omega (arith, one), omega (arith, one))

    part : (length picture ≡ n) × (k ≤ n) × Agree k s.memory picture
    part = subst (Holds n zeros s.sent s.memory) w v.holds

    nothing_read : (memory : List ℕ) → HasRead n memory s.reader
    nothing_read memory = subst (HasRead n memory) (sym (away_of s.reader (sending.1))) tt

  sent_whole : (picture : List ℕ) → s.writer ≡ copying picture n → s.memory ≡ picture
  sent_whole picture w =
      let (len, le, agree) = part picture n w in
      ext_get_or s.memory picture (v.sized ∙ sym len) (λ i lt. agree i (omega (arith, lt, v.sized)))

  one_reads : s.reader ≡ failed → s.semaphore + writes s.writer + 1 ≤ 1
  one_reads r = subst (λ z. s.semaphore + writes s.writer + reads z ≤ 1) r v.one_at_most

  -- While a picture is read nothing is sent.
  module _ (bytes : List ℕ) (r : s.reader ≡ reading bytes) where
    showing : (s.semaphore ≡ 0) × (writes s.writer ≡ 0)
    showing =
        let one : s.semaphore + writes s.writer + 1 ≤ 1 =
          subst (λ z. s.semaphore + writes s.writer + reads z ≤ 1) r v.one_at_most in
        (omega (arith, one), omega (arith, one))

    copied : (length bytes ≤ n) × Agree (length bytes) bytes s.memory
    copied = subst (HasRead n s.memory) r v.has_read

    memory-Known : Known zeros s.sent s.memory
    memory-Known = subst (Holds n zeros s.sent s.memory) (outside_of s.writer (showing.1)) v.holds

    shown-Known : length bytes ≡ n → Known zeros s.sent bytes
    shown-Known len =
        subst (Known zeros s.sent) (sym (ext_get_or bytes s.memory (len ∙ sym v.sized) (copied.1)))
          memory-Known

Step-IsSound :
    {n : ℕ} {zeros : List ℕ} {s t : Exchange} → IsSound n zeros s → Step n s t → IsSound n zeros t
Step-IsSound {n} {zeros} {s} v (send_waits picture w sem len) = record {
  one_at_most =
      let one : s.semaphore + 0 + reads s.reader ≤ 1 =
        subst (λ z. s.semaphore + writes z + reads s.reader ≤ 1) w v.one_at_most in
      omega (arith, one, sem);
  sized = v.sized;
  holds = (len, omega arith, λ i lt. absurd (omega (arith, lt)));
  has_read = v.has_read;
  all_known = v.all_known;
}
Step-IsSound {n} {zeros} {s} v (send_copies picture k w lt) =
    let (len, le, agree) = part v picture k w in
    record {
      one_at_most = omega (arith, sending v picture k w);
      sized = length-set s.memory k (get_or picture k 0) ∙ v.sized;
      holds =
          (len, omega (arith, lt), Agree-set s.memory picture k (omega (arith, lt, v.sized)) agree);
      has_read = nothing_read v picture k w (set s.memory k (get_or picture k 0));
      all_known = v.all_known;
    }
Step-IsSound {n} {zeros} {s} v (send_releases picture w) = record {
  one_at_most = omega (arith, sending v picture n w);
  sized = v.sized;
  holds = inl (sent_whole v picture w);
  has_read = v.has_read;
  all_known = All-Known-cons zeros picture s.sent s.shown v.all_known;
}
Step-IsSound {n} {zeros} {s} v (send_release_fails picture w) = record {
  one_at_most = omega (arith, sending v picture n w);
  sized = v.sized;
  holds = inl (sent_whole v picture w);
  has_read = v.has_read;
  all_known = All-Known-cons zeros picture s.sent s.shown v.all_known;
}
Step-IsSound {n} {zeros} {s} v (show_waits r sem) = record {
  one_at_most =
      let one : s.semaphore + writes s.writer + 0 ≤ 1 =
        subst (λ z. s.semaphore + writes s.writer + reads z ≤ 1) r v.one_at_most in
      omega (arith, one, sem);
  sized = v.sized;
  holds = v.holds;
  has_read = (omega arith, λ i lt. absurd (omega (arith, lt)));
  all_known = v.all_known;
}
Step-IsSound {n} {zeros} {s} v (push_fails r) = record {
  one_at_most = omega (arith, showing v [] r);
  sized = v.sized;
  holds = v.holds;
  has_read = tt;
  all_known = v.all_known;
}
Step-IsSound {n} {zeros} {s} v (failed_releases r) = record {
  one_at_most = omega (arith, one_reads v r);
  sized = v.sized;
  holds = v.holds;
  has_read = tt;
  all_known = v.all_known;
}
Step-IsSound {n} {zeros} {s} v (failed_release_fails r) = record {
  one_at_most = omega (arith, one_reads v r);
  sized = v.sized;
  holds = v.holds;
  has_read = tt;
  all_known = v.all_known;
}
Step-IsSound {n} {zeros} {s} v (show_copies bytes r lt) = record {
  one_at_most = omega (arith, showing v bytes r);
  sized = v.sized;
  holds = v.holds;
  has_read =
      let b = get_or s.memory (length bytes) 0 in
      let grown : length (bytes ++ b ∷ []) ≡ suc (length bytes) =
        omega (arith, length-append bytes (b ∷ [])) in
      (
        omega (arith, grown, lt),
        λ i le. Agree-snoc bytes s.memory ((copied v bytes r).1) i (omega (arith, grown, le)),
      );
  all_known = v.all_known;
}
Step-IsSound v (show_releases bytes r len) = record {
  one_at_most = omega (arith, showing v bytes r);
  sized = v.sized;
  holds = v.holds;
  has_read = tt;
  all_known = (shown-Known v bytes r len, v.all_known);
}
Step-IsSound v (show_release_fails bytes r len) = record {
  one_at_most = omega (arith, showing v bytes r);
  sized = v.sized;
  holds = v.holds;
  has_read = tt;
  all_known = (shown-Known v bytes r len, v.all_known);
}

Reach-IsSound :
    {n : ℕ} {zeros : List ℕ} {s t : Exchange} → IsSound n zeros s → Reach n s t → IsSound n zeros t
Reach-IsSound v begin = v
Reach-IsSound v (next r st) = Step-IsSound (Reach-IsSound v r) st

-- However the two programs are interleaved from a new segment, and whichever releases fail, they are
-- never both past their wait, and every picture shown is one that was sent whole or the zeros of the
-- new segment: none is a mixture of two.
pub exchange_lem :
    (n : ℕ) (zeros : List ℕ) (s : Exchange)
    → length zeros ≡ n
    → Reach n (created zeros) s
    → (writes s.writer + reads s.reader ≤ 1) × All (Known zeros s.sent) s.shown
exchange_lem n zeros s len r =
    let start : IsSound n zeros (created zeros) = record {
      one_at_most = omega arith;
      sized = len;
      holds = refl;
      has_read = tt;
      all_known = tt;
    } in
    let v = Reach-IsSound start r in (omega (arith, v.one_at_most), v.all_known)
