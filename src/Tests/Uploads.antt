-- ===== src/Tests/Uploads.antt =====
-- The theorems on the body of an upload, at a file that is read four bytes at a time.
use openshell_driver_lxd.Common.{
  ◌≡◌, refl, ℕ, zero, suc, ◌+◌, ◌≤◌, ◌<◌, min, arith, String, List, [], ◌∷◌, ◌++◌, true, ap, subst,
  length, take, drop,
}
use openshell_driver_lxd.Lxd.SplitImageBody.{
  filled, File, preamble_of, closing_of, new, poll_rootfs, poll_frame, polls,
}
use openshell_driver_lxd.Lxd.SplitImageBody.Whole.{Reads, is_finished, sent, polls-Whole}
use openshell_driver_lxd.Lxd.SplitImageBody.End.{IsReady, polls-ends}

abbrev small_reads : File
small_reads = record {
  State = List ℕ;
  poll_read = λ room unread. (filled (take (min room 4) unread), drop (min room 4) unread);
}

take-few : (n : ℕ) (xs : List ℕ) → length (take n xs) ≤ n
take-few zero xs = omega arith
take-few (suc n) [] = omega arith
take-few (suc n) (x ∷ xs) = omega (arith, take-few n xs)

take-drop : (n : ℕ) (xs : List ℕ) → xs ≡ take n xs ++ drop n xs
take-drop zero xs = refl
take-drop (suc n) [] = refl
take-drop (suc n) (x ∷ xs) = ap (λ ys. x ∷ ys) (take-drop n xs)

small_reads-Reads : Reads small_reads (λ unread. unread)
small_reads-Reads = record {
  not_yet = λ room s e. cc (e);
  filled = λ room s bytes e.
      let same : take (min room 4) s ≡ bytes = cc (e) in
      subst (λ bs. (length bs ≤ room) × (s ≡ bs ++ drop (min room 4) s)) same
        (omega (arith, take-few (min room 4) s), take-drop (min room 4) s);
}

take-some :
    (n : ℕ) (xs : List ℕ)
    → 0 < n
    → 0 < length xs
    → (b : ℕ) × (bs : List ℕ) × (filled (take n xs) ≡ filled (b ∷ bs))
take-some zero xs h k = absurd (omega (arith, h))
take-some (suc n) [] h k = absurd (omega (arith, k))
take-some (suc n) (x ∷ xs) h k = (x, take n xs, refl)

small_reads-IsReady : IsReady small_reads (λ unread. unread)
small_reads-IsReady = record { takes = λ room s h k. take-some (min room 4) s (omega (arith, h)) k }

abbrev no_bytes : String → List ℕ
no_bytes text = 13 ∷ 10 ∷ []

abbrev file : List ℕ
file = 1 ∷ 2 ∷ 3 ∷ 4 ∷ 5 ∷ 6 ∷ []

polls-ends_example :
    is_finished (polls small_reads (5 + 3) (new no_bytes "metadata" (9 ∷ []) "rootfs" 5 "b") file)
    ≡ true
polls-ends_example =
    polls-ends no_bytes small_reads (λ unread. unread) "metadata" (9 ∷ []) "rootfs" 5 "b" file
      small_reads-Reads small_reads-IsReady (omega arith)

polls-Whole_example :
    (sent (polls small_reads 8 (new no_bytes "metadata" (9 ∷ []) "rootfs" 5 "b") file)
      ≡ preamble_of no_bytes "metadata" (9 ∷ []) "rootfs" "b"
        ++ (take 5 file ++ closing_of no_bytes "b"))
    × (length (sent (polls small_reads 8 (new no_bytes "metadata" (9 ∷ []) "rootfs" 5 "b") file))
        ≡ (new no_bytes "metadata" (9 ∷ []) "rootfs" 5 "b").total_len)
unfolding new polls poll_frame poll_rootfs
polls-Whole_example =
    polls-Whole no_bytes small_reads (λ unread. unread) "metadata" (9 ∷ []) "rootfs" 5 "b" file 8
      small_reads-Reads refl
