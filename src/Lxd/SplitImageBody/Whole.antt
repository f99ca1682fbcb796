-- ===== src/Lxd/SplitImageBody/Whole.antt =====
-- crates/lxd-client/src/split_image_body.rs: what a body that is read to its end has sent.
use openshell_driver_lxd.Common.{
  ◌≡◌, refl, sym, ap, ◌∙◌, subst, ℕ, zero, suc, ◌+◌, ◌-◌, ◌≤◌, arith, String, List, [], ◌∷◌, ◌++◌,
  Option, none, some, Bool, true, false, length, take, if◌then◌else◌, ◌==◌, nat_eq, inl, inr,
  Bool-cases, length-append, All,
}
use mathlib.Core.List.{append-nil, append_assoc}
use openshell_driver_lxd.Lxd.SplitImageBody.{
  Stage, preamble, rootfs, closing, done, Read, not_yet, filled, failed, File, SplitImageBody, Poll,
  pending, frame, error, end_of_stream, panicked, preamble_of, closing_of, new, take_preamble,
  take_closing, after_read, to_read, poll_rootfs, poll_in, poll_frame, is_last, polls,
}

abbrev pub or_empty : Option (List ℕ) → List ℕ
or_empty none = []
or_empty (some bytes) = bytes

-- The bytes of the frames.
abbrev pub sent : List Poll → List ℕ
sent [] = []
sent (frame bytes ∷ ps) = bytes ++ sent ps
sent (_ ∷ ps) = sent ps

-- The last poll found the stream at its end.
abbrev pub is_finished : List Poll → Bool
is_finished [] = false
is_finished (end_of_stream ∷ []) = true
is_finished (_ ∷ ps) = is_finished ps

abbrev pub NoPanic : Poll → Type 0
NoPanic panicked = ⊥
NoPanic _ = Unit

module _ (F : File) (content : F.State → List ℕ) where
  -- What `AsyncRead` promises of a file whose unread bytes are `content`: a poll takes the next bytes,
  -- as many as there is room for at most, or none.
  pub record Reads : Type 0 where
    pub not_yet :
        (room : ℕ) (s : F.State)
        → (F.poll_read room s).0 ≡ not_yet
        → content (F.poll_read room s).1 ≡ content s
    pub filled :
        (room : ℕ) (s : F.State) (bytes : List ℕ)
        → (F.poll_read room s).0 ≡ filled bytes
        → (length bytes ≤ room) × (content s ≡ bytes ++ content (F.poll_read room s).1)

  -- The bytes that are not sent yet, in a stage.
  abbrev rest_in : Stage → SplitImageBody → F.State → List ℕ
  rest_in preamble b s =
      or_empty b.preamble ++ (take b.rootfs_remaining (content s) ++ or_empty b.closing)
  rest_in rootfs b s = take b.rootfs_remaining (content s) ++ or_empty b.closing
  rest_in closing b s = or_empty b.closing
  rest_in done b s = []

  abbrev rest : SplitImageBody → F.State → List ℕ
  rest b s = rest_in b.state b s

  -- Their number, if the file is long enough.
  abbrev left_in : Stage → SplitImageBody → ℕ
  left_in preamble b =
      length (or_empty b.preamble) + (b.rootfs_remaining + length (or_empty b.closing))
  left_in rootfs b = b.rootfs_remaining + length (or_empty b.closing)
  left_in closing b = length (or_empty b.closing)
  left_in done b = 0

  abbrev left : SplitImageBody → ℕ
  left b = left_in b.state b

  abbrev pub IsSome : Option (List ℕ) → Type 0
  IsSome none = ⊥
  IsSome (some bytes) = Unit

  abbrev pub SoundIn : Stage → SplitImageBody → Type 0
  SoundIn preamble b = IsSome b.preamble × IsSome b.closing
  SoundIn rootfs b = IsSome b.closing
  SoundIn closing b = IsSome b.closing
  SoundIn done b = Unit

  abbrev pub Sound : SplitImageBody → Type 0
  Sound b = SoundIn b.state b

  -- What a poll does to the bytes that are left.
  abbrev Kept : List ℕ → ℕ → Poll × SplitImageBody → F.State → Type 0
  Kept before n (pending, b) t = Sound b × (before ≡ rest b t) × (n ≡ left b)
  Kept before n (frame f, b) t = Sound b × (before ≡ f ++ rest b t) × (n ≡ length f + left b)
  Kept before n (error e, b) t = Unit
  Kept before n (end_of_stream, b) t = (before ≡ []) × (n ≡ 0)
  Kept before n (panicked, b) t = ⊥

  take-append :
      (xs ys : List ℕ) (n : ℕ) → length xs ≤ n → take n (xs ++ ys) ≡ xs ++ take (n - length xs) ys
  take-append [] ys n h = ap (λ k. take k ys) (omega arith)
  take-append (x ∷ xs) ys zero h = absurd (omega arith)
  take-append (x ∷ xs) ys (suc n) h =
      ap (λ zs. x ∷ zs) (take-append xs ys n (omega arith))
      ∙ ap (λ k. x ∷ (xs ++ take k ys)) (omega arith)

  abbrev pub at_stage : Stage → SplitImageBody → SplitImageBody
  at_stage st b = record b { state = st }

  take_preamble-Kept :
      (b : SplitImageBody) (o : Option (List ℕ)) (s : F.State)
      → IsSome o
      → IsSome b.closing
      → Kept
          (or_empty o ++ rest_in rootfs b s)
          (length (or_empty o) + left_in rootfs b)
          (take_preamble F (at_stage preamble b) o)
          s
  take_preamble-Kept b none s h k = h
  take_preamble-Kept b (some bytes) s h k = (k, refl, refl)

  take_closing-Kept :
      (st : Stage) (b : SplitImageBody) (o : Option (List ℕ)) (s : F.State)
      → IsSome o
      → Kept (or_empty o) (length (or_empty o)) (take_closing F (at_stage st b) o) s
  take_closing-Kept st b none s h = h
  take_closing-Kept st b (some bytes) s h = (tt, sym (append-nil bytes), omega arith)

  Kept-eq :
      {before after : List ℕ} {n m : ℕ} (x : Poll × SplitImageBody) (s : F.State)
      → before ≡ after
      → n ≡ m
      → Kept before n x s
      → Kept after m x s
  Kept-eq {before} {after} {n} {m} x s e f k =
      subst (λ c. Kept c m x s) e (subst (λ k. Kept before k x s) f k)

  module _ (reads : Reads) where
    after_read-Kept :
        (b : SplitImageBody) (s : F.State)
        → IsSome b.closing
        → (r : Read) → (F.poll_read (to_read F b) s).0 ≡ r
        → Kept
            (rest_in rootfs b s)
            (left_in rootfs b)
            (after_read F (at_stage rootfs b) r)
            (F.poll_read (to_read F b) s).1
    after_read-Kept b s sound not_yet e = (
      sound,
      ap (λ c. take b.rootfs_remaining c ++ or_empty b.closing)
          (sym (reads.not_yet (to_read F b) s e)),
      refl,
    )
    after_read-Kept b s sound (failed x) e = tt
    after_read-Kept b s sound (filled []) e = tt
    after_read-Kept b s sound (filled (x ∷ xs)) e =
        let (few, there) = reads.filled (to_read F b) s (x ∷ xs) e in
        let fits : length (x ∷ xs) ≤ b.rootfs_remaining = omega (arith, few) in
        (
          sound,
          ap (λ c. take b.rootfs_remaining c ++ or_empty b.closing) there
              ∙ (ap (λ c. c ++ or_empty b.closing)
                    (take-append (x ∷ xs) (content (F.poll_read (to_read F b) s).1)
                      b.rootfs_remaining fits)
                  ∙ append_assoc (x ∷ xs) (take (b.rootfs_remaining - length (x ∷ xs)) _)
                      (or_empty b.closing)),
          omega (arith, fits),
        )

    poll_rootfs-Kept :
        (b : SplitImageBody) (s : F.State)
        → IsSome b.closing
        → let (x, t) = poll_rootfs F (at_stage rootfs b) s in
          Kept (rest_in rootfs b s) (left_in rootfs b) x t
    unfolding poll_rootfs
    poll_rootfs-Kept b s sound = elim (Bool-cases (b.rootfs_remaining == 0)) [
      | inl f ↦ rw f (
          let empty : b.rootfs_remaining ≡ 0 = ground (arith, f) in
          Kept-eq (take_closing F (at_stage rootfs b) b.closing) s
            (ap (λ k. take k (content s) ++ or_empty b.closing) (sym empty)) (omega (arith, empty))
            (take_closing-Kept rootfs b b.closing s sound))
      | inr f ↦ rw f (after_read-Kept b s sound _ refl)
    ]

    poll_in-Kept :
        (st : Stage) (b : SplitImageBody) (s : F.State)
        → SoundIn st b
        → let (x, t) = poll_in F st (at_stage st b) s in Kept (rest_in st b s) (left_in st b) x t
    poll_in-Kept preamble b s sound = take_preamble-Kept b b.preamble s sound.0 sound.1
    poll_in-Kept rootfs b s sound = poll_rootfs-Kept b s sound
    poll_in-Kept closing b s sound = take_closing-Kept closing b b.closing s sound
    poll_in-Kept done b s sound = (refl, refl)

    poll_frame-Kept :
        (b : SplitImageBody) (s : F.State)
        → Sound b
        → let (x, t) = poll_frame F b s in Kept (rest b s) (left b) x t
    unfolding poll_frame
    poll_frame-Kept b s sound = poll_in-Kept b.state b s sound

    -- A first poll and the polls after it.
    abbrev Outcome : List ℕ → ℕ → List Poll → Type 0
    Outcome before n ps =
        All NoPanic ps × (is_finished ps ≡ true → (sent ps ≡ before) × (length (sent ps) ≡ n))

    first-Outcome :
        (before : List ℕ) (n : ℕ) (p : Poll) (b : SplitImageBody) (t : F.State) (ps : List Poll)
        → Kept before n (p, b) t
        → (Sound b → Outcome (rest b t) (left b) ps)
        → Outcome before n (if is_last F p then p ∷ [] else p ∷ ps)
    first-Outcome before n pending b t ps k ih =
        let (quiet, whole) = ih k.0 in
        ((tt, quiet), λ f. ((whole f).0 ∙ sym k.1, (whole f).1 ∙ sym k.2))
    first-Outcome before n (frame f) b t ps k ih =
        let (quiet, whole) = ih k.0 in
        (
          (tt, quiet),
          λ h. (
            ap (λ bs. f ++ bs) (whole h).0 ∙ sym k.1,
            omega (arith, length-append f (sent ps), (whole h).1, k.2),
          ),
        )
    first-Outcome before n (error e) b t ps k ih = ((tt, tt), λ h. cc (h))
    first-Outcome before n end_of_stream b t ps k ih = ((tt, tt), λ h. (sym k.0, sym k.1))
    first-Outcome before n panicked b t ps k ih = elim k [ ]

    polls-Outcome :
        (n : ℕ) (b : SplitImageBody) (s : F.State)
        → Sound b
        → Outcome (rest b s) (left b) (polls F n b s)
    unfolding polls
    polls-Outcome zero b s sound = (tt, λ h. cc (h))
    polls-Outcome (suc n) b s sound =
        let ((p, b'), t) = poll_frame F b s in
        first-Outcome (rest b s) (left b) p b' t (polls F n b' t) (poll_frame-Kept b s sound)
          (λ sound'. polls-Outcome n b' t sound')

module _ (as_bytes : String → List ℕ) (F : File) (content : F.State → List ℕ)
    (metadata_filename : String) (metadata : List ℕ) (rootfs_filename : String) (rootfs_len : ℕ)
    (boundary : String) (s : F.State) (n : ℕ) (reads : Reads F content) where
  abbrev body : SplitImageBody
  body = new as_bytes metadata_filename metadata rootfs_filename rootfs_len boundary

  body-Outcome :
      Outcome F content reads
        (preamble_of as_bytes metadata_filename metadata rootfs_filename boundary
          ++ (take rootfs_len (content s) ++ closing_of as_bytes boundary))
        (length (preamble_of as_bytes metadata_filename metadata rootfs_filename boundary)
          + (rootfs_len + length (closing_of as_bytes boundary)))
        (polls F n body s)
  unfolding new
  body-Outcome = polls-Outcome F content reads n body s (tt, tt)

  -- No `expect` fails in a poll of a new body.
  pub polls-NoPanic : All NoPanic (polls F n body s)
  polls-NoPanic = body-Outcome.0

  -- However the file's reads come, in pieces and with waits between them: a new body that has come to
  -- its end has sent the preamble, the file's first `rootfs_len` bytes and the closing boundary, in this
  -- order, and as many bytes as it announced.
  pub polls-Whole :
      is_finished (polls F n body s) ≡ true
      → (sent (polls F n body s)
          ≡ preamble_of as_bytes metadata_filename metadata rootfs_filename boundary
            ++ (take rootfs_len (content s) ++ closing_of as_bytes boundary))
        × (length (sent (polls F n body s)) ≡ body.total_len)
  unfolding new
  polls-Whole h = let whole = body-Outcome.1 in ((whole h).0, omega (arith, (whole h).1))
