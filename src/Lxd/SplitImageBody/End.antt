-- ===== src/Lxd/SplitImageBody/End.antt =====
-- crates/lxd-client/src/split_image_body.rs: a body comes to its end.
use openshell_driver_lxd.Common.{
  ◌≡◌, refl, ap, ℕ, zero, suc, ◌+◌, ◌≤◌, ◌<◌, arith, String, List, [], ◌∷◌, Option, none, some,
  true, length, if◌then◌else◌, ◌==◌, nat_eq, Bool-cases, inl, inr, length-append,
}
use openshell_driver_lxd.Lxd.SplitImageBody.{
  Stage, preamble, rootfs, closing, done, filled, File, SplitImageBody, Poll, pending, frame, error,
  end_of_stream, panicked, new, take_preamble, take_closing, to_read, poll_rootfs, poll_in,
  poll_frame, is_last, polls,
}
use openshell_driver_lxd.Lxd.SplitImageBody.Whole.{
  Reads, is_finished, IsSome, SoundIn, Sound, at_stage,
}

module _ (F : File) (content : F.State → List ℕ) where
  -- A file that is read at once: where bytes are left and there is room, a poll takes some.
  pub record IsReady : Type 0 where
    pub takes :
        (room : ℕ) (s : F.State)
        → 0 < room
        → 0 < length (content s)
        → (b : ℕ) × (bs : List ℕ) × ((F.poll_read room s).0 ≡ filled (b ∷ bs))

  -- Polls that a body needs yet.
  abbrev needs_in : Stage → SplitImageBody → ℕ
  needs_in preamble b = b.rootfs_remaining + 3
  needs_in rootfs b = b.rootfs_remaining + 2
  needs_in closing b = 2
  needs_in done b = 1

  -- The file still holds what is to be sent.
  abbrev FullIn : Stage → SplitImageBody → F.State → Type 0
  FullIn preamble b s = b.rootfs_remaining ≤ length (content s)
  FullIn rootfs b s = b.rootfs_remaining ≤ length (content s)
  FullIn closing b s = Unit
  FullIn done b s = Unit

  -- A poll ends the stream, or sends a frame and needs one poll less.
  abbrev Goes : ℕ → Poll × SplitImageBody → F.State → Type 0
  Goes n (frame f, b) t = Sound F content b × FullIn b.state b t × (needs_in b.state b < n)
  Goes n (end_of_stream, b) t = Unit
  Goes n _ t = ⊥

  module _ (reads : Reads F content) (ready : IsReady) where
    take_preamble-Goes :
        (b : SplitImageBody) (o : Option (List ℕ)) (s : F.State)
        → IsSome F content o
        → IsSome F content b.closing
        → b.rootfs_remaining ≤ length (content s)
        → Goes (b.rootfs_remaining + 3) (take_preamble F b o) s
    take_preamble-Goes b none s h k l = h
    take_preamble-Goes b (some bytes) s h k l = (k, l, omega arith)

    take_closing-Goes :
        (b : SplitImageBody) (o : Option (List ℕ)) (s : F.State) (n : ℕ)
        → IsSome F content o
        → 2 ≤ n
        → Goes n (take_closing F b o) s
    take_closing-Goes b none s n h k = h
    take_closing-Goes b (some bytes) s n h k = (tt, tt, omega (arith, k))

    poll_rootfs-Goes :
        (b : SplitImageBody) (s : F.State)
        → IsSome F content b.closing
        → b.rootfs_remaining ≤ length (content s)
        → let (x, t) = poll_rootfs F (at_stage F content rootfs b) s in
          Goes (b.rootfs_remaining + 2) x t
    unfolding poll_rootfs
    poll_rootfs-Goes b s sound full = elim (Bool-cases (b.rootfs_remaining == 0)) [
      | inl f ↦
          rw f (take_closing-Goes (at_stage F content rootfs b) b.closing s _ sound (omega arith))
      | inr f ↦ rw f (
          let some_left : 0 < b.rootfs_remaining = ground (arith, f) in
          let (x, xs, taken) =
            ready.takes (to_read F b) s (omega (arith, some_left))
              (omega (arith, some_left, full)) in
          let (few, there) = reads.filled (to_read F b) s (x ∷ xs) taken in
          rw taken (
            sound,
            omega (
              arith,
              full,
              ap length there,
              length-append (x ∷ xs) (content (F.poll_read (to_read F b) s).1),
            ),
            omega (arith, few, some_left),
          ))
    ]

    poll_in-Goes :
        (st : Stage) (b : SplitImageBody) (s : F.State)
        → SoundIn F content st b
        → FullIn st b s
        → let (x, t) = poll_in F st (at_stage F content st b) s in Goes (needs_in st b) x t
    poll_in-Goes preamble b s sound full =
        take_preamble-Goes (at_stage F content preamble b) b.preamble s sound.0 sound.1 full
    poll_in-Goes rootfs b s sound full = poll_rootfs-Goes b s sound full
    poll_in-Goes closing b s sound full =
        take_closing-Goes (at_stage F content closing b) b.closing s 2 sound (omega arith)
    poll_in-Goes done b s sound full = tt

    first-finished :
        (n : ℕ) (p : Poll) (b : SplitImageBody) (t : F.State) (ps : List Poll)
        → Goes n (p, b) t
        → (Sound F content b → FullIn b.state b t → needs_in b.state b < n → is_finished ps ≡ true)
        → is_finished (if is_last F p then p ∷ [] else p ∷ ps) ≡ true
    first-finished n pending b t ps g ih = elim g [ ]
    first-finished n (frame f) b t ps g ih = ih g.0 g.1 g.2
    first-finished n (error e) b t ps g ih = elim g [ ]
    first-finished n end_of_stream b t ps g ih = refl
    first-finished n panicked b t ps g ih = elim g [ ]

    needs-some : (st : Stage) (b : SplitImageBody) → 0 < needs_in st b
    needs-some preamble b = omega arith
    needs-some rootfs b = omega arith
    needs-some closing b = omega arith
    needs-some done b = omega arith

    polls-finished :
        (n : ℕ) (b : SplitImageBody) (s : F.State)
        → Sound F content b
        → FullIn b.state b s
        → needs_in b.state b ≤ n
        → is_finished (polls F n b s) ≡ true
    unfolding polls poll_frame
    polls-finished zero b s sound full h = absurd (omega (arith, h, needs-some b.state b))
    polls-finished (suc n) b s sound full h =
        let ((p, b'), t) = poll_frame F b s in
        first-finished (needs_in b.state b) p b' t (polls F n b' t)
          (poll_in-Goes b.state b s sound full)
          (λ sound' full' less. polls-finished n b' t sound' full' (omega (arith, h, less)))

-- Where the file is read without waits and holds at least `rootfs_len` bytes: a new body comes to its
-- end within as many polls as there are bytes, and three.
pub polls-ends :
    (as_bytes : String → List ℕ) (F : File) (content : F.State → List ℕ)
    (metadata_filename : String) (metadata : List ℕ) (rootfs_filename : String) (rootfs_len : ℕ)
    (boundary : String) (s : F.State)
    → Reads F content
    → IsReady F content
    → rootfs_len ≤ length (content s)
    → is_finished (
        polls F
          (rootfs_len + 3)
          (new as_bytes metadata_filename metadata rootfs_filename rootfs_len boundary)
          s)
      ≡ true
unfolding new
polls-ends as_bytes F content metadata_filename metadata rootfs_filename rootfs_len boundary s reads
      ready long =
    polls-finished F content reads ready (rootfs_len + 3)
      (new as_bytes metadata_filename metadata rootfs_filename rootfs_len boundary) s (tt, tt) long
      (omega arith)
