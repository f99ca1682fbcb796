-- ===== src/Lxd/SplitImageBody.antt =====
-- crates/lxd-client/src/split_image_body.rs: `SplitImageBody`, the request body of a split image upload,
-- and `poll_frame`. The file that it streams, and the bytes of a text, are parameters.
pub mod Whole
pub mod End
use openshell_driver_lxd.Common.{
  ℕ, zero, suc, ◌+◌, ◌-◌, ◌*◌, min, Bool, true, false, String, ◌<>◌, List, [], ◌∷◌, ◌++◌, Option,
  none, some, length, if◌then◌else◌, ◌==◌, nat_eq,
}
use openshell_driver_lxd.Common.Decimal.{show}

-- `ROOTFS_CHUNK_SIZE`
abbrev pub rootfs_chunk_size : ℕ
rootfs_chunk_size = 256 * 1024

pub data Stage : Type 0 where
  preamble rootfs closing done : Stage

-- What a poll of the file gives: nothing yet, the bytes that were read, none at its end, or an error.
pub data Read : Type 0 where
  not_yet : Read
  filled : List ℕ → Read
  failed : String → Read

-- The file, by `AsyncRead`: a poll with room for a number of bytes.
pub record File : Type 1 where
  pub State : Type 0
  pub poll_read : ℕ → State → Read × State

pub record SplitImageBody : Type 0 where
  pub state : Stage
  pub preamble : Option (List ℕ)
  pub rootfs_remaining : ℕ
  pub closing : Option (List ℕ)
  pub total_len : ℕ

-- What a poll of the body gives. `panicked` stands for an `expect` that fails.
pub data Poll : Type 0 where
  pending : Poll
  frame : List ℕ → Poll
  error : String → Poll
  end_of_stream : Poll
  panicked : Poll

module _ (as_bytes : String → List ℕ) where
  -- A part's boundary and headers.
  abbrev pub part_headers : String → String → String → List ℕ
  part_headers boundary name filename =
      as_bytes ("--" <> (boundary <> "\r\n"))
      ++ as_bytes (
          "Content-Disposition: form-data; name=\""
          <> (name <> ("\"; filename=\"" <> (filename <> "\"\r\n"))))
      ++ as_bytes "Content-Type: application/octet-stream\r\n\r\n"

  unfoldable pub preamble_of : String → List ℕ → String → String → List ℕ
  preamble_of metadata_filename metadata_bytes rootfs_filename boundary =
      part_headers boundary "metadata" metadata_filename
      ++ metadata_bytes
      ++ as_bytes "\r\n"
      ++ part_headers boundary "rootfs" rootfs_filename

  unfoldable pub closing_of : String → List ℕ
  closing_of boundary = as_bytes "\r\n" ++ as_bytes ("--" <> (boundary <> "--\r\n"))

  unfoldable pub new : String → List ℕ → String → ℕ → String → SplitImageBody
  new metadata_filename metadata_bytes rootfs_filename rootfs_len boundary =
      let before = preamble_of metadata_filename metadata_bytes rootfs_filename boundary in
      let after = closing_of boundary in
      record {
        state = preamble;
        preamble = some before;
        rootfs_remaining = rootfs_len;
        closing = some after;
        total_len = length before + rootfs_len + length after;
      }

module _ (F : File) where
  -- `State::Preamble`
  abbrev pub take_preamble : SplitImageBody → Option (List ℕ) → Poll × SplitImageBody
  take_preamble b none = (panicked, b)
  take_preamble b (some bytes) = (frame bytes, record b { state = rootfs; preamble = none })

  -- `State::Closing`
  abbrev pub take_closing : SplitImageBody → Option (List ℕ) → Poll × SplitImageBody
  take_closing b none = (panicked, record b { state = closing })
  take_closing b (some bytes) = (frame bytes, record b { state = done; closing = none })

  abbrev pub unexpected_eof : ℕ → String
  unexpected_eof remaining =
      "unexpected EOF reading rootfs: " <> (show remaining <> " bytes remaining")

  -- After a poll of the file.
  abbrev pub after_read : SplitImageBody → Read → Poll × SplitImageBody
  after_read b not_yet = (pending, b)
  after_read b (failed e) = (error e, b)
  after_read b (filled []) = (error (unexpected_eof b.rootfs_remaining), b)
  after_read b (filled (x ∷ xs)) =
      (frame (x ∷ xs), record b { rootfs_remaining = b.rootfs_remaining - length (x ∷ xs) })

  abbrev pub to_read : SplitImageBody → ℕ
  to_read b = min rootfs_chunk_size b.rootfs_remaining

  -- `State::Rootfs`. With nothing left the loop goes on in `State::Closing`.
  unfoldable pub poll_rootfs : SplitImageBody → F.State → (Poll × SplitImageBody) × F.State
  poll_rootfs b s =
      let (r, t) = F.poll_read (to_read b) s in
      if b.rootfs_remaining == 0 then (take_closing b b.closing, s) else (after_read b r, t)

  -- `poll_frame`, in the stage that is given.
  abbrev pub poll_in : Stage → SplitImageBody → F.State → (Poll × SplitImageBody) × F.State
  poll_in preamble b s = (take_preamble b b.preamble, s)
  poll_in rootfs b s = poll_rootfs b s
  poll_in closing b s = (take_closing b b.closing, s)
  poll_in done b s = ((end_of_stream, b), s)

  unfoldable pub poll_frame : SplitImageBody → F.State → (Poll × SplitImageBody) × F.State
  poll_frame b s = poll_in b.state b s

  -- After an error the client of the body does not poll again, nor after its end.
  abbrev pub is_last : Poll → Bool
  is_last pending = false
  is_last (frame bytes) = false
  is_last _ = true

  -- At most a number of polls one after another, and what they give.
  unfoldable pub polls : ℕ → SplitImageBody → F.State → List Poll
  polls zero b s = []
  polls (suc n) b s =
      let ((p, b'), t) = poll_frame b s in
      let rest = polls n b' t in if is_last p then p ∷ [] else p ∷ rest
