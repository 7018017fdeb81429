-- ===== src/Enclave/ByteBuf.antt =====
-- enclave/src/ffi/bytebuf.rs: a buffer of bytes that is handed to the C library, and its release.
-- Rust's allocator and the library's clean-up are parameters, and a pointer is a number, null is 0.
use native.Mathlib.Decide.{ℕ_discrete}
use sp1_tee.Prelude.{ℕ, zero, suc, ◌<◌, ◌≡◌, ◌≢◌, ◌∙◌, sym, List, Option, none, some, length}

pub record AwsByteBuf : Type 0 where
  pub len : ℕ
  pub buffer : ℕ
  pub capacity : ℕ
  pub allocator : ℕ

pub record Memory : Type 1 where
  pub Heap : Type 0
  pub alloc : (size : ℕ) → Heap → ℕ × Heap
  pub copy_nonoverlapping : (source : List ℕ) (target : ℕ) → Heap → Heap
  pub dealloc : (buffer size : ℕ) → Heap → Heap
  pub aws_byte_buf_clean_up : AwsByteBuf → Heap → Heap

-- What Rust documents of its allocator: null, or a new block of some bytes, not in use before, which
-- can be written and given back; nothing is said of a block of no bytes.
pub record MemoryLaws (m : Memory) : Type 0 where
  pub block : m.Heap → ℕ → Option (List ℕ)
  pub alloc_new :
      (n : ℕ) (s : m.Heap) → 0 < n → (m.alloc n s).0 ≢ 0 → block s (m.alloc n s).0 ≡ none
  pub alloc_block :
      (n : ℕ) (s : m.Heap)
      → 0 < n
      → (m.alloc n s).0 ≢ 0
      → (bytes : List ℕ) × (length bytes ≡ n) × (block (m.alloc n s).1 (m.alloc n s).0 ≡ some bytes)
  pub alloc_others :
      (n p : ℕ) (s : m.Heap)
      → 0 < n
      → (m.alloc n s).0 ≢ 0
      → p ≢ (m.alloc n s).0
      → block (m.alloc n s).1 p ≡ block s p
  pub copied :
      (source old : List ℕ) (target : ℕ) (s : m.Heap)
      → block s target ≡ some old
      → length source ≡ length old
      → block (m.copy_nonoverlapping source target s) target ≡ some source
  pub copy_others :
      (source old : List ℕ) (target p : ℕ) (s : m.Heap)
      → block s target ≡ some old
      → length source ≡ length old
      → p ≢ target
      → block (m.copy_nonoverlapping source target s) p ≡ block s p
  pub released :
      (bytes : List ℕ) (buffer : ℕ) (s : m.Heap)
      → block s buffer ≡ some bytes
      → block (m.dealloc buffer (length bytes) s) buffer ≡ none
  pub release_others :
      (bytes : List ℕ) (buffer p : ℕ) (s : m.Heap)
      → block s buffer ≡ some bytes
      → p ≢ buffer
      → block (m.dealloc buffer (length bytes) s) p ≡ block s p

module _ (m : Memory) where
  open m use {Heap, alloc, copy_nonoverlapping, dealloc, aws_byte_buf_clean_up}

  -- `AWSByteBuf::from`, of a slice
  unfoldable pub from : List ℕ → Heap → AwsByteBuf × Heap
  from value s =
      let len = length value in
      let (buffer, s') = alloc len s in
      (
        record { len = len; buffer = buffer; capacity = len; allocator = 0 },
        copy_nonoverlapping value buffer s',
      )

  -- A buffer without an allocator came from Rust, and any other from the library.
  pub release : AwsByteBuf → ℕ → Heap → Heap
  release buf zero s = dealloc buf.buffer buf.len s
  release buf (suc _) s = aws_byte_buf_clean_up buf s

  pub drop : AwsByteBuf → Heap → Heap
  unfolding release
  drop buf s = release buf buf.allocator s

  module _ (laws : MemoryLaws m) where
    open laws use {block}

    -- With an allocator that keeps its documented promises and has not returned null, and bytes of
    -- which there is at least one: the block that the buffer made of the bytes points to holds exactly the bytes.
    pub block-from :
        (value : List ℕ) (s : Heap)
        → 0 < length value
        → (from value s).0.buffer ≢ 0
        → block (from value s).1 (from value s).0.buffer ≡ some value
    unfolding from
    block-from value s h got =
        let (bytes, long, there) = laws.alloc_block (length value) s h got in
        laws.copied value bytes _ _ there (sym long)

    others-from :
        (value : List ℕ) (p : ℕ) (s : Heap)
        → 0 < length value
        → (from value s).0.buffer ≢ 0
        → p ≢ (from value s).0.buffer
        → block (from value s).1 p ≡ block s p
    unfolding from
    others-from value p s h got other =
        let (bytes, long, there) = laws.alloc_block (length value) s h got in
        laws.copy_others value bytes _ p _ there (sym long) other
        ∙ laws.alloc_others (length value) p s h got other

    -- With an allocator that keeps its documented promises (`MemoryLaws`) and bytes of which there
    -- is at least one: if the allocator did not return null, making a buffer of the bytes and
    -- dropping it leaves every block of the heap as it was before.
    pub drop-from :
        (value : List ℕ) (p : ℕ) (s : Heap)
        → 0 < length value
        → (from value s).0.buffer ≢ 0
        → block (drop (from value s).0 (from value s).1) p ≡ block s p
    unfolding from drop
    drop-from value p s h got = elim (ℕ_discrete p (from value s).0.buffer) [
      | yes same ↦ rw same (
          laws.released value _ _ (block-from value s h got)
          ∙ sym (laws.alloc_new (length value) s h got))
      | no other ↦
          laws.release_others value _ p _ (block-from value s h got) other
          ∙ others-from value p s h got other
    ]
